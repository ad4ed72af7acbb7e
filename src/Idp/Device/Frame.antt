-- ===== src/Idp/Device/Frame.antt =====
-- What startProvision leaves of a device, whatever the system below it does.
use rpi_fastbootd.Prelude.{◌≡◌, refl, ◌∙◌, ◌≢◌, inl, inr, true, false, arith, Bool-cases}
use rpi_fastbootd.Prelude.Outcome.{Outcome, ok, throw}
use rpi_fastbootd.Idp.Device.Platform.{Parser, Platform, Device, ready, writing, Verdict}
use rpi_fastbootd.Idp.Device.Lifecycle.{is_state, prepare_storage, finish_start, start_provision}

module _ {P : Parser} {World : Type 0} (p : Platform World) where
  prepare_storage_frame :
      (d : Device P) (w : World)
      → let (verdict, d', w') = prepare_storage p d w in
        (d'.state ≡ d.state) × (d'.session_id ≡ d.session_id) × (d'.image ≡ d.image)
  unfolding prepare_storage
  prepare_storage_frame d w = ground arith

  finish_start_frame :
      (prepared : Outcome Verdict) (d : Device P)
      → let (verdict, d') = finish_start p prepared d in
        (d'.session_id ≡ d.session_id)
        × (d'.image ≡ d.image)
        × (d.state ≡ writing → d'.state ≢ ready)
  unfolding finish_start
  finish_start_frame (throw e) d = ground arith
  finish_start_frame (ok (false, why)) d = ground arith
  finish_start_frame (ok (true, why)) d = ground arith

  -- startProvision keeps the image and the session of a device, and no device is ready after it.
  pub start_provision_frame :
      (d : Device P) (w : World)
      → let (verdict, d', w') = start_provision p d w in
        (d'.session_id ≡ d.session_id) × (d'.image ≡ d.image) × (d'.state ≢ ready)
  unfolding start_provision
  start_provision_frame d w = elim (Bool-cases (is_state d.state ready)) [
    | inl e ↦ rw e (
        let d1 : Device P = record d { state = writing } in
        let prepared = prepare_storage p d1 w in
        let (kept, same, image) = prepare_storage_frame d1 w in
        let (same', image', left) = finish_start_frame prepared.0 prepared.1 in
        (same' ∙ same, image' ∙ image, left kept))
    | inr e ↦ rw e (refl, refl, λ at_ready. absurd (cc (e, at_ready)))
  ]
