-- ===== src/Fastboot/Idp/Open.antt =====
-- What a session holds between the idp commands.
use rpi_fastbootd.Prelude.{
  ℕ, ◌≡◌, refl, sym, ◌∙◌, Bool, true, false, Option, none, some, arith, has_value, if-elim,
}
use rpi_fastbootd.Prelude.Text.{Text, is_empty}
use rpi_fastbootd.Prelude.Outcome.{Outcome, Fault, ok, throw}
use rpi_fastbootd.Idp.Storage.{Image}
use rpi_fastbootd.Idp.Device.Platform.{
  Parser, Platform, Device, Reason, Verdict, partitioned, ready,
}
use rpi_fastbootd.Idp.Device.Lifecycle.{
  is_state, can_provision, create_cookie, start_provision, end_provision, get_next_block_device,
  BlockDevice, Cookie,
}
use rpi_fastbootd.Idp.Device.Gate.{IsSized, can_provision-accept}
use rpi_fastbootd.Idp.Device.Frame.{start_provision_frame}
use rpi_fastbootd.Fastboot.Transport.{Transport, FastbootDevice, Result, okay, fail, info}
use rpi_fastbootd.Fastboot.Response.{write_status}
use rpi_fastbootd.Fastboot.Response.Laws.{write_status_frame}
use rpi_fastbootd.Fastboot.Idp.{
  Handled, reply, with_idp, finish_init, check_init, idp_init, finish_write, idp_write,
  tell_block_device, block_line, get_block, idp_getblk, idp_done, write_device, getblk_device,
  done_device, run_idp, IdpCommand, idpinit, idpwrite, idpgetblk, idpdone,
}
use rpi_fastbootd.Fastboot.Session.{is_exception}

-- A device with the cookie of its session; while it is ready, its sizes have been checked.
pub record IsOpen {P : Parser} {World : Type 0} (p : Platform World) (d : Device P)
    (cookie : Option Cookie) : Type 0 where
  pub handle : Cookie
  pub held : cookie ≡ some handle
  pub same_session : handle.session_id ≡ d.session_id
  pub sized : d.state ≡ ready → IsSized p d

-- The idp device of a session, if there is one, is open.
abbrev pub SessionIsOpen :
    {P : Parser} {World : Type 0} → Platform World → Option (Device P) → Option Cookie → Type 0
SessionIsOpen p none cookie = Unit
SessionIsOpen p (some d) cookie = IsOpen p d cookie

abbrev pub HoldsOpen : {P : Parser} {World : Type 0} → Platform World → Handled P World → Type 0
HoldsOpen p (ok sent, fb, w) = SessionIsOpen p fb.idp fb.idpcookie
HoldsOpen p (throw e, fb, w) = Unit

-- A handler that returns, with whatever result.
abbrev pub Returns : {P : Parser} {World : Type 0} → Handled P World → Type 0
Returns (r, fb, w) = (sent : Bool) × (r ≡ ok sent)

module _ {P : Parser} {World : Type 0} (p : Platform World) (t : Transport World)
    (what : Fault → Text) where
  reply-HoldsOpen :
      (result : Result) (message : Text) (fb : FastbootDevice P) (w : World)
      → SessionIsOpen p fb.idp fb.idpcookie
      → HoldsOpen p (reply (write_status t result message fb w))
  reply-HoldsOpen result message fb w h =
      let (same_idp, same_cookie, _, _, _) = write_status_frame t result message fb w in
      rw (same_idp, same_cookie) h

  finish_init-HoldsOpen :
      (verdict : Outcome Verdict) (d : Device P) (fb : FastbootDevice P) (w : World)
      → ((why : Option Reason) → verdict ≡ ok (true, why) → d.state ≡ ready → IsSized p d)
      → HoldsOpen p (finish_init p t what verdict d fb w)
  unfolding finish_init create_cookie
  finish_init-HoldsOpen (throw e) d fb w h = tt
  finish_init-HoldsOpen (ok (false, why)) d fb w h = reply-HoldsOpen fail _ _ w tt
  finish_init-HoldsOpen (ok (true, why)) d fb w h =
      reply-HoldsOpen okay _ _ w
        record { handle = create_cookie d; held = refl; same_session = refl; sized = h why refl }

  check_init-HoldsOpen :
      (verdict : Outcome Verdict) (d : Device P) (fb : FastbootDevice P) (w : World)
      → HoldsOpen p (check_init p t what verdict d fb w)
  unfolding check_init
  check_init-HoldsOpen (throw e) d fb w =
      if-elim (HoldsOpen p) (is_exception e) (λ _. reply-HoldsOpen fail _ _ w tt) (λ _. tt)
  check_init-HoldsOpen (ok (false, why)) d fb w = reply-HoldsOpen fail _ _ w tt
  check_init-HoldsOpen (ok (true, why)) d fb w =
      finish_init-HoldsOpen (can_provision p d w).0 (can_provision p d w).1 fb _ λ r accepted _.
        let (_, _, sized, _, _, _, _) = can_provision-accept p d w r accepted in sized

  write_device-HoldsOpen :
      (idp : Option (Device P)) (fb : FastbootDevice P) (w : World)
      → SessionIsOpen p idp fb.idpcookie
      → fb.idp ≡ idp
      → HoldsOpen p (write_device p t what idp fb w)
  unfolding write_device finish_write
  write_device-HoldsOpen none fb w h e = reply-HoldsOpen fail _ fb w (rw e tt)
  write_device-HoldsOpen (some d) fb w h e =
      finish (start_provision p d w).0 (with_idp fb (start_provision p d w).1) _ kept
    where
      finish :
          (verdict : Outcome Verdict) (fb : FastbootDevice P) (w : World)
          → SessionIsOpen p fb.idp fb.idpcookie
          → HoldsOpen p (finish_write p t what verdict fb w)
      finish (throw e) fb w h = tt
      finish (ok (false, why)) fb w h = reply-HoldsOpen fail _ fb w h
      finish (ok (true, why)) fb w h = reply-HoldsOpen okay _ fb w h

      kept : IsOpen p (start_provision p d w).1 fb.idpcookie
      kept =
          let (same, _, left) = start_provision_frame p d w in
          record {
            handle = h.handle;
            held = h.held;
            same_session = h.same_session ∙ sym same;
            sized = λ at_ready. absurd (left at_ready);
          }

  tell_keeps :
      (bd : Option BlockDevice) (fb : FastbootDevice P) (w : World)
      → let (fb', w') = tell_block_device p t what bd fb w in
        (fb'.idp ≡ fb.idp) × (fb'.idpcookie ≡ fb.idpcookie)
  unfolding tell_block_device
  tell_keeps none fb w = (refl, refl)
  tell_keeps (some bd) fb w =
      let (same_idp, same_cookie, _, _, _) = write_status_frame t info (block_line bd) fb w in
      (same_idp, same_cookie)

  cookie_session :
      (d : Device P) (c : Cookie) → (get_next_block_device d c).1.session_id ≡ c.session_id
  unfolding get_next_block_device
  cookie_session d c = ground arith

  get_block-HoldsOpen :
      (d : Device P) (cookie : Option Cookie) (fb : FastbootDevice P) (w : World)
      → IsOpen p d cookie
      → fb.idp ≡ some d
      → HoldsOpen p (get_block p t what d cookie fb w)
  unfolding get_block
  get_block-HoldsOpen d none fb w h e = tt
  get_block-HoldsOpen d (some c) fb w h e =
      let (bd, c') = get_next_block_device d c in
      let (same_idp, same_cookie) = tell_keeps bd (record fb { idpcookie = some c' }) w in
      reply-HoldsOpen okay _ _ _ (
        rw (same_idp, same_cookie, e)
          (record {
            handle = c';
            held = refl;
            same_session = cookie_session d c ∙ cc h.held ∙ h.same_session;
            sized = h.sized;
          }))

  getblk_device-HoldsOpen :
      (idp : Option (Device P)) (fb : FastbootDevice P) (w : World)
      → SessionIsOpen p idp fb.idpcookie
      → fb.idp ≡ idp
      → HoldsOpen p (getblk_device p t what idp fb w)
  unfolding getblk_device
  getblk_device-HoldsOpen none fb w h e = reply-HoldsOpen fail _ fb w (rw e tt)
  getblk_device-HoldsOpen (some d) fb w h e =
      if-elim (HoldsOpen p) (is_state d.state partitioned)
        (λ _. get_block-HoldsOpen d fb.idpcookie fb w h e)
        (λ _. reply-HoldsOpen fail _ fb w (rw e h))

  done_device-HoldsOpen :
      (idp : Option (Device P)) (fb : FastbootDevice P) (w : World)
      → fb.idp ≡ idp
      → HoldsOpen p (done_device p t what idp fb w)
  unfolding done_device
  done_device-HoldsOpen none fb w e = reply-HoldsOpen okay _ fb w (rw e tt)
  done_device-HoldsOpen (some d) fb w e =
      if-elim (HoldsOpen p) (end_provision p d w).0 (λ _. reply-HoldsOpen okay _ _ _ tt)
        (λ _. reply-HoldsOpen fail _ _ _ tt)

  pub run_idp-HoldsOpen :
      (random : World → ℕ × World) (image : Image) (dcap isize : ℕ) (c : IdpCommand)
      (fb : FastbootDevice P) (w : World)
      → SessionIsOpen p fb.idp fb.idpcookie
      → HoldsOpen p (run_idp p t what random image dcap isize c fb w)
  unfolding run_idp idp_init idp_write idp_getblk idp_done
  run_idp-HoldsOpen random image dcap isize idpinit fb w h =
      if-elim (HoldsOpen p) (is_empty fb.download_data) (λ _. reply-HoldsOpen fail _ fb w h)
        λ _.
          if-elim (HoldsOpen p) (has_value fb.idp) (λ _. reply-HoldsOpen fail _ fb w h)
            λ _. check_init-HoldsOpen _ _ fb _
  run_idp-HoldsOpen random image dcap isize idpwrite fb w h =
      write_device-HoldsOpen fb.idp fb w h refl
  run_idp-HoldsOpen random image dcap isize idpgetblk fb w h =
      getblk_device-HoldsOpen fb.idp fb w h refl
  run_idp-HoldsOpen random image dcap isize idpdone fb w h = done_device-HoldsOpen fb.idp fb w refl

  get_block-Returns :
      (d : Device P) (cookie : Option Cookie) (fb : FastbootDevice P) (w : World)
      → IsOpen p d cookie
      → Returns (get_block p t what d cookie fb w)
  unfolding get_block
  get_block-Returns d none fb w h = absurd (cc h.held)
  get_block-Returns d (some c) fb w h = (_, refl)

  -- In an open session oem idpgetblk always has a cookie to read: it returns, and never reads an
  -- empty one.
  pub idp_getblk-Returns :
      (fb : FastbootDevice P) (w : World)
      → SessionIsOpen p fb.idp fb.idpcookie
      → Returns (idp_getblk p t what fb w)
  unfolding idp_getblk getblk_device
  idp_getblk-Returns fb w h = by_device fb.idp h
    where
      by_device :
          (idp : Option (Device P))
          → SessionIsOpen p idp fb.idpcookie
          → Returns (getblk_device p t what idp fb w)
      by_device none h = (_, refl)
      by_device (some d) h =
          if-elim Returns (is_state d.state partitioned)
            (λ _. get_block-Returns d fb.idpcookie fb w h) (λ _. (_, refl))
