-- ===== src/Fastboot/Idp/Reply.antt =====
-- The replies of the idp commands.
use rpi_fastbootd.Prelude.{ℕ, ◌≡◌, refl, true, false, Option, none, some, has_value, if-elim}
use rpi_fastbootd.Prelude.Text.{Text, is_empty}
use rpi_fastbootd.Prelude.Outcome.{Outcome, Fault, ok, throw}
use rpi_fastbootd.Idp.Storage.{Image}
use rpi_fastbootd.Idp.Device.Platform.{Parser, Platform, Device, Verdict, partitioned}
use rpi_fastbootd.Idp.Device.Lifecycle.{is_state, start_provision, end_provision, Cookie}
use rpi_fastbootd.Fastboot.Transport.{Transport, FastbootDevice, Result, okay, fail}
use rpi_fastbootd.Fastboot.Response.{write_status, is_final}
use rpi_fastbootd.Fastboot.Response.Laws.{IsSettled, write_status-IsSettled}
use rpi_fastbootd.Fastboot.Idp.{
  Handled, reply, finish_init, check_init, idp_init, finish_write, idp_write, get_block, idp_getblk,
  idp_done, write_device, getblk_device, done_device, with_idp, run_idp, IdpCommand, idpinit,
  idpwrite, idpgetblk, idpdone,
}
use rpi_fastbootd.Fastboot.Session.{is_exception}

-- A handler that returns has replied, unless the transport has failed under the reply.
abbrev pub IsAnswered : {P : Parser} {World : Type 0} → Handled P World → Type 0
IsAnswered (ok sent, fb, w) = IsSettled (sent, fb, w)
IsAnswered (throw e, fb, w) = Unit

module _ {P : Parser} {World : Type 0} (p : Platform World) (t : Transport World)
    (what : Fault → Text) where
  answered :
      (result : Result) (message : Text) (fb : FastbootDevice P) (w : World)
      → is_final result ≡ true
      → IsAnswered (reply (write_status t result message fb w))
  answered result message fb w h = write_status-IsSettled t result message fb w h

  finish_init-IsAnswered :
      (verdict : Outcome Verdict) (d : Device P) (fb : FastbootDevice P) (w : World)
      → IsAnswered (finish_init p t what verdict d fb w)
  unfolding finish_init
  finish_init-IsAnswered (throw e) d fb w = tt
  finish_init-IsAnswered (ok (false, why)) d fb w = answered fail _ _ w refl
  finish_init-IsAnswered (ok (true, why)) d fb w = answered okay _ _ w refl

  check_init-IsAnswered :
      (verdict : Outcome Verdict) (d : Device P) (fb : FastbootDevice P) (w : World)
      → IsAnswered (check_init p t what verdict d fb w)
  unfolding check_init
  check_init-IsAnswered (throw e) d fb w =
      if-elim IsAnswered (is_exception e) (λ _. answered fail _ _ w refl) (λ _. tt)
  check_init-IsAnswered (ok (false, why)) d fb w = answered fail _ _ w refl
  check_init-IsAnswered (ok (true, why)) d fb w = finish_init-IsAnswered _ _ fb _

  write_device-IsAnswered :
      (idp : Option (Device P)) (fb : FastbootDevice P) (w : World)
      → IsAnswered (write_device p t what idp fb w)
  unfolding write_device finish_write
  write_device-IsAnswered none fb w = answered fail _ fb w refl
  write_device-IsAnswered (some d) fb w =
      finish (start_provision p d w).0 (with_idp fb (start_provision p d w).1) _
    where
      finish :
          (verdict : Outcome Verdict) (fb : FastbootDevice P) (w : World)
          → IsAnswered (finish_write p t what verdict fb w)
      finish (throw e) fb w = tt
      finish (ok (false, why)) fb w = answered fail _ fb w refl
      finish (ok (true, why)) fb w = answered okay _ fb w refl

  get_block-IsAnswered :
      (d : Device P) (cookie : Option Cookie) (fb : FastbootDevice P) (w : World)
      → IsAnswered (get_block p t what d cookie fb w)
  unfolding get_block
  get_block-IsAnswered d none fb w = tt
  get_block-IsAnswered d (some c) fb w = answered okay _ _ _ refl

  getblk_device-IsAnswered :
      (idp : Option (Device P)) (fb : FastbootDevice P) (w : World)
      → IsAnswered (getblk_device p t what idp fb w)
  unfolding getblk_device
  getblk_device-IsAnswered none fb w = answered fail _ fb w refl
  getblk_device-IsAnswered (some d) fb w =
      if-elim IsAnswered (is_state d.state partitioned)
        (λ _. get_block-IsAnswered d fb.idpcookie fb w) (λ _. answered fail _ fb w refl)

  done_device-IsAnswered :
      (idp : Option (Device P)) (fb : FastbootDevice P) (w : World)
      → IsAnswered (done_device p t what idp fb w)
  unfolding done_device
  done_device-IsAnswered none fb w = answered okay _ fb w refl
  done_device-IsAnswered (some d) fb w =
      if-elim IsAnswered (end_provision p d w).0 (λ _. answered okay _ _ _ refl)
        (λ _. answered fail _ _ _ refl)

  -- Whatever the system below and the transport do, an idp command that returns has sent the host
  -- its OKAY or FAIL, or has found that the transport no longer carries one.
  pub run_idp-IsAnswered :
      (random : World → ℕ × World) (image : Image) (dcap isize : ℕ) (c : IdpCommand)
      (fb : FastbootDevice P) (w : World)
      → IsAnswered (run_idp p t what random image dcap isize c fb w)
  unfolding run_idp idp_init idp_write idp_getblk idp_done
  run_idp-IsAnswered random image dcap isize idpinit fb w =
      if-elim IsAnswered (is_empty fb.download_data) (λ _. answered fail _ fb w refl)
        λ _.
          if-elim IsAnswered (has_value fb.idp) (λ _. answered fail _ fb w refl)
            λ _. check_init-IsAnswered _ _ fb _
  run_idp-IsAnswered random image dcap isize idpwrite fb w = write_device-IsAnswered fb.idp fb w
  run_idp-IsAnswered random image dcap isize idpgetblk fb w = getblk_device-IsAnswered fb.idp fb w
  run_idp-IsAnswered random image dcap isize idpdone fb w = done_device-IsAnswered fb.idp fb w
