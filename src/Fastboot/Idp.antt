-- ===== src/Fastboot/Idp.antt =====
-- The handlers of oem idpinit, idpwrite, idpgetblk and idpdone (fastboot/device/commands.cpp),
-- with the texts of the reasons that rpiidp/src/device.cpp gives.
pub mod Reasons
pub mod Open
pub mod Reachable
pub mod Reply
use rpi_fastbootd.Prelude.{
  ℕ, zero, suc, ◌+◌, ◌-◌, ◌*◌, ◌/◌, ◌%◌, ◌^◌, ◌≤◌, ◌<◌, ◌≡◌, refl, sym, ap, subst, ◌∙◌, fun_ext,
  ◌≢◌, ◌↔◌, ◌⊎◌, inl, inr, Bool, true, false, not, ◌&&◌, ◌||◌, Option, none, some, List, [], ◌∷◌,
  ◌++◌, map, append_assoc, append-nil, arith, ltb, leb, ◌==◌, if◌then◌else◌, ltb→lt, le→leb, ==_iff,
  Bool-cases, Option-cases, has_value, u64_mod, u64, if-elim, length, get_elem?, set, take,
  length-append, length-take, length-set, get_elem?-set_self, get_elem?-set_ne, get_elem?-lt-length,
  get_elem?-eq-none, ℕ_discrete,
}
use rpi_fastbootd.Prelude.Text.{
  Text, codes, text_eq, text_eq_sound, text_eq_refl, is_empty, is_digit, decimal, decimal_fuel,
  digits_value, digits_value-decimal, decimal-injective, to_lower, starts_with, contains,
  after_last_slash,
}
use rpi_fastbootd.Prelude.Outcome.{
  Outcome, Outcome-cases, Fault, ok, throw, deref, overflow_error, invalid_argument, out_of_range,
  logic_error, div_by_zero, bad_optional, runtime_error, stack_exhausted, ◌>>=◌, ◌>>◌,
}
use rpi_fastbootd.Idp.Storage.{Image}
use rpi_fastbootd.Idp.Device.Platform.{Parser, Platform, Device, Reason, Verdict, partitioned}
use rpi_fastbootd.Idp.Device.Lifecycle.{
  is_state, state_number, new_device, initialise, can_provision, create_cookie, start_provision,
  end_provision, get_next_block_device, BlockDevice, Cookie,
}
use rpi_fastbootd.Fastboot.Transport.{Transport, FastbootDevice}
use rpi_fastbootd.Fastboot.Response.{write_okay, write_fail, write_info}
use rpi_fastbootd.Fastboot.Session.{is_exception}
use rpi_fastbootd.Fastboot.Idp.Reasons.{describe}

-- The name under /dev/, and the image to write there.
unfoldable pub block_line : BlockDevice → Text
block_line bd =
    (if starts_with bd.dev (codes "/dev/") then skip 5 bd.dev else bd.dev) ++ codes ":" ++ bd.simg
  where
    skip : ℕ → Text → Text
    skip zero s = s
    skip (suc n) [] = []
    skip (suc n) (c ∷ s) = skip n s

pub data IdpCommand : Type 0 where
  idpinit idpwrite idpgetblk idpdone : IdpCommand

-- What a handler gives: the result and whether it was sent, or what it throws.
abbrev pub Handled : Parser → Type 0 → Type 0
Handled P World = Outcome Bool × FastbootDevice P × World

module _ {P : Parser} {World : Type 0} where
  -- A status as the result of a handler.
  abbrev pub reply : Bool × FastbootDevice P × World → Handled P World
  reply (sent, fb, w) = (ok sent, fb, w)

module _ {P : Parser} where
  abbrev pub without_idp : FastbootDevice P → FastbootDevice P
  without_idp fb = record fb { idp = none }

  abbrev pub with_idp : FastbootDevice P → Device P → FastbootDevice P
  with_idp fb d = record fb { idp = some d }

module _ {P : Parser} {World : Type 0} (p : Platform World) (t : Transport World)
    (what : Fault → Text) where
  -- oem idpinit from where canProvision has answered.
  unfoldable pub finish_init :
      Outcome Verdict → Device P → FastbootDevice P → World → Handled P World
  finish_init (throw e) d fb w = (throw e, with_idp fb d, w)
  finish_init (ok (false, why)) d fb w =
      reply (write_fail t (codes "IDP:cannot provision: " ++ describe why) (without_idp fb) w)
  finish_init (ok (true, why)) d fb w = reply (
      write_okay t (codes "IDP:ready")
        (record (with_idp fb d) { idpcookie = some (create_cookie d) }) w)

  -- oem idpinit from where Initialise has answered: an exception is caught, a trap is not.
  unfoldable pub check_init :
      Outcome Verdict → Device P → FastbootDevice P → World → Handled P World
  unfolding finish_init
  check_init (throw e) d fb w =
      if is_exception e
      then reply (write_fail t (codes "IDP:invalid description: " ++ what e) (without_idp fb) w)
      else (throw e, with_idp fb d, w)
  check_init (ok (false, why)) d fb w =
      reply (write_fail t (codes "IDP:invalid description: " ++ describe why) (without_idp fb) w)
  check_init (ok (true, why)) d fb w =
      let (verdict, d', w1) = can_provision p d w in finish_init verdict d' fb w1

  -- oem idpinit. A new device has a random session number, and members with no value yet.
  unfoldable pub idp_init :
      (World → ℕ × World) → Image → ℕ → ℕ → FastbootDevice P → World → Handled P World
  unfolding check_init
  idp_init random image dcap isize fb w =
      let (session_id, w1) = random w in
      let (verdict, d) = initialise (new_device image session_id dcap isize) fb.download_data in
      if is_empty fb.download_data
      then reply (write_fail t (codes "IDP:No data. Check description was staged") fb w)
      else if has_value fb.idp
      then reply (write_fail t (codes "IDP:already initialised") fb w)
      else check_init verdict d fb w1

  -- oem idpwrite from where startProvision has answered.
  unfoldable pub finish_write : Outcome Verdict → FastbootDevice P → World → Handled P World
  finish_write (throw e) fb w = (throw e, fb, w)
  finish_write (ok (false, why)) fb w =
      reply (write_fail t (codes "IDP:failed to start provisioning: " ++ describe why) fb w)
  finish_write (ok (true, why)) fb w = reply (write_okay t (codes "IDP:ok") fb w)

  -- oem idpwrite by what the session holds.
  unfoldable pub write_device : Option (Device P) → FastbootDevice P → World → Handled P World
  unfolding finish_write
  write_device none fb w = reply (write_fail t (codes "IDP:not initialised") fb w)
  write_device (some d) fb w =
      let (verdict, d', w1) = start_provision p d w in finish_write verdict (with_idp fb d') w1

  -- oem idpwrite
  unfoldable pub idp_write : FastbootDevice P → World → Handled P World
  unfolding write_device
  idp_write fb w = write_device fb.idp fb w

  -- The INFO of oem idpgetblk; whether it is sent makes no difference.
  unfoldable pub tell_block_device :
      Option BlockDevice → FastbootDevice P → World → FastbootDevice P × World
  tell_block_device none fb w = (fb, w)
  tell_block_device (some bd) fb w =
      let (sent, fb', w1) = write_info t (block_line bd) fb w in (fb', w1)

  -- oem idpgetblk for a device and the cookie of the session.
  unfoldable pub get_block : Device P → Option Cookie → FastbootDevice P → World → Handled P World
  unfolding tell_block_device
  get_block d none fb w = (throw bad_optional, fb, w)
  get_block d (some c) fb w =
      let (bd, c') = get_next_block_device d c in
      let (fb', w1) = tell_block_device bd (record fb { idpcookie = some c' }) w in
      reply (write_okay t (codes "IDP:done") fb' w1)

  -- oem idpgetblk by what the session holds.
  unfoldable pub getblk_device : Option (Device P) → FastbootDevice P → World → Handled P World
  unfolding get_block
  getblk_device none fb w = reply (write_fail t (codes "IDP:not initialised") fb w)
  getblk_device (some d) fb w =
      if is_state d.state partitioned
      then get_block d fb.idpcookie fb w
      else reply (
          write_fail t
            (codes "IDP:not partitioned (state " ++ decimal (state_number d.state) ++ codes ")") fb
            w)

  -- oem idpgetblk
  unfoldable pub idp_getblk : FastbootDevice P → World → Handled P World
  unfolding getblk_device
  idp_getblk fb w = getblk_device fb.idp fb w

  -- oem idpdone by what the session holds.
  unfoldable pub done_device : Option (Device P) → FastbootDevice P → World → Handled P World
  done_device none fb w = reply (write_okay t (codes "IDP:not initialised") fb w)
  done_device (some d) fb w =
      let (finished, d', w1) = end_provision p d w in
      if finished
      then reply (write_okay t (codes "IDP:done") (without_idp fb) w1)
      else reply (
          write_fail t
            (codes "IDP:error finalising (state " ++ decimal (state_number d'.state) ++ codes ")")
            (without_idp fb) w1)

  -- oem idpdone
  unfoldable pub idp_done : FastbootDevice P → World → Handled P World
  unfolding done_device
  idp_done fb w = done_device fb.idp fb w

  -- OemCmdHandler, on the names of the idp commands.
  unfoldable pub run_idp :
      (World → ℕ × World) → Image → ℕ → ℕ → IdpCommand → FastbootDevice P → World → Handled P World
  run_idp random image dcap isize idpinit fb w = idp_init random image dcap isize fb w
  run_idp random image dcap isize idpwrite fb w = idp_write fb w
  run_idp random image dcap isize idpgetblk fb w = idp_getblk fb w
  run_idp random image dcap isize idpdone fb w = idp_done fb w
