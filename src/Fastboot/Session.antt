-- ===== src/Fastboot/Session.antt =====
-- FastbootDevice::ExecuteCommands and HandleData (fastboot/device/fastboot_device.cpp), and
-- DecideAfterCommand (fastboot/device/session_policy.h).
pub mod Laws
use rpi_fastbootd.Prelude.{
  ℕ, zero, suc, ◌+◌, ◌-◌, ◌*◌, ◌/◌, ◌%◌, ◌^◌, ◌≤◌, ◌<◌, ◌≡◌, refl, sym, ap, subst, ◌∙◌, fun_ext,
  ◌≢◌, ◌↔◌, ◌⊎◌, inl, inr, Bool, true, false, not, ◌&&◌, ◌||◌, Option, none, some, List, [], ◌∷◌,
  ◌++◌, map, append_assoc, append-nil, arith, ltb, leb, ◌==◌, if◌then◌else◌, ltb→lt, le→leb, ==_iff,
  Bool-cases, Option-cases, has_value, u64_mod, u64, if-elim, length, get_elem?, set, take,
  length-append, length-take, length-set, get_elem?-set_self, get_elem?-set_ne, get_elem?-lt-length,
  get_elem?-eq-none, ℕ_discrete,
}
use rpi_fastbootd.Prelude.Text.{
  Text, codes, text_eq, text_eq_sound, text_eq_refl, is_empty, is_digit, decimal, decimal_fuel,
  digits_value, digits_value-decimal, decimal-injective, to_lower, starts_with, contains,
  after_last_slash,
}
use rpi_fastbootd.Prelude.Outcome.{
  Outcome, Outcome-cases, Fault, ok, throw, deref, overflow_error, invalid_argument, out_of_range,
  logic_error, div_by_zero, bad_optional, runtime_error, stack_exhausted, ◌>>=◌, ◌>>◌,
}
use rpi_fastbootd.Idp.Device.Platform.{Parser}
use rpi_fastbootd.Fastboot.Transport.{Transport, Base, FastbootDevice}
use rpi_fastbootd.Fastboot.Response.{write_fail}

-- enum class AfterCommand
pub data AfterCommand : Type 0 where
  next_command reply_fail_then_next end_session : AfterCommand

unfoldable pub decide_after_command : Bool → Bool → Bool → AfterCommand
decide_after_command handler_ok replied transport_failed =
    if transport_failed
    then end_session
    else if not handler_ok && not replied
    then reply_fail_then_next
    else next_command

-- What a read of the bytes leaves in a buffer.
abbrev pub overwrite : Text → Text → Text
overwrite [] buffer = buffer
overwrite (b ∷ bytes) [] = []
overwrite (b ∷ bytes) (c ∷ buffer) = b ∷ overwrite bytes buffer

abbrev pub counts : Option ℕ → ℕ → Bool
counts none n = false
counts (some m) n = m == n

module _ {P : Parser} {World : Type 0} (t : Transport World) where
  -- HandleData over the download buffer: a read fills it, a write sends it.
  unfoldable pub handle_data : Bool → FastbootDevice P → World → Bool × FastbootDevice P × World
  handle_data true fb w =
      let ((count, bytes), w1) = t.read (length fb.download_data) w in
      let fb' : FastbootDevice P = record fb { download_data = overwrite bytes fb.download_data } in
      if counts count (length fb.download_data)
      then (true, fb', w1)
      else (false, record fb' { transport_failed = true }, w1)
  handle_data false fb w =
      let (count, w1) = t.write fb.download_data w in
      if counts count (length fb.download_data)
      then (true, fb, w1)
      else (false, record fb { transport_failed = true }, w1)

-- CommandHandler: it may also throw.
abbrev pub Handler : Parser → Type 0 → Type 0
Handler P World = List Text → FastbootDevice P → World → Outcome Bool × FastbootDevice P × World

-- How a round of the loop goes on: to the next command, or out of the loop, or into a trap that
-- stops the process.
pub data Next : Type 0 where
  again done : Next
  crashed : Fault → Next

-- Is the fault an object that a catch clause gets?
abbrev pub is_exception : Fault → Bool
is_exception div_by_zero = false
is_exception bad_optional = false
is_exception stack_exhausted = false
is_exception _ = true

-- iscntrl
unfoldable pub is_control : ℕ → Bool
is_control c = ltb c 32 || c == 127

unfoldable pub has_control : Text → Bool
has_control [] = false
has_control (c ∷ s) = is_control c || has_control s

unfoldable pub find_command {ℓ} : {H : Type ℓ} → List (Text × H) → Text → Option H
find_command [] name = none
find_command ((key, h) ∷ table) name = if text_eq key name then some h else find_command table name

-- args[0]; Split gives at least one piece.
abbrev pub first : List Text → Text
first [] = []
first (a ∷ args) = a

-- The name of a command and its arguments.
unfoldable pub parse_command : Base → Text → Text × List Text
parse_command base command =
    if base.begins command (codes "oem ")
    then (codes "oem", command ∷ [])
    else let args = base.split command (codes ":") in (first args, args)

module _ {P : Parser} {World : Type 0} (t : Transport World) (base : Base)
    (what : Fault → Text) where
  -- The switch over what DecideAfterCommand says.
  unfoldable pub go_on : AfterCommand → FastbootDevice P → World → Next × FastbootDevice P × World
  go_on end_session fb w = (done, fb, w)
  go_on reply_fail_then_next fb w =
      let (sent, fb', w1) = write_fail t (codes "command failed") fb w in
      if fb'.transport_failed then (done, fb', w1) else (again, fb', w1)
  go_on next_command fb w = (again, fb, w)

  -- What ExecuteCommands does with the result of a handler.
  unfoldable pub after_handler :
      Outcome Bool × FastbootDevice P × World → Next × FastbootDevice P × World
  unfolding decide_after_command go_on
  after_handler (throw e, fb, w) =
      let (sent, fb', w1) = write_fail t (codes "internal error: " ++ what e) fb w in
      if is_exception e then (done, fb', w1) else (crashed e, fb, w)
  after_handler (ok handler_ok, fb, w) =
      go_on (decide_after_command handler_ok fb.replied fb.transport_failed) fb w

  -- The reply to a command that has no handler; the loop continues whether it was sent or not.
  unfoldable pub refuse_command : Text → FastbootDevice P → World → Next × FastbootDevice P × World
  refuse_command message fb w = let (sent, fb', w1) = write_fail t message fb w in (again, fb', w1)

  -- A command whose name the table has, or has not.
  unfoldable pub dispatch :
      Option (Handler P World)
      → List Text
      → FastbootDevice P
      → World
      → Next × FastbootDevice P × World
  dispatch none args fb w = refuse_command (codes "Unrecognized command " ++ first args) fb w
  dispatch (some handler) args fb w = after_handler (handler args (record fb { replied = false }) w)

  -- A round of the loop from where a command has been read.
  unfoldable pub execute_command :
      List (Text × Handler P World)
      → Text
      → FastbootDevice P
      → World
      → Next × FastbootDevice P × World
  execute_command table command fb w =
      let (cmd_name, args) = parse_command base command in
      if has_control command
      then refuse_command (codes "Command contains control character") fb w
      else dispatch (find_command table cmd_name) args fb w

  -- A round of the loop by the count of bytes that were read.
  unfoldable pub execute_read :
      Option ℕ
      → Text
      → List (Text × Handler P World)
      → FastbootDevice P
      → World
      → Next × FastbootDevice P × World
  execute_read none bytes table fb w = (done, fb, w)
  execute_read (some zero) bytes table fb w = (done, fb, w)
  execute_read (some (suc n)) bytes table fb w = execute_command table (take (suc n) bytes) fb w

  -- A round of the loop.
  unfoldable pub execute_next :
      List (Text × Handler P World) → FastbootDevice P → World → Next × FastbootDevice P × World
  execute_next table fb w =
      let ((count, bytes), w1) = t.read 256 w in execute_read count bytes table fb w1

  -- The loop, as far as the fuel: the host decides how many commands it sends.
  unfoldable pub execute_commands :
      ℕ → List (Text × Handler P World) → FastbootDevice P → World → Next × FastbootDevice P × World
  execute_commands zero table fb w = (again, fb, w)
  execute_commands (suc fuel) table fb w =
      let (next, fb1, w1) = execute_next table fb w in
      elim next [
        | again ↦ execute_commands fuel table fb1 w1
        | done ↦ (done, fb1, w1)
        | crashed e ↦ (crashed e, fb1, w1)
      ]
