-- ===== src/Fastboot/Response.antt =====
-- FastbootDevice::WriteStatus and its shortcuts (fastboot/device/fastboot_device.cpp).
pub mod Laws
use Prim.Native.Nat.{min}
use rpi_fastbootd.Prelude.{
  ℕ, zero, suc, ◌+◌, ◌-◌, ◌*◌, ◌/◌, ◌%◌, ◌^◌, ◌≤◌, ◌<◌, ◌≡◌, refl, sym, ap, subst, ◌∙◌, fun_ext,
  ◌≢◌, ◌↔◌, ◌⊎◌, inl, inr, Bool, true, false, not, ◌&&◌, ◌||◌, Option, none, some, List, [], ◌∷◌,
  ◌++◌, map, append_assoc, append-nil, arith, ltb, leb, ◌==◌, if◌then◌else◌, ltb→lt, le→leb, ==_iff,
  Bool-cases, Option-cases, has_value, u64_mod, u64, if-elim, length, get_elem?, set, take,
  length-append, length-take, length-set, get_elem?-set_self, get_elem?-set_ne, get_elem?-lt-length,
  get_elem?-eq-none, ℕ_discrete,
}
use rpi_fastbootd.Prelude.Text.{
  Text, codes, text_eq, text_eq_sound, text_eq_refl, is_empty, is_digit, decimal, decimal_fuel,
  digits_value, digits_value-decimal, decimal-injective, to_lower, starts_with, contains,
  after_last_slash,
}
use rpi_fastbootd.Idp.Device.Platform.{Parser}
use rpi_fastbootd.Fastboot.Transport.{
  Transport, Result, okay, fail, info, data_size, FastbootDevice,
}

-- FB_RESPONSE_SZ less the four bytes of the result.
abbrev pub max_message_size : ℕ
max_message_size = 252

abbrev pub result_string : Result → Text
result_string okay = b'O' ∷ b'K' ∷ b'A' ∷ b'Y' ∷ []
result_string fail = b'F' ∷ b'A' ∷ b'I' ∷ b'L' ∷ []
result_string info = b'I' ∷ b'N' ∷ b'F' ∷ b'O' ∷ []
result_string data_size = b'D' ∷ b'A' ∷ b'T' ∷ b'A' ∷ []

abbrev pub ellipsis : Text
ellipsis = b'.' ∷ b'.' ∷ b'.' ∷ []

-- The results that a person reads.
abbrev pub is_human : Result → Bool
is_human okay = false
is_human fail = true
is_human info = true
is_human data_size = false

-- The results that end a command.
abbrev pub is_final : Result → Bool
is_final okay = true
is_final fail = true
is_final info = false
is_final data_size = false

-- What of the message WriteStatus sends.
unfoldable pub kept : Bool → Text → Text
kept human message =
    let msg_len = min max_message_size (length message) in
    if ltb msg_len (length message) && human
    then take (msg_len - length ellipsis) message ++ ellipsis
    else take msg_len message

-- What WriteStatus puts into its buffer.
unfoldable pub response : Result → Text → Text
response result message = result_string result ++ kept (is_human result) message

module _ {P : Parser} {World : Type 0} (t : Transport World) where
  unfoldable pub write_status :
      Result → Text → FastbootDevice P → World → Bool × FastbootDevice P × World
  write_status result message fb w =
      let text = response result message in
      let (written, w1) = t.write text w in
      if sent written (length text)
      then (true, record fb { replied = fb.replied || is_final result }, w1)
      else (false, record fb { transport_failed = true }, w1)
    where
      sent : Option ℕ → ℕ → Bool
      sent none n = false
      sent (some m) n = m == n

  abbrev pub write_okay : Text → FastbootDevice P → World → Bool × FastbootDevice P × World
  write_okay = write_status okay

  abbrev pub write_fail : Text → FastbootDevice P → World → Bool × FastbootDevice P × World
  write_fail = write_status fail

  abbrev pub write_info : Text → FastbootDevice P → World → Bool × FastbootDevice P × World
  write_info = write_status info
