-- ===== src/Fastboot/Otp.antt =====
-- Customer MAC addresses and one-time programmable rows (fastboot/device/otp.cpp).
pub mod Mac
pub mod Mailbox
pub mod Rows
pub mod Commands
use rpi_fastbootd.Prelude.{
  ℕ, zero, suc, ◌+◌, ◌-◌, ◌*◌, ◌/◌, ◌%◌, ◌^◌, ◌≤◌, ◌<◌, ◌≡◌, refl, sym, ap, subst, ◌∙◌, fun_ext,
  ◌≢◌, ◌↔◌, ◌⊎◌, inl, inr, Bool, true, false, not, ◌&&◌, ◌||◌, Option, none, some, List, [], ◌∷◌,
  ◌++◌, map, append_assoc, append-nil, arith, ltb, leb, ◌==◌, if◌then◌else◌, ltb→lt, le→leb, ==_iff,
  Bool-cases, Option-cases, has_value, u64_mod, u64, if-elim, length, get_elem?, set, take,
  length-append, length-take, length-set, get_elem?-set_self, get_elem?-set_ne, get_elem?-lt-length,
  get_elem?-eq-none, ℕ_discrete,
}
use rpi_fastbootd.Prelude.Text.{
  Text, codes, text_eq, text_eq_sound, text_eq_refl, is_empty, is_digit, decimal, decimal_fuel,
  digits_value, digits_value-decimal, decimal-injective, to_lower, starts_with, contains,
  after_last_slash,
}
use rpi_fastbootd.Fastboot.Transfer.{hex_digits}

-- otp::Result with what the call gives through its pointer, or the message of Result::Fail.
pub data Result {ℓ} (A : Type ℓ) : Type ℓ where
  good : A → Result A
  bad : Text → Result A

abbrev pub then_result : {A B : Type 0} → Result A → (A → Result B) → Result B
then_result (good a) f = f a
then_result (bad msg) f = bad msg

pub data WriteOutcome : Type 0 where
  programmed already_matches : WriteOutcome

-- Hex32
unfoldable pub hex32 : ℕ → Text
hex32 value = codes "0x" ++ hex_digits 8 value
