-- ===== src/Idp/Navigator.antt =====
-- PartitionNavigator (rpiidp/src/nav.cpp, rpiidp/include/nav.h): the state of a walk through a
-- provisioning map.
pub mod Validate
pub mod Process
pub mod Walk
pub mod Foreach
pub mod Triple
pub mod Listed
pub mod Processed
pub mod Partitions
pub mod Steps
pub mod Ends
pub mod Visits
pub mod Create
use rpi_fastbootd.Prelude.{
  ℕ, zero, suc, ◌+◌, ◌-◌, ◌*◌, ◌/◌, ◌%◌, ◌^◌, ◌≤◌, ◌<◌, ◌≡◌, refl, sym, ap, subst, ◌∙◌, fun_ext,
  ◌≢◌, ◌↔◌, ◌⊎◌, inl, inr, Bool, true, false, not, ◌&&◌, ◌||◌, Option, none, some, List, [], ◌∷◌,
  ◌++◌, map, append_assoc, append-nil, arith, ltb, leb, ◌==◌, if◌then◌else◌, ltb→lt, le→leb, ==_iff,
  Bool-cases, Option-cases, has_value, u64_mod, u64, if-elim, length, get_elem?, set, take,
  length-append, length-take, length-set, get_elem?-set_self, get_elem?-set_ne, get_elem?-lt-length,
  get_elem?-eq-none, ℕ_discrete,
}
use rpi_fastbootd.Prelude.Text.{
  Text, codes, text_eq, text_eq_sound, text_eq_refl, is_empty, is_digit, decimal, decimal_fuel,
  digits_value, digits_value-decimal, decimal-injective, to_lower, starts_with, contains,
  after_last_slash,
}
use rpi_fastbootd.Prelude.Outcome.{
  Outcome, Outcome-cases, Fault, ok, throw, deref, overflow_error, invalid_argument, out_of_range,
  logic_error, div_by_zero, bad_optional, runtime_error, stack_exhausted,
}
use rpi_fastbootd.Idp.Parser.Json.{Json}
use rpi_fastbootd.Idp.Parser.Layout.{Partition}

pub record NavResult : Type 0 where
  pub errors : ℕ
  pub messages : List Text

abbrev pub no_errors : NavResult
no_errors = record { errors = 0; messages = [] }

-- NavResult::error
unfoldable pub error : Text → NavResult → NavResult
error msg nr = record { errors = nr.errors + 1; messages = nr.messages ++ msg ∷ [] }

-- NavResult::iserror
unfoldable pub is_error : NavResult → Bool
is_error nr = not (nr.errors == 0)

-- NavResult::operator+=
unfoldable pub add_result : NavResult → NavResult → NavResult
add_result nr other = record {
  errors = nr.errors + other.errors;
  messages = nr.messages ++ other.messages;
}

-- PartitionNavigator::NavFrame
pub record NavFrame (J : Json) : Type 0 where
  pub node : Json.Value J
  pub keys : List Text
  pub child_idx : ℕ
  pub slot_key : Text

-- nav_stack_ with its back first, and what getPartitions shares with the functions that it calls:
-- the partitions that it has found and the order of the last one. The next object is made at
-- `next_address`.
pub record NavState (J : Json) : Type 0 where
  pub nav_stack : List (NavFrame J)
  pub result : List Partition
  pub num : ℕ
  pub next_address : ℕ

-- A member function: it returns or throws, and leaves the state changed in both cases.
abbrev pub M : Json → Type 0 → Type 0
M J A = NavState J → Outcome A × NavState J

abbrev pub and_then :
    {J : Json} {A B : Type 0} → Outcome A × NavState J → (A → M J B) → Outcome B × NavState J
and_then (ok a, s) f = f a s
and_then (throw e, s) f = (throw e, s)

infixl 5 ◌>>=◌ ◌>>◌
unfoldable pub ◌>>=◌ : {J : Json} {A B : Type 0} → M J A → (A → M J B) → M J B
◌>>=◌ m f s = and_then (m s) f

abbrev pub ◌>>◌ : {J : Json} {B : Type 0} → M J (Unit {0}) → M J B → M J B
m >> k = m >>= λ _. k

unfoldable pub pure : {J : Json} {A : Type 0} → A → M J A
pure a s = (ok a, s)

unfoldable pub lift : {J : Json} {A : Type 0} → Outcome A → M J A
lift r s = (r, s)
