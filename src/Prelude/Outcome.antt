-- ===== src/Prelude/Outcome.antt =====
-- Code that may throw or trap: a value, or the fault that leaves the function.
use mathlib.Core.Path.{◌≡◌, refl}
use mathlib.Core.Logic.{◌⊎◌, inl, inr}
use mathlib.Core.Option.{Option, none, some}

-- The exceptions of the standard library and of the JSON reader that the code raises, and the
-- traps that it can run into.
pub data Fault : Type 0 where
  overflow_error : Fault
  invalid_argument : Fault
  out_of_range : Fault
  logic_error : Fault
  div_by_zero : Fault
  bad_optional : Fault
  runtime_error : Fault
  stack_exhausted : Fault

pub data Outcome {ℓ} (A : Type ℓ) : Type ℓ where
  ok : A → Outcome A
  throw : Fault → Outcome A

infixl 5 ◌>>=◌ ◌>>◌
abbrev pub ◌>>=◌ {ℓ κ} : {A : Type ℓ} {B : Type κ} → Outcome A → (A → Outcome B) → Outcome B
ok a >>= f = f a
throw e >>= f = throw e

abbrev pub ◌>>◌ {ℓ} : {B : Type ℓ} → Outcome (Unit {0}) → Outcome B → Outcome B
m >> k = m >>= λ _. k

-- operator* on a std::optional; the behaviour of an empty one is undefined, and is a fault here.
abbrev pub deref {ℓ} : {A : Type ℓ} → Option A → Outcome A
deref none = throw bad_optional
deref (some a) = ok a

pub Outcome-cases {ℓ} :
    {A : Type ℓ} (r : Outcome A) → ((a : A) × (r ≡ ok a)) ⊎ ((e : Fault) × (r ≡ throw e))
Outcome-cases (ok a) = inl (a, refl)
Outcome-cases (throw e) = inr (e, refl)
