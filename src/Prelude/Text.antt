-- ===== src/Prelude/Text.antt =====
-- std::string as the list of its bytes, with the decimal notation of std::to_string and of the
-- integer readers of the standard library.
use Prim.Native.Char.{code}
use Prim.Native.Nat.{ℕ, zero, suc, ◌+◌, ◌-◌, ◌*◌, ◌/◌, ◌%◌, ◌<◌}
use Prim.Native.String.{String}
use mathlib.Core.Path.{◌≡◌, refl, ap, sym, ◌∙◌}
use mathlib.Core.Bool.{Bool, true, false, ◌&&◌, ◌||◌}
use mathlib.Core.List.{List, [], ◌∷◌, ◌++◌}
use native.Mathlib.Omega.{arith}
use rpi_fastbootd.Prelude.Tests.{ltb, leb, ◌==◌, if◌then◌else◌}

abbrev pub Text : Type 0
Text = List ℕ

-- The bytes of a literal (all of them ASCII).
unfoldable pub codes : String → Text
codes String.[] = []
codes (String.◌∷◌ c s) = code c ∷ codes s

-- operator== on std::string
unfoldable pub text_eq : Text → Text → Bool
text_eq [] [] = true
text_eq (a ∷ s) (b ∷ t) = a == b && text_eq s t
text_eq _ _ = false

pub text_eq_sound : (s t : Text) → text_eq s t ≡ true → s ≡ t
unfolding text_eq
text_eq_sound [] [] h = refl
text_eq_sound [] (b ∷ t) h = cc
text_eq_sound (a ∷ s) [] h = cc
text_eq_sound (a ∷ s) (b ∷ t) h = ground (arith, text_eq_sound s t)

pub text_eq_refl : (s : Text) → text_eq s s ≡ true
unfolding text_eq
text_eq_refl [] = refl
text_eq_refl (a ∷ s) = ground (arith, text_eq_refl s)

-- std::string::empty
abbrev pub is_empty {ℓ} : {A : Type ℓ} → List A → Bool
is_empty [] = true
is_empty (x ∷ xs) = false

-- isdigit
unfoldable pub is_digit : ℕ → Bool
is_digit c = leb b'0' c && leb c b'9'

-- std::to_string of an unsigned number; the fuel is above the number.
unfoldable pub decimal_fuel : ℕ → ℕ → Text
decimal_fuel zero n = []
decimal_fuel (suc f) n =
    let rest = decimal_fuel f (n / 10) in
    if ltb n 10 then (48 + n) ∷ [] else rest ++ (48 + n % 10) ∷ []

unfoldable pub decimal : ℕ → Text
unfolding decimal_fuel
decimal n = decimal_fuel (suc n) n

-- The number that a string of digits stands for.
unfoldable pub digits_value_from : ℕ → Text → ℕ
digits_value_from acc [] = acc
digits_value_from acc (c ∷ s) = digits_value_from (acc * 10 + (c - 48)) s

unfoldable pub digits_value : Text → ℕ
unfolding digits_value_from
digits_value s = digits_value_from 0 s

digits_value_from-append :
    (acc : ℕ) (s t : Text)
    → digits_value_from acc (s ++ t) ≡ digits_value_from (digits_value_from acc s) t
unfolding digits_value_from
digits_value_from-append acc [] t = refl
digits_value_from-append acc (c ∷ s) t = digits_value_from-append (acc * 10 + (c - 48)) s t

digits_value-decimal_fuel : (f n : ℕ) → n < f → digits_value_from 0 (decimal_fuel f n) ≡ n
unfolding decimal_fuel digits_value_from
digits_value-decimal_fuel zero n h = elim h [ ]
digits_value-decimal_fuel (suc f) n h = ground (
  arith,
  digits_value_from-append 0 (decimal_fuel f (n / 10)) ((48 + n % 10) ∷ []),
  digits_value-decimal_fuel f (n / 10),
)

-- Reading back what std::to_string prints.
pub digits_value-decimal : (n : ℕ) → digits_value (decimal n) ≡ n
unfolding decimal digits_value
digits_value-decimal n = digits_value-decimal_fuel (suc n) n (omega arith)

pub decimal-injective : (m n : ℕ) → decimal m ≡ decimal n → m ≡ n
decimal-injective m n e = sym (digits_value-decimal m) ∙ ap digits_value e ∙ digits_value-decimal n

-- std::transform with tolower, on ASCII
unfoldable pub to_lower : Text → Text
to_lower [] = []
to_lower (c ∷ s) = (if leb b'A' c && leb c b'Z' then c + 32 else c) ∷ to_lower s

-- Does the text start with the other one?
unfoldable pub starts_with : Text → Text → Bool
starts_with s [] = true
starts_with [] (b ∷ t) = false
starts_with (a ∷ s) (b ∷ t) = a == b && starts_with s t

-- std::string::find(t) != npos
unfoldable pub contains : Text → Text → Bool
unfolding starts_with
contains [] t = starts_with [] t
contains (a ∷ s) t = starts_with (a ∷ s) t || contains s t

-- What follows the last slash; the whole text if there is none.
unfoldable pub after_last_slash : Text → Text → Text
after_last_slash found [] = found
after_last_slash found (c ∷ s) = after_last_slash (if c == b'/' then s else found) s
