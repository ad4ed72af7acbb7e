-- ===== src/Idp/Parser/Texts.antt =====
-- flattenLines, which makes one line of a reason, and fromGIsz, which reads the size units of
-- genimage (rpiidp/src/parser.cpp).
use rpi_fastbootd.Prelude.{
  ℕ, zero, suc, ◌+◌, ◌*◌, ◌/◌, ◌%◌, ◌^◌, ◌<◌, ◌≡◌, refl, ap, ◌∙◌, Bool, true, false, ◌||◌, Option,
  none, some, [], ◌∷◌, ◌++◌, append-nil, arith, ltb, ◌==◌, if◌then◌else◌, u64_mod, u64, if-elim,
}
use rpi_fastbootd.Prelude.Text.{
  Text, is_empty, is_digit, decimal, decimal_fuel, digits_value, digits_value-decimal,
}
use rpi_fastbootd.Prelude.Outcome.{Outcome, ok, throw, invalid_argument, out_of_range, ◌>>=◌}

-- A line feed, a carriage return or a tab.
abbrev pub is_break : ℕ → Bool
is_break c = c == 10 || c == 13 || c == 9

-- The loop of flattenLines: has anything been put out, and is a space due?
unfoldable pub flatten_from : Bool → Bool → Text → Text
flatten_from started pending [] = []
flatten_from started pending (c ∷ s) =
    if is_break c
    then flatten_from started started s
    else if pending
    then 32 ∷ c ∷ flatten_from true false s
    else c ∷ flatten_from true false s

unfoldable pub flatten_lines : Text → Text
unfolding flatten_from
flatten_lines s = flatten_from false false s

-- A text that would not fit on one line.
abbrev pub has_break : Text → Bool
has_break [] = false
has_break (c ∷ s) = is_break c || has_break s

flatten_from-one_line :
    (started pending : Bool) (s : Text) → has_break (flatten_from started pending s) ≡ false
unfolding flatten_from
flatten_from-one_line started pending [] = refl
flatten_from-one_line started pending (c ∷ s) =
    ground (arith, flatten_from-one_line started started s, flatten_from-one_line true false s)

flatten_from_fits :
    (started : Bool) (s : Text) → has_break s ≡ false → flatten_from started false s ≡ s
unfolding flatten_from
flatten_from_fits started [] h = refl
flatten_from_fits started (c ∷ s) h = ground (arith, flatten_from_fits true s)

-- flattenLines gives a text with no line break and no tab, and leaves such a text as it is.
pub flatten_lines-one_line :
    (s : Text) → (has_break (flatten_lines s) ≡ false) × (has_break s ≡ false → flatten_lines s ≡ s)
unfolding flatten_lines
flatten_lines-one_line s = (flatten_from-one_line false false s, flatten_from_fits false s)

-- The digits that a text starts with, and what follows them.
unfoldable pub number_part : Text → Text
number_part [] = []
number_part (c ∷ s) = if is_digit c then c ∷ number_part s else []

unfoldable pub suffix_part : Text → Text
suffix_part [] = []
suffix_part (c ∷ s) = if is_digit c then suffix_part s else c ∷ s

-- std::stoull on digits
unfoldable pub stoull : Text → Outcome ℕ
stoull s = if ltb (digits_value s) u64_mod then ok (digits_value s) else throw out_of_range

-- The factor of a suffix, if it is one.
unfoldable pub unit_of : Text → Option ℕ
unit_of [] = some 1
unit_of (c ∷ []) =
    if c == b'K' || c == b'k'
    then some 1024
    else if c == b'M' || c == b'm'
    then some (1024 * 1024)
    else if c == b'G' || c == b'g'
    then some (1024 * 1024 * 1024)
    else if c == b's'
    then some 512
    else none
unit_of (c ∷ d ∷ s) = none

abbrev pub scale : Option ℕ → ℕ → Outcome ℕ
scale none value = throw invalid_argument
scale (some unit) value = ok (u64 (value * unit))

-- fromGIsz: the product wraps.
unfoldable pub from_gi_size : Text → Outcome ℕ
unfolding number_part suffix_part stoull unit_of
from_gi_size s =
    if is_empty (number_part s)
    then throw invalid_argument
    else stoull (number_part s) >>= scale (unit_of (suffix_part s))

abbrev pub AllDigits : Text → Type 0
AllDigits [] = Unit {0}
AllDigits (c ∷ s) = (is_digit c ≡ true) × AllDigits s

AllDigits-append : (s t : Text) → AllDigits s → AllDigits t → AllDigits (s ++ t)
AllDigits-append [] t a b = b
AllDigits-append (c ∷ s) t (d, a) b = (d, AllDigits-append s t a b)

digit-is_digit : (n : ℕ) → n < 10 → is_digit (48 + n) ≡ true
unfolding is_digit
digit-is_digit n h = ground arith

decimal_fuel-AllDigits : (f n : ℕ) → AllDigits (decimal_fuel f n)
unfolding decimal_fuel
decimal_fuel-AllDigits zero n = tt
decimal_fuel-AllDigits (suc f) n =
    if-elim {A = Text} AllDigits (ltb n 10) (λ h. (digit-is_digit n (ground arith), tt))
      (λ _.
        AllDigits-append (decimal_fuel f (n / 10)) ((48 + n % 10) ∷ [])
          (decimal_fuel-AllDigits f (n / 10)) (digit-is_digit (n % 10) (omega arith), tt))

-- A suffix that stands for a unit starts with no digit.
unit_of-parts : (s : Text) (u : ℕ) → unit_of s ≡ some u → (number_part s ≡ []) × (suffix_part s ≡ s)
unfolding unit_of number_part suffix_part is_digit
unit_of-parts [] u h = (refl, refl)
unit_of-parts (c ∷ []) u h = ground arith
unit_of-parts (c ∷ d ∷ s) u h = absurd (cc h)

digits-parts :
    (d s : Text)
    → AllDigits d
    → (number_part (d ++ s) ≡ d ++ number_part s) × (suffix_part (d ++ s) ≡ suffix_part s)
unfolding number_part suffix_part
digits-parts [] s a = (refl, refl)
digits-parts (c ∷ d) s (h, a) =
    rw h (ap (λ t. c ∷ t) (digits-parts d s a).0, (digits-parts d s a).1)

is_empty-append : (s : Text) (c : ℕ) (t : Text) → is_empty (s ++ c ∷ t) ≡ false
is_empty-append [] c t = refl
is_empty-append (d ∷ s) c t = refl

is_empty-decimal : (n : ℕ) → is_empty (decimal n) ≡ false
unfolding decimal decimal_fuel
is_empty-decimal n =
    if-elim {A = Text} (λ t. is_empty t ≡ false) (ltb n 10) (λ _. refl)
      (λ _. is_empty-append (decimal_fuel n (n / 10)) (48 + n % 10) [])

-- The bytes that a suffix of genimage stands for.
pub data HasBytes : Text → ℕ → Type 0 where
  bytes : HasBytes [] 1
  sectors : HasBytes (b's' ∷ []) 512
  kibibytes : HasBytes (b'K' ∷ []) 1024
  kibibytes_lower : HasBytes (b'k' ∷ []) 1024
  mebibytes : HasBytes (b'M' ∷ []) 1048576
  mebibytes_lower : HasBytes (b'm' ∷ []) 1048576
  gibibytes : HasBytes (b'G' ∷ []) 1073741824
  gibibytes_lower : HasBytes (b'g' ∷ []) 1073741824

HasBytes-unit_of : {suffix : Text} {u : ℕ} → HasBytes suffix u → unit_of suffix ≡ some u
unfolding unit_of
HasBytes-unit_of bytes = refl
HasBytes-unit_of sectors = refl
HasBytes-unit_of kibibytes = refl
HasBytes-unit_of kibibytes_lower = refl
HasBytes-unit_of mebibytes = refl
HasBytes-unit_of mebibytes_lower = refl
HasBytes-unit_of gibibytes = refl
HasBytes-unit_of gibibytes_lower = refl

-- What std::to_string writes of a number below 2^64, followed by a suffix, is read as the number
-- times the bytes of the suffix, modulo 2^64: 1 without a suffix, 512 for s, 1024 for K or k,
-- 1048576 for M or m, and 1073741824 for G or g.
pub from_gi_size-decimal :
    (n u : ℕ) (suffix : Text)
    → n < u64_mod
    → HasBytes suffix u
    → from_gi_size (decimal n ++ suffix) ≡ ok (n * u % 2 ^ 64)
unfolding from_gi_size stoull decimal
from_gi_size-decimal n u suffix h has_unit =
    rw (number, rest, is_empty-decimal n, digits_value-decimal n, less, unit) refl
  where
    unit : unit_of suffix ≡ some u
    unit = HasBytes-unit_of has_unit

    parts :
        (number_part (decimal n ++ suffix) ≡ decimal n ++ number_part suffix)
        × (suffix_part (decimal n ++ suffix) ≡ suffix_part suffix)
    parts = digits-parts (decimal n) suffix (decimal_fuel-AllDigits (suc n) n)

    number : number_part (decimal n ++ suffix) ≡ decimal n
    number =
        parts.0 ∙ ap (λ t. decimal n ++ t) (unit_of-parts suffix u unit).0 ∙ append-nil (decimal n)

    rest : suffix_part (decimal n ++ suffix) ≡ suffix
    rest = parts.1 ∙ (unit_of-parts suffix u unit).1

    less : ltb n u64_mod ≡ true
    less = ground arith
