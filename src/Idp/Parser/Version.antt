-- ===== src/Idp/Parser/Version.antt =====
-- IDPversion, its order and its reader (rpiidp/include/idpversion.h, rpiidp/src/version.cpp).
use rpi_fastbootd.Prelude.{
  ℕ, Bool, true, false, not, ◌&&◌, ◌||◌, Option, none, some, [], ◌∷◌, ◌++◌, leb, ◌==◌,
  if◌then◌else◌,
}
use rpi_fastbootd.Prelude.Text.{Text, codes, is_empty, is_digit, decimal, digits_value}

-- An int, of any size: a sign and a magnitude. A negative zero is zero.
pub record Signed : Type 0 where
  pub negative : Bool
  pub magnitude : ℕ

abbrev pub int : ℕ → Signed
int n = record { negative = false; magnitude = n }

-- operator<= and operator== on int
unfoldable pub int_le : Signed → Signed → Bool
int_le a b =
    if a.negative
    then (if b.negative then leb b.magnitude a.magnitude else true)
    else (if b.negative then a.magnitude == 0 && b.magnitude == 0 else leb a.magnitude b.magnitude)

unfoldable pub int_eq : Signed → Signed → Bool
unfolding int_le
int_eq a b = int_le a b && int_le b a

-- std::to_string
unfoldable pub int_text : Signed → Text
int_text a =
    if a.negative && not (a.magnitude == 0)
    then codes "-" ++ decimal a.magnitude
    else decimal a.magnitude

pub record IdpVersion : Type 0 where
  pub major : Signed
  pub minor : Signed
  pub patch : Signed

abbrev pub version : ℕ → ℕ → ℕ → IdpVersion
version x y z = record { major = int x; minor = int y; patch = int z }

-- IDPversion::operator>=
unfoldable pub version_ge : IdpVersion → IdpVersion → Bool
unfolding int_eq int_le
version_ge v other =
    if not (int_eq v.major other.major)
    then not (int_le v.major other.major)
    else if not (int_eq v.minor other.minor)
    then not (int_le v.minor other.minor)
    else int_le other.patch v.patch

-- VersionRange::contains
unfoldable pub range_contains : IdpVersion → IdpVersion → IdpVersion → Bool
unfolding version_ge
range_contains min max v = version_ge v min && not (version_ge v max)

-- isspace
abbrev pub is_space : ℕ → Bool
is_space c = c == 32 || (leb 9 c && leb c 13)

unfoldable pub skip_spaces : Text → Text
skip_spaces [] = []
skip_spaces (c ∷ s) = if is_space c then skip_spaces s else c ∷ s

abbrev pub digits_of : Text → Text
digits_of [] = []
digits_of (c ∷ s) = if is_digit c then c ∷ digits_of s else []

abbrev pub after_digits : Text → Text
after_digits [] = []
after_digits (c ∷ s) = if is_digit c then after_digits s else c ∷ s

-- The digits of %d, behind the sign.
unfoldable pub scan_digits : Bool → Text → Option (Signed × Text)
scan_digits negative s =
    if is_empty (digits_of s)
    then none
    else some
        (record { negative = negative; magnitude = digits_value (digits_of s) }, after_digits s)

abbrev pub scan_sign : Text → Option (Signed × Text)
scan_sign [] = none
scan_sign (c ∷ s) =
    if c == b'-'
    then scan_digits true s
    else if c == b'+'
    then scan_digits false s
    else scan_digits false (c ∷ s)

-- %d of sscanf. A number that does not fit an int is read as it is here.
unfoldable pub scan_int : Text → Option (Signed × Text)
unfolding scan_digits skip_spaces
scan_int s = scan_sign (skip_spaces s)

abbrev pub scan_dot : Text → Option Text
scan_dot [] = none
scan_dot (c ∷ s) = if c == b'.' then some s else none

abbrev pub bind_option : {A B : Type 0} → Option A → (A → Option B) → Option B
bind_option none f = none
bind_option (some a) f = f a

-- parseVersion: what follows the third number is not looked at.
unfoldable pub parse_version : Text → Option IdpVersion
unfolding scan_int
parse_version s = bind_option (scan_int s) λ (major, s1). bind_option (scan_dot s1) λ s2.
    bind_option (scan_int s2) λ (minor, s3). bind_option (scan_dot s3) λ s4.
      bind_option (scan_int s4)
        λ (patch, rest). some (record { major = major; minor = minor; patch = patch })

-- The error of parseVersion.
unfoldable pub bad_version : Text → Text
bad_version s = codes "Invalid version format: " ++ s ++ codes " (expected X.Y.Z)"

unfoldable pub version_text : IdpVersion → Text
unfolding int_text
version_text v = int_text v.major ++ codes "." ++ int_text v.minor ++ codes "." ++ int_text v.patch
