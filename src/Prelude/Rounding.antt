-- ===== src/Prelude/Rounding.antt =====
-- Rounding up to a multiple, as (x + a - 1) / a * a.
use Prim.Native.Nat.{ℕ, ◌+◌, ◌-◌, ◌*◌, ◌/◌, ◌%◌, ◌≤◌, ◌<◌}
use mathlib.Core.Path.{◌≡◌, ap}
use native.Mathlib.Omega.{arith}
use native.Mathlib.Nat.{div-add-mod', mod-lt}

abbrev pub round_up : ℕ → ℕ → ℕ
round_up x a = (x + a - 1) / a * a

pub round_up-mod : (x a : ℕ) → round_up x a % a ≡ 0
round_up-mod x a = grind arith

pub round_up-le : (x a : ℕ) → 0 < a → x ≤ round_up x a
round_up-le x a h = omega (arith, div-add-mod' (x + a - 1) a, mod-lt (x + a - 1) h)

pub round_up-lt : (x a : ℕ) → 0 < a → round_up x a < x + a
round_up-lt x a h = omega (arith, div-add-mod' (x + a - 1) a)

-- Between two neighbouring multiples there is no third.
multiple_unique : (q r a : ℕ) → q * a ≤ r * a → r * a < q * a + a → r ≡ q
multiple_unique q r a h k = grind arith

pub round_up-multiple : (q a : ℕ) → 0 < a → round_up (q * a) a ≡ q * a
round_up-multiple q a h =
    ap (λ (r : ℕ). r * a)
      (multiple_unique q ((q * a + a - 1) / a) a (round_up-le (q * a) a h)
        (round_up-lt (q * a) a h))
