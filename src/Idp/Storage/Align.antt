-- ===== src/Idp/Storage/Align.antt =====
-- IDPstorage::alignUp and the device names.
use rpi_fastbootd.Prelude.{
  ℕ, ◌+◌, ◌*◌, ◌%◌, ◌^◌, ◌≤◌, ◌<◌, ◌≡◌, refl, sym, ◌∙◌, ◌≢◌, ◌↔◌, ◌⊎◌, inl, inr, none, some, [],
  ◌∷◌, ◌++◌, arith, le→leb, u64_mod,
}
use rpi_fastbootd.Prelude.Text.{Text, codes, decimal, decimal-injective}
use rpi_fastbootd.Prelude.Outcome.{Outcome-cases, Fault, ok, throw, overflow_error}
use rpi_fastbootd.Prelude.Rounding.{round_up-mod, round_up-le, round_up-lt, round_up-multiple}
use rpi_fastbootd.Idp.Storage.{Storage, align_up, block_dev, base_dev}

-- When IDPstorage::alignUp returns for an alignment that is not zero and fits in 64 bits, the
-- result is a multiple of the alignment, at least the size, less than one alignment above it, and
-- fits in 64 bits.
pub align_up-bounds :
    (s : Storage) (size r : ℕ)
    → 0 < s.ptable_align
    → s.ptable_align < u64_mod
    → align_up s size ≡ ok r
    → (r % s.ptable_align ≡ 0) × (size ≤ r) × (r < size + s.ptable_align) × (r < u64_mod)
unfolding align_up
align_up-bounds s size r h w e = ground (
  arith,
  round_up-mod size s.ptable_align,
  round_up-le size s.ptable_align h,
  round_up-lt size s.ptable_align h,
)

-- For an alignment that is not zero and fits in 64 bits, IDPstorage::alignUp throws exactly when
-- the size and the alignment add up to more than 2^64.
pub align_up-throws :
    (s : Storage) (size : ℕ)
    → 0 < s.ptable_align
    → s.ptable_align < u64_mod
    → (align_up s size ≡ throw overflow_error) ↔ (u64_mod < size + s.ptable_align)
unfolding align_up
align_up-throws s size h k = ground arith

-- For an alignment that is not zero and fits in 64 bits, alignUp throws when the size and the
-- alignment add up to more than 2^64. Otherwise it returns a multiple of the alignment that is at
-- least the size and less than one alignment above it.
pub align_up_lem :
    (s : Storage) (size : ℕ)
    → 0 < s.ptable_align
    → s.ptable_align < 2 ^ 64
    → ((2 ^ 64 < size + s.ptable_align) × (align_up s size ≡ throw overflow_error))
      ⊎ ((size + s.ptable_align ≤ 2 ^ 64)
          × ((r : ℕ) × (align_up s size ≡ ok r)
              × (r % s.ptable_align ≡ 0)
              × (size ≤ r)
              × (r < size + s.ptable_align)))
unfolding align_up
align_up_lem s size h k = elim (Outcome-cases (align_up s size)) [
  | inl (r, e) ↦
      let (multiple, above, below, _) = align_up-bounds s size r h k e in
      inr (fits r e, (r, e, multiple, above, below))
  | inr (x, e) ↦ inl (overflows x e)
]
  where
    fits : (r : ℕ) → align_up s size ≡ ok r → size + s.ptable_align ≤ 2 ^ 64
    fits r e = ground arith

    overflows :
        (x : Fault)
        → align_up s size ≡ throw x
        → (2 ^ 64 < size + s.ptable_align) × (align_up s size ≡ throw overflow_error)
    overflows x e = ground arith

-- A size that is aligned already is left as it is.
pub align_up_aligned :
    (s : Storage) (q : ℕ)
    → 0 < s.ptable_align
    → q * s.ptable_align + s.ptable_align ≤ u64_mod
    → align_up s (q * s.ptable_align) ≡ ok (q * s.ptable_align)
unfolding align_up
align_up_aligned s q h k = ground (arith, round_up-multiple q s.ptable_align h)

append-injective : (s : Text) {t u : Text} → s ++ t ≡ s ++ u → t ≡ u
append-injective [] h = h
append-injective (c ∷ s) h = append-injective s (cc)

longer : (s : Text) (c : ℕ) (t u : Text) → (s ++ c ∷ t) ++ u ≡ s → ⊥
longer [] c t u e = cc
longer (b ∷ s) c t u e = longer s c t u (cc e)

block_dev_whole : (s : Storage) → block_dev s none ≡ base_dev s.type
unfolding block_dev
block_dev_whole s = refl

block_dev_numbered :
    (s : Storage) (n : ℕ) → 1 ≤ n → block_dev s (some n) ≡ base_dev s.type ++ codes "p" ++ decimal n
unfolding block_dev
block_dev_numbered s n h = rw (le→leb 1 n h)

pub block_dev-injective :
    (s : Storage) (m n : ℕ) → 1 ≤ m → 1 ≤ n → block_dev s (some m) ≡ block_dev s (some n) → m ≡ n
block_dev-injective s m n hm hn e = decimal-injective m n (
    append-injective (base_dev s.type ++ codes "p")
      (sym (block_dev_numbered s m hm) ∙ e ∙ block_dev_numbered s n hn))

-- Two partitions of one storage device whose numbers, from 1 on, are different have different
-- device names, and neither has that of the whole device.
pub block_dev-AreDistinct :
    (s : Storage) (m n : ℕ)
    → 1 ≤ m
    → 1 ≤ n
    → m ≢ n
    → (block_dev s (some m) ≢ block_dev s (some n)) × (block_dev s (some m) ≢ block_dev s none)
unfolding codes
block_dev-AreDistinct s m n hm hn differ = (
  λ e. differ (block_dev-injective s m n hm hn e),
  λ e.
      longer (base_dev s.type) b'p' [] (decimal m)
        (sym (block_dev_numbered s m hm) ∙ e ∙ block_dev_whole s),
)
