-- ===== src/Idp/Partition/Size.antt =====
-- IDPpartition::getSize: the recursion ends on what the parser builds, and its value.
use rpi_fastbootd.Prelude.{
  ℕ, zero, suc, ◌+◌, ◌-◌, ◌*◌, ◌/◌, ◌%◌, ◌^◌, ◌≤◌, ◌<◌, ◌≡◌, refl, ap, ◌∙◌, fun_ext, inl, inr, Bool,
  true, Option, none, some, List, [], ◌∷◌, arith, if◌then◌else◌, Bool-cases, u64_mod, u64, length,
}
use rpi_fastbootd.Prelude.Outcome.{Outcome, ok, ◌>>=◌}
use rpi_fastbootd.Idp.Luks.{Luks, raw, partitioned, header_size, raw_header_size}
use rpi_fastbootd.Idp.Partition.{
  IdpPartition, same_index, links, IsNested, add_children, own_size, get_size_fuel, get_size,
}

pub same_index_sound : (a b : Option ℕ) → same_index a b ≡ true → a ≡ b
same_index_sound none none h = refl
same_index_sound none (some j) h = cc
same_index_sound (some i) none h = cc
same_index_sound (some i) (some j) h = ground arith

-- An alignment that IDPluks::headerSize can divide by.
abbrev pub IsAligned : Option Luks → Type 0
IsAligned none = Unit {0}
IsAligned (some l) = 0 < l.p_alignment_bytes

abbrev pub AllAligned : List IdpPartition → Type 0
AllAligned [] = Unit {0}
AllAligned (p ∷ all) = IsAligned p.luks × AllAligned all

-- The header with its metadata, in whole units of the alignment.
abbrev pub header_bytes : Luks → ℕ
header_bytes l =
    u64 (raw_header_size l + l.p_alignment_bytes - 1) / l.p_alignment_bytes * l.p_alignment_bytes

header_size-aligned : (l : Luks) → 0 < l.p_alignment_bytes → header_size l ≡ ok (header_bytes l)
unfolding header_size
header_size-aligned l h = ground arith

-- What a partition takes without its children, when its alignment is not zero.
abbrev pub own_bytes : Bool → IdpPartition → Option Luks → ℕ
own_bytes aligned p none = if aligned then p.aligned_size else p.size
own_bytes aligned p (some l) = elim l.etype [
  | raw ↦ header_bytes l
  | partitioned ↦ u64 (header_bytes l + l.p_alignment_bytes * 2)
]

own_size-aligned :
    (aligned : Bool) (p : IdpPartition) (o : Option Luks)
    → p.luks ≡ o
    → IsAligned o
    → own_size aligned p ≡ ok (own_bytes aligned p o)
unfolding own_size
own_size-aligned aligned p none e h = rw e
own_size-aligned aligned p (some l) e h = rw e (rw (header_size-aligned l h))

-- The sum in unbounded numbers of the sizes of those partitions whose parent stands at `i`, where
-- each has one.
abbrev pub SumOfChildren : (IdpPartition → Outcome ℕ) → ℕ → List IdpPartition → ℕ → Type 0
SumOfChildren size i [] total = total ≡ 0
SumOfChildren size i (c ∷ all) total =
    if same_index c.parent_index (some i)
    then ((n m : ℕ) × (size c ≡ ok n) × SumOfChildren size i all m × (total ≡ n + m))
    else SumOfChildren size i all total

add_children-mod :
    (size : IdpPartition → Outcome ℕ) (i : ℕ) (l : List IdpPartition) (total own : ℕ)
    → own < u64_mod
    → SumOfChildren size i l total
    → add_children size (some i) l own ≡ ok (u64 (own + total))
unfolding add_children
add_children-mod size i [] total own h e = ground arith
add_children-mod size i (c ∷ l) total own h e =
    elim (Bool-cases (same_index c.parent_index (some i))) [
      | inl child ↦
          let (n, m, given, more, sum) = rw child at e in
          rw (child, given)
            (add_children-mod size i l m (u64 (own + n)) (omega arith) more ∙ ap ok (omega arith))
      | inr other ↦ rw other (add_children-mod size i l total own h (rw other at e))
    ]

module _ (aligned : Bool) (all : List IdpPartition) where
  abbrev size_at : ℕ → IdpPartition → Outcome ℕ
  size_at f = get_size_fuel f aligned all

  -- Two depths of the stack give one size to the children of `i` in a part of the list.
  children_agree :
      (f g i s : ℕ) (l : List IdpPartition) (total : ℕ)
      → IsNested s (links l)
      → s + length l ≤ length all
      → ((c : IdpPartition) (k : ℕ)
          → c.index ≡ some k
          → i < k
          → k < length all
          → size_at f c ≡ size_at g c)
      → add_children (size_at f) (some i) l total ≡ add_children (size_at g) (some i) l total
  unfolding add_children
  children_agree f g i s [] total w r h = refl
  children_agree f g i s (c ∷ l) total w r h =
      elim (Bool-cases (same_index c.parent_index (some i))) [
        | inl child ↦
            rw (child, h c s w.0 (w.1 i (same_index_sound _ _ child)) (omega arith))
              (ap (λ (k : ℕ → Outcome ℕ). size_at g c >>= k)
                (fun_ext λ n. children_agree f g i (s + 1) l (u64 (total + n)) w.2 (omega arith) h))
        | inr other ↦ rw other (children_agree f g i (s + 1) l total w.2 (omega arith) h)
      ]

  fuel_agree :
      (f g : ℕ) (p : IdpPartition) (i : ℕ)
      → IsNested 0 (links all)
      → p.index ≡ some i
      → i < length all
      → length all ≤ f + i
      → length all ≤ g + i
      → size_at f p ≡ size_at g p
  unfolding get_size_fuel
  fuel_agree zero g p i w at_i inside hf hg = absurd (omega arith)
  fuel_agree (suc f) zero p i w at_i inside hf hg = absurd (omega arith)
  fuel_agree (suc f) (suc g) p i w at_i inside hf hg = rw at_i (
      ap (λ (k : ℕ → Outcome ℕ). own_size aligned p >>= k)
        (fun_ext λ n.
          children_agree f g i 0 all n w (omega arith)
            λ c k at_k lt below. fuel_agree f g c k w at_k below (omega arith) (omega arith)))

  get_size-eq-children :
      (p : IdpPartition) (i : ℕ)
      → IsNested 0 (links all)
      → p.index ≡ some i
      → i < length all
      → get_size aligned all p
        ≡ (own_size aligned p >>= add_children (get_size aligned all) p.index all)
  unfolding get_size get_size_fuel
  get_size-eq-children p i w at_i inside = rw at_i (
      ap (λ (k : ℕ → Outcome ℕ). own_size aligned p >>= k)
        (fun_ext λ n.
          children_agree (length all) (suc (length all)) i 0 all n w (omega arith)
            λ c k at_k lt below.
              fuel_agree (length all) (suc (length all)) c k w at_k below (omega arith)
                (omega arith)))

  -- On partitions that stand at their indices behind their parents, when getSize gives a size to
  -- each child of a partition, it gives the partition the sum of those and of what it takes without
  -- its children, modulo 2^64.
  pub get_size-eq-sum :
      (p : IdpPartition) (i own total : ℕ)
      → IsNested 0 (links all)
      → p.index ≡ some i
      → i < length all
      → own_size aligned p ≡ ok own
      → own < 2 ^ 64
      → SumOfChildren (get_size aligned all) i all total
      → get_size aligned all p ≡ ok ((own + total) % 2 ^ 64)
  get_size-eq-sum p i own total w at_i inside alone small sum =
      get_size-eq-children p i w at_i inside
      ∙ rw (alone, at_i) (add_children-mod (get_size aligned all) i all total own small sum)

  -- Children whose sizes are all given can be added up.
  add_children-total :
      (size : IdpPartition → Outcome ℕ) (i s : ℕ) (l : List IdpPartition) (total : ℕ)
      → IsNested s (links l)
      → AllAligned l
      → s + length l ≤ length all
      → ((c : IdpPartition) (k : ℕ)
          → c.index ≡ some k
          → i < k
          → k < length all
          → IsAligned c.luks
          → (n : ℕ) × (size c ≡ ok n))
      → (n : ℕ) × (add_children size (some i) l total ≡ ok n)
  unfolding add_children
  add_children-total size i s [] total w a r h = (total, refl)
  add_children-total size i s (c ∷ l) total w a r h =
      elim (Bool-cases (same_index c.parent_index (some i))) [
        | inl child ↦
            let (n, e) = h c s w.0 (w.1 i (same_index_sound _ _ child)) (omega arith) a.0 in
            rw (child, e)
              (add_children-total size i (s + 1) l (u64 (total + n)) w.2 a.1 (omega arith) h)
        | inr other ↦ rw other (add_children-total size i (s + 1) l total w.2 a.1 (omega arith) h)
      ]

  size_at-total :
      (f : ℕ) (p : IdpPartition) (i : ℕ)
      → IsNested 0 (links all)
      → AllAligned all
      → p.index ≡ some i
      → i < length all
      → IsAligned p.luks
      → length all ≤ f + i
      → (n : ℕ) × (size_at f p ≡ ok n)
  unfolding get_size_fuel
  size_at-total zero p i w a at_i inside h hf = absurd (omega arith)
  size_at-total (suc f) p i w a at_i inside h hf =
      rw (own_size-aligned aligned p p.luks refl h, at_i)
        (add_children-total (size_at f) i 0 all (own_bytes aligned p p.luks) w a (omega arith)
          λ c k at_k lt below hc. size_at-total f c k w a at_k below hc (omega arith))

  -- On partitions that stand at their indices behind their parents, with alignments of their
  -- containers that are not zero, getSize of each returns a size: no chain of children is
  -- endless, and no division traps.
  pub get_size-total :
      (p : IdpPartition) (i : ℕ)
      → IsNested 0 (links all)
      → AllAligned all
      → p.index ≡ some i
      → i < length all
      → IsAligned p.luks
      → (n : ℕ) × (get_size aligned all p ≡ ok n)
  unfolding get_size
  get_size-total p i w a at_i inside h =
      size_at-total (suc (length all)) p i w a at_i inside h (omega arith)
