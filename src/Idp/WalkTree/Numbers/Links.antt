-- ===== src/Idp/WalkTree/Numbers/Links.antt =====
-- The numbers that the partitions hold, through the steps of walkTree that set them.
use rpi_fastbootd.Prelude.{
  ℕ, zero, suc, ◌+◌, ◌<◌, ◌≡◌, refl, ap, ◌≢◌, false, Option, none, some, List, [], ◌∷◌, arith,
  if◌then◌else◌, has_value, length, get_elem?, set, take,
}
use rpi_fastbootd.Idp.Storage.{PtableType, dos, gpt}
use rpi_fastbootd.Idp.Partition.{IdpPartition, same_index, links, IsNested}
use rpi_fastbootd.Idp.WalkTree.{label_container, number_children, number_root, visit}

-- How many of the partitions are children of the one at `j`.
abbrev pub children_of : ℕ → List (Option ℕ × Option ℕ) → ℕ
children_of j [] = 0
children_of j ((_, parent) ∷ ls) =
    if same_index parent (some j) then suc (children_of j ls) else children_of j ls

-- How many of the partitions have no parent.
abbrev pub roots : List (Option ℕ × Option ℕ) → ℕ
roots [] = 0
roots ((_, parent) ∷ ls) = if has_value parent then roots ls else suc (roots ls)

label_container_links :
    (table : PtableType) (n : ℕ) (p : IdpPartition)
    → let q = (label_container table n p).0 in
      (q.index ≡ p.index) × (q.parent_index ≡ p.parent_index) × (q.num ≡ p.num)
unfolding label_container
label_container_links dos n p = ground arith
label_container_links gpt n p = ground arith

pub number_root_links :
    (table : PtableType) (root_num n : ℕ) (p : IdpPartition)
    → let q = (number_root table root_num n p).0 in
      (q.index ≡ p.index) × (q.parent_index ≡ p.parent_index) × (q.num ≡ root_num)
unfolding number_root
number_root_links table root_num n p =
    ground (arith, label_container_links table n (record p { num = root_num }))

links-number_children :
    (i : Option ℕ) (n : ℕ) (all : List IdpPartition) → links (number_children i n all) ≡ links all
unfolding number_children
links-number_children i n [] = refl
links-number_children i n (c ∷ all) =
    ground (arith, links-number_children i n all, links-number_children i (n + 1) all)

pub links-set :
    (all : List IdpPartition) (k : ℕ) (p q : IdpPartition)
    → get_elem? all k ≡ some p
    → q.index ≡ p.index
    → q.parent_index ≡ p.parent_index
    → links (set all k q) ≡ links all
links-set [] k p q h e f = cc
links-set (c ∷ all) zero p q h e f = ground arith
links-set (c ∷ all) (suc k) p q h e f = ground (arith, links-set all k p q h e f)

pub links-visit :
    (table : PtableType) (pos root_num n : ℕ) (all : List IdpPartition) (p : IdpPartition)
    → get_elem? all pos ≡ some p
    → links (visit table pos root_num n all p).0 ≡ links all
unfolding visit
links-visit table pos root_num n all p h = ground (
  arith,
  links-number_children p.index 1 (set all pos (number_root table root_num n p).0),
  links-set all pos p (number_root table root_num n p).0,
  number_root_links table root_num n p,
)

-- The number of the partition at a position.
abbrev pub num_at : List IdpPartition → ℕ → Option ℕ
num_at [] k = none
num_at (p ∷ all) zero = some p.num
num_at (p ∷ all) (suc k) = num_at all k

pub get_elem?-links :
    (all : List IdpPartition) (k : ℕ) (p : IdpPartition)
    → get_elem? all k ≡ some p
    → get_elem? (links all) k ≡ some (p.index, p.parent_index)
get_elem?-links [] k p h = cc
get_elem?-links (c ∷ all) zero p h = ground arith
get_elem?-links (c ∷ all) (suc k) p h = get_elem?-links all k p h

pub IsNested-index :
    (s : ℕ) (ls : List (Option ℕ × Option ℕ)) (k : ℕ) {i q : Option ℕ}
    → IsNested s ls
    → get_elem? ls k ≡ some (i, q)
    → i ≡ some (s + k)
IsNested-index s [] k w h = cc
IsNested-index s (l ∷ ls) zero w h = ground arith
IsNested-index s (l ∷ ls) (suc k) w h = ground (arith, IsNested-index (s + 1) ls k w.2 h)

pub num_at-number_children_self :
    (j n : ℕ) (all : List IdpPartition) (k : ℕ) {i : Option ℕ}
    → get_elem? (links all) k ≡ some (i, some j)
    → num_at (number_children (some j) n all) k ≡ some (n + children_of j (take k (links all)))
unfolding number_children
num_at-number_children_self j n [] k h = cc
num_at-number_children_self j n (c ∷ all) zero h = ground arith
num_at-number_children_self j n (c ∷ all) (suc k) h =
    ground (
      arith,
      num_at-number_children_self j n all k h,
      num_at-number_children_self j (n + 1) all k h,
    )

pub num_at-number_children_ne :
    (j n : ℕ) (all : List IdpPartition) (k : ℕ) {i q : Option ℕ}
    → get_elem? (links all) k ≡ some (i, q)
    → same_index q (some j) ≡ false
    → num_at (number_children (some j) n all) k ≡ num_at all k
unfolding number_children
num_at-number_children_ne j n [] k h e = cc
num_at-number_children_ne j n (c ∷ all) zero h e = ground arith
num_at-number_children_ne j n (c ∷ all) (suc k) h e =
    ground (
      arith,
      num_at-number_children_ne j n all k h e,
      num_at-number_children_ne j (n + 1) all k h e,
    )

pub num_at-set_self :
    (all : List IdpPartition) (k : ℕ) (q : IdpPartition)
    → k < length all
    → num_at (set all k q) k ≡ some q.num
num_at-set_self [] k q h = elim h [ ]
num_at-set_self (c ∷ all) zero q h = refl
num_at-set_self (c ∷ all) (suc k) q h = num_at-set_self all k q (omega arith)

pub num_at-set_ne :
    (all : List IdpPartition) (k j : ℕ) (q : IdpPartition)
    → k ≢ j
    → num_at (set all k q) j ≡ num_at all j
num_at-set_ne [] k j q h = refl
num_at-set_ne (c ∷ all) zero zero q h = absurd (h refl)
num_at-set_ne (c ∷ all) zero (suc j) q h = refl
num_at-set_ne (c ∷ all) (suc k) zero q h = refl
num_at-set_ne (c ∷ all) (suc k) (suc j) q h = num_at-set_ne all k j q (λ e. h (ap suc e))

pub roots-take-suc :
    (ls : List (Option ℕ × Option ℕ)) (k : ℕ) {i q : Option ℕ}
    → get_elem? ls k ≡ some (i, q)
    → roots (take (suc k) ls) ≡ (if has_value q then roots (take k ls) else suc (roots (take k ls)))
roots-take-suc [] k h = cc
roots-take-suc (l ∷ ls) zero h = ground arith
roots-take-suc (l ∷ ls) (suc k) h = ground (arith, roots-take-suc ls k h)

pub length-links : (all : List IdpPartition) → length (links all) ≡ length all
length-links [] = refl
length-links (p ∷ all) = ap suc (length-links all)
