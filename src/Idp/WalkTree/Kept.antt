-- ===== src/Idp/WalkTree/Kept.antt =====
-- What walkTree leaves as it is.
use rpi_fastbootd.Prelude.{
  ℕ, zero, suc, ◌+◌, ◌≡◌, refl, ◌∙◌, inl, inr, Option, none, some, List, [], ◌∷◌, arith,
  Option-cases, length, get_elem?, set,
}
use rpi_fastbootd.Idp.Luks.{Luks}
use rpi_fastbootd.Idp.Storage.{PtableType, dos, gpt}
use rpi_fastbootd.Idp.Partition.{IdpPartition, links}
use rpi_fastbootd.Idp.WalkTree.{
  label_container, number_children, number_root, visit, walk_from, walk_tree,
}
use rpi_fastbootd.Idp.WalkTree.Numbers.Links.{links-visit}

-- The containers of the partitions.
abbrev pub all_luks : List IdpPartition → List (Option Luks)
all_luks [] = []
all_luks (p ∷ all) = p.luks ∷ all_luks all

label_container-luks :
    (table : PtableType) (n : ℕ) (p : IdpPartition) → (label_container table n p).0.luks ≡ p.luks
unfolding label_container
label_container-luks dos n p = ground arith
label_container-luks gpt n p = ground arith

number_root-luks :
    (table : PtableType) (root_num n : ℕ) (p : IdpPartition)
    → (number_root table root_num n p).0.luks ≡ p.luks
unfolding number_root
number_root-luks table root_num n p =
    ground (arith, label_container-luks table n (record p { num = root_num }))

all_luks-number_children :
    (i : Option ℕ) (n : ℕ) (all : List IdpPartition)
    → all_luks (number_children i n all) ≡ all_luks all
unfolding number_children
all_luks-number_children i n [] = refl
all_luks-number_children i n (c ∷ all) =
    ground (arith, all_luks-number_children i n all, all_luks-number_children i (n + 1) all)

all_luks-set :
    (all : List IdpPartition) (k : ℕ) (p q : IdpPartition)
    → get_elem? all k ≡ some p
    → q.luks ≡ p.luks
    → all_luks (set all k q) ≡ all_luks all
all_luks-set [] k p q h e = cc
all_luks-set (c ∷ all) zero p q h e = ground arith
all_luks-set (c ∷ all) (suc k) p q h e = ground (arith, all_luks-set all k p q h e)

all_luks-visit :
    (table : PtableType) (pos root_num n : ℕ) (all : List IdpPartition) (p : IdpPartition)
    → get_elem? all pos ≡ some p
    → all_luks (visit table pos root_num n all p).0 ≡ all_luks all
unfolding visit
all_luks-visit table pos root_num n all p h = ground (
  arith,
  all_luks-number_children p.index 1 (set all pos (number_root table root_num n p).0),
  all_luks-set all pos p (number_root table root_num n p).0,
  number_root-luks table root_num n p,
)

-- Two lists of partitions with the same tree and the same containers.
abbrev AreAlike : List IdpPartition → List IdpPartition → Type 0
AreAlike all all' = (links all ≡ links all') × (all_luks all ≡ all_luks all')

walk_from-end :
    (table : PtableType) (rounds pos root_num n : ℕ) (all : List IdpPartition)
    → get_elem? all pos ≡ none
    → walk_from table (suc rounds) pos root_num n all ≡ all
unfolding walk_from
walk_from-end table rounds pos root_num n all e = ground arith

walk_from-visit :
    (table : PtableType) (rounds pos root_num n : ℕ) (all : List IdpPartition) (p : IdpPartition)
    → get_elem? all pos ≡ some p
    → let r = visit table pos root_num n all p in
      walk_from table (suc rounds) pos root_num n all ≡ walk_from table rounds (suc pos) r.1 r.2 r.0
unfolding walk_from
walk_from-visit table rounds pos root_num n all p e = ground arith

walk_from-AreAlike :
    (table : PtableType) (rounds pos root_num n : ℕ) (all : List IdpPartition)
    → AreAlike (walk_from table rounds pos root_num n all) all
walk_from-AreAlike table zero pos root_num n all = unfold walk_from in (refl, refl)
walk_from-AreAlike table (suc rounds) pos root_num n all = elim (Option-cases (get_elem? all pos)) [
  | inl e ↦ rw (walk_from-end table rounds pos root_num n all e) (refl, refl)
  | inr (p, e) ↦
      let r = visit table pos root_num n all p in
      let (same_links, same_luks) = walk_from-AreAlike table rounds (suc pos) r.1 r.2 r.0 in
      rw (walk_from-visit table rounds pos root_num n all p e) (
        same_links ∙ links-visit table pos root_num n all p e,
        same_luks ∙ all_luks-visit table pos root_num n all p e,
      )
]

-- The tree of the partitions and their containers.
pub walk_tree_kept :
    (table : PtableType) (all : List IdpPartition)
    → (links (walk_tree table all) ≡ links all) × (all_luks (walk_tree table all) ≡ all_luks all)
unfolding walk_tree
walk_tree_kept table all = walk_from-AreAlike table (length all) 0 1 1 all
