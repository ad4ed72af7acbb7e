-- ===== src/Idp/WalkTree/Numbers.antt =====
-- The numbers that IDPparser::walkTree gives to the partitions.
pub mod Links
mod Round
use rpi_fastbootd.Prelude.{
  ℕ, zero, suc, ◌+◌, ◌-◌, ◌*◌, ◌/◌, ◌%◌, ◌^◌, ◌≤◌, ◌<◌, ◌≡◌, refl, sym, ap, subst, ◌∙◌, fun_ext,
  ◌≢◌, ◌↔◌, ◌⊎◌, inl, inr, Bool, true, false, not, ◌&&◌, ◌||◌, Option, none, some, List, [], ◌∷◌,
  ◌++◌, map, append_assoc, append-nil, arith, ltb, leb, ◌==◌, if◌then◌else◌, ltb→lt, le→leb, ==_iff,
  Bool-cases, Option-cases, has_value, u64_mod, u64, if-elim, length, get_elem?, set, take,
  length-append, length-take, length-set, get_elem?-set_self, get_elem?-set_ne, get_elem?-lt-length,
  get_elem?-eq-none, ℕ_discrete,
}
use rpi_fastbootd.Idp.Storage.{PtableType, dos, gpt}
use rpi_fastbootd.Idp.Partition.{IdpPartition, same_index, links, IsNested, is_root}
use rpi_fastbootd.Idp.WalkTree.{
  label_container, number_children, number_root, visit, walk_from, walk_tree,
}
use rpi_fastbootd.Idp.WalkTree.Numbers.Links.{
  children_of, roots, num_at, get_elem?-links, links-visit, roots-take-suc, length-links,
}
use rpi_fastbootd.Idp.WalkTree.Numbers.Round.{num_at-visit_top, visit_root_num, num_at-visit_inner}

-- What the rounds that are left do with the number of a root: nothing once it is behind `pos`,
-- and before that the number that its rank among the roots gives.
module _ (table : PtableType) (k : ℕ) {i : Option ℕ} where
  walk_from_root_done :
      (rounds pos root_num n : ℕ) (all : List IdpPartition)
      → IsNested 0 (links all)
      → get_elem? (links all) k ≡ some (i, none)
      → k < pos
      → num_at (walk_from table rounds pos root_num n all) k ≡ num_at all k
  unfolding walk_from
  walk_from_root_done zero pos root_num n all w h d = refl
  walk_from_root_done (suc rounds) pos root_num n all w h d =
      elim (Option-cases (get_elem? all pos)) [
        | inl e ↦ rw (e, walk_from)
        | inr (p, e) ↦
            let same = links-visit table pos root_num n all p e in
            rw (e, walk_from)
              (walk_from_root_done rounds (suc pos) _ _ (visit table pos root_num n all p).0
                  (rw same w) (rw same h) (omega arith)
                ∙ ground (arith, num_at-visit_top table pos root_num n all p w e k {i = i} h))
      ]

  walk_from_root :
      (rounds pos root_num n : ℕ) (all : List IdpPartition)
      → IsNested 0 (links all)
      → get_elem? (links all) k ≡ some (i, none)
      → pos ≤ k
      → k < pos + rounds
      → (m : ℕ) × (num_at (walk_from table rounds pos root_num n all) k ≡ some m)
        × (m + roots (take pos (links all)) ≡ root_num + roots (take k (links all)))
  unfolding walk_from
  walk_from_root zero pos root_num n all w h d r = absurd (omega arith)
  walk_from_root (suc rounds) pos root_num n all w h d r = elim (Option-cases (get_elem? all pos)) [
    | inl e ↦ absurd (
        omega (
          arith,
          get_elem?-eq-none all pos e,
          get_elem?-lt-length (links all) k h,
          length-links all,
        ))
    | inr (p, e) ↦
        let same = links-visit table pos root_num n all p e in
        rw (e, walk_from)
          (elim (ℕ_discrete pos k) [
            | yes at_k ↦ (
              root_num,
              walk_from_root_done rounds (suc pos) _ _ (visit table pos root_num n all p).0
                    (rw same w) (rw same h) (omega arith)
                  ∙ ground (arith, num_at-visit_top table pos root_num n all p w e k {i = i} h),
              ground arith,
            )
            | no before ↦
                let (m, at_m, total) =
                  walk_from_root rounds (suc pos) (visit table pos root_num n all p).1
                    (visit table pos root_num n all p).2 (visit table pos root_num n all p).0
                    (rw same w) (rw same h) (omega arith) (omega arith) in
                (
                  m,
                  at_m,
                  ground (
                    arith,
                    total,
                    same,
                    visit_root_num table pos root_num n all p w e,
                    roots-take-suc (links all) pos {i = p.index} {q = p.parent_index}
                        (get_elem?-links all pos p e),
                  ),
                )
          ])
  ]

-- The same for the child `k` of the partition at `j`.
module _ (table : PtableType) (k j : ℕ) {i : Option ℕ} where
  walk_from_child_done :
      (rounds pos root_num n : ℕ) (all : List IdpPartition)
      → IsNested 0 (links all)
      → get_elem? (links all) k ≡ some (i, some j)
      → j < pos
      → num_at (walk_from table rounds pos root_num n all) k ≡ num_at all k
  unfolding walk_from
  walk_from_child_done zero pos root_num n all w h d = refl
  walk_from_child_done (suc rounds) pos root_num n all w h d =
      elim (Option-cases (get_elem? all pos)) [
        | inl e ↦ rw (e, walk_from)
        | inr (p, e) ↦
            let same = links-visit table pos root_num n all p e in
            rw (e, walk_from)
              (walk_from_child_done rounds (suc pos) _ _ (visit table pos root_num n all p).0
                  (rw same w) (rw same h) (omega arith)
                ∙ ground (arith, num_at-visit_inner table pos root_num n all p w e k j {i = i} h))
      ]

  walk_from_child :
      (rounds pos root_num n : ℕ) (all : List IdpPartition) {o : Option ℕ}
      → IsNested 0 (links all)
      → get_elem? (links all) k ≡ some (i, some j)
      → get_elem? (links all) j ≡ some (o, none)
      → pos ≤ j
      → j < pos + rounds
      → num_at (walk_from table rounds pos root_num n all) k
        ≡ some (1 + children_of j (take k (links all)))
  unfolding walk_from
  walk_from_child zero pos root_num n all w h top d r = absurd (omega arith)
  walk_from_child (suc rounds) pos root_num n all {o} w h top d r =
      elim (Option-cases (get_elem? all pos)) [
        | inl e ↦ absurd (
            omega (
              arith,
              get_elem?-eq-none all pos e,
              get_elem?-lt-length (links all) j top,
              length-links all,
            ))
        | inr (p, e) ↦
            let same = links-visit table pos root_num n all p e in
            rw (e, walk_from)
              (elim (ℕ_discrete pos j) [
                | yes at_j ↦
                    walk_from_child_done rounds (suc pos) _ _ (visit table pos root_num n all p).0
                      (rw same w) (rw same h) (omega arith)
                    ∙ ground (
                      arith,
                      num_at-visit_inner table pos root_num n all p w e k j {i = i} h,
                      get_elem?-links all pos p e,
                    )
                | no before ↦ rw same at (
                    walk_from_child rounds (suc pos) (visit table pos root_num n all p).1
                      (visit table pos root_num n all p).2 (visit table pos root_num n all p).0
                      {o = o} (rw same w) (rw same h) (rw same top) (omega arith) (omega arith))
              ])
      ]

module _ (table : PtableType) (all : List IdpPartition) (k : ℕ) (p : IdpPartition)
    (w : IsNested 0 (links all)) (at_k : get_elem? all k ≡ some p) where
  -- On partitions that stand at their indices behind their parents, the number that walkTree
  -- gives to one with no parent is its rank among those, from 1 on, whatever the partition table
  -- and the partitions between them.
  pub num_at-walk_tree_root :
      p.parent_index ≡ none → num_at (walk_tree table all) k ≡ some (1 + roots (take k (links all)))
  unfolding walk_tree
  num_at-walk_tree_root top =
      let (m, at_m, total) =
        walk_from_root table k {i = p.index} (length all) 0 1 1 all w
          (rw (← top) (get_elem?-links all k p at_k)) (omega arith)
          (omega (arith, get_elem?-lt-length all k at_k)) in
      ground (arith, at_m, total)

  -- On partitions that stand at their indices behind their parents, the number that walkTree
  -- gives to a child of a partition with no parent is its rank among the children of that one,
  -- from 1 on.
  pub num_at-walk_tree_child :
      (j : ℕ) (q : IdpPartition)
      → p.parent_index ≡ some j
      → get_elem? all j ≡ some q
      → q.parent_index ≡ none
      → num_at (walk_tree table all) k ≡ some (1 + children_of j (take k (links all)))
  unfolding walk_tree
  num_at-walk_tree_child j q child at_j top =
      walk_from_child table k j {i = p.index} (length all) 0 1 1 all {o = q.index} w
        (rw (← child) (get_elem?-links all k p at_k)) (rw (← top) (get_elem?-links all j q at_j))
        (omega arith) (omega (arith, get_elem?-lt-length all j at_j))
