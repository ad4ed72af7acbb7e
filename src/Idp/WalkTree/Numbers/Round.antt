-- ===== src/Idp/WalkTree/Numbers/Round.antt =====
-- The numbers after one round of the loop of walkTree.
use rpi_fastbootd.Prelude.{
  ℕ, ◌+◌, ◌≡◌, ◌∙◌, ◌≢◌, inl, inr, false, ◌&&◌, Option, none, some, List, arith, ◌==◌,
  if◌then◌else◌, Option-cases, get_elem?, set, take, get_elem?-lt-length,
}
use rpi_fastbootd.Idp.Storage.{PtableType}
use rpi_fastbootd.Idp.Partition.{IdpPartition, same_index, links, IsNested, is_root}
use rpi_fastbootd.Idp.WalkTree.{number_children, number_root, visit}
use rpi_fastbootd.Idp.WalkTree.Numbers.Links.{
  children_of, num_at, links-set, number_root_links, get_elem?-links, num_at-number_children_ne,
  num_at-number_children_self, num_at-set_self, num_at-set_ne, IsNested-index,
}

-- One round of the outer loop, at a root partition `p` that stands at `pos`.
module _ (table : PtableType) (pos root_num n : ℕ) (all : List IdpPartition) (p : IdpPartition)
    (here : get_elem? all pos ≡ some p) (top : p.parent_index ≡ none)
    (own : p.index ≡ some pos) where
  root : IdpPartition
  root = (number_root table root_num n p).0

  links-set-root : links (set all pos root) ≡ links all
  unfolding root
  links-set-root =
      ground (arith, links-set all pos p root here, number_root_links table root_num n p)

  visit-root :
      (visit table pos root_num n all p).0 ≡ number_children (some pos) 1 (set all pos root)
  unfolding visit root
  visit-root = ground arith

  num_at-visit_root : num_at (visit table pos root_num n all p).0 pos ≡ some root_num
  unfolding root
  num_at-visit_root = ground (
    arith,
    visit-root,
    num_at-number_children_ne pos 1 (set all pos root) pos {i = p.index} {q = p.parent_index}
        (rw links-set-root (get_elem?-links all pos p here)) (rw top),
    num_at-set_self all pos root (get_elem?-lt-length all pos here),
    number_root_links table root_num n p,
  )

  num_at-visit_child :
      (k : ℕ) {i : Option ℕ}
      → get_elem? (links all) k ≡ some (i, some pos)
      → num_at (visit table pos root_num n all p).0 k
        ≡ some (1 + children_of pos (take k (links all)))
  num_at-visit_child k {i} h = rw visit-root (
      rw links-set-root at
        (num_at-number_children_self pos 1 (set all pos root) k {i = i} (rw links-set-root h)))

  num_at-visit_ne :
      (k : ℕ) {i q : Option ℕ}
      → get_elem? (links all) k ≡ some (i, q)
      → pos ≢ k
      → same_index q (some pos) ≡ false
      → num_at (visit table pos root_num n all p).0 k ≡ num_at all k
  num_at-visit_ne k {i} {q} h d e = rw visit-root (
      num_at-number_children_ne pos 1 (set all pos root) k {i = i} {q = q} (rw links-set-root h) e
      ∙ num_at-set_ne all pos k root d)

-- One round at any partition `p` that stands at `pos`.
module _ (table : PtableType) (pos root_num n : ℕ) (all : List IdpPartition) (p : IdpPartition)
    (w : IsNested 0 (links all)) (here : get_elem? all pos ≡ some p) where
  own : p.index ≡ some pos
  own = ground (arith, IsNested-index 0 (links all) pos w (get_elem?-links all pos p here))

  visit_inner : p.parent_index ≢ none → (visit table pos root_num n all p).0 ≡ all
  unfolding visit
  visit_inner h = ground arith

  pub visit_root_num :
      (visit table pos root_num n all p).1 ≡ (if is_root p then root_num + 1 else root_num)
  unfolding visit
  visit_root_num = ground arith

  pub num_at-visit_top :
      (k : ℕ) {i : Option ℕ}
      → get_elem? (links all) k ≡ some (i, none)
      → num_at (visit table pos root_num n all p).0 k
        ≡ (if pos == k then some root_num else num_at all k)
  num_at-visit_top k {i} h = elim (Option-cases p.parent_index) [
    | inl top ↦ ground (
      arith,
      num_at-visit_root table pos root_num n all p here top own,
      num_at-visit_ne table pos root_num n all p here top own k {i = i} {q = none} h,
    )
    | inr (q, e) ↦ ground (arith, visit_inner (λ z. cc (z, e)), get_elem?-links all pos p here)
  ]

  pub num_at-visit_inner :
      (k j : ℕ) {i : Option ℕ}
      → get_elem? (links all) k ≡ some (i, some j)
      → num_at (visit table pos root_num n all p).0 k ≡ (
          if j == pos && is_root p
          then some (1 + children_of j (take k (links all)))
          else num_at all k)
  num_at-visit_inner k j {i} h = elim (Option-cases p.parent_index) [
    | inl top ↦ ground (
      arith,
      num_at-visit_child table pos root_num n all p here top own k {i = i},
      num_at-visit_ne table pos root_num n all p here top own k {i = i} {q = some j} h,
      get_elem?-links all pos p here,
    )
    | inr (q, e) ↦ ground (arith, visit_inner (λ z. cc (z, e)))
  ]
