-- ===== src/Idp/Parser/Layout/Nested.antt =====
-- What parseIGv2 builds is what walkTree and getSize rely on.
use rpi_fastbootd.Prelude.{
  ℕ, zero, suc, ◌+◌, ◌<◌, ◌≡◌, refl, ap, subst, ◌∙◌, inl, inr, Bool, Option, none, some, List, [],
  ◌∷◌, ◌++◌, arith, if-elim, length, get_elem?, length-append, get_elem?-lt-length,
}
use rpi_fastbootd.Prelude.Text.{Text}
use rpi_fastbootd.Prelude.Outcome.{Outcome, Outcome-cases, ok, throw}
use rpi_fastbootd.Idp.Luks.{Luks}
use rpi_fastbootd.Idp.Storage.{Storage, align_up}
use rpi_fastbootd.Idp.Partition.{IdpPartition, links, IsNested, get_size}
use rpi_fastbootd.Idp.Partition.Size.{IsAligned, AllAligned, get_size-total}
use rpi_fastbootd.Idp.WalkTree.Numbers.Links.{IsNested-index, get_elem?-links}
use rpi_fastbootd.Idp.Parser.Json.{Json, Checked, got, refused}
use rpi_fastbootd.Idp.Parser.Layout.{Partition, ImageInfo, Built, find_index, image_info}
use rpi_fastbootd.Idp.Parser.Layout.Build.{
  is_beyond_mbr, container_of, partition_of, parent_of, place, place_made, admit, admit_image,
  visit_partition, continue, build,
}

-- Every partition stands at its index behind its parent, and the map has only indices of the list.
pub record IsBuilt (s : Storage) (b : Built) : Type 0 where
  pub nested : IsNested 0 (links b.partitions)
  pub indexed : (a i : ℕ) → find_index b.p2i a ≡ some i → i < length b.partitions
  pub aligned : 0 < s.ptable_align → AllAligned b.partitions

IsNested-snoc :
    (n : ℕ) (all : List IdpPartition) (p : IdpPartition)
    → IsNested n (links all)
    → p.index ≡ some (n + length all)
    → ((j : ℕ) → p.parent_index ≡ some j → j < n + length all)
    → IsNested n (links (all ++ p ∷ []))
IsNested-snoc n [] p w e f = (e ∙ ap some (omega arith), (λ j h. omega (arith, f j h)), tt)
IsNested-snoc n (q ∷ all) p (at, behind, w) e f = (
  at,
  behind,
  IsNested-snoc (n + 1) all p w (e ∙ ap some (omega arith)) (λ j h. omega (arith, f j h)),
)

find_index-below :
    (p2i : List (ℕ × ℕ)) (n : ℕ) (parent : Option ℕ) (j : ℕ)
    → ((a i : ℕ) → find_index p2i a ≡ some i → i < n)
    → parent_of p2i parent ≡ some j
    → j < n
find_index-below p2i n none j h e = absurd (cc e)
find_index-below p2i n (some a) j h e = h a j e

find_index-place :
    (p2i : List (ℕ × ℕ)) (n a b i : ℕ)
    → ((a i : ℕ) → find_index p2i a ≡ some i → i < n)
    → find_index ((b, n) ∷ p2i) a ≡ some i
    → i < suc n
unfolding find_index
find_index-place p2i n a b i h e = ground (arith, h a i)

length-snoc : {A : Type 0} (xs : List A) (y : A) → length (xs ++ y ∷ []) ≡ suc (length xs)
length-snoc xs y = omega (arith, length-append xs (y ∷ []))

AllAligned-snoc :
    (all : List IdpPartition) (p : IdpPartition)
    → AllAligned all
    → IsAligned p.luks
    → AllAligned (all ++ p ∷ [])
AllAligned-snoc [] p a h = (h, tt)
AllAligned-snoc (q ∷ all) p (own, a) h = (own, AllAligned-snoc all p a h)

module _ (J : Json) (root : Json.Value J) (s : Storage) where
  place-IsBuilt :
      (b : Built) (q : Partition) (p : IdpPartition)
      → IsBuilt s b
      → (0 < s.ptable_align → IsAligned p.luks)
      → IsBuilt s (place b q p)
  unfolding place
  place-IsBuilt b q p h own = record {
    nested =
        IsNested-snoc 0 b.partitions _ h.nested (ap some (omega arith)) (λ j e.
          omega (arith, find_index-below b.p2i (length b.partitions) q.parent j h.indexed e));
    indexed = λ a i e.
        rw length-snoc (find_index-place b.p2i (length b.partitions) a q.address i h.indexed e);
    aligned = λ positive. AllAligned-snoc b.partitions _ (h.aligned positive) (own positive);
  }

  admit-IsBuilt :
      (q : Partition) (made : Outcome IdpPartition) (b : Built)
      → IsBuilt s b
      → ((p : IdpPartition) → made ≡ ok p → 0 < s.ptable_align → IsAligned p.luks)
      → IsBuilt s (admit s q made b).1
  unfolding admit
  admit-IsBuilt q made b h own =
      if-elim {A = Outcome (Option Text) × Built} (λ r. IsBuilt s r.1)
        (is_beyond_mbr s.ptable_type q.order) (λ _. h) (λ _. by_made made own)
    where
      by_made :
          (made : Outcome IdpPartition)
          → ((p : IdpPartition) → made ≡ ok p → 0 < s.ptable_align → IsAligned p.luks)
          → IsBuilt s (place_made b q made).1
      by_made (throw e) own = h
      by_made (ok p) own = place-IsBuilt b q p h (own p refl)

  -- A partition that is no container has no alignment of its own.
  partition_of-luks :
      (info : ImageInfo) (p : IdpPartition) → partition_of s info ≡ ok p → p.luks ≡ none
  unfolding partition_of
  partition_of-luks info p h = elim (Outcome-cases (align_up s info.img_size)) [
    | inl (a, e) ↦ ground (arith, e)
    | inr (x, e) ↦ absurd (ground (arith, e))
  ]

  pub visit_partition-IsBuilt :
      (q : Partition) (luks : Option Luks) (b : Built)
      → IsBuilt s b
      → IsBuilt s (visit_partition J root s q luks b).1
  unfolding visit_partition admit_image container_of
  visit_partition-IsBuilt q (some l) b h =
      admit-IsBuilt q (ok (container_of s l)) b h
        (λ p e positive. subst (λ (x : IdpPartition). IsAligned x.luks) (same p e) positive)
    where
      same : (p : IdpPartition) → ok (container_of s l) ≡ ok p → container_of s l ≡ p
      same p e = cc e
  visit_partition-IsBuilt q none b h = by_image (image_info J root q.image)
    where
      by_image : (info : Outcome (Checked ImageInfo)) → IsBuilt s (admit_image J root s q info b).1
      by_image (throw e) = h
      by_image (ok (refused why)) = h
      by_image (ok (got info)) =
          admit-IsBuilt q (partition_of s info) b h (λ p e _. rw (partition_of-luks info p e) tt)

  build-IsBuilt :
      (all : List Partition) (b : Built) → IsBuilt s b → IsBuilt s (build J root s all b).1
  unfolding build
  build-IsBuilt [] b h = h
  build-IsBuilt (q ∷ rest) b h =
      by_visit (visit_partition J root s q q.luks b).0
        (build-IsBuilt rest (visit_partition J root s q q.luks b).1 kept)
    where
      kept : IsBuilt s (visit_partition J root s q q.luks b).1
      kept = visit_partition-IsBuilt q q.luks b h

      by_visit :
          (r : Outcome (Option Text))
          → IsBuilt s (build J root s rest (visit_partition J root s q q.luks b).1).1
          → IsBuilt s
              (continue J root s
                (r, (visit_partition J root s q q.luks b).1)
                (λ b'. build J root s rest b')).1
      by_visit (throw e) rest_built = kept
      by_visit (ok (some why)) rest_built = kept
      by_visit (ok none) rest_built = rest_built

-- The state before the first partition.
abbrev pub nothing_built : Built
nothing_built = record { p2i = []; partitions = [] }

pub nothing-IsBuilt : (s : Storage) → IsBuilt s nothing_built
unfolding find_index
nothing-IsBuilt s = record {
  nested = tt;
  indexed = λ a i e. absurd (cc e);
  aligned = λ positive. tt;
}

pub AllAligned-at :
    (all : List IdpPartition) (k : ℕ) (p : IdpPartition)
    → AllAligned all
    → get_elem? all k ≡ some p
    → IsAligned p.luks
AllAligned-at [] k p a h = absurd (cc h)
AllAligned-at (q ∷ all) zero p a h =
    let same : q ≡ p = cc h in subst (λ (x : IdpPartition). IsAligned x.luks) same a.0
AllAligned-at (q ∷ all) (suc k) p a h = AllAligned-at all k p a.1 h

module _ (J : Json) (root : Json.Value J) (s : Storage) (visited : List Partition) where
  -- The partitions that parseIGv2 has built, of whatever description and whether it ends with an
  -- error or not, stand at their indices, each behind its parent.
  pub build-IsNested : IsNested 0 (links (build J root s visited nothing_built).1.partitions)
  build-IsNested = IsBuilt.nested (build-IsBuilt J root s visited nothing_built (nothing-IsBuilt s))

  -- When the alignment of the partition table is not zero, getSize returns on every partition
  -- that parseIGv2 has built, of whatever description.
  pub build-get_size :
      (aligned : Bool) (k : ℕ) (p : IdpPartition)
      → 0 < s.ptable_align
      → get_elem? (build J root s visited nothing_built).1.partitions k ≡ some p
      → (n : ℕ) × (get_size aligned (build J root s visited nothing_built).1.partitions p ≡ ok n)
  build-get_size aligned k p positive at_k =
      let b = build-IsBuilt J root s visited nothing_built (nothing-IsBuilt s) in
      let all = (build J root s visited nothing_built).1.partitions in
      get_size-total aligned all p k b.nested (b.aligned positive)
        (IsNested-index 0 (links all) k b.nested (get_elem?-links all k p at_k)
          ∙ ap some (omega arith))
        (get_elem?-lt-length all k at_k) (AllAligned-at all k p (b.aligned positive) at_k)
