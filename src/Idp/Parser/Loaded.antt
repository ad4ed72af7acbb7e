-- ===== src/Idp/Parser/Loaded.antt =====
-- What a parser has after loadJSON.
use rpi_fastbootd.Prelude.{
  ℕ, ◌%◌, ◌<◌, ◌≡◌, refl, sym, ap, subst, ◌∙◌, ◌≢◌, Bool, true, Option, some, List, [], ◌∷◌, arith,
  if-elim, get_elem?, get_elem?-lt-length,
}
use rpi_fastbootd.Prelude.Text.{Text}
use rpi_fastbootd.Prelude.Outcome.{Outcome, ok, throw}
use rpi_fastbootd.Idp.Luks.{Luks}
use rpi_fastbootd.Idp.Storage.{PtableType}
use rpi_fastbootd.Idp.Partition.{IdpPartition, links, IsNested, get_size}
use rpi_fastbootd.Idp.Partition.Size.{IsAligned, AllAligned, get_size-total}
use rpi_fastbootd.Idp.WalkTree.{walk_tree}
use rpi_fastbootd.Idp.WalkTree.Kept.{all_luks, walk_tree_kept}
use rpi_fastbootd.Idp.WalkTree.Numbers.Links.{IsNested-index, get_elem?-links}
use rpi_fastbootd.Idp.Parser.Json.{Json, Checked, got, refused}
use rpi_fastbootd.Idp.Parser.State.{IdpParser}
use rpi_fastbootd.Idp.Parser.Layout.Nested.{AllAligned-at}
use rpi_fastbootd.Idp.Parser.Load.{walk_partitions, ig_validate, set_valid, load_json, get_image}
use rpi_fastbootd.Idp.Parser.Accepted.{IsAccepted, parse_ig_v2-IsAccepted, parse_versioned-Triple}
use rpi_fastbootd.Idp.Parser.Triple.{
  After, Triple, Triple-anything, Triple-from_option, Triple-require, Triple-update, Triple-current,
  Triple-bind,
}

abbrev AlignedLuks : List (Option Luks) → Type 0
AlignedLuks [] = Unit
AlignedLuks (l ∷ ls) = IsAligned l × AlignedLuks ls

AlignedLuks-all_luks : (all : List IdpPartition) → AllAligned all → AlignedLuks (all_luks all)
AlignedLuks-all_luks [] h = tt
AlignedLuks-all_luks (p ∷ all) (own, h) = (own, AlignedLuks-all_luks all h)

AllAligned-of_luks : (all : List IdpPartition) → AlignedLuks (all_luks all) → AllAligned all
AllAligned-of_luks [] h = tt
AllAligned-of_luks (p ∷ all) (own, h) = (own, AllAligned-of_luks all h)

AllAligned-walk_tree :
    (table : PtableType) (all : List IdpPartition)
    → AllAligned all
    → AllAligned (walk_tree table all)
AllAligned-walk_tree table all h =
    AllAligned-of_luks (walk_tree table all)
      (subst AlignedLuks (sym (walk_tree_kept table all).1) (AlignedLuks-all_luks all h))

module _ (J : Json) (fuel : ℕ) where
  walk_partitions-IsAccepted : (s : IdpParser J) → IsAccepted s → IsAccepted (walk_partitions J s)
  unfolding walk_partitions
  walk_partitions-IsAccepted s (sizes, (nested, aligned)) =
      let table = s.image.device_storage.ptable_type in
      (
        sizes,
        (
          subst (IsNested 0) (sym (walk_tree_kept table s.partitions).0) nested,
          λ positive. AllAligned-walk_tree table s.partitions (aligned positive),
        ),
      )

  ig_validate-IsAccepted : Triple (λ _. Unit) (ig_validate J fuel) (λ _. IsAccepted)
  unfolding ig_validate
  ig_validate-IsAccepted = Triple-bind Triple-current λ s. Triple-bind (Triple-anything _) λ str.
      Triple-bind (Triple-from_option _ _) λ v. Triple-bind (Triple-require _ _) λ _.
        Triple-bind (Triple-update {Q = λ _. Unit} _ (λ s' h. tt)) λ _.
          Triple-bind (parse_versioned-Triple J v 2 (parse_ig_v2-IsAccepted J fuel s.root))
            λ _. Triple-update _ (walk_partitions-IsAccepted)

  abbrev IsLoaded : IdpParser J → Type 0
  IsLoaded s = (s.jvalid ≡ true) × IsAccepted s

  set_valid-IsLoaded :
      (r : Outcome (Checked (Unit {0})) × IdpParser J)
      → After (λ _. IsAccepted) r
      → After (λ _. IsLoaded) (set_valid J r)
  set_valid-IsLoaded (throw e, s) h = tt
  set_valid-IsLoaded (ok (refused why), s) h = tt
  set_valid-IsLoaded (ok (got r), s) h = (refl, h)

  load_json-IsLoaded :
      (text : Text) (s : IdpParser J) → After (λ _. IsLoaded) (load_json J fuel text s)
  unfolding load_json
  load_json-IsLoaded text s =
      if-elim (After (λ _. IsLoaded)) (J.parse text).0
        (λ _. set_valid-IsLoaded _ (ig_validate-IsAccepted.run _ tt)) (λ _. tt)

  -- When loadJSON accepts a description, getImage gives its image, the sector size is a multiple
  -- of 512, the image size is not zero, the alignment of the partition table is a multiple of a
  -- mebibyte, and the partitions stand at their indices, each behind its parent.
  pub load_json-IsNested :
      (text : Text) (s s' : IdpParser J)
      → load_json J fuel text s ≡ (ok (got tt), s')
      → (get_image J s' ≡ some s'.image)
        × (s'.image.device_storage.sector_size % 512 ≡ 0)
        × (s'.image.size ≢ 0)
        × (s'.image.device_storage.ptable_align % 1048576 ≡ 0)
        × IsNested 0 (links s'.partitions)
  unfolding get_image
  load_json-IsNested text s s' e =
      let (valid, ((sectors, sized, aligned), (nested, _))) =
        subst (After (λ _. IsLoaded)) e (load_json-IsLoaded text s) in
      (rw valid refl, sectors, sized, aligned, nested)

  -- When loadJSON accepts a description whose partition table has an alignment that is not zero,
  -- getSize returns on each of its partitions.
  pub load_json-get_size :
      (text : Text) (s s' : IdpParser J) (aligned : Bool) (k : ℕ) (p : IdpPartition)
      → load_json J fuel text s ≡ (ok (got tt), s')
      → 0 < s'.image.device_storage.ptable_align
      → get_elem? s'.partitions k ≡ some p
      → (n : ℕ) × (get_size aligned s'.partitions p ≡ ok n)
  load_json-get_size text s s' aligned k p e positive at_k =
      let (_, (_, (nested, all_aligned))) =
        subst (After (λ _. IsLoaded)) e (load_json-IsLoaded text s) in
      let all = s'.partitions in
      get_size-total aligned all p k nested (all_aligned positive)
        (IsNested-index 0 (links all) k nested (get_elem?-links all k p at_k)
          ∙ ap some (omega arith))
        (get_elem?-lt-length all k at_k) (AllAligned-at all k p (all_aligned positive) at_k)
