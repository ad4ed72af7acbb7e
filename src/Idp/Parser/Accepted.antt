-- ===== src/Idp/Parser/Accepted.antt =====
-- What holds of a description that loadJSON accepts.
use rpi_fastbootd.Prelude.{ℕ, ◌%◌, ◌<◌, ◌≡◌, refl, ◌≢◌, Option, none, some, arith, ==_iff}
use rpi_fastbootd.Prelude.Outcome.{ok, throw}
use rpi_fastbootd.Prelude.Text.{Text, codes}
use rpi_fastbootd.Idp.Parser.Json.{Json}
use rpi_fastbootd.Idp.Parser.State.{IdpParser, P}
use rpi_fastbootd.Idp.Parser.Compat.{read_version, check_pmap_compat, parse_pmap_v1}
use rpi_fastbootd.Idp.Parser.Describe.{
  read_storage, read_attributes, read_table, value_or, parse_versioned, read_map, parse_ig_v2,
  read_partitions,
}
use rpi_fastbootd.Idp.Parser.Triple.{
  Triple, Triple-pure, Triple-check, Triple-access, Triple-from_option, Triple-if, Triple-require,
  Triple-set_image, Triple-bind, Triple-weaken, Triple-weaken_after, After, Triple-update,
  Triple-refuse, Triple-anything,
}
use rpi_fastbootd.Idp.Partition.{links, IsNested}
use rpi_fastbootd.Idp.Partition.Size.{AllAligned}
use rpi_fastbootd.Idp.Parser.Version.{IdpVersion}
use rpi_fastbootd.Idp.Parser.Layout.{Built}
use rpi_fastbootd.Idp.Parser.Layout.Nested.{
  IsBuilt, nothing_built, nothing-IsBuilt, visit_partition-IsBuilt,
}
use rpi_fastbootd.Idp.Parser.Describe.{after_walk, walk_from_navigator}
use rpi_fastbootd.Idp.Navigator.{NavState}
use rpi_fastbootd.Idp.Navigator.Foreach.{Walk, finished, stopped}
use rpi_fastbootd.Idp.Navigator.Visits.{Leaves, foreach_partition-Leaves}

-- The sector size is a number of half kilobytes.
abbrev pub HasSectors : {J : Json} → IdpParser J → Type 0
HasSectors s = s.image.device_storage.sector_size % 512 ≡ 0

-- And the image has a size, and an alignment in mebibytes.
abbrev pub HasSizes : {J : Json} → IdpParser J → Type 0
HasSizes s = HasSectors s × (s.image.size ≢ 0) × (s.image.device_storage.ptable_align % 1048576 ≡ 0)

module _ (J : Json) where
  value_or-Triple :
      {R : IdpParser J → Type 0} (old json : Json.Value J) (key : Text)
      → Triple R (value_or J old json key) (λ _. R)
  unfolding value_or
  value_or-Triple old json key = Triple-bind (Triple-access _) (λ _. Triple-pure _)

  abbrev Anything : IdpParser J → Type 0
  Anything s = Unit

  read_storage-HasSectors :
      (json : Json.Value J) (sectors : ℕ)
      → Triple Anything (read_storage J json sectors) (λ _. HasSectors)
  unfolding read_storage
  read_storage-HasSectors json sectors = Triple-bind (Triple-require _ _) λ _.
      Triple-bind (Triple-set_image {Q = HasSectors} _ (λ s (e, h). (==_iff _ _).0 e)) λ _.
        Triple-bind (Triple-access _) λ meta. Triple-bind (Triple-access _) λ storage.
          Triple-bind (Triple-access _)
            λ name. Triple-bind (Triple-from_option _ _) λ type. Triple-set_image _ (λ s h. h)

  read_attributes-HasSizes :
      (json : Json.Value J) → Triple HasSectors (read_attributes J json) (λ _. HasSizes)
  unfolding read_attributes
  read_attributes-HasSizes attributes = Triple-bind (Triple-check _) λ name.
      Triple-bind (Triple-set_image {Q = HasSectors} _ (λ s h. h)) λ _.
        Triple-bind (Triple-check _) λ size.
          Triple-bind
            (Triple-set_image {Q = λ s. HasSectors s × (s.image.size ≡ size)} _ (λ s h. (h, refl)))
            λ _. Triple-bind (Triple-check _) λ palign. Triple-bind (Triple-require _ _) λ _.
              Triple-bind (Triple-check _) λ align. Triple-bind (Triple-require _ _) λ _.
                Triple-set_image _ (λ s (aligned, (sized, (h, e))).
                  (h, (λ zero_size. absurd (ground arith)), (==_iff _ _).0 aligned))

  read_table-HasSizes : (json : Json.Value J) → Triple HasSizes (read_table J json) (λ _. HasSizes)
  unfolding read_table
  read_table-HasSizes json = Triple-bind (Triple-access _) λ layout.
      Triple-bind (Triple-access _) λ table. Triple-bind (Triple-access _) λ label.
        Triple-bind (Triple-access _) λ name. Triple-bind (Triple-from_option _ _) λ type.
          Triple-bind (Triple-set_image {Q = HasSizes} _ (λ s h. h)) λ _.
            Triple-bind (Triple-access _) λ id. Triple-bind (Triple-require _ _) λ _.
              Triple-bind {Q = λ _. HasSizes}
                (Triple-if (J.is_string id) (Triple-weaken (λ s (_, h). h) (Triple-access _))
                  (Triple-weaken (λ s (_, h). h) (Triple-pure _)))
                λ id_text. Triple-set_image _ (λ s h. h)

  module _ {R : IdpParser J → Type 0} where
    read_version-Triple :
        (what str : Text) (least : ℕ) → Triple R (read_version J what str least) (λ _. R)
    unfolding read_version
    read_version-Triple what str least =
        Triple-bind (Triple-from_option _ _)
          λ v. Triple-weaken_after (λ _ s (_, h). h) (Triple-require _ _)

    check_pmap_compat-Triple : (json : Json.Value J) → Triple R (check_pmap_compat J json) (λ _. R)
    unfolding check_pmap_compat
    check_pmap_compat-Triple json = Triple-bind (Triple-check _) λ layout.
        Triple-bind (Triple-check _) λ pmap.
          Triple-bind (Triple-check _)
            λ str. Triple-bind (read_version-Triple (codes "PMAP") str 1) λ _. Triple-pure _

  pub parse_versioned-Triple :
      {R : IdpParser J → Type 0} {Q : Unit {0} → IdpParser J → Type 0} (v : IdpVersion) (major : ℕ)
      {parser : P J (Unit {0})}
      → Triple R parser Q
      → Triple R (parse_versioned J v major parser) Q
  unfolding parse_versioned
  parse_versioned-Triple v major t = Triple-if _ t (Triple-refuse _)

  parse_pmap_v1-HasSizes :
      (json : Json.Value J) → Triple HasSizes (parse_pmap_v1 J json) (λ _. HasSizes)
  unfolding parse_pmap_v1
  parse_pmap_v1-HasSizes json = Triple-bind (Triple-check _) λ layout.
      Triple-bind (Triple-check _) λ pmap. Triple-bind (Triple-check _) λ type.
        Triple-bind (Triple-require _ _) λ _. Triple-bind (Triple-access _) λ pnav.
          Triple-bind (Triple-update {Q = HasSizes} _ (λ s (_, h). h))
            λ _. Triple-weaken_after (λ _ s (_, h). h) (Triple-require _ _)

  read_map-HasSizes : (json : Json.Value J) → Triple HasSizes (read_map J json) (λ _. HasSizes)
  unfolding read_map
  read_map-HasSizes json = Triple-bind (check_pmap_compat-Triple json) λ str.
      Triple-bind (Triple-from_option _ _) λ v. Triple-bind (Triple-require _ _) λ _.
        Triple-bind (Triple-update {Q = HasSizes} _ (λ s (_, h). h))
          λ _. parse_versioned-Triple v 1 (parse_pmap_v1-HasSizes json)

-- The partitions are a tree, and no container divides by zero unless the table's alignment is.
abbrev pub IsLaidOut : {J : Json} → IdpParser J → Type 0
IsLaidOut s =
    IsNested 0 (links s.partitions)
    × (0 < s.image.device_storage.ptable_align → AllAligned s.partitions)

abbrev pub IsAccepted : {J : Json} → IdpParser J → Type 0
IsAccepted s = HasSizes s × IsLaidOut s

module _ (J : Json) where
  after_walk-IsAccepted :
      (r : Walk J Built) (s : IdpParser J)
      → HasSizes s
      → Leaves (IsBuilt s.image.device_storage) r
      → After (λ _. IsAccepted) (after_walk J r s)
  after_walk-IsAccepted none s h built = tt
  after_walk-IsAccepted (some (throw e, nav, b)) s h built = tt
  after_walk-IsAccepted (some (ok finished, nav, b)) s h built = (h, (built.nested, built.aligned))
  after_walk-IsAccepted (some (ok (stopped why), nav, b)) s h built = tt

  walk_from_navigator-IsAccepted :
      (fuel : ℕ) (pnav : Option (NavState J)) (s : IdpParser J)
      → HasSizes s
      → After (λ _. IsAccepted) (walk_from_navigator J fuel pnav s)
  walk_from_navigator-IsAccepted fuel none s h = tt
  walk_from_navigator-IsAccepted fuel (some nav) s h = after_walk-IsAccepted _ s h (
      foreach_partition-Leaves (IsBuilt s.image.device_storage) fuel _
        (λ q b built. visit_partition-IsBuilt J s.root s.image.device_storage q q.luks b built) nav
        nothing_built (nothing-IsBuilt s.image.device_storage))

  pub parse_ig_v2-IsAccepted :
      (fuel : ℕ) (json : Json.Value J)
      → Triple (λ _. Unit) (parse_ig_v2 J fuel json) (λ _. IsAccepted)
  unfolding parse_ig_v2 read_partitions
  parse_ig_v2-IsAccepted fuel json = Triple-bind (Triple-anything _) λ meta.
      Triple-bind (Triple-anything _) λ sectors.
        Triple-bind (read_storage-HasSectors J json sectors) λ _.
          Triple-bind (value_or-Triple J meta json (codes "attributes")) λ attributes.
            Triple-bind (read_attributes-HasSizes J attributes) λ _.
              Triple-bind (read_table-HasSizes J json) λ _.
                Triple-bind (read_map-HasSizes J json)
                  λ _. record { run = λ s h. walk_from_navigator-IsAccepted fuel s.pnav s h }
