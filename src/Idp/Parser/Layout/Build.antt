-- ===== src/Idp/Parser/Layout/Build.antt =====
-- The callback of IDPparser::parseIGv2, and the loop over the partitions that calls it.
use rpi_fastbootd.Prelude.{
  ℕ, Bool, false, Option, none, some, List, [], ◌∷◌, ◌++◌, ltb, if◌then◌else◌, length,
}
use rpi_fastbootd.Prelude.Text.{Text, codes}
use rpi_fastbootd.Prelude.Outcome.{Outcome, ok, throw, ◌>>=◌}
use rpi_fastbootd.Idp.Luks.{Luks}
use rpi_fastbootd.Idp.Storage.{Storage, dos, gpt, PtableType, align_up}
use rpi_fastbootd.Idp.Partition.{IdpPartition}
use rpi_fastbootd.Idp.Parser.Json.{Json, Checked, got, refused}
use rpi_fastbootd.Idp.Parser.Layout.{Partition, ImageInfo, Built, find_index, image_info}

-- `IDPpartition p = {}`
abbrev pub blank : IdpPartition
blank = record {
  expand_to_fit = false;
  num = 0;
  img = none;
  simg = none;
  size = 0;
  aligned_size = 0;
  typecode = none;
  gptlabel = none;
  gptuuid = none;
  luks = none;
  index = none;
  parent_index = none;
  blkdev = none;
}

-- More than the four primary partitions of an MBR.
abbrev pub is_beyond_mbr : PtableType → ℕ → Bool
is_beyond_mbr dos order = ltb 4 order
is_beyond_mbr gpt order = false

-- A container takes its alignment and its sectors from the storage.
unfoldable pub container_of : Storage → Luks → IdpPartition
container_of s l = record blank {
  luks = some (record l { p_alignment_bytes = s.ptable_align; sector_size = s.sector_size });
}

-- Any other partition takes its members from its image; alignUp may throw.
unfoldable pub partition_of : Storage → ImageInfo → Outcome IdpPartition
partition_of s info = align_up s info.img_size >>= λ aligned. ok (record blank {
  img = some info.img_name;
  simg = some info.simg_name;
  size = info.img_size;
  aligned_size = aligned;
  typecode = some info.pcode;
  gptlabel = info.plabel;
  gptuuid = info.puuid;
})

-- The index of the parent, if it is in the map.
abbrev pub parent_of : List (ℕ × ℕ) → Option ℕ → Option ℕ
parent_of p2i none = none
parent_of p2i (some a) = find_index p2i a

-- The end of the callback: the index, the parent, and the entry of the map.
unfoldable pub place : Built → Partition → IdpPartition → Built
place b q p = record {
  p2i = (q.address, length b.partitions) ∷ b.p2i;
  partitions =
      b.partitions
      ++ record p {
        index = some (length b.partitions);
        expand_to_fit = q.expand_to_fit;
        parent_index = parent_of b.p2i q.parent;
      }
        ∷ [];
}

abbrev pub place_made : Built → Partition → Outcome IdpPartition → Outcome (Option Text) × Built
place_made b q (throw e) = (throw e, b)
place_made b q (ok p) = (ok none, place b q p)

-- The callback from the test for an MBR on.
unfoldable pub admit :
    Storage → Partition → Outcome IdpPartition → Built → Outcome (Option Text) × Built
admit s q made b =
    if is_beyond_mbr s.ptable_type q.order
    then (ok (some (codes "MBR support restricted to primary partitions only")), b)
    else place_made b q made

module _ (J : Json) (root : Json.Value J) (s : Storage) where
  -- The callback for a partition whose image has been looked up.
  unfoldable pub admit_image :
      Partition → Outcome (Checked ImageInfo) → Built → Outcome (Option Text) × Built
  unfolding admit
  admit_image q (throw e) b = (throw e, b)
  admit_image q (ok (refused why)) b = (ok (some why), b)
  admit_image q (ok (got info)) b = admit s q (partition_of s info) b

  -- The callback: the error that it sets, if it refuses the partition. No pointer is null here.
  unfoldable pub visit_partition : Partition → Option Luks → Built → Outcome (Option Text) × Built
  unfolding admit_image admit
  visit_partition q none b = admit_image q (image_info J root q.image) b
  visit_partition q (some l) b = admit s q (ok (container_of s l)) b

  abbrev pub continue :
      Outcome (Option Text) × Built
      → (Built → Outcome (Option Text) × Built)
      → Outcome (Option Text) × Built
  continue (throw e, b) f = (throw e, b)
  continue (ok (some why), b) f = (ok (some why), b)
  continue (ok none, b) f = f b

  -- foreachPartition over the partitions that the navigator visits.
  unfoldable pub build : List Partition → Built → Outcome (Option Text) × Built
  unfolding visit_partition
  build [] b = (ok none, b)
  build (q ∷ rest) b = continue (visit_partition q q.luks b) (λ b'. build rest b')
