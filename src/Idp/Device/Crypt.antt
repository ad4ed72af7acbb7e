-- ===== src/Idp/Device/Crypt.antt =====
-- IDPdeviceWriter::InitCryptPartitions and CloseCryptPartitions.
use rpi_fastbootd.Prelude.{
  ℕ, zero, suc, ◌/◌, Bool, true, false, not, ◌&&◌, Option, none, some, List, [], ◌∷◌, if◌then◌else◌,
  length, get_elem?, set,
}
use rpi_fastbootd.Prelude.Text.{Text, codes}
use rpi_fastbootd.Prelude.Outcome.{Outcome, ok, throw, runtime_error}
use rpi_fastbootd.Parted.Ops.{open_device, create_partition_table, commit}
use rpi_fastbootd.Idp.Luks.{Luks, EncapType, raw, partitioned}
use rpi_fastbootd.Idp.Luks
use rpi_fastbootd.Idp.Storage.{Storage, block_dev}
use rpi_fastbootd.Idp.Partition.{IdpPartition, same_index, is_encrypted, has_children}
use rpi_fastbootd.Idp.Device.Platform.{
  Platform, Reason, Verdict, luks_create_failed, luks_open_failed, luks_parted_open,
  luks_parted_table, luks_parted_partition, luks_child_missing,
}
use rpi_fastbootd.Idp.Device.Physical.{
  Table, attributes, append_one, new_table, drop_table, shut_table, set_part_block_dev,
}

-- Where one round of a loop leaves it: it goes on, with the reason set so far, or it breaks off,
-- with the value of `ret` at that point.
pub data Round : Type 0 where
  goes : Option Reason → Round
  breaks : Bool → Option Reason → Round

-- A child of the container at `i` that is to be created inside it.
abbrev pub is_child_of : Option ℕ → List IdpPartition → IdpPartition → Bool
is_child_of i all c = same_index c.parent_index i && is_encrypted c all

module _ {World : Type 0} (p : Platform World) where
  -- The loop that adds the children to the table of the container.
  unfoldable pub append_children :
      Table p
      → Storage
      → Text
      → Option ℕ
      → List IdpPartition
      → List IdpPartition
      → World
      → Outcome (Option Reason) × World
  append_children d s luksdev i all [] w = (ok none, w)
  append_children d s luksdev i all (c ∷ rest) w =
      let attrs = attributes s.ptable_type false all c in
      let (stop, w1) = append_one p d c (luks_parted_partition c.num luksdev) attrs w in
      elim (is_child_of i all c) [
        | false ↦ append_children d s luksdev i all rest w
        | true ↦ elim stop [
          | throw e ↦ (throw e, w1)
          | ok (some r) ↦ (ok (some r), w1)
          | ok none ↦ append_children d s luksdev i all rest w1
        ]
      ]

  -- The end of the block with the table: the inner `ret` decides about the commit and about
  -- kpartx, whose own results are not looked at.
  unfoldable pub finish_children :
      Table p → Text → Outcome (Option Reason) → World → Outcome Round × World
  finish_children d luksdev (throw e) w = (throw e, drop_table p d w)
  finish_children d luksdev (ok (some r)) w = (ok (goes (some r)), shut_table p d w)
  finish_children d luksdev (ok none) w =
      (ok (goes none), p.kpartx luksdev (shut_table p d (commit p.fdisk d w).1))

  -- The block with the table, on an object that has a context. Its `ret` hides the outer one, so
  -- the two early breaks leave the loop over the partitions with the outer `ret` still true.
  unfoldable pub write_luks_table :
      Table p → Storage → Text → Option ℕ → List IdpPartition → World → Outcome Round × World
  unfolding append_children finish_children
  write_luks_table d s luksdev i all w =
      let (opened, d1, w1) = open_device p.fdisk d luksdev (s.ptable_align / 1024) w in
      let (created, d2, w2) = create_partition_table p.fdisk d1 (codes "GPT") none w1 in
      let (stop, w3) = append_children d2 s luksdev i all all w2 in
      if not opened
      then (ok (breaks true (some (luks_parted_open luksdev))), drop_table p d1 w1)
      else if not created
      then (ok (breaks true (some (luks_parted_table luksdev))), shut_table p d2 w2)
      else finish_children d2 luksdev stop w3

  unfoldable pub partition_luks :
      Storage → Text → Option ℕ → List IdpPartition → World → Outcome Round × World
  partition_luks s luksdev i all w =
      let (c, w1) = p.fdisk.new_context w in
      elim c [
        | none ↦ (throw runtime_error, w1)
        | some ctx ↦ write_luks_table (new_table p ctx) s luksdev i all w1
      ]

  -- The loop that gives the children their devices; `all` is the list for isEncrypted.
  unfoldable pub set_child_devs :
      Luks
      → Option ℕ
      → List IdpPartition
      → List IdpPartition
      → World
      → Option Reason × List IdpPartition × World
  set_child_devs l i all [] w = (none, [], w)
  set_child_devs l i all (c ∷ rest) w =
      let dev = Luks.block_dev l (some c.num) in
      let (found, w1) = set_part_block_dev p c dev w in
      elim (is_child_of i all c) [
        | false ↦ let (why, rest', w2) = set_child_devs l i all rest w in (why, c ∷ rest', w2)
        | true ↦ elim found [
          | none ↦ (some (luks_child_missing dev), c ∷ rest, w1)
          | some c' ↦ let (why, rest', w2) = set_child_devs l i all rest w1 in (why, c' ∷ rest', w2)
        ]
      ]

  -- The children of an open container, once its table is written.
  unfoldable pub attach_children :
      Luks
      → Option ℕ
      → Outcome Round
      → List IdpPartition
      → World
      → Outcome Round × List IdpPartition × World
  unfolding set_child_devs
  attach_children l i (throw e) all w = (throw e, all, w)
  attach_children l i (ok (breaks ret why)) all w = (ok (breaks ret why), all, w)
  attach_children l i (ok (goes why)) all w =
      let (missing, all', w1) = set_child_devs l i all all w in
      (ok (elim missing [ none ↦ goes why | some r ↦ breaks false (some r) ]), all', w1)

  -- A partitioned container gets a table for its children; a raw one does not.
  unfoldable pub init_children :
      Storage
      → Luks
      → Option ℕ
      → List IdpPartition
      → World
      → Outcome Round × List IdpPartition × World
  init_children s l i all w = elim l.etype [
    | raw ↦ attach_children l i (ok (goes none)) all w
    | partitioned ↦
        let (round, w1) = partition_luks s (Luks.block_dev l (some 0)) i all w in
        attach_children l i round all w1
  ]

  -- One container: create it, open it, and bring up its children.
  unfoldable pub init_container :
      Storage
      → Luks
      → IdpPartition
      → List IdpPartition
      → World
      → Outcome Round × List IdpPartition × World
  init_container s l q all w =
      let cdev = block_dev s (some q.num) in
      let (made, w1) = p.luks_create l cdev w in
      let (opened, w2) = p.luks_open l cdev w1 in
      if not made
      then (ok (breaks false (some (luks_create_failed cdev))), all, w1)
      else if not opened
      then (ok (breaks false (some (luks_open_failed cdev))), all, w2)
      else if has_children q all
      then init_children s l q.index all w2
      else (ok (goes none), all, w2)

  -- The partition of one round of the loop over the partitions.
  unfoldable pub init_at :
      Storage
      → Option IdpPartition
      → List IdpPartition
      → World
      → Outcome Round × List IdpPartition × World
  init_at s none all w = (ok (breaks true none), all, w)
  init_at s (some q) all w = elim q.luks [
    | none ↦ (ok (goes none), all, w)
    | some l ↦ init_container s l q all w
  ]

  abbrev pub last_reason : Option Reason → Option Reason → Option Reason
  last_reason old none = old
  last_reason old (some r) = some r

  -- The loop over the partitions, from position `pos` on.
  unfoldable pub init_crypt_from :
      Storage
      → ℕ
      → ℕ
      → Option Reason
      → List IdpPartition
      → World
      → Outcome Verdict × List IdpPartition × World
  init_crypt_from s zero pos why all w = (ok (true, why), all, w)
  init_crypt_from s (suc rounds) pos why all w =
      let (round, all', w1) = init_at s (get_elem? all pos) all w in
      elim round [
        | throw e ↦ (throw e, all', w1)
        | ok (breaks ret r) ↦ (ok (ret, last_reason why r), all', w1)
        | ok (goes r) ↦ init_crypt_from s rounds (suc pos) (last_reason why r) all' w1
      ]

  -- IDPdeviceWriter::InitCryptPartitions
  unfoldable pub init_crypt_partitions :
      Storage → List IdpPartition → World → Outcome Verdict × List IdpPartition × World
  unfolding init_crypt_from
  init_crypt_partitions s all w = init_crypt_from s (length all) 0 none all w

  -- The inner loop of CloseCryptPartitions.
  unfoldable pub close_children :
      Luks → Option ℕ → List IdpPartition → List IdpPartition → World → List IdpPartition × World
  close_children l i all [] w = ([], w)
  close_children l i all (c ∷ rest) w =
      let (ret, w1) = p.luks_close l (some (Luks.block_dev l (some c.num))) w in
      elim (is_child_of i all c) [
        | false ↦ let (rest', w2) = close_children l i all rest w in (c ∷ rest', w2)
        | true ↦
            let (rest', w2) = close_children l i all rest w1 in
            (record c { blkdev = some [] } ∷ rest', w2)
      ]

  -- One round of CloseCryptPartitions.
  unfoldable pub close_at :
      ℕ → Option IdpPartition → List IdpPartition → World → List IdpPartition × World
  unfolding close_children
  close_at pos none all w = (all, w)
  close_at pos (some q) all w = elim q.luks [
    | none ↦ (all, w)
    | some l ↦
        let (closed, w1) = close_children l q.index all all w in
        let (all', w2) = if has_children q all then (closed, w1) else (all, w) in
        let (ret, w3) = p.luks_close l none w2 in (set all' pos (record q { blkdev = some [] }), w3)
  ]

  unfoldable pub close_crypt_from : ℕ → ℕ → List IdpPartition → World → List IdpPartition × World
  unfolding close_at
  close_crypt_from zero pos all w = (all, w)
  close_crypt_from (suc rounds) pos all w =
      let (all', w1) = close_at pos (get_elem? all pos) all w in
      close_crypt_from rounds (suc pos) all' w1

  -- IDPdeviceWriter::CloseCryptPartitions
  unfoldable pub close_crypt_partitions : List IdpPartition → World → List IdpPartition × World
  unfolding close_crypt_from
  close_crypt_partitions all w = close_crypt_from (length all) 0 all w
