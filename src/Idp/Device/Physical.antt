-- ===== src/Idp/Device/Physical.antt =====
-- IDPdeviceWriter::WritePhysicalPartitions and InitPhysicalPartitions.
use rpi_fastbootd.Prelude.{
  ℕ, ◌/◌, Bool, true, false, not, Option, none, some, List, [], ◌∷◌, ◌==◌, if◌then◌else◌,
}
use rpi_fastbootd.Prelude.Text.{Text, codes}
use rpi_fastbootd.Prelude.Outcome.{Outcome, ok, throw, deref, runtime_error, ◌>>=◌}
use rpi_fastbootd.Parted.Fdisk.{Fdisk}
use rpi_fastbootd.Parted.Reread.{reread_dev}
use rpi_fastbootd.Parted.Device.{Parted, PartitionAttributes, given}
use rpi_fastbootd.Parted.Ops.{
  reset, close_device, open_device, create_partition_table, append_partition, commit,
}
use rpi_fastbootd.Idp.Storage.{Storage, PtableType, dos, gpt, block_dev}
use rpi_fastbootd.Idp.Partition.{IdpPartition, is_root, get_size}
use rpi_fastbootd.Idp.Device.Platform.{
  Platform, Reason, Verdict, accept, refuse, parted_open, parted_table, parted_partition,
  parted_commit, reread_timeout, blockdev_missing,
}

-- The name of a kind of table for RPIparted::createPartitionTable.
unfoldable pub table_name : PtableType → Text
table_name dos = codes "DOS"
table_name gpt = codes "GPT"

abbrev pub gpt_only : PtableType → Option Text → Option Text
gpt_only dos t = none
gpt_only gpt t = t

-- The attributes of a new partition: the rest of the disk, or the size that getSize computes.
unfoldable pub attributes :
    PtableType → Bool → List IdpPartition → IdpPartition → Outcome PartitionAttributes
attributes table aligned all q = do
  type_id ← deref q.typecode
  size ← (if q.expand_to_fit then ok 0 else get_size aligned all q)
  ok (record {
    type_id = type_id;
    size_bytes = size;
    partlabel = gpt_only table q.gptlabel;
    partuuid = gpt_only table q.gptuuid;
  })

module _ {World : Type 0} (p : Platform World) where
  abbrev pub Table : Type 0
  Table = Parted (Platform.fdisk p)

  -- The object that RPIparted's constructor makes; the fields that it leaves unset are not read
  -- before openDevice sets them.
  abbrev pub new_table : Fdisk.Context (Platform.fdisk p) → Table
  new_table c = record {
    context = some c;
    is_gpt = false;
    sector_size = 0;
    grain = 0;
    device_assigned = false;
  }

  -- The destructor.
  abbrev pub drop_table : Table → World → World
  drop_table d w = (reset p.fdisk d d.context w).1

  abbrev pub shut_table : Table → World → World
  shut_table d w = (close_device p.fdisk d w).1

  -- One partition of the table; a reason where the loop over them breaks off.
  unfoldable pub append_one :
      Table
      → IdpPartition
      → Reason
      → Outcome PartitionAttributes
      → World
      → Outcome (Option Reason) × World
  append_one d q why (throw e) w = (throw e, w)
  append_one d q why (ok attrs) w =
      let (added, w1) = append_partition p.fdisk d attrs w in
      (added >>= λ b. ok (if b then none else some why), w1)

  abbrev pub size_bytes_of : Outcome PartitionAttributes → ℕ
  size_bytes_of (ok attrs) = attrs.size_bytes
  size_bytes_of (throw e) = 0

  -- The loop over the root partitions.
  unfoldable pub append_roots :
      Table
      → Storage
      → List IdpPartition
      → List IdpPartition
      → World
      → Outcome (Option Reason) × World
  unfolding append_one
  append_roots d s all [] w = (ok none, w)
  append_roots d s all (q ∷ rest) w =
      let attrs = attributes s.ptable_type true all q in
      let why : Reason = parted_partition q.num (size_bytes_of attrs) (block_dev s none) in
      let (stop, w1) = append_one d q why attrs w in
      elim (is_root q) [
        | false ↦ append_roots d s all rest w
        | true ↦ elim stop [
          | throw e ↦ (throw e, w1)
          | ok (some r) ↦ (ok (some r), w1)
          | ok none ↦ append_roots d s all rest w1
        ]
      ]

  -- The end of WritePhysicalPartitions: what the loop has left decides about the commit.
  unfoldable pub finish_table :
      Table → Text → Outcome (Option Reason) → World → Outcome Verdict × World
  finish_table d dev (throw e) w = (throw e, drop_table d w)
  finish_table d dev (ok (some r)) w = (ok (refuse r), shut_table d w)
  finish_table d dev (ok none) w =
      let (committed, w1) = commit p.fdisk d w in
      (ok (if committed then accept else refuse (parted_commit dev)), shut_table d w1)

  -- WritePhysicalPartitions on an object that has a context.
  unfoldable pub write_table : Table → Storage → List IdpPartition → World → Outcome Verdict × World
  unfolding finish_table append_roots
  write_table d s all w =
      let dev = block_dev s none in
      let (opened, d1, w1) = open_device p.fdisk d dev (s.ptable_align / 1024) w in
      let (created, d2, w2) =
        create_partition_table p.fdisk d1 (table_name s.ptable_type) (given s.ptable_id) w1 in
      let (stop, w3) = append_roots d2 s all all w2 in
      if not opened
      then (ok (refuse (parted_open dev)), drop_table d1 w1)
      else if not created
      then (ok (refuse (parted_table s.ptable_type dev)), shut_table d2 w2)
      else finish_table d2 dev stop w3

  -- IDPdeviceWriter::WritePhysicalPartitions; the constructor of RPIparted may throw.
  unfoldable pub write_physical_partitions :
      Storage → List IdpPartition → World → Outcome Verdict × World
  unfolding write_table
  write_physical_partitions s all w =
      let (c, w1) = p.fdisk.new_context w in
      elim c [ none ↦ (throw runtime_error, w1) | some ctx ↦ write_table (new_table ctx) s all w1 ]

  -- IDPdevice::setPartBlockDev: the partition with its device, if udev and the kernel have it.
  unfoldable pub set_part_block_dev : IdpPartition → Text → World → Option IdpPartition × World
  set_part_block_dev q [] w = (none, w)
  set_part_block_dev q (c ∷ dev) w =
      let (settled, w1) = p.wait_udev_block_dev (c ∷ dev) 5000 w in
      let (is_ready, w2) = p.block_dev_ready (c ∷ dev) w1 in
      if not settled
      then (none, w1)
      else if is_ready
      then (some (record q { blkdev = some (c ∷ dev) }), w2)
      else (none, w2)

  -- The loop that gives every root partition its device; it stops at the first that is missing.
  unfoldable pub set_root_devs :
      Storage → List IdpPartition → World → Option Reason × List IdpPartition × World
  unfolding set_part_block_dev
  set_root_devs s [] w = (none, [], w)
  set_root_devs s (q ∷ all) w =
      let dev = block_dev s (some q.num) in
      let (found, w1) = set_part_block_dev q dev w in
      elim (is_root q) [
        | false ↦ let (why, all', w2) = set_root_devs s all w in (why, q ∷ all', w2)
        | true ↦ elim found [
          | none ↦ (some (blockdev_missing dev), q ∷ all, w1)
          | some q' ↦ let (why, all', w2) = set_root_devs s all w1 in (why, q' ∷ all', w2)
        ]
      ]

  abbrev pub verdict_of : Option Reason → Verdict
  verdict_of none = accept
  verdict_of (some r) = refuse r

  -- InitPhysicalPartitions once the table is written.
  unfoldable pub adopt_table :
      Storage → List IdpPartition → World → Verdict × List IdpPartition × World
  unfolding set_root_devs
  adopt_table s all w =
      let (err, w1) = reread_dev p.kernel (block_dev s none) 5 w in
      let (why, all', w2) = set_root_devs s all w1 in
      if err == 0
      then (verdict_of why, all', w2)
      else (refuse (reread_timeout (block_dev s none)), all, w1)

  -- IDPdeviceWriter::InitPhysicalPartitions
  unfoldable pub init_physical_partitions :
      Storage → List IdpPartition → World → Outcome Verdict × List IdpPartition × World
  unfolding write_physical_partitions adopt_table
  init_physical_partitions s all w =
      let (written, w1) = write_physical_partitions s all w in
      elim written [
        | throw e ↦ (throw e, all, w1)
        | ok (false, why) ↦ (ok (false, why), all, w1)
        | ok (true, why) ↦ let (verdict, all', w2) = adopt_table s all w1 in (ok verdict, all', w2)
      ]
