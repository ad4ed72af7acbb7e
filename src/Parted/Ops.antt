-- ===== src/Parted/Ops.antt =====
-- The methods of RPIparted: each returns its result, the object and the world.
use rpi_fastbootd.Prelude.{
  ℕ, ◌-◌, ◌*◌, Bool, true, false, not, ◌&&◌, ◌||◌, Option, none, some, ◌==◌, if◌then◌else◌,
}
use rpi_fastbootd.Prelude.Text.{Text, codes, text_eq, is_empty, to_lower}
use rpi_fastbootd.Prelude.Outcome.{Outcome, ok, throw, ◌>>=◌}
use rpi_fastbootd.Parted.Fdisk.{Fdisk, Kernel}
use rpi_fastbootd.Parted.Reread.{reread_dev}
use rpi_fastbootd.Parted.ZeroId.{is_zero_id}
use rpi_fastbootd.Parted.Device.{Parted, PartitionAttributes, size_in_sectors, given, passes}

module _ {World : Type 0} (f : Fdisk World) where
  -- FdiskContextDeleter, run by context_.reset(); the pointer is null afterwards.
  unfoldable pub reset : Parted f → Option (Fdisk.Context f) → World → Parted f × World
  reset d none w = (d, w)
  reset d (some c) w = (
    record d { context = none; device_assigned = false },
    f.unref_context c
        (if d.device_assigned && f.device_is_used c w then f.deassign_device c true w else w),
  )

  -- The part of closeDevice before context_.reset().
  unfoldable pub detach : Parted f → Fdisk.Context f → World → Parted f × World
  detach d c w =
      if d.device_assigned && f.device_is_used c w
      then (record d { device_assigned = false }, f.deassign_device c false w)
      else (d, w)

  -- RPIparted::closeDevice
  unfoldable pub close_device : Parted f → World → Parted f × World
  unfolding reset detach
  close_device d w = elim d.context [
    | none ↦ (d, w)
    | some c ↦ let (d', w1) = detach d c w in reset d' (some c) w1
  ]

  -- openDevice once a context is there.
  unfoldable pub assign : Parted f → Fdisk.Context f → Text → ℕ → World → Bool × Parted f × World
  unfolding reset
  assign d c dev align_kb w =
      let w1 = f.disable_dialogs c w in
      let w2 = if align_kb == 0 then w1 else f.save_user_grain c (align_kb * 1024) w1 in
      let (assigned, w3) = f.assign_device c dev w2 in
      if assigned
      then (
        not (f.get_sector_size c w3 == 0),
        record d {
          context = some c;
          device_assigned = true;
          grain = f.get_grain_size c w3;
          sector_size = f.get_sector_size c w3;
          is_gpt =
              if f.get_sector_size c w3 == 0
              then d.is_gpt
              else f.has_label c w3 && f.is_gpt_label c w3;
        },
        w3,
      )
      else let (d', w4) = reset (record d { device_assigned = false }) (some c) w3 in
        (false, d', w4)

  -- RPIparted::openDevice
  unfoldable pub open_device : Parted f → Text → ℕ → World → Bool × Parted f × World
  unfolding close_device assign
  open_device d dev align_kb w =
      let (d', w1) = close_device d w in
      let (c, w2) = f.new_context w1 in
      elim c [ none ↦ (false, d', w2) | some ctx ↦ assign d' ctx dev align_kb w2 ]

  -- The user's disk identifier: libfdisk must accept it, and it must not be all zeros.
  unfoldable pub set_id : Fdisk.Context f → Option Text → World → Bool × World
  set_id c none w = (true, w)
  set_id c (some id) w =
      let (accepted, w1) = f.set_disklabel_id c id w in
      if accepted
      then (
        elim (f.get_disklabel_id c w1) [ none ↦ true | some applied ↦ not (is_zero_id applied) ],
        w1,
      )
      else (false, w1)

  -- The name under which libfdisk knows a kind of table; none is an invalid kind.
  unfoldable pub label_type : Text → Option Text
  label_type type_lower =
      if text_eq type_lower (codes "gpt")
      then some (codes "gpt")
      else if text_eq type_lower (codes "dos") || text_eq type_lower (codes "mbr")
      then some (codes "dos")
      else none

  -- RPIparted::createPartitionTable
  unfoldable pub create_partition_table :
      Parted f → Text → Option Text → World → Bool × Parted f × World
  unfolding set_id label_type
  create_partition_table d type id w = elim d.context [
    | none ↦ (false, d, w)
    | some c ↦ elim (label_type (to_lower type)) [
      | none ↦ (false, d, w)
      | some name ↦
          let (created, w1) = f.create_disklabel c name w in
          if created
          then (let (id_ok, w2) = set_id c (given id) w1 in
              if id_ok
              then (true, record d { is_gpt = text_eq (to_lower type) (codes "gpt") }, w2)
              else (false, d, w2))
          else (false, d, w1)
    ]
  ]

  -- The type of the new partition, on the label that the object expects.
  unfoldable pub find_parttype :
      Parted f → Fdisk.Context f → Text → World → Option (Fdisk.PartType f)
  find_parttype d c type_id w =
      if d.is_gpt
      then (if f.is_gpt_label c w then f.parttype_from_string c type_id w else none)
      else if f.is_dos_label c w
      then f.parttype_from_hex c type_id w
      else none

  -- The end of appendPartition: the attributes of a GPT, and fdisk_add_partition.
  unfoldable pub add_partition :
      Parted f
      → Fdisk.Context f
      → PartitionAttributes
      → Option ℕ
      → Fdisk.PartType f
      → World
      → Bool × World
  add_partition d c attrs size type w =
      let name = if d.is_gpt then given attrs.partlabel else none in
      let uuid = if d.is_gpt then given attrs.partuuid else none in
      if passes f.accepts_name name && passes f.accepts_uuid uuid
      then f.add_partition c (record { size_sectors = size; type = type; name = name; uuid = uuid })
          w
      else (false, w)

  -- RPIparted::appendPartition; the object is not changed.
  unfoldable pub append_partition : Parted f → PartitionAttributes → World → Outcome Bool × World
  unfolding find_parttype add_partition
  append_partition d attrs w = elim d.context [
    | none ↦ (ok false, w)
    | some c ↦
        if is_empty attrs.type_id || not (f.has_label c w)
        then (ok false, w)
        else elim (if attrs.size_bytes == 0
            then ok none
            else size_in_sectors d.grain d.sector_size attrs.size_bytes >>= λ n. ok (some n)) [
              | throw e ↦ (throw e, w)
              | ok size ↦ elim (find_parttype d c attrs.type_id w) [
                | none ↦ (ok false, w)
                | some type ↦
                    let (added, w1) = add_partition d c attrs size type w in (ok added, w1)
              ]
            ]
  ]

  -- RPIparted::removePartition; partitions count from 1, and from 0 for libfdisk.
  unfoldable pub remove_partition : Parted f → ℕ → World → Bool × World
  remove_partition d partnum w = elim d.context [
    | none ↦ (false, w)
    | some c ↦ if partnum == 0 then (false, w) else f.delete_partition c (partnum - 1) w
  ]

  -- RPIparted::commit
  unfoldable pub commit : Parted f → World → Bool × World
  commit d w = elim d.context [ none ↦ (false, w) | some c ↦ f.write_disklabel c w ]

  -- RPIparted::commitAndReread, past the name of the device.
  unfoldable pub commit_and_reread_dev :
      Kernel World → Parted f → Text → ℕ → World → Bool × Parted f × World
  unfolding commit
  commit_and_reread_dev k d dev timeout_sec w =
      let (written, w1) = commit d w in
      let (d', w2) = close_device d w1 in
      let (err, w3) = reread_dev k dev timeout_sec w2 in
      if written then (err == 0, d', w3) else (false, d, w1)

  -- RPIparted::commitAndReread
  unfoldable pub commit_and_reread : Kernel World → Parted f → ℕ → World → Bool × Parted f × World
  unfolding commit_and_reread_dev
  commit_and_reread k d timeout_sec w = elim d.context [
    | none ↦ (false, d, w)
    | some c ↦ elim (f.get_devname c w) [
      | none ↦ (false, d, w)
      | some dev ↦ commit_and_reread_dev k d dev timeout_sec w
    ]
  ]
