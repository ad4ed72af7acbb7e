-- ===== src/Idp/Device/Hidden.antt =====
-- The break in InitCryptPartitions that a second variable `ret` turns into a success.
use rpi_fastbootd.Prelude.{
  ℕ, suc, ◌/◌, ◌≡◌, refl, ap, true, false, Option, none, some, List, ◌∷◌, arith, length, get_elem?,
}
use rpi_fastbootd.Prelude.Text.{Text}
use rpi_fastbootd.Prelude.Outcome.{ok}
use rpi_fastbootd.Parted.Fdisk.{Fdisk}
use rpi_fastbootd.Parted.Ops.{open_device}
use rpi_fastbootd.Idp.Luks
use rpi_fastbootd.Idp.Luks.{Luks, EncapType, raw, partitioned}
use rpi_fastbootd.Idp.Storage.{Storage, block_dev}
use rpi_fastbootd.Idp.Partition.{IdpPartition, has_children}
use rpi_fastbootd.Idp.Device.Platform
use rpi_fastbootd.Idp.Device.Platform.{
  Parser, Platform, Device, IdpState, ready, Reason, Verdict, luks_parted_open,
}
use rpi_fastbootd.Idp.Device.Physical.{new_table, init_physical_partitions}
use rpi_fastbootd.Idp.Device.Crypt.{
  breaks, write_luks_table, partition_luks, attach_children, init_children, init_container, init_at,
  init_crypt_from, init_crypt_partitions,
}
use rpi_fastbootd.Idp.Device.Lifecycle.{prepare_storage, start_provision}

-- A container, created and opened, on which no partition table can be opened.
module _ {World : Type 0} (p : Platform World) (s : Storage) (q : IdpPartition) (l : Luks)
    (all : List IdpPartition) (w : World) (ctx : Fdisk.Context (Platform.Platform.fdisk p)) where
  abbrev container_dev : Text
  container_dev = block_dev s (some q.num)

  abbrev luks_dev : Text
  luks_dev = Luks.block_dev l (some 0)

  abbrev after_create : World
  after_create = (p.luks_create l container_dev w).1

  abbrev after_open : World
  after_open = (p.luks_open l container_dev after_create).1

  pub record Unopenable : Type 0 where
    pub is_container : q.luks ≡ some l
    pub is_partitioned : l.etype ≡ partitioned
    pub with_children : has_children q all ≡ true
    pub created : (p.luks_create l container_dev w).0 ≡ true
    pub opened : (p.luks_open l container_dev after_create).0 ≡ true
    pub has_context : (p.fdisk.new_context after_open).0 ≡ some ctx
    pub unopened :
        (open_device p.fdisk
          (new_table p ctx)
          luks_dev
          (s.ptable_align / 1024)
          (p.fdisk.new_context after_open).1).0
        ≡ false

  partition_luks-breaks :
      Unopenable
      → (partition_luks p s luks_dev q.index all after_open).0
        ≡ ok (breaks true (some (luks_parted_open luks_dev)))
  unfolding partition_luks write_luks_table
  partition_luks-breaks u = rw (u.has_context, partition_luks, u.unopened, write_luks_table)

  init_children-breaks :
      Unopenable
      → ((init_children p s l q.index all after_open).0
          ≡ ok (breaks true (some (luks_parted_open luks_dev))))
        × ((init_children p s l q.index all after_open).1 ≡ all)
  unfolding attach_children init_children
  init_children-breaks u =
      let at_table = partition_luks-breaks u in ground (arith, u.is_partitioned, at_table)

  init_container-breaks :
      Unopenable
      → ((init_container p s l q all w).0 ≡ ok (breaks true (some (luks_parted_open luks_dev))))
        × ((init_container p s l q all w).1 ≡ all)
  unfolding init_container
  init_container-breaks u = rw (u.created, u.opened, u.with_children) (init_children-breaks u)

  -- The loop ends here, with the outer `ret` still true.
  init_crypt_from-breaks :
      (rounds pos : ℕ) (why : Option Reason)
      → Unopenable
      → get_elem? all pos ≡ some q
      → ((init_crypt_from p s (suc rounds) pos why all w).0
          ≡ ok (true, some (luks_parted_open luks_dev)))
        × ((init_crypt_from p s (suc rounds) pos why all w).1 ≡ all)
  unfolding init_crypt_from init_at
  init_crypt_from-breaks rounds pos why u at_pos =
      let (round, same) = init_container-breaks u in
      ground (arith, at_pos, u.is_container, round, same)

module _ {P : Parser} {World : Type 0} (p : Platform World) (d : Device P) (w w1 : World) where
  prepare_storage-crypt :
      (all : List IdpPartition) (why : Option Reason) (r : Verdict)
      → init_physical_partitions p d.image.device_storage d.partitions w ≡ (ok (true, why), all, w1)
      → (init_crypt_partitions p d.image.device_storage all w1).0 ≡ ok r
      → (init_crypt_partitions p d.image.device_storage all w1).1 ≡ all
      → ((prepare_storage p d w).0 ≡ ok r)
        × ((prepare_storage p d w).1 ≡ record d { partitions = all })
  unfolding prepare_storage
  prepare_storage-crypt all why r physical crypt same = ground (arith, physical, crypt, same)

  start_provision-true :
      (all : List IdpPartition) (why : Option Reason)
      → d.state ≡ ready
      → (prepare_storage p (record d { state = Platform.writing }) w).0 ≡ ok (true, why)
      → (prepare_storage p (record d { state = Platform.writing }) w).1
        ≡ record d { state = Platform.writing; partitions = all }
      → ((start_provision p d w).0 ≡ ok (true, why))
        × ((start_provision p d w).1 ≡ record d { state = Platform.partitioned; partitions = all })
  unfolding start_provision
  start_provision-true all why is_ready prepared left = ground (arith, is_ready, prepared, left)

-- A ready device whose InitPhysicalPartitions succeeds, and whose first partition is an encrypted
-- container with partitions inside: when the container can be created and opened, but the
-- partition table inside it cannot be opened, startProvision still succeeds. It gives the reason
-- for that failure, makes the device Partitioned, and leaves the partitions, with the devices they
-- have, as InitPhysicalPartitions left them.
pub start_provision-hides_failure :
    {P : Parser} {World : Type 0} (p : Platform World) (d : Device P) (w w1 : World)
    (q : IdpPartition) (rest : List IdpPartition) (l : Luks)
    (ctx : Fdisk.Context (Platform.Platform.fdisk p)) (why : Option Reason)
    → d.state ≡ ready
    → init_physical_partitions p d.image.device_storage d.partitions w
      ≡ (ok (true, why), q ∷ rest, w1)
    → Unopenable p d.image.device_storage q l (q ∷ rest) w1 ctx
    → let (verdict, d', w2) = start_provision p d w in
      (verdict ≡ ok (true, some (luks_parted_open (Luks.block_dev l (some 0)))))
      × (d'.state ≡ Platform.partitioned)
      × (d'.partitions ≡ q ∷ rest)
unfolding init_crypt_partitions
start_provision-hides_failure {P} p d w w1 q rest l ctx why is_ready physical u =
    let (verdict, same) =
      init_crypt_from-breaks p d.image.device_storage q l (q ∷ rest) w1 ctx (length rest) 0 none u
        refl in
    let (prepared, left) =
      prepare_storage-crypt p (record d { state = Platform.writing }) w w1 (q ∷ rest) why
        (true, some (luks_parted_open (Luks.block_dev l (some 0)))) physical verdict same in
    let (started, final) =
      start_provision-true p d w w1 (q ∷ rest) (some (luks_parted_open (Luks.block_dev l (some 0))))
        is_ready prepared left in
    (started, ap (λ (x : Device P). x.state) final, ap (λ (x : Device P). x.partitions) final)
