-- ===== src/Idp/Device/Gate.antt =====
-- What stands between a staged description and a write to the storage.
use rpi_fastbootd.Prelude.{
  ℕ, ◌+◌, ◌*◌, ◌%◌, ◌^◌, ◌≤◌, ◌<◌, ◌≡◌, refl, ◌≢◌, ◌⊎◌, inl, inr, Bool, true, false, not, ◌&&◌,
  Option, none, some, ◌++◌, arith, leb, ◌==◌, Bool-cases, Option-cases,
}
use rpi_fastbootd.Prelude.Text.{Text, codes, after_last_slash}
use rpi_fastbootd.Prelude.Outcome.{Outcome, Outcome-cases, ok, throw}
use rpi_fastbootd.Idp.Storage.{Storage}
use rpi_fastbootd.Idp.Device.Checks.{
  IsOfClass, check_device_class-IsOfClass, AllCanHaveKeys, intent-AllCanHaveKeys,
}
use rpi_fastbootd.Idp.Device.Capacity.{SumOfRoots, compute_image_storage_size-inv}
use rpi_fastbootd.Idp.Storage.{block_dev}
use rpi_fastbootd.Idp.Device.Platform.{
  Parser, Platform, Device, config, ready, Reason, refuse, not_ready,
}
use rpi_fastbootd.Idp.Device.Validate.{
  validate_device_readiness, check_device_class, validate_device_storage, capacity_bytes,
  validate_provisioning_intent, compute_image_storage_size, table_size,
}
use rpi_fastbootd.Idp.Device.Lifecycle.{
  is_state, is_state_sound, can_provision, check_intent, start_provision,
}

-- The name of the storage in sysfs.
abbrev pub device_name : Storage → Text
device_name s = let dev = block_dev s none in after_last_slash dev dev

-- At some time the kernel has given this many bytes as the size of the storage: a number of sectors
-- in sysfs, each as large as the description says, which the block size in sysfs agrees with, or
-- else 512. The product is a 64-bit number.
pub record IsMeasured {World : Type 0} (p : Platform World) (s : Storage) (bytes : ℕ) : Type 0 where
  pub seen : World
  pub sectors : ℕ
  pub given :
      p.read_number (codes "/sys/block/" ++ device_name s ++ codes "/size") seen ≡ some sectors
  pub blocks :
      (p.read_number
          (codes "/sys/block/" ++ device_name s ++ codes "/queue/logical_block_size")
          seen
        ≡ some s.sector_size)
      ⊎ (s.sector_size ≡ 512)
  pub product : bytes ≡ sectors * s.sector_size % 2 ^ 64

-- The sizes that canProvision has checked: those of the root partitions with the partition table,
-- added up modulo 2^64, are at most the capacity that was measured, which is not zero.
pub record IsSized {P : Parser} {World : Type 0} (p : Platform World) (d : Device P) : Type 0 where
  pub total : ℕ
  pub summed : SumOfRoots d.partitions d.partitions total
  pub wrapped : d.isize ≡ (total + table_size d.image.device_storage) % 2 ^ 64
  pub measured : IsMeasured p d.image.device_storage d.dcap
  pub fits : d.isize ≤ d.dcap
  pub present : 0 < d.dcap

capacity_bytes-IsMeasured :
    {World : Type 0} (p : Platform World) (s : Storage) (w : World) (bytes : ℕ)
    → capacity_bytes p s w ≡ some bytes
    → IsMeasured p s bytes
unfolding capacity_bytes
capacity_bytes-IsMeasured p s w bytes e =
    let dir = codes "/sys/block/" ++ device_name s in
    elim (Option-cases (p.read_number (dir ++ codes "/size") w)) [
      | inl none_given ↦ absurd (ground arith)
      | inr (sectors, given) ↦
          elim (Option-cases (p.read_number (dir ++ codes "/queue/logical_block_size") w)) [
            | inl no_block ↦ record {
              seen = w;
              sectors = sectors;
              given = given;
              blocks = inr (ground arith);
              product = ground arith;
            }
            | inr (block, is_block) ↦ record {
              seen = w;
              sectors = sectors;
              given = given;
              blocks = inl (ground arith);
              product = ground arith;
            }
          ]
    ]

passed : (cap size : ℕ) → ok (not (cap == 0) && leb size cap) ≡ ok true → (size ≤ cap) × (0 < cap)
passed cap size e = ground arith

module _ {P : Parser} {World : Type 0} (p : Platform World) where
  -- Only a device in state Ready is written to: in any other state startProvision changes neither
  -- the device nor the world, and says which state it found.
  pub start_provision-not_ready :
      (d : Device P) (w : World)
      → d.state ≢ ready
      → start_provision p d w ≡ (ok (false, some (not_ready d.state)), d, w)
  unfolding start_provision
  start_provision-not_ready d w h = elim (Bool-cases (is_state d.state ready)) [
    | inl same ↦ absurd (h (is_state_sound d.state ready same))
    | inr other ↦ rw other
  ]

  validate_device_storage-ok :
      (d : Device P) (w : World)
      → (validate_device_storage p d w).0 ≡ ok true
      → IsSized p (validate_device_storage p d w).1
  unfolding validate_device_storage
  validate_device_storage-ok d w h =
      elim (Option-cases (capacity_bytes p d.image.device_storage w)) [
        | inl e ↦ absurd (ground arith)
        | inr (bytes, e) ↦
            elim (Outcome-cases (compute_image_storage_size d.image.device_storage d.partitions)) [
              | inl (size, c) ↦
                  let (total, summed, wrapped) =
                    compute_image_storage_size-inv d.image.device_storage d.partitions size c in
                  let (fits, present) =
                    passed bytes size (rw (e, c, validate_device_storage) at h) in
                  rw (e, c, validate_device_storage)
                    (record {
                      total = total;
                      summed = summed;
                      wrapped = wrapped;
                      measured = capacity_bytes-IsMeasured p d.image.device_storage w bytes e;
                      fits = fits;
                      present = present;
                    })
              | inr (x, c) ↦ absurd (ground arith)
            ]
      ]

  validate_device_storage-frame :
      (d : Device P) (w : World)
      → let d' = (validate_device_storage p d w).1 in
        (d'.image ≡ d.image) × (d'.partitions ≡ d.partitions)
  unfolding validate_device_storage
  validate_device_storage-frame d w = ground arith

  check_intent-accept :
      (fits : Outcome Bool) (d : Device P) (w : World) (r : Option Reason)
      → (check_intent p fits d w).0 ≡ ok (true, r)
      → (fits ≡ ok true)
        × (validate_provisioning_intent p d.partitions w ≡ true)
        × ((check_intent p fits d w).1 ≡ record d { state = ready })
  unfolding check_intent
  check_intent-accept (throw e) d w r h = cc
  check_intent-accept (ok false) d w r h = cc
  check_intent-accept (ok true) d w r h =
      elim (Bool-cases (validate_provisioning_intent p d.partitions w)) [
        | inl e ↦ (refl, e, rw e)
        | inr e ↦ absurd (ground arith)
      ]

  pub can_provision-accept :
      (d : Device P) (w : World) (r : Option Reason)
      → (can_provision p d w).0 ≡ ok (true, r)
      → let (verdict, d', w1) = can_provision p d w in
        (d.state ≡ config)
        × IsOfClass d.image.device_class (p.device_model w)
        × IsSized p d'
        × AllCanHaveKeys p w1 d.partitions
        × (d'.state ≡ ready)
        × (d'.image ≡ d.image)
        × (d'.partitions ≡ d.partitions)
  unfolding can_provision
  can_provision-accept d w r h = elim (Bool-cases (is_state d.state config)) [
    | inr e ↦ absurd (clash (rw e at h))
    | inl a ↦ elim (Bool-cases (check_device_class d.image.device_class (p.device_model w))) [
      | inr e ↦ absurd (clash (rw (a, e) at h))
      | inl b ↦
          elim (Bool-cases
            (validate_device_readiness p (block_dev d.image.device_storage none) w).0) [
              | inr e ↦ absurd (clash (rw (a, b, e) at h))
              | inl c ↦
                  let w1 =
                    (validate_device_readiness p (block_dev d.image.device_storage none) w).1 in
                  let v = validate_device_storage p d w1 in
                  let (fits, intent, final) =
                    check_intent-accept v.0 v.1 w1 r (rw (a, b, c) at h) in
                  let sized = validate_device_storage-ok d w1 fits in
                  let (same_image, same_partitions) = validate_device_storage-frame d w1 in
                  rw (a, b, c, final)
                    (
                      is_state_sound d.state config a,
                      check_device_class-IsOfClass d.image.device_class (p.device_model w) b,
                      record {
                        total = sized.total;
                        summed = sized.summed;
                        wrapped = sized.wrapped;
                        measured = sized.measured;
                        fits = sized.fits;
                        present = sized.present;
                      },
                      intent-AllCanHaveKeys p d.partitions w1 (rw (← same_partitions) intent),
                      refl,
                      same_image,
                      same_partitions,
                    )
            ]
    ]
  ]
    where
      clash : {x : Reason} {r' : Option Reason} → ok (refuse x) ≡ ok (true, r') → ⊥
      clash e = cc
