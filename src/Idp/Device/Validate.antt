-- ===== src/Idp/Device/Validate.antt =====
-- What IDPdevice::canProvision checks (rpiidp/src/device.cpp).
use rpi_fastbootd.Prelude.{
  ℕ, ◌+◌, ◌*◌, Bool, true, false, not, ◌&&◌, ◌||◌, Option, none, some, List, [], ◌∷◌, ◌++◌, leb,
  ◌==◌, if◌then◌else◌, u64,
}
use rpi_fastbootd.Prelude.Text.{
  Text, codes, text_eq, is_empty, to_lower, contains, after_last_slash,
}
use rpi_fastbootd.Prelude.Outcome.{Outcome, ok, throw, ◌>>=◌}
use rpi_fastbootd.Parted.Reread.{reread_dev}
use rpi_fastbootd.Idp.Storage.{Storage, dos, gpt, block_dev}
use rpi_fastbootd.Idp.Partition.{IdpPartition, is_root, is_crypt_container, get_size}
use rpi_fastbootd.Idp.Utility.{wait_block_dev}
use rpi_fastbootd.Idp.Device.Platform.{Parser, Platform, Device}

abbrev pi5_family : List Text
pi5_family = codes "Raspberry Pi 5" ∷ codes "Raspberry Pi Compute Module 5" ∷ []

abbrev pi4_family : List Text
pi4_family =
    codes "Raspberry Pi 4" ∷ codes "Raspberry Pi Compute Module 4" ∷ codes "Raspberry Pi 400" ∷ []

-- DeviceValidation::familyModels
unfoldable pub family_models : Text → List Text
family_models class =
    if text_eq class (codes "pi5") || text_eq class (codes "cm5")
    then pi5_family
    else if text_eq class (codes "pi4") || text_eq class (codes "cm4")
    then pi4_family
    else if text_eq class (codes "zero2w")
    then codes "Raspberry Pi Zero 2" ∷ []
    else []

-- The loop over the models of a family.
unfoldable pub any_model : Text → List Text → Bool
any_model actual [] = false
any_model actual (m ∷ models) = contains actual (to_lower m) || any_model actual models

-- DeviceValidation::checkDeviceClass, for the line that the device tree gives.
unfoldable pub check_device_class : Text → Option Text → Bool
unfolding family_models any_model
check_device_class class none = false
check_device_class class (some model) =
    if is_empty (family_models class)
    then contains (to_lower model) (to_lower class)
    else any_model (to_lower model) (family_models class)

-- IDPdevice::computeImageStorageSize: the loop over the root partitions.
unfoldable pub add_roots : List IdpPartition → List IdpPartition → ℕ → Outcome ℕ
add_roots all [] size = ok size
add_roots all (p ∷ rest) size =
    if is_root p
    then (do n ← get_size true all p; add_roots all rest (u64 (size + n)))
    else add_roots all rest size

-- What the partition table itself takes.
unfoldable pub table_size : Storage → ℕ
table_size s = elim s.ptable_type [ dos ↦ s.ptable_align | gpt ↦ s.ptable_align * 2 ]

-- IDPdevice::computeImageStorageSize
unfoldable pub compute_image_storage_size : Storage → List IdpPartition → Outcome ℕ
unfolding add_roots table_size
compute_image_storage_size s all = do size ← add_roots all all 0; ok (u64 (size + table_size s))

module _ {World : Type 0} (p : Platform World) where
  -- IDPstorage::capacityBytes
  unfoldable pub capacity_bytes : Storage → World → Option ℕ
  capacity_bytes s w =
      let dev = block_dev s none in
      let dir = codes "/sys/block/" ++ after_last_slash dev dev in
      if p.exists dev w
      then elim (p.read_number (dir ++ codes "/size") w) [
        | none ↦ none
        | some sectors ↦
            if elim (p.read_number (dir ++ codes "/queue/logical_block_size") w) [
              | none ↦ 512 == s.sector_size
              | some n ↦ n == s.sector_size
            ]
            then some (u64 (sectors * s.sector_size))
            else none
      ]
      else none

  -- IDPdevice::checkFirmwareCryptoStatus, as built into fastbootd
  unfoldable pub check_firmware_crypto_status : World → Bool
  check_firmware_crypto_status w = elim (p.provisioning_status w) [
    | none ↦ false
    | some provisioned ↦ provisioned && p.hmac_works w
  ]

  -- IDPdevice::validateProvisioningIntent
  unfoldable pub validate_provisioning_intent : List IdpPartition → World → Bool
  validate_provisioning_intent [] w = true
  validate_provisioning_intent (q ∷ all) w =
      if is_root q && is_crypt_container q && not (check_firmware_crypto_status w)
      then false
      else validate_provisioning_intent all w

  -- IDPdevice::validateDeviceReadiness
  unfoldable pub validate_device_readiness : Text → World → Bool × World
  validate_device_readiness dev w =
      let (there, w1) = wait_block_dev p dev 1 w in
      let (err, w2) = reread_dev p.kernel dev 0 w1 in
      let (settled, w3) = p.wait_udev_block_dev dev 5000 w2 in
      if not there then (false, w1) else if not (err == 0) then (false, w2) else (settled, w3)

  -- IDPdevice::validateDeviceStorage: the result, and the device with both sizes.
  unfoldable pub validate_device_storage : {P : Parser} → Device P → World → Outcome Bool × Device P
  validate_device_storage d w = elim (capacity_bytes d.image.device_storage w) [
    | none ↦ (ok false, d)
    | some cap ↦ elim (compute_image_storage_size d.image.device_storage d.partitions) [
      | throw e ↦ (throw e, record d { dcap = cap })
      | ok size ↦ (ok (not (cap == 0) && leb size cap), record d { dcap = cap; isize = size })
    ]
  ]
