-- ===== src/Parted/Fdisk.antt =====
-- What rpiparted uses of libfdisk and of the kernel. Neither is code of the repository, so both
-- are parameters: `World` is the state of the disks, of the kernel and of the library.
use rpi_fastbootd.Prelude.{ℕ, Bool, Option}
use rpi_fastbootd.Prelude.Text.{Text}

-- The partition object that RPIparted::appendPartition fills in: with no size its end follows
-- the default; its start and its number always do.
pub record NewPartition (PartType : Type 0) : Type 0 where
  pub size_sectors : Option ℕ
  pub type : PartType
  pub name : Option Text
  pub uuid : Option Text

pub record Fdisk (World : Type 0) : Type 1 where
  pub Context : Type 0
  pub PartType : Type 0
  -- fdisk_new_context, fdisk_unref_context
  pub new_context : World → Option Context × World
  pub unref_context : Context → World → World
  -- fdisk_disable_dialogs, fdisk_save_user_grain
  pub disable_dialogs : Context → World → World
  pub save_user_grain : Context → ℕ → World → World
  -- fdisk_assign_device, fdisk_deassign_device, fdisk_device_is_used
  pub assign_device : Context → Text → World → Bool × World
  pub deassign_device : Context → Bool → World → World
  pub device_is_used : Context → World → Bool
  -- fdisk_get_grain_size, fdisk_get_sector_size, fdisk_get_devname
  pub get_grain_size : Context → World → ℕ
  pub get_sector_size : Context → World → ℕ
  pub get_devname : Context → World → Option Text
  -- fdisk_get_label, fdisk_is_label
  pub has_label : Context → World → Bool
  pub is_gpt_label : Context → World → Bool
  pub is_dos_label : Context → World → Bool
  -- fdisk_create_disklabel and the identifier of the label
  pub create_disklabel : Context → Text → World → Bool × World
  pub set_disklabel_id : Context → Text → World → Bool × World
  pub get_disklabel_id : Context → World → Option Text
  -- fdisk_label_get_parttype_from_string, sscanf "%x" and fdisk_label_get_parttype_from_code
  pub parttype_from_string : Context → Text → World → Option PartType
  pub parttype_from_hex : Context → Text → World → Option PartType
  -- fdisk_partition_set_name, fdisk_partition_set_uuid
  pub accepts_name : Text → Bool
  pub accepts_uuid : Text → Bool
  -- fdisk_add_partition, fdisk_delete_partition, fdisk_write_disklabel
  pub add_partition : Context → NewPartition PartType → World → Bool × World
  pub delete_partition : Context → ℕ → World → Bool × World
  pub write_disklabel : Context → World → Bool × World

-- System calls: an error number, 0 for success.
pub record Kernel (World : Type 0) : Type 0 where
  pub sync : World → World
  pub open_device : Text → World → Option ℕ × World
  pub open_errno : World → ℕ
  pub close_fd : ℕ → World → World
  pub blkrrpart : ℕ → World → ℕ × World
  pub usleep : ℕ → World → World
