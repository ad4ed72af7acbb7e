-- ===== src/Fastboot/Idp/Reasons.antt =====
-- The texts that rpiidp/src/device.cpp gives for what it refuses.
use rpi_fastbootd.Prelude.{Option, none, some, [], ◌++◌}
use rpi_fastbootd.Prelude.Text.{Text, codes, decimal}
use rpi_fastbootd.Idp.Device.Platform.{
  Reason, already_writing, nothing_staged, no_image, no_partitions, not_config, no_firmware_crypto,
  rejected, class_mismatch, storage_not_ready, insufficient_storage, not_ready, parted_open,
  parted_commit, reread_timeout, blockdev_missing, parted_table, parted_partition,
  luks_create_failed, luks_open_failed, luks_parted_open, luks_parted_table, luks_child_missing,
  luks_parted_partition,
}
use rpi_fastbootd.Idp.Device.Physical.{table_name}
use rpi_fastbootd.Idp.Device.Lifecycle.{state_number}

-- The text of a reason.
unfoldable pub reason_text : Reason → Text
reason_text already_writing = codes "device is already writing"
reason_text nothing_staged = codes "no description staged"
reason_text no_image = codes "description parsed but carries no image definition"
reason_text no_partitions = codes "description defines no partitions to provision"
reason_text not_config = codes "not in config state"
reason_text no_firmware_crypto =
    codes "firmware crypto unavailable (required for encrypted provisioning)"
reason_text (rejected why) = why
reason_text (class_mismatch class) = codes "device class mismatch (expected " ++ class ++ codes ")"
reason_text (storage_not_ready dev) = codes "storage device not ready (" ++ dev ++ codes ")"
reason_text (insufficient_storage need have) =
    codes "insufficient storage (need "
    ++ decimal need
    ++ codes ", have "
    ++ decimal have
    ++ codes ")"
reason_text (not_ready state) =
    codes "not in ready state (current: " ++ decimal (state_number state) ++ codes ")"
reason_text (parted_open dev) = codes "parted: unable to open " ++ dev
reason_text (parted_commit dev) = codes "parted: failed to commit partition table on " ++ dev
reason_text (reread_timeout dev) = codes "timed out re-reading partition table on " ++ dev
reason_text (blockdev_missing dev) = codes "block device not found: " ++ dev
reason_text (parted_table type dev) =
    codes "parted: failed to create " ++ table_name type ++ codes " partition table on " ++ dev
reason_text (parted_partition num size dev) =
    codes "parted: failed to create partition p"
    ++ decimal num
    ++ codes " ("
    ++ decimal size
    ++ codes " bytes) on "
    ++ dev
reason_text (luks_create_failed dev) = codes "LUKS create failed on " ++ dev
reason_text (luks_open_failed dev) = codes "LUKS open failed on " ++ dev
reason_text (luks_parted_open dev) = codes "parted: unable to open LUKS device " ++ dev
reason_text (luks_parted_table dev) = codes "parted: failed to create GPT on LUKS device " ++ dev
reason_text (luks_parted_partition num dev) =
    codes "parted: failed to create LUKS partition p" ++ decimal num ++ codes " on " ++ dev
reason_text (luks_child_missing dev) = codes "LUKS child block device not found: " ++ dev

-- The out-parameter: empty when nothing has set it.
abbrev pub describe : Option Reason → Text
describe none = []
describe (some r) = reason_text r
