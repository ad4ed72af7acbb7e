-- ===== src/Idp/Device/Platform.antt =====
-- The state of an IDPdevice, and what it uses of other components and of the system.
use rpi_fastbootd.Prelude.{ℕ, Bool, true, false, Option, none, some, List}
use rpi_fastbootd.Prelude.Text.{Text}
use rpi_fastbootd.Prelude.Outcome.{Outcome}
use rpi_fastbootd.Parted.Fdisk.{Fdisk, Kernel}
use rpi_fastbootd.Idp.Luks.{Luks}
use rpi_fastbootd.Idp.Storage.{Image, PtableType}
use rpi_fastbootd.Idp.Partition.{IdpPartition}

-- enum class IDPdevice::IDPstate
pub data IdpState : Type 0 where
  init config ready writing partitioned complete error : IdpState

-- The text that the out-parameter `reason` is given.
pub data Reason : Type 0 where
  already_writing nothing_staged no_image no_partitions not_config no_firmware_crypto : Reason
  rejected : Text → Reason
  class_mismatch storage_not_ready : Text → Reason
  insufficient_storage : ℕ → ℕ → Reason
  not_ready : IdpState → Reason
  parted_open parted_commit reread_timeout blockdev_missing : Text → Reason
  parted_table : PtableType → Text → Reason
  parted_partition : ℕ → ℕ → Text → Reason
  luks_create_failed luks_open_failed luks_parted_open luks_parted_table luks_child_missing :
      Text → Reason
  luks_parted_partition : ℕ → Text → Reason

-- The result of a step, and the reason that it has set.
abbrev pub Verdict : Type 0
Verdict = Bool × Option Reason

abbrev pub accept : Verdict
accept = (true, none)

abbrev pub refuse : Reason → Verdict
refuse r = (false, some r)

-- class IDPparser, as IDPdevice uses it: loadData (which returns what it rejects a text for),
-- getImage and getPartitions.
pub record Parser : Type 1 where
  pub State : Type 0
  pub fresh : State
  pub load_data : State → Text → Outcome (Option Reason) × State
  pub get_image : State → Option Image
  pub get_partitions : State → List IdpPartition

-- The system below IDPdevice: libfdisk, the kernel, udev, cryptsetup, the firmware.
pub record Platform (World : Type 0) : Type 1 where
  pub fdisk : Fdisk World
  pub kernel : Kernel World
  -- IDPluks::Create, IDPluks::Open, IDPluks::Close
  pub luks_create : Luks → Text → World → Bool × World
  pub luks_open : Luks → Text → World → Bool × World
  pub luks_close : Luks → Option Text → World → Bool × World
  -- utils::BlockDevReady, utils::WaitUdevBlockDev, a pause, and kpartx -a
  pub block_dev_ready : Text → World → Bool × World
  pub wait_udev_block_dev : Text → ℕ → World → Bool × World
  pub sleep_ms : ℕ → World → World
  pub kpartx : Text → World → World
  -- The first line of /proc/device-tree/model, if the file opens.
  pub device_model : World → Option Text
  -- std::filesystem::exists, and a number read from a file, if the file opens
  pub exists : Text → World → Bool
  pub read_number : Text → World → Option ℕ
  -- RpiFwCrypto::GetCachedProvisioningStatus and CalculateHmac of one zero byte
  pub provisioning_status : World → Option Bool
  pub hmac_works : World → Bool

-- class IDPdevice; the writer it owns has no state of its own. Before the first description is
-- loaded `image`, `dcap` and `isize` are not initialised.
pub record Device (P : Parser) : Type 0 where
  pub parser : Parser.State P
  pub partitions : List IdpPartition
  pub image : Image
  pub state : IdpState
  pub session_id : ℕ
  pub dcap : ℕ
  pub isize : ℕ
