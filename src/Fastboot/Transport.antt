-- ===== src/Fastboot/Transport.antt =====
-- class FastbootDevice (fastboot/device/fastboot_device.h): its state, the transport it owns, and
-- the functions of libbase that it calls.
use rpi_fastbootd.Prelude.{ℕ, Bool, Option, List}
use rpi_fastbootd.Prelude.Text.{Text}
use rpi_fastbootd.Idp.Device.Platform.{Parser, Device}
use rpi_fastbootd.Idp.Device.Lifecycle.{Cookie}

-- Transport::Read into a buffer of the size given, and Transport::Write. The count is none where
-- the source has -1; a read also gives the bytes that it has put into the buffer.
pub record Transport (World : Type 0) : Type 0 where
  pub read : ℕ → World → (Option ℕ × Text) × World
  pub write : Text → World → Option ℕ × World

-- android::base::Split, StartsWith, and ParseUint with its maximum.
pub record Base : Type 0 where
  pub split : Text → Text → List Text
  pub begins : Text → Text → Bool
  pub parse_uint : Text → ℕ → Option ℕ

-- enum class FastbootResult
pub data Result : Type 0 where
  okay fail info data_size : Result

-- The members of FastbootDevice that change during a session.
pub record FastbootDevice (P : Parser) : Type 0 where
  pub download_data : Text
  pub replied : Bool
  pub transport_failed : Bool
  pub idp : Option (Device P)
  pub idpcookie : Option Cookie
