-- ===== src/Idp/Keys/Cryptsetup.antt =====
-- What crypt.cpp uses of libblockdeviceid, of the firmware and of cryptsetup.
use rpi_fastbootd.Prelude.{ℕ, Bool, Option, List}
use rpi_fastbootd.Prelude.Text.{Text}
use rpi_fastbootd.Idp.Keys.FileMap.{Files}

-- struct CryptFormatParams, as IDPluks::Create fills it in
pub record Format : Type 0 where
  pub cipher : Text
  pub hash : Text
  pub key_size_bits : ℕ
  pub sector_size : ℕ
  pub label : Text
  pub uuid : Option Text
  pub data_alignment_bytes : ℕ

pub record Host (World : Type 0) : Type 0 where
  -- Is the daemon built with libcryptsetup? Otherwise it starts the tool.
  pub have_libcryptsetup : Bool
  -- bdi_get_id: none where it fails
  pub bdi_get_id : Text → World → Option Text × World
  -- RpiFwCrypto::CalculateHmac
  pub calculate_hmac : Text → World → Option Text × World
  -- Does std::ofstream open this path?
  pub creatable : Text → World → Bool
  -- What the file of this path has after this text is put to its stream, which the code does not
  -- ask about.
  pub written : Text → Text → World → Text
  -- CryptInitNative, CryptOpenNative, CryptCloseNative
  pub crypt_init : Text → Format → Text → World → Bool × World
  pub crypt_open : Text → Text → Text → World → Bool × World
  pub crypt_close : Text → World → Bool × World
  -- utils::process_spawn_blocking: the command reads its key file; did it start, and exit with 0?
  pub run : List Text → Files → World → Bool × World
