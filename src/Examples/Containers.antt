-- ===== src/Examples/Containers.antt =====
-- Runs of the operations of IDPluks.
use rpi_fastbootd.Prelude.{ℕ, ◌≡◌, refl, true, false, some, List, [], ◌∷◌, take}
use rpi_fastbootd.Prelude.Text.{Text, codes, text_eq}
use rpi_fastbootd.Prelude.Outcome.{ok}
use rpi_fastbootd.Idp.Keys.FileMap.{path_exists}
use rpi_fastbootd.Idp.Keys.Cryptsetup.{Host}
use rpi_fastbootd.Idp.Keys.{keyfile_path, create, open_container, format_of}
use rpi_fastbootd.Idp.Keys.Secrecy.{LeavesFiles, create-LeavesFiles}
use rpi_fastbootd.Idp.Keys.Unlock.{IsIdentified, create-open_key}
use rpi_fastbootd.Examples.Fixtures.{test_luks}

-- A host whose cryptsetup takes every key, and whose files hold one log.
abbrev test_host : Host ℕ
test_host = record {
  have_libcryptsetup = true;
  bdi_get_id = λ dev w. (some (codes "0x1"), w);
  calculate_hmac = λ id w. (some (codes "abcd"), w);
  creatable = λ path w. true;
  written = λ path s w. s;
  crypt_init = λ dev format key w. (true, w);
  crypt_open = λ dev name key w. (true, w);
  crypt_close = λ dev w. (true, w);
  run = λ args files w. (true, w);
}

abbrev log_files : List (Text × Text)
log_files = (codes "/tmp/log", codes "started") ∷ []

abbrev card : Text
card = codes "/dev/mmcblk0p2"

no_key : path_exists (keyfile_path card) log_files ≡ false
unfolding path_exists keyfile_path codes text_eq
no_key = refl

create-LeavesFiles_example :
    LeavesFiles log_files (create test_host test_luks card log_files 0)
    × LeavesFiles log_files (open_container test_host test_luks card log_files 0)
create-LeavesFiles_example = create-LeavesFiles test_host test_luks card log_files 0 no_key

card-IsIdentified : IsIdentified test_host card (codes "abcd")
unfolding codes
card-IsIdentified = record {
  head = b'0';
  tail = codes "x1";
  identified = λ w. refl;
  signed = λ w. refl;
  creatable = λ w. refl;
  whole = λ s w. refl;
  not_empty = refl;
}

create-open_key_example :
    (w1 : ℕ) × (w2 : ℕ) × ((create test_host test_luks card log_files 0).0
      ≡ ok
          (test_host.crypt_init card (format_of test_host test_luks) (take 64 (codes "abcd")) w1).0)
    × ((open_container test_host test_luks card log_files 0).0
        ≡ ok (test_host.crypt_open card test_luks.mname (take 64 (codes "abcd")) w2).0)
create-open_key_example =
    create-open_key test_host test_luks card (codes "abcd") card-IsIdentified refl refl log_files 0
