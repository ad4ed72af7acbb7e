-- ===== src/Examples/Flashing.antt =====
-- A block device of two pages, and images that are flashed to it.
use rpi_fastbootd.Prelude.{
  ℕ, ◌+◌, ◌≡◌, refl, sym, ap, subst, ◌∙◌, ◌⊎◌, true, false, Option, none, some, [], ◌∷◌, ◌++◌,
  arith, if◌then◌else◌, has_value, length, take,
}
use rpi_fastbootd.Prelude.Text.{Text, codes, text_eq, starts_with, contains}
use rpi_fastbootd.Fastboot.Files
use rpi_fastbootd.Fastboot.Flash
use rpi_fastbootd.Fastboot.Fetch
use rpi_fastbootd.Parted.Fdisk.{Kernel}
use rpi_fastbootd.Parted.Reread.{reread_fd}
use rpi_fastbootd.Fastboot.Transport.{Transport, FastbootDevice, okay, fail}
use rpi_fastbootd.Fastboot.Transfer.{answer, download_handler, upload_handler}
use rpi_fastbootd.Fastboot.Session.Laws.{RepliesOnSuccess}
use rpi_fastbootd.Fastboot.Otp.Mailbox.{Firmware}
use rpi_fastbootd.Fastboot.Otp.Commands.{oem_cmd_mac, oem_cmd_otp}
use rpi_fastbootd.Fastboot.Replies.{handlers-RepliesOnSuccess}
use rpi_fastbootd.Fastboot.Files.{
  Files, OpenFlags, Whence, seek_set, seek_cur, is_open, no_fd, find_physical_partition,
  PartitionHandle,
}
use rpi_fastbootd.Fastboot.Flash.{Flashing, Sparse}
use rpi_fastbootd.Fastboot.Flash.Handler.{Flashed, flash, erase_handler}
use rpi_fastbootd.Fastboot.Flash.Disk.{overlay, Disk}
use rpi_fastbootd.Fastboot.Flash.Laws.{IsQuiet, flash_lem}
use rpi_fastbootd.Fastboot.Flash.Ends.{GoesOn, flash_ends}
use rpi_fastbootd.Fastboot.Flash.Erase.{
  find_physical_partition-IsInside, erase_handler_erases_nothing,
}
use rpi_fastbootd.Examples.Fixtures.{test_parser, test_base}
use rpi_fastbootd.Fastboot.Fetch.{fetch_handler}
use rpi_fastbootd.Fastboot.Fetch.Laws.{fetch_handler_fetches_nothing}

-- The bytes of the device, and where its descriptor stands.
pub record Card : Type 0 where
  contents : ℕ → ℕ
  at : ℕ

abbrev write_card : Text → Card → Option ℕ × Card
write_card s w =
    (some (length s), record { contents = overlay w.at s w.contents; at = w.at + length s })

abbrev seek_card : ℕ → Whence → Card → Option ℕ × Card
seek_card n seek_set w = (some n, record w { at = n })
seek_card n seek_cur w = (some (w.at + n), record w { at = w.at + n })

abbrev pub card : Files Card
card = record {
  is_writable = λ path w. true;
  exists = λ path w. false;
  open_file = λ path flags w. (3, record w { at = 0 });
  close = λ fd w. w;
  lseek = λ fd n whence w. seek_card n whence w;
  write = λ fd s w. write_card s w;
  read_fully = λ fd n w. (none, w);
  get_size64 = λ fd w. if is_open fd then some 8192 else none;
  secure_discard = λ fd from n w. (false, w);
  discard = λ fd from n w. (false, w);
  sync = λ w. w;
  errno = λ w. 5;
  strerror = λ e. [];
  memalign = λ w. true;
}

take_all : (s : Text) → take (length s) s ≡ s
take_all [] = refl
take_all (c ∷ s) = ap (λ t. c ∷ t) (take_all s)

card-Disk : Disk card
card-Disk = record {
  byte = λ w. w.contents;
  position = λ w fd. w.at;
  write_bytes = λ fd s w n e.
      subst (λ k. overlay w.at s w.contents ≡ overlay w.at (take k s) w.contents) (same _ _ e)
        (ap (λ t. overlay w.at t w.contents) (sym (take_all s)));
  write_position = λ fd s w n e. ap (λ k. w.at + k) (same _ _ e);
  write_count = λ fd s w n e. omega (arith, same _ _ e);
  write_errno = λ fd s w e. absurd (cc e);
  open_bytes = λ path flags w. refl;
  open_position = λ path flags w. refl;
  close_bytes = λ fd w. refl;
  set_bytes = λ fd n w. refl;
  set_position = λ fd n w e. refl;
  set_failed = λ fd w e. refl;
  tell_bytes = λ fd w. refl;
  tell_position = λ fd w. omega arith;
  tell_lem = λ fd w n e. sym (same _ _ e) ∙ omega arith;
  sync_bytes = λ w. refl;
}
  where
    same : (m n : ℕ) → some m ≡ some n → m ≡ n
    same m n e = cc e

abbrev pub card_kernel : Kernel Card
card_kernel = record {
  sync = λ w. w;
  open_device = λ path w. (some 3, w);
  open_errno = λ w. 0;
  close_fd = λ fd w. w;
  blkrrpart = λ fd w. (9, w);
  usleep = λ n w. w;
}

card_kernel-IsQuiet : IsQuiet card_kernel card-Disk
card_kernel-IsQuiet = record {
  sync_kept = λ w. refl;
  blkrrpart_kept = λ fd w. refl;
  usleep_kept = λ n w. refl;
}

abbrev pub no_sparse : Sparse Card
no_sparse = record {
  File = Unit {0};
  import_buf = λ s. none;
  file_len = λ f. none;
  file_callback = λ f callback s. some (22, s);
}

abbrev pub blank : Card
blank = record { contents = λ i. 255; at = 0 }

-- An image that is no number of pages, so that it is written without O_DIRECT.
abbrev image : Text
image = 1 ∷ 2 ∷ 3 ∷ []

abbrev flashed_card : Card
flashed_card = record { contents = overlay 0 image (λ i. 255); at = 3 }

abbrev flashed : Flashed Card
flashed = record { code = 0; err = []; download_data = []; world = flashed_card }

flashes : flash card no_sparse card_kernel 3 (codes "mmcblk0") image blank ≡ some flashed
unfolding flash Files.open_partition starts_with codes contains Files.open_handle
    Files.get_block_device_size Flash.flash_block_device Flash.flash_raw_data_chunk Flash.write_loop
    Flash.write_round Files.reset_handle Flash.drop
flashes = refl

flash_lem_example : flashed_card.contents ≡ overlay 0 image (λ i. 255)
unfolding Flash.is_sparse starts_with overlay card-Disk
flash_lem_example =
    flash_lem card card-Disk card_kernel card_kernel-IsQuiet no_sparse 3 (codes "mmcblk0") image
      blank flashed refl flashes refl

card-GoesOn : GoesOn card
card-GoesOn fd c s w e = absurd (ground (arith, e))

flash_ends_example :
    has_value (flash card no_sparse card_kernel 3 (codes "mmcblk0") image blank) ≡ true
unfolding Flash.is_sparse starts_with
flash_ends_example =
    flash_ends card card-GoesOn no_sparse card_kernel 3 (codes "mmcblk0") image blank refl
      (omega arith)

abbrev in_dev : Text
in_dev = codes "/dev/" ++ codes "mmcblk0"

is_there : find_physical_partition card in_dev blank ≡ some in_dev
unfolding find_physical_partition starts_with codes contains
is_there = refl

find_physical_partition-IsInside_example :
    ((in_dev ≡ in_dev) ⊎ (in_dev ≡ codes "/dev/" ++ in_dev))
    × (contains in_dev (codes "/../") ≡ false)
    × (starts_with in_dev (codes "/dev") ≡ true)
    × (card.is_writable in_dev blank ≡ true)
find_physical_partition-IsInside_example =
    find_physical_partition-IsInside card in_dev in_dev blank is_there

abbrev pub card_transport : Transport Card
card_transport = record { read = λ n w. ((none, []), w); write = λ s w. (some (length s), w) }

abbrev device : FastbootDevice test_parser
device = record {
  download_data = [];
  replied = false;
  transport_failed = false;
  idp = none;
  idpcookie = none;
}

erase_handler_erases_nothing_example :
    erase_handler card_transport card no_sparse card_kernel
      (codes "erase" ∷ codes "mmcblk0" ∷ [])
      device
      blank
    ≡ answer card_transport okay
        (codes "Erasing succeeded")
        device
        (reread_fd card_kernel no_fd 5 blank).1
erase_handler_erases_nothing_example =
    erase_handler_erases_nothing card_transport card no_sparse card_kernel (codes "erase")
      (codes "mmcblk0") [] device blank in_dev refl is_there

abbrev vendor : Text
vendor = codes "/dev/" ++ codes "vendor_boot"

vendor_is_there : find_physical_partition card (codes "vendor_boot") blank ≡ some vendor
unfolding find_physical_partition starts_with codes contains
vendor_is_there = refl

is_vendor : Fetch.is_allowed (codes "vendor_boot") ≡ true
unfolding text_eq codes
is_vendor = refl

fetch_handler_fetches_nothing_example :
    (fetch_handler card_transport test_base card false
        (codes "fetch" ∷ codes "vendor_boot" ∷ [])
        device
        blank
      ≡ answer card_transport fail (codes "Fetch is not allowed on user build") device blank)
    × (fetch_handler card_transport test_base card true
          (codes "fetch" ∷ codes "vendor_boot" ∷ [])
          device
          blank
        ≡ answer card_transport okay
            (codes "Partition " ++ codes "vendor_boot" ++ codes " has size 0")
            device
            blank)
fetch_handler_fetches_nothing_example =
    fetch_handler_fetches_nothing card_transport test_base card (codes "fetch")
      (codes "vendor_boot") vendor [] device blank is_vendor refl vendor_is_there

abbrev no_firmware : Firmware Card
no_firmware = record {
  exists = λ path w. false;
  open_file = λ path w. (none, w);
  close = λ fd w. w;
  ioctl = λ fd buf w. (none, w);
  errno = λ w. 2;
  strerror = λ e. [];
  entries = λ path w. [];
  pread_rows = λ fd count start w. (none, w);
}

handlers-RepliesOnSuccess_example :
    RepliesOnSuccess {P = test_parser} (download_handler card_transport test_base)
    × RepliesOnSuccess {P = test_parser} (upload_handler card_transport)
    × RepliesOnSuccess {P = test_parser} (erase_handler card_transport card no_sparse card_kernel)
    × RepliesOnSuccess {P = test_parser} (oem_cmd_mac card_transport test_base no_firmware)
    × RepliesOnSuccess {P = test_parser} (oem_cmd_otp card_transport test_base no_firmware)
handlers-RepliesOnSuccess_example =
    handlers-RepliesOnSuccess card_transport test_base no_firmware card no_sparse card_kernel
