-- ===== src/Examples/Fixtures.antt =====
-- A small system: its world is the number of times that the kernel still answers that the device
-- is busy.
use rpi_fastbootd.Prelude.{
  ℕ, ◌-◌, true, false, not, Option, none, some, List, [], ◌∷◌, leb, ◌==◌, if◌then◌else◌, length,
}
use rpi_fastbootd.Prelude.Text.{Text, codes, starts_with, contains}
use rpi_fastbootd.Prelude.Outcome.{ok}
use rpi_fastbootd.Parted.Fdisk.{Fdisk, Kernel}
use rpi_fastbootd.Idp.Luks.{Luks, partitioned}
use rpi_fastbootd.Idp.Storage.{Storage, Image, emmc, gpt}
use rpi_fastbootd.Idp.Partition.{IdpPartition}
use rpi_fastbootd.Idp.Device.Platform.{Parser, Platform, Device, IdpState}
use rpi_fastbootd.Idp.Device.Lifecycle.{Cookie}
use rpi_fastbootd.Fastboot.Transport.{Transport, Base, FastbootDevice}

-- libfdisk: everything succeeds, except that it opens no device of the mapper.
abbrev pub test_fdisk : Fdisk ℕ
test_fdisk = record {
  Context = Unit {0};
  PartType = Unit {0};
  new_context = λ w. (some tt, w);
  unref_context = λ c w. w;
  disable_dialogs = λ c w. w;
  save_user_grain = λ c k w. w;
  assign_device = λ c dev w. (not (starts_with dev (codes "/dev/mapper/")), w);
  deassign_device = λ c b w. w;
  device_is_used = λ c w. true;
  get_grain_size = λ c w. 1048576;
  get_sector_size = λ c w. 512;
  get_devname = λ c w. some (codes "/dev/mmcblk0");
  has_label = λ c w. true;
  is_gpt_label = λ c w. true;
  is_dos_label = λ c w. false;
  create_disklabel = λ c name w. (true, w);
  set_disklabel_id = λ c id w. (true, w);
  get_disklabel_id = λ c w. some (codes "1-2");
  parttype_from_string = λ c s w. some tt;
  parttype_from_hex = λ c s w. some tt;
  accepts_name = λ s. true;
  accepts_uuid = λ s. true;
  add_partition = λ c n w. (true, w);
  delete_partition = λ c n w. (true, w);
  write_disklabel = λ c w. (true, w);
}

abbrev pub test_kernel : Kernel ℕ
test_kernel = record {
  sync = λ w. w;
  open_device = λ dev w. (some 3, w);
  open_errno = λ w. 0;
  close_fd = λ fd w. w;
  blkrrpart = λ fd w. (if w == 0 then 0 else 16, w - 1);
  usleep = λ n w. w;
}

abbrev pub test_platform : Platform ℕ
test_platform = record {
  fdisk = test_fdisk;
  kernel = test_kernel;
  luks_create = λ l dev w. (true, w);
  luks_open = λ l dev w. (true, w);
  luks_close = λ l dev w. (true, w);
  block_dev_ready = λ dev w. (true, w);
  wait_udev_block_dev = λ dev t w. (true, w);
  sleep_ms = λ n w. w;
  kpartx = λ dev w. w;
  device_model = λ w. some (codes "Raspberry Pi Compute Module 5 Rev 1.0");
  exists = λ dev w. true;
  read_number = λ path w. some (if contains path (codes "/queue/") then 512 else 2000000);
  provisioning_status = λ w. some true;
  hmac_works = λ w. true;
}

abbrev pub test_storage : Storage
test_storage = record {
  type = emmc;
  sector_size = 512;
  ptable_align = 1048576;
  ptable_type = gpt;
  ptable_id = none;
}

abbrev pub test_image : Image
test_image = record {
  device_class = codes "cm5";
  device_storage = test_storage;
  device_variant = [];
  version = codes "1.0";
  name = codes "test";
  size = 0;
}

abbrev pub plain : Option ℕ → Option ℕ → ℕ → IdpPartition
plain index parent num = record {
  expand_to_fit = false;
  num = num;
  img = none;
  simg = some (codes "root.simg");
  size = 1048576;
  aligned_size = 1048576;
  typecode = some (codes "8300");
  gptlabel = some (codes "root");
  gptuuid = none;
  luks = none;
  index = index;
  parent_index = parent;
  blkdev = some (codes "/dev/mmcblk0p2");
}

abbrev pub test_luks : Luks
test_luks = record {
  etype = partitioned;
  version = 2;
  hash = codes "sha256";
  key_size = 512;
  cipher = codes "aes-xts-plain64";
  sector_size = 512;
  mname = codes "cryptroot";
  label = none;
  uuid = none;
  payload_offset_sectors = none;
  header_size_bytes = none;
  p_alignment_bytes = 1048576;
}

-- A boot partition, and a container with one partition inside.
abbrev pub boot_part : IdpPartition
boot_part = plain (some 0) none 1

abbrev pub container_part : IdpPartition
container_part = record (plain (some 1) none 2) { luks = some test_luks }

abbrev pub inner_part : IdpPartition
inner_part = plain (some 2) (some 1) 1

abbrev pub test_partitions : List IdpPartition
test_partitions = boot_part ∷ container_part ∷ inner_part ∷ []

-- A parser that takes every text, and has found these partitions.
abbrev pub parser_of : List IdpPartition → Parser
parser_of all = record {
  State = Unit {0};
  fresh = tt;
  load_data = λ s text. (ok none, s);
  get_image = λ s. some test_image;
  get_partitions = λ s. all;
}

abbrev pub test_parser : Parser
test_parser = parser_of test_partitions

abbrev pub device_of : (all : List IdpPartition) → IdpState → Device (parser_of all)
device_of all state = record {
  parser = tt;
  partitions = all;
  image = test_image;
  state = state;
  session_id = 7;
  dcap = 1024000000;
  isize = 24117248;
}

-- A transport whose host reads everything, and sends one command over and over.
abbrev pub transport_of : Text → Transport ℕ
transport_of text = record {
  read = λ n w. ((some (length text), text), w);
  write = λ s w. (some (length s), w);
}

-- Enough of libbase for these runs.
abbrev pub test_base : Base
test_base = record {
  split = λ s sep. s ∷ [];
  begins = starts_with;
  parse_uint = λ s limit. if leb 4 limit then some 4 else none;
}

abbrev pub session_of :
    (all : List IdpPartition)
    → Option (Device (parser_of all))
    → Option Cookie
    → FastbootDevice (parser_of all)
session_of all idp idpcookie = record {
  download_data = codes "{}";
  replied = false;
  transport_failed = false;
  idp = idp;
  idpcookie = idpcookie;
}
