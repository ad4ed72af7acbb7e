-- ===== src/Fastboot/Files.antt =====
-- PartitionHandle and the search for the device node of a partition
-- (fastboot/device/utility.h and utility.cpp), over the calls of the C library.
use rpi_fastbootd.Prelude.{
  ℕ, Bool, true, false, not, ◌&&◌, ◌||◌, Option, none, some, ◌++◌, ltb, ◌==◌, if◌then◌else◌,
}
use rpi_fastbootd.Prelude.Text.{Text, codes, starts_with, contains}

-- The flags that the handlers pass to Open, which adds O_EXCL, O_CLOEXEC and O_BINARY.
pub data OpenFlags : Type 0 where
  read_only write_only write_only_direct : OpenFlags

abbrev pub same_flags : OpenFlags → OpenFlags → Bool
same_flags read_only read_only = true
same_flags write_only write_only = true
same_flags write_only_direct write_only_direct = true
same_flags _ _ = false

pub data Whence : Type 0 where
  seek_set seek_cur : Whence

-- A file descriptor is a 32-bit word, so that -1 is this one.
abbrev pub no_fd : ℕ
no_fd = 4294967295

-- The sign bit is clear.
abbrev pub is_open : ℕ → Bool
is_open fd = ltb fd 2147483648

-- System calls on block devices; a count or an offset is none where the call gives -1.
pub record Files (World : Type 0) : Type 0 where
  -- access with W_OK and with F_OK
  pub is_writable : Text → World → Bool
  pub exists : Text → World → Bool
  pub open_file : Text → OpenFlags → World → ℕ × World
  pub close : ℕ → World → World
  pub lseek : ℕ → ℕ → Whence → World → Option ℕ × World
  pub write : ℕ → Text → World → Option ℕ × World
  -- android::base::ReadFully
  pub read_fully : ℕ → ℕ → World → Option Text × World
  -- BLKGETSIZE64, BLKSECDISCARD and BLKDISCARD
  pub get_size64 : ℕ → World → Option ℕ
  pub secure_discard : ℕ → ℕ → ℕ → World → Bool × World
  pub discard : ℕ → ℕ → ℕ → World → Bool × World
  pub sync : World → World
  pub errno : World → ℕ
  pub strerror : ℕ → Text
  -- posix_memalign has given the write buffer
  pub memalign : World → Bool

pub record PartitionHandle : Type 0 where
  pub path : Text
  pub fd : ℕ
  pub flags : Option OpenFlags

-- PartitionHandle(path)
abbrev pub new_handle : Text → PartitionHandle
new_handle path = record { path = path; fd = no_fd; flags = none }

-- FindPhysicalPartition
unfoldable pub find_physical_partition : {World : Type 0} → Files World → Text → World → Option Text
find_physical_partition files name w =
    let path = if starts_with name (codes "/dev") then name else codes "/dev/" ++ name in
    if starts_with name (codes "../") || contains name (codes "/../")
    then none
    else if not (files.is_writable path w)
    then none
    else some path

-- OpenPartition: it makes the handle, and opens nothing.
unfoldable pub open_partition :
    {World : Type 0} → Files World → Text → World → Option PartitionHandle
unfolding find_physical_partition
open_partition files name w = elim (find_physical_partition files name w) [
  | none ↦ none
  | some path ↦ some (new_handle path)
]

abbrev pub has_flags : Option OpenFlags → OpenFlags → Bool
has_flags none flags = false
has_flags (some old) flags = same_flags old flags

abbrev pub at_offset : Option ℕ → ℕ → Bool
at_offset none offset = false
at_offset (some n) offset = n == offset

abbrev pub size_or_zero : Option ℕ → ℕ
size_or_zero none = 0
size_or_zero (some size) = size

module _ {World : Type 0} (files : Files World) where
  -- unique_fd::reset
  abbrev pub close_fd : ℕ → World → World
  close_fd fd w = if fd == no_fd then w else files.close fd w

  -- PartitionHandle::Open
  unfoldable pub open_handle : OpenFlags → PartitionHandle → World → Bool × PartitionHandle × World
  open_handle flags h w =
      let (fd, w1) = files.open_file h.path flags (close_fd h.fd w) in
      if is_open fd
      then (true, record h { fd = fd; flags = some flags }, w1)
      else (false, record h { fd = fd }, w1)

  -- The offset to go back to: where the file stands, or 0 without one.
  abbrev pub offset_of : PartitionHandle → World → Option ℕ × World
  offset_of h w = if is_open h.fd then files.lseek h.fd 0 seek_cur w else (some 0, w)

  -- The rest of Reset, from the offset.
  unfoldable pub reopen_at :
      Option ℕ → OpenFlags → PartitionHandle → World → Bool × PartitionHandle × World
  unfolding open_handle
  reopen_at none flags h w = (false, h, w)
  reopen_at (some offset) flags h w =
      let (opened, h1, w1) = open_handle flags h (files.sync w) in
      let (found, w2) = files.lseek h1.fd offset seek_set w1 in
      if not opened then (false, h1, w1) else (at_offset found offset, h1, w2)

  -- PartitionHandle::Reset
  unfoldable pub reset_handle : OpenFlags → PartitionHandle → World → Bool × PartitionHandle × World
  unfolding reopen_at
  reset_handle flags h w =
      let (offset, w1) = offset_of h w in
      if is_open h.fd && has_flags h.flags flags then (true, h, w) else reopen_at offset flags h w1

  -- android::get_block_device_size
  unfoldable pub get_block_device_size : ℕ → World → ℕ
  get_block_device_size fd w = size_or_zero (files.get_size64 fd w)

  -- android::wipe_block_device: has it succeeded?
  unfoldable pub wipe_block_device : ℕ → World → Bool × World
  unfolding get_block_device_size
  wipe_block_device fd w =
      let len = get_block_device_size fd w in
      let (secured, w1) = files.secure_discard fd 0 len w in
      let (discarded, w2) = files.discard fd 0 len w1 in
      if len == 0 then (true, w) else if secured then (true, w1) else (discarded, w2)
