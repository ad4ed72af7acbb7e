-- ===== src/Fastboot/Flash/Handler.antt =====
-- Flash (fastboot/device/flashing.cpp), and FlashHandler and EraseHandler
-- (fastboot/device/commands.cpp).
use rpi_fastbootd.Prelude.{
  ℕ, Bool, not, ◌&&◌, Option, none, some, List, [], ◌∷◌, ◌++◌, ltb, ◌==◌, if◌then◌else◌, length,
}
use rpi_fastbootd.Prelude.Text.{Text, codes, is_empty, decimal, after_last_slash}
use rpi_fastbootd.Prelude.Outcome.{Outcome}
use rpi_fastbootd.Parted.Fdisk.{Kernel}
use rpi_fastbootd.Parted.Reread.{reread_fd, ebusy}
use rpi_fastbootd.Idp.Device.Platform.{Parser}
use rpi_fastbootd.Fastboot.Transport.{Transport, FastbootDevice, okay, fail}
use rpi_fastbootd.Fastboot.Session.{Handler}
use rpi_fastbootd.Fastboot.Transfer.{answer, get_device_lock_status}
use rpi_fastbootd.Fastboot.Files.{
  Files, PartitionHandle, open_partition, open_handle, close_fd, write_only_direct,
  get_block_device_size, wipe_block_device,
}
use rpi_fastbootd.Fastboot.Flash.{
  Flashing, set_err, Sparse, flash_block_device, enoent, einval, eoverflow,
}

module _ {World : Type 0} (files : Files World) where
  -- IsWholeDisk
  unfoldable pub is_whole_disk : Text → World → Bool
  is_whole_disk dev_path w =
      let sysfs = codes "/sys/class/block/" ++ after_last_slash dev_path dev_path in
      files.exists sysfs w && not (files.exists (sysfs ++ codes "/partition") w)

  -- ~PartitionHandle
  abbrev pub drop_handle : Flashing World → World
  drop_handle s = close_fd files s.handle.fd s.world

-- How Flash ends: its result, the error string, the download buffer, and the system.
pub record Flashed (World : Type 0) : Type 0 where
  pub code : ℕ
  pub err : Text
  pub download_data : Text
  pub world : World

abbrev pub flash_message : {World : Type 0} → Files World → Flashed World → Text
flash_message files r = if is_empty r.err then files.strerror r.code else r.err

module _ {World : Type 0} (files : Files World) (sparse : Sparse World) (k : Kernel World) where
  -- Flash ends with this error, and its handle is closed.
  abbrev pub flash_error : ℕ → Text → Text → Flashing World → Flashed World
  flash_error code msg download_data s = record {
    code = code;
    err = (set_err msg s).err;
    download_data = download_data;
    world = drop_handle files s;
  }

  abbrev pub busy_hint : ℕ → Text
  busy_hint rr =
      if rr == ebusy
      then codes
          " -- a partition is still open (a mount left behind, or a device-mapper node); unmount it and flash again"
      else []

  -- From the result of FlashBlockDevice: the kernel is told of a table on a whole disk.
  unfoldable pub finish_flash : Text → ℕ → Flashing World → Flashed World
  unfolding is_whole_disk
  finish_flash partition_path result s =
      let synced : Flashing World = record s { world = files.sync s.world } in
      let (rr, w) = reread_fd k synced.handle.fd 5 synced.world in
      let told : Flashing World = record synced { world = w } in
      if result == 0 && is_whole_disk files partition_path synced.world
      then if rr == 0
        then record { code = 0; err = told.err; download_data = []; world = drop_handle files told }
        else flash_error rr
            (codes "wrote "
              ++ partition_path
              ++ codes " but the kernel would not re-read its partition table: "
              ++ files.strerror rr
              ++ busy_hint rr)
            [] told
      else record {
        code = result;
        err = synced.err;
        download_data = [];
        world = drop_handle files synced;
      }

  abbrev pub after_block_device : Text → Option (ℕ × Flashing World) → Option (Flashed World)
  after_block_device partition_path none = none
  after_block_device partition_path (some (result, s)) = some (finish_flash partition_path result s)

  -- Flash from the open handle: the buffer is moved out of the device.
  unfoldable pub flash_open : ℕ → Text → Text → Text → Flashing World → Option (Flashed World)
  unfolding finish_flash
  flash_open fuel partition_name partition_path image s =
      let size = get_block_device_size files s.handle.fd s.world in
      if length image == 0
      then some (
          flash_error einval
            (codes "download buffer is empty; stage data before flashing " ++ partition_name) [] s)
      else if ltb size (length image)
      then some (
          flash_error eoverflow
            (codes "payload "
              ++ decimal (length image)
              ++ codes "B exceeds partition "
              ++ partition_path
              ++ codes " size "
              ++ decimal size
              ++ codes "B")
            [] s)
      else after_block_device partition_path (flash_block_device files sparse fuel image size s)

  abbrev pub open_error : ℕ → ℕ
  open_error saved = if saved == 0 then enoent else saved

  unfoldable pub flash_handle :
      ℕ → Text → Text → Text → Option PartitionHandle → World → Option (Flashed World)
  unfolding flash_open
  flash_handle fuel partition_name partition_path image none w = some record {
    code = enoent;
    err =
        codes "cannot access partition "
        ++ partition_path
        ++ codes " (OpenPartition failed; partition may not exist)";
    download_data = image;
    world = w;
  }
  flash_handle fuel partition_name partition_path image (some handle) w =
      let (opened, h, w1) = open_handle files write_only_direct handle w in
      let s : Flashing World = record { handle = h; err = []; world = w1 } in
      if opened
      then flash_open fuel partition_name partition_path image s
      else some (
          flash_error enoent
            (codes "open("
              ++ partition_path
              ++ codes ", O_WRONLY|O_DIRECT) failed: "
              ++ files.strerror (open_error (files.errno w1)))
            image s)

  -- Flash, once it has the lock of the partition
  unfoldable pub flash : ℕ → Text → Text → World → Option (Flashed World)
  unfolding flash_handle
  flash fuel partition_name image w =
      let partition_path = codes "/dev/" ++ partition_name in
      flash_handle fuel partition_name partition_path image (open_partition files partition_path w)
        w

module _ {P : Parser} {World : Type 0} (t : Transport World) (files : Files World)
    (sparse : Sparse World) (k : Kernel World) where
  -- The reply of FlashHandler to the result of Flash.
  unfoldable pub report_flash :
      Flashed World → FastbootDevice P → Outcome Bool × FastbootDevice P × World
  report_flash r fb =
      let fb' : FastbootDevice P = record fb { download_data = r.download_data } in
      if r.code == 0
      then answer t okay (codes "Flashing succeeded") fb' r.world
      else answer t fail (flash_message files r) fb' r.world

  abbrev pub after_flash :
      Option (Flashed World) → FastbootDevice P → Option (Outcome Bool × FastbootDevice P × World)
  after_flash none fb = none
  after_flash (some r) fb = some (report_flash r fb)

  -- FlashHandler, as far as the fuel
  unfoldable pub flash_handler :
      ℕ → List Text → FastbootDevice P → World → Option (Outcome Bool × FastbootDevice P × World)
  unfolding report_flash
  flash_handler fuel (name ∷ partition_name ∷ args) fb w =
      if get_device_lock_status
      then some (answer t fail (codes "Flashing is not allowed on locked devices") fb w)
      else after_flash (flash files sparse k fuel partition_name fb.download_data w) fb
  flash_handler fuel args fb w = some (answer t fail (codes "Invalid arguments") fb w)

  -- EraseHandler from the handle that OpenPartition gives, which is not open
  unfoldable pub erase_handle : Option PartitionHandle → Handler P World
  erase_handle none args fb w = answer t fail (codes "Partition doesn't exist") fb w
  erase_handle (some handle) args fb w =
      let (wiped, w1) = wipe_block_device files handle.fd w in
      let (rr, w2) = reread_fd k handle.fd 5 w1 in
      if wiped
      then answer t okay (codes "Erasing succeeded") fb (close_fd files handle.fd w2)
      else answer t fail (codes "Erasing failed") fb (close_fd files handle.fd w1)

  -- EraseHandler. No partition is protected: no snapshot update is ever in progress.
  unfoldable pub erase_handler : Handler P World
  unfolding erase_handle
  erase_handler (name ∷ partition_name ∷ args) fb w =
      if get_device_lock_status
      then answer t fail (codes "Erase is not allowed on locked devices") fb w
      else erase_handle (open_partition files (codes "/dev/" ++ partition_name) w) args fb w
  erase_handler args fb w = answer t fail (codes "Invalid arguments") fb w
