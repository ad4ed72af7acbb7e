-- ===== src/Examples/Tables.antt =====
-- Runs of RPIparted.
use Prim.Native.Nat.{max}
use rpi_fastbootd.Prelude.{◌*◌, ◌≡◌, refl, ◌↔◌, true, false, none, some}
use rpi_fastbootd.Prelude.Text.{codes, text_eq, to_lower}
use rpi_fastbootd.Parted.Reread.{reread_fd, reread_dev}
use rpi_fastbootd.Parted.Device.{Parted}
use rpi_fastbootd.Parted.Ops.{close_device, create_partition_table, commit_and_reread}
use rpi_fastbootd.Parted.Laws.{Adopted, reread_fd-Adopted}
use rpi_fastbootd.Examples.Fixtures.{test_fdisk, test_kernel}

abbrev closed : Parted test_fdisk
closed = record {
  context = none;
  is_gpt = false;
  sector_size = 512;
  grain = 1048576;
  device_assigned = false;
}

abbrev opened : Parted test_fdisk
opened = record closed { context = some tt; device_assigned = true }

reread_fd-Adopted_example :
    ((reread_fd test_kernel 3 1 2).0 ≡ 0) ↔ Adopted test_kernel (max 1 (1 * 10)) 3 2
reread_fd-Adopted_example = reread_fd-Adopted test_kernel 3 1 2

created : (create_partition_table test_fdisk opened (codes "GPT") none 0).0 ≡ true
unfolding create_partition_table codes to_lower text_eq
created = refl

reread : (commit_and_reread test_fdisk test_kernel opened 5 2).0 ≡ true
unfolding commit_and_reread reread_dev close_device
reread = refl
