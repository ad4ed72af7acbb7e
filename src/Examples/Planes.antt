-- ===== src/Examples/Planes.antt =====
-- A run of the commands of the data plane, on a system where no partition can be written to.
use rpi_fastbootd.Prelude.{Bool, false, Option, none, some}
use rpi_fastbootd.Prelude.Text.{Text}
use rpi_fastbootd.Fastboot.Files
use rpi_fastbootd.Fastboot.Transport.{FastbootDevice}
use rpi_fastbootd.Fastboot.Transfer.{Handlers}
use rpi_fastbootd.Prelude.Outcome.{Outcome, ok}
use rpi_fastbootd.Fastboot.Session.{Handler}
use rpi_fastbootd.Fastboot.Files.{Files}
use rpi_fastbootd.Fastboot.Flash.Handler.{flash, flash_handler}
use rpi_fastbootd.Examples.Fixtures.{test_partitions, parser_of, device_of, session_of}
use rpi_fastbootd.Idp.Device.Platform.{partitioned}
use rpi_fastbootd.Idp.Device.Lifecycle.{Cookie}
use rpi_fastbootd.Fastboot.Flash.Handler
use rpi_fastbootd.Examples.Flashing.{Card, card, no_sparse, card_kernel, card_transport}

-- A system in which no partition can be written to.
abbrev absent : Files Card
absent = record card { is_writable = λ path w. false }

abbrev Fb : Type 0
Fb = FastbootDevice (parser_of test_partitions)

abbrev settled : Option (Outcome Bool × Fb × Card) → Fb → Card → Outcome Bool × Fb × Card
settled none fb w = (ok false, fb, w)
settled (some r) fb w = r

abbrev flash_absent : Handler (parser_of test_partitions) Card
flash_absent args fb w =
    settled (flash_handler card_transport absent no_sparse card_kernel 0 args fb w) fb w

abbrev plane_handlers : Handlers (parser_of test_partitions) Card
plane_handlers = record {
  set_active = flash_absent;
  get_var = flash_absent;
  shut_down = flash_absent;
  reboot = flash_absent;
  reboot_bootloader = flash_absent;
  erase = flash_absent;
  flash = flash_absent;
  oem_cmd = flash_absent;
  fetch = flash_absent;
}

abbrev plane_cookie : Cookie
plane_cookie = record { index = 0; session_id = 7 }

abbrev plane_device : Fb
plane_device =
    session_of test_partitions (some (device_of test_partitions partitioned)) (some plane_cookie)
