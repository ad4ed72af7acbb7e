-- ===== src/Examples/Sessions.antt =====
-- Runs of a session.
use rpi_fastbootd.Prelude.{
  ℕ, ◌+◌, ◌≤◌, ◌≡◌, refl, subst, ◌≢◌, ◌↔◌, true, false, not, ◌||◌, Option, none, some, List, [],
  ◌∷◌, arith, if-elim, length,
}
use Prim.Native.Nat.{min}
use rpi_fastbootd.Prelude.Text.{Text, codes, text_eq, to_lower, contains, after_last_slash}
use rpi_fastbootd.Prelude.Outcome.{Fault, ok}
use rpi_fastbootd.Fastboot.Idp.{idp_init}
use rpi_fastbootd.Idp.Device.Lifecycle.{initialise, new_device, can_provision}
use rpi_fastbootd.Idp.Device.Validate.{
  check_device_class, validate_device_readiness, validate_device_storage, capacity_bytes,
  compute_image_storage_size, validate_provisioning_intent, check_firmware_crypto_status,
}
use rpi_fastbootd.Idp.Utility.{wait_block_dev}
use rpi_fastbootd.Parted.Reread.{reread_dev}
use rpi_fastbootd.Prelude.Text.{contains, to_lower, after_last_slash}
use rpi_fastbootd.Idp.Storage.{block_dev}
use rpi_fastbootd.Idp.Partition.{get_size}
use rpi_fastbootd.Idp.Luks
use rpi_fastbootd.Fastboot.Response.{write_status, kept}
use rpi_fastbootd.Idp.Device.Platform.{Device, ready}
use rpi_fastbootd.Fastboot.Transport.{Transport, FastbootDevice, fail}
use rpi_fastbootd.Fastboot.Response.Laws.{expected, write_status_lem}
use rpi_fastbootd.Fastboot.Response.{response}
use rpi_fastbootd.Fastboot.Session.{
  Handler, again, execute_command, execute_commands, execute_next, execute_read, find_command,
}
use rpi_fastbootd.Fastboot.Session.Laws.{
  RepliesOnSuccess, GoesOnServed, IsSameRound, execute_command-GoesOnServed,
}
use rpi_fastbootd.Fastboot.Transfer.{download_handler}
use rpi_fastbootd.Fastboot.Transfer.Laws.{IsBounded, download_handler-IsBounded}
use rpi_fastbootd.Fastboot.Idp.{idp_getblk, run_idp, idpinit}
use rpi_fastbootd.Fastboot.Idp.Open.{Returns}
use rpi_fastbootd.Fastboot.Idp.Reachable.{Reach, start, later, command, Reach-Returns}
use rpi_fastbootd.Fastboot.Idp.Reply.{IsAnswered, run_idp-IsAnswered}
use rpi_fastbootd.Examples.Fixtures.{
  test_platform, test_partitions, parser_of, device_of, transport_of, test_base, session_of,
  test_image,
}

abbrev Fb : Type 0
Fb = FastbootDevice (parser_of test_partitions)

abbrev wire : Transport ℕ
wire = transport_of (codes "wait")

abbrev what : Fault → Text
what e = codes "fault"

abbrev idle : Fb
idle = session_of test_partitions none none

-- A handler that does nothing and says that it has failed.
abbrev silent : Handler (parser_of test_partitions) ℕ
silent args fb w = (ok false, fb, w)

abbrev table : List (Text × Handler (parser_of test_partitions) ℕ)
table = (codes "wait", silent) ∷ []

silent-RepliesOnSuccess : RepliesOnSuccess silent
silent-RepliesOnSuccess args fb w h = cc

abbrev EntryReplies : Option (Handler (parser_of test_partitions) ℕ) → Type 0
EntryReplies none = Unit {0}
EntryReplies (some handler) = RepliesOnSuccess handler

table-RepliesOnSuccess :
    (name : Text) (handler : Handler (parser_of test_partitions) ℕ)
    → find_command table name ≡ some handler
    → RepliesOnSuccess handler
unfolding find_command
table-RepliesOnSuccess name handler h =
    subst EntryReplies h
      (if-elim EntryReplies (text_eq (codes "wait") name) (λ _. silent-RepliesOnSuccess) (λ _. tt))

-- The command before has been replied to.
abbrev replied_before : Fb
replied_before = record idle { replied = true }

execute_command-GoesOnServed_example :
    GoesOnServed (execute_command wire test_base what table (codes "wait") replied_before 0)
    × GoesOnServed (execute_command wire test_base what table (codes "wait") idle 0)
    × IsSameRound
        (execute_command wire test_base what table (codes "wait") replied_before 0)
        (execute_command wire test_base what table (codes "wait") idle 0)
execute_command-GoesOnServed_example =
    execute_command-GoesOnServed wire test_base what table (codes "wait") replied_before 0
      table-RepliesOnSuccess

abbrev random : ℕ → ℕ × ℕ
random w = (7, w)

run_idp-IsAnswered_example :
    IsAnswered (run_idp test_platform wire what random test_image 0 0 idpinit idle 0)
run_idp-IsAnswered_example =
    run_idp-IsAnswered test_platform wire what random test_image 0 0 idpinit idle 0

parse_uint-le : (s : Text) (limit n : ℕ) → test_base.parse_uint s limit ≡ some n → n ≤ limit
parse_uint-le s limit n h = ground arith

download_handler-IsBounded_example :
    IsBounded
      (codes "{}")
      (download_handler wire test_base
        (codes "download" ∷ codes "00000004" ∷ [])
        idle
        0).1.download_data
download_handler-IsBounded_example =
    download_handler-IsBounded wire test_base parse_uint-le
      (codes "download" ∷ codes "00000004" ∷ []) idle 0

-- A transport that sends as many bytes as the buffer holds.
abbrev pair : Transport ℕ
pair = transport_of (codes "ab")

-- A transport that is closed.
abbrev closed : Transport ℕ
closed = transport_of []

ends : (execute_commands closed test_base what 1 table idle 0).0 ≢ again
unfolding execute_commands execute_next execute_read
ends h = cc

-- The state after oem idpinit.
abbrev opened : Fb
opened = (run_idp test_platform wire what random test_image 0 0 idpinit idle 0).1

abbrev opened_device : Device (parser_of test_partitions)
opened_device = record (device_of test_partitions ready) { isize = 23068672 }

opened_ready :
    ((run_idp test_platform wire what random test_image 0 0 idpinit idle 0).0 ≡ ok true)
    × (opened.idp ≡ some opened_device)
    × ((run_idp test_platform wire what random test_image 0 0 idpinit idle 0).2 ≡ 0)
unfolding run_idp idp_init codes initialise new_device can_provision check_device_class text_eq
    contains to_lower validate_device_readiness wait_block_dev reread_dev validate_device_storage
    capacity_bytes after_last_slash block_dev compute_image_storage_size get_size Luks.header_size
    validate_provisioning_intent check_firmware_crypto_status write_status response kept
opened_ready = (refl, refl, refl)

opened-Reach : Reach test_platform wire what random test_image 0 0 opened 0
opened-Reach =
    subst (Reach test_platform wire what random test_image 0 0 opened) opened_ready.2
      (later (start idle 0 refl) (command idpinit true opened_ready.0))

Reach-Returns_example : Returns (idp_getblk test_platform wire what opened 0)
Reach-Returns_example =
    Reach-Returns test_platform wire what random test_image 0 0 opened 0 opened-Reach

write_status_lem_example :
    let (count, w1) = wire.write (expected fail (codes "no such partition")) 0 in
    let (sent, fb', w') = write_status wire fail (codes "no such partition") idle 0 in
    (length (expected fail (codes "no such partition"))
      ≡ 4 + min 252 (length (codes "no such partition")))
    × (w' ≡ w1)
    × ((sent ≡ true) ↔ (count ≡ some (4 + min 252 (length (codes "no such partition")))))
    × (fb'.transport_failed ≡ idle.transport_failed || not sent)
write_status_lem_example = write_status_lem wire fail (codes "no such partition") idle 0
