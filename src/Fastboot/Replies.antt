-- ===== src/Fastboot/Replies.antt =====
-- The handlers of commands.cpp that reply when they succeed.
use rpi_fastbootd.Prelude.{
  ℕ, zero, suc, ◌≡◌, refl, inl, inr, Bool, true, false, not, ◌&&◌, Option, none, some, List, [],
  ◌∷◌, ◌++◌, if◌then◌else◌, Bool-cases,
}
use rpi_fastbootd.Prelude.Text.{Text, codes, text_eq}
use rpi_fastbootd.Prelude.Outcome.{Outcome, ok}
use rpi_fastbootd.Parted.Fdisk.{Kernel}
use rpi_fastbootd.Idp.Device.Platform.{Parser}
use rpi_fastbootd.Fastboot.Transport.{Transport, Base, FastbootDevice, Result, okay, fail}
use rpi_fastbootd.Fastboot.Response.{write_status, is_final}
use rpi_fastbootd.Fastboot.Response.Laws.{write_status-IsSettled}
use rpi_fastbootd.Fastboot.Session.{Handler}
use rpi_fastbootd.Fastboot.Session.Laws.{IsServed, RepliesOnSuccess}
use rpi_fastbootd.Fastboot.Transfer.{
  answer, receive, download_handler, upload_handler, get_device_lock_status,
}
use rpi_fastbootd.Fastboot.Files.{Files, PartitionHandle}
use rpi_fastbootd.Fastboot.Flash.{Sparse}
use rpi_fastbootd.Fastboot.Flash.Handler.{erase_handle, erase_handler}
use rpi_fastbootd.Fastboot.Otp
use rpi_fastbootd.Fastboot.Otp.{good, bad}
use rpi_fastbootd.Fastboot.Otp.Mac.{Mac, MacInterface, parse_mac_interface, parse_mac}
use rpi_fastbootd.Fastboot.Otp.Mailbox.{Firmware}
use rpi_fastbootd.Fastboot.Otp.Commands.{
  mac_usage, otp_usage, tell, mac_check, mac_get, set_parsed, mac_set, oem_cmd_mac, otp_get,
  set_values, otp_set, otp_row, oem_cmd_otp,
}

-- If it has succeeded, the host is served.
record Serves {P : Parser} {World : Type 0} (r : Outcome Bool × FastbootDevice P × World)
    : Type 0 where
  served : r.0 ≡ ok true → IsServed r.1

silent-Serves :
    {P : Parser} {World : Type 0} (fb : FastbootDevice P) (w : World) → Serves (ok false, fb, w)
silent-Serves fb w = record { served = λ e. absurd (cc e) }

-- Both replies of a branch
either-Serves :
    {P : Parser} {World : Type 0} (b : Bool) {x y : Outcome Bool × FastbootDevice P × World}
    → Serves x
    → Serves y
    → Serves (if b then x else y)
either-Serves true h h' = h
either-Serves false h h' = h'

-- And so for all arguments of a handler.
abbrev AlwaysServes : {P : Parser} {World : Type 0} → Handler P World → Type 0
AlwaysServes {P} {World} handler =
    (args : List Text) (fb : FastbootDevice P) (w : World) → Serves (handler args fb w)

module _ {P : Parser} {World : Type 0} (t : Transport World) where
  answer-Serves :
      (result : Result) (message : Text) (fb : FastbootDevice P) (w : World)
      → is_final result ≡ true
      → Serves (answer t result message fb w)
  answer-Serves result message fb w final =
      let (replied, failed) = write_status-IsSettled t result message fb w final in
      record {
        served = λ e. elim (Bool-cases (write_status t result message fb w).0) [
          | inl sent ↦ inl (replied sent)
          | inr lost ↦ inr (failed lost)
        ];
      }

  receive-Serves :
      (size : Option ℕ) (fb : FastbootDevice P) (w : World) → Serves (receive t size fb w)
  unfolding receive
  receive-Serves none fb w = answer-Serves fail _ fb w refl
  receive-Serves (some zero) fb w = answer-Serves fail _ fb w refl
  receive-Serves (some (suc n)) fb w =
      either-Serves _ (silent-Serves _ _)
        (either-Serves _ (answer-Serves okay _ _ _ refl) (answer-Serves fail _ _ _ refl))

  download_handler-Serves : (base : Base) → AlwaysServes {P = P} (download_handler t base)
  unfolding download_handler
  download_handler-Serves base [] fb w = answer-Serves fail _ fb w refl
  download_handler-Serves base (name ∷ []) fb w = answer-Serves fail _ fb w refl
  download_handler-Serves base (name ∷ size ∷ args) fb w =
      either-Serves get_device_lock_status (answer-Serves fail _ fb w refl)
        (either-Serves _ (answer-Serves fail _ fb w refl) (receive-Serves _ fb w))

  upload_handler-Serves : AlwaysServes {P = P} (upload_handler t)
  unfolding upload_handler
  upload_handler-Serves args fb w = either-Serves _ (answer-Serves fail _ fb w refl) (
      either-Serves _ (silent-Serves _ _)
        (either-Serves _ (answer-Serves okay _ _ _ refl) (answer-Serves fail _ _ _ refl)))

  erase_handle-Serves :
      (files : Files World) (sparse : Sparse World) (k : Kernel World) (h : Option PartitionHandle)
      → AlwaysServes {P = P} (erase_handle t files sparse k h)
  unfolding erase_handle
  erase_handle-Serves files sparse k none args fb w = answer-Serves fail _ fb w refl
  erase_handle-Serves files sparse k (some handle) args fb w =
      either-Serves _ (answer-Serves okay _ fb _ refl) (answer-Serves fail _ fb _ refl)

  erase_handler-Serves :
      (files : Files World) (sparse : Sparse World) (k : Kernel World)
      → AlwaysServes {P = P} (erase_handler t files sparse k)
  unfolding erase_handler
  erase_handler-Serves files sparse k [] fb w = answer-Serves fail _ fb w refl
  erase_handler-Serves files sparse k (name ∷ []) fb w = answer-Serves fail _ fb w refl
  erase_handler-Serves files sparse k (name ∷ partition_name ∷ args) fb w =
      either-Serves get_device_lock_status (answer-Serves fail _ fb w refl)
        (erase_handle-Serves files sparse k _ args fb w)

  module _ (base : Base) (fw : Firmware World) where
    tell-Serves :
        (reply : Bool × Text) (fb : FastbootDevice P) (w : World)
        → Serves (tell t base fw reply fb w)
    tell-Serves (true, msg) fb w = answer-Serves okay msg fb w refl
    tell-Serves (false, msg) fb w = answer-Serves fail msg fb w refl

    mac_get-Serves :
        (name : Text) (iface : Option MacInterface)
        → AlwaysServes {P = P} (mac_get t base fw name iface)
    unfolding mac_get
    mac_get-Serves name none args fb w = answer-Serves fail _ fb w refl
    mac_get-Serves name (some iface) args fb w = tell-Serves _ fb _

    set_parsed-Serves :
        (iface : MacInterface) (mac : Otp.Result Mac) (args : List Text) (fb : FastbootDevice P)
        (w : World)
        → Serves (set_parsed t base fw iface mac args fb w)
    set_parsed-Serves iface (bad msg) args fb w = answer-Serves fail _ fb w refl
    set_parsed-Serves iface (good mac) args fb w = tell-Serves _ fb _

    mac_set-Serves :
        (name : Text) (iface : Option MacInterface)
        → AlwaysServes {P = P} (mac_set t base fw name iface)
    unfolding mac_set
    mac_set-Serves name iface [] fb w = answer-Serves fail _ fb w refl
    mac_set-Serves name none (address ∷ args) fb w = answer-Serves fail _ fb w refl
    mac_set-Serves name (some iface) (address ∷ args) fb w =
        set_parsed-Serves iface (parse_mac address) args fb w

    oem_cmd_mac-Serves : AlwaysServes {P = P} (oem_cmd_mac t base fw)
    unfolding oem_cmd_mac
    oem_cmd_mac-Serves (oem ∷ command ∷ subcommand ∷ name ∷ args) fb w =
        either-Serves (text_eq subcommand (codes "get"))
          (mac_get-Serves name (parse_mac_interface name) args fb w)
          (either-Serves (text_eq subcommand (codes "check"))
            (tell-Serves (mac_check (parse_mac name)) fb w)
            (either-Serves (text_eq subcommand (codes "set"))
              (mac_set-Serves name (parse_mac_interface name) args fb w)
              (answer-Serves fail
                (codes "mac: unknown subcommand '" ++ subcommand ++ codes "'. " ++ mac_usage) fb w
                refl)))
    oem_cmd_mac-Serves [] fb w = answer-Serves fail _ fb w refl
    oem_cmd_mac-Serves (a ∷ []) fb w = answer-Serves fail _ fb w refl
    oem_cmd_mac-Serves (a ∷ b ∷ []) fb w = answer-Serves fail _ fb w refl
    oem_cmd_mac-Serves (a ∷ b ∷ c ∷ []) fb w = answer-Serves fail _ fb w refl

    otp_get-Serves :
        (start : ℕ) (count : Otp.Result ℕ) → AlwaysServes {P = P} (otp_get t base fw start count)
    unfolding otp_get
    otp_get-Serves start (bad msg) args fb w = answer-Serves fail _ fb w refl
    otp_get-Serves start (good count) args fb w = tell-Serves _ fb _

    set_values-Serves :
        (start : ℕ) (values : Otp.Result (List ℕ)) (args : List Text) (fb : FastbootDevice P)
        (w : World)
        → Serves (set_values t base fw start values args fb w)
    set_values-Serves start (bad msg) args fb w = answer-Serves fail _ fb w refl
    set_values-Serves start (good values) args fb w = tell-Serves _ fb _

    otp_set-Serves : (start : ℕ) → AlwaysServes {P = P} (otp_set t base fw start)
    unfolding otp_set
    otp_set-Serves start [] fb w = answer-Serves fail _ fb w refl
    otp_set-Serves start (value ∷ args) fb w = set_values-Serves start _ args fb w

    otp_row-Serves :
        (subcommand row : Text) (start : Option ℕ)
        → AlwaysServes {P = P} (otp_row t base fw subcommand row start)
    unfolding otp_row
    otp_row-Serves subcommand row none args fb w = answer-Serves fail _ fb w refl
    otp_row-Serves subcommand row (some start) args fb w =
        either-Serves _ (otp_get-Serves start _ args fb w) (otp_set-Serves start args fb w)

    oem_cmd_otp-Serves : AlwaysServes {P = P} (oem_cmd_otp t base fw)
    unfolding oem_cmd_otp
    oem_cmd_otp-Serves (oem ∷ command ∷ subcommand ∷ row ∷ args) fb w =
        either-Serves
          (not (text_eq subcommand (codes "get")) && not (text_eq subcommand (codes "set")))
          (answer-Serves fail
            (codes "otp: unknown subcommand '" ++ subcommand ++ codes "'. " ++ otp_usage) fb w refl)
          (otp_row-Serves subcommand row (base.parse_uint row 4294967295) args fb w)
    oem_cmd_otp-Serves [] fb w = answer-Serves fail _ fb w refl
    oem_cmd_otp-Serves (a ∷ []) fb w = answer-Serves fail _ fb w refl
    oem_cmd_otp-Serves (a ∷ b ∷ []) fb w = answer-Serves fail _ fb w refl
    oem_cmd_otp-Serves (a ∷ b ∷ c ∷ []) fb w = answer-Serves fail _ fb w refl

    -- The handlers of download, upload and erase, and the commands oem mac and oem otp, only
    -- report success to the session when an OKAY or FAIL has gone out or the transport has failed,
    -- whatever their arguments are.
    pub handlers-RepliesOnSuccess :
        (files : Files World) (sparse : Sparse World) (k : Kernel World)
        → RepliesOnSuccess {P = P} (download_handler t base)
          × RepliesOnSuccess {P = P} (upload_handler t)
          × RepliesOnSuccess {P = P} (erase_handler t files sparse k)
          × RepliesOnSuccess {P = P} (oem_cmd_mac t base fw)
          × RepliesOnSuccess {P = P} (oem_cmd_otp t base fw)
    handlers-RepliesOnSuccess files sparse k = (
      λ args fb w. (download_handler-Serves base args fb w).served,
      λ args fb w. (upload_handler-Serves args fb w).served,
      λ args fb w. (erase_handler-Serves files sparse k args fb w).served,
      λ args fb w. (oem_cmd_mac-Serves args fb w).served,
      λ args fb w. (oem_cmd_otp-Serves args fb w).served,
    )
