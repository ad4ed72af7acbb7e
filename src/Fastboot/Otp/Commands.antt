-- ===== src/Fastboot/Otp/Commands.antt =====
-- The commands `oem mac` and `oem otp` (fastboot/device/commands.cpp).
use rpi_fastbootd.Prelude.{
  ℕ, ◌+◌, Bool, true, false, not, ◌&&◌, Option, none, some, List, [], ◌∷◌, ◌++◌, if◌then◌else◌, u64,
  length,
}
use rpi_fastbootd.Prelude.Text.{Text, codes, text_eq, decimal}
use rpi_fastbootd.Prelude.Outcome.{Outcome}
use rpi_fastbootd.Idp.Device.Platform.{Parser}
use rpi_fastbootd.Fastboot.Transport.{Transport, Base, FastbootDevice, okay, fail}
use rpi_fastbootd.Fastboot.Transfer.{answer}
use rpi_fastbootd.Fastboot.Session.{Handler}
use rpi_fastbootd.Fastboot.Otp.{Result, good, bad, WriteOutcome, programmed, already_matches, hex32}
use rpi_fastbootd.Fastboot.Otp.Mac.{
  Mac, MacInterface, parse_mac_interface, mac_interface_name, parse_mac, format_mac, mac_is_blank,
  mac_is_ignored, validate_mac, mac_to_words,
}
use rpi_fastbootd.Fastboot.Otp.Mailbox.{Firmware, get_customer_mac, set_customer_mac}
use rpi_fastbootd.Fastboot.Otp.Rows.{read_customer_otp, write_customer_otp}

-- MAC_USAGE and OTP_USAGE
abbrev pub mac_usage : Text
mac_usage =
    codes
      "Usage:\r\n\toem mac get <ethernet|wifi|bluetooth>\r\n\toem mac check <aa:bb:cc:dd:ee:ff>\r\n\toem mac set <ethernet|wifi|bluetooth> <aa:bb:cc:dd:ee:ff>"

abbrev pub otp_usage : Text
otp_usage =
    codes
      "Usage:\r\n\toem otp get <row> [count]\r\n\toem otp set <row> <word> [word...]\r\nRows are indices into the eight-row customer region, not absolute OTP rows."

-- The reply to an address that was read
unfoldable pub mac_reply : Result Mac → Bool × Text
mac_reply (bad msg) = (false, codes "mac get: " ++ msg)
mac_reply (good mac) =
    if mac_is_blank mac
    then (true, codes "mac get: not programmed")
    else if mac_is_ignored mac
    then (true, codes "mac get: ff:ff:ff:ff:ff:ff, ignored by the bootloader")
    else (true, codes "mac get: " ++ format_mac mac)

abbrev pub check_valid : Mac → Option Text → Bool × Text
check_valid mac (some msg) = (false, codes "mac check: " ++ msg)
check_valid mac none =
    let (low, high) = mac_to_words mac in
    (
      true,
      codes "mac check: "
          ++ format_mac mac
          ++ codes " is a writable address (words "
          ++ hex32 low
          ++ codes " "
          ++ hex32 high
          ++ codes ")",
    )

-- `oem mac check`
unfoldable pub mac_check : Result Mac → Bool × Text
mac_check (bad msg) = (false, codes "mac check: " ++ msg)
mac_check (good mac) = check_valid mac (validate_mac mac)

-- The reply to an address that was to be written
unfoldable pub mac_set_reply : MacInterface → Mac → Result WriteOutcome → Bool × Text
mac_set_reply iface mac (bad msg) = (false, codes "mac set: " ++ msg)
mac_set_reply iface mac (good already_matches) = (
  true,
  codes "mac set: customer "
      ++ mac_interface_name iface
      ++ codes " MAC "
      ++ format_mac mac
      ++ codes " was already programmed",
)
mac_set_reply iface mac (good programmed) = (
  true,
  codes "mac set: customer "
      ++ mac_interface_name iface
      ++ codes " MAC "
      ++ format_mac mac
      ++ codes " programmed, effective after reset",
)

abbrev pub unknown_interface : Text → Text → Text
unknown_interface command name =
    command ++ codes ": unknown interface '" ++ name ++ codes "'. " ++ mac_usage

-- The rows, as `otp get` lists them
unfoldable pub rows_text : List ℕ → Text
rows_text [] = []
rows_text (row ∷ []) = hex32 row
rows_text (row ∷ next ∷ rows) = hex32 row ++ codes " " ++ rows_text (next ∷ rows)

unfoldable pub rows_reply : Result (List ℕ) → Bool × Text
unfolding rows_text
rows_reply (bad msg) = (false, codes "otp get: " ++ msg)
rows_reply (good rows) = (true, codes "otp get: " ++ rows_text rows)

abbrev pub verb : WriteOutcome → Text
verb already_matches = codes " already held the requested value"
verb programmed = codes " programmed"

-- The last row is computed in a size_t.
unfoldable pub otp_set_reply : ℕ → List ℕ → Result WriteOutcome → Bool × Text
otp_set_reply start values (bad msg) = (false, codes "otp set: " ++ msg)
otp_set_reply start values (good outcome) = (
  true,
  codes "otp set: customer rows "
      ++ decimal start
      ++ codes "-"
      ++ decimal (u64 (start + length values + 18446744073709551615))
      ++ verb outcome,
)

-- The values of `otp set`, or the argument that is none
unfoldable pub parse_values : Base → List Text → Result (List ℕ)
parse_values base [] = good []
parse_values base (arg ∷ args) =
    let rest = parse_values base args in
    elim (base.parse_uint arg 4294967295) [
      | none ↦ bad (codes "otp set: '" ++ arg ++ codes "' is not a 32-bit value. " ++ otp_usage)
      | some v ↦ elim rest [ good values ↦ good (v ∷ values) | bad msg ↦ bad msg ]
    ]

-- The count of `otp get`
unfoldable pub parse_count : Base → List Text → Result ℕ
parse_count base [] = good 1
parse_count base (arg ∷ args) = elim (base.parse_uint arg 4294967295) [
  | none ↦ bad (codes "otp get: '" ++ arg ++ codes "' is not a count. " ++ otp_usage)
  | some count ↦ good count
]

module _ {P : Parser} {World : Type 0} (t : Transport World) (base : Base)
    (fw : Firmware World) where
  -- WriteOkay or WriteFail
  abbrev pub tell : Bool × Text → FastbootDevice P → World → Outcome Bool × FastbootDevice P × World
  tell (true, msg) fb w = answer t okay msg fb w
  tell (false, msg) fb w = answer t fail msg fb w

  unfoldable pub mac_get : Text → Option MacInterface → Handler P World
  mac_get name none args fb w = answer t fail (unknown_interface (codes "mac get") name) fb w
  mac_get name (some iface) args fb w =
      let (mac, w1) = get_customer_mac fw iface w in tell (mac_reply mac) fb w1

  abbrev pub set_parsed : MacInterface → Result Mac → Handler P World
  set_parsed iface (bad msg) args fb w = answer t fail (codes "mac set: " ++ msg) fb w
  set_parsed iface (good mac) args fb w =
      let (done, w1) = set_customer_mac fw iface mac w in tell (mac_set_reply iface mac done) fb w1

  unfoldable pub mac_set : Text → Option MacInterface → Handler P World
  mac_set name iface [] fb w = answer t fail (codes "Insufficient arguments. " ++ mac_usage) fb w
  mac_set name none (address ∷ args) fb w =
      answer t fail (unknown_interface (codes "mac set") name) fb w
  mac_set name (some iface) (address ∷ args) fb w = set_parsed iface (parse_mac address) args fb w

  -- oem_cmd_mac
  unfoldable pub oem_cmd_mac : Handler P World
  unfolding mac_get mac_set
  oem_cmd_mac (oem ∷ command ∷ subcommand ∷ name ∷ args) fb w =
      if text_eq subcommand (codes "get")
      then mac_get name (parse_mac_interface name) args fb w
      else if text_eq subcommand (codes "check")
      then tell (mac_check (parse_mac name)) fb w
      else if text_eq subcommand (codes "set")
      then mac_set name (parse_mac_interface name) args fb w
      else answer t fail
          (codes "mac: unknown subcommand '" ++ subcommand ++ codes "'. " ++ mac_usage) fb w
  oem_cmd_mac args fb w = answer t fail (codes "Insufficient arguments. " ++ mac_usage) fb w

  unfoldable pub otp_get : ℕ → Result ℕ → Handler P World
  otp_get start (bad msg) args fb w = answer t fail msg fb w
  otp_get start (good count) args fb w =
      let (rows, w1) = read_customer_otp fw start count w in tell (rows_reply rows) fb w1

  abbrev pub set_values : ℕ → Result (List ℕ) → Handler P World
  set_values start (bad msg) args fb w = answer t fail msg fb w
  set_values start (good values) args fb w =
      let (done, w1) = write_customer_otp fw start values w in
      tell (otp_set_reply start values done) fb w1

  unfoldable pub otp_set : ℕ → Handler P World
  unfolding parse_values
  otp_set start [] fb w = answer t fail (codes "Insufficient arguments. " ++ otp_usage) fb w
  otp_set start (value ∷ args) fb w = set_values start (parse_values base (value ∷ args)) args fb w

  unfoldable pub otp_row : Text → Text → Option ℕ → Handler P World
  unfolding otp_get otp_set parse_count
  otp_row subcommand row none args fb w =
      answer t fail (codes "otp: '" ++ row ++ codes "' is not a row number. " ++ otp_usage) fb w
  otp_row subcommand row (some start) args fb w =
      if text_eq subcommand (codes "get")
      then otp_get start (parse_count base args) args fb w
      else otp_set start args fb w

  -- oem_cmd_otp
  unfoldable pub oem_cmd_otp : Handler P World
  unfolding otp_row
  oem_cmd_otp (oem ∷ command ∷ subcommand ∷ row ∷ args) fb w =
      if not (text_eq subcommand (codes "get")) && not (text_eq subcommand (codes "set"))
      then answer t fail
          (codes "otp: unknown subcommand '" ++ subcommand ++ codes "'. " ++ otp_usage) fb w
      else otp_row subcommand row (base.parse_uint row 4294967295) args fb w
  oem_cmd_otp args fb w = answer t fail (codes "Insufficient arguments. " ++ otp_usage) fb w
