-- ===== src/Fastboot/Otp/Mailbox.antt =====
-- The properties of the firmware that the mailbox gives, and the writers on them
-- (fastboot/device/otp.cpp).
pub mod Laws
use rpi_fastbootd.Prelude.{
  ℕ, zero, suc, ◌+◌, ◌-◌, ◌*◌, ◌/◌, ◌%◌, ◌^◌, ◌≤◌, ◌<◌, ◌≡◌, refl, sym, ap, subst, ◌∙◌, fun_ext,
  ◌≢◌, ◌↔◌, ◌⊎◌, inl, inr, Bool, true, false, not, ◌&&◌, ◌||◌, Option, none, some, List, [], ◌∷◌,
  ◌++◌, map, append_assoc, append-nil, arith, ltb, leb, ◌==◌, if◌then◌else◌, ltb→lt, le→leb, ==_iff,
  Bool-cases, Option-cases, has_value, u64_mod, u64, if-elim, length, get_elem?, set, take,
  length-append, length-take, length-set, get_elem?-set_self, get_elem?-set_ne, get_elem?-lt-length,
  get_elem?-eq-none, ℕ_discrete,
}
use rpi_fastbootd.Prelude.Text.{
  Text, codes, text_eq, text_eq_sound, text_eq_refl, is_empty, is_digit, decimal, decimal_fuel,
  digits_value, digits_value-decimal, decimal-injective, to_lower, starts_with, contains,
  after_last_slash,
}
use rpi_fastbootd.Fastboot.Otp.{
  Result, good, bad, then_result, WriteOutcome, programmed, already_matches, hex32,
}
use rpi_fastbootd.Fastboot.Transfer.{resize}
use rpi_fastbootd.Fastboot.Otp.Mac.{
  Mac, MacInterface, ethernet, wifi, bluetooth, mac_interface_name, format_mac, mac_is_blank,
  validate_mac, mac_to_words, mac_from_words, mac_eq,
}

-- The system calls on the mailbox and on nvmem. ioctl and pread give none when they fail; ioctl
-- gives the buffer as the firmware leaves it.
pub record Firmware (World : Type 0) : Type 0 where
  pub exists : Text → World → Bool
  pub open_file : Text → World → Option ℕ × World
  pub close : ℕ → World → World
  pub ioctl : ℕ → List ℕ → World → Option (List ℕ) × World
  pub errno : World → ℕ
  pub strerror : ℕ → Text
  -- the entries of a directory, in the order of readdir
  pub entries : Text → World → List Text
  -- this many rows from a row on
  pub pread_rows : ℕ → ℕ → ℕ → World → Option (List ℕ) × World

abbrev pub request_succeeded : ℕ
request_succeeded = 2147483648

abbrev pub tag_get_customer_otp : ℕ
tag_get_customer_otp = 196641

abbrev pub tag_set_customer_otp : ℕ
tag_set_customer_otp = 229409

abbrev pub tag_get_customer_mac : ℕ
tag_get_customer_mac = 196738

abbrev pub tag_set_customer_mac : ℕ
tag_set_customer_mac = 229506

abbrev pub customer_rows : ℕ
customer_rows = 8

-- MacTagOffset
unfoldable pub mac_tag_offset : MacInterface → ℕ
mac_tag_offset wifi = 1
mac_tag_offset bluetooth = 2
mac_tag_offset ethernet = 0

-- A word of a buffer
abbrev pub word : List ℕ → ℕ → ℕ
word buf i = elim (get_elem? buf i) [ none ↦ 0 | some x ↦ x ]

abbrev pub after_header : List ℕ → List ℕ
after_header (_ ∷ _ ∷ _ ∷ _ ∷ _ ∷ value) = value
after_header buf = []

-- The request for a tag
unfoldable pub request : ℕ → ℕ → List ℕ → List ℕ
request tag value_bytes value =
    (length value + 6) * 4 ∷ 0 ∷ tag ∷ value_bytes ∷ value_bytes ∷ (value ++ 0 ∷ [])

-- What the reply says of the tag
unfoldable pub check_reply : ℕ → ℕ → List ℕ → Result (List ℕ)
check_reply tag value_words buf =
    if not (word buf 1 == request_succeeded)
    then bad (
        codes "firmware rejected tag "
        ++ hex32 tag
        ++ codes " (status "
        ++ hex32 (word buf 1)
        ++ codes ")")
    else if not (word buf 4 / request_succeeded % 2 == 1)
    then bad (
        codes "firmware does not implement tag "
        ++ hex32 tag
        ++ codes "; this SoC or bootloader does not support it")
    else good (take value_words (after_header buf))

module _ {World : Type 0} (fw : Firmware World) where
  abbrev pub after_ioctl : ℕ → ℕ → ℕ → Option (List ℕ) × World → Result (List ℕ) × World
  after_ioctl tag words fd (none, w) = (
    bad (
        codes "mailbox ioctl for tag "
        ++ hex32 tag
        ++ codes " failed: "
        ++ fw.strerror (fw.errno w)),
    fw.close fd w,
  )
  after_ioctl tag words fd (some buf, w) = (check_reply tag words buf, fw.close fd w)

  abbrev pub on_device : Text → ℕ → ℕ → List ℕ → Option ℕ × World → Result (List ℕ) × World
  on_device device tag words buf (none, w) =
      (bad (codes "cannot open " ++ device ++ codes ": " ++ fw.strerror (fw.errno w)), w)
  on_device device tag words buf (some fd, w) = after_ioctl tag words fd (fw.ioctl fd buf w)

  -- MboxProperty
  unfoldable pub mbox_property : Text → ℕ → ℕ → List ℕ → World → Result (List ℕ) × World
  unfolding resize request check_reply
  mbox_property device tag value_bytes value w =
      let value_words = (value_bytes + 3) / 4 in
      on_device device tag value_words (request tag value_bytes (resize value_words value))
        (fw.open_file device w)

  -- WriteDevice
  unfoldable pub write_device : World → Text
  write_device w =
      if fw.exists (codes "/dev/vcio_provisioning") w
      then codes "/dev/vcio_provisioning"
      else codes "/dev/vcio"

  abbrev pub read_mac : Result (List ℕ) × World → Result Mac × World
  read_mac (bad msg, w) = (bad msg, w)
  read_mac (good value, w) = (good (mac_from_words (word value 0, word value 1)), w)

  -- GetCustomerMac
  unfoldable pub get_customer_mac : MacInterface → World → Result Mac × World
  unfolding mbox_property
  get_customer_mac iface w = read_mac (
      mbox_property (codes "/dev/vcio") (tag_get_customer_mac + mac_tag_offset iface) 6 (0 ∷ 0 ∷ [])
        w)

  -- SetCustomerMac from the address that is read back
  unfoldable pub confirm_mac : Mac → Result Mac × World → Result WriteOutcome × World
  confirm_mac mac (bad msg, w) = (bad msg, w)
  confirm_mac mac (good written, w) = if mac_eq written mac then (good programmed, w) else (
    bad (
        codes "wrote "
        ++ format_mac mac
        ++ codes " but the row reads back as "
        ++ format_mac written),
    w,
  )

  unfoldable pub after_write :
      MacInterface → Mac → Result (List ℕ) × World → Result WriteOutcome × World
  unfolding confirm_mac
  after_write iface mac (bad msg, w) = (bad msg, w)
  after_write iface mac (good value, w) = confirm_mac mac (get_customer_mac iface w)

  -- SetCustomerMac from the address that is there
  unfoldable pub replace_mac : MacInterface → Mac → Result Mac × World → Result WriteOutcome × World
  unfolding after_write
  replace_mac iface mac (bad msg, w) = (bad msg, w)
  replace_mac iface mac (good current, w) =
      let (low, high) = mac_to_words mac in
      if mac_eq current mac
      then (good already_matches, w)
      else if not (mac_is_blank current)
      then (
        bad (
            codes "customer "
            ++ mac_interface_name iface
            ++ codes " MAC is already programmed as "
            ++ format_mac current
            ++ codes "; OTP bits cannot be cleared to write "
            ++ format_mac mac),
        w,
      )
      else after_write iface mac (
          mbox_property (write_device w) (tag_set_customer_mac + mac_tag_offset iface) 6
            (low ∷ high ∷ []) w)

  abbrev pub if_valid : MacInterface → Mac → Option Text → World → Result WriteOutcome × World
  if_valid iface mac (some msg) w = (bad msg, w)
  if_valid iface mac none w = replace_mac iface mac (get_customer_mac iface w)

  -- SetCustomerMac
  unfoldable pub set_customer_mac : MacInterface → Mac → World → Result WriteOutcome × World
  set_customer_mac iface mac w = if_valid iface mac (validate_mac mac) w
