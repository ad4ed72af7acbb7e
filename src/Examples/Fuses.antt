-- ===== src/Examples/Fuses.antt =====
-- A firmware with one MAC address and eight rows.
use rpi_fastbootd.Prelude.{
  ℕ, ◌+◌, ◌≡◌, refl, true, false, Option, some, List, [], ◌∷◌, ◌++◌, arith, ◌==◌, if◌then◌else◌,
  take,
}
use rpi_fastbootd.Prelude.Text.{codes, starts_with}
use rpi_fastbootd.Fastboot.Flash.{drop}
use rpi_fastbootd.Fastboot.Otp.Mac
use rpi_fastbootd.Fastboot.Otp.Mailbox
use rpi_fastbootd.Fastboot.Otp.{good, programmed}
use rpi_fastbootd.Fastboot.Otp.Mac.{
  Mac, ethernet, parse_mac, format_mac, mac_is_blank, validate_mac,
}
use rpi_fastbootd.Fastboot.Otp.Mac.Laws.{parse_mac-format_mac}
use rpi_fastbootd.Fastboot.Otp.Mailbox.{
  Firmware, word, after_header, get_customer_mac, set_customer_mac, tag_get_customer_mac,
  tag_set_customer_mac,
}
use rpi_fastbootd.Fastboot.Otp.Mailbox.Laws.{set_customer_mac_lem}
use rpi_fastbootd.Fastboot.Otp.Rows.{read_customer_otp, write_customer_otp, u32}
use rpi_fastbootd.Fastboot.Otp.Rows.Laws.{
  can_blow, write_customer_otp_lem, write_customer_otp-keeps,
}

record Fuses : Type 0 where
  low : ℕ
  high : ℕ
  rows : List ℕ

-- The buffer of a request that was handled, with this value.
abbrev reply : List ℕ → List ℕ → List ℕ
reply buf value =
    word buf 0
    ∷ 2147483648
    ∷ word buf 2
    ∷ word buf 3
    ∷ (2147483648 + word buf 3)
    ∷ (value ++ (0 ∷ []))

abbrev handle : List ℕ → Fuses → Option (List ℕ) × Fuses
handle buf w =
    if word buf 2 == tag_get_customer_mac
    then (some (reply buf (w.low ∷ w.high ∷ [])), w)
    else if word buf 2 == tag_set_customer_mac
    then (some (reply buf (0 ∷ 0 ∷ [])), record w { low = word buf 5; high = word buf 6 })
    else (
      some (reply buf []),
      record w { rows = take (word buf 6) (drop 2 (after_header buf)) ++ drop (word buf 6) w.rows },
    )

abbrev fuses : Firmware Fuses
fuses = record {
  exists = λ path w. false;
  open_file = λ path w. (some 3, w);
  close = λ fd w. w;
  ioctl = λ fd buf w. handle buf w;
  errno = λ w. 0;
  strerror = λ e. [];
  entries = λ path w. codes "nvmem_cust0" ∷ [];
  pread_rows = λ fd count start w. (some (take count (drop start w.rows)), w);
}

abbrev unprogrammed : Fuses
unprogrammed = record { low = 0; high = 0; rows = 0 ∷ 0 ∷ 0 ∷ 0 ∷ 0 ∷ 0 ∷ 0 ∷ 0 ∷ [] }

abbrev address : Mac
address = record { octet0 = 220; octet1 = 166; octet2 = 50; octet3 = 1; octet4 = 2; octet5 = 255 }

parse_mac-format_mac_example : parse_mac (format_mac address) ≡ good address
parse_mac-format_mac_example =
    parse_mac-format_mac address
      (omega arith, omega arith, omega arith, omega arith, omega arith, omega arith)

abbrev with_address : Fuses
with_address = record unprogrammed { low = 20096732; high = 65282 }

sets_address :
    set_customer_mac fuses ethernet address unprogrammed ≡ (good programmed, with_address)
unfolding Mac.mac_eq Mac.mac_from_words Mac.mac_to_words Mailbox.mac_tag_offset
    Mailbox.mbox_property Mailbox.replace_mac codes drop get_customer_mac read_customer_otp
    set_customer_mac starts_with validate_mac write_customer_otp
sets_address = refl

set_customer_mac_lem_example :
    (w0 : Fuses) × (get_customer_mac fuses ethernet w0 ≡ (good address, with_address))
set_customer_mac_lem_example =
    set_customer_mac_lem fuses ethernet address programmed unprogrammed with_address sets_address

abbrev key : List ℕ
key = 305419896 ∷ 2596069104 ∷ []

abbrev with_key : Fuses
with_key = record unprogrammed { rows = 305419896 ∷ 2596069104 ∷ 0 ∷ 0 ∷ 0 ∷ 0 ∷ 0 ∷ 0 ∷ [] }

writes_key : write_customer_otp fuses 0 key unprogrammed ≡ (good programmed, with_key)
unfolding Mailbox.mbox_property codes drop read_customer_otp starts_with write_customer_otp
writes_key = refl

write_customer_otp_lem_example :
    (w0 : Fuses) × (rows : List ℕ) × (read_customer_otp fuses 0 (u32 2) w0 ≡ (good rows, with_key))
    × (starts_with rows key ≡ true)
write_customer_otp_lem_example =
    write_customer_otp_lem fuses 0 key programmed unprogrammed with_key writes_key

-- The second row is taken.
reads_key : read_customer_otp fuses 1 (u32 1) with_key ≡ (good (2596069104 ∷ []), with_key)
unfolding read_customer_otp starts_with codes drop
reads_key = refl

is_blocked : can_blow (2596069104 ∷ []) (1 ∷ []) ≡ false
unfolding can_blow
is_blocked = refl

write_customer_otp-keeps_example : (write_customer_otp fuses 1 (1 ∷ []) with_key).1 ≡ with_key
write_customer_otp-keeps_example =
    write_customer_otp-keeps fuses 1 (1 ∷ []) (2596069104 ∷ []) with_key with_key reads_key
      is_blocked
