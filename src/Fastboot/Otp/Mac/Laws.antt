-- ===== src/Fastboot/Otp/Mac/Laws.antt =====
-- Addresses are read back as they are written.
use rpi_fastbootd.Prelude.{
  ℕ, ◌+◌, ◌/◌, ◌%◌, ◌<◌, ◌≡◌, refl, ap, ◌∙◌, true, some, arith, ltb, if◌then◌else◌,
}
use rpi_fastbootd.Prelude.Text.{Text}
use rpi_fastbootd.Fastboot.Transfer.{hex_digits}
use rpi_fastbootd.Fastboot.Otp.{good}
use rpi_fastbootd.Fastboot.Otp.Mac.{
  Mac, hex_digit, octet_of, octet_or, parse_octet, next_octet, parse_mac, format_mac, mac_to_words,
  mac_from_words, mac_eq,
}

-- Each octet is a byte.
abbrev pub AreOctets : Mac → Type 0
AreOctets m =
    (m.octet0 < 256)
    × (m.octet1 < 256)
    × (m.octet2 < 256)
    × (m.octet3 < 256)
    × (m.octet4 < 256)
    × (m.octet5 < 256)

-- A digit as hex_digits writes it.
abbrev digit : ℕ → ℕ
digit n = if ltb n 10 then 48 + n else 87 + n

hex_digit-digit : (n : ℕ) → n < 16 → hex_digit (digit n) ≡ some n
unfolding hex_digit
hex_digit-digit n h = ground arith

parse_octet-digits :
    (text : Text) (n : ℕ)
    → n < 256
    → parse_octet text (digit (n / 16 % 16)) (digit (n % 16)) ≡ good n
unfolding parse_octet
parse_octet-digits text n h =
    ap (λ o. octet_or text o)
      (ap (λ x. octet_of x (hex_digit (digit (n % 16))))
          (hex_digit-digit (n / 16 % 16) (omega arith))
        ∙ ap (octet_of (some (n / 16 % 16))) (hex_digit-digit (n % 16) (omega arith))
        ∙ ap some (omega arith))

next_octet-digits :
    (text : Text) (n : ℕ)
    → n < 256
    → next_octet text b':' b':' (digit (n / 16 % 16)) (digit (n % 16)) ≡ good n
unfolding next_octet
next_octet-digits text n h = parse_octet-digits text n h

-- ParseMac reads back every address as FormatMac writes it.
pub parse_mac-format_mac : (m : Mac) → AreOctets m → parse_mac (format_mac m) ≡ good m
unfolding parse_mac format_mac hex_digits
parse_mac-format_mac m (h0, h1, h2, h3, h4, h5) =
    rw
      (
        parse_octet-digits _ m.octet0 h0,
        next_octet-digits _ m.octet1 h1,
        next_octet-digits _ m.octet2 h2,
        next_octet-digits _ m.octet3 h3,
        next_octet-digits _ m.octet4 h4,
        next_octet-digits _ m.octet5 h5,
      )
      refl

mac_ext :
    (m n : Mac)
    → m.octet0 ≡ n.octet0
    → m.octet1 ≡ n.octet1
    → m.octet2 ≡ n.octet2
    → m.octet3 ≡ n.octet3
    → m.octet4 ≡ n.octet4
    → m.octet5 ≡ n.octet5
    → m ≡ n
mac_ext m n e0 e1 e2 e3 e4 e5 = cc (e0, e1, e2, e3, e4, e5)

-- MacFromWords takes the words that MacToWords makes of an address back to the address.
pub mac_from_words-mac_to_words : (m : Mac) → AreOctets m → mac_from_words (mac_to_words m) ≡ m
unfolding mac_from_words mac_to_words
mac_from_words-mac_to_words m (h0, h1, h2, h3, h4, h5) =
    mac_ext _ m (omega arith) (omega arith) (omega arith) (omega arith) (omega arith) (omega arith)

pub mac_eq-eq : (m n : Mac) → mac_eq m n ≡ true → m ≡ n
unfolding mac_eq
mac_eq-eq m n h =
    mac_ext m n (ground arith) (ground arith) (ground arith) (ground arith) (ground arith)
      (ground arith)
