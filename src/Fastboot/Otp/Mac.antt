-- ===== src/Fastboot/Otp/Mac.antt =====
-- MAC addresses: ParseMac, FormatMac, ValidateMac and the words of the mailbox
-- (fastboot/device/otp.cpp).
pub mod Laws
use rpi_fastbootd.Prelude.{
  ℕ, zero, suc, ◌+◌, ◌-◌, ◌*◌, ◌/◌, ◌%◌, ◌^◌, ◌≤◌, ◌<◌, ◌≡◌, refl, sym, ap, subst, ◌∙◌, fun_ext,
  ◌≢◌, ◌↔◌, ◌⊎◌, inl, inr, Bool, true, false, not, ◌&&◌, ◌||◌, Option, none, some, List, [], ◌∷◌,
  ◌++◌, map, append_assoc, append-nil, arith, ltb, leb, ◌==◌, if◌then◌else◌, ltb→lt, le→leb, ==_iff,
  Bool-cases, Option-cases, has_value, u64_mod, u64, if-elim, length, get_elem?, set, take,
  length-append, length-take, length-set, get_elem?-set_self, get_elem?-set_ne, get_elem?-lt-length,
  get_elem?-eq-none, ℕ_discrete,
}
use rpi_fastbootd.Prelude.Text.{
  Text, codes, text_eq, text_eq_sound, text_eq_refl, is_empty, is_digit, decimal, decimal_fuel,
  digits_value, digits_value-decimal, decimal-injective, to_lower, starts_with, contains,
  after_last_slash,
}
use rpi_fastbootd.Fastboot.Transfer.{hex_digits}
use rpi_fastbootd.Fastboot.Otp.{Result, good, bad, then_result}

pub data MacInterface : Type 0 where
  ethernet wifi bluetooth : MacInterface

-- Six octets
pub record Mac : Type 0 where
  pub octet0 : ℕ
  pub octet1 : ℕ
  pub octet2 : ℕ
  pub octet3 : ℕ
  pub octet4 : ℕ
  pub octet5 : ℕ

-- ParseMacInterface
unfoldable pub parse_mac_interface : Text → Option MacInterface
parse_mac_interface name =
    if text_eq name (codes "ethernet") || text_eq name (codes "eth")
    then some ethernet
    else if text_eq name (codes "wifi") || text_eq name (codes "wlan")
    then some wifi
    else if text_eq name (codes "bluetooth") || text_eq name (codes "bt")
    then some bluetooth
    else none

-- MacInterfaceName
unfoldable pub mac_interface_name : MacInterface → Text
mac_interface_name wifi = codes "wifi"
mac_interface_name bluetooth = codes "bluetooth"
mac_interface_name ethernet = codes "ethernet"

-- HexDigit
unfoldable pub hex_digit : ℕ → Option ℕ
hex_digit c =
    if leb 48 c && leb c 57
    then some (c - 48)
    else if leb 97 c && leb c 102
    then some (c - 97 + 10)
    else if leb 65 c && leb c 70
    then some (c - 65 + 10)
    else none

abbrev pub octet_of : Option ℕ → Option ℕ → Option ℕ
octet_of (some high) (some low) = some (high * 16 + low)
octet_of _ _ = none

abbrev pub octet_or : Text → Option ℕ → Result ℕ
octet_or text (some octet) = good octet
octet_or text none = bad (codes "'" ++ text ++ codes "' has a non-hexadecimal octet")

-- An octet of the address
unfoldable pub parse_octet : Text → ℕ → ℕ → Result ℕ
unfolding hex_digit
parse_octet text high low = octet_or text (octet_of (hex_digit high) (hex_digit low))

-- An octet behind its separator
unfoldable pub next_octet : Text → ℕ → ℕ → ℕ → ℕ → Result ℕ
unfolding parse_octet
next_octet text separator found high low =
    if not (found == separator)
    then bad (codes "'" ++ text ++ codes "' has inconsistent separators")
    else parse_octet text high low

-- ParseMac
unfoldable pub parse_mac : Text → Result Mac
unfolding parse_octet next_octet
parse_mac
      (a ∷ a' ∷ sep ∷ b ∷ b' ∷ sep1 ∷ c ∷ c' ∷ sep2 ∷ d ∷ d' ∷ sep3 ∷ e ∷ e' ∷ sep4 ∷ f ∷ f' ∷ []) =
    let text =
      a ∷ a' ∷ sep ∷ b ∷ b' ∷ sep1 ∷ c ∷ c' ∷ sep2 ∷ d ∷ d' ∷ sep3 ∷ e ∷ e' ∷ sep4 ∷ f ∷ f' ∷ [] in
    if not (sep == b':') && not (sep == b'-')
    then bad (codes "'" ++ text ++ codes "' is not separated by ':' or '-'")
    else then_result (parse_octet text a a') λ o0. then_result (next_octet text sep sep b b') λ o1.
      then_result (next_octet text sep sep1 c c') λ o2.
        then_result (next_octet text sep sep2 d d') λ o3.
          then_result (next_octet text sep sep3 e e') λ o4.
            then_result (next_octet text sep sep4 f f') λ o5. good record {
              octet0 = o0;
              octet1 = o1;
              octet2 = o2;
              octet3 = o3;
              octet4 = o4;
              octet5 = o5;
            }
parse_mac text = bad (codes "'" ++ text ++ codes "' is not a MAC address; wanted aa:bb:cc:dd:ee:ff")

-- FormatMac
unfoldable pub format_mac : Mac → Text
format_mac m =
    hex_digits 2 m.octet0
    ++ b':' ∷ hex_digits 2 m.octet1
    ++ b':' ∷ hex_digits 2 m.octet2
    ++ b':' ∷ hex_digits 2 m.octet3
    ++ b':' ∷ hex_digits 2 m.octet4
    ++ b':' ∷ hex_digits 2 m.octet5

abbrev pub all_octets : (ℕ → Bool) → Mac → Bool
all_octets test m =
    test m.octet0
    && test m.octet1
    && test m.octet2
    && test m.octet3
    && test m.octet4
    && test m.octet5

-- MacIsBlank
unfoldable pub mac_is_blank : Mac → Bool
mac_is_blank m = all_octets (λ o. o == 0) m

-- MacIsIgnored
unfoldable pub mac_is_ignored : Mac → Bool
mac_is_ignored m = all_octets (λ o. o == 255) m

-- ValidateMac: what is wrong with the address
unfoldable pub validate_mac : Mac → Option Text
unfolding mac_is_blank mac_is_ignored
validate_mac m =
    if mac_is_blank m
    then some (codes "00:00:00:00:00:00 is how an unprogrammed row reads")
    else if mac_is_ignored m
    then some (codes "ff:ff:ff:ff:ff:ff is ignored by the bootloader")
    else if m.octet0 % 2 == 1
    then some (format_mac m ++ codes " is a multicast address")
    else none

-- MacToWords
unfoldable pub mac_to_words : Mac → ℕ × ℕ
mac_to_words m =
    (m.octet0 + m.octet1 * 256 + m.octet2 * 65536 + m.octet3 * 16777216, m.octet4 + m.octet5 * 256)

-- MacFromWords
unfoldable pub mac_from_words : ℕ × ℕ → Mac
mac_from_words (low, high) = record {
  octet0 = low % 256;
  octet1 = low / 256 % 256;
  octet2 = low / 65536 % 256;
  octet3 = low / 16777216 % 256;
  octet4 = high % 256;
  octet5 = high / 256 % 256;
}

-- operator== of std::array
unfoldable pub mac_eq : Mac → Mac → Bool
mac_eq m n =
    m.octet0 == n.octet0
    && m.octet1 == n.octet1
    && m.octet2 == n.octet2
    && m.octet3 == n.octet3
    && m.octet4 == n.octet4
    && m.octet5 == n.octet5
