-- ===== src/Fastboot/Otp/Rows.antt =====
-- The rows of the customer, read and written (fastboot/device/otp.cpp).
pub mod Laws
use rpi_fastbootd.Prelude.{
  ℕ, zero, suc, ◌+◌, ◌-◌, ◌*◌, ◌/◌, ◌%◌, ◌^◌, ◌≤◌, ◌<◌, ◌≡◌, refl, sym, ap, subst, ◌∙◌, fun_ext,
  ◌≢◌, ◌↔◌, ◌⊎◌, inl, inr, Bool, true, false, not, ◌&&◌, ◌||◌, Option, none, some, List, [], ◌∷◌,
  ◌++◌, map, append_assoc, append-nil, arith, ltb, leb, ◌==◌, if◌then◌else◌, ltb→lt, le→leb, ==_iff,
  Bool-cases, Option-cases, has_value, u64_mod, u64, if-elim, length, get_elem?, set, take,
  length-append, length-take, length-set, get_elem?-set_self, get_elem?-set_ne, get_elem?-lt-length,
  get_elem?-eq-none, ℕ_discrete,
}
use rpi_fastbootd.Prelude.Text.{
  Text, codes, text_eq, text_eq_sound, text_eq_refl, is_empty, is_digit, decimal, decimal_fuel,
  digits_value, digits_value-decimal, decimal-injective, to_lower, starts_with, contains,
  after_last_slash,
}
use rpi_fastbootd.Fastboot.Flash.{drop}
use rpi_fastbootd.Fastboot.Otp.{Result, good, bad, WriteOutcome, programmed, already_matches, hex32}
use rpi_fastbootd.Fastboot.Otp.Mailbox.{
  Firmware, mbox_property, write_device, customer_rows, tag_get_customer_otp, tag_set_customer_otp,
}

-- A uint32_t
abbrev pub u32 : ℕ → ℕ
u32 n = n % 4294967296

-- The first entry with this prefix, as a path of its rows
unfoldable pub find_nvmem : Text → List Text → Option Text
find_nvmem device [] = none
find_nvmem device (entry ∷ names) =
    if starts_with entry device
    then some (codes "/sys/bus/nvmem/devices/" ++ entry ++ codes "/nvmem")
    else find_nvmem device names

-- The rows of start to start + count - 1, for messages
abbrev pub last_row : ℕ → ℕ → ℕ
last_row start count = u32 (start + count + 4294967295)

module _ {World : Type 0} (fw : Firmware World) where
  abbrev pub read_and_close : ℕ → Option (List ℕ) × World → Option (List ℕ) × World
  read_and_close fd (rows, w) = (rows, fw.close fd w)

  abbrev pub read_opened : ℕ → ℕ → Option ℕ × World → Option (List ℕ) × World
  read_opened start count (none, w) = (none, w)
  read_opened start count (some fd, w) = read_and_close fd (fw.pread_rows fd count start w)

  abbrev pub read_path : ℕ → ℕ → Option Text → World → Option (List ℕ) × World
  read_path start count none w = (none, w)
  read_path start count (some path) w = read_opened start count (fw.open_file path w)

  -- ReadNvmemRows
  unfoldable pub read_nvmem_rows : Text → ℕ → ℕ → World → Option (List ℕ) × World
  unfolding find_nvmem
  read_nvmem_rows device start count w =
      read_path start count (find_nvmem device (fw.entries (codes "/sys/bus/nvmem/devices") w)) w

  -- ReadOtpRows
  unfoldable pub read_otp_rows : ℕ → ℕ → World → Option (List ℕ) × World
  unfolding read_nvmem_rows
  read_otp_rows start count w =
      if count == 0 then (none, w) else read_nvmem_rows (codes "nvmem_otp") start count w

  abbrev pub rows_of : ℕ → Result (List ℕ) × World → Result (List ℕ) × World
  rows_of count (bad msg, w) = (bad msg, w)
  rows_of count (good value, w) = (good (take count (drop 2 value)), w)

  -- ReadCustomerOtp from what nvmem gives
  unfoldable pub or_mailbox : ℕ → ℕ → Option (List ℕ) × World → Result (List ℕ) × World
  or_mailbox start count (some rows, w) = (good rows, w)
  or_mailbox start count (none, w) = rows_of count (
      mbox_property fw (codes "/dev/vcio") tag_get_customer_otp (8 + count * 4) (start ∷ count ∷ [])
        w)

  -- ReadCustomerOtp
  unfoldable pub read_customer_otp : ℕ → ℕ → World → Result (List ℕ) × World
  unfolding read_nvmem_rows or_mailbox
  read_customer_otp start count w =
      if count == 0
      then (bad (codes "asked for no rows"), w)
      else if leb customer_rows start || ltb (customer_rows - start) count
      then (
        bad (
            codes "rows "
            ++ decimal start
            ++ codes "-"
            ++ decimal (last_row start count)
            ++ codes " are outside the customer region, which is rows 0-"
            ++ decimal (customer_rows - 1)),
        w,
      )
      else or_mailbox start count (read_nvmem_rows (codes "nvmem_cust") start count w)

-- The rows that are there against the values: do all match, or does a row hold another value?
-- As many rows are read as there are values.
unfoldable pub compare_rows : ℕ → List ℕ → List ℕ → Bool → Result Bool
compare_rows row current [] all_match = good all_match
compare_rows row [] (v ∷ values) all_match = good false
compare_rows row (c ∷ current) (v ∷ values) all_match =
    if c == v
    then compare_rows (row + 1) current values all_match
    else if not (c == 0)
    then bad (
        codes "customer row "
        ++ decimal row
        ++ codes " already holds "
        ++ hex32 c
        ++ codes "; OTP bits cannot be cleared to write "
        ++ hex32 v)
    else compare_rows (row + 1) current values false

-- The message for the first row that does not read back as its value.
unfoldable pub mismatch : ℕ → List ℕ → List ℕ → Option Text
mismatch row written [] = none
mismatch row [] (v ∷ values) =
    some (codes "wrote " ++ hex32 v ++ codes " to customer row " ++ decimal row)
mismatch row (c ∷ written) (v ∷ values) =
    if c == v
    then mismatch (row + 1) written values
    else some (
        codes "wrote "
        ++ hex32 v
        ++ codes " to customer row "
        ++ decimal row
        ++ codes " but it reads back as "
        ++ hex32 c)

module _ {World : Type 0} (fw : Firmware World) where
  abbrev pub confirm : Option Text → World → Result WriteOutcome × World
  confirm (some msg) w = (bad msg, w)
  confirm none w = (good programmed, w)

  unfoldable pub confirm_rows : ℕ → List ℕ → Result (List ℕ) × World → Result WriteOutcome × World
  unfolding mismatch
  confirm_rows start values (bad msg, w) = (bad msg, w)
  confirm_rows start values (good written, w) = confirm (mismatch start written values) w

  unfoldable pub after_row_write :
      ℕ → List ℕ → Result (List ℕ) × World → Result WriteOutcome × World
  unfolding confirm_rows
  after_row_write start values (bad msg, w) = (bad msg, w)
  after_row_write start values (good value, w) =
      confirm_rows start values (read_customer_otp fw start (u32 (length values)) w)

  abbrev pub write_rows : ℕ → List ℕ → Result Bool → World → Result WriteOutcome × World
  write_rows start values (bad msg) w = (bad msg, w)
  write_rows start values (good true) w = (good already_matches, w)
  write_rows start values (good false) w = after_row_write start values (
      mbox_property fw (write_device fw w) tag_set_customer_otp (8 + u32 (length values) * 4)
        (start ∷ u32 (length values) ∷ values) w)

  -- WriteCustomerOtp from the rows that are there
  unfoldable pub replace_rows : ℕ → List ℕ → Result (List ℕ) × World → Result WriteOutcome × World
  unfolding after_row_write compare_rows
  replace_rows start values (bad msg, w) = (bad msg, w)
  replace_rows start values (good current, w) =
      write_rows start values (compare_rows start current values true) w

  -- WriteCustomerOtp
  unfoldable pub write_customer_otp : ℕ → List ℕ → World → Result WriteOutcome × World
  unfolding replace_rows
  write_customer_otp start values w =
      replace_rows start values (read_customer_otp fw start (u32 (length values)) w)
