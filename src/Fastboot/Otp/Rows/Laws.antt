-- ===== src/Fastboot/Otp/Rows/Laws.antt =====
-- What WriteCustomerOtp has done when it succeeds, and when it writes nothing.
use rpi_fastbootd.Prelude.{
  ℕ, ◌+◌, ◌≡◌, refl, subst, ◌≢◌, Bool, true, false, not, ◌&&◌, ◌||◌, Option, none, some, List, [],
  ◌∷◌, arith, ◌==◌, if-elim, length,
}
use rpi_fastbootd.Prelude.Text.{Text, starts_with}
use rpi_fastbootd.Fastboot.Otp.{Result, good, bad, WriteOutcome}
use rpi_fastbootd.Fastboot.Otp.Mailbox.{Firmware}
use rpi_fastbootd.Fastboot.Otp.Rows.{
  u32, read_customer_otp, compare_rows, mismatch, confirm, confirm_rows, after_row_write,
  write_rows, replace_rows, write_customer_otp,
}

starts_with-cons :
    (c v : ℕ) (s t : Text)
    → (c == v) ≡ true
    → starts_with s t ≡ true
    → starts_with (c ∷ s) (v ∷ t) ≡ true
unfolding starts_with
starts_with-cons c v s t same h = ground (arith, same, h)

starts_with_empty : (s : Text) → starts_with s [] ≡ true
unfolding starts_with
starts_with_empty [] = refl
starts_with_empty (c ∷ s) = refl

-- Each row that has another value than it is to have is blank.
unfoldable pub can_blow : List ℕ → List ℕ → Bool
can_blow current [] = true
can_blow [] (v ∷ values) = true
can_blow (c ∷ current) (v ∷ values) = (c == v || c == 0) && can_blow current values

-- When all rows match, they begin with the values.
abbrev AllMatch : List ℕ → List ℕ → Result Bool → Type 0
AllMatch current values (good true) = starts_with current values ≡ true
AllMatch current values (good false) = Unit
AllMatch current values (bad msg) = Unit

AllMatch-cons :
    (c v : ℕ) (current values : List ℕ) (r : Result Bool)
    → (c == v) ≡ true
    → AllMatch current values r
    → AllMatch (c ∷ current) (v ∷ values) r
AllMatch-cons c v current values (good true) same h = starts_with-cons c v current values same h
AllMatch-cons c v current values (good false) same h = tt
AllMatch-cons c v current values (bad msg) same h = tt

-- A row that did not match is not forgotten.
compare_rows-false :
    (row : ℕ) (current values : List ℕ) → compare_rows row current values false ≢ good true
unfolding compare_rows
compare_rows-false row current [] = λ e. cc e
compare_rows-false row [] (v ∷ values) = λ e. cc e
compare_rows-false row (c ∷ current) (v ∷ values) =
    if-elim (λ r. r ≢ good true) (c == v) (λ _. compare_rows-false (row + 1) current values)
      (λ _.
        if-elim (λ r. r ≢ good true) (not (c == 0)) (λ _ e. cc e)
          (λ _. compare_rows-false (row + 1) current values))

AllMatch-false :
    (current values : List ℕ) (r : Result Bool) → r ≢ good true → AllMatch current values r
AllMatch-false current values (good true) h = absurd (h refl)
AllMatch-false current values (good false) h = tt
AllMatch-false current values (bad msg) h = tt

compare_rows-AllMatch :
    (row : ℕ) (current values : List ℕ)
    → AllMatch current values (compare_rows row current values true)
unfolding compare_rows
compare_rows-AllMatch row current [] = starts_with_empty current
compare_rows-AllMatch row [] (v ∷ values) = tt
compare_rows-AllMatch row (c ∷ current) (v ∷ values) =
    if-elim (AllMatch (c ∷ current) (v ∷ values)) (c == v)
      (λ same.
        AllMatch-cons c v current values _ same (compare_rows-AllMatch (row + 1) current values))
      (λ _.
        if-elim (AllMatch (c ∷ current) (v ∷ values)) (not (c == 0)) (λ _. tt)
          (λ _. AllMatch-false _ _ _ (compare_rows-false (row + 1) current values)))

mismatch-none :
    (row : ℕ) (written values : List ℕ)
    → mismatch row written values ≡ none
    → starts_with written values ≡ true
unfolding mismatch
mismatch-none row written [] = λ e. starts_with_empty written
mismatch-none row [] (v ∷ values) = λ e. absurd (cc e)
mismatch-none row (c ∷ written) (v ∷ values) =
    if-elim (λ r. r ≡ none → starts_with (c ∷ written) (v ∷ values) ≡ true) (c == v)
      (λ same e.
        starts_with-cons c v written values same (mismatch-none (row + 1) written values e))
      (λ _ e. absurd (cc e))

-- Some other value is in the way.
abbrev IsRefused : Result Bool → Type 0
IsRefused (bad msg) = Unit
IsRefused (good all_match) = ⊥

compare_rows-IsRefused :
    (row : ℕ) (current values : List ℕ) (all_match : Bool)
    → can_blow current values ≡ false
    → IsRefused (compare_rows row current values all_match)
unfolding compare_rows can_blow
compare_rows-IsRefused row current [] all_match h = cc h
compare_rows-IsRefused row [] (v ∷ values) all_match h = cc h
compare_rows-IsRefused row (c ∷ current) (v ∷ values) all_match h =
    if-elim IsRefused (c == v)
      (λ same. compare_rows-IsRefused (row + 1) current values all_match (ground (arith, h, same)))
      (λ other.
        if-elim IsRefused (not (c == 0)) (λ _. tt)
          (λ blank.
            compare_rows-IsRefused (row + 1) current values false (ground (arith, h, blank))))

module _ {World : Type 0} (fw : Firmware World) (start : ℕ) (values : List ℕ) where
  -- The values were the last thing that was read.
  abbrev IsConfirmed : Result WriteOutcome × World → Type 0
  IsConfirmed (bad msg, w) = Unit
  IsConfirmed (good outcome, w) =
      (w0 : World) × (rows : List ℕ) × (read_customer_otp fw start (u32 (length values)) w0
        ≡ (good rows, w))
      × (starts_with rows values ≡ true)

  confirm-IsConfirmed :
      (w0 w : World) (rows : List ℕ) (m : Option Text)
      → read_customer_otp fw start (u32 (length values)) w0 ≡ (good rows, w)
      → (m ≡ none → starts_with rows values ≡ true)
      → IsConfirmed (confirm fw m w)
  confirm-IsConfirmed w0 w rows (some msg) e h = tt
  confirm-IsConfirmed w0 w rows none e h = (w0, rows, e, h refl)

  confirm_rows-IsConfirmed :
      (w0 : World) (r : Result (List ℕ) × World)
      → read_customer_otp fw start (u32 (length values)) w0 ≡ r
      → IsConfirmed (confirm_rows fw start values r)
  unfolding confirm_rows
  confirm_rows-IsConfirmed w0 (bad msg, w) e = tt
  confirm_rows-IsConfirmed w0 (good written, w) e =
      confirm-IsConfirmed w0 w written _ e (mismatch-none start written values)

  after_row_write-IsConfirmed :
      (r : Result (List ℕ) × World) → IsConfirmed (after_row_write fw start values r)
  unfolding after_row_write
  after_row_write-IsConfirmed (bad msg, w) = tt
  after_row_write-IsConfirmed (good value, w) = confirm_rows-IsConfirmed w _ refl

  write_rows-IsConfirmed :
      (w0 w : World) (current : List ℕ) (r : Result Bool)
      → read_customer_otp fw start (u32 (length values)) w0 ≡ (good current, w)
      → AllMatch current values r
      → IsConfirmed (write_rows fw start values r w)
  write_rows-IsConfirmed w0 w current (bad msg) e h = tt
  write_rows-IsConfirmed w0 w current (good true) e h = (w0, current, e, h)
  write_rows-IsConfirmed w0 w current (good false) e h = after_row_write-IsConfirmed _

  replace_rows-IsConfirmed :
      (w0 : World) (r : Result (List ℕ) × World)
      → read_customer_otp fw start (u32 (length values)) w0 ≡ r
      → IsConfirmed (replace_rows fw start values r)
  unfolding replace_rows
  replace_rows-IsConfirmed w0 (bad msg, w) e = tt
  replace_rows-IsConfirmed w0 (good current, w) e =
      write_rows-IsConfirmed w0 w current _ e (compare_rows-AllMatch start current values)

  -- When WriteCustomerOtp succeeds, whether it has programmed the rows or found them so, the last
  -- call of the firmware has read rows that begin with the values.
  pub write_customer_otp_lem :
      (outcome : WriteOutcome) (w w' : World)
      → write_customer_otp fw start values w ≡ (good outcome, w')
      → (w0 : World) × (rows : List ℕ) × (read_customer_otp fw start (u32 (length values)) w0
          ≡ (good rows, w'))
        × (starts_with rows values ≡ true)
  unfolding write_customer_otp
  write_customer_otp_lem outcome w w' e = subst IsConfirmed e (replace_rows-IsConfirmed w _ refl)

  write_rows-keeps :
      (r : Result Bool) (w : World) → IsRefused r → (write_rows fw start values r w).1 ≡ w
  write_rows-keeps (bad msg) w h = refl
  write_rows-keeps (good all_match) w h = absurd h

  -- WriteCustomerOtp writes nothing when some row holds another value than it is to have, and is
  -- not blank: the firmware is as the reading of the rows leaves it.
  pub write_customer_otp-keeps :
      (current : List ℕ) (w w' : World)
      → read_customer_otp fw start (u32 (length values)) w ≡ (good current, w')
      → can_blow current values ≡ false
      → (write_customer_otp fw start values w).1 ≡ w'
  unfolding write_customer_otp replace_rows
  write_customer_otp-keeps current w w' read blocked =
      rw read (write_rows-keeps _ w' (compare_rows-IsRefused start current values true blocked))
