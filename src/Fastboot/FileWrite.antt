-- ===== src/Fastboot/FileWrite.antt =====
-- Writing a staged file (fastboot/device/file_write.cpp), and oem_cmd_download_file
-- (fastboot/device/commands.cpp).
pub mod Laws
pub mod Ends
use rpi_fastbootd.Prelude.{
  ℕ, zero, suc, ◌+◌, ◌-◌, ◌*◌, ◌/◌, ◌%◌, ◌^◌, ◌≤◌, ◌<◌, ◌≡◌, refl, sym, ap, subst, ◌∙◌, fun_ext,
  ◌≢◌, ◌↔◌, ◌⊎◌, inl, inr, Bool, true, false, not, ◌&&◌, ◌||◌, Option, none, some, List, [], ◌∷◌,
  ◌++◌, map, append_assoc, append-nil, arith, ltb, leb, ◌==◌, if◌then◌else◌, ltb→lt, le→leb, ==_iff,
  Bool-cases, Option-cases, has_value, u64_mod, u64, if-elim, length, get_elem?, set, take,
  length-append, length-take, length-set, get_elem?-set_self, get_elem?-set_ne, get_elem?-lt-length,
  get_elem?-eq-none, ℕ_discrete,
}
use rpi_fastbootd.Prelude.Text.{
  Text, codes, text_eq, text_eq_sound, text_eq_refl, is_empty, is_digit, decimal, decimal_fuel,
  digits_value, digits_value-decimal, decimal-injective, to_lower, starts_with, contains,
  after_last_slash,
}
use rpi_fastbootd.Prelude.Outcome.{
  Outcome, Outcome-cases, Fault, ok, throw, deref, overflow_error, invalid_argument, out_of_range,
  logic_error, div_by_zero, bad_optional, runtime_error, stack_exhausted, ◌>>=◌, ◌>>◌,
}
use rpi_fastbootd.Idp.Device.Platform.{Parser}
use rpi_fastbootd.Fastboot.Transport.{Transport, FastbootDevice, okay, fail}
use rpi_fastbootd.Fastboot.Transfer.{answer}
use rpi_fastbootd.Fastboot.Flash.{drop}

-- The system calls on the file; a descriptor or a count is none where the call gives -1, and a
-- Boolean says whether the call has given 0.
pub record FileSystem (World : Type 0) : Type 0 where
  -- open to write, with O_CREAT and O_TRUNC, and a mode
  pub create : Text → ℕ → World → Option ℕ × World
  pub fchmod : ℕ → ℕ → World → Bool × World
  -- st_mode & 07777 as fstat gives it
  pub fstat_mode : ℕ → World → Option ℕ × World
  pub write : ℕ → Text → World → Option ℕ × World
  pub fsync : ℕ → World → Bool × World
  pub close : ℕ → World → Bool × World
  pub errno : World → ℕ
  pub strerror : ℕ → Text

abbrev pub eintr : ℕ
eintr = 4

abbrev pub eio : ℕ
eio = 5

abbrev pub einval : ℕ
einval = 22

-- The octal digits, behind those that have been read.
unfoldable pub octal_from : ℕ → Text → Option ℕ
octal_from mode [] = some mode
octal_from mode (c ∷ text) =
    let rest = octal_from (mode * 8 + (c - 48)) text in if ltb c 48 || ltb 55 c then none else rest

abbrev pub up_to_0777 : Option ℕ → Option ℕ
up_to_0777 none = none
up_to_0777 (some mode) = if ltb 511 mode then none else some mode

-- ParseMode
unfoldable pub parse_mode : Text → Option ℕ
unfolding octal_from
parse_mode text =
    if is_empty text || ltb 4 (length text) then none else up_to_0777 (octal_from 0 text)

abbrev pub mode_error : Text → Text
mode_error path = codes "Cannot set mode on " ++ path ++ codes ": the filesystem does not keep it"

abbrev pub is_mode : Option ℕ → ℕ → Bool
is_mode none mode = false
is_mode (some m) mode = m == mode

abbrev pub mode_or_0666 : Option ℕ → ℕ
mode_or_0666 none = 438
mode_or_0666 (some mode) = mode

module _ {World : Type 0} (fs : FileSystem World) where
  -- A failure, after the file has been closed.
  abbrev pub close_failed : Text → ℕ → World → Option Text × World
  close_failed msg fd w = (some msg, (fs.close fd w).1)

  -- fchmod, and the mode read back
  unfoldable pub set_mode : Text → ℕ → Option ℕ → World → Option Text × World
  set_mode path fd none w = (none, w)
  set_mode path fd (some mode) w =
      let (changed, w1) = fs.fchmod fd mode w in
      let (found, w2) = fs.fstat_mode fd w1 in
      if not changed
      then close_failed (mode_error path) fd w1
      else if not (is_mode found mode)
      then close_failed (mode_error path) fd w2
      else (none, w2)

  abbrev pub write_error : Text → ℕ → ℕ → World → Option Text × World
  write_error path e fd w =
      close_failed (codes "Write failed on " ++ path ++ codes ": " ++ fs.strerror e) fd w

  -- How the loop goes on after a write: with the same bytes when it was interrupted, or with what
  -- is left.
  abbrev pub after_write :
      Text
      → ℕ
      → World
      → Option (Option Text × World)
      → (ℕ → Option (Option Text × World))
      → Option ℕ
      → Option (Option Text × World)
  after_write path fd w again rest none =
      if fs.errno w == eintr then again else some (write_error path (fs.errno w) fd w)
  after_write path fd w again rest (some k) =
      if k == 0 then some (write_error path eio fd w) else rest k

  -- The loop over what is left of the data, as far as the fuel: a write may be interrupted again
  -- and again.
  unfoldable pub write_all : ℕ → Text → ℕ → Text → World → Option (Option Text × World)
  write_all fuel path fd [] w = some (none, w)
  write_all zero path fd (c ∷ bytes) w = none
  write_all (suc fuel) path fd (c ∷ bytes) w =
      let (n, w1) = fs.write fd (c ∷ bytes) w in
      after_write path fd w1 (write_all fuel path fd (c ∷ bytes) w1)
        (λ k. write_all fuel path fd (drop k (c ∷ bytes)) w1) n

  -- fsync and close
  unfoldable pub finish_file : Text → ℕ → World → Option Text × World
  finish_file path fd w =
      let (synced, w1) = fs.fsync fd w in
      let (closed, w2) = fs.close fd w1 in
      if not synced && not (fs.errno w1 == einval)
      then close_failed (codes "Sync failed on " ++ path ++ codes ": " ++ fs.strerror (fs.errno w1))
          fd w1
      else if not closed
      then (some (codes "Close failed on " ++ path ++ codes ": " ++ fs.strerror (fs.errno w2)), w2)
      else (none, w2)

  abbrev pub after_data : Text → ℕ → Option (Option Text × World) → Option (Option Text × World)
  after_data path fd none = none
  after_data path fd (some (some msg, w)) = some (some msg, w)
  after_data path fd (some (none, w)) = some (finish_file path fd w)

  abbrev pub after_mode : ℕ → Text → ℕ → Text → Option Text × World → Option (Option Text × World)
  after_mode fuel path fd bytes (some msg, w) = some (some msg, w)
  after_mode fuel path fd bytes (none, w) = after_data path fd (write_all fuel path fd bytes w)

  abbrev pub after_create :
      ℕ → Text → Text → Option ℕ → Option ℕ × World → Option (Option Text × World)
  after_create fuel path bytes mode (none, w) =
      some (some (codes "Error opening file, ERRNO: " ++ decimal (fs.errno w)), w)
  after_create fuel path bytes mode (some fd, w) =
      after_mode fuel path fd bytes (set_mode path fd mode w)

  -- WriteFile: none where Result::Ok is, or the message of Result::Fail
  unfoldable pub write_file : ℕ → Text → Text → Option ℕ → World → Option (Option Text × World)
  unfolding set_mode write_all finish_file
  write_file fuel path bytes mode w =
      if length bytes == 0
      then some (some (codes "Buffer size zero. Check file was successfully staged"), w)
      else after_create fuel path bytes mode (fs.create path (mode_or_0666 mode) w)

module _ {P : Parser} {World : Type 0} (t : Transport World) (fs : FileSystem World) where
  abbrev pub after_file :
      Option (Option Text × World)
      → FastbootDevice P
      → Option (Outcome Bool × FastbootDevice P × World)
  after_file none fb = none
  after_file (some (some msg, w)) fb = some (answer t fail msg fb w)
  after_file (some (none, w)) fb =
      some (answer t okay (codes "Write Successful!") (record fb { download_data = [] }) w)

  -- oem_cmd_download_file with a path, and a mode if one is given
  unfoldable pub write_staged :
      ℕ
      → Text
      → List Text
      → FastbootDevice P
      → World
      → Option (Outcome Bool × FastbootDevice P × World)
  unfolding write_file parse_mode
  write_staged fuel path [] fb w = after_file (write_file fs fuel path fb.download_data none w) fb
  write_staged fuel path (mode ∷ args) fb w = elim (parse_mode mode) [
    | none ↦
        some (answer t fail (codes "Invalid mode '" ++ mode ++ codes "': octal, at most 0777") fb w)
    | some m ↦ after_file (write_file fs fuel path fb.download_data (some m) w) fb
  ]

  -- oem_cmd_download_file, as far as the fuel
  unfoldable pub oem_cmd_download_file :
      ℕ → List Text → FastbootDevice P → World → Option (Outcome Bool × FastbootDevice P × World)
  unfolding write_staged
  oem_cmd_download_file fuel (oem ∷ command ∷ path ∷ args) fb w = write_staged fuel path args fb w
  oem_cmd_download_file fuel args fb w = some (
      answer t fail
        (codes "Invalid argument count. Wanted oem download-file <path-to-destination> [mode]") fb
        w)
