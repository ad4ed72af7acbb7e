-- ===== src/Idp/Keys.antt =====
-- rpiidp/src/crypt.cpp, as built into fastbootd: the key files, and the operations of IDPluks.
pub mod FileMap
pub mod Cryptsetup
pub mod Secrecy
pub mod Unlock
use rpi_fastbootd.Prelude.{
  ℕ, zero, suc, ◌+◌, ◌-◌, ◌*◌, ◌/◌, ◌%◌, ◌^◌, ◌≤◌, ◌<◌, ◌≡◌, refl, sym, ap, subst, ◌∙◌, fun_ext,
  ◌≢◌, ◌↔◌, ◌⊎◌, inl, inr, Bool, true, false, not, ◌&&◌, ◌||◌, Option, none, some, List, [], ◌∷◌,
  ◌++◌, map, append_assoc, append-nil, arith, ltb, leb, ◌==◌, if◌then◌else◌, ltb→lt, le→leb, ==_iff,
  Bool-cases, Option-cases, has_value, u64_mod, u64, if-elim, length, get_elem?, set, take,
  length-append, length-take, length-set, get_elem?-set_self, get_elem?-set_ne, get_elem?-lt-length,
  get_elem?-eq-none, ℕ_discrete,
}
use rpi_fastbootd.Prelude.Text.{
  Text, codes, text_eq, text_eq_sound, text_eq_refl, is_empty, is_digit, decimal, decimal_fuel,
  digits_value, digits_value-decimal, decimal-injective, to_lower, starts_with, contains,
  after_last_slash,
}
use rpi_fastbootd.Prelude.Outcome.{
  Outcome, Outcome-cases, Fault, ok, throw, deref, overflow_error, invalid_argument, out_of_range,
  logic_error, div_by_zero, bad_optional, runtime_error, stack_exhausted, ◌>>=◌, ◌>>◌,
}
use rpi_fastbootd.Idp.Luks.{Luks, value_or}
use rpi_fastbootd.Idp.Keys.FileMap.{Files, write, remove, read}
use rpi_fastbootd.Idp.Keys.Cryptsetup.{Host, Format}

-- The first 64 bytes: a digest in hexadecimal.
abbrev pub digest_size : ℕ
digest_size = 64

-- std::replace of the slashes.
unfoldable pub underscored : Text → Text
underscored [] = []
underscored (c ∷ s) = (if c == b'/' then b'_' else c) ∷ underscored s

-- Where the key of a block device is kept.
unfoldable pub keyfile_path : Text → Text
keyfile_path blkdev = codes "/tmp/idp_key_" ++ underscored blkdev ++ codes ".tmp"

-- An option that is passed only if it is not empty.
abbrev pub text_option : Text → Option Text → List Text
text_option name none = []
text_option name (some s) = if is_empty s then [] else (name ++ s) ∷ []

abbrev pub number_option : Text → ℕ → List Text
number_option name n = if n == 0 then [] else (name ++ decimal n) ∷ []

-- IDPluks::luks2createcmd: the division traps on a sector size of zero.
unfoldable pub luks2createcmd : Luks → Text → Text → Outcome (List Text)
luks2createcmd l blkdev keyfile =
    if l.sector_size == 0
    then throw div_by_zero
    else ok (
        codes "cryptsetup"
          ∷ codes "--batch-mode"
          ∷ codes "luksFormat"
          ∷ codes "--type"
          ∷ codes "luks2"
          ∷ codes "--force-password"
          ∷ []
        ++ number_option (codes "--key-size=") l.key_size
        ++ text_option (codes "--hash=") (some l.hash)
        ++ text_option (codes "--cipher=") (some l.cipher)
        ++ number_option (codes "--sector-size=") l.sector_size
        ++ (codes "--align-payload=" ++ decimal (l.p_alignment_bytes / l.sector_size)) ∷ []
        ++ (codes "--key-file=" ++ keyfile) ∷ []
        ++ text_option (codes "--label=") l.label
        ++ text_option (codes "--uuid=") l.uuid
        ++ blkdev ∷ [])

-- IDPluks::luks2opencmd and luks2closecmd
unfoldable pub luks2opencmd : Luks → Text → Text → List Text
luks2opencmd l blkdev keyfile =
    codes "cryptsetup" ∷ codes "luksOpen" ∷ blkdev ∷ l.mname ∷ (codes "--key-file=" ++ keyfile) ∷ []

unfoldable pub luks2closecmd : Text → List Text
luks2closecmd name = codes "cryptsetup" ∷ codes "luksClose" ∷ name ∷ []

module _ {World : Type 0} (h : Host World) where
  -- The key file once the device has told its identifier, and the firmware has given its digest.
  unfoldable pub store_digest : Text → Option Text → Files → World → Option Text × Files × World
  store_digest path none files w = (none, files, w)
  store_digest path (some digest) files w =
      if h.creatable path w
      then (some path, write path (h.written path (take digest_size digest) w) files, w)
      else (none, files, w)

  unfoldable pub sign_id : Text → Option Text → Files → World → Option Text × Files × World
  unfolding store_digest
  sign_id path none files w = (none, files, w)
  sign_id path (some []) files w = (none, files, w)
  sign_id path (some (c ∷ id)) files w =
      let (digest, w1) = h.calculate_hmac (c ∷ id) w in store_digest path digest files w1

  -- The constructor of SecureKeyfile: the path of the file, or none where it throws.
  unfoldable pub make_keyfile : Text → Files → World → Option Text × Files × World
  unfolding sign_id
  make_keyfile blkdev files w =
      let (id, w1) = h.bdi_get_id blkdev w in sign_id (keyfile_path blkdev) id files w1

  -- cryptsetup::run on a command line.
  unfoldable pub run_command : Outcome (List Text) → Files → World → Outcome Bool × World
  run_command (throw e) files w = (throw e, w)
  run_command (ok args) files w = let (done, w1) = h.run args files w in (ok done, w1)

  -- A native operation on the content of the key file.
  unfoldable pub with_key : Text → (Text → World → Bool × World) → World → Outcome Bool × World
  with_key key operation w =
      if is_empty key then (ok false, w) else let (done, w1) = operation key w in (ok done, w1)

  -- An exit from the scope of a SecureKeyfile: a trap leaves the file where it is.
  unfoldable pub leave : Text → Files → Outcome Bool × World → Outcome Bool × Files × World
  leave path files (throw e, w) = (throw e, files, w)
  leave path files (ok done, w) = (ok done, remove path files, w)

  abbrev pub format_of : Luks → Format
  format_of l = record {
    cipher = l.cipher;
    hash = l.hash;
    key_size_bits = l.key_size;
    sector_size = l.sector_size;
    label = value_or l.label [];
    uuid = l.uuid;
    data_alignment_bytes = l.p_alignment_bytes;
  }

  -- IDPluks::Create from where the key file is there, or is not.
  unfoldable pub create_with :
      Luks → Text → Option Text → Files → World → Outcome Bool × Files × World
  unfolding with_key run_command leave
  create_with l blkdev none files w = (ok false, files, w)
  create_with l blkdev (some path) files w = leave path files (
      if h.have_libcryptsetup
      then with_key (read path files) (h.crypt_init blkdev (format_of l)) w
      else run_command (luks2createcmd l blkdev path) files w)

  -- IDPluks::Create with no user key.
  unfoldable pub create : Luks → Text → Files → World → Outcome Bool × Files × World
  unfolding make_keyfile create_with
  create l blkdev files w =
      let (path, files', w1) = make_keyfile blkdev files w in
      if not (l.version == 2) then (ok false, files, w) else create_with l blkdev path files' w1

  -- IDPluks::Open from where the key file is there, or is not.
  unfoldable pub open_with :
      Luks → Text → Option Text → Files → World → Outcome Bool × Files × World
  unfolding with_key run_command leave
  open_with l blkdev none files w = (ok false, files, w)
  open_with l blkdev (some path) files w = leave path files (
      if h.have_libcryptsetup
      then with_key (read path files) (h.crypt_open blkdev l.mname) w
      else run_command (ok (luks2opencmd l blkdev path)) files w)

  -- IDPluks::Open
  unfoldable pub open_container : Luks → Text → Files → World → Outcome Bool × Files × World
  unfolding make_keyfile open_with
  open_container l blkdev files w =
      let (path, files', w1) = make_keyfile blkdev files w in open_with l blkdev path files' w1

  -- IDPluks::Close
  unfoldable pub close_container : Luks → Option Text → Files → World → Outcome Bool × World
  unfolding run_command
  close_container l blkdev files w =
      let dev = value_or blkdev l.mname in
      if h.have_libcryptsetup
      then (let (done, w1) = h.crypt_close dev w in (ok done, w1))
      else run_command (ok (luks2closecmd dev)) files w
