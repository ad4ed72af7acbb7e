-- ===== src/Idp/Keys/Unlock.antt =====
-- The key that a container is created with, and the one that it is opened with.
use rpi_fastbootd.Prelude.{
  ℕ, ◌≡◌, refl, ◌∙◌, Bool, true, false, not, Option, none, some, ◌∷◌, arith, ◌==◌, if◌then◌else◌,
  if-elim, take,
}
use rpi_fastbootd.Prelude.Text.{Text, is_empty}
use rpi_fastbootd.Prelude.Outcome.{Outcome, ok, throw}
use rpi_fastbootd.Idp.Luks.{Luks}
use rpi_fastbootd.Idp.Keys.FileMap.{Files, write, read, read-write}
use rpi_fastbootd.Idp.Keys.Cryptsetup.{Host}
use rpi_fastbootd.Idp.Keys.{
  digest_size, keyfile_path, run_command, luks2createcmd, luks2opencmd, store_digest, sign_id,
  make_keyfile, with_key, leave, format_of, create_with, create, open_with, open_container,
}

-- A block device with an identifier, of which the firmware always gives the same digest, and a
-- key file that can be created and takes what is written to it.
pub record IsIdentified {World : Type 0} (h : Host World) (blkdev digest : Text) : Type 0 where
  pub head : ℕ
  pub tail : Text
  pub identified : (w : World) → (h.bdi_get_id blkdev w).0 ≡ some (head ∷ tail)
  pub signed : (w : World) → (h.calculate_hmac (head ∷ tail) w).0 ≡ some digest
  pub creatable : (w : World) → h.creatable (keyfile_path blkdev) w ≡ true
  pub whole : (s : Text) (w : World) → h.written (keyfile_path blkdev) s w ≡ s
  pub not_empty : is_empty (take digest_size digest) ≡ false

module _ {World : Type 0} (h : Host World) (l : Luks) (blkdev digest : Text)
    (i : IsIdentified h blkdev digest) where
  make_keyfile-stored :
      (files : Files) (w : World)
      → let path = keyfile_path blkdev in
        ((make_keyfile h blkdev files w).0 ≡ some path)
        × ((make_keyfile h blkdev files w).1 ≡ write path (take digest_size digest) files)
  unfolding make_keyfile sign_id store_digest
  make_keyfile-stored files w =
      rw (i.identified w, i.signed (h.bdi_get_id blkdev w).1, i.creatable, i.whole) (refl, refl)

  with_key_runs :
      (key : Text) (operation : Text → World → Bool × World) (w : World)
      → is_empty key ≡ false
      → (with_key h key operation w).0 ≡ ok (operation key w).0
  unfolding with_key
  with_key_runs key operation w some_key = rw some_key refl

  leave_result :
      (path : Text) (files : Files) (r : Outcome Bool × World) → (leave h path files r).0 ≡ r.0
  unfolding leave
  leave_result path files (throw e, w) = refl
  leave_result path files (ok done, w) = refl

  native_result :
      (path : Text) (files before : Files) (operation : Text → World → Bool × World)
      (other : Outcome Bool × World) (w : World)
      → h.have_libcryptsetup ≡ true
      → files ≡ write path (take digest_size digest) before
      → (leave h path files
          (if h.have_libcryptsetup then with_key h (read path files) operation w else other)).0
        ≡ ok (operation (take digest_size digest) w).0
  native_result path files before operation other w native stored =
      leave_result path files _
      ∙ if-elim {A = Outcome Bool × World} (λ r. r.0 ≡ ok (operation (take digest_size digest) w).0)
          h.have_libcryptsetup
          (λ _.
            rw (stored, read-write path (take digest_size digest) before)
              (with_key_runs (take digest_size digest) operation w i.not_empty))
          (λ no. absurd (cc (native, no)))

  create_with-result :
      (made : Option Text) (files : Files) (path : Text) (before : Files) (w : World)
      → h.have_libcryptsetup ≡ true
      → made ≡ some path
      → files ≡ write path (take digest_size digest) before
      → ((create_with h l blkdev made files w).0
          ≡ ok (h.crypt_init blkdev (format_of h l) (take digest_size digest) w).0)
        × ((open_with h l blkdev made files w).0
            ≡ ok (h.crypt_open blkdev l.mname (take digest_size digest) w).0)
  unfolding create_with open_with
  create_with-result none files path before w native made stored = absurd (cc made)
  create_with-result (some p) files path before w native made stored =
      let here : files ≡ write p (take digest_size digest) before = rw (path_is) stored in
      (
        native_result p files before (h.crypt_init blkdev (format_of h l))
            (run_command h (luks2createcmd l blkdev p) files w) w native here,
        native_result p files before (h.crypt_open blkdev l.mname)
            (run_command h (ok (luks2opencmd l blkdev p)) files w) w native here,
      )
    where
      path_is : p ≡ path
      path_is = cc made

  -- With libcryptsetup, for a container of LUKS version 2, on a block device with an identifier of
  -- which the firmware always gives the same digest, that is not empty, and whose key file can
  -- always be created and takes all that is written to it: from the same files and world, Create
  -- formats and Open opens with one key, the first 64 bytes of the digest, and both return what
  -- cryptsetup does.
  pub create-open_key :
      h.have_libcryptsetup ≡ true
      → l.version ≡ 2
      → (files : Files) (w : World)
      → (w1 : World) × (w2 : World) × ((create h l blkdev files w).0
          ≡ ok (h.crypt_init blkdev (format_of h l) (take digest_size digest) w1).0)
        × ((open_container h l blkdev files w).0
            ≡ ok (h.crypt_open blkdev l.mname (take digest_size digest) w2).0)
  unfolding create open_container create_with open_with
  create-open_key native luks2 files w =
      let w1 = (make_keyfile h blkdev files w).2 in
      let (made, stored) = make_keyfile-stored files w in
      let (created, opened) =
        create_with-result (make_keyfile h blkdev files w).0 (make_keyfile h blkdev files w).1
          (keyfile_path blkdev) files w1 native made stored in
      (
        w1,
        w1,
        if-elim {A = Outcome Bool × Files × World}
            (λ r. r.0 ≡ ok (h.crypt_init blkdev (format_of h l) (take digest_size digest) w1).0)
            (not (l.version == 2)) (λ other. absurd (ground arith)) (λ _. created),
        opened,
      )
