-- ===== src/Idp/Keys/Secrecy.antt =====
-- What becomes of the keys that IDPluks uses.
use rpi_fastbootd.Prelude.{
  ◌≡◌, refl, ◌∙◌, Bool, false, not, Option, none, some, [], ◌∷◌, arith, ◌==◌, if-elim, take,
}
use rpi_fastbootd.Prelude.Text.{Text}
use rpi_fastbootd.Prelude.Outcome.{Outcome, ok, throw}
use rpi_fastbootd.Idp.Luks.{Luks}
use rpi_fastbootd.Idp.Keys.FileMap.{Files, write, remove, path_exists, remove-write}
use rpi_fastbootd.Idp.Keys.Cryptsetup.{Host}
use rpi_fastbootd.Idp.Keys.{
  digest_size, keyfile_path, store_digest, sign_id, make_keyfile, leave, create_with, create,
  open_with, open_container,
}

remove_absent :
    (path : Text) (files : Files) → path_exists path files ≡ false → remove path files ≡ files
unfolding path_exists remove
remove_absent path [] h = refl
remove_absent path ((name, s) ∷ files) h = ground (arith, remove_absent path files)

-- What the constructor of SecureKeyfile leaves: no file and no path, or a file at the path.
abbrev pub IsKept : Text → Files → Option Text → Files → Type 0
IsKept path before none after = after ≡ before
IsKept path before (some p) after = (p ≡ path) × (key : Text) × (after ≡ write path key before)

-- The files after a result that is not a trap.
abbrev pub LeavesFiles : {World : Type 0} → Files → Outcome Bool × Files × World → Type 0
LeavesFiles before (throw e, after, w) = Unit
LeavesFiles before (ok done, after, w) = after ≡ before

module _ {World : Type 0} (h : Host World) where
  store_digest-IsKept :
      (path : Text) (digest : Option Text) (files : Files) (w : World)
      → let (made, files', w') = store_digest h path digest files w in IsKept path files made files'
  unfolding store_digest
  store_digest-IsKept path none files w = refl
  store_digest-IsKept path (some digest) files w =
      if-elim {A = Option Text × Files × World} (λ r. IsKept path files r.0 r.1)
        (h.creatable path w) (λ _. (refl, h.written path (take digest_size digest) w, refl))
        (λ _. refl)

  make_keyfile-IsKept :
      (blkdev : Text) (files : Files) (w : World)
      → let (made, files', w') = make_keyfile h blkdev files w in
        IsKept (keyfile_path blkdev) files made files'
  unfolding make_keyfile sign_id
  make_keyfile-IsKept blkdev files w = by_id (h.bdi_get_id blkdev w).0 (h.bdi_get_id blkdev w).1
    where
      by_id :
          (id : Option Text) (w1 : World)
          → let (made, files', w') = sign_id h (keyfile_path blkdev) id files w1 in
            IsKept (keyfile_path blkdev) files made files'
      by_id none w1 = refl
      by_id (some []) w1 = refl
      by_id (some (c ∷ id)) w1 = store_digest-IsKept (keyfile_path blkdev) _ files _

  leave_restores :
      (path key : Text) (files : Files) (r : Outcome Bool × World)
      → path_exists path files ≡ false
      → LeavesFiles files (leave h path (write path key files) r)
  unfolding leave
  leave_restores path key files (throw e, w) absent = tt
  leave_restores path key files (ok done, w) absent =
      remove-write path key files ∙ remove_absent path files absent

  create_with_restores :
      (l : Luks) (blkdev path : Text) (before : Files) (made : Option Text) (files : Files)
      (w : World)
      → IsKept path before made files
      → path_exists path before ≡ false
      → LeavesFiles before (create_with h l blkdev made files w)
        × LeavesFiles before (open_with h l blkdev made files w)
  unfolding create_with open_with
  create_with_restores l blkdev path before none files w kept absent = (kept, kept)
  create_with_restores l blkdev path before (some p) files w (same, key, written) absent =
      rw (same, written)
        (leave_restores path key before _ absent, leave_restores path key before _ absent)

  -- If there was no file at the path of the key of a block device, then creating or opening its
  -- container leaves the files as they were, on every path that returns: the key is not left
  -- behind, whether the operation has succeeded or not, and no other file is touched.
  pub create-LeavesFiles :
      (l : Luks) (blkdev : Text) (files : Files) (w : World)
      → path_exists (keyfile_path blkdev) files ≡ false
      → LeavesFiles files (create h l blkdev files w)
        × LeavesFiles files (open_container h l blkdev files w)
  unfolding create open_container
  create-LeavesFiles l blkdev files w absent =
      let (created, opened) =
        create_with_restores l blkdev (keyfile_path blkdev) files (make_keyfile h blkdev files w).0
          (make_keyfile h blkdev files w).1 (make_keyfile h blkdev files w).2
          (make_keyfile-IsKept blkdev files w) absent in
      (if-elim (LeavesFiles files) (not (l.version == 2)) (λ _. refl) (λ _. created), opened)
