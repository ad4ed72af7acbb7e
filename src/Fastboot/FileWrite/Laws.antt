-- ===== src/Fastboot/FileWrite/Laws.antt =====
-- What the file holds when WriteFile has succeeded.
use rpi_fastbootd.Prelude.{
  ℕ, zero, suc, ◌≡◌, refl, sym, ap, subst, ◌∙◌, not, ◌&&◌, Option, none, some, [], ◌∷◌, ◌++◌,
  append_assoc, append-nil, ◌==◌, if-elim, length, take,
}
use rpi_fastbootd.Prelude.Text.{Text}
use rpi_fastbootd.Fastboot.Flash.{drop}
use rpi_fastbootd.Fastboot.FileWrite.{
  FileSystem, set_mode, write_all, finish_file, after_data, after_mode, after_create, write_file,
  after_write, eintr, einval, is_mode, mode_or_0666,
}

take-drop : (n : ℕ) (s : Text) → take n s ++ drop n s ≡ s
unfolding drop
take-drop zero s = refl
take-drop (suc n) [] = refl
take-drop (suc n) (c ∷ s) = ap (λ t. c ∷ t) (take-drop n s)

-- What the calls do to the file at the path: opening empties it, a write appends the bytes that it
-- counts, and nothing else changes it.
pub record Appends {World : Type 0} (fs : FileSystem World) : Type 0 where
  pub contents : World → Text
  pub create_empty :
      (path : Text) (mode : ℕ) (w : World) (fd : ℕ)
      → (fs.create path mode w).0 ≡ some fd
      → contents (fs.create path mode w).1 ≡ []
  pub write_appends :
      (fd : ℕ) (s : Text) (w : World) (n : ℕ)
      → (fs.write fd s w).0 ≡ some n
      → contents (fs.write fd s w).1 ≡ contents w ++ take n s
  pub write_fails :
      (fd : ℕ) (s : Text) (w : World)
      → (fs.write fd s w).0 ≡ none
      → contents (fs.write fd s w).1 ≡ contents w
  pub fchmod_kept : (fd mode : ℕ) (w : World) → contents (fs.fchmod fd mode w).1 ≡ contents w
  pub fstat_kept : (fd : ℕ) (w : World) → contents (fs.fstat_mode fd w).1 ≡ contents w
  pub fsync_kept : (fd : ℕ) (w : World) → contents (fs.fsync fd w).1 ≡ contents w
  pub close_kept : (fd : ℕ) (w : World) → contents (fs.close fd w).1 ≡ contents w

module _ {World : Type 0} (fs : FileSystem World) (a : Appends fs) where
  -- When there is no error, the file holds this.
  abbrev Has : Text → Option Text × World → Type 0
  Has s (some msg, w) = Unit
  Has s (none, w) = a.contents w ≡ s

  abbrev MayHave : Text → Option (Option Text × World) → Type 0
  MayHave s none = Unit
  MayHave s (some r) = Has s r

  set_mode-Has :
      (path : Text) (fd : ℕ) (mode : Option ℕ) (w : World)
      → Has (a.contents w) (set_mode fs path fd mode w)
  unfolding set_mode
  set_mode-Has path fd none w = refl
  set_mode-Has path fd (some mode) w =
      let (changed, w1) = fs.fchmod fd mode w in
      let (found, w2) = fs.fstat_mode fd w1 in
      if-elim (Has (a.contents w)) (not changed) (λ _. tt)
        (λ _.
          if-elim (Has (a.contents w)) (not (is_mode found mode)) (λ _. tt)
            (λ _. a.fstat_kept fd w1 ∙ a.fchmod_kept fd mode w))

  after_write-MayHave :
      (path : Text) (fd : ℕ) (bytes : Text) (w : World) (again : Option (Option Text × World))
      (rest : ℕ → Option (Option Text × World)) (n : Option ℕ)
      → let w1 = (fs.write fd bytes w).1 in
        (fs.write fd bytes w).0 ≡ n
        → MayHave (a.contents w1 ++ bytes) again
        → ((k : ℕ) → MayHave (a.contents w1 ++ drop k bytes) (rest k))
        → MayHave (a.contents w ++ bytes) (after_write fs path fd w1 again rest n)
  after_write-MayHave path fd bytes w again rest none failed h_again h_rest =
      if-elim (MayHave (a.contents w ++ bytes)) (fs.errno (fs.write fd bytes w).1 == eintr)
        (λ _. subst (λ s. MayHave (s ++ bytes) again) (a.write_fails fd bytes w failed) h_again)
        (λ _. tt)
  after_write-MayHave path fd bytes w again rest (some k) written h_again h_rest =
      if-elim (MayHave (a.contents w ++ bytes)) (k == 0) (λ _. tt)
        (λ _.
          subst (λ s. MayHave s (rest k))
            (ap (λ s. s ++ drop k bytes) (a.write_appends fd bytes w k written)
              ∙ append_assoc (a.contents w) (take k bytes) (drop k bytes)
              ∙ ap (λ s. a.contents w ++ s) (take-drop k bytes))
            (h_rest k))

  write_all-MayHave :
      (fuel : ℕ) (path : Text) (fd : ℕ) (bytes : Text) (w : World)
      → MayHave (a.contents w ++ bytes) (write_all fs fuel path fd bytes w)
  unfolding write_all
  write_all-MayHave fuel path fd [] w = sym (append-nil _)
  write_all-MayHave zero path fd (c ∷ bytes) w = tt
  write_all-MayHave (suc fuel) path fd (c ∷ bytes) w =
      after_write-MayHave path fd (c ∷ bytes) w _ _ _ refl
        (write_all-MayHave fuel path fd (c ∷ bytes) _)
        (λ k. write_all-MayHave fuel path fd (drop k (c ∷ bytes)) _)

  finish_file-Has :
      (path : Text) (fd : ℕ) (w : World) → Has (a.contents w) (finish_file fs path fd w)
  unfolding finish_file
  finish_file-Has path fd w =
      let (synced, w1) = fs.fsync fd w in
      let (closed, w2) = fs.close fd w1 in
      if-elim (Has (a.contents w)) (not synced && not (fs.errno w1 == einval)) (λ _. tt)
        (λ _.
          if-elim (Has (a.contents w)) (not closed) (λ _. tt)
            (λ _. a.close_kept fd w1 ∙ a.fsync_kept fd w))

  after_data-MayHave :
      (path : Text) (fd : ℕ) (s : Text) (done : Option (Option Text × World))
      → MayHave s done
      → MayHave s (after_data fs path fd done)
  after_data-MayHave path fd s none h = tt
  after_data-MayHave path fd s (some (some msg, w)) h = tt
  after_data-MayHave path fd s (some (none, w)) h =
      subst (λ x. Has x (finish_file fs path fd w)) h (finish_file-Has path fd w)

  after_mode-MayHave :
      (fuel : ℕ) (path : Text) (fd : ℕ) (bytes : Text) (done : Option Text × World)
      → Has [] done
      → MayHave bytes (after_mode fs fuel path fd bytes done)
  after_mode-MayHave fuel path fd bytes (some msg, w) h = tt
  after_mode-MayHave fuel path fd bytes (none, w) h = after_data-MayHave path fd bytes _ (
      subst (λ s. MayHave (s ++ bytes) (write_all fs fuel path fd bytes w)) h
        (write_all-MayHave fuel path fd bytes w))

  after_create-MayHave :
      (fuel : ℕ) (path bytes : Text) (mode : Option ℕ) (opened : Option ℕ × World)
      → ((fd : ℕ) → opened.0 ≡ some fd → a.contents opened.1 ≡ [])
      → MayHave bytes (after_create fs fuel path bytes mode opened)
  after_create-MayHave fuel path bytes mode (none, w) h = tt
  after_create-MayHave fuel path bytes mode (some fd, w) h =
      after_mode-MayHave fuel path fd bytes _
        (subst (λ s. Has s (set_mode fs path fd mode w)) (h fd refl) (set_mode-Has path fd mode w))

  -- When WriteFile succeeds, the file holds the data that was staged and nothing else, however many
  -- writes it took and whichever of them were interrupted. The calls are taken to do to the file
  -- what Appends says.
  pub write_file_lem :
      (fuel : ℕ) (path bytes : Text) (mode : Option ℕ) (w w' : World)
      → write_file fs fuel path bytes mode w ≡ some (none, w')
      → a.contents w' ≡ bytes
  unfolding write_file
  write_file_lem fuel path bytes mode w w' =
      if-elim (λ r. r ≡ some (none, w') → a.contents w' ≡ bytes) (length bytes == 0)
        (λ _ e. absurd (cc e))
        (λ _ e.
          subst (MayHave bytes) e (
            after_create-MayHave fuel path bytes mode _
              (a.create_empty path (mode_or_0666 mode) w)))
