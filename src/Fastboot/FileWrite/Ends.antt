-- ===== src/Fastboot/FileWrite/Ends.antt =====
-- WriteFile ends.
use rpi_fastbootd.Prelude.{
  ℕ, zero, suc, ◌≤◌, ◌≡◌, refl, true, false, Option, none, some, [], ◌∷◌, arith, ◌==◌, has_value,
  if-elim, length,
}
use rpi_fastbootd.Prelude.Text.{Text}
use rpi_fastbootd.Fastboot.Flash.{drop}
use rpi_fastbootd.Fastboot.Flash.Ends.{length-drop}
use rpi_fastbootd.Fastboot.FileWrite.{
  FileSystem, set_mode, write_all, after_write, after_data, after_mode, after_create, write_file,
  eintr,
}

module _ {World : Type 0} (fs : FileSystem World)
    (not_interrupted : (fd : ℕ) (s : Text) (w : World)
      → (fs.write fd s w).0 ≡ none
      → (fs.errno (fs.write fd s w).1 == eintr) ≡ false) where
  after_write_ends :
      (path : Text) (fd c : ℕ) (bytes : Text) (w : World) (again : Option (Option Text × World))
      (rest : ℕ → Option (Option Text × World)) (n : Option ℕ)
      → (fs.write fd (c ∷ bytes) w).0 ≡ n
      → ((k : ℕ) → has_value (rest (suc k)) ≡ true)
      → has_value (after_write fs path fd (fs.write fd (c ∷ bytes) w).1 again rest n) ≡ true
  after_write_ends path fd c bytes w again rest none failed h =
      rw (not_interrupted fd (c ∷ bytes) w failed) refl
  after_write_ends path fd c bytes w again rest (some zero) written h = refl
  after_write_ends path fd c bytes w again rest (some (suc k)) written h =
      if-elim {A = Option (Option Text × World)} (λ r. has_value r ≡ true) (suc k == 0) (λ _. refl)
        (λ _. h k)

  write_all_ends :
      (fuel : ℕ) (path : Text) (fd : ℕ) (bytes : Text) (w : World)
      → length bytes ≤ fuel
      → has_value (write_all fs fuel path fd bytes w) ≡ true
  unfolding write_all drop
  write_all_ends fuel path fd [] w h = refl
  write_all_ends zero path fd (c ∷ bytes) w h = absurd (omega (arith, h))
  write_all_ends (suc fuel) path fd (c ∷ bytes) w h =
      after_write_ends path fd c bytes w _ _ _ refl
        (λ k. write_all_ends fuel path fd (drop k bytes) _ (omega (arith, h, length-drop k bytes)))

  after_data_ends :
      (path : Text) (fd : ℕ) (done : Option (Option Text × World))
      → has_value done ≡ true
      → has_value (after_data fs path fd done) ≡ true
  after_data_ends path fd none h = absurd (cc h)
  after_data_ends path fd (some (some msg, w)) h = refl
  after_data_ends path fd (some (none, w)) h = refl

  after_mode_ends :
      (fuel : ℕ) (path : Text) (fd : ℕ) (bytes : Text) (done : Option Text × World)
      → length bytes ≤ fuel
      → has_value (after_mode fs fuel path fd bytes done) ≡ true
  after_mode_ends fuel path fd bytes (some msg, w) h = refl
  after_mode_ends fuel path fd bytes (none, w) h =
      after_data_ends path fd _ (write_all_ends fuel path fd bytes w h)

  after_create_ends :
      (fuel : ℕ) (path bytes : Text) (mode : Option ℕ) (opened : Option ℕ × World)
      → length bytes ≤ fuel
      → has_value (after_create fs fuel path bytes mode opened) ≡ true
  after_create_ends fuel path bytes mode (none, w) h = refl
  after_create_ends fuel path bytes mode (some fd, w) h =
      after_mode_ends fuel path fd bytes (set_mode fs path fd mode w) h

  -- WriteFile ends with a result, in as many writes as there are bytes at most, if no write is
  -- interrupted before it has written a byte.
  pub write_file_ends :
      (fuel : ℕ) (path bytes : Text) (mode : Option ℕ) (w : World)
      → length bytes ≤ fuel
      → has_value (write_file fs fuel path bytes mode w) ≡ true
  unfolding write_file
  write_file_ends fuel path bytes mode w h =
      if-elim {A = Option (Option Text × World)} (λ r. has_value r ≡ true) (length bytes == 0)
        (λ _. refl) (λ _. after_create_ends fuel path bytes mode _ h)
