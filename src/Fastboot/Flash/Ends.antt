-- ===== src/Fastboot/Flash/Ends.antt =====
-- Flash ends.
use rpi_fastbootd.Prelude.{
  ℕ, zero, suc, ◌≤◌, ◌≡◌, refl, ap, ◌≢◌, true, false, Option, none, some, [], ◌∷◌, arith, ltb, ◌==◌,
  has_value, if-elim, length,
}
use rpi_fastbootd.Prelude.Text.{Text}
use rpi_fastbootd.Parted.Fdisk.{Kernel}
use rpi_fastbootd.Fastboot.Files.{
  Files, PartitionHandle, open_partition, open_handle, write_only_direct, get_block_device_size,
}
use rpi_fastbootd.Fastboot.Flash.{
  Flashing, Sparse, Written, wrote, failed, drop, prepare, after_write, write_piece, write_round,
  write_loop, flash_raw_data_chunk, is_sparse, flash_block_device,
}
use rpi_fastbootd.Fastboot.Flash.Handler.{
  Flashed, after_block_device, flash_open, flash_handle, flash,
}

pub length-drop : (n : ℕ) (s : Text) → length (drop n s) ≤ length s
unfolding drop
length-drop zero s = omega arith
length-drop (suc n) [] = omega arith
length-drop (suc n) (c ∷ s) = omega (arith, length-drop n s)

-- A write of some bytes writes one at least, or fails.
abbrev pub GoesOn : {World : Type 0} → Files World → Type 0
GoesOn {World} files = (fd c : ℕ) (s : Text) (w : World) → (files.write fd (c ∷ s) w).0 ≢ some 0

module _ {World : Type 0} (files : Files World) (goes_on : GoesOn files) where
  abbrev Advances : Written × Flashing World → Type 0
  Advances (wrote n, s) = n ≢ 0
  Advances (failed e, s) = Unit

  write_piece-Advances :
      (c : ℕ) (piece : Text) (s : Flashing World) → Advances (write_piece files (c ∷ piece) s)
  unfolding write_piece
  write_piece-Advances c piece s = after_write-Advances _ _ (goes_on s.handle.fd c piece _)
    where
      after_write-Advances :
          (at : Option ℕ) (r : Option ℕ × World)
          → r.0 ≢ some 0
          → Advances (after_write files at r (length (c ∷ piece)) s)
      after_write-Advances at (none, w) h = tt
      after_write-Advances at (some n, w) h = λ e. h (ap some e)

  write_round-Advances :
      (c : ℕ) (piece : Text) (s : Flashing World) → Advances (write_round files (c ∷ piece) s)
  unfolding write_round
  write_round-Advances c piece s =
      if-elim Advances (prepare files (length (c ∷ piece)) s).0
        (λ _. write_piece-Advances c piece _) (λ _. tt)

  after_round_ends :
      (fuel c : ℕ) (image : Text)
      → length image ≤ fuel
      → ((left : Text) (s : Flashing World)
          → length left ≤ fuel
          → has_value (write_loop files fuel left s) ≡ true)
      → (r : Written × Flashing World) → Advances r
      → has_value (elim r.0 [
        | wrote n ↦ write_loop files fuel (drop n (c ∷ image)) r.1
        | failed e ↦ some (e, r.1)
      ])
        ≡ true
  unfolding drop
  after_round_ends fuel c image h rest (failed e, s) advances = refl
  after_round_ends fuel c image h rest (wrote zero, s) advances = absurd (advances refl)
  after_round_ends fuel c image h rest (wrote (suc n), s) advances =
      rest (drop n image) s (omega (arith, length-drop n image, h))

  write_loop_ends :
      (fuel : ℕ) (image : Text) (s : Flashing World)
      → length image ≤ fuel
      → has_value (write_loop files fuel image s) ≡ true
  unfolding write_loop
  write_loop_ends fuel [] s h = refl
  write_loop_ends zero (c ∷ image) s h = absurd (omega (arith, h))
  write_loop_ends (suc fuel) (c ∷ image) s h =
      after_round_ends fuel c image (omega (arith, h)) (write_loop_ends fuel) _
        (write_round-Advances c _ s)

  flash_raw_data_chunk_ends :
      (fuel : ℕ) (image : Text) (s : Flashing World)
      → length image ≤ fuel
      → has_value (flash_raw_data_chunk files fuel image s) ≡ true
  unfolding flash_raw_data_chunk
  flash_raw_data_chunk_ends fuel image s h =
      if-elim {A = Option (ℕ × Flashing World)} (λ r. has_value r ≡ true) (files.memalign s.world)
        (λ _. write_loop_ends fuel image s h) (λ _. refl)

  module _ (sparse : Sparse World) (k : Kernel World) where
    after_block_device_ends :
        (partition_path : Text) (done : Option (ℕ × Flashing World))
        → has_value done ≡ true
        → has_value (after_block_device files sparse k partition_path done) ≡ true
    after_block_device_ends partition_path none h = absurd (cc h)
    after_block_device_ends partition_path (some (result, s)) h = refl

    flash_open_ends :
        (fuel : ℕ) (name partition_path image : Text) (s : Flashing World)
        → is_sparse image ≡ false
        → length image ≤ fuel
        → has_value (flash_open files sparse k fuel name partition_path image s) ≡ true
    unfolding flash_open flash_block_device
    flash_open_ends fuel name partition_path image s raw h =
        if-elim {A = Option (Flashed World)} (λ r. has_value r ≡ true) (length image == 0)
          (λ _. refl)
          (λ _.
            if-elim {A = Option (Flashed World)} (λ r. has_value r ≡ true) (ltb size (length image))
              (λ _. refl) (λ _. after_block_device_ends partition_path _ ends))
      where
        size : ℕ
        size = get_block_device_size files s.handle.fd s.world

        ends : has_value (flash_block_device files sparse fuel image size s) ≡ true
        ends = rw raw (flash_raw_data_chunk_ends fuel image _ h)

    flash_handle_ends :
        (fuel : ℕ) (name partition_path image : Text) (h : Option PartitionHandle) (w : World)
        → is_sparse image ≡ false
        → length image ≤ fuel
        → has_value (flash_handle files sparse k fuel name partition_path image h w) ≡ true
    unfolding flash_handle
    flash_handle_ends fuel name partition_path image none w raw enough = refl
    flash_handle_ends fuel name partition_path image (some handle) w raw enough =
        if-elim {A = Option (Flashed World)} (λ r. has_value r ≡ true)
          (open_handle files write_only_direct handle w).0
          (λ _. flash_open_ends fuel name partition_path image _ raw enough) (λ _. refl)

    -- Flash ends for an image that is not a sparse one, in as many rounds as it has bytes at most,
    -- if a write of some bytes writes one at least or fails.
    pub flash_ends :
        (fuel : ℕ) (name image : Text) (w : World)
        → is_sparse image ≡ false
        → length image ≤ fuel
        → has_value (flash files sparse k fuel name image w) ≡ true
    unfolding flash
    flash_ends fuel name image w raw enough =
        flash_handle_ends fuel name _ image (open_partition files _ w) w raw enough
