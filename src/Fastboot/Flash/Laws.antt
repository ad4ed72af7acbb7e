-- ===== src/Fastboot/Flash/Laws.antt =====
-- What is on the device when Flash has succeeded.
use rpi_fastbootd.Prelude.{
  ℕ, zero, suc, ◌≡◌, refl, subst, ◌∙◌, inl, inr, false, ◌&&◌, Option, none, some, [], ◌++◌, ltb,
  ◌==◌, ==_iff, Bool-cases, if-elim, length,
}
use rpi_fastbootd.Prelude.Text.{Text, codes}
use rpi_fastbootd.Parted.Fdisk.{Kernel}
use rpi_fastbootd.Parted.Reread.{attempts, reread_fd, ebusy}
use rpi_fastbootd.Fastboot.Files.{
  Files, PartitionHandle, seek_set, open_partition, open_handle, write_only_direct,
  get_block_device_size,
}
use rpi_fastbootd.Fastboot.Flash.{Flashing, Sparse, is_sparse, flash_block_device}
use rpi_fastbootd.Fastboot.Flash.Handler.{
  Flashed, is_whole_disk, finish_flash, after_block_device, flash_open, flash_handle, flash,
}
use rpi_fastbootd.Fastboot.Flash.Disk.{overlay, Disk, StandsAt, close_fd-byte, open_handle-Stands}
use rpi_fastbootd.Fastboot.Flash.Copied.{Copied, flash_raw_data_chunk-Copied}

-- The kernel changes no byte of the device when it reads a partition table.
pub record IsQuiet {World : Type 0} {files : Files World} (k : Kernel World) (d : Disk files)
    : Type 0 where
  pub sync_kept : (w : World) → d.byte (k.sync w) ≡ d.byte w
  pub blkrrpart_kept : (fd : ℕ) (w : World) → d.byte (k.blkrrpart fd w).1 ≡ d.byte w
  pub usleep_kept : (n : ℕ) (w : World) → d.byte (k.usleep n w) ≡ d.byte w

module _ {World : Type 0} (files : Files World) (d : Disk files) (k : Kernel World)
    (quiet : IsQuiet k d) where
  abbrev Keeps : World → ℕ × World → Type 0
  Keeps w (e, w1) = d.byte w1 ≡ d.byte w

  attempts-Keeps : (n fd err : ℕ) (w : World) → Keeps w (attempts k n fd err w)
  unfolding attempts
  attempts-Keeps zero fd err w = refl
  attempts-Keeps (suc n) fd err w =
      let (e, w1) = k.blkrrpart fd w in
      let told = quiet.blkrrpart_kept fd w in
      if-elim (Keeps w) (e == 0) (λ _. told)
        (λ _.
          if-elim (Keeps w) (e == ebusy)
            (λ _. attempts-Keeps n fd e (k.usleep 100000 w1) ∙ quiet.usleep_kept 100000 w1 ∙ told)
            (λ _. told))

  reread_fd-Keeps : (fd timeout : ℕ) (w : World) → Keeps w (reread_fd k fd timeout w)
  unfolding reread_fd
  reread_fd-Keeps fd timeout w = attempts-Keeps _ fd 0 (k.sync w) ∙ quiet.sync_kept w

  module _ (sparse : Sparse World) where
    -- The image is on the device, if the result is 0.
    abbrev Holds : (ℕ → ℕ) → Text → Flashed World → Type 0
    Holds bytes image r = r.code ≡ 0 → d.byte r.world ≡ overlay 0 image bytes

    finish_flash-byte :
        (partition_path : Text) (result : ℕ) (s : Flashing World)
        → d.byte (finish_flash files sparse k partition_path result s).world ≡ d.byte s.world
    unfolding finish_flash
    finish_flash-byte partition_path result s =
        let synced : Flashing World = record s { world = files.sync s.world } in
        let (rr, w) = reread_fd k synced.handle.fd 5 synced.world in
        let told =
          close_fd-byte files d s.handle.fd w
          ∙ reread_fd-Keeps s.handle.fd 5 synced.world
          ∙ d.sync_bytes s.world in
        if-elim {A = Flashed World} (λ r. d.byte r.world ≡ d.byte s.world)
          (result == 0 && is_whole_disk files partition_path synced.world)
          (λ _.
            if-elim {A = Flashed World} (λ r. d.byte r.world ≡ d.byte s.world) (rr == 0) (λ _. told)
              (λ _. told))
          (λ _. close_fd-byte files d s.handle.fd synced.world ∙ d.sync_bytes s.world)

    finish_flash-code :
        (partition_path : Text) (result : ℕ) (s : Flashing World)
        → (finish_flash files sparse k partition_path result s).code ≡ 0
        → result ≡ 0
    unfolding finish_flash
    finish_flash-code partition_path result s e = elim (Bool-cases (result == 0)) [
      | inl zero_result ↦ (==_iff result 0).0 zero_result
      | inr other ↦ rw other at e
    ]

    after_block_device-Holds :
        (bytes : ℕ → ℕ) (image partition_path : Text) (done : Option (ℕ × Flashing World))
        (r : Flashed World)
        → Copied files d 0 bytes image done
        → after_block_device files sparse k partition_path done ≡ some r
        → Holds bytes image r
    after_block_device-Holds bytes image partition_path none r h e = absurd (cc e)
    after_block_device-Holds bytes image partition_path (some (result, s)) r h e =
        let same : finish_flash files sparse k partition_path result s ≡ r = cc e in
        subst (Holds bytes image) same λ zero_code.
          finish_flash-byte partition_path result s
          ∙ h (finish_flash-code partition_path result s zero_code)

    flash_open-Holds :
        (fuel : ℕ) (bytes : ℕ → ℕ) (name partition_path image : Text) (s : Flashing World)
        (r : Flashed World)
        → is_sparse image ≡ false
        → StandsAt files d 0 bytes s.handle s.world
        → flash_open files sparse k fuel name partition_path image s ≡ some r
        → Holds bytes image r
    unfolding flash_open flash_block_device
    flash_open-Holds fuel bytes name partition_path image s r raw (o, kept, at) =
        if-elim (λ x. x ≡ some r → Holds bytes image r) (length image == 0)
          (λ _ e zero_code. absurd (cc (e, zero_code)))
          (λ _.
            if-elim (λ x. x ≡ some r → Holds bytes image r) (ltb size (length image))
              (λ _ e zero_code. absurd (cc (e, zero_code)))
              (λ _ e. after_block_device-Holds bytes image partition_path _ r copied e))
      where
        size : ℕ
        size = get_block_device_size files s.handle.fd s.world

        w : World
        w = (files.lseek s.handle.fd 0 seek_set s.world).1

        copied : Copied files d 0 bytes image (flash_block_device files sparse fuel image size s)
        copied = rw raw (
            flash_raw_data_chunk-Copied files d fuel 0 bytes image (record s { world = w })
              (o, d.set_bytes s.handle.fd 0 s.world ∙ kept, d.set_failed s.handle.fd s.world at))

    flash_handle-Holds :
        (fuel : ℕ) (name partition_path image : Text) (h : Option PartitionHandle) (w : World)
        (r : Flashed World)
        → is_sparse image ≡ false
        → flash_handle files sparse k fuel name partition_path image h w ≡ some r
        → Holds (d.byte w) image r
    unfolding flash_handle
    flash_handle-Holds fuel name partition_path image none w r raw =
        λ e zero_code. absurd (cc (e, zero_code))
    flash_handle-Holds fuel name partition_path image (some handle) w r raw =
        let (opened, h, w1) = open_handle files write_only_direct handle w in
        if-elim (λ x. x ≡ some r → Holds (d.byte w) image r) opened
          (λ o.
            flash_open-Holds fuel (d.byte w) name partition_path image
              record { handle = h; err = []; world = w1 } r raw
              (open_handle-Stands files d write_only_direct handle w o))
          (λ _ e zero_code. absurd (cc (e, zero_code)))

    -- When Flash has the result 0 for an image that is not a sparse one, the device holds the image
    -- from its first byte on, and what it held before behind that; also when the last piece is
    -- written through a handle that is opened again. The system calls are taken to do to
    -- the device what Disk says, and the kernel to change no byte of it.
    pub flash_lem :
        (fuel : ℕ) (name image : Text) (w : World) (r : Flashed World)
        → is_sparse image ≡ false
        → flash files sparse k fuel name image w ≡ some r
        → r.code ≡ 0
        → d.byte r.world ≡ overlay 0 image (d.byte w)
    unfolding flash
    flash_lem fuel name image w r raw e =
        flash_handle-Holds fuel name (codes "/dev/" ++ name) image
          (open_partition files (codes "/dev/" ++ name) w) w r raw e
