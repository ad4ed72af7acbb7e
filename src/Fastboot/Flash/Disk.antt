-- ===== src/Fastboot/Flash/Disk.antt =====
-- A block device below the system calls: its bytes, and where each descriptor stands.
use rpi_fastbootd.Prelude.{
  ℕ, ◌+◌, ◌≤◌, ◌≡◌, refl, ap, ◌∙◌, ◌≢◌, Bool, true, not, ◌&&◌, Option, none, some, [], ◌∷◌, arith,
  ◌==◌, if◌then◌else◌, ==_iff, if-elim, length, take,
}
use rpi_fastbootd.Prelude.Text.{Text}
use rpi_fastbootd.Fastboot.Files.{
  Files, PartitionHandle, OpenFlags, is_open, no_fd, close_fd, seek_set, seek_cur, open_handle,
  reopen_at, reset_handle, at_offset, has_flags,
}

-- The bytes of a device after these have been written at an offset.
unfoldable pub overlay : ℕ → Text → (ℕ → ℕ) → ℕ → ℕ
overlay offset [] old = old
overlay offset (c ∷ s) old = overlay (offset + 1) s (λ i. if i == offset then c else old i)

-- What the calls do to a device: a write puts the bytes that it counts where the descriptor
-- stands, a device is opened at its start, and nothing else changes a byte.
pub record Disk {World : Type 0} (files : Files World) : Type 0 where
  pub byte : World → ℕ → ℕ
  pub position : World → ℕ → ℕ
  pub write_bytes :
      (fd : ℕ) (s : Text) (w : World) (n : ℕ)
      → (files.write fd s w).0 ≡ some n
      → byte (files.write fd s w).1 ≡ overlay (position w fd) (take n s) (byte w)
  pub write_position :
      (fd : ℕ) (s : Text) (w : World) (n : ℕ)
      → (files.write fd s w).0 ≡ some n
      → position (files.write fd s w).1 fd ≡ position w fd + n
  pub write_count :
      (fd : ℕ) (s : Text) (w : World) (n : ℕ) → (files.write fd s w).0 ≡ some n → n ≤ length s
  pub write_errno :
      (fd : ℕ) (s : Text) (w : World)
      → (files.write fd s w).0 ≡ none
      → files.errno (files.write fd s w).1 ≢ 0
  pub open_bytes :
      (path : Text) (flags : OpenFlags) (w : World) → byte (files.open_file path flags w).1 ≡ byte w
  pub open_position :
      (path : Text) (flags : OpenFlags) (w : World)
      → let (fd, w1) = files.open_file path flags w in position w1 fd ≡ 0
  pub close_bytes : (fd : ℕ) (w : World) → byte (files.close fd w) ≡ byte w
  pub set_bytes : (fd n : ℕ) (w : World) → byte (files.lseek fd n seek_set w).1 ≡ byte w
  pub set_position :
      (fd n : ℕ) (w : World)
      → (files.lseek fd n seek_set w).0 ≡ some n
      → position (files.lseek fd n seek_set w).1 fd ≡ n
  pub set_failed :
      (fd : ℕ) (w : World) → position w fd ≡ 0 → position (files.lseek fd 0 seek_set w).1 fd ≡ 0
  pub tell_bytes : (fd : ℕ) (w : World) → byte (files.lseek fd 0 seek_cur w).1 ≡ byte w
  pub tell_position :
      (fd : ℕ) (w : World) → position (files.lseek fd 0 seek_cur w).1 fd ≡ position w fd
  pub tell_lem :
      (fd : ℕ) (w : World) (n : ℕ) → (files.lseek fd 0 seek_cur w).0 ≡ some n → n ≡ position w fd
  pub sync_bytes : (w : World) → byte (files.sync w) ≡ byte w

module _ {World : Type 0} (files : Files World) (d : Disk files) where
  -- An open handle that stands at an offset of a device with these bytes.
  abbrev pub StandsAt : ℕ → (ℕ → ℕ) → PartitionHandle → World → Type 0
  StandsAt offset bytes h w =
      (is_open h.fd ≡ true) × (d.byte w ≡ bytes) × (d.position w h.fd ≡ offset)

  -- And so when the call has succeeded.
  abbrev pub Stands : ℕ → (ℕ → ℕ) → Bool × PartitionHandle × World → Type 0
  Stands offset bytes (done, h, w) = done ≡ true → StandsAt offset bytes h w

  pub close_fd-byte : (fd : ℕ) (w : World) → d.byte (close_fd files fd w) ≡ d.byte w
  close_fd-byte fd w =
      if-elim (λ w'. d.byte w' ≡ d.byte w) (fd == no_fd) (λ _. refl) (λ _. d.close_bytes fd w)

  pub open_handle-Stands :
      (flags : OpenFlags) (h : PartitionHandle) (w : World)
      → Stands 0 (d.byte w) (open_handle files flags h w)
  unfolding open_handle
  open_handle-Stands flags h w =
      let w0 = close_fd files h.fd w in
      let bytes = d.open_bytes h.path flags w0 ∙ close_fd-byte h.fd w in
      if-elim (Stands 0 (d.byte w)) (is_open (files.open_file h.path flags w0).0)
        (λ o e. (o, bytes, d.open_position h.path flags w0)) (λ _ e. absurd (cc e))

  at_offset-eq : (found : Option ℕ) (n : ℕ) → at_offset found n ≡ true → found ≡ some n
  at_offset-eq none n e = absurd (cc e)
  at_offset-eq (some m) n e = ap some ((==_iff m n).0 e)

  reopen_at-Stands :
      (offset : Option ℕ) (expected : ℕ) (bytes : ℕ → ℕ) (flags : OpenFlags) (h : PartitionHandle)
      (w : World)
      → d.byte w ≡ bytes
      → ((n : ℕ) → offset ≡ some n → n ≡ expected)
      → Stands expected bytes (reopen_at files offset flags h w)
  unfolding reopen_at
  reopen_at-Stands none expected bytes flags h w kept same = λ e. absurd (cc e)
  reopen_at-Stands (some offset) expected bytes flags h w kept same =
      let w0 = files.sync w in
      let (done, h1, w1) = open_handle files flags h w0 in
      if-elim (Stands expected bytes) (not done) (λ closed e. absurd (ground (arith, closed, e)))
        λ opened found.
          let (o, same_bytes, _) = open_handle-Stands flags h w0 (ground (arith, opened)) in
          (
            o,
            d.set_bytes h1.fd offset w1 ∙ same_bytes ∙ d.sync_bytes w ∙ kept,
            d.set_position h1.fd offset w1 (at_offset-eq _ offset found) ∙ same offset refl,
          )

  -- Reset goes on where the handle stood.
  pub reset_handle-Stands :
      (offset : ℕ) (bytes : ℕ → ℕ) (flags : OpenFlags) (h : PartitionHandle) (w : World)
      → StandsAt offset bytes h w
      → Stands offset bytes (reset_handle files flags h w)
  unfolding reset_handle
  reset_handle-Stands offset bytes flags h w (o, kept, at) =
      if-elim (Stands offset bytes) (is_open h.fd && has_flags h.flags flags) (λ _ e. (o, kept, at))
        (λ _. rw o (
          reopen_at-Stands (files.lseek h.fd 0 seek_cur w).0 offset bytes flags h
            (files.lseek h.fd 0 seek_cur w).1 (d.tell_bytes h.fd w ∙ kept)
            (λ n e. d.tell_lem h.fd w n e ∙ at)))
