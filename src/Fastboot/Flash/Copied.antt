-- ===== src/Fastboot/Flash/Copied.antt =====
-- The loop of FlashRawDataChunk puts the whole image on the device.
use rpi_fastbootd.Prelude.{
  ℕ, zero, suc, ◌+◌, ◌%◌, ◌≤◌, ◌≡◌, refl, ap, subst, ◌∙◌, ◌≢◌, Bool, true, Option, none, some, [],
  ◌∷◌, arith, ◌==◌, if◌then◌else◌, if-elim, length, take,
}
use rpi_fastbootd.Prelude.Text.{Text}
use rpi_fastbootd.Fastboot.Files.{Files, write_only, seek_cur}
use rpi_fastbootd.Fastboot.Flash.{
  Flashing, Written, wrote, failed, prepare, after_write, write_piece, write_round, write_loop,
  drop, max_write_size, flash_raw_data_chunk,
}
use rpi_fastbootd.Fastboot.Flash.Disk.{overlay, Disk, StandsAt, reset_handle-Stands}

overlay-drop :
    (n offset : ℕ) (s : Text) (old : ℕ → ℕ)
    → overlay (offset + n) (drop n s) (overlay offset (take n s) old) ≡ overlay offset s old
unfolding overlay drop
overlay-drop zero offset s old = ap (λ o. overlay o s old) (omega arith)
overlay-drop (suc n) offset [] old = refl
overlay-drop (suc n) offset (c ∷ s) old =
    let new : ℕ → ℕ = λ i. if i == offset then c else old i in
    ap (λ o. overlay o (drop n s) (overlay (offset + 1) (take n s) new)) (omega arith)
    ∙ overlay-drop n (offset + 1) s new

take-take : (n m : ℕ) (s : Text) → n ≤ length (take m s) → take n (take m s) ≡ take n s
take-take zero m s h = refl
take-take (suc n) zero s h = absurd (omega (arith, h))
take-take (suc n) (suc m) [] h = refl
take-take (suc n) (suc m) (c ∷ s) h = ap (λ t. c ∷ t) (take-take n m s (omega (arith, h)))

module _ {World : Type 0} (files : Files World) (d : Disk files) where
  -- After a round from an offset: the bytes that it counts are there, or it has an error.
  abbrev AfterPiece : ℕ → (ℕ → ℕ) → Text → Written × Flashing World → Type 0
  AfterPiece offset bytes piece (wrote n, s) =
      (n ≤ length piece)
      × StandsAt files d (offset + n) (overlay offset (take n piece) bytes) s.handle s.world
  AfterPiece offset bytes piece (failed e, s) = e ≢ 0

  write_piece-AfterPiece :
      (offset : ℕ) (bytes : ℕ → ℕ) (piece : Text) (s : Flashing World)
      → StandsAt files d offset bytes s.handle s.world
      → AfterPiece offset bytes piece (write_piece files piece s)
  unfolding write_piece
  write_piece-AfterPiece offset bytes piece s (o, kept, at) =
      let fd = s.handle.fd in
      let w = (files.lseek fd 0 seek_cur s.world).1 in
      let at_w : d.position w fd ≡ offset = d.tell_position fd s.world ∙ at in
      let bytes_w : d.byte w ≡ bytes = d.tell_bytes fd s.world ∙ kept in
      after_write-AfterPiece _ (files.write fd piece w)
        (λ n e. (
          d.write_count fd piece w n e,
          (
            o,
            d.write_bytes fd piece w n e
                ∙ ap (λ a. overlay a (take n piece) (d.byte w)) at_w
                ∙ ap (overlay offset (take n piece)) bytes_w,
            d.write_position fd piece w n e ∙ ap (λ a. a + n) at_w,
          ),
        ))
        (d.write_errno fd piece w)
    where
      after_write-AfterPiece :
          (at : Option ℕ) (r : Option ℕ × World)
          → ((n : ℕ)
              → r.0 ≡ some n
              → AfterPiece offset bytes piece (wrote n, record s { world = r.1 }))
          → (r.0 ≡ none → files.errno r.1 ≢ 0)
          → AfterPiece offset bytes piece (after_write files at r (length piece) s)
      after_write-AfterPiece at (some n, w) good bad = good n refl
      after_write-AfterPiece at (none, w) good bad = bad refl

  abbrev Ready : ℕ → (ℕ → ℕ) → Bool × Flashing World → Type 0
  Ready offset bytes (ready, s) = ready ≡ true → StandsAt files d offset bytes s.handle s.world

  prepare-Ready :
      (offset : ℕ) (bytes : ℕ → ℕ) (this_len : ℕ) (s : Flashing World)
      → StandsAt files d offset bytes s.handle s.world
      → Ready offset bytes (prepare files this_len s)
  unfolding prepare
  prepare-Ready offset bytes this_len s h =
      if-elim (Ready offset bytes) (this_len % 4096 == 0) (λ _ e. h)
        (λ _. reset_handle-Stands files d offset bytes write_only s.handle s.world h)

  write_round-AfterPiece :
      (offset : ℕ) (bytes : ℕ → ℕ) (piece : Text) (s : Flashing World)
      → StandsAt files d offset bytes s.handle s.world
      → AfterPiece offset bytes piece (write_round files piece s)
  unfolding write_round
  write_round-AfterPiece offset bytes piece s h =
      let (ready, s1) = prepare files (length piece) s in
      if-elim (AfterPiece offset bytes piece) ready
        (λ e.
          write_piece-AfterPiece offset bytes piece s1
            (prepare-Ready offset bytes (length piece) s h e))
        (λ _ e. omega (arith, e))

  -- When the loop gives 0, the data is on the device.
  abbrev pub Copied : ℕ → (ℕ → ℕ) → Text → Option (ℕ × Flashing World) → Type 0
  Copied offset bytes image none = Unit
  Copied offset bytes image (some (e, s)) = e ≡ 0 → d.byte s.world ≡ overlay offset image bytes

  Copied-drop :
      (n offset : ℕ) (bytes : ℕ → ℕ) (image : Text) (r : Option (ℕ × Flashing World))
      → Copied (offset + n) (overlay offset (take n image) bytes) (drop n image) r
      → Copied offset bytes image r
  Copied-drop n offset bytes image none h = tt
  Copied-drop n offset bytes image (some (e, s)) h =
      λ zero_code. h zero_code ∙ overlay-drop n offset image bytes

  -- How the loop goes on from a round, for data that is left at any offset.
  after_round-Copied :
      (fuel offset : ℕ) (bytes : ℕ → ℕ) (image : Text)
      → ((n offset : ℕ) (bytes : ℕ → ℕ) (s : Flashing World)
          → StandsAt files d offset bytes s.handle s.world
          → Copied offset bytes (drop n image) (write_loop files fuel (drop n image) s))
      → (r : Written × Flashing World) → AfterPiece offset bytes (take max_write_size image) r
      → Copied offset bytes image (elim r.0 [
        | wrote n ↦ write_loop files fuel (drop n image) r.1
        | failed e ↦ some (e, r.1)
      ])
  after_round-Copied fuel offset bytes image rest (wrote n, s) (count, h) =
      Copied-drop n offset bytes image _ (
        rest n (offset + n) (overlay offset (take n image) bytes) s (
          subst (λ p. StandsAt files d (offset + n) (overlay offset p bytes) s.handle s.world)
            (take-take n max_write_size image count) h))
  after_round-Copied fuel offset bytes image rest (failed e, s) h =
      λ zero_code. absurd (h zero_code)

  write_loop-Copied :
      (fuel offset : ℕ) (bytes : ℕ → ℕ) (image : Text) (s : Flashing World)
      → StandsAt files d offset bytes s.handle s.world
      → Copied offset bytes image (write_loop files fuel image s)
  unfolding write_loop overlay
  write_loop-Copied fuel offset bytes [] s (o, kept, at) = λ _. kept
  write_loop-Copied zero offset bytes (c ∷ image) s h = tt
  write_loop-Copied (suc fuel) offset bytes (c ∷ image) s h =
      after_round-Copied fuel offset bytes (c ∷ image)
        (λ n o b s1 h1. write_loop-Copied fuel o b (drop n (c ∷ image)) s1 h1) _
        (write_round-AfterPiece offset bytes (take max_write_size (c ∷ image)) s h)

  pub flash_raw_data_chunk-Copied :
      (fuel offset : ℕ) (bytes : ℕ → ℕ) (image : Text) (s : Flashing World)
      → StandsAt files d offset bytes s.handle s.world
      → Copied offset bytes image (flash_raw_data_chunk files fuel image s)
  unfolding flash_raw_data_chunk
  flash_raw_data_chunk-Copied fuel offset bytes image s h =
      if-elim (Copied offset bytes image) (files.memalign s.world)
        (λ _. write_loop-Copied fuel offset bytes image s h) (λ _ e. absurd (omega (arith, e)))
