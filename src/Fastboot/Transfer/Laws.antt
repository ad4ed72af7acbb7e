-- ===== src/Fastboot/Transfer/Laws.antt =====
-- What the transfers do to the buffer, and what a data-plane session can reach.
use rpi_fastbootd.Prelude.{
  ℕ, zero, suc, ◌≤◌, ◌≡◌, refl, ap, ◌∙◌, ◌⊎◌, inl, inr, Bool, true, not, Option, none, some, List,
  [], ◌∷◌, ◌++◌, arith, ◌==◌, if-elim, length,
}
use rpi_fastbootd.Prelude.Text.{Text, codes}
use rpi_fastbootd.Prelude.Outcome.{Outcome}
use rpi_fastbootd.Idp.Device.Platform.{Parser}
use rpi_fastbootd.Fastboot.Transport.{
  Transport, Base, FastbootDevice, Result, okay, fail, data_size,
}
use rpi_fastbootd.Fastboot.Response.{write_status}
use rpi_fastbootd.Fastboot.Response.Laws.{write_status_frame}
use rpi_fastbootd.Fastboot.Session.{handle_data, overwrite}
use rpi_fastbootd.Fastboot.Transfer.{
  max_download_size, get_device_lock_status, resize, hex_digits, answer, receive, download_handler,
}

length-resize : (n : ℕ) (s : Text) → length (resize n s) ≡ n
unfolding resize
length-resize zero s = refl
length-resize (suc n) [] = ap suc (length-resize n [])
length-resize (suc n) (c ∷ s) = ap suc (length-resize n s)

length-overwrite : (bytes buffer : Text) → length (overwrite bytes buffer) ≡ length buffer
length-overwrite [] buffer = refl
length-overwrite (b ∷ bytes) [] = refl
length-overwrite (b ∷ bytes) (c ∷ buffer) = ap suc (length-overwrite bytes buffer)

overwrite_all :
    (bytes buffer : Text) → length bytes ≡ length buffer → overwrite bytes buffer ≡ bytes
overwrite_all [] [] h = refl
overwrite_all [] (c ∷ buffer) h = absurd (omega (arith, h))
overwrite_all (b ∷ bytes) [] h = absurd (omega (arith, h))
overwrite_all (b ∷ bytes) (c ∷ buffer) h =
    ap (λ s. b ∷ s) (overwrite_all bytes buffer (omega (arith, h)))

-- The buffer of a session, as a download leaves it: what it was, or between one byte and the
-- maximum.
abbrev pub IsBounded : Text → Text → Type 0
IsBounded before after = (after ≡ before) ⊎ (1 ≤ length after) × (length after ≤ max_download_size)

module _ {P : Parser} {World : Type 0} (t : Transport World) where
  length-handle_data :
      (fb : FastbootDevice P) (w : World)
      → length (handle_data t true fb w).1.download_data ≡ length fb.download_data
  unfolding handle_data
  length-handle_data fb w =
      ground (arith, length-overwrite (t.read (length fb.download_data) w).0.1 fb.download_data)

  -- A transport that puts as many bytes into the buffer as it counts: when HandleData succeeds,
  -- the buffer holds exactly what was read, with nothing of what it held before.
  pub handle_data_read :
      (fb : FastbootDevice P) (w : World)
      → let ((count, bytes), w1) = t.read (length fb.download_data) w in
        count ≡ some (length bytes)
        → (handle_data t true fb w).0 ≡ true
        → (handle_data t true fb w).1.download_data ≡ bytes
  unfolding handle_data
  handle_data_read fb w h e =
      ground (arith, overwrite_all (t.read (length fb.download_data) w).0.1 fb.download_data)

  HasLength : ℕ → Outcome Bool × FastbootDevice P × World → Type 0
  HasLength n (r, fb, w) = length fb.download_data ≡ n

  answer-HasLength :
      (n : ℕ) (result : Result) (message : Text) (fb : FastbootDevice P) (w : World)
      → length fb.download_data ≡ n
      → HasLength n (answer t result message fb w)
  unfolding HasLength
  answer-HasLength n result message fb w h =
      let (_, _, same, _, _) = write_status_frame t result message fb w in ap length same ∙ h

  receive-HasLength :
      (n : ℕ) (fb : FastbootDevice P) (w : World)
      → HasLength (suc n) (receive t (some (suc n)) fb w)
  unfolding receive HasLength
  receive-HasLength n fb w =
      if-elim (HasLength (suc n)) (not sent) (λ _. len1)
        λ _.
          if-elim (HasLength (suc n)) (handle_data t true fb1 w1).0
            (λ _. answer-HasLength (suc n) okay [] _ _ len2)
            (λ _. answer-HasLength (suc n) fail (codes "Couldn't download data") _ _ len2)
    where
      fb' : FastbootDevice P
      fb' = record fb { download_data = resize (suc n) fb.download_data }

      sent : Bool
      sent = (write_status t data_size (hex_digits 8 (suc n)) fb' w).0

      fb1 : FastbootDevice P
      fb1 = (write_status t data_size (hex_digits 8 (suc n)) fb' w).1

      w1 : World
      w1 = (write_status t data_size (hex_digits 8 (suc n)) fb' w).2

      len1 : length fb1.download_data ≡ suc n
      len1 =
          let (_, _, same, _, _) = write_status_frame t data_size (hex_digits 8 (suc n)) fb' w in
          ap length same ∙ length-resize (suc n) fb.download_data

      len2 : length (handle_data t true fb1 w1).1.download_data ≡ suc n
      len2 = length-handle_data fb1 w1 ∙ len1

  answer-IsBounded :
      (result : Result) (message : Text) (fb : FastbootDevice P) (w : World)
      → IsBounded fb.download_data (answer t result message fb w).1.download_data
  answer-IsBounded result message fb w =
      let (_, _, same, _, _) = write_status_frame t result message fb w in inl same

  receive-IsBounded :
      (size : Option ℕ) (fb : FastbootDevice P) (w : World)
      → ((n : ℕ) → size ≡ some n → n ≤ max_download_size)
      → IsBounded fb.download_data (receive t size fb w).1.download_data
  unfolding receive HasLength
  receive-IsBounded none fb w h = answer-IsBounded fail _ fb w
  receive-IsBounded (some zero) fb w h = answer-IsBounded fail _ fb w
  receive-IsBounded (some (suc n)) fb w h =
      let len = receive-HasLength n fb w in
      inr (omega (arith, len), omega (arith, len, h (suc n) refl))

  -- A download leaves the buffer as it was, or with at least one byte and at most the maximum,
  -- whatever the host has asked for and the transport has given. ParseUint is taken to keep to
  -- the maximum that it is given.
  pub download_handler-IsBounded :
      (base : Base)
      → ((s : Text) (max n : ℕ) → base.parse_uint s max ≡ some n → n ≤ max)
      → (args : List Text) (fb : FastbootDevice P) (w : World)
      → IsBounded fb.download_data (download_handler t base args fb w).1.download_data
  unfolding download_handler get_device_lock_status
  download_handler-IsBounded base h [] fb w = answer-IsBounded fail _ fb w
  download_handler-IsBounded base h (name ∷ []) fb w = answer-IsBounded fail _ fb w
  download_handler-IsBounded base h (name ∷ size ∷ args) fb w =
      if-elim {A = Outcome Bool × FastbootDevice P × World}
        (λ r. IsBounded fb.download_data r.1.download_data) (not (length size == 8))
        (λ _. answer-IsBounded fail _ fb w)
        (λ _.
          receive-IsBounded (base.parse_uint (codes "0x" ++ size) max_download_size) fb w
            (λ n e. h (codes "0x" ++ size) max_download_size n e))
