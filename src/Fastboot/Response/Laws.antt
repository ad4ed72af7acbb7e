-- ===== src/Fastboot/Response/Laws.antt =====
-- What the host reads from WriteStatus.
use Prim.Native.Nat.{min}
use rpi_fastbootd.Prelude.{
  ℕ, zero, suc, ◌+◌, ◌≤◌, ◌<◌, ◌≡◌, refl, sym, ap, ◌∙◌, ◌↔◌, inl, inr, Bool, true, false, not, ◌||◌,
  some, List, [], ◌∷◌, ◌++◌, arith, ltb, leb, if◌then◌else◌, Bool-cases, if-elim, length, take,
  length-append, length-take,
}
use rpi_fastbootd.Prelude.Text.{Text, codes}
use rpi_fastbootd.Idp.Device.Platform.{Parser}
use rpi_fastbootd.Fastboot.Transport.{
  Transport, FastbootDevice, Result, okay, fail, info, data_size,
}
use rpi_fastbootd.Fastboot.Response.{
  result_string, ellipsis, is_human, is_final, write_status, kept, response,
}

take-all : {A : Type 0} (xs : List A) → take (length xs) xs ≡ xs
take-all [] = refl
take-all (x ∷ xs) = ap (λ ys. x ∷ ys) (take-all xs)

length-result_string : (result : Result) → length (result_string result) ≡ 4
length-result_string okay = refl
length-result_string fail = refl
length-result_string info = refl
length-result_string data_size = refl

kept_fits : (human : Bool) (message : Text) → length message ≤ 252 → kept human message ≡ message
unfolding kept
kept_fits human message h = rw (is_len, not_less) (take-all message)
  where
    is_len : min 252 (length message) ≡ length message
    is_len = omega arith

    not_less : ltb (length message) (length message) ≡ false
    not_less = ground arith

kept_over :
    (human : Bool) (message : Text)
    → 252 < length message
    → kept human message ≡ (if human then take 249 message ++ ellipsis else take 252 message)
unfolding kept
kept_over human message h = rw (is_max, less) refl
  where
    is_max : min 252 (length message) ≡ 252
    is_max = omega arith

    less : ltb 252 (length message) ≡ true
    less = ground arith

length-kept :
    (human : Bool) (message : Text) → length (kept human message) ≡ min 252 (length message)
length-kept human message = elim (Bool-cases (leb (length message) 252)) [
  | inl e ↦ rw (kept_fits human message (ground arith)) (omega (arith, fits e))
  | inr e ↦ rw (kept_over human message (over e)) (length-cut human (over e))
]
  where
    fits : leb (length message) 252 ≡ true → length message ≤ 252
    fits e = ground arith

    over : leb (length message) 252 ≡ false → 252 < length message
    over e = ground arith

    length-cut :
        (human : Bool)
        → 252 < length message
        → length (if human then take 249 message ++ ellipsis else take 252 message)
          ≡ min 252 (length message)
    length-cut true h =
        omega (arith, length-append (take 249 message) ellipsis, length-take 249 message)
    length-cut false h = omega (arith, length-take 252 message)

-- A message that fits is sent whole. One that does not is cut: to its first 249 bytes and an
-- ellipsis if a person reads the result, to its first 252 bytes if a program does.
pub response_cut :
    (result : Result) (message : Text)
    → response result message
      ≡ result_string result
        ++ (if leb (length message) 252
            then message
            else if is_human result
            then take 249 message ++ ellipsis
            else take 252 message)
unfolding response
response_cut result message = elim (Bool-cases (leb (length message) 252)) [
  | inl e ↦ rw (e, kept_fits (is_human result) message (ground arith)) refl
  | inr e ↦ rw (e, kept_over (is_human result) message (ground arith)) refl
]

-- A response always fits the buffer of 256 bytes: the result takes four, and what is left of the
-- message at most 252.
pub length-response :
    (result : Result) (message : Text)
    → length (response result message) ≡ 4 + min 252 (length message)
unfolding response
length-response result message =
    rw
      (
        length-append (result_string result) (kept (is_human result) message),
        length-result_string result,
        length-kept (is_human result) message,
      )
      refl

-- A message for a person: whole if it has 252 bytes at most, or else with its cut marked.
abbrev pub shortened : Text → Text
shortened message = if leb (length message) 252 then message else take 249 message ++ codes "..."

-- What the host is to read.
abbrev pub expected : Result → Text → Text
expected okay message = codes "OKAY" ++ take 252 message
expected fail message = codes "FAIL" ++ shortened message
expected info message = codes "INFO" ++ shortened message
expected data_size message = codes "DATA" ++ take 252 message

take_fits : (n : ℕ) (s : Text) → length s ≤ n → take n s ≡ s
take_fits zero [] h = refl
take_fits zero (c ∷ s) h = absurd (omega (arith, h))
take_fits (suc n) [] h = refl
take_fits (suc n) (c ∷ s) h = ap (λ t. c ∷ t) (take_fits n s (omega (arith, h)))

whole :
    (message : Text)
    → (if leb (length message) 252 then message else take 252 message) ≡ take 252 message
whole message =
    if-elim {A = Text} (λ s. s ≡ take 252 message) (leb (length message) 252)
      (λ h. sym (take_fits 252 message (ground arith))) (λ _. refl)

response-expected :
    (result : Result) (message : Text) → response result message ≡ expected result message
unfolding codes
response-expected okay message =
    response_cut okay message ∙ ap (λ s. codes "OKAY" ++ s) (whole message)
response-expected fail message = response_cut fail message
response-expected info message = response_cut info message
response-expected data_size message =
    response_cut data_size message ∙ ap (λ s. codes "DATA" ++ s) (whole message)

-- A final status either goes out, or it shows that the transport has failed.
abbrev pub IsSettled : {P : Parser} {World : Type 0} → Bool × FastbootDevice P × World → Type 0
IsSettled (sent, fb, w) =
    (sent ≡ true → fb.replied ≡ true) × (sent ≡ false → fb.transport_failed ≡ true)

module _ {P : Parser} {World : Type 0} (t : Transport World) where
  pub write_status-IsSettled :
      (result : Result) (message : Text) (fb : FastbootDevice P) (w : World)
      → is_final result ≡ true
      → IsSettled (write_status t result message fb w)
  unfolding write_status
  write_status-IsSettled result message fb w h = ground arith

  -- WriteStatus writes once: the four letters of the result, and of the message as much as makes
  -- 256 bytes with them. An OKAY or DATA that is longer is cut at 252 bytes, a FAIL or INFO at 249
  -- with three dots behind. It succeeds exactly when the transport takes all the bytes, and marks
  -- the transport as failed if it does not succeed.
  pub write_status_lem :
      (result : Result) (message : Text) (fb : FastbootDevice P) (w : World)
      → let (count, w1) = t.write (expected result message) w in
        let (sent, fb', w') = write_status t result message fb w in
        (length (expected result message) ≡ 4 + min 252 (length message))
        × (w' ≡ w1)
        × ((sent ≡ true) ↔ (count ≡ some (4 + min 252 (length message))))
        × (fb'.transport_failed ≡ fb.transport_failed || not sent)
  unfolding write_status
  write_status_lem result message fb w =
      rw (← response-expected result message)
        (rw (length-response result message) (refl, ground arith, ground arith, ground arith))

  -- A status leaves the rest of the session alone, and no status is taken back.
  pub write_status_frame :
      (result : Result) (message : Text) (fb : FastbootDevice P) (w : World)
      → let (sent, fb', w') = write_status t result message fb w in
        (fb'.idp ≡ fb.idp)
        × (fb'.idpcookie ≡ fb.idpcookie)
        × (fb'.download_data ≡ fb.download_data)
        × (fb.replied ≡ true → fb'.replied ≡ true)
        × (fb.transport_failed ≡ true → fb'.transport_failed ≡ true)
  unfolding write_status
  write_status_frame result message fb w = ground arith
