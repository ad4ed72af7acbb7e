-- ===== src/Fastboot/Flash.antt =====
-- Writing an image to a block device (fastboot/device/flashing.cpp).
pub mod Handler
pub mod Disk
pub mod Copied
pub mod Laws
pub mod Ends
pub mod Erase
use rpi_fastbootd.Prelude.{
  ℕ, zero, suc, ◌+◌, ◌-◌, ◌*◌, ◌/◌, ◌%◌, ◌^◌, ◌≤◌, ◌<◌, ◌≡◌, refl, sym, ap, subst, ◌∙◌, fun_ext,
  ◌≢◌, ◌↔◌, ◌⊎◌, inl, inr, Bool, true, false, not, ◌&&◌, ◌||◌, Option, none, some, List, [], ◌∷◌,
  ◌++◌, map, append_assoc, append-nil, arith, ltb, leb, ◌==◌, if◌then◌else◌, ltb→lt, le→leb, ==_iff,
  Bool-cases, Option-cases, has_value, u64_mod, u64, if-elim, length, get_elem?, set, take,
  length-append, length-take, length-set, get_elem?-set_self, get_elem?-set_ne, get_elem?-lt-length,
  get_elem?-eq-none, ℕ_discrete,
}
use rpi_fastbootd.Prelude.Text.{
  Text, codes, text_eq, text_eq_sound, text_eq_refl, is_empty, is_digit, decimal, decimal_fuel,
  digits_value, digits_value-decimal, decimal-injective, to_lower, starts_with, contains,
  after_last_slash,
}
use rpi_fastbootd.Fastboot.Files.{
  Files, PartitionHandle, write_only, seek_set, seek_cur, reset_handle, get_block_device_size,
}

abbrev pub enoent : ℕ
enoent = 2

abbrev pub eio : ℕ
eio = 5

abbrev pub enomem : ℕ
enomem = 12

abbrev pub einval : ℕ
einval = 22

abbrev pub efbig : ℕ
efbig = 27

abbrev pub eoverflow : ℕ
eoverflow = 75

-- What the functions change: the handle, the error string, and the system. Their result is an
-- error number, which the source has with a minus sign, or 0.
pub record Flashing (World : Type 0) : Type 0 where
  pub handle : PartitionHandle
  pub err : Text
  pub world : World

-- SetErr
unfoldable pub set_err : {World : Type 0} → Text → Flashing World → Flashing World
set_err msg s = if is_empty s.err then record s { err = msg } else s

abbrev pub max_write_size : ℕ
max_write_size = 1048576

unfoldable pub drop : ℕ → Text → Text
drop zero s = s
drop (suc n) [] = []
drop (suc n) (c ∷ s) = drop n s

-- std::to_string of an off64_t
abbrev pub offset_text : Option ℕ → Text
offset_text none = codes "-1"
offset_text (some n) = decimal n

-- A round of the loop of FlashRawDataChunk: bytes that were written, or an error number.
pub data Written : Type 0 where
  wrote failed : ℕ → Written

module _ {World : Type 0} (files : Files World) where
  -- Without O_DIRECT from a piece on that is not a number of pages.
  unfoldable pub prepare : ℕ → Flashing World → Bool × Flashing World
  prepare this_len s =
      let (reset, h, w) = reset_handle files write_only s.handle s.world in
      if this_len % 4096 == 0 then (true, s) else (reset, record s { handle = h; world = w })

  abbrev pub after_write :
      Option ℕ → Option ℕ × World → ℕ → Flashing World → Written × Flashing World
  after_write offset (some n, w) this_len s = (wrote n, record s { world = w })
  after_write offset (none, w) this_len s =
      let saved = files.errno w in
      (
        failed saved,
        set_err
            (codes "write("
              ++ decimal this_len
              ++ codes "B) to "
              ++ s.handle.path
              ++ codes " at offset "
              ++ offset_text offset
              ++ codes " failed: "
              ++ files.strerror saved)
            (record s { world = w }),
      )

  unfoldable pub write_piece : Text → Flashing World → Written × Flashing World
  write_piece piece s =
      let (offset, w) = files.lseek s.handle.fd 0 seek_cur s.world in
      after_write offset (files.write s.handle.fd piece w) (length piece) s

  unfoldable pub write_round : Text → Flashing World → Written × Flashing World
  unfolding prepare write_piece
  write_round piece s =
      let (ready, s1) = prepare (length piece) s in
      if ready then write_piece piece s1 else (
        failed eio,
        set_err
            (codes "failed to drop O_DIRECT on "
              ++ s1.handle.path
              ++ codes " for unaligned tail write")
            s1,
      )

  -- The loop over what is left of the data, as far as the fuel: write may give 0.
  unfoldable pub write_loop : ℕ → Text → Flashing World → Option (ℕ × Flashing World)
  write_loop fuel [] s = some (0, s)
  write_loop zero (c ∷ data_left) s = none
  write_loop (suc fuel) (c ∷ data_left) s =
      let (result, s1) = write_round (take max_write_size (c ∷ data_left)) s in
      elim result [
        | wrote n ↦ write_loop fuel (drop n (c ∷ data_left)) s1
        | failed e ↦ some (e, s1)
      ]

  -- FlashRawDataChunk
  unfoldable pub flash_raw_data_chunk : ℕ → Text → Flashing World → Option (ℕ × Flashing World)
  flash_raw_data_chunk fuel image s =
      if files.memalign s.world
      then write_loop fuel image s
      else some (
        enomem,
        set_err
            (codes "posix_memalign of " ++ decimal max_write_size ++ codes "B write buffer failed")
            s,
      )

-- libsparse. A length is none when it is negative; the callback gets the bytes of a block, or the
-- length of one to skip.
pub record Sparse (World : Type 0) : Type 1 where
  pub File : Type 0
  pub import_buf : Text → Option File
  pub file_len : File → Option ℕ
  pub file_callback :
      File
      → (Option Text → ℕ → Flashing World → Option (ℕ × Flashing World))
      → Flashing World
      → Option (ℕ × Flashing World)

abbrev pub target_text : Option ℕ → ℕ → Text
target_text none len = codes "-1"
target_text (some before) len = decimal (before + len)

abbrev pub is_longer : Option ℕ → ℕ → Bool
is_longer none size = false
is_longer (some expanded) size = ltb size expanded

-- SPARSE_HEADER_MAGIC, in the order of the bytes in memory
unfoldable pub is_sparse : Text → Bool
is_sparse image = starts_with image (58 ∷ 255 ∷ 38 ∷ 237 ∷ [])

module _ {World : Type 0} (files : Files World) (sparse : Sparse World) where
  -- WriteCallback on a block to skip
  unfoldable pub skip_block : ℕ → ℕ → Flashing World → ℕ × Flashing World
  skip_block block_device_size len s =
      let (before, w) = files.lseek s.handle.fd 0 seek_cur s.world in
      let (found, w1) = files.lseek s.handle.fd len seek_cur w in
      let saved = files.errno w1 in
      if has_value found then (0, record s { world = w1 }) else (
        saved,
        set_err
            (codes "sparse skip: lseek to offset "
              ++ target_text before len
              ++ codes " on "
              ++ s.handle.path
              ++ codes " (size "
              ++ decimal block_device_size
              ++ codes ") failed: "
              ++ files.strerror saved)
            (record s { world = w1 }),
      )

  -- WriteCallback
  unfoldable pub write_callback :
      ℕ → ℕ → Option Text → ℕ → Flashing World → Option (ℕ × Flashing World)
  unfolding skip_block
  write_callback fuel block_device_size none len s = some (skip_block block_device_size len s)
  write_callback fuel block_device_size (some block) len s = flash_raw_data_chunk files fuel block s

  -- FlashSparseData on the file that was imported
  unfoldable pub flash_sparse_file :
      ℕ → Option (Sparse.File sparse) → Text → ℕ → Flashing World → Option (ℕ × Flashing World)
  unfolding write_callback
  flash_sparse_file fuel none image size s = some (
    einval,
    set_err
        (codes "not a valid sparse image (sparse_file_import_buf failed on "
          ++ decimal (length image)
          ++ codes "B payload)")
        s,
  )
  flash_sparse_file fuel (some file) image size s =
      if is_longer (sparse.file_len file) size
      then some (
        efbig,
        set_err
            (codes "sparse image expands to "
              ++ offset_text (sparse.file_len file)
              ++ codes "B but partition "
              ++ s.handle.path
              ++ codes " is only "
              ++ decimal size
              ++ codes "B")
            s,
      )
      else sparse.file_callback file (write_callback fuel size) s

  -- FlashBlockDevice
  unfoldable pub flash_block_device : ℕ → Text → ℕ → Flashing World → Option (ℕ × Flashing World)
  unfolding flash_sparse_file is_sparse
  flash_block_device fuel image size s =
      let s1 : Flashing World = record s {
        world = (files.lseek s.handle.fd 0 seek_set s.world).1;
      } in
      if is_sparse image
      then flash_sparse_file fuel (sparse.import_buf image) image size s1
      else flash_raw_data_chunk files fuel image s1
