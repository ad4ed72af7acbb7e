-- ===== src/Parted/Laws.antt =====
-- What the methods of RPIparted promise, whatever libfdisk and the kernel answer.
use Prim.Native.Nat.{max}
use rpi_fastbootd.Prelude.{
  ℕ, zero, suc, ◌+◌, ◌-◌, ◌*◌, ◌/◌, ◌%◌, ◌≤◌, ◌<◌, ◌≡◌, ◌≢◌, ◌↔◌, ◌⊎◌, inl, inr, true, false,
  Option, none, some, arith, Option-cases, u64_mod, ℕ_discrete,
}
use rpi_fastbootd.Prelude.Text.{Text, codes, text_eq, to_lower}
use rpi_fastbootd.Prelude.Outcome.{ok}
use rpi_fastbootd.Prelude.Rounding.{round_up, round_up-mod, round_up-le, round_up-lt}
use native.Mathlib.Nat.{mul-le-mul_right, add-mul-div_right}
use rpi_fastbootd.Parted.Fdisk.{Fdisk, Kernel}
use rpi_fastbootd.Parted.Reread.{attempts, reread_fd, reread_dev, ebusy}
use rpi_fastbootd.Parted.ZeroId.{is_zero_id}
use rpi_fastbootd.Parted.Device.{Parted, PartitionAttributes, size_in_sectors, given}
use rpi_fastbootd.Parted.Ops.{
  close_device, open_device, label_type, create_partition_table, append_partition, remove_partition,
  commit, commit_and_reread,
}

-- The error number of attempt number `n`, from 0 on.
abbrev pub answer : {World : Type 0} → Kernel World → ℕ → ℕ → World → ℕ
answer k zero fd w = (k.blkrrpart fd w).0
answer k (suc n) fd w = answer k n fd (k.usleep 100000 (k.blkrrpart fd w).1)

-- One of the first `n` attempts succeeds, and every one before it found the device busy.
abbrev pub Adopted : {World : Type 0} → Kernel World → ℕ → ℕ → World → Type 0
Adopted k n fd w =
    (i : ℕ) × (i < n) × (answer k i fd w ≡ 0) × ((j : ℕ) → j < i → answer k j fd w ≡ ebusy)

module _ {World : Type 0} (k : Kernel World) (fd : ℕ) where
  Adopted-later :
      (n : ℕ) (w : World)
      → answer k 0 fd w ≡ ebusy
      → Adopted k n fd (k.usleep 100000 (k.blkrrpart fd w).1)
      → Adopted k (suc n) fd w
  Adopted-later n w busy (i, lt, hit, before) = (suc i, omega arith, hit, earlier)
    where
      earlier : (j : ℕ) → j < suc i → answer k j fd w ≡ ebusy
      earlier zero h = busy
      earlier (suc j) h = before j (omega arith)

  attempts-Adopted : (n err : ℕ) (w : World) → (attempts k n fd err w).0 ≡ 0 → Adopted k n fd w
  unfolding attempts
  attempts-Adopted zero err w h = absurd (ground arith)
  attempts-Adopted (suc n) err w h = elim (ℕ_discrete (answer k 0 fd w) 0) [
    | yes hit ↦ (0, omega arith, hit, λ j lt. absurd (omega arith))
    | no miss ↦ elim (ℕ_discrete (answer k 0 fd w) ebusy) [
      | yes busy ↦ Adopted-later n w busy (
          attempts-Adopted n (k.blkrrpart fd w).0 (k.usleep 100000 (k.blkrrpart fd w).1)
            (ground arith))
      | no other ↦ absurd (ground arith)
    ]
  ]

  Adopted-attempts : (n err : ℕ) (w : World) → Adopted k n fd w → (attempts k n fd err w).0 ≡ 0
  unfolding attempts
  Adopted-attempts zero err w (i, lt, hit, before) = absurd (omega arith)
  Adopted-attempts (suc n) err w (zero, lt, hit, before) = ground arith
  Adopted-attempts (suc n) err w (suc i, lt, hit, before) = ground (
    arith,
    before 0 (omega arith),
    Adopted-attempts n (k.blkrrpart fd w).0 (k.usleep 100000 (k.blkrrpart fd w).1)
        (i, omega arith, hit, λ j h. before (suc j) (omega arith)),
  )

  -- rereadPartitionTable reports success exactly when one of its attempts succeeds and every
  -- attempt before that one found the device busy. There is at least one attempt, and otherwise
  -- one for each tenth of a second of the time given.
  pub reread_fd-Adopted :
      (timeout_sec : ℕ) (w : World)
      → ((reread_fd k fd timeout_sec w).0 ≡ 0) ↔ Adopted k (max 1 (timeout_sec * 10)) fd (k.sync w)
  unfolding reread_fd
  reread_fd-Adopted timeout_sec w =
      rw (tenths timeout_sec) (attempts-Adopted _ 0 (k.sync w), Adopted-attempts _ 0 (k.sync w))
    where
      tenths : (t : ℕ) → t * 1000 / 100 ≡ t * 10
      tenths t = omega arith

mul-div_cancel : (g : ℕ) {n : ℕ} → 0 < n → g * n / n ≡ g
mul-div_cancel g h = ground (arith, add-mul-div_right 0 g h)

scaled_le : (a n sector size : ℕ) → a ≤ n → size ≤ a * sector → size ≤ n * sector
scaled_le a n sector size h k = grind arith

scaled_lt :
    (a n g sector size : ℕ)
    → n < a + g
    → a * sector < size + sector
    → n * sector < size + g * sector
scaled_lt a n g sector size h k = omega (arith, grown, k)
  where
    grown : (n + 1) * sector ≤ (a + g) * sector
    grown = mul-le-mul_right sector (omega arith)

-- For a device whose grain is a whole number of sectors, neither of them zero, and a size that is
-- at least a sector below 2^64, the size is turned into the least whole number of grains that
-- holds it: the sectors are a multiple of the grain, hold the size, and exceed it by less than a
-- grain.
pub size_in_sectors-bounds :
    (g sector size : ℕ)
    → 0 < g
    → 0 < sector
    → size + sector ≤ u64_mod
    → (n : ℕ) × (size_in_sectors (g * sector) sector size ≡ ok n)
      × (n % g ≡ 0)
      × (size ≤ n * sector)
      × (n * sector < size + g * sector)
unfolding size_in_sectors
size_in_sectors-bounds g sector size hg hs fits = (
  round_up ((size + sector - 1) / sector) g,
  ground (arith, mul-div_cancel g hs),
  round_up-mod ((size + sector - 1) / sector) g,
  scaled_le _ _ sector size (round_up-le ((size + sector - 1) / sector) g hg)
      (round_up-le size sector hs),
  scaled_lt _ _ g sector size (round_up-lt ((size + sector - 1) / sector) g hg)
      (round_up-lt size sector hs),
)

module _ {World : Type 0} (f : Fdisk World) where
  -- closeDevice leaves no context, and no device assigned if there was a context.
  pub close_device-context :
      (d : Parted f) (w : World)
      → ((close_device f d w).0.context ≡ none)
        × ((d.context ≡ none) ⊎ ((close_device f d w).0.device_assigned ≡ false))
  unfolding close_device
  close_device-context d w = ground arith

  -- openDevice succeeds with a context, an assigned device and sectors of a size that is not zero;
  -- where it fails there is no context, or the sector size is zero.
  pub open_device-state :
      (d : Parted f) (dev : Text) (align_kb : ℕ) (w : World)
      → let (opened, d', w1) = open_device f d dev align_kb w in
        ((opened ≡ true) × (d'.context ≢ none) × (d'.device_assigned ≡ true) × (d'.sector_size ≢ 0))
        ⊎ ((opened ≡ false) × ((d'.context ≡ none) ⊎ (d'.sector_size ≡ 0)))
  unfolding open_device
  open_device-state d dev align_kb w = ground (arith)

  -- Without a context every operation fails, and changes neither the object nor the world.
  pub no_context :
      (k : Kernel World) (d : Parted f) (w : World)
      → d.context ≡ none
      → ((type : Text) (id : Option Text) → create_partition_table f d type id w ≡ (false, d, w))
        × ((attrs : PartitionAttributes) → append_partition f d attrs w ≡ (ok false, w))
        × ((n : ℕ) → remove_partition f d n w ≡ (false, w))
        × (commit f d w ≡ (false, w))
        × ((t : ℕ) → commit_and_reread f k d t w ≡ (false, d, w))
  unfolding create_partition_table append_partition remove_partition commit commit_and_reread
  no_context k d w e = (
    λ type id. simp (e, create_partition_table),
    λ attrs. simp (e, append_partition),
    λ n. simp (e, remove_partition),
    simp (e, commit),
    λ t. simp (e, commit_and_reread),
  )

  -- createPartitionTable succeeds only on a context, for gpt, dos or mbr in any case; it then
  -- remembers whether the table is a GPT, and a given identifier was accepted by libfdisk and is
  -- not all zeros on the new label.
  pub create_partition_table-ok :
      (d : Parted f) (type : Text) (id : Option Text) (w : World)
      → (create_partition_table f d type id w).0 ≡ true
      → (c : Fdisk.Context f) × (name : Text) × (d.context ≡ some c)
        × (label_type f (to_lower type) ≡ some name)
        × ((create_partition_table f d type id w).1
            ≡ record d { is_gpt = text_eq (to_lower type) (codes "gpt") })
        × ((given id ≡ none)
            ⊎ ((applied : Text)
                → f.get_disklabel_id c (create_partition_table f d type id w).2 ≡ some applied
                → is_zero_id applied ≡ false))
  unfolding create_partition_table
  create_partition_table-ok d type id w h = elim (Option-cases d.context) [
    | inl e ↦ absurd (ground arith)
    | inr (c, e) ↦ elim (Option-cases (label_type f (to_lower type))) [
      | inl none_such ↦ absurd (ground arith)
      | inr (name, known) ↦ (
        c,
        name,
        e,
        known,
        ground arith,
        elim (Option-cases (given id)) [
          | inl absent ↦ inl absent
          | inr (t, present) ↦ inr (λ applied r. ground arith)
        ],
      )
    ]
  ]

  -- commitAndReread succeeds only with the table written, the device closed and the new table
  -- adopted by the kernel.
  pub commit_and_reread-ok :
      (k : Kernel World) (d : Parted f) (t : ℕ) (w : World)
      → (commit_and_reread f k d t w).0 ≡ true
      → (dev : Text) × ((c : Fdisk.Context f) × (d.context ≡ some c)
          × (f.get_devname c w ≡ some dev))
        × ((commit f d w).0 ≡ true)
        × ((commit_and_reread f k d t w).1.context ≡ none)
        × ((reread_dev k dev t (close_device f d (commit f d w).1).1).0 ≡ 0)
  unfolding commit_and_reread
  commit_and_reread-ok k d t w h = elim (Option-cases d.context) [
    | inl e ↦ absurd (ground arith)
    | inr (c, e) ↦ elim (Option-cases (f.get_devname c w)) [
      | inl unnamed ↦ absurd (ground arith)
      | inr (dev, named) ↦ (
        dev,
        (c, e, named),
        ground arith,
        ground (arith, close_device-context d (commit f d w).1),
        ground arith,
      )
    ]
  ]
