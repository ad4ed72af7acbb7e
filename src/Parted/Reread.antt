-- ===== src/Parted/Reread.antt =====
-- rpiparted::rereadPartitionTable: the retries of BLKRRPART.
use rpi_fastbootd.Prelude.{ℕ, zero, suc, ◌*◌, ◌/◌, none, some, ◌==◌, if◌then◌else◌}
use rpi_fastbootd.Prelude.Text.{Text}
use Prim.Native.Nat.{max}
use rpi_fastbootd.Parted.Fdisk.{Kernel}

-- EBUSY and EIO
abbrev pub ebusy : ℕ
ebusy = 16

abbrev pub eio : ℕ
eio = 5

-- The loop over the attempts; `err` is the last error number.
unfoldable pub attempts : {World : Type 0} → Kernel World → ℕ → ℕ → ℕ → World → ℕ × World
attempts k zero fd err w = (if err == 0 then eio else err, w)
attempts k (suc n) fd err w =
    let (e, w') = k.blkrrpart fd w in
    let again = attempts k n fd e (k.usleep 100000 w') in
    if e == 0 then (0, w') else if e == ebusy then again else (e, w')

-- rereadPartitionTable on an open device: at least one attempt, one each 100 ms.
unfoldable pub reread_fd : {World : Type 0} → Kernel World → ℕ → ℕ → World → ℕ × World
unfolding attempts
reread_fd k fd timeout_sec w = attempts k (max 1 (timeout_sec * 1000 / 100)) fd 0 (k.sync w)

-- rereadPartitionTable on a path
unfoldable pub reread_dev : {World : Type 0} → Kernel World → Text → ℕ → World → ℕ × World
unfolding reread_fd
reread_dev k dev timeout_sec w =
    let (fd, w') = k.open_device dev w in
    elim fd [
      | none ↦ (if k.open_errno w' == 0 then eio else k.open_errno w', w')
      | some n ↦ let (err, w'') = reread_fd k n timeout_sec w' in (err, k.close_fd n w'')
    ]
