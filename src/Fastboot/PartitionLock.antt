-- ===== src/Fastboot/PartitionLock.antt =====
-- PartitionLockManager (fastboot/device/partition_lock_manager.cpp): the mutexes of the partitions,
-- and the steps of the threads that acquire and release them.
pub mod Contention
pub mod Exclusion
pub mod Monitor
pub mod Progress
use rpi_fastbootd.Prelude.{
  ℕ, ◌+◌, ◌≡◌, Bool, true, false, ◌||◌, Option, none, some, List, [], ◌∷◌, ◌++◌, ◌==◌,
  if◌then◌else◌,
}
use rpi_fastbootd.Prelude.Text.{Text, codes, text_eq, starts_with}

-- locks_: each path has the mutex with this number; mutexes that were made have smaller numbers
-- than the next.
pub record PartitionLockManager : Type 0 where
  pub locks : List (Text × ℕ)
  pub next_mutex : ℕ

-- std::map::find
unfoldable pub find_lock : Text → List (Text × ℕ) → Option ℕ
find_lock key [] = none
find_lock key ((path, mutex) ∷ locks) = if text_eq path key then some mutex else find_lock key locks

-- realpath is the file system's answer at the time of the call.
unfoldable pub canonicalise : (Text → Option Text) → Text → Text
canonicalise realpath name =
    let candidate = if starts_with name (codes "/") then name else codes "/dev/" ++ name in
    elim (realpath candidate) [ some resolved ↦ resolved | none ↦ candidate ]

-- The mutex that was found, or a new one that is entered.
unfoldable pub enter_mutex : PartitionLockManager → Text → Option ℕ → ℕ × PartitionLockManager
enter_mutex m key (some mutex) = (mutex, m)
enter_mutex m key none =
    (m.next_mutex, record { locks = (key, m.next_mutex) ∷ m.locks; next_mutex = m.next_mutex + 1 })

-- The part of Acquire under map_mutex_.
unfoldable pub lookup_mutex : PartitionLockManager → Text → ℕ × PartitionLockManager
lookup_mutex m key = enter_mutex m key (find_lock key m.locks)

-- A call of Acquire, which waits for its mutex or, as a PartitionLockGuard, has it.
pub record Claim : Type 0 where
  pub key : Text
  pub mutex : ℕ

-- A std::mutex is locked while a guard has it.
unfoldable pub is_locked : ℕ → List Claim → Bool
is_locked mutex [] = false
is_locked mutex (c ∷ held) = c.mutex == mutex || is_locked mutex held

-- The manager, the calls that wait, and the guards, over all threads.
pub record Locks : Type 0 where
  pub manager : PartitionLockManager
  pub waiting : List Claim
  pub held : List Claim

unfoldable pub begin_acquire : (Text → Option Text) → Text → Locks → Locks
begin_acquire realpath name s =
    let key = canonicalise realpath name in
    let (mutex, manager) = lookup_mutex s.manager key in
    record s { manager = manager; waiting = record { key = key; mutex = mutex } ∷ s.waiting }

-- Acquire looks its mutex up at once, and goes on when the mutex is free; the destructor of a guard
-- releases it.
pub data LockStep : Locks → Locks → Type 0 where
  ask :
      (s : Locks) (realpath : Text → Option Text) (name : Text)
      → LockStep s (begin_acquire realpath name s)
  enter :
      (m : PartitionLockManager) (before after held : List Claim) (c : Claim)
      → is_locked c.mutex held ≡ false
      → LockStep
          record { manager = m; waiting = before ++ (c ∷ after); held = held }
          record { manager = m; waiting = before ++ after; held = c ∷ held }
  release :
      (m : PartitionLockManager) (waiting before after : List Claim) (c : Claim)
      → LockStep
          record { manager = m; waiting = waiting; held = before ++ (c ∷ after) }
          record { manager = m; waiting = waiting; held = before ++ after }

abbrev pub no_locks : Locks
no_locks = record { manager = record { locks = []; next_mutex = 0 }; waiting = []; held = [] }

pub data LockReach : Locks → Type 0 where
  begin : LockReach no_locks
  step : {s s' : Locks} → LockReach s → LockStep s s' → LockReach s'
