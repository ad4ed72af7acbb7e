-- ===== src/Examples/Locks.antt =====
-- Two names of one partition, and another partition.
use rpi_fastbootd.Prelude.{
  ℕ, ◌≡◌, refl, subst, ◌⊎◌, Option, none, some, [], ◌∷◌, ◌++◌, if◌then◌else◌,
}
use rpi_fastbootd.Prelude.Text.{Text, codes, text_eq, starts_with}
use rpi_fastbootd.Fastboot.PartitionLock.{
  PartitionLockManager, find_lock, canonicalise, enter_mutex, lookup_mutex, Claim, is_locked, Locks,
  begin_acquire, LockStep, ask, enter, no_locks, LockReach, begin, step,
}
use rpi_fastbootd.Fastboot.PartitionLock.Exclusion.{AreApart, LockReach-AreApart}
use rpi_fastbootd.Fastboot.PartitionLock.Monitor.{MonitorStep, held_paths, LockStep-IsMonitored}
use rpi_fastbootd.Fastboot.PartitionLock.Progress.{LetsIn, GuardOf, LockReach-LetsIn}

-- The link system_a names the second partition.
abbrev links : Text → Option Text
links path = if text_eq path (codes "/dev/system_a") then some (codes "/dev/mmcblk0p2") else none

abbrev claim : Text → ℕ → Claim
claim key mutex = record { key = key; mutex = mutex }

abbrev second : Claim
second = claim (codes "/dev/mmcblk0p2") 0

abbrev third : Claim
third = claim (codes "/dev/mmcblk0p3") 1

abbrev manager : PartitionLockManager
manager = record {
  locks = (codes "/dev/mmcblk0p3", 1) ∷ (codes "/dev/mmcblk0p2", 0) ∷ [];
  next_mutex = 2;
}

-- Two calls for the second partition and one for the third.
abbrev asked : Locks
asked = record { manager = manager; waiting = third ∷ second ∷ second ∷ []; held = [] }

asked_lem :
    begin_acquire links (codes "mmcblk0p3") (
      begin_acquire links
        (codes "/dev/system_a")
        (begin_acquire links (codes "mmcblk0p2") no_locks))
    ≡ asked
unfolding begin_acquire canonicalise lookup_mutex enter_mutex find_lock text_eq codes starts_with
asked_lem = refl

asked-LockReach : LockReach asked
asked-LockReach = subst LockReach asked_lem (
    step (step (step begin (ask _ links (codes "mmcblk0p2"))) (ask _ links (codes "/dev/system_a")))
      (ask _ links (codes "mmcblk0p3")))

-- One call for each partition has gone on.
abbrev entered : Locks
entered = record { manager = manager; waiting = second ∷ []; held = third ∷ second ∷ [] }

entered-LockReach : LockReach entered
unfolding is_locked
entered-LockReach =
    step (step asked-LockReach (enter manager (third ∷ []) (second ∷ []) [] second refl))
      (enter manager [] (second ∷ []) (second ∷ []) third refl)

LockReach-AreApart_example : AreApart (third ∷ second ∷ [])
LockReach-AreApart_example = LockReach-AreApart entered entered-LockReach

-- The first call for the second partition has gone on.
abbrev one_entered : Locks
one_entered = record { manager = manager; waiting = third ∷ second ∷ []; held = second ∷ [] }

enters_second : LockStep asked one_entered
unfolding is_locked
enters_second = enter manager (third ∷ []) (second ∷ []) [] second refl

LockStep-IsMonitored_example : MonitorStep (held_paths asked) (held_paths one_entered)
LockStep-IsMonitored_example = LockStep-IsMonitored asked one_entered asked-LockReach enters_second

LockReach-LetsIn_example :
    LetsIn entered [] [] second (third ∷ second ∷ [])
    ⊎ ((g : GuardOf (codes "/dev/mmcblk0p2") (third ∷ second ∷ [])) × LetsIn entered [] [] second
          (g.before ++ g.after))
LockReach-LetsIn_example = LockReach-LetsIn entered [] [] second entered-LockReach refl
