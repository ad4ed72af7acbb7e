-- ===== src/Fastboot/PartitionLock/Exclusion.antt =====
-- The guards of a PartitionLockManager exclude each other.
use rpi_fastbootd.Prelude.{
  ℕ, ◌≡◌, refl, inl, inr, Bool, false, ◌||◌, Option, none, some, List, [], ◌∷◌, ◌++◌, arith,
  Bool-cases,
}
use rpi_fastbootd.Prelude.Text.{Text, text_eq, text_eq_sound, text_eq_refl}
use rpi_fastbootd.Fastboot.PartitionLock.{
  PartitionLockManager, find_lock, canonicalise, enter_mutex, lookup_mutex, Claim, is_locked, Locks,
  begin_acquire, LockStep, ask, enter, release, LockReach, begin, step,
}

-- Some guard is for this path.
unfoldable pub is_held : Text → List Claim → Bool
is_held key [] = false
is_held key (c ∷ held) = text_eq c.key key || is_held key held

-- No two guards are for one path.
abbrev pub AreApart : List Claim → Type 0
AreApart [] = Unit
AreApart (c ∷ held) = (is_held c.key held ≡ false) × AreApart held

-- The mutex of each claim is the one that the manager has for its path.
abbrev pub AreKnown : List (Text × ℕ) → List Claim → Type 0
AreKnown locks [] = Unit
AreKnown locks (c ∷ claims) = (find_lock c.key locks ≡ some c.mutex) × AreKnown locks claims

pub remove-AreKnown :
    (locks : List (Text × ℕ)) (before after : List Claim) (c : Claim)
    → AreKnown locks (before ++ (c ∷ after))
    → (find_lock c.key locks ≡ some c.mutex) × AreKnown locks (before ++ after)
remove-AreKnown locks [] after c h = h
remove-AreKnown locks (b ∷ before) after c h =
    let (found, rest) = remove-AreKnown locks before after c h.1 in (found, (h.0, rest))

is_held-remove :
    (key : Text) (before after : List Claim) (c : Claim)
    → is_held key (before ++ (c ∷ after)) ≡ false
    → is_held key (before ++ after) ≡ false
unfolding is_held
is_held-remove key [] after c h = ground arith
is_held-remove key (b ∷ before) after c h = ground (arith, is_held-remove key before after c)

remove-AreApart :
    (before after : List Claim) (c : Claim)
    → AreApart (before ++ (c ∷ after))
    → AreApart (before ++ after)
remove-AreApart [] after c h = h.1
remove-AreApart (b ∷ before) after c h =
    (is_held-remove b.key before after c h.0, remove-AreApart before after c h.1)

-- A lock that is added does not change the mutex of a path that has one.
find_lock-add :
    (key other : Text) (mutex new : ℕ) (locks : List (Text × ℕ))
    → find_lock other locks ≡ none
    → find_lock key locks ≡ some mutex
    → find_lock key ((other, new) ∷ locks) ≡ some mutex
unfolding find_lock
find_lock-add key other mutex new locks absent found = elim (Bool-cases (text_eq other key)) [
  | inl e ↦ let same = text_eq_sound other key e in absurd (cc (same, absent, found))
  | inr e ↦ rw e found
]

find_lock-new :
    (key : Text) (new : ℕ) (locks : List (Text × ℕ)) → find_lock key ((key, new) ∷ locks) ≡ some new
unfolding find_lock
find_lock-new key new locks = rw (text_eq_refl key)

add-AreKnown :
    (other : Text) (new : ℕ) (locks : List (Text × ℕ)) (claims : List Claim)
    → find_lock other locks ≡ none
    → AreKnown locks claims
    → AreKnown ((other, new) ∷ locks) claims
add-AreKnown other new locks [] absent h = tt
add-AreKnown other new locks (c ∷ claims) absent h = (
  find_lock-add c.key other c.mutex new locks absent h.0,
  add-AreKnown other new locks claims absent h.1,
)

-- A mutex that is free is the mutex of no guard's path.
pub is_held-free :
    (locks : List (Text × ℕ)) (c : Claim) (held : List Claim)
    → find_lock c.key locks ≡ some c.mutex
    → AreKnown locks held
    → is_locked c.mutex held ≡ false
    → is_held c.key held ≡ false
unfolding is_locked is_held
is_held-free locks c [] found h free = refl
is_held-free locks c (g ∷ held) found h free = elim (Bool-cases (text_eq g.key c.key)) [
  | inl e ↦
      let same_mutex : g.mutex ≡ c.mutex = cc (text_eq_sound g.key c.key e, found, h.0) in
      absurd (ground arith)
  | inr e ↦ ground (arith, is_held-free locks c held found h.1)
]

abbrev pub IsSound : Locks → Type 0
IsSound s = AreKnown s.manager.locks s.waiting × AreKnown s.manager.locks s.held × AreApart s.held

enter_mutex-AreKnown :
    (m : PartitionLockManager) (key : Text) (claims : List Claim) (before : Option ℕ)
    → find_lock key m.locks ≡ before
    → AreKnown m.locks claims
    → let (mutex, m') = enter_mutex m key before in
      (find_lock key m'.locks ≡ some mutex) × AreKnown m'.locks claims
unfolding enter_mutex
enter_mutex-AreKnown m key claims (some mutex) e h = (e, h)
enter_mutex-AreKnown m key claims none e h =
    (find_lock-new key m.next_mutex m.locks, add-AreKnown key m.next_mutex m.locks claims e h)

-- The mutex that Acquire finds is the path's, and the manager keeps those of the others.
lookup_mutex-AreKnown :
    (m : PartitionLockManager) (key : Text) (claims : List Claim)
    → AreKnown m.locks claims
    → let (mutex, m') = lookup_mutex m key in
      (find_lock key m'.locks ≡ some mutex) × AreKnown m'.locks claims
unfolding lookup_mutex
lookup_mutex-AreKnown m key claims h =
    enter_mutex-AreKnown m key claims (find_lock key m.locks) refl h

begin_acquire-IsSound :
    (s : Locks) (realpath : Text → Option Text) (name : Text)
    → IsSound s
    → IsSound (begin_acquire realpath name s)
unfolding begin_acquire
begin_acquire-IsSound s realpath name (waiting, held, apart) =
    let key = canonicalise realpath name in
    let (found, kept) = lookup_mutex-AreKnown s.manager key s.waiting waiting in
    let (_, guards) = lookup_mutex-AreKnown s.manager key s.held held in
    ((found, kept), guards, apart)

LockStep-IsSound : {s s' : Locks} → LockStep s s' → IsSound s → IsSound s'
LockStep-IsSound (ask s realpath name) h = begin_acquire-IsSound s realpath name h
LockStep-IsSound (enter m before after held c free) (waiting, guards, apart) =
    let (found, kept) = remove-AreKnown m.locks before after c waiting in
    (kept, (found, guards), (is_held-free m.locks c held found guards free, apart))
LockStep-IsSound (release m waiting before after c) (waits, guards, apart) =
    let (_, kept) = remove-AreKnown m.locks before after c guards in
    (waits, kept, remove-AreApart before after c apart)

pub LockReach-IsSound : {s : Locks} → LockReach s → IsSound s
LockReach-IsSound begin = (tt, tt, tt)
LockReach-IsSound (step r s) = LockStep-IsSound s (LockReach-IsSound r)

-- However the threads that acquire and release partitions are interleaved, and whatever realpath
-- answers in between, there are never two guards for one canonical path.
pub LockReach-AreApart : (s : Locks) → LockReach s → AreApart s.held
LockReach-AreApart s r = let (_, _, apart) = LockReach-IsSound r in apart
