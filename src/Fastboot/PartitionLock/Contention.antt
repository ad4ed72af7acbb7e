-- ===== src/Fastboot/PartitionLock/Contention.antt =====
-- A call of Acquire waits for the guards of its own path only.
use rpi_fastbootd.Prelude.{
  ℕ, ◌<◌, ◌≡◌, sym, ap, subst, ◌∙◌, ◌⊎◌, inl, inr, true, Option, none, some, List, [], ◌∷◌, ◌++◌,
  arith, ◌==◌, ==_iff, Bool-cases,
}
use rpi_fastbootd.Prelude.Text.{Text, text_eq, text_eq_sound, text_eq_refl}
use rpi_fastbootd.Fastboot.PartitionLock.{
  PartitionLockManager, find_lock, canonicalise, enter_mutex, lookup_mutex, Claim, is_locked, Locks,
  begin_acquire, LockStep, ask, enter, release, LockReach, begin, step,
}
use rpi_fastbootd.Fastboot.PartitionLock.Exclusion.{
  is_held, AreKnown, remove-AreKnown, LockReach-IsSound, is_held-free,
}

-- The mutexes of the manager were made before the next, and no two paths share one.
record IsTidy (m : PartitionLockManager) : Type 0 where
  made : (key : Text) (mutex : ℕ) → find_lock key m.locks ≡ some mutex → mutex < m.next_mutex
  own :
      (key other : Text) (mutex : ℕ)
      → find_lock key m.locks ≡ some mutex
      → find_lock other m.locks ≡ some mutex
      → key ≡ other

find_lock-cons :
    (key other : Text) (new mutex : ℕ) (locks : List (Text × ℕ))
    → find_lock key ((other, new) ∷ locks) ≡ some mutex
    → ((other ≡ key) × (new ≡ mutex)) ⊎ (find_lock key locks ≡ some mutex)
unfolding find_lock
find_lock-cons key other new mutex locks h = elim (Bool-cases (text_eq other key)) [
  | inl e ↦ inl (text_eq_sound other key e, ground (e, arith))
  | inr e ↦ inr (rw e at h)
]

enter_mutex-IsTidy :
    (m : PartitionLockManager) (key : Text) (before : Option ℕ)
    → IsTidy m
    → IsTidy (enter_mutex m key before).1
unfolding enter_mutex
enter_mutex-IsTidy m key (some mutex) h = h
enter_mutex-IsTidy m key none h = record {
  made = λ k mutex found. elim (find_lock-cons k key m.next_mutex mutex m.locks found) [
    | inl (_, e) ↦ omega arith
    | inr old ↦ let below = h.made k mutex old in omega arith
  ];
  own = λ k l mutex found found'. elim (find_lock-cons k key m.next_mutex mutex m.locks found) [
    | inl (a, e) ↦ elim (find_lock-cons l key m.next_mutex mutex m.locks found') [
      | inl (b, _) ↦ sym a ∙ b
      | inr old ↦ let below = h.made l mutex old in absurd (omega arith)
    ]
    | inr old ↦ elim (find_lock-cons l key m.next_mutex mutex m.locks found') [
      | inl (_, e) ↦ let below = h.made k mutex old in absurd (omega arith)
      | inr old' ↦ h.own k l mutex old old'
    ]
  ];
}

LockStep-IsTidy : {s s' : Locks} → LockStep s s' → IsTidy s.manager → IsTidy s'.manager
unfolding begin_acquire lookup_mutex
LockStep-IsTidy (ask s realpath name) h =
    let key = canonicalise realpath name in
    enter_mutex-IsTidy s.manager key (find_lock key s.manager.locks) h
LockStep-IsTidy (enter m before after held c free) h = h
LockStep-IsTidy (release m waiting before after c) h = h

LockReach-IsTidy : {s : Locks} → LockReach s → IsTidy s.manager
unfolding find_lock
LockReach-IsTidy begin = record {
  made = λ k mutex e. absurd (cc e);
  own = λ k l mutex e d. absurd (cc e);
}
LockReach-IsTidy (step r s) = LockStep-IsTidy s (LockReach-IsTidy r)

-- A mutex that is locked is the mutex of some guard's path.
is_held-locked :
    (m : PartitionLockManager) (c : Claim) (held : List Claim)
    → IsTidy m
    → find_lock c.key m.locks ≡ some c.mutex
    → AreKnown m.locks held
    → is_locked c.mutex held ≡ true
    → is_held c.key held ≡ true
unfolding is_locked is_held
is_held-locked m c [] tidy found h locked = cc
is_held-locked m c (g ∷ held) tidy found h locked = elim (Bool-cases (g.mutex == c.mutex)) [
  | inl e ↦
      let same : g.mutex ≡ c.mutex = (==_iff g.mutex c.mutex).0 e in
      let key : g.key ≡ c.key = tidy.own g.key c.key g.mutex h.0 (found ∙ ap some (sym same)) in
      ground (arith, subst (λ (k : Text). text_eq g.key k ≡ true) key (text_eq_refl g.key))
  | inr e ↦ ground (arith, is_held-locked m c held tidy found h.1)
]

-- However the threads that acquire and release partitions are interleaved, the mutex that a call of
-- Acquire waits for is locked exactly when some guard has the same canonical path.
pub LockReach-is_locked :
    (s : Locks) (before after : List Claim) (c : Claim)
    → LockReach s
    → s.waiting ≡ before ++ (c ∷ after)
    → is_locked c.mutex s.held ≡ is_held c.key s.held
LockReach-is_locked s before after c r e =
    let (waiting, guards, _) = LockReach-IsSound r in
    let (found, _) =
      remove-AreKnown s.manager.locks before after c (subst (AreKnown s.manager.locks) e waiting) in
    elim (Bool-cases (is_locked c.mutex s.held)) [
      | inl locked ↦
          locked ∙ sym (is_held-locked s.manager c s.held (LockReach-IsTidy r) found guards locked)
      | inr free ↦ free ∙ sym (is_held-free s.manager.locks c s.held found guards free)
    ]
