-- ===== src/Fastboot/PartitionLock/Progress.antt =====
-- A call of Acquire is let in.
use rpi_fastbootd.Prelude.{
  ◌≡◌, refl, ap, subst, ◌∙◌, ◌⊎◌, inl, inr, true, false, List, [], ◌∷◌, ◌++◌, arith, Bool-cases,
}
use rpi_fastbootd.Prelude.Text.{Text, text_eq, text_eq_sound}
use rpi_fastbootd.Fastboot.PartitionLock.{Claim, Locks, LockStep, enter, release, LockReach, step}
use rpi_fastbootd.Fastboot.PartitionLock.Exclusion.{is_held, AreApart, LockReach-IsSound}
use rpi_fastbootd.Fastboot.PartitionLock.Contention.{LockReach-is_locked}
use rpi_fastbootd.Fastboot.PartitionLock.Monitor.{AreApart-others}

-- A guard for a path, among those before and after it.
pub record GuardOf (key : Text) (held : List Claim) : Type 0 where
  pub before : List Claim
  pub guard : Claim
  pub after : List Claim
  pub place : held ≡ before ++ (guard ∷ after)
  pub same_key : guard.key ≡ key

find_guard : (key : Text) (held : List Claim) → is_held key held ≡ true → GuardOf key held
unfolding is_held
find_guard key [] h = absurd (cc h)
find_guard key (g ∷ held) h = elim (Bool-cases (text_eq g.key key)) [
  | inl e ↦ record {
    before = [];
    guard = g;
    after = held;
    place = refl;
    same_key = text_eq_sound g.key key e;
  }
  | inr e ↦
      let found = find_guard key held (ground (arith, h, e)) in
      record {
        before = g ∷ found.before;
        guard = found.guard;
        after = found.after;
        place = ap (λ l. g ∷ l) found.place;
        same_key = found.same_key;
      }
]

-- With these guards, the call gets its lock.
abbrev pub LetsIn : Locks → List Claim → List Claim → Claim → List Claim → Type 0
LetsIn s before after c held =
    LockStep record { manager = s.manager; waiting = before ++ (c ∷ after); held = held }
      record { manager = s.manager; waiting = before ++ after; held = c ∷ held }

lets_in :
    (s : Locks) (before after : List Claim) (c : Claim)
    → LockReach s
    → s.waiting ≡ before ++ (c ∷ after)
    → is_held c.key s.held ≡ false
    → LetsIn s before after c s.held
lets_in s before after c r e free =
    enter s.manager before after s.held c (LockReach-is_locked s before after c r e ∙ free)

-- However the threads are interleaved, a call of Acquire that waits can go on at once, or as soon
-- as the one guard for its own path is released: the guards of other partitions never hold it up.
pub LockReach-LetsIn :
    (s : Locks) (before after : List Claim) (c : Claim)
    → LockReach s
    → s.waiting ≡ before ++ (c ∷ after)
    → LetsIn s before after c s.held
      ⊎ ((g : GuardOf c.key s.held) × LetsIn s before after c (g.before ++ g.after))
LockReach-LetsIn s before after c r e = elim (Bool-cases (is_held c.key s.held)) [
  | inr free ↦ inl (lets_in s before after c r e free)
  | inl taken ↦
      let g = find_guard c.key s.held taken in
      let (_, _, apart) = LockReach-IsSound r in
      let free = AreApart-others g.before g.after g.guard (subst AreApart g.place apart) in
      let released : Locks = record s { held = g.before ++ g.after } in
      let reached : LockReach released =
        step (subst (λ h. LockReach (record s { held = h })) g.place r)
          (release s.manager s.waiting g.before g.after g.guard) in
      inr (
        g,
        lets_in released before after c reached e
            (subst (λ k. is_held k (g.before ++ g.after) ≡ false) g.same_key free),
      )
]
