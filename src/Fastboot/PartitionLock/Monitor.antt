-- ===== src/Fastboot/PartitionLock/Monitor.antt =====
-- The locks of partitions implement a monitor that knows the paths that are held.
use rpi_fastbootd.Prelude.{
  ◌≡◌, refl, sym, subst, ◌∙◌, fun_ext, inl, inr, Bool, true, false, ◌||◌, List, [], ◌∷◌, ◌++◌,
  arith, Bool-cases,
}
use rpi_fastbootd.Prelude.Text.{Text, text_eq, text_eq_sound, text_eq_refl}
use rpi_fastbootd.Fastboot.PartitionLock.{
  Claim, Locks, begin_acquire, LockStep, ask, enter, release, LockReach,
}
use rpi_fastbootd.Fastboot.PartitionLock.Exclusion.{
  is_held, AreApart, remove-AreKnown, is_held-free, LockReach-IsSound,
}

pub is_held-middle :
    (key : Text) (before after : List Claim) (c : Claim)
    → is_held key (before ++ (c ∷ after)) ≡ text_eq c.key key || is_held key (before ++ after)
unfolding is_held
is_held-middle key [] after c = refl
is_held-middle key (b ∷ before) after c = ground (arith, is_held-middle key before after c)

text_eq_ne : (s t : Text) → text_eq s t ≡ false → text_eq t s ≡ false
text_eq_ne s t h = elim (Bool-cases (text_eq t s)) [
  | inl e ↦
      let same = text_eq_sound t s e in
      absurd (cc (subst (λ u. text_eq s u ≡ true) (sym same) (text_eq_refl s), h))
  | inr e ↦ e
]

-- The path of a guard is not held by the others.
pub AreApart-others :
    (before after : List Claim) (c : Claim)
    → AreApart (before ++ (c ∷ after))
    → is_held c.key (before ++ after) ≡ false
unfolding is_held
AreApart-others [] after c h = h.0
AreApart-others (b ∷ before) after c h =
    let other = sym (is_held-middle b.key before after c) ∙ h.0 in
    let rest = AreApart-others before after c h.1 in
    let apart = text_eq_ne c.key b.key (ground (arith, other)) in ground (arith, apart, rest)

-- The paths that are held, and with one more.
abbrev pub Held : Type 0
Held = Text → Bool

abbrev pub with_path : Text → Held → Held
with_path key held k = text_eq key k || held k

-- The monitor locks a path that is not held, and unlocks one that is not held any more then.
pub data MonitorStep : Held → Held → Type 0 where
  idle : (held : Held) → MonitorStep held held
  lock : (held : Held) (key : Text) → held key ≡ false → MonitorStep held (with_path key held)
  unlock : (held : Held) (key : Text) → held key ≡ false → MonitorStep (with_path key held) held

abbrev pub held_paths : Locks → Held
held_paths s key = is_held key s.held

Step-IsMonitored :
    {s s' : Locks} → LockReach s → LockStep s s' → MonitorStep (held_paths s) (held_paths s')
unfolding begin_acquire is_held
Step-IsMonitored r (ask s realpath name) = idle (held_paths s)
Step-IsMonitored r (enter m before after held c free) =
    let (waiting, guards, _) = LockReach-IsSound r in
    let (found, _) = remove-AreKnown m.locks before after c waiting in
    lock (λ key. is_held key held) c.key (is_held-free m.locks c held found guards free)
Step-IsMonitored r (release m waiting before after c) =
    let (_, _, apart) = LockReach-IsSound r in
    subst (λ h. MonitorStep h (λ key. is_held key (before ++ after)))
      (sym (fun_ext λ key. is_held-middle key before after c))
      (unlock (λ key. is_held key (before ++ after)) c.key (AreApart-others before after c apart))

-- Each step that a thread makes with the locks of partitions is a step of the monitor on the
-- canonical paths that have a guard: it locks a path that no guard has, it unlocks the path of a
-- guard, which no guard has then, or it changes nothing; whatever the threads have done before.
pub LockStep-IsMonitored :
    (s s' : Locks) → LockReach s → LockStep s s' → MonitorStep (held_paths s) (held_paths s')
LockStep-IsMonitored s s' r = Step-IsMonitored r
