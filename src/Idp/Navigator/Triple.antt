-- ===== src/Idp/Navigator/Triple.antt =====
-- What a member function of the navigator establishes when it returns.
use rpi_fastbootd.Prelude.{Bool, true, false, if◌then◌else◌}
use rpi_fastbootd.Prelude.Outcome.{Outcome, ok, throw}
use rpi_fastbootd.Idp.Parser.Json.{Json}
use rpi_fastbootd.Idp.Navigator.{NavState, M, and_then, ◌>>=◌, pure, lift}

module _ {J : Json} {A : Type 0} where
  -- The result holds of the value and the state, unless there was an exception.
  abbrev pub After : (A → NavState J → Type 0) → Outcome A × NavState J → Type 0
  After Q (ok a, s) = Q a s
  After Q (throw e, s) = Unit

  pub record Triple (P : NavState J → Type 0) (m : M J A) (Q : A → NavState J → Type 0)
      : Type 0 where
    pub run : (s : NavState J) → P s → After Q (m s)

  After-lift :
      (P : NavState J → Type 0) (r : Outcome A) (s : NavState J) → P s → After (λ _. P) (r, s)
  After-lift P (ok a) s h = h
  After-lift P (throw e) s h = tt

  pub Triple-lift : {P : NavState J → Type 0} (r : Outcome A) → Triple P (lift r) (λ _. P)
  unfolding lift
  Triple-lift {P} r = record { run = After-lift P r }

  pub Triple-pure :
      {P : NavState J → Type 0} {Q : A → NavState J → Type 0} (a : A)
      → ((s : NavState J) → P s → Q a s)
      → Triple P (pure a) Q
  unfolding pure
  Triple-pure a h = record { run = h }

  pub Triple-pure_same : {P : NavState J → Type 0} (a : A) → Triple P (pure a) (λ _. P)
  unfolding pure
  Triple-pure_same a = record { run = λ s h. h }

  pub Triple-if :
      {P : NavState J → Type 0} {Q : A → NavState J → Type 0} (b : Bool) {m n : M J A}
      → Triple P m Q
      → Triple P n Q
      → Triple P (if b then m else n) Q
  Triple-if true h k = h
  Triple-if false h k = k

  -- A fact that holds whatever the state is.
  pub Triple-fact :
      {F : Type 0} {P : NavState J → Type 0} {Q : A → NavState J → Type 0} {m : M J A}
      → (F → Triple P m Q)
      → Triple (λ s. F × P s) m Q
  Triple-fact h = record { run = λ s (fact, p). (h fact).run s p }

  After-weaken :
      {Q R : A → NavState J → Type 0} (r : Outcome A × NavState J)
      → ((a : A) (s : NavState J) → Q a s → R a s)
      → After Q r
      → After R r
  After-weaken (ok a, s) h q = h a s q
  After-weaken (throw e, s) h q = tt

  pub Triple-weaken :
      {P P' : NavState J → Type 0} {Q R : A → NavState J → Type 0} {m : M J A}
      → ((s : NavState J) → P' s → P s)
      → ((a : A) (s : NavState J) → Q a s → R a s)
      → Triple P m Q
      → Triple P' m R
  Triple-weaken {m} before after t = record {
    run = λ s h. After-weaken (m s) after (t.run s (before s h));
  }

-- A function that keeps what holds of the state, whatever it returns.
abbrev pub Keeps : {J : Json} {A : Type 0} → (NavState J → Type 0) → M J A → Type 0
Keeps P m = Triple P m (λ _. P)

module _ {J : Json} {A B : Type 0} where
  After-then :
      {Q : A → NavState J → Type 0} {R : B → NavState J → Type 0} (r : Outcome A × NavState J)
      (f : A → M J B)
      → After Q r
      → ((a : A) → Triple (Q a) (f a) R)
      → After R (and_then r f)
  After-then (ok a, s) f h k = (k a).run s h
  After-then (throw e, s) f h k = tt

  pub Triple-bind :
      {P : NavState J → Type 0} {Q : A → NavState J → Type 0} {R : B → NavState J → Type 0}
      {m : M J A} {f : A → M J B}
      → Triple P m Q
      → ((a : A) → Triple (Q a) (f a) R)
      → Triple P (m >>= f) R
  unfolding ◌>>=◌
  Triple-bind {m} {f} t k = record { run = λ s p. After-then (m s) f (t.run s p) k }
