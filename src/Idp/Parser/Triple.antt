-- ===== src/Idp/Parser/Triple.antt =====
-- What a method of IDPparser establishes when it returns true.
use rpi_fastbootd.Prelude.{◌≡◌, refl, Bool, true, false, Option, none, some, if◌then◌else◌}
use rpi_fastbootd.Prelude.Text.{Text}
use rpi_fastbootd.Prelude.Outcome.{Outcome, ok, throw}
use rpi_fastbootd.Idp.Storage.{Image}
use rpi_fastbootd.Idp.Parser.Json.{Json, Checked, got, refused}
use rpi_fastbootd.Idp.Parser.State.{
  IdpParser, P, and_then, ◌>>=◌, pure, refuse, checked, access, check, prefixed, with_prefix,
  require, from_option, update, set_image, current,
}

module _ {J : Json} {A : Type 0} where
  abbrev pub After : (A → IdpParser J → Type 0) → Outcome (Checked A) × IdpParser J → Type 0
  After Q (throw e, s) = Unit
  After Q (ok (refused why), s) = Unit
  After Q (ok (got a), s) = Q a s

  pub record Triple (R : IdpParser J → Type 0) (m : P J A) (Q : A → IdpParser J → Type 0)
      : Type 0 where
    pub run : (s : IdpParser J) → R s → After Q (m s)

  -- Nothing is needed to establish nothing.
  pub Triple-anything : (m : P J A) → Triple (λ _. Unit) m (λ _ _. Unit)
  Triple-anything m = record { run = λ s h. anything (m s) }
    where
      anything : (r : Outcome (Checked A) × IdpParser J) → After (λ _ _. Unit) r
      anything (throw e, s) = tt
      anything (ok (refused why), s) = tt
      anything (ok (got a), s) = tt

  pub Triple-pure : {R : IdpParser J → Type 0} (a : A) → Triple R (pure a) (λ _. R)
  unfolding pure
  Triple-pure a = record { run = λ s h. h }

  pub Triple-refuse :
      {R : IdpParser J → Type 0} {Q : A → IdpParser J → Type 0} (why : Text)
      → Triple R (refuse why) Q
  unfolding refuse
  Triple-refuse why = record { run = λ s h. tt }

  After-checked :
      (Q : A → IdpParser J → Type 0) (r : Outcome (Checked A)) (s : IdpParser J)
      → ((a : A) → r ≡ ok (got a) → Q a s)
      → After Q (r, s)
  After-checked Q (throw e) s h = tt
  After-checked Q (ok (refused why)) s h = tt
  After-checked Q (ok (got a)) s h = h a refl

  -- A check that has passed: the state is what it was.
  pub Triple-check :
      {R : IdpParser J → Type 0} (r : Outcome (Checked A)) → Triple R (check r) (λ _. R)
  unfolding check
  Triple-check {R} r = record { run = λ s h. After-checked (λ _. R) r s (λ a e. h) }

  pub Triple-access : {R : IdpParser J → Type 0} (r : Outcome A) → Triple R (access r) (λ _. R)
  unfolding access
  Triple-access {R} r = record { run = λ s h. After-checked (λ _. R) (checked r) s (λ a e. h) }

  pub Triple-from_option :
      {R : IdpParser J → Type 0} (why : Text) (o : Option A) → Triple R (from_option why o) (λ _. R)
  unfolding from_option
  Triple-from_option why none = record { run = λ s h. tt }
  Triple-from_option why (some a) = record { run = λ s h. h }

  pub Triple-weaken :
      {R R' : IdpParser J → Type 0} {Q : A → IdpParser J → Type 0} {m : P J A}
      → ((s : IdpParser J) → R' s → R s)
      → Triple R m Q
      → Triple R' m Q
  Triple-weaken before t = record { run = λ s h. t.run s (before s h) }

  After-weaken :
      (Q Q' : A → IdpParser J → Type 0) (r : Outcome (Checked A) × IdpParser J)
      → ((a : A) (s : IdpParser J) → Q a s → Q' a s)
      → After Q r
      → After Q' r
  After-weaken Q Q' (throw e, s) h q = tt
  After-weaken Q Q' (ok (refused why), s) h q = tt
  After-weaken Q Q' (ok (got a), s) h q = h a s q

  pub Triple-weaken_after :
      {R : IdpParser J → Type 0} {Q Q' : A → IdpParser J → Type 0} {m : P J A}
      → ((a : A) (s : IdpParser J) → Q a s → Q' a s)
      → Triple R m Q
      → Triple R m Q'
  Triple-weaken_after {Q} {Q'} {m} after t = record {
    run = λ s h. After-weaken Q Q' (m s) after (t.run s h);
  }

  pub Triple-if :
      {R : IdpParser J → Type 0} {Q : A → IdpParser J → Type 0} (b : Bool) {m n : P J A}
      → Triple R m Q
      → Triple R n Q
      → Triple R (if b then m else n) Q
  Triple-if true h k = h
  Triple-if false h k = k

  After-prefixed :
      (Q : A → IdpParser J → Type 0) (before : Text) (r : Outcome (Checked A) × IdpParser J)
      → After Q r
      → After Q (prefixed before r)
  After-prefixed Q before (throw e, s) h = tt
  After-prefixed Q before (ok (refused why), s) h = tt
  After-prefixed Q before (ok (got a), s) h = h

  pub Triple-with_prefix :
      {R : IdpParser J → Type 0} {Q : A → IdpParser J → Type 0} (before : Text) {m : P J A}
      → Triple R m Q
      → Triple R (with_prefix before m) Q
  unfolding with_prefix
  Triple-with_prefix {Q} before {m} t = record {
    run = λ s h. After-prefixed Q before (m s) (t.run s h);
  }

module _ {J : Json} where
  -- A requirement is a fact from then on.
  pub Triple-require :
      {R : IdpParser J → Type 0} (b : Bool) (why : Text)
      → Triple R (require b why) (λ _ s. (b ≡ true) × R s)
  unfolding require
  Triple-require true why = record { run = λ s h. (refl, h) }
  Triple-require false why = record { run = λ s h. tt }

  pub Triple-update :
      {R Q : IdpParser J → Type 0} (f : IdpParser J → IdpParser J)
      → ((s : IdpParser J) → R s → Q (f s))
      → Triple R (update f) (λ _. Q)
  unfolding update
  Triple-update f h = record { run = h }

  pub Triple-set_image :
      {R Q : IdpParser J → Type 0} (f : Image → Image)
      → ((s : IdpParser J) → R s → Q (record s { image = f s.image }))
      → Triple R (set_image f) (λ _. Q)
  unfolding set_image
  Triple-set_image f h = record { run = h }

  pub Triple-current : {R : IdpParser J → Type 0} → Triple R current (λ _. R)
  unfolding current
  Triple-current = record { run = λ s h. h }

module _ {J : Json} {A B : Type 0} where
  After-then :
      {Q : A → IdpParser J → Type 0} {R : B → IdpParser J → Type 0}
      (r : Outcome (Checked A) × IdpParser J) (f : A → P J B)
      → After Q r
      → ((a : A) → Triple (Q a) (f a) R)
      → After R (and_then r f)
  After-then (throw e, s) f h k = tt
  After-then (ok (refused why), s) f h k = tt
  After-then (ok (got a), s) f h k = (k a).run s h

  pub Triple-bind :
      {R : IdpParser J → Type 0} {Q : A → IdpParser J → Type 0} {T : B → IdpParser J → Type 0}
      {m : P J A} {f : A → P J B}
      → Triple R m Q
      → ((a : A) → Triple (Q a) (f a) T)
      → Triple R (m >>= f) T
  unfolding ◌>>=◌
  Triple-bind {m} {f} t k = record { run = λ s h. After-then (m s) f (t.run s h) k }
