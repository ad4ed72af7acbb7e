-- ===== src/Idp/Navigator/Steps.antt =====
-- stepIn and stepOut are inverse, and foreachPartition ends.
use rpi_fastbootd.Prelude.{
  ℕ, ◌+◌, ◌<◌, ◌≡◌, refl, sym, ap, subst, ◌∙◌, Bool, true, false, ◌||◌, Option, none, some, List,
  ◌∷◌, if-elim, get_elem?,
}
use rpi_fastbootd.Prelude.Text.{Text}
use rpi_fastbootd.Prelude.Outcome.{Outcome, ok, throw}
use rpi_fastbootd.Idp.Parser.Json.{Json}
use rpi_fastbootd.Idp.Navigator.{NavFrame}
use rpi_fastbootd.Idp.Navigator.Walk.{
  Stack, step_in, step_out, step_to, enter_child, push_if, next_child, child_of, frame_for,
  own_slot, object_frame,
}

abbrev pub is_block : (J : Json) → Json.Value J → Bool
is_block J v = J.is_object v || J.is_array v

-- A value is a finite tree: an object or an array in it weighs less than the value.
pub record IsFinite (J : Json) : Type 0 where
  pub weight : Json.Value J → ℕ
  pub weight-at :
      (v : Json.Value J) (i : ℕ) (child : Json.Value J)
      → J.at v i ≡ ok child
      → is_block J child ≡ true
      → weight child < weight v
  pub weight-member :
      (v : Json.Value J) (key : Text) (child : Json.Value J)
      → J.member v key ≡ ok child
      → is_block J child ≡ true
      → weight child < weight v

-- What stepIn makes of a stack.
abbrev pub Stepped : (J : Json) → NavFrame J → Stack J → Outcome Bool × Stack J → Type 0
Stepped J frame below (throw e, stack) = Unit
Stepped J frame below (ok false, stack) = (top : NavFrame J) × (stack ≡ top ∷ below)
Stepped J frame below (ok true, stack) =
    (new : NavFrame J) × (key : Text) × (stack ≡ new ∷ next_child J frame ∷ below)
    × (child_of J frame.node key ≡ ok new.node)
    × (is_block J new.node ≡ true)
    × (get_elem? frame.keys frame.child_idx ≡ some key)

module _ (J : Json) where
  -- A frame is made for an object or an array only, and holds it.
  abbrev IsFrameOf : Json.Value J → Outcome (Option (NavFrame J)) → Type 0
  IsFrameOf child (throw e) = Unit
  IsFrameOf child (ok none) = Unit
  IsFrameOf child (ok (some new)) = (new.node ≡ child) × (is_block J child ≡ true)

  object_frame-IsFrameOf :
      (parent : NavFrame J) (child : Json.Value J) (own : Outcome Text)
      (names : Outcome (List Text))
      → J.is_object child ≡ true
      → IsFrameOf child (object_frame J parent child own names)
  object_frame-IsFrameOf parent child (throw e) names h = tt
  object_frame-IsFrameOf parent child (ok own) (throw e) h = tt
  object_frame-IsFrameOf parent child (ok own) (ok keys) h = (refl, rw h)

  frame_for-IsFrameOf :
      (parent : NavFrame J) (below : Stack J) (key : Text) (child : Json.Value J)
      → IsFrameOf child (frame_for J parent below key child)
  unfolding frame_for
  frame_for-IsFrameOf parent below key child =
      if-elim (IsFrameOf child) (J.is_object child)
        (λ e.
          object_frame-IsFrameOf parent child (own_slot J parent below key) (J.member_names child)
            e)
        (λ e. if-elim (IsFrameOf child) (J.is_array child) (λ a. (refl, rw (e, a))) (λ _. tt))

  push_if-Stepped :
      (frame : NavFrame J) (below : Stack J) (key : Text) (child : Json.Value J)
      (made : Outcome (Option (NavFrame J)))
      → IsFrameOf child made
      → child_of J frame.node key ≡ ok child
      → get_elem? frame.keys frame.child_idx ≡ some key
      → Stepped J frame below (push_if J (next_child J frame ∷ below) made)
  push_if-Stepped frame below key child (throw x) h e at_key = tt
  push_if-Stepped frame below key child (ok none) h e at_key = (next_child J frame, refl)
  push_if-Stepped frame below key child (ok (some new)) (same, block) e at_key = (
    new,
    key,
    refl,
    e ∙ ap ok (sym same),
    subst (λ v. is_block J v ≡ true) (sym same) block,
    at_key,
  )

  enter_child-Stepped :
      (frame : NavFrame J) (below : Stack J) (key : Text) (child : Outcome (Json.Value J))
      → child_of J frame.node key ≡ child
      → get_elem? frame.keys frame.child_idx ≡ some key
      → Stepped J frame below (enter_child J (next_child J frame) below key child)
  enter_child-Stepped frame below key (throw x) e at_key = tt
  enter_child-Stepped frame below key (ok child) e at_key =
      push_if-Stepped frame below key child _
        (frame_for-IsFrameOf (next_child J frame) below key child) e at_key

  step_to-Stepped :
      (frame : NavFrame J) (below : Stack J) (next : Option Text)
      → get_elem? frame.keys frame.child_idx ≡ next
      → Stepped J frame below (step_to J frame below next)
  step_to-Stepped frame below none at_key = (frame, refl)
  step_to-Stepped frame below (some key) at_key = enter_child-Stepped frame below key _ refl at_key

  pub step_in-Stepped :
      (frame : NavFrame J) (below : Stack J) → Stepped J frame below (step_in J (frame ∷ below))
  unfolding step_in
  step_in-Stepped frame below = step_to-Stepped frame below _ refl

  -- A stepIn that succeeds enters the next child of the top frame, which is an object or an array;
  -- stepOut then succeeds and gives the stack back, with that child counted.
  pub step_out-step_in :
      (frame : NavFrame J) (below stack : Stack J)
      → step_in J (frame ∷ below) ≡ (ok true, stack)
      → (step_out J stack ≡ (true, record frame { child_idx = frame.child_idx + 1 } ∷ below))
        × ((key : Text) × (new : NavFrame J) × (get_elem? frame.keys frame.child_idx ≡ some key)
            × (stack ≡ new ∷ record frame { child_idx = frame.child_idx + 1 } ∷ below)
            × (child_of J frame.node key ≡ ok new.node)
            × (is_block J new.node ≡ true))
  unfolding step_out
  step_out-step_in frame below stack e =
      let (new, key, same, child, block, at_key) =
        subst (Stepped J frame below) e (step_in-Stepped frame below) in
      (rw same refl, (key, new, at_key, same, child, block))
