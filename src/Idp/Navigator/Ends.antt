-- ===== src/Idp/Navigator/Ends.antt =====
-- foreachPartition ends, with the stack as deep as it was.
use rpi_fastbootd.Prelude.{
  ℕ, zero, suc, ◌-◌, ◌^◌, ◌≤◌, ◌<◌, ◌≡◌, sym, ap, subst, ◌∙◌, inl, inr, Bool, true, false, Option,
  none, some, List, ◌∷◌, arith, Bool-cases, length, get_elem?-lt-length,
}
use rpi_fastbootd.Prelude.Text.{Text, digits_value}
use rpi_fastbootd.Prelude.Outcome.{Outcome, ok, throw}
use rpi_fastbootd.Idp.Parser.Json.{Json}
use rpi_fastbootd.Idp.Parser.Layout.{Partition}
use rpi_fastbootd.Idp.Navigator.{NavFrame, NavState}
use rpi_fastbootd.Idp.Navigator.Walk.{
  Stack, step_in, step_out, next_child, child_of, get_partitions,
}
use rpi_fastbootd.Idp.Navigator.Foreach.{
  Walked, finished, stopped, Visitor, Walk, call_all, after_visit, after_step, visit_children,
  rounds, after_calls, after_partitions, foreach_partition_impl, foreach_partition,
}
use rpi_fastbootd.Idp.Navigator.Steps.{is_block, IsFinite, Stepped, step_in-Stepped}
use rpi_fastbootd.Idp.Navigator.Listed.{IsListed}
use rpi_fastbootd.Idp.Navigator.Triple.{After}
use rpi_fastbootd.Idp.Navigator.Partitions.{Returned, get_partitions-Listed}

-- A walk that ends: unless it throws, the frames below the top one are as they were.
abbrev pub Ends : {J : Json} {S : Type 0} → Stack J → Walk J S → Type 0
Ends below none = ⊥
Ends below (some (throw e, s, st)) = Unit
Ends {J} below (some (ok w, s, st)) =
    (top : NavFrame J) × (s.nav_stack ≡ top ∷ below) × (s.num < 2 ^ 32)

module _ {J : Json} (finite : IsFinite J) where
  open finite use {weight, weight-at, weight-member}

  -- A child that stepIn enters weighs less.
  weight-child :
      (v : Json.Value J) (key : Text) (child : Json.Value J)
      → child_of J v key ≡ ok child
      → is_block J child ≡ true
      → weight child < weight v
  unfolding child_of
  weight-child v key child e block = elim (Bool-cases (J.is_array v)) [
    | inl a ↦ weight-at v (digits_value key) child (rw a at e) block
    | inr o ↦ weight-member v key child (rw o at e) block
  ]

module _ {J : Json} (finite : IsFinite J) {S : Type 0} where
  open finite use {weight}

  after_visit-Ends :
      (below : Stack J) (parent : NavFrame J) (r : Walk J S) (next : NavState J → S → Walk J S)
      → Ends (parent ∷ below) r
      → ((s : NavState J) (st : S)
          → s.nav_stack ≡ parent ∷ below
          → s.num < 2 ^ 32
          → Ends below (next s st))
      → Ends below (after_visit r next)
  unfolding step_out
  after_visit-Ends below parent none next h k = absurd h
  after_visit-Ends below parent (some (throw e, s, st)) next h k = tt
  after_visit-Ends below parent (some (ok finished, s, st)) next (top, e, small) k =
      k _ st (ap (λ x. (step_out J x).1) e) small
  after_visit-Ends below parent (some (ok (stopped err), s, st)) next (top, e, small) k =
      (parent, ap (λ x. (step_out J x).1) e, small)

  after_step-Ends :
      (frame : NavFrame J) (below : Stack J) (r : Outcome Bool × Stack J) (s : NavState J) (st : S)
      (visit next : NavState J → S → Walk J S)
      → Stepped J frame below r
      → s.num < 2 ^ 32
      → ((s : NavState J) (st : S) (new : NavFrame J) (below : Stack J)
          → s.nav_stack ≡ new ∷ below
          → s.num < 2 ^ 32
          → weight new.node < weight frame.node
          → Ends below (visit s st))
      → ((s : NavState J) (st : S)
          → s.nav_stack ≡ next_child J frame ∷ below
          → s.num < 2 ^ 32
          → frame.child_idx < length frame.keys
          → Ends below (next s st))
      → Ends below (after_step r s st visit next)
  after_step-Ends frame below (throw e, stack) s st visit next h small ih k = tt
  after_step-Ends frame below (ok false, stack) s st visit next (top, e) small ih k =
      (top, e, small)
  after_step-Ends frame below (ok true, stack) s st visit next (new, key, e, child, block, at_key)
        small ih k =
      after_visit-Ends below (next_child J frame) _ next
        (ih _ st new (next_child J frame ∷ below) e small
          (weight-child finite frame.node key new.node child block))
        (λ s' st' e' small'.
          k s' st' e' small' (get_elem?-lt-length frame.keys frame.child_idx at_key))

  visit_children-Ends :
      (w : ℕ) (visit : NavState J → S → Walk J S)
      → ((s : NavState J) (st : S) (new : NavFrame J) (below : Stack J)
          → s.nav_stack ≡ new ∷ below
          → s.num < 2 ^ 32
          → weight new.node < w
          → Ends below (visit s st))
      → (n : ℕ) (s : NavState J) (st : S) (frame : NavFrame J) (below : Stack J)
      → s.nav_stack ≡ frame ∷ below
      → s.num < 2 ^ 32
      → weight frame.node ≤ w
      → length frame.keys - frame.child_idx < n
      → Ends below (visit_children visit n s st)
  unfolding visit_children
  visit_children-Ends w visit ih zero s st frame below e small light few = absurd (omega arith)
  visit_children-Ends w visit ih (suc n) s st frame below e small light few =
      after_step-Ends frame below (step_in J s.nav_stack) s st visit (visit_children visit n)
        (subst (λ x. Stepped J frame below (step_in J x)) (sym e) (step_in-Stepped J frame below))
        small (λ s' st' new below' e' small' lighter. ih s' st' new below' e' small' (omega arith))
        (λ s' st' e' small' more.
          visit_children-Ends w visit ih n s' st' (next_child J frame) below e' small' light
            (omega arith))

  -- The node and the keys of the top frame stay while getPartitions runs.
  after_calls-Ends :
      (below : Stack J) (frame : NavFrame J) (r : Outcome Walked × S) (s : NavState J)
      (next : NavState J → S → Walk J S)
      → s.nav_stack ≡ frame ∷ below
      → s.num < 2 ^ 32
      → ((st : S) → Ends below (next s st))
      → Ends below (after_calls r s next)
  after_calls-Ends below frame (throw e, st) s next same small k = tt
  after_calls-Ends below frame (ok (stopped err), st) s next same small k = (frame, same, small)
  after_calls-Ends below frame (ok finished, st) s next same small k = k st

  after_partitions-Ends :
      (below : Stack J) (frame : NavFrame J) (s : NavState J)
      (r : Outcome (Option (List Partition)) × NavState J) (visitor : Visitor S) (st : S)
      (next : NavState J → S → Walk J S)
      → After (λ o s'. IsListed s.num s.next_address s.nav_stack s' × Returned J s o s') r
      → s.nav_stack ≡ frame ∷ below
      → ((s : NavState J) (st : S)
          → s.nav_stack ≡ frame ∷ below
          → s.num < 2 ^ 32
          → Ends below (next s st))
      → Ends below (after_partitions r visitor st next)
  after_partitions-Ends below frame s (throw e, s') visitor st next h same k = tt
  after_partitions-Ends below frame s (ok none, s') visitor st next (h, _) same k =
      (frame, h.same_stack ∙ same, omega (arith, h.counted))
  after_partitions-Ends below frame s (ok (some all), s') visitor st next (h, _) same k =
      let small : s'.num < 2 ^ 32 = omega (arith, h.counted) in
      after_calls-Ends below frame (call_all visitor all st) s' next (h.same_stack ∙ same) small
        (λ st'. k s' st' (h.same_stack ∙ same) small)

  foreach-Ends :
      (fuel : ℕ) (visitor : Visitor S) (s : NavState J) (st : S) (frame : NavFrame J)
      (below : Stack J)
      → s.nav_stack ≡ frame ∷ below
      → s.num < 2 ^ 32
      → weight frame.node < fuel
      → Ends below (foreach_partition_impl fuel visitor s st)
  unfolding foreach_partition_impl
  foreach-Ends zero visitor s st frame below e small light = absurd (omega arith)
  foreach-Ends (suc f) visitor s st frame below e small light =
      after_partitions-Ends below frame s (get_partitions J s) visitor st _
        (get_partitions-Listed J s small) e
        λ s' st' e' small'.
          visit_children-Ends f (foreach_partition_impl f visitor)
            (λ s2 st2 new below' e2 small2 lighter.
              foreach-Ends f visitor s2 st2 new below' e2 small2 lighter)
            (rounds s'.nav_stack) s' st' frame below e' small' (omega arith)
            (enough s'.nav_stack e')
    where
      enough :
          (stack : Stack J)
          → stack ≡ frame ∷ below
          → length frame.keys - frame.child_idx < rounds stack
      enough stack e = rw e (omega arith)

  -- When every value of the description is a finite tree, foreachPartition ends, whatever function
  -- it calls: as many nested calls as the weight of the node that it starts at, and one more, are
  -- enough. Unless something throws, the frames below the top of the stack are then as they were,
  -- so each stepIn was matched by a stepOut.
  pub foreach_partition-Ends :
      (fuel : ℕ) (visitor : Visitor S) (s : NavState J) (st : S) (frame : NavFrame J)
      (below : Stack J)
      → s.nav_stack ≡ frame ∷ below
      → weight frame.node < fuel
      → Ends below (foreach_partition fuel visitor s st)
  unfolding foreach_partition
  foreach_partition-Ends fuel visitor s st frame below e light =
      foreach-Ends fuel visitor (record s { num = 0 }) st frame below e (omega arith) light
