-- ===== src/Idp/Navigator/Visits.antt =====
-- What holds of the state of the function that foreachPartition calls.
use rpi_fastbootd.Prelude.{ℕ, zero, suc, Bool, true, false, Option, none, some, List, [], ◌∷◌}
use rpi_fastbootd.Prelude.Text.{Text}
use rpi_fastbootd.Prelude.Outcome.{Outcome, ok, throw}
use rpi_fastbootd.Idp.Parser.Json.{Json}
use rpi_fastbootd.Idp.Parser.Layout.{Partition}
use rpi_fastbootd.Idp.Navigator.{NavState}
use rpi_fastbootd.Idp.Navigator.Walk.{Stack, step_in, get_partitions}
use rpi_fastbootd.Idp.Navigator.Foreach.{
  Walked, finished, stopped, Visitor, Walk, then_call, call_all, after_visit, after_step,
  visit_children, rounds, after_calls, after_partitions, foreach_partition_impl, foreach_partition,
}

-- What the walk leaves of the state, if it ends.
abbrev pub Leaves : {J : Json} {S : Type 0} → (S → Type 0) → Walk J S → Type 0
Leaves Q none = Unit
Leaves Q (some (r, s, st)) = Q st

module _ {S : Type 0} (Q : S → Type 0) where
  then_call-keeps :
      (r : Outcome (Option Text) × S) (next : S → Outcome Walked × S)
      → Q r.1
      → ((st : S) → Q st → Q (next st).1)
      → Q (then_call r next).1
  then_call-keeps (throw e, st) next h k = h
  then_call-keeps (ok (some err), st) next h k = h
  then_call-keeps (ok none, st) next h k = k st h

  call_all-keeps :
      (visitor : Visitor S)
      → ((q : Partition) (st : S) → Q st → Q (visitor q st).1)
      → (all : List Partition) (st : S) → Q st
      → Q (call_all visitor all st).1
  unfolding call_all
  call_all-keeps visitor keep [] st h = h
  call_all-keeps visitor keep (q ∷ all) st h =
      then_call-keeps (visitor q st) _ (keep q st h) (call_all-keeps visitor keep all)

module _ {J : Json} {S : Type 0} (Q : S → Type 0) where
  after_visit-Leaves :
      (r : Walk J S) (next : NavState J → S → Walk J S)
      → Leaves Q r
      → ((s : NavState J) (st : S) → Q st → Leaves Q (next s st))
      → Leaves Q (after_visit r next)
  after_visit-Leaves none next h k = tt
  after_visit-Leaves (some (throw e, s, st)) next h k = h
  after_visit-Leaves (some (ok finished, s, st)) next h k = k _ st h
  after_visit-Leaves (some (ok (stopped err), s, st)) next h k = h

  after_step-Leaves :
      (r : Outcome Bool × Stack J) (s : NavState J) (st : S)
      (visit next : NavState J → S → Walk J S)
      → Q st
      → ((s : NavState J) (st : S) → Q st → Leaves Q (visit s st))
      → ((s : NavState J) (st : S) → Q st → Leaves Q (next s st))
      → Leaves Q (after_step r s st visit next)
  after_step-Leaves (throw e, stack) s st visit next h ih k = h
  after_step-Leaves (ok false, stack) s st visit next h ih k = h
  after_step-Leaves (ok true, stack) s st visit next h ih k =
      after_visit-Leaves _ next (ih _ st h) k

  visit_children-Leaves :
      (visit : NavState J → S → Walk J S)
      → ((s : NavState J) (st : S) → Q st → Leaves Q (visit s st))
      → (n : ℕ) (s : NavState J) (st : S) → Q st
      → Leaves Q (visit_children visit n s st)
  unfolding visit_children
  visit_children-Leaves visit ih zero s st h = tt
  visit_children-Leaves visit ih (suc n) s st h =
      after_step-Leaves (step_in J s.nav_stack) s st visit (visit_children visit n) h ih
        (visit_children-Leaves visit ih n)

  after_partitions-Leaves :
      (r : Outcome (Option (List Partition)) × NavState J) (visitor : Visitor S) (st : S)
      (next : NavState J → S → Walk J S)
      → ((q : Partition) (st : S) → Q st → Q (visitor q st).1)
      → Q st
      → ((s : NavState J) (st : S) → Q st → Leaves Q (next s st))
      → Leaves Q (after_partitions r visitor st next)
  after_partitions-Leaves (throw e, s) visitor st next keep h k = h
  after_partitions-Leaves (ok none, s) visitor st next keep h k = h
  after_partitions-Leaves (ok (some all), s) visitor st next keep h k =
      by_calls (call_all visitor all st) (call_all-keeps Q visitor keep all st h)
    where
      by_calls : (c : Outcome Walked × S) → Q c.1 → Leaves Q (after_calls c s next)
      by_calls (throw e, st') h' = h'
      by_calls (ok (stopped err), st') h' = h'
      by_calls (ok finished, st') h' = k s st' h'

  foreach-Leaves :
      (fuel : ℕ) (visitor : Visitor S)
      → ((q : Partition) (st : S) → Q st → Q (visitor q st).1)
      → (s : NavState J) (st : S) → Q st
      → Leaves Q (foreach_partition_impl fuel visitor s st)
  unfolding foreach_partition_impl
  foreach-Leaves zero visitor keep s st h = tt
  foreach-Leaves (suc f) visitor keep s st h =
      after_partitions-Leaves (get_partitions J s) visitor st _ keep h λ s' st' h'.
        visit_children-Leaves (foreach_partition_impl f visitor) (foreach-Leaves f visitor keep)
          (rounds s'.nav_stack) s' st' h'

  -- What the function keeps of its state holds after foreachPartition.
  pub foreach_partition-Leaves :
      (fuel : ℕ) (visitor : Visitor S)
      → ((q : Partition) (st : S) → Q st → Q (visitor q st).1)
      → (s : NavState J) (st : S) → Q st
      → Leaves Q (foreach_partition fuel visitor s st)
  unfolding foreach_partition
  foreach_partition-Leaves fuel visitor keep s st h =
      foreach-Leaves fuel visitor keep (record s { num = 0 }) st h
