-- ===== src/Idp/Navigator/Foreach.antt =====
-- foreachPartition (rpiidp/include/nav.h), with any function and any state of it. The function does
-- not get the navigator that the code passes to it: the one callback of the repository ignores it.
use rpi_fastbootd.Prelude.{
  ℕ, zero, suc, Bool, true, false, Option, none, some, List, [], ◌∷◌, if◌then◌else◌, length,
}
use rpi_fastbootd.Prelude.Text.{Text}
use rpi_fastbootd.Prelude.Outcome.{Outcome, ok, throw}
use rpi_fastbootd.Idp.Parser.Json.{Json}
use rpi_fastbootd.Idp.Parser.Layout.{Partition}
use rpi_fastbootd.Idp.Navigator.{NavState}
use rpi_fastbootd.Idp.Navigator.Walk.{Stack, step_in, step_out, get_partitions, index_keys}

-- foreachPartition returns true, or false with the error if the function has set one.
pub data Walked : Type 0 where
  finished : Walked
  stopped : Option Text → Walked

-- The function returns true, or false with its error; what it captures is its state.
abbrev pub Visitor : Type 0 → Type 0
Visitor S = Partition → S → Outcome (Option Text) × S

-- The way the walk ends, and what it leaves; none when the fuel has run out.
abbrev pub Walk : Json → Type 0 → Type 0
Walk J S = Option (Outcome Walked × NavState J × S)

module _ {S : Type 0} where
  abbrev pub then_call : Outcome (Option Text) × S → (S → Outcome Walked × S) → Outcome Walked × S
  then_call (throw e, st) f = (throw e, st)
  then_call (ok (some err), st) f = (ok (stopped (some err)), st)
  then_call (ok none, st) f = f st

  -- The loop over the partitions of one level.
  unfoldable pub call_all : Visitor S → List Partition → S → Outcome Walked × S
  call_all visitor [] st = (ok finished, st)
  call_all visitor (q ∷ qs) st = then_call (visitor q st) (λ st'. call_all visitor qs st')

-- The children of the top frame, and one more.
abbrev pub rounds : {J : Json} → Stack J → ℕ
rounds [] = 1
rounds (frame ∷ below) = suc (length frame.keys)

module _ {J : Json} {S : Type 0} where
  abbrev pub after_visit : Walk J S → (NavState J → S → Walk J S) → Walk J S
  after_visit none next = none
  after_visit (some (throw e, s, st)) next = some (throw e, s, st)
  after_visit (some (ok w, s, st)) next =
      let s' = record s { nav_stack = (step_out J s.nav_stack).1 } in
      elim w [ finished ↦ next s' st | stopped err ↦ some (ok (stopped err), s', st) ]

  abbrev pub after_step :
      Outcome Bool × Stack J
      → NavState J
      → S
      → (NavState J → S → Walk J S)
      → (NavState J → S → Walk J S)
      → Walk J S
  after_step (throw e, stack) s st visit next = some (throw e, record s { nav_stack = stack }, st)
  after_step (ok false, stack) s st visit next =
      some (ok finished, record s { nav_stack = stack }, st)
  after_step (ok true, stack) s st visit next =
      after_visit (visit (record s { nav_stack = stack }) st) next

  -- `while (nav->stepIn())`, with as many rounds as stepIn can succeed and one more
  unfoldable pub visit_children : (NavState J → S → Walk J S) → ℕ → NavState J → S → Walk J S
  visit_children visit zero s st = none
  visit_children visit (suc n) s st =
      after_step (step_in J s.nav_stack) s st visit (visit_children visit n)

  abbrev pub after_calls : Outcome Walked × S → NavState J → (NavState J → S → Walk J S) → Walk J S
  after_calls (throw e, st) s next = some (throw e, s, st)
  after_calls (ok (stopped err), st) s next = some (ok (stopped err), s, st)
  after_calls (ok finished, st) s next = next s st

  abbrev pub after_partitions :
      Outcome (Option (List Partition)) × NavState J
      → Visitor S
      → S
      → (NavState J → S → Walk J S)
      → Walk J S
  after_partitions (throw e, s) visitor st next = some (throw e, s, st)
  after_partitions (ok none, s) visitor st next = some (ok (stopped none), s, st)
  after_partitions (ok (some all), s) visitor st next = after_calls (call_all visitor all st) s next

  -- foreachPartitionImpl
  unfoldable pub foreach_partition_impl : ℕ → Visitor S → NavState J → S → Walk J S
  foreach_partition_impl zero visitor s st = none
  foreach_partition_impl (suc f) visitor s st =
      after_partitions (get_partitions J s) visitor st
        λ s' st'. visit_children (foreach_partition_impl f visitor) (rounds s'.nav_stack) s' st'

module _ (J : Json) where
  -- The constructor of PartitionNavigator, from the array of the provisioning map.
  unfoldable pub new_navigator : Json.Value J → NavState J
  unfolding index_keys
  new_navigator provisionmap = record {
    nav_stack =
        record {
          node = provisionmap;
          keys = if J.is_array provisionmap then index_keys (J.array_size provisionmap) 0 else [];
          child_idx = 0;
          slot_key = [];
        }
        ∷ [];
    result = [];
    num = 0;
    next_address = 0;
  }

-- foreachPartition: the order starts at zero, and the objects that are made are new.
unfoldable pub foreach_partition :
    {J : Json} {S : Type 0} → ℕ → Visitor S → NavState J → S → Walk J S
foreach_partition fuel visitor s st = foreach_partition_impl fuel visitor (record s { num = 0 }) st
