-- ===== src/Idp/Navigator/Walk.antt =====
-- stepIn, stepOut and getPartitions (rpiidp/src/nav.cpp), and foreachPartition
-- (rpiidp/include/nav.h).
use rpi_fastbootd.Prelude.{
  ℕ, zero, suc, ◌+◌, ◌-◌, Bool, true, false, not, ◌&&◌, ◌||◌, Option, none, some, List, [], ◌∷◌,
  ◌==◌, if◌then◌else◌, get_elem?,
}
use rpi_fastbootd.Prelude.Text.{Text, codes, text_eq, is_empty, decimal, digits_value}
use rpi_fastbootd.Prelude.Outcome.{Outcome, ok, throw, out_of_range}
use rpi_fastbootd.Idp.Parser.Json.{Json}
use rpi_fastbootd.Idp.Parser.Layout.{Partition}
use rpi_fastbootd.Idp.Navigator.{NavResult, no_errors, is_error, NavFrame, M, ◌>>=◌, pure}
use rpi_fastbootd.Idp.Navigator.Process.{
  process_block, process_regular_partitions, process_slots, process_encrypted_node,
}

abbrev pub Stack : Json → Type 0
Stack J = List (NavFrame J)

-- to_string of each index below a size
unfoldable pub index_keys : ℕ → ℕ → List Text
index_keys zero i = []
index_keys (suc n) i = decimal i ∷ index_keys n (i + 1)

-- keys[childIdx - 1]: the key of the child that was stepped into last. Without one the access is
-- out of bounds.
abbrev pub last_key : {J : Json} → NavFrame J → Option Text
last_key frame = if frame.child_idx == 0 then none else get_elem? frame.keys (frame.child_idx - 1)

abbrev pub is_text : Option Text → Text → Bool
is_text none t = false
is_text (some s) t = text_eq s t

module _ (J : Json) where
  -- The child at a key; std::stoi reads back an index.
  unfoldable pub child_of : Json.Value J → Text → Outcome (Json.Value J)
  child_of node key = if J.is_array node then J.at node (digits_value key) else J.member node key

  -- The key of a slot is the key of a child of a `slots` object.
  unfoldable pub own_slot : NavFrame J → Stack J → Text → Outcome Text
  own_slot parent [] key = ok []
  own_slot parent (grandparent ∷ below) key =
      if J.is_object parent.node && J.is_object grandparent.node && not (is_empty grandparent.keys)
      then elim (last_key grandparent) [
        | none ↦ throw out_of_range
        | some k ↦ ok (if text_eq k (codes "slots") then key else [])
      ]
      else ok []

  abbrev pub or_slot : Text → Text → Text
  or_slot own inherited = if is_empty own then inherited else own

  -- The frame for an object, with its slot and its keys.
  abbrev pub object_frame :
      NavFrame J → Json.Value J → Outcome Text → Outcome (List Text) → Outcome (Option (NavFrame J))
  object_frame parent child (throw e) names = throw e
  object_frame parent child (ok own) (throw e) = throw e
  object_frame parent child (ok own) (ok keys) = ok (
      some
        record { node = child; keys = keys; child_idx = 0; slot_key = or_slot own parent.slot_key })

  unfoldable pub array_frame : NavFrame J → Json.Value J → NavFrame J
  unfolding index_keys
  array_frame parent child = record {
    node = child;
    keys = index_keys (J.array_size child) 0;
    child_idx = 0;
    slot_key = parent.slot_key;
  }

  -- The frame for a child, if it is an object or an array.
  unfoldable pub frame_for :
      NavFrame J → Stack J → Text → Json.Value J → Outcome (Option (NavFrame J))
  unfolding own_slot array_frame
  frame_for parent below key child =
      if J.is_object child
      then object_frame parent child (own_slot parent below key) (J.member_names child)
      else if J.is_array child
      then ok (some (array_frame parent child))
      else ok none

  abbrev pub push_if : Stack J → Outcome (Option (NavFrame J)) → Outcome Bool × Stack J
  push_if stack (throw e) = (throw e, stack)
  push_if stack (ok none) = (ok false, stack)
  push_if stack (ok (some frame)) = (ok true, frame ∷ stack)

  abbrev pub enter_child :
      NavFrame J → Stack J → Text → Outcome (Json.Value J) → Outcome Bool × Stack J
  enter_child parent below key (throw e) = (throw e, parent ∷ below)
  enter_child parent below key (ok child) =
      push_if (parent ∷ below) (frame_for parent below key child)

  -- The frame whose next child is the one behind.
  abbrev pub next_child : NavFrame J → NavFrame J
  next_child frame = record frame { child_idx = frame.child_idx + 1 }

  abbrev pub step_to : NavFrame J → Stack J → Option Text → Outcome Bool × Stack J
  step_to frame below none = (ok false, frame ∷ below)
  step_to frame below (some key) =
      enter_child (next_child frame) below key (child_of frame.node key)

  -- PartitionNavigator::stepIn
  unfoldable pub step_in : Stack J → Outcome Bool × Stack J
  unfolding child_of frame_for
  step_in [] = (ok false, [])
  step_in (frame ∷ below) = step_to frame below (get_elem? frame.keys frame.child_idx)

  -- PartitionNavigator::stepOut
  unfoldable pub step_out : Stack J → Bool × Stack J
  step_out (frame ∷ parent ∷ below) = (true, parent ∷ below)
  step_out stack = (false, stack)

  -- Is a frame below the top one at a child with this key?
  unfoldable pub is_below : Text → Stack J → Bool
  is_below key [] = false
  is_below key (frame ∷ stack) = is_text (last_key frame) key || is_below key stack

  -- Is no frame in a slot?
  unfoldable pub is_outside_slots : Stack J → Bool
  is_outside_slots [] = true
  is_outside_slots (frame ∷ stack) = is_empty frame.slot_key && is_outside_slots stack

  -- A block that is processed only under a condition.
  unfoldable pub process_if :
      Bool → Json.Value J → Text → NavResult → (Json.Value J → M J NavResult) → M J NavResult
  unfolding process_block
  process_if holds node key nr process =
      if holds then process_block J node key nr process else pure nr

  -- The blocks of the object at the top of the stack.
  unfoldable pub process_object : Json.Value J → Bool → Bool → M J NavResult
  unfolding process_if
  process_object node is_encrypted outside_slots = do
    nr1 ←
        process_if (not is_encrypted && outside_slots) node (codes "partitions") no_errors
          (λ v. process_regular_partitions J (J.entries v) none)
    nr2 ←
        process_if (not is_encrypted && outside_slots) node (codes "slots") nr1
          (λ v. process_slots J (some (process_encrypted_node J none)) (J.entries v) none no_errors)
    process_if outside_slots node (codes "encrypted") nr2 (process_encrypted_node J none)

  -- PartitionNavigator::getPartitions, the result of which is none when there was an error
  abbrev pub partitions_at : Stack J → M J NavResult
  partitions_at [] = pure no_errors
  partitions_at (frame ∷ below) =
      if J.is_object frame.node
      then process_object frame.node (is_below (codes "encrypted") below)
          (is_outside_slots (frame ∷ below))
      else pure no_errors

  unfoldable pub get_partitions : M J (Option (List Partition))
  unfolding process_object
  get_partitions s =
      (do
        nr ← partitions_at s.nav_stack
        λ s'. (ok (if is_error nr then none else some s'.result), s'))
        (record s { result = [] })
