-- ===== src/Idp/Navigator/Processed.antt =====
-- What the functions that getPartitions calls list.
use rpi_fastbootd.Prelude.{ℕ, ◌≡◌, refl, ap, Option, none, some, List, [], ◌∷◌}
use rpi_fastbootd.Prelude.Text.{Text, codes}
use rpi_fastbootd.Idp.Parser.Json.{Json}
use rpi_fastbootd.Idp.Parser.Layout.{Partition}
use rpi_fastbootd.Idp.Navigator.{NavResult, no_errors, NavFrame, NavState, M}
use rpi_fastbootd.Idp.Navigator.Process.{
  push_frame, pop_frame, unless_error, address_of, string_at, string_if_there, expand_at,
  regular_partition, process_regular_partitions, process_block, process_in_frame, encrypted_block,
  rest_of, process_slots,
}
use rpi_fastbootd.Idp.Navigator.Walk.{Stack}
use rpi_fastbootd.Idp.Navigator.Triple.{
  Triple, Triple-lift, Triple-pure_same, Triple-pure, Triple-if, Triple-bind, Keeps, Triple-fact,
}
use rpi_fastbootd.Idp.Navigator.Listed.{IsListed, Lists, add_regular}

module _ (J : Json) {P : NavState J → Type 0} where
  pub string_at-Keeps : (node : Json.Value J) (key : Text) → Keeps P (string_at J node key)
  unfolding string_at
  string_at-Keeps node key = Triple-bind (Triple-lift _) (λ _. Triple-lift _)

  pub string_if_there-Keeps :
      (node : Json.Value J) (key : Text) → Keeps P (string_if_there J node key)
  unfolding string_if_there
  string_if_there-Keeps node key = Triple-bind (Triple-lift _) λ there.
      Triple-if there (Triple-bind (string_at-Keeps node key) (λ _. Triple-pure_same _))
        (Triple-pure_same _)

  pub expand_at-Keeps : (node : Json.Value J) → Keeps P (expand_at J node)
  unfolding expand_at
  expand_at-Keeps node = Triple-bind (Triple-lift _) λ there.
      Triple-if there (Triple-bind (Triple-lift _) (λ _. Triple-lift _)) (Triple-pure_same _)

  pub unless_error-Keeps :
      (e : Option Text) (nr : NavResult) {m : M J NavResult}
      → Keeps P m
      → Keeps P (unless_error e nr m)
  unless_error-Keeps (some msg) nr h = Triple-pure_same _
  unless_error-Keeps none nr h = h

  pub process_block-Keeps :
      (node : Json.Value J) (key : Text) (nr : NavResult) {process : Json.Value J → M J NavResult}
      → ((v : Json.Value J) → Keeps P (process v))
      → Keeps P (process_block J node key nr process)
  unfolding process_block
  process_block-Keeps node key nr h = Triple-bind (Triple-lift _) λ there.
      Triple-if there (Triple-bind (Triple-lift _) λ v. Triple-bind (h v) λ _. Triple-pure_same _)
        (Triple-pure_same _)

-- A regular partition is no container, and is inside the parent that was passed.
abbrev IsRegular :
    {J : Json} → (NavState J → Type 0) → Option Partition → Partition → NavState J → Type 0
IsRegular P parent q s = ((q.luks ≡ none) × (q.parent ≡ address_of parent)) × P s

module _ (J : Json) {P : NavState J → Type 0} where
  regular_partition-IsRegular :
      (p : Json.Value J) (parent : Option Partition)
      → Triple P (regular_partition J p parent) (IsRegular P parent)
  unfolding regular_partition
  regular_partition-IsRegular p parent = Triple-bind (string_at-Keeps J p (codes "image")) λ image.
      Triple-bind (Triple-lift _) λ has_static.
        Triple-bind {Q = IsRegular P parent}
          (Triple-if has_static
            (Triple-bind (Triple-lift _) λ v.
              Triple-bind (string_if_there-Keeps J v (codes "id")) λ id.
                Triple-bind (string_if_there-Keeps J v (codes "role")) λ role.
                  Triple-bind (string_if_there-Keeps J v (codes "uuid"))
                    λ uuid. Triple-pure _ (λ s h. ((refl, refl), h)))
            (Triple-pure _ (λ s h. ((refl, refl), h))))
          λ q.
            Triple-bind {Q = λ _. IsRegular P parent q} (expand_at-Keeps J p)
              (λ expand. Triple-pure _ (λ s h. h))

module _ (J : Json) (n a : ℕ) where
  pub process_regular_partitions-Lists :
      (stack : Stack J) (all : List (Text × Json.Value J)) (parent : Option Partition)
      → Keeps (Lists n a stack parent) (process_regular_partitions J all parent)
  unfolding process_regular_partitions
  process_regular_partitions-Lists stack [] parent = Triple-pure_same _
  process_regular_partitions-Lists stack ((key, p) ∷ rest) parent = Triple-bind (Triple-lift _) λ e.
      unless_error-Keeps J e no_errors (
        Triple-bind (regular_partition-IsRegular J p parent) λ q. Triple-fact λ regular.
          Triple-bind (add_regular n a stack q parent regular)
            λ _. process_regular_partitions-Lists stack rest parent)

  IsListed-frame :
      (stack stack' : Stack J) (s : NavState J) (nav_stack : Stack J)
      → IsListed n a stack s
      → nav_stack ≡ stack'
      → IsListed n a stack' (record s { nav_stack = nav_stack })
  IsListed-frame stack stack' s nav_stack h e = record {
    same_stack = e;
    counted = h.counted;
    fresh = h.fresh;
    numbered = h.numbered;
    inside = h.inside;
  }

  push_frame-Lists :
      (stack : Stack J) (parent : Option Partition) (frame : NavFrame J)
      → Triple (Lists n a stack parent) (push_frame frame) (λ _. Lists n a (frame ∷ stack) parent)
  unfolding push_frame
  push_frame-Lists stack parent frame = record {
    run = λ s (h, k).
        (IsListed-frame stack (frame ∷ stack) s _ h (ap (λ x. frame ∷ x) h.same_stack), k);
  }

  pop_frame-Lists :
      (stack : Stack J) (parent : Option Partition) (frame : NavFrame J)
      → Triple (Lists n a (frame ∷ stack) parent) pop_frame (λ _. Lists n a stack parent)
  unfolding pop_frame
  pop_frame-Lists stack parent frame = record {
    run = λ s (h, k). (IsListed-frame (frame ∷ stack) stack s _ h (ap rest_of h.same_stack), k);
  }

  process_in_frame-Lists :
      (stack : Stack J) (parent : Option Partition) (slot_key : Text)
      {process : Json.Value J → M J NavResult}
      → ((stack' : Stack J) (v : Json.Value J) → Keeps (Lists n a stack' parent) (process v))
      → (v : Json.Value J) → Keeps (Lists n a stack parent) (process_in_frame J slot_key process v)
  unfolding process_in_frame
  process_in_frame-Lists stack parent slot_key h v =
      Triple-bind (push_frame-Lists stack parent _) λ _.
        Triple-bind (h _ v)
          λ _. Triple-bind (pop_frame-Lists stack parent _) λ _. Triple-pure_same _

  -- The way in which the encrypted blocks of slots are processed.
  abbrev pub AreProcessed : Option (Json.Value J → M J NavResult) → Option Partition → Type 0
  AreProcessed none parent = Unit
  AreProcessed (some process) parent =
      (stack : Stack J) (v : Json.Value J) → Keeps (Lists n a stack parent) (process v)

  encrypted_block-Lists :
      (encrypted : Option (Json.Value J → M J NavResult)) (stack : Stack J)
      (parent : Option Partition) (slot_key : Text) (slot : Json.Value J) (nr : NavResult)
      → AreProcessed encrypted parent
      → Keeps (Lists n a stack parent) (encrypted_block J encrypted slot_key slot nr)
  unfolding encrypted_block
  encrypted_block-Lists none stack parent slot_key slot nr h = Triple-pure_same _
  encrypted_block-Lists (some process) stack parent slot_key slot nr h =
      process_block-Keeps J slot (codes "encrypted") nr
        (process_in_frame-Lists stack parent slot_key h)

  pub process_slots-Lists :
      (encrypted : Option (Json.Value J → M J NavResult)) (stack : Stack J)
      (all : List (Text × Json.Value J)) (parent : Option Partition) (nr : NavResult)
      → AreProcessed encrypted parent
      → Keeps (Lists n a stack parent) (process_slots J encrypted all parent nr)
  unfolding process_slots
  process_slots-Lists encrypted stack [] parent nr h = Triple-pure_same _
  process_slots-Lists encrypted stack ((slot_key, slot) ∷ rest) parent nr h =
      Triple-bind (push_frame-Lists stack parent _) λ _.
        Triple-bind
          (process_block-Keeps J slot (codes "partitions") nr (
            process_in_frame-Lists _ parent slot_key
              (λ stack' v. process_regular_partitions-Lists stack' (J.entries v) parent)))
          λ nr1. Triple-bind (encrypted_block-Lists encrypted _ parent slot_key slot nr1 h) λ nr2.
            Triple-bind (pop_frame-Lists stack parent _)
              λ _. process_slots-Lists encrypted stack rest parent nr2 h
