-- ===== src/Idp/Navigator/Partitions.antt =====
-- What getPartitions lists, and that it leaves the stack as it was.
use rpi_fastbootd.Prelude.{
  ℕ, ◌+◌, ◌^◌, ◌<◌, ◌≡◌, refl, subst, Bool, Option, none, some, List, [], ◌∷◌, arith, if◌then◌else◌,
  if-elim, length,
}
use rpi_fastbootd.Prelude.Text.{Text, codes}
use rpi_fastbootd.Idp.Parser.Json.{Json}
use rpi_fastbootd.Idp.Parser.Layout.{Partition}
use rpi_fastbootd.Idp.Navigator.{NavResult, no_errors, NavState, M, ok, is_error}
use rpi_fastbootd.Idp.Navigator.Process.{
  create_encrypted_partition, extract_entries, extract_partitions, process_container,
  process_encrypted_node, u32,
}
use rpi_fastbootd.Idp.Navigator.Walk.{
  Stack, process_object, process_if, partitions_at, get_partitions,
}
use rpi_fastbootd.Idp.Navigator.Triple.{
  Triple, Triple-lift, Triple-pure_same, Triple-if, Triple-weaken, Triple-bind, Keeps, After,
}
use rpi_fastbootd.Idp.Navigator.Listed.{Lists, add_container, AreInside, IsListed, AreNumbered}
use rpi_fastbootd.Idp.Navigator.Processed.{
  string_at-Keeps, string_if_there-Keeps, expand_at-Keeps, unless_error-Keeps, process_block-Keeps,
  process_regular_partitions-Lists, process_slots-Lists,
}

module _ (J : Json) (n a : ℕ) (stack : Stack J) where
  extract_entries-Lists :
      (all : List (Text × Json.Value J)) (parent : Option Partition) (nr : NavResult)
      → Keeps (Lists n a stack parent) (extract_entries J all parent nr)
  unfolding extract_entries
  extract_entries-Lists [] parent nr = Triple-pure_same _
  extract_entries-Lists ((key, entry) ∷ rest) parent nr = Triple-bind (Triple-lift _) λ skipped.
      Triple-bind
        (Triple-if skipped (Triple-pure_same _) (
          Triple-bind
            (process_block-Keeps J entry (codes "partitions") nr
              (λ v. process_regular_partitions-Lists J n a stack (J.entries v) parent))
            λ nr1.
              process_block-Keeps J entry (codes "slots") nr1
                (λ v. process_slots-Lists J n a none stack (J.entries v) parent no_errors tt)))
        λ nr'. extract_entries-Lists rest parent nr'

  extract_partitions-Lists :
      (node : Json.Value J) (parent : Partition)
      → Keeps (Lists n a stack (some parent)) (extract_partitions J node parent)
  unfolding extract_partitions
  extract_partitions-Lists node parent =
      Triple-if (J.is_array node) (extract_entries-Lists (J.entries node) (some parent) no_errors) (
        process_block-Keeps J node (codes "partitions") no_errors
          (λ v. process_regular_partitions-Lists J n a stack (J.entries v) (some parent)))

  process_container-Lists :
      (node : Json.Value J) (container : Partition)
      → Keeps (Lists n a stack (some container)) (process_container J node container)
  unfolding process_container
  process_container-Lists node container =
      Triple-bind
        (process_block-Keeps J node (codes "slots") no_errors
          (λ v. process_slots-Lists J n a none stack (J.entries v) (some container) no_errors tt))
        λ nr.
          process_block-Keeps J node (codes "partitions") nr
            (λ _. extract_partitions-Lists node container)

  create_encrypted_partition-Lists :
      (node : Json.Value J)
      → Triple
          (Lists n a stack none)
          (create_encrypted_partition J node)
          (λ p. Lists n a stack (some p))
  unfolding create_encrypted_partition
  create_encrypted_partition-Lists node = Triple-bind (Triple-lift _) λ luks.
      Triple-bind (Triple-lift _) λ size. Triple-bind (Triple-lift _) λ key_size.
        Triple-bind (string_at-Keeps J luks (codes "cipher")) λ cipher.
          Triple-bind (string_at-Keeps J luks (codes "hash")) λ hash.
            Triple-bind (string_at-Keeps J luks (codes "mname")) λ mname.
              Triple-bind (string_at-Keeps J luks (codes "etype")) λ etype.
                Triple-bind (string_if_there-Keeps J luks (codes "label")) λ label.
                  Triple-bind (string_if_there-Keeps J luks (codes "uuid")) λ uuid.
                    Triple-bind (expand_at-Keeps J node)
                      λ expand. add_container n a stack _ refl refl

  process_encrypted_node-Lists :
      (node : Json.Value J) → Keeps (Lists n a stack none) (process_encrypted_node J none node)
  unfolding process_encrypted_node
  process_encrypted_node-Lists node = Triple-bind (Triple-lift _) λ invalid.
      unless_error-Keeps J _ _ (
        Triple-bind (Triple-lift _) λ bad_expand. unless_error-Keeps J bad_expand no_errors (
          Triple-bind (Triple-lift _) λ has_slots.
            Triple-bind (Triple-if has_slots (Triple-pure_same _) (Triple-lift _)) λ has_partitions.
              Triple-if has_partitions
                (Triple-bind (create_encrypted_partition-Lists node) λ container.
                  Triple-weaken (λ s h. h) (λ r s (h, _). (h, tt))
                    (process_container-Lists node container))
                (Triple-pure_same _)))

  process_if-Lists :
      (holds : Bool) (node : Json.Value J) (key : Text) (nr : NavResult)
      {process : Json.Value J → M J NavResult}
      → ((v : Json.Value J) → Keeps (Lists n a stack none) (process v))
      → Keeps (Lists n a stack none) (process_if J holds node key nr process)
  unfolding process_if
  process_if-Lists holds node key nr h =
      Triple-if holds (process_block-Keeps J node key nr h) (Triple-pure_same _)

module _ (J : Json) (n a : ℕ) where
  process_object-Lists :
      (stack : Stack J) (node : Json.Value J) (is_encrypted outside_slots : Bool)
      → Keeps (Lists n a stack none) (process_object J node is_encrypted outside_slots)
  unfolding process_object
  process_object-Lists stack node is_encrypted outside_slots =
      Triple-bind
        (process_if-Lists J n a stack _ node (codes "partitions") no_errors
          (λ v. process_regular_partitions-Lists J n a stack (J.entries v) none))
        λ nr1.
          Triple-bind
            (process_if-Lists J n a stack _ node (codes "slots") nr1 (λ v.
              process_slots-Lists J n a (some (process_encrypted_node J none)) stack (J.entries v)
                none no_errors (process_encrypted_node-Lists J n a)))
            λ nr2.
              process_if-Lists J n a stack _ node (codes "encrypted") nr2
                (process_encrypted_node-Lists J n a stack)

  partitions_at-Lists : (stack : Stack J) → Keeps (Lists n a stack none) (partitions_at J stack)
  partitions_at-Lists [] = Triple-pure_same _
  partitions_at-Lists (frame ∷ below) =
      Triple-if (J.is_object frame.node) (process_object-Lists (frame ∷ below) frame.node _ _)
        (Triple-pure_same _)

module _ (J : Json) (s : NavState J) where
  -- What getPartitions returns: the list of the state, or none.
  abbrev pub Returned : Option (List Partition) → NavState J → Type 0
  Returned none s' = Unit
  Returned (some all) s' = all ≡ s'.result

  pub get_partitions-Listed :
      s.num < 2 ^ 32
      → After
          (λ r s'. IsListed s.num s.next_address s.nav_stack s' × Returned r s')
          (get_partitions J s)
  unfolding get_partitions
  get_partitions-Listed small =
      (Triple-bind (partitions_at-Lists J s.num s.next_address s.nav_stack)
          λ nr. record { run = λ s' (h, _). (h, returned nr s') }).run
        (record s { result = [] })
        (
          record {
            same_stack = refl;
            counted = omega arith;
            fresh = omega arith;
            numbered = tt;
            inside = tt;
          },
          tt,
        )
    where
      returned :
          (nr : NavResult) (s' : NavState J)
          → Returned (if is_error nr then none else some s'.result) s'
      returned nr s' = if-elim (λ r. Returned r s') (is_error nr) (λ _. tt) (λ _. refl)

  -- When getPartitions returns partitions, they have the orders that follow the one it was given
  -- (modulo 2 ^ 32) and addresses of their own; a partition inside another one is no container,
  -- and the other one is a container that stands before it; and the stack of the navigator is
  -- what it was.
  pub get_partitions-AreInside :
      (all : List Partition) (s' : NavState J)
      → s.num < 2 ^ 32
      → get_partitions J s ≡ (ok (some all), s')
      → AreInside [] all
        × AreNumbered s.num s.next_address all
        × (s'.num ≡ u32 (s.num + length all))
        × (s'.nav_stack ≡ s.nav_stack)
  get_partitions-AreInside all s' small e =
      let (h, same) =
        subst (After (λ r s'. IsListed s.num s.next_address s.nav_stack s' × Returned r s')) e
          (get_partitions-Listed small) in
      (rw same h.inside, rw same h.numbered, rw same h.counted, h.same_stack)
