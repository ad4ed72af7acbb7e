-- ===== src/Idp/Navigator/Listed.antt =====
-- The partitions that getPartitions lists: their numbers, and the containers that they are in.
use rpi_fastbootd.Prelude.{
  ℕ, ◌+◌, ◌≡◌, sym, subst, Bool, true, false, ◌&&◌, ◌||◌, Option, none, some, List, [], ◌∷◌, ◌++◌,
  append_assoc, append-nil, arith, ◌==◌, has_value, length, length-append,
}
use rpi_fastbootd.Idp.Parser.Json.{Json}
use rpi_fastbootd.Idp.Parser.Layout.{Partition}
use rpi_fastbootd.Idp.Navigator.{NavState}
use rpi_fastbootd.Idp.Navigator.Process.{u32, add_partition, numbered_at, address_of}
use rpi_fastbootd.Idp.Navigator.Walk.{Stack}
use rpi_fastbootd.Idp.Navigator.Triple.{Triple}

-- Is there a container with this address?
unfoldable pub has_container : ℕ → List Partition → Bool
has_container a [] = false
has_container a (q ∷ all) = q.address == a && has_value q.luks || has_container a all

-- A partition inside another one is no container, and the other one is a container before it.
abbrev pub IsInside : Option ℕ → Partition → List Partition → Type 0
IsInside none q before = Unit
IsInside (some a) q before = (has_container a before ≡ true) × (q.luks ≡ none)

abbrev pub AreInside : List Partition → List Partition → Type 0
AreInside before [] = Unit
AreInside before (q ∷ all) = IsInside q.parent q before × AreInside (before ++ q ∷ []) all

-- Orders count up from the one after n, modulo 2 ^ 32, and addresses from a.
abbrev pub AreNumbered : ℕ → ℕ → List Partition → Type 0
AreNumbered n a [] = Unit
AreNumbered n a (q ∷ all) =
    (q.order ≡ u32 (n + 1)) × (q.address ≡ a) × AreNumbered (n + 1) (a + 1) all

has_container-snoc :
    (a : ℕ) (all : List Partition) (q : Partition)
    → has_container a all ≡ true
    → has_container a (all ++ q ∷ []) ≡ true
unfolding has_container
has_container-snoc a [] q h = cc
has_container-snoc a (p ∷ all) q h = ground (arith, has_container-snoc a all q)

has_container-last :
    (all : List Partition) (q : Partition)
    → has_value q.luks ≡ true
    → has_container q.address (all ++ q ∷ []) ≡ true
unfolding has_container
has_container-last [] q h = ground arith
has_container-last (p ∷ all) q h = ground (arith, has_container-last all q h)

AreInside-snoc :
    (before all : List Partition) (q : Partition)
    → AreInside before all
    → IsInside q.parent q (before ++ all)
    → AreInside before (all ++ q ∷ [])
AreInside-snoc before [] q h own = (subst (IsInside q.parent q) (append-nil before) own, tt)
AreInside-snoc before (p ∷ all) q (first, h) own = (
  first,
  AreInside-snoc (before ++ p ∷ []) all q h
      (subst (IsInside q.parent q) (sym (append_assoc before (p ∷ []) all)) own),
)

AreNumbered-snoc :
    (n a : ℕ) (all : List Partition) (q : Partition)
    → AreNumbered n a all
    → q.order ≡ u32 (n + length all + 1)
    → q.address ≡ a + length all
    → AreNumbered n a (all ++ q ∷ [])
AreNumbered-snoc n a [] q h o e = (omega (arith, o), omega (arith, e), tt)
AreNumbered-snoc n a (p ∷ all) q (first, second, h) o e =
    (first, second, AreNumbered-snoc (n + 1) (a + 1) all q h (omega (arith, o)) (omega (arith, e)))

-- What getPartitions has listed so far, since order n and address a, with this stack.
pub record IsListed {J : Json} (n a : ℕ) (stack : Stack J) (s : NavState J) : Type 0 where
  pub same_stack : s.nav_stack ≡ stack
  pub counted : s.num ≡ u32 (n + length s.result)
  pub fresh : s.next_address ≡ a + length s.result
  pub numbered : AreNumbered n a s.result
  pub inside : AreInside [] s.result

-- A parent that is passed on is a container of the list.
abbrev pub Knows : Option Partition → List Partition → Type 0
Knows none all = Unit
Knows (some p) all = has_container p.address all ≡ true

abbrev pub Lists : {J : Json} → ℕ → ℕ → Stack J → Option Partition → NavState J → Type 0
Lists n a stack parent s = IsListed n a stack s × Knows parent s.result

Knows-snoc :
    (parent : Option Partition) (all : List Partition) (q : Partition)
    → Knows parent all
    → Knows parent (all ++ q ∷ [])
Knows-snoc none all q h = tt
Knows-snoc (some p) all q h = has_container-snoc p.address all q h

Knows-IsInside :
    (parent : Option Partition) (all : List Partition) (q : Partition)
    → Knows parent all
    → q.luks ≡ none
    → IsInside (address_of parent) q all
Knows-IsInside none all q h plain = tt
Knows-IsInside (some p) all q h plain = (h, plain)

module _ {J : Json} (n a : ℕ) (stack : Stack J) where
  -- A partition that is added where it may stand.
  add_partition-IsListed :
      (q : Partition) (s : NavState J)
      → IsListed n a stack s
      → IsInside q.parent q s.result
      → IsListed n a stack (add_partition q s).1
  unfolding add_partition
  add_partition-IsListed q s h own = record {
    same_stack = h.same_stack;
    counted = omega (arith, h.counted, length-append s.result (_ ∷ []));
    fresh = omega (arith, h.fresh, length-append s.result (_ ∷ []));
    numbered = AreNumbered-snoc n a s.result _ h.numbered (omega (arith, h.counted)) h.fresh;
    inside = AreInside-snoc [] s.result _ h.inside (by_parent q.parent own);
  }
    where
      by_parent :
          (parent : Option ℕ)
          → IsInside parent q s.result
          → IsInside parent (numbered_at s q) s.result
      by_parent none own = tt
      by_parent (some p) own = own

  -- A regular partition may stand behind its parent.
  pub add_regular :
      (q : Partition) (parent : Option Partition)
      → (q.luks ≡ none) × (q.parent ≡ address_of parent)
      → Triple (Lists n a stack parent) (add_partition q) (λ _. Lists n a stack parent)
  unfolding add_partition
  add_regular q parent (plain, inside) = record {
    run = λ s (h, known). (
      add_partition-IsListed q s h (
          subst (λ x. IsInside x q s.result) (sym inside)
            (Knows-IsInside parent s.result q known plain)),
      Knows-snoc parent s.result (numbered_at s q) known,
    );
  }

  -- A container stands in no other, and may be a parent from then on.
  pub add_container :
      (q : Partition)
      → has_value q.luks ≡ true
      → q.parent ≡ none
      → Triple (Lists n a stack none) (add_partition q) (λ p. Lists n a stack (some p))
  unfolding add_partition
  add_container q container outside = record {
    run = λ s (h, _). (
      add_partition-IsListed q s h (rw outside tt),
      has_container-last s.result (numbered_at s q) container,
    );
  }
