-- ===== src/Idp/Navigator/Create.antt =====
-- The ways to make a PartitionNavigator, and what it tells of its map (rpiidp/src/nav.cpp).
use rpi_fastbootd.Prelude.{
  Bool, true, false, not, ◌||◌, Option, none, some, List, [], ◌∷◌, ◌++◌, if◌then◌else◌,
}
use rpi_fastbootd.Prelude.Text.{Text, codes, text_eq, is_empty}
use rpi_fastbootd.Prelude.Outcome.{Outcome, ok, ◌>>=◌}
use rpi_fastbootd.Idp.Parser.Json.{Json}
use rpi_fastbootd.Idp.Navigator.{NavFrame, NavState}
use rpi_fastbootd.Idp.Navigator.Process.{frame_of}
use rpi_fastbootd.Idp.Navigator.Walk.{Stack}
use rpi_fastbootd.Idp.Navigator.Foreach.{new_navigator}

module _ (J : Json) where
  -- What is made of a member, if it is there.
  unfoldable pub if_member :
      {A : Type 0} → Json.Value J → Text → A → (Json.Value J → Outcome A) → Outcome A
  if_member node key absent use_value = J.is_member node key >>= λ there.
      (if there then (J.member node key >>= use_value) else ok absent)

  -- The system type in the attributes of an entry, if it is there.
  unfoldable pub system_type_of : Json.Value J → Outcome (Option Text)
  unfolding if_member
  system_type_of entry =
      if_member entry (codes "attributes") none
        λ attrs. if_member attrs (codes "system_type") none λ v. J.as_string v >>= λ s. ok (some s)

  -- The first system type in the entries of a map.
  unfoldable pub system_type : List (Text × Json.Value J) → Outcome (Option Text)
  unfolding system_type_of
  system_type [] = ok none
  system_type ((key, entry) ∷ rest) = system_type_of entry >>= λ found. elim found [
    | some s ↦ ok (some s)
    | none ↦ system_type rest
  ]

  abbrev pub is_system_type : Text → Bool
  is_system_type s = text_eq s (codes "flat") || text_eq s (codes "slotted")

  -- PartitionNavigator::create: none for the null pointer
  unfoldable pub create : Json.Value J → Outcome (Option (NavState J))
  unfolding system_type
  create obj =
      if not (J.is_array obj)
      then ok none
      else system_type (J.entries obj) >>= λ found. ok (elim found [
        | none ↦ none
        | some s ↦ if is_system_type s then some (new_navigator J obj) else none
      ])

  -- PartitionNavigator::isSlotted
  unfoldable pub is_slotted : Json.Value J → Outcome Bool
  unfolding system_type
  is_slotted provisionmap =
      if not (J.is_array provisionmap)
      then ok false
      else system_type (J.entries provisionmap) >>= λ found.
          ok (elim found [ none ↦ false | some s ↦ text_eq s (codes "slotted") ])

  -- PartitionNavigator::getCurrentSlot
  unfoldable pub get_current_slot : Stack J → Text
  get_current_slot [] = []
  get_current_slot (frame ∷ stack) =
      if is_empty frame.slot_key then get_current_slot stack else frame.slot_key

  -- Does one of the partitions have this image?
  unfoldable pub has_image : Text → List (Text × Json.Value J) → Outcome Bool
  has_image name [] = ok false
  has_image name ((key, p) ∷ rest) = J.member p (codes "image") >>= λ v.
      J.as_string v >>= λ s. (if text_eq s name then ok true else has_image name rest)

  -- Does the node have partitions, and one with this image among them?
  unfoldable pub holds_image : Text → Json.Value J → Outcome Bool
  unfolding has_image if_member
  holds_image name node =
      if_member node (codes "partitions") false (λ v. has_image name (J.entries v))

  -- The frame of a block with partitions.
  unfoldable pub partitions_frame : Json.Value J → Text → NavFrame J
  partitions_frame node slot_key = record {
    node = node;
    keys = codes "partitions" ∷ [];
    child_idx = 0;
    slot_key = slot_key;
  }

  -- The frames for the encrypted block of a node, top first, if it has the image.
  unfoldable pub find_in_encrypted :
      Text → Json.Value J → (Json.Value J → Stack J) → Outcome (Option (Stack J))
  unfolding holds_image if_member
  find_in_encrypted name node frames = if_member node (codes "encrypted") none λ encrypted.
      holds_image name encrypted >>= λ found. ok (if found then some (frames encrypted) else none)

  abbrev pub or_else :
      Outcome (Option (Stack J)) → Outcome (Option (Stack J)) → Outcome (Option (Stack J))
  or_else first rest = first >>= λ found. elim found [ some s ↦ ok (some s) | none ↦ rest ]

  unfoldable pub find_here : Text → Json.Value J → Stack J → Outcome (Option (Stack J))
  unfolding holds_image
  find_here name node frames =
      holds_image name node >>= λ found. ok (if found then some frames else none)

  unfoldable pub find_in_slots : Text → List (Text × Json.Value J) → Outcome (Option (Stack J))
  unfolding find_here find_in_encrypted partitions_frame
  find_in_slots name [] = ok none
  find_in_slots name ((slot_name, slot) ∷ rest) =
      or_else (find_here name slot (partitions_frame slot slot_name ∷ [])) (
        or_else
          (find_in_encrypted name slot
            (λ encrypted. partitions_frame encrypted [] ∷ frame_of slot slot_name ∷ []))
          (find_in_slots name rest))

  unfoldable pub find_in_entry : Text → Json.Value J → Outcome (Option (Stack J))
  unfolding find_here find_in_encrypted find_in_slots if_member
  find_in_entry name entry = or_else (find_here name entry (partitions_frame entry [] ∷ [])) (
      or_else (find_in_encrypted name entry (λ encrypted. partitions_frame encrypted [] ∷ [])) (
        if_member entry (codes "slots") none
          λ slots. if J.is_object slots then find_in_slots name (J.entries slots) else ok none))

  unfoldable pub find_in_entries : Text → List (Text × Json.Value J) → Outcome (Option (Stack J))
  unfolding find_in_entry
  find_in_entries name [] = ok none
  find_in_entries name ((key, entry) ∷ rest) =
      or_else (find_in_entry name entry) (find_in_entries name rest)

  -- PartitionNavigator::createAtPartition: the frames stand above the root frame.
  unfoldable pub create_at_partition : Json.Value J → Text → Outcome (Option (NavState J))
  unfolding find_in_entries
  create_at_partition obj name =
      if not (J.is_array obj)
      then ok none
      else find_in_entries name (J.entries obj) >>= λ found. ok (elim found [
        | none ↦ none
        | some frames ↦
            let nav = new_navigator J obj in
            some (record nav { nav_stack = frames ++ nav.nav_stack })
      ])
