-- ===== src/Idp/Navigator/Process.antt =====
-- processRegularPartitions, processEncryptedNode, processSlots and extractPartitions
-- (rpiidp/src/nav.cpp).
use rpi_fastbootd.Prelude.{
  ℕ, ◌+◌, ◌*◌, ◌%◌, ◌^◌, Bool, true, false, Option, none, some, List, [], ◌∷◌, ◌++◌, if◌then◌else◌,
  has_value,
}
use rpi_fastbootd.Prelude.Text.{Text, codes, text_eq}
use rpi_fastbootd.Prelude.Outcome.{ok}
use mathlib.Core.Option
use rpi_fastbootd.Idp.Luks.{Luks, EncapType, raw, partitioned}
use rpi_fastbootd.Idp.Parser.Json.{Json}
use rpi_fastbootd.Idp.Parser.Layout.{Partition}
use rpi_fastbootd.Idp.Navigator.{
  NavResult, no_errors, error, add_result, NavFrame, NavState, M, ◌>>=◌, ◌>>◌, pure, lift,
}
use rpi_fastbootd.Idp.Navigator.Validate.{validate_luks, validate_regular_partition, expand_error}

-- unsigned int
abbrev pub u32 : ℕ → ℕ
u32 n = n % 2 ^ 32

module _ {J : Json} where
  unfoldable pub push_frame : NavFrame J → M J (Unit {0})
  push_frame frame s = (ok tt, record s { nav_stack = frame ∷ s.nav_stack })

  abbrev pub rest_of : List (NavFrame J) → List (NavFrame J)
  rest_of [] = []
  rest_of (frame ∷ stack) = stack

  unfoldable pub pop_frame : M J (Unit {0})
  pop_frame s = (ok tt, record s { nav_stack = rest_of s.nav_stack })

  -- A new frame that is on the stack while a block of it is processed.
  unfoldable pub frame_of : Json.Value J → Text → NavFrame J
  frame_of node slot_key = record { node = node; keys = []; child_idx = 0; slot_key = slot_key }

  -- The object with its address and `partition->order = ++num`
  abbrev pub numbered_at : NavState J → Partition → Partition
  numbered_at s p = record p { address = s.next_address; order = u32 (s.num + 1) }

  -- ... and `result.push_back(partition)`
  unfoldable pub add_partition : Partition → M J Partition
  add_partition p s = (
    ok (numbered_at s p),
    record s {
      result = s.result ++ numbered_at s p ∷ [];
      num = u32 (s.num + 1);
      next_address = s.next_address + 1;
    },
  )

  -- What follows a validation: its error is the result.
  abbrev pub unless_error : Option Text → NavResult → M J NavResult → M J NavResult
  unless_error (some msg) nr rest = pure (error msg nr)
  unless_error none nr rest = rest

-- std::make_shared<Partition>(): the address and the order are set when it is added.
abbrev pub new_partition : Partition
new_partition = record {
  address = 0;
  parent = none;
  image = [];
  id = none;
  uuid = none;
  role = none;
  order = 0;
  expand_to_fit = false;
  luks = none;
}

-- `IDPluks luksConfig;`, whose key size is not set
abbrev pub new_luks : Luks
new_luks = record {
  etype = raw;
  version = 2;
  hash = [];
  key_size = 0;
  cipher = [];
  sector_size = 512;
  mname = [];
  label = none;
  uuid = none;
  payload_offset_sectors = none;
  header_size_bytes = none;
  p_alignment_bytes = 1024 * 1024;
}

abbrev pub address_of : Option Partition → Option ℕ
address_of none = none
address_of (some p) = some p.address

abbrev pub is_container : Option Partition → Bool
is_container none = false
is_container (some p) = has_value p.luks

abbrev pub etype_of : Text → EncapType
etype_of s = if text_eq s (codes "partitioned") then partitioned else raw

module _ (J : Json) where
  unfoldable pub string_at : Json.Value J → Text → M J Text
  string_at node key = do v ← lift (J.member node key); lift (J.as_string v)

  -- A string that is taken over where its key is there.
  unfoldable pub string_if_there : Json.Value J → Text → M J (Option Text)
  unfolding string_at
  string_if_there node key = do
    there ← lift (J.is_member node key)
    if there then (do s ← string_at node key; pure (some s)) else pure none

  unfoldable pub expand_at : Json.Value J → M J Bool
  expand_at node = do
    there ← lift (J.is_member node (codes "expand-to-fit"))
    if there
        then (do v ← lift (J.member node (codes "expand-to-fit")); lift (J.as_bool v))
        else pure false

  -- The members that processRegularPartitions copies.
  unfoldable pub regular_partition : Json.Value J → Option Partition → M J Partition
  unfolding string_at string_if_there expand_at
  regular_partition p parent = do
    image ← string_at p (codes "image")
    has_static ← lift (J.is_member p (codes "static"))
    let q = record new_partition { image = image; parent = address_of parent }
    q' ←
        if has_static
        then (do
          s ← lift (J.member p (codes "static"))
          id ← string_if_there s (codes "id")
          role ← string_if_there s (codes "role")
          uuid ← string_if_there s (codes "uuid")
          pure (record q { id = id; role = role; uuid = uuid }))
        else pure q
    expand ← expand_at p
    pure (record q' { expand_to_fit = expand })

  -- PartitionNavigator::processRegularPartitions
  unfoldable pub process_regular_partitions :
      List (Text × Json.Value J) → Option Partition → M J NavResult
  unfolding regular_partition
  process_regular_partitions [] parent = pure no_errors
  process_regular_partitions ((key, p) ∷ rest) parent = do
    e ← lift (validate_regular_partition J p)
    unless_error e no_errors do
      q ← regular_partition p parent
      added ← add_partition q
      process_regular_partitions rest parent

  -- PartitionNavigator::createEncryptedPartition, and push_back
  unfoldable pub create_encrypted_partition : Json.Value J → M J Partition
  unfolding string_at string_if_there expand_at
  create_encrypted_partition node = do
    luks ← lift (J.member node (codes "luks2"))
    size ← lift (J.member luks (codes "key_size"))
    key_size ← lift (J.as_uint size)
    cipher ← string_at luks (codes "cipher")
    hash ← string_at luks (codes "hash")
    mname ← string_at luks (codes "mname")
    etype ← string_at luks (codes "etype")
    label ← string_if_there luks (codes "label")
    uuid ← string_if_there luks (codes "uuid")
    expand ← expand_at node
    add_partition (record new_partition {
      expand_to_fit = expand;
      luks = some (record new_luks {
        key_size = key_size;
        cipher = cipher;
        hash = hash;
        mname = mname;
        etype = etype_of etype;
        label = label;
        uuid = uuid;
      });
    })

  -- A block of a slot or of a container, if its key is there.
  unfoldable pub process_block :
      Json.Value J → Text → NavResult → (Json.Value J → M J NavResult) → M J NavResult
  process_block node key nr process = do
    there ← lift (J.is_member node key)
    if there
        then (do v ← lift (J.member node key); more ← process v; pure (add_result nr more))
        else pure nr

  -- A block of a slot, which has a frame of its own on the stack.
  unfoldable pub process_in_frame :
      Text → (Json.Value J → M J NavResult) → Json.Value J → M J NavResult
  process_in_frame slot_key process node = do
    push_frame (frame_of node slot_key)
    nr ← process node
    pop_frame
    pure nr

  -- The encrypted block of a slot, if such blocks are processed
  unfoldable pub encrypted_block :
      Option (Json.Value J → M J NavResult) → Text → Json.Value J → NavResult → M J NavResult
  encrypted_block none slot_key slot nr = pure nr
  encrypted_block (some process) slot_key slot nr =
      process_block slot (codes "encrypted") nr (process_in_frame slot_key process)

  -- PartitionNavigator::processSlots, with how it processes encrypted blocks
  unfoldable pub process_slots :
      Option (Json.Value J → M J NavResult)
      → List (Text × Json.Value J)
      → Option Partition
      → NavResult
      → M J NavResult
  unfolding process_block process_in_frame
  process_slots encrypted [] parent nr = pure nr
  process_slots encrypted ((slot_key, slot) ∷ rest) parent nr = do
    push_frame (frame_of slot slot_key)
    nr1 ←
        process_block slot (codes "partitions") nr
          (process_in_frame slot_key (λ v. process_regular_partitions (J.entries v) parent))
    nr2 ← encrypted_block encrypted slot_key slot nr1
    pop_frame
    process_slots encrypted rest parent nr2

  -- The loop of extractPartitions over an array, without its encrypted blocks
  unfoldable pub extract_entries :
      List (Text × Json.Value J) → Option Partition → NavResult → M J NavResult
  unfolding process_block
  extract_entries [] parent nr = pure nr
  extract_entries ((key, entry) ∷ rest) parent nr = do
    skipped ← lift (J.is_member entry (codes "attributes"))
    nr' ← if skipped then pure nr else (do
      nr1 ←
          process_block entry (codes "partitions") nr
            (λ v. process_regular_partitions (J.entries v) parent)
      process_block entry (codes "slots") nr1
          (λ v. process_slots none (J.entries v) parent no_errors))
    extract_entries rest parent nr'

  -- PartitionNavigator::extractPartitions as it is called: with a parent, and processEncrypted false
  unfoldable pub extract_partitions : Json.Value J → Partition → M J NavResult
  unfolding process_block
  extract_partitions node parent =
      if J.is_array node
      then extract_entries (J.entries node) (some parent) no_errors
      else process_block node (codes "partitions") no_errors
          (λ v. process_regular_partitions (J.entries v) (some parent))

  -- The blocks of a container.
  unfoldable pub process_container : Json.Value J → Partition → M J NavResult
  unfolding process_block
  process_container node container = do
    nr ←
        process_block node (codes "slots") no_errors
          (λ v. process_slots none (J.entries v) (some container) no_errors)
    process_block node (codes "partitions") nr (λ _. extract_partitions node container)

  -- PartitionNavigator::processEncryptedNode
  unfoldable pub process_encrypted_node : Option Partition → Json.Value J → M J NavResult
  unfolding create_encrypted_partition process_container
  process_encrypted_node parent node =
      if is_container parent
      then pure (error (codes "Nested encrypted containers are not supported") no_errors)
      else do
        invalid ← lift (validate_luks J node)
        unless_error (Option.map (λ _. codes "Bad LUKS config in encrypted container") invalid)
            (elim invalid [ none ↦ no_errors | some msg ↦ error msg no_errors ])
            do
              bad_expand ← lift (expand_error J node)
              unless_error bad_expand no_errors do
                has_slots ← lift (J.is_member node (codes "slots"))
                has_partitions ←
                    if has_slots then pure true else lift (J.is_member node (codes "partitions"))
                if has_partitions
                    then (do
                      container ← create_encrypted_partition node
                      process_container node container)
                    else pure (
                        error (codes "No partitions or slots found in encrypted container")
                          no_errors)
