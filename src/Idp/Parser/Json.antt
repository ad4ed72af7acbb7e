-- ===== src/Idp/Parser/Json.antt =====
-- The JSON reader, and the checked access JCHK to a member (rpiidp/src/parser.cpp).
use rpi_fastbootd.Prelude.{
  ℕ, Bool, true, false, not, ◌||◌, Option, none, some, List, [], ◌∷◌, ◌++◌, if◌then◌else◌,
}
use rpi_fastbootd.Prelude.Text.{Text, codes, is_empty}
use rpi_fastbootd.Prelude.Outcome.{Outcome, Fault, ok, throw, logic_error, runtime_error, ◌>>=◌}

-- class Json::Value: what the parser calls. An access that does not fit the value throws
-- Json::Exception, which is logic_error or runtime_error here.
pub record Json : Type 1 where
  pub Value : Type 0
  pub null : Value
  pub is_null : Value → Bool
  pub is_object : Value → Bool
  pub is_array : Value → Bool
  pub is_string : Value → Bool
  -- isUInt or isUInt64, and isInt or isInt64
  pub is_unsigned : Value → Bool
  pub is_signed : Value → Bool
  pub is_member : Value → Text → Outcome Bool
  pub member : Value → Text → Outcome Value
  pub as_string : Value → Outcome Text
  pub is_int : Value → Bool
  pub is_bool : Value → Bool
  pub as_bool : Value → Outcome Bool
  -- asInt, converted to an unsigned int
  pub as_uint : Value → Outcome ℕ
  pub as_uint64 : Value → Outcome ℕ
  -- none for a negative number
  pub as_int64 : Value → Outcome (Option ℕ)
  -- operator[] with an index, and size
  pub at : Value → ℕ → Outcome Value
  pub array_size : Value → ℕ
  pub member_names : Value → Outcome (List Text)
  -- what an iterator from begin to end gives: key().asString() and the value
  pub entries : Value → List (Text × Value)
  -- Json::Reader: parse, the root that it leaves, and getFormattedErrorMessages
  pub parse : Text → Bool × Value
  pub formatted_errors : Text → Text
  pub what : Fault → Text

-- The value that JCHK has read, or the error that it has set.
pub data Checked (A : Type 0) : Type 0 where
  got : A → Checked A
  refused : Text → Checked A

-- Is it a Json::Exception?
abbrev pub is_json_exception : Fault → Bool
is_json_exception logic_error = true
is_json_exception runtime_error = true
is_json_exception _ = false

module _ (J : Json) where
  -- The catch clause of JCHK.
  unfoldable pub catch_json : {A : Type 0} → Text → Outcome (Checked A) → Outcome (Checked A)
  catch_json key (ok r) = ok r
  catch_json key (throw e) =
      if is_json_exception e
      then ok (refused (codes "JSON error for " ++ key ++ codes ": " ++ J.what e))
      else throw e

  -- JCHK around the access for the type.
  unfoldable pub jchk :
      {A : Type 0}
      → (Json.Value J → Outcome (Checked A))
      → Json.Value J
      → Text
      → Outcome (Checked A)
  unfolding catch_json
  jchk access root key = J.is_member root key >>= λ there.
      (if there
        then catch_json key (J.member root key >>= access)
        else ok (refused (codes "Missing required field: " ++ key)))

  unfoldable pub string_access : Text → Json.Value J → Outcome (Checked Text)
  string_access key v =
      if J.is_string v
      then (do
        s ← J.as_string v
        ok (if is_empty s then refused (codes "Empty string not allowed for: " ++ key) else got s))
      else ok (refused (codes "Not a string: " ++ key))

  -- JCHK for std::string, and for an optional one
  unfoldable pub jchk_string : Json.Value J → Text → Outcome (Checked Text)
  unfolding jchk string_access
  jchk_string root key = jchk (string_access key) root key

  unfoldable pub size_access : Text → Json.Value J → Outcome (Checked ℕ)
  size_access key v =
      if J.is_unsigned v
      then (do n ← J.as_uint64 v; ok (got n))
      else if J.is_signed v
      then (do
        n ← J.as_int64 v
        ok (elim n [
          | none ↦ refused (codes "Negative value for size_t: " ++ key)
          | some m ↦ got m
        ]))
      else ok (refused (codes "Not an unsigned integer: " ++ key))

  -- JCHK for size_t
  unfoldable pub jchk_size : Json.Value J → Text → Outcome (Checked ℕ)
  unfolding jchk size_access
  jchk_size root key = jchk (size_access key) root key

  value_access : Text → Json.Value J → Outcome (Checked (Json.Value J))
  value_access key v = ok (
      if J.is_object v || J.is_array v
      then got v
      else refused (codes "Not an object or array: " ++ key))

  -- JCHK for Json::Value
  unfoldable pub jchk_value : Json.Value J → Text → Outcome (Checked (Json.Value J))
  unfolding jchk value_access
  jchk_value root key = jchk (value_access key) root key

  -- JCHK_ARRAY
  unfoldable pub jchk_array : Json.Value J → Text → Outcome (Checked (Json.Value J))
  jchk_array root key = J.is_member root key >>= λ there.
      (if there
        then (do
          v ← J.member root key
          ok (if J.is_array v then got v else refused (codes "Not an array: " ++ key)))
        else ok (refused (codes "Missing required field: " ++ key)))

  -- The value of a key in an entry's block, if the entry has the block and the block the key.
  unfoldable pub nested_in : Text → Text → Json.Value J → Outcome (Option (Json.Value J))
  nested_in nested_key target_key entry =
      if not (J.is_object entry)
      then ok none
      else J.is_member entry nested_key >>= λ there.
          (if not there
            then ok none
            else J.member entry nested_key >>= λ nested.
                J.is_member nested target_key >>= λ has_target.
                ok (if has_target then some nested else none))

  unfoldable pub jchk_nested_from :
      Text → Text → List (Text × Json.Value J) → Outcome (Checked Text)
  unfolding nested_in jchk_string
  jchk_nested_from nested_key target_key [] = ok (
      refused (
        codes "Key '"
        ++ target_key
        ++ codes "' not found in any '"
        ++ nested_key
        ++ codes "' object in array"))
  jchk_nested_from nested_key target_key ((key, entry) ∷ rest) =
      nested_in nested_key target_key entry >>= λ found. elim found [
        | some nested ↦ jchk_string nested target_key
        | none ↦ jchk_nested_from nested_key target_key rest
      ]

  -- JCHK_NESTED_IN_ARRAY for std::string
  unfoldable pub jchk_nested_in_array : Json.Value J → Text → Text → Outcome (Checked Text)
  unfolding jchk_nested_from
  jchk_nested_in_array array nested_key target_key =
      if J.is_array array
      then jchk_nested_from nested_key target_key (J.entries array)
      else ok (refused (codes "Value is not an array"))

  -- IDPparser::getJSON: null where a key is missing.
  unfoldable pub get_json : Json.Value J → List Text → Outcome (Json.Value J)
  get_json node [] = ok node
  get_json node (key ∷ keys) =
      if not (J.is_object node)
      then ok J.null
      else J.is_member node key >>= λ there.
          (if there then (J.member node key >>= λ next. get_json next keys) else ok J.null)
