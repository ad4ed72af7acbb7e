-- ===== src/Idp/Navigator/Validate.antt =====
-- namespace Validation of rpiidp/src/nav.cpp: the first error of a node, if there is one.
use rpi_fastbootd.Prelude.{
  ◌%◌, Bool, true, false, not, ◌||◌, Option, none, some, List, [], ◌∷◌, ◌++◌, ltb, ◌==◌,
  if◌then◌else◌, length,
}
use rpi_fastbootd.Prelude.Text.{Text, codes, text_eq, is_empty}
use rpi_fastbootd.Prelude.Outcome.{Outcome, ok, throw, ◌>>=◌}
use rpi_fastbootd.Idp.Parser.Json.{Json}

-- Checks in the order of the code: the first that fails is the result.
unfoldable pub first_error : List (Outcome (Option Text)) → Outcome (Option Text)
first_error [] = ok none
first_error (throw e ∷ rest) = throw e
first_error (ok (some msg) ∷ rest) = ok (some msg)
first_error (ok none ∷ rest) = first_error rest

abbrev pub error_if : Bool → Text → Outcome (Option Text)
error_if bad msg = ok (if bad then some msg else none)

-- A set of texts, as std::set
unfoldable pub is_one_of : Text → List Text → Bool
is_one_of s [] = false
is_one_of s (t ∷ ts) = text_eq t s || is_one_of s ts

-- Go on if the test holds, or else with this error.
abbrev pub require : Bool → Text → Outcome (Option Text) → Outcome (Option Text)
require good msg rest = if good then rest else ok (some msg)

-- Go on if the key is there.
abbrev pub when : Bool → Outcome (Option Text) → Outcome (Option Text)
when there rest = if there then rest else ok none

module _ (J : Json) where
  -- Is the key there, with a value that passes the test?
  unfoldable pub has_valid : (Json.Value J → Bool) → Json.Value J → Text → Outcome Bool
  has_valid test node key = do
    there ← J.is_member node key
    if there then (do v ← J.member node key; ok (test v)) else ok false

  -- An optional key: if it is there, its value passes the test.
  unfoldable pub is_valid_if_there : (Json.Value J → Bool) → Json.Value J → Text → Outcome Bool
  is_valid_if_there test node key = do
    there ← J.is_member node key
    if there then (do v ← J.member node key; ok (test v)) else ok true

  unfoldable pub text_at : Json.Value J → Text → Outcome Text
  text_at node key = do v ← J.member node key; J.as_string v

  unfoldable pub int_key_error : Json.Value J → Text → Outcome (Option Text)
  unfolding has_valid
  int_key_error luks key = do
    valid ← has_valid J.is_int luks key
    error_if (not valid) (codes "LUKS key '" ++ key ++ codes "' is missing or not an int.")

  unfoldable pub string_key_error : Json.Value J → Text → Outcome (Option Text)
  unfolding has_valid text_at
  string_key_error luks key = do
    valid ← has_valid J.is_string luks key
    require valid (codes "LUKS key '" ++ key ++ codes "' is missing or not a string.") do
      s ← text_at luks key
      error_if (is_empty s) (codes "LUKS key '" ++ key ++ codes "' is invalid.")

  unfoldable pub etype_error : Json.Value J → Outcome (Option Text)
  unfolding text_at is_one_of
  etype_error luks = do
    s ← text_at luks (codes "etype")
    error_if (not (is_one_of s (codes "raw" ∷ codes "partitioned" ∷ [])))
        (codes "Unsupported LUKS encapsulating type (etype).")

  unfoldable pub key_size_error : Json.Value J → Outcome (Option Text)
  key_size_error luks = do
    v ← J.member luks (codes "key_size")
    n ← J.as_uint v
    error_if (not (n % 8 == 0)) (codes "LUKS key size must be a multiple of 8.")

  unfoldable pub label_error : Json.Value J → Outcome (Option Text)
  unfolding text_at
  label_error luks = do
    there ← J.is_member luks (codes "label")
    when there do
      v ← J.member luks (codes "label")
      require (J.is_string v) (codes "LUKS key label is not a string.") do
        s ← text_at luks (codes "label")
        error_if (ltb 36 (length s)) (codes "LUKS label exceeds max length of 36 characters.")

  unfoldable pub uuid_error : Json.Value J → Outcome (Option Text)
  unfolding is_valid_if_there
  uuid_error luks = do
    valid ← is_valid_if_there J.is_string luks (codes "uuid")
    error_if (not valid) (codes "LUKS key uuid is not a string.")

  -- Validation::validateLUKS
  unfoldable pub validate_luks : Json.Value J → Outcome (Option Text)
  unfolding first_error int_key_error string_key_error etype_error key_size_error label_error
      uuid_error
  validate_luks node =
      if not (J.is_object node) then ok (some (codes "Invalid node object")) else do
        there ← J.is_member node (codes "luks2")
        require there (codes "Node contains no LUKS2 object") do
          luks ← J.member node (codes "luks2")
          first_error (
              int_key_error luks (codes "key_size")
              ∷ string_key_error luks (codes "cipher")
              ∷ string_key_error luks (codes "hash")
              ∷ string_key_error luks (codes "mname")
              ∷ string_key_error luks (codes "etype")
              ∷ etype_error luks
              ∷ key_size_error luks
              ∷ label_error luks
              ∷ uuid_error luks
              ∷ [])

  unfoldable pub role_error : Json.Value J → Outcome (Option Text)
  unfolding is_valid_if_there text_at is_one_of
  role_error snode = do
    valid ← is_valid_if_there J.is_string snode (codes "role")
    require valid (codes "Partition role must be a string") do
      s ← text_at snode (codes "role")
      error_if (not (is_one_of s (codes "boot" ∷ codes "system" ∷ [])))
          (codes "Unsupported partition role.")

  unfoldable pub static_error : Json.Value J → Outcome (Option Text)
  unfolding is_valid_if_there role_error first_error
  static_error node = do
    there ← J.is_member node (codes "static")
    when there do
      snode ← J.member node (codes "static")
      first_error (
          role_error snode
          ∷ (do
            valid ← is_valid_if_there J.is_string snode (codes "id")
            error_if (not valid) (codes "Partition id must be a string"))
          ∷ (do
            valid ← is_valid_if_there J.is_string snode (codes "uuid")
            error_if (not valid) (codes "Partition uuid must be a string"))
          ∷ [])

  unfoldable pub expand_error : Json.Value J → Outcome (Option Text)
  unfolding is_valid_if_there
  expand_error node = do
    valid ← is_valid_if_there J.is_bool node (codes "expand-to-fit")
    error_if (not valid) (codes "Partition expand-to-fit must be a Bool")

  -- Validation::validateRegularPartition
  unfoldable pub validate_regular_partition : Json.Value J → Outcome (Option Text)
  unfolding has_valid static_error expand_error first_error
  validate_regular_partition node = do
    has_image ← has_valid J.is_string node (codes "image")
    require has_image (codes "Partition image tag missing or not a string")
        (first_error (static_error node ∷ expand_error node ∷ []))
