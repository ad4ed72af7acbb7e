-- ===== src/Examples/Trees.antt =====
-- A JSON reader over trees, with one description.
use Prim.Native.String.{String}
use rpi_fastbootd.Idp.Navigator.Steps.{IsFinite, is_block}
use rpi_fastbootd.Prelude.{
  ℕ, zero, suc, ◌+◌, ◌≤◌, ◌<◌, ◌≡◌, sym, subst, inl, inr, Bool, true, false, not, Option, none,
  some, List, [], ◌∷◌, arith, if◌then◌else◌, Bool-cases, has_value,
}
use rpi_fastbootd.Prelude.Text.{Text, codes, text_eq, is_empty, decimal}
use rpi_fastbootd.Prelude.Outcome.{Outcome, ok, throw, logic_error, ◌>>=◌}
use rpi_fastbootd.Idp.Parser.Json.{Json}

mutual
  pub data Tree : Type 0 where
    null : Tree
    text : Text → Tree
    number : ℕ → Tree
    flag : Bool → Tree
    array : Items → Tree
    object : Fields → Tree

  pub data Items : Type 0 where
    nil : Items
    item : Tree → Items → Items

  pub data Fields : Type 0 where
    end : Fields
    field : Text → Tree → Fields → Fields

unfoldable pub at_index : Items → ℕ → Tree
at_index nil i = null
at_index (item v items) zero = v
at_index (item v items) (suc i) = at_index items i

unfoldable pub find_field : Fields → Text → Option Tree
find_field end key = none
find_field (field name v fields) key = if text_eq name key then some v else find_field fields key

abbrev pub tree_or_null : Option Tree → Tree
tree_or_null none = null
tree_or_null (some v) = v

unfoldable pub item_count : Items → ℕ
item_count nil = 0
item_count (item v items) = suc (item_count items)

unfoldable pub item_entries : Items → ℕ → List (Text × Tree)
item_entries nil i = []
item_entries (item v items) i = (decimal i, v) ∷ item_entries items (i + 1)

unfoldable pub field_entries : Fields → List (Text × Tree)
field_entries end = []
field_entries (field name v fields) = (name, v) ∷ field_entries fields

unfoldable pub field_names : Fields → List Text
field_names end = []
field_names (field name v fields) = name ∷ field_names fields

abbrev pub tree_member : Tree → Text → Outcome Tree
tree_member null key = ok null
tree_member (object fields) key = ok (tree_or_null (find_field fields key))
tree_member _ key = throw logic_error

abbrev tree_is_member : Tree → Text → Outcome Bool
tree_is_member null key = ok false
tree_is_member (object fields) key = ok (has_value (find_field fields key))
tree_is_member _ key = throw logic_error

abbrev pub tree_at : Tree → ℕ → Outcome Tree
tree_at null i = ok null
tree_at (array items) i = ok (at_index items i)
tree_at _ i = throw logic_error

abbrev tree_string : Tree → Outcome Text
tree_string null = ok []
tree_string (text s) = ok s
tree_string _ = throw logic_error

abbrev tree_number : Tree → Outcome ℕ
tree_number (number n) = ok n
tree_number _ = throw logic_error

abbrev tree_flag : Tree → Outcome Bool
tree_flag (flag b) = ok b
tree_flag _ = throw logic_error

abbrev tree_names : Tree → Outcome (List Text)
tree_names null = ok []
tree_names (object fields) = ok (field_names fields)
tree_names _ = throw logic_error

abbrev tree_entries : Tree → List (Text × Tree)
tree_entries (array items) = item_entries items 0
tree_entries (object fields) = field_entries fields
tree_entries _ = []

abbrev tree_size : Tree → ℕ
tree_size (array items) = item_count items
tree_size _ = 0

abbrev is_null_tree : Tree → Bool
is_null_tree null = true
is_null_tree _ = false

abbrev is_object_tree : Tree → Bool
is_object_tree (object fields) = true
is_object_tree _ = false

abbrev is_array_tree : Tree → Bool
is_array_tree (array items) = true
is_array_tree _ = false

abbrev is_text_tree : Tree → Bool
is_text_tree (text s) = true
is_text_tree _ = false

abbrev is_number_tree : Tree → Bool
is_number_tree (number n) = true
is_number_tree _ = false

abbrev is_flag_tree : Tree → Bool
is_flag_tree (flag b) = true
is_flag_tree _ = false

abbrev pub leaf : String → Tree
leaf s = text (codes s)

abbrev pub with : String → Tree → Fields → Fields
with name v fields = field (codes name) v fields

-- A map with one partition, beside its attributes.
abbrev pub provisionmap : Tree
provisionmap = array (
    item
      (object (
        with "attributes"
          (object (with "PMAPversion" (leaf "1.0.0") (with "system_type" (leaf "flat") end))) end))
      (item
        (object
          (with "partitions" (array (item (object (with "image" (leaf "root") end)) nil)) end))
        nil))

abbrev pub description : Tree
description = object (
    with "IGversion" (leaf "2.0.0") (
      with "IGmeta"
        (object (
          with "IGconf_device_class" (leaf "cm5") (
            with "IGconf_device_storage_type" (leaf "emmc") (
              with "IGconf_device_sector_size" (number 512) (
                with "IGconf_device_variant" (leaf "none")
                  (with "IGconf_image_version" (leaf "1.0") end))))))
        (with "attributes"
          (object (
            with "image-name" (leaf "test")
              (with "image-size" (number 4194304) (with "image-palign-bytes" (leaf "1M") end))))
          (with "layout"
            (object (
              with "provisionmap" provisionmap (
                with "partitiontable" (object (with "label" (leaf "gpt") end)) (
                  with "partitionimages"
                    (object (
                      with "root"
                        (object (
                          with "image" (leaf "root.img") (
                            with "simage" (leaf "root.simg") (
                              with "size" (number 1048576) (
                                with "in-partition-table" (leaf "true")
                                  (with "partition-type" (leaf "8300") end))))))
                        end))
                    end))))
            end))))

-- Every text that is not empty is read as this description.
abbrev pub trees : Json
trees = record {
  Value = Tree;
  null = null;
  is_null = is_null_tree;
  is_object = is_object_tree;
  is_array = is_array_tree;
  is_string = is_text_tree;
  is_unsigned = is_number_tree;
  is_signed = is_number_tree;
  is_member = tree_is_member;
  member = tree_member;
  as_string = tree_string;
  is_int = is_number_tree;
  is_bool = is_flag_tree;
  as_bool = tree_flag;
  as_uint = tree_number;
  as_uint64 = tree_number;
  as_int64 = λ v. tree_number v >>= λ n. ok (some n);
  at = tree_at;
  array_size = tree_size;
  member_names = tree_names;
  entries = tree_entries;
  parse = λ s. (not (is_empty s), if is_empty s then null else description);
  formatted_errors = λ s. codes "* Line 1";
  what = λ e. codes "fault";
}

unfoldable mutual
  pub tree_weight : Tree → ℕ
  tree_weight (array items) = suc (items_weight items)
  tree_weight (object fields) = suc (fields_weight fields)
  tree_weight _ = 0

  pub items_weight : Items → ℕ
  items_weight nil = 0
  items_weight (item v items) = tree_weight v + items_weight items

  pub fields_weight : Fields → ℕ
  fields_weight end = 0
  fields_weight (field name v fields) = tree_weight v + fields_weight fields

at_index-le : (items : Items) (i : ℕ) → tree_weight (at_index items i) ≤ items_weight items
unfolding at_index tree_weight
at_index-le nil i = omega arith
at_index-le (item v items) zero = omega arith
at_index-le (item v items) (suc i) = omega (arith, at_index-le items i)

find_field-le :
    (fields : Fields) (key : Text)
    → tree_weight (tree_or_null (find_field fields key)) ≤ fields_weight fields
unfolding find_field tree_weight
find_field-le end key = omega arith
find_field-le (field name v fields) key = elim (Bool-cases (text_eq name key)) [
  | inl e ↦ rw e (omega arith)
  | inr e ↦ rw e (omega (arith, find_field-le fields key))
]

false_ne_true : false ≡ true → ⊥
false_ne_true e = cc e

value_of_ok : {a b : Tree} → ok a ≡ ok b → a ≡ b
value_of_ok e = cc e

pub tree_at-lt :
    (v : Tree) (i : ℕ) (child : Tree)
    → tree_at v i ≡ ok child
    → is_block trees child ≡ true
    → tree_weight child < tree_weight v
unfolding tree_weight
tree_at-lt null i child e block =
    absurd (false_ne_true (subst (λ c. is_block trees c ≡ true) (sym (value_of_ok e)) block))
tree_at-lt (array items) i child e block =
    subst (λ c. tree_weight c < suc (items_weight items)) (value_of_ok e)
      (omega (arith, at_index-le items i))
tree_at-lt (text s) i child e block = absurd (cc e)
tree_at-lt (number n) i child e block = absurd (cc e)
tree_at-lt (flag b) i child e block = absurd (cc e)
tree_at-lt (object fields) i child e block = absurd (cc e)

pub tree_member-lt :
    (v : Tree) (key : Text) (child : Tree)
    → tree_member v key ≡ ok child
    → is_block trees child ≡ true
    → tree_weight child < tree_weight v
unfolding tree_weight
tree_member-lt null key child e block =
    absurd (false_ne_true (subst (λ c. is_block trees c ≡ true) (sym (value_of_ok e)) block))
tree_member-lt (object fields) key child e block =
    subst (λ c. tree_weight c < suc (fields_weight fields)) (value_of_ok e)
      (omega (arith, find_field-le fields key))
tree_member-lt (text s) key child e block = absurd (cc e)
tree_member-lt (number n) key child e block = absurd (cc e)
tree_member-lt (flag b) key child e block = absurd (cc e)
tree_member-lt (array items) key child e block = absurd (cc e)

abbrev pub trees-IsFinite : IsFinite trees
trees-IsFinite = record {
  weight = tree_weight;
  weight-at = tree_at-lt;
  weight-member = tree_member-lt;
}
