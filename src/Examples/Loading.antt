-- ===== src/Examples/Loading.antt =====
-- Runs of IDPparser and of the navigator.
use rpi_fastbootd.Examples.Trees
use rpi_fastbootd.Idp.Navigator
use rpi_fastbootd.Idp.Navigator.Create
use rpi_fastbootd.Idp.Navigator.Foreach
use rpi_fastbootd.Idp.Navigator.Process
use rpi_fastbootd.Idp.Navigator.Validate
use rpi_fastbootd.Idp.Navigator.Walk
use rpi_fastbootd.Idp.Parser.Compat
use rpi_fastbootd.Idp.WalkTree
use rpi_fastbootd.Idp.WalkTree.{walk_tree}
use rpi_fastbootd.Idp.Parser.Describe
use rpi_fastbootd.Idp.Parser.Json
use rpi_fastbootd.Idp.Parser.Layout
use rpi_fastbootd.Idp.Parser.Layout.Build
use rpi_fastbootd.Idp.Parser.State
use rpi_fastbootd.Idp.Parser.Texts
use rpi_fastbootd.Idp.Parser.Version
use rpi_fastbootd.Idp.Storage
use rpi_fastbootd.Prelude.{
  ℕ, ◌+◌, ◌%◌, ◌≡◌, refl, ap, ◌≢◌, true, false, none, some, [], ◌∷◌, arith, get_elem?,
}
use rpi_fastbootd.Prelude.Text.{Text, codes, text_eq, is_digit, decimal, digits_value}
use rpi_fastbootd.Prelude.Outcome.{Outcome, ok}
use rpi_fastbootd.Idp.Parser.Json.{Json, Checked, got, refused}
use rpi_fastbootd.Idp.Parser.State.{IdpParser}
use rpi_fastbootd.Idp.Parser.Version.{version}
use rpi_fastbootd.Idp.Parser.Load.{load_json, get_image}
use rpi_fastbootd.Idp.Parser.Loaded.{load_json-IsNested, load_json-get_size}
use rpi_fastbootd.Examples.Trees.{trees, null, description, provisionmap}
use rpi_fastbootd.Idp.Partition.{IdpPartition, links, IsNested, get_size}
use rpi_fastbootd.Idp.Parser.Layout.{Partition}
use rpi_fastbootd.Idp.Navigator.{NavState, NavFrame}
use rpi_fastbootd.Idp.Navigator.Process.{u32}
use rpi_fastbootd.Idp.Navigator.Foreach.{Visitor, foreach_partition, new_navigator}
use rpi_fastbootd.Idp.Navigator.Walk.{step_in, step_out, child_of, get_partitions, index_keys}
use rpi_fastbootd.Idp.Navigator.Steps.{is_block, step_out-step_in}
use rpi_fastbootd.Idp.Navigator.Ends.{Ends, foreach_partition-Ends}
use rpi_fastbootd.Idp.Navigator.Listed.{AreInside, AreNumbered}
use rpi_fastbootd.Idp.Navigator.Partitions.{get_partitions-AreInside}
use rpi_fastbootd.Examples.Trees.{Tree, array, object, item, nil, end, with, leaf, trees-IsFinite}
use rpi_fastbootd.Examples.Fixtures.{test_image}

abbrev fresh : IdpParser trees
fresh = record {
  root = null;
  jvalid = false;
  ig_version = version 0 0 0;
  pmap_version = version 0 0 0;
  image = test_image;
  pnav = none;
  partitions = [];
}

abbrev loaded : Outcome (Checked (Unit {0})) × IdpParser trees
loaded = load_json trees 40 (codes "{}") fresh

-- The partition of the description, after walkTree.
abbrev root_partition : IdpPartition
root_partition = record {
  expand_to_fit = false;
  num = 1;
  img = some (codes "root.img");
  simg = some (codes "root.simg");
  size = 1048576;
  aligned_size = 1048576;
  typecode = some (codes "8300");
  gptlabel = none;
  gptuuid = none;
  luks = none;
  index = some 0;
  parent_index = none;
  blkdev = none;
}

is_loaded :
    (loaded.0 ≡ ok (got tt))
    × (loaded.1.image.device_storage.ptable_align ≡ 1048576)
    × (get_elem? loaded.1.partitions 0 ≡ some root_partition)
unfolding codes decimal digits_value is_digit load_json Trees.at_index Trees.field_names
    Trees.find_field Trees.item_count Trees.item_entries Create.create Foreach.call_all
    Foreach.foreach_partition Foreach.foreach_partition_impl Foreach.new_navigator
    Foreach.visit_children Process.add_partition Process.process_regular_partitions
    Validate.validate_regular_partition Walk.get_partitions Walk.is_below Walk.is_outside_slots
    Walk.step_in Walk.step_out Navigator.add_result Navigator.is_error Navigator.lift Navigator.pure
    Navigator.◌>>=◌ Compat.check_ig_compat Compat.check_pmap_compat Compat.parse_pmap_v1
    Describe.parse_ig_v2 Describe.parse_versioned Json.get_json Json.jchk_array
    Json.jchk_nested_in_array Json.jchk_size Json.jchk_string Json.jchk_value Build.partition_of
    Build.visit_partition Layout.image_info State.access State.check State.current State.from_option
    State.pure State.require State.set_image State.update State.with_prefix State.◌>>=◌
    Texts.from_gi_size Version.parse_version Version.range_contains Version.version_ge walk_tree
    Build.place WalkTree.visit Storage.align_up text_eq
is_loaded = (refl, refl, refl)

loaded_lem : load_json trees 40 (codes "{}") fresh ≡ (ok (got tt), loaded.1)
loaded_lem = ap (λ r. (r, loaded.1)) is_loaded.0

load_json-IsNested_example :
    (get_image trees loaded.1 ≡ some loaded.1.image)
    × (loaded.1.image.device_storage.sector_size % 512 ≡ 0)
    × (loaded.1.image.size ≢ 0)
    × (loaded.1.image.device_storage.ptable_align % 1048576 ≡ 0)
    × IsNested 0 (links loaded.1.partitions)
load_json-IsNested_example = load_json-IsNested trees 40 (codes "{}") fresh loaded.1 loaded_lem

load_json-get_size_example : (n : ℕ) × (get_size true loaded.1.partitions root_partition ≡ ok n)
load_json-get_size_example =
    load_json-get_size trees 40 (codes "{}") fresh loaded.1 true 0 root_partition loaded_lem
      (omega (arith, is_loaded.1)) is_loaded.2

-- A parser that has accepted a description before.
abbrev used : IdpParser trees
used = record fresh { jvalid = true }

abbrev navigator : NavState trees
navigator = new_navigator trees provisionmap

abbrev root_frame : NavFrame trees
root_frame = record {
  node = provisionmap;
  keys = codes "0" ∷ codes "1" ∷ [];
  child_idx = 0;
  slot_key = [];
}

navigator_stack : navigator.nav_stack ≡ root_frame ∷ []
unfolding codes Foreach.new_navigator index_keys decimal Trees.item_count
navigator_stack = refl

-- A function that counts the partitions that it is called for.
abbrev counter : Visitor ℕ
counter q n = (ok none, n + 1)

foreach_partition-Ends_example : Ends [] (foreach_partition 40 counter navigator 0)
unfolding codes Trees.tree_weight
foreach_partition-Ends_example =
    foreach_partition-Ends trees-IsFinite 40 counter navigator 0 root_frame [] navigator_stack
      (omega arith)

-- The second entry of the map, which the navigator has entered.
abbrev entry_node : Tree
entry_node =
    object (with "partitions" (array (item (object (with "image" (leaf "root") end)) nil)) end)

abbrev entry_frame : NavFrame trees
entry_frame = record {
  node = entry_node;
  keys = codes "partitions" ∷ [];
  child_idx = 0;
  slot_key = [];
}

abbrev list_frame : NavFrame trees
list_frame = record {
  node = array (item (object (with "image" (leaf "root") end)) nil);
  keys = codes "0" ∷ [];
  child_idx = 0;
  slot_key = [];
}

enters :
    step_in trees (entry_frame ∷ [])
    ≡ (ok true, list_frame ∷ record entry_frame { child_idx = 1 } ∷ [])
unfolding codes decimal step_in text_eq Trees.find_field Trees.item_count
enters = refl

step_out-step_in_example :
    (step_out trees (list_frame ∷ record entry_frame { child_idx = 1 } ∷ [])
      ≡ (true, record entry_frame { child_idx = 1 } ∷ []))
    × ((key : Text) × (new : NavFrame trees) × (get_elem? entry_frame.keys 0 ≡ some key)
        × (list_frame ∷ record entry_frame { child_idx = 1 } ∷ []
            ≡ new ∷ record entry_frame { child_idx = 1 } ∷ [])
        × (child_of trees entry_node key ≡ ok new.node)
        × (is_block trees new.node ≡ true))
step_out-step_in_example = step_out-step_in trees entry_frame [] _ enters

abbrev at_entry : NavState trees
at_entry = record { nav_stack = entry_frame ∷ []; result = []; num = 4; next_address = 2 }

abbrev root_listed : Partition
root_listed = record {
  address = 2;
  parent = none;
  image = codes "root";
  id = none;
  uuid = none;
  role = none;
  order = 5;
  expand_to_fit = false;
  luks = none;
}

lists_root : get_partitions trees at_entry ≡ (
  ok (some (root_listed ∷ [])),
  record at_entry { result = root_listed ∷ []; num = 5; next_address = 3 },
)
unfolding Navigator.add_result Navigator.is_error Navigator.lift Navigator.pure Navigator.◌>>=◌
    Process.add_partition Process.process_regular_partitions Trees.find_field Trees.item_entries
    Validate.validate_regular_partition Walk.is_below Walk.is_outside_slots codes get_partitions
    text_eq
lists_root = refl

get_partitions-AreInside_example :
    AreInside [] (root_listed ∷ [])
    × AreNumbered 4 2 (root_listed ∷ [])
    × (5 ≡ u32 (4 + 1))
    × (entry_frame ∷ [] ≡ entry_frame ∷ [])
get_partitions-AreInside_example =
    get_partitions-AreInside trees at_entry (root_listed ∷ []) _ (omega arith) lists_root
