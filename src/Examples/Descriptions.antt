-- ===== src/Examples/Descriptions.antt =====
-- Runs of the reading of a description.
use rpi_fastbootd.Prelude.{
  ◌*◌, ◌%◌, ◌^◌, ◌≡◌, true, false, none, some, List, [], ◌∷◌, ◌++◌, arith, if◌then◌else◌,
}
use rpi_fastbootd.Prelude.Text.{Text, codes, text_eq, is_empty, decimal}
use rpi_fastbootd.Prelude.Outcome.{ok}
use rpi_fastbootd.Idp.Parser.Json.{Json}
use rpi_fastbootd.Idp.Parser.Texts.{from_gi_size, from_gi_size-decimal, mebibytes}
use rpi_fastbootd.Idp.Parser.Layout.{Partition}
use rpi_fastbootd.Examples.Fixtures.{test_luks}

-- A reader in which each value is its key, every member is there, and every number is one
-- mebibyte.
abbrev test_json : Json
test_json = record {
  Value = Text;
  null = [];
  is_null = is_empty;
  is_object = λ v. true;
  is_array = λ v. false;
  is_string = λ v. true;
  is_unsigned = λ v. true;
  is_signed = λ v. true;
  is_member = λ v key. ok true;
  member = λ v key. ok key;
  as_string = λ v. ok (if text_eq v (codes "in-partition-table") then codes "true" else v);
  is_int = λ v. true;
  is_bool = λ v. true;
  as_bool = λ v. ok true;
  as_uint = λ v. ok 1048576;
  as_uint64 = λ v. ok 1048576;
  as_int64 = λ v. ok (some 1048576);
  at = λ v i. ok v;
  array_size = λ v. 0;
  member_names = λ v. ok [];
  entries = λ v. [];
  parse = λ s. (true, s);
  formatted_errors = λ s. [];
  what = λ e. [];
}

abbrev test_container : Partition
test_container = record {
  address = 100;
  parent = none;
  image = [];
  id = none;
  uuid = none;
  role = none;
  order = 1;
  expand_to_fit = false;
  luks = some test_luks;
}

abbrev test_child : Partition
test_child = record {
  address = 200;
  parent = some 100;
  image = codes "root";
  id = none;
  uuid = none;
  role = none;
  order = 2;
  expand_to_fit = true;
  luks = none;
}

abbrev visited : List Partition
visited = test_container ∷ test_child ∷ []

from_gi_size-decimal_example : from_gi_size (decimal 4 ++ b'M' ∷ []) ≡ ok (4 * 1048576 % 2 ^ 64)
from_gi_size-decimal_example = from_gi_size-decimal 4 1048576 (b'M' ∷ []) (omega arith) mebibytes
