-- ===== src/Idp/Parser/Compat.antt =====
-- checkIGCompat, checkPMAPCompat and parsePMAPv1 (rpiidp/src/parser.cpp).
use rpi_fastbootd.Prelude.{ℕ, ◌||◌, ◌++◌, has_value}
use rpi_fastbootd.Prelude.Text.{Text, codes, text_eq}
use rpi_fastbootd.Idp.Parser.Json.{Json, jchk_string, jchk_value, jchk_array, jchk_nested_in_array}
use rpi_fastbootd.Idp.Parser.Version.{
  IdpVersion, parse_version, bad_version, version_ge, version, version_text,
}
use rpi_fastbootd.Idp.Parser.State.{
  P, ◌>>=◌, ◌>>◌, pure, access, check, require, from_option, update,
}
use rpi_fastbootd.Idp.Navigator.Create.{create, is_system_type}

module _ (J : Json) where
  -- The error of an unsupported version names it.
  abbrev pub unsupported : Text → IdpVersion → Text
  unsupported what v = codes "Unsupported " ++ what ++ codes " version: " ++ version_text v

  unfoldable pub read_version : Text → Text → ℕ → P J (Unit {0})
  read_version what str least = do
    v ← from_option (bad_version str) (parse_version str)
    require (version_ge v (version least 0 0)) (unsupported what v)

  -- checkIGCompat: the version string that it sets
  unfoldable pub check_ig_compat : Json.Value J → P J Text
  unfolding read_version
  check_ig_compat root = do
    str ← check (jchk_string J root (codes "IGversion"))
    read_version (codes "IG") str 2
    meta ← check (jchk_value J root (codes "IGmeta"))
    attributes ← check (jchk_value J root (codes "attributes"))
    layout ← check (jchk_value J root (codes "layout"))
    images ← access (J.is_member layout (codes "partitionimages"))
    require images (codes "layout.partitionimages is missing")
    table ← check (jchk_value J layout (codes "partitiontable"))
    label ← check (jchk_string J table (codes "label"))
    require (text_eq label (codes "dos") || text_eq label (codes "gpt"))
        (codes "Bad partition table label: '" ++ label ++ codes "'. Need dos|gpt")
    pure str

  -- checkPMAPCompat: the version string that it sets
  unfoldable pub check_pmap_compat : Json.Value J → P J Text
  unfolding read_version
  check_pmap_compat root = do
    layout ← check (jchk_value J root (codes "layout"))
    pmap ← check (jchk_array J layout (codes "provisionmap"))
    str ← check (jchk_nested_in_array J pmap (codes "attributes") (codes "PMAPversion"))
    read_version (codes "PMAP") str 1
    pure str

  -- IDPparser::parsePMAPv1
  unfoldable pub parse_pmap_v1 : Json.Value J → P J (Unit {0})
  parse_pmap_v1 json = do
    layout ← check (jchk_value J json (codes "layout"))
    pmap ← check (jchk_array J layout (codes "provisionmap"))
    type ← check (jchk_nested_in_array J pmap (codes "attributes") (codes "system_type"))
    require (is_system_type J type)
        (codes "Bad system type in provisionmap: '" ++ type ++ codes "'. Need flat|slotted")
    pnav ← access (create J pmap)
    update (λ s. record s { pnav = pnav })
    require (has_value pnav)
        (codes "provisioning map could not be navigated; check the partition tree")
