-- ===== src/Idp/Parser/Describe.antt =====
-- IDPparser::parseIGv2 (rpiidp/src/parser.cpp), in the order of its statements.
use rpi_fastbootd.Prelude.{
  ℕ, ◌+◌, ◌%◌, not, ◌||◌, Option, none, some, [], ◌++◌, ◌==◌, if◌then◌else◌,
}
use rpi_fastbootd.Prelude.Text.{Text, codes, text_eq, is_empty, decimal}
use rpi_fastbootd.Prelude.Outcome.{Outcome, ok, throw, bad_optional, stack_exhausted}
use rpi_fastbootd.Idp.Storage.{Storage, StorageType, sd, emmc, nvme, PtableType, dos, gpt, Image}
use rpi_fastbootd.Idp.Parser.Json.{Json, Checked, got, refused, jchk_string, jchk_size, jchk_value}
use rpi_fastbootd.Idp.Parser.Texts.{from_gi_size}
use rpi_fastbootd.Idp.Parser.Version.{
  IdpVersion, int, int_eq, int_text, parse_version, bad_version, version, version_text,
  range_contains,
}
use rpi_fastbootd.Idp.Parser.Layout.{Built, value_of, text_or_empty}
use rpi_fastbootd.Idp.Parser.Layout.Build.{visit_partition}
use rpi_fastbootd.Idp.Parser.Layout.Nested.{nothing_built}
use rpi_fastbootd.Idp.Parser.State.{
  IdpParser, P, ◌>>=◌, ◌>>◌, pure, refuse, access, check, require, from_option, update, set_image,
}
use rpi_fastbootd.Idp.Parser.Compat.{check_pmap_compat, parse_pmap_v1}
use rpi_fastbootd.Idp.Navigator.{NavState}
use rpi_fastbootd.Idp.Navigator.Foreach.{Walked, finished, stopped, Walk, foreach_partition}

abbrev pub storage_type_of : Text → Option StorageType
storage_type_of s =
    if text_eq s (codes "sd")
    then some sd
    else if text_eq s (codes "emmc")
    then some emmc
    else if text_eq s (codes "nvme")
    then some nvme
    else none

abbrev pub ptable_type_of : Text → Option PtableType
ptable_type_of s =
    if text_eq s (codes "dos") then some dos else if text_eq s (codes "gpt") then some gpt else none

abbrev pub set_storage : (Storage → Storage) → Image → Image
set_storage f im = record im { device_storage = f im.device_storage }

-- A text that is not empty.
abbrev pub non_empty : Text → Option Text
non_empty s = if is_empty s then none else some s

module _ (J : Json) where
  -- JCHK for Json::Value whose failure is passed over: the value stays as it was.
  unfoldable pub value_or : Json.Value J → Json.Value J → Text → P J (Json.Value J)
  value_or old json key = do
    read ← access (jchk_value J json key)
    pure (elim (value_of read) [ some v ↦ v | none ↦ old ])

  -- The catch clause around fromGIsz.
  abbrev pub catch_size : Outcome ℕ → Outcome (Checked ℕ)
  catch_size (ok n) = ok (got n)
  catch_size (throw e) =
      ok (refused (codes "attributes.image-palign-bytes is unreadable: " ++ J.what e))

  -- The device of the image, from IGmeta: the sector size
  unfoldable pub read_device : Json.Value J → P J ℕ
  read_device meta = do
    device_class ← check (jchk_string J meta (codes "IGconf_device_class"))
    set_image (λ im. record im { device_class = device_class })
    storage_type ← check (jchk_string J meta (codes "IGconf_device_storage_type"))
    sectors ← check (jchk_size J meta (codes "IGconf_device_sector_size"))
    variant ← check (jchk_string J meta (codes "IGconf_device_variant"))
    set_image (λ im. record im { device_variant = variant })
    image_version ← check (jchk_string J meta (codes "IGconf_image_version"))
    set_image (λ im. record im { version = image_version })
    pure sectors

  -- The storage of the device
  unfoldable pub read_storage : Json.Value J → ℕ → P J (Unit {0})
  read_storage json sectors = do
    require (sectors % 512 == 0) (
        codes "IGconf_device_sector_size is "
        ++ decimal sectors
        ++ codes ", which is not a multiple of 512")
    set_image (set_storage (λ s. record s { sector_size = sectors }))
    meta ← access (J.member json (codes "IGmeta"))
    storage ← access (J.member meta (codes "IGconf_device_storage_type"))
    name ← access (J.as_string storage)
    type ←
        from_option (codes "unsupported IGconf_device_storage_type '" ++ name ++ codes "'")
          (storage_type_of name)
    set_image (set_storage (λ s. record s { type = type }))

  -- The attributes of the image
  unfoldable pub read_attributes : Json.Value J → P J (Unit {0})
  read_attributes attributes = do
    name ← check (jchk_string J attributes (codes "image-name"))
    set_image (λ im. record im { name = name })
    size ← check (jchk_size J attributes (codes "image-size"))
    set_image (λ im. record im { size = size })
    palign ← check (jchk_string J attributes (codes "image-palign-bytes"))
    require (not (size == 0)) (codes "attributes.image-size is zero")
    align ← check (catch_size (from_gi_size palign))
    require (align % 1048576 == 0) (
        codes "attributes.image-palign-bytes is "
        ++ decimal align
        ++ codes ", which is not a multiple of 1MiB")
    set_image (set_storage (λ s. record s { ptable_align = align }))

  -- The partition table
  unfoldable pub read_table : Json.Value J → P J (Unit {0})
  read_table json = do
    layout ← access (J.member json (codes "layout"))
    table ← access (J.member layout (codes "partitiontable"))
    label ← access (J.member table (codes "label"))
    name ← access (J.as_string label)
    type ←
        from_option
          (codes "layout.partitiontable.label is '" ++ name ++ codes "', expected dos or gpt")
          (ptable_type_of name)
    set_image (set_storage (λ s. record s { ptable_type = type }))
    id ← access (J.member table (codes "id"))
    require (J.is_null id || J.is_string id) (codes "layout.partitiontable.id must be a string")
    id_text ← if J.is_string id then access (J.as_string id) else pure []
    set_image (set_storage (λ s. record s { ptable_id = non_empty id_text }))

  -- VersionedParser::parse, with one parser for a range of versions
  unfoldable pub parse_versioned : IdpVersion → ℕ → P J (Unit {0}) → P J (Unit {0})
  parse_versioned v major parser =
      if range_contains (version major 0 0) (version (major + 1) 0 0) v
      then parser
      else refuse (codes "No parser found for version " ++ version_text v)

  -- The provisioning map
  unfoldable pub read_map : Json.Value J → P J (Unit {0})
  unfolding parse_versioned
  read_map json = do
    str ← check_pmap_compat J json
    v ← from_option (bad_version str) (parse_version str)
    require (int_eq v.major (int 1))
        (codes "unsupported provisioning map major version " ++ int_text v.major)
    update (λ s. record s { pmap_version = v })
    parse_versioned v 1 (parse_pmap_v1 J json)

  abbrev pub walk_result : Outcome Walked → Outcome (Checked (Unit {0}))
  walk_result (throw e) = throw e
  walk_result (ok finished) = ok (got tt)
  walk_result (ok (stopped why)) =
      ok (refused (codes "Partition processing failed: " ++ text_or_empty why))

  abbrev pub after_walk : Walk J Built → IdpParser J → Outcome (Checked (Unit {0})) × IdpParser J
  after_walk none s = (throw stack_exhausted, s)
  after_walk (some (r, nav, b)) s =
      (walk_result r, record s { pnav = some nav; partitions = b.partitions })

  -- foreachPartition from the navigator; a null pointer is a fault.
  abbrev pub walk_from_navigator : ℕ → Option (NavState J) → P J (Unit {0})
  walk_from_navigator fuel none s = (throw bad_optional, record s { partitions = [] })
  walk_from_navigator fuel (some nav) s =
      after_walk
        (foreach_partition fuel (λ q b. visit_partition J s.root s.image.device_storage q q.luks b)
          nav nothing_built)
        s

  unfoldable pub read_partitions : ℕ → P J (Unit {0})
  read_partitions fuel s = walk_from_navigator fuel s.pnav s

  -- IDPparser::parseIGv2
  unfoldable pub parse_ig_v2 : ℕ → Json.Value J → P J (Unit {0})
  unfolding value_or read_device read_storage read_attributes read_table read_map read_partitions
  parse_ig_v2 fuel json = do
    meta ← value_or J.null json (codes "IGmeta")
    sectors ← read_device meta
    read_storage json sectors
    attributes ← value_or meta json (codes "attributes")
    read_attributes attributes
    read_table json
    read_map json
    read_partitions fuel
