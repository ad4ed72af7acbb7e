-- ===== src/Idp/Parser/Load.antt =====
-- IGvalidate, loadJSON, loadData, getImage and getPartitions of IDPparser (rpiidp/src/parser.cpp):
-- the parser that IDPdevice has.
use rpi_fastbootd.Prelude.{ℕ, true, false, Option, none, some, [], ◌++◌, if◌then◌else◌}
use rpi_fastbootd.Prelude.Text.{Text, codes}
use rpi_fastbootd.Prelude.Outcome.{Outcome, ok, throw}
use rpi_fastbootd.Idp.Storage.{Image}
use rpi_fastbootd.Idp.WalkTree.{walk_tree}
use rpi_fastbootd.Idp.Device.Platform.{Parser, Reason, rejected}
use rpi_fastbootd.Idp.Parser.Json.{Json, Checked, got, refused}
use rpi_fastbootd.Idp.Parser.Texts.{flatten_lines}
use rpi_fastbootd.Idp.Parser.Version.{int, int_eq, int_text, parse_version, bad_version}
use rpi_fastbootd.Idp.Parser.State.{
  IdpParser, P, ◌>>=◌, ◌>>◌, require, from_option, update, with_prefix, current,
}
use rpi_fastbootd.Idp.Parser.Compat.{check_ig_compat}
use rpi_fastbootd.Idp.Parser.Describe.{parse_ig_v2, parse_versioned}

module _ (J : Json) where
  -- IDPparser::walkTree on the partitions of the parser
  unfoldable pub walk_partitions : IdpParser J → IdpParser J
  walk_partitions s = record s {
    partitions = walk_tree s.image.device_storage.ptable_type s.partitions;
  }

  -- IDPparser::IGvalidate
  unfoldable pub ig_validate : ℕ → P J (Unit {0})
  unfolding walk_partitions
  ig_validate fuel = do
    s ← current
    str ← with_prefix (codes "image generator block invalid: ") (check_ig_compat J s.root)
    v ←
        from_option (codes "cannot parse version '" ++ str ++ codes "': " ++ bad_version str)
          (parse_version str)
    require (int_eq v.major (int 2))
        (codes "unsupported image generator major version " ++ int_text v.major)
    update (λ s'. record s' { ig_version = v })
    parse_versioned J v 2 (parse_ig_v2 J fuel s.root)
    update walk_partitions

  -- What jvalid_ becomes of the result of IGvalidate, unless it throws.
  abbrev pub set_valid :
      Outcome (Checked (Unit {0})) × IdpParser J → Outcome (Checked (Unit {0})) × IdpParser J
  set_valid (throw e, s) = (throw e, s)
  set_valid (ok (refused why), s) = (ok (refused why), record s { jvalid = false })
  set_valid (ok (got r), s) = (ok (got r), record s { jvalid = true })

  -- IDPparser::loadJSON, and loadData on the same bytes
  unfoldable pub load_json : ℕ → Text → P J (Unit {0})
  unfolding ig_validate
  load_json fuel text s =
      let (parsed, root) = J.parse text in
      if parsed then set_valid (ig_validate fuel (record s { root = root })) else (
        ok (refused (codes "not valid JSON: " ++ flatten_lines (J.formatted_errors text))),
        record s { root = root },
      )

  -- IDPparser::getImage
  unfoldable pub get_image : IdpParser J → Option Image
  get_image s = if s.jvalid then some s.image else none

  abbrev pub reason_of :
      Outcome (Checked (Unit {0})) × IdpParser J → Outcome (Option Reason) × IdpParser J
  reason_of (throw e, s) = (throw e, s)
  reason_of (ok (refused why), s) = (ok (some (rejected why)), s)
  reason_of (ok (got r), s) = (ok none, s)

  -- The parser of IDPdevice: what a new one has for an image does not matter, since getImage does
  -- not give it away.
  unfoldable pub idp_parser : ℕ → IdpParser J → Parser
  unfolding load_json get_image
  idp_parser fuel fresh = record {
    State = IdpParser J;
    fresh = record fresh { jvalid = false; partitions = []; pnav = none };
    load_data = λ s text. reason_of (load_json fuel text s);
    get_image = get_image;
    get_partitions = λ s. s.partitions;
  }
