-- ===== src/Idp/Parser/Layout.antt =====
-- The partitions that IDPparser::parseIGv2 builds (rpiidp/src/parser.cpp), in the order in which
-- the navigator of the provisioning map visits them.
pub mod Build
pub mod Nested
use rpi_fastbootd.Prelude.{
  ℕ, zero, suc, ◌+◌, ◌-◌, ◌*◌, ◌/◌, ◌%◌, ◌^◌, ◌≤◌, ◌<◌, ◌≡◌, refl, sym, ap, subst, ◌∙◌, fun_ext,
  ◌≢◌, ◌↔◌, ◌⊎◌, inl, inr, Bool, true, false, not, ◌&&◌, ◌||◌, Option, none, some, List, [], ◌∷◌,
  ◌++◌, map, append_assoc, append-nil, arith, ltb, leb, ◌==◌, if◌then◌else◌, ltb→lt, le→leb, ==_iff,
  Bool-cases, Option-cases, has_value, u64_mod, u64, if-elim, length, get_elem?, set, take,
  length-append, length-take, length-set, get_elem?-set_self, get_elem?-set_ne, get_elem?-lt-length,
  get_elem?-eq-none, ℕ_discrete,
}
use rpi_fastbootd.Prelude.Text.{
  Text, codes, text_eq, text_eq_sound, text_eq_refl, is_empty, is_digit, decimal, decimal_fuel,
  digits_value, digits_value-decimal, decimal-injective, to_lower, starts_with, contains,
  after_last_slash,
}
use rpi_fastbootd.Prelude.Outcome.{
  Outcome, Outcome-cases, Fault, ok, throw, deref, overflow_error, invalid_argument, out_of_range,
  logic_error, div_by_zero, bad_optional, runtime_error, stack_exhausted, ◌>>=◌, ◌>>◌,
}
use rpi_fastbootd.Idp.Luks.{Luks}
use rpi_fastbootd.Idp.Storage.{Storage, dos, gpt, PtableType, align_up}
use rpi_fastbootd.Idp.Partition.{IdpPartition}
use rpi_fastbootd.Idp.Parser.Json.{Json, Checked, got, refused, jchk_string, jchk_size, get_json}

-- struct Partition of rpiidp/include/nav.h, as the navigator gives it; `address` stands for the
-- object itself, and `parent` for the object that it is in.
pub record Partition : Type 0 where
  pub address : ℕ
  pub parent : Option ℕ
  pub image : Text
  pub id : Option Text
  pub uuid : Option Text
  pub role : Option Text
  pub order : ℕ
  pub expand_to_fit : Bool
  pub luks : Option Luks

-- The members of it that the description of its image fills in.
pub record ImageInfo : Type 0 where
  pub img_name : Text
  pub simg_name : Text
  pub img_size : ℕ
  pub pcode : Text
  pub plabel : Option Text
  pub puuid : Option Text

-- The map from partitions to their indices, with the last entry first, and the list.
pub record Built : Type 0 where
  pub p2i : List (ℕ × ℕ)
  pub partitions : List IdpPartition

unfoldable pub find_index : List (ℕ × ℕ) → ℕ → Option ℕ
find_index [] a = none
find_index ((b, i) ∷ p2i) a = if b == a then some i else find_index p2i a

-- The result of an access whose failure is passed over.
abbrev pub value_of : {A : Type 0} → Checked A → Option A
value_of (got a) = some a
value_of (refused why) = none

abbrev pub text_or_empty : Option Text → Text
text_or_empty none = []
text_or_empty (some s) = s

-- An access, and what follows if it has failed, or if it has read a value.
abbrev pub with_value : {A B : Type 0} → Checked A → B → (A → B) → B
with_value (got a) b f = f a
with_value (refused why) b f = b

abbrev pub with_checked :
    {A B : Type 0} → Checked A → (A → Outcome (Checked B)) → Outcome (Checked B)
with_checked (got a) f = f a
with_checked (refused why) f = ok (refused why)

module _ (J : Json) where
  unfoldable pub code_at : Json.Value J → Text → Outcome (Checked Text)
  code_at img key = jchk_string J img key >>= λ c. ok (got (text_or_empty (value_of c)))

  -- The code of a partition type: a failure to read it leaves it empty.
  unfoldable pub partition_code : Json.Value J → Text → Outcome (Checked Text)
  unfolding code_at
  partition_code img image = J.is_member img (codes "partition-type") >>= λ has_type.
      (if has_type
        then code_at img (codes "partition-type")
        else J.is_member img (codes "partition-type-uuid") >>= λ has_uuid.
            (if has_uuid
              then code_at img (codes "partition-type-uuid")
              else ok (refused (codes "No partition code found for " ++ image))))

  -- An optional member: none if it is missing or does not fit.
  unfoldable pub optional_string : Json.Value J → Text → Outcome (Option Text)
  optional_string img key = J.is_member img key >>= λ there.
      (if there then (jchk_string J img key >>= λ c. ok (value_of c)) else ok none)

  -- The mandatory members, in the order of the code.
  unfoldable pub mandatory : Json.Value J → Text → Outcome (Checked (Text × Text × ℕ))
  mandatory img image =
      let failed : Checked (Text × Text × ℕ) =
        refused (codes "Attribute collection failed for partition image: " ++ image) in
      jchk_string J img (codes "image") >>= λ a. with_value a (ok failed) λ img_name.
        jchk_string J img (codes "simage") >>= λ b. with_value b (ok failed) λ simg_name.
          jchk_size J img (codes "size") >>= λ c.
          with_value c (ok failed) λ img_size. ok (got (img_name, simg_name, img_size))

  -- in-partition-table, which must be the string true
  unfoldable pub in_ptable : Json.Value J → Outcome Bool
  in_ptable img = jchk_string J img (codes "in-partition-table") >>= λ c.
      with_value c (ok false) λ s. ok (text_eq s (codes "true"))

  -- What the description says of the image of a partition.
  unfoldable pub image_info : Json.Value J → Text → Outcome (Checked ImageInfo)
  unfolding mandatory in_ptable partition_code optional_string
  image_info root image =
      get_json J root (codes "layout" ∷ codes "partitionimages" ∷ image ∷ []) >>= λ img.
      (if J.is_null img
        then ok (refused (codes "No image found for " ++ image))
        else mandatory img image >>= λ m. with_checked m λ (img_name, simg_name, img_size).
          in_ptable img >>= λ listed.
          (if not listed
            then ok (
                refused (
                  codes "Images requiring provisioning must declare a partition table entry ("
                  ++ image
                  ++ codes ")"))
            else partition_code img image >>= λ c. with_checked c λ pcode.
              optional_string img (codes "partition-label") >>= λ plabel.
              optional_string img (codes "partition-uuid") >>= λ puuid. ok (
                got (record {
                  img_name = img_name;
                  simg_name = simg_name;
                  img_size = img_size;
                  pcode = pcode;
                  plabel = plabel;
                  puuid = puuid;
                }))))
