-- ===== src/Idp/Storage.antt =====
-- rpiidp/include/idpstorage.h and the storage methods of rpiidp/src/device.cpp.
pub mod Align
use rpi_fastbootd.Prelude.{
  ℕ, zero, suc, ◌+◌, ◌-◌, ◌*◌, ◌/◌, ◌%◌, ◌^◌, ◌≤◌, ◌<◌, ◌≡◌, refl, sym, ap, subst, ◌∙◌, fun_ext,
  ◌≢◌, ◌↔◌, ◌⊎◌, inl, inr, Bool, true, false, not, ◌&&◌, ◌||◌, Option, none, some, List, [], ◌∷◌,
  ◌++◌, map, append_assoc, append-nil, arith, ltb, leb, ◌==◌, if◌then◌else◌, ltb→lt, le→leb, ==_iff,
  Bool-cases, Option-cases, has_value, u64_mod, u64, if-elim, length, get_elem?, set, take,
  length-append, length-take, length-set, get_elem?-set_self, get_elem?-set_ne, get_elem?-lt-length,
  get_elem?-eq-none, ℕ_discrete,
}
use rpi_fastbootd.Prelude.Text.{
  Text, codes, text_eq, text_eq_sound, text_eq_refl, is_empty, is_digit, decimal, decimal_fuel,
  digits_value, digits_value-decimal, decimal-injective, to_lower, starts_with, contains,
  after_last_slash,
}
use rpi_fastbootd.Prelude.Outcome.{
  Outcome, Outcome-cases, Fault, ok, throw, deref, overflow_error, invalid_argument, out_of_range,
  logic_error, div_by_zero, bad_optional, runtime_error, stack_exhausted, ◌>>=◌, ◌>>◌,
}

-- enum class IDPptable_type
pub data PtableType : Type 0 where
  dos gpt : PtableType

-- enum class IDPstorage::storage_type
pub data StorageType : Type 0 where
  sd emmc nvme : StorageType

-- struct IDPstorage
pub record Storage : Type 0 where
  pub type : StorageType
  pub sector_size : ℕ
  pub ptable_align : ℕ
  pub ptable_type : PtableType
  pub ptable_id : Option Text

-- struct IDPimage
pub record Image : Type 0 where
  pub device_class : Text
  pub device_storage : Storage
  pub device_variant : Text
  pub version : Text
  pub name : Text
  pub size : ℕ

-- The base name of IDPstorage::BlockDev.
unfoldable pub base_dev : StorageType → Text
base_dev sd = codes "/dev/mmcblk0"
base_dev emmc = codes "/dev/mmcblk0"
base_dev nvme = codes "/dev/nvme0n1"

-- IDPstorage::BlockDev
unfoldable pub block_dev : Storage → Option ℕ → Text
unfolding base_dev
block_dev s none = base_dev s.type
block_dev s (some n) =
    if leb 1 n then base_dev s.type ++ codes "p" ++ decimal n else base_dev s.type

-- IDPstorage::alignUp
unfoldable pub align_up : Storage → ℕ → Outcome ℕ
align_up s size =
    if s.ptable_align == 0
    then ok 0
    else if ltb (u64_mod - 1 - s.ptable_align + 1) size
    then throw overflow_error
    else ok ((size + s.ptable_align - 1) / s.ptable_align * s.ptable_align)
