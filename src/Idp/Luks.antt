-- ===== src/Idp/Luks.antt =====
-- struct IDPluks of rpiidp/include/idpcrypt.h, and the command lines of rpiidp/src/crypt.cpp.
use rpi_fastbootd.Prelude.{
  ℕ, ◌+◌, ◌-◌, ◌*◌, ◌/◌, Option, none, some, [], ◌++◌, leb, ◌==◌, if◌then◌else◌, u64,
}
use rpi_fastbootd.Prelude.Text.{Text, codes, is_empty, decimal}
use rpi_fastbootd.Prelude.Outcome.{Outcome, ok, throw, div_by_zero}

-- enum class IDPluks::encap_type
pub data EncapType : Type 0 where
  raw partitioned : EncapType

pub record Luks : Type 0 where
  pub etype : EncapType
  pub version : ℕ
  pub hash : Text
  pub key_size : ℕ
  pub cipher : Text
  pub sector_size : ℕ
  pub mname : Text
  pub label : Option Text
  pub uuid : Option Text
  pub payload_offset_sectors : Option ℕ
  pub header_size_bytes : Option ℕ
  pub p_alignment_bytes : ℕ

-- std::optional::value_or
abbrev pub value_or {ℓ} : {A : Type ℓ} → Option A → A → A
value_or none d = d
value_or (some a) d = a

-- IDPluks::alignUp: a division by an alignment of zero traps.
unfoldable pub align_up : ℕ → ℕ → Outcome ℕ
align_up value alignment =
    if alignment == 0
    then throw div_by_zero
    else ok (u64 (value + alignment - 1) / alignment * alignment)

-- The switch of IDPluks::headerSize.
unfoldable pub raw_header_size : Luks → ℕ
raw_header_size l =
    if l.version == 1
    then u64 (value_or l.payload_offset_sectors 2048 * l.sector_size)
    else if l.version == 2
    then value_or l.header_size_bytes (16 * 1024 * 1024)
    else 0

-- IDPluks::headerSize
unfoldable pub header_size : Luks → Outcome ℕ
unfolding align_up raw_header_size
header_size l = align_up (raw_header_size l) l.p_alignment_bytes

-- The suffix of IDPluks::BlockDev for a numbered partition of a partitioned container.
unfoldable pub dev_suffix : EncapType → Option ℕ → Text
dev_suffix raw _ = []
dev_suffix partitioned none = []
dev_suffix partitioned (some n) = if leb 1 n then decimal n else []

-- IDPluks::BlockDev
unfoldable pub block_dev : Luks → Option ℕ → Text
unfolding dev_suffix
block_dev l partnum =
    if is_empty l.mname then [] else codes "/dev/mapper/" ++ l.mname ++ dev_suffix l.etype partnum
