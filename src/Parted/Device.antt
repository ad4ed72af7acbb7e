-- ===== src/Parted/Device.antt =====
-- The methods of RPIparted, over the state of the object and the world of libfdisk.
use rpi_fastbootd.Prelude.{
  ℕ, ◌+◌, ◌-◌, ◌/◌, Bool, true, Option, none, some, [], ◌∷◌, ◌==◌, if◌then◌else◌, u64,
}
use rpi_fastbootd.Prelude.Text.{Text}
use rpi_fastbootd.Prelude.Outcome.{Outcome, ok, throw, div_by_zero}
use rpi_fastbootd.Prelude.Rounding.{round_up}
use rpi_fastbootd.Parted.Fdisk.{Fdisk}

-- struct PartitionAttributes
pub record PartitionAttributes : Type 0 where
  pub type_id : Text
  pub size_bytes : ℕ
  pub partlabel : Option Text
  pub partuuid : Option Text

-- Minimum number of sectors for a size, aligned up to the grain; both divisions can trap.
unfoldable pub size_in_sectors : ℕ → ℕ → ℕ → Outcome ℕ
size_in_sectors grain sector_size size_bytes =
    if sector_size == 0
    then throw div_by_zero
    else if grain / sector_size == 0
    then throw div_by_zero
    else ok (round_up (u64 (size_bytes + sector_size - 1) / sector_size) (grain / sector_size))

-- `optional && !optional->empty()`
abbrev pub given : Option Text → Option Text
given none = none
given (some []) = none
given (some (c ∷ s)) = some (c ∷ s)

-- The test of an attribute that libfdisk may refuse: an absent one passes.
abbrev pub passes : (Text → Bool) → Option Text → Bool
passes f none = true
passes f (some t) = f t

-- class RPIparted; `context` is none where the pointer is null.
pub record Parted {World : Type 0} (f : Fdisk World) : Type 0 where
  pub context : Option (Fdisk.Context f)
  pub is_gpt : Bool
  pub sector_size : ℕ
  pub grain : ℕ
  pub device_assigned : Bool
