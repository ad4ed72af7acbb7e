-- ===== src/Parted/ZeroId.antt =====
-- is_zero_id of rpiparted.cpp: a disk label of nothing but zeros.
use rpi_fastbootd.Prelude.{Bool, true, not, ◌&&◌, ◌||◌, [], ◌∷◌, ◌==◌, if◌then◌else◌}
use rpi_fastbootd.Prelude.Text.{Text, is_empty}

-- Drop a leading 0x or 0X of a text of more than one byte.
unfoldable pub strip_hex : Text → Text
strip_hex [] = []
strip_hex (a ∷ []) = a ∷ []
strip_hex (a ∷ b ∷ s) = if a == b'0' && (b == b'x' || b == b'X') then s else a ∷ b ∷ s

-- std::remove of '-'
unfoldable pub remove_dashes : Text → Text
remove_dashes [] = []
remove_dashes (c ∷ s) = let rest = remove_dashes s in if c == b'-' then rest else c ∷ rest

unfoldable pub all_zeros : Text → Bool
all_zeros [] = true
all_zeros (c ∷ s) = c == b'0' && all_zeros s

unfoldable pub is_zero_id : Text → Bool
unfolding strip_hex remove_dashes all_zeros
is_zero_id id =
    let digits = remove_dashes (strip_hex id) in not (is_empty digits) && all_zeros digits
