-- ===== src/Idp/Keys/FileMap.antt =====
-- The files that crypt.cpp writes, reads and removes, as a map from paths to contents.
use rpi_fastbootd.Prelude.{◌≡◌, refl, Bool, false, ◌||◌, List, [], ◌∷◌, arith, if◌then◌else◌}
use rpi_fastbootd.Prelude.Text.{Text, text_eq, text_eq_refl}

abbrev pub Files : Type 0
Files = List (Text × Text)

-- std::remove
unfoldable pub remove : Text → Files → Files
remove path [] = []
remove path ((name, s) ∷ files) =
    if text_eq name path then remove path files else (name, s) ∷ remove path files

-- std::ofstream with std::ios::trunc, then operator<<
unfoldable pub write : Text → Text → Files → Files
write path s files = (path, s) ∷ files

-- SecureKeyfile::readSysFile: empty if the file does not open.
unfoldable pub read : Text → Files → Text
read path [] = []
read path ((name, s) ∷ files) = if text_eq name path then s else read path files

-- SecureKeyfile::pathExists
unfoldable pub path_exists : Text → Files → Bool
path_exists path [] = false
path_exists path ((name, s) ∷ files) = text_eq name path || path_exists path files

pub path_exists-remove :
    (path : Text) (files : Files) → path_exists path (remove path files) ≡ false
unfolding path_exists remove
path_exists-remove path [] = refl
path_exists-remove path ((name, s) ∷ files) = ground (arith, path_exists-remove path files)

pub remove-write :
    (path s : Text) (files : Files) → remove path (write path s files) ≡ remove path files
unfolding write remove
remove-write path s files = rw (text_eq_refl path)

pub read-write : (path s : Text) (files : Files) → read path (write path s files) ≡ s
unfolding write read
read-write path s files = rw (text_eq_refl path)
