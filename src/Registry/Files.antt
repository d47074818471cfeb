-- ===== src/Registry/Files.antt =====
-- `Installation::validate_files` and `content_path` of src-tauri/src/registry/installation.rs.
pub mod Declared
pub mod Overlap
pub mod Separate
use starframe.Prelude.{
  ℕ, ◌+◌, ◌*◌, ◌^◌, Bool, true, false, not, ◌&&◌, ◌||◌, Option, none, some, List, [], ◌∷◌, ◌++◌,
  Text, codes, text_eq, any, all, contains, ends_with, starts_with, is_empty, to_ascii_lowercase,
  length, ltb, ◌==◌, if◌then◌else◌,
}
use starframe.Prelude.Outcome.{Outcome, ok, err, panicked, ensure, ok_or, ◌>>=◌, ◌>>◌}
use starframe.Paths.{relative_path, is_relative, lua_path}
use starframe.Packages.{PreparedFile, mebibyte, en_dash, is_dll, supported_files}
use starframe.Registry.Installation.{
  Kind, Destination, sanctuary_maps, sanctuary_ai_mods, Installation, lua_mod, managed, content,
}
use starframe.Registry.Installation

-- `a.checked_add(b)` of `u64`
abbrev pub checked_add : ℕ → ℕ → Option ℕ
checked_add a b = if ltb (a + b) (2 ^ 64) then some (a + b) else none

is_map : Kind → Bool
is_map Kind.map = true
is_map _ = false

is_ai : Kind → Bool
is_ai Kind.ai = true
is_ai _ = false

holds_maps : Installation → Bool
unfolding is_map
holds_maps (content version kind root destination folder) = is_map kind
holds_maps _ = false

holds_ai : Installation → Bool
unfolding is_ai
holds_ai (content version kind root destination folder) = is_ai kind
holds_ai _ = false

-- Content of a kind that the plan does not declare, by its path in lower case.
pub misplaced : Installation → Text → Bool
unfolding holds_maps holds_ai ends_with
misplaced plan path =
    (ends_with (codes ".sanmap") path && not (holds_maps plan))
    || (starts_with (codes "lj/lua/ai/") path && not (holds_ai plan))

-- The loop over the files, with the normalized paths and the sum so far.
unfoldable pub collect :
    Installation → (paths : List Text) (total : ℕ) → List PreparedFile → Outcome (List Text × ℕ)
unfolding relative_path misplaced
collect plan paths total [] = ok (paths, total)
collect plan paths total (file ∷ files) = do
  normalized ← relative_path file.path
  ensure (not (contains paths normalized)) (codes "Registry package paths collide on Windows.")
  sum ← ok_or (checked_add total file.size_bytes) (codes "Registry package size overflow.")
  ensure (not (ltb (512 * mebibyte) file.size_bytes || ltb (2048 * mebibyte) sum))
      (codes "Registry content exceeds the 512 MiB file or 2 GiB expanded limit.")
  ensure (not (misplaced plan (to_ascii_lowercase file.path)))
      (codes "Code, Map and AI content require separate declared releases.")
  collect plan (normalized ∷ paths) sum files

longer : ℕ → List Text → List Text
longer byte [] = []
longer byte (part ∷ parts) = (byte ∷ part) ∷ longer byte parts

-- What repeated `rsplit_once('/')` leaves of a path: the text before each slash.
unfoldable pub parents : Text → List Text
unfolding longer
parents [] = []
parents (byte ∷ path) =
    let rest = longer byte (parents path) in if byte == b'/' then [] ∷ rest else rest

-- The loop over the paths: whether one lies in another.
unfoldable pub overlapping : List Text → Bool
unfolding parents
overlapping paths = any (λ path. any (contains paths) (parents path)) paths

nonempty : List PreparedFile → Text → Bool
nonempty files path = any (λ file. text_eq file.path path && ltb 0 file.size_bytes) files

folder_of : Text → Text
folder_of root = if is_empty root then [] else root ++ codes "/"

is_lua_file : PreparedFile → Bool
unfolding ends_with
is_lua_file file = ends_with (codes ".lua") (to_ascii_lowercase file.path) && ltb 0 file.size_bytes

-- What the plan demands of the files.
pub declared_files : Installation → List PreparedFile → Outcome (Unit {0})
unfolding nonempty folder_of is_lua_file is_map is_ai is_dll supported_files lua_path
declared_files (lua_mod version kind loader entry_path) files = do
  supported_files files
  ensure (all (λ file. lua_path file.path) files && nonempty files entry_path) (
      codes
        "The Lua archive must contain its declared nonempty entry and only Lua files under LJ/lua, outside AI.")
declared_files (managed version kind loader source_root entry_assembly entry_type) files = do
  supported_files files
  ensure
      (all (λ file. starts_with (folder_of source_root) file.path) files
        && not (any (λ file. starts_with (codes "lj/lua/") (to_ascii_lowercase file.path)) files)
        && nonempty files (folder_of source_root ++ entry_assembly))
      (codes
        "The BepInEx archive must contain its declared nonempty DLL and keep all files inside the declared source folder, without Lua overlays.")
declared_files (content version kind source_root destination folder) files = do
  ensure
      (all (λ file. starts_with (source_root ++ codes "/") file.path) files
        && not (any (λ file. is_dll file.path) files))
      (codes
        "Map and AI archives must keep all files inside the declared source folder and cannot include DLLs.")
  ensure
      (not (
        (is_map kind
          && not (nonempty files (source_root ++ codes "/" ++ folder ++ codes ".sanmap")))
        || (is_ai kind && not (any is_lua_file files))))
      (codes
        "The declared Map needs its matching nonempty .sanmap file; an AI archive needs a nonempty Lua file.")

unfoldable pub validate_files : Installation → List PreparedFile → Outcome (Unit {0})
unfolding Installation.valid collect overlapping declared_files
validate_files plan files = do
  ensure (Installation.valid plan) (
      codes
        "The signed installation declaration is invalid or unsupported. Ask the author for a corrected release.")
  ensure (not (is_empty files || ltb 4096 (length files)))
      (codes "Registry packages must contain 1" ++ en_dash ++ codes "4,096 files.")
  collected ← collect plan [] 0 files
  ensure (not (overlapping collected.0)) (codes "Registry package files overlap a directory.")
  declared_files plan files

-- `text.strip_prefix(prefix)`
strip_prefix : Text → Text → Option Text
strip_prefix [] text = some text
strip_prefix (c ∷ prefix) [] = none
strip_prefix (c ∷ prefix) (byte ∷ text) =
    let rest = strip_prefix prefix text in if c == byte then rest else none

base_of : Destination → Text
base_of sanctuary_maps = codes "engine/Sanctuary_Data/Maps"
base_of sanctuary_ai_mods = codes "engine/LJ/lua/AI/mods"

placed : Installation → Text → Outcome (Option Text)
unfolding strip_prefix base_of relative_path
placed (content version kind source_root destination folder) file = do
  relative ←
      ok_or (strip_prefix (source_root ++ codes "/") file)
        (codes "The file is outside its declared source folder.")
  relative_path (base_of destination ++ codes "/" ++ folder ++ codes "/" ++ relative)
  ok (some (base_of destination ++ codes "/" ++ folder ++ codes "/" ++ relative))
placed _ file = ok none

unfoldable pub content_path : Installation → Text → Outcome (Option Text)
unfolding Installation.valid is_relative placed
content_path plan file = do
  ensure (Installation.valid plan && is_relative file) (codes "Invalid declared installation path.")
  placed plan file
