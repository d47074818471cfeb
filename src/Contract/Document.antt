-- ===== src/Contract/Document.antt =====
-- The values of a contract document: the readers of single values in
-- src-tauri/src/runtime_contract.rs.
pub mod Overlap
use starframe.Prelude.{
  ℕ, Bool, false, not, ◌&&◌, ◌||◌, List, ◌++◌, Text, codes, text_eq, all, is_ascii_digit,
  is_ascii_lowercase, is_empty, starts_with, has_control, all_indexed, length, leb, ◌==◌,
}
use starframe.Prelude.Outcome.{Outcome, ok, ok_or, ◌>>=◌, ◌>>◌}
use starframe.Json.{JsonLibrary, Json, as_array, as_object, as_str, contains_key}
use starframe.Paths.{require, relative_path}

abbrev pub max_document_bytes : ℕ
max_document_bytes = 1048576

abbrev pub max_mods : ℕ
max_mods = 256

abbrev pub max_files_per_mod : ℕ
max_files_per_mod = 1024

-- `path.starts_with(directory + "/")`
unfoldable pub lies_in : Text → Text → Bool
lies_in directory path = starts_with (directory ++ codes "/") path

unfoldable pub overlaps : Text → Text → Bool
unfolding lies_in
overlaps a b = text_eq a b || lies_in b a || lies_in a b

id_byte : ℕ → Bool
id_byte c = is_ascii_lowercase c || is_ascii_digit c

later_byte : ℕ → Bool
later_byte c = c == b'.' || c == b'_' || c == b'-'

module _ (json : JsonLibrary) where
  unfoldable pub fields : Json json → List Text → Outcome (Unit {0})
  unfolding require as_object contains_key
  fields v expected = do
    members ← ok_or (as_object v) (codes "expected object")
    require (length members == length expected && all (contains_key members) expected)
        (codes "missing or unknown field")

  unfoldable pub array_of : Json json → (max : ℕ) → Outcome (List (Json json))
  unfolding require as_array
  array_of v max = do
    items ← ok_or (as_array v) (codes "expected array")
    require (leb (length items) max) (codes "array limit")
    ok items

  unfoldable pub text : Json json → (max : ℕ) → (empty : Bool) → Outcome Text
  unfolding require
  text v max empty = do
    found ← ok_or (as_str v) (codes "expected string")
    require ((empty || not (is_empty found)) && leb (length found) max && not (has_control found))
        (codes "string limit or control character")
    ok found

  unfoldable pub id : Json json → Outcome Text
  unfolding require text id_byte later_byte
  id v = do
    found ← text v 128 false
    require (all_indexed id_byte later_byte found) (codes "identifier")
    ok found

  unfoldable pub decimal : Json json → Outcome (Unit {0})
  unfolding require text
  decimal v = do
    found ← text v 20 false
    require
        (all is_ascii_digit found
          && (text_eq found (codes "0") || not (starts_with (codes "0") found)))
        (codes "decimal string")

  unfoldable pub path : Json json → Outcome Text
  unfolding text relative_path
  path v = do found ← text v 240 false; relative_path found
