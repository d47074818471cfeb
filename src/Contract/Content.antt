-- ===== src/Contract/Content.antt =====
-- The inventory and the files of an activation, and `content_id`: src-tauri/src/runtime_contract.rs.
use starframe.Prelude.{
  ℕ, suc, Bool, false, not, ◌&&◌, ◌||◌, Option, none, some, List, [], ◌∷◌, ◌++◌, Text, codes, all,
  any, is_ascii_digit, is_ascii_lowercase, is_ascii_uppercase, is_empty, split, ends_with, contains,
  all_indexed, within, sort, length, leb, ◌==◌, if◌then◌else◌,
}
use starframe.Prelude.Outcome.{Outcome, ok, ◌>>=◌, ◌>>◌}
use starframe.Json.{ℤ, pos, JsonLibrary, Json, at, is_null}
use starframe.Paths.{require}
use starframe.Contract.Document.{overlaps, fields, array_of, text, id, path}

-- `matches!(version, Some(low..=high))`
unfoldable pub is_between : ℕ → ℕ → Option ℕ → Bool
is_between low high none = false
is_between low high (some n) = within low high n

unfoldable pub or_zero : Option ℕ → ℕ
or_zero none = 0
or_zero (some n) = n

-- `value == 4`
unfoldable pub is_four : Option ℤ → Bool
is_four (some (pos n)) = n == 4
is_four _ = false

type_byte : ℕ → Bool
type_byte c = c == b'_' || is_ascii_lowercase c || is_ascii_uppercase c

-- `entry.split('.').all(|part| …)`
entry_parts : List Text → Bool
unfolding type_byte
entry_parts parts =
    all (λ part. not (is_empty part) && all_indexed type_byte is_ascii_digit part) parts

unfoldable pub hex_byte : ℕ → Bool
hex_byte c = is_ascii_digit c || within b'a' b'f' c

-- The test of a SHA-256 in lower case.
unfoldable pub hash_text : Text → Bool
unfolding hex_byte
hash_text hash = length hash == 64 && all hex_byte hash

-- The keys of an activation. `omittedDisabledMods` belongs to the versions 3 and 4.
unfoldable pub expected_fields : Bool → List Text
expected_fields counted =
    codes "schemaVersion"
    ∷ codes "runtimeContractVersion"
    ∷ codes "integrationId"
    ∷ codes "deploymentRevision"
    ∷ codes "installedMods"
    ∷ codes "mods"
    ∷ (if counted then codes "omittedDisabledMods" ∷ [] else [])

-- The digest is `format!("{:x}", Sha256::digest(bytes))`.
-- `lines.concat()`
concat : List Text → Text
concat [] = []
concat (line ∷ lines) = line ++ concat lines

-- `assembly.as_ref().map_or(!paths.is_empty(), |assembly| paths.contains(assembly))`
unfoldable pub has_entry : Option Text → List Text → Bool
has_entry none paths = not (is_empty paths)
has_entry (some assembly) paths = contains paths assembly

module _ (json : JsonLibrary) where
  unfoldable pub lines_of : List (Json json) → Outcome (List Text)
  unfolding path text at
  lines_of [] = ok []
  lines_of (file ∷ files) = do
    place ← path json (at file (codes "path"))
    hash ← text json (at file (codes "sha256")) 64 false
    lines ← lines_of files
    ok ((place ++ 0 ∷ hash ++ codes "\n") ∷ lines)

  unfoldable pub content_id : (digest : Text → Text) → Json json → Outcome Text
  unfolding array_of lines_of concat
  content_id digest files = do
    items ← array_of json files 1024
    lines ← lines_of items
    ok (codes "sha256:" ++ digest (codes "starframe-inventory-v1\n" ++ concat (sort lines)))

  -- The loop over `installedMods`, with the IDs that were inserted.
  unfoldable pub inventory : (installed : List Text) → List (Json json) → Outcome (List Text)
  unfolding fields text id require at
  inventory installed [] = ok installed
  inventory installed (item ∷ items) = do
    fields json item (codes "modId" ∷ codes "name" ∷ codes "version" ∷ [])
    mod_id ← id json (at item (codes "modId"))
    require (not (contains installed mod_id)) (codes "duplicate inventory ID")
    text json (at item (codes "name")) 256 false
    text json (at item (codes "version")) 128 false
    inventory (mod_id ∷ installed) items

  -- The loop over `requires`, with the dependencies that were inserted.
  unfoldable pub requirements :
      (active dependencies : List Text) → List (Json json) → Outcome (List Text)
  unfolding text require
  requirements active dependencies [] = ok dependencies
  requirements active dependencies (dependency ∷ rest) = do
    required ← text json dependency 128 false
    require (contains active required && not (contains dependencies required))
        (codes "dependency order")
    requirements active (required ∷ dependencies) rest

  -- The assembly of a mod: `None` for content.
  unfoldable pub assembly_of : Json json → Outcome (Option Text)
  unfolding at path text require entry_parts ends_with split
  assembly_of item =
      if is_null (at item (codes "entryAssembly"))
      then require (is_null (at item (codes "entryType"))) (codes "content entry type") >> ok none
      else do
        assembly ← path json (at item (codes "entryAssembly"))
        require (ends_with (codes ".dll") assembly) (codes "entry assembly")
        entry ← text json (at item (codes "entryType")) 256 false
        require (entry_parts (split b'.' entry)) (codes "entry type")
        ok (some assembly)

  -- The loop over `files`, with the paths that were accepted and the number of files so far.
  unfoldable pub accept_files :
      (paths : List Text) (total_files : ℕ) → List (Json json) → Outcome (List Text × ℕ)
  unfolding fields path text require overlaps hash_text at
  accept_files paths total_files [] = ok (paths, total_files)
  accept_files paths total_files (file ∷ files) = do
    fields json file (codes "path" ∷ codes "sha256" ∷ [])
    file_path ← path json (at file (codes "path"))
    require (not (any (overlaps file_path) paths)) (codes "conflicting files")
    hash ← text json (at file (codes "sha256")) 64 false
    require (hash_text hash) (codes "file hash")
    require (leb (suc total_files) 8192) (codes "total files")
    accept_files (file_path ∷ paths) (suc total_files) files
