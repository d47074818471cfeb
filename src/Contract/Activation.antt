-- ===== src/Contract/Activation.antt =====
-- `activation` of src-tauri/src/runtime_contract.rs.
pub mod Files
pub mod Loading
use starframe.Prelude.{
  ℕ, Bool, true, false, not, ◌&&◌, ◌||◌, List, [], ◌∷◌, ◌++◌, Text, codes, text_eq, any, show_u64,
  contains, within, length, ◌==◌, if◌then◌else◌,
}
use starframe.Prelude.Outcome.{Outcome, ok, err, ok_or, ◌>>=◌, ◌>>◌}
use starframe.Json.{JsonLibrary, Json, at, value_as_u64, value_as_i64}
use starframe.Registry.Identity.{UuidLibrary, max_safe_integer}
use starframe.Paths.{require}
use starframe.Contract.Document.{
  max_mods, max_files_per_mod, overlaps, fields, array_of, text, id, decimal, path,
}
use starframe.Contract.Content.{
  is_between, or_zero, is_four, hash_text, expected_fields, content_id, inventory, requirements,
  assembly_of, accept_files, has_entry,
}

-- What the loop over `mods` keeps: the active IDs, the roots and the number of files.
pub record Progress : Type 0 where
  pub active : List Text
  pub roots : List Text
  pub total_files : ℕ

module _ (json : JsonLibrary) (uuid : UuidLibrary) (digest : Text → Text) where
  registry_source : (root : Json json) (mod_id : Text) (source : Json json) → Outcome (Unit {0})
  unfolding is_four fields require text hash_text at value_as_u64 value_as_i64 show_u64
  registry_source root mod_id source = do
    require (is_four (value_as_i64 json (at root (codes "schemaVersion"))))
        (codes "registry activation schema")
    fields json source (codes "kind" ∷ codes "modId" ∷ codes "releaseId" ∷ codes "sha256" ∷ [])
    native_id ← ok_or (value_as_u64 json (at source (codes "modId"))) (codes "registry ModID")
    require (within 1 max_safe_integer native_id) (codes "registry ModID")
    require (text_eq mod_id (codes "registry." ++ show_u64 native_id))
        (codes "registry runtime identity")
    release_id ← text json (at source (codes "releaseId")) 36 false
    release ← ok_or (uuid.parse_str release_id) (uuid.error release_id)
    require (text_eq (uuid.to_string release) release_id && uuid.is_version4 release)
        (codes "registry ReleaseID")
    hash ← text json (at source (codes "sha256")) 64 false
    require (hash_text hash) (codes "registry archive hash")

  local_source : (item source : Json json) → Outcome (Unit {0})
  unfolding fields require text at content_id
  local_source item source = do
    fields json source (codes "kind" ∷ codes "contentId" ∷ [])
    stated ← text json (at source (codes "contentId")) 71 false
    actual ← content_id json digest (at item (codes "files"))
    require (text_eq stated actual) (codes "local content ID")

  check_source : (root item : Json json) (mod_id : Text) → Outcome (Unit {0})
  unfolding registry_source local_source at text
  check_source root item mod_id =
      let source = at item (codes "source") in
      text json (at source (codes "kind")) 16 false >>= λ kind.
      if text_eq kind (codes "registry")
      then registry_source root mod_id source
      else if text_eq kind (codes "local")
      then local_source item source
      else err (codes "Unsupported source kind")

  -- The body of the loop over `mods`.
  unfoldable pub accept_mod :
      (root : Json json) (installed : List Text) (progress : Progress)
      → Json json
      → Outcome Progress
  unfolding fields id array_of requirements path overlaps assembly_of accept_files has_entry
      check_source require at
  accept_mod root installed progress item = do
    fields json item (
        codes "modId"
        ∷ codes "source"
        ∷ codes "root"
        ∷ codes "entryAssembly"
        ∷ codes "entryType"
        ∷ codes "requires"
        ∷ codes "files"
        ∷ [])
    mod_id ← id json (at item (codes "modId"))
    require (contains installed mod_id && not (contains progress.active mod_id))
        (codes "activation inventory mismatch")
    wanted ← array_of json (at item (codes "requires")) 256
    requirements json progress.active [] wanted
    directory ← path json (at item (codes "root"))
    require (not (any (overlaps directory) progress.roots)) (codes "overlapping roots")
    assembly ← assembly_of json item
    files ← array_of json (at item (codes "files")) max_files_per_mod
    accepted ← accept_files json [] progress.total_files files
    require (has_entry assembly accepted.0) (codes "entry assembly missing from files")
    check_source root item mod_id
    ok (record {
      active = mod_id ∷ progress.active;
      roots = directory ∷ progress.roots;
      total_files = accepted.1;
    })

  unfoldable pub accept_mods :
      (root : Json json) (installed : List Text) (progress : Progress)
      → List (Json json)
      → Outcome Progress
  unfolding accept_mod
  accept_mods root installed progress [] = ok progress
  accept_mods root installed progress (item ∷ items) = do
    next ← accept_mod root installed progress item
    accept_mods root installed next items

  check_omitted : (root : Json json) → (counted : Bool) → Outcome (Unit {0})
  unfolding is_between require at value_as_u64
  check_omitted root false = ok tt
  check_omitted root true =
      require (is_between 0 2147483647 (value_as_u64 json (at root (codes "omittedDisabledMods"))))
        (codes "omitted inventory count")

  -- The state of the loop over `mods` when an activation is accepted.
  unfoldable pub activation_progress : Json json → Outcome Progress
  unfolding is_between or_zero expected_fields fields decimal array_of inventory accept_mods
      check_omitted require at value_as_u64
  activation_progress root =
      let counted = is_between 3 4 (value_as_u64 json (at root (codes "schemaVersion"))) in
      do
        check_omitted root counted
        fields json root (expected_fields counted)
        decimal json (at root (codes "deploymentRevision"))
        listed ← array_of json (at root (codes "installedMods")) max_mods
        installed ← inventory json [] listed
        require
            (or_zero (value_as_u64 json (at root (codes "omittedDisabledMods"))) == 0
              || length installed == max_mods)
            (codes "incomplete bounded inventory")
        mods ← array_of json (at root (codes "mods")) max_mods
        accept_mods root installed (record { active = []; roots = []; total_files = 0 }) mods

  unfoldable pub activation : Json json → Outcome (Unit {0})
  unfolding activation_progress
  activation root = activation_progress root >> ok tt
