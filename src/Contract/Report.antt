-- ===== src/Contract/Report.antt =====
-- `capabilities`, `report`, `read` and `report_matches` of src-tauri/src/runtime_contract.rs.
pub mod Outcomes
use starframe.Prelude.{
  ℕ, Bool, true, false, not, ◌&&◌, ◌||◌, Option, none, some, List, [], ◌∷◌, Text, codes, text_eq,
  is_ascii_digit, is_ascii_lowercase, is_empty, contains, all_indexed, within, length, leb, ◌==◌,
  if◌then◌else◌,
}
use starframe.Prelude.Outcome.{Outcome, ok, err, ok_or, ◌>>=◌, ◌>>◌}
use starframe.Json.{
  JsonLibrary, Json, at, as_array, as_object, as_bool, as_str, value_as_u64, value_eq,
}
use starframe.Registry.Identity.{UuidLibrary}
use starframe.Paths.{require}
use starframe.Contract.Document.{max_document_bytes, max_mods, fields, array_of, text, id, decimal}
use starframe.Contract.Unique.{strict_json, depth}
use starframe.Contract.Content.{is_between}
use starframe.Contract.Activation.{activation}

code_byte : ℕ → Bool
code_byte c = is_ascii_digit c || c == b'_'

-- `outcome` is `loaded`, `failed` or `skipped_dependency`.
pub known_outcome : Text → Bool
known_outcome outcome =
    text_eq outcome (codes "loaded")
    || text_eq outcome (codes "failed")
    || text_eq outcome (codes "skipped_dependency")

pub details : (loaded : Bool) (code message : Text) → Bool
unfolding code_byte
details true code message = is_empty code && is_empty message
details false code message = all_indexed is_ascii_lowercase code_byte code

-- `value == Some(expected)`
is_number : ℕ → Option ℕ → Bool
is_number expected none = false
is_number expected (some n) = n == expected

is_text : Text → Option Text → Bool
is_text expected none = false
is_text expected (some found) = text_eq found expected

module _ (json : JsonLibrary) where
  check_capabilities : List (Text × Json json) → Outcome (Unit {0})
  unfolding fields text at
  check_capabilities [] = ok tt
  check_capabilities ((key, capability) ∷ rest) = do
    fields json capability (codes "supported" ∷ codes "reason" ∷ [])
    supported ← ok_or (as_bool (at capability (codes "supported"))) (codes "capability support")
    text json (at capability (codes "reason")) 512 supported
    check_capabilities rest

  unfoldable pub capabilities : Json json → Outcome (Unit {0})
  unfolding fields check_capabilities at as_object
  capabilities root = do
    fields json root (
        codes "schemaVersion"
        ∷ codes "runtimeContractVersion"
        ∷ codes "integrationId"
        ∷ codes "capabilities"
        ∷ [])
    fields json (at root (codes "capabilities")) (
        codes "managedLifecycle"
        ∷ codes "manualPriority"
        ∷ codes "contentOverlays"
        ∷ codes "settingsUi"
        ∷ codes "activationReport"
        ∷ [])
    members ← ok_or (as_object (at root (codes "capabilities"))) (codes "expected object")
    check_capabilities members

  -- The loop over the `mods` of a report, with the IDs that were inserted.
  unfoldable pub report_mods : (ids : List Text) → List (Json json) → Outcome (List Text)
  unfolding fields id text require known_outcome details at
  report_mods ids [] = ok ids
  report_mods ids (item ∷ items) = do
    fields json item (codes "modId" ∷ codes "outcome" ∷ codes "errorCode" ∷ codes "message" ∷ [])
    mod_id ← id json (at item (codes "modId"))
    require (not (contains ids mod_id)) (codes "duplicate report ID")
    outcome ← text json (at item (codes "outcome")) 32 false
    require (known_outcome outcome) (codes "outcome")
    code ← text json (at item (codes "errorCode")) 64 (text_eq outcome (codes "loaded"))
    message ← text json (at item (codes "message")) 2048 (text_eq outcome (codes "loaded"))
    require (details (text_eq outcome (codes "loaded")) code message) (codes "failure details")
    require
        (not (text_eq outcome (codes "skipped_dependency"))
          || text_eq code (codes "dependency_failed"))
        (codes "dependency error code")
    report_mods (mod_id ∷ ids) items

  unfoldable pub report : UuidLibrary → Json json → Outcome (Unit {0})
  unfolding fields decimal text require array_of report_mods at value_as_u64
  report uuid root = do
    fields json root (
        codes "schemaVersion"
        ∷ codes "runtimeContractVersion"
        ∷ codes "integrationId"
        ∷ codes "deploymentRevision"
        ∷ codes "gameSessionId"
        ∷ codes "processId"
        ∷ codes "processStartFileTime"
        ∷ codes "mods"
        ∷ [])
    decimal json (at root (codes "deploymentRevision"))
    decimal json (at root (codes "processStartFileTime"))
    session ← text json (at root (codes "gameSessionId")) 36 false
    guid ← ok_or (uuid.parse_str session) (uuid.error session)
    require (not (uuid.is_nil guid) && text_eq (uuid.to_string guid) session) (codes "session ID")
    pid ← ok_or (value_as_u64 json (at root (codes "processId"))) (codes "process ID")
    require (within 1 4294967295 pid) (codes "process ID")
    items ← array_of json (at root (codes "mods")) max_mods
    report_mods [] items
    ok tt

  schema_version : (kind : Text) → Json json → Bool
  unfolding at value_as_u64 is_between is_number
  schema_version kind root =
      let version = value_as_u64 json (at root (codes "schemaVersion")) in
      if text_eq kind (codes "activation") then is_between 3 4 version else is_number 1 version

  check_kind : UuidLibrary → (digest : Text → Text) → (kind : Text) → Json json → Outcome (Unit {0})
  unfolding activation capabilities report
  check_kind uuid digest kind root =
      if text_eq kind (codes "activation")
      then activation json uuid digest root
      else if text_eq kind (codes "capabilities")
      then capabilities root
      else if text_eq kind (codes "report")
      then report uuid root
      else err (codes "Unknown document kind")

  unfoldable pub read :
      UuidLibrary → (digest : Text → Text) → (bytes kind : Text) → Outcome (Json json)
  unfolding schema_version check_kind is_number require strict_json depth text at value_as_u64
  read uuid digest bytes kind = do
    require (leb (length bytes) max_document_bytes) (codes "document size")
    root ← strict_json json bytes
    depth json root 0
    require (schema_version kind root) (codes "schema version")
    require (is_number 1 (value_as_u64 json (at root (codes "runtimeContractVersion"))))
        (codes "runtime contract version")
    integration ← text json (at root (codes "integrationId")) 64 false
    require (text_eq integration (codes "starframe.bepinex")) (codes "integration ID")
    check_kind uuid digest kind root
    ok root

  -- The elements of two lists of the same length have equal IDs.
  same_ids : List (Json json) → List (Json json) → Bool
  unfolding at value_eq
  same_ids [] [] = true
  same_ids (a ∷ expected) (b ∷ actual) =
      value_eq json (at a (codes "modId")) (at b (codes "modId")) && same_ids expected actual
  same_ids _ _ = false

  same_mods : Option (List (Json json)) → Option (List (Json json)) → Bool
  unfolding same_ids
  same_mods (some expected) (some actual) = same_ids expected actual
  same_mods _ _ = false

  unfoldable pub report_matches :
      (activation report : Json json) (pid : ℕ) (start_file_time : Text) → Bool
  unfolding at value_eq value_as_u64 as_array same_mods is_number is_text
  report_matches activation report pid start_file_time =
      value_eq json (at report (codes "deploymentRevision"))
        (at activation (codes "deploymentRevision"))
      && is_number pid (value_as_u64 json (at report (codes "processId")))
      && is_text start_file_time (as_str (at report (codes "processStartFileTime")))
      && same_mods (as_array (at activation (codes "mods"))) (as_array (at report (codes "mods")))
