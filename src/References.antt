-- ===== src/References.antt =====
-- Collection references: src-tauri/src/references.rs, with `ModReference` of
-- src-tauri/src/storage.rs and `id` of src-tauri/src/local_import/layout.rs.
pub mod Conversion
use starframe.Prelude.{
  ℕ, Bool, true, false, not, ◌&&◌, ◌||◌, Option, none, some, [], ◌∷◌, ◌++◌, Text, text_eq, codes,
  all, is_ascii_digit, is_ascii_lowercase, is_empty, length, leb, show_u64, ◌==◌,
}
use starframe.Prelude.Outcome.{Outcome, ok, ensure, ok_or, ◌>>=◌, ◌>>◌}
use starframe.Registry.Identity.{
  UuidLibrary, ExactReference, exact_eq, release_id_try_from, sha256_try_from,
}

-- The only `Origin` is a local import.
pub record ModReference : Type 0 where
  pub mod_id : Text
  pub hash : Text
  pub release_id : Option Text

pub option_eq : Option Text → Option Text → Bool
option_eq none none = true
option_eq (some a) (some b) = text_eq a b
option_eq _ _ = false

unfoldable pub mod_reference_eq : ModReference → ModReference → Bool
unfolding option_eq
mod_reference_eq a b =
    text_eq a.mod_id b.mod_id && text_eq a.hash b.hash && option_eq a.release_id b.release_id

pub record LocalReference : Type 0 where
  pub mod_id : Text
  pub sha256 : Text

pub data Reference : Type 0 where
  registry : ExactReference → Reference
  local : LocalReference → Reference

unfoldable pub reference_eq : Reference → Reference → Bool
unfolding exact_eq
reference_eq (registry a) (registry b) = exact_eq a b
reference_eq (local a) (local b) = text_eq a.mod_id b.mod_id && text_eq a.sha256 b.sha256
reference_eq _ _ = false

id_byte : ℕ → Bool
id_byte c = is_ascii_lowercase c || is_ascii_digit c

later_byte : ℕ → Bool
later_byte c = id_byte c || c == b'.' || c == b'_' || c == b'-'

pub id_bytes : Text → Bool
unfolding id_byte later_byte
id_bytes [] = true
id_bytes (c ∷ value) = id_byte c && all later_byte value

abbrev invalid_id : Text
invalid_id =
    codes
      "Invalid local metadata: IDs must start with a lowercase ASCII letter or digit and contain at most 128 letters, digits, dots, underscores or hyphens."

-- `local_import::validate_id`
unfoldable pub validate_id : Text → Outcome (Unit {0})
unfolding id_bytes
validate_id value =
    ensure (not (is_empty value) && leb (length value) 128 && id_bytes value) invalid_id

-- `Reference::validate`
unfoldable pub validate : UuidLibrary → Reference → Outcome (Unit {0})
unfolding release_id_try_from validate_id
validate uuid (registry reference) = do
  ok_or (release_id_try_from uuid (uuid.to_string reference.release_id))
      (codes "ReleaseID must be a canonical UUID v4")
  ok tt
validate uuid (local reference) = do
  validate_id reference.mod_id
  ensure (leb (length reference.mod_id) 128)
      (codes "Local mod IDs must fit the runtime's 128-byte limit.")

-- `Reference::runtime_id`, with `runtime_id` of src-tauri/src/registry/activation.rs
unfoldable pub runtime_id : Reference → Text
unfolding show_u64
runtime_id (registry reference) = codes "registry." ++ show_u64 reference.mod_id
runtime_id (local reference) = reference.mod_id

-- `Reference::hash`
unfoldable pub hash : Reference → Text
hash (registry reference) = reference.sha256
hash (local reference) = reference.sha256

-- `Reference::local_reference`
unfoldable pub local_reference : Reference → Option ModReference
local_reference (registry reference) = none
local_reference (local reference) =
    some (record { mod_id = reference.mod_id; hash = reference.sha256; release_id = none })

abbrev pub is_some : Option Text → Bool
is_some none = false
is_some (some text) = true

abbrev pub obsolete : Text
obsolete =
    codes
      "An obsolete catalog dependency cannot authorize a registry release. Update the local declaration with an exact supported reference."

-- `Reference::try_from(&ModReference)`
unfoldable pub reference_try_from : UuidLibrary → ModReference → Outcome Reference
unfolding sha256_try_from validate
reference_try_from uuid reference = do
  ensure (not (is_some reference.release_id)) obsolete
  sha256 ←
      ok_or (sha256_try_from reference.hash)
        (codes "SHA-256 must be 64 lowercase hexadecimal characters")
  let value = local (record { mod_id = reference.mod_id; sha256 = sha256 })
  validate uuid value
  ok value
