-- ===== src/Trust/Verify.antt =====
-- `verify_security`, `verify_keys` and `verify_release` of src-tauri/src/registry/trust.rs.
pub mod Security
pub mod Manifest
pub mod Download
use starframe.Prelude.{
  ℕ, Bool, true, false, not, ◌&&◌, ◌||◌, Option, none, some, List, [], ◌∷◌, Text, codes, text_eq,
  char_count, contains, within, length, leb, ◌==◌, if◌then◌else◌,
}
use starframe.Prelude.Outcome.{Outcome, ok, ensure, ok_or, ◌>>=◌, ◌>>◌}
use starframe.Json.{JsonLibrary, at}
use starframe.Registry.Identity.{ExactReference, max_safe_integer}
use starframe.Registry.Installation.{Installation}
use starframe.Registry.Wire.{
  Dependency, Availability, available, SecurityStatus, not_blocked, Release, ReleaseResult, release,
  tombstone,
}
use starframe.Registry.Valid
use starframe.Trust.State.{DecisionStatus, Decision, VerifiedSecurity}
use starframe.Trust.Signed.{
  VerifiedKeyset, TrustLibrary, fields, freshness, signed_document, delegated_signature,
}

pub record VerifiedRelease : Type 0 where
  pub revision : ℕ
  pub canonical : Text
  pub security_revision : ℕ
  pub release : ReleaseResult
  pub reported_block : Option Decision

pub record DownloadIdentity : Type 0 where
  pub reference : ExactReference
  pub bytes : ℕ
  pub metadata_revision : ℕ
  pub security_revision : ℕ
  pub installation : Option Installation
  pub dependencies : List Dependency

is_available : Availability → Bool
is_available available = true
is_available _ = false

is_reported : Option Decision → Bool
is_reported none = false
is_reported (some decision) = true

identity : (security_revision : ℕ) → Release → DownloadIdentity
identity security_revision found = record {
  reference = record {
    mod_id = found.mod_id;
    release_id = found.release_id;
    sha256 = found.artifact.sha256;
  };
  bytes = found.artifact.bytes;
  metadata_revision = found.metadata.revision;
  security_revision = security_revision;
  installation = found.metadata.installation;
  dependencies = found.metadata.dependencies;
}

identity_from :
    ReleaseResult
    → (reported_block : Option Decision) (security_revision : ℕ) → Option DownloadIdentity
unfolding is_available is_reported identity
identity_from (release found) reported_block security_revision =
    if not (is_available found.availability) || is_reported reported_block
    then none
    else some (identity security_revision found)
identity_from (tombstone entry) reported_block security_revision = none

-- `verified.download_identity()`
unfoldable pub download_identity : VerifiedRelease → Option DownloadIdentity
unfolding identity_from
download_identity verified =
    identity_from verified.release verified.reported_block verified.security_revision

-- The loop over the decisions, with the hashes that were seen.
unfoldable pub check_decisions :
    (revision : ℕ) (seen : List Text) → List Decision → Outcome (Unit {0})
unfolding char_count
check_decisions revision seen [] = ok tt
check_decisions revision seen (decision ∷ rest) = do
  ensure
      (within 1 revision decision.revision
        && within 1 1000 (char_count decision.reason)
        && not (contains seen decision.sha256))
      (codes "Invalid security decision")
  check_decisions revision (decision.sha256 ∷ seen) rest

has_plan : Option Installation → Bool
has_plan none = false
has_plan (some plan) = true

bool_eq : Bool → Bool → Bool
bool_eq true b = b
bool_eq false b = not b

-- The block that a manifest reports, for the status of its release.
reported : SecurityStatus → (revision : ℕ) → Release → Outcome (Option Decision)
reported not_blocked revision found = ok none
reported SecurityStatus.blocked revision found = do
  reason ← ok_or found.security.reason (codes "Missing block reason")
  ensure (within 1 revision found.security.revision) (codes "Invalid manifest security revision")
  ok (
      some (record {
        sha256 = found.artifact.sha256;
        revision = found.security.revision;
        status = DecisionStatus.blocked;
        reason = reason;
      }))

-- What a manifest is about: a mod, a release, and the block that it reports.
pub record Subject : Type 0 where
  pub mod_id : ℕ
  pub release_id : ℕ
  pub reported_block : Option Decision

unfoldable pub subject_of : (schema_version revision : ℕ) → ReleaseResult → Outcome Subject
unfolding reported has_plan bool_eq
subject_of schema_version revision (release found) = do
  ensure (bool_eq (schema_version == 2) (has_plan found.metadata.installation))
      (codes "Release schema and installation declaration do not match")
  ensure (leb found.security.revision revision) (codes "Invalid manifest security revision")
  block ← reported found.security.status revision found
  ok (record { mod_id = found.mod_id; release_id = found.release_id; reported_block = block })
subject_of schema_version revision (tombstone entry) = do
  ensure (leb entry.security_revision revision) (codes "Invalid tombstone security revision")
  ok (record { mod_id = entry.mod_id; release_id = entry.release_id; reported_block = none })

module _ (json : JsonLibrary) (lib : TrustLibrary json) where
  unfoldable pub verify_security :
      (bytes : Text) → VerifiedKeyset → (now : ℕ) → Outcome VerifiedSecurity
  unfolding signed_document fields freshness delegated_signature check_decisions at
  verify_security bytes keys now = do
    envelope ← signed_document json lib bytes
    fields json lib (at envelope (codes "signed")) (
        codes "type"
        ∷ codes "schemaVersion"
        ∷ codes "revision"
        ∷ codes "issuedAt"
        ∷ codes "expiresAt"
        ∷ codes "complete"
        ∷ codes "decisions"
        ∷ [])
    payload ←
        ok_or (lib.security_from (at envelope (codes "signed"))) (codes "Invalid security snapshot")
    ensure
        (text_eq payload.kind (codes "starframe-security")
          && payload.schema_version == 1
          && payload.complete
          && within 1 max_safe_integer payload.revision
          && leb (length payload.decisions) 10000)
        (codes "Invalid security snapshot")
    expires ← freshness json lib payload.issued_at payload.expires_at now lib.day
    encoded ← delegated_signature json lib envelope keys now
    check_decisions payload.revision [] payload.decisions
    ok (record {
      revision = payload.revision;
      canonical = encoded;
      expires = expires;
      decisions = payload.decisions;
    })

  unfoldable pub verify_release :
      (bytes : Text)
      → VerifiedKeyset
      → VerifiedSecurity
      → (is_version4 : ℕ → Bool) (expected_mod_id expected_release_id now : ℕ)
      → Outcome VerifiedRelease
  unfolding signed_document fields freshness delegated_signature subject_of at Valid.valid
  verify_release bytes keys security is_version4 expected_mod_id expected_release_id now = do
    ensure (not (leb security.expires now)) (codes "Registry security snapshot has expired")
    envelope ← signed_document json lib bytes
    fields json lib (at envelope (codes "signed")) (
        codes "type"
        ∷ codes "schemaVersion"
        ∷ codes "revision"
        ∷ codes "issuedAt"
        ∷ codes "expiresAt"
        ∷ codes "securityRevision"
        ∷ codes "release"
        ∷ [])
    payload ←
        ok_or (lib.release_from (at envelope (codes "signed"))) (codes "Invalid release manifest")
    ensure
        (text_eq payload.kind (codes "starframe-release")
          && (payload.schema_version == 1 || payload.schema_version == 2)
          && within 1 max_safe_integer payload.revision
          && payload.security_revision == security.revision
          && Valid.valid is_version4 payload.release)
        (codes "Invalid or mismatched release manifest")
    freshness json lib payload.issued_at payload.expires_at now lib.day
    subject ← subject_of payload.schema_version security.revision payload.release
    ensure (subject.mod_id == expected_mod_id && subject.release_id == expected_release_id)
        (codes "Wrong exact release manifest")
    canonical ← delegated_signature json lib envelope keys now
    ok (record {
      revision = payload.revision;
      canonical = canonical;
      security_revision = payload.security_revision;
      release = payload.release;
      reported_block = subject.reported_block;
    })
