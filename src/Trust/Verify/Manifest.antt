-- ===== src/Trust/Verify/Manifest.antt =====
-- The manifests that `verify_release` of src-tauri/src/registry/trust.rs accepts, and the downloads
-- that they allow.
use starframe.Prelude.{
  ℕ, ◌≡◌, refl, sym, subst, ◌∙◌, Bool, true, Option, none, some, Text, codes, text_eq_iff, ==_iff,
  ◌≤◌, ◌<◌, leb→le, not-leb→lt, within→le, and_left, and_right,
}
use starframe.Prelude.Outcome.{ok, >>=-eq-ok, ok_inj, ensure->>-eq-ok, ok_or->>=-eq-ok, >>-eq-ok}
use starframe.Json.{JsonLibrary, Json, at}
use starframe.Registry.Wire.{
  SecurityStatus, not_blocked, Release, ReleaseResult, release, tombstone,
}
use starframe.Registry.Valid
use starframe.Trust.State.{DecisionStatus, Decision, VerifiedSecurity}
use starframe.Trust.Signed.{
  VerifiedKeyset, ReleasePayload, TrustLibrary, signed_document, freshness, delegated_signature,
}
use starframe.Trust.Signed.Authentic.{IsAuthentic, delegated-IsAuthentic}
use starframe.Trust.Signed.Fresh.{IsFresh, freshness-IsFresh}
use starframe.Trust.Verify.{VerifiedRelease, Subject, subject_of, reported, verify_release}

abbrev pub mod_of : ReleaseResult → ℕ
mod_of (release found) = found.mod_id
mod_of (tombstone entry) = entry.mod_id

abbrev pub release_of : ReleaseResult → ℕ
release_of (release found) = found.release_id
release_of (tombstone entry) = entry.release_id

-- The revision at which the security of a release was decided.
abbrev pub security_revision_of : ReleaseResult → ℕ
security_revision_of (release found) = found.security.revision
security_revision_of (tombstone entry) = entry.security_revision

-- A block is reported for a release that is blocked, and only for one.
pub IsReported : SecurityStatus → Option Decision → Type 0
IsReported not_blocked block = block ≡ none
IsReported SecurityStatus.blocked block =
    (d : Decision) × (block ≡ some d) × (d.status ≡ DecisionStatus.blocked) × (1 ≤ d.revision)

unfoldable pub IsReportOf : ReleaseResult → Option Decision → Type 0
unfolding IsReported
IsReportOf (release found) block = IsReported found.security.status block
IsReportOf (tombstone entry) block = block ≡ none

reported-IsReported :
    (status : SecurityStatus) (revision : ℕ) (found : Release) {block : Option Decision}
    → reported status revision found ≡ ok block
    → IsReported status block
unfolding reported IsReported
reported-IsReported not_blocked revision found h = sym (ok_inj _ _ h)
reported-IsReported SecurityStatus.blocked revision found h =
    let reason = ok_or->>=-eq-ok found.security.reason _ _ h in
    let tested = ensure->>-eq-ok _ _ _ reason.2 in
    (
      record {
        sha256 = found.artifact.sha256;
        revision = found.security.revision;
        status = DecisionStatus.blocked;
        reason = reason.0;
      },
      sym (ok_inj _ _ tested.1),
      refl,
      (within→le 1 revision found.security.revision tested.0).0,
    )

-- A manifest's subject is the release that it carries.
pub record IsSubject (revision : ℕ) (found : ReleaseResult) (s : Subject) : Type 0 where
  pub mod_id : s.mod_id ≡ mod_of found
  pub release_id : s.release_id ≡ release_of found
  pub bounded : security_revision_of found ≤ revision
  pub block : IsReportOf found s.reported_block

subject_of-IsSubject :
    (schema_version revision : ℕ) (found : ReleaseResult) {s : Subject}
    → subject_of schema_version revision found ≡ ok s
    → IsSubject revision found s
unfolding subject_of IsReportOf
subject_of-IsSubject schema_version revision (release found) h =
    let planned = ensure->>-eq-ok _ _ _ h in
    let bounded = ensure->>-eq-ok _ _ _ planned.1 in
    let block = >>=-eq-ok (reported found.security.status revision found) _ bounded.1 in
    subst (IsSubject revision (release found)) (ok_inj _ _ block.2) (record {
      mod_id = refl;
      release_id = refl;
      bounded = leb→le _ _ bounded.0;
      block = reported-IsReported found.security.status revision found block.1;
    })
subject_of-IsSubject schema_version revision (tombstone entry) h =
    let bounded = ensure->>-eq-ok _ _ _ h in
    subst (IsSubject revision (tombstone entry)) (ok_inj _ _ bounded.1)
      (record { mod_id = refl; release_id = refl; bounded = leb→le _ _ bounded.0; block = refl })

module _ (json : JsonLibrary) (lib : TrustLibrary json) where
  -- What a verified manifest guarantees.
  pub record IsManifest (bytes : Text) (keys : VerifiedKeyset) (security : VerifiedSecurity)
      (is_version4 : ℕ → Bool) (mod_id release_id now : ℕ) (v : VerifiedRelease) : Type 0 where
    pub envelope : Json json
    pub authentic : IsAuthentic json lib bytes keys now envelope v.canonical
    pub payload : ReleasePayload
    pub read : lib.release_from (at envelope (codes "signed")) ≡ some payload
    pub release : payload.release ≡ v.release
    pub kind : payload.kind ≡ codes "starframe-release"
    pub snapshot_fresh : now < security.expires
    pub expires : ℕ
    pub fresh : IsFresh json lib payload.issued_at payload.expires_at now lib.day expires
    pub valid : Valid.valid is_version4 v.release ≡ true
    pub same_snapshot : v.security_revision ≡ security.revision
    pub wanted_mod : mod_of v.release ≡ mod_id
    pub wanted_release : release_of v.release ≡ release_id
    pub bounded : security_revision_of v.release ≤ security.revision
    pub block : IsReportOf v.release v.reported_block

  -- If `verify_release` returns a manifest for a mod and a release, then its document is signed
  -- like a snapshot, neither it nor the snapshot has expired, it names the revision of the
  -- snapshot, its release is valid and is the one that was asked for, the security revision of
  -- the release is not above that of the snapshot, and a block is reported exactly for a release
  -- whose status is blocked.
  pub verify_release-IsManifest :
      (bytes : Text) (keys : VerifiedKeyset) (security : VerifiedSecurity) (is_version4 : ℕ → Bool)
      (mod_id release_id now : ℕ) (v : VerifiedRelease)
      → verify_release json lib bytes keys security is_version4 mod_id release_id now ≡ ok v
      → IsManifest bytes keys security is_version4 mod_id release_id now v
  unfolding verify_release
  verify_release-IsManifest bytes keys security is_version4 mod_id release_id now v h =
      let clock = ensure->>-eq-ok _ _ _ h in
      let document = >>=-eq-ok (signed_document json lib bytes) _ clock.1 in
      let envelope = document.0 in
      let names = >>-eq-ok _ _ document.2 in
      let found = ok_or->>=-eq-ok (lib.release_from (at envelope (codes "signed"))) _ _ names.2 in
      let payload = found.0 in
      let tested = ensure->>-eq-ok _ _ _ found.2 in
      let matching = and_left _ _ tested.0 in
      let window =
        >>-eq-ok (freshness json lib payload.issued_at payload.expires_at now lib.day) _ tested.1 in
      let subject =
        >>=-eq-ok (subject_of payload.schema_version security.revision payload.release) _
          window.2 in
      let wanted = ensure->>-eq-ok _ _ _ subject.2 in
      let encoded = >>=-eq-ok (delegated_signature json lib envelope keys now) _ wanted.1 in
      let s =
        subject_of-IsSubject payload.schema_version security.revision payload.release subject.1 in
      subst (IsManifest bytes keys security is_version4 mod_id release_id now)
        (ok_inj _ _ encoded.2)
        (record {
          envelope = envelope;
          authentic = delegated-IsAuthentic json lib bytes envelope keys now document.1 encoded.1;
          payload = payload;
          read = found.1;
          release = refl;
          kind = (text_eq_iff _ _).0 (and_left _ _ (and_left _ _ (and_left _ _ matching)));
          snapshot_fresh = not-leb→lt security.expires now clock.0;
          expires = window.0;
          fresh = freshness-IsFresh json lib _ _ now lib.day window.1;
          valid = and_right _ _ tested.0;
          same_snapshot =
              (==_iff payload.security_revision security.revision).0 (and_right _ _ matching);
          wanted_mod = sym s.mod_id ∙ (==_iff subject.0.mod_id mod_id).0 (and_left _ _ wanted.0);
          wanted_release =
              sym s.release_id
              ∙ (==_iff subject.0.release_id release_id).0 (and_right _ _ wanted.0);
          bounded = s.bounded;
          block = s.block;
        })
