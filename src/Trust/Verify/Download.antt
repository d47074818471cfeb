-- ===== src/Trust/Verify/Download.antt =====
-- The downloads that `VerifiedRelease::download_identity` of src-tauri/src/registry/trust.rs allows.
use starframe.Prelude.{
  ℕ, ◌≡◌, refl, sym, ap, subst, ◌∙◌, Bool, true, false, not, ◌||◌, Option, none, some, some_inj,
  Text, and_right, if◌then◌else◌,
}
use starframe.Prelude.Outcome.{ok}
use starframe.Json.{JsonLibrary}
use starframe.Registry.Wire.{
  Availability, available, SecurityStatus, not_blocked, Release, ReleaseResult, release, tombstone,
}
use starframe.Registry.Valid.{release_valid, valid_for, statuses_agree}
use starframe.Registry.Valid
use starframe.Trust.State.{Decision, VerifiedSecurity}
use starframe.Trust.Signed.{VerifiedKeyset, TrustLibrary}
use starframe.Trust.Verify.{
  VerifiedRelease, DownloadIdentity, is_available, identity, identity_from, download_identity,
  verify_release,
}
use starframe.Trust.Verify.Manifest.{mod_of, release_of, verify_release-IsManifest}

offered :
    (a : Availability) (s : SecurityStatus)
    → is_available a ≡ true
    → statuses_agree a s ≡ true
    → (a ≡ available) × (s ≡ not_blocked)
unfolding is_available statuses_agree
offered available not_blocked h k = (refl, refl)
offered available SecurityStatus.blocked h k = cc
offered Availability.withdrawn s h k = cc
offered Availability.hidden s h k = cc
offered Availability.pruned s h k = cc
offered Availability.blocked s h k = cc

-- The release that a download is made of.
pub record IsDownload (mod_id release_id security_revision : ℕ) (v : VerifiedRelease)
    (i : DownloadIdentity) : Type 0 where
  pub found : Release
  pub carried : v.release ≡ release found
  pub offered : (found.availability ≡ available) × (found.security.status ≡ not_blocked)
  pub wanted : (i.reference.mod_id ≡ mod_id) × (i.reference.release_id ≡ release_id)
  pub archive : (i.reference.sha256 ≡ found.artifact.sha256) × (i.bytes ≡ found.artifact.bytes)
  pub snapshot : i.security_revision ≡ security_revision

some_of :
    (test : Bool) (i : DownloadIdentity) {j : DownloadIdentity}
    → (if test then none else some i) ≡ some j
    → (test ≡ false) × (i ≡ j)
some_of true i h = cc
some_of false i h = (refl, some_inj _ _ h)

free : (a b : Bool) → (not a || b) ≡ false → a ≡ true
free true b h = refl
free false b h = sym h

identity_of :
    (r : ReleaseResult) (block : Option Decision) (revision : ℕ) {i : DownloadIdentity}
    → identity_from r block revision ≡ some i
    → (found : Release) × (r ≡ release found)
      × (is_available found.availability ≡ true)
      × (identity revision found ≡ i)
unfolding identity_from
identity_of (tombstone entry) block revision h = cc
identity_of (release found) block revision h =
    let test = some_of _ _ h in (found, refl, free _ _ test.0, test.1)

module _ (json : JsonLibrary) (lib : TrustLibrary json) where
  -- If a verified manifest has a download identity, then it carries a release that is available
  -- and not blocked, and the identity names the mod and the release that were asked for, the hash
  -- and the size of that release, and the revision of the snapshot.
  pub download_identity-IsDownload :
      (bytes : Text) (keys : VerifiedKeyset) (security : VerifiedSecurity) (is_version4 : ℕ → Bool)
      (mod_id release_id now : ℕ) (v : VerifiedRelease) (i : DownloadIdentity)
      → verify_release json lib bytes keys security is_version4 mod_id release_id now ≡ ok v
      → download_identity v ≡ some i
      → IsDownload mod_id release_id security.revision v i
  unfolding download_identity identity Valid.valid release_valid valid_for
  download_identity-IsDownload bytes keys security is_version4 mod_id release_id now v i h k =
      let manifest =
        verify_release-IsManifest json lib bytes keys security is_version4 mod_id release_id now v
          h in
      let found = identity_of v.release v.reported_block v.security_revision k in
      let valid = subst (λ r. Valid.valid is_version4 r ≡ true) found.1 manifest.valid in
      let e = found.3 in
      subst (IsDownload mod_id release_id security.revision v) e (record {
        found = found.0;
        carried = found.1;
        offered =
            offered found.0.availability found.0.security.status found.2
              (and_right _ _ (and_right _ _ valid));
        wanted = (
          ap mod_of (sym found.1) ∙ manifest.wanted_mod,
          ap release_of (sym found.1) ∙ manifest.wanted_release,
        );
        archive = (refl, refl);
        snapshot = manifest.same_snapshot;
      })
