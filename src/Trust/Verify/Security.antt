-- ===== src/Trust/Verify/Security.antt =====
-- The snapshots that `verify_security` of src-tauri/src/registry/trust.rs accepts.
use starframe.Prelude.{
  ℕ, ◌≡◌, refl, subst, true, not, some, List, [], ◌∷◌, Text, codes, text_eq_iff, contains, length,
  ◌≤◌, All, All-map, leb→le, within→le, and_left, and_right, not_contained,
}
use starframe.Prelude.Outcome.{ok, >>=-eq-ok, ok_inj, ensure->>-eq-ok, ok_or->>=-eq-ok, >>-eq-ok}
use starframe.Json.{JsonLibrary, Json, at}
use starframe.Trust.State.{Decision, VerifiedSecurity, SecurityState, accept}
use starframe.Trust.State.Consistent.{
  IsBounded, IsDistinct, IsWellFormed, IsConsistent, accept-IsConsistent,
}
use starframe.Trust.Signed.{
  VerifiedKeyset, SecurityPayload, TrustLibrary, signed_document, freshness, delegated_signature,
}
use starframe.Trust.Signed.Authentic.{IsAuthentic, delegated-IsAuthentic}
use starframe.Trust.Signed.Fresh.{IsFresh, freshness-IsFresh}
use starframe.Trust.Verify.{check_decisions, verify_security}

-- Each decision is about a hash that is none of the list's.
abbrev IsUnseen : List Text → Decision → Type 0
IsUnseen seen d = not (contains seen d.sha256) ≡ true

accepted_decisions :
    (revision : ℕ) (seen : List Text) (ds : List Decision) {u : Unit {0}}
    → check_decisions revision seen ds ≡ ok u
    → All (IsBounded revision) ds × IsDistinct ds × All (IsUnseen seen) ds
unfolding check_decisions
accepted_decisions revision seen [] h = (tt, tt, tt)
accepted_decisions revision seen (d ∷ ds) h =
    let tested = ensure->>-eq-ok _ _ _ h in
    let rest = accepted_decisions revision (d.sha256 ∷ seen) ds tested.1 in
    let bounds = within→le 1 revision d.revision (and_left _ _ (and_left _ _ tested.0)) in
    (
      (bounds, rest.0),
      (All-map _ _ (λ e unseen. (not_contained seen d.sha256 e.sha256 unseen).1) ds rest.2, rest.1),
      (
        and_right _ _ tested.0,
        All-map _ _ (λ e unseen. (not_contained seen d.sha256 e.sha256 unseen).0) ds rest.2,
      ),
    )

module _ (json : JsonLibrary) (lib : TrustLibrary json) where
  -- What a verified snapshot guarantees.
  pub record IsVerified (bytes : Text) (keys : VerifiedKeyset) (now : ℕ) (v : VerifiedSecurity)
      : Type 0 where
    pub envelope : Json json
    pub authentic : IsAuthentic json lib bytes keys now envelope v.canonical
    pub payload : SecurityPayload
    pub read : lib.security_from (at envelope (codes "signed")) ≡ some payload
    pub kind : payload.kind ≡ codes "starframe-security"
    pub complete : payload.complete ≡ true
    pub revision : payload.revision ≡ v.revision
    pub decisions : payload.decisions ≡ v.decisions
    pub in_range : (1 ≤ v.revision) × (v.revision ≤ 9007199254740991)
    pub counted : length v.decisions ≤ 10000
    pub fresh : IsFresh json lib payload.issued_at payload.expires_at now lib.day v.expires
    pub well_formed : IsWellFormed v

  -- If `verify_security` returns a snapshot, then the document has at most 4 MiB, one of its one
  -- to eight signatures is an ed25519 signature of the canonical text of the signed part by a key
  -- of the keyset that has not expired, the snapshot carries that text, the payload is a complete
  -- one of the kind for security, its window is fresh at the given time and at most a day long,
  -- its revision is a safe positive integer, and its at most 10000 decisions are about distinct
  -- hashes with revisions from 1 to that of the snapshot.
  pub verify_security-IsVerified :
      (bytes : Text) (keys : VerifiedKeyset) (now : ℕ) (v : VerifiedSecurity)
      → verify_security json lib bytes keys now ≡ ok v
      → IsVerified bytes keys now v
  unfolding verify_security
  verify_security-IsVerified bytes keys now v h =
      let document = >>=-eq-ok (signed_document json lib bytes) _ h in
      let envelope = document.0 in
      let named = >>-eq-ok _ _ document.2 in
      let found = ok_or->>=-eq-ok (lib.security_from (at envelope (codes "signed"))) _ _ named.2 in
      let payload = found.0 in
      let tested = ensure->>-eq-ok _ _ _ found.2 in
      let expires =
        >>=-eq-ok (freshness json lib payload.issued_at payload.expires_at now lib.day) _
          tested.1 in
      let encoded = >>=-eq-ok (delegated_signature json lib envelope keys now) _ expires.2 in
      let checked = >>-eq-ok _ _ encoded.2 in
      let all_bounds = accepted_decisions payload.revision [] payload.decisions checked.1 in
      let ranged = and_left _ _ tested.0 in
      let whole = and_left _ _ ranged in
      subst (IsVerified bytes keys now) (ok_inj _ _ checked.2) (record {
        envelope = envelope;
        authentic = delegated-IsAuthentic json lib bytes envelope keys now document.1 encoded.1;
        payload = payload;
        read = found.1;
        kind = (text_eq_iff _ _).0 (and_left _ _ (and_left _ _ whole));
        complete = and_right _ _ whole;
        revision = refl;
        decisions = refl;
        in_range = within→le _ _ _ (and_right _ _ ranged);
        counted = leb→le _ _ (and_right _ _ tested.0);
        fresh =
            freshness-IsFresh json lib payload.issued_at payload.expires_at now lib.day expires.1;
        well_formed = (all_bounds.0, all_bounds.1);
      })

  -- If each entry of the map stands under the hash of its decision, with a revision from 1 to
  -- that of the last snapshot, and each decision of the last snapshot is the one that the map
  -- holds for its hash, then this is also so of the state that accepts a snapshot which
  -- `verify_security` has returned.
  pub accept_verified :
      (bytes : Text) (keys : VerifiedKeyset) (now : ℕ) (s t : SecurityState) (v : VerifiedSecurity)
      → IsConsistent s
      → verify_security json lib bytes keys now ≡ ok v
      → accept json s v ≡ ok t
      → IsConsistent t
  accept_verified bytes keys now s t v consistent verified =
      accept-IsConsistent json s t v consistent
        (verify_security-IsVerified bytes keys now v verified).well_formed
