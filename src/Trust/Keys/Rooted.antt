-- ===== src/Trust/Keys/Rooted.antt =====
-- The keysets that `verify_keys` of src-tauri/src/registry/trust.rs accepts.
use starframe.Prelude.{
  ℕ, suc, ◌*◌, ◌≡◌, ◌≢◌, refl, sym, ap, subst, ◌∙◌, true, not, some, List, [], ◌∷◌, Text, codes,
  text_eq_iff, contains, length, get_elem?, ◌==◌, ◌≤◌, All, All-map, within→le, and_left, and_right,
  not_contained, arith,
}
use starframe.Prelude.Outcome.{
  ok, >>=-eq-ok, ok_inj, ensure->>-eq-ok, ok_or->>=-eq-ok, >>-eq-ok, or_panic, or_panic-eq-ok,
}
use starframe.Json.{JsonLibrary, Json, at, as_array}
use starframe.Contract.Unique.{unique_json}
use starframe.Trust.Canonical.{canonical_text}
use starframe.Trust.Signed.{
  Signature, Key, Keyset, VerifiedKeyset, TrustLibrary, signed_document, freshness, decode64,
}
use starframe.Trust.Signed.Authentic.{signed_document-eq-ok, decode64-eq-ok}
use starframe.Trust.Signed.Fresh.{IsFresh, freshness-IsFresh}
use starframe.Trust.Keys.{check_keys, root_signature, verify_keys}

-- No two keys have one ID.
abbrev pub IsDistinct : List (Text × Text) → Type 0
IsDistinct [] = Unit
IsDistinct (key ∷ keys) = All (λ other. key.1 ≢ other.1) keys × IsDistinct keys

abbrev IsUnseen : List Text → Text × Text → Type 0
IsUnseen ids key = not (contains ids key.1) ≡ true

module _ (json : JsonLibrary) (lib : TrustLibrary json) where
  -- The ID of a key is its digest.
  abbrev pub IsNamed : Text × Text → Type 0
  IsNamed key = key.1 ≡ lib.digest key.0

  accepted_keys :
      (ids : List Text) (keys : List Key) {result : List (Text × Text)}
      → check_keys json lib ids keys ≡ ok result
      → All IsNamed result
        × IsDistinct result
        × All (IsUnseen ids) result
        × (length result ≡ length keys)
  unfolding check_keys
  accepted_keys ids [] h =
      subst (λ r. All IsNamed r × IsDistinct r × All (IsUnseen ids) r × (length r ≡ 0))
        (ok_inj [] _ h) (tt, tt, tt, refl)
  accepted_keys ids (key ∷ keys) h =
      let decoded = >>=-eq-ok (decode64 json lib key.public_key 32) _ h in
      let sized = ensure->>-eq-ok _ _ _ decoded.2 in
      let named = ensure->>-eq-ok _ _ _ sized.1 in
      let later = >>=-eq-ok (check_keys json lib (key.key_id ∷ ids) keys) _ named.1 in
      let rest = accepted_keys (key.key_id ∷ ids) keys later.1 in
      subst
        (λ r. All IsNamed r × IsDistinct r × All (IsUnseen ids) r × (length r ≡ suc (length keys)))
        (ok_inj ((decoded.0, key.key_id) ∷ later.0) _ later.2)
        (
          ((text_eq_iff _ _).0 (and_left _ _ named.0), rest.0),
          (
            All-map _ _ (λ other unseen. (not_contained ids key.key_id other.1 unseen).1) later.0
                rest.2,
            rest.1,
          ),
          (
            and_right _ _ named.0,
            All-map _ _ (λ other unseen. (not_contained ids key.key_id other.1 unseen).0) later.0
                rest.2,
          ),
          ap suc rest.3,
        )

  -- The document carries one signature, and it is the root key's of the text.
  pub record IsRootSigned (root_public_key : Text) (envelope : Json json) (encoded : Text)
      : Type 0 where
    pub entry : Json json
    pub listed : as_array (at envelope (codes "signatures")) ≡ some (entry ∷ [])
    pub signature : Signature
    pub read : lib.signature_from entry ≡ some signature
    pub algorithm : signature.algorithm ≡ codes "ed25519"
    pub named : signature.key_id ≡ lib.digest root_public_key
    pub canonical : canonical_text json (at envelope (codes "signed")) ≡ ok encoded
    pub bytes : Text
    pub decoded : lib.decode signature.signature ≡ some bytes
    pub accepted : lib.verify root_public_key encoded bytes ≡ true

  single :
      (l : List (Json json)) (entry : Json json)
      → (length l == 1) ≡ true
      → get_elem? l 0 ≡ some entry
      → l ≡ entry ∷ []
  single [] entry h e = cc
  single (x ∷ []) entry h e = ground (arith, e)
  single (x ∷ y ∷ l) entry h e = ground (arith, h)

  root_signature-IsRootSigned :
      (envelope : Json json) (root_public_key : Text) {encoded : Text}
      → root_signature json lib envelope root_public_key ≡ ok encoded
      → IsRootSigned root_public_key envelope encoded
  unfolding root_signature
  root_signature-IsRootSigned envelope root_public_key h =
      let list = ok_or->>=-eq-ok (as_array (at envelope (codes "signatures"))) _ _ h in
      let counted = ensure->>-eq-ok _ _ _ list.2 in
      let entry = >>=-eq-ok (or_panic (get_elem? list.0 0)) _ counted.1 in
      let found = ok_or->>=-eq-ok (lib.signature_from entry.0) _ _ entry.2 in
      let algorithm = ensure->>-eq-ok _ _ _ found.2 in
      let named = ensure->>-eq-ok _ _ _ algorithm.1 in
      let text = >>=-eq-ok (canonical_text json (at envelope (codes "signed"))) _ named.1 in
      let bytes = >>=-eq-ok (decode64 json lib found.0.signature 64) _ text.2 in
      let verified = ensure->>-eq-ok _ _ _ bytes.2 in
      let e = ok_inj _ _ verified.1 in
      record {
        entry = entry.0;
        listed = list.1 ∙ ap some (single list.0 entry.0 counted.0 (or_panic-eq-ok _ entry.1));
        signature = found.0;
        read = found.1;
        algorithm = (text_eq_iff _ _).0 algorithm.0;
        named = (text_eq_iff _ _).0 named.0;
        canonical = text.1 ∙ ap ok e;
        bytes = bytes.0;
        decoded = decode64-eq-ok json lib _ 64 bytes.1;
        accepted = subst (λ t. lib.verify root_public_key t bytes.0 ≡ true) e verified.0;
      }

  -- What a verified keyset guarantees.
  pub record IsRooted (bytes root_public_key : Text) (now : ℕ) (v : VerifiedKeyset) : Type 0 where
    pub envelope : Json json
    pub parsed : unique_json json bytes ≡ ok envelope
    pub signed : IsRootSigned root_public_key envelope v.canonical
    pub keyset : Keyset
    pub read : lib.keyset_from (at envelope (codes "signed")) ≡ some keyset
    pub kind : keyset.kind ≡ codes "starframe-registry-keys"
    pub revision : keyset.revision ≡ v.revision
    pub in_range : (1 ≤ v.revision) × (v.revision ≤ 9007199254740991)
    pub fresh : IsFresh json lib keyset.issued_at keyset.expires_at now (365 * lib.day) v.expires
    pub counted : (1 ≤ length v.keys) × (length v.keys ≤ 8)
    pub named : All IsNamed v.keys
    pub distinct : IsDistinct v.keys

  -- If `verify_keys` returns a keyset, then the document carries exactly one signature, an
  -- ed25519 signature of the canonical text of the signed part by the given root key under the
  -- digest of that key, the window is fresh at the given time and at most 365 days long, the
  -- revision is a safe positive integer, and there are one to eight keys, each under its own
  -- digest, with distinct IDs.
  pub verify_keys-IsRooted :
      (bytes root_public_key : Text) (now : ℕ) (v : VerifiedKeyset)
      → verify_keys json lib bytes root_public_key now ≡ ok v
      → IsRooted bytes root_public_key now v
  unfolding verify_keys
  verify_keys-IsRooted bytes root_public_key now v h =
      let document = >>=-eq-ok (signed_document json lib bytes) _ h in
      let envelope = document.0 in
      let names = >>-eq-ok _ _ document.2 in
      let found = ok_or->>=-eq-ok (lib.keyset_from (at envelope (codes "signed"))) _ _ names.2 in
      let keyset = found.0 in
      let tested = ensure->>-eq-ok _ _ _ found.2 in
      let ranged = and_left _ _ tested.0 in
      let expires =
        >>=-eq-ok (freshness json lib keyset.issued_at keyset.expires_at now (365 * lib.day)) _
          tested.1 in
      let encoded = >>=-eq-ok (root_signature json lib envelope root_public_key) _ expires.2 in
      let keys = >>=-eq-ok (check_keys json lib [] keyset.keys) _ encoded.2 in
      let accepted = accepted_keys [] keyset.keys keys.1 in
      subst (IsRooted bytes root_public_key now) (ok_inj _ _ keys.2) (record {
        envelope = envelope;
        parsed = (signed_document-eq-ok json lib bytes document.1).1;
        signed = root_signature-IsRootSigned envelope root_public_key encoded.1;
        keyset = keyset;
        read = found.1;
        kind = (text_eq_iff _ _).0 (and_left _ _ (and_left _ _ ranged));
        revision = refl;
        in_range = within→le _ _ _ (and_right _ _ ranged);
        fresh = freshness-IsFresh json lib _ _ now (365 * lib.day) expires.1;
        counted =
            subst (λ n. (1 ≤ n) × (n ≤ 8)) (sym accepted.3)
              (within→le 1 8 (length keyset.keys) (and_right _ _ tested.0));
        named = accepted.0;
        distinct = accepted.1;
      })
