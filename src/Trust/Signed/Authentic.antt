-- ===== src/Trust/Signed/Authentic.antt =====
-- The documents that `signed_document`, `delegated_signature` and `freshness` of
-- src-tauri/src/registry/trust.rs let pass.
use starframe.Prelude.{
  apart, ℕ, ◌≡◌, ◌⊎◌, refl, sym, ap, ap₂, subst, ◌∙◌, Bool, true, false, none, some, List, [], ◌∷◌,
  Text, codes, text_eq, text_eq_iff, length, if◌then◌else◌, ◌≤◌, ◌<◌, In, Bool-cases, Option-cases,
  leb→le, not-leb→lt, within→le, and_left, or_cases, inl, inr, some_inj,
}
use starframe.Prelude.Outcome.{
  ok, >>=-eq-ok, ok_inj, ensure->>-eq-ok, ok_or->>=-eq-ok, >>-eq-ok, replace_err, replace_err-eq-ok,
}
use starframe.Json.{JsonLibrary, Json, at, as_array}
use starframe.Contract.Unique.{unique_json}
use starframe.Trust.Canonical.{canonical_text}
use starframe.Trust.Signed.{
  Signature, VerifiedKeyset, TrustLibrary, key_of, decode64, signed_document, trusts,
  check_signatures, delegated_signature,
}

module _ (json : JsonLibrary) (lib : TrustLibrary json) where
  -- One of the entries is a signature of the text by one of the keys.
  pub record IsSigned (keys : List (Text × Text)) (encoded : Text) (entries : List (Json json))
      : Type 0 where
    pub entry : Json json
    pub listed : In entry entries
    pub signature : Signature
    pub read : lib.signature_from entry ≡ some signature
    pub algorithm : signature.algorithm ≡ codes "ed25519"
    pub key : Text
    pub known : In (key, signature.key_id) keys
    pub bytes : Text
    pub decoded : lib.decode signature.signature ≡ some bytes
    pub accepted : lib.verify key encoded bytes ≡ true

  later_entry :
      (keys : List (Text × Text)) (encoded : Text) (first : Json json) (entries : List (Json json))
      → IsSigned keys encoded entries
      → IsSigned keys encoded (first ∷ entries)
  later_entry keys encoded first entries s = record {
    entry = s.entry;
    listed = inr s.listed;
    signature = s.signature;
    read = s.read;
    algorithm = s.algorithm;
    key = s.key;
    known = s.known;
    bytes = s.bytes;
    decoded = s.decoded;
    accepted = s.accepted;
  }

  pub decode64-eq-ok :
      (v : Text) (size : ℕ) {bytes : Text}
      → decode64 json lib v size ≡ ok bytes
      → lib.decode v ≡ some bytes
  unfolding decode64
  decode64-eq-ok v size h =
      let found = ok_or->>=-eq-ok (lib.decode v) _ _ h in
      found.1 ∙ ap some (ok_inj _ _ (ensure->>-eq-ok _ _ _ found.2).1)

  key_of-In :
      (id : Text) (keys : List (Text × Text)) {key : Text}
      → key_of id keys ≡ some key
      → In (key, id) keys
  unfolding key_of
  key_of-In id [] h = cc
  key_of-In id ((public_key, other) ∷ keys) {key = key} h = elim (Bool-cases (text_eq other id)) [
    | inl same ↦ inl (
        ap₂ (λ x y. (x, y))
          (some_inj _ _
            (sym (subst (λ b. (if b then some public_key else key_of id keys) ≡ some key) same h)))
          (sym ((text_eq_iff other id).0 same)))
    | inr different ↦ inr (
        key_of-In id keys
          (subst (λ b. (if b then some public_key else key_of id keys) ≡ some key) different h))
  ]

  trusts-known :
      (keys : List (Text × Text)) (encoded id bytes : Text)
      → trusts json lib keys encoded id bytes ≡ true
      → (key : Text) × In (key, id) keys × (lib.verify key encoded bytes ≡ true)
  unfolding trusts
  trusts-known keys encoded id bytes h = elim (Option-cases (key_of id keys)) [
    | inl unknown ↦ absurd (
        apart (
          subst (λ o. (elim o [ none ↦ false | some k ↦ lib.verify k encoded bytes ]) ≡ true)
            unknown h))
    | inr (key, known) ↦ (
      key,
      key_of-In id keys known,
      subst (λ o. (elim o [ none ↦ false | some k ↦ lib.verify k encoded bytes ]) ≡ true) known h,
    )
  ]

  check_signatures-IsSigned :
      (keys : List (Text × Text)) (encoded : Text) (seen : List Text) (trusted : Bool)
      (entries : List (Json json))
      → check_signatures json lib keys encoded seen trusted entries ≡ ok true
      → (trusted ≡ true) ⊎ IsSigned keys encoded entries
  unfolding check_signatures
  check_signatures-IsSigned keys encoded seen trusted [] h = inl (ok_inj _ _ h)
  check_signatures-IsSigned keys encoded seen trusted (entry ∷ entries) h =
      let found = ok_or->>=-eq-ok (lib.signature_from entry) _ _ h in
      let tested = ensure->>-eq-ok _ _ _ found.2 in
      let decoded = >>=-eq-ok (decode64 json lib found.0.signature 64) _ tested.1 in
      elim (check_signatures-IsSigned keys encoded (found.0.key_id ∷ seen) _ entries decoded.2) [
        | inr s ↦ inr (later_entry keys encoded entry entries s)
        | inl now ↦ elim (or_cases trusted _ now) [
          | inl before ↦ inl before
          | inr here ↦
              let known = trusts-known keys encoded found.0.key_id decoded.0 here in
              inr (record {
                entry = entry;
                listed = inl refl;
                signature = found.0;
                read = found.1;
                algorithm = (text_eq_iff _ _).0 (and_left _ _ tested.0);
                key = known.0;
                known = known.1;
                bytes = decoded.0;
                decoded = decode64-eq-ok _ 64 decoded.1;
                accepted = known.2;
              })
        ]
      ]

  -- What a signed document tells of itself: its size, the text that is signed, and who signed it.
  pub record IsAuthentic (bytes : Text) (keys : VerifiedKeyset) (now : ℕ) (envelope : Json json)
      (encoded : Text) : Type 0 where
    pub in_size : length bytes ≤ 4194304
    pub parsed : unique_json json bytes ≡ ok envelope
    pub keys_fresh : now < keys.expires
    pub canonical : canonical_text json (at envelope (codes "signed")) ≡ ok encoded
    pub entries : List (Json json)
    pub listed : as_array (at envelope (codes "signatures")) ≡ some entries
    pub counted : (1 ≤ length entries) × (length entries ≤ 8)
    pub signed : IsSigned keys.keys encoded entries

  pub signed_document-eq-ok :
      (bytes : Text) {envelope : Json json}
      → signed_document json lib bytes ≡ ok envelope
      → (length bytes ≤ 4194304) × (unique_json json bytes ≡ ok envelope)
  unfolding signed_document
  signed_document-eq-ok bytes h =
      let sized = ensure->>-eq-ok _ _ _ h in
      let parsed = >>=-eq-ok (replace_err (unique_json json bytes) _) _ sized.1 in
      let kept = >>-eq-ok _ _ parsed.2 in
      (leb→le _ _ sized.0, replace_err-eq-ok _ _ parsed.1 ∙ kept.2)

  pub delegated-IsAuthentic :
      (bytes : Text) (envelope : Json json) (keys : VerifiedKeyset) (now : ℕ) {encoded : Text}
      → signed_document json lib bytes ≡ ok envelope
      → delegated_signature json lib envelope keys now ≡ ok encoded
      → IsAuthentic bytes keys now envelope encoded
  unfolding delegated_signature
  delegated-IsAuthentic bytes envelope keys now h k =
      let document = signed_document-eq-ok bytes h in
      let fresh = ensure->>-eq-ok _ _ _ k in
      let list = ok_or->>=-eq-ok (as_array (at envelope (codes "signatures"))) _ _ fresh.1 in
      let count = ensure->>-eq-ok _ _ _ list.2 in
      let text = >>=-eq-ok (canonical_text json (at envelope (codes "signed"))) _ count.1 in
      let checked =
        >>=-eq-ok (check_signatures json lib keys.keys text.0 [] false list.0) _ text.2 in
      let trusted = ensure->>-eq-ok _ _ _ checked.2 in
      let e = ok_inj _ _ trusted.1 in
      record {
        in_size = document.0;
        parsed = document.1;
        keys_fresh = not-leb→lt keys.expires now fresh.0;
        canonical = text.1 ∙ ap ok e;
        entries = list.0;
        listed = list.1;
        counted = within→le 1 8 (length list.0) count.0;
        signed =
            elim (check_signatures-IsSigned keys.keys text.0 [] false list.0
              (checked.1 ∙ ap ok trusted.0)) [
                | inl never ↦ absurd (apart never)
                | inr found ↦ subst (λ e. IsSigned keys.keys e list.0) e found
              ];
      }
