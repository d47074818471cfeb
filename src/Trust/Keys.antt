-- ===== src/Trust/Keys.antt =====
-- `verify_keys` of src-tauri/src/registry/trust.rs.
pub mod Rooted
use starframe.Prelude.{
  ℕ, ◌*◌, not, ◌&&◌, List, [], ◌∷◌, Text, codes, text_eq, contains, within, length, get_elem?, ◌==◌,
}
use starframe.Prelude.Outcome.{Outcome, ok, ensure, ok_or, or_panic, ◌>>=◌, ◌>>◌}
use starframe.Json.{JsonLibrary, Json, at, as_array}
use starframe.Registry.Identity.{max_safe_integer}
use starframe.Trust.Canonical.{canonical_text}
use starframe.Trust.Signed.{
  Key, VerifiedKeyset, TrustLibrary, fields, decode64, freshness, signed_document,
}

module _ (json : JsonLibrary) (lib : TrustLibrary json) where
  -- The loop over the keys, with the IDs that were inserted.
  unfoldable pub check_keys : (ids : List Text) → List Key → Outcome (List (Text × Text))
  unfolding decode64
  check_keys ids [] = ok []
  check_keys ids (key ∷ keys) = do
    public_key ← decode64 json lib key.public_key 32
    ensure (length public_key == 32) (codes "Invalid signing key")
    ensure (text_eq key.key_id (lib.digest public_key) && not (contains ids key.key_id))
        (codes "Invalid or duplicate signing key ID")
    rest ← check_keys (key.key_id ∷ ids) keys
    ok ((public_key, key.key_id) ∷ rest)

  -- The one signature of the root key.
  unfoldable pub root_signature : (envelope : Json json) (root_public_key : Text) → Outcome Text
  unfolding canonical_text decode64 at as_array
  root_signature envelope root_public_key = do
    signatures ←
        ok_or (as_array (at envelope (codes "signatures"))) (codes "Invalid signature list")
    ensure (length signatures == 1) (codes "Invalid root signature count")
    entry ← or_panic (get_elem? signatures 0)
    signature ← ok_or (lib.signature_from entry) (codes "Invalid root signature")
    ensure (text_eq signature.algorithm (codes "ed25519")) (codes "Invalid signature algorithm")
    ensure (text_eq signature.key_id (lib.digest root_public_key))
        (codes "Untrusted root signature")
    encoded ← canonical_text json (at envelope (codes "signed"))
    bytes ← decode64 json lib signature.signature 64
    ensure (lib.verify root_public_key encoded bytes) (codes "Invalid root signature")
    ok encoded

  unfoldable pub verify_keys : (bytes root_public_key : Text) (now : ℕ) → Outcome VerifiedKeyset
  unfolding signed_document fields freshness root_signature check_keys at
  verify_keys bytes root_public_key now = do
    envelope ← signed_document json lib bytes
    fields json lib (at envelope (codes "signed")) (
        codes "type"
        ∷ codes "schemaVersion"
        ∷ codes "revision"
        ∷ codes "issuedAt"
        ∷ codes "expiresAt"
        ∷ codes "keys"
        ∷ [])
    keyset ← ok_or (lib.keyset_from (at envelope (codes "signed"))) (codes "Invalid keyset")
    ensure
        (text_eq keyset.kind (codes "starframe-registry-keys")
          && keyset.schema_version == 1
          && within 1 max_safe_integer keyset.revision
          && within 1 8 (length keyset.keys))
        (codes "Invalid keyset")
    expires ← freshness json lib keyset.issued_at keyset.expires_at now (365 * lib.day)
    encoded ← root_signature envelope root_public_key
    keys ← check_keys [] keyset.keys
    ok (record { revision = keyset.revision; canonical = encoded; expires = expires; keys = keys })
