-- ===== src/Trust/Signed.antt =====
-- The checks that every signed document of src-tauri/src/registry/trust.rs passes. A byte array is
-- a `Text`, and a time is a number of the clock's units.
pub mod Authentic
pub mod Fresh
use starframe.Prelude.{
  ℕ, suc, ◌+◌, ◌-◌, ◌*◌, Bool, true, false, not, ◌&&◌, ◌||◌, Option, none, some, List, [], ◌∷◌,
  Text, codes, text_eq, all, contains, is_ascii_digit, within, length, leb, ltb, ◌==◌,
  if◌then◌else◌,
}
use starframe.Prelude.Outcome.{
  Outcome, ok, err, panicked, ensure, ok_or, or_panic, replace_err, ◌>>=◌, ◌>>◌,
}
use starframe.Json.{JsonLibrary, Json, at, as_object, as_array, contains_key}
use starframe.Registry.Wire.{ReleaseResult}
use starframe.Contract.Unique.{unique_json}
use starframe.Trust.Canonical.{canonical_text}
use starframe.Trust.State.{Decision}

pub record Signature : Type 0 where
  pub key_id : Text
  pub algorithm : Text
  pub signature : Text

pub record Key : Type 0 where
  pub key_id : Text
  pub public_key : Text

pub record Keyset : Type 0 where
  pub kind : Text
  pub schema_version : ℕ
  pub revision : ℕ
  pub issued_at : Text
  pub expires_at : Text
  pub keys : List Key

pub record VerifiedKeyset : Type 0 where
  pub revision : ℕ
  pub canonical : Text
  pub expires : ℕ
  -- Public keys with their IDs.
  pub keys : List (Text × Text)

pub record SecurityPayload : Type 0 where
  pub kind : Text
  pub schema_version : ℕ
  pub revision : ℕ
  pub issued_at : Text
  pub expires_at : Text
  pub complete : Bool
  pub decisions : List Decision

pub record ReleasePayload : Type 0 where
  pub kind : Text
  pub schema_version : ℕ
  pub revision : ℕ
  pub issued_at : Text
  pub expires_at : Text
  pub security_revision : ℕ
  pub release : ReleaseResult

-- What the program uses of the crates `base64`, `ring`, `sha2` and `time`, and the deserializers
-- that serde derives.
pub record TrustLibrary (json : JsonLibrary) : Type 0 where
  pub decode : Text → Option Text
  pub encode : Text → Text
  -- `UnparsedPublicKey::new(&ED25519, key).verify(message, signature).is_ok()`
  pub verify : (key message signature : Text) → Bool
  -- `format!("{:x}", Sha256::digest(bytes))`
  pub digest : Text → Text
  -- `OffsetDateTime::parse(value, &Rfc3339)`
  pub parse_time : Text → Option ℕ
  pub minute : ℕ
  pub day : ℕ
  -- The last time that the crate represents. A sum beyond it panics.
  pub latest : ℕ
  pub signature_from : Json json → Option Signature
  pub keyset_from : Json json → Option Keyset
  pub security_from : Json json → Option SecurityPayload
  pub release_from : Json json → Option ReleasePayload

date_byte : (index byte : ℕ) → Bool
date_byte index byte =
    if index == 4 || index == 7
    then byte == b'-'
    else if index == 10
    then byte == b'T'
    else if index == 13 || index == 16
    then byte == b':'
    else if index == 19
    then byte == b'.'
    else if index == 23
    then byte == b'Z'
    else is_ascii_digit byte

date_bytes : (index : ℕ) → Text → Bool
unfolding date_byte
date_bytes index [] = true
date_bytes index (byte ∷ bytes) = date_byte index byte && date_bytes (suc index) bytes

abbrev pub max_signed_bytes : ℕ
max_signed_bytes = 4194304

-- `keys.keys.iter().find(|(_, id)| *id == key_id)`
unfoldable pub key_of : Text → List (Text × Text) → Option Text
key_of key_id [] = none
key_of key_id ((public_key, id) ∷ keys) =
    if text_eq id key_id then some public_key else key_of key_id keys

module _ (json : JsonLibrary) (lib : TrustLibrary json) where
  unfoldable pub fields : Json json → List Text → Outcome (Unit {0})
  unfolding as_object contains_key
  fields v expected = do
    members ← ok_or (as_object v) (codes "Invalid signed object")
    ensure (length members == length expected && all (contains_key members) expected)
        (codes "Unknown or missing signed field")

  unfoldable pub decode64 : Text → (size : ℕ) → Outcome Text
  decode64 v size = do
    bytes ← ok_or (lib.decode v) (codes "Invalid base64")
    ensure (length bytes == size && text_eq (lib.encode bytes) v) (codes "Noncanonical base64")
    ok bytes

  unfoldable pub date : Text → Outcome ℕ
  unfolding date_bytes
  date v = do
    ensure (length v == 24 && date_bytes 0 v) (codes "Invalid signed time")
    ok_or (lib.parse_time v) (codes "Invalid signed time")

  -- `time + duration`
  add_time : ℕ → ℕ → Outcome ℕ
  add_time time duration =
      or_panic (if leb (time + duration) lib.latest then some (time + duration) else none)

  unfoldable pub freshness : (issued_at expires_at : Text) (now limit : ℕ) → Outcome ℕ
  unfolding date add_time
  freshness issued_at expires_at now limit = do
    issued ← date issued_at
    expires ← date expires_at
    soon ← add_time now (5 * lib.minute)
    ensure
        (not (
          ltb soon issued || leb expires now || leb expires issued || ltb limit (expires - issued)))
        (codes "Signed metadata is stale or has an invalid validity window")
    ok expires

  unfoldable pub signed_document : Text → Outcome (Json json)
  unfolding fields unique_json
  signed_document bytes = do
    ensure (leb (length bytes) max_signed_bytes) (codes "Signed metadata is too large")
    envelope ← replace_err (unique_json json bytes) (codes "Invalid signed JSON")
    fields envelope (codes "signed" ∷ codes "signatures" ∷ [])
    ok envelope

  -- Whether a key of the set accepts the signature of the text.
  unfoldable pub trusts : List (Text × Text) → (encoded key_id bytes : Text) → Bool
  unfolding key_of
  trusts keys encoded key_id bytes = elim (key_of key_id keys) [
    | none ↦ false
    | some public_key ↦ lib.verify public_key encoded bytes
  ]

  -- The loop over the signatures, with the IDs that were seen: whether one is trusted.
  unfoldable pub check_signatures :
      (keys : List (Text × Text)) (encoded : Text) (seen : List Text) (trusted : Bool)
      → List (Json json)
      → Outcome Bool
  unfolding decode64 trusts
  check_signatures keys encoded seen trusted [] = ok trusted
  check_signatures keys encoded seen trusted (entry ∷ entries) = do
    signature ← ok_or (lib.signature_from entry) (codes "Invalid registry signature")
    ensure (text_eq signature.algorithm (codes "ed25519") && not (contains seen signature.key_id))
        (codes "Invalid or duplicate registry signature")
    bytes ← decode64 signature.signature 64
    check_signatures keys encoded (signature.key_id ∷ seen)
        (trusted || trusts keys encoded signature.key_id bytes) entries

  unfoldable pub delegated_signature :
      (envelope : Json json) → VerifiedKeyset → (now : ℕ) → Outcome Text
  unfolding check_signatures canonical_text at as_array
  delegated_signature envelope keys now = do
    ensure (not (leb keys.expires now)) (codes "Registry signing keys have expired")
    signatures ←
        ok_or (as_array (at envelope (codes "signatures"))) (codes "Invalid signature list")
    ensure (within 1 8 (length signatures)) (codes "Invalid signature count")
    encoded ← canonical_text json (at envelope (codes "signed"))
    trusted ← check_signatures keys.keys encoded [] false signatures
    ensure trusted (codes "No trusted registry signature")
    ok encoded
