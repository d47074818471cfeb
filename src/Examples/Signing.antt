-- ===== src/Examples/Signing.antt =====
-- Signed documents, and the libraries that read and verify them.
use starframe.Prelude.{
  ℕ, Bool, true, false, ◌&&◌, Option, none, some, [], ◌∷◌, ◌++◌, Text, codes, text_eq, replicate,
  length, leb, ◌==◌, if◌then◌else◌,
}
use starframe.Json.{
  ℤ, pos, negsuc, unsigned_abs, Value, Members, boolean, number, string, array, object, no_values,
  value, no_members, member, JsonLibrary,
}
use starframe.Registry.Wire.{Release, release, available, not_blocked}
use starframe.Trust.State.{blocked, cleared, Decision, VerifiedSecurity, SecurityState}
use starframe.Trust.Signed.{VerifiedKeyset, TrustLibrary}
use starframe.Trust.Verify.{VerifiedRelease, DownloadIdentity}

abbrev integer_eq : ℤ → ℤ → Bool
integer_eq (pos m) (pos n) = m == n
integer_eq (negsuc m) (negsuc n) = m == n
integer_eq _ _ = false

abbrev natural : ℤ → Option ℕ
natural (pos n) = some n
natural (negsuc n) = none

abbrev signature_value : Value ℤ
signature_value = object (member (codes "keyId") (string (codes "ab")) no_members)

abbrev decision_value : Value ℤ
decision_value = object (
    member (codes "reason") (string (codes "bad")) (
      member (codes "revision") (number (pos 1)) (
        member (codes "sha256") (string (codes "ff"))
          (member (codes "status") (string (codes "blocked")) no_members))))

abbrev envelope_of : Members ℤ → Value ℤ
envelope_of members = object (
    member (codes "signatures") (array (value signature_value no_values))
      (member (codes "signed") (object members) no_members))

abbrev snapshot_members : Members ℤ
snapshot_members = member (codes "complete") (boolean true) (
    member (codes "decisions") (array (value decision_value no_values)) (
      member (codes "expiresAt") (string (codes "2026-01-01T12:00:00.000Z")) (
        member (codes "issuedAt") (string (codes "2026-01-01T00:00:00.000Z")) (
          member (codes "revision") (number (pos 1)) (
            member (codes "schemaVersion") (number (pos 1))
              (member (codes "type") (string (codes "starframe-security")) no_members))))))

abbrev keys_members : Members ℤ
keys_members = member (codes "expiresAt") (string (codes "2026-01-01T12:00:00.000Z")) (
    member (codes "issuedAt") (string (codes "2026-01-01T00:00:00.000Z")) (
      member (codes "keys") (array no_values) (
        member (codes "revision") (number (pos 1)) (
          member (codes "schemaVersion") (number (pos 1))
            (member (codes "type") (string (codes "starframe-registry-keys")) no_members)))))

abbrev manifest_members : Members ℤ
manifest_members = member (codes "expiresAt") (string (codes "2026-01-01T12:00:00.000Z")) (
    member (codes "issuedAt") (string (codes "2026-01-01T00:00:00.000Z")) (
      member (codes "release") (object no_members) (
        member (codes "revision") (number (pos 1)) (
          member (codes "schemaVersion") (number (pos 1)) (
            member (codes "securityRevision") (number (pos 1))
              (member (codes "type") (string (codes "starframe-release")) no_members))))))

-- Of the documents, the first byte tells which one it is.
abbrev document_of : Text → Option (Value ℤ)
document_of [] = none
document_of (byte ∷ bytes) =
    if byte == b'k'
    then some (envelope_of keys_members)
    else if byte == b'r'
    then some (envelope_of manifest_members)
    else some (envelope_of snapshot_members)

abbrev pub json : JsonLibrary
json = record {
  Number = ℤ;
  number_eq = integer_eq;
  as_u64 = natural;
  as_i64 = λ n. some n;
  Float = ℤ;
  as_f64 = λ n. some n;
  is_finite = λ n. true;
  is_whole = λ n. true;
  abs_at_most = λ n limit. leb (unsigned_abs n) limit;
  to_i64 = λ n. n;
  from_u64 = λ n. pos n;
  from_slice = document_of;
  error = λ bytes. codes "bad JSON";
}

abbrev pub bad : Decision
bad = record { sha256 = codes "ff"; revision = 1; status = blocked; reason = codes "bad" }

abbrev time_of : Text → Option ℕ
time_of v = if text_eq v (codes "2026-01-01T00:00:00.000Z") then some 1000 else some 44200

abbrev plain_release : Release
plain_release = record {
  mod_id = 7;
  release_id = 3;
  version_label = codes "1.0.0";
  artifact = record { sha256 = codes "ee"; bytes = 1000 };
  publication_order = 1;
  published_at = codes "2026-01-01T00:00:00.000Z";
  created_at = codes "2026-01-01T00:00:00.000Z";
  availability = available;
  security = record { status = not_blocked; revision = 0; reason = none };
  metadata = record {
    revision = 1;
    tested_game_build = codes "1";
    source_repository = none;
    release_notes = [];
    dependencies = [];
    dependency_problems = [];
    installation = none;
  };
}

abbrev pub every : ℕ → Bool
every id = true

abbrev pub lib : TrustLibrary json
lib = record {
  decode = λ v. if text_eq v (codes "s") then some (replicate 64 1) else some (replicate 32 2);
  encode = λ bytes. if length bytes == 64 then codes "s" else codes "p";
  verify = λ key message signature. text_eq signature (replicate 64 1) && length key == 32;
  digest = λ bytes. codes "ab";
  parse_time = time_of;
  minute = 60;
  day = 86400;
  latest = 1000000000;
  signature_from = λ v.
      some (record { key_id = codes "ab"; algorithm = codes "ed25519"; signature = codes "s" });
  keyset_from = λ v. some (record {
    kind = codes "starframe-registry-keys";
    schema_version = 1;
    revision = 1;
    issued_at = codes "2026-01-01T00:00:00.000Z";
    expires_at = codes "2026-01-01T12:00:00.000Z";
    keys = record { key_id = codes "ab"; public_key = codes "p" } ∷ [];
  });
  security_from = λ v. some (record {
    kind = codes "starframe-security";
    schema_version = 1;
    revision = 1;
    issued_at = codes "2026-01-01T00:00:00.000Z";
    expires_at = codes "2026-01-01T12:00:00.000Z";
    complete = true;
    decisions = bad ∷ [];
  });
  release_from = λ v. some (record {
    kind = codes "starframe-release";
    schema_version = 1;
    revision = 1;
    issued_at = codes "2026-01-01T00:00:00.000Z";
    expires_at = codes "2026-01-01T12:00:00.000Z";
    security_revision = 1;
    release = release plain_release;
  });
}

abbrev pub root : Text
root = replicate 32 7

abbrev pub keyset : VerifiedKeyset
keyset = record {
  revision = 1;
  canonical =
      codes
        "{\"expiresAt\":\"2026-01-01T12:00:00.000Z\",\"issuedAt\":\"2026-01-01T00:00:00.000Z\",\"keys\":[],\"revision\":1,\"schemaVersion\":1,\"type\":\"starframe-registry-keys\"}";
  expires = 44200;
  keys = (replicate 32 2, codes "ab") ∷ [];
}

abbrev window : Text
window =
    codes "\"expiresAt\":\"2026-01-01T12:00:00.000Z\",\"issuedAt\":\"2026-01-01T00:00:00.000Z\","

abbrev pub snapshot : VerifiedSecurity
snapshot = record {
  revision = 1;
  canonical =
      codes
        "{\"complete\":true,\"decisions\":[{\"reason\":\"bad\",\"revision\":1,\"sha256\":\"ff\",\"status\":\"blocked\"}],"
      ++ window
      ++ codes "\"revision\":1,\"schemaVersion\":1,\"type\":\"starframe-security\"}";
  expires = 44200;
  decisions = bad ∷ [];
}

abbrev pub manifest : VerifiedRelease
manifest = record {
  revision = 1;
  canonical =
      codes "{"
      ++ window
      ++ codes
          "\"release\":{},\"revision\":1,\"schemaVersion\":1,\"securityRevision\":1,\"type\":\"starframe-release\"}";
  security_revision = 1;
  release = release plain_release;
  reported_block = none;
}

abbrev pub archive : DownloadIdentity
archive = record {
  reference = record { mod_id = 7; release_id = 3; sha256 = codes "ee" };
  bytes = 1000;
  metadata_revision = 1;
  security_revision = 1;
  installation = none;
  dependencies = [];
}

abbrev pub lifted : Decision
lifted = record { sha256 = codes "ff"; revision = 2; status = cleared; reason = codes "fine" }

abbrev pub later : VerifiedSecurity
later = record { revision = 2; canonical = codes "{}"; expires = 90000; decisions = lifted ∷ [] }

abbrev pub blocking : SecurityState
blocking = record { snapshot = some snapshot; decisions = (codes "ff", bad) ∷ [] }

abbrev pub clearing : SecurityState
clearing = record {
  snapshot = some later;
  decisions = (codes "ff", lifted) ∷ (codes "ff", bad) ∷ [];
}
