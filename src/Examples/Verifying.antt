-- ===== src/Examples/Verifying.antt =====
-- Signed documents that are verified, and the states that accept them.
use starframe.Prelude.{◌<◌, ◌≡◌, ◌≢◌, ◌⊎◌, refl, true, some, codes, inl, arith}
use starframe.Prelude.Outcome.{ok}
use starframe.Trust.Canonical.Quoting.{cancel_quoted}
use starframe.Trust.State.{Decision, default, get, accept, blocked_in}
use starframe.Trust.State.History.{
  Accepts, none_accepted, accepted, IsLater, Accepts-IsLater, cleared_by_newer,
}
use starframe.Trust.State.Consistent.{IsConsistent, default-IsConsistent, rollback_refused}
use starframe.Trust.Verify.{download_identity, verify_security, verify_release}
use starframe.Trust.Verify.Security.{IsVerified, verify_security-IsVerified, accept_verified}
use starframe.Trust.Verify.Manifest.{IsManifest, verify_release-IsManifest}
use starframe.Trust.Verify.Download.{IsDownload, download_identity-IsDownload}
use starframe.Trust.Keys.{verify_keys}
use starframe.Trust.Keys.Rooted.{IsRooted, verify_keys-IsRooted}
use starframe.Examples.Signing.{
  json, bad, every, lib, root, keyset, snapshot, manifest, archive, lifted, later, blocking,
  clearing,
}

keys_verify : verify_keys json lib (codes "k") root 2000 ≡ ok keyset
unfolding verify_keys
keys_verify = refl

verify_keys-IsRooted_example : IsRooted json lib (codes "k") root 2000 keyset
verify_keys-IsRooted_example =
    verify_keys-IsRooted json lib (codes "k") root 2000 keyset keys_verify

snapshot_verifies : verify_security json lib (codes "s") keyset 2000 ≡ ok snapshot
unfolding verify_security
snapshot_verifies = refl

verify_security-IsVerified_example : IsVerified json lib (codes "s") keyset 2000 snapshot
verify_security-IsVerified_example =
    verify_security-IsVerified json lib (codes "s") keyset 2000 snapshot snapshot_verifies

release_verifies : verify_release json lib (codes "r") keyset snapshot every 7 3 2000 ≡ ok manifest
unfolding verify_release
release_verifies = refl

verify_release-IsManifest_example :
    IsManifest json lib (codes "r") keyset snapshot every 7 3 2000 manifest
verify_release-IsManifest_example =
    verify_release-IsManifest json lib (codes "r") keyset snapshot every 7 3 2000 manifest
      release_verifies

archive_offered : download_identity manifest ≡ some archive
unfolding download_identity
archive_offered = refl

download_identity-IsDownload_example : IsDownload 7 3 1 manifest archive
download_identity-IsDownload_example =
    download_identity-IsDownload json lib (codes "r") keyset snapshot every 7 3 2000 manifest
      archive release_verifies archive_offered

first_accepted : accept json default snapshot ≡ ok blocking
unfolding accept
first_accepted = refl

second_accepted : accept json blocking later ≡ ok clearing
unfolding accept
second_accepted = refl

accept_verified_example : IsConsistent blocking
accept_verified_example =
    accept_verified json lib (codes "s") keyset 2000 default blocking snapshot default-IsConsistent
      snapshot_verifies first_accepted

history : Accepts json blocking clearing
history = accepted later second_accepted none_accepted

Accepts-IsLater_example : IsLater blocking clearing
Accepts-IsLater_example = Accepts-IsLater json blocking clearing history

ff_blocked : blocked_in blocking (codes "ff") ≡ true
unfolding blocked_in
ff_blocked = refl

cleared_by_newer_example :
    (blocked_in clearing (codes "ff") ≡ true)
    ⊎ ((old new : Decision) × (get (codes "ff") blocking.decisions ≡ some old)
        × (get (codes "ff") clearing.decisions ≡ some new)
        × (old.revision < new.revision))
cleared_by_newer_example = cleared_by_newer json blocking clearing (codes "ff") history ff_blocked

lifted_held : get (codes "ff") clearing.decisions ≡ some lifted
unfolding get
lifted_held = refl

rollback_refused_example : accept json clearing snapshot ≢ ok blocking
rollback_refused_example =
    rollback_refused json clearing blocking snapshot lifted bad (tt, tt) (inl refl) lifted_held
      (omega arith)

cancel_quoted_example : (codes "a\"" ≡ codes "a\"") × (codes "x" ≡ codes "x")
cancel_quoted_example = cancel_quoted (codes "a\"") (codes "a\"") (codes "x") (codes "x") refl
