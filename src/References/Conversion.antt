-- ===== src/References/Conversion.antt =====
-- The conversions between `ModReference` and `Reference` of references.rs.
use starframe.Prelude.{
  ◌≡◌, refl, sym, ap, ap₂, subst, not, true, Option, none, some, Text, codes, arith,
}
use starframe.Prelude.Outcome.{ok, ensure, ok_or, ensure-eq-ok, ok_or-eq-ok, >>=-eq-ok, ok_inj}
use starframe.Registry.Identity.{UuidLibrary, sha256_try_from}
use starframe.References.{
  ModReference, Reference, local, is_some, obsolete, validate, local_reference, reference_try_from,
}

sha256_try_from-same : (value sha256 : Text) → sha256_try_from value ≡ some sha256 → value ≡ sha256
unfolding sha256_try_from
sha256_try_from-same value sha256 h = ground arith

absent : (id : Option Text) → not (is_some id) ≡ true → id ≡ none
absent none h = refl
absent (some id) h = cc

-- If a stored reference converts to a collection reference, then `local_reference` turns the
-- result back into the same stored reference.
pub local_reference-try_from :
    (uuid : UuidLibrary) (r : ModReference) (reference : Reference)
    → reference_try_from uuid r ≡ ok reference
    → local_reference reference ≡ some r
unfolding reference_try_from local_reference
local_reference-try_from uuid r reference h =
    let (u, no_release, h1) = >>=-eq-ok (ensure (not (is_some r.release_id)) obsolete) _ h in
    let (sha256, hashed, h2) =
      >>=-eq-ok
        (ok_or (sha256_try_from r.hash)
          (codes "SHA-256 must be 64 lowercase hexadecimal characters"))
        _ h1 in
    let value = local (record { mod_id = r.mod_id; sha256 = sha256 }) in
    let (v, valid, h3) = >>=-eq-ok (validate uuid value) _ h2 in
    let none_there =
      absent r.release_id (ensure-eq-ok (not (is_some r.release_id)) obsolete no_release) in
    let same = sha256_try_from-same r.hash sha256 (
      ok_or-eq-ok (sha256_try_from r.hash)
        (codes "SHA-256 must be 64 lowercase hexadecimal characters") hashed) in
    subst (λ (x : Reference). local_reference x ≡ some r) (ok_inj value reference h3)
      (ap some (
        ap₂
          (λ (h : Text) (id : Option Text). record { mod_id = r.mod_id; hash = h; release_id = id })
          (sym same) (sym none_there)))
