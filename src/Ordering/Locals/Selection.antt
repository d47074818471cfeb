-- ===== src/Ordering/Locals/Selection.antt =====
-- The positions and manifests that the first loop of `resolve_locals` collects.
use starframe.Prelude.{
  ℕ, zero, suc, ◌+◌, ◌<◌, ◌≡◌, refl, sym, ap, subst, ◌∙◌, ◌⊎◌, inl, inr, not, false, some, some_inj,
  List, [], ◌∷◌, Text, text_eq, text_eq_iff, length, get_elem?, arith, Bool-cases,
}
use starframe.Prelude.Outcome.{
  Outcome, ok, err, panicked, ensure, ok_or, ok_or-eq-ok, ensure-eq-ok, >>=-eq-ok, ok_inj,
}
use starframe.Registry.Identity.{UuidLibrary}
use starframe.References.{ModReference, reference_try_from}
use starframe.Ordering.Shared.{position_of}
use starframe.Ordering.Locals.{
  Manifest, LocalSource, Positions, is_some, map_err, no_metadata, source_of, metadata, one_version,
  unavailable, select_from,
}

-- The manifest is that of the imported build with the reference.
pub record IsManifestOf (locals : List LocalSource) (r : ModReference) (m : Manifest) : Type 0 where
  pub source : LocalSource
  pub imported : source_of locals r ≡ some source
  pub content : source.manifest ≡ m

pub record Selected (locals : List LocalSource) (index : ℕ) (positions : Positions)
    (requested : List ModReference) (final : Positions) (releases : List Manifest) : Type 0 where
  pub same_length : length releases ≡ length requested
  pub known :
      (k : ℕ) (r : ModReference) (m : Manifest)
      → get_elem? requested k ≡ some r
      → get_elem? releases k ≡ some m
      → IsManifestOf locals r m
  pub placed :
      (id : Text) (j : ℕ)
      → position_of text_eq id final ≡ some j
      → (position_of text_eq id positions ≡ some j) ⊎ (j < index + length requested)
  pub keeps :
      (id : Text) (j : ℕ)
      → position_of text_eq id positions ≡ some j
      → position_of text_eq id final ≡ some j
  pub places :
      (k v : ℕ) (r : ModReference)
      → v ≡ index + k
      → get_elem? requested k ≡ some r
      → position_of text_eq r.mod_id final ≡ some v

pub position_of-nil : (id : Text) (j : ℕ) → ¬ (position_of text_eq id [] ≡ some j)
unfolding position_of
position_of-nil id j h = cc

map_err-eq-ok :
    {A : Type 0} (prefix : Text) (o : Outcome A) (a : A) → map_err prefix o ≡ ok a → o ≡ ok a
map_err-eq-ok prefix (ok b) a h = h
map_err-eq-ok prefix (err message) a h = cc
map_err-eq-ok prefix panicked a h = cc

metadata-IsManifestOf :
    (uuid : UuidLibrary) (locals : List LocalSource) (r : ModReference) (m : Manifest)
    → metadata uuid locals r ≡ ok m
    → IsManifestOf locals r m
unfolding metadata
metadata-IsManifestOf uuid locals r m h =
    let (reference, exact, h1) = >>=-eq-ok (reference_try_from uuid r) _ h in
    let (source, found, h2) = >>=-eq-ok (ok_or (source_of locals r) (no_metadata r)) _ h1 in
    record {
      source = source;
      imported = ok_or-eq-ok (source_of locals r) (no_metadata r) found;
      content = ok_inj source.manifest m h2;
    }

Selected-cons :
    (locals : List LocalSource) (index : ℕ) (positions : Positions) (reference : ModReference)
    (requested : List ModReference) (final : Positions) (release : Manifest)
    (releases : List Manifest)
    → is_some (position_of text_eq reference.mod_id positions) ≡ false
    → IsManifestOf locals reference release
    → Selected locals (suc index) ((reference.mod_id, index) ∷ positions) requested final releases
    → Selected locals index positions (reference ∷ requested) final (release ∷ releases)
unfolding position_of
Selected-cons locals index positions reference requested final release releases fresh m s = record {
  same_length = ap suc s.same_length;
  known = known;
  placed = λ id j e. elim (s.placed id j e) [
    | inl early ↦ elim (Bool-cases (text_eq id reference.mod_id)) [
      | inl here ↦ inr (omega (arith, some_inj index j (rw here at early)))
      | inr other ↦ inl (rw other at early)
    ]
    | inr l ↦ inr (omega arith)
  ];
  keeps = λ id j e. s.keeps id j (older id j e);
  places = places;
}
  where
    known :
        (k : ℕ) (r : ModReference) (n : Manifest)
        → get_elem? (reference ∷ requested) k ≡ some r
        → get_elem? (release ∷ releases) k ≡ some n
        → IsManifestOf locals r n
    known zero r n gr gn =
        subst (λ x. IsManifestOf locals x n) (some_inj reference r gr)
          (subst (IsManifestOf locals reference) (some_inj release n gn) m)
    known (suc k) r n gr gn = s.known k r n gr gn

    older :
        (id : Text) (j : ℕ)
        → position_of text_eq id positions ≡ some j
        → position_of text_eq id ((reference.mod_id, index) ∷ positions) ≡ some j
    older id j e = elim (Bool-cases (text_eq id reference.mod_id)) [
      | inl here ↦
          let same = (text_eq_iff id reference.mod_id).0 here in
          let old = ap is_some (ap (λ x. position_of text_eq x positions) (sym same) ∙ e) in
          absurd (cc (old, fresh))
      | inr other ↦ rw other e
    ]

    places :
        (k v : ℕ) (r : ModReference)
        → v ≡ index + k
        → get_elem? (reference ∷ requested) k ≡ some r
        → position_of text_eq r.mod_id final ≡ some v
    places zero v r at g =
        let self = (text_eq_iff reference.mod_id reference.mod_id).1 refl in
        let here : index ≡ v = omega arith in
        subst (λ (x : ModReference). position_of text_eq x.mod_id final ≡ some v)
          (some_inj reference r g) (s.keeps reference.mod_id v (rw self (ap some here)))
    places (suc k) v r at g = s.places k v r (omega arith) g

pub select_from-Selected :
    (uuid : UuidLibrary) (locals : List LocalSource) (index : ℕ) (positions : Positions)
    (requested : List ModReference) (final : Positions) (releases : List Manifest)
    → select_from uuid locals index positions requested ≡ ok (final, releases)
    → Selected locals index positions requested final releases
unfolding select_from
select_from-Selected uuid locals index positions [] final releases h =
    subst (λ (out : Positions × List Manifest). Selected locals index positions [] out.0 out.1)
      (ok_inj (positions, []) (final, releases) h)
      (record {
        same_length = refl;
        known = λ k r m g. cc;
        placed = λ id j e. inl e;
        keeps = λ id j e. e;
        places = λ k v r at g. cc;
      })
select_from-Selected uuid locals index positions (reference ∷ requested) final releases h =
    let known = is_some (position_of text_eq reference.mod_id positions) in
    let later = (reference.mod_id, index) ∷ positions in
    let (u, distinct, h1) = >>=-eq-ok (ensure (not known) (one_version reference.mod_id)) _ h in
    let (release, found, h2) =
      >>=-eq-ok (map_err (unavailable reference.mod_id) (metadata uuid locals reference)) _ h1 in
    let (out, run, h3) = >>=-eq-ok (select_from uuid locals (suc index) later requested) _ h2 in
    subst
      (λ (o : Positions × List Manifest).
        Selected locals index positions (reference ∷ requested) o.0 o.1)
      (ok_inj (out.0, release ∷ out.1) (final, releases) h3)
      (Selected-cons locals index positions reference requested out.0 release out.1
        (ground (arith, ensure-eq-ok (not known) (one_version reference.mod_id) distinct))
        (metadata-IsManifestOf uuid locals reference release (
          map_err-eq-ok (unavailable reference.mod_id) (metadata uuid locals reference) release
            found))
        (select_from-Selected uuid locals (suc index) later requested out.0 out.1 run))
