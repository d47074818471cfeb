-- ===== src/Ordering/Registry/Placing.antt =====
-- The positions that the first loop of `selection_edges` collects.
use starframe.Prelude.{
  ℕ, zero, suc, ◌+◌, ◌≡◌, sym, ap, subst, ◌∙◌, inl, inr, not, false, some, some_inj, List, [], ◌∷◌,
  get_elem?, arith, ◌==◌, Bool-cases,
}
use starframe.Prelude.Outcome.{ok, ensure, ok_or, ensure-eq-ok, >>=-eq-ok, ok_inj}
use starframe.Registry.Identity.{UuidLibrary, ExactReference}
use starframe.Registry.Dependency.{valid_dependencies}
use starframe.Ordering.Shared.{position_of}
use starframe.Ordering.Registry.{
  Entry, Positions, same_id, is_some, twice_enabled, not_installed, bad_metadata, select_from,
}
use starframe.Ordering.Registry.Selection.{entry_of}

-- The final positions keep what the loop began with, and hold each reference at its index.
pub record Placed (index : ℕ) (positions : Positions) (requested : List ExactReference)
    (final : Positions) : Type 0 where
  pub keeps :
      (id j : ℕ) → position_of same_id id positions ≡ some j → position_of same_id id final ≡ some j
  pub places :
      (k v : ℕ) (r : ExactReference)
      → v ≡ index + k
      → get_elem? requested k ≡ some r
      → position_of same_id r.mod_id final ≡ some v

Placed-cons :
    (index : ℕ) (positions : Positions) (reference : ExactReference)
    (requested : List ExactReference) (final : Positions)
    → is_some (position_of same_id reference.mod_id positions) ≡ false
    → Placed (suc index) ((reference.mod_id, index) ∷ positions) requested final
    → Placed index positions (reference ∷ requested) final
unfolding position_of
Placed-cons index positions reference requested final fresh p = record {
  keeps = λ id j e. p.keeps id j (older id j e);
  places = places;
}
  where
    older :
        (id j : ℕ)
        → position_of same_id id positions ≡ some j
        → position_of same_id id ((reference.mod_id, index) ∷ positions) ≡ some j
    older id j e = elim (Bool-cases (id == reference.mod_id)) [
      | inl here ↦
          let same : id ≡ reference.mod_id = ground arith in
          let old = ap is_some (ap (λ x. position_of same_id x positions) (sym same) ∙ e) in
          absurd (cc (old, fresh))
      | inr other ↦ rw other e
    ]

    places :
        (k v : ℕ) (r : ExactReference)
        → v ≡ index + k
        → get_elem? (reference ∷ requested) k ≡ some r
        → position_of same_id r.mod_id final ≡ some v
    places zero v r at g =
        let same = some_inj reference r g in
        subst (λ (x : ExactReference). position_of same_id x.mod_id final ≡ some v) same
          (p.keeps reference.mod_id v (ground arith))
    places (suc k) v r at g = p.places k v r (omega arith) g

pub select_from-Placed :
    (uuid : UuidLibrary) (installed : List Entry) (index : ℕ) (positions : Positions)
    (requested : List ExactReference) (final : Positions) (selected : List Entry)
    → select_from uuid installed index positions requested ≡ ok (final, selected)
    → Placed index positions requested final
unfolding select_from
select_from-Placed uuid installed index positions [] final selected h =
    let same =
      ap (λ (out : Positions × List Entry). out.0) (ok_inj (positions, []) (final, selected) h) in
    subst (Placed index positions []) same
      (record { keeps = λ id j e. e; places = λ k v r at g. cc })
select_from-Placed uuid installed index positions (reference ∷ requested) final selected h =
    let fresh = is_some (position_of same_id reference.mod_id positions) in
    let (u, distinct, h1) = >>=-eq-ok (ensure (not fresh) (twice_enabled reference.mod_id)) _ h in
    let (entry, found, h2) =
      >>=-eq-ok (ok_or (entry_of installed reference) (not_installed uuid reference)) _ h1 in
    let (v, valid, h3) =
      >>=-eq-ok
        (ensure (valid_dependencies uuid.is_version4 reference.mod_id entry.dependencies)
          bad_metadata)
        _ h2 in
    let (out, run, h4) =
      >>=-eq-ok
        (select_from uuid installed (suc index) ((reference.mod_id, index) ∷ positions) requested) _
        h3 in
    let same =
      ap (λ (o : Positions × List Entry). o.0)
        (ok_inj (out.0, entry ∷ out.1) (final, selected) h4) in
    subst (Placed index positions (reference ∷ requested)) same (
      Placed-cons index positions reference requested out.0
        (ground (arith, ensure-eq-ok (not fresh) (twice_enabled reference.mod_id) distinct))
        (select_from-Placed uuid installed (suc index) ((reference.mod_id, index) ∷ positions)
          requested out.0 out.1 run))
