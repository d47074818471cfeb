-- ===== src/Ordering/Registry/Selection.antt =====
-- The two loops of `selection_edges`: what they establish when they succeed.
use starframe.Prelude.{
  ℕ, zero, suc, ◌+◌, ◌≡◌, refl, ap, subst, ◌∙◌, ◌⊎◌, inl, inr, not, Option, some, some_inj, List,
  [], ◌∷◌, length, get_elem?, Bool-cases, ◌==◌, arith,
}
use starframe.Prelude.Outcome.{ok, ensure, ok_or, >>=-eq-ok, ok_or-eq-ok, ok_inj}
use starframe.Registry.Identity.{UuidLibrary, ExactReference, exact_eq}
use starframe.Registry.Dependency.{valid_dependencies}
use starframe.Ordering.Shared.{position_of, find}
use starframe.Ordering.Registry.{
  Entry, Positions, same_id, is_some, twice_enabled, not_installed, bad_metadata, select_from,
}

-- The entry that `installed` holds for a reference.
abbrev pub entry_of : List Entry → ExactReference → Option Entry
entry_of installed reference =
    find (λ (entry : Entry). exact_eq entry.reference reference) installed

-- `selected` holds the entry of each reference, and `final` leads from IDs to their positions.
pub record Selected (installed : List Entry) (index : ℕ) (positions : Positions)
    (requested : List ExactReference) (final : Positions) (selected : List Entry) : Type 0 where
  pub same_length : length selected ≡ length requested
  pub known :
      (k : ℕ) (r : ExactReference) (e : Entry)
      → get_elem? requested k ≡ some r
      → get_elem? selected k ≡ some e
      → entry_of installed r ≡ some e
  pub placed :
      (id j : ℕ)
      → position_of same_id id final ≡ some j
      → (position_of same_id id positions ≡ some j)
        ⊎ ((k : ℕ) × (r : ExactReference) × (j ≡ index + k)
            × (get_elem? requested k ≡ some r)
            × (r.mod_id ≡ id))

module _ (uuid : UuidLibrary) (installed : List Entry) where
  known_cons :
      (reference : ExactReference) (requested : List ExactReference) (entry : Entry)
      (selected : List Entry)
      → entry_of installed reference ≡ some entry
      → ((k : ℕ) (r : ExactReference) (e : Entry)
          → get_elem? requested k ≡ some r
          → get_elem? selected k ≡ some e
          → entry_of installed r ≡ some e)
      → (k : ℕ) (r : ExactReference) (e : Entry) → get_elem? (reference ∷ requested) k ≡ some r
      → get_elem? (entry ∷ selected) k ≡ some e
      → entry_of installed r ≡ some e
  known_cons reference requested entry selected found h zero r e gr ge =
      subst (λ x. entry_of installed x ≡ some e) (some_inj reference r gr) (found ∙ ge)
  known_cons reference requested entry selected found h (suc k) r e gr ge = h k r e gr ge

  Selected-cons :
      (index : ℕ) (positions : Positions) (reference : ExactReference)
      (requested : List ExactReference) (final : Positions) (entry : Entry) (selected : List Entry)
      → entry_of installed reference ≡ some entry
      → Selected installed
          (suc index)
          ((reference.mod_id, index) ∷ positions)
          requested
          final
          selected
      → Selected installed index positions (reference ∷ requested) final (entry ∷ selected)
  unfolding position_of
  Selected-cons index positions reference requested final entry selected found s = record {
    same_length = ap suc s.same_length;
    known = known_cons reference requested entry selected found s.known;
    placed = λ id j e. elim (s.placed id j e) [
      | inl early ↦ elim (Bool-cases (id == reference.mod_id)) [
        | inl here ↦ inr (0, reference, ground arith, refl, ground arith)
        | inr other ↦ inl (ground arith)
      ]
      | inr (k, r, at, g, named) ↦ inr (suc k, r, omega arith, g, named)
    ];
  }

  pub select_from-Selected :
      (index : ℕ) (positions : Positions) (requested : List ExactReference) (final : Positions)
      (selected : List Entry)
      → select_from uuid installed index positions requested ≡ ok (final, selected)
      → Selected installed index positions requested final selected
  unfolding select_from
  select_from-Selected index positions [] final selected h =
      subst (λ (out : Positions × List Entry). Selected installed index positions [] out.0 out.1)
        (ok_inj (positions, []) (final, selected) h)
        (record { same_length = refl; known = λ k r e g. cc; placed = λ id j e. inl e })
  select_from-Selected index positions (reference ∷ requested) final selected h =
      let (u, fresh, h1) =
        >>=-eq-ok
          (ensure (not (is_some (position_of same_id reference.mod_id positions)))
            (twice_enabled reference.mod_id))
          _ h in
      let (entry, found, h2) =
        >>=-eq-ok (ok_or (entry_of installed reference) (not_installed uuid reference)) _ h1 in
      let (v, valid, h3) =
        >>=-eq-ok
          (ensure (valid_dependencies uuid.is_version4 reference.mod_id entry.dependencies)
            bad_metadata)
          _ h2 in
      let (out, run, h4) =
        >>=-eq-ok
          (select_from uuid installed (suc index) ((reference.mod_id, index) ∷ positions) requested)
          _ h3 in
      subst
        (λ (out : Positions × List Entry).
          Selected installed index positions (reference ∷ requested) out.0 out.1)
        (ok_inj (out.0, entry ∷ out.1) (final, selected) h4)
        (Selected-cons index positions reference requested out.0 entry out.1
          (ok_or-eq-ok (entry_of installed reference) (not_installed uuid reference) found)
          (select_from-Selected (suc index) ((reference.mod_id, index) ∷ positions) requested out.0
            out.1 run))

pub position_of-nil : (id j : ℕ) → ¬ (position_of same_id id [] ≡ some j)
unfolding position_of
position_of-nil id j h = cc
