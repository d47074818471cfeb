-- ===== src/Ordering/Locals/Ending.antt =====
-- The index expressions and loops of `resolve_locals`, with its preferences.
use starframe.Prelude.{
  ℕ, zero, suc, ◌+◌, ◌≤◌, ◌<◌, ◌≡◌, refl, subst, ◌∙◌, inl, inr, true, false, Bool, some, some_inj,
  List, [], ◌∷◌, Text, text_eq, text_eq_iff, length, get_elem?, get_elem?-lt, get_elem?_of_lt, ltb,
  arith, Option-cases, Bool-cases,
}
use starframe.Prelude.Outcome.{IsPanicFree, >>=-IsPanicFree, or_panic-IsPanicFree}
use starframe.Registry.Identity.{UuidLibrary}
use starframe.References.{ModReference}
use starframe.Ordering.Graph.{topological}
use starframe.Ordering.Graph.Relax.{AllBelow}
use starframe.Ordering.Graph.Order.{IsTopological-below, topological_of_acyclic}
use starframe.Ordering.Shared.{position_of, pick, adjust_from, must_precede, order_of}
use starframe.Ordering.Shared.Growth.{no_edges-IsGraph, length-no_edges}
use starframe.Ordering.Shared.Picking.{order_of-IsOrder}
use starframe.Ordering.Shared.Total.{pick-IsPanicFree, adjust_from-IsPanicFree, AllBelow-of_elem}
use starframe.Ordering.Shared.Before.{place_of_elem, pick_at}
use starframe.Ordering.Locals.{
  Manifest, LocalSource, Adjustment, Positions, ordered, selection_edges,
}
use starframe.Ordering.Locals.Order.{selection_edges-IsSelection, bounded_by}
use starframe.Ordering.Locals.Total.{selection_edges-IsPanicFree, length-map}
use starframe.Ordering.Locals.Preferences.{
  effective_positions, adjustment, must_adjust, prefers, place_in_effect, prefer_edge, prefer,
  prefer_all, preferences, names_of, resolve_locals,
}

abbrev IsKnown : Text → Positions → Type 0
IsKnown id positions = (j : ℕ) × (position_of text_eq id positions ≡ some j)

IsKnown-cons :
    (id key : Text) (index : ℕ) (positions : Positions)
    → IsKnown id positions
    → IsKnown id ((key, index) ∷ positions)
unfolding position_of
IsKnown-cons id key index positions (j, e) = elim (Bool-cases (text_eq id key)) [
  | inl here ↦ (index, rw here refl)
  | inr other ↦ (j, rw other e)
]

IsKnown-kept :
    (id : Text) (index : ℕ) (positions : Positions) (effective : List ModReference)
    → IsKnown id positions
    → IsKnown id (effective_positions index positions effective)
unfolding effective_positions
IsKnown-kept id index positions [] k = k
IsKnown-kept id index positions (r ∷ effective) k =
    IsKnown-kept id (suc index) ((r.mod_id, index) ∷ positions) effective
      (IsKnown-cons id r.mod_id index positions k)

IsKnown-effective :
    (index i : ℕ) (positions : Positions) (effective : List ModReference) (r : ModReference)
    → get_elem? effective i ≡ some r
    → IsKnown r.mod_id (effective_positions index positions effective)
unfolding effective_positions position_of
IsKnown-effective index i positions [] r g = cc
IsKnown-effective index zero positions (x ∷ effective) r g =
    let self = (text_eq_iff x.mod_id x.mod_id).1 refl in
    subst
      (λ (y : ModReference).
        IsKnown y.mod_id
          (effective_positions (suc index) ((x.mod_id, index) ∷ positions) effective))
      (some_inj x r g)
      (IsKnown-kept x.mod_id (suc index) ((x.mod_id, index) ∷ positions) effective
        (index, rw self refl))
IsKnown-effective index (suc i) positions (x ∷ effective) r g =
    IsKnown-effective (suc index) i ((x.mod_id, index) ∷ positions) effective r g

adjustment-IsPanicFree :
    (requested : List ModReference) (from to : ℕ) (message : Text)
    → from < length requested
    → to < length requested
    → IsPanicFree (adjustment requested from to message)
unfolding adjustment
adjustment-IsPanicFree requested from to message lf lt =
    let (before, at_before) = get_elem?_of_lt requested from lf in
    let (after, at_after) = get_elem?_of_lt requested to lt in rw (at_before, at_after) tt

must_adjust-IsPanicFree :
    (requested : List ModReference) (names : List Text)
    → length names ≡ length requested
    → (from to : ℕ) → from < length requested
    → to < length requested
    → IsPanicFree (must_adjust requested names from to)
must_adjust-IsPanicFree requested names size from to lf lt =
    let (before, at_before) = get_elem?_of_lt names from (omega arith) in
    let (after, at_after) = get_elem?_of_lt names to (omega arith) in
    rw (at_before, at_after)
      (adjustment-IsPanicFree requested from to (must_precede before after) lf lt)

module _ (requested : List ModReference) (positions : Positions) (names : List Text)
    (places : Positions)
    (bounded : (id : Text) (j : ℕ)
      → position_of text_eq id positions ≡ some j
      → j < length requested)
    (size : length names ≡ length requested)
    (known : (u : ℕ) (r : ModReference)
      → get_elem? requested u ≡ some r
      → IsKnown r.mod_id places) where
  place_in_effect-IsPanicFree :
      (index : ℕ)
      → index < length requested
      → IsPanicFree (place_in_effect requested positions names places index)
  unfolding place_in_effect
  place_in_effect-IsPanicFree index l =
      let (r, g) = get_elem?_of_lt requested index l in
      let (j, e) = known index r g in
      rw (g) (or_panic-IsPanicFree (position_of text_eq r.mod_id places) e)

  prefer_edge-IsPanicFree :
      (from to : ℕ) (adjustments : List Adjustment)
      → from < length requested
      → to < length requested
      → IsPanicFree (prefer_edge requested positions names places (from, to) adjustments)
  unfolding prefer_edge
  prefer_edge-IsPanicFree from to adjustments lf lt =
      let (before, at_before) = get_elem?_of_lt names from (omega arith) in
      let (after, at_after) = get_elem?_of_lt names to (omega arith) in
      >>=-IsPanicFree (place_in_effect requested positions names places from) _
        (place_in_effect-IsPanicFree from lf)
        λ place_from _.
          >>=-IsPanicFree (place_in_effect requested positions names places to) _
            (place_in_effect-IsPanicFree to lt)
            λ place_to _. elim (Bool-cases (ltb place_to place_from)) [
              | inl later ↦
                  rw (later, at_before, at_after)
                    (>>=-IsPanicFree (adjustment requested from to (prefers before after)) _
                      (adjustment-IsPanicFree requested from to (prefers before after) lf lt)
                      λ note _. tt)
              | inr earlier ↦ rw earlier tt
            ]

  prefer-IsPanicFree :
      (before : Bool) (index : ℕ) (target : Text) (adjustments : List Adjustment)
      → index < length requested
      → IsPanicFree (prefer requested positions names places before index target adjustments)
  unfolding prefer
  prefer-IsPanicFree before index target adjustments l =
      elim (Option-cases (position_of text_eq target positions)) [
        | inl e ↦ rw (e, prefer) tt
        | inr (other, e) ↦ rw (e, prefer) (total before other (bounded target other e))
      ]
    where
      total :
          (before : Bool) (other : ℕ)
          → other < length requested
          → IsPanicFree (
              prefer_edge requested positions names places
                (ordered requested positions before index other)
                adjustments)
      total true other i = prefer_edge-IsPanicFree index other adjustments l i
      total false other i = prefer_edge-IsPanicFree other index adjustments i l

  prefer_all-IsPanicFree :
      (before : Bool) (index : ℕ) (targets : List Text) (adjustments : List Adjustment)
      → index < length requested
      → IsPanicFree (prefer_all requested positions names places before index targets adjustments)
  unfolding prefer_all
  prefer_all-IsPanicFree before index [] adjustments l = tt
  prefer_all-IsPanicFree before index (target ∷ targets) adjustments l =
      >>=-IsPanicFree (prefer requested positions names places before index target adjustments) _
        (prefer-IsPanicFree before index target adjustments l)
        λ noted _. prefer_all-IsPanicFree before index targets noted l

  preferences-IsPanicFree :
      (index : ℕ) (releases : List Manifest) (adjustments : List Adjustment)
      → index + length releases ≤ length requested
      → IsPanicFree (preferences requested positions names places index releases adjustments)
  unfolding preferences
  preferences-IsPanicFree index [] adjustments l = tt
  preferences-IsPanicFree index (release ∷ releases) adjustments l =
      >>=-IsPanicFree
        (prefer_all requested positions names places true index release.prefer_before adjustments) _
        (prefer_all-IsPanicFree true index release.prefer_before adjustments (omega arith))
        λ before _.
          >>=-IsPanicFree
            (prefer_all requested positions names places false index release.prefer_after before) _
            (prefer_all-IsPanicFree false index release.prefer_after before (omega arith))
            λ after _. preferences-IsPanicFree (suc index) releases after (omega arith)

-- `resolve_locals` never panics: for any imported builds and any request it returns a resolution
-- or an error, so no index is out of range, each position that is looked up in the effective
-- order is there, and the fuel of its loops does not run out.
pub resolve_locals-IsPanicFree :
    (uuid : UuidLibrary) (locals : List LocalSource) (requested : List ModReference)
    → IsPanicFree (resolve_locals uuid locals requested)
unfolding resolve_locals order_of
resolve_locals-IsPanicFree uuid locals requested =
    >>=-IsPanicFree (selection_edges uuid locals requested) _
      (selection_edges-IsPanicFree uuid locals requested)
      λ (positions, releases, edges) run.
        let s = selection_edges-IsSelection uuid locals requested positions releases edges run in
        let graph = s.built.grows.graph (no_edges-IsGraph (length requested)) in
        let size : length edges ≡ length requested =
          s.built.grows.size ∙ length-no_edges (length requested) in
        let names = names_of releases in
        let named : length names ≡ length requested =
          length-map (λ (m : Manifest). m.name) releases ∙ s.chosen.same_length in
        let (indices, sorted, o) = topological_of_acyclic edges graph s.acyclic in
        >>=-IsPanicFree (adjust_from (must_adjust requested names) 0 edges) _
          (adjust_from-IsPanicFree (must_adjust requested names) (length requested)
            (must_adjust-IsPanicFree requested names named) 0 edges (omega (arith, size))
            λ u row e. subst (λ n. AllBelow n row) size (graph.below u row e))
          λ required _.
            >>=-IsPanicFree (order_of edges) _ (or_panic-IsPanicFree (topological edges) sorted)
              λ found taken.
                let o' = order_of-IsOrder edges found graph s.acyclic taken in
                >>=-IsPanicFree (pick requested found) _
                  (pick-IsPanicFree requested found (
                    AllBelow-of_elem (length requested) found λ v m.
                      subst (λ n. v < n) size (IsTopological-below edges [] found v o'.ordered m)))
                  λ effective picked.
                    >>=-IsPanicFree
                      (preferences requested positions names (effective_positions 0 [] effective) 0
                        releases required)
                      _
                      (preferences-IsPanicFree requested positions names
                        (effective_positions 0 [] effective)
                        (bounded_by locals requested positions releases s.chosen) named
                        (λ u r g.
                          let (i, l, at) =
                            place_of_elem u found
                              (o'.covers u (omega (arith, get_elem?-lt requested u g, size))) in
                          IsKnown-effective 0 i [] effective r
                            (pick_at requested found effective i u r picked at g))
                        0 releases required (omega (arith, s.chosen.same_length)))
                      λ _ _. tt
