-- ===== src/Ordering/Registry/Total.antt =====
-- The index expressions and loops of `resolve_registry`.
use starframe.Prelude.{
  ℕ, suc, ◌+◌, ◌≤◌, ◌<◌, ◌≡◌, refl, sym, ap, subst, ◌∙◌, not, some, List, [], ◌∷◌, length,
  get_elem?, get_elem?-lt, get_elem?_of_lt, leb, arith, inl, inr,
}
use starframe.Prelude.Outcome.{
  ensure, ok_or, or_panic, ok_or-eq-ok, IsPanicFree, >>=-IsPanicFree, ensure-IsPanicFree,
  ok_or-IsPanicFree, or_panic-IsPanicFree,
}
use starframe.Registry.Identity.{UuidLibrary, ExactReference}
use starframe.Registry.Dependency.{Dependency, mod_id, valid_dependencies}
use starframe.Ordering.Graph.{Edges, topological}
use starframe.Ordering.Graph.Relax.{AllBelow}
use starframe.Ordering.Graph.Order.{IsTopological-below, topological_of_acyclic}
use starframe.Ordering.Shared.{
  max_mods, position_of, no_edges, add_edge, pick, adjust_from, refuse_cycle, order_of,
}
use starframe.Ordering.Shared.Growth.{
  add_edge_lem, add_edge_total, no_edges-IsGraph, length-no_edges,
}
use starframe.Ordering.Shared.Picking.{order_of-IsOrder}
use starframe.Ordering.Shared.Total.{
  pick-IsPanicFree, refuse_cycle-IsPanicFree, adjust_from-IsPanicFree, AllBelow-of_elem,
}
use starframe.Ordering.Registry.{
  Entry, Positions, same_id, is_some, twice_enabled, not_installed, bad_metadata, missing_mod,
  other_release, select_from, require_all, edges_from, display_names, advice, selection_edges,
  adjustment, resolve_registry,
}
use starframe.Ordering.Registry.Selection.{
  entry_of, Selected, select_from-Selected, position_of-nil,
}
use starframe.Ordering.Registry.Requirements.{fits, require_all-Required, edges_from-Built}
use starframe.Ordering.Registry.Order.{
  too_many, selection_edges-IsSelection, edges-length, edges-IsGraph,
}

select_from-IsPanicFree :
    (uuid : UuidLibrary) (installed : List Entry) (index : ℕ) (positions : Positions)
    (requested : List ExactReference)
    → IsPanicFree (select_from uuid installed index positions requested)
unfolding select_from
select_from-IsPanicFree uuid installed index positions [] = tt
select_from-IsPanicFree uuid installed index positions (reference ∷ requested) =
    let later = (reference.mod_id, index) ∷ positions in
    >>=-IsPanicFree
      (ensure (not (is_some (position_of same_id reference.mod_id positions)))
        (twice_enabled reference.mod_id))
      _ (ensure-IsPanicFree _ _)
      λ _ _.
        >>=-IsPanicFree (ok_or (entry_of installed reference) (not_installed uuid reference)) _
          (ok_or-IsPanicFree _ _)
          λ entry _.
            >>=-IsPanicFree
              (ensure (valid_dependencies uuid.is_version4 reference.mod_id entry.dependencies)
                bad_metadata)
              _ (ensure-IsPanicFree _ _)
              λ _ _.
                >>=-IsPanicFree (select_from uuid installed (suc index) later requested) _
                  (select_from-IsPanicFree uuid installed (suc index) later requested) λ _ _. tt

module _ (positions : Positions) (selected : List Entry)
    (placed : (id j : ℕ) → position_of same_id id positions ≡ some j → j < length selected) where
  require_all-IsPanicFree :
      (index : ℕ) (entry : Entry) (dependencies : List Dependency) (edges : Edges)
      → length edges ≡ length selected
      → index < length edges
      → IsPanicFree (require_all positions selected index entry dependencies edges)
  unfolding require_all
  require_all-IsPanicFree index entry [] edges size l = tt
  require_all-IsPanicFree index entry (required ∷ dependencies) edges size l =
      >>=-IsPanicFree
        (ok_or (position_of same_id (mod_id required) positions) (missing_mod entry required)) _
        (ok_or-IsPanicFree _ _)
        λ provider found.
          let inside = placed (mod_id required) provider (
            ok_or-eq-ok (position_of same_id (mod_id required) positions)
              (missing_mod entry required) found) in
          let (candidate, chosen) = get_elem?_of_lt selected provider inside in
          let (next, run) = add_edge_total edges provider index (rw size inside) in
          >>=-IsPanicFree (or_panic (get_elem? selected provider)) _
            (or_panic-IsPanicFree (get_elem? selected provider) chosen)
            λ other _.
              >>=-IsPanicFree (ensure (fits required other) (other_release entry other)) _
                (ensure-IsPanicFree _ _)
                λ _ _.
                  >>=-IsPanicFree (add_edge edges provider index) _ (subst IsPanicFree (sym run) tt)
                    λ added made.
                      let grown = (add_edge_lem edges added provider index made l).grows.size in
                      require_all-IsPanicFree index entry dependencies added (grown ∙ size)
                        (rw grown l)

  edges_from-IsPanicFree :
      (index : ℕ) (entries : List Entry) (edges : Edges)
      → length edges ≡ length selected
      → index + length entries ≤ length edges
      → IsPanicFree (edges_from positions selected index entries edges)
  unfolding edges_from
  edges_from-IsPanicFree index [] edges size l = tt
  edges_from-IsPanicFree index (entry ∷ entries) edges size l =
      >>=-IsPanicFree (require_all positions selected index entry entry.dependencies edges) _
        (require_all-IsPanicFree index entry entry.dependencies edges size (omega arith))
        λ added made.
          let grown =
            (require_all-Required positions selected index entry entry.dependencies edges added made
              (omega arith)).grows.size in
          edges_from-IsPanicFree (suc index) entries added (grown ∙ size) (omega arith)

placed_inside :
    (installed : List Entry) (requested : List ExactReference) (positions : Positions)
    (selected : List Entry)
    → Selected installed 0 [] requested positions selected
    → (id j : ℕ) → position_of same_id id positions ≡ some j
    → j < length selected
placed_inside installed requested positions selected s id j e = elim (s.placed id j e) [
  | inl old ↦ absurd (position_of-nil id j old)
  | inr (k, r, at, g, named) ↦ omega (arith, get_elem?-lt requested k g, s.same_length)
]

length-display_names : (selected : List Entry) → length (display_names selected) ≡ length selected
length-display_names [] = refl
length-display_names (entry ∷ selected) = ap suc (length-display_names selected)

selection_edges-IsPanicFree :
    (uuid : UuidLibrary) (installed : List Entry) (requested : List ExactReference)
    → IsPanicFree (selection_edges uuid installed requested)
unfolding selection_edges
selection_edges-IsPanicFree uuid installed requested =
    let blank = no_edges (length requested) in
    >>=-IsPanicFree (ensure (leb (length requested) max_mods) too_many) _ (ensure-IsPanicFree _ _)
      λ _ _.
        >>=-IsPanicFree (select_from uuid installed 0 [] requested) _
          (select_from-IsPanicFree uuid installed 0 [] requested)
          λ (positions, selected) run.
            let s = select_from-Selected uuid installed 0 [] requested positions selected run in
            let size : length blank ≡ length selected =
              length-no_edges (length requested) ∙ sym s.same_length in
            >>=-IsPanicFree (edges_from positions selected 0 selected blank) _
              (edges_from-IsPanicFree positions selected
                (placed_inside installed requested positions selected s) 0 selected blank size
                (omega arith))
              λ edges made.
                let grows =
                  (edges_from-Built positions selected 0 selected blank edges made
                    (omega arith)).grows in
                >>=-IsPanicFree (refuse_cycle (display_names selected) advice edges) _
                  (refuse_cycle-IsPanicFree (display_names selected) advice edges
                    (grows.graph (no_edges-IsGraph (length requested)))
                    (length-display_names selected ∙ sym (grows.size ∙ size)))
                  λ _ _. tt

adjustment-IsPanicFree :
    (requested : List ExactReference) (selected : List Entry)
    → length selected ≡ length requested
    → (from to : ℕ) → from < length requested
    → to < length requested
    → IsPanicFree (adjustment requested selected from to)
unfolding adjustment
adjustment-IsPanicFree requested selected size from to lf lt =
    let (before, at_before) = get_elem?_of_lt requested from lf in
    let (after, at_after) = get_elem?_of_lt requested to lt in
    let (first, at_first) = get_elem?_of_lt selected from (omega arith) in
    let (second, at_second) = get_elem?_of_lt selected to (omega arith) in
    rw (at_before, at_after, at_first, at_second) tt

-- `resolve_registry` never panics: for any installed releases and any request it returns a
-- resolution or an error, so no index is out of range and the fuel of its loops does not run out.
pub resolve_registry-IsPanicFree :
    (uuid : UuidLibrary) (installed : List Entry) (requested : List ExactReference)
    → IsPanicFree (resolve_registry uuid installed requested)
unfolding resolve_registry order_of
resolve_registry-IsPanicFree uuid installed requested =
    >>=-IsPanicFree (selection_edges uuid installed requested) _
      (selection_edges-IsPanicFree uuid installed requested)
      λ (selected, edges) run.
        let s = selection_edges-IsSelection uuid installed requested selected edges run in
        let size = edges-length installed requested selected edges s in
        let graph = edges-IsGraph installed requested selected edges s in
        let (indices, ordered, o) = topological_of_acyclic edges graph s.acyclic in
        >>=-IsPanicFree (adjust_from (adjustment requested selected) 0 edges) _
          (adjust_from-IsPanicFree (adjustment requested selected) (length requested)
            (adjustment-IsPanicFree requested selected s.chosen.same_length) 0 edges
            (omega (arith, size)) λ u row e. subst (λ n. AllBelow n row) size (graph.below u row e))
          λ _ _.
            >>=-IsPanicFree (order_of edges) _ (or_panic-IsPanicFree (topological edges) ordered)
              λ found taken.
                let o' = order_of-IsOrder edges found graph s.acyclic taken in
                >>=-IsPanicFree (pick requested found) _
                  (pick-IsPanicFree requested found (
                    AllBelow-of_elem (length requested) found λ v m.
                      subst (λ n. v < n) size (IsTopological-below edges [] found v o'.ordered m)))
                  λ _ _. tt
