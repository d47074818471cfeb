-- ===== src/Ordering/Registry/Order.antt =====
-- The order of `resolve_registry`.
use mathlib.Core.List.{Perm}
use starframe.Prelude.{
  ℕ, ◌≤◌, ◌<◌, ◌≡◌, sym, ap, subst, ◌∙◌, inl, inr, true, none, some, some_inj, List, [], ◌∷◌, ◌++◌,
  Text, codes, length, get_elem?, get_elem?-lt, get_elem?_of_lt, elem, elem-append, All, All-map,
  In, In-append_left, In-snoc, leb, leb→le, Bool-cases, arith,
}
use starframe.Prelude.Outcome.{
  ok, ensure, or_panic, >>=-eq-ok, ensure-eq-ok, or_panic-eq-ok, ok_inj,
}
use starframe.Registry.Identity.{UuidLibrary, ExactReference}
use starframe.Registry.Dependency.{Dependency, mod_id}
use starframe.Ordering.Graph.{Edges, cycle}
use starframe.Ordering.Graph.Drain.{IsGraph, IsTopological}
use starframe.Ordering.Graph.Acyclic.{range_from}
use starframe.Ordering.Graph.Order.{IsOrder-perm}
use starframe.Ordering.Shared.{max_mods, no_edges, pick, adjust_from, refuse_cycle, order_of}
use starframe.Ordering.Shared.Growth.{no_edges-IsGraph, length-no_edges}
use starframe.Ordering.Shared.Picking.{refuse_cycle-acyclic, order_of-IsOrder, pick-perm}
use starframe.Ordering.Registry.{
  Entry, Positions, Resolution, select_from, edges_from, selection_edges, display_names, advice,
  adjustment, resolve_registry,
}
use starframe.Ordering.Registry.Selection.{
  entry_of, Selected, select_from-Selected, position_of-nil,
}
use starframe.Ordering.Registry.Placing.{Placed, select_from-Placed}
use starframe.Ordering.Registry.Requirements.{fits, IsMet, Built, edges_from-Built}

-- `r` meets the dependency: it is the mod that is named, in a release that matches.
pub record Meets (installed : List Entry) (required : Dependency) (r : ExactReference)
    : Type 0 where
  pub entry : Entry
  pub installed_as : entry_of installed r ≡ some entry
  pub named : r.mod_id ≡ mod_id required
  pub suits : fits required entry ≡ true

-- Each reference is installed, and stands behind references that meet its dependencies.
abbrev pub DependenciesFirst : List Entry → (seen order : List ExactReference) → Type 0
DependenciesFirst installed seen [] = Unit
DependenciesFirst installed seen (r ∷ order) =
    ((entry : Entry) × (entry_of installed r ≡ some entry)
      × All (λ required. (r' : ExactReference) × In r' seen × Meets installed required r')
          entry.dependencies)
    × DependenciesFirst installed (seen ++ r ∷ []) order

-- What a successful `selection_edges` establishes.
pub record IsSelection (installed : List Entry) (requested : List ExactReference)
    (selected : List Entry) (edges : Edges) : Type 0 where
  pub few : length requested ≤ max_mods
  pub positions : Positions
  pub chosen : Selected installed 0 [] requested positions selected
  pub placed : Placed 0 [] requested positions
  pub built : Built positions selected (no_edges (length requested)) edges 0 selected
  pub acyclic : cycle edges ≡ some none

abbrev pub too_many : Text
too_many = codes "Starframe supports at most 256 active mods."

pub selection_edges-IsSelection :
    (uuid : UuidLibrary) (installed : List Entry) (requested : List ExactReference)
    (selected : List Entry) (edges : Edges)
    → selection_edges uuid installed requested ≡ ok (selected, edges)
    → IsSelection installed requested selected edges
unfolding selection_edges
selection_edges-IsSelection uuid installed requested selected edges h =
    let (u, small, h1) = >>=-eq-ok (ensure (leb (length requested) max_mods) too_many) _ h in
    let ((positions, entries), run, h2) =
      >>=-eq-ok (select_from uuid installed 0 [] requested) _ h1 in
    let (graph, made, h3) =
      >>=-eq-ok (edges_from positions entries 0 entries (no_edges (length requested))) _ h2 in
    let (v, fine, h4) = >>=-eq-ok (refuse_cycle (display_names entries) advice graph) _ h3 in
    subst (λ (out : List Entry × Edges). IsSelection installed requested out.0 out.1)
      (ok_inj (entries, graph) (selected, edges) h4)
      (let s = select_from-Selected uuid installed 0 [] requested positions entries run in
        record {
          few =
              leb→le (length requested) max_mods
                (ensure-eq-ok (leb (length requested) max_mods) too_many small);
          positions = positions;
          chosen = s;
          placed = select_from-Placed uuid installed 0 [] requested positions entries run;
          built =
              edges_from-Built positions entries 0 entries (no_edges (length requested)) graph made
                (omega (arith, s.same_length, length-no_edges (length requested)));
          acyclic = refuse_cycle-acyclic (display_names entries) advice graph fine;
        })

module _ (installed : List Entry) (requested : List ExactReference) (selected : List Entry)
    (edges : Edges) (s : IsSelection installed requested selected edges) where
  pub edges-length : length edges ≡ length requested
  edges-length = s.built.grows.size ∙ length-no_edges (length requested)

  pub edges-IsGraph : IsGraph edges
  edges-IsGraph = s.built.grows.graph (no_edges-IsGraph (length requested))

  -- The references at the indices in `seen`.
  abbrev Covers : List ℕ → List ExactReference → Type 0
  Covers seen references =
      (j : ℕ) (r : ExactReference)
      → elem j seen ≡ true
      → get_elem? requested j ≡ some r
      → In r references

  Covers-snoc :
      (seen : List ℕ) (references : List ExactReference) (index : ℕ) (r : ExactReference)
      → get_elem? requested index ≡ some r
      → Covers seen references
      → Covers (seen ++ index ∷ []) (references ++ r ∷ [])
  Covers-snoc seen references index r at c j r' m g = elim (Bool-cases (elem j seen)) [
    | inl old ↦ In-append_left r' references (r ∷ []) (c j r' old g)
    | inr new ↦
        let here : j ≡ index = ground (arith, elem-append j seen (index ∷ [])) in
        In-snoc r' r references (some_inj r' r (sym g ∙ ap (get_elem? requested) here ∙ at))
  ]

  provider_before :
      (seen : List ℕ) (references : List ExactReference) (index : ℕ)
      → Covers seen references
      → ((u : ℕ) (row : List ℕ)
          → get_elem? edges u ≡ some row
          → elem index row ≡ true
          → elem u seen ≡ true)
      → (required : Dependency) → IsMet s.positions selected edges index required
      → (r' : ExactReference) × In r' references × Meets installed required r'
  provider_before seen references index c free required m =
      let (row, points, edge) = m.edge in
      elim (s.chosen.placed (mod_id required) m.provider m.found) [
        | inl old ↦ absurd (position_of-nil (mod_id required) m.provider old)
        | inr (k, r', at, g, named) ↦
            let same : k ≡ m.provider = omega arith in
            (
              r',
              c m.provider r' (free m.provider row points edge)
                  (ap (get_elem? requested) (sym same) ∙ g),
              record {
                entry = m.candidate;
                installed_as =
                    s.chosen.known k r' m.candidate g (ap (get_elem? selected) same ∙ m.chosen);
                named = named;
                suits = m.suits;
              },
            )
      ]

  -- The dependencies of the mod at `index` are met by references that stand before it.
  met_before :
      (seen : List ℕ) (references : List ExactReference) (index : ℕ) (r : ExactReference)
      → get_elem? requested index ≡ some r
      → Covers seen references
      → ((u : ℕ) (row : List ℕ)
          → get_elem? edges u ≡ some row
          → elem index row ≡ true
          → elem u seen ≡ true)
      → (entry : Entry) × (entry_of installed r ≡ some entry)
        × All
            (λ required. (r' : ExactReference) × In r' references × Meets installed required r')
            entry.dependencies
  met_before seen references index r at c free =
      let lt : index < length requested = get_elem?-lt requested index at in
      let (entry, chosen) = get_elem?_of_lt selected index (omega (arith, s.chosen.same_length)) in
      (
        entry,
        s.chosen.known index r entry at chosen,
        All-map (IsMet s.positions selected edges index) _
            (λ required m. provider_before seen references index c free required m)
            entry.dependencies (s.built.met index index entry (omega arith) chosen),
      )

  DependenciesFirst-pick :
      (indices seen : List ℕ) (references picked : List ExactReference)
      → IsTopological edges seen indices
      → pick requested indices ≡ ok picked
      → Covers seen references
      → DependenciesFirst installed references picked
  unfolding pick
  DependenciesFirst-pick [] seen references picked t h c =
      subst (DependenciesFirst installed references) (ok_inj [] picked h) tt
  DependenciesFirst-pick (index ∷ indices) seen references picked t h c =
      let (r, got, h1) = >>=-eq-ok (or_panic (get_elem? requested index)) _ h in
      let (rest, run, h2) = >>=-eq-ok (pick requested indices) _ h1 in
      let at = or_panic-eq-ok (get_elem? requested index) got in
      subst (DependenciesFirst installed references) (ok_inj (r ∷ rest) picked h2) (
        met_before seen references index r at c t.0.2,
        DependenciesFirst-pick indices (seen ++ index ∷ []) (references ++ r ∷ []) rest t.1 run
            (Covers-snoc seen references index r at c),
      )

-- What `resolve_registry` promises of its result.
pub record IsResolved (installed : List Entry) (requested : List ExactReference)
    (resolution : Resolution) : Type 0 where
  pub few : length requested ≤ max_mods
  pub same : Perm resolution.effective requested
  pub dependencies_first : DependenciesFirst installed [] resolution.effective

-- If `resolve_registry` succeeds, then at most 256 releases were requested, the effective order
-- is a permutation of the request, and each release in it is installed and has, for each of its
-- dependencies, an earlier release in the order that is of the mod named and that the dependency
-- matches.
pub resolve_registry-IsResolved :
    (uuid : UuidLibrary) (installed : List Entry) (requested : List ExactReference)
    (resolution : Resolution)
    → resolve_registry uuid installed requested ≡ ok resolution
    → IsResolved installed requested resolution
unfolding resolve_registry
resolve_registry-IsResolved uuid installed requested resolution h =
    let ((selected, edges), run, h1) = >>=-eq-ok (selection_edges uuid installed requested) _ h in
    let (adjustments, noted, h2) =
      >>=-eq-ok (adjust_from (adjustment requested selected) 0 edges) _ h1 in
    let (indices, ordered, h3) = >>=-eq-ok (order_of edges) _ h2 in
    let (effective, picked, h4) = >>=-eq-ok (pick requested indices) _ h3 in
    let s = selection_edges-IsSelection uuid installed requested selected edges run in
    let graph = edges-IsGraph installed requested selected edges s in
    let order = order_of-IsOrder edges indices graph s.acyclic ordered in
    let size = edges-length installed requested selected edges s in
    subst (IsResolved installed requested)
      (ok_inj (record { effective = effective; adjustments = adjustments }) resolution h4)
      (record {
        few = s.few;
        same =
            pick-perm requested indices effective
              (subst (λ n. Perm indices (range_from 0 n)) size (IsOrder-perm edges indices order))
              picked;
        dependencies_first =
            DependenciesFirst-pick installed requested selected edges s indices [] [] effective
              order.ordered picked (λ j r m g. cc);
      })
