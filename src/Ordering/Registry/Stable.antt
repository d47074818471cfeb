-- ===== src/Ordering/Registry/Stable.antt =====
-- `resolve_registry` on a request that is in order already.
use starframe.Prelude.{
  ℕ, zero, suc, ◌+◌, ◌<◌, ◌≡◌, sym, ap, subst, ◌∙◌, inl, inr, some, some_inj, List, [], ◌∷◌, ◌++◌,
  length, get_elem?, get_elem?-lt, get_elem?_of_lt, ap₂, In, In-snoc_cases, All, All-map, arith,
}
use starframe.Prelude.Outcome.{ok, or_panic-eq-ok, >>=-eq-ok, ok_inj}
use starframe.Registry.Identity.{UuidLibrary, ExactReference}
use starframe.Registry.Dependency.{Dependency, mod_id}
use starframe.Ordering.Graph.{Edges, topological}
use starframe.Ordering.Graph.Acyclic.{range_from}
use starframe.Ordering.Graph.Stable.{IsForward, topological_of_forward}
use starframe.Ordering.Shared.{position_of, pick, adjust_from, order_of}
use starframe.Ordering.Shared.Forward.{pick_range, adjust_from_forward}
use starframe.Ordering.Shared.Growth.{no_edges-HasEdge}
use starframe.Ordering.Registry.{
  Entry, Positions, Adjustment, Resolution, same_id, selection_edges, adjustment, resolve_registry,
}
use starframe.Ordering.Registry.Selection.{entry_of}
use starframe.Ordering.Registry.Requirements.{IsAsked}
use starframe.Ordering.Registry.Placing.{Placed}
use starframe.Ordering.Registry.Order.{
  DependenciesFirst, IsSelection, selection_edges-IsSelection, edges-length, edges-IsGraph,
}

module _ (installed : List Entry) (requested : List ExactReference) where
  -- The dependency names a mod whose reference stands before `index`.
  record IsEarlier (index : ℕ) (required : Dependency) : Type 0 where
    pub place : ℕ
    pub earlier : place < index
    pub reference : ExactReference
    pub found : get_elem? requested place ≡ some reference
    pub named : reference.mod_id ≡ mod_id required

  Stands : ℕ → ExactReference → Type 0
  Stands index r = (j : ℕ) × (j < index) × (get_elem? requested j ≡ some r)

  dependencies_before :
      (k index v : ℕ) (seen order : List ExactReference) (r : ExactReference)
      → DependenciesFirst installed seen order
      → ((r' : ExactReference) → In r' seen → Stands index r')
      → ((j w : ℕ) (r' : ExactReference)
          → w ≡ index + j
          → get_elem? order j ≡ some r'
          → get_elem? requested w ≡ some r')
      → v ≡ index + k
      → get_elem? order k ≡ some r
      → (entry : Entry) × (entry_of installed r ≡ some entry) × All (IsEarlier v) entry.dependencies
  unfolding Stands
  dependencies_before k index v seen [] r d before after at g = cc
  dependencies_before zero index v seen (first ∷ order) r d before after at g =
      let (entry, known, met) = d.0 in
      (
        entry,
        subst (λ x. entry_of installed x ≡ some entry) (some_inj first r g) known,
        All-map _ (IsEarlier v)
            (λ required (r', i, m).
              let (j, l, found) = before r' i in
              record {
                place = j;
                earlier = omega arith;
                reference = r';
                found = found;
                named = m.named;
              })
            entry.dependencies met,
      )
  dependencies_before (suc k) index v seen (first ∷ order) r d before after at g =
      dependencies_before k (suc index) v (seen ++ first ∷ []) order r d.1
        (λ r' i. elim (In-snoc_cases r' first seen i) [
          | inl old ↦ let (j, l, found) = before r' old in (j, omega arith, found)
          | inr here ↦ (index, omega arith, after 0 index r' (omega arith) (ap some (sym here)))
        ])
        (λ j w r' e. after (suc j) w r' (omega arith)) (omega arith) g

  module _ (positions : Positions) (selected : List Entry)
      (placed : Placed 0 [] requested positions) where
    asked_before :
        (u v index : ℕ) (dependencies : List Dependency)
        → All (IsEarlier index) dependencies
        → IsAsked positions selected u v dependencies
        → u < index
    asked_before u v index [] all asked = absurd asked
    asked_before u v index (required ∷ dependencies) all (inl at) =
        let e = all.0 in
        let there = placed.places e.place e.place e.reference (omega arith) e.found in
        let same =
          some_inj e.place u
            (sym there ∙ ap (λ id. position_of same_id id positions) e.named ∙ at) in
        omega (arith, e.earlier)
    asked_before u v index (required ∷ dependencies) all (inr rest) =
        asked_before u v index dependencies all.1 rest

  IsForward-edges :
      (selected : List Entry) (edges : Edges)
      → DependenciesFirst installed [] requested
      → IsSelection installed requested selected edges
      → IsForward edges
  IsForward-edges selected edges ordered s u v e = elim (s.built.only u v e) [
    | inl old ↦ absurd (no_edges-HasEdge (length requested) u v old)
    | inr (k, entry, at, chosen, asked) ↦
        let (r, g) =
          get_elem?_of_lt requested k
            (omega (arith, get_elem?-lt selected k chosen, s.chosen.same_length)) in
        let (other, known, before) =
          dependencies_before k 0 v [] requested r ordered (λ r' i. absurd i)
            (λ j w r' e f. ap (get_elem? requested) (omega arith) ∙ f) at g in
        let same = some_inj other entry (sym known ∙ s.chosen.known k r entry g chosen) in
        asked_before s.positions selected s.placed u v v entry.dependencies
          (subst (λ (x : Entry). All (IsEarlier v) x.dependencies) same before) asked
  ]

-- If `resolve_registry` succeeds on a request in which each release is installed and already
-- stands behind releases that meet its dependencies, it returns the request in its own order and
-- no adjustments.
pub resolve_registry_stable :
    (uuid : UuidLibrary) (installed : List Entry) (requested : List ExactReference)
    (resolution : Resolution)
    → DependenciesFirst installed [] requested
    → resolve_registry uuid installed requested ≡ ok resolution
    → resolution ≡ record { effective = requested; adjustments = [] }
unfolding resolve_registry order_of
resolve_registry_stable uuid installed requested resolution ordered h =
    let ((selected, edges), run, h1) = >>=-eq-ok (selection_edges uuid installed requested) _ h in
    let s = selection_edges-IsSelection uuid installed requested selected edges run in
    let forward = IsForward-edges installed requested selected edges ordered s in
    let (adjustments, noted, h2) =
      >>=-eq-ok (adjust_from (adjustment requested selected) 0 edges) _ h1 in
    let (indices, order, h3) = >>=-eq-ok (order_of edges) _ h2 in
    let (effective, picked, h4) = >>=-eq-ok (pick requested indices) _ h3 in
    let no_notes = ok_inj adjustments [] (
      sym noted
      ∙ adjust_from_forward (adjustment requested selected) 0 edges
          (λ u v w e edge. subst (λ x. x < w) (omega arith) (forward u w edge))) in
    let in_place = some_inj indices (range_from 0 (length edges)) (
      sym (or_panic-eq-ok (topological edges) order)
      ∙ topological_of_forward edges (edges-IsGraph installed requested selected edges s)
          forward) in
    let whole = in_place ∙ ap (range_from 0) (edges-length installed requested selected edges s) in
    let kept = ok_inj effective requested (
      sym picked
      ∙ ap (pick requested) whole
      ∙ pick_range requested 0 requested
          (λ k v x e f. ap (get_elem? requested) (omega arith) ∙ f)) in
    sym (ok_inj (record { effective = effective; adjustments = adjustments }) resolution h4)
    ∙ ap₂
        (λ (e : List ExactReference) (a : List Adjustment). record {
          effective = e;
          adjustments = a;
        })
        kept no_notes
