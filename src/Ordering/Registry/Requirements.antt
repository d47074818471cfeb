-- ===== src/Ordering/Registry/Requirements.antt =====
-- The edges that `selection_edges` adds: one for each dependency, from the mod that meets it.
use starframe.Prelude.{
  ℕ, zero, suc, ◌+◌, ◌≤◌, ◌<◌, ◌≡◌, refl, sym, ap, subst, ◌∙◌, ◌⊎◌, inl, inr, Bool, true, some,
  some_inj, List, [], ◌∷◌, length, get_elem?, All, All-map, arith,
}
use starframe.Prelude.Outcome.{
  ok, ensure, ok_or, or_panic, >>=-eq-ok, ensure-eq-ok, or_panic-eq-ok, ok_or-eq-ok, ok_inj,
}
use starframe.Registry.Dependency.{Dependency, mod_id, matches}
use starframe.Ordering.Graph.{Edges}
use starframe.Ordering.Graph.Search.{HasEdge}
use starframe.Ordering.Shared.{position_of, add_edge}
use starframe.Ordering.Shared.Growth.{Grows, Grows-refl, Grows-trans, add_edge_lem}
use starframe.Ordering.Registry.{
  Entry, Positions, same_id, missing_mod, other_release, require_all, edges_from,
}

abbrev pub fits : Dependency → Entry → Bool
fits required candidate =
    matches required candidate.reference.mod_id candidate.reference.release_id
      candidate.version_label

module _ (positions : Positions) (selected : List Entry) where
  -- The dependency is met by a selected entry, from which an edge leads to `index`.
  pub record IsMet (edges : Edges) (index : ℕ) (required : Dependency) : Type 0 where
    pub provider : ℕ
    pub candidate : Entry
    pub found : position_of same_id (mod_id required) positions ≡ some provider
    pub chosen : get_elem? selected provider ≡ some candidate
    pub suits : fits required candidate ≡ true
    pub edge : HasEdge edges provider index

  -- An edge to `index` from the mod that a dependency names.
  abbrev pub IsAsked : ℕ → ℕ → List Dependency → Type 0
  IsAsked u v [] = ⊥
  IsAsked u v (required ∷ dependencies) =
      (position_of same_id (mod_id required) positions ≡ some u) ⊎ IsAsked u v dependencies

  pub IsMet-Grows :
      (edges edges' : Edges) (index : ℕ) (required : Dependency)
      → Grows edges edges'
      → IsMet edges index required
      → IsMet edges' index required
  IsMet-Grows edges edges' index required g m = record {
    provider = m.provider;
    candidate = m.candidate;
    found = m.found;
    chosen = m.chosen;
    suits = m.suits;
    edge = g.keeps m.provider index m.edge;
  }

  pub record Required (edges edges' : Edges) (index : ℕ) (dependencies : List Dependency)
      : Type 0 where
    pub grows : Grows edges edges'
    pub met : All (IsMet edges' index) dependencies
    pub only :
        (u v : ℕ)
        → HasEdge edges' u v
        → HasEdge edges u v ⊎ ((v ≡ index) × IsAsked u v dependencies)

  pub require_all-Required :
      (index : ℕ) (entry : Entry) (dependencies : List Dependency) (edges edges' : Edges)
      → require_all positions selected index entry dependencies edges ≡ ok edges'
      → index < length edges
      → Required edges edges' index dependencies
  unfolding require_all
  require_all-Required index entry [] edges edges' h l =
      subst (λ e. Required edges e index []) (ok_inj edges edges' h)
        (record { grows = Grows-refl edges; met = tt; only = λ u v e. inl e })
  require_all-Required index entry (required ∷ dependencies) edges edges' h l =
      let (provider, found, h1) =
        >>=-eq-ok
          (ok_or (position_of same_id (mod_id required) positions) (missing_mod entry required)) _
          h in
      let (candidate, chosen, h2) = >>=-eq-ok (or_panic (get_elem? selected provider)) _ h1 in
      let (u, suits, h3) =
        >>=-eq-ok (ensure (fits required candidate) (other_release entry candidate)) _ h2 in
      let (next, run, h4) = >>=-eq-ok (add_edge edges provider index) _ h3 in
      let added = add_edge_lem edges next provider index run l in
      let rest =
        require_all-Required index entry dependencies next edges' h4 (rw (added.grows.size) l) in
      let place =
        ok_or-eq-ok (position_of same_id (mod_id required) positions) (missing_mod entry required)
          found in
      record {
        grows = Grows-trans edges next edges' added.grows rest.grows;
        met = (
          record {
            provider = provider;
            candidate = candidate;
            found = place;
            chosen = or_panic-eq-ok (get_elem? selected provider) chosen;
            suits = ensure-eq-ok (fits required candidate) (other_release entry candidate) suits;
            edge = rest.grows.keeps provider index added.edge;
          },
          rest.met,
        );
        only = λ u v e. elim (rest.only u v e) [
          | inl old ↦ elim (added.only u v old) [
            | inl older ↦ inl older
            | inr (from, to) ↦ inr (to, inl (place ∙ ap some (sym from)))
          ]
          | inr (to, asked) ↦ inr (to, inr asked)
        ];
      }

  pub record Built (edges edges' : Edges) (index : ℕ) (entries : List Entry) : Type 0 where
    pub grows : Grows edges edges'
    pub met :
        (k v : ℕ) (entry : Entry)
        → v ≡ index + k
        → get_elem? entries k ≡ some entry
        → All (IsMet edges' v) entry.dependencies
    pub only :
        (u v : ℕ)
        → HasEdge edges' u v
        → HasEdge edges u v
          ⊎ ((k : ℕ) × (entry : Entry) × (v ≡ index + k)
              × (get_elem? entries k ≡ some entry)
              × IsAsked u v entry.dependencies)

  IsMet-cons :
      (index : ℕ) (first : Entry) (entries : List Entry) (edges : Edges)
      → All (IsMet edges index) first.dependencies
      → ((k v : ℕ) (entry : Entry)
          → v ≡ suc index + k
          → get_elem? entries k ≡ some entry
          → All (IsMet edges v) entry.dependencies)
      → (k v : ℕ) (entry : Entry) → v ≡ index + k
      → get_elem? (first ∷ entries) k ≡ some entry
      → All (IsMet edges v) entry.dependencies
  IsMet-cons index first entries edges here rest zero v entry e g =
      let at : index ≡ v = omega arith in
      subst (λ i. All (IsMet edges i) entry.dependencies) at
        (subst (λ (x : Entry). All (IsMet edges index) x.dependencies) (some_inj first entry g)
          here)
  IsMet-cons index first entries edges here rest (suc k) v entry e g =
      rest k v entry (omega arith) g

  pub edges_from-Built :
      (index : ℕ) (entries : List Entry) (edges edges' : Edges)
      → edges_from positions selected index entries edges ≡ ok edges'
      → index + length entries ≤ length edges
      → Built edges edges' index entries
  unfolding edges_from
  edges_from-Built index [] edges edges' h l =
      subst (λ e. Built edges e index []) (ok_inj edges edges' h)
        (record { grows = Grows-refl edges; met = λ k v entry e g. cc; only = λ u v e. inl e })
  edges_from-Built index (entry ∷ entries) edges edges' h l =
      let (next, run, h1) =
        >>=-eq-ok (require_all positions selected index entry entry.dependencies edges) _ h in
      let first =
        require_all-Required index entry entry.dependencies edges next run (omega arith) in
      let rest =
        edges_from-Built (suc index) entries next edges' h1 (omega (arith, first.grows.size)) in
      record {
        grows = Grows-trans edges next edges' first.grows rest.grows;
        met =
            IsMet-cons index entry entries edges'
              (All-map _ (IsMet edges' index) (λ d. IsMet-Grows next edges' index d rest.grows)
                entry.dependencies first.met)
              rest.met;
        only = λ u v e. elim (rest.only u v e) [
          | inl old ↦ elim (first.only u v old) [
            | inl older ↦ inl older
            | inr (to, asked) ↦ inr (0, entry, omega arith, refl, asked)
          ]
          | inr (k, other, at, g, asked) ↦ inr (suc k, other, omega arith, g, asked)
        ];
      }
