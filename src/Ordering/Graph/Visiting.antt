-- ===== src/Ordering/Graph/Visiting.antt =====
-- What one call of `visit` does, by induction on its fuel.
use starframe.Prelude.{
  ℕ, zero, suc, ◌≤◌, ◌<◌, ◌≡◌, refl, ◌∙◌, ap, ◌⊎◌, true, some, List, [], ◌∷◌, ◌++◌, length,
  get_elem?, get_elem?_of_lt, set, length-set, elem, elem-append, elem-snoc_self, arith, ◌==◌, inl,
  inr, if◌then◌else◌,
}
use starframe.Ordering.Graph.{
  Edges, Visit, found, clean, stuck, from_index, pop, and_then, visit_targets, leave, enter,
  close_cycle, visit,
}
use starframe.Ordering.Graph.Relax.{AllBelow, count_at, count_at-set, count_at_of}
use starframe.Ordering.Graph.Drain.{IsGraph}
use starframe.Ordering.Graph.Search.{
  IsWalk, IsWalk-snoc, from_index_lem, pop-snoc, unvisited, unvisited-set, Inv, Ends,
}

-- From a state that another call left.
Ends-weaken :
    (edges : Edges) (states states' path finished finished' wanted more : List ℕ) (r : Visit)
    → ((v : ℕ) → elem v finished ≡ true → elem v finished' ≡ true)
    → ((v : ℕ) → elem v wanted ≡ true → elem v finished' ≡ true)
    → unvisited (length edges) states' ≤ unvisited (length edges) states
    → Ends edges states' path finished' more r
    → Ends edges states path finished (wanted ++ more) r
Ends-weaken edges states states' path finished finished' wanted more (found result) f w u e = e
Ends-weaken edges states states' path finished finished' wanted more (clean s p) f w u e =
    let (same, last, inv, grows, has, fewer) = e in
    (
      same,
      last,
      inv,
      λ v m. grows v (f v m),
      λ v m. ground (arith, elem-append v wanted more, w v, grows v, has v),
      omega arith,
    )
Ends-weaken edges states states' path finished finished' wanted more stuck f w u e = e

pub and_then-Ends :
    (edges : Edges) (states path finished wanted more : List ℕ) (r : Visit)
    (next : List ℕ → List ℕ → Visit)
    → Ends edges states path finished wanted r
    → ((states' finished' : List ℕ)
        → Inv edges states' path finished'
        → unvisited (length edges) states' ≤ unvisited (length edges) states
        → Ends edges states' path finished' more (next states' path))
    → Ends edges states path finished (wanted ++ more) (and_then r next)
unfolding and_then
and_then-Ends edges states path finished wanted more (found result) next e k = e
and_then-Ends edges states path finished wanted more (clean s p) next e k =
    let (same, last, inv, grows, has, fewer) = e in
    rw same (
      Ends-weaken edges states s path finished last wanted more (next s path) grows has fewer
        (k s last inv fewer))
and_then-Ends edges states path finished wanted more stuck next e k = e

module _ (edges : Edges) (path : List ℕ) (bound : ℕ) (explore : ℕ → List ℕ → List ℕ → Visit)
    (step : (index : ℕ) (states finished : List ℕ)
      → Inv edges states path finished
      → IsWalk edges (path ++ index ∷ [])
      → index < length edges
      → unvisited (length edges) states < bound
      → Ends edges states path finished (index ∷ []) (explore index states path)) where
  visit_targets-Ends :
      (targets states finished : List ℕ)
      → AllBelow (length edges) targets
      → ((w : ℕ) → elem w targets ≡ true → IsWalk edges (path ++ w ∷ []))
      → Inv edges states path finished
      → unvisited (length edges) states < bound
      → Ends edges states path finished targets (visit_targets explore targets states path)
  unfolding visit_targets
  visit_targets-Ends [] states finished below walks inv h =
      (refl, finished, inv, λ v m. m, λ v m. cc, omega arith)
  visit_targets-Ends (next ∷ targets) states finished below walks inv h =
      and_then-Ends edges states path finished (next ∷ []) targets (explore next states path)
        (visit_targets explore targets)
        (step next states finished inv (walks next (ground arith)) below.0 h)
        λ states' finished' inv' fewer.
          visit_targets-Ends targets states' finished' below.1 (λ w m. walks w (ground arith)) inv'
            (omega arith)

module _ (edges : Edges) (states path finished : List ℕ) (index : ℕ)
    (inv : Inv edges states path finished) (lt : index < length edges)
    (fresh : count_at states index ≡ 0) where
  marked :
      (state v : ℕ)
      → count_at (set states index state) v ≡ (if index == v then state else count_at states v)
  marked state v = count_at-set states index state v (omega (arith, inv.size))

  enter-Inv : Inv edges (set states index 1) (path ++ index ∷ []) finished
  enter-Inv = record {
    size = length-set states index 1 ∙ inv.size;
    range = λ v. ground (arith, marked 1 v, inv.range v);
    open_on_path =
        λ v h. ground (arith, marked 1 v, inv.open_on_path v, elem-append v path (index ∷ []));
    path_open = λ v h. ground (arith, marked 1 v, inv.path_open v, elem-append v path (index ∷ []));
    done_finished = λ v h. ground (arith, marked 1 v, inv.done_finished v);
    finished_done = λ v h. ground (arith, marked 1 v, inv.finished_done v);
    closed = inv.closed;
  }

  leave-Inv :
      (targets states' finished' : List ℕ)
      → get_elem? edges index ≡ some targets
      → Inv edges states' (path ++ index ∷ []) finished'
      → ((v : ℕ) → elem v targets ≡ true → elem v finished' ≡ true)
      → Inv edges (set states' index 2) path (index ∷ finished')
  leave-Inv targets states' finished' row inv' has = record {
    size = length-set states' index 2 ∙ inv'.size;
    range = λ v. ground (arith, marked' v, inv'.range v);
    open_on_path =
        λ v h. ground (arith, marked' v, inv'.open_on_path v, elem-append v path (index ∷ []));
    path_open = λ v h.
        ground
          (arith, marked' v, inv'.path_open v, inv.path_open v, elem-append v path (index ∷ []));
    done_finished = λ v h. ground (arith, marked' v, inv'.done_finished v);
    finished_done = λ v h. ground (arith, marked' v, inv'.finished_done v);
    closed = (
      ground (arith, inv'.path_open index (elem-snoc_self index path), inv'.finished_done index),
      λ w (other, r, m). ground (arith, has w),
      inv'.closed,
    );
  }
    where
      marked' :
          (v : ℕ)
          → count_at (set states' index 2) v ≡ (if index == v then 2 else count_at states' v)
      marked' v = count_at-set states' index 2 v (omega (arith, inv'.size))

  leave-Ends :
      (targets : List ℕ) (r : Visit)
      → get_elem? edges index ≡ some targets
      → Ends edges (set states index 1) (path ++ index ∷ []) finished targets r
      → Ends edges states path finished (index ∷ []) (leave index r)
  unfolding leave
  leave-Ends targets (found result) row e = e
  leave-Ends targets (clean s p) row e =
      let (same, last, inv', grows, has, fewer) = e in
      (
        ap pop same ∙ pop-snoc path index,
        index ∷ last,
        leave-Inv targets s last row inv' has,
        λ v m. ground (arith, grows v m),
        λ v m. ground arith,
        omega (
          arith,
          unvisited-set (length edges) index 2 s (omega (arith, inv'.size)) lt (omega arith),
          unvisited-set (length edges) index 1 states (omega (arith, inv.size)) lt (omega arith),
        ),
      )
  leave-Ends targets stuck row e = e

close-Ends :
    (edges : Edges) (states path finished : List ℕ) (index : ℕ)
    → elem index path ≡ true
    → IsWalk edges (path ++ index ∷ [])
    → Ends edges states path finished (index ∷ []) (close_cycle index (from_index index path))
unfolding close_cycle
close-Ends edges states path finished index m walk =
    let (middle, run, back) = from_index_lem edges index path m walk in
    rw run (record { first = index; middle = middle; shape = refl; walk = back })

-- The three ways through `visit`, by the state of its index.
module _ (fuel : ℕ) (edges : Edges) (index : ℕ) (states path : List ℕ) where
  visit-done :
      get_elem? states index ≡ some 2 → visit (suc fuel) edges index states path ≡ clean states path
  unfolding visit
  visit-done e = ground arith

  visit-active :
      get_elem? states index ≡ some 1
      → visit (suc fuel) edges index states path ≡ close_cycle index (from_index index path)
  unfolding visit
  visit-active e = ground arith

  visit-new :
      (targets : List ℕ)
      → get_elem? states index ≡ some 0
      → get_elem? edges index ≡ some targets
      → visit (suc fuel) edges index states path
        ≡ leave index
            (visit_targets (visit fuel edges) targets (set states index 1) (path ++ index ∷ []))
  unfolding visit enter
  visit-new targets e row = ground arith

state-cases : (state : ℕ) → state ≤ 2 → (state ≡ 2) ⊎ (state ≡ 1) ⊎ (state ≡ 0)
state-cases state h = omega arith

module _ (edges : Edges) (graph : IsGraph edges) where
  pub visit-Ends :
      (fuel : ℕ) (path : List ℕ) (index : ℕ) (states finished : List ℕ)
      → Inv edges states path finished
      → IsWalk edges (path ++ index ∷ [])
      → index < length edges
      → unvisited (length edges) states < fuel
      → Ends edges states path finished (index ∷ []) (visit fuel edges index states path)
  visit-Ends zero path index states finished inv walk lt h = elim h [ ]
  visit-Ends (suc fuel) path index states finished inv walk lt h =
      let (state, e) = get_elem?_of_lt states index (omega (arith, inv.size)) in
      let known = count_at_of states index e in
      let (targets, row) = get_elem?_of_lt edges index lt in
      elim (state-cases state (omega (arith, inv.range index))) [
        | inl done ↦ rw (visit-done fuel edges index states path (e ∙ ap some done)) (
          refl,
          finished,
          inv,
          λ v m. m,
          λ v m. ground (arith, inv.done_finished index),
          omega arith,
        )
        | inr (inl active) ↦ rw (visit-active fuel edges index states path (e ∙ ap some active)) (
            close-Ends edges states path finished index (inv.open_on_path index (known ∙ active))
              walk)
        | inr (inr new) ↦
            rw (visit-new fuel edges index states path targets (e ∙ ap some new) row) (
              leave-Ends edges states path finished index inv lt (known ∙ new) targets _ row (
                visit_targets-Ends edges (path ++ index ∷ []) fuel (visit fuel edges)
                  (λ next s f. visit-Ends fuel (path ++ index ∷ []) next s f) targets
                  (set states index 1) finished (graph.below index targets row)
                  (λ w m. IsWalk-snoc edges path index w walk (targets, row, m))
                  (enter-Inv edges states path finished index inv lt (known ∙ new))
                  (ground (
                    arith,
                    known,
                    unvisited-set (length edges) index 1 states (omega (arith, inv.size)) lt
                        (omega arith),
                  ))))
      ]
