-- ===== src/Ordering/Shared/Total.antt =====
-- The index expressions and loops of the shared steps of the resolvers.
use starframe.Prelude.{
  elem, true, ℕ, suc, ◌+◌, ◌<◌, ◌≡◌, refl, sym, subst, some, List, [], ◌∷◌, ◌++◌, Text, length,
  get_elem?, get_elem?-lt, get_elem?_of_lt, ltb, arith, inl, inr, Bool-cases,
}
use starframe.Prelude.Outcome.{
  Outcome, or_panic, IsPanicFree, >>=-IsPanicFree, or_panic-IsPanicFree,
}
use starframe.Ordering.Graph.{Edges}
use starframe.Ordering.Graph.Relax.{AllBelow}
use starframe.Ordering.Graph.Drain.{IsGraph}
use starframe.Ordering.Graph.Search.{IsWalk, IsCycle}
use starframe.Ordering.Graph.Acyclic.{cycle_decides}
use starframe.Ordering.Shared.{pick, adjust_row, adjust_from, report_cycle, refuse_cycle}

pub pick-IsPanicFree :
    {A : Type 0} (items : List A) (indices : List ℕ)
    → AllBelow (length items) indices
    → IsPanicFree (pick items indices)
unfolding pick
pick-IsPanicFree items [] b = tt
pick-IsPanicFree items (index ∷ indices) b =
    let (item, found) = get_elem?_of_lt items index b.0 in
    >>=-IsPanicFree (or_panic (get_elem? items index)) _
      (or_panic-IsPanicFree (get_elem? items index) found)
      λ x _.
        >>=-IsPanicFree (pick items indices) _ (pick-IsPanicFree items indices b.1) λ rest _. tt

-- A walk begins each of its steps at an index of the graph.
walk_below :
    (edges : Edges) (path : List ℕ) (v : ℕ)
    → v < length edges
    → IsWalk edges (path ++ v ∷ [])
    → AllBelow (length edges) (path ++ v ∷ [])
walk_below edges [] v l w = (l, tt)
walk_below edges (u ∷ []) v l w = (get_elem?-lt edges u w.0.1, walk_below edges [] v l tt)
walk_below edges (u ∷ x ∷ path) v l w =
    (get_elem?-lt edges u w.0.1, walk_below edges (x ∷ path) v l w.1)

first_below :
    (edges : Edges) (first : ℕ) (middle : List ℕ) (v : ℕ)
    → IsWalk edges (first ∷ middle ++ v ∷ [])
    → first < length edges
first_below edges first [] v w = get_elem?-lt edges first w.0.1
first_below edges first (x ∷ middle) v w = get_elem?-lt edges first w.0.1

IsCycle-below :
    (edges : Edges) (result : List ℕ) → IsCycle edges result → AllBelow (length edges) result
IsCycle-below edges result c =
    let walk = subst (IsWalk edges) c.shape c.walk in
    subst (AllBelow (length edges)) (sym c.shape) (
      walk_below edges (c.first ∷ c.middle) c.first
        (first_below edges c.first c.middle c.first walk) walk)

report_cycle-IsPanicFree :
    (names : List Text) (advice : Text) (result : List ℕ)
    → AllBelow (length names) result
    → IsPanicFree (report_cycle names advice (some result))
unfolding report_cycle
report_cycle-IsPanicFree names advice result b =
    >>=-IsPanicFree (pick names result) _ (pick-IsPanicFree names result b) λ involved _. tt

-- A cycle is reported with its names.
pub refuse_cycle-IsPanicFree :
    (names : List Text) (advice : Text) (edges : Edges)
    → IsGraph edges
    → length names ≡ length edges
    → IsPanicFree (refuse_cycle names advice edges)
unfolding refuse_cycle report_cycle
refuse_cycle-IsPanicFree names advice edges graph size = elim (cycle_decides edges graph) [
  | inl (e, acyclic) ↦ rw e tt
  | inr (result, e, c) ↦
      rw e (report_cycle-IsPanicFree names advice result (rw size (IsCycle-below edges result c)))
]

module _ {A : Type 0} (adjustment : ℕ → ℕ → Outcome A) (count : ℕ)
    (total : (from to : ℕ) → from < count → to < count → IsPanicFree (adjustment from to)) where
  adjust_row-IsPanicFree :
      (from : ℕ) (targets : List ℕ)
      → from < count
      → AllBelow count targets
      → IsPanicFree (adjust_row adjustment from targets)
  unfolding adjust_row
  adjust_row-IsPanicFree from [] l b = tt
  adjust_row-IsPanicFree from (to ∷ targets) l b =
      >>=-IsPanicFree (adjust_row adjustment from targets) _
        (adjust_row-IsPanicFree from targets l b.1)
        λ rest _. elim (Bool-cases (ltb to from)) [
          | inl backward ↦
              rw backward
                (>>=-IsPanicFree (adjustment from to) _ (total from to l b.0) λ note _. tt)
          | inr forward ↦ rw forward tt
        ]

  pub adjust_from-IsPanicFree :
      (index : ℕ) (edges : Edges)
      → index + length edges ≡ count
      → ((u : ℕ) (row : List ℕ) → get_elem? edges u ≡ some row → AllBelow count row)
      → IsPanicFree (adjust_from adjustment index edges)
  unfolding adjust_from
  adjust_from-IsPanicFree index [] e b = tt
  adjust_from-IsPanicFree index (targets ∷ edges) e b =
      >>=-IsPanicFree (adjust_row adjustment index targets) _
        (adjust_row-IsPanicFree index targets (omega arith) (b 0 targets refl))
        λ row _.
          >>=-IsPanicFree (adjust_from adjustment (suc index) edges) _
            (adjust_from-IsPanicFree (suc index) edges (omega arith) λ u. b (suc u)) λ rest _. tt

-- The indices of a list are below a bound if each that it holds is.
pub AllBelow-of_elem : (n : ℕ) (l : List ℕ) → ((v : ℕ) → elem v l ≡ true → v < n) → AllBelow n l
AllBelow-of_elem n [] h = tt
AllBelow-of_elem n (x ∷ l) h = (h x (ground arith), AllBelow-of_elem n l λ v m. h v (ground arith))
