-- ===== src/Ordering/Graph/Stable.antt =====
-- `topological` on a graph whose edges all point forward.
use starframe.Prelude.{
  ℕ, zero, suc, ◌+◌, ◌-◌, ◌≤◌, ◌<◌, ◌≡◌, refl, ◌∙◌, ap, true, false, some, List, [], ◌∷◌, ◌++◌,
  length, elem, elem-append, arith,
}
use starframe.Ordering.Graph.{Edges, topological}
use starframe.Ordering.Graph.Drain.{IsGraph, IsTopological}
use starframe.Ordering.Graph.Search.{HasEdge}
use starframe.Ordering.Graph.Acyclic.{IsRanked, range_from, elem-range_from}
use starframe.Ordering.Graph.Order.{IsOrder, IsOrder-unique, topological-IsOrder}

abbrev pub IsForward : Edges → Type 0
IsForward edges = (u v : ℕ) → HasEdge edges u v → u < v

-- The elements of `seen` are the numbers below `index`.
abbrev Holds : ℕ → List ℕ → Type 0
Holds index seen = (v : ℕ) → (v < index → elem v seen ≡ true) × (index ≤ v → elem v seen ≡ false)

Holds-snoc : (index : ℕ) (seen : List ℕ) → Holds index seen → Holds (suc index) (seen ++ index ∷ [])
Holds-snoc index seen h v = (
  λ l. ground (arith, h v, elem-append v seen (index ∷ [])),
  λ l. ground (arith, h v, elem-append v seen (index ∷ [])),
)

module _ (edges : Edges) (graph : IsGraph edges) (forward : IsForward edges) where
  range_from-IsTopological :
      (count index : ℕ) (seen : List ℕ)
      → index + count ≡ length edges
      → Holds index seen
      → IsTopological edges seen (range_from index count)
  range_from-IsTopological zero index seen e h = tt
  range_from-IsTopological (suc count) index seen e h = (
    (
      omega arith,
      (h index).1 (omega arith),
      λ u row r m. (h u).0 (forward u index (row, r, m)),
      λ w l fresh free. ground (arith, h w),
    ),
    range_from-IsTopological count (suc index) (seen ++ index ∷ []) (omega arith)
        (Holds-snoc index seen h),
  )

  range-IsOrder : IsOrder edges (range_from 0 (length edges))
  range-IsOrder = record {
    ordered =
        range_from-IsTopological (length edges) 0 [] (omega arith)
          (λ v. (λ l. absurd (omega arith), λ l. refl));
    covers = λ v l. elem-range_from v 0 (length edges) (omega arith) (omega arith);
  }

  forward-IsRanked : IsRanked edges
  forward-IsRanked = record {
    place = λ v. length edges - v;
    bound = length edges;
    place_le = λ v. omega arith;
    lower = λ u v l e. omega (arith, forward u v e);
  }

  -- If every edge of a graph leads from a smaller index to a larger one, `topological` returns
  -- the indices in their given order.
  pub topological_of_forward : topological edges ≡ some (range_from 0 (length edges))
  topological_of_forward =
      let (effective, run, o) = topological-IsOrder edges graph forward-IsRanked in
      run ∙ ap some (IsOrder-unique edges effective (range_from 0 (length edges)) o range-IsOrder)
