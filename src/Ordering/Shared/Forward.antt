-- ===== src/Ordering/Shared/Forward.antt =====
-- The shared steps of the resolvers on a graph whose edges all point forward.
use starframe.Prelude.{
  ℕ, suc, ◌+◌, ◌<◌, ◌≡◌, refl, true, false, some, List, [], ◌∷◌, length, get_elem?, elem, ltb,
  arith,
}
use starframe.Prelude.Outcome.{Outcome, ok}
use starframe.Ordering.Graph.{Edges}
use starframe.Ordering.Graph.Search.{HasEdge}
use starframe.Ordering.Graph.Acyclic.{range_from}
use starframe.Ordering.Shared.{pick, adjust_row, adjust_from}

pub pick_range :
    {A : Type 0} (items : List A) (index : ℕ) (rest : List A)
    → ((k v : ℕ) (x : A) → v ≡ index + k → get_elem? rest k ≡ some x → get_elem? items v ≡ some x)
    → pick items (range_from index (length rest)) ≡ ok rest
unfolding pick
pick_range items index [] h = refl
pick_range items index (x ∷ rest) h =
    rw
      (
        h 0 index x (omega arith) refl,
        pick_range items (suc index) rest (λ k v y e f. h (suc k) v y (omega arith) f),
      )
      refl

module _ {A : Type 0} (adjustment : ℕ → ℕ → Outcome A) where
  adjust_row_forward :
      (from : ℕ) (targets : List ℕ)
      → ((to : ℕ) → elem to targets ≡ true → from < to)
      → adjust_row adjustment from targets ≡ ok []
  unfolding adjust_row
  adjust_row_forward from [] h = refl
  adjust_row_forward from (to ∷ targets) h =
      let ahead : from < to = h to (ground arith) in
      let none_back : ltb to from ≡ false = ground arith in
      rw (adjust_row_forward from targets (λ w m. h w (ground arith)), none_back) refl

  pub adjust_from_forward :
      (index : ℕ) (edges : Edges)
      → ((u v w : ℕ) → v ≡ index + u → HasEdge edges u w → v < w)
      → adjust_from adjustment index edges ≡ ok []
  unfolding adjust_from
  adjust_from_forward index [] h = refl
  adjust_from_forward index (targets ∷ edges) h =
      rw
        (
          adjust_row_forward index targets (λ to m. h 0 index to (omega arith) (targets, refl, m)),
          adjust_from_forward (suc index) edges (λ u v w e edge. h (suc u) v w (omega arith) edge),
        )
        refl
