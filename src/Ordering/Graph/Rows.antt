-- ===== src/Ordering/Graph/Rows.antt =====
-- Counting edges: `pending edges done v` is the number of indices with an edge to `v` that are not
-- in `done`, which `incoming[v]` holds while `topological` runs.
use native.Mathlib.Decide.{dec_lt}
use starframe.Prelude.{
  ℕ, zero, suc, ◌+◌, ◌<◌, ◌≡◌, refl, ◌≢◌, Bool, true, false, not, ◌&&◌, some, List, [], ◌∷◌, ◌++◌,
  get_elem?, elem, elem-append, arith, if◌then◌else◌,
}
use starframe.Ordering.Graph.{Edges}

abbrev pub one_if : Bool → ℕ
one_if b = if b then 1 else 0

-- The sum of `weight` over the rows of a graph, the first of which has the index `i`.
unfoldable pub sum_rows : (ℕ → List ℕ → ℕ) → ℕ → Edges → ℕ
sum_rows weight i [] = 0
sum_rows weight i (row ∷ rows) = weight i row + sum_rows weight (suc i) rows

abbrev pub waits : List ℕ → ℕ → ℕ → List ℕ → ℕ
waits done v u row = one_if (elem v row && not (elem u done))

unfoldable pub pending : Edges → List ℕ → ℕ → ℕ
unfolding sum_rows
pending edges done v = sum_rows (waits done v) 0 edges

-- Two weights that differ at one index only give equal sums over the rows behind it.
sum_rows-same :
    (f g : ℕ → List ℕ → ℕ) (x : ℕ)
    → ((u : ℕ) (row : List ℕ) → u ≢ x → f u row ≡ g u row)
    → (i : ℕ) (rows : Edges) → x < i
    → sum_rows f i rows ≡ sum_rows g i rows
unfolding sum_rows
sum_rows-same f g x h i [] l = refl
sum_rows-same f g x h i (row ∷ rows) l =
    omega (arith, h i row (omega arith), sum_rows-same f g x h (suc i) rows (omega arith))

sum_rows-change :
    (f g : ℕ → List ℕ → ℕ) (x d : ℕ)
    → ((u : ℕ) (row : List ℕ) → u ≢ x → f u row ≡ g u row)
    → (i : ℕ) (rows : Edges) (k : ℕ) {row : List ℕ} → x ≡ i + k
    → get_elem? rows k ≡ some row
    → f x row ≡ d + g x row
    → sum_rows f i rows ≡ d + sum_rows g i rows
unfolding sum_rows
sum_rows-change f g x d h i [] k e r w = cc
sum_rows-change f g x d h i (first ∷ rows) zero e r w =
    ground (arith, sum_rows-same f g x h (suc i) rows (omega arith))
sum_rows-change f g x d h i (first ∷ rows) (suc k) e r w =
    omega
      (arith, h i first (omega arith), sum_rows-change f g x d h (suc i) rows k (omega arith) r w)

sum_rows-pos :
    (f : ℕ → List ℕ → ℕ) (i : ℕ) (rows : Edges)
    → 0 < sum_rows f i rows
    → (u k : ℕ) × (row : List ℕ) × (u ≡ i + k) × (get_elem? rows k ≡ some row) × (0 < f u row)
unfolding sum_rows
sum_rows-pos f i [] h = elim h [ ]
sum_rows-pos f i (first ∷ rows) h = elim (dec_lt 0 (f i first)) [
  | yes p ↦ (i, 0, first, omega arith, refl, p)
  | no p ↦
      let (u, k, row, e, r, w) = sum_rows-pos f (suc i) rows (omega arith) in
      (u, suc k, row, omega arith, r, w)
]

sum_rows-zero :
    (f : ℕ → List ℕ → ℕ) (i : ℕ) (rows : Edges) (u k : ℕ) {row : List ℕ}
    → u ≡ i + k
    → sum_rows f i rows ≡ 0
    → get_elem? rows k ≡ some row
    → f u row ≡ 0
unfolding sum_rows
sum_rows-zero f i [] u k e h r = cc
sum_rows-zero f i (first ∷ rows) u zero e h r = ground arith
sum_rows-zero f i (first ∷ rows) u (suc k) e h r =
    sum_rows-zero f (suc i) rows u k (omega arith) (omega arith) r

-- Taking an index resolves its edges.
pub pending-take :
    (edges : Edges) (done : List ℕ) (v x : ℕ) {row : List ℕ}
    → get_elem? edges x ≡ some row
    → elem x done ≡ false
    → pending edges done v ≡ one_if (elem v row) + pending edges (done ++ x ∷ []) v
unfolding pending
pending-take edges done v x {row} r fresh =
    sum_rows-change (waits done v) (waits (done ++ x ∷ []) v) x (one_if (elem v row))
      (λ u other ne. ground (arith, elem-append u done (x ∷ []))) 0 edges x (omega arith) r
      (ground (arith, elem-append x done (x ∷ [])))

-- When nothing is pending, every index with an edge to `v` was taken.
pub pending-zero :
    (edges : Edges) (done : List ℕ) (v u : ℕ) {row : List ℕ}
    → pending edges done v ≡ 0
    → get_elem? edges u ≡ some row
    → elem v row ≡ true
    → elem u done ≡ true
unfolding pending
pending-zero edges done v u h r e =
    ground (arith, sum_rows-zero (waits done v) 0 edges u u (omega arith) h r)

waits-pos :
    (done : List ℕ) (v u : ℕ) (row : List ℕ)
    → 0 < waits done v u row
    → (elem v row ≡ true) × (elem u done ≡ false)
waits-pos done v u row h = ground arith

pub pending-pos :
    (edges : Edges) (done : List ℕ) (v : ℕ)
    → 0 < pending edges done v
    → (u : ℕ) × (row : List ℕ) × (get_elem? edges u ≡ some row)
      × (elem v row ≡ true)
      × (elem u done ≡ false)
unfolding pending
pending-pos edges done v h =
    let (u, k, row, e, r, w) = sum_rows-pos (waits done v) 0 edges h in
    let same : u ≡ k = omega arith in
    let (points, fresh) = waits-pos done v u row w in (k, row, r, points, rw same at fresh)
