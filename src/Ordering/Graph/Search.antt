-- ===== src/Ordering/Graph/Search.antt =====
-- The depth-first search of ordering.rs: what one call of `visit` does.
use starframe.Prelude.{
  ℕ, zero, suc, ◌+◌, ◌≤◌, ◌<◌, ◌≡◌, refl, ap, subst, true, false, some, List, [], ◌∷◌, ◌++◌, length,
  get_elem?, set, elem, arith, ◌==◌, Bool-cases, inl, inr,
}
use starframe.Ordering.Graph.{Edges, Visit, found, clean, stuck, from_index, pop}
use starframe.Ordering.Graph.Rows.{one_if}
use starframe.Ordering.Graph.Relax.{count_at, count_at-set}

abbrev pub HasEdge : Edges → ℕ → ℕ → Type 0
HasEdge edges u v = (row : List ℕ) × (get_elem? edges u ≡ some row) × (elem v row ≡ true)

-- Each element has an edge to the next.
abbrev pub IsWalk : Edges → List ℕ → Type 0
IsWalk edges [] = Unit
IsWalk edges (u ∷ []) = Unit
IsWalk edges (u ∷ v ∷ path) = HasEdge edges u v × IsWalk edges (v ∷ path)

-- A walk along edges that ends where it began.
pub record IsCycle (edges : Edges) (result : List ℕ) : Type 0 where
  pub first : ℕ
  pub middle : List ℕ
  pub shape : result ≡ first ∷ middle ++ first ∷ []
  pub walk : IsWalk edges result

-- Finished indices, the last first: the targets of each stand behind it.
abbrev pub IsClosed : Edges → List ℕ → Type 0
IsClosed edges [] = Unit
IsClosed edges (v ∷ l) =
    (elem v l ≡ false) × ((w : ℕ) → HasEdge edges v w → elem w l ≡ true) × IsClosed edges l

pub IsWalk-snoc :
    (edges : Edges) (path : List ℕ) (u v : ℕ)
    → IsWalk edges (path ++ u ∷ [])
    → HasEdge edges u v
    → IsWalk edges ((path ++ u ∷ []) ++ v ∷ [])
IsWalk-snoc edges [] u v w e = (e, tt)
IsWalk-snoc edges (x ∷ []) u v w e = (w.0, (e, tt))
IsWalk-snoc edges (x ∷ y ∷ path) u v w e = (w.0, IsWalk-snoc edges (y ∷ path) u v w.1 e)

IsWalk-tail : (edges : Edges) (x : ℕ) (path : List ℕ) → IsWalk edges (x ∷ path) → IsWalk edges path
IsWalk-tail edges x [] w = tt
IsWalk-tail edges x (y ∷ path) w = w.1

pub from_index_lem :
    (edges : Edges) (index : ℕ) (path : List ℕ)
    → elem index path ≡ true
    → IsWalk edges (path ++ index ∷ [])
    → (middle : List ℕ) × (from_index index path ≡ some (index ∷ middle))
      × IsWalk edges (index ∷ middle ++ index ∷ [])
unfolding from_index
from_index_lem edges index [] e w = cc
from_index_lem edges index (i ∷ path) e w = elim (Bool-cases (i == index)) [
  | inl here ↦
      let same : i ≡ index = ground arith in
      (path, ground arith, subst (λ x. IsWalk edges (x ∷ path ++ index ∷ [])) same w)
  | inr there ↦
      let (middle, run, walk) =
        from_index_lem edges index path (ground arith)
          (IsWalk-tail edges i (path ++ index ∷ []) w) in
      (middle, rw there run, walk)
]

pub pop-snoc : (path : List ℕ) (index : ℕ) → pop (path ++ index ∷ []) ≡ path
unfolding pop
pop-snoc [] index = refl
pop-snoc (i ∷ []) index = refl
pop-snoc (i ∷ j ∷ path) index = ap (λ l. i ∷ l) (pop-snoc (j ∷ path) index)

-- How many of the first `n` indices are unvisited.
pub unvisited : ℕ → List ℕ → ℕ
unvisited zero states = 0
unvisited (suc n) states = one_if (count_at states n == 0) + unvisited n states

pub unvisited-le : (n : ℕ) (states : List ℕ) → unvisited n states ≤ n
unfolding unvisited
unvisited-le zero states = omega arith
unvisited-le (suc n) states = ground (arith, unvisited-le n states)

unvisited-set_ge :
    (n index state : ℕ) (states : List ℕ)
    → index < length states
    → n ≤ index
    → unvisited n (set states index state) ≡ unvisited n states
unfolding unvisited
unvisited-set_ge zero index state states l h = refl
unvisited-set_ge (suc n) index state states l h =
    ground (arith, unvisited-set_ge n index state states l, count_at-set states index state n l)

-- Marking an unvisited index leaves one unvisited index less.
pub unvisited-set :
    (n index state : ℕ) (states : List ℕ)
    → index < length states
    → index < n
    → 0 < state
    → unvisited n (set states index state) + one_if (count_at states index == 0)
      ≡ unvisited n states
unfolding unvisited
unvisited-set zero index state states l h p = elim h [ ]
unvisited-set (suc n) index state states l h p = ground (
  arith,
  unvisited-set_ge n index state states l,
  unvisited-set n index state states l,
  count_at-set states index state n l,
)

pub record Inv (edges : Edges) (states path finished : List ℕ) : Type 0 where
  pub size : length states ≡ length edges
  pub range : (v : ℕ) → count_at states v ≤ 2
  pub open_on_path : (v : ℕ) → count_at states v ≡ 1 → elem v path ≡ true
  pub path_open : (v : ℕ) → elem v path ≡ true → count_at states v ≡ 1
  pub done_finished : (v : ℕ) → count_at states v ≡ 2 → elem v finished ≡ true
  pub finished_done : (v : ℕ) → elem v finished ≡ true → count_at states v ≡ 2
  pub closed : IsClosed edges finished

-- What a call for the indices in `wanted` may leave: a cycle, or more finished indices, all of
-- `wanted` among them.
abbrev pub Ends : Edges → (states path finished wanted : List ℕ) → Visit → Type 0
Ends edges states path finished wanted (found result) = IsCycle edges result
Ends edges states path finished wanted (clean states' path') =
    (path' ≡ path)
    × (finished' : List ℕ) × Inv edges states' path finished'
    × ((v : ℕ) → elem v finished ≡ true → elem v finished' ≡ true)
    × ((v : ℕ) → elem v wanted ≡ true → elem v finished' ≡ true)
    × (unvisited (length edges) states' ≤ unvisited (length edges) states)
Ends edges states path finished wanted stuck = ⊥
