-- ===== src/Ordering/Graph/Acyclic.antt =====
-- `cycle` as a whole: the search from every index, and its verdict.
use starframe.Prelude.{
  ℕ, zero, suc, ◌+◌, ◌≤◌, ◌<◌, ◌≡◌, ◌⊎◌, refl, subst, true, Option, none, some, List, [], ◌∷◌, ◌++◌,
  length, get_elem?-lt, replicate, length-replicate, elem, arith, ◌==◌, Bool-cases, inl, inr,
  if◌then◌else◌,
}
use starframe.Ordering.Graph.{Edges, Visit, found, clean, stuck, visit, search_from, verdict, cycle}
use starframe.Ordering.Graph.Relax.{count_at-replicate}
use starframe.Ordering.Graph.Drain.{IsGraph}
use starframe.Ordering.Graph.Search.{HasEdge, IsWalk, IsCycle, IsClosed, unvisited-le, Inv, Ends}
use starframe.Ordering.Graph.Visiting.{visit-Ends, and_then-Ends}

-- The indices from `index` on.
abbrev pub range_from : ℕ → ℕ → List ℕ
range_from index zero = []
range_from index (suc count) = index ∷ range_from (suc index) count

pub elem-range_from :
    (v index count : ℕ) → index ≤ v → v < index + count → elem v (range_from index count) ≡ true
elem-range_from v index zero h l = absurd (omega arith)
elem-range_from v index (suc count) h l = elim (Bool-cases (v == index)) [
  | inl e ↦ rw e
  | inr e ↦ rw e (elem-range_from v (suc index) count (ground arith) (omega arith))
]

module _ (edges : Edges) (graph : IsGraph edges) where
  search_from-Ends :
      (count index : ℕ) (states finished : List ℕ)
      → index + count ≡ length edges
      → Inv edges states [] finished
      → Ends edges states [] finished
          (range_from index count)
          (search_from (suc (length edges)) edges index count states)
  unfolding search_from
  search_from-Ends zero index states finished e inv =
      (refl, finished, inv, λ v m. m, λ v m. cc, omega arith)
  search_from-Ends (suc count) index states finished e inv =
      and_then-Ends edges states [] finished (index ∷ []) (range_from (suc index) count)
        (visit (suc (length edges)) edges index states [])
        (λ states' path. search_from (suc (length edges)) edges (suc index) count states')
        (visit-Ends edges graph (suc (length edges)) [] index states finished inv tt (omega arith)
          (omega (arith, unvisited-le (length edges) states)))
        λ states' finished' inv' fewer.
          search_from-Ends count (suc index) states' finished' (omega arith) inv'

  abbrev start : List ℕ
  start = replicate (length edges) 0

  start-Inv : Inv edges start [] []
  start-Inv = record {
    size = length-replicate (length edges) 0;
    range = λ v. omega (arith, count_at-replicate (length edges) v);
    open_on_path = λ v h. absurd (omega (arith, count_at-replicate (length edges) v));
    path_open = λ v h. cc;
    done_finished = λ v h. absurd (omega (arith, count_at-replicate (length edges) v));
    finished_done = λ v h. cc;
    closed = tt;
  }

  search-Ends :
      Ends edges start [] []
        (range_from 0 (length edges))
        (search_from (suc (length edges)) edges 0 (length edges) start)
  search-Ends = search_from-Ends (length edges) 0 start [] (omega arith) start-Inv

-- What the verdict says: a cycle, or a list in which every edge points backwards.
abbrev pub Judged : Edges → Option (Option (List ℕ)) → Type 0
Judged edges none = ⊥
Judged edges (some (some result)) = IsCycle edges result
Judged edges (some none) =
    (finished : List ℕ) × IsClosed edges finished
    × ((v : ℕ) → v < length edges → elem v finished ≡ true)

verdict-Judged :
    (edges : Edges) (states : List ℕ) (r : Visit)
    → Ends edges states [] [] (range_from 0 (length edges)) r
    → Judged edges (verdict r)
unfolding verdict
verdict-Judged edges states (found result) e = e
verdict-Judged edges states (clean s p) e =
    let (same, last, inv, grows, has, fewer) = e in
    (
      last,
      inv.closed,
      λ v l. has v (elem-range_from v 0 (length edges) (omega arith) (omega arith)),
    )
verdict-Judged edges states stuck e = e

pub cycle-Judged : (edges : Edges) → IsGraph edges → Judged edges (cycle edges)
unfolding cycle
cycle-Judged edges graph = verdict-Judged edges (start edges graph) _ (search-Ends edges graph)

-- The place of an index in such a list, counted from its end.
pub rank : List ℕ → ℕ → ℕ
rank [] v = 0
rank (x ∷ l) v = if v == x then suc (length l) else rank l v

rank-le : (l : List ℕ) (v : ℕ) → rank l v ≤ length l
unfolding rank
rank-le [] v = omega arith
rank-le (x ∷ l) v = ground (arith, rank-le l v)

IsClosed-elem :
    (edges : Edges) (l : List ℕ) (u v : ℕ)
    → IsClosed edges l
    → elem u l ≡ true
    → HasEdge edges u v
    → (elem v l ≡ true) × (rank l v < rank l u)
unfolding rank
IsClosed-elem edges [] u v h m e = cc
IsClosed-elem edges (x ∷ l) u v h m e = elim (Bool-cases (u == x)) [
  | inl here ↦
      let same : u ≡ x = ground arith in
      let inside = h.1 v (subst (λ x. HasEdge edges x v) same e) in
      (ground arith, ground (arith, rank-le l v, h.0))
  | inr there ↦
      let (inside, lower) = IsClosed-elem edges l u v h.2 (ground arith) e in
      (ground arith, ground (arith, h.0))
]

-- A graph whose edges all lead to a lower rank.
pub record IsRanked (edges : Edges) : Type 0 where
  pub place : ℕ → ℕ
  pub bound : ℕ
  pub place_le : (v : ℕ) → place v ≤ bound
  pub lower : (u v : ℕ) → u < length edges → HasEdge edges u v → place v < place u

Judged-IsRanked : (edges : Edges) → Judged edges (some none) → IsRanked edges
Judged-IsRanked edges (l, closed, all) = record {
  place = rank l;
  bound = length l;
  place_le = rank-le l;
  lower = λ u v lt e. (IsClosed-elem edges l u v closed (all u lt) e).1;
}

pub cycle-IsRanked : (edges : Edges) → IsGraph edges → cycle edges ≡ some none → IsRanked edges
cycle-IsRanked edges graph e =
    Judged-IsRanked edges (subst (Judged edges) e (cycle-Judged edges graph))

-- Along a walk the rank falls.
walk_falls :
    (edges : Edges) (ranked : IsRanked edges) (u : ℕ) (path : List ℕ) (v : ℕ)
    → IsWalk edges (u ∷ path ++ v ∷ [])
    → ranked.place v < ranked.place u
walk_falls edges ranked u [] v w = ranked.lower u v (get_elem?-lt edges u w.0.1) w.0
walk_falls edges ranked u (x ∷ path) v w =
    omega (
      arith,
      ranked.lower u x (get_elem?-lt edges u w.0.1) w.0,
      walk_falls edges ranked x path v w.1,
    )

pub IsRanked-acyclic : (edges : Edges) → IsRanked edges → (result : List ℕ) → ¬ IsCycle edges result
IsRanked-acyclic edges ranked result c = absurd (
    omega (
      arith,
      walk_falls edges ranked c.first c.middle c.first (subst (IsWalk edges) c.shape c.walk),
    ))

-- On a graph, `cycle` ends without a panic and within its fuel: either it reports none and the
-- graph has no cycle, or it reports a walk along edges that ends where it began.
pub cycle_decides :
    (edges : Edges)
    → IsGraph edges
    → ((cycle edges ≡ some none) × ((result : List ℕ) → ¬ IsCycle edges result))
      ⊎ ((result : List ℕ) × (cycle edges ≡ some (some result)) × IsCycle edges result)
cycle_decides edges graph = decides (cycle edges) refl (cycle-Judged edges graph)
  where
    decides :
        (o : Option (Option (List ℕ)))
        → cycle edges ≡ o
        → Judged edges o
        → ((cycle edges ≡ some none) × ((result : List ℕ) → ¬ IsCycle edges result))
          ⊎ ((result : List ℕ) × (cycle edges ≡ some (some result)) × IsCycle edges result)
    decides none e j = absurd j
    decides (some none) e j = inl (e, IsRanked-acyclic edges (cycle-IsRanked edges graph e))
    decides (some (some result)) e j = inr (result, e, j)
