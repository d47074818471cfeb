-- ===== src/Ordering/Graph/Order.antt =====
-- The order that `topological` gives where `cycle` reports none.
use mathlib.Core.List.{
  Mem, Nodup, Perm, mem-cons, mem-cons_of_mem, not-mem-nil, Nodup-nil, Nodup-cons,
  perm_ext_iff_of_Nodup,
}
use mathlib.Core.Logic.Or
use mathlib.Core.Path.{ap₂}
use native.Mathlib.Decide.{dec_lt}
use starframe.Prelude.{
  ◌∙◌, ap, ℕ, zero, suc, ◌+◌, ◌≤◌, ◌<◌, ◌≡◌, refl, sym, subst, true, false, none, some, List, [],
  ◌∷◌, ◌++◌, length, get_elem?-lt, elem, elem-append, elem-append_left, append_assoc,
  elem-snoc_self, arith, ◌==◌, Bool-cases, inl, inr,
}
use starframe.Ordering.Graph.{Edges, topological, cycle}
use starframe.Ordering.Graph.Rows.{pending, pending-pos}
use starframe.Ordering.Graph.Drain.{IsGraph, IsTopological, Drained}
use starframe.Ordering.Graph.Topological.{topological_lem}
use starframe.Ordering.Graph.Acyclic.{IsRanked, cycle-IsRanked, range_from, elem-range_from}

-- Every index of the graph stands in the order, in a place that `IsTopological` allows.
pub record IsOrder (edges : Edges) (effective : List ℕ) : Type 0 where
  pub ordered : IsTopological edges [] effective
  pub covers : (v : ℕ) → v < length edges → elem v effective ≡ true

-- An index that was left out would have a source that was left out, of a higher rank.
covers_below :
    (edges : Edges) (ranked : IsRanked edges) (effective : List ℕ)
    → Drained edges effective
    → (room v : ℕ) → v < length edges
    → ranked.bound < ranked.place v + room
    → elem v effective ≡ true
covers_below edges ranked effective d zero v l h = absurd (omega (arith, ranked.place_le v))
covers_below edges ranked effective d (suc room) v l h =
    elim (dec_lt 0 (pending edges effective v)) [
      | yes p ↦
          let (u, row, r, m, absent) = pending-pos edges effective v p in
          let lt : u < length edges = get_elem?-lt edges u r in
          let higher = ranked.lower u v lt (row, r, m) in
          let here = covers_below edges ranked effective d room u lt (omega (arith, higher)) in cc
      | no p ↦ d.zero_taken v l (omega arith)
    ]

pub topological-IsOrder :
    (edges : Edges)
    → IsGraph edges
    → IsRanked edges
    → (effective : List ℕ) × (topological edges ≡ some effective) × IsOrder edges effective
topological-IsOrder edges graph ranked =
    let (effective, run, d) = topological_lem edges graph in
    (
      effective,
      run,
      record {
        ordered = d.ordered;
        covers = λ v l. covers_below edges ranked effective d (suc ranked.bound) v l (omega arith);
      },
    )

-- On a graph where `cycle` reports none, `topological` returns: it neither panics nor runs out of
-- fuel. Its result holds every index, has each index behind all indices with an edge to it, and
-- takes at each step the smallest of the indices that are ready.
pub topological_of_acyclic :
    (edges : Edges)
    → IsGraph edges
    → cycle edges ≡ some none
    → (effective : List ℕ) × (topological edges ≡ some effective) × IsOrder edges effective
topological_of_acyclic edges graph e =
    topological-IsOrder edges graph (cycle-IsRanked edges graph e)

Mem-elem : (v : ℕ) (l : List ℕ) → Mem v l → elem v l ≡ true
Mem-elem v [] m = absurd (not-mem-nil m)
Mem-elem v (x ∷ l) m =
    Or.elim (hlevel) (mem-cons.0 m) (λ e. ground arith) (λ r. ground (arith, Mem-elem v l r))

elem-Mem : (v : ℕ) (l : List ℕ) → elem v l ≡ true → Mem v l
elem-Mem v [] h = cc
elem-Mem v (x ∷ l) h = elim (Bool-cases (v == x)) [
  | inl here ↦ mem-cons.1 (Or.inl (ground arith))
  | inr there ↦ mem-cons_of_mem x (elem-Mem v l (ground arith))
]

pub range_from-below :
    (v index count : ℕ) → elem v (range_from index count) ≡ true → (index ≤ v) × (v < index + count)
range_from-below v index zero h = cc
range_from-below v index (suc count) h = ground (arith, range_from-below v (suc index) count)

range_from-Nodup : (count index : ℕ) → Nodup (range_from index count)
range_from-Nodup zero index = Nodup-nil
range_from-Nodup (suc count) index = Nodup-cons.1 (
  λ m. absurd (omega (arith, range_from-below index (suc index) count (Mem-elem index _ m))),
  range_from-Nodup count (suc index),
)

-- At most one list is the specified order.
IsTopological-unique :
    (edges : Edges) (seen xs ys : List ℕ)
    → IsTopological edges seen xs
    → IsTopological edges seen ys
    → ((v : ℕ) → v < length edges → elem v (seen ++ xs) ≡ true)
    → ((v : ℕ) → v < length edges → elem v (seen ++ ys) ≡ true)
    → xs ≡ ys
IsTopological-unique edges seen [] [] tx ty cx cy = refl
IsTopological-unique edges seen [] (y ∷ ys) tx ty cx cy =
    ground (arith, cx y ty.0.0, elem-append y seen [])
IsTopological-unique edges seen (x ∷ xs) [] tx ty cx cy =
    ground (arith, cy x tx.0.0, elem-append x seen [])
IsTopological-unique edges seen (x ∷ xs) (y ∷ ys) tx ty cx cy =
    let same : x ≡ y =
      omega (arith, tx.0.3 y ty.0.0 ty.0.1 ty.0.2, ty.0.3 x tx.0.0 tx.0.1 tx.0.2) in
    ap₂ ◌∷◌ same (
      IsTopological-unique edges (seen ++ x ∷ []) xs ys tx.1
        (subst (λ z. IsTopological edges (seen ++ z ∷ []) ys) (sym same) ty.1)
        (λ v l. subst (λ whole. elem v whole ≡ true) (sym (append_assoc seen (x ∷ []) xs)) (cx v l))
        (λ v l.
          subst (λ whole. elem v whole ≡ true) (sym (append_assoc seen (x ∷ []) ys))
            (subst (λ z. elem v (seen ++ z ∷ ys) ≡ true) (sym same) (cy v l))))

pub IsOrder-unique :
    (edges : Edges) (xs ys : List ℕ) → IsOrder edges xs → IsOrder edges ys → xs ≡ ys
IsOrder-unique edges xs ys ox oy =
    IsTopological-unique edges [] xs ys ox.ordered oy.ordered ox.covers oy.covers

-- The order holds each index once.
IsTopological-absent :
    (edges : Edges) (seen l : List ℕ) (v : ℕ)
    → IsTopological edges seen l
    → elem v seen ≡ true
    → elem v l ≡ false
IsTopological-absent edges seen [] v t m = refl
IsTopological-absent edges seen (x ∷ l) v t m = ground (
  arith,
  t.0.1,
  IsTopological-absent edges (seen ++ x ∷ []) l v t.1 (elem-append_left v seen (x ∷ []) m),
)

IsTopological-Nodup : (edges : Edges) (seen l : List ℕ) → IsTopological edges seen l → Nodup l
IsTopological-Nodup edges seen [] t = Nodup-nil
IsTopological-Nodup edges seen (x ∷ l) t = Nodup-cons.1 (
  λ m. ground (
    arith,
    Mem-elem x l m,
    IsTopological-absent edges (seen ++ x ∷ []) l x t.1 (elem-snoc_self x seen),
  ),
  IsTopological-Nodup edges (seen ++ x ∷ []) l t.1,
)

pub IsTopological-below :
    (edges : Edges) (seen l : List ℕ) (v : ℕ)
    → IsTopological edges seen l
    → elem v l ≡ true
    → v < length edges
IsTopological-below edges seen [] v t m = cc
IsTopological-below edges seen (x ∷ l) v t m =
    ground (arith, IsTopological-below edges (seen ++ x ∷ []) l v t.1)

-- The order is a permutation of the indices of the graph.
pub IsOrder-perm :
    (edges : Edges) (effective : List ℕ)
    → IsOrder edges effective
    → Perm effective (range_from 0 (length edges))
IsOrder-perm edges effective o =
    (perm_ext_iff_of_Nodup (IsTopological-Nodup edges [] effective o.ordered)
        (range_from-Nodup (length edges) 0)).1
      λ v. (
        λ m. elem-Mem v (range_from 0 (length edges)) (
            elem-range_from v 0 (length edges) (omega arith) (
              omega (
                arith,
                IsTopological-below edges [] effective v o.ordered (Mem-elem v effective m),
              ))),
        λ m.
            elem-Mem v effective
              (o.covers v (omega (arith, range_from-below v 0 (length edges) (Mem-elem v _ m)))),
      )

-- Where `cycle` reports none, the one list that is an order of the graph is what `topological`
-- returns.
pub topological_unique :
    (edges : Edges) (effective : List ℕ)
    → IsGraph edges
    → cycle edges ≡ some none
    → IsOrder edges effective
    → topological edges ≡ some effective
topological_unique edges effective graph e o =
    let (found, run, order) = topological_of_acyclic edges graph e in
    run ∙ ap some (IsOrder-unique edges found effective order o)
