-- ===== src/Ordering/Graph/Topological.antt =====
-- `topological` as a whole: its start and its loop.
use starframe.Prelude.{
  ap, ◌&&◌, Bool-cases, inl, inr, ℕ, zero, suc, ◌+◌, ◌<◌, ◌≡◌, refl, ◌∙◌, sym, subst, true, some,
  List, [], ◌∷◌, length, get_elem?, length-replicate, replicate, elem, arith, ◌==◌, IsAbove,
  IsAscending,
}
use starframe.Ordering.Graph.{Edges, count_incoming, zero_indices, topological}
use starframe.Ordering.Graph.Rows.{sum_rows, waits, pending}
use starframe.Ordering.Graph.Relax.{AllBelow, count_at, count_at-replicate, count_targets_lem}
use starframe.Ordering.Graph.Drain.{IsGraph, Inv, missing-nil, Drained, drain_lem}

count_incoming_lem :
    (rows : Edges) (i : ℕ) (incoming : List ℕ)
    → ((u : ℕ) (row : List ℕ) → get_elem? rows u ≡ some row → IsAscending row)
    → ((u : ℕ) (row : List ℕ) → get_elem? rows u ≡ some row → AllBelow (length incoming) row)
    → (counts : List ℕ) × (count_incoming rows incoming ≡ some counts)
      × (length counts ≡ length incoming)
      × ((v : ℕ) → count_at counts v ≡ sum_rows (waits [] v) i rows + count_at incoming v)
unfolding count_incoming sum_rows
count_incoming_lem [] i incoming asc below = (incoming, refl, refl, λ v. omega arith)
count_incoming_lem (row ∷ rows) i incoming asc below =
    let (first, run, c) = count_targets_lem row incoming (asc 0 row refl) (below 0 row refl) in
    let (counts, rest, size, at) =
      count_incoming_lem rows (suc i) first (λ u r e. asc (suc u) r e)
        (λ u r e. subst (λ n. AllBelow n r) (sym c.size) (below (suc u) r e)) in
    (counts, rw run rest, size ∙ c.size, λ v. ground (arith, at v, c.at v))

zero_indices-elem :
    (i : ℕ) (incoming : List ℕ) (v : ℕ)
    → elem v (zero_indices i incoming) ≡ true
    → (k : ℕ) × (v ≡ i + k) × (k < length incoming) × (count_at incoming k ≡ 0)
unfolding zero_indices
zero_indices-elem i [] v h = cc
zero_indices-elem i (count ∷ incoming) v h = elim (Bool-cases ((v == i) && (count == 0))) [
  | inl first ↦ (0, ground arith, omega arith, ground arith)
  | inr other ↦
      let (k, e, l, z) = zero_indices-elem (suc i) incoming v (ground arith) in
      (suc k, omega arith, omega arith, z)
]

elem-zero_indices :
    (i : ℕ) (incoming : List ℕ) (v k : ℕ)
    → v ≡ i + k
    → k < length incoming
    → count_at incoming k ≡ 0
    → elem v (zero_indices i incoming) ≡ true
unfolding zero_indices
elem-zero_indices i [] v k e l z = elim l [ ]
elem-zero_indices i (count ∷ incoming) v zero e l z = ground arith
elem-zero_indices i (count ∷ incoming) v (suc k) e l z =
    ground (arith, elem-zero_indices (suc i) incoming v k)

zero_indices-IsAbove : (x i : ℕ) (incoming : List ℕ) → x < i → IsAbove x (zero_indices i incoming)
unfolding zero_indices
zero_indices-IsAbove x i [] h = tt
zero_indices-IsAbove x i (count ∷ incoming) h =
    ground (arith, zero_indices-IsAbove x (suc i) incoming)

zero_indices-IsAscending : (i : ℕ) (incoming : List ℕ) → IsAscending (zero_indices i incoming)
unfolding zero_indices
zero_indices-IsAscending i [] = tt
zero_indices-IsAscending i (count ∷ incoming) =
    ground
      (arith, zero_indices-IsAbove i (suc i) incoming, zero_indices-IsAscending (suc i) incoming)

start-Inv :
    (edges : Edges) (counts : List ℕ)
    → length counts ≡ length edges
    → ((v : ℕ) → count_at counts v ≡ pending edges [] v)
    → Inv edges counts (zero_indices 0 counts) []
start-Inv edges counts size at = record {
  size = size;
  counts = at;
  ready_lt = λ v m. let (k, e, l, z) = zero_indices-elem 0 counts v m in omega arith;
  ready_zero = λ v m.
      let (k, e, l, z) = zero_indices-elem 0 counts v m in
      let same : v ≡ k = omega arith in omega (arith, at v, ap (count_at counts) same);
  ready_fresh = λ v m. refl;
  complete = λ v lt zero fresh.
      elem-zero_indices 0 counts v v (omega arith) (omega arith) (omega (arith, at v));
  ascending = zero_indices-IsAscending 0 counts;
  done_zero = λ v m. cc;
}

-- On a graph `topological` returns, and its result is an order to which no index can be added.
pub topological_lem :
    (edges : Edges)
    → IsGraph edges
    → (effective : List ℕ) × (topological edges ≡ some effective) × Drained edges effective
unfolding topological pending
topological_lem edges graph =
    let start = replicate (length edges) 0 in
    let (counts, run, size, at) = count_incoming_lem edges 0 start graph.ascending (λ u r e.
      subst (λ n. AllBelow n r) (sym (length-replicate (length edges) 0)) (graph.below u r e)) in
    let ready = zero_indices 0 counts in
    let (effective, rest, d) =
      drain_lem edges graph (length edges) counts ready []
        (start-Inv edges counts (size ∙ length-replicate (length edges) 0)
          (λ v. omega (arith, at v, count_at-replicate (length edges) v)))
        tt (missing-nil (length edges)) in
    (effective, rw run rest, d)
