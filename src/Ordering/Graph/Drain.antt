-- ===== src/Ordering/Graph/Drain.antt =====
-- The main loop of `topological`: its invariant and its fuel.
use native.Mathlib.Decide.{dec_lt}
use starframe.Prelude.{
  sym, subst, append-nil, append_assoc, ℕ, zero, suc, ◌+◌, ◌≤◌, ◌<◌, ◌≡◌, refl, ◌∙◌, true, false,
  not, some, List, [], ◌∷◌, ◌++◌, length, get_elem?, get_elem?_of_lt, elem, elem-append, arith,
  IsAscending, IsAbove-elem,
}
use starframe.Ordering.Graph.{Edges, drain}
use starframe.Ordering.Graph.Rows.{one_if, pending, pending-take, pending-zero, pending-pos}
use starframe.Ordering.Graph.Relax.{AllBelow, count_at, Relaxed, relax_lem}

-- Each row is a set of indices of the graph.
pub record IsGraph (edges : Edges) : Type 0 where
  pub ascending : (u : ℕ) (row : List ℕ) → get_elem? edges u ≡ some row → IsAscending row
  pub below : (u : ℕ) (row : List ℕ) → get_elem? edges u ≡ some row → AllBelow (length edges) row

-- Every index with an edge to `v` is in `seen`.
abbrev pub Unblocked : Edges → List ℕ → ℕ → Type 0
Unblocked edges seen v =
    (u : ℕ) (row : List ℕ) → get_elem? edges u ≡ some row → elem v row ≡ true → elem u seen ≡ true

-- `v` is new, stands behind the sources of its edges, and is the smallest that could stand here.
abbrev pub IsNext : Edges → List ℕ → ℕ → Type 0
IsNext edges seen v =
    (v < length edges)
    × (elem v seen ≡ false)
    × Unblocked edges seen v
    × ((w : ℕ) → w < length edges → elem w seen ≡ false → Unblocked edges seen w → v ≤ w)

-- The specification of an order: each index is the next one.
abbrev pub IsTopological : Edges → List ℕ → List ℕ → Type 0
IsTopological edges seen [] = Unit
IsTopological edges seen (v ∷ l) = IsNext edges seen v × IsTopological edges (seen ++ v ∷ []) l

-- How many of the first `n` indices are not in the list.
pub missing : ℕ → List ℕ → ℕ
missing zero l = 0
missing (suc n) l = one_if (not (elem n l)) + missing n l

missing-same : (n v : ℕ) (l : List ℕ) → n ≤ v → missing n (l ++ v ∷ []) ≡ missing n l
unfolding missing
missing-same zero v l h = refl
missing-same (suc n) v l h =
    ground (arith, elem-append n l (v ∷ []), missing-same n v l (omega arith))

missing-take :
    (n v : ℕ) (l : List ℕ) → v < n → elem v l ≡ false → missing n l ≡ suc (missing n (l ++ v ∷ []))
unfolding missing
missing-take zero v l h fresh = elim h [ ]
missing-take (suc n) v l h fresh =
    ground (arith, elem-append n l (v ∷ []), missing-same n v l, missing-take n v l)

pub missing-nil : (n : ℕ) → missing n [] ≤ n
unfolding missing
missing-nil zero = omega arith
missing-nil (suc n) = omega (arith, missing-nil n)

pub record Inv (edges : Edges) (incoming ready done : List ℕ) : Type 0 where
  pub size : length incoming ≡ length edges
  pub counts : (v : ℕ) → count_at incoming v ≡ pending edges done v
  pub ready_lt : (v : ℕ) → elem v ready ≡ true → v < length edges
  pub ready_zero : (v : ℕ) → elem v ready ≡ true → pending edges done v ≡ 0
  pub ready_fresh : (v : ℕ) → elem v ready ≡ true → elem v done ≡ false
  pub complete :
      (v : ℕ)
      → v < length edges
      → pending edges done v ≡ 0
      → elem v done ≡ false
      → elem v ready ≡ true
  pub ascending : IsAscending ready
  pub done_zero : (v : ℕ) → elem v done ≡ true → pending edges done v ≡ 0

pub Unblocked-pending :
    (edges : Edges) (done : List ℕ) (v : ℕ) → Unblocked edges done v → pending edges done v ≡ 0
Unblocked-pending edges done v free = elim (dec_lt 0 (pending edges done v)) [
  | yes p ↦ let (u, row, r, m, fresh) = pending-pos edges done v p in cc (free u row r m)
  | no p ↦ omega arith
]

IsTopological-snoc :
    (edges : Edges) (seen l whole : List ℕ) (v : ℕ)
    → IsTopological edges seen l
    → whole ≡ seen ++ l
    → IsNext edges whole v
    → IsTopological edges seen (l ++ v ∷ [])
IsTopological-snoc edges seen [] whole v h e next =
    (subst (λ l. IsNext edges l v) (e ∙ append-nil seen) next, tt)
IsTopological-snoc edges seen (x ∷ l) whole v h e next = (
  h.0,
  IsTopological-snoc edges (seen ++ x ∷ []) l whole v h.1 (e ∙ sym (append_assoc seen (x ∷ []) l))
      next,
)

pub AllBelow-elem : (n : ℕ) (xs : List ℕ) (v : ℕ) → AllBelow n xs → elem v xs ≡ true → v < n
AllBelow-elem n [] v h e = cc
AllBelow-elem n (x ∷ xs) v h e = ground (arith, AllBelow-elem n xs v h.1)

-- What the loop returns: an order that extends `done`, to which no index can be added.
pub record Drained (edges : Edges) (effective : List ℕ) : Type 0 where
  pub ordered : IsTopological edges [] effective
  pub zero_taken :
      (v : ℕ) → v < length edges → pending edges effective v ≡ 0 → elem v effective ≡ true

module _ (edges : Edges) (graph : IsGraph edges) where
  -- Taking the smallest ready index keeps the invariant.
  module _ (incoming ready done : List ℕ) (index : ℕ) {targets : List ℕ}
      (inv : Inv edges incoming (index ∷ ready) done)
      (row : get_elem? edges index ≡ some targets) where
    taken :
        (v : ℕ)
        → pending edges done v ≡ one_if (elem v targets) + pending edges (done ++ index ∷ []) v
    taken v = pending-take edges done v index row (inv.ready_fresh index (ground arith))

    has_edge : (v : ℕ) → elem v targets ≡ true → 0 < count_at incoming v
    has_edge v m = ground (arith, taken v, inv.counts v)

    step-IsNext : IsNext edges done index
    step-IsNext = (
      inv.ready_lt index (ground arith),
      inv.ready_fresh index (ground arith),
      λ u r e m. pending-zero edges done index u (inv.ready_zero index (ground arith)) e m,
      λ w lt fresh free. ground (
        arith,
        inv.complete w lt (Unblocked-pending edges done w free) fresh,
        IsAbove-elem index w ready inv.ascending.0,
      ),
    )

    step-Inv :
        (counts more : List ℕ)
        → Relaxed targets incoming ready counts more
        → Inv edges counts more (done ++ index ∷ [])
    step-Inv counts more c = record {
      size = c.size ∙ inv.size;
      counts = λ v. omega (arith, c.at v, taken v, inv.counts v);
      ready_lt = λ v m. ground (
        arith,
        c.ready_at v,
        inv.ready_lt v,
        AllBelow-elem (length edges) targets v (graph.below index targets row),
      );
      ready_zero = λ v m. ground (arith, c.ready_at v, inv.ready_zero v, taken v, inv.counts v);
      ready_fresh = λ v m. ground (
        arith,
        c.ready_at v,
        inv.ready_fresh v,
        inv.counts v,
        inv.done_zero v,
        inv.ready_zero v,
        elem-append v done (index ∷ []),
        IsAbove-elem index v ready inv.ascending.0,
      );
      complete = λ v lt zero fresh. ground (
        arith,
        c.ready_at v,
        inv.complete v lt,
        taken v,
        inv.counts v,
        elem-append v done (index ∷ []),
      );
      ascending = c.ascending;
      done_zero = λ v m.
          ground
            (arith, taken v, inv.done_zero v, inv.ready_zero v, elem-append v done (index ∷ []));
    }

  finish :
      (incoming done : List ℕ)
      → Inv edges incoming [] done
      → IsTopological edges [] done
      → Drained edges done
  finish incoming done inv ordered = record {
    ordered = ordered;
    zero_taken = λ v lt zero. ground (arith, inv.complete v lt zero);
  }

  pub drain_lem :
      (fuel : ℕ) (incoming ready done : List ℕ)
      → Inv edges incoming ready done
      → IsTopological edges [] done
      → missing (length edges) done ≤ fuel
      → (effective : List ℕ) × (drain fuel edges incoming ready done ≡ some effective)
        × Drained edges effective
  unfolding drain
  drain_lem zero incoming [] done inv ordered h = (done, refl, finish incoming done inv ordered)
  drain_lem zero incoming (index ∷ ready) done inv ordered h = absurd (
      ground
        (arith, missing-take (length edges) index done, inv.ready_lt index, inv.ready_fresh index))
  drain_lem (suc fuel) incoming [] done inv ordered h =
      (done, refl, finish incoming done inv ordered)
  drain_lem (suc fuel) incoming (index ∷ ready) done inv ordered h =
      let (targets, row) = get_elem?_of_lt edges index (inv.ready_lt index (ground arith)) in
      let (counts, more, run, c) =
        relax_lem targets incoming ready (graph.ascending index targets row)
          (subst (λ n. AllBelow n targets) (sym inv.size) (graph.below index targets row))
          (has_edge incoming ready done index inv row) inv.ascending.1 in
      let next = done ++ index ∷ [] in
      let (effective, rest, d) =
        drain_lem fuel counts more next (step-Inv incoming ready done index inv row counts more c)
          (IsTopological-snoc edges [] done done index ordered refl
            (step-IsNext incoming ready done index inv row))
          (ground (
            arith,
            missing-take (length edges) index done,
            inv.ready_lt index,
            inv.ready_fresh index,
          )) in
      (effective, rw (row, run) rest, d)
