-- ===== src/Ordering/Shared/Growth.antt =====
-- Adding an edge to a graph.
use native.Mathlib.Decide.{ℕ_discrete}
use starframe.Prelude.{
  set, some_inj, >>=-eq-some, ℕ, zero, suc, ◌<◌, ◌≡◌, ◌≢◌, refl, sym, ap, subst, ◌∙◌, ◌⊎◌, inl, inr,
  some, List, [], ◌∷◌, length, length-set, get_elem?, get_elem?_of_lt, get_elem?-lt,
  get_elem?-set_self, get_elem?-set_ne, replicate, length-replicate, elem, insert, elem-insert,
  insert-IsAscending, IsAscending, Bool-cases, ◌==◌, arith,
}
use starframe.Prelude.Outcome.{ok, or_panic-eq-ok}
use starframe.Ordering.Graph.{Edges, insert_edge}
use starframe.Ordering.Graph.Relax.{AllBelow}
use starframe.Ordering.Graph.Drain.{IsGraph}
use starframe.Ordering.Graph.Search.{HasEdge}
use starframe.Ordering.Shared.{no_edges, add_edge}

-- A graph with the same indices and at least the same edges.
pub record Grows (edges edges' : Edges) : Type 0 where
  pub size : length edges' ≡ length edges
  pub keeps : (u v : ℕ) → HasEdge edges u v → HasEdge edges' u v
  pub graph : IsGraph edges → IsGraph edges'

pub Grows-refl : (edges : Edges) → Grows edges edges
Grows-refl edges = record { size = refl; keeps = λ u v e. e; graph = λ g. g }

pub Grows-trans : (a b c : Edges) → Grows a b → Grows b c → Grows a c
Grows-trans a b c g h = record {
  size = h.size ∙ g.size;
  keeps = λ u v e. h.keeps u v (g.keeps u v e);
  graph = λ w. h.graph (g.graph w);
}

AllBelow-insert : (n x : ℕ) (row : List ℕ) → x < n → AllBelow n row → AllBelow n (insert x row)
unfolding insert
AllBelow-insert n x [] l h = (l, tt)
AllBelow-insert n x (y ∷ row) l h = ground (arith, AllBelow-insert n x row l h.1)

module _ (edges : Edges) (from to : ℕ) {row : List ℕ}
    (found : get_elem? edges from ≡ some row) where
  abbrev added : Edges
  added = set edges from (insert to row)

  added_self : get_elem? added from ≡ some (insert to row)
  added_self = get_elem?-set_self edges from (insert to row) (get_elem?-lt edges from found)

  added_ne : (u : ℕ) → from ≢ u → get_elem? added u ≡ get_elem? edges u
  added_ne u ne = get_elem?-set_ne edges from u (insert to row) ne

  added-HasEdge : HasEdge added from to
  added-HasEdge = (insert to row, added_self, ground (arith, elem-insert to to row))

  added_keeps : (u v : ℕ) → HasEdge edges u v → HasEdge added u v
  added_keeps u v (other, r, m) = elim (ℕ_discrete from u) [
    | yes same ↦ (
      insert to row,
      subst (λ u. get_elem? added u ≡ some (insert to row)) same added_self,
      ground (arith, elem-insert v to row, ap (get_elem? edges) same),
    )
    | no ne ↦ (other, added_ne u ne ∙ r, m)
  ]

  new_row : (u : ℕ) (r : List ℕ) → from ≡ u → get_elem? added u ≡ some r → insert to row ≡ r
  new_row u r same e = some_inj (insert to row) r (sym added_self ∙ ap (get_elem? added) same ∙ e)

  added_only : (u v : ℕ) → HasEdge added u v → HasEdge edges u v ⊎ ((u ≡ from) × (v ≡ to))
  added_only u v (other, r, m) = elim (ℕ_discrete from u) [
    | yes same ↦
        let grown = ap (elem v) (new_row u other same r) ∙ m in
        elim (Bool-cases (v == to)) [
          | inl here ↦ inr (sym same, ground arith)
          | inr old ↦ inl (
            row,
            ap (get_elem? edges) (sym same) ∙ found,
            ground (arith, elem-insert v to row, grown),
          )
        ]
    | no ne ↦ inl (other, sym (added_ne u ne) ∙ r, m)
  ]

  added_row :
      (P : List ℕ → Type 0)
      → (P row → P (insert to row))
      → ((u : ℕ) (r : List ℕ) → get_elem? edges u ≡ some r → P r)
      → (u : ℕ) (r : List ℕ) → get_elem? added u ≡ some r
      → P r
  added_row P step h u r e = elim (ℕ_discrete from u) [
    | yes same ↦ subst P (new_row u r same e) (step (h from row found))
    | no ne ↦ h u r (sym (added_ne u ne) ∙ e)
  ]

  added-Grows : to < length edges → Grows edges added
  added-Grows l = record {
    size = length-set edges from (insert to row);
    keeps = added_keeps;
    graph = λ g. record {
      ascending = added_row IsAscending (insert-IsAscending to row) g.ascending;
      below =
          rw length-set
            (added_row (AllBelow (length edges)) (AllBelow-insert (length edges) to row l) g.below);
    };
  }

-- The steps of `add_edge`: the edge is there, and no other one is new.
pub record Added (edges edges' : Edges) (from to : ℕ) : Type 0 where
  pub grows : Grows edges edges'
  pub edge : HasEdge edges' from to
  pub only : (u v : ℕ) → HasEdge edges' u v → HasEdge edges u v ⊎ ((u ≡ from) × (v ≡ to))

pub add_edge_lem :
    (edges edges' : Edges) (from to : ℕ)
    → add_edge edges from to ≡ ok edges'
    → to < length edges
    → Added edges edges' from to
unfolding add_edge insert_edge
add_edge_lem edges edges' from to h l =
    let (row, found, made) =
      >>=-eq-some (get_elem? edges from) (λ row. some (set edges from (insert to row)))
        (or_panic-eq-ok (insert_edge edges from to) h) in
    subst (λ e. Added edges e from to) (some_inj (set edges from (insert to row)) edges' made)
      (record {
        grows = added-Grows edges from to found l;
        edge = added-HasEdge edges from to found;
        only = added_only edges from to found;
      })

pub add_edge_total :
    (edges : Edges) (from to : ℕ)
    → from < length edges
    → (edges' : Edges) × (add_edge edges from to ≡ ok edges')
unfolding add_edge insert_edge
add_edge_total edges from to l =
    let (row, found) = get_elem?_of_lt edges from l in (set edges from (insert to row), rw found)

get_elem?-no_edges :
    (count u : ℕ) {row : List ℕ}
    → get_elem? (replicate {A = List ℕ} count []) u ≡ some row
    → row ≡ []
get_elem?-no_edges zero u e = cc
get_elem?-no_edges (suc count) zero e = cc
get_elem?-no_edges (suc count) (suc u) e = get_elem?-no_edges count u e

pub no_edges-IsGraph : (count : ℕ) → IsGraph (no_edges count)
unfolding no_edges
no_edges-IsGraph count = record {
  ascending = λ u row e. rw (get_elem?-no_edges count u e) tt;
  below = λ u row e. rw (get_elem?-no_edges count u e) tt;
}

pub length-no_edges : (count : ℕ) → length (no_edges count) ≡ count
unfolding no_edges
length-no_edges count = length-replicate count []

pub no_edges-HasEdge : (count u v : ℕ) → ¬ HasEdge (no_edges count) u v
unfolding no_edges
no_edges-HasEdge count u v (row, r, m) = ground (arith, get_elem?-no_edges count u r)
