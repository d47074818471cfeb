-- ===== src/Examples/Graphs.antt =====
-- `topological` and `cycle` on small graphs.
use starframe.Prelude.{
  true, subst, sym, ◌∙◌, IsAscending, ℕ, zero, suc, ◌≡◌, refl, ◌⊎◌, none, some, some_inj, List, [],
  ◌∷◌, elem, get_elem?, arith,
}
use starframe.Ordering.Graph.{Edges, topological, cycle}
use starframe.Ordering.Graph.Relax.{AllBelow}
use starframe.Ordering.Graph.Drain.{IsGraph}
use starframe.Ordering.Graph.Search.{IsCycle}
use starframe.Ordering.Graph.Acyclic.{range_from, cycle_decides}
use starframe.Ordering.Graph.Order.{IsOrder, topological_of_acyclic, topological_unique}
use starframe.Ordering.Graph.Stable.{IsForward, topological_of_forward}

-- 2 stands before 0.
abbrev backward : Edges
backward = [] ∷ [] ∷ (0 ∷ []) ∷ []

backward-IsGraph : IsGraph backward
backward-IsGraph = record { ascending = ascending; below = below }
  where
    ascending : (u : ℕ) (row : List ℕ) → get_elem? backward u ≡ some row → IsAscending row
    ascending zero row e = subst IsAscending (some_inj [] row e) tt
    ascending (suc zero) row e = subst IsAscending (some_inj [] row e) tt
    ascending (suc (suc zero)) row e = subst IsAscending (some_inj (0 ∷ []) row e) (tt, tt)
    ascending (suc (suc (suc u))) row e = cc

    below : (u : ℕ) (row : List ℕ) → get_elem? backward u ≡ some row → AllBelow 3 row
    below zero row e = subst (AllBelow 3) (some_inj [] row e) tt
    below (suc zero) row e = subst (AllBelow 3) (some_inj [] row e) tt
    below (suc (suc zero)) row e = subst (AllBelow 3) (some_inj (0 ∷ []) row e) (omega arith, tt)
    below (suc (suc (suc u))) row e = cc

backward_runs : topological backward ≡ some (1 ∷ 2 ∷ 0 ∷ [])
unfolding topological
backward_runs = refl

backward_acyclic : cycle backward ≡ some none
unfolding cycle
backward_acyclic = refl

-- 0 and 1 stand before each other.
circle_found : cycle ((1 ∷ []) ∷ (0 ∷ []) ∷ []) ≡ some (some (0 ∷ 1 ∷ 0 ∷ []))
unfolding cycle
circle_found = refl

-- On a cycle, `topological` leaves its indices out.
circle_left_out : topological ((1 ∷ []) ∷ (0 ∷ []) ∷ [] ∷ []) ≡ some (2 ∷ [])
unfolding topological
circle_left_out = refl

topological_of_acyclic_example :
    (effective : List ℕ) × (topological backward ≡ some effective) × IsOrder backward effective
topological_of_acyclic_example = topological_of_acyclic backward backward-IsGraph backward_acyclic

abbrev order_of_backward : List ℕ
order_of_backward = 1 ∷ 2 ∷ 0 ∷ []

order_of_backward-IsOrder : IsOrder backward order_of_backward
order_of_backward-IsOrder =
    let (effective, run, o) = topological_of_acyclic backward backward-IsGraph backward_acyclic in
    subst (IsOrder backward) (some_inj effective order_of_backward (sym run ∙ backward_runs)) o

cycle_decides_example :
    ((cycle backward ≡ some none) × ((result : List ℕ) → ¬ IsCycle backward result))
    ⊎ ((result : List ℕ) × (cycle backward ≡ some (some result)) × IsCycle backward result)
cycle_decides_example = cycle_decides backward backward-IsGraph

topological_unique_example : topological backward ≡ some order_of_backward
topological_unique_example =
    topological_unique backward order_of_backward backward-IsGraph backward_acyclic
      order_of_backward-IsOrder

-- 0 stands before 1.
abbrev forward : Edges
forward = (1 ∷ []) ∷ [] ∷ []

forward-IsGraph : IsGraph forward
forward-IsGraph = record { ascending = ascending; below = below }
  where
    ascending : (u : ℕ) (row : List ℕ) → get_elem? forward u ≡ some row → IsAscending row
    ascending zero row e = subst IsAscending (some_inj (1 ∷ []) row e) (tt, tt)
    ascending (suc zero) row e = subst IsAscending (some_inj [] row e) tt
    ascending (suc (suc u)) row e = cc

    below : (u : ℕ) (row : List ℕ) → get_elem? forward u ≡ some row → AllBelow 2 row
    below zero row e = subst (AllBelow 2) (some_inj (1 ∷ []) row e) (omega arith, tt)
    below (suc zero) row e = subst (AllBelow 2) (some_inj [] row e) tt
    below (suc (suc u)) row e = cc

forward-IsForward : IsForward forward
forward-IsForward zero v (row, e, m) =
    let points : elem v (1 ∷ []) ≡ true =
      subst (λ r. elem v r ≡ true) (sym (some_inj (1 ∷ []) row e)) m in
    ground arith
forward-IsForward (suc zero) v (row, e, m) =
    let points : elem v [] ≡ true = subst (λ r. elem v r ≡ true) (sym (some_inj [] row e)) m in cc
forward-IsForward (suc (suc u)) v (row, e, m) = cc

topological_of_forward_example : topological forward ≡ some (range_from 0 2)
topological_of_forward_example = topological_of_forward forward forward-IsGraph forward-IsForward
