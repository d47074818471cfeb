-- ===== src/Ordering/Shared.antt =====
-- What the three resolvers share: positions, new edges, adjustments and the final order.
pub mod Growth
pub mod Picking
pub mod Total
pub mod Before
pub mod Forward
use starframe.Prelude.{
  ℕ, zero, suc, ◌<◌, Bool, true, false, Option, none, some, List, [], ◌∷◌, ◌++◌, Text, text_eq,
  codes, any, length, get_elem?, replicate, join, ltb, ◌==◌, if◌then◌else◌,
}
use starframe.Prelude.Outcome.{Outcome, ok, err, or_panic, ◌>>=◌}
use starframe.Ordering.Graph.{Edges, insert_edge, cycle, topological}

-- `runtime_contract::MAX_MODS`
abbrev pub max_mods : ℕ
max_mods = 256

-- `positions.get(key)`: each key was inserted once.
module _ {K : Type 0} (key_eq : K → K → Bool) where
  unfoldable pub position_of : K → List (K × ℕ) → Option ℕ
  position_of key [] = none
  position_of key ((other, index) ∷ positions) =
      if key_eq key other then some index else position_of key positions

-- `items.iter().find(test)`
unfoldable pub find : {A : Type 0} → (A → Bool) → List A → Option A
find test [] = none
find test (x ∷ xs) = if test x then some x else find test xs

-- `items.iter().position(test)`
unfoldable pub position_from : {A : Type 0} → (A → Bool) → ℕ → List A → Option ℕ
position_from test index [] = none
position_from test index (x ∷ xs) = if test x then some index else position_from test (suc index) xs

-- `vec![BTreeSet::new(); count]`
unfoldable pub no_edges : ℕ → Edges
no_edges count = replicate count []

-- `edges[from].insert(to);`
unfoldable pub add_edge : Edges → ℕ → ℕ → Outcome Edges
unfolding insert_edge
add_edge edges from to = or_panic (insert_edge edges from to)

-- `indices.map(|index| items[index].clone()).collect()`
unfoldable pub pick : {A : Type 0} → List A → List ℕ → Outcome (List A)
pick items [] = ok []
pick items (index ∷ indices) = do
  item ← or_panic (get_elem? items index)
  rest ← pick items indices
  ok (item ∷ rest)

-- `if from > to { adjustments.push(adjustment(from, to, …)); }` over the targets of one index.
pub adjust_row : {A : Type 0} → (ℕ → ℕ → Outcome A) → ℕ → List ℕ → Outcome (List A)
adjust_row adjustment from [] = ok []
adjust_row adjustment from (to ∷ targets) = do
  rest ← adjust_row adjustment from targets
  if ltb to from then (do note ← adjustment from to; ok (note ∷ rest)) else ok rest

-- `for (from, targets) in edges.iter().enumerate()`
unfoldable pub adjust_from : {A : Type 0} → (ℕ → ℕ → Outcome A) → ℕ → Edges → Outcome (List A)
unfolding adjust_row
adjust_from adjustment from [] = ok []
adjust_from adjustment from (targets ∷ edges) = do
  row ← adjust_row adjustment from targets
  rest ← adjust_from adjustment (suc from) edges
  ok (row ++ rest)

-- `format!("{} must load before {}.", …)`
unfoldable pub must_precede : Text → Text → Text
must_precede before after = before ++ codes " must load before " ++ after ++ codes "."

-- The text of a cycle: the names of its indices, and the advice behind them.
unfoldable pub cycle_message : List Text → Text → Text
unfolding join
cycle_message names advice =
    codes "Load-order cycle: " ++ join (codes " -> ") names ++ codes ". " ++ advice

pub report_cycle : List Text → Text → Option (List ℕ) → Outcome (Unit {0})
unfolding cycle_message pick
report_cycle names advice none = ok tt
report_cycle names advice (some result) = do
  involved ← pick names result
  err (cycle_message involved advice)

-- `if let Some(cycle) = cycle(&edges) { return Err(…); }`
unfoldable pub refuse_cycle : List Text → Text → Edges → Outcome (Unit {0})
unfolding cycle report_cycle
refuse_cycle names advice edges = do
  verdict ← or_panic (cycle edges)
  report_cycle names advice verdict

unfoldable pub order_of : Edges → Outcome (List ℕ)
unfolding topological
order_of edges = or_panic (topological edges)
