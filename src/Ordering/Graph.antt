-- ===== src/Ordering/Graph.antt =====
-- The dependency graph of ordering.rs: `topological` and `cycle` on `&[BTreeSet<usize>]`.
-- `none` is a panic (an index out of range, an underflow) or fuel that ran out.
pub mod Rows
pub mod Relax
pub mod Drain
pub mod Topological
pub mod Search
pub mod Visiting
pub mod Acyclic
pub mod Order
pub mod Stable
use starframe.Prelude.{
  ℕ, zero, suc, ◌+◌, ◌-◌, Bool, true, false, Option, none, some, List, [], ◌∷◌, ◌++◌, length,
  get_elem?, set, replicate, insert, ◌>>=◌, ◌==◌, if◌then◌else◌,
}

-- One set of targets for each index.
abbrev pub Edges : Type 0
Edges = List (List ℕ)

-- `edges[from].insert(to)`.
unfoldable pub insert_edge : Edges → ℕ → ℕ → Option Edges
unfolding insert
insert_edge edges from to = do
  targets ← get_elem? edges from
  some (set edges from (insert to targets))

-- `for &to in targets { incoming[to] += 1; }`
pub count_targets : List ℕ → List ℕ → Option (List ℕ)
count_targets [] incoming = some incoming
count_targets (to ∷ targets) incoming = do
  count ← get_elem? incoming to
  count_targets targets (set incoming to (count + 1))

-- `for targets in edges { … }`
pub count_incoming : Edges → List ℕ → Option (List ℕ)
unfolding count_targets
count_incoming [] incoming = some incoming
count_incoming (targets ∷ edges) incoming = do
  counted ← count_targets targets incoming
  count_incoming edges counted

-- The indices with a count of zero, from `index` on.
pub zero_indices : ℕ → List ℕ → List ℕ
zero_indices index [] = []
zero_indices index (count ∷ incoming) =
    let rest = zero_indices (suc index) incoming in if count == 0 then index ∷ rest else rest

-- `incoming[to] -= 1`, and the new count.
unfoldable pub decrement : List ℕ → ℕ → Option (List ℕ × ℕ)
decrement incoming to = do
  count ← get_elem? incoming to
  if count == 0 then none else some (set incoming to (count - 1), count - 1)

-- The loop over the targets of an index that was taken: the new `incoming` and `ready`.
pub relax : List ℕ → List ℕ → List ℕ → Option (List ℕ × List ℕ)
unfolding decrement insert
relax [] incoming ready = some (incoming, ready)
relax (to ∷ targets) incoming ready = do
  (counts, count) ← decrement incoming to
  relax targets counts (if count == 0 then insert to ready else ready)

-- `while let Some(index) = ready.pop_first()`, on fuel.
pub drain : ℕ → Edges → (incoming ready effective : List ℕ) → Option (List ℕ)
unfolding relax
drain zero edges incoming [] effective = some effective
drain zero edges incoming (index ∷ ready) effective = none
drain (suc fuel) edges incoming [] effective = some effective
drain (suc fuel) edges incoming (index ∷ ready) effective = do
  targets ← get_elem? edges index
  (counts, more) ← relax targets incoming ready
  drain fuel edges counts more (effective ++ index ∷ [])

-- Each index is taken at most once, so the number of indices is fuel enough.
unfoldable pub topological : Edges → Option (List ℕ)
unfolding count_incoming zero_indices drain
topological edges = do
  incoming ← count_incoming edges (replicate (length edges) 0)
  drain (length edges) edges incoming (zero_indices 0 incoming) []

-- What a call of `visit` leaves: a cycle, or the new `states` and `path`. `stuck` is a panic or
-- fuel that ran out.
pub data Visit : Type 0 where
  found : List ℕ → Visit
  clean : (states path : List ℕ) → Visit
  stuck : Visit

-- `path[path.iter().position(|&i| i == index).unwrap()..]`
pub from_index : ℕ → List ℕ → Option (List ℕ)
from_index index [] = none
from_index index (i ∷ path) = if i == index then some (i ∷ path) else from_index index path

-- `path.pop()`
pub pop : List ℕ → List ℕ
pop [] = []
pop (i ∷ []) = []
pop (i ∷ j ∷ path) = i ∷ pop (j ∷ path)

-- `if let Some(result) = … { return Some(result); }`, and what follows it.
pub and_then : Visit → (List ℕ → List ℕ → Visit) → Visit
and_then (found result) next = found result
and_then (clean states path) next = next states path
and_then stuck next = stuck

-- The loop over `&edges[index]`, with the recursive call as an argument.
pub visit_targets : (ℕ → List ℕ → List ℕ → Visit) → List ℕ → (states path : List ℕ) → Visit
unfolding and_then
visit_targets visit [] states path = clean states path
visit_targets visit (next ∷ targets) states path =
    and_then (visit next states path) (visit_targets visit targets)

-- The end of `visit` for an index without a cycle behind it.
pub leave : ℕ → Visit → Visit
unfolding pop
leave index (clean states path) = clean (set states index 2) (pop path)
leave index (found result) = found result
leave index stuck = stuck

close_cycle : ℕ → Option (List ℕ) → Visit
close_cycle index none = stuck
close_cycle index (some rest) = found (rest ++ index ∷ [])

pub enter : Option (List ℕ) → (List ℕ → Visit) → Visit
enter none explore = stuck
enter (some targets) explore = explore targets

-- `visit(index, edges, states, path)`. The depth of the recursion is bounded by `fuel`.
pub visit : ℕ → Edges → ℕ → (states path : List ℕ) → Visit
unfolding visit_targets leave enter from_index close_cycle
visit zero edges index states path = stuck
visit (suc fuel) edges index states path = elim (get_elem? states index) [
  | none ↦ stuck
  | some state ↦
      if state == 2
      then clean states path
      else if state == 1
      then close_cycle index (from_index index path)
      else enter (get_elem? edges index) λ targets.
        leave index
          (visit_targets (visit fuel edges) targets (set states index 1) (path ++ index ∷ []))
]

-- `for index in 0..edges.len()`, each with a new path; `count` indices are left.
pub search_from : ℕ → Edges → (index count : ℕ) → List ℕ → Visit
unfolding visit and_then
search_from fuel edges index zero states = clean states []
search_from fuel edges index (suc count) states =
    and_then (visit fuel edges index states [])
      λ states' path. search_from fuel edges (suc index) count states'

verdict : Visit → Option (Option (List ℕ))
verdict (found result) = some (some result)
verdict (clean states path) = some none
verdict stuck = none

-- A path holds each index once, and one more call meets its end.
unfoldable pub cycle : Edges → Option (Option (List ℕ))
unfolding search_from verdict
cycle edges =
    verdict (search_from (suc (length edges)) edges 0 (length edges) (replicate (length edges) 0))
