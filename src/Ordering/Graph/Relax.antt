-- ===== src/Ordering/Graph/Relax.antt =====
-- What the two inner loops of `topological` do to `incoming` and to `ready`.
use starframe.Prelude.{
  ℕ, zero, suc, ◌+◌, ◌-◌, ◌<◌, ◌≡◌, refl, ◌∙◌, true, ◌&&◌, ◌||◌, none, some, List, [], ◌∷◌, length,
  get_elem?, set, replicate, length-set, get_elem?_of_lt, elem, arith, ◌==◌, if◌then◌else◌,
  IsAscending, IsAbove-elem, IsAbove-not-elem, elem-insert, insert-IsAscending, insert,
}
use starframe.Ordering.Graph.{relax, count_targets}
use starframe.Ordering.Graph.Rows.{one_if}

-- Every element is an index below `n`.
abbrev pub AllBelow : ℕ → List ℕ → Type 0
AllBelow n [] = Unit
AllBelow n (x ∷ xs) = (x < n) × AllBelow n xs

-- The counts, read with a default, which stands for an index out of range.
abbrev pub count_at : List ℕ → ℕ → ℕ
count_at incoming v = elim (get_elem? incoming v) [ none ↦ 0 | some count ↦ count ]

pub count_at-set :
    (incoming : List ℕ) (to count v : ℕ)
    → to < length incoming
    → count_at (set incoming to count) v ≡ (if to == v then count else count_at incoming v)
count_at-set [] to count v l = elim l [ ]
count_at-set (x ∷ xs) zero count zero l = refl
count_at-set (x ∷ xs) zero count (suc v) l = ground arith
count_at-set (x ∷ xs) (suc to) count zero l = ground arith
count_at-set (x ∷ xs) (suc to) count (suc v) l =
    ground (arith, count_at-set xs to count v (omega arith))

pub count_at_of :
    (incoming : List ℕ) (to : ℕ) {count : ℕ}
    → get_elem? incoming to ≡ some count
    → count_at incoming to ≡ count
count_at_of incoming to e = ground arith

AllBelow-set :
    (xs incoming : List ℕ) (to count : ℕ)
    → AllBelow (length incoming) xs
    → AllBelow (length (set incoming to count)) xs
AllBelow-set xs incoming to count h = rw length-set h

pub count_at-replicate : (n v : ℕ) → count_at (replicate n 0) v ≡ 0
count_at-replicate zero v = refl
count_at-replicate (suc n) zero = refl
count_at-replicate (suc n) (suc v) = count_at-replicate n v

-- After counting the targets of one index, each target has one edge more.
pub record Counted (targets incoming counts : List ℕ) : Type 0 where
  pub size : length counts ≡ length incoming
  pub at : (v : ℕ) → count_at counts v ≡ one_if (elem v targets) + count_at incoming v

pub count_targets_lem :
    (targets incoming : List ℕ)
    → IsAscending targets
    → AllBelow (length incoming) targets
    → (counts : List ℕ) × (count_targets targets incoming ≡ some counts)
      × Counted targets incoming counts
unfolding count_targets
count_targets_lem [] incoming asc below =
    (incoming, refl, record { size = refl; at = λ v. omega arith })
count_targets_lem (to ∷ targets) incoming asc below =
    let (count, e) = get_elem?_of_lt incoming to below.0 in
    let next = set incoming to (count + 1) in
    let (counts, r, c) =
      count_targets_lem targets next asc.1 (AllBelow-set targets incoming to (count + 1) below.1) in
    (
      counts,
      rw e r,
      record {
        size = c.size ∙ length-set incoming to (count + 1);
        at = λ v. ground (
          arith,
          c.at v,
          count_at-set incoming to (count + 1) v below.0,
          count_at_of incoming to e,
          IsAbove-not-elem to targets asc.0,
        );
      },
    )

-- After an index was taken, each of its targets has one edge less, and those whose last edge it was
-- are ready.
pub record Relaxed (targets incoming ready counts more : List ℕ) : Type 0 where
  pub size : length counts ≡ length incoming
  pub at : (v : ℕ) → one_if (elem v targets) + count_at counts v ≡ count_at incoming v
  pub ready_at :
      (v : ℕ) → elem v more ≡ (elem v ready || (elem v targets && (count_at incoming v == 1)))
  pub ascending : IsAscending more

pub relax_lem :
    (targets incoming ready : List ℕ)
    → IsAscending targets
    → AllBelow (length incoming) targets
    → ((v : ℕ) → elem v targets ≡ true → 0 < count_at incoming v)
    → IsAscending ready
    → (counts more : List ℕ) × (relax targets incoming ready ≡ some (counts, more))
      × Relaxed targets incoming ready counts more
unfolding relax
relax_lem [] incoming ready asc below positive ready_asc = (
  incoming,
  ready,
  refl,
  record {
    size = refl;
    at = λ v. omega arith;
    ready_at = λ v. ground arith;
    ascending = ready_asc;
  },
)
relax_lem (to ∷ targets) incoming ready asc below positive ready_asc =
    let (count, e) = get_elem?_of_lt incoming to below.0 in
    let next = set incoming to (count - 1) in
    let known : count_at incoming to ≡ count = count_at_of incoming to e in
    let some_edge : 0 < count = ground (arith, positive to) in
    let queue = if count - 1 == 0 then insert to ready else ready in
    let (counts, more, r, c) =
      relax_lem targets next queue asc.1 (AllBelow-set targets incoming to (count - 1) below.1)
        (λ v m. ground (
          arith,
          positive v,
          count_at-set incoming to (count - 1) v below.0,
          IsAbove-elem to v targets asc.0 m,
        ))
        (ground (arith, insert-IsAscending to ready ready_asc)) in
    (
      counts,
      more,
      ground (arith, r),
      record {
        size = c.size ∙ length-set incoming to (count - 1);
        at = λ v. ground (
          arith,
          c.at v,
          count_at-set incoming to (count - 1) v below.0,
          IsAbove-not-elem to targets asc.0,
        );
        ready_at = λ v. ground (
          arith,
          c.ready_at v,
          count_at-set incoming to (count - 1) v below.0,
          IsAbove-not-elem to targets asc.0,
          elem-insert v to ready,
        );
        ascending = c.ascending;
      },
    )
