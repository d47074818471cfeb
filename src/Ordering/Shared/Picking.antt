-- ===== src/Ordering/Shared/Picking.antt =====
-- From an order of indices to an order of the items.
use mathlib.Core.List.{Perm, not-mem-nil, mem-cons_self}
use mathlib.Core.List.Perm
use starframe.Prelude.{
  ℕ, zero, suc, ◌+◌, ◌≡◌, refl, sym, ap, ap₂, subst, ◌∙◌, Option, none, some, some_inj, List, [],
  ◌∷◌, map, Text, length, get_elem?, arith,
}
use starframe.Prelude.Outcome.{ok, or_panic, >>=-eq-ok, or_panic-eq-ok, ok_inj}
use starframe.Ordering.Graph.{Edges, cycle, topological}
use starframe.Ordering.Graph.Drain.{IsGraph}
use starframe.Ordering.Graph.Acyclic.{range_from}
use starframe.Ordering.Graph.Order.{IsOrder, topological_of_acyclic}
use starframe.Ordering.Shared.{pick, refuse_cycle, report_cycle, order_of}

report_cycle-ok :
    (names : List Text) (advice : Text) (verdict : Option (List ℕ)) {u : Unit {0}}
    → report_cycle names advice verdict ≡ ok u
    → verdict ≡ none
unfolding report_cycle
report_cycle-ok names advice none h = refl
report_cycle-ok names advice (some result) {u} h =
    let (involved, run, stop) = >>=-eq-ok (pick names result) _ h in cc

-- Where no cycle was refused, `cycle` reported none.
pub refuse_cycle-acyclic :
    (names : List Text) (advice : Text) (edges : Edges) {u : Unit {0}}
    → refuse_cycle names advice edges ≡ ok u
    → cycle edges ≡ some none
unfolding refuse_cycle
refuse_cycle-acyclic names advice edges {u} h =
    let (verdict, run, rest) = >>=-eq-ok (or_panic (cycle edges)) (report_cycle names advice) h in
    or_panic-eq-ok (cycle edges) run ∙ ap some (report_cycle-ok names advice verdict rest)

-- After that, `topological` returns an order of all indices.
pub order_of-IsOrder :
    (edges : Edges) (indices : List ℕ)
    → IsGraph edges
    → cycle edges ≡ some none
    → order_of edges ≡ ok indices
    → IsOrder edges indices
unfolding order_of
order_of-IsOrder edges indices graph acyclic h =
    let (effective, run, o) = topological_of_acyclic edges graph acyclic in
    subst (IsOrder edges)
      (some_inj effective indices (sym run ∙ or_panic-eq-ok (topological edges) h)) o

module _ {A : Type 0} where
  abbrev pub get_or : List A → ℕ → A → A
  get_or [] index default = default
  get_or (x ∷ xs) zero default = x
  get_or (x ∷ xs) (suc index) default = get_or xs index default

  get_or_of :
      (items : List A) (index : ℕ) (default x : A)
      → get_elem? items index ≡ some x
      → get_or items index default ≡ x
  get_or_of [] index default x h = cc
  get_or_of (y ∷ items) zero default x h = some_inj y x h
  get_or_of (y ∷ items) (suc index) default x h = get_or_of items index default x h

  pick-map :
      (items : List A) (default : A) (indices : List ℕ) (picked : List A)
      → pick items indices ≡ ok picked
      → map (λ index. get_or items index default) indices ≡ picked
  unfolding pick
  pick-map items default [] picked h = ok_inj [] picked h
  pick-map items default (index ∷ indices) picked h =
      let (x, got, h1) = >>=-eq-ok (or_panic (get_elem? items index)) _ h in
      let (rest, run, h2) = >>=-eq-ok (pick items indices) _ h1 in
      ap₂ ◌∷◌ (get_or_of items index default x (or_panic-eq-ok (get_elem? items index) got))
        (pick-map items default indices rest run)
      ∙ ok_inj (x ∷ rest) picked h2

  map-range :
      (g : ℕ → A) (index : ℕ) (items : List A)
      → ((k v : ℕ) (x : A) → v ≡ index + k → get_elem? items k ≡ some x → g v ≡ x)
      → map g (range_from index (length items)) ≡ items
  map-range g index [] h = refl
  map-range g index (x ∷ items) h =
      ap₂ ◌∷◌ (h 0 index x (omega arith) refl)
        (map-range g (suc index) items (λ k v y e r. h (suc k) v y (omega arith) r))

  pick-nil : (picked : List A) → pick {A = A} [] [] ≡ ok picked → [] ≡ picked
  unfolding pick
  pick-nil picked h = ok_inj [] picked h

  -- Picking by a permutation of the indices gives a permutation of the items.
  pub pick-perm :
      (items : List A) (indices : List ℕ) (picked : List A)
      → Perm indices (range_from 0 (length items))
      → pick items indices ≡ ok picked
      → Perm picked items
  pick-perm [] [] picked p h = subst (λ l. Perm l []) (pick-nil picked h) (Perm.refl [])
  pick-perm [] (index ∷ indices) picked p h =
      absurd (not-mem-nil (Perm.subset p index mem-cons_self))
  pick-perm (x ∷ items) indices picked p h =
      let g = λ (index : ℕ). get_or (x ∷ items) index x in
      subst (λ l. Perm l (x ∷ items)) (pick-map (x ∷ items) x indices picked h)
        (subst (Perm (map g indices))
          (map-range g 0 (x ∷ items)
            (λ k v y e r. ap g (omega arith) ∙ get_or_of (x ∷ items) k x y r))
          (Perm.map g p))
