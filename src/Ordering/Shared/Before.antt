-- ===== src/Ordering/Shared/Before.antt =====
-- Which items of a resolution stand before which others.
use starframe.Prelude.{
  ℕ, zero, suc, ◌<◌, ◌≡◌, refl, sym, ap, subst, ◌∙◌, true, some, some_inj, List, [], ◌∷◌, ◌++◌,
  append_assoc, length, get_elem?, elem, arith, ◌==◌, Bool-cases, inl, inr,
}
use starframe.Prelude.Outcome.{ok, or_panic, >>=-eq-ok, or_panic-eq-ok, ok_inj}
use starframe.Ordering.Graph.{Edges}
use starframe.Ordering.Graph.Drain.{IsTopological}
use starframe.Ordering.Graph.Search.{HasEdge}
use starframe.Ordering.Graph.Order.{IsOrder}
use starframe.Ordering.Shared.{pick}

-- `a` stands in the list before `b`.
pub record Before {A : Type 0} (l : List A) (a b : A) : Type 0 where
  pub left : ℕ
  pub right : ℕ
  pub lower : left < right
  pub at_left : get_elem? l left ≡ some a
  pub at_right : get_elem? l right ≡ some b

get_elem?_left :
    {A : Type 0} (xs ys : List A) (i : ℕ) {x : A}
    → get_elem? xs i ≡ some x
    → get_elem? (xs ++ ys) i ≡ some x
get_elem?_left [] ys i e = cc
get_elem?_left (x ∷ xs) ys zero e = e
get_elem?_left (x ∷ xs) ys (suc i) e = get_elem?_left xs ys i e

get_elem?_middle :
    {A : Type 0} (xs : List A) (x : A) (ys : List A) → get_elem? (xs ++ x ∷ ys) (length xs) ≡ some x
get_elem?_middle [] x ys = refl
get_elem?_middle (z ∷ xs) x ys = get_elem?_middle xs x ys

pub place_of_elem :
    (u : ℕ) (l : List ℕ) → elem u l ≡ true → (i : ℕ) × (i < length l) × (get_elem? l i ≡ some u)
place_of_elem u [] m = cc
place_of_elem u (x ∷ l) m = elim (Bool-cases (u == x)) [
  | inl here ↦ (zero, omega arith, ap some (ground arith))
  | inr there ↦ let (i, l', e) = place_of_elem u l (ground arith) in (suc i, omega arith, e)
]

Before-edge_in :
    (edges : Edges) (u v : ℕ) (seen l : List ℕ)
    → HasEdge edges u v
    → IsTopological edges seen l
    → elem v l ≡ true
    → Before (seen ++ l) u v
Before-edge_in edges u v seen [] e t m = cc
Before-edge_in edges u v seen (x ∷ l) (row, r, points) t m = elim (Bool-cases (v == x)) [
  | inl here ↦
      let same : v ≡ x = ground arith in
      let source : elem u seen ≡ true =
        t.0.2 u row r (subst (λ w. elem w row ≡ true) same points) in
      let (i, lower, at) = place_of_elem u seen source in
      record {
        left = i;
        right = length seen;
        lower = lower;
        at_left = get_elem?_left seen (x ∷ l) i at;
        at_right = get_elem?_middle seen x l ∙ ap some (sym same);
      }
  | inr there ↦
      subst (λ whole. Before whole u v) (append_assoc seen (x ∷ []) l)
        (Before-edge_in edges u v (seen ++ x ∷ []) l (row, r, points) t.1 (ground arith))
]

-- An edge puts its source before its target.
pub Before-edge :
    (edges : Edges) (indices : List ℕ) (u v : ℕ)
    → IsOrder edges indices
    → HasEdge edges u v
    → v < length edges
    → Before indices u v
Before-edge edges indices u v o e l = Before-edge_in edges u v [] indices e o.ordered (o.covers v l)

pub pick_at :
    {A : Type 0} (items : List A) (indices : List ℕ) (picked : List A) (i u : ℕ) (x : A)
    → pick items indices ≡ ok picked
    → get_elem? indices i ≡ some u
    → get_elem? items u ≡ some x
    → get_elem? picked i ≡ some x
unfolding pick
pick_at items [] picked i u x h e f = cc
pick_at items (index ∷ indices) picked zero u x h e f =
    let (item, got, h1) = >>=-eq-ok (or_panic (get_elem? items index)) _ h in
    let (rest, run, h2) = >>=-eq-ok (pick items indices) _ h1 in
    subst (λ l. get_elem? l zero ≡ some x) (ok_inj (item ∷ rest) picked h2)
      (sym (or_panic-eq-ok (get_elem? items index) got)
        ∙ ap (get_elem? items) (some_inj index u e)
        ∙ f)
pick_at items (index ∷ indices) picked (suc i) u x h e f =
    let (item, got, h1) = >>=-eq-ok (or_panic (get_elem? items index)) _ h in
    let (rest, run, h2) = >>=-eq-ok (pick items indices) _ h1 in
    subst (λ l. get_elem? l (suc i) ≡ some x) (ok_inj (item ∷ rest) picked h2)
      (pick_at items indices rest i u x run e f)

-- What stands before in the indices stands before in the items that they pick.
pub Before-pick :
    {A : Type 0} (items : List A) (indices : List ℕ) (picked : List A) (u v : ℕ) (a b : A)
    → Before indices u v
    → pick items indices ≡ ok picked
    → get_elem? items u ≡ some a
    → get_elem? items v ≡ some b
    → Before picked a b
Before-pick items indices picked u v a b before h fa fb = record {
  left = before.left;
  right = before.right;
  lower = before.lower;
  at_left = pick_at items indices picked before.left u a h before.at_left fa;
  at_right = pick_at items indices picked before.right v b h before.at_right fb;
}
