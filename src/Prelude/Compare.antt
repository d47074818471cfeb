-- ===== src/Prelude/Compare.antt =====
-- `std::cmp::Ordering`, and comparisons that are total orders.
use Prim.Native.Nat.{compare, Ordering}
use mathlib.Core.Path.{◌≡◌, refl, ap₂}
use mathlib.Core.List.{List, [], ◌∷◌}
use native.Mathlib.Omega.{arith}

-- `ordering.then(other)`
abbrev pub then_with : Ordering → Ordering → Ordering
then_with Ordering.lt other = Ordering.lt
then_with Ordering.eq other = other
then_with Ordering.gt other = Ordering.gt

abbrev pub reversed : Ordering → Ordering
reversed Ordering.lt = Ordering.gt
reversed Ordering.eq = Ordering.eq
reversed Ordering.gt = Ordering.lt

-- The laws of a total order whose equality is that of the values.
pub record IsTotalOrder {ℓ} {A : Type ℓ} (cmp : A → A → Ordering) : Type ℓ where
  pub same : (a : A) → cmp a a ≡ Ordering.eq
  pub equal : (a b : A) → cmp a b ≡ Ordering.eq → a ≡ b
  pub swap : (a b : A) → cmp b a ≡ reversed (cmp a b)
  pub trans : (a b c : A) → cmp a b ≡ Ordering.lt → cmp b c ≡ Ordering.lt → cmp a c ≡ Ordering.lt

pub compare-IsTotalOrder : IsTotalOrder compare
compare-IsTotalOrder = record {
  same = λ a. ground arith;
  equal = λ a b h. ground arith;
  swap = λ a b. ground arith;
  trans = λ a b c h k. ground arith;
}

-- The first difference decides, and a prefix comes first: slices and `str`.
abbrev pub compare_list {ℓ} : {A : Type ℓ} → (A → A → Ordering) → List A → List A → Ordering
compare_list cmp [] [] = Ordering.eq
compare_list cmp [] (y ∷ ys) = Ordering.lt
compare_list cmp (x ∷ xs) [] = Ordering.gt
compare_list cmp (x ∷ xs) (y ∷ ys) = then_with (cmp x y) (compare_list cmp xs ys)

module _ {ℓ} {A : Type ℓ} (cmp : A → A → Ordering) (o : IsTotalOrder cmp) where
  list_same : (xs : List A) → compare_list cmp xs xs ≡ Ordering.eq
  list_same [] = refl
  list_same (x ∷ xs) = rw (o.same x) (list_same xs)

  list_equal : (xs ys : List A) → compare_list cmp xs ys ≡ Ordering.eq → xs ≡ ys
  list_equal [] [] h = refl
  list_equal [] (y ∷ ys) h = cc
  list_equal (x ∷ xs) [] h = cc
  list_equal (x ∷ xs) (y ∷ ys) h =
      ap₂ ◌∷◌ (o.equal x y (ground arith)) (list_equal xs ys (ground arith))

  list_swap : (xs ys : List A) → compare_list cmp ys xs ≡ reversed (compare_list cmp xs ys)
  list_swap [] [] = refl
  list_swap [] (y ∷ ys) = refl
  list_swap (x ∷ xs) [] = refl
  list_swap (x ∷ xs) (y ∷ ys) = ground (arith, o.swap x y, list_swap xs ys)

  list_trans :
      (xs ys zs : List A)
      → compare_list cmp xs ys ≡ Ordering.lt
      → compare_list cmp ys zs ≡ Ordering.lt
      → compare_list cmp xs zs ≡ Ordering.lt
  list_trans [] [] zs h k = cc
  list_trans (x ∷ xs) [] zs h k = cc
  list_trans [] (y ∷ ys) [] h k = cc
  list_trans [] (y ∷ ys) (z ∷ zs) h k = refl
  list_trans (x ∷ xs) (y ∷ ys) [] h k = cc
  list_trans (x ∷ xs) (y ∷ ys) (z ∷ zs) h k =
      ground (arith, o.trans x y z, o.equal x y, o.equal y z, o.same y, list_trans xs ys zs)

  pub compare_list-IsTotalOrder : IsTotalOrder (compare_list cmp)
  compare_list-IsTotalOrder = record {
    same = list_same;
    equal = list_equal;
    swap = list_swap;
    trans = list_trans;
  }
