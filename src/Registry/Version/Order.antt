-- ===== src/Registry/Version/Order.antt =====
-- `Version::compare` of registry/dependencies.rs as an order.
use Prim.Native.Nat.{compare, Ordering}
use starframe.Prelude.{
  ◌≡◌, refl, sym, ap, ◌∙◌, Bool, ◌||◌, List, [], ◌∷◌, Text, all, is_ascii_digit, is_empty, length,
  arith, if◌then◌else◌,
}
use starframe.Prelude.Compare.{
  then_with, reversed, compare_list, IsTotalOrder, compare-IsTotalOrder, compare_list-IsTotalOrder,
}
use starframe.Registry.Version.{
  Version, number, compare_part, compare_zipped, compare_bool, compare_pre, compare_version,
}

abbrev bytes_order : IsTotalOrder (compare_list compare)
bytes_order = compare_list-IsTotalOrder compare compare-IsTotalOrder

number-IsTotalOrder : IsTotalOrder number
unfolding number
number-IsTotalOrder = record {
  same = λ a. ground (arith, bytes_order.same a);
  equal = λ a b h. ground (arith, bytes_order.equal a b);
  swap = λ a b. ground (arith, bytes_order.swap a b);
  trans = λ a b c h k. ground (arith, bytes_order.trans a b c);
}

abbrev all_digits : Text → Bool
all_digits value = all is_ascii_digit value

compare_part-IsTotalOrder : IsTotalOrder compare_part
unfolding compare_part
compare_part-IsTotalOrder =
    let n = number-IsTotalOrder in
    record {
      same = λ a. ground (arith, n.same a, bytes_order.same a);
      equal = λ a b h. ground (arith, n.equal a b, bytes_order.equal a b);
      swap = λ a b. ground (arith, n.swap a b, bytes_order.swap a b);
      trans = λ a b c h k. ground (arith, n.trans a b c, bytes_order.trans a b c);
    }

abbrev part_order : IsTotalOrder (compare_list compare_part)
part_order = compare_list-IsTotalOrder compare_part compare_part-IsTotalOrder

-- The loop and the comparison of the lengths behind it are the order of sequences.
zipped_lem :
    (xs ys : List Text)
    → then_with (compare_zipped xs ys) (compare (length xs) (length ys))
      ≡ compare_list compare_part xs ys
unfolding compare_zipped
zipped_lem [] [] = refl
zipped_lem [] (y ∷ ys) = ground arith
zipped_lem (x ∷ xs) [] = ground arith
zipped_lem (x ∷ xs) (y ∷ ys) = ground (arith, zipped_lem xs ys)

compare_pre_lem :
    (xs ys : List Text)
    → compare_pre xs ys ≡ (
        if is_empty xs || is_empty ys
        then compare_bool (is_empty xs) (is_empty ys)
        else compare_list compare_part xs ys)
unfolding compare_pre
compare_pre_lem xs ys = rw zipped_lem

pre_same : (xs : List Text) → compare_pre xs xs ≡ Ordering.eq
unfolding compare_bool
pre_same [] = compare_pre_lem [] []
pre_same (x ∷ xs) = compare_pre_lem (x ∷ xs) (x ∷ xs) ∙ part_order.same (x ∷ xs)

pre_equal : (xs ys : List Text) → compare_pre xs ys ≡ Ordering.eq → xs ≡ ys
unfolding compare_bool
pre_equal [] [] h = refl
pre_equal [] (y ∷ ys) h = cc (compare_pre_lem [] (y ∷ ys))
pre_equal (x ∷ xs) [] h = cc (compare_pre_lem (x ∷ xs) [])
pre_equal (x ∷ xs) (y ∷ ys) h =
    part_order.equal (x ∷ xs) (y ∷ ys) (sym (compare_pre_lem (x ∷ xs) (y ∷ ys)) ∙ h)

pre_swap : (xs ys : List Text) → compare_pre ys xs ≡ reversed (compare_pre xs ys)
unfolding compare_bool
pre_swap [] [] = rw compare_pre_lem
pre_swap [] (y ∷ ys) = rw (compare_pre_lem, compare_pre_lem [] (y ∷ ys))
pre_swap (x ∷ xs) [] = rw (compare_pre_lem, compare_pre_lem (x ∷ xs) [])
pre_swap (x ∷ xs) (y ∷ ys) =
    rw (compare_pre_lem (y ∷ ys) (x ∷ xs), compare_pre_lem (x ∷ xs) (y ∷ ys))
      (part_order.swap (x ∷ xs) (y ∷ ys))

pre_trans :
    (xs ys zs : List Text)
    → compare_pre xs ys ≡ Ordering.lt
    → compare_pre ys zs ≡ Ordering.lt
    → compare_pre xs zs ≡ Ordering.lt
unfolding compare_bool
pre_trans [] [] zs h k = cc
pre_trans [] (y ∷ ys) zs h k = cc (compare_pre_lem [] (y ∷ ys))
pre_trans (x ∷ xs) [] [] h k = cc
pre_trans (x ∷ xs) [] (z ∷ zs) h k = cc (compare_pre_lem [] (z ∷ zs))
pre_trans (x ∷ xs) (y ∷ ys) [] h k = compare_pre_lem (x ∷ xs) []
pre_trans (x ∷ xs) (y ∷ ys) (z ∷ zs) h k =
    compare_pre_lem (x ∷ xs) (z ∷ zs)
    ∙ part_order.trans (x ∷ xs) (y ∷ ys) (z ∷ zs) (sym (compare_pre_lem (x ∷ xs) (y ∷ ys)) ∙ h)
        (sym (compare_pre_lem (y ∷ ys) (z ∷ zs)) ∙ k)

-- Comparing by one total order and then by another is a total order of the pairs.
both : {A B : Type 0} → (A → A → Ordering) → (B → B → Ordering) → A × B → A × B → Ordering
both f g a b = then_with (f a.0 b.0) (g a.1 b.1)

both-IsTotalOrder :
    {A B : Type 0} {f : A → A → Ordering} {g : B → B → Ordering}
    → IsTotalOrder f
    → IsTotalOrder g
    → IsTotalOrder (both f g)
unfolding both
both-IsTotalOrder f g = record {
  same = λ a. ground (arith, f.same a.0, g.same a.1);
  equal = λ a b h. ground (arith, f.equal a.0 b.0, g.equal a.1 b.1);
  swap = λ a b. ground (arith, f.swap a.0 b.0, g.swap a.1 b.1);
  trans = λ a b c h k. ground (
    arith,
    f.trans a.0 b.0 c.0,
    g.trans a.1 b.1 c.1,
    f.equal a.0 b.0,
    f.equal b.0 c.0,
    f.same a.0,
  );
}

-- `compare_version` is a total order: a version compares equal to itself, only equal versions
-- compare equal, swapping the versions reverses the result, and less-than is transitive.
pub compare_version-IsTotalOrder : IsTotalOrder compare_version
unfolding compare_version both
compare_version-IsTotalOrder =
    let pre : IsTotalOrder compare_pre = record {
      same = pre_same;
      equal = pre_equal;
      swap = pre_swap;
      trans = pre_trans;
    } in
    let n = number-IsTotalOrder in
    let all_four = both-IsTotalOrder n (both-IsTotalOrder n (both-IsTotalOrder n pre)) in
    record {
      same = λ a. all_four.same (key a);
      equal = λ a b h. ap version (all_four.equal (key a) (key b) h);
      swap = λ a b. all_four.swap (key a) (key b);
      trans = λ a b c h k. all_four.trans (key a) (key b) (key c) h k;
    }
  where
    key : Version → Text × (Text × (Text × List Text))
    key v = (v.major, (v.minor, (v.patch, v.pre)))

    version : Text × (Text × (Text × List Text)) → Version
    version k = record { major = k.0; minor = k.1.0; patch = k.1.1.0; pre = k.1.1.1 }
