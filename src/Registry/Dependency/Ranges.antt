-- ===== src/Registry/Dependency/Ranges.antt =====
-- `Dependency::matches` on version ranges.
use Prim.Native.Nat.{Ordering}
use starframe.Prelude.{
  ℕ, ◌≡◌, ◌≢◌, refl, Bool, true, false, ◌||◌, Option, none, some, Text, is_empty, arith,
  Option-cases, inl, inr,
}
use starframe.Prelude.Compare.{IsTotalOrder}
use starframe.Registry.Version.{Version, parse, compare_version}
use starframe.Registry.Version.Order.{compare_version-IsTotalOrder}
use starframe.Registry.Dependency.{
  range, is_less, valid_constraint, reaches, precedes, in_range, matches,
}

abbrev order : IsTotalOrder compare_version
order = compare_version-IsTotalOrder

-- `a ≤ b ≤ c` and `l ≤ a`, `c < u` put `b` between `l` and `u`.
module _ (a b : Version) (below : compare_version a b ≢ Ordering.gt) where
  not_less_up :
      (l : Version) → is_less (compare_version a l) ≡ false → is_less (compare_version b l) ≡ false
  not_less_up l h = ground (arith, order.trans a b l, order.equal a b, order.swap a b)

  less_down :
      (u : Version) → is_less (compare_version b u) ≡ true → is_less (compare_version a u) ≡ true
  less_down u h = ground (arith, order.trans a b u, order.equal a b, order.swap a b)

reaches_up :
    (minimum : Option Text) (a b : Version)
    → compare_version a b ≢ Ordering.gt
    → reaches minimum a ≡ true
    → reaches minimum b ≡ true
unfolding reaches
reaches_up none a b h r = refl
reaches_up (some minimum) a b h r = elim (Option-cases (parse minimum)) [
  | inl e ↦ ground arith
  | inr (l, e) ↦ ground (arith, not_less_up a b h l)
]

precedes_down :
    (before : Option Text) (a b : Version)
    → compare_version a b ≢ Ordering.gt
    → precedes before b ≡ true
    → precedes before a ≡ true
unfolding precedes
precedes_down none a b h r = refl
precedes_down (some before) a b h r = elim (Option-cases (parse before)) [
  | inl e ↦ ground arith
  | inr (u, e) ↦ ground (arith, less_down a b h u)
]

-- If a range matches two version labels, and the version of a third label is neither below the
-- first nor above the second, then the range matches the third label too, provided that it admits
-- pre-releases or the third is none.
pub matches_between :
    (id release_a release_b release_c : ℕ) (minimum before : Option Text) (pre : Bool)
    (label_a label_b label_c : Text) {a b c : Version}
    → parse label_a ≡ some a
    → parse label_b ≡ some b
    → parse label_c ≡ some c
    → compare_version a b ≢ Ordering.gt
    → compare_version b c ≢ Ordering.gt
    → (pre || is_empty b.pre) ≡ true
    → matches (range id minimum before pre) id release_a label_a ≡ true
    → matches (range id minimum before pre) id release_c label_c ≡ true
    → matches (range id minimum before pre) id release_b label_b ≡ true
unfolding matches in_range
matches_between id ra rb rc minimum before pre la lb lc {a} {b} {c} pa pb pc ab bc p ma mc =
    ground (arith, reaches_up minimum a b ab, precedes_down before b c bc)

-- A valid range with a minimum matches that minimum as a label of its own mod, if it admits pre-
-- releases or the minimum is none.
pub minimum_matches :
    (is_version4 : ℕ → Bool) (id release_id : ℕ) (minimum : Text) (before : Option Text)
    (pre : Bool) {v : Version}
    → valid_constraint is_version4 (range id (some minimum) before pre) ≡ true
    → parse minimum ≡ some v
    → (pre || is_empty v.pre) ≡ true
    → matches (range id (some minimum) before pre) id release_id minimum ≡ true
unfolding matches in_range valid_constraint reaches precedes
minimum_matches is_version4 id release_id minimum none pre {v} h p r = ground (arith, order.same v)
minimum_matches is_version4 id release_id minimum (some before) pre {v} h p r =
    elim (Option-cases (parse before)) [
      | inl e ↦ ground arith
      | inr (u, e) ↦ ground (arith, order.same v)
    ]
