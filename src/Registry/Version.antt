-- ===== src/Registry/Version.antt =====
-- `Version` of registry/dependencies.rs: parsing a release label and comparing two.
pub mod Order
pub mod Decimal
use Prim.Native.Nat.{compare, Ordering}
use starframe.Prelude.{
  ℕ, ◌<◌, ◌≡◌, refl, Bool, true, false, not, ◌&&◌, ◌||◌, Option, none, some, List, [], ◌∷◌, Text,
  text_eq, codes, all, any, is_ascii_digit, is_ascii_alphanumeric, is_empty, split, split_once,
  length, ltb, ◌==◌, if◌then◌else◌,
}
use starframe.Prelude.Compare.{then_with, compare_list}

pub record Version : Type 0 where
  pub major : Text
  pub minor : Text
  pub patch : Text
  pub pre : List Text

-- `value.starts_with('0')`
starts_with_zero : Text → Bool
starts_with_zero [] = false
starts_with_zero (byte ∷ value) = byte == b'0'

abbrev all_digits : Text → Bool
all_digits value = all is_ascii_digit value

unfoldable pub numeric : Text → Bool
unfolding starts_with_zero
numeric value =
    not (is_empty value)
    && all_digits value
    && (text_eq value (codes "0") || not (starts_with_zero value))

-- The parts of `value.split('.')`, if each is an identifier.
unfoldable pub identifiers : Text → Option (List Text)
unfolding split
identifiers value =
    let parts = split b'.' value in
    if all
      (λ part. not (is_empty part) && all (λ byte. is_ascii_alphanumeric byte || byte == b'-') part)
      parts
    then some parts
    else none

-- `split_once(separator).map_or((value, None), |(a, b)| (a, Some(b)))`
cut : ℕ → Text → Text × Option Text
unfolding split_once
cut separator value = elim (split_once separator value) [
  | none ↦ (value, none)
  | some (before, after) ↦ (before, some after)
]

-- `is_some_and(|build| identifiers(build).is_none())`
bad_build : Option Text → Bool
unfolding identifiers
bad_build none = false
bad_build (some build) = elim (identifiers build) [ none ↦ true | some parts ↦ false ]

parse_pre : Option Text → Option (List Text)
unfolding identifiers
parse_pre none = some []
parse_pre (some pre) = identifiers pre

assemble : List Text → Option (List Text) → Option Version
unfolding numeric
assemble (major ∷ minor ∷ patch ∷ []) (some pre) =
    if numeric major && numeric minor && numeric patch
    then (if any (λ part. all_digits part && not (numeric part)) pre
        then none
        else some (record { major = major; minor = minor; patch = patch; pre = pre }))
    else none
assemble _ _ = none

-- `Version::parse`
unfoldable pub parse : Text → Option Version
unfolding cut bad_build parse_pre assemble
parse value =
    if ltb 100 (length value)
    then none
    else (let (version, build) = cut b'+' value in
        if bad_build build
        then none
        else (let (core, pre) = cut b'-' version in assemble (split b'.' core) (parse_pre pre)))

-- `left.len().cmp(&right.len()).then(left.cmp(right))`
unfoldable pub number : Text → Text → Ordering
number left right =
    then_with (compare (length left) (length right)) (compare_list compare left right)

-- The order of two pre-release identifiers.
unfoldable pub compare_part : Text → Text → Ordering
unfolding number
compare_part left right =
    if all_digits left
    then (if all_digits right then number left right else Ordering.lt)
    else (if all_digits right then Ordering.gt else compare_list compare left right)

-- The loop over `self.pre.iter().zip(other.pre.iter())`: the first difference, or `Equal`.
unfoldable pub compare_zipped : List Text → List Text → Ordering
unfolding compare_part
compare_zipped [] right = Ordering.eq
compare_zipped (x ∷ left) [] = Ordering.eq
compare_zipped (x ∷ left) (y ∷ right) = then_with (compare_part x y) (compare_zipped left right)

-- `bool::cmp`
compare_bool : Bool → Bool → Ordering
compare_bool false false = Ordering.eq
compare_bool false true = Ordering.lt
compare_bool true false = Ordering.gt
compare_bool true true = Ordering.eq

unfoldable pub compare_pre : List Text → List Text → Ordering
unfolding compare_bool compare_zipped
compare_pre left right =
    if is_empty left || is_empty right
    then compare_bool (is_empty left) (is_empty right)
    else then_with (compare_zipped left right) (compare (length left) (length right))

-- `Version::compare`
unfoldable pub compare_version : Version → Version → Ordering
unfolding number compare_pre
compare_version a b = then_with (number a.major b.major) (
    then_with (number a.minor b.minor)
      (then_with (number a.patch b.patch) (compare_pre a.pre b.pre)))
