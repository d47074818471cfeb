-- ===== src/Registry/Version/Decimal.antt =====
-- The numerals that `number` of registry/dependencies.rs compares, and their values.
use Prim.Native.Nat.{compare}
use starframe.Prelude.{
  ℕ, suc, ◌+◌, ◌-◌, ◌*◌, ◌≤◌, ◌<◌, ◌≡◌, ap, ◌⊎◌, inl, inr, true, [], ◌∷◌, Text, all, is_ascii_digit,
  length, arith,
}
use starframe.Prelude.Compare.{compare_list}
use starframe.Registry.Version.{numeric, number}

-- The value of a numeral, behind digits of the value `acc`.
pub decimal_from : ℕ → Text → ℕ
decimal_from acc [] = acc
decimal_from acc (byte ∷ value) = decimal_from (acc * 10 + (byte - 48)) value

abbrev pub decimal : Text → ℕ
decimal value = decimal_from 0 value

decimal_from-ge : (a b : ℕ) (right : Text) → a ≤ b → a ≤ decimal_from b right
unfolding decimal_from
decimal_from-ge a b [] h = h
decimal_from-ge a b (d ∷ right) h = decimal_from-ge a (b * 10 + (d - 48)) right (omega arith)

-- A smaller number before as many digits or fewer stays smaller.
decimal_from-lt :
    (left right : Text) (a b : ℕ)
    → all is_ascii_digit left ≡ true
    → length left ≤ length right
    → a < b
    → decimal_from a left < decimal_from b right
unfolding decimal_from
decimal_from-lt [] right a b dl h l = decimal_from-ge (suc a) b right l
decimal_from-lt (c ∷ left) [] a b dl h l = absurd (omega arith)
decimal_from-lt (c ∷ left) (d ∷ right) a b dl h l =
    decimal_from-lt left right (a * 10 + (c - 48)) (b * 10 + (d - 48)) (ground arith) (omega arith)
      (ground arith)

trichotomy : (a b : ℕ) → (a < b) ⊎ (a ≡ b) ⊎ (b < a)
trichotomy a b = omega arith

numeric-all_digits : (value : Text) → numeric value ≡ true → all is_ascii_digit value ≡ true
unfolding numeric
numeric-all_digits value h = ground arith

same_length :
    (left right : Text) (a : ℕ)
    → all is_ascii_digit left ≡ true
    → all is_ascii_digit right ≡ true
    → length left ≡ length right
    → compare_list compare left right ≡ compare (decimal_from a left) (decimal_from a right)
unfolding decimal_from
same_length [] [] a dl dr h = ground arith
same_length [] (d ∷ right) a dl dr h = absurd (omega arith)
same_length (c ∷ left) [] a dl dr h = absurd (omega arith)
same_length (c ∷ left) (d ∷ right) a dl dr h =
    let x = a * 10 + (c - 48) in
    let y = a * 10 + (d - 48) in
    elim (trichotomy c d) [
      | inl less ↦
          ground (arith, decimal_from-lt left right x y (ground arith) (omega arith) (ground arith))
      | inr (inl same) ↦ ground (
        arith,
        ap (λ (byte : ℕ). decimal_from (a * 10 + (byte - 48)) right) same,
        same_length left right x (ground arith) (ground arith) (omega arith),
      )
      | inr (inr more) ↦
          ground (arith, decimal_from-lt right left y x (ground arith) (omega arith) (ground arith))
    ]

-- A numeral with more digits is larger: it does not begin with a zero.
longer :
    (left right : Text)
    → numeric left ≡ true
    → numeric right ≡ true
    → length left < length right
    → decimal left < decimal right
unfolding numeric decimal_from
longer [] right nl nr h = cc
longer (c ∷ left) [] nl nr h = absurd (omega arith)
longer (c ∷ left) (d ∷ []) nl nr h = absurd (omega arith)
longer (c ∷ left) (d ∷ e ∷ right) nl nr h =
    decimal_from-lt (c ∷ left) (e ∷ right) 0 (0 * 10 + (d - 48)) (ground arith) (omega arith)
      (ground arith)

-- On two numerals that `numeric` accepts, `number` (by length, then by bytes) is the comparison
-- of their decimal values.
pub number-eq-compare :
    (left right : Text)
    → numeric left ≡ true
    → numeric right ≡ true
    → number left right ≡ compare (decimal left) (decimal right)
unfolding number
number-eq-compare left right nl nr = elim (trichotomy (length left) (length right)) [
  | inl less ↦ ground (arith, longer left right nl nr less)
  | inr (inl same) ↦ ground (
    arith,
    same_length left right 0 (numeric-all_digits left nl) (numeric-all_digits right nr) same,
  )
  | inr (inr more) ↦ ground (arith, longer right left nr nl more)
]
