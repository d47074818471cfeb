-- ===== src/Contract/Document/Overlap.antt =====
-- `overlaps` of src-tauri/src/runtime_contract.rs, and the parts of the paths that it compares.
use starframe.Prelude.{
  ℕ, ◌≡◌, refl, Bool, true, false, ◌&&◌, ◌||◌, List, [], ◌∷◌, Text, text_eq, split, cons_first,
  ◌==◌, Bool-cases, inl, inr, arith,
}
use starframe.Contract.Document.{lies_in, overlaps}

-- The first list begins the second.
abbrev pub begins : List Text → List Text → Bool
begins [] parts = true
begins (x ∷ xs) [] = false
begins (x ∷ xs) (y ∷ ys) = text_eq x y && begins xs ys

-- The path itself or one that lies in it.
reaches : Text → Text → Bool
unfolding lies_in
reaches a b = text_eq a b || lies_in a b

split_cons : (v : Text) → (first : Text) × (rest : List Text) × (split b'/' v ≡ first ∷ rest)
unfolding split
split_cons [] = ([], [], refl)
split_cons (c ∷ v) = elim (Bool-cases (c == b'/')) [
  | inl slash ↦ ([], split b'/' v, rw slash refl)
  | inr plain ↦ let parts = split_cons v in (c ∷ parts.0, parts.1, rw (plain, parts.2) refl)
]

begins-cons_first :
    (c d : ℕ) (ps qs : List Text) (p q : Text)
    → begins (cons_first c (p ∷ ps)) (cons_first d (q ∷ qs))
      ≡ ((c == d) && begins (p ∷ ps) (q ∷ qs))
begins-cons_first c d ps qs p q = ground arith

reaches_parts : (a b : Text) → reaches a b ≡ begins (split b'/' a) (split b'/' b)
unfolding reaches lies_in split
reaches_parts [] [] = refl
reaches_parts [] (d ∷ b) = ground (arith, (split_cons b).2)
reaches_parts (c ∷ a) [] = ground (arith, (split_cons a).2)
reaches_parts (c ∷ a) (d ∷ b) =
    ground (arith, (split_cons a).2, (split_cons b).2, reaches_parts a b)

swap_eq : (a b : Text) → text_eq a b ≡ text_eq b a
swap_eq [] [] = refl
swap_eq [] (d ∷ b) = refl
swap_eq (c ∷ a) [] = refl
swap_eq (c ∷ a) (d ∷ b) = ground (arith, swap_eq a b)

-- Two paths overlap exactly if the parts of one, between the slashes, begin the parts of the
-- other.
pub overlaps-begins :
    (a b : Text)
    → overlaps a b ≡ (begins (split b'/' a) (split b'/' b) || begins (split b'/' b) (split b'/' a))
unfolding overlaps reaches
overlaps-begins a b = ground (arith, reaches_parts a b, reaches_parts b a, swap_eq a b)
