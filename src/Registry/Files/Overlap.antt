-- ===== src/Registry/Files/Overlap.antt =====
-- The test of src-tauri/src/registry/installation.rs whether a path lies in another of a list.
use starframe.Prelude.{
  apart, ℕ, ◌≡◌, refl, sym, subst, ◌∙◌, Bool, true, false, ◌&&◌, ◌||◌, List, [], ◌∷◌, Text, text_eq,
  any, contains, ◌==◌, text_eq_self, text_eq_iff, Bool-cases, inl, inr, In, arith,
}
use starframe.Contract.Document.{lies_in}
use starframe.Registry.Files.{longer, parents, overlapping}

contains-longer :
    (byte : ℕ) (parts : List Text) (c : ℕ) (d : Text)
    → contains (longer byte parts) (c ∷ d) ≡ ((c == byte) && contains parts d)
unfolding longer
contains-longer byte [] c d = ground arith
contains-longer byte (part ∷ parts) c d = ground (arith, contains-longer byte parts c d)

contains-longer_nil : (byte : ℕ) (parts : List Text) → contains (longer byte parts) [] ≡ false
unfolding longer
contains-longer_nil byte [] = refl
contains-longer_nil byte (part ∷ parts) = contains-longer_nil byte parts

contains-parents : (d p : Text) → contains (parents p) d ≡ lies_in d p
unfolding parents lies_in
contains-parents [] [] = refl
contains-parents [] (c ∷ p) = ground (arith, contains-longer_nil c (parents p))
contains-parents (b ∷ d) [] = refl
contains-parents (b ∷ d) (c ∷ p) =
    ground (arith, contains-longer c (parents p) b d, contains-parents d p)

-- No path of the list lies in another.
abbrev pub IsSeparate : List Text → Type 0
IsSeparate paths = (p q : Text) → In p paths → In q paths → lies_in p q ≡ false

contains_of_In : (p : Text) (paths : List Text) → In p paths → contains paths p ≡ true
contains_of_In p [] i = absurd i
contains_of_In p (q ∷ paths) (inl e) =
    ground (arith, subst (λ x. text_eq p x ≡ true) e (text_eq_self p))
contains_of_In p (q ∷ paths) (inr i) = ground (arith, contains_of_In p paths i)

any_of_In :
    (test : Text → Bool) (p : Text) (ps : List Text)
    → any test ps ≡ false
    → In p ps
    → test p ≡ false
any_of_In test p [] h i = absurd i
any_of_In test p (q ∷ ps) h (inl e) = subst (λ x. test x ≡ false) (sym e) (ground (arith, h))
any_of_In test p (q ∷ ps) h (inr i) = any_of_In test p ps (ground (arith, h)) i

first_false : (a b : Bool) → (a || b) ≡ false → a ≡ false
first_false true b h = cc
first_false false b h = refl

rest_false : (a b : Bool) → (a || b) ≡ false → b ≡ false
rest_false true b h = cc
rest_false false b h = h

shared :
    (xs ys : List Text) (d : Text)
    → any (contains xs) ys ≡ false
    → contains xs d ≡ true
    → contains ys d ≡ false
shared xs [] d h k = refl
shared xs (y ∷ ys) d h k = elim (Bool-cases (text_eq d y)) [
  | inl same ↦ absurd (
      apart
        (sym (first_false _ _ h) ∙ subst (λ x. contains xs x ≡ true) ((text_eq_iff d y).0 same) k))
  | inr other ↦ rw other (shared xs ys d (rest_false _ _ h) k)
]

pub overlapping-IsSeparate : (paths : List Text) → overlapping paths ≡ false → IsSeparate paths
unfolding overlapping
overlapping-IsSeparate paths h p q i j =
    sym (contains-parents p q)
    ∙ shared paths (parents q) p
        (any_of_In (λ path. any (contains paths) (parents path)) q paths h j)
        (contains_of_In p paths i)
