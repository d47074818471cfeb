-- ===== src/Registry/Dependency/Suggestion.antt =====
-- `Dependency::suggest` and `valid_dependencies`.
use starframe.Prelude.{
  ℕ, ◌≤◌, ◌≡◌, ◌≢◌, refl, sym, subst, Bool, true, false, Option, none, some, List, [], ◌∷◌, All,
  All-map, In, inl, inr, ◌⊎◌, length, ltb, any, arith, ◌==◌, Bool-cases,
}
use starframe.Registry.Identity.{ExactReference}
use starframe.Registry.Dependency.{
  Dependency, Release, mod_id, eligible, filter, max_by_key, exact_reference, suggested, suggest,
  valid, valid_constraint, all_distinct, valid_dependencies,
}

-- `best` is an element of the list with the largest key.
abbrev IsLargest : (Release → ℕ) → Release → List Release → Type 0
IsLargest key best candidates = In best candidates × All (λ c. key c ≤ key best) candidates

max_by_key-IsLargest :
    (key : Release → ℕ) (best : Release) (candidates : List Release)
    → (r : Release) × (max_by_key key (some best) candidates ≡ some r)
      × IsLargest key r (best ∷ candidates)
unfolding max_by_key
max_by_key-IsLargest key best [] = (best, refl, (inl refl, (omega arith, tt)))
max_by_key-IsLargest key best (c ∷ candidates) = elim (Bool-cases (ltb (key c) (key best))) [
  | inl less ↦
      let (r, run, (found, largest)) = max_by_key-IsLargest key best candidates in
      (
        r,
        rw less run,
        (
          elim found [ inl e ↦ inl e | inr i ↦ inr (inr i) ],
          (largest.0, (ground arith, largest.1)),
        ),
      )
  | inr more ↦
      let (r, run, (found, largest)) = max_by_key-IsLargest key c candidates in
      (r, rw more run, (inr found, (ground arith, largest)))
]

filter-In :
    (test : Release → Bool) (candidates : List Release) (r : Release)
    → In r (filter test candidates)
    → In r candidates × (test r ≡ true)
unfolding filter
filter-In test [] r i = absurd i
filter-In test (c ∷ candidates) r i = elim (Bool-cases (test c)) [
  | inl kept ↦ elim (rw kept at i) [
    | inl e ↦ (inl e, subst (λ x. test x ≡ true) (sym e) kept)
    | inr rest ↦ let (found, t) = filter-In test candidates r rest in (inr found, t)
  ]
  | inr dropped ↦ let (found, t) = filter-In test candidates r (rw dropped at i) in (inr found, t)
]

filter-All :
    (test : Release → Bool) (P : Release → Type 0) (candidates : List Release)
    → All P (filter test candidates)
    → All (λ c. test c ≡ true → P c) candidates
unfolding filter
filter-All test P [] h = tt
filter-All test P (c ∷ candidates) h = elim (Bool-cases (test c)) [
  | inl kept ↦ let both = rw kept at h in (λ _. both.0, filter-All test P candidates both.1)
  | inr dropped ↦ (λ t. cc, filter-All test P candidates (rw dropped at h))
]

-- `r` is an eligible candidate, and no eligible candidate was published later.
pub record IsBest (dependency : Dependency) (candidates : List Release) (r : Release) : Type 0 where
  pub listed : In r candidates
  pub is_eligible : eligible dependency r ≡ true
  pub latest :
      All (λ c. eligible dependency c ≡ true → c.publication_order ≤ r.publication_order) candidates

-- What `suggest` answers.
abbrev pub IsSuggestion : Dependency → List Release → Option ExactReference → Type 0
IsSuggestion dependency candidates none = All (λ c. eligible dependency c ≡ false) candidates
IsSuggestion dependency candidates (some reference) =
    (r : Release) × (reference ≡ exact_reference r) × IsBest dependency candidates r

filter-nil :
    (test : Release → Bool) (candidates : List Release)
    → filter test candidates ≡ []
    → All (λ c. test c ≡ false) candidates
unfolding filter
filter-nil test [] h = tt
filter-nil test (c ∷ candidates) h = elim (Bool-cases (test c)) [
  | inl kept ↦ absurd (not-cons (rw kept at h))
  | inr dropped ↦ (dropped, filter-nil test candidates (rw dropped at h))
]
  where
    not-cons : {x : Release} {xs : List Release} → ¬ (◌≡◌ {A = List Release} (x ∷ xs) [])
    not-cons e = cc

list_cases :
    (xs : List Release) → (xs ≡ []) ⊎ ((x : Release) × (rest : List Release) × (xs ≡ x ∷ rest))
list_cases [] = inl refl
list_cases (x ∷ xs) = inr (x, xs, refl)

suggest-nil :
    (dependency : Dependency) (candidates : List Release)
    → filter (eligible dependency) candidates ≡ []
    → suggest dependency candidates ≡ none
unfolding suggest suggested max_by_key
suggest-nil dependency candidates e = ground arith

suggest-cons :
    (dependency : Dependency) (candidates : List Release) {x r : Release} {rest : List Release}
    → filter (eligible dependency) candidates ≡ x ∷ rest
    → max_by_key (λ c. c.publication_order) (some x) rest ≡ some r
    → suggest dependency candidates ≡ some (exact_reference r)
unfolding suggest suggested max_by_key
suggest-cons dependency candidates e run = ground arith

-- `suggest` answers none only if no candidate is eligible, and else the exact reference of an
-- eligible candidate such that no eligible candidate has a larger publication order.
pub suggest-IsSuggestion :
    (dependency : Dependency) (candidates : List Release)
    → IsSuggestion dependency candidates (suggest dependency candidates)
suggest-IsSuggestion dependency candidates =
    elim (list_cases (filter (eligible dependency) candidates)) [
      | inl e ↦
          subst (IsSuggestion dependency candidates) (sym (suggest-nil dependency candidates e))
            (filter-nil (eligible dependency) candidates e)
      | inr (x, rest, e) ↦
          let (r, run, (found, largest)) = max_by_key-IsLargest (λ c. c.publication_order) x rest in
          let kept : In r (filter (eligible dependency) candidates) = subst (In r) (sym e) found in
          let (listed, is_eligible) = filter-In (eligible dependency) candidates r kept in
          subst (IsSuggestion dependency candidates)
            (sym (suggest-cons dependency candidates e run))
            (
              r,
              refl,
              record {
                listed = listed;
                is_eligible = is_eligible;
                latest =
                    filter-All (eligible dependency)
                      (λ c. c.publication_order ≤ r.publication_order) candidates
                      (subst (All (λ c. c.publication_order ≤ r.publication_order)) (sym e)
                        largest);
              },
            )
    ]

-- The IDs of the dependencies are distinct, and none of them is in `seen`.
abbrev pub AreDistinct : List ℕ → List Dependency → Type 0
AreDistinct seen [] = Unit
AreDistinct seen (d ∷ dependencies) =
    All (λ id. id ≢ mod_id d) seen × AreDistinct (mod_id d ∷ seen) dependencies

any-All :
    (id : ℕ) (seen : List ℕ)
    → any (λ other. other == id) seen ≡ false
    → All (λ other. other ≢ id) seen
any-All id [] h = tt
any-All id (other ∷ seen) h = (ground arith, any-All id seen (ground arith))

all_distinct-AreDistinct :
    (test : Dependency → Bool) (seen : List ℕ) (dependencies : List Dependency)
    → all_distinct test seen dependencies ≡ true
    → AreDistinct seen dependencies × All (λ d. test d ≡ true) dependencies
unfolding all_distinct
all_distinct-AreDistinct test seen [] h = (tt, tt)
all_distinct-AreDistinct test seen (d ∷ dependencies) h =
    let (distinct, tested) =
      all_distinct-AreDistinct test (mod_id d ∷ seen) dependencies (ground arith) in
    ((any-All (mod_id d) seen (ground arith), distinct), (ground arith, tested))

-- Accepted dependencies are at most a hundred, name distinct mods other than their own, and each
-- has a valid constraint.
pub record AreValid (is_version4 : ℕ → Bool) (source : ℕ) (dependencies : List Dependency)
    : Type 0 where
  pub few : length dependencies ≤ 100
  pub distinct : AreDistinct [] dependencies
  pub other : All (λ d. mod_id d ≢ source) dependencies
  pub constrained : All (λ d. valid_constraint is_version4 d ≡ true) dependencies

-- Dependencies that `valid_dependencies` accepts are at most a hundred, name distinct mods, none
-- of them the mod itself, and each has a constraint that `valid_constraint` accepts.
pub valid_dependencies-AreValid :
    (is_version4 : ℕ → Bool) (source : ℕ) (dependencies : List Dependency)
    → valid_dependencies is_version4 source dependencies ≡ true
    → AreValid is_version4 source dependencies
unfolding valid_dependencies valid
valid_dependencies-AreValid is_version4 source dependencies h =
    let (distinct, tested) =
      all_distinct-AreDistinct (valid is_version4 source) [] dependencies (ground arith) in
    record {
      few = ground arith;
      distinct = distinct;
      other = All-map _ (λ d. mod_id d ≢ source) (λ d t. ground arith) dependencies tested;
      constrained =
          All-map _ (λ d. valid_constraint is_version4 d ≡ true) (λ d t. ground arith) dependencies
            tested;
    }
