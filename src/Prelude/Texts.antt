-- ===== src/Prelude/Texts.antt =====
-- Characters and UTF-16 units of UTF-8 texts, and sequences of texts.
use Prim.Native.Nat.{◌≤◌, ℕ, zero, suc, ◌+◌, ◌-◌, ◌*◌, ◌/◌, ◌%◌, compare, Ordering}
use mathlib.Core.Bool.{Bool, true, false, not, ◌&&◌, ◌||◌}
use mathlib.Core.List.{List, [], ◌∷◌, ◌++◌}
use mathlib.Core.Path.{◌≡◌, sym, ap, subst, ◌∙◌}
use mathlib.Core.Logic.{◌≢◌, inl, inr}
use starframe.Prelude.Tests.{
  apart, Bool-cases, leb→le, and_left, and_right, ltb, leb, ◌==◌, if◌then◌else◌,
}
use starframe.Prelude.Bytes.{Text, text_eq, text_eq_self, text_eq_iff, any, all}
use starframe.Prelude.Compare.{compare_list}

-- `(low..=high).contains(&n)`
abbrev pub within : ℕ → ℕ → ℕ → Bool
within low high n = leb low n && leb n high

-- A byte that begins a character.
is_lead : ℕ → Bool
is_lead byte = not (leb 128 byte && ltb byte 192)

-- `value.chars().count()`
unfoldable pub char_count : Text → ℕ
unfolding is_lead
char_count [] = 0
char_count (byte ∷ value) = (if is_lead byte then 1 else 0) + char_count value

-- The UTF-16 units of a character's code.
units : ℕ → List ℕ
units code =
    if ltb code 65536
    then code ∷ []
    else (55296 + (code - 65536) / 1024) ∷ (56320 + (code - 65536) % 1024) ∷ []

lead_code : ℕ → ℕ
lead_code byte =
    if ltb byte 224 then byte - 192 else if ltb byte 240 then byte - 224 else byte - 240

following : ℕ → ℕ
following byte =
    if ltb byte 128 then 0 else if ltb byte 224 then 1 else if ltb byte 240 then 2 else 3

units_from : (code remaining : ℕ) → Text → List ℕ
unfolding units lead_code following
units_from code remaining [] = []
units_from code zero (byte ∷ value) =
    (if ltb byte 128 then byte ∷ [] else []) ++ units_from (lead_code byte) (following byte) value
units_from code (suc zero) (byte ∷ value) = units (code * 64 + (byte - 128)) ++ units_from 0 0 value
units_from code (suc (suc remaining)) (byte ∷ value) =
    units_from (code * 64 + (byte - 128)) (suc remaining) value

-- `value.encode_utf16()`
unfoldable pub encode_utf16 : Text → List ℕ
unfolding units_from
encode_utf16 value = units_from 0 0 value

-- `value.chars().any(char::is_control)`
abbrev pub has_control : Text → Bool
has_control [] = false
has_control (byte ∷ []) = ltb byte 32 || byte == 127
has_control (byte ∷ next ∷ value) =
    ltb byte 32 || byte == 127 || (byte == 194 && within 128 159 next) || has_control (next ∷ value)

-- `value.bytes().enumerate().all(|(index, byte)| first(byte) || (index > 0 && later(byte)))`
abbrev pub all_indexed : (ℕ → Bool) → (ℕ → Bool) → Text → Bool
all_indexed first later [] = true
all_indexed first later (byte ∷ rest) = first byte && all (λ c. first c || later c) rest

-- `texts.contains(text)`
abbrev pub contains : List Text → Text → Bool
contains texts text = any (text_eq text) texts

-- `texts.iter().collect::<HashSet<_>>().len() == texts.len()`
abbrev pub distinct : List Text → Bool
distinct [] = true
distinct (text ∷ texts) = not (contains texts text) && distinct texts

abbrev pub insert_text : Text → List Text → List Text
insert_text text [] = text ∷ []
insert_text text (first ∷ rest) =
    let later = insert_text text rest in
    elim (compare_list compare text first) [ Ordering.gt ↦ first ∷ later | _ ↦ text ∷ first ∷ rest ]

-- `texts.sort()`
abbrev pub sort : List Text → List Text
sort [] = []
sort (text ∷ texts) = insert_text text (sort texts)

pub within→le : (low high n : ℕ) → within low high n ≡ true → (low ≤ n) × (n ≤ high)
within→le low high n h = (leb→le _ _ (and_left _ _ h), leb→le _ _ (and_right _ _ h))

pub not_contained :
    (seen : List Text) (a b : Text)
    → not (contains (a ∷ seen) b) ≡ true
    → (not (contains seen b) ≡ true) × (a ≢ b)
not_contained seen a b h = elim (Bool-cases (text_eq b a)) [
  | inl same ↦ absurd (apart (subst (λ c. not (c || contains seen b) ≡ true) same h))
  | inr other ↦ (
    subst (λ c. not (c || contains seen b) ≡ true) other h,
    λ e. apart (sym other ∙ ap (text_eq b) e ∙ text_eq_self b),
  )
]

pub not_equal : (a b : Text) → a ≢ b → text_eq a b ≡ false
not_equal a b n = elim (Bool-cases (text_eq a b)) [
  | inl same ↦ absurd (n ((text_eq_iff _ _).0 same))
  | inr other ↦ other
]

-- No two of the texts are equal.
abbrev pub IsDistinct : List Text → Type 0
IsDistinct [] = Unit
IsDistinct (name ∷ names) = (contains names name ≡ false) × IsDistinct names
