-- ===== src/Paths/Safety.antt =====
-- The paths that `relative_path` accepts.
use starframe.Prelude.{
  ℕ, suc, ◌≡◌, ◌≢◌, refl, ap, ap₂, Bool, true, false, not, ◌&&◌, ◌||◌, List, [], ◌∷◌, Text, text_eq,
  text_eq_iff, codes, all, is_empty, split, cons_first, lower, upper, map, to_ascii_lowercase,
  to_ascii_uppercase, trim_end_matches, length, leb, ◌==◌, arith,
}
use starframe.Prelude.Outcome.{Outcome, ok, ◌>>◌}
use starframe.Paths.{
  path_byte, ends_badly, plain_part, first_part, stem, device, require, check_parts, relative_path,
}

upper-lower : (c : ℕ) → upper (lower c) ≡ upper c
upper-lower c = ground arith

length-lower : (value : Text) → length (to_ascii_lowercase value) ≡ length value
length-lower [] = refl
length-lower (c ∷ value) = ap suc (length-lower value)

lower-lower :
    (value : Text) → to_ascii_lowercase (to_ascii_lowercase value) ≡ to_ascii_lowercase value
lower-lower [] = refl
lower-lower (c ∷ value) = ap₂ ◌∷◌ (ground arith) (lower-lower value)

is_empty-lower : (value : Text) → is_empty (to_ascii_lowercase value) ≡ is_empty value
is_empty-lower [] = refl
is_empty-lower (c ∷ value) = refl

-- A byte that is no letter splits the lower-case text where it splits the text.
module _ (separator : ℕ) (plain : (c : ℕ) → (lower c == separator) ≡ (c == separator)) where
  cons_first-lower :
      (c : ℕ) (parts : List Text)
      → cons_first (lower c) (map to_ascii_lowercase parts)
        ≡ map to_ascii_lowercase (cons_first c parts)
  cons_first-lower c [] = refl
  cons_first-lower c (part ∷ parts) = refl

  split-lower :
      (value : Text)
      → split separator (to_ascii_lowercase value) ≡ map to_ascii_lowercase (split separator value)
  unfolding split
  split-lower [] = refl
  split-lower (c ∷ value) =
      rw (plain c, split-lower value, cons_first-lower c (split separator value)) (ground arith)

path_byte-lower : (c : ℕ) → path_byte (lower c) ≡ path_byte c
unfolding path_byte
path_byte-lower c = ground arith

all-path_byte-lower : (part : Text) → all path_byte (to_ascii_lowercase part) ≡ all path_byte part
all-path_byte-lower [] = refl
all-path_byte-lower (c ∷ part) = rw (path_byte-lower, all-path_byte-lower part)

ends_badly-lower : (part : Text) → ends_badly (to_ascii_lowercase part) ≡ ends_badly part
unfolding ends_badly
ends_badly-lower [] = refl
ends_badly-lower (c ∷ []) = ground arith
ends_badly-lower (c ∷ d ∷ part) = ends_badly-lower (d ∷ part)

dots-lower :
    (part : Text)
    → (text_eq (to_ascii_lowercase part) (codes ".")
        || text_eq (to_ascii_lowercase part) (codes ".."))
      ≡ (text_eq part (codes ".") || text_eq part (codes ".."))
dots-lower [] = refl
dots-lower (c ∷ []) = ground arith
dots-lower (c ∷ d ∷ []) = ground arith
dots-lower (c ∷ d ∷ e ∷ part) = ground arith

plain_part-lower : (part : Text) → plain_part (to_ascii_lowercase part) ≡ plain_part part
unfolding plain_part
plain_part-lower part =
    rw (is_empty-lower part, all-path_byte-lower part, dots-lower part, ends_badly-lower part)

trim-lower :
    (part : Text)
    → trim_end_matches b' ' (to_ascii_lowercase part)
      ≡ to_ascii_lowercase (trim_end_matches b' ' part)
unfolding trim_end_matches
trim-lower [] = refl
trim-lower (c ∷ part) =
    rw (trim-lower part, is_empty-lower (trim_end_matches b' ' part)) (ground arith)

upper-map-lower :
    (part : Text) → to_ascii_uppercase (to_ascii_lowercase part) ≡ to_ascii_uppercase part
upper-map-lower [] = refl
upper-map-lower (c ∷ part) = ap₂ ◌∷◌ (upper-lower c) (upper-map-lower part)

first_part-lower :
    (parts : List Text)
    → first_part (map to_ascii_lowercase parts) ≡ to_ascii_lowercase (first_part parts)
unfolding first_part
first_part-lower [] = refl
first_part-lower (part ∷ parts) = refl

stem-lower : (part : Text) → stem (to_ascii_lowercase part) ≡ stem part
unfolding stem
stem-lower part =
    rw
      (
        split-lower b'.' (λ c. ground arith) part,
        first_part-lower (split b'.' part),
        trim-lower (first_part (split b'.' part)),
      )
      (upper-map-lower (trim_end_matches b' ' (first_part (split b'.' part))))

device-lower : (part : Text) → device (to_ascii_lowercase part) ≡ device part
unfolding device
device-lower part = rw stem-lower

check_parts-lower :
    (parts : List Text) → check_parts (map to_ascii_lowercase parts) ≡ check_parts parts
unfolding check_parts
check_parts-lower [] = refl
check_parts-lower (part ∷ parts) =
    rw (plain_part-lower part, device-lower part, check_parts-lower parts)

relative_path_cases :
    (value path : Text)
    → relative_path value ≡ ok path
    → (not (is_empty value) && leb (length value) 240 ≡ true)
      × (check_parts (split b'/' value) ≡ ok tt)
      × (path ≡ to_ascii_lowercase value)
unfolding relative_path
relative_path_cases value path h = ground arith

relative_path-lower :
    (value : Text)
    → (not (is_empty value) && leb (length value) 240 ≡ true)
    → (check_parts (split b'/' value) ≡ ok tt)
    → relative_path (to_ascii_lowercase value) ≡ ok (to_ascii_lowercase value)
unfolding relative_path require
relative_path-lower value bounds parts =
    rw
      (
        is_empty-lower value,
        length-lower value,
        bounds,
        split-lower b'/' (λ c. ground arith) value,
        check_parts-lower (split b'/' value),
        parts,
      )
      (ap ok (lower-lower value))

-- If `relative_path` accepts a value and returns a path, it accepts that path and returns it
-- unchanged.
pub relative_path_idem :
    (value path : Text) → relative_path value ≡ ok path → relative_path path ≡ ok path
relative_path_idem value path h =
    let (bounds, parts, normal) = relative_path_cases value path h in
    rw normal (relative_path-lower value bounds parts)

-- What the program relies on in each part of a path.
pub record IsSafePart (part : Text) : Type 0 where
  pub nonempty : part ≢ []
  pub not_dot : part ≢ codes "."
  pub not_parent : part ≢ codes ".."
  pub bytes : all path_byte part ≡ true
  pub no_device : device part ≡ false

abbrev pub AllSafe : List Text → Type 0
AllSafe [] = Unit
AllSafe (part ∷ parts) = IsSafePart part × AllSafe parts

plain_part-IsSafePart :
    (part : Text) → plain_part part ≡ true → device part ≡ false → IsSafePart part
unfolding plain_part
plain_part-IsSafePart part p d = record {
  nonempty = λ e. ground (arith, ap is_empty e);
  not_dot = λ e. ground (arith, text_eq_iff part (codes "."));
  not_parent = λ e. ground (arith, text_eq_iff part (codes ".."));
  bytes = ground arith;
  no_device = d;
}

require-bind :
    (b : Bool) (reason : Text) (next : Outcome (Unit {0})) {u : Unit {0}}
    → (require b reason >> next) ≡ ok u
    → (b ≡ true) × (next ≡ ok u)
unfolding require
require-bind true reason next h = (refl, h)
require-bind false reason next h = cc

check_parts-AllSafe : (parts : List Text) → check_parts parts ≡ ok tt → AllSafe parts
unfolding check_parts
check_parts-AllSafe [] h = tt
check_parts-AllSafe (part ∷ parts) h =
    let (plain, rest) = require-bind (plain_part part) (codes "relative path") _ h in
    let (no_device, more) = require-bind (not (device part)) (codes "Windows device path") _ rest in
    (plain_part-IsSafePart part plain (ground arith), check_parts-AllSafe parts more)

-- Each part of a path that `relative_path` returns is not empty, is neither `.` nor `..`, has
-- only the allowed bytes, and is no device name of Windows.
pub relative_path-AllSafe :
    (value path : Text) → relative_path value ≡ ok path → AllSafe (split b'/' path)
relative_path-AllSafe value path h =
    check_parts-AllSafe (split b'/' path)
      (relative_path_cases path path (relative_path_idem value path h)).1
