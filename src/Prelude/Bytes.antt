-- ===== src/Prelude/Bytes.antt =====
-- `&str` and `String` as their UTF-8 bytes, with the methods of `str` that the program calls.
use Prim.Native.Nat.{ℕ, zero, suc, ◌+◌, ◌-◌, ◌/◌, ◌%◌}
use Prim.Native.Char.{code}
use Prim.Native.String.{String}
use mathlib.Core.Path.{◌≡◌, refl, ap₂}
use mathlib.Core.Logic.{◌↔◌}
use mathlib.Core.Bool.{Bool, true, false, ◌&&◌, ◌||◌}
use mathlib.Core.Option.{Option, none, some}
use mathlib.Core.List.{List, [], ◌∷◌, ◌++◌, map}
use native.Mathlib.Omega.{arith}
use starframe.Prelude.Tests.{leb, ◌==◌, if◌then◌else◌}

abbrev pub Text : Type 0
Text = List ℕ

-- The bytes of a literal, which is ASCII.
abbrev pub codes : String → Text
codes String.[] = []
codes (String.◌∷◌ c s) = code c ∷ codes s

abbrev pub text_eq : Text → Text → Bool
text_eq [] [] = true
text_eq [] (d ∷ ds) = false
text_eq (c ∷ cs) [] = false
text_eq (c ∷ cs) (d ∷ ds) = (c == d) && text_eq cs ds

text_eq_sound : (a b : Text) → text_eq a b ≡ true → a ≡ b
text_eq_sound [] [] h = refl
text_eq_sound [] (d ∷ b) h = cc
text_eq_sound (c ∷ a) [] h = cc
text_eq_sound (c ∷ a) (d ∷ b) h = ap₂ ◌∷◌ (ground arith) (text_eq_sound a b (ground arith))

pub text_eq_self : (a : Text) → text_eq a a ≡ true
text_eq_self [] = refl
text_eq_self (c ∷ a) = ground (arith, text_eq_self a)

pub text_eq_iff : (a b : Text) → (text_eq a b ≡ true) ↔ (a ≡ b)
text_eq_iff a b = (text_eq_sound a b, λ e. rw e (text_eq_self b))

-- `bytes().all(test)`
abbrev pub all {ℓ} : {A : Type ℓ} → (A → Bool) → List A → Bool
all test [] = true
all test (x ∷ xs) = test x && all test xs

-- `iter().any(test)`
abbrev pub any {ℓ} : {A : Type ℓ} → (A → Bool) → List A → Bool
any test [] = false
any test (x ∷ xs) = test x || any test xs

-- `byte.is_ascii_digit()`
abbrev pub is_ascii_digit : ℕ → Bool
is_ascii_digit byte = leb b'0' byte && leb byte b'9'

abbrev pub is_ascii_lowercase : ℕ → Bool
is_ascii_lowercase byte = leb b'a' byte && leb byte b'z'

abbrev pub is_ascii_uppercase : ℕ → Bool
is_ascii_uppercase byte = leb b'A' byte && leb byte b'Z'

-- `byte.is_ascii_alphanumeric()`
abbrev pub is_ascii_alphanumeric : ℕ → Bool
is_ascii_alphanumeric byte =
    is_ascii_digit byte || is_ascii_lowercase byte || is_ascii_uppercase byte

-- `is_empty()`
abbrev pub is_empty {ℓ} : {A : Type ℓ} → List A → Bool
is_empty [] = true
is_empty (x ∷ xs) = false

-- `value.split(separator)`: one part more than there are separators.
abbrev pub cons_first : ℕ → List Text → List Text
cons_first byte [] = (byte ∷ []) ∷ []
cons_first byte (part ∷ parts) = (byte ∷ part) ∷ parts

unfoldable pub split : ℕ → Text → List Text
split separator [] = [] ∷ []
split separator (byte ∷ value) =
    let parts = split separator value in
    if byte == separator then [] ∷ parts else cons_first byte parts

-- `value.split_once(separator)`
unfoldable pub split_once : ℕ → Text → Option (Text × Text)
split_once separator [] = none
split_once separator (byte ∷ value) =
    let rest = split_once separator value in
    if byte == separator
    then some ([], value)
    else elim rest [ none ↦ none | some (before, after) ↦ some (byte ∷ before, after) ]

abbrev pub starts_with : Text → Text → Bool
starts_with [] value = true
starts_with (c ∷ prefix) [] = false
starts_with (c ∷ prefix) (byte ∷ value) = (c == byte) && starts_with prefix value

-- The last byte.
abbrev pub last_byte : Text → Option ℕ
last_byte [] = none
last_byte (byte ∷ []) = some byte
last_byte (byte ∷ next ∷ value) = last_byte (next ∷ value)

abbrev pub reverse_onto : Text → Text → Text
reverse_onto [] out = out
reverse_onto (byte ∷ value) out = reverse_onto value (byte ∷ out)

-- `value.ends_with(suffix)`
unfoldable pub ends_with : Text → Text → Bool
ends_with suffix value = starts_with (reverse_onto suffix []) (reverse_onto value [])

-- `byte.to_ascii_lowercase()`
abbrev pub lower : ℕ → ℕ
lower byte = if is_ascii_uppercase byte then byte + 32 else byte

abbrev pub upper : ℕ → ℕ
upper byte = if is_ascii_lowercase byte then byte - 32 else byte

abbrev pub to_ascii_lowercase : Text → Text
to_ascii_lowercase value = map lower value

abbrev pub to_ascii_uppercase : Text → Text
to_ascii_uppercase value = map upper value

-- `value.trim_end_matches(byte)`
unfoldable pub trim_end_matches : ℕ → Text → Text
trim_end_matches trimmed [] = []
trim_end_matches trimmed (byte ∷ value) =
    let rest = trim_end_matches trimmed value in
    if (byte == trimmed) && is_empty rest then [] else byte ∷ rest

-- The digits of a `u64`, of which there are at most twenty.
abbrev pub show_digits : ℕ → ℕ → Text → Text
show_digits zero n shown = shown
show_digits (suc fuel) n shown =
    let longer = show_digits fuel (n / 10) ((n % 10 + 48) ∷ shown) in
    if n / 10 == 0 then (n % 10 + 48) ∷ shown else longer

unfoldable pub show_u64 : ℕ → Text
show_u64 n = show_digits 20 n []

-- `parts.join(separator)`
unfoldable pub join : Text → List Text → Text
join separator [] = []
join separator (part ∷ []) = part
join separator (part ∷ next ∷ parts) = part ++ separator ++ join separator (next ∷ parts)
