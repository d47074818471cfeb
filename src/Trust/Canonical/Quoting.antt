-- ===== src/Trust/Canonical/Quoting.antt =====
-- The strings of canonical JSON, `string` in src-tauri/src/registry/trust.rs, and a reader of them.
use starframe.Prelude.{
  ℕ, ◌+◌, ◌-◌, ◌*◌, ◌/◌, ◌%◌, ◌≡◌, ◌≢◌, refl, sym, ap, ap₂, ◌∙◌, true, false, Option, none, some,
  some_inj, [], ◌∷◌, ◌++◌, append_assoc, Text, ltb, ◌==◌, if◌then◌else◌, Bool-cases, Option-cases,
  inl, inr, arith,
}
use starframe.Trust.Canonical.{hex, letter_of, unicode, escape, escaped, quoted}

unhex : ℕ → ℕ
unhex c = if ltb c 58 then c - 48 else c - 87

unletter : ℕ → ℕ
unletter c =
    if c == b'b'
    then 8
    else if c == b't'
    then 9
    else if c == b'n'
    then 10
    else if c == b'f'
    then 12
    else if c == b'r'
    then 13
    else c

-- Four hexadecimal digits, the first two of them zeros, and what follows them.
read_unicode : Text → Option (ℕ × Text)
unfolding unhex
read_unicode (a ∷ b ∷ c ∷ d ∷ rest) = some (unhex c * 16 + unhex d, rest)
read_unicode _ = none

-- The character behind a backslash, and what follows it.
read_escape : Text → Option (ℕ × Text)
unfolding read_unicode unletter
read_escape [] = none
read_escape (letter ∷ rest) =
    if letter == b'u' then read_unicode rest else some (unletter letter, rest)

-- The first character of a string, up to the closing quote.
pub read_char : Text → Option (ℕ × Text)
unfolding read_escape
read_char [] = none
read_char (byte ∷ rest) =
    if byte == b'"' then none else if byte == b'\\' then read_escape rest else some (byte, rest)

unhex-hex : (d : ℕ) → unhex (hex d) ≡ d
unfolding unhex hex
unhex-hex d = ground arith

read_unicode-unicode : (c : ℕ) (rest : Text) → read_char (unicode c ++ rest) ≡ some (c, rest)
unfolding read_char read_escape read_unicode unicode
read_unicode-unicode c rest =
    rw (unhex-hex (c / 16), unhex-hex (c % 16)) (ap (λ n. some (n, rest)) (omega arith))

letters : (c l : ℕ) → letter_of c ≡ some l → (unletter l ≡ c) × ((l == b'u') ≡ false)
unfolding letter_of unletter
letters c l h = ground arith

no_letters : (c : ℕ) → letter_of c ≡ none → ((c == b'"') ≡ false) × ((c == b'\\') ≡ false)
unfolding letter_of
no_letters c h = ground arith

escape_letter : (c l : ℕ) → letter_of c ≡ some l → escape c ≡ b'\\' ∷ l ∷ []
unfolding escape letter_of
escape_letter c l h = ground (arith, h)

escape_small : (c : ℕ) → letter_of c ≡ none → ltb c 32 ≡ true → escape c ≡ unicode c
unfolding escape letter_of
escape_small c h small = ground (arith, h)

escape_large : (c : ℕ) → letter_of c ≡ none → ltb c 32 ≡ false → escape c ≡ c ∷ []
unfolding escape letter_of
escape_large c h large = ground (arith, h)

read_letter :
    (c l : ℕ) (rest : Text) → letter_of c ≡ some l → read_char (b'\\' ∷ l ∷ rest) ≡ some (c, rest)
unfolding read_char read_escape
read_letter c l rest h = rw ((letters c l h).1) (ap (λ n. some (n, rest)) (letters c l h).0)

read_plain : (c : ℕ) (rest : Text) → letter_of c ≡ none → read_char (c ∷ rest) ≡ some (c, rest)
unfolding read_char
read_plain c rest h = rw ((no_letters c h).0, (no_letters c h).1) refl

read_char-escape : (c : ℕ) (rest : Text) → read_char (escape c ++ rest) ≡ some (c, rest)
read_char-escape c rest = elim (Option-cases (letter_of c)) [
  | inl free ↦ elim (Bool-cases (ltb c 32)) [
    | inl small ↦ rw (escape_small c free small) (read_unicode-unicode c rest)
    | inr large ↦ rw (escape_large c free large) (read_plain c rest free)
  ]
  | inr (l, found) ↦ rw (escape_letter c l found) (read_letter c l rest found)
]

-- The closing quote ends a string.
closed : (rest : Text) → read_char (b'"' ∷ rest) ≡ none
unfolding read_char
closed rest = refl

none≢some : {A : Type 0} {a : A} → none ≢ some a
none≢some e = cc

pair_inj : {a b : ℕ × Text} → a ≡ b → (a.0 ≡ b.0) × (a.1 ≡ b.1)
pair_inj e = (ap (λ p. p.0) e, ap (λ p. p.1) e)

tail_eq : {c d : ℕ} {x y : Text} → (c ∷ x) ≡ (d ∷ y) → x ≡ y
tail_eq e = ground arith

-- What begins with a quote does not begin with an escaped character.
ends : (d : ℕ) (x z : Text) → (b'"' ∷ x) ≢ (escape d ++ z)
ends d x z e = none≢some (sym (closed x) ∙ ap read_char e ∙ read_char-escape d z)

cancel_char : (c d : ℕ) (x y : Text) → (escape c ++ x) ≡ (escape d ++ y) → (c ≡ d) × (x ≡ y)
cancel_char c d x y e =
    pair_inj
      (some_inj (c, x) (d, y) (sym (read_char-escape c x) ∙ ap read_char e ∙ read_char-escape d y))

cancel_escaped :
    (a b x y : Text) → (escaped a ++ b'"' ∷ x) ≡ (escaped b ++ b'"' ∷ y) → (a ≡ b) × (x ≡ y)
unfolding escaped
cancel_escaped [] [] x y e = (refl, ground arith)
cancel_escaped [] (d ∷ b) x y e =
    absurd (ends d x _ (e ∙ append_assoc (escape d) (escaped b) (b'"' ∷ y)))
cancel_escaped (c ∷ a) [] x y e =
    absurd (ends c y _ (sym e ∙ append_assoc (escape c) (escaped a) (b'"' ∷ x)))
cancel_escaped (c ∷ a) (d ∷ b) x y e =
    let head = cancel_char c d (escaped a ++ b'"' ∷ x) (escaped b ++ b'"' ∷ y) (
      sym (append_assoc (escape c) (escaped a) (b'"' ∷ x))
      ∙ e
      ∙ append_assoc (escape d) (escaped b) (b'"' ∷ y)) in
    let rest = cancel_escaped a b x y head.1 in (ap₂ ◌∷◌ head.0 rest.0, rest.1)

-- A quoted string can be read back: where two quoted strings with a text behind each are equal,
-- so are the strings and the texts behind them.
pub cancel_quoted : (a b x y : Text) → (quoted a ++ x) ≡ (quoted b ++ y) → (a ≡ b) × (x ≡ y)
unfolding quoted
cancel_quoted a b x y e = cancel_escaped a b x y (
    sym (append_assoc (escaped a) (b'"' ∷ []) x)
    ∙ tail_eq e
    ∙ append_assoc (escaped b) (b'"' ∷ []) y)
