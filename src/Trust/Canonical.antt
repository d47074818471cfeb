-- ===== src/Trust/Canonical.antt =====
-- `canonical_text`, `canonical` and `string` of src-tauri/src/registry/trust.rs. What they push onto
-- `output` is the result here.
pub mod Quoting
use Prim.Native.Nat.{compare, Ordering}
use starframe.Prelude.{
  ℕ, suc, ◌+◌, ◌-◌, ◌/◌, ◌%◌, Bool, true, false, ◌&&◌, Option, none, some, List, [], ◌∷◌, ◌++◌,
  Text, codes, encode_utf16, show_u64, leb, ltb, ◌==◌, if◌then◌else◌,
}
use starframe.Prelude.Compare.{compare_list}
use starframe.Prelude.Outcome.{Outcome, ok, ok_or, ◌>>=◌}
use starframe.Json.{
  ℤ, pos, negsuc, unsigned_abs, JsonLibrary, Json, Values, Members, null, boolean, number, string,
  array, object, no_values, value, no_members, member,
}
use starframe.Registry.Identity.{max_safe_integer}

-- A digit of `{:04x}`.
hex : ℕ → ℕ
hex d = if ltb d 10 then b'0' + d else b'a' + (d - 10)

-- The escapes with a letter.
letter_of : ℕ → Option ℕ
letter_of byte =
    if byte == b'"'
    then some b'"'
    else if byte == b'\\'
    then some b'\\'
    else if byte == 8
    then some b'b'
    else if byte == 9
    then some b't'
    else if byte == 10
    then some b'n'
    else if byte == 12
    then some b'f'
    else if byte == 13
    then some b'r'
    else none

-- `write!(output, "\\u{:04x}", byte)`
unicode : ℕ → Text
unfolding hex
unicode byte = codes "\\u00" ++ hex (byte / 16) ∷ hex (byte % 16) ∷ []

-- A byte of a character above `\u{001F}` is pushed as it is.
unfoldable pub escape : ℕ → Text
unfolding letter_of unicode
escape byte = elim (letter_of byte) [
  | some letter ↦ b'\\' ∷ letter ∷ []
  | none ↦ if ltb byte 32 then unicode byte else byte ∷ []
]

unfoldable pub escaped : Text → Text
unfolding escape
escaped [] = []
escaped (byte ∷ text) = escape byte ++ escaped text

-- `string(value, output)`
unfoldable pub quoted : Text → Text
unfolding escaped
quoted text = b'"' ∷ escaped text ++ b'"' ∷ []

show_i64 : ℤ → Text
unfolding show_u64
show_i64 (pos n) = show_u64 n
show_i64 (negsuc n) = b'-' ∷ show_u64 (suc n)

-- `keys.sort_by(|a, b| a.encode_utf16().cmp(b.encode_utf16()))`, with the text of each value.
insert_key : Text × Outcome Text → List (Text × Outcome Text) → List (Text × Outcome Text)
unfolding encode_utf16
insert_key entry [] = entry ∷ []
insert_key entry (first ∷ rest) =
    let later = insert_key entry rest in
    elim (compare_list compare (encode_utf16 entry.0) (encode_utf16 first.0)) [
      | Ordering.gt ↦ first ∷ later
      | _ ↦ entry ∷ first ∷ rest
    ]

sort_keys : List (Text × Outcome Text) → List (Text × Outcome Text)
unfolding insert_key
sort_keys [] = []
sort_keys (entry ∷ entries) = insert_key entry (sort_keys entries)

-- The elements with a comma before each.
after_comma : List (Outcome Text) → Outcome Text
after_comma [] = ok []
after_comma (first ∷ rest) = do text ← first; later ← after_comma rest; ok (b',' ∷ text ++ later)

-- The elements with a comma between them.
separated : List (Outcome Text) → Outcome Text
unfolding after_comma
separated [] = ok []
separated (first ∷ rest) = do text ← first; later ← after_comma rest; ok (text ++ later)

-- `string(key, output)?; output.push(':'); canonical(&object[*key], output)?`
with_keys : List (Text × Outcome Text) → List (Outcome Text)
unfolding quoted
with_keys [] = []
with_keys ((key, outcome) ∷ rest) =
    (outcome >>= λ text. ok (quoted key ++ b':' ∷ text)) ∷ with_keys rest

is_safe : ℤ → Bool
is_safe n = leb (unsigned_abs n) max_safe_integer

module _ (json : JsonLibrary) where
  -- A number that is a float: `value as i64` where it is whole and not too large.
  whole_number : Option json.Float → Option ℤ
  whole_number none = none
  whole_number (some v) =
      if json.is_finite v && json.is_whole v && json.abs_at_most v max_safe_integer
      then some (json.to_i64 v)
      else none

  integer_of : json.Number → Option ℤ
  unfolding is_safe whole_number
  integer_of n = elim (json.as_i64 n) [
    | none ↦ whole_number (json.as_f64 n)
    | some i ↦ if is_safe i then some i else whole_number (json.as_f64 n)
  ]

  unfoldable pub number_text : json.Number → Outcome Text
  unfolding integer_of show_i64
  number_text n = do
    integer ← ok_or (integer_of n) (codes "Unsafe signed number")
    ok (show_i64 integer)

  unfoldable mutual
    unfolding number_text quoted separated sort_keys with_keys

    -- `canonical(value, output)`, for a fresh output: `canonical_text(value)`.
    pub canonical_text : Json json → Outcome Text
    canonical_text null = ok (codes "null")
    canonical_text (boolean true) = ok (codes "true")
    canonical_text (boolean false) = ok (codes "false")
    canonical_text (number n) = number_text n
    canonical_text (string text) = ok (quoted text)
    canonical_text (array items) =
        separated (canonical_items items) >>= λ text. ok (b'[' ∷ text ++ b']' ∷ [])
    canonical_text (object members) =
        separated (with_keys (sort_keys (canonical_members members))) >>= λ text.
        ok (b'{' ∷ text ++ b'}' ∷ [])

    pub canonical_items : Values json.Number → List (Outcome Text)
    canonical_items no_values = []
    canonical_items (value first rest) = canonical_text first ∷ canonical_items rest

    pub canonical_members : Members json.Number → List (Text × Outcome Text)
    canonical_members no_members = []
    canonical_members (member key first rest) = (key, canonical_text first) ∷ canonical_members rest
