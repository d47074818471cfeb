-- ===== src/Paths.antt =====
-- Relative paths: `relative_path` of src-tauri/src/runtime_contract.rs and `lua_path` of
-- src-tauri/src/packages/archive.rs.
pub mod Safety
use starframe.Prelude.{
  ℕ, ◌+◌, ◌≡◌, Bool, true, false, not, ◌&&◌, ◌||◌, Option, none, some, List, [], ◌∷◌, ◌++◌, Text,
  text_eq, codes, all, any, is_ascii_alphanumeric, is_empty, split, starts_with, ends_with,
  last_byte, to_ascii_lowercase, to_ascii_uppercase, trim_end_matches, length, get_elem?, leb, ◌==◌,
  if◌then◌else◌,
}
use starframe.Prelude.Outcome.{Outcome, ok, err, panicked, ensure, ◌>>=◌, ◌>>◌}

-- `c.is_ascii_alphanumeric() || b"_ .-".contains(&c)`
pub path_byte : ℕ → Bool
path_byte c = is_ascii_alphanumeric c || c == b'_' || c == b' ' || c == b'.' || c == b'-'

-- `part.ends_with(['.', ' '])`
pub ends_badly : Text → Bool
ends_badly part = elim (last_byte part) [ none ↦ false | some byte ↦ byte == b'.' || byte == b' ' ]

unfoldable pub plain_part : Text → Bool
unfolding path_byte ends_badly
plain_part part =
    not (is_empty part)
    && all path_byte part
    && not (text_eq part (codes ".") || text_eq part (codes ".."))
    && not (ends_badly part)

-- `split('.').next().unwrap_or("")`
pub first_part : List Text → Text
first_part [] = []
first_part (part ∷ parts) = part

pub stem : Text → Text
unfolding first_part split trim_end_matches
stem part = to_ascii_uppercase (trim_end_matches b' ' (first_part (split b'.' part)))

pub ends_in_port : Text → Bool
ends_in_port stem = elim (get_elem? stem 3) [ none ↦ false | some c ↦ leb b'1' c && leb c b'9' ]

-- The names that Windows keeps for devices.
unfoldable pub device : Text → Bool
unfolding stem ends_in_port
device part =
    let stem = stem part in
    (text_eq stem (codes "CON")
      || text_eq stem (codes "PRN")
      || text_eq stem (codes "AUX")
      || text_eq stem (codes "NUL"))
    || (length stem == 4
        && (starts_with (codes "COM") stem || starts_with (codes "LPT") stem)
        && ends_in_port stem)

-- `require(condition, reason)`
unfoldable pub require : Bool → Text → Outcome (Unit {0})
require condition reason = ensure condition (codes "Invalid runtime contract: " ++ reason)

pub check_parts : List Text → Outcome (Unit {0})
unfolding plain_part device require
check_parts [] = ok tt
check_parts (part ∷ parts) = do
  require (plain_part part) (codes "relative path")
  require (not (device part)) (codes "Windows device path")
  check_parts parts

unfoldable pub relative_path : Text → Outcome Text
unfolding check_parts split require
relative_path value = do
  require (not (is_empty value) && leb (length value) 240) (codes "relative path length")
  check_parts (split b'/' value)
  ok (to_ascii_lowercase value)

-- `relative_path(value).is_ok()`
unfoldable pub is_relative : Text → Bool
unfolding relative_path
is_relative value = elim (relative_path value) [
  | ok path ↦ true
  | err message ↦ false
  | panicked ↦ false
]

-- `lua_path`
unfoldable pub lua_path : Text → Bool
unfolding split ends_with is_relative
lua_path value =
    let path = to_ascii_lowercase value in
    starts_with (codes "lj/lua/") path
    && ends_with (codes ".lua") path
    && not (any (λ part. text_eq part (codes "ai")) (split b'/' path))
    && is_relative path
