-- ===== src/Registry/Identity.antt =====
-- registry.rs: the identifiers of the website's wire format. A `ModId`, a `PublicationOrder` and the
-- value of a `Uuid` are numbers; `none` is the error of a conversion.
use starframe.Prelude.{
  ℕ, Bool, ◌&&◌, ◌||◌, Option, none, some, Text, text_eq, all, is_ascii_digit, length, leb, ◌==◌,
  if◌then◌else◌,
}

abbrev pub max_safe_integer : ℕ
max_safe_integer = 9007199254740991

-- `ModId::try_from(u64)`
pub mod_id_try_from : ℕ → Option ℕ
mod_id_try_from value = if leb 1 value && leb value max_safe_integer then some value else none

-- `PublicationOrder::try_from(u64)`
pub publication_order_try_from : ℕ → Option ℕ
unfolding mod_id_try_from
publication_order_try_from value = elim (mod_id_try_from value) [
  | none ↦ none
  | some id ↦ some value
]

is_hex : ℕ → Bool
is_hex c = is_ascii_digit c || (leb b'a' c && leb c b'f')

-- `Sha256::try_from(String)`
unfoldable pub sha256_try_from : Text → Option Text
unfolding is_hex
sha256_try_from value = if length value == 64 && all is_hex value then some value else none

-- What the program uses of the `uuid` crate.
pub record UuidLibrary : Type 0 where
  pub parse_str : Text → Option ℕ
  pub to_string : ℕ → Text
  pub is_nil : ℕ → Bool
  -- The text of the error for a text that is no UUID.
  pub error : Text → Text
  -- `get_version_num() == 4 && get_variant() == Variant::RFC4122`
  pub is_version4 : ℕ → Bool

-- `ReleaseId::try_from(String)`
unfoldable pub release_id_try_from : UuidLibrary → Text → Option ℕ
release_id_try_from uuid value = elim (uuid.parse_str value) [
  | none ↦ none
  | some id ↦ if text_eq (uuid.to_string id) value && uuid.is_version4 id then some id else none
]

pub record ExactReference : Type 0 where
  pub mod_id : ℕ
  pub release_id : ℕ
  pub sha256 : Text

unfoldable pub exact_eq : ExactReference → ExactReference → Bool
exact_eq a b = a.mod_id == b.mod_id && a.release_id == b.release_id && text_eq a.sha256 b.sha256
