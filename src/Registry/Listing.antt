-- ===== src/Registry/Listing.antt =====
-- The lists and pages of mods in src-tauri/src/registry/wire.rs. A `Uuid` is a number, a time is the
-- text that the website sends, and an `ApiVersion` carries nothing.
use starframe.Prelude.{
  ℕ, Bool, true, false, not, ◌&&◌, Option, none, some, List, [], ◌∷◌, Text, codes, text_eq, all,
  is_empty, elem, distinct, within, split, trim_end_matches, length, leb, ◌==◌, if◌then◌else◌,
}
use starframe.Registry.Identity.{max_safe_integer}
use starframe.Registry.Wire.{Availability, Tombstone, ReleaseResult, release, tombstone}
use starframe.Registry.Valid.{ends_in_z}
use starframe.Registry.Valid
use starframe.Registry.Query.{page_sizes}

pub record Pagination : Type 0 where
  pub page : ℕ
  pub page_size : ℕ
  pub total_items : ℕ
  pub total_pages : ℕ
  pub as_of : Text

pub record Profile : Type 0 where
  pub display_name : Text
  pub avatar_url : Option Text

pub data ModType : Type 0 where
  code map ai : ModType

pub record ModSummary : Type 0 where
  pub mod_id : ℕ
  pub mod_type : Option ModType
  pub name : Text
  pub summary : Text
  pub owner : Option Profile
  pub tags : List Text
  pub maintained : Bool
  pub replacement_mod_id : Option ℕ
  pub updated_at : Text
  pub latest_release_id : Option ℕ
  pub downloads : ℕ
  pub likes : ℕ
  pub archive_bytes : Option ℕ
  pub icon_id : Option ℕ
  pub published_at : Option Text
  pub latest_availability : Option Availability

bytes_fit : Option ℕ → Bool
bytes_fit none = true
bytes_fit (some bytes) = within 1 max_safe_integer bytes

owner_fits : Option Profile → Bool
owner_fits none = true
owner_fits (some owner) = within 1 120 (length owner.display_name)

unfoldable pub summary_valid : ModSummary → Bool
unfolding bytes_fit owner_fits ends_in_z
summary_valid item =
    within 1 120 (length item.name)
    && leb (length item.summary) 500
    && leb (length item.tags) 50
    && all (λ tag. within 1 64 (length tag)) item.tags
    && distinct item.tags
    && ends_in_z item.updated_at
    && bytes_fit item.archive_bytes
    && owner_fits item.owner

-- The elements are distinct, as the length of their `HashSet` tells.
abbrev pub distinct_ids : List ℕ → Bool
distinct_ids [] = true
distinct_ids (id ∷ ids) = not (elem id ids) && distinct_ids ids

pub record ModList : Type 0 where
  pub items : List ModSummary
  pub pagination : Pagination

abbrev pub ids_of : List ModSummary → List ℕ
ids_of [] = []
ids_of (item ∷ items) = item.mod_id ∷ ids_of items

-- `ModList::valid`
unfoldable pub list_valid : ModList → Bool
unfolding ends_in_z summary_valid
list_valid page =
    leb (length page.items) 50
    && elem page.pagination.page_size page_sizes
    && ends_in_z page.pagination.as_of
    && all summary_valid page.items
    && distinct_ids (ids_of page.items)

pub record ModMedia : Type 0 where
  pub icon_id : Option ℕ
  pub screenshot_ids : List ℕ

pub record ModDetail : Type 0 where
  pub listing : ModSummary
  pub description : Text
  pub source_repository : Option Text
  pub media : ModMedia
  pub latest_release : ReleaseResult

pub data ModResult : Type 0 where
  found_mod : ModDetail → ModResult
  removed_mod : Tombstone → ModResult

-- What the program uses of the `reqwest::Url` type.
pub record UrlLibrary : Type 1 where
  pub Url : Type 0
  pub parse : Text → Option Url
  pub scheme : Url → Text
  pub host_str : Url → Option Text
  pub username : Url → Text
  pub password : Url → Option Text
  pub query : Url → Option Text
  pub fragment : Url → Option Text
  pub path : Url → Text

-- `value.trim_start_matches(byte)`
trim_start_matches : ℕ → Text → Text
trim_start_matches trimmed [] = []
trim_start_matches trimmed (byte ∷ value) =
    let rest = trim_start_matches trimmed value in if byte == trimmed then rest else byte ∷ value

is_github : Option Text → Bool
is_github none = false
is_github (some host) = text_eq host (codes "github.com")

is_absent : Option Text → Bool
is_absent none = true
is_absent (some text) = false

-- The path names an owner and a repository.
two_parts : Text → Bool
unfolding split trim_end_matches trim_start_matches
two_parts path = length (split b'/' (trim_start_matches b'/' (trim_end_matches b'/' path))) == 2

-- The release that is shown belongs to the mod and is its latest.
names : (mod_id release_id : ℕ) (expected : ℕ) (latest : Option ℕ) → Bool
names mod_id release_id expected none = false
names mod_id release_id expected (some latest) = mod_id == expected && release_id == latest

latest_fits : ReleaseResult → (expected : ℕ) (latest : Option ℕ) → Bool
unfolding names
latest_fits (release found) expected latest = names found.mod_id found.release_id expected latest
latest_fits (tombstone entry) expected latest = names entry.mod_id entry.release_id expected latest

module _ (url : UrlLibrary) (is_version4 : ℕ → Bool) where
  repository_fits : Option Text → Bool
  unfolding is_github is_absent two_parts
  repository_fits none = true
  repository_fits (some source) = leb (length source) 2048 && elim (url.parse source) [
    | none ↦ false
    | some u ↦
        text_eq (url.scheme u) (codes "https")
        && is_github (url.host_str u)
        && is_empty (url.username u)
        && is_absent (url.password u)
        && is_absent (url.query u)
        && is_absent (url.fragment u)
        && two_parts (url.path u)
  ]

  detail_valid : (expected : ℕ) → ModDetail → Bool
  unfolding summary_valid latest_fits repository_fits Valid.valid
  detail_valid expected detail =
      detail.listing.mod_id == expected
      && summary_valid detail.listing
      && leb (length detail.description) 20000
      && leb (length detail.media.screenshot_ids) 10
      && distinct_ids detail.media.screenshot_ids
      && Valid.valid is_version4 detail.latest_release
      && latest_fits detail.latest_release expected detail.listing.latest_release_id
      && repository_fits detail.source_repository

  -- `ModResult::valid`
  unfoldable pub result_valid : (expected : ℕ) → ModResult → Bool
  unfolding detail_valid Valid.valid
  result_valid expected (found_mod detail) = detail_valid expected detail
  result_valid expected (removed_mod entry) =
      entry.mod_id == expected && Valid.valid is_version4 (tombstone entry)
