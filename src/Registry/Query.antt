-- ===== src/Registry/Query.antt =====
-- `ListQuery` of src-tauri/src/registry/wire.rs. The modes of a query are in the child.
pub mod Modes
use starframe.Prelude.{
  ℕ, Bool, not, ◌&&◌, ◌||◌, List, [], ◌∷◌, Text, codes, all, any, is_empty, elem, contains,
  distinct, encode_utf16, within, length, leb, ltb,
}
use starframe.Prelude.Outcome.{Outcome, ok, err, ensure}
use starframe.Registry.Identity.{max_safe_integer}
use starframe.Registry.Query.Modes.{Sort, updated, Period, Maintenance, ModTypeFilter}

pub record ListQuery : Type 0 where
  pub page : ℕ
  pub page_size : ℕ
  pub query : Text
  pub include_tags : List Text
  pub exclude_tags : List Text
  pub sort : Sort
  pub period : Period
  pub maintenance : Maintenance
  pub mod_type : ModTypeFilter
  pub game_builds : List Text

-- `ListQuery::default()`
abbrev pub default : ListQuery
default = record {
  page = 1;
  page_size = 24;
  query = [];
  include_tags = [];
  exclude_tags = [];
  sort = updated;
  period = Period.all;
  maintenance = Maintenance.all;
  mod_type = ModTypeFilter.all;
  game_builds = [];
}

abbrev pub page_sizes : List ℕ
page_sizes = 6 ∷ 10 ∷ 12 ∷ 20 ∷ 24 ∷ 48 ∷ 50 ∷ []

item_fits : ℕ → Text → Bool
unfolding encode_utf16
item_fits longest item = not (is_empty item) && leb (length (encode_utf16 item)) longest

-- The closure `unique` of `validate`.
unfoldable pub unique : List Text → (limit longest : ℕ) → Bool
unfolding item_fits
unique items limit longest =
    leb (length items) limit && all (item_fits longest) items && distinct items

-- `ListQuery::validate`
unfoldable pub validate : ListQuery → Outcome (Unit {0})
unfolding unique encode_utf16
validate q =
    ensure
      (not (
        not (within 1 max_safe_integer q.page)
        || not (elem q.page_size page_sizes)
        || ltb 200 (length (encode_utf16 q.query))
        || not (unique q.include_tags 20 64)
        || not (unique q.exclude_tags 20 64)
        || not (unique q.game_builds 20 100)
        || any (contains q.exclude_tags) q.include_tags))
      (codes "invalid registry list query")
