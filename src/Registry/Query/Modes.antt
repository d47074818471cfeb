-- ===== src/Registry/Query/Modes.antt =====
-- The modes of a `ListQuery` in src-tauri/src/registry/wire.rs, and their names in a query.
use starframe.Prelude.{Text, codes}

pub data Sort : Type 0 where
  updated published downloads name : Sort

unfoldable pub sort_as_str : Sort → Text
sort_as_str updated = codes "updated"
sort_as_str published = codes "published"
sort_as_str downloads = codes "downloads"
sort_as_str name = codes "name"

pub data Period : Type 0 where
  all day week month three_months six_months year : Period

unfoldable pub period_as_str : Period → Text
period_as_str Period.all = codes "all"
period_as_str day = codes "24h"
period_as_str week = codes "7d"
period_as_str month = codes "1m"
period_as_str three_months = codes "3m"
period_as_str six_months = codes "6m"
period_as_str year = codes "1y"

pub data Maintenance : Type 0 where
  all maintained unmaintained : Maintenance

unfoldable pub maintenance_as_str : Maintenance → Text
maintenance_as_str Maintenance.all = codes "all"
maintenance_as_str maintained = codes "maintained"
maintenance_as_str unmaintained = codes "unmaintained"

pub data ModTypeFilter : Type 0 where
  all code map ai unclassified : ModTypeFilter

unfoldable pub mod_type_as_str : ModTypeFilter → Text
mod_type_as_str ModTypeFilter.all = codes "all"
mod_type_as_str code = codes "code"
mod_type_as_str map = codes "map"
mod_type_as_str ai = codes "ai"
mod_type_as_str unclassified = codes "unclassified"
