-- ===== src/Contract/Unique.antt =====
-- `depth` and `unique_json` of src-tauri/src/runtime_contract.rs.
pub mod Height
use starframe.Prelude.{ℕ, suc, Text, codes, ltb}
use starframe.Prelude.Outcome.{Outcome, ok, ok_or, ◌>>=◌, ◌>>◌}
use starframe.Json.{
  JsonLibrary, Json, Values, Members, array, object, no_values, value, no_members, member,
}
use starframe.Paths.{require}
use starframe.Contract.Strict.{from_slice}

module _ (json : JsonLibrary) where
  -- `depth(value, level)`: no array and no object lies deeper than 32.
  unfoldable mutual
    unfolding require

    pub depth : Json json → ℕ → Outcome (Unit {0})
    depth (array values) level = do
      require (ltb level 32) (codes "JSON depth")
      depth_values values (suc level)
    depth (object members) level = do
      require (ltb level 32) (codes "JSON depth")
      depth_members members (suc level)
    depth _ level = ok tt

    pub depth_values : Values json.Number → ℕ → Outcome (Unit {0})
    depth_values no_values level = ok tt
    depth_values (value first rest) level = do depth first level; depth_values rest level

    pub depth_members : Members json.Number → ℕ → Outcome (Unit {0})
    depth_members no_members level = ok tt
    depth_members (member key first rest) level = do depth first level; depth_members rest level

  -- `serde_json::from_slice::<Strict>(bytes).map_err(|e| e.to_string())`
  unfoldable pub strict_json : Text → Outcome (Json json)
  unfolding from_slice
  strict_json bytes = ok_or (from_slice json bytes) (json.error bytes)

  unfoldable pub unique_json : Text → Outcome (Json json)
  unfolding strict_json depth
  unique_json bytes = do v ← strict_json bytes; depth v 0; ok v
