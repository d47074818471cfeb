-- ===== src/Ordering/Locals.antt =====
-- `resolve_locals` of src-tauri/src/ordering.rs, with `metadata` of src-tauri/src/mods/local.rs and
-- the types of src-tauri/src/local_import.rs.
pub mod Preferences
pub mod Selection
pub mod Constraints
pub mod Order
pub mod Total
pub mod Ending
use starframe.Prelude.{
  ℕ, zero, suc, ◌<◌, Bool, true, false, not, Option, none, some, List, [], ◌∷◌, ◌++◌, map, Text,
  text_eq, codes, any, length, get_elem?, ltb, leb, if◌then◌else◌,
}
use starframe.Prelude.Outcome.{Outcome, ok, err, panicked, ensure, ok_or, or_panic, ◌>>=◌, ◌>>◌}
use starframe.Registry.Identity.{UuidLibrary}
use starframe.References.{ModReference, mod_reference_eq, reference_try_from}
use starframe.Ordering.Graph.{Edges}
use starframe.Ordering.Shared.{
  max_mods, position_of, find, position_from, no_edges, add_edge, pick, adjust_from, must_precede,
  refuse_cycle, order_of,
}

-- The fields of a local manifest that ordering reads.
pub record Manifest : Type 0 where
  pub name : Text
  pub requires : List ModReference
  pub load_before : List Text
  pub load_after : List Text
  pub prefer_before : List Text
  pub prefer_after : List Text

pub record LocalSource : Type 0 where
  pub reference : ModReference
  pub manifest : Manifest

pub record Adjustment : Type 0 where
  pub before : Text
  pub after : Text
  pub message : Text

pub record Resolution : Type 0 where
  pub effective : List ModReference
  pub adjustments : List Adjustment

abbrev pub Positions : Type 0
Positions = List (Text × ℕ)

abbrev pub is_some : Option ℕ → Bool
is_some none = false
is_some (some n) = true

-- `result.map_err(|e| prefix + e)`
abbrev pub map_err {ℓ} : {A : Type ℓ} → Text → Outcome A → Outcome A
map_err prefix (ok a) = ok a
map_err prefix (err message) = err (prefix ++ message)
map_err prefix panicked = panicked

abbrev pub no_metadata : ModReference → Text
no_metadata reference =
    codes "Local metadata for "
    ++ reference.mod_id
    ++ codes " is unavailable. Import the exact build again."

abbrev pub source_of : List LocalSource → ModReference → Option LocalSource
source_of locals reference =
    find (λ (source : LocalSource). mod_reference_eq source.reference reference) locals

unfoldable pub metadata : UuidLibrary → List LocalSource → ModReference → Outcome Manifest
unfolding reference_try_from find mod_reference_eq
metadata uuid locals reference = do
  reference_try_from uuid reference
  source ← ok_or (source_of locals reference) (no_metadata reference)
  ok source.manifest

abbrev pub one_version : Text → Text
one_version id = codes "Only one version of " ++ id ++ codes " can be enabled."

abbrev pub unavailable : Text → Text
unavailable id = codes "Exact release metadata for " ++ id ++ codes " is unavailable: "

-- The loop over `requested`: the final `positions`, and `releases`.
unfoldable pub select_from :
    UuidLibrary
    → List LocalSource
    → ℕ
    → Positions
    → List ModReference
    → Outcome (Positions × List Manifest)
unfolding position_of metadata
select_from uuid locals index positions [] = ok (positions, [])
select_from uuid locals index positions (reference ∷ requested) = do
  ensure (not (is_some (position_of text_eq reference.mod_id positions)))
      (one_version reference.mod_id)
  release ← map_err (unavailable reference.mod_id) (metadata uuid locals reference)
  (final, releases) ←
      select_from uuid locals (suc index) ((reference.mod_id, index) ∷ positions) requested
  ok (final, release ∷ releases)

-- How an error names a required build.
abbrev pub build_of : ModReference → Text
build_of required = elim required.release_id [
  | some id ↦ codes "release " ++ id
  | none ↦ codes "local build " ++ required.mod_id ++ codes " (" ++ required.hash ++ codes ")"
]

abbrev pub missing_build : Text → ModReference → Text
missing_build id required =
    id
    ++ codes " requires "
    ++ build_of required
    ++ codes ". Enable the missing or disabled dependency, or disable "
    ++ id
    ++ codes "."

module _ (requested : List ModReference) (positions : Positions) where
  abbrev pub place_of : ModReference → Option ℕ
  place_of required = position_from (λ r. mod_reference_eq r required) 0 requested

  -- `requested.iter().position(|r| r == required).ok_or_else(…)`
  unfoldable pub dependency_of : ℕ → ModReference → Outcome ℕ
  unfolding position_from mod_reference_eq
  dependency_of index required = elim (place_of required) [
    | some dependency ↦ ok dependency
    | none ↦ do
      reference ← or_panic (get_elem? requested index)
      err (missing_build reference.mod_id required)
  ]

  -- `for required in &release.requires`
  unfoldable pub require_all : ℕ → List ModReference → Edges → Outcome Edges
  unfolding dependency_of add_edge
  require_all index [] edges = ok edges
  require_all index (required ∷ requires) edges = do
    dependency ← dependency_of index required
    added ← add_edge edges dependency index
    require_all index requires added

  -- `let (from, to) = if before { (index, other) } else { (other, index) };`
  abbrev pub ordered : Bool → ℕ → ℕ → ℕ × ℕ
  ordered true index other = (index, other)
  ordered false index other = (other, index)

  -- One target of `load_before` or `load_after`.
  unfoldable pub constrain : Bool → ℕ → Text → Edges → Outcome Edges
  unfolding position_of add_edge
  constrain before index target edges = elim (position_of text_eq target positions) [
    | none ↦ ok edges
    | some other ↦ let (from, to) = ordered before index other in add_edge edges from to
  ]

  unfoldable pub constrain_all : Bool → ℕ → List Text → Edges → Outcome Edges
  unfolding constrain
  constrain_all before index [] edges = ok edges
  constrain_all before index (target ∷ targets) edges = do
    added ← constrain before index target edges
    constrain_all before index targets added

  -- `for (index, release) in releases.iter().enumerate()`
  unfoldable pub edges_from : ℕ → List Manifest → Edges → Outcome Edges
  unfolding require_all constrain_all
  edges_from index [] edges = ok edges
  edges_from index (release ∷ releases) edges = do
    required ← require_all index release.requires edges
    before ← constrain_all true index release.load_before required
    after ← constrain_all false index release.load_after before
    edges_from (suc index) releases after

abbrev pub too_many : Text
too_many = codes "This runtime supports at most 256 active mods."

abbrev pub advice : Text
advice = codes "Disable an involved mod or choose releases with compatible constraints."

-- The checks of `resolve_locals`, up to the refusal of a cycle.
unfoldable pub selection_edges :
    UuidLibrary → List LocalSource → List ModReference → Outcome (Positions × List Manifest × Edges)
unfolding select_from edges_from no_edges refuse_cycle
selection_edges uuid locals requested = do
  ensure (leb (length requested) max_mods) too_many
  (positions, releases) ← select_from uuid locals 0 [] requested
  edges ← edges_from requested positions 0 releases (no_edges (length requested))
  refuse_cycle (map (λ (r : ModReference). r.mod_id) requested) advice edges
  ok (positions, releases, edges)
