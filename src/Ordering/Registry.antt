-- ===== src/Ordering/Registry.antt =====
-- ordering/registry.rs: `resolve_registry` and `selection_edges`.
pub mod Selection
pub mod Requirements
pub mod Order
pub mod Total
pub mod Placing
pub mod Stable
use starframe.Prelude.{
  ℕ, zero, suc, ◌+◌, ◌<◌, Bool, true, false, not, Option, none, some, List, [], ◌∷◌, ◌++◌, map,
  Text, codes, length, get_elem?, show_u64, ltb, leb, ◌==◌, if◌then◌else◌,
}
use starframe.Prelude.Outcome.{Outcome, ok, err, ensure, ok_or, or_panic, ◌>>=◌, ◌>>◌}
use starframe.Registry.Identity.{UuidLibrary, ExactReference, exact_eq}
use starframe.Registry.Dependency.{Dependency, mod_id, matches, valid_dependencies}
use starframe.Ordering.Graph.{Edges}
use starframe.Ordering.Shared.{
  max_mods, position_of, find, no_edges, add_edge, pick, adjust_from, must_precede, refuse_cycle,
  order_of,
}

-- `RegistryLibraryEntry` of storage/registry.rs, with the fields that ordering reads.
pub record Entry : Type 0 where
  pub reference : ExactReference
  pub display_name : Text
  pub version_label : Text
  pub dependencies : List Dependency

pub record Adjustment : Type 0 where
  pub before : ℕ
  pub after : ℕ
  pub message : Text

pub record Resolution : Type 0 where
  pub effective : List ExactReference
  pub adjustments : List Adjustment

abbrev pub Positions : Type 0
Positions = List (ℕ × ℕ)

abbrev pub same_id : ℕ → ℕ → Bool
same_id a b = a == b

abbrev pub is_some : Option ℕ → Bool
is_some none = false
is_some (some n) = true

pub twice_enabled : ℕ → Text
unfolding show_u64
twice_enabled id = codes "Only one release of mod " ++ show_u64 id ++ codes " can be enabled."

abbrev pub bad_metadata : Text
bad_metadata = codes "Installed registry dependency metadata is invalid. Files were retained."

module _ (uuid : UuidLibrary) where
  pub not_installed : ExactReference → Text
  unfolding show_u64
  not_installed reference =
      codes "Release "
      ++ uuid.to_string reference.release_id
      ++ codes " for mod "
      ++ show_u64 reference.mod_id
      ++ codes " is not installed. Install the pinned release to use this collection."

  -- The loop over `requested`: the final `positions`, and `selected`.
  unfoldable pub select_from :
      List Entry → ℕ → Positions → List ExactReference → Outcome (Positions × List Entry)
  unfolding position_of find exact_eq valid_dependencies twice_enabled not_installed
  select_from installed index positions [] = ok (positions, [])
  select_from installed index positions (reference ∷ requested) = do
    ensure (not (is_some (position_of same_id reference.mod_id positions)))
        (twice_enabled reference.mod_id)
    entry ←
        ok_or (find (λ (entry : Entry). exact_eq entry.reference reference) installed)
          (not_installed reference)
    ensure (valid_dependencies uuid.is_version4 reference.mod_id entry.dependencies) bad_metadata
    (final, rest) ←
        select_from installed (suc index) ((reference.mod_id, index) ∷ positions) requested
    ok (final, entry ∷ rest)

pub missing_mod : Entry → Dependency → Text
unfolding show_u64 mod_id
missing_mod entry required =
    entry.display_name
    ++ codes " requires mod "
    ++ show_u64 (mod_id required)
    ++ codes ". Enable a matching installed release or disable "
    ++ entry.display_name
    ++ codes "."

pub other_release : Entry → Entry → Text
other_release entry candidate =
    entry.display_name
    ++ codes " requires a different release of "
    ++ candidate.display_name
    ++ codes ". Select a matching exact release or disable "
    ++ entry.display_name
    ++ codes "."

module _ (positions : Positions) (selected : List Entry) where
  -- `for required in &entry.dependencies`
  unfoldable pub require_all : ℕ → Entry → List Dependency → Edges → Outcome Edges
  unfolding position_of add_edge mod_id matches missing_mod other_release
  require_all index entry [] edges = ok edges
  require_all index entry (required ∷ dependencies) edges = do
    dependency ←
        ok_or (position_of same_id (mod_id required) positions) (missing_mod entry required)
    candidate ← or_panic (get_elem? selected dependency)
    ensure
        (matches required candidate.reference.mod_id candidate.reference.release_id
          candidate.version_label)
        (other_release entry candidate)
    added ← add_edge edges dependency index
    require_all index entry dependencies added

  -- `for (index, entry) in selected.iter().enumerate()`
  unfoldable pub edges_from : ℕ → List Entry → Edges → Outcome Edges
  unfolding require_all
  edges_from index [] edges = ok edges
  edges_from index (entry ∷ entries) edges = do
    added ← require_all index entry entry.dependencies edges
    edges_from (suc index) entries added

abbrev pub advice : Text
advice = codes "Disable an involved mod or select compatible releases."

abbrev pub display_names : List Entry → List Text
display_names selected = map (λ entry. entry.display_name) selected

unfoldable pub selection_edges :
    UuidLibrary → List Entry → List ExactReference → Outcome (List Entry × Edges)
unfolding select_from edges_from no_edges refuse_cycle
selection_edges uuid installed requested = do
  ensure (leb (length requested) max_mods) (codes "Starframe supports at most 256 active mods.")
  (positions, selected) ← select_from uuid installed 0 [] requested
  edges ← edges_from positions selected 0 selected (no_edges (length requested))
  refuse_cycle (display_names selected) advice edges
  ok (selected, edges)

pub adjustment : List ExactReference → List Entry → ℕ → ℕ → Outcome Adjustment
unfolding must_precede
adjustment requested selected from to = do
  before ← or_panic (get_elem? requested from)
  after ← or_panic (get_elem? requested to)
  first ← or_panic (get_elem? selected from)
  second ← or_panic (get_elem? selected to)
  ok (record {
    before = before.mod_id;
    after = after.mod_id;
    message = must_precede first.display_name second.display_name;
  })

unfoldable pub resolve_registry :
    UuidLibrary → List Entry → List ExactReference → Outcome Resolution
unfolding selection_edges adjustment adjust_from order_of pick
resolve_registry uuid installed requested = do
  (selected, edges) ← selection_edges uuid installed requested
  adjustments ← adjust_from (adjustment requested selected) 0 edges
  indices ← order_of edges
  effective ← pick requested indices
  ok (record { effective = effective; adjustments = adjustments })
