-- ===== src/Registry/Dependency.antt =====
-- `Dependency` of registry/wire.rs and its methods in registry/dependencies.rs.
pub mod Suggestion
pub mod Ranges
use Prim.Native.Nat.{Ordering}
use starframe.Prelude.{
  ℕ, ◌+◌, ◌<◌, Bool, true, false, not, ◌&&◌, ◌||◌, Option, none, some, List, [], ◌∷◌, Text,
  is_empty, any, length, ltb, leb, ◌==◌, if◌then◌else◌,
}
use starframe.Registry.Identity.{ExactReference}
use starframe.Registry.Version.{Version, parse, compare_version}
use starframe.Registry.Installation.{Installation}
use starframe.Registry.Installation
pub use starframe.Registry.Wire.{
  Dependency, exact, range, Availability, available, withdrawn, hidden, pruned, SecurityStatus,
  not_blocked, Release,
}
use starframe.Registry.Wire.{Availability, SecurityStatus}

unfoldable pub mod_id : Dependency → ℕ
mod_id (exact id release_id) = id
mod_id (range id minimum before include_prerelease) = id

abbrev pub is_some {ℓ} : {A : Type ℓ} → Option A → Bool
is_some none = false
is_some (some a) = true

-- `limit.as_deref().and_then(Version::parse)`
unfoldable pub parse_limit : Option Text → Option Version
parse_limit none = none
parse_limit (some limit) = parse limit

abbrev pub is_less : Ordering → Bool
is_less Ordering.lt = true
is_less _ = false

-- `minimum.is_some() == minimum_version.is_some()`
pub same_presence : Option Text → Option Version → Bool
same_presence none none = true
same_presence (some limit) (some version) = true
same_presence _ _ = false

pub in_order : Option Version → Option Version → Bool
in_order (some minimum) (some before) = is_less (compare_version minimum before)
in_order _ _ = true

unfoldable pub valid_constraint : (is_version4 : ℕ → Bool) → Dependency → Bool
unfolding parse_limit same_presence in_order
valid_constraint is_version4 (exact id release_id) = is_version4 release_id
valid_constraint is_version4 (range id minimum before include_prerelease) =
    (is_some minimum || is_some before)
    && same_presence minimum (parse_limit minimum)
    && same_presence before (parse_limit before)
    && in_order (parse_limit minimum) (parse_limit before)

-- `Dependency::valid`
unfoldable pub valid : (is_version4 : ℕ → Bool) → ℕ → Dependency → Bool
unfolding mod_id valid_constraint
valid is_version4 source dependency =
    not (mod_id dependency == source) && valid_constraint is_version4 dependency

-- `minimum.as_deref().is_none_or(|minimum| Version::parse(minimum).is_some_and(…))`
pub reaches : Option Text → Version → Bool
reaches none candidate = true
reaches (some minimum) candidate = elim (parse minimum) [
  | none ↦ false
  | some version ↦ not (is_less (compare_version candidate version))
]

pub precedes : Option Text → Version → Bool
precedes none candidate = true
precedes (some before) candidate = elim (parse before) [
  | none ↦ false
  | some version ↦ is_less (compare_version candidate version)
]

pub in_range : Option Text → Option Text → Bool → Option Version → Bool
unfolding reaches precedes
in_range minimum before include_prerelease none = false
in_range minimum before include_prerelease (some candidate) =
    (include_prerelease || is_empty candidate.pre)
    && reaches minimum candidate
    && precedes before candidate
    && (is_some minimum || is_some before)

-- `Dependency::matches`
unfoldable pub matches : Dependency → (mod_id release_id : ℕ) → (version_label : Text) → Bool
unfolding in_range
matches (exact wanted expected) mod_id release_id version_label =
    if wanted == mod_id then expected == release_id else false
matches (range wanted minimum before include_prerelease) mod_id release_id version_label =
    if wanted == mod_id
    then in_range minimum before include_prerelease (parse version_label)
    else false

is_available : Availability → Bool
is_available available = true
is_available _ = false

is_clear : SecurityStatus → Bool
is_clear not_blocked = true
is_clear SecurityStatus.blocked = false

is_installable : Option Installation → Bool
is_installable none = false
is_installable (some plan) = Installation.valid plan

-- The filter of `suggest`.
unfoldable pub eligible : Dependency → Release → Bool
unfolding is_available is_clear is_installable matches
eligible dependency candidate =
    is_available candidate.availability
    && is_clear candidate.security.status
    && is_installable candidate.metadata.installation
    && matches dependency candidate.mod_id candidate.release_id candidate.version_label

-- `max_by_key`: of several largest elements the last one.
unfoldable pub max_by_key : (Release → ℕ) → Option Release → List Release → Option Release
max_by_key key best [] = best
max_by_key key none (candidate ∷ candidates) = max_by_key key (some candidate) candidates
max_by_key key (some best) (candidate ∷ candidates) =
    max_by_key key (some (if ltb (key candidate) (key best) then best else candidate)) candidates

pub filter : (Release → Bool) → List Release → List Release
filter test [] = []
filter test (candidate ∷ candidates) =
    let rest = filter test candidates in if test candidate then candidate ∷ rest else rest

pub exact_reference : Release → ExactReference
exact_reference candidate = record {
  mod_id = candidate.mod_id;
  release_id = candidate.release_id;
  sha256 = candidate.artifact.sha256;
}

-- The release that `suggest` names, and the reference that it returns.
unfoldable pub suggested : Dependency → List Release → Option Release
unfolding eligible filter max_by_key
suggested dependency candidates =
    max_by_key (λ r. r.publication_order) none (filter (eligible dependency) candidates)

unfoldable pub suggest : Dependency → List Release → Option ExactReference
unfolding suggested exact_reference
suggest dependency candidates = elim (suggested dependency candidates) [
  | none ↦ none
  | some candidate ↦ some (exact_reference candidate)
]

-- The loop of `valid_dependencies` with the IDs that were seen.
pub all_distinct : (Dependency → Bool) → List ℕ → List Dependency → Bool
unfolding mod_id
all_distinct test seen [] = true
all_distinct test seen (dependency ∷ dependencies) =
    test dependency
    && not (any (λ id. id == mod_id dependency) seen)
    && all_distinct test (mod_id dependency ∷ seen) dependencies

unfoldable pub valid_dependencies : (is_version4 : ℕ → Bool) → ℕ → List Dependency → Bool
unfolding valid all_distinct
valid_dependencies is_version4 source dependencies =
    leb (length dependencies) 100 && all_distinct (valid is_version4 source) [] dependencies
