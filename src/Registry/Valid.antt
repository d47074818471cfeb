-- ===== src/Registry/Valid.antt =====
-- `Security::valid_for` and `ReleaseResult::valid` of src-tauri/src/registry/wire.rs.
use starframe.Prelude.{
  ℕ, Bool, true, false, not, ◌&&◌, Option, none, some, List, Text, codes, text_eq, all, any,
  ends_with, encode_utf16, within, length, leb, ◌==◌,
}
use starframe.Registry.Dependency.{
  Dependency, exact, range, Availability, available, SecurityStatus, not_blocked,
  valid_dependencies,
}
use starframe.Registry.Dependency
use starframe.Registry.Installation.{Installation}
use starframe.Registry.Installation
use starframe.Registry.Wire.{
  Security, Release, ReleaseResult, release, tombstone, DependencyProblem,
}
use starframe.Registry.Wire

-- The status says `blocked` where the availability does, and only there.
unfoldable pub statuses_agree : Availability → SecurityStatus → Bool
statuses_agree Availability.blocked SecurityStatus.blocked = true
statuses_agree Availability.blocked not_blocked = false
statuses_agree _ SecurityStatus.blocked = false
statuses_agree _ not_blocked = true

reason_fits : Option Text → Bool
unfolding encode_utf16
reason_fits none = true
reason_fits (some reason) = within 1 1000 (length (encode_utf16 reason))

unfoldable pub valid_for : Security → Availability → Bool
unfolding statuses_agree reason_fits
valid_for security availability =
    reason_fits security.reason && statuses_agree availability security.status

option_eq : Option Text → Option Text → Bool
option_eq none none = true
option_eq (some a) (some b) = text_eq a b
option_eq _ _ = false

bool_eq : Bool → Bool → Bool
bool_eq true b = b
bool_eq false b = not b

-- The derived `==` of a `Dependency`.
unfoldable pub dependency_eq : Dependency → Dependency → Bool
unfolding option_eq bool_eq
dependency_eq (exact mod_id release_id) (exact other_id other_release) =
    mod_id == other_id && release_id == other_release
dependency_eq (range mod_id minimum before pre)
      (range other_id other_minimum other_before other_pre) =
    mod_id == other_id
    && option_eq minimum other_minimum
    && option_eq before other_before
    && bool_eq pre other_pre
dependency_eq _ _ = false

unfoldable pub ends_in_z : Text → Bool
unfolding ends_with
ends_in_z time = ends_with (codes "Z") time

plan_fits : Option Installation → Bool
unfolding Installation.valid
plan_fits none = true
plan_fits (some plan) = Installation.valid plan

module _ (is_version4 : ℕ → Bool) where
  unfoldable pub problem_fits :
      (mod_id : ℕ) (dependencies : List Dependency) → DependencyProblem → Bool
  unfolding dependency_eq Dependency.valid
  problem_fits mod_id dependencies problem =
      Dependency.valid is_version4 mod_id problem.dependency
      && any (dependency_eq problem.dependency) dependencies

  unfoldable pub release_valid : Release → Bool
  unfolding ends_in_z plan_fits problem_fits valid_for valid_dependencies
  release_valid found =
      within 1 100 (length found.version_label)
      && ends_in_z found.created_at
      && ends_in_z found.published_at
      && within 1 100 (length found.metadata.tested_game_build)
      && leb (length found.metadata.release_notes) 20000
      && valid_dependencies is_version4 found.mod_id found.metadata.dependencies
      && leb (length found.metadata.dependency_problems) 100
      && all (problem_fits found.mod_id found.metadata.dependencies)
          found.metadata.dependency_problems
      && plan_fits found.metadata.installation
      && valid_for found.security found.availability

  tombstone_valid : Wire.Tombstone → Bool
  unfolding ends_in_z
  tombstone_valid entry = elim entry.availability [
    | available ↦ false
    | _ ↦ ends_in_z entry.updated_at
  ]

  -- `ReleaseResult::valid`
  unfoldable pub valid : ReleaseResult → Bool
  unfolding release_valid tombstone_valid
  valid (release found) = release_valid found
  valid (tombstone entry) = tombstone_valid entry
