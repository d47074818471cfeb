-- ===== src/Examples/Resolving.antt =====
-- A mod that is requested before the mod it depends on.
use starframe.Prelude.{
  ◌==◌, inl, some, ℕ, ◌≡◌, refl, true, none, List, [], ◌∷◌, Text, codes, show_u64,
}
use starframe.Prelude.Outcome.{IsPanicFree, ok}
use starframe.Registry.Identity.{UuidLibrary, ExactReference, exact_eq}
use starframe.Registry.Dependency.{Dependency, exact, mod_id, matches}
use starframe.Ordering.Registry.{Entry, Resolution, resolve_registry}
use starframe.Ordering.Shared.{find}
use starframe.Ordering.Registry.Selection.{entry_of}
use starframe.Ordering.Registry.Total.{resolve_registry-IsPanicFree}
use starframe.Ordering.Registry.Stable.{resolve_registry_stable}
use starframe.Ordering.Registry.Order.{Meets, IsResolved, resolve_registry-IsResolved}

-- A library whose identifiers are all canonical.
abbrev uuid : UuidLibrary
uuid = record {
  parse_str = λ value. none;
  to_string = show_u64;
  is_nil = λ id. id == 0;
  error = λ value. [];
  is_version4 = λ id. true;
}

abbrev reference : ℕ → ExactReference
reference id = record { mod_id = id; release_id = 100; sha256 = codes "ab" }

abbrev entry : ℕ → Text → List Dependency → Entry
entry id name dependencies = record {
  reference = reference id;
  display_name = name;
  version_label = codes "1.0.0";
  dependencies = dependencies;
}

abbrev installed : List Entry
installed = entry 1 (codes "Units") (exact 2 100 ∷ []) ∷ entry 2 (codes "Base") [] ∷ []

abbrev requested : List ExactReference
requested = reference 1 ∷ reference 2 ∷ []

abbrev resolution : Resolution
resolution = record {
  effective = reference 2 ∷ reference 1 ∷ [];
  adjustments =
      record { before = 2; after = 1; message = codes "Base must load before Units." } ∷ [];
}

requested_runs : resolve_registry uuid installed requested ≡ ok resolution
unfolding resolve_registry
requested_runs = refl

resolve_registry-IsResolved_example : IsResolved installed requested resolution
resolve_registry-IsResolved_example =
    resolve_registry-IsResolved uuid installed requested resolution requested_runs

resolve_registry-IsPanicFree_example :
    IsPanicFree (resolve_registry uuid installed (reference 1 ∷ reference 1 ∷ []))
resolve_registry-IsPanicFree_example =
    resolve_registry-IsPanicFree uuid installed (reference 1 ∷ reference 1 ∷ [])

abbrev in_order : List ExactReference
in_order = reference 2 ∷ reference 1 ∷ []

abbrev kept : Resolution
kept = record { effective = in_order; adjustments = [] }

in_order_runs : resolve_registry uuid installed in_order ≡ ok kept
unfolding resolve_registry
in_order_runs = refl

units_known : entry_of installed (reference 1) ≡ some (entry 1 (codes "Units") (exact 2 100 ∷ []))
unfolding find exact_eq
units_known = refl

base_known : entry_of installed (reference 2) ≡ some (entry 2 (codes "Base") [])
unfolding find exact_eq
base_known = refl

base-Meets : Meets installed (exact 2 100) (reference 2)
unfolding mod_id matches
base-Meets = record {
  entry = entry 2 (codes "Base") [];
  installed_as = base_known;
  named = refl;
  suits = refl;
}

resolve_registry_stable_example : kept ≡ record { effective = in_order; adjustments = [] }
resolve_registry_stable_example =
    resolve_registry_stable uuid installed in_order kept
      (
        (entry 2 (codes "Base") [], base_known, tt),
        (
          (
            entry 1 (codes "Units") (exact 2 100 ∷ []),
            units_known,
            ((reference 2, inl refl, base-Meets), tt),
          ),
          tt,
        ),
      )
      in_order_runs
