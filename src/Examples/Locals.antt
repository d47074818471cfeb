-- ===== src/Examples/Locals.antt =====
-- Two local mods, the first of which requires the second.
use starframe.Prelude.{◌==◌, some, ◌≡◌, refl, true, none, List, [], ◌∷◌, Text, codes, show_u64}
use starframe.Prelude.Outcome.{ok, IsPanicFree}
use starframe.Registry.Identity.{UuidLibrary}
use starframe.References.{ModReference, Reference, local, local_reference, reference_try_from}
use starframe.References.Conversion.{local_reference-try_from}
use starframe.Ordering.Locals.{LocalSource, Adjustment, Resolution}
use starframe.Ordering.Locals.Preferences.{resolve_locals}
use starframe.Ordering.Locals.Ending.{resolve_locals-IsPanicFree}
use starframe.Ordering.Locals.Order.{IsResolved, resolve_locals-IsResolved}

abbrev uuid : UuidLibrary
uuid = record {
  parse_str = λ value. none;
  to_string = show_u64;
  is_nil = λ id. id == 0;
  error = λ value. [];
  is_version4 = λ id. true;
}

abbrev hash : Text
hash = codes "0123456789abcdef0123456789abcdef0123456789abcdef0123456789abcdef"

abbrev build : Text → ModReference
build id = record { mod_id = id; hash = hash; release_id = none }

abbrev source : Text → List ModReference → List Text → LocalSource
source id requires load_before = record {
  reference = build id;
  manifest = record {
    name = id;
    requires = requires;
    load_before = load_before;
    load_after = [];
    prefer_before = codes "base" ∷ [];
    prefer_after = [];
  };
}

abbrev locals : List LocalSource
locals =
    source (codes "units") (build (codes "base") ∷ []) []
    ∷ source (codes "maps") [] (codes "units" ∷ codes "absent" ∷ [])
    ∷ source (codes "base") [] []
    ∷ []

abbrev requested : List ModReference
requested = build (codes "units") ∷ build (codes "maps") ∷ build (codes "base") ∷ []

abbrev note : Text → Text → Text → Adjustment
note before after message = record { before = before; after = after; message = message }

abbrev resolution : Resolution
resolution = record {
  effective = build (codes "maps") ∷ build (codes "base") ∷ build (codes "units") ∷ [];
  adjustments =
      note (codes "maps") (codes "units") (codes "maps must load before units.")
      ∷ note (codes "base") (codes "units") (codes "base must load before units.")
      ∷ note (codes "units") (codes "base") (
          codes
            "units prefers to load before base. Your priority and required constraints take precedence.")
      ∷ [];
}

requested_runs : resolve_locals uuid locals requested ≡ ok resolution
unfolding resolve_locals
requested_runs = refl

resolve_locals-IsResolved_example : IsResolved locals requested resolution.effective
resolve_locals-IsResolved_example =
    resolve_locals-IsResolved uuid locals requested resolution requested_runs

-- The second reference is not imported.
resolve_locals-IsPanicFree_example :
    IsPanicFree (resolve_locals uuid locals (build (codes "maps") ∷ build (codes "other") ∷ []))
resolve_locals-IsPanicFree_example =
    resolve_locals-IsPanicFree uuid locals (build (codes "maps") ∷ build (codes "other") ∷ [])

abbrev base_reference : Reference
base_reference = local (record { mod_id = codes "base"; sha256 = hash })

base_converts : reference_try_from uuid (build (codes "base")) ≡ ok base_reference
unfolding reference_try_from
base_converts = refl

local_reference-try_from_example : local_reference base_reference ≡ some (build (codes "base"))
local_reference-try_from_example =
    local_reference-try_from uuid (build (codes "base")) base_reference base_converts
