-- ===== src/Examples/Releases.antt =====
-- Versions, ranges and suggestions.
use Prim.Native.Nat.{compare, Ordering}
use starframe.Prelude.{ℕ, ◌≡◌, ◌≢◌, refl, Bool, true, false, none, some, List, [], ◌∷◌, Text, codes}
use starframe.Registry.Version.{Version, parse, compare_version, number, numeric}
use starframe.Registry.Version.Decimal.{decimal, number-eq-compare}
use starframe.Registry.Installation.{Installation, lua_mod, code, lua}
use starframe.Registry.Dependency.{
  Dependency, exact, range, Release, available, not_blocked, matches, suggest, valid_dependencies,
  valid_constraint,
}
use starframe.Registry.Dependency.Suggestion.{
  IsSuggestion, suggest-IsSuggestion, AreValid, valid_dependencies-AreValid,
}
use starframe.Registry.Dependency.Ranges.{matches_between, minimum_matches}

abbrev every : ℕ → Bool
every id = true

nine_numeric : numeric (codes "9") ≡ true
unfolding numeric
nine_numeric = refl

ten_numeric : numeric (codes "10") ≡ true
unfolding numeric
ten_numeric = refl

number-eq-compare_example :
    number (codes "9") (codes "10") ≡ compare (decimal (codes "9")) (decimal (codes "10"))
number-eq-compare_example = number-eq-compare (codes "9") (codes "10") nine_numeric ten_numeric

abbrev numbered : Text → Version
numbered minor = record { major = codes "1"; minor = minor; patch = codes "0"; pre = [] }

abbrev from_one : Dependency
from_one = range 7 (some (codes "1.0.0")) (some (codes "2.0.0")) false

parses_5 : parse (codes "1.5.0") ≡ some (numbered (codes "5"))
unfolding parse
parses_5 = refl

parses_9 : parse (codes "1.9.0") ≡ some (numbered (codes "9"))
unfolding parse
parses_9 = refl

parses_10 : parse (codes "1.10.0") ≡ some (numbered (codes "10"))
unfolding parse
parses_10 = refl

parses_0 : parse (codes "1.0.0") ≡ some (numbered (codes "0"))
unfolding parse
parses_0 = refl

five_first : compare_version (numbered (codes "5")) (numbered (codes "9")) ≢ Ordering.gt
unfolding compare_version
five_first e = cc

nine_first : compare_version (numbered (codes "9")) (numbered (codes "10")) ≢ Ordering.gt
unfolding compare_version
nine_first e = cc

matches_5 : matches from_one 7 1 (codes "1.5.0") ≡ true
unfolding matches parse compare_version
matches_5 = refl

matches_10 : matches from_one 7 3 (codes "1.10.0") ≡ true
unfolding matches parse compare_version
matches_10 = refl

matches_between_example : matches from_one 7 2 (codes "1.9.0") ≡ true
matches_between_example =
    matches_between 7 1 2 3 (some (codes "1.0.0")) (some (codes "2.0.0")) false (codes "1.5.0")
      (codes "1.9.0") (codes "1.10.0") parses_5 parses_9 parses_10 five_first nine_first refl
      matches_5 matches_10

from_one_valid : valid_constraint every from_one ≡ true
unfolding valid_constraint parse compare_version
from_one_valid = refl

minimum_matches_example : matches from_one 7 1 (codes "1.0.0") ≡ true
minimum_matches_example =
    minimum_matches every 7 1 (codes "1.0.0") (some (codes "2.0.0")) false from_one_valid parses_0
      refl

abbrev released : ℕ → Text → Release
released order label = record {
  mod_id = 7;
  release_id = order;
  version_label = label;
  artifact = record { sha256 = codes "ab"; bytes = 1000 };
  publication_order = order;
  published_at = codes "2026-01-01T00:00:00.000Z";
  created_at = codes "2026-01-01T00:00:00.000Z";
  availability = available;
  security = record { status = not_blocked; revision = 0; reason = none };
  metadata = record {
    revision = 1;
    tested_game_build = codes "1";
    source_repository = none;
    release_notes = [];
    dependencies = [];
    dependency_problems = [];
    installation = some (lua_mod 1 code lua (codes "lj/lua/main.lua"));
  };
}

abbrev candidates : List Release
candidates =
    released 1 (codes "1.5.0") ∷ released 2 (codes "1.9.0") ∷ released 3 (codes "2.0.0") ∷ []

suggest-IsSuggestion_example : IsSuggestion from_one candidates (suggest from_one candidates)
suggest-IsSuggestion_example = suggest-IsSuggestion from_one candidates

second_suggested :
    suggest from_one candidates ≡ some (record { mod_id = 7; release_id = 2; sha256 = codes "ab" })
unfolding suggest parse compare_version starframe.Registry.Installation.valid
second_suggested = refl

abbrev two_dependencies : List Dependency
two_dependencies = from_one ∷ exact 8 5 ∷ []

two_accepted : valid_dependencies every 3 two_dependencies ≡ true
unfolding valid_dependencies parse compare_version
two_accepted = refl

valid_dependencies-AreValid_example : AreValid every 3 two_dependencies
valid_dependencies-AreValid_example =
    valid_dependencies-AreValid every 3 two_dependencies two_accepted
