-- ===== src/Examples/Updating.antt =====
-- The schedule of the checks, and the choice among three releases.
use Prim.Native.Nat.{Ordering}
use starframe.Prelude.{
  ◌≡◌, refl, inl, Bool, true, false, some, List, [], ◌∷◌, ◌++◌, Text, codes, is_empty, join, arith,
}
use starframe.Prelude.Outcome.{ok}
use starframe.Registry.Version.{Version, parse, compare_version}
use starframe.Registry.Version.Order.{compare_version-IsTotalOrder}
use starframe.Updates.Schedule.{Schedule, start_of, start, complete}
use starframe.Updates.Schedule.Backoff.{
  complete_waits, complete_resumes, fail_times, failures_back_off,
}
use starframe.Updates.Select.{
  SemverLibrary, stable, Release, GithubRelease, manifest_url, installer_url, select,
}
use starframe.Updates.Select.Choice.{IsStrict, IsAnswer, select-IsAnswer}

-- A failure at 1000, and a server that asked for 2000.
abbrev failed : Schedule
failed = complete start_of 1000 false (some 2000)

complete_waits_example : start failed 1999 true true false ≡ (failed, false)
complete_waits_example =
    complete_waits start_of 1000 1999 false (some 2000) true true false (omega arith)
      (inl (omega arith))

complete_resumes_example : (start failed 6000 false true false).1 ≡ true
complete_resumes_example =
    complete_resumes start_of 1000 6000 false (some 2000) false (omega arith) (omega arith)

failures_back_off_example : (start (fail_times 3 1000 start_of) 2199 true true false).1 ≡ false
failures_back_off_example =
    failures_back_off 2 1000 2199 start_of true true false refl (omega arith) (omega arith)
      (omega arith)

-- A library whose versions carry no build.
abbrev less : Version → Version → Bool
less a b = elim (compare_version a b) [
  | Ordering.lt ↦ true
  | Ordering.eq ↦ false
  | Ordering.gt ↦ false
]

abbrev with_pre : Text → List Text → Text
with_pre core [] = core
with_pre core (part ∷ parts) = core ++ codes "-" ++ join (codes ".") (part ∷ parts)

abbrev semver : SemverLibrary
semver = record {
  Version = Version;
  parse = parse;
  to_string = λ v. with_pre (join (codes ".") (v.major ∷ v.minor ∷ v.patch ∷ [])) v.pre;
  less = less;
  pre_is_empty = λ v. is_empty v.pre;
  build_is_empty = λ v. true;
}

semver-IsStrict : IsStrict semver
semver-IsStrict =
    let o = compare_version-IsTotalOrder in
    record {
      irreflexive = λ a. ground (arith, o.same a);
      trans = λ a b c h k. ground (arith, o.trans a b c);
      not_less = λ a b c h k. ground (
        arith,
        o.trans c b a,
        o.equal a b,
        o.equal b c,
        o.swap a b,
        o.swap b c,
        o.swap a c,
        o.same a,
        o.trans a c b,
        o.trans b a c,
      );
    }

abbrev listed_as : Text → Bool → GithubRelease
listed_as version prerelease = record {
  tag_name = codes "v" ++ version;
  draft = false;
  prerelease = prerelease;
  body = some (codes "notes");
  assets =
      record { name = codes "latest.json"; browser_download_url = manifest_url version }
      ∷ record { name = codes "setup"; browser_download_url = installer_url version }
      ∷ [];
}

abbrev feed : List GithubRelease
feed =
    listed_as (codes "1.2.0") false
    ∷ listed_as (codes "1.10.0") false
    ∷ listed_as (codes "2.0.0-rc.1") true
    ∷ []

abbrev offered : Release
offered = record { version = codes "1.10.0"; notes = codes "notes" }

abbrev current : Version
current = record { major = codes "1"; minor = codes "0"; patch = codes "0"; pre = [] }

offered_runs : select semver feed (codes "1.0.0") stable ≡ ok (some offered)
unfolding select parse compare_version manifest_url installer_url join
offered_runs = refl

current_parses : parse (codes "1.0.0") ≡ some current
unfolding parse
current_parses = refl

select-IsAnswer_example : IsAnswer semver current stable feed (some offered)
select-IsAnswer_example =
    select-IsAnswer semver current (codes "1.0.0") stable feed (some offered) semver-IsStrict
      current_parses offered_runs
