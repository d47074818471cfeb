-- ===== src/Examples/Contracts.antt =====
-- Documents of the game runtime.
use starframe.Prelude.{
  ◌≤◌, ◌≡◌, refl, true, false, ◌||◌, some, [], ◌++◌, Text, codes, replicate, split, ◌==◌, ◌↔◌,
}
use starframe.Prelude.Outcome.{ok}
use starframe.Json.{
  ℤ, pos, Value, Values, number, string, array, object, no_values, value, no_members, member,
}
use starframe.Registry.Identity.{UuidLibrary}
use starframe.Contract.Document.{overlaps}
use starframe.Contract.Document.Overlap.{begins, overlaps-begins}
use starframe.Contract.Unique.{depth}
use starframe.Contract.Unique.Height.{height, depth_iff}
use starframe.Contract.Activation.{activation}
use starframe.Contract.Activation.Loading.{IsActivation, activation-IsActivation}
use starframe.Contract.Report.{report}
use starframe.Contract.Report.Outcomes.{IsReport, report-IsReport}
use starframe.Examples.Signing.{json}

abbrev uuid : UuidLibrary
uuid = record {
  parse_str = λ v. some 5;
  to_string = λ id. codes "g";
  is_nil = λ id. id == 0;
  error = λ v. [];
  is_version4 = λ id. true;
}

abbrev digest : Text → Text
digest bytes = replicate 64 b'a'

abbrev installed_mod : Text → Value ℤ
installed_mod id = object (
    member (codes "modId") (string id) (
      member (codes "name") (string (codes "Name"))
        (member (codes "version") (string (codes "1")) no_members)))

abbrev file : Text → Value ℤ
file path = object (
    member (codes "path") (string path)
      (member (codes "sha256") (string (replicate 64 b'0')) no_members))

abbrev active_mod : (id root : Text) → Values ℤ → Value ℤ
active_mod id root wanted = object (
    member (codes "entryAssembly") (string (codes "a.dll")) (
      member (codes "entryType") (string (codes "A.Entry")) (
        member (codes "files") (array (value (file (codes "a.dll")) no_values)) (
          member (codes "modId") (string id) (
            member (codes "requires") (array wanted) (
              member (codes "root") (string root) (
                member (codes "source")
                  (object (
                    member (codes "contentId") (string (codes "sha256:" ++ replicate 64 b'a'))
                      (member (codes "kind") (string (codes "local")) no_members)))
                  no_members)))))))

abbrev two_mods : Value ℤ
two_mods = object (
    member (codes "deploymentRevision") (string (codes "12")) (
      member (codes "installedMods")
        (array
          (value (installed_mod (codes "base")) (value (installed_mod (codes "extra")) no_values)))
        (member (codes "integrationId") (string (codes "starframe.bepinex")) (
          member (codes "mods")
            (array (
              value (active_mod (codes "base") (codes "mods/base") no_values) (
                value
                  (active_mod (codes "extra") (codes "mods/extra")
                    (value (string (codes "base")) no_values))
                  no_values)))
            (member (codes "omittedDisabledMods") (number (pos 0)) (
              member (codes "runtimeContractVersion") (number (pos 1))
                (member (codes "schemaVersion") (number (pos 3)) no_members)))))))

two_accepted : activation json uuid digest two_mods ≡ ok tt
unfolding activation
two_accepted = refl

activation-IsActivation_example : IsActivation json two_mods
activation-IsActivation_example = activation-IsActivation json uuid digest two_mods two_accepted

abbrev entry : (id outcome code message : Text) → Value ℤ
entry id outcome code message = object (
    member (codes "errorCode") (string code) (
      member (codes "message") (string message) (
        member (codes "modId") (string id) (member (codes "outcome") (string outcome) no_members))))

abbrev two_outcomes : Value ℤ
two_outcomes = object (
    member (codes "deploymentRevision") (string (codes "12")) (
      member (codes "gameSessionId") (string (codes "g")) (
        member (codes "integrationId") (string (codes "starframe.bepinex")) (
          member (codes "mods")
            (array (
              value (entry (codes "base") (codes "failed") (codes "bad_dll") (codes "no")) (
                value
                  (entry (codes "extra") (codes "skipped_dependency") (codes "dependency_failed")
                    (codes "base failed"))
                  no_values)))
            (member (codes "processId") (number (pos 77)) (
              member (codes "processStartFileTime") (string (codes "9")) (
                member (codes "runtimeContractVersion") (number (pos 1))
                  (member (codes "schemaVersion") (number (pos 1)) no_members))))))))

outcomes_accepted : report json uuid two_outcomes ≡ ok tt
unfolding report
outcomes_accepted = refl

report-IsReport_example : IsReport json uuid two_outcomes
report-IsReport_example = report-IsReport json uuid two_outcomes outcomes_accepted

depth_iff_example : (depth json two_mods 0 ≡ ok tt) ↔ (height json two_mods ≤ 32)
depth_iff_example = depth_iff json two_mods

overlaps-begins_example : overlaps (codes "mods") (codes "mods/base") ≡ (
    begins (split b'/' (codes "mods")) (split b'/' (codes "mods/base"))
    || begins (split b'/' (codes "mods/base")) (split b'/' (codes "mods")))
overlaps-begins_example = overlaps-begins (codes "mods") (codes "mods/base")

apart_named : overlaps (codes "mods/base") (codes "mods/base2") ≡ false
unfolding overlaps
apart_named = refl
