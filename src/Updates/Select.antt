-- ===== src/Updates/Select.antt =====
-- `select` of updates.rs: which GitHub release is offered as an update.
pub mod Choice
use starframe.Prelude.{
  ℕ, ◌+◌, ◌≡◌, ◌↔◌, Bool, true, false, not, ◌&&◌, ◌||◌, Option, none, some, List, [], ◌∷◌, ◌++◌,
  Text, text_eq, codes, any, length, leb, ◌==◌, if◌then◌else◌,
}
use starframe.Prelude.Outcome.{Outcome, ok, err, ensure, ok_or, ◌>>=◌, ◌>>◌}

-- What the program uses of the `semver` crate.
pub record SemverLibrary : Type 1 where
  pub Version : Type 0
  pub parse : Text → Option Version
  pub to_string : Version → Text
  -- `a < b`
  pub less : Version → Version → Bool
  pub pre_is_empty : Version → Bool
  pub build_is_empty : Version → Bool

pub data Channel : Type 0 where
  stable preview : Channel

pub record Release : Type 0 where
  pub version : Text
  pub notes : Text

pub record GithubAsset : Type 0 where
  pub name : Text
  pub browser_download_url : Text

pub record GithubRelease : Type 0 where
  pub tag_name : Text
  pub draft : Bool
  pub prerelease : Bool
  pub body : Option Text
  pub assets : List GithubAsset

abbrev releases_url : Text
releases_url = codes "https://github.com/Mastervoliumpl/Starframe/releases"

unfoldable pub manifest_url : Text → Text
manifest_url version = releases_url ++ codes "/download/v" ++ version ++ codes "/latest.json"

unfoldable pub installer_url : Text → Text
installer_url version =
    releases_url
    ++ codes "/download/v"
    ++ version
    ++ codes "/Starframe_"
    ++ version
    ++ codes "_x64-setup.exe"

-- `tag_name.strip_prefix('v')`
unfoldable pub strip_v : Text → Option Text
strip_v [] = none
strip_v (byte ∷ tag) = if byte == b'v' then some tag else none

is_stable : Channel → Bool
is_stable stable = true
is_stable preview = false

unwrap_or_default : Option Text → Text
unwrap_or_default none = []
unwrap_or_default (some text) = text

module _ (semver : SemverLibrary) where
  open semver use {Version, parse, to_string, less, pre_is_empty, build_is_empty}

  -- `Release::validate`
  unfoldable pub validate : Release → Outcome (Unit {0})
  validate release = do
    version ← ok_or (parse release.version) (codes "Invalid release version.")
    ensure
        (text_eq (to_string version) release.version
          && build_is_empty version
          && leb (length release.notes) 65536)
        (codes "Invalid release metadata.")

  -- The version of an item that the loop does not skip by its first tests.
  unfoldable pub newer : Version → Channel → GithubRelease → Option Version
  unfolding strip_v is_stable
  newer installed channel item = if item.draft then none else elim (strip_v item.tag_name) [
    | none ↦ none
    | some tag ↦ elim (parse tag) [
      | none ↦ none
      | some version ↦
          if not (less installed version)
            || not (build_is_empty version)
            || (is_stable channel && (item.prerelease || not (pre_is_empty version)))
          then none
          else some version
    ]
  ]

  unfoldable pub release_of : GithubRelease → Version → Release
  unfolding unwrap_or_default
  release_of item version = record {
    version = to_string version;
    notes = unwrap_or_default item.body;
  }

  has_manifest : GithubRelease → Release → Bool
  unfolding manifest_url
  has_manifest item release =
      any
        (λ (a : GithubAsset).
          text_eq a.name (codes "latest.json")
          && text_eq a.browser_download_url (manifest_url release.version))
        item.assets

  unfoldable pub has_installer : GithubRelease → Release → Bool
  unfolding installer_url
  has_installer item release =
      any (λ (a : GithubAsset). text_eq a.browser_download_url (installer_url release.version))
        item.assets

  -- `item.tag_name != format!("v{}", release.version)`, and the test for `latest.json`.
  unfoldable pub is_update : GithubRelease → Release → Bool
  unfolding has_manifest
  is_update item release =
      text_eq item.tag_name (codes "v" ++ release.version) && has_manifest item release

  abbrev pub Selected : Type 0
  Selected = Option (Version × Release)

  -- `selected.is_none_or(|(previous, _)| version > *previous)`
  pub keep : Selected → Version → Release → Selected
  keep none version release = some (version, release)
  keep (some (previous, best)) version release =
      if less previous version then some (version, release) else some (previous, best)

  -- The body of the loop for an item with a newer version.
  unfoldable pub consider : Selected → GithubRelease → Version → Outcome Selected
  unfolding validate release_of is_update has_installer keep
  consider selected item version = do
    let release = release_of item version
    validate release
    if not (is_update item release) then ok selected else do
      ensure (has_installer item release) (codes "The release is missing its Windows installer.")
      ok (keep selected version release)

  pub visit : Version → Channel → Selected → GithubRelease → Outcome Selected
  unfolding newer consider
  visit installed channel selected item = elim (newer installed channel item) [
    | none ↦ ok selected
    | some version ↦ consider selected item version
  ]

  unfoldable pub select_from : Version → Channel → Selected → List GithubRelease → Outcome Selected
  unfolding visit
  select_from installed channel selected [] = ok selected
  select_from installed channel selected (item ∷ releases) = do
    next ← visit installed channel selected item
    select_from installed channel next releases

  abbrev pub forget : Selected → Option Release
  forget none = none
  forget (some (version, release)) = some release

  unfoldable pub select : List GithubRelease → Text → Channel → Outcome (Option Release)
  unfolding select_from
  select releases installed channel = do
    current ← ok_or (parse installed) (codes "Installed version is invalid.")
    selected ← select_from current channel none releases
    ok (forget selected)
