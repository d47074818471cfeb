-- ===== src/Updates/Select/Choice.antt =====
-- The choice that `select` of updates.rs makes.
use starframe.Prelude.{
  ◌≡◌, refl, sym, ap, subst, ◌∙◌, ◌⊎◌, inl, inr, true, false, Option, none, some, some_inj, List,
  [], ◌∷◌, Text, codes, All, In, Bool-cases, Option-cases, arith,
}
use starframe.Prelude.Outcome.{ok, ensure, ok_or, >>=-eq-ok, ensure-eq-ok, ok_or-eq-ok, ok_inj}
use starframe.Updates.Select.{
  SemverLibrary, Channel, Release, GithubRelease, newer, release_of, has_installer, is_update,
  Selected, keep, forget, validate, consider, visit, select_from, select,
}

-- The order of versions.
pub record IsStrict (semver : SemverLibrary) : Type 0 where
  pub irreflexive : (a : semver.Version) → semver.less a a ≡ false
  pub trans :
      (a b c : semver.Version)
      → semver.less a b ≡ true
      → semver.less b c ≡ true
      → semver.less a c ≡ true
  -- Of versions, which are totally ordered: `b ≤ a` and `c ≤ b` give `c ≤ a`.
  pub not_less :
      (a b c : semver.Version)
      → semver.less a b ≡ false
      → semver.less b c ≡ false
      → semver.less a c ≡ false

module _ (semver : SemverLibrary) (installed : semver.Version) (channel : Channel) where
  -- The item is an update to `version`: newer, in the channel, and with its manifest.
  pub record IsUpdate (item : GithubRelease) (version : semver.Version) : Type 0 where
    pub is_newer : newer semver installed channel item ≡ some version
    pub complete : is_update semver item (release_of semver item version) ≡ true

  -- No update among the items is newer than `version`.
  abbrev pub IsNewest : semver.Version → List GithubRelease → Type 0
  IsNewest version items =
      All (λ item. (v : semver.Version) → IsUpdate item v → semver.less version v ≡ false) items

  pub record IsOffer (items : List GithubRelease) (version : semver.Version) (release : Release)
      : Type 0 where
    pub item : GithubRelease
    pub listed : In item items
    pub update : IsUpdate item version
    pub content : release ≡ release_of semver item version
    pub installable : has_installer semver item release ≡ true

  -- The result of the loop, begun with `selected`.
  abbrev IsBest : Selected semver → List GithubRelease → Selected semver → Type 0
  IsBest selected items none =
      (selected ≡ none) × All (λ item. (v : semver.Version) → ¬ IsUpdate item v) items
  IsBest selected items (some (version, release)) =
      ((selected ≡ some (version, release)) ⊎ IsOffer items version release)
      × IsNewest version items
      × ((v : semver.Version) (r : Release)
          → selected ≡ some (v, r)
          → semver.less version v ≡ false)

  -- What one item does to the selection.
  data Visited (item : GithubRelease) (selected next : Selected semver) : Type 0 where
    skipped :
        next ≡ selected → ((v : semver.Version) → ¬ IsUpdate item v) → Visited item selected next
    considered :
        (version : semver.Version)
        → IsUpdate item version
        → has_installer semver item (release_of semver item version) ≡ true
        → next ≡ keep semver selected version (release_of semver item version)
        → Visited item selected next

  consider-Visited :
      (item : GithubRelease) (selected next : Selected semver) (version : semver.Version)
      → newer semver installed channel item ≡ some version
      → consider semver selected item version ≡ ok next
      → Visited item selected next
  unfolding consider
  consider-Visited item selected next version is_newer h =
      let release = release_of semver item version in
      let (u, valid, h1) = >>=-eq-ok (validate semver release) _ h in
      elim (Bool-cases (is_update semver item release)) [
        | inl complete ↦
            let (w, has, h2) =
              >>=-eq-ok
                (ensure (has_installer semver item release)
                  (codes "The release is missing its Windows installer."))
                _ (rw complete at h1) in
            considered version (record { is_newer = is_newer; complete = complete })
              (ensure-eq-ok (has_installer semver item release) _ has)
              (sym (ok_inj (keep semver selected version release) next h2))
        | inr other ↦ skipped (sym (ok_inj selected next (rw other at h1))) λ v u.
            let same = some_inj version v (sym is_newer ∙ u.is_newer) in
            cc (
              ap (λ (x : semver.Version). is_update semver item (release_of semver item x)) same,
              u.complete,
            )
      ]

  visit-Visited :
      (item : GithubRelease) (selected next : Selected semver)
      → visit semver installed channel selected item ≡ ok next
      → Visited item selected next
  unfolding visit
  visit-Visited item selected next h = elim (Option-cases (newer semver installed channel item)) [
    | inl e ↦ skipped (sym (ok_inj selected next (rw (e, visit) at h))) (λ v u. cc (u.is_newer))
    | inr (version, e) ↦ consider-Visited item selected next version e (rw (e, visit) at h)
  ]

  module _ (strict : IsStrict semver) where
    first :
        (a b : semver.Version) (r s : Release)
        → ◌≡◌ {A = Selected semver} (some (a, r)) (some (b, s))
        → a ≡ b
    first a b r s e = ap (λ (p : semver.Version × Release). p.0) (some_inj (a, r) (b, s) e)

    keep-some :
        (selected : Selected semver) (version : semver.Version) (release : Release)
        → (kept : semver.Version × Release) × (keep semver selected version release ≡ some kept)
          × (semver.less kept.0 version ≡ false)
          × ((v : semver.Version) (r : Release)
              → selected ≡ some (v, r)
              → semver.less kept.0 v ≡ false)
          × ((kept ≡ (version, release)) ⊎ (selected ≡ some kept))
    unfolding keep
    keep-some none version release =
        ((version, release), refl, strict.irreflexive version, λ v r e. cc, inl refl)
    keep-some (some (previous, best)) version release =
        elim (Bool-cases (semver.less previous version)) [
          | inl less ↦ (
            (version, release),
            rw less,
            strict.irreflexive version,
            λ v r e. ground (
              arith,
              first previous v best r e,
              strict.trans previous version previous,
              strict.irreflexive previous,
            ),
            inl refl,
          )
          | inr other ↦ (
            (previous, best),
            rw other,
            other,
            λ v r e. ground (arith, first previous v best r e, strict.irreflexive previous),
            inr refl,
          )
        ]

    none-some : (kept : semver.Version × Release) → ¬ (◌≡◌ {A = Selected semver} none (some kept))
    none-some kept e = cc

    IsOffer-here :
        (item : GithubRelease) (items : List GithubRelease) (out : semver.Version × Release)
        (version : semver.Version)
        → IsUpdate item version
        → has_installer semver item (release_of semver item version) ≡ true
        → out ≡ (version, release_of semver item version)
        → IsOffer (item ∷ items) out.0 out.1
    IsOffer-here item items out version u i e =
        subst (λ (o : semver.Version × Release). IsOffer (item ∷ items) o.0 o.1) (sym e)
          (record { item = item; listed = inl refl; update = u; content = refl; installable = i })

    IsBest-nil : (selected : Selected semver) → IsBest selected [] selected
    IsBest-nil none = (refl, tt)
    IsBest-nil (some (version, release)) = (
      inl refl,
      tt,
      λ v r e. ground (arith, first version v release r e, strict.irreflexive version),
    )

    IsBest-skip :
        (item : GithubRelease) (items : List GithubRelease) (selected out : Selected semver)
        → ((v : semver.Version) → ¬ IsUpdate item v)
        → IsBest selected items out
        → IsBest selected (item ∷ items) out
    IsBest-skip item items selected none no_update b = (b.0, (no_update, b.1))
    IsBest-skip item items selected (some (version, release)) no_update b = (
      elim b.0 [
        | inl old ↦ inl old
        | inr o ↦ inr (record {
          item = o.item;
          listed = inr o.listed;
          update = o.update;
          content = o.content;
          installable = o.installable;
        })
      ],
      (λ v u. absurd (no_update v u), b.1),
      b.2,
    )

    IsBest-consider :
        (item : GithubRelease) (items : List GithubRelease) (selected out : Selected semver)
        (version : semver.Version)
        → IsUpdate item version
        → has_installer semver item (release_of semver item version) ≡ true
        → IsBest (keep semver selected version (release_of semver item version)) items out
        → IsBest selected (item ∷ items) out
    IsBest-consider item items selected none version u i b =
        let (kept, run, newest, older, from) =
          keep-some selected version (release_of semver item version) in
        absurd (none-some kept (sym b.0 ∙ run))
    IsBest-consider item items selected (some (w, r)) version u i b =
        let (kept, run, newest, older, from) =
          keep-some selected version (release_of semver item version) in
        let above = b.2 kept.0 kept.1 run in
        (
          elim b.0 [
            | inl same ↦
                let out = some_inj kept (w, r) (sym run ∙ same) in
                elim from [
                  | inl here ↦ inr (IsOffer-here item items (w, r) version u i (sym out ∙ here))
                  | inr old ↦ inl (old ∙ ap some out)
                ]
            | inr o ↦ inr (record {
              item = o.item;
              listed = inr o.listed;
              update = o.update;
              content = o.content;
              installable = o.installable;
            })
          ],
          (
            λ v u'.
                subst (λ x. semver.less w x ≡ false)
                  (some_inj version v (sym u.is_newer ∙ u'.is_newer))
                  (strict.not_less w kept.0 version above newest),
            b.1,
          ),
          λ v s e. strict.not_less w kept.0 v above (older v s e),
        )

    select_from-IsBest :
        (items : List GithubRelease) (selected out : Selected semver)
        → select_from semver installed channel selected items ≡ ok out
        → IsBest selected items out
    unfolding select_from
    select_from-IsBest [] selected out h =
        subst (IsBest selected []) (ok_inj selected out h) (IsBest-nil selected)
    select_from-IsBest (item ∷ items) selected out h =
        let (next, run, rest) = >>=-eq-ok (visit semver installed channel selected item) _ h in
        let best = select_from-IsBest items next out rest in
        elim (visit-Visited item selected next run) [
          | skipped same no_update ↦
              IsBest-skip item items selected out no_update
                (subst (λ x. IsBest x items out) same best)
          | considered version u i same ↦
              IsBest-consider item items selected out version u i
                (subst (λ x. IsBest x items out) same best)
        ]

-- What `select` answers.
abbrev pub IsAnswer :
    (semver : SemverLibrary) (installed : semver.Version)
    → Channel
    → List GithubRelease
    → Option Release
    → Type 0
IsAnswer semver installed channel items none =
    All (λ item. (v : semver.Version) → ¬ IsUpdate semver installed channel item v) items
IsAnswer semver installed channel items (some release) =
    (version : semver.Version) × IsOffer semver installed channel items version release
    × IsNewest semver installed channel version items

answer :
    (semver : SemverLibrary) (installed : semver.Version) (channel : Channel)
    (releases : List GithubRelease) (out : Selected semver)
    → IsStrict semver
    → select_from semver installed channel none releases ≡ ok out
    → IsAnswer semver installed channel releases (forget semver out)
answer semver installed channel releases none strict h =
    (select_from-IsBest semver installed channel strict releases none none h).1
answer semver installed channel releases (some (version, release)) strict h =
    let best =
      select_from-IsBest semver installed channel strict releases none (some (version, release))
        h in
    (
      version,
      elim best.0 [
        | inl old ↦ absurd (none-some semver installed channel strict (version, release) old)
        | inr offer ↦ offer
      ],
      best.1,
    )

-- If the version order is strict and total, the installed version parses to `current`, and
-- `select` returns without an error, then: when it returns none, no item of the feed is an update
-- of the channel; when it returns a release, that release is made from an item of the feed that
-- is an update (newer than `current`, allowed by the channel, with its tag, its manifest and its
-- installer), and no other update of the feed is newer.
pub select-IsAnswer :
    (semver : SemverLibrary) (current : semver.Version) (installed : Text) (channel : Channel)
    (releases : List GithubRelease) (out : Option Release)
    → IsStrict semver
    → semver.parse installed ≡ some current
    → select semver releases installed channel ≡ ok out
    → IsAnswer semver current channel releases out
unfolding select
select-IsAnswer semver current installed channel releases out strict known h =
    let (v, parsed, h1) =
      >>=-eq-ok (ok_or (semver.parse installed) (codes "Installed version is invalid.")) _ h in
    let (selected, run, last) = >>=-eq-ok (select_from semver v channel none releases) _ h1 in
    let same = some_inj current v (sym known ∙ ok_or-eq-ok (semver.parse installed) _ parsed) in
    subst (IsAnswer semver current channel releases) (ok_inj (forget semver selected) out last) (
      answer semver current channel releases selected strict
        (subst (λ x. select_from semver x channel none releases ≡ ok selected) (sym same) run))
