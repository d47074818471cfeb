-- ===== src/Trust/State/History.antt =====
-- The snapshots that `SecurityState` of src-tauri/src/registry/trust.rs accepts one after another.
use starframe.Prelude.{
  apart, ℕ, ◌≡◌, ◌⊎◌, refl, sym, ap, subst, ◌∙◌, true, false, Option, none, some, List, [], ◌∷◌,
  Text, text_eq, text_eq_iff, text_eq_self, ◌≤◌, ◌<◌, Bool-cases, Option-cases, ◌==◌, ==_iff, inl,
  inr, arith,
}
use starframe.Prelude.Outcome.{ok, >>=-eq-ok, ok_inj}
use starframe.Json.{JsonLibrary}
use starframe.Trust.State.{
  Decision, Decisions, VerifiedSecurity, SecurityState, get, insert, decision_after,
  accept_decisions, snapshot_after, accept, blocked_in, blocks,
}
use starframe.Trust.State.Texts.{IsAfter, same_or_newer, decision_after-IsAfter}

IsAfter-refl : (d : Decision) → IsAfter d d
unfolding IsAfter
IsAfter-refl d = (omega arith, λ same. refl)

IsAfter-trans : (a b c : Decision) → IsAfter a b → IsAfter b c → IsAfter a c
unfolding IsAfter
IsAfter-trans a b c h k =
    (omega (arith, h.0, k.0), λ same. h.1 (omega (arith, h.0, k.0)) ∙ k.1 (omega (arith, h.0, k.0)))

-- Every decision of a map has one after it in another map.
unfoldable pub IsKept : Decisions → Decisions → Type 0
unfolding get
IsKept old new =
    (hash : Text) (d : Decision)
    → get hash old ≡ some d
    → (later : Decision) × (get hash new ≡ some later) × IsAfter d later

IsKept-refl : (m : Decisions) → IsKept m m
unfolding IsKept
IsKept-refl m hash d h = (d, h, IsAfter-refl d)

IsKept-trans : (a b c : Decisions) → IsKept a b → IsKept b c → IsKept a c
unfolding IsKept
IsKept-trans a b c h k hash d found =
    let middle = h hash d found in
    let last = k hash middle.0 middle.1 in
    (last.0, last.1, IsAfter-trans d middle.0 last.0 middle.2 last.2)

pub get-insert_self :
    (hash : Text) (d : Decision) (m : Decisions) → get hash (insert hash d m) ≡ some d
unfolding get insert
get-insert_self hash d m = rw (text_eq_self hash) refl

pub get-insert_other :
    (key hash : Text) (d : Decision) (m : Decisions)
    → text_eq key hash ≡ false
    → get hash (insert key d m) ≡ get hash m
unfolding get insert
get-insert_other key hash d m h = rw h refl

module _ (json : JsonLibrary) where
  insert-IsKept :
      (m : Decisions) (d : Decision) {u : Unit {0}}
      → decision_after json (get d.sha256 m) d ≡ ok u
      → IsKept m (insert d.sha256 d m)
  unfolding IsKept
  insert-IsKept m d h hash old found = elim (Bool-cases (text_eq d.sha256 hash)) [
    | inr other ↦ (old, get-insert_other d.sha256 hash d m other ∙ found, IsAfter-refl old)
    | inl same ↦
        let e = (text_eq_iff d.sha256 hash).0 same in
        (
          d,
          subst (λ x. get x (insert d.sha256 d m) ≡ some d) e (get-insert_self d.sha256 d m),
          decision_after-IsAfter json old d
              (subst (λ o. decision_after json o d ≡ ok _) (ap (λ x. get x m) e ∙ found) h),
        )
  ]

  pub accept_decisions-IsKept :
      (m : Decisions) (next : List Decision) {result : Decisions}
      → accept_decisions json m next ≡ ok result
      → IsKept m result
  unfolding accept_decisions
  accept_decisions-IsKept m [] h = subst (IsKept m) (ok_inj _ _ h) (IsKept-refl m)
  accept_decisions-IsKept m (d ∷ next) h =
      let step = >>=-eq-ok (decision_after json (get d.sha256 m) d) _ h in
      IsKept-trans m (insert d.sha256 d m) _ (insert-IsKept m d step.1)
        (accept_decisions-IsKept (insert d.sha256 d m) next step.2)

-- The revision of a snapshot, with 0 where there is none.
unfoldable pub last_revision : Option VerifiedSecurity → ℕ
last_revision none = 0
last_revision (some snapshot) = snapshot.revision

-- No revision is smaller in the later state, and what is of the same revision is the same.
unfoldable pub IsLater : SecurityState → SecurityState → Type 0
unfolding last_revision
IsLater old new =
    (last_revision old.snapshot ≤ last_revision new.snapshot) × IsKept old.decisions new.decisions

-- Snapshots accepted one after another. A snapshot that is refused leaves the state as it is.
pub data Accepts (json : JsonLibrary) : SecurityState → SecurityState → Type 0 where
  none_accepted : {s : SecurityState} → Accepts json s s
  accepted :
      {s t u : SecurityState} (next : VerifiedSecurity)
      → accept json s next ≡ ok t
      → Accepts json t u
      → Accepts json s u

module _ (json : JsonLibrary) where
  pub snapshot_after-le :
      (old : Option VerifiedSecurity) (next : VerifiedSecurity) {u : Unit {0}}
      → snapshot_after json old next ≡ ok u
      → last_revision old ≤ next.revision
  unfolding snapshot_after last_revision
  snapshot_after-le none next h = omega arith
  snapshot_after-le (some old) next h =
      (same_or_newer old.revision next.revision old.canonical next.canonical h).0

  pub accept-IsLater :
      (s t : SecurityState) (next : VerifiedSecurity) → accept json s next ≡ ok t → IsLater s t
  unfolding accept IsLater last_revision
  accept-IsLater s t next h =
      let first = >>=-eq-ok (snapshot_after json s.snapshot next) _ h in
      let second = >>=-eq-ok (accept_decisions json s.decisions next.decisions) _ first.2 in
      subst (IsLater s) (ok_inj _ _ second.2) (
        snapshot_after-le s.snapshot next first.1,
        accept_decisions-IsKept json s.decisions next.decisions second.1,
      )

  IsLater-trans : (s t u : SecurityState) → IsLater s t → IsLater t u → IsLater s u
  unfolding IsLater
  IsLater-trans s t u h k =
      (omega (arith, h.0, k.0), IsKept-trans s.decisions t.decisions u.decisions h.1 k.1)

  IsLater-refl : (s : SecurityState) → IsLater s s
  unfolding IsLater
  IsLater-refl s = (omega arith, IsKept-refl s.decisions)

  -- Over any number of accepted snapshots the revision of the last snapshot never falls, and
  -- every decision of the map has a decision for the same hash after it, of no smaller revision,
  -- which is the same decision, reason and status included, where the revisions are equal.
  pub Accepts-IsLater : (s t : SecurityState) → Accepts json s t → IsLater s t
  Accepts-IsLater s t none_accepted = IsLater-refl s
  Accepts-IsLater s t (accepted {t = middle} next h rest) =
      IsLater-trans s middle t (accept-IsLater s middle next h) (Accepts-IsLater middle t rest)

  held :
      (m : Decisions) (hash : Text)
      → blocks (get hash m) ≡ true
      → (d : Decision) × (get hash m ≡ some d)
  unfolding blocks
  held m hash h = elim (Option-cases (get hash m)) [
    | inl none_there ↦ absurd (apart (sym (ap blocks none_there) ∙ h))
    | inr found ↦ found
  ]

  -- If the security state blocks a hash, then after any number of accepted snapshots it still
  -- blocks the hash, or the map holds a decision for it whose revision is strictly larger than
  -- that of the block.
  pub cleared_by_newer :
      (s t : SecurityState) (hash : Text)
      → Accepts json s t
      → blocked_in s hash ≡ true
      → (blocked_in t hash ≡ true)
        ⊎ ((old new : Decision) × (get hash s.decisions ≡ some old)
            × (get hash t.decisions ≡ some new)
            × (old.revision < new.revision))
  unfolding blocked_in IsAfter IsLater IsKept
  cleared_by_newer s t hash path h =
      let old = held s.decisions hash h in
      let new = (Accepts-IsLater s t path).1 hash old.0 old.1 in
      elim (Bool-cases (old.0.revision == new.0.revision)) [
        | inl same ↦
            let e = new.2.1 ((==_iff old.0.revision new.0.revision).0 same) in
            inl (ap blocks (new.1 ∙ ap some (sym e) ∙ sym old.1) ∙ h)
        | inr other ↦ inr (old.0, new.0, old.1, new.1, ground (arith, new.2.0, other))
      ]
