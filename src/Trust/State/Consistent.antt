-- ===== src/Trust/State/Consistent.antt =====
-- The map of `SecurityState` in src-tauri/src/registry/trust.rs and its snapshot.
use starframe.Prelude.{
  ℕ, ◌≡◌, ◌≢◌, refl, sym, ap, subst, ◌∙◌, false, Option, none, some, List, [], ◌∷◌, Text, text_eq,
  text_eq_iff, ◌≤◌, All, All-map, In, All-In, some_inj, ◌<◌, Bool-cases, inl, inr, arith,
}
use starframe.Prelude.Outcome.{ok, >>=-eq-ok, ok_inj}
use starframe.Json.{JsonLibrary}
use starframe.Trust.State.{
  Decision, Decisions, VerifiedSecurity, SecurityState, default, get, insert, decision_after,
  accept_decisions, snapshot_after, accept,
}
use starframe.Trust.State.Texts.{IsAfter}
use starframe.Trust.State.History.{
  get-insert_self, get-insert_other, snapshot_after-le, last_revision, IsKept,
  accept_decisions-IsKept,
}

-- The revision of a decision lies in 1..=bound.
abbrev pub IsBounded : ℕ → Decision → Type 0
IsBounded bound d = (1 ≤ d.revision) × (d.revision ≤ bound)

-- No two decisions are about one hash.
abbrev pub IsDistinct : List Decision → Type 0
IsDistinct [] = Unit
IsDistinct (d ∷ ds) = All (λ e. d.sha256 ≢ e.sha256) ds × IsDistinct ds

abbrev pub IsWellFormed : VerifiedSecurity → Type 0
IsWellFormed v = All (IsBounded v.revision) v.decisions × IsDistinct v.decisions

-- An entry stands under its own hash, with a revision that is bounded.
abbrev pub IsEntry : ℕ → Text × Decision → Type 0
IsEntry bound entry = (entry.0 ≡ entry.1.sha256) × IsBounded bound entry.1

-- The decisions of the snapshot are those of the map.
abbrev pub IsRecorded : Decisions → List Decision → Type 0
IsRecorded m ds = All (λ d. get d.sha256 m ≡ some d) ds

abbrev pub snapshot_decisions : Option VerifiedSecurity → List Decision
snapshot_decisions none = []
snapshot_decisions (some snapshot) = snapshot.decisions

unfoldable pub IsConsistent : SecurityState → Type 0
unfolding last_revision
IsConsistent s =
    All (IsEntry (last_revision s.snapshot)) s.decisions
    × IsRecorded s.decisions (snapshot_decisions s.snapshot)

pub default-IsConsistent : IsConsistent default
unfolding IsConsistent
default-IsConsistent = (tt, tt)

differ : (a b : Text) → a ≢ b → text_eq b a ≡ false
differ a b h = elim (Bool-cases (text_eq b a)) [
  | inl same ↦ absurd (h (sym ((text_eq_iff b a).0 same)))
  | inr other ↦ other
]

module _ (json : JsonLibrary) where
  entries :
      (bound : ℕ) (m : Decisions) (next : List Decision) {result : Decisions}
      → All (IsEntry bound) m
      → All (IsBounded bound) next
      → accept_decisions json m next ≡ ok result
      → All (IsEntry bound) result
  unfolding accept_decisions insert
  entries bound m [] h k e = subst (All (IsEntry bound)) (ok_inj _ _ e) h
  entries bound m (d ∷ next) h k e =
      let step = >>=-eq-ok (decision_after json (get d.sha256 m) d) _ e in
      entries bound (insert d.sha256 d m) next ((refl, k.0), h) k.1 step.2

  untouched :
      (hash : Text) (m : Decisions) (next : List Decision) {result : Decisions}
      → All (λ e. hash ≢ e.sha256) next
      → accept_decisions json m next ≡ ok result
      → get hash result ≡ get hash m
  unfolding accept_decisions
  untouched hash m [] h e = ap (get hash) (sym (ok_inj _ _ e))
  untouched hash m (d ∷ next) h e =
      let step = >>=-eq-ok (decision_after json (get d.sha256 m) d) _ e in
      untouched hash (insert d.sha256 d m) next h.1 step.2
      ∙ get-insert_other d.sha256 hash d m (differ hash d.sha256 h.0)

  recorded :
      (m : Decisions) (next : List Decision) {result : Decisions}
      → IsDistinct next
      → accept_decisions json m next ≡ ok result
      → IsRecorded result next
  unfolding accept_decisions
  recorded m [] h e = tt
  recorded m (d ∷ next) h e =
      let step = >>=-eq-ok (decision_after json (get d.sha256 m) d) _ e in
      (
        untouched d.sha256 (insert d.sha256 d m) next h.0 step.2 ∙ get-insert_self d.sha256 d m,
        recorded (insert d.sha256 d m) next h.1 step.2,
      )

  pub accept-IsConsistent :
      (s t : SecurityState) (next : VerifiedSecurity)
      → IsConsistent s
      → IsWellFormed next
      → accept json s next ≡ ok t
      → IsConsistent t
  unfolding IsConsistent accept last_revision
  accept-IsConsistent s t next h w e =
      let first = >>=-eq-ok (snapshot_after json s.snapshot next) _ e in
      let second = >>=-eq-ok (accept_decisions json s.decisions next.decisions) _ first.2 in
      let le = snapshot_after-le json s.snapshot next first.1 in
      subst IsConsistent (ok_inj _ _ second.2) (
        entries next.revision s.decisions next.decisions
            (All-map _ _ (λ entry old. (old.0, (old.1.0, omega (arith, le, old.1.1)))) s.decisions
              h.0)
            w.0 second.1,
        recorded s.decisions next.decisions w.1 second.1,
      )

module _ (json : JsonLibrary) where
  -- If the map holds a decision for a hash and a snapshot whose decisions are about distinct
  -- hashes has a decision of a smaller revision for it, then `accept` succeeds with no state.
  pub rollback_refused :
      (s t : SecurityState) (next : VerifiedSecurity) (old new : Decision)
      → IsDistinct next.decisions
      → In new next.decisions
      → get new.sha256 s.decisions ≡ some old
      → new.revision < old.revision
      → accept json s next ≢ ok t
  unfolding accept IsKept IsAfter
  rollback_refused s t next old new distinct listed held lower e =
      let first = >>=-eq-ok (snapshot_after json s.snapshot next) _ e in
      let second = >>=-eq-ok (accept_decisions json s.decisions next.decisions) _ first.2 in
      let kept =
        accept_decisions-IsKept json s.decisions next.decisions second.1 new.sha256 old held in
      let there =
        All-In _ next.decisions new (recorded json s.decisions next.decisions distinct second.1)
          listed in
      let same = some_inj _ _ (sym kept.1 ∙ there) in
      omega (arith, lower, kept.2.0, ap (λ d. d.revision) same)
