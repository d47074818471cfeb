-- ===== src/Trust/State.antt =====
-- `SecurityState` of src-tauri/src/registry/trust.rs and the types that it is made of. The clock's
-- times are numbers of a unit that is the library's.
pub mod Texts
pub mod History
pub mod Consistent
use starframe.Prelude.{
  ℕ, Bool, true, false, not, ◌&&◌, ◌||◌, Option, none, some, List, [], ◌∷◌, Text, codes, text_eq,
  ltb, ◌==◌, if◌then◌else◌,
}
use starframe.Prelude.Outcome.{Outcome, ok, ensure, ◌>>=◌, ◌>>◌}
use starframe.Json.{JsonLibrary, Json, number, string, object, no_members, member}
use starframe.Trust.Canonical.{canonical_text}

pub data DecisionStatus : Type 0 where
  blocked cleared : DecisionStatus

pub record Decision : Type 0 where
  pub sha256 : Text
  pub revision : ℕ
  pub status : DecisionStatus
  pub reason : Text

pub record VerifiedSecurity : Type 0 where
  pub revision : ℕ
  pub canonical : Text
  pub expires : ℕ
  pub decisions : List Decision

-- `HashMap<Sha256, Decision>`: the entry that comes first counts.
abbrev pub Decisions : Type 0
Decisions = List (Text × Decision)

pub record SecurityState : Type 0 where
  pub snapshot : Option VerifiedSecurity
  pub decisions : Decisions

-- `SecurityState::default()`
abbrev pub default : SecurityState
default = record { snapshot = none; decisions = [] }

unfoldable pub get : Text → Decisions → Option Decision
get hash [] = none
get hash ((key, decision) ∷ rest) = if text_eq key hash then some decision else get hash rest

-- `decisions.insert(hash, decision)`
unfoldable pub insert : Text → Decision → Decisions → Decisions
insert hash decision decisions = (hash, decision) ∷ decisions

status_text : DecisionStatus → Text
status_text blocked = codes "blocked"
status_text cleared = codes "cleared"

unfoldable pub revision_after :
    (old : ℕ) (old_canonical : Text) (new : ℕ) (new_canonical : Text) → Outcome (Unit {0})
revision_after old old_canonical new new_canonical =
    ensure (not (ltb new old || (new == old && not (text_eq new_canonical old_canonical))))
      (codes "Signed metadata rollback or equal-revision conflict")

is_blocked : DecisionStatus → Bool
is_blocked DecisionStatus.blocked = true
is_blocked cleared = false

blocks : Option Decision → Bool
unfolding is_blocked
blocks none = false
blocks (some decision) = is_blocked decision.status

-- `state.blocked(hash)`
unfoldable pub blocked_in : SecurityState → Text → Bool
unfolding get blocks
blocked_in state hash = blocks (get hash state.decisions)

module _ (json : JsonLibrary) where
  -- `serde_json::to_value(decision)`, in the order of the keys.
  unfoldable pub to_value : Decision → Json json
  unfolding status_text
  to_value decision = object (
      member (codes "reason") (string decision.reason) (
        member (codes "revision") (number (json.from_u64 decision.revision)) (
          member (codes "sha256") (string decision.sha256)
            (member (codes "status") (string (status_text decision.status)) no_members))))

  -- The test of a decision against the one that the map holds for its hash.
  unfoldable pub decision_after : Option Decision → Decision → Outcome (Unit {0})
  unfolding revision_after to_value canonical_text
  decision_after none decision = ok tt
  decision_after (some previous) decision = do
    old ← canonical_text json (to_value previous)
    new ← canonical_text json (to_value decision)
    revision_after previous.revision old decision.revision new

  -- The loop over the decisions of a snapshot.
  unfoldable pub accept_decisions : Decisions → List Decision → Outcome Decisions
  unfolding decision_after get insert
  accept_decisions decisions [] = ok decisions
  accept_decisions decisions (decision ∷ rest) = do
    decision_after (get decision.sha256 decisions) decision
    accept_decisions (insert decision.sha256 decision decisions) rest

  unfoldable pub snapshot_after : Option VerifiedSecurity → VerifiedSecurity → Outcome (Unit {0})
  unfolding revision_after
  snapshot_after none next = ok tt
  snapshot_after (some previous) next =
      revision_after previous.revision previous.canonical next.revision next.canonical

  -- `state.accept(next)`: the new state. After an error the state is the old one.
  unfoldable pub accept : SecurityState → VerifiedSecurity → Outcome SecurityState
  unfolding accept_decisions snapshot_after
  accept state next = do
    snapshot_after state.snapshot next
    decisions ← accept_decisions state.decisions next.decisions
    ok (record { snapshot = some next; decisions = decisions })
