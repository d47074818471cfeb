-- ===== src/Contract/Report/Outcomes.antt =====
-- The outcomes of mods in the reports that `report` of src-tauri/src/runtime_contract.rs accepts.
use starframe.Prelude.{
  ℕ, ◌≤◌, ◌≡◌, ◌≢◌, refl, subst, Bool, true, false, not, ◌&&◌, ◌||◌, some, List, [], ◌∷◌, Text,
  codes, text_eq, text_eq_iff, is_empty, contains, all_indexed, is_ascii_digit, is_ascii_lowercase,
  ◌==◌, ◌⊎◌, inl, inr, not_equal, or_cases, and_left, not-true, within→le,
}
use starframe.Prelude.Outcome.{ok, >>=-eq-ok, >>-eq-ok, ensure->>-eq-ok, ok_or->>=-eq-ok, ok_inj}
use starframe.Json.{JsonLibrary, Json, at, as_str, value_as_u64}
use starframe.Registry.Identity.{UuidLibrary}
use starframe.Paths.{require}
use starframe.Contract.Document.{array_of, text, id, decimal}
use starframe.Contract.Report.{code_byte, known_outcome, details, report_mods, report}

-- One of the three outcomes.
pub IsKnown : Text → Type 0
IsKnown outcome =
    (outcome ≡ codes "loaded") ⊎ (outcome ≡ codes "failed") ⊎ (outcome ≡ codes "skipped_dependency")

known_outcome-IsKnown : (outcome : Text) → known_outcome outcome ≡ true → IsKnown outcome
unfolding known_outcome IsKnown
known_outcome-IsKnown outcome h = elim (or_cases _ _ h) [
  | inl early ↦ elim (or_cases _ _ early) [
    | inl loaded ↦ inl ((text_eq_iff _ _).0 loaded)
    | inr failed ↦ inr (inl ((text_eq_iff _ _).0 failed))
  ]
  | inr skipped ↦ inr (inr ((text_eq_iff _ _).0 skipped))
]

-- A letter in lower case, then such letters, digits and underscores.
pub IsCode : Text → Type 0
IsCode code =
    (code ≢ []) × (all_indexed is_ascii_lowercase (λ c. is_ascii_digit c || c == b'_') code ≡ true)

-- A mod that is loaded has no code and no message, and one that is skipped has its code.
pub IsExplained : (outcome code message : Text) → Type 0
IsExplained outcome code message =
    (outcome ≡ codes "loaded" → (code ≡ []) × (message ≡ []))
    × (outcome ≢ codes "loaded" → IsCode code × (message ≢ []))
    × (outcome ≡ codes "skipped_dependency" → code ≡ codes "dependency_failed")

empty_both :
    (code message : Text)
    → (is_empty code && is_empty message) ≡ true
    → (code ≡ []) × (message ≡ [])
empty_both [] [] h = (refl, refl)
empty_both [] (c ∷ message) h = cc
empty_both (c ∷ code) message h = cc

details-loaded :
    (loaded : Bool) (code message : Text)
    → loaded ≡ true
    → details loaded code message ≡ true
    → (code ≡ []) × (message ≡ [])
unfolding details
details-loaded true code message e h = empty_both code message h
details-loaded false code message e h = cc

details-IsCode :
    (loaded : Bool) (code message : Text)
    → loaded ≡ false
    → code ≢ []
    → details loaded code message ≡ true
    → IsCode code
unfolding details code_byte IsCode
details-IsCode true code message e n h = cc
details-IsCode false code message e n h = (n, h)

implied : (a b : Bool) → (not a || b) ≡ true → a ≡ true → b ≡ true
implied true b h e = h
implied false b h e = cc

not_empty :
    (empty b c : Bool) (t : Text)
    → empty ≡ false
    → (((empty || not (is_empty t)) && b) && c) ≡ true
    → t ≢ []
not_empty true b c t e h n = cc
not_empty false b c [] e h n = cc
not_empty false b c (x ∷ t) e h n = cc

module _ (json : JsonLibrary) where
  -- A text that must not be empty is not.
  text-not_empty :
      (v : Json json) (max : ℕ) (empty : Bool) {found : Text}
      → empty ≡ false
      → text json v max empty ≡ ok found
      → found ≢ []
  unfolding text require
  text-not_empty v max empty e h =
      let found = ok_or->>=-eq-ok (as_str v) _ _ h in
      let tested = ensure->>-eq-ok _ _ _ found.2 in
      subst (λ t. t ≢ []) (ok_inj _ _ tested.1) (not_empty empty _ _ found.0 e tested.0)

  -- One entry of a report, whose ID is none of those before it.
  pub record IsEntry (before : List Text) (item : Json json) : Type 0 where
    pub mod_id : Text
    pub named : id json (at item (codes "modId")) ≡ ok mod_id
    pub fresh : contains before mod_id ≡ false
    pub outcome : Text
    pub outcome_read : text json (at item (codes "outcome")) 32 false ≡ ok outcome
    pub known : IsKnown outcome
    pub code : Text
    pub code_read :
        text json (at item (codes "errorCode")) 64 (text_eq outcome (codes "loaded")) ≡ ok code
    pub message : Text
    pub message_read :
        text json (at item (codes "message")) 2048 (text_eq outcome (codes "loaded")) ≡ ok message
    pub explained : IsExplained outcome code message

  pub data Reports : List Text → List (Json json) → Type 0 where
    done : {before : List Text} → Reports before []
    entry :
        {before : List Text} {item : Json json} {items : List (Json json)} (e : IsEntry before item)
        → Reports (e.mod_id ∷ before) items
        → Reports before (item ∷ items)

  report_mods-Reports :
      (before : List Text) (items : List (Json json)) {ids : List Text}
      → report_mods json before items ≡ ok ids
      → Reports before items
  unfolding report_mods require IsExplained
  report_mods-Reports before [] h = done
  report_mods-Reports before (item ∷ items) h =
      let keys = >>-eq-ok _ _ h in
      let name = >>=-eq-ok (id json (at item (codes "modId"))) _ keys.2 in
      let fresh = ensure->>-eq-ok _ _ _ name.2 in
      let outcome = >>=-eq-ok (text json (at item (codes "outcome")) 32 false) _ fresh.1 in
      let known = ensure->>-eq-ok _ _ _ outcome.2 in
      let loaded = text_eq outcome.0 (codes "loaded") in
      let code = >>=-eq-ok (text json (at item (codes "errorCode")) 64 loaded) _ known.1 in
      let message = >>=-eq-ok (text json (at item (codes "message")) 2048 loaded) _ code.2 in
      let detailed = ensure->>-eq-ok _ _ _ message.2 in
      let skipped = ensure->>-eq-ok _ _ _ detailed.1 in
      let explain : loaded ≡ false → IsCode code.0 × (message.0 ≢ []) = λ l. (
        details-IsCode loaded code.0 message.0 l (text-not_empty _ 64 loaded l code.1) detailed.0,
        text-not_empty _ 2048 loaded l message.1,
      ) in
      entry
        (record {
          mod_id = name.0;
          named = name.1;
          fresh = not-true _ fresh.0;
          outcome = outcome.0;
          outcome_read = outcome.1;
          known = known_outcome-IsKnown outcome.0 known.0;
          code = code.0;
          code_read = code.1;
          message = message.0;
          message_read = message.1;
          explained = (
            (λ e. details-loaded loaded code.0 message.0 ((text_eq_iff _ _).1 e) detailed.0),
            (λ n. explain (not_equal _ _ n)),
            (λ e. (text_eq_iff _ _).0 (implied _ _ skipped.0 ((text_eq_iff _ _).1 e))),
          );
        })
        (report_mods-Reports (name.0 ∷ before) items skipped.1)

  -- What an accepted report guarantees.
  pub record IsReport (uuid : UuidLibrary) (root : Json json) : Type 0 where
    pub session : Text
    pub session_read : text json (at root (codes "gameSessionId")) 36 false ≡ ok session
    pub guid : (n : ℕ) × (uuid.parse_str session ≡ some n) × (uuid.is_nil n ≡ false)
    pub pid : ℕ
    pub pid_read : value_as_u64 json (at root (codes "processId")) ≡ some pid
    pub pid_bounded : (1 ≤ pid) × (pid ≤ 4294967295)
    pub items : List (Json json)
    pub items_read : array_of json (at root (codes "mods")) 256 ≡ ok items
    pub reports : Reports [] items

  -- If `report` accepts a document, then its session is a UUID that is not nil, its process ID
  -- lies from 1 to 4294967295, no two entries have one mod ID, and the outcome of each entry is
  -- one of the three: where it is loaded, the entry has neither code nor message; otherwise it
  -- has a message and a code that is a lower-case letter and then such letters, digits and
  -- underscores; and where it is skipped, the code is that of a failed dependency.
  pub report-IsReport :
      (uuid : UuidLibrary) (root : Json json) {u : Unit {0}}
      → report json uuid root ≡ ok u
      → IsReport uuid root
  unfolding report require
  report-IsReport uuid root h =
      let keys = >>-eq-ok _ _ h in
      let revision = >>-eq-ok (decimal json (at root (codes "deploymentRevision"))) _ keys.2 in
      let time = >>-eq-ok (decimal json (at root (codes "processStartFileTime"))) _ revision.2 in
      let session = >>=-eq-ok (text json (at root (codes "gameSessionId")) 36 false) _ time.2 in
      let guid = ok_or->>=-eq-ok (uuid.parse_str session.0) _ _ session.2 in
      let real = ensure->>-eq-ok _ _ _ guid.2 in
      let pid = ok_or->>=-eq-ok (value_as_u64 json (at root (codes "processId"))) _ _ real.1 in
      let ranged = ensure->>-eq-ok _ _ _ pid.2 in
      let items = >>=-eq-ok (array_of json (at root (codes "mods")) 256) _ ranged.1 in
      let mods = >>-eq-ok (report_mods json [] items.0) _ items.2 in
      record {
        session = session.0;
        session_read = session.1;
        guid = (guid.0, guid.1, not-true _ (and_left _ _ real.0));
        pid = pid.0;
        pid_read = pid.1;
        pid_bounded = within→le 1 4294967295 pid.0 ranged.0;
        items = items.0;
        items_read = items.1;
        reports = report_mods-Reports [] items.0 mods.1;
      }
