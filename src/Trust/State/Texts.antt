-- ===== src/Trust/State/Texts.antt =====
-- The canonical texts of decisions, which `SecurityState::accept` in
-- src-tauri/src/registry/trust.rs compares.
use starframe.Prelude.{
  apart, ℕ, ◌≡◌, refl, sym, ap, ◌∙◌, some, [], ◌∷◌, ◌++◌, append_assoc, Text, codes, text_eq,
  text_eq_iff, ◌≤◌, arith,
}
use starframe.Prelude.Outcome.{Outcome, ok, err, panicked, ◌>>=◌, ensure-eq-ok, >>=-eq-ok, ok_inj}
use starframe.Json.{JsonLibrary}
use starframe.Trust.Canonical.{canonical_text, number_text, quoted}
use starframe.Trust.Canonical.Quoting.{cancel_quoted}
use starframe.Trust.State.{
  DecisionStatus, blocked, cleared, Decision, status_text, revision_after, to_value, decision_after,
}

abbrev reason_key : Text
reason_key = codes "{\"reason\":"

abbrev revision_key : Text
revision_key = codes ",\"revision\":"

abbrev sha256_key : Text
sha256_key = codes ",\"sha256\":"

abbrev status_key : Text
status_key = codes ",\"status\":"

-- The text behind the hash, and that behind the reason.
after_hash : Decision → (close : Text) → Text
unfolding status_text quoted
after_hash d close = status_key ++ (quoted (status_text d.status) ++ close)

after_reason : Decision → (revision close : Text) → Text
unfolding after_hash quoted
after_reason d revision close =
    revision_key ++ (revision ++ (sha256_key ++ (quoted d.sha256 ++ after_hash d close)))

decision_text : Decision → (revision : Text) → Text
unfolding after_reason quoted
decision_text d revision = reason_key ++ (quoted d.reason ++ after_reason d revision (codes "}"))

-- The elements of the object with the closing brace behind them.
joined :
    (d : Decision) (revision : Text)
    → ((reason_key ++ (quoted d.reason ++ after_reason d revision [])) ++ codes "}")
      ≡ decision_text d revision
unfolding decision_text after_reason after_hash
joined d revision =
    ap (λ z. reason_key ++ z)
      (append_assoc (quoted d.reason) (after_reason d revision []) (codes "}")
        ∙ ap (λ z. quoted d.reason ++ (revision_key ++ z))
            (append_assoc revision (sha256_key ++ (quoted d.sha256 ++ after_hash d [])) (codes "}")
              ∙ ap (λ z. revision ++ (sha256_key ++ z))
                  (append_assoc (quoted d.sha256) (after_hash d []) (codes "}")
                    ∙ ap (λ z. quoted d.sha256 ++ (status_key ++ z))
                        (append_assoc (quoted (status_text d.status)) [] (codes "}")))))

module _ (json : JsonLibrary) where
  canonical_decision :
      (d : Decision) (outcome : Outcome Text)
      → number_text json (json.from_u64 d.revision) ≡ outcome
      → canonical_text json (to_value json d)
        ≡ (outcome >>= λ revision. ok (decision_text d revision))
  unfolding canonical_text to_value decision_text after_reason after_hash
  canonical_decision d (ok revision) h = rw h (ap ok (joined d revision))
  canonical_decision d (err message) h = rw h refl
  canonical_decision d panicked h = rw h refl

append_cancel : (p x y : Text) → (p ++ x) ≡ (p ++ y) → x ≡ y
append_cancel [] x y e = e
append_cancel (c ∷ p) x y e = append_cancel p x y (ground arith)

status_inj : (a b : DecisionStatus) → status_text a ≡ status_text b → a ≡ b
unfolding status_text
status_inj blocked blocked e = refl
status_inj cleared cleared e = refl
status_inj blocked cleared e = absurd (apart (sym (ap (text_eq (codes "blocked")) e)))
status_inj cleared blocked e = absurd (apart (ap (text_eq (codes "blocked")) e))

-- A decision that is not newer than another of the same hash is that one.
unfoldable pub IsAfter : Decision → Decision → Type 0
IsAfter old new = (old.revision ≤ new.revision) × (old.revision ≡ new.revision → old ≡ new)

decision_text_inj :
    (a b : Decision) (revision : Text)
    → decision_text a revision ≡ decision_text b revision
    → (a.reason ≡ b.reason) × (a.sha256 ≡ b.sha256) × (a.status ≡ b.status)
unfolding decision_text after_reason after_hash
decision_text_inj a b revision e =
    let reasons =
      cancel_quoted a.reason b.reason (after_reason a revision (codes "}"))
        (after_reason b revision (codes "}")) (append_cancel reason_key _ _ e) in
    let hashes =
      cancel_quoted a.sha256 b.sha256 (after_hash a (codes "}")) (after_hash b (codes "}")) (
        append_cancel sha256_key _ _
          (append_cancel revision _ _ (append_cancel revision_key _ _ reasons.1))) in
    let statuses =
      cancel_quoted (status_text a.status) (status_text b.status) (codes "}") (codes "}")
        (append_cancel status_key _ _ hashes.1) in
    (reasons.0, hashes.0, status_inj a.status b.status statuses.0)

decision_ext :
    (a b : Decision)
    → a.revision ≡ b.revision
    → (a.reason ≡ b.reason) × (a.sha256 ≡ b.sha256) × (a.status ≡ b.status)
    → a ≡ b
decision_ext a b r h = cc

pub same_or_newer :
    (old new : ℕ) (old_text new_text : Text) {u : Unit {0}}
    → revision_after old old_text new new_text ≡ ok u
    → (old ≤ new) × (old ≡ new → new_text ≡ old_text)
unfolding revision_after
same_or_newer old new old_text new_text h =
    let test = ensure-eq-ok _ _ h in
    (ground (arith, test), λ same. (text_eq_iff new_text old_text).0 (ground (arith, test)))

module _ (json : JsonLibrary) where
  number_of :
      (d : Decision) {text : Text}
      → canonical_text json (to_value json d) ≡ ok text
      → (revision : Text) × (number_text json (json.from_u64 d.revision) ≡ ok revision)
        × (decision_text d revision ≡ text)
  number_of d h =
      let found =
        >>=-eq-ok (number_text json (json.from_u64 d.revision)) _
          (sym (canonical_decision json d _ refl) ∙ h) in
      (found.0, found.1, ok_inj _ _ found.2)

  pub decision_after-IsAfter :
      (old new : Decision) {u : Unit {0}}
      → decision_after json (some old) new ≡ ok u
      → IsAfter old new
  unfolding decision_after IsAfter
  decision_after-IsAfter old new h =
      let first = >>=-eq-ok (canonical_text json (to_value json old)) _ h in
      let second = >>=-eq-ok (canonical_text json (to_value json new)) _ first.2 in
      let order = same_or_newer old.revision new.revision first.0 second.0 second.2 in
      let a = number_of old first.1 in
      let b = number_of new second.1 in
      (
        order.0,
        λ same. decision_ext old new same (
            decision_text_inj old new a.0 (
              a.2
              ∙ sym (order.1 same)
              ∙ sym b.2
              ∙ ap (decision_text new) (
                  ok_inj _ _
                    (sym b.1 ∙ ap (λ r. number_text json (json.from_u64 r)) (sym same) ∙ a.1)))),
      )
