-- ===== src/Ordering/Locals/Preferences.antt =====
-- The end of `resolve_locals`: the adjustments, the preferences and the resolution.
use starframe.Prelude.{
  ℕ, suc, Bool, true, false, not, none, some, List, [], ◌∷◌, ◌++◌, map, Text, text_eq, codes, any,
  get_elem?, ltb, if◌then◌else◌,
}
use starframe.Prelude.Outcome.{Outcome, ok, or_panic, ◌>>=◌}
use starframe.Registry.Identity.{UuidLibrary}
use starframe.References.{ModReference}
use starframe.Ordering.Shared.{position_of, pick, adjust_from, must_precede, order_of}
use starframe.Ordering.Locals.{
  Manifest, LocalSource, Adjustment, Resolution, Positions, ordered, selection_edges,
}

-- `effective.iter().enumerate().map(|(i, r)| (r.mod_id.as_str(), i)).collect()`: a later entry of
-- a key replaces an earlier one.
unfoldable pub effective_positions : ℕ → Positions → List ModReference → Positions
effective_positions index positions [] = positions
effective_positions index positions (reference ∷ effective) =
    effective_positions (suc index) ((reference.mod_id, index) ∷ positions) effective

unfoldable pub adjustment : List ModReference → ℕ → ℕ → Text → Outcome Adjustment
adjustment requested from to message = do
  before ← or_panic (get_elem? requested from)
  after ← or_panic (get_elem? requested to)
  ok (record { before = before.mod_id; after = after.mod_id; message = message })

abbrev pub must_adjust : List ModReference → List Text → ℕ → ℕ → Outcome Adjustment
must_adjust requested names from to = do
  before ← or_panic (get_elem? names from)
  after ← or_panic (get_elem? names to)
  adjustment requested from to (must_precede before after)

abbrev pub prefers : Text → Text → Text
prefers before after =
    before
    ++ codes " prefers to load before "
    ++ after
    ++ codes ". Your priority and required constraints take precedence."

-- `if !adjustments.iter().any(|a| a.message == note.message) { adjustments.push(note); }`
pub push_new : Adjustment → List Adjustment → List Adjustment
push_new note adjustments =
    if any (λ (a : Adjustment). text_eq a.message note.message) adjustments
    then adjustments
    else adjustments ++ note ∷ []

module _ (requested : List ModReference) (positions : Positions) (names : List Text)
    (places : Positions) where
  -- `effective_positions[requested[index].mod_id.as_str()]`
  unfoldable pub place_in_effect : ℕ → Outcome ℕ
  unfolding position_of
  place_in_effect index = do
    reference ← or_panic (get_elem? requested index)
    or_panic (position_of text_eq reference.mod_id places)

  unfoldable pub prefer_edge : ℕ × ℕ → List Adjustment → Outcome (List Adjustment)
  unfolding place_in_effect adjustment push_new
  prefer_edge (from, to) adjustments = do
    place_from ← place_in_effect from
    place_to ← place_in_effect to
    if not (ltb place_to place_from) then ok adjustments else do
      before ← or_panic (get_elem? names from)
      after ← or_panic (get_elem? names to)
      note ← adjustment requested from to (prefers before after)
      ok (push_new note adjustments)

  unfoldable pub prefer : Bool → ℕ → Text → List Adjustment → Outcome (List Adjustment)
  unfolding position_of prefer_edge
  prefer before index target adjustments = elim (position_of text_eq target positions) [
    | none ↦ ok adjustments
    | some other ↦ prefer_edge (ordered requested positions before index other) adjustments
  ]

  unfoldable pub prefer_all : Bool → ℕ → List Text → List Adjustment → Outcome (List Adjustment)
  unfolding prefer
  prefer_all before index [] adjustments = ok adjustments
  prefer_all before index (target ∷ targets) adjustments = do
    noted ← prefer before index target adjustments
    prefer_all before index targets noted

  -- The last loop over `releases`.
  unfoldable pub preferences : ℕ → List Manifest → List Adjustment → Outcome (List Adjustment)
  unfolding prefer_all
  preferences index [] adjustments = ok adjustments
  preferences index (release ∷ releases) adjustments = do
    before ← prefer_all true index release.prefer_before adjustments
    after ← prefer_all false index release.prefer_after before
    preferences (suc index) releases after

abbrev pub names_of : List Manifest → List Text
names_of releases = map (λ (release : Manifest). release.name) releases

unfoldable pub resolve_locals :
    UuidLibrary → List LocalSource → List ModReference → Outcome Resolution
unfolding selection_edges must_precede adjustment adjust_from order_of pick effective_positions
    preferences
resolve_locals uuid locals requested = do
  (positions, releases, edges) ← selection_edges uuid locals requested
  required ← adjust_from (must_adjust requested (names_of releases)) 0 edges
  indices ← order_of edges
  effective ← pick requested indices
  adjustments ←
      preferences requested positions (names_of releases) (effective_positions 0 [] effective) 0
        releases required
  ok (record { effective = effective; adjustments = adjustments })
