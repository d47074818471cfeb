-- ===== src/Ordering/Locals/Total.antt =====
-- The index expressions and loops of the checks of `resolve_locals`.
use starframe.Prelude.{
  ℕ, suc, ◌+◌, ◌≤◌, ◌<◌, ◌≡◌, refl, sym, ap, subst, ◌∙◌, inl, inr, not, true, false, Bool, some,
  List, [], ◌∷◌, Text, text_eq, codes, length, get_elem?-lt, get_elem?_of_lt, map, leb, arith,
  Option-cases,
}
use starframe.Prelude.Outcome.{
  Outcome, ok, err, panicked, ensure, ok_or, IsPanicFree, >>=-IsPanicFree, ensure-IsPanicFree,
  ok_or-IsPanicFree,
}
use starframe.Registry.Identity.{UuidLibrary, sha256_try_from}
use starframe.References.{
  ModReference, LocalReference, local, is_some, obsolete, mod_reference_eq, validate_id, validate,
  reference_try_from,
}
use starframe.Ordering.Graph.{Edges}
use starframe.Ordering.Shared.{max_mods, position_of, no_edges, add_edge, refuse_cycle}
use starframe.Ordering.Shared.Growth.{
  add_edge_lem, add_edge_total, no_edges-IsGraph, length-no_edges,
}
use starframe.Ordering.Shared.Total.{refuse_cycle-IsPanicFree}
use starframe.Ordering.Locals
use starframe.Ordering.Locals.{
  Manifest, LocalSource, Positions, too_many, advice, ordered, map_err, no_metadata, source_of,
  metadata, one_version, unavailable, place_of, missing_build, dependency_of, require_all,
  constrain, constrain_all, select_from, edges_from, selection_edges,
}
use starframe.Ordering.Locals.Selection.{select_from-Selected}
use starframe.Ordering.Locals.Constraints.{
  position_from-found, dependency_of-found, require_all-Required, constrain-Grows,
  constrain_all-Constrained, edges_from-Built,
}
use starframe.Ordering.Locals.Order.{bounded_by}

map_err-IsPanicFree :
    {A : Type 0} (prefix : Text) (o : Outcome A) → IsPanicFree o → IsPanicFree (map_err prefix o)
map_err-IsPanicFree prefix (ok a) p = tt
map_err-IsPanicFree prefix (err message) p = tt
map_err-IsPanicFree prefix panicked p = p

validate-IsPanicFree :
    (uuid : UuidLibrary) (reference : LocalReference)
    → IsPanicFree (validate uuid (local reference))
unfolding validate validate_id
validate-IsPanicFree uuid reference =
    >>=-IsPanicFree (validate_id reference.mod_id) _ (ensure-IsPanicFree _ _)
      λ _ _. ensure-IsPanicFree _ _

reference_try_from-IsPanicFree :
    (uuid : UuidLibrary) (r : ModReference) → IsPanicFree (reference_try_from uuid r)
unfolding reference_try_from
reference_try_from-IsPanicFree uuid r =
    >>=-IsPanicFree (ensure (not (is_some r.release_id)) obsolete) _ (ensure-IsPanicFree _ _) λ _ _.
      >>=-IsPanicFree
        (ok_or (sha256_try_from r.hash)
          (codes "SHA-256 must be 64 lowercase hexadecimal characters"))
        _ (ok_or-IsPanicFree _ _)
        λ sha256 _.
          >>=-IsPanicFree (validate uuid (local (record { mod_id = r.mod_id; sha256 = sha256 }))) _
            (validate-IsPanicFree uuid (record { mod_id = r.mod_id; sha256 = sha256 })) λ _ _. tt

metadata-IsPanicFree :
    (uuid : UuidLibrary) (locals : List LocalSource) (r : ModReference)
    → IsPanicFree (metadata uuid locals r)
unfolding metadata
metadata-IsPanicFree uuid locals r =
    >>=-IsPanicFree (reference_try_from uuid r) _ (reference_try_from-IsPanicFree uuid r) λ _ _.
      >>=-IsPanicFree (ok_or (source_of locals r) (no_metadata r)) _ (ok_or-IsPanicFree _ _)
        λ _ _. tt

select_from-IsPanicFree :
    (uuid : UuidLibrary) (locals : List LocalSource) (index : ℕ) (positions : Positions)
    (requested : List ModReference)
    → IsPanicFree (select_from uuid locals index positions requested)
unfolding select_from
select_from-IsPanicFree uuid locals index positions [] = tt
select_from-IsPanicFree uuid locals index positions (reference ∷ requested) =
    let later = (reference.mod_id, index) ∷ positions in
    >>=-IsPanicFree
      (ensure (not (Locals.is_some (position_of text_eq reference.mod_id positions)))
        (one_version reference.mod_id))
      _ (ensure-IsPanicFree _ _)
      λ _ _.
        >>=-IsPanicFree (map_err (unavailable reference.mod_id) (metadata uuid locals reference)) _
          (map_err-IsPanicFree (unavailable reference.mod_id) (metadata uuid locals reference)
            (metadata-IsPanicFree uuid locals reference))
          λ _ _.
            >>=-IsPanicFree (select_from uuid locals (suc index) later requested) _
              (select_from-IsPanicFree uuid locals (suc index) later requested) λ _ _. tt

module _ (requested : List ModReference) (positions : Positions)
    (bounded : (id : Text) (j : ℕ)
      → position_of text_eq id positions ≡ some j
      → j < length requested) where
  dependency_of-IsPanicFree :
      (index : ℕ) (required : ModReference)
      → index < length requested
      → IsPanicFree (dependency_of requested positions index required)
  unfolding dependency_of
  dependency_of-IsPanicFree index required l =
      elim (Option-cases (place_of requested positions required)) [
        | inl e ↦ let (r, g) = get_elem?_of_lt requested index l in rw (e, dependency_of, g) tt
        | inr (place, e) ↦ rw (e, dependency_of) tt
      ]

  require_all-IsPanicFree :
      (index : ℕ) (requires : List ModReference) (edges : Edges)
      → index < length requested
      → length edges ≡ length requested
      → IsPanicFree (require_all requested positions index requires edges)
  unfolding require_all
  require_all-IsPanicFree index [] edges l size = tt
  require_all-IsPanicFree index (required ∷ requires) edges l size =
      >>=-IsPanicFree (dependency_of requested positions index required) _
        (dependency_of-IsPanicFree index required l)
        λ provider found.
          let (k, r, at, g, same) =
            position_from-found (λ r. mod_reference_eq r required) 0 requested provider
              (dependency_of-found requested positions bounded index required provider found) in
          let (next, run) =
            add_edge_total edges provider index (omega (arith, get_elem?-lt requested k g)) in
          >>=-IsPanicFree (add_edge edges provider index) _ (subst IsPanicFree (sym run) tt)
            λ added made.
              require_all-IsPanicFree index requires added l
                ((add_edge_lem edges added provider index made (omega arith)).grows.size ∙ size)

  constrain-IsPanicFree :
      (before : Bool) (index : ℕ) (target : Text) (edges : Edges)
      → index < length requested
      → length edges ≡ length requested
      → IsPanicFree (constrain requested positions before index target edges)
  unfolding constrain
  constrain-IsPanicFree before index target edges l size =
      elim (Option-cases (position_of text_eq target positions)) [
        | inl e ↦ rw (e, constrain) tt
        | inr (other, e) ↦ rw (e, constrain) (total before other (bounded target other e))
      ]
    where
      total :
          (before : Bool) (other : ℕ)
          → other < length requested
          → IsPanicFree (
              add_edge edges
                (ordered requested positions before index other).0
                (ordered requested positions before index other).1)
      total true other i =
          let (next, run) = add_edge_total edges index other (omega arith) in
          subst IsPanicFree (sym run) tt
      total false other i =
          let (next, run) = add_edge_total edges other index (omega arith) in
          subst IsPanicFree (sym run) tt

  constrain_all-IsPanicFree :
      (before : Bool) (index : ℕ) (targets : List Text) (edges : Edges)
      → index < length requested
      → length edges ≡ length requested
      → IsPanicFree (constrain_all requested positions before index targets edges)
  unfolding constrain_all
  constrain_all-IsPanicFree before index [] edges l size = tt
  constrain_all-IsPanicFree before index (target ∷ targets) edges l size =
      >>=-IsPanicFree (constrain requested positions before index target edges) _
        (constrain-IsPanicFree before index target edges l size)
        λ next run. constrain_all-IsPanicFree before index targets next l (
          (constrain-Grows requested positions bounded before index target edges next run l
            size).0.size
          ∙ size)

  edges_from-IsPanicFree :
      (index : ℕ) (releases : List Manifest) (edges : Edges)
      → index + length releases ≤ length requested
      → length edges ≡ length requested
      → IsPanicFree (edges_from requested positions index releases edges)
  unfolding edges_from
  edges_from-IsPanicFree index [] edges l size = tt
  edges_from-IsPanicFree index (release ∷ releases) edges l size =
      >>=-IsPanicFree (require_all requested positions index release.requires edges) _
        (require_all-IsPanicFree index release.requires edges (omega arith) size)
        λ required run.
          let size1 =
            (require_all-Required requested positions bounded index release.requires edges required
              run (omega arith)).grows.size
            ∙ size in
          >>=-IsPanicFree
            (constrain_all requested positions true index release.load_before required) _
            (constrain_all-IsPanicFree true index release.load_before required (omega arith) size1)
            λ before run1.
              let size2 =
                (constrain_all-Constrained requested positions bounded true index
                  release.load_before required before run1 (omega arith) size1).grows.size
                ∙ size1 in
              >>=-IsPanicFree
                (constrain_all requested positions false index release.load_after before) _
                (constrain_all-IsPanicFree false index release.load_after before (omega arith)
                  size2)
                λ after run2. edges_from-IsPanicFree (suc index) releases after (omega arith) (
                  (constrain_all-Constrained requested positions bounded false index
                    release.load_after before after run2 (omega arith) size2).grows.size
                  ∙ size2)

pub length-map : {A B : Type 0} (f : A → B) (xs : List A) → length (map f xs) ≡ length xs
length-map f [] = refl
length-map f (x ∷ xs) = ap suc (length-map f xs)

-- No panic.
pub selection_edges-IsPanicFree :
    (uuid : UuidLibrary) (locals : List LocalSource) (requested : List ModReference)
    → IsPanicFree (Locals.selection_edges uuid locals requested)
unfolding Locals.selection_edges
selection_edges-IsPanicFree uuid locals requested =
    let ids = map (λ (r : ModReference). r.mod_id) requested in
    let blank = no_edges (length requested) in
    >>=-IsPanicFree (ensure (leb (length requested) max_mods) too_many) _ (ensure-IsPanicFree _ _)
      λ _ _.
        >>=-IsPanicFree (select_from uuid locals 0 [] requested) _
          (select_from-IsPanicFree uuid locals 0 [] requested)
          λ (positions, releases) run.
            let s = select_from-Selected uuid locals 0 [] requested positions releases run in
            let bounded = bounded_by locals requested positions releases s in
            let size = length-no_edges (length requested) in
            >>=-IsPanicFree (edges_from requested positions 0 releases blank) _
              (edges_from-IsPanicFree requested positions bounded 0 releases blank
                (omega (arith, s.same_length)) size)
              λ edges made.
                let grows =
                  (edges_from-Built requested positions bounded 0 releases blank edges made
                    (omega (arith, s.same_length)) size).grows in
                >>=-IsPanicFree (refuse_cycle ids advice edges) _
                  (refuse_cycle-IsPanicFree ids advice edges
                    (grows.graph (no_edges-IsGraph (length requested)))
                    (length-map (λ (r : ModReference). r.mod_id) requested
                      ∙ sym (grows.size ∙ size)))
                  λ _ _. tt
