-- ===== src/Ordering/Locals/Order.antt =====
-- The order of `resolve_locals`.
use mathlib.Core.List.{Perm}
use starframe.Prelude.{
  ℕ, suc, ◌≤◌, ◌<◌, ◌≡◌, refl, sym, ap, subst, ◌∙◌, inl, inr, true, some, none, List, [], ◌∷◌, Text,
  text_eq, length, get_elem?, get_elem?-lt, get_elem?_of_lt, In, All, All-map, map, leb, leb→le,
  arith,
}
use starframe.Prelude.Outcome.{ok, ensure, >>=-eq-ok, ensure-eq-ok, ok_inj}
use starframe.Registry.Identity.{UuidLibrary}
use starframe.References.{ModReference, mod_reference_eq}
use starframe.Ordering.Graph.{Edges, cycle}
use starframe.Ordering.Graph.Search.{HasEdge}
use starframe.Ordering.Graph.Acyclic.{range_from}
use starframe.Ordering.Graph.Order.{IsOrder, IsOrder-perm}
use starframe.Ordering.Shared.{
  max_mods, position_of, no_edges, pick, adjust_from, refuse_cycle, order_of,
}
use starframe.Ordering.Shared.Growth.{no_edges-IsGraph, length-no_edges}
use starframe.Ordering.Shared.Picking.{refuse_cycle-acyclic, order_of-IsOrder, pick-perm}
use starframe.Ordering.Shared.Before.{Before, Before-edge, Before-pick}
use starframe.Ordering.Locals.{
  Manifest, LocalSource, Resolution, Positions, too_many, advice, select_from, edges_from,
  selection_edges,
}
use starframe.Ordering.Locals.Selection.{
  IsManifestOf, Selected, select_from-Selected, position_of-nil,
}
use starframe.Ordering.Locals.Constraints.{IsPlaced, Built, edges_from-Built}
use starframe.Ordering.Locals.Preferences.{
  must_adjust, names_of, effective_positions, preferences, resolve_locals,
}

-- The constraints of a manifest, in an order of the requested builds.
pub record IsObeyed (requested effective : List ModReference) (r : ModReference) (m : Manifest)
    : Type 0 where
  pub requires :
      All
        (λ required.
          (r' : ModReference) × (mod_reference_eq r' required ≡ true) × Before effective r' r)
        m.requires
  pub load_before :
      All
        (λ target.
          (r' : ModReference) → In r' requested → r'.mod_id ≡ target → Before effective r r')
        m.load_before
  pub load_after :
      All
        (λ target.
          (r' : ModReference) → In r' requested → r'.mod_id ≡ target → Before effective r' r)
        m.load_after

pub record IsResolved (locals : List LocalSource) (requested effective : List ModReference)
    : Type 0 where
  pub few : length requested ≤ max_mods
  pub same : Perm effective requested
  pub obeyed :
      All
        (λ r. (m : Manifest) × IsManifestOf locals r m × IsObeyed requested effective r m)
        requested

pub bounded_by :
    (locals : List LocalSource) (requested : List ModReference) (positions : Positions)
    (releases : List Manifest)
    → Selected locals 0 [] requested positions releases
    → (id : Text) (j : ℕ) → position_of text_eq id positions ≡ some j
    → j < length requested
bounded_by locals requested positions releases s id j e = elim (s.placed id j e) [
  | inl old ↦ absurd (position_of-nil id j old)
  | inr l ↦ omega arith
]

-- What the checks of `resolve_locals` establish.
pub record IsSelection (locals : List LocalSource) (requested : List ModReference)
    (positions : Positions) (releases : List Manifest) (edges : Edges) : Type 0 where
  pub few : length requested ≤ max_mods
  pub chosen : Selected locals 0 [] requested positions releases
  pub built :
      Built requested positions
        (bounded_by locals requested positions releases chosen)
        (no_edges (length requested))
        edges
        0
        releases
  pub acyclic : cycle edges ≡ some none

pub selection_edges-IsSelection :
    (uuid : UuidLibrary) (locals : List LocalSource) (requested : List ModReference)
    (positions : Positions) (releases : List Manifest) (edges : Edges)
    → selection_edges uuid locals requested ≡ ok (positions, releases, edges)
    → IsSelection locals requested positions releases edges
unfolding selection_edges
selection_edges-IsSelection uuid locals requested positions releases edges h =
    let ids = map (λ (r : ModReference). r.mod_id) requested in
    let blank = no_edges (length requested) in
    let (u, small, h1) = >>=-eq-ok (ensure (leb (length requested) max_mods) too_many) _ h in
    let ((places, found), run, h2) = >>=-eq-ok (select_from uuid locals 0 [] requested) _ h1 in
    let (graph, made, h3) = >>=-eq-ok (edges_from requested places 0 found blank) _ h2 in
    let (v, fine, h4) = >>=-eq-ok (refuse_cycle ids advice graph) _ h3 in
    subst
      (λ (out : Positions × List Manifest × Edges). IsSelection locals requested out.0 out.1 out.2)
      (ok_inj (places, found, graph) (positions, releases, edges) h4)
      (let s = select_from-Selected uuid locals 0 [] requested places found run in
        record {
          few =
              leb→le (length requested) max_mods
                (ensure-eq-ok (leb (length requested) max_mods) too_many small);
          chosen = s;
          built =
              edges_from-Built requested places (bounded_by locals requested places found s) 0 found
                blank graph made (omega (arith, s.same_length))
                (length-no_edges (length requested));
          acyclic = refuse_cycle-acyclic ids advice graph fine;
        })

-- An element stands at an index.
In-place : (r : ModReference) (l : List ModReference) → In r l → (k : ℕ) × (get_elem? l k ≡ some r)
In-place r [] i = absurd i
In-place r (x ∷ l) (inl e) = (0, ap some (sym e))
In-place r (x ∷ l) (inr i) = let (k, g) = In-place r l i in (suc k, g)

All-places :
    (P : ModReference → Type 0) (l : List ModReference)
    → ((k : ℕ) (r : ModReference) → get_elem? l k ≡ some r → P r)
    → All P l
All-places P [] h = tt
All-places P (x ∷ l) h = (h 0 x refl, All-places P l λ k r g. h (suc k) r g)

module _ (locals : List LocalSource) (requested effective : List ModReference)
    (positions : Positions) (releases : List Manifest) (edges : Edges) (indices : List ℕ)
    (s : IsSelection locals requested positions releases edges) (order : IsOrder edges indices)
    (picked : pick requested indices ≡ ok effective) where
  abbrev bounded :
      (id : Text) (j : ℕ) → position_of text_eq id positions ≡ some j → j < length requested
  bounded = bounded_by locals requested positions releases s.chosen

  size : length edges ≡ length requested
  size = s.built.grows.size ∙ length-no_edges (length requested)

  -- An edge puts one build before another.
  edge-Before :
      (u v : ℕ) (a b : ModReference)
      → HasEdge edges u v
      → get_elem? requested u ≡ some a
      → get_elem? requested v ≡ some b
      → Before effective a b
  edge-Before u v a b e ga gb =
      Before-pick requested indices effective u v a b
        (Before-edge edges indices u v order e (omega (arith, get_elem?-lt requested v gb, size)))
        picked ga gb

  IsPlaced-IsObeyed :
      (index : ℕ) (r : ModReference) (m : Manifest)
      → get_elem? requested index ≡ some r
      → IsPlaced requested positions bounded edges index m
      → IsObeyed requested effective r m
  IsPlaced-IsObeyed index r m g p = record {
    requires =
        All-map _ _
          (λ required met. (
            met.reference,
            met.same,
            edge-Before met.provider index met.reference r met.edge met.found g,
          ))
          m.requires p.requires;
    load_before =
        All-map _ _
          (λ target kept r' i named.
            let (k, g') = In-place r' requested i in
            edge-Before index k r r'
              (kept k (
                ap (λ id. position_of text_eq id positions) (sym named)
                ∙ s.chosen.places k k r' (omega arith) g'))
              g g')
          m.load_before p.load_before;
    load_after =
        All-map _ _
          (λ target kept r' i named.
            let (k, g') = In-place r' requested i in
            edge-Before k index r' r
              (kept k (
                ap (λ id. position_of text_eq id positions) (sym named)
                ∙ s.chosen.places k k r' (omega arith) g'))
              g' g)
          m.load_after p.load_after;
  }

  all-IsObeyed :
      All
        (λ r. (m : Manifest) × IsManifestOf locals r m × IsObeyed requested effective r m)
        requested
  all-IsObeyed = All-places _ requested λ k r g.
      let (m, chosen) =
        get_elem?_of_lt releases k
          (omega (arith, get_elem?-lt requested k g, s.chosen.same_length)) in
      (
        m,
        s.chosen.known k r m g chosen,
        IsPlaced-IsObeyed k r m g (s.built.placed k k m (omega arith) chosen),
      )

-- If `resolve_locals` succeeds, then at most 256 builds were requested, the effective order is a
-- permutation of the request, and each requested build has an imported manifest such that, in the
-- effective order, each build that it requires stands before it, it stands before each requested
-- build of a mod in its `load_before`, and behind each of a mod in its `load_after`.
pub resolve_locals-IsResolved :
    (uuid : UuidLibrary) (locals : List LocalSource) (requested : List ModReference)
    (resolution : Resolution)
    → resolve_locals uuid locals requested ≡ ok resolution
    → IsResolved locals requested resolution.effective
unfolding resolve_locals
resolve_locals-IsResolved uuid locals requested resolution h =
    let ((positions, releases, edges), run, h1) =
      >>=-eq-ok (selection_edges uuid locals requested) _ h in
    let (required, noted, h2) =
      >>=-eq-ok (adjust_from (must_adjust requested (names_of releases)) 0 edges) _ h1 in
    let (indices, taken, h3) = >>=-eq-ok (order_of edges) _ h2 in
    let (effective, picked, h4) = >>=-eq-ok (pick requested indices) _ h3 in
    let (adjustments, preferred, h5) =
      >>=-eq-ok
        (preferences requested positions (names_of releases) (effective_positions 0 [] effective) 0
          releases required)
        _ h4 in
    let s = selection_edges-IsSelection uuid locals requested positions releases edges run in
    let graph = s.built.grows.graph (no_edges-IsGraph (length requested)) in
    let order = order_of-IsOrder edges indices graph s.acyclic taken in
    subst (λ (out : Resolution). IsResolved locals requested out.effective)
      (ok_inj (record { effective = effective; adjustments = adjustments }) resolution h5)
      (record {
        few = s.few;
        same =
            pick-perm requested indices effective
              (subst (λ n. Perm indices (range_from 0 n))
                (s.built.grows.size ∙ length-no_edges (length requested))
                (IsOrder-perm edges indices order))
              picked;
        obeyed =
            all-IsObeyed locals requested effective positions releases edges indices s order picked;
      })
