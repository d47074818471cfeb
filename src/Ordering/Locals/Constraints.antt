-- ===== src/Ordering/Locals/Constraints.antt =====
-- The edges that the checks of `resolve_locals` add.
use starframe.Prelude.{
  ℕ, zero, suc, ◌+◌, ◌≤◌, ◌<◌, ◌≡◌, refl, sym, ap, subst, ◌∙◌, true, false, some, some_inj, List,
  [], ◌∷◌, Text, text_eq, length, get_elem?, All, All-map, arith, Option-cases, Bool-cases, Bool,
  inl, inr,
}
use starframe.Prelude.Outcome.{ok, or_panic, >>=-eq-ok, ok_inj}
use starframe.References.{ModReference, mod_reference_eq}
use starframe.Ordering.Graph.{Edges}
use starframe.Ordering.Graph.Search.{HasEdge}
use starframe.Ordering.Shared.{position_of, position_from, add_edge}
use starframe.Ordering.Shared.Growth.{Grows, Grows-refl, Grows-trans, add_edge_lem}
use starframe.Ordering.Locals.{
  Manifest, Positions, place_of, dependency_of, require_all, ordered, constrain, constrain_all,
  edges_from,
}

pub position_from-found :
    {A : Type 0} (test : A → Bool) (index : ℕ) (items : List A) (j : ℕ)
    → position_from test index items ≡ some j
    → (k : ℕ) × (x : A) × (j ≡ index + k) × (get_elem? items k ≡ some x) × (test x ≡ true)
unfolding position_from
position_from-found test index [] j h = cc
position_from-found test index (x ∷ items) j h = elim (Bool-cases (test x)) [
  | inl here ↦ (zero, x, omega (arith, some_inj index j (rw here at h)), refl, here)
  | inr there ↦
      let (k, y, at, g, t) = position_from-found test (suc index) items j (rw there at h) in
      (suc k, y, omega arith, g, t)
]

module _ (requested : List ModReference) (positions : Positions)
    (bounded : (id : Text) (j : ℕ)
      → position_of text_eq id positions ≡ some j
      → j < length requested) where
  -- The requirement is met by an equal reference of the request, from which an edge leads to `index`.
  pub record IsMet (edges : Edges) (index : ℕ) (required : ModReference) : Type 0 where
    pub provider : ℕ
    pub reference : ModReference
    pub found : get_elem? requested provider ≡ some reference
    pub same : mod_reference_eq reference required ≡ true
    pub edge : HasEdge edges provider index

  -- A target that is requested has the edge that the constraint asks for.
  abbrev pub IsKept : Bool → ℕ → Edges → Text → Type 0
  IsKept before index edges target =
      (other : ℕ)
      → position_of text_eq target positions ≡ some other
      → HasEdge edges (ordered requested positions before index other).0
          (ordered requested positions before index other).1

  pub IsMet-Grows :
      (edges edges' : Edges) (index : ℕ) (required : ModReference)
      → Grows edges edges'
      → IsMet edges index required
      → IsMet edges' index required
  IsMet-Grows edges edges' index required g m = record {
    provider = m.provider;
    reference = m.reference;
    found = m.found;
    same = m.same;
    edge = g.keeps m.provider index m.edge;
  }

  pub IsKept-Grows :
      (before : Bool) (edges edges' : Edges) (index : ℕ) (target : Text)
      → Grows edges edges'
      → IsKept before index edges target
      → IsKept before index edges' target
  IsKept-Grows before edges edges' index target g k other at = g.keeps _ _ (k other at)

  pub dependency_of-found :
      (index : ℕ) (required : ModReference) (dependency : ℕ)
      → dependency_of requested positions index required ≡ ok dependency
      → place_of requested positions required ≡ some dependency
  unfolding dependency_of
  dependency_of-found index required dependency h =
      elim (Option-cases (place_of requested positions required)) [
        | inl e ↦
            let (r, got, stop) =
              >>=-eq-ok (or_panic (get_elem? requested index)) _ (rw (e, dependency_of) at h) in
            cc
        | inr (place, e) ↦ e ∙ ap some (ok_inj place dependency (rw (e, dependency_of) at h))
      ]

  pub record Required (edges edges' : Edges) (index : ℕ) (requires : List ModReference)
      : Type 0 where
    pub grows : Grows edges edges'
    pub met : All (IsMet edges' index) requires

  pub require_all-Required :
      (index : ℕ) (requires : List ModReference) (edges edges' : Edges)
      → require_all requested positions index requires edges ≡ ok edges'
      → index < length edges
      → Required edges edges' index requires
  unfolding require_all
  require_all-Required index [] edges edges' h l =
      subst (λ e. Required edges e index []) (ok_inj edges edges' h)
        (record { grows = Grows-refl edges; met = tt })
  require_all-Required index (required ∷ requires) edges edges' h l =
      let (provider, found, h1) =
        >>=-eq-ok (dependency_of requested positions index required) _ h in
      let (next, run, h2) = >>=-eq-ok (add_edge edges provider index) _ h1 in
      let added = add_edge_lem edges next provider index run l in
      let rest = require_all-Required index requires next edges' h2 (rw (added.grows.size) l) in
      let (k, r, at, g, same) =
        position_from-found (λ r. mod_reference_eq r required) 0 requested provider
          (dependency_of-found index required provider found) in
      record {
        grows = Grows-trans edges next edges' added.grows rest.grows;
        met = (
          record {
            provider = provider;
            reference = r;
            found = ap (get_elem? requested) (omega arith) ∙ g;
            same = same;
            edge = rest.grows.keeps provider index added.edge;
          },
          rest.met,
        );
      }

  pub record Constrained (before : Bool) (edges edges' : Edges) (index : ℕ) (targets : List Text)
      : Type 0 where
    pub grows : Grows edges edges'
    pub kept : All (IsKept before index edges') targets

  pub constrain-Grows :
      (before : Bool) (index : ℕ) (target : Text) (edges edges' : Edges)
      → constrain requested positions before index target edges ≡ ok edges'
      → index < length requested
      → length edges ≡ length requested
      → Grows edges edges' × IsKept before index edges' target
  unfolding constrain
  constrain-Grows before index target edges edges' h l size =
      elim (Option-cases (position_of text_eq target positions)) [
        | inl e ↦ (
          subst (Grows edges) (ok_inj edges edges' (rw (e, constrain) at h)) (Grows-refl edges),
          λ other at. cc (sym e ∙ at),
        )
        | inr (other, e) ↦
            let inside = bounded target other e in
            let run = rw (e, constrain) at h in
            let added =
              add_edge_lem edges edges' (ordered requested positions before index other).0
                (ordered requested positions before index other).1 run
                (to_inside before other inside) in
            (
              added.grows,
              λ other' at.
                  subst
                    (λ o.
                      HasEdge edges' (ordered requested positions before index o).0
                        (ordered requested positions before index o).1)
                    (some_inj other other' (sym e ∙ at)) (added.edge),
            )
      ]
    where
      to_inside :
          (before : Bool) (other : ℕ)
          → other < length requested
          → (ordered requested positions before index other).1 < length edges
      to_inside true other i = omega arith
      to_inside false other i = omega arith

  pub constrain_all-Constrained :
      (before : Bool) (index : ℕ) (targets : List Text) (edges edges' : Edges)
      → constrain_all requested positions before index targets edges ≡ ok edges'
      → index < length requested
      → length edges ≡ length requested
      → Constrained before edges edges' index targets
  unfolding constrain_all
  constrain_all-Constrained before index [] edges edges' h l size =
      subst (λ e. Constrained before edges e index []) (ok_inj edges edges' h)
        (record { grows = Grows-refl edges; kept = tt })
  constrain_all-Constrained before index (target ∷ targets) edges edges' h l size =
      let (next, run, h1) =
        >>=-eq-ok (constrain requested positions before index target edges) _ h in
      let (grows, kept) = constrain-Grows before index target edges next run l size in
      let rest =
        constrain_all-Constrained before index targets next edges' h1 l (grows.size ∙ size) in
      record {
        grows = Grows-trans edges next edges' grows rest.grows;
        kept = (IsKept-Grows before next edges' index target rest.grows kept, rest.kept);
      }

  -- What the edges hold for one manifest.
  pub record IsPlaced (edges : Edges) (index : ℕ) (release : Manifest) : Type 0 where
    pub requires : All (IsMet edges index) release.requires
    pub load_before : All (IsKept true index edges) release.load_before
    pub load_after : All (IsKept false index edges) release.load_after

  pub record Built (edges edges' : Edges) (index : ℕ) (releases : List Manifest) : Type 0 where
    pub grows : Grows edges edges'
    pub placed :
        (k v : ℕ) (release : Manifest)
        → v ≡ index + k
        → get_elem? releases k ≡ some release
        → IsPlaced edges' v release

  IsPlaced-Grows :
      (edges edges' : Edges) (index : ℕ) (release : Manifest)
      → Grows edges edges'
      → IsPlaced edges index release
      → IsPlaced edges' index release
  IsPlaced-Grows edges edges' index release g p = record {
    requires = All-map _ _ (λ r. IsMet-Grows edges edges' index r g) release.requires p.requires;
    load_before =
        All-map _ _ (λ t. IsKept-Grows true edges edges' index t g) release.load_before
          p.load_before;
    load_after =
        All-map _ _ (λ t. IsKept-Grows false edges edges' index t g) release.load_after
          p.load_after;
  }

  pub edges_from-Built :
      (index : ℕ) (releases : List Manifest) (edges edges' : Edges)
      → edges_from requested positions index releases edges ≡ ok edges'
      → index + length releases ≤ length requested
      → length edges ≡ length requested
      → Built edges edges' index releases
  unfolding edges_from
  edges_from-Built index [] edges edges' h l size =
      subst (λ e. Built edges e index []) (ok_inj edges edges' h)
        (record { grows = Grows-refl edges; placed = λ k v release e g. cc })
  edges_from-Built index (release ∷ releases) edges edges' h l size =
      let (required, run, h1) =
        >>=-eq-ok (require_all requested positions index release.requires edges) _ h in
      let r = require_all-Required index release.requires edges required run (omega arith) in
      let (before, run1, h2) =
        >>=-eq-ok (constrain_all requested positions true index release.load_before required) _
          h1 in
      let b =
        constrain_all-Constrained true index release.load_before required before run1 (omega arith)
          (r.grows.size ∙ size) in
      let (after, run2, h3) =
        >>=-eq-ok (constrain_all requested positions false index release.load_after before) _ h2 in
      let a =
        constrain_all-Constrained false index release.load_after before after run2 (omega arith)
          (b.grows.size ∙ r.grows.size ∙ size) in
      let rest =
        edges_from-Built (suc index) releases after edges' h3 (omega arith)
          (a.grows.size ∙ b.grows.size ∙ r.grows.size ∙ size) in
      let b_to_end = Grows-trans before after edges' a.grows rest.grows in
      let r_to_end = Grows-trans required before edges' b.grows b_to_end in
      let here : IsPlaced edges' index release = record {
        requires =
            All-map _ _ (λ q. IsMet-Grows required edges' index q r_to_end) release.requires r.met;
        load_before =
            All-map _ _ (λ t. IsKept-Grows true before edges' index t b_to_end) release.load_before
              b.kept;
        load_after =
            All-map _ _ (λ t. IsKept-Grows false after edges' index t rest.grows) release.load_after
              a.kept;
      } in
      record {
        grows = Grows-trans edges required edges' r.grows r_to_end;
        placed = λ k v m e g. placed_at k v m e g here rest.placed;
      }
    where
      placed_at :
          (k v : ℕ) (m : Manifest)
          → v ≡ index + k
          → get_elem? (release ∷ releases) k ≡ some m
          → IsPlaced edges' index release
          → ((k v : ℕ) (m : Manifest)
              → v ≡ suc index + k
              → get_elem? releases k ≡ some m
              → IsPlaced edges' v m)
          → IsPlaced edges' v m
      placed_at zero v m e g here rest =
          let at : index ≡ v = omega arith in
          subst (λ i. IsPlaced edges' i m) at
            (subst (λ x. IsPlaced edges' index x) (some_inj release m g) here)
      placed_at (suc k) v m e g here rest = rest k v m (omega arith) g
