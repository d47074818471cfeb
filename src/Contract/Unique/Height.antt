-- ===== src/Contract/Unique/Height.antt =====
-- The nesting of the documents that `depth` of src-tauri/src/runtime_contract.rs lets pass.
use starframe.Prelude.{
  ℕ, suc, ◌+◌, ◌≤◌, ◌≡◌, ◌↔◌, refl, true, ltb, leb, if◌then◌else◌, ltb→lt, arith,
}
use starframe.Prelude.Outcome.{ok, >>-eq-ok, ensure->>-eq-ok}
use starframe.Json.{
  JsonLibrary, Json, Values, Members, null, boolean, number, string, array, object, no_values,
  value, no_members, member,
}
use starframe.Paths.{require}
use starframe.Contract.Unique.{depth, depth_values, depth_members}

larger : ℕ → ℕ → ℕ
larger a b = if leb a b then b else a

larger_left : (level a b : ℕ) → level + larger a b ≤ 32 → level + a ≤ 32
unfolding larger
larger_left level a b h = ground (arith, h)

larger_right : (level a b : ℕ) → level + larger a b ≤ 32 → level + b ≤ 32
unfolding larger
larger_right level a b h = ground (arith, h)

larger_both : (level a b : ℕ) → level + a ≤ 32 → level + b ≤ 32 → level + larger a b ≤ 32
unfolding larger
larger_both level a b h k = ground (arith, h, k)

below : (level n : ℕ) → level + suc n ≤ 32 → ltb level 32 ≡ true
below level n h = ground (arith, h)

module _ (json : JsonLibrary) where
  -- How many arrays and objects enclose the innermost values, itself included.
  unfoldable mutual
    unfolding larger

    pub height : Json json → ℕ
    height (array values) = suc (height_values values)
    height (object members) = suc (height_members members)
    height _ = 0

    pub height_values : Values json.Number → ℕ
    height_values no_values = 0
    height_values (value first rest) = larger (height first) (height_values rest)

    pub height_members : Members json.Number → ℕ
    height_members no_members = 0
    height_members (member key first rest) = larger (height first) (height_members rest)

  -- The document nests to the height that is allowed at its level.
  mutual
    unfolding depth height require

    depth_sound :
        (v : Json json) (level : ℕ) {u : Unit {0}}
        → level ≤ 32
        → depth json v level ≡ ok u
        → level + height v ≤ 32
    depth_sound null level l h = omega (arith, l)
    depth_sound (boolean b) level l h = omega (arith, l)
    depth_sound (number n) level l h = omega (arith, l)
    depth_sound (string s) level l h = omega (arith, l)
    depth_sound (array values) level l h =
        let tested = ensure->>-eq-ok _ _ _ h in
        let lt = ltb→lt level 32 tested.0 in
        omega (arith, depth_values_sound values (suc level) (omega (arith, lt)) tested.1)
    depth_sound (object members) level l h =
        let tested = ensure->>-eq-ok _ _ _ h in
        let lt = ltb→lt level 32 tested.0 in
        omega (arith, depth_members_sound members (suc level) (omega (arith, lt)) tested.1)

    depth_values_sound :
        (vs : Values json.Number) (level : ℕ) {u : Unit {0}}
        → level ≤ 32
        → depth_values json vs level ≡ ok u
        → level + height_values vs ≤ 32
    depth_values_sound no_values level l h = omega (arith, l)
    depth_values_sound (value first rest) level l h =
        let step = >>-eq-ok _ _ h in
        larger_both level _ _ (depth_sound first level l step.1)
          (depth_values_sound rest level l step.2)

    depth_members_sound :
        (ms : Members json.Number) (level : ℕ) {u : Unit {0}}
        → level ≤ 32
        → depth_members json ms level ≡ ok u
        → level + height_members ms ≤ 32
    depth_members_sound no_members level l h = omega (arith, l)
    depth_members_sound (member key first rest) level l h =
        let step = >>-eq-ok _ _ h in
        larger_both level _ _ (depth_sound first level l step.1)
          (depth_members_sound rest level l step.2)

  mutual
    unfolding depth height require

    depth_complete :
        (v : Json json) (level : ℕ) → level + height v ≤ 32 → depth json v level ≡ ok tt
    depth_complete null level h = refl
    depth_complete (boolean b) level h = refl
    depth_complete (number n) level h = refl
    depth_complete (string s) level h = refl
    depth_complete (array values) level h =
        rw (below level _ h) (depth_values_complete values (suc level) (omega (arith, h)))
    depth_complete (object members) level h =
        rw (below level _ h) (depth_members_complete members (suc level) (omega (arith, h)))

    depth_values_complete :
        (vs : Values json.Number) (level : ℕ)
        → level + height_values vs ≤ 32
        → depth_values json vs level ≡ ok tt
    depth_values_complete no_values level h = refl
    depth_values_complete (value first rest) level h =
        rw (depth_complete first level (larger_left level _ (height_values rest) h))
          (depth_values_complete rest level (larger_right level (height first) _ h))

    depth_members_complete :
        (ms : Members json.Number) (level : ℕ)
        → level + height_members ms ≤ 32
        → depth_members json ms level ≡ ok tt
    depth_members_complete no_members level h = refl
    depth_members_complete (member key first rest) level h =
        rw (depth_complete first level (larger_left level _ (height_members rest) h))
          (depth_members_complete rest level (larger_right level (height first) _ h))

  -- The check of the depth lets a document pass exactly if its arrays and objects are nested at
  -- most 32 deep.
  pub depth_iff : (v : Json json) → (depth json v 0 ≡ ok tt) ↔ (height v ≤ 32)
  depth_iff v = (
    λ h. omega (arith, depth_sound v 0 (omega arith) h),
    λ h. depth_complete v 0 (omega (arith, h)),
  )
