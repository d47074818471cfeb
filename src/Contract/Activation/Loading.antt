-- ===== src/Contract/Activation/Loading.antt =====
-- The lists of mods that `activation` of src-tauri/src/runtime_contract.rs accepts.
use starframe.Prelude.{
  IsDistinct, ◌+◌, ◌≤◌, ◌≡◌, refl, sym, subst, true, false, List, [], ◌∷◌, Text, codes, any,
  contains, All, length, and_left, and_right, not-true, arith,
}
use starframe.Prelude.Outcome.{ok, >>=-eq-ok, >>-eq-ok, ensure->>-eq-ok, ok_inj}
use starframe.Json.{JsonLibrary, Json, at, value_as_u64}
use starframe.Registry.Identity.{UuidLibrary}
use starframe.Paths.{require}
use starframe.Contract.Document.{overlaps, fields, array_of, text, id, decimal, path}
use starframe.Contract.Content.{
  is_between, expected_fields, inventory, requirements, assembly_of, accept_files,
}
use starframe.Contract.Activation.{
  Progress, check_source, accept_mod, accept_mods, check_omitted, activation_progress, activation,
}
use starframe.Contract.Activation.Files.{AreFiles, accept_files-AreFiles}

-- No root overlaps another.
abbrev pub IsSeparate : List Text → Type 0
IsSeparate [] = Unit
IsSeparate (root ∷ roots) = (any (overlaps root) roots ≡ false) × IsSeparate roots

within_total : 0 ≤ 8192
within_total = omega arith

module _ (json : JsonLibrary) where
  -- Each of these is the ID of a mod that is active.
  abbrev pub IsMet : List Text → Json json → Type 0
  IsMet active dependency =
      (name : Text) × (text json dependency 128 false ≡ ok name) × (contains active name ≡ true)

  requirements-IsMet :
      (active seen : List Text) (wanted : List (Json json)) {result : List Text}
      → requirements json active seen wanted ≡ ok result
      → All (IsMet active) wanted
  unfolding requirements require
  requirements-IsMet active seen [] h = tt
  requirements-IsMet active seen (dependency ∷ wanted) h =
      let named = >>=-eq-ok (text json dependency 128 false) _ h in
      let met = ensure->>-eq-ok _ _ _ named.2 in
      (
        (named.0, named.1, and_left _ _ met.0),
        requirements-IsMet active (named.0 ∷ seen) wanted met.1,
      )

  -- A mod whose ID is in the inventory and not yet active, whose root lies apart from the roots so
  -- far, whose dependencies are active, and whose files add their count to the files so far, of
  -- which there are no more than 8192.
  pub record IsNext (installed : List Text) (before after : Progress) (item : Json json)
      : Type 0 where
    pub mod_id : Text
    pub named : id json (at item (codes "modId")) ≡ ok mod_id
    pub listed : contains installed mod_id ≡ true
    pub fresh : contains before.active mod_id ≡ false
    pub active : after.active ≡ mod_id ∷ before.active
    pub root : Text
    pub placed : path json (at item (codes "root")) ≡ ok root
    pub apart : any (overlaps root) before.roots ≡ false
    pub roots : after.roots ≡ root ∷ before.roots
    pub wanted : List (Json json)
    pub required : array_of json (at item (codes "requires")) 256 ≡ ok wanted
    pub met : All (IsMet before.active) wanted
    pub files : List (Json json)
    pub files_read : array_of json (at item (codes "files")) 1024 ≡ ok files
    pub sound_files : AreFiles json [] files
    pub counted : after.total_files ≡ before.total_files + length files
    pub bounded : after.total_files ≤ 8192

  -- The mods of a list, each of which is next after those before it.
  pub data Loads (installed : List Text) : Progress → List (Json json) → Progress → Type 0 where
    done : {p : Progress} → Loads installed p [] p
    load :
        {p q r : Progress} {item : Json json} {items : List (Json json)}
        → IsNext installed p q item
        → Loads installed q items r
        → Loads installed p (item ∷ items) r

module _ (json : JsonLibrary) (uuid : UuidLibrary) (digest : Text → Text) where
  accept_mod-IsNext :
      (root : Json json) (installed : List Text) (p : Progress) (item : Json json) {q : Progress}
      → p.total_files ≤ 8192
      → accept_mod json uuid digest root installed p item ≡ ok q
      → IsNext json installed p q item
  unfolding accept_mod require
  accept_mod-IsNext root installed p item l h =
      let keys = >>-eq-ok _ _ h in
      let name = >>=-eq-ok (id json (at item (codes "modId"))) _ keys.2 in
      let listed = ensure->>-eq-ok _ _ _ name.2 in
      let wanted = >>=-eq-ok (array_of json (at item (codes "requires")) 256) _ listed.1 in
      let met = >>-eq-ok (requirements json p.active [] wanted.0) _ wanted.2 in
      let place = >>=-eq-ok (path json (at item (codes "root"))) _ met.2 in
      let apart = ensure->>-eq-ok _ _ _ place.2 in
      let assembly = >>=-eq-ok (assembly_of json item) _ apart.1 in
      let files = >>=-eq-ok (array_of json (at item (codes "files")) 1024) _ assembly.2 in
      let accepted = >>=-eq-ok (accept_files json [] p.total_files files.0) _ files.2 in
      let entry = ensure->>-eq-ok _ _ _ accepted.2 in
      let source = >>-eq-ok (check_source json uuid digest root item name.0) _ entry.1 in
      let sound = accept_files-AreFiles json [] p.total_files files.0 l accepted.1 in
      subst (λ q. IsNext json installed p q item) (ok_inj _ _ source.2)
        (record {
          mod_id = name.0;
          named = name.1;
          listed = and_left _ _ listed.0;
          fresh = not-true _ (and_right _ _ listed.0);
          active = refl;
          root = place.0;
          placed = place.1;
          apart = not-true _ apart.0;
          roots = refl;
          wanted = wanted.0;
          required = wanted.1;
          met = requirements-IsMet json p.active [] wanted.0 met.1;
          files = files.0;
          files_read = files.1;
          sound_files = sound.0;
          counted = sound.1;
          bounded = sound.2;
        })

  accept_mods-Loads :
      (root : Json json) (installed : List Text) (p : Progress) (items : List (Json json))
      {q : Progress}
      → p.total_files ≤ 8192
      → accept_mods json uuid digest root installed p items ≡ ok q
      → Loads json installed p items q × (q.total_files ≤ 8192)
  unfolding accept_mods
  accept_mods-Loads root installed p [] l h =
      subst (λ q. Loads json installed p [] q × (q.total_files ≤ 8192)) (ok_inj _ _ h) (done, l)
  accept_mods-Loads root installed p (item ∷ items) l h =
      let step = >>=-eq-ok (accept_mod json uuid digest root installed p item) _ h in
      let next = accept_mod-IsNext root installed p item l step.1 in
      let rest = accept_mods-Loads root installed step.0 items next.bounded step.2 in
      (load next rest.0, rest.1)

module _ (json : JsonLibrary) where
  -- What holds of the state of the loop over the mods.
  abbrev pub IsSound : Progress → Type 0
  IsSound p = IsDistinct p.active × IsSeparate p.roots

  pub Loads-IsSound :
      (installed : List Text) (p : Progress) (items : List (Json json)) (q : Progress)
      → Loads json installed p items q
      → IsSound p
      → IsSound q
  Loads-IsSound installed p items q done s = s
  Loads-IsSound installed p (item ∷ items) r (load {q = q} next rest) s =
      Loads-IsSound installed q items r rest (
        subst IsDistinct (sym next.active) (next.fresh, s.0),
        subst (IsSeparate) (sym next.roots) (next.apart, s.1),
      )

  -- What an accepted activation guarantees.
  pub record IsActivation (root : Json json) : Type 0 where
    pub listed : List (Json json)
    pub inventory_read : array_of json (at root (codes "installedMods")) 256 ≡ ok listed
    pub installed : List Text
    pub known : inventory json [] listed ≡ ok installed
    pub mods : List (Json json)
    pub mods_read : array_of json (at root (codes "mods")) 256 ≡ ok mods
    pub final : Progress
    pub loads :
        Loads json installed (record { active = []; roots = []; total_files = 0 }) mods final
    pub sound : IsSound final
    pub bounded : final.total_files ≤ 8192

module _ (json : JsonLibrary) (uuid : UuidLibrary) (digest : Text → Text) where
  -- If `activation` accepts a document, then each of its mods has an ID of the inventory that no
  -- mod before it has, requires only mods before it, and has a root that overlaps none before it;
  -- so no two IDs are equal and no two roots overlap; each file of a mod has a SHA-256 of 64
  -- lower-case hexadecimal digits, and a path that overlaps none before it; and all the mods
  -- together have at most 8192 files.
  pub activation-IsActivation :
      (root : Json json) {u : Unit {0}}
      → activation json uuid digest root ≡ ok u
      → IsActivation json root
  unfolding activation activation_progress require
  activation-IsActivation root h =
      let progress = >>-eq-ok (activation_progress json uuid digest root) _ h in
      let counted = is_between 3 4 (value_as_u64 json (at root (codes "schemaVersion"))) in
      let omitted = >>-eq-ok (check_omitted json uuid digest root counted) _ progress.1 in
      let keys = >>-eq-ok (fields json root (expected_fields counted)) _ omitted.2 in
      let revision = >>-eq-ok (decimal json (at root (codes "deploymentRevision"))) _ keys.2 in
      let listed = >>=-eq-ok (array_of json (at root (codes "installedMods")) 256) _ revision.2 in
      let installed = >>=-eq-ok (inventory json [] listed.0) _ listed.2 in
      let whole = ensure->>-eq-ok _ _ _ installed.2 in
      let mods = >>=-eq-ok (array_of json (at root (codes "mods")) 256) _ whole.1 in
      let loaded =
        accept_mods-Loads json uuid digest root installed.0 _ mods.0 within_total mods.2 in
      record {
        listed = listed.0;
        inventory_read = listed.1;
        installed = installed.0;
        known = installed.1;
        mods = mods.0;
        mods_read = mods.1;
        final = progress.0;
        loads = loaded.0;
        sound = Loads-IsSound json installed.0 _ mods.0 progress.0 loaded.0 (tt, tt);
        bounded = loaded.1;
      }
