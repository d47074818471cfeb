-- ===== src/Registry/Files/Declared.antt =====
-- The files that the declarations of src-tauri/src/registry/installation.rs demand.
use starframe.Prelude.{
  ◌<◌, ◌≡◌, refl, ap, Bool, true, false, not, ◌&&◌, ◌||◌, List, [], ◌∷◌, ◌++◌, Text, codes,
  text_eq_iff, any, all, starts_with, ends_with, to_ascii_lowercase, ltb→lt, apart, and_left,
  and_right, or_cases, inl, inr, In, All,
}
use starframe.Prelude.Outcome.{ok, >>-eq-ok, ensure-eq-ok, ensure->>-eq-ok}
use starframe.Paths.{lua_path}
use starframe.Packages.{PreparedFile, is_dll, supported_files}
use starframe.Packages.Totals.Limits.{AreSupported, supported_files_iff}
use starframe.Registry.Installation.{Kind, Installation, lua_mod, managed, content}
use starframe.Registry.Files.{
  is_map, is_ai, is_lua_file, folder_of, nonempty, misplaced, holds_maps, holds_ai, declared_files,
}

-- One of the files passes the test and is not empty.
abbrev pub HasFile : (Text → Type 0) → List PreparedFile → Type 0
HasFile test files = (file : PreparedFile) × In file files × test file.path × (0 < file.size_bytes)

abbrev pub IsLua : Text → Type 0
IsLua path = ends_with (codes ".lua") (to_ascii_lowercase path) ≡ true

-- What a declaration demands of the files.
pub IsDeclared : Installation → List PreparedFile → Type 0
IsDeclared (lua_mod version kind loader entry_path) files =
    AreSupported files
    × All (λ file. lua_path file.path ≡ true) files
    × HasFile (λ path. path ≡ entry_path) files
IsDeclared (managed version kind loader source_root entry_assembly entry_type) files =
    AreSupported files
    × All (λ file. starts_with (folder_of source_root) file.path ≡ true) files
    × All (λ file. starts_with (codes "lj/lua/") (to_ascii_lowercase file.path) ≡ false) files
    × HasFile (λ path. path ≡ folder_of source_root ++ entry_assembly) files
IsDeclared (content version kind source_root destination folder) files =
    All (λ file. starts_with (source_root ++ codes "/") file.path ≡ true) files
    × All (λ file. is_dll file.path ≡ false) files
    × (kind ≡ Kind.map
        → HasFile (λ path. path ≡ source_root ++ codes "/" ++ folder ++ codes ".sanmap") files)
    × (kind ≡ Kind.ai → HasFile IsLua files)

-- The plan declares content of the kind.
pub HoldsKind : Kind → Installation → Type 0
HoldsKind wanted (lua_mod version kind loader entry_path) = ⊥
HoldsKind wanted (managed version kind loader source_root entry_assembly entry_type) = ⊥
HoldsKind wanted (content version kind source_root destination folder) = kind ≡ wanted

-- A map stands only in content of maps, and what is under LJ/lua/AI only in AI content.
pub IsPlaced : Installation → Text → Type 0
IsPlaced plan path =
    (ends_with (codes ".sanmap") path ≡ true → HoldsKind Kind.map plan)
    × (starts_with (codes "lj/lua/ai/") path ≡ true → HoldsKind Kind.ai plan)

is_map-eq : (kind : Kind) → is_map kind ≡ true → kind ≡ Kind.map
unfolding is_map
is_map-eq Kind.code h = cc
is_map-eq Kind.map h = refl
is_map-eq Kind.ai h = cc

is_ai-eq : (kind : Kind) → is_ai kind ≡ true → kind ≡ Kind.ai
unfolding is_ai
is_ai-eq Kind.code h = cc
is_ai-eq Kind.map h = cc
is_ai-eq Kind.ai h = refl

holds_maps-HoldsKind : (plan : Installation) → holds_maps plan ≡ true → HoldsKind Kind.map plan
unfolding holds_maps HoldsKind
holds_maps-HoldsKind (lua_mod version kind loader entry_path) h = absurd (apart h)
holds_maps-HoldsKind (managed version kind loader source_root entry_assembly entry_type) h =
    absurd (apart h)
holds_maps-HoldsKind (content version kind source_root destination folder) h = is_map-eq kind h

holds_ai-HoldsKind : (plan : Installation) → holds_ai plan ≡ true → HoldsKind Kind.ai plan
unfolding holds_ai HoldsKind
holds_ai-HoldsKind (lua_mod version kind loader entry_path) h = absurd (apart h)
holds_ai-HoldsKind (managed version kind loader source_root entry_assembly entry_type) h =
    absurd (apart h)
holds_ai-HoldsKind (content version kind source_root destination folder) h = is_ai-eq kind h

all-All :
    (test : PreparedFile → Bool) (files : List PreparedFile)
    → all test files ≡ true
    → All (λ file. test file ≡ true) files
all-All test [] h = tt
all-All test (file ∷ files) h = (and_left _ _ h, all-All test files (and_right _ _ h))

neither : (a b : Bool) → not (a || b) ≡ true → (a ≡ false) × (not b ≡ true)
neither true b h = cc
neither false b h = (refl, h)

not-any-All :
    (test : PreparedFile → Bool) (files : List PreparedFile)
    → not (any test files) ≡ true
    → All (λ file. test file ≡ false) files
not-any-All test [] h = tt
not-any-All test (file ∷ files) h =
    let both = neither (test file) _ h in (both.0, not-any-All test files both.1)

any-In :
    (test : PreparedFile → Bool) (files : List PreparedFile)
    → any test files ≡ true
    → (file : PreparedFile) × In file files × (test file ≡ true)
any-In test [] h = cc
any-In test (file ∷ files) h = elim (or_cases _ _ h) [
  | inl here ↦ (file, inl refl, here)
  | inr later ↦ let found = any-In test files later in (found.0, inr found.1, found.2)
]

nonempty-HasFile :
    (files : List PreparedFile) (path : Text)
    → nonempty files path ≡ true
    → HasFile (λ found. found ≡ path) files
unfolding nonempty
nonempty-HasFile files path h =
    let found = any-In _ files h in
    (
      found.0,
      found.1,
      (text_eq_iff _ _).0 (and_left _ _ found.2),
      ltb→lt 0 _ (and_right _ _ found.2),
    )

IsLua-HasFile : (files : List PreparedFile) → any is_lua_file files ≡ true → HasFile IsLua files
unfolding is_lua_file
IsLua-HasFile files h =
    let found = any-In is_lua_file files h in
    (found.0, found.1, and_left _ _ found.2, ltb→lt 0 _ (and_right _ _ found.2))

-- A demand that is made is met.
first_met : (a b rest : Bool) → not ((a && not b) || rest) ≡ true → a ≡ true → b ≡ true
first_met true true rest h e = refl
first_met true false rest h e = cc
first_met false b rest h e = cc

second_met : (first a b : Bool) → not (first || (a && not b)) ≡ true → a ≡ true → b ≡ true
second_met first true true h e = refl
second_met true true false h e = cc
second_met false true false h e = cc
second_met first false b h e = cc

pub misplaced-IsPlaced :
    (plan : Installation) (path : Text) → not (misplaced plan path) ≡ true → IsPlaced plan path
unfolding misplaced IsPlaced
misplaced-IsPlaced plan path h = (
  (λ e. holds_maps-HoldsKind plan (first_met _ _ _ h e)),
  (λ e. holds_ai-HoldsKind plan (second_met _ _ _ h e)),
)

pub declared_files-IsDeclared :
    (plan : Installation) (files : List PreparedFile)
    → declared_files plan files ≡ ok tt
    → IsDeclared plan files
unfolding declared_files IsDeclared is_map is_ai
declared_files-IsDeclared (lua_mod version kind loader entry_path) files h =
    let supported = >>-eq-ok (supported_files files) _ h in
    let tests = ensure-eq-ok _ _ supported.2 in
    (
      (supported_files_iff files).0 supported.1,
      all-All _ files (and_left _ _ tests),
      nonempty-HasFile files entry_path (and_right _ _ tests),
    )
declared_files-IsDeclared (managed version kind loader source_root entry_assembly entry_type) files
      h =
    let supported = >>-eq-ok (supported_files files) _ h in
    let tests = ensure-eq-ok _ _ supported.2 in
    let places = and_left _ _ tests in
    (
      (supported_files_iff files).0 supported.1,
      all-All _ files (and_left _ _ places),
      not-any-All _ files (and_right _ _ places),
      nonempty-HasFile files (folder_of source_root ++ entry_assembly) (and_right _ _ tests),
    )
declared_files-IsDeclared (content version kind source_root destination folder) files h =
    let tests = ensure->>-eq-ok _ _ _ h in
    let demands = ensure-eq-ok _ _ tests.1 in
    (
      all-All _ files (and_left _ _ tests.0),
      not-any-All _ files (and_right _ _ tests.0),
      (λ e.
          nonempty-HasFile files (source_root ++ codes "/" ++ folder ++ codes ".sanmap")
            (first_met _ _ _ demands (ap is_map e))),
      (λ e. IsLua-HasFile files (second_met _ _ _ demands (ap is_ai e))),
    )
