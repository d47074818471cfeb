-- ===== src/Registry/Files/Separate.antt =====
-- The packages that `validate_files` of src-tauri/src/registry/installation.rs accepts.
use starframe.Prelude.{
  IsDistinct, not_contained, not_equal, ℕ, suc, ◌+◌, ◌≤◌, ◌≡◌, refl, subst, Bool, true, false, not,
  ◌||◌, some, List, [], ◌∷◌, Text, contains, length, is_empty, ltb, not-ltb→le, not-true, inl, inr,
  In, All, All-In, to_ascii_lowercase, arith,
}
use starframe.Prelude.Outcome.{ok, >>=-eq-ok, ensure->>-eq-ok, ok_or->>=-eq-ok, ok_inj}
use starframe.Paths.{relative_path}
use starframe.Packages.{PreparedFile}
use starframe.Packages.Totals.{total_of}
use starframe.Registry.Installation.{Installation}
use starframe.Registry.Installation
use starframe.Registry.Files.{checked_add, collect, validate_files}
use starframe.Registry.Files.Declared.{
  IsPlaced, IsDeclared, misplaced-IsPlaced, declared_files-IsDeclared,
}
use starframe.Registry.Files.Overlap.{IsSeparate, overlapping-IsSeparate}

-- The paths are the normalized forms of the paths of the files, one for each.
pub Normalizes : List PreparedFile → List Text → Type 0
Normalizes [] [] = Unit
Normalizes (file ∷ files) (path ∷ paths) =
    (relative_path file.path ≡ ok path) × Normalizes files paths
Normalizes [] (path ∷ paths) = ⊥
Normalizes (file ∷ files) [] = ⊥

right_small : (a b : Bool) → not (a || b) ≡ true → not b ≡ true
right_small true b h = cc
right_small false b h = h

added : (a b : ℕ) {sum : ℕ} → checked_add a b ≡ some sum → sum ≡ a + b
added a b h = ground (arith, h)

sums :
    (total size rest sum last : ℕ)
    → sum ≡ total + size
    → last ≡ sum + rest
    → last ≡ total + (size + rest)
sums total size rest sum last h k = omega (arith, h, k)

sum_bound : (total last : ℕ) → last ≡ 0 + total → last ≤ 2147483648 → total ≤ 2147483648
sum_bound total last h k = omega (arith, h, k)

left_small : (a b : Bool) → not (a || b) ≡ true → not a ≡ true
left_small true b h = h
left_small false b h = refl

count_of :
    (files : List PreparedFile)
    → not (is_empty files || ltb 4096 (length files)) ≡ true
    → (1 ≤ length files) × (length files ≤ 4096)
count_of [] h = cc
count_of (file ∷ files) h = (omega arith, not-ltb→le 4096 (suc (length files)) h)

both_false : (a b : Bool) → a ≡ false → b ≡ false → (a || b) ≡ false
both_false true b h k = cc
both_false false b h k = k

-- None of the paths is among those seen.
abbrev AreUnseen : (seen paths : List Text) → Type 0
AreUnseen seen paths = All (λ path. not (contains seen path) ≡ true) paths

unseen_apart :
    (seen paths : List Text) (first : Text)
    → AreUnseen (first ∷ seen) paths
    → (contains paths first ≡ false) × AreUnseen seen paths
unseen_apart seen [] first a = (refl, tt)
unseen_apart seen (path ∷ paths) first a =
    let other = not_contained seen first path a.0 in
    let rest = unseen_apart seen paths first a.1 in
    (both_false _ _ (not_equal first path other.1) rest.0, (other.0, rest.1))

-- What a run of `collect` after the paths seen says of the files.
record IsCollected (plan : Installation) (seen : List Text) (total : ℕ) (files : List PreparedFile)
    (result : List Text × ℕ) : Type 0 where
  paths : List Text
  normal : Normalizes files paths
  distinct : IsDistinct paths
  unseen : AreUnseen seen paths
  kept : (path : Text) → In path seen → In path result.0
  collected : All (λ path. In path result.0) paths
  small : All (λ file. file.size_bytes ≤ 536870912) files
  placed : All (λ file. IsPlaced plan (to_ascii_lowercase file.path)) files
  summed : result.1 ≡ total + total_of files
  bounded : result.1 ≤ 2147483648

collect-IsCollected :
    (plan : Installation) (seen : List Text) (total : ℕ) (files : List PreparedFile)
    {result : List Text × ℕ}
    → total ≤ 2147483648
    → collect plan seen total files ≡ ok result
    → IsCollected plan seen total files result
unfolding collect Normalizes
collect-IsCollected plan seen total [] l h =
    subst (IsCollected plan seen total []) (ok_inj (seen, total) _ h) (record {
      paths = [];
      normal = tt;
      distinct = tt;
      unseen = tt;
      kept = λ path i. i;
      collected = tt;
      small = tt;
      placed = tt;
      summed = omega arith;
      bounded = l;
    })
collect-IsCollected plan seen total (file ∷ files) l h =
    let path = >>=-eq-ok (relative_path file.path) _ h in
    let fresh = ensure->>-eq-ok _ _ _ path.2 in
    let sum = ok_or->>=-eq-ok (checked_add total file.size_bytes) _ _ fresh.1 in
    let small = ensure->>-eq-ok _ _ _ sum.2 in
    let declared = ensure->>-eq-ok _ _ _ small.1 in
    let rest =
      collect-IsCollected plan (path.0 ∷ seen) sum.0 files
        (not-ltb→le 2147483648 sum.0 (right_small _ _ small.0)) declared.1 in
    let apart = unseen_apart seen rest.paths path.0 rest.unseen in
    record {
      paths = path.0 ∷ rest.paths;
      normal = (path.1, rest.normal);
      distinct = (apart.0, rest.distinct);
      unseen = (fresh.0, apart.1);
      kept = λ p i. rest.kept p (inr i);
      collected = (rest.kept path.0 (inl refl), rest.collected);
      small = (not-ltb→le 536870912 file.size_bytes (left_small _ _ small.0), rest.small);
      placed = (misplaced-IsPlaced plan (to_ascii_lowercase file.path) declared.0, rest.placed);
      summed =
          sums total file.size_bytes (total_of files) sum.0 _ (added total file.size_bytes sum.1)
            rest.summed;
      bounded = rest.bounded;
    }

none_bounded : 0 ≤ 2147483648
none_bounded = omega arith

-- What an accepted package guarantees.
pub record IsPackage (plan : Installation) (files : List PreparedFile) : Type 0 where
  pub valid : Installation.valid plan ≡ true
  pub counted : (1 ≤ length files) × (length files ≤ 4096)
  pub small : All (λ file. file.size_bytes ≤ 536870912) files
  pub bounded : total_of files ≤ 2147483648
  pub paths : List Text
  pub normal : Normalizes files paths
  pub distinct : IsDistinct paths
  pub separate : IsSeparate paths
  pub placed : All (λ file. IsPlaced plan (to_ascii_lowercase file.path)) files
  pub declared : IsDeclared plan files

-- If `validate_files` accepts the files of a release, then the plan is valid; there are 1 to 4096
-- files of at most 512 MiB each and 2 GiB together; the path of each file is relative, the
-- normalized paths of the files are pairwise different and none of them lies in another; a map,
-- and a file under LJ/lua/AI, stands only in content of its kind; and the files are what the plan
-- declares: each has a Lua path or stands in the declared folder, the entry that the plan
-- declares or its kind of content needs is there and not empty, a package of code keeps to the
-- limits of `supported_files`, a managed one has no file under LJ/lua, and content has no
-- library.
pub validate_files-IsPackage :
    (plan : Installation) (files : List PreparedFile)
    → validate_files plan files ≡ ok tt
    → IsPackage plan files
unfolding validate_files
validate_files-IsPackage plan files h =
    let valid = ensure->>-eq-ok _ _ _ h in
    let counted = ensure->>-eq-ok _ _ _ valid.1 in
    let run = >>=-eq-ok (collect plan [] 0 files) _ counted.1 in
    let apart = ensure->>-eq-ok _ _ _ run.2 in
    let c = collect-IsCollected plan [] 0 files none_bounded run.1 in
    let separate = overlapping-IsSeparate run.0.0 (not-true _ apart.0) in
    record {
      valid = valid.0;
      counted = count_of files counted.0;
      small = c.small;
      bounded = sum_bound _ _ c.summed c.bounded;
      paths = c.paths;
      normal = c.normal;
      distinct = c.distinct;
      separate = λ p q i j.
          separate p q (All-In (λ path. In path run.0.0) c.paths p c.collected i)
            (All-In (λ path. In path run.0.0) c.paths q c.collected j);
      placed = c.placed;
      declared = declared_files-IsDeclared plan files apart.1;
    }
