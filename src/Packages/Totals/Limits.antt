-- ===== src/Packages/Totals/Limits.antt =====
-- The packages that `supported_files` of src-tauri/src/packages/archive.rs accepts.
use starframe.Prelude.{
  ℕ, ◌+◌, ◌≤◌, ◌<◌, ◌≡◌, ◌↔◌, refl, ◌∙◌, ap, Bool, true, false, not, ◌&&◌, ◌||◌, List, [], ◌∷◌,
  Text, length, ltb, ◌==◌, All, not-ltb→le, arith,
}
use starframe.Prelude.Outcome.{
  Outcome, ok, ◌>>=◌, ◌>>◌, >>-eq-ok, ensure, ensure-eq-ok, >>=-eq-ok, ensure->>-eq-ok,
}
use starframe.Packages.{
  is_dll, PreparedFile, add_u64, check_size, check_count, check_total, sum_sizes, supported_files,
}
use starframe.Packages.Totals.{add-fits, below_sum, count_of, sum_small, sum_sizes-total, total_of}

-- A file of at most 64 MiB, and of at most 16 MiB if it is a library.
pub IsSmall : PreparedFile → Type 0
IsSmall file = (file.size_bytes ≤ 67108864) × (is_dll file.path ≡ true → file.size_bytes ≤ 16777216)

pub AreSupported : List PreparedFile → Type 0
AreSupported files =
    (1 ≤ length files) × (length files ≤ 1024) × All IsSmall files × (total_of files ≤ 268435456)

le→not-ltb : (a b : ℕ) → b ≤ a → not (ltb a b) ≡ true
le→not-ltb a b h = ground (arith, h)

count_allowed : (n : ℕ) → 1 ≤ n → n ≤ 1024 → not (n == 0 || ltb 1024 n) ≡ true
count_allowed n h k = ground (arith, h, k)

below_word : (total : ℕ) → total ≤ 268435456 → 0 + total < 18446744073709551616
below_word total h = omega (arith, h)

from_zero : (total : ℕ) → total ≤ 268435456 → 0 + total ≤ 268435456
from_zero total h = omega (arith, h)

next_below :
    (total size rest : ℕ)
    → total + (size + rest) < 18446744073709551616
    → (total + size) + rest < 18446744073709551616
next_below total size rest h = omega (arith, h)

add_assoc : (total size rest : ℕ) → (total + size) + rest ≡ total + (size + rest)
add_assoc total size rest = omega arith

add_zero : (total : ℕ) → total ≡ total + 0
add_zero total = omega arith

passed : (b : Bool) (message : Text) → b ≡ true → ensure b message ≡ ok tt
passed true message h = refl
passed false message h = cc

passed_then :
    (b : Bool) (message : Text) (rest : Outcome (Unit {0}))
    → b ≡ true
    → (ensure b message >> rest) ≡ rest
passed_then true message rest h = refl
passed_then false message rest h = cc

library_small : (a b : Bool) → not (a && b) ≡ true → a ≡ true → not b ≡ true
library_small true b h e = h
library_small false b h e = cc

library_allowed : (a b : Bool) → (a ≡ true → not b ≡ true) → not (a && b) ≡ true
library_allowed true b h = h refl
library_allowed false b h = refl

check_size-IsSmall : (file : PreparedFile) {u : Unit {0}} → check_size file ≡ ok u → IsSmall file
unfolding check_size IsSmall
check_size-IsSmall file h =
    let small = ensure->>-eq-ok _ _ _ h in
    (
      not-ltb→le 67108864 file.size_bytes small.0,
      λ library.
          not-ltb→le 16777216 file.size_bytes
            (library_small _ _ (ensure-eq-ok _ _ small.1) library),
    )

check_size_of : (file : PreparedFile) → IsSmall file → check_size file ≡ ok tt
unfolding check_size IsSmall
check_size_of file s =
    passed_then _ _ _ (le→not-ltb 67108864 file.size_bytes s.0)
    ∙ passed _ _ (
        library_allowed (is_dll file.path) _
          λ library. le→not-ltb 16777216 file.size_bytes (s.1 library))

sum_sizes-IsSmall :
    (total : ℕ) (files : List PreparedFile) {sum : ℕ}
    → sum_sizes total files ≡ ok sum
    → All IsSmall files
unfolding sum_sizes
sum_sizes-IsSmall total [] h = tt
sum_sizes-IsSmall total (file ∷ files) h =
    let fits = >>-eq-ok (check_size file) _ h in
    let added = >>=-eq-ok (add_u64 total file.size_bytes) _ fits.2 in
    (check_size-IsSmall file fits.1, sum_sizes-IsSmall added.0 files added.2)

sum_sizes_of :
    (total : ℕ) (files : List PreparedFile)
    → All IsSmall files
    → total + total_of files < 18446744073709551616
    → sum_sizes total files ≡ ok (total + total_of files)
unfolding sum_sizes
sum_sizes_of total [] s h = ap ok (add_zero total)
sum_sizes_of total (file ∷ files) s h =
    let bound = next_below total file.size_bytes (total_of files) h in
    ap (λ o. o >> (add_u64 total file.size_bytes >>= λ sum. sum_sizes sum files))
      (check_size_of file s.0)
    ∙ ap (λ o. o >>= λ sum. sum_sizes sum files)
        (add-fits total file.size_bytes (below_sum _ _ bound))
    ∙ sum_sizes_of (total + file.size_bytes) files s.1 bound
    ∙ ap ok (add_assoc total file.size_bytes (total_of files))

-- `supported_files` accepts the files of an archive exactly if there are 1 to 1024 of them, none
-- of more than 64 MiB and no library of more than 16 MiB, and the sum of their sizes is at most
-- 256 MiB.
pub supported_files_iff :
    (files : List PreparedFile) → (supported_files files ≡ ok tt) ↔ AreSupported files
unfolding supported_files check_count check_total AreSupported
supported_files_iff files = (accepted, allowed)
  where
    accepted : supported_files files ≡ ok tt → AreSupported files
    accepted h =
        let counted = >>-eq-ok (check_count (length files)) _ h in
        let few = count_of (length files) counted.1 in
        let sum = >>=-eq-ok (sum_sizes 0 files) check_total counted.2 in
        let small = not-ltb→le 268435456 sum.0 (ensure-eq-ok _ _ sum.2) in
        (
          few.0,
          few.1,
          sum_sizes-IsSmall 0 files sum.1,
          sum_small _ _ (sum_sizes-total 0 files sum.1) small,
        )

    allowed : AreSupported files → supported_files files ≡ ok tt
    allowed s =
        ap (λ o. o >> (sum_sizes 0 files >>= check_total))
          (passed _ _ (count_allowed (length files) s.0 s.1))
        ∙ ap (λ o. o >>= check_total) (sum_sizes_of 0 files s.2 (below_word (total_of files) s.3))
        ∙ passed _ _ (le→not-ltb 268435456 (0 + total_of files) (from_zero (total_of files) s.3))
