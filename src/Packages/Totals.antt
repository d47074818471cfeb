-- ===== src/Packages/Totals.antt =====
-- The sums of sizes in `supported_files` of src-tauri/src/packages/archive.rs.
pub mod Limits
use starframe.Prelude.{
  ℕ, suc, ◌+◌, ◌*◌, ◌≤◌, ◌<◌, ◌≡◌, refl, sym, subst, Bool, true, false, not, ◌&&◌, ◌||◌, List, [],
  ◌∷◌, Text, length, ltb, ◌==◌, lt→ltb, not-ltb→le, arith,
}
use starframe.Prelude.Outcome.{
  Outcome, ok, ◌>>=◌, ◌>>◌, >>-eq-ok, IsPanicFree, >>=-IsPanicFree, ensure, ensure-IsPanicFree,
  ensure-eq-ok, or_panic-eq-ok, ok_inj, >>=-eq-ok, ensure->>-eq-ok,
}
use starframe.Packages.{
  is_dll, PreparedFile, mebibyte, add_u64, check_size, check_count, check_total, sum_sizes,
  supported_files,
}

add-fits : (a b : ℕ) → a + b < 18446744073709551616 → add_u64 a b ≡ ok (a + b)
unfolding add_u64
add-fits a b h = rw (lt→ltb (a + b) 18446744073709551616 h) refl

counted : (n : ℕ) → not (n == 0 || ltb 1024 n) ≡ true → (1 ≤ n) × (n ≤ 1024)
counted n h = ground (arith, h)

ensured :
    (b : Bool) (message : Text) (rest : Outcome (Unit {0}))
    → IsPanicFree rest
    → IsPanicFree (ensure b message >> rest)
ensured true message rest h = h
ensured false message rest h = tt

below_sum : (a b : ℕ) → a + b < 18446744073709551616 → a < 18446744073709551616
below_sum a b h = omega (arith, h)

add_up :
    (total size rest added sum : ℕ)
    → added ≡ total + size
    → sum ≡ added + rest
    → sum ≡ total + (size + rest)
add_up total size rest added sum h k = omega (arith, h, k)

enough : (n : ℕ) → n ≤ 1024 → 0 + n * 67108864 < 18446744073709551616
enough n h = omega (arith, h)

sum_small : (total sum : ℕ) → sum ≡ 0 + total → sum ≤ 268435456 → total ≤ 268435456
sum_small total sum h k = omega (arith, h, k)

sum_of : (a b : ℕ) {sum : ℕ} → add_u64 a b ≡ ok sum → sum ≡ a + b
unfolding add_u64
sum_of a b h = ground (arith, or_panic-eq-ok _ h)

count_of : (n : ℕ) {u : Unit {0}} → check_count n ≡ ok u → (1 ≤ n) × (n ≤ 1024)
unfolding check_count
count_of n h = counted n (ensure-eq-ok _ _ h)

size_of : (file : PreparedFile) {u : Unit {0}} → check_size file ≡ ok u → file.size_bytes ≤ 67108864
unfolding check_size
size_of file h = not-ltb→le 67108864 file.size_bytes (ensure->>-eq-ok _ _ _ h).0

check_size-IsPanicFree : (file : PreparedFile) → IsPanicFree (check_size file)
unfolding check_size
check_size-IsPanicFree file =
    ensured (not (ltb (64 * mebibyte) file.size_bytes)) _
      (ensure (not (is_dll file.path && ltb (16 * mebibyte) file.size_bytes)) _)
      (ensure-IsPanicFree (not (is_dll file.path && ltb (16 * mebibyte) file.size_bytes)) _)

check_count-IsPanicFree : (n : ℕ) → IsPanicFree (check_count n)
unfolding check_count
check_count-IsPanicFree n = ensure-IsPanicFree _ _

check_total-IsPanicFree : (n : ℕ) → IsPanicFree (check_total n)
unfolding check_total
check_total-IsPanicFree n = ensure-IsPanicFree _ _

-- The sum of the sizes.
abbrev pub total_of : List PreparedFile → ℕ
total_of [] = 0
total_of (file ∷ files) = file.size_bytes + total_of files

-- A size of at most 64 MiB for each of the files that are left.
room :
    (total size rest : ℕ)
    → total + suc rest * 67108864 < 18446744073709551616
    → size ≤ 67108864
    → total + size + rest * 67108864 < 18446744073709551616
room total size rest h k = omega (arith, h, k)

sum_sizes-IsPanicFree :
    (total : ℕ) (files : List PreparedFile)
    → total + length files * 67108864 < 18446744073709551616
    → IsPanicFree (sum_sizes total files)
unfolding sum_sizes
sum_sizes-IsPanicFree total [] h = tt
sum_sizes-IsPanicFree total (file ∷ files) h =
    >>=-IsPanicFree (check_size file)
      (λ _. add_u64 total file.size_bytes >>= λ sum. sum_sizes sum files)
      (check_size-IsPanicFree file)
      λ _ small.
        let bound = room total file.size_bytes (length files) h (size_of file small) in
        subst (λ o. IsPanicFree (o >>= λ sum. sum_sizes sum files))
          (sym (add-fits total file.size_bytes (below_sum _ _ bound)))
          (sum_sizes-IsPanicFree (total + file.size_bytes) files bound)

sum_sizes-total :
    (total : ℕ) (files : List PreparedFile) {sum : ℕ}
    → sum_sizes total files ≡ ok sum
    → sum ≡ total + total_of files
unfolding sum_sizes add_u64
sum_sizes-total total [] h = omega (arith, ok_inj _ _ h)
sum_sizes-total total (file ∷ files) h =
    let fits = >>-eq-ok (check_size file) _ h in
    let added = >>=-eq-ok (add_u64 total file.size_bytes) _ fits.2 in
    add_up total file.size_bytes (total_of files) added.0 _ (sum_of total file.size_bytes added.1)
      (sum_sizes-total added.0 files added.2)

-- `supported_files` never panics: for files of any size the sum of their sizes never overflows a
-- `u64`.
pub supported_files-IsPanicFree : (files : List PreparedFile) → IsPanicFree (supported_files files)
unfolding supported_files
supported_files-IsPanicFree files =
    >>=-IsPanicFree (check_count (length files)) (λ _. sum_sizes 0 files >>= check_total)
      (check_count-IsPanicFree (length files))
      λ _ counted.
        >>=-IsPanicFree (sum_sizes 0 files) check_total
          (sum_sizes-IsPanicFree 0 files
            (enough (length files) (count_of (length files) counted).1))
          λ total _. check_total-IsPanicFree total
