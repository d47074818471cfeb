-- ===== src/Packages.antt =====
-- The files of packages: src-tauri/src/packages.rs and packages/archive.rs.
pub mod Totals
pub mod Layouts
use starframe.Prelude.{
  ℕ, ◌+◌, ◌*◌, ◌^◌, Bool, not, ◌&&◌, ◌||◌, none, some, List, [], ◌∷◌, ◌++◌, Text, codes, ends_with,
  is_empty, to_ascii_lowercase, show_u64, length, ltb, ◌==◌, if◌then◌else◌,
}
use starframe.Prelude.Outcome.{Outcome, ok, err, panicked, ensure, or_panic, ◌>>=◌, ◌>>◌}
use starframe.Contract.Document.{max_files_per_mod}

pub record PreparedFile : Type 0 where
  pub path : Text
  pub sha256 : Text
  pub size_bytes : ℕ

abbrev pub mebibyte : ℕ
mebibyte = 1048576

-- U+2013 of an error.
abbrev pub en_dash : Text
en_dash = 226 ∷ 128 ∷ 147 ∷ []

-- `a + b` of `u64`, which panics where it overflows.
unfoldable pub add_u64 : ℕ → ℕ → Outcome ℕ
add_u64 a b = or_panic (if ltb (a + b) (2 ^ 64) then some (a + b) else none)

unfoldable pub is_dll : Text → Bool
unfolding ends_with
is_dll path = ends_with (codes ".dll") (to_ascii_lowercase path)

check_size : PreparedFile → Outcome (Unit {0})
unfolding is_dll
check_size file = do
  ensure (not (ltb (64 * mebibyte) file.size_bytes))
      (file.path ++ codes " exceeds the runtime's 64 MiB file limit. Ask the author to reduce it.")
  ensure (not (is_dll file.path && ltb (16 * mebibyte) file.size_bytes)) (
      file.path
      ++ codes " exceeds the runtime's 16 MiB managed assembly limit. Ask the author to split it.")

check_count : (count : ℕ) → Outcome (Unit {0})
unfolding show_u64
check_count count = ensure (not (count == 0 || ltb max_files_per_mod count)) (
    codes "This package contains "
    ++ show_u64 count
    ++ codes " runtime files; supported packages contain 1"
    ++ en_dash
    ++ codes "1,024. Ask the author to split or reduce the package.")

check_total : (total : ℕ) → Outcome (Unit {0})
check_total total = ensure (not (ltb (256 * mebibyte) total)) (
    codes
      "This package exceeds the runtime's 256 MiB activation limit. Ask the author to split or reduce it.")

-- The loop of `supported_files` with the sum so far.
unfoldable pub sum_sizes : (total : ℕ) → List PreparedFile → Outcome ℕ
unfolding add_u64 check_size
sum_sizes total [] = ok total
sum_sizes total (file ∷ files) = do
  check_size file
  sum ← add_u64 total file.size_bytes
  sum_sizes sum files

unfoldable pub supported_files : List PreparedFile → Outcome (Unit {0})
unfolding sum_sizes check_count check_total
supported_files files = do check_count (length files); total ← sum_sizes 0 files; check_total total
