-- ===== src/Contract/Activation/Files.antt =====
-- The files of a mod that `activation` of src-tauri/src/runtime_contract.rs accepts.
use starframe.Prelude.{
  ℕ, suc, ◌+◌, ◌≤◌, ◌≡◌, ap, subst, true, false, List, [], ◌∷◌, Text, codes, any, all, length,
  is_ascii_digit, within, ◌||◌, ==_iff, leb→le, and_left, and_right, not-true, arith,
}
use starframe.Prelude.Outcome.{ok, >>=-eq-ok, >>-eq-ok, ensure->>-eq-ok, ok_inj}
use starframe.Json.{JsonLibrary, Json, at}
use starframe.Paths.{require}
use starframe.Contract.Document.{overlaps, text, path}
use starframe.Contract.Content.{hex_byte, hash_text, accept_files}

-- The count of the files so far and of those that follow.
step_count : (total rest last : ℕ) → last ≡ suc total + rest → last ≡ total + suc rest
step_count total rest last h = omega (arith, h)

-- 64 hexadecimal digits, the letters in lower case.
abbrev pub IsHash : Text → Type 0
IsHash hash = (length hash ≡ 64) × (all (λ c. is_ascii_digit c || within b'a' b'f' c) hash ≡ true)

hash_text-IsHash : (hash : Text) → hash_text hash ≡ true → IsHash hash
unfolding hash_text hex_byte
hash_text-IsHash hash h = ((==_iff (length hash) 64).0 (and_left _ _ h), and_right _ _ h)

module _ (json : JsonLibrary) where
  -- Files with a path that overlaps none of the paths so far, and a SHA-256.
  abbrev pub AreFiles : List Text → List (Json json) → Type 0
  AreFiles paths [] = Unit
  AreFiles paths (file ∷ files) =
      (place hash : Text) × (path json (at file (codes "path")) ≡ ok place)
      × (any (overlaps place) paths ≡ false)
      × (text json (at file (codes "sha256")) 64 false ≡ ok hash)
      × IsHash hash
      × AreFiles (place ∷ paths) files

  pub accept_files-AreFiles :
      (paths : List Text) (total : ℕ) (files : List (Json json)) {result : List Text × ℕ}
      → total ≤ 8192
      → accept_files json paths total files ≡ ok result
      → AreFiles paths files × (result.1 ≡ total + length files) × (result.1 ≤ 8192)
  unfolding accept_files require
  accept_files-AreFiles paths total [] {result = result} l h =
      let e = ap (λ r. r.1) (ok_inj (paths, total) result h) in
      (tt, omega (arith, e), subst (λ n. n ≤ 8192) e l)
  accept_files-AreFiles paths total (file ∷ files) l h =
      let named = >>-eq-ok _ _ h in
      let place = >>=-eq-ok (path json (at file (codes "path"))) _ named.2 in
      let free = ensure->>-eq-ok _ _ _ place.2 in
      let hash = >>=-eq-ok (text json (at file (codes "sha256")) 64 false) _ free.1 in
      let tested = ensure->>-eq-ok _ _ _ hash.2 in
      let counted = ensure->>-eq-ok _ _ _ tested.1 in
      let rest =
        accept_files-AreFiles (place.0 ∷ paths) (suc total) files (leb→le _ _ counted.0)
          counted.1 in
      (
        (
          place.0,
          hash.0,
          place.1,
          not-true _ free.0,
          hash.1,
          hash_text-IsHash hash.0 tested.0,
          rest.0,
        ),
        step_count total (length files) _ rest.1,
        rest.2,
      )
