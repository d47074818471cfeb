-- ===== src/Registry/Readers.antt =====
-- The readers of single values in src-tauri/src/registry/wire.rs, and the session of the website. An
-- `ApiVersion` and an `Approved` carry nothing. `none` is the error of a reader.
use starframe.Prelude.{
  ℕ, Bool, Option, none, some, List, Text, codes, text_eq, leb, ltb, ◌==◌, if◌then◌else◌,
}
use starframe.Registry.Identity.{max_safe_integer}
use starframe.Registry.Listing.{Profile}

pub safe_u64 : ℕ → Option ℕ
safe_u64 n = if leb n max_safe_integer then some n else none

pub positive_u64 : ℕ → Option ℕ
unfolding safe_u64
positive_u64 n = elim (safe_u64 n) [ none ↦ none | some m ↦ if ltb 0 m then some m else none ]

-- `ApiVersion::try_from(u8)`
pub api_version_try_from : ℕ → Option (Unit {0})
api_version_try_from n = if n == 1 then some tt else none

-- `Approved::try_from(String)`
pub approved_try_from : Text → Option (Unit {0})
approved_try_from state = if text_eq state (codes "approved") then some tt else none

pub data SessionContext : Type 0 where
  website manager : SessionContext

pub data Capability : Type 0 where
  create_mod submit_release edit_mod download_mod comment like report : Capability

pub record Session : Type 0 where
  pub account_id : ℕ
  pub profile : Profile
  pub context : SessionContext
  pub authenticated_at : Text
  pub expires_at : Text
  pub capabilities : List Capability
  pub is_owner : Bool
