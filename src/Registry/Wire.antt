-- ===== src/Registry/Wire.antt =====
-- The data of the website's wire format: src-tauri/src/registry/wire.rs. A time is the text that the
-- website sends; an `Approved` carries nothing.
use starframe.Prelude.{ℕ, Bool, Option, List, Text}
use starframe.Registry.Installation.{Installation}

pub data Dependency : Type 0 where
  exact : (mod_id release_id : ℕ) → Dependency
  range : (mod_id : ℕ) → (minimum before : Option Text) → (include_prerelease : Bool) → Dependency

pub data Availability : Type 0 where
  available withdrawn hidden pruned blocked : Availability

pub data SecurityStatus : Type 0 where
  not_blocked blocked : SecurityStatus

pub record Artifact : Type 0 where
  pub sha256 : Text
  pub bytes : ℕ

pub record Security : Type 0 where
  pub status : SecurityStatus
  pub revision : ℕ
  pub reason : Option Text

pub data DependencyProblemCode : Type 0 where
  no_matching_release archive_unavailable security_blocked : DependencyProblemCode

pub record DependencyProblem : Type 0 where
  pub dependency : Dependency
  pub code : DependencyProblemCode

pub record Metadata : Type 0 where
  pub revision : ℕ
  pub tested_game_build : Text
  pub source_repository : Option Text
  pub release_notes : Text
  pub dependencies : List Dependency
  pub dependency_problems : List DependencyProblem
  pub installation : Option Installation

pub record Release : Type 0 where
  pub mod_id : ℕ
  pub release_id : ℕ
  pub version_label : Text
  pub artifact : Artifact
  pub publication_order : ℕ
  pub published_at : Text
  pub created_at : Text
  pub availability : Availability
  pub security : Security
  pub metadata : Metadata

pub record Tombstone : Type 0 where
  pub mod_id : ℕ
  pub release_id : ℕ
  pub sha256 : Text
  pub availability : Availability
  pub security_revision : ℕ
  pub updated_at : Text

pub data ReleaseResult : Type 0 where
  release : Release → ReleaseResult
  tombstone : Tombstone → ReleaseResult
