-- ===== src/Launch.antt =====
-- The launch of the game: the types of src-tauri/src/launch.rs and src-tauri/src/game.rs, and the
-- session of src-tauri/src/game_service/session.rs. An `Instant` is a number of nanoseconds.
pub mod Session
use starframe.Prelude.{List, [], Text, codes}

pub data Phase : Type 0 where
  setup_required ready preparing launch_requested process_observed runtime_ready runtime_failed
        failed :
      Phase

pub data Running : Type 0 where
  unknown running stopped : Running

pub record LaunchView : Type 0 where
  pub phase : Phase
  pub message : Text
  pub details : List Text

-- `LaunchView::new(phase, message)`
unfoldable pub new : Phase → Text → LaunchView
new phase message = record { phase = phase; message = message; details = [] }

-- `LaunchView::default()`
unfoldable pub default : LaunchView
unfolding new
default = new setup_required (codes "Choose a game installation to finish setup.")
