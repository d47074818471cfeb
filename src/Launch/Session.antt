-- ===== src/Launch/Session.antt =====
-- `Session` of src-tauri/src/game_service/session.rs. What is prepared is a parameter.
pub mod Launching
use starframe.Prelude.{
  ℕ, ◌-◌, ◌*◌, Bool, true, false, Option, none, some, List, [], ◌∷◌, Text, codes, leb, ◌&&◌,
  if◌then◌else◌,
}
use starframe.Launch.{
  Phase, ready, setup_required, process_observed, failed, Running, unknown, running, stopped,
  LaunchView, new,
}

abbrev pub second : ℕ
second = 1000000000

pub record Session (Prepared : Type 0) : Type 0 where
  pub prepared : Option Prepared
  pub requested : Option ℕ
  pub wait : Option ℕ
  pub seen : Bool

is_process_observed : Phase → Bool
is_process_observed process_observed = true
is_process_observed _ = false

-- `*self.wait.get_or_insert(now)`
get_or_insert : Option ℕ → ℕ → ℕ
get_or_insert none now = now
get_or_insert (some since) now = since

abbrev no_result : Text
no_result =
    codes
      "No matching runtime result was confirmed within 60 seconds. Check the game's BepInEx log after it closes."

-- The view of a process that has been observed since a time.
observed_view : LaunchView → (since now : ℕ) → LaunchView
unfolding is_process_observed
observed_view view since now =
    if leb (60 * second) (now - since) && is_process_observed view.phase
    then record { phase = view.phase; message = view.message; details = no_result ∷ [] }
    else view

unfoldable pub closed_view : {Prepared : Type 0} → Option Prepared → LaunchView
unfolding new
closed_view none = new setup_required (codes "Game closed. Finish setup to enable the runtime.")
closed_view (some prepared) = new ready (codes "Game closed. Ready to prepare the next launch.")

-- `time` is at least thirty seconds past.
unfoldable pub overdue : Option ℕ → (now : ℕ) → Bool
overdue none now = false
overdue (some time) now = leb (30 * second) (now - time)

unfoldable pub unobserved_view : LaunchView
unfolding new
unobserved_view = new failed (
    codes
      "Windows accepted the launch request, but no game process was observed within 30 seconds. Retry setup before launching again.")

module _ {Prepared : Type 0} where
  -- `Session::default()`
  abbrev pub fresh : Session Prepared
  fresh = record { prepared = none; requested = none; wait = none; seen = false }

  unfoldable pub reset : Session Prepared → Session Prepared
  reset s = record { prepared = s.prepared; requested = none; wait = none; seen = false }

  -- The branch of a process that is observed.
  seen_now : Session Prepared → LaunchView → (now : ℕ) → Session Prepared × LaunchView
  unfolding get_or_insert observed_view
  seen_now s observed now =
      let since = get_or_insert s.wait now in
      (
        record { prepared = s.prepared; requested = s.requested; wait = some since; seen = true },
        observed_view observed since now,
      )

  -- The branch of a game that is known to be stopped.
  stopped_now : Session Prepared → LaunchView → (now : ℕ) → Session Prepared × LaunchView
  unfolding closed_view overdue unobserved_view
  stopped_now s view now =
      if s.seen
      then (
        record { prepared = s.prepared; requested = none; wait = none; seen = false },
        closed_view s.prepared,
      )
      else if overdue s.requested now
      then (
        record { prepared = s.prepared; requested = none; wait = none; seen = s.seen },
        unobserved_view,
      )
      else (
        record { prepared = s.prepared; requested = s.requested; wait = none; seen = s.seen },
        view,
      )

  -- `session.observe(view, running, observed, now)`: the session and the view afterwards.
  unfoldable pub observe :
      Session Prepared
      → LaunchView
      → Running
      → (observed : Option LaunchView) → (now : ℕ) → Session Prepared × LaunchView
  unfolding seen_now stopped_now
  observe s view status (some observed) now = seen_now s observed now
  observe s view stopped none now = stopped_now s view now
  observe s view unknown none now = (s, view)
  observe s view running none now = (s, view)
