-- ===== src/Launch/Session/Launching.antt =====
-- Launches that are requested and observed, or not, in src-tauri/src/game_service/session.rs.
use starframe.Prelude.{
  ◌-◌, ◌*◌, ◌≤◌, ◌<◌, arith, ℕ, ◌≡◌, ◌≢◌, ◌⊎◌, refl, sym, ap, subst, ◌∙◌, true, false, Option, none,
  some, List, [], ◌∷◌, All, inl, inr,
}
use starframe.Launch.{Running, unknown, running, stopped, LaunchView}
use starframe.Launch.Session.{
  Session, second, overdue, observe, stopped_now, seen_now, closed_view, unobserved_view,
}

-- What one call of `observe` is told.
pub record Observation : Type 0 where
  pub status : Running
  pub observed : Option LaunchView
  pub now : ℕ

-- Nothing is observed, and the game is not known to be stopped or thirty seconds have not passed.
abbrev pub IsQuiet : ℕ → Observation → Type 0
IsQuiet time o = (o.observed ≡ none) × ((o.status ≢ stopped) ⊎ (o.now - time < 30 * second))

is_overdue : (time now : ℕ) → 30 * second ≤ now - time → overdue (some time) now ≡ true
unfolding overdue
is_overdue time now h = ground (arith, h)

not_overdue : (time now : ℕ) → now - time < 30 * second → overdue (some time) now ≡ false
unfolding overdue
not_overdue time now h = ground (arith, h)

-- A process is observed, or the game is not known to be stopped.
abbrev pub IsOpen : Observation → Type 0
IsOpen o = ((view : LaunchView) × (o.observed ≡ some view)) ⊎ (o.status ≢ stopped)

module _ {Prepared : Type 0} where
  -- The observations one after another.
  unfoldable pub observe_all :
      Session Prepared × LaunchView → List Observation → Session Prepared × LaunchView
  unfolding observe
  observe_all s [] = s
  observe_all s (o ∷ os) = observe_all (observe s.0 s.1 o.status o.observed o.now) os

  -- A session that waits for the process of a launch.
  abbrev pub IsWaiting : Option Prepared → ℕ → Session Prepared → Type 0
  IsWaiting prepared time s = (s.prepared ≡ prepared) × (s.requested ≡ some time) × (s.seen ≡ false)

  stopped_early :
      (s : Session Prepared) (view : LaunchView) (now : ℕ)
      → s.seen ≡ false
      → overdue s.requested now ≡ false
      → stopped_now s view now ≡ (
        record { prepared = s.prepared; requested = s.requested; wait = none; seen = s.seen },
        view,
      )
  unfolding stopped_now
  stopped_early s view now h k = rw (h, k) refl

  stopped_late :
      (s : Session Prepared) (view : LaunchView) (now : ℕ)
      → s.seen ≡ false
      → overdue s.requested now ≡ true
      → stopped_now s view now ≡ (
        record { prepared = s.prepared; requested = none; wait = none; seen = false },
        unobserved_view,
      )
  unfolding stopped_now
  stopped_late s view now h k = rw (h, k) refl

  stopped_seen :
      (s : Session Prepared) (view : LaunchView) (now : ℕ)
      → s.seen ≡ true
      → stopped_now s view now ≡ (
        record { prepared = s.prepared; requested = none; wait = none; seen = false },
        closed_view s.prepared,
      )
  unfolding stopped_now
  stopped_seen s view now h = rw h refl

  quiet_step :
      (prepared : Option Prepared) (time : ℕ) (s : Session Prepared) (view : LaunchView)
      (status : Running) (observed : Option LaunchView) (now : ℕ)
      → IsWaiting prepared time s
      → observed ≡ none
      → (status ≢ stopped) ⊎ (now - time < 30 * second)
      → IsWaiting prepared time (observe s view status observed now).0
  unfolding observe
  quiet_step prepared time s view status (some v) now w e q = cc
  quiet_step prepared time s view unknown none now w e q = w
  quiet_step prepared time s view running none now w e q = w
  quiet_step prepared time s view stopped none now w e (inl n) = absurd (n refl)
  quiet_step prepared time s view stopped none now w e (inr early) =
      let same = subst (λ r. overdue r now ≡ false) (sym w.1) (not_overdue time now early) in
      rw (stopped_early s view now w.2 same) w

  quiet-IsWaiting :
      (prepared : Option Prepared) (time : ℕ) (s : Session Prepared × LaunchView)
      (os : List Observation)
      → IsWaiting prepared time s.0
      → All (IsQuiet time) os
      → IsWaiting prepared time (observe_all s os).0
  unfolding observe_all
  quiet-IsWaiting prepared time s [] w q = w
  quiet-IsWaiting prepared time s (o ∷ os) w q =
      quiet-IsWaiting prepared time (observe s.0 s.1 o.status o.observed o.now) os
        (quiet_step prepared time s.0 s.1 o.status o.observed o.now w q.0.0 q.0.1) q.1

  -- If a session waits for the process of a launch that was requested at some time, and then no
  -- observation finds a process, and each that finds the game stopped comes less than thirty
  -- seconds after the request, then the first that finds the game stopped at least thirty seconds
  -- after it gives the launch up: the request is dropped, what is prepared is kept, and the view
  -- says that no process was observed.
  pub launch_times_out :
      (prepared : Option Prepared) (time : ℕ) (s : Session Prepared) (view : LaunchView)
      (os : List Observation) (now : ℕ)
      → IsWaiting prepared time s
      → All (IsQuiet time) os
      → 30 * second ≤ now - time
      → let waited = observe_all (s, view) os in
        observe waited.0 waited.1 stopped none now ≡ (
          record { prepared = prepared; requested = none; wait = none; seen = false },
          unobserved_view,
        )
  unfolding observe
  launch_times_out prepared time s view os now w q late =
      let waited = observe_all (s, view) os in
      let h = quiet-IsWaiting prepared time (s, view) os w q in
      stopped_late waited.0 waited.1 now h.2
        (subst (λ r. overdue r now ≡ true) (sym h.1) (is_overdue time now late))
      ∙ ap
          (λ p.
            (record { prepared = p; requested = none; wait = none; seen = false }, unobserved_view))
          h.0

  open_step :
      (prepared : Option Prepared) (s : Session Prepared) (view : LaunchView) (status : Running)
      (observed : Option LaunchView) (now : ℕ)
      → (s.prepared ≡ prepared) × (s.seen ≡ true)
      → ((v : LaunchView) × (observed ≡ some v)) ⊎ (status ≢ stopped)
      → let next = (observe s view status observed now).0 in
        (next.prepared ≡ prepared) × (next.seen ≡ true)
  unfolding observe seen_now
  open_step prepared s view status (some v) now h o = (h.0, refl)
  open_step prepared s view unknown none now h o = h
  open_step prepared s view running none now h o = h
  open_step prepared s view stopped none now h (inl seen) = cc
  open_step prepared s view stopped none now h (inr n) = absurd (n refl)

  open_all :
      (prepared : Option Prepared) (s : Session Prepared × LaunchView) (os : List Observation)
      → (s.0.prepared ≡ prepared) × (s.0.seen ≡ true)
      → All IsOpen os
      → let last = (observe_all s os).0 in (last.prepared ≡ prepared) × (last.seen ≡ true)
  unfolding observe_all
  open_all prepared s [] h o = h
  open_all prepared s (first ∷ os) h o =
      open_all prepared (observe s.0 s.1 first.status first.observed first.now) os
        (open_step prepared s.0 s.1 first.status first.observed first.now h o.0) o.1

  -- Once a process has been observed, and until an observation finds the game stopped without
  -- one, the first that does resets the session and shows the view of a closed game, for what was
  -- prepared when the process was observed.
  pub game_closes :
      (s : Session Prepared) (view seen_view : LaunchView) (status : Running) (since : ℕ)
      (os : List Observation) (now : ℕ)
      → All IsOpen os
      → let played = observe_all (observe s view status (some seen_view) since) os in
        observe played.0 played.1 stopped none now ≡ (
          record { prepared = s.prepared; requested = none; wait = none; seen = false },
          closed_view s.prepared,
        )
  unfolding observe seen_now
  game_closes s view seen_view status since os now o =
      let played = observe_all (observe s view status (some seen_view) since) os in
      let h =
        open_all s.prepared (observe s view status (some seen_view) since) os (refl, refl) o in
      stopped_seen played.0 played.1 now h.1
      ∙ ap
          (λ p.
            (record { prepared = p; requested = none; wait = none; seen = false }, closed_view p))
          h.0
