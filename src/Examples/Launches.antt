-- ===== src/Examples/Launches.antt =====
-- Sessions of the game.
use starframe.Prelude.{
  ◌-◌, ◌≤◌, ◌<◌, arith, ℕ, ◌*◌, ◌≡◌, ◌≢◌, refl, false, none, some, [], ◌∷◌, codes, inl, inr,
}
use starframe.Launch.{process_observed, launch_requested, unknown, running, stopped, LaunchView}
use starframe.Launch.Session.{Session, second, observe, closed_view, unobserved_view}
use starframe.Launch.Session.Launching.{Observation, observe_all, launch_times_out, game_closes}

abbrev asked : Session ℕ
asked = record { prepared = some 4; requested = some 0; wait = none; seen = false }

abbrev waiting : LaunchView
waiting = record { phase = launch_requested; message = codes "Waiting"; details = [] }

abbrev playing : LaunchView
playing = record { phase = process_observed; message = codes "Running"; details = [] }

abbrev unsure : Observation
unsure = record { status = unknown; observed = none; now = 99 * second }

abbrev early : Observation
early = record { status = stopped; observed = none; now = 29 * second }

unknown_open : unknown ≢ stopped
unknown_open e = cc

early_enough : 29 * second - 0 < 30 * second
early_enough = omega arith

late_enough : 30 * second ≤ 100 * second - 0
late_enough = omega arith

launch_times_out_example :
    let waited = observe_all (asked, waiting) (early ∷ unsure ∷ []) in
    observe waited.0 waited.1 stopped none (100 * second)
    ≡ (record { prepared = some 4; requested = none; wait = none; seen = false }, unobserved_view)
launch_times_out_example =
    launch_times_out (some 4) 0 asked waiting (early ∷ unsure ∷ []) (100 * second)
      (refl, refl, refl) ((refl, inr early_enough), ((refl, inl unknown_open), tt)) late_enough

game_closes_example :
    let played = observe_all (observe asked waiting running (some playing) 5) (unsure ∷ []) in
    observe played.0 played.1 stopped none (200 * second) ≡ (
      record { prepared = some 4; requested = none; wait = none; seen = false },
      closed_view {Prepared = ℕ} (some 4),
    )
game_closes_example =
    game_closes asked waiting playing running 5 (unsure ∷ []) (200 * second) (inr unknown_open, tt)
