-- ===== src/Updates/Schedule/Backoff.antt =====
-- The delays of `Schedule` in updates.rs.
use starframe.Prelude.{
  ℕ, zero, suc, ◌+◌, ◌-◌, ◌*◌, ◌^◌, ◌≤◌, ◌<◌, ◌≡◌, ◌⊎◌, Bool, true, false, Option, none, arith,
}
use starframe.Updates.Schedule.{
  Schedule, interval, u64_max, u32_max, min, start, unwrap_or_zero, failures_after, delay_after,
  complete,
}

backoff_small : (n : ℕ) → n ≤ 4 → (1 ≤ 2 ^ n) × (2 ^ n ≤ 16)
backoff_small zero h = omega arith
backoff_small (suc zero) h = omega arith
backoff_small (suc (suc zero)) h = omega arith
backoff_small (suc (suc (suc zero))) h = omega arith
backoff_small (suc (suc (suc (suc zero)))) h = omega arith
backoff_small (suc (suc (suc (suc (suc n))))) h = absurd (omega arith)

min-le_right : (a b : ℕ) → min a b ≤ b
min-le_right a b = ground arith

-- The delay is between five minutes and eighty.
pub delay_after_bounds :
    (success : Bool) (failures : ℕ)
    → (300 ≤ delay_after success failures) × (delay_after success failures ≤ 4800)
unfolding delay_after
delay_after_bounds true failures = omega arith
delay_after_bounds false failures =
    omega (arith, backoff_small (min (failures - 1) 4) (min-le_right (failures - 1) 4))

-- After a check that ended at `now`, far enough from the largest 64-bit time, `start` refuses and
-- leaves the state as it is: any check before the time that the server named, and an automatic
-- check before five minutes have passed.
pub complete_waits :
    (s : Schedule) (now later : ℕ) (success : Bool) (retry : Option ℕ) (manual ready stopped : Bool)
    → now + 4800 ≤ u64_max
    → (later < unwrap_or_zero retry) ⊎ ((manual ≡ false) × (later < now + 300))
    → start (complete s now success retry) later manual ready stopped
      ≡ (complete s now success retry, false)
unfolding start complete
complete_waits s now later success retry manual ready stopped h early =
    ground (arith, delay_after_bounds success (failures_after s success))

-- A check that is ready and not stopped begins once eighty minutes have passed since the last
-- check ended, if the time that the server named has been reached.
pub complete_resumes :
    (s : Schedule) (now later : ℕ) (success : Bool) (retry : Option ℕ) (manual : Bool)
    → now + 4800 ≤ later
    → unwrap_or_zero retry ≤ later
    → (start (complete s now success retry) later manual true false).1 ≡ true
unfolding start complete
complete_resumes s now later success retry manual h r =
    ground (arith, delay_after_bounds success (failures_after s success))

-- The state after `count` failed checks in a row.
pub fail_times : ℕ → ℕ → Schedule → Schedule
fail_times zero now s = s
fail_times (suc count) now s = complete (fail_times count now s) now false none

fail_times-failures :
    (count now : ℕ) (s : Schedule)
    → s.failures ≡ 0
    → count ≤ u32_max
    → (fail_times count now s).failures ≡ count
unfolding fail_times complete failures_after
fail_times-failures zero now s z h = z
fail_times-failures (suc count) now s z h =
    ground (arith, fail_times-failures count now s z (omega arith))

-- After count + 1 failed checks in a row at the time `now`, from a state without failures, no
-- check begins, not even by hand, before `now` + 300 * 2^min(count, 4) seconds. The count is
-- below 2^32 - 1, and the times do not overflow 64 bits.
pub failures_back_off :
    (count now later : ℕ) (s : Schedule) (manual ready stopped : Bool)
    → s.failures ≡ 0
    → count < u32_max
    → now + 4800 ≤ u64_max
    → later < now + interval * 2 ^ min count 4
    → (start (fail_times (suc count) now s) later manual ready stopped).1 ≡ false
unfolding fail_times start complete failures_after delay_after
failures_back_off count now later s manual ready stopped z c h early = ground (
  arith,
  fail_times-failures count now s z (omega arith),
  backoff_small (min count 4) (min-le_right count 4),
)
