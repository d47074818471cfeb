-- ===== src/Updates/Schedule.antt =====
-- `Schedule` of updates.rs: when the next check for updates may run. Times are seconds in a `u64`,
-- and `failures` is a `u32`.
pub mod Backoff
use starframe.Prelude.{
  ℕ, ◌+◌, ◌-◌, ◌*◌, ◌^◌, Bool, true, false, not, ◌&&◌, ◌||◌, Option, none, some, ltb, leb,
  if◌then◌else◌,
}

pub record Schedule : Type 0 where
  pub next : ℕ
  pub in_flight : Bool
  pub failures : ℕ
  pub retry_after : ℕ

abbrev pub interval : ℕ
interval = 300

abbrev pub u64_max : ℕ
u64_max = 2 ^ 64 - 1

abbrev pub u32_max : ℕ
u32_max = 2 ^ 32 - 1

abbrev pub min : ℕ → ℕ → ℕ
min a b = if leb a b then a else b

abbrev pub max : ℕ → ℕ → ℕ
max a b = if leb a b then b else a

abbrev pub start_of : Schedule
start_of = record { next = 0; in_flight = false; failures = 0; retry_after = 0 }

unfoldable pub retry_allowed : Schedule → ℕ → Bool
retry_allowed s now = leb s.retry_after now

-- The new state, and whether a check begins.
unfoldable pub start : Schedule → (now : ℕ) → (manual ready stopped : Bool) → Schedule × Bool
start s now manual ready stopped =
    if stopped
      || not ready
      || s.in_flight
      || ltb now s.retry_after
      || (not manual && ltb now s.next)
    then (s, false)
    else (record s { in_flight = true }, true)

-- `1u64 << failures.saturating_sub(1).min(4)`
abbrev pub backoff : ℕ → ℕ
backoff failures = 2 ^ min (failures - 1) 4

abbrev pub saturating_add : ℕ → ℕ → ℕ
saturating_add a b = min (a + b) u64_max

abbrev pub unwrap_or_zero : Option ℕ → ℕ
unwrap_or_zero none = 0
unwrap_or_zero (some time) = time

-- Of `complete`: the number of failures in a row, and the delay before the next check.
unfoldable pub failures_after : Schedule → Bool → ℕ
failures_after s success = if success then 0 else min (s.failures + 1) u32_max

unfoldable pub delay_after : Bool → ℕ → ℕ
delay_after success failures = if success then interval else interval * backoff failures

unfoldable pub complete :
    Schedule → (now : ℕ) → (success : Bool) → (retry_after : Option ℕ) → Schedule
unfolding failures_after delay_after
complete s now success retry_after =
    let failures = failures_after s success in
    let delay = delay_after success failures in
    let retry =
      max (unwrap_or_zero retry_after) (if success then 0 else saturating_add now delay) in
    record {
      next = max (saturating_add now delay) retry;
      in_flight = false;
      failures = failures;
      retry_after = retry;
    }
