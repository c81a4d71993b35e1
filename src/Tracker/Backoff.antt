-- ===== src/Tracker/Backoff.antt =====
-- `RetryState` of daemon/src/chain/transfer_tracker.rs: the delay before the next attempt, which
-- doubles up to a minute, and the rate of the warnings. Durations and instants are in seconds.
pub mod Outage
use kalatori.Common.{
  ℕ, ◌+◌, ◌-◌, ◌*◌, ◌^◌, min, Bool, true, Option, none, some, leb, if◌then◌else◌, unwrap_or, List,
  [], ◌∷◌,
}

abbrev pub initial_retry_delay : ℕ
initial_retry_delay = 1

abbrev pub max_retry_delay : ℕ
max_retry_delay = 60

abbrev pub degraded_warning_interval : ℕ
degraded_warning_interval = 60

abbrev u64_max : ℕ
u64_max = 18446744073709551615

pub record RetryState : Type 0 where
  pub delay : ℕ
  pub degraded_since : Option ℕ
  pub last_warning : Option ℕ
  pub attempts : ℕ

-- `RetryState::new`
unfoldable pub new : RetryState
new = record {
  delay = initial_retry_delay;
  degraded_since = none;
  last_warning = none;
  attempts = 0;
}

-- `is_none_or`; `duration_since` of an earlier instant is zero, as `-` on ℕ is.
abbrev should_warn : ℕ → Option ℕ → Bool
should_warn now none = true
should_warn now (some last) = leb degraded_warning_interval (now - last)

-- The delay to wait, whether a warning is written, and the new state.
unfoldable pub record_failure_at : ℕ → RetryState → ℕ × Bool × RetryState
record_failure_at now s = (
  s.delay,
  should_warn now s.last_warning,
  record {
    delay = min (s.delay * 2) max_retry_delay;
    degraded_since = some (unwrap_or s.degraded_since now);
    last_warning = if should_warn now s.last_warning then some now else s.last_warning;
    attempts = min (s.attempts + 1) u64_max;
  },
)

unfoldable pub record_health_at : ℕ → RetryState → RetryState
unfolding new
record_health_at now s = elim s.degraded_since [
  | none ↦ s
  | some since ↦ record s {
    delay = initial_retry_delay;
    degraded_since = none;
    last_warning = none;
    attempts = 0;
  }
]

-- An outage: failures at the given instants, one after another, with the delays waited.
unfoldable pub record_failures : List ℕ → RetryState → List ℕ × RetryState
record_failures [] s = ([], s)
record_failures (now ∷ times) s =
    let (delay, _, s') = record_failure_at now s in
    let (delays, t) = record_failures times s' in (delay ∷ delays, t)

-- The delay before the attempt after n failures in a row.
abbrev pub delay_after : ℕ → ℕ
delay_after n = min (2 ^ n) 60
