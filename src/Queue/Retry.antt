-- ===== src/Queue/Retry.antt =====
-- The delays of dog-queue/src/adapter.rs: when a failed job runs again, and how long a worker
-- sleeps between polls and after an error of the backend. Durations and times are nanoseconds.
-- The random samples (`rand::random_range`) and chrono's addition of seconds to a time are parameters.
pub mod Bounds
use dogrs.Base.{ℕ, ◌+◌, ◌-◌, ◌*◌, ◌/◌, ◌%◌, ◌^◌, min, if◌then◌else◌, eqb, ltb, Bool}
use dogrs.Queue.Config.{QueueConfig}

-- `Duration::as_secs`.
unfoldable pub as_secs : ℕ → ℕ
as_secs d = d / 1_000_000_000

-- `u64::pow` in a release build, and `u64::saturating_mul`.
unfoldable pub pow : ℕ → ℕ → ℕ
pow base exponent = base ^ exponent % 2 ^ 64

unfoldable pub saturating_mul : ℕ → ℕ → ℕ
saturating_mul a b = min (a * b) (2 ^ 64 - 1)

-- The largest number of seconds that `calculate_retry_time` may sample.
unfoldable pub ceiling : QueueConfig → ℕ → ℕ
ceiling c attempt =
    min (saturating_mul (as_secs c.base_retry_backoff) (pow 2 (attempt - 1)))
      (as_secs c.max_retry_backoff)

module _ (sample : ℕ → ℕ) (add_seconds : ℕ → ℕ → ℕ) where
  -- `sample n` is drawn from 0 to `n`.
  unfoldable pub calculate_retry_time : QueueConfig → ℕ → ℕ → ℕ
  calculate_retry_time c attempt now =
      let top = ceiling c attempt in
      let jitter_secs = if ltb 0 top then sample top else 0 in add_seconds now jitter_secs

-- The sleep before the next poll, with its jitter in nanoseconds.
unfoldable pub poll_delay : (ℕ → ℕ) → QueueConfig → ℕ
poll_delay sample c =
    let jitter_nanos = if eqb c.poll_jitter 0 then 0 else sample (c.poll_jitter % 2 ^ 64) in
    c.poll_interval + jitter_nanos

-- `Duration::MAX`.
abbrev pub max_duration : ℕ
max_duration = 18_446_744_073_709_551_615_999_999_999

-- Thirty seconds.
abbrev pub backoff_cap : ℕ
backoff_cap = 30_000_000_000

-- The sleep after so many errors of the backend in a row. `2u32.saturating_pow` is exact here,
-- since the exponent is at most 5.
unfoldable pub backoff : QueueConfig → ℕ → ℕ
backoff c consecutive_errors =
    let exponent = min (consecutive_errors - 1) 5 in
    min (min (c.error_backoff * 2 ^ exponent) max_duration) backoff_cap
