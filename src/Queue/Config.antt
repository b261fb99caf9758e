-- ===== src/Queue/Config.antt =====
-- `QueueConfig` of dog-queue/src/adapter.rs: the settings of an adapter and of its workers, with
-- their validation. Durations are nanoseconds.
use dogrs.Base.{ℕ, ◌≤◌, ◌<◌, ◌≡◌, ◌↔◌, Bool, not, Option, none, arith, eqb, leb, ltb}
use dogrs.Queue.Error.{ConfigCheck, QueueError, QueueResult, ok, ensure, ◌>>◌}

pub record QueueConfig : Type 0 where
  pub max_workers : ℕ
  pub worker_idle_timeout : ℕ
  pub lease_duration : ℕ
  pub heartbeat_interval : ℕ
  pub max_retry_backoff : ℕ
  pub base_retry_backoff : ℕ
  pub poll_interval : ℕ
  pub poll_jitter : ℕ
  pub error_backoff : ℕ
  pub execute_timeout : Option ℕ
  pub max_payload_size : Option ℕ

abbrev pub default_config : QueueConfig
default_config = record {
  max_workers = 10;
  worker_idle_timeout = 60_000_000_000;
  lease_duration = 300_000_000_000;
  heartbeat_interval = 30_000_000_000;
  max_retry_backoff = 3_600_000_000_000;
  base_retry_backoff = 1_000_000_000;
  poll_interval = 100_000_000;
  poll_jitter = 10_000_000;
  error_backoff = 1_000_000_000;
  execute_timeout = none;
  max_payload_size = none;
}

-- `if condition { return Err(InvalidConfig(..)) }`.
abbrev reject_if : Bool → ConfigCheck → QueueResult (Unit {0})
reject_if condition check = ensure (not condition) (QueueError.invalid_config check)

unfoldable pub validate : QueueConfig → QueueResult (Unit {0})
validate c = do
  reject_if (eqb c.max_workers 0) ConfigCheck.max_workers
  reject_if (ltb c.max_retry_backoff c.base_retry_backoff) ConfigCheck.base_retry_backoff
  reject_if (leb c.lease_duration c.heartbeat_interval) ConfigCheck.heartbeat_interval
  reject_if (eqb c.poll_interval 0) ConfigCheck.poll_interval
  reject_if (eqb c.error_backoff 0) ConfigCheck.error_backoff
  reject_if (ltb c.poll_interval c.poll_jitter) ConfigCheck.poll_jitter
  ok tt

-- The conditions that the documentation of `validate` names.
abbrev pub IsValid : QueueConfig → Type 0
IsValid c =
    (1 ≤ c.max_workers)
    × (c.base_retry_backoff ≤ c.max_retry_backoff)
    × (c.heartbeat_interval < c.lease_duration)
    × (0 < c.poll_interval)
    × (0 < c.error_backoff)
    × (c.poll_jitter ≤ c.poll_interval)

-- `validate` accepts exactly the configurations that meet all six documented conditions.
pub validate_iff : (c : QueueConfig) → (validate c ≡ ok tt) ↔ IsValid c
unfolding validate
validate_iff c = ground arith
