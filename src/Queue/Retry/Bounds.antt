-- ===== src/Queue/Retry/Bounds.antt =====
-- Between which bounds the delays stay.
use native.Mathlib.Nat.{pow-le-pow_right, pow-suc, mod-eq_of_lt, mul-le-mul_left}
use dogrs.Base.{
  ℕ, ◌+◌, ◌-◌, ◌*◌, ◌%◌, ◌^◌, ◌≤◌, ◌<◌, ◌≡◌, refl, arith, min, zero, suc, subst, sym, ltb,
  if◌then◌else◌,
}
use dogrs.Queue.Config.{QueueConfig}
use dogrs.Queue.Retry.{
  as_secs, pow, saturating_mul, ceiling, calculate_retry_time, backoff, backoff_cap,
}

ceiling-le : (c : QueueConfig) (attempt : ℕ) → ceiling c attempt ≤ as_secs c.max_retry_backoff
unfolding ceiling
ceiling-le c attempt = omega arith

as_secs-le : (d : ℕ) → as_secs d * 1_000_000_000 ≤ d
unfolding as_secs
as_secs-le d = omega arith

module _ (sample : ℕ → ℕ) (in_range : (n : ℕ) → sample n ≤ n) (add_seconds : ℕ → ℕ → ℕ)
    (c : QueueConfig)
    (exact : (now s : ℕ)
      → s ≤ as_secs c.max_retry_backoff
      → add_seconds now s ≡ now + s * 1_000_000_000) where
  drawn-le : (n : ℕ) → (if ltb 0 n then sample n else 0) ≤ n
  drawn-le n = ground (arith, in_range n)

  -- A failed job runs again no earlier than now, and no later than the largest backoff from now,
  -- if a sample stays in its range and chrono adds so many seconds exactly.
  pub calculate_retry_time-bounds :
      (attempt now : ℕ)
      → (now ≤ calculate_retry_time sample add_seconds c attempt now)
        × (calculate_retry_time sample add_seconds c attempt now ≤ now + c.max_retry_backoff)
  unfolding calculate_retry_time
  calculate_retry_time-bounds attempt now =
      let n = ceiling c attempt in
      let s = if ltb 0 n then sample n else 0 in
      let small : s ≤ as_secs c.max_retry_backoff =
        omega (arith, drawn-le n, ceiling-le c attempt) in
      rw (exact now s small) (omega arith, omega (arith, as_secs-le c.max_retry_backoff, small))

pow_two-lt : (n : ℕ) → n < 64 → 2 ^ n < 2 ^ 64
pow_two-lt n h =
    omega (arith, pow-le-pow_right {n = 2} (omega arith) {i = n} {j = 63} (omega arith))

-- Up to attempt 64 the sample is capped by the base doubled for every earlier attempt, or by the
-- largest backoff, which is a `u64` of seconds.
pub ceiling-exponential :
    (c : QueueConfig) (attempt : ℕ)
    → attempt ≤ 64
    → as_secs c.max_retry_backoff < 2 ^ 64
    → ceiling c attempt
      ≡ min (as_secs c.base_retry_backoff * 2 ^ (attempt - 1)) (as_secs c.max_retry_backoff)
unfolding ceiling saturating_mul pow
ceiling-exponential c attempt h cap =
    let small : 2 ^ (attempt - 1) % 2 ^ 64 ≡ 2 ^ (attempt - 1) =
      mod-eq_of_lt (pow_two-lt (attempt - 1) (omega arith)) in
    rw small (
      saturated (as_secs c.base_retry_backoff * 2 ^ (attempt - 1)) (as_secs c.max_retry_backoff)
        cap)
  where
    saturated : (a b : ℕ) → b < 2 ^ 64 → min (min a (2 ^ 64 - 1)) b ≡ min a b
    saturated a b h = omega arith

-- From attempt 65 on the power is a multiple of two to the 64, so that it wraps to 0.
pub ceiling-overflow : (c : QueueConfig) (attempt : ℕ) → 65 ≤ attempt → ceiling c attempt ≡ 0
unfolding ceiling saturating_mul pow
ceiling-overflow c attempt h =
    let wrapped : 2 ^ (attempt - 1) % 2 ^ 64 ≡ 0 =
      subst (λ n. 2 ^ n % 2 ^ 64 ≡ 0) (omega arith) (multiple (attempt - 65)) in
    rw wrapped (omega arith)
  where
    multiple : (k : ℕ) → 2 ^ (k + 64) % 2 ^ 64 ≡ 0
    multiple zero = refl
    multiple (suc k) =
        let next : 2 ^ suc (k + 64) % 2 ^ 64 ≡ 0 =
          subst (λ x. x % 2 ^ 64 ≡ 0) (sym (pow-suc 2 (k + 64))) (omega (arith, multiple k)) in
        subst (λ n. 2 ^ n % 2 ^ 64 ≡ 0) (omega arith) next

-- The sleep after an error is at most thirty seconds, and positive where `error_backoff` is.
pub backoff-bounds :
    (c : QueueConfig) (errors : ℕ)
    → 0 < c.error_backoff
    → (0 < backoff c errors) × (backoff c errors ≤ backoff_cap)
unfolding backoff
backoff-bounds c errors h =
    let e = min (errors - 1) 5 in
    let more : c.error_backoff * 1 ≤ c.error_backoff * 2 ^ e =
      mul-le-mul_left c.error_backoff
        (pow-le-pow_right {n = 2} (omega arith) {i = 0} {j = e} (omega arith)) in
    (omega (arith, more), omega arith)

-- The sleep after more errors in a row is at least as long.
pub backoff-grows : (c : QueueConfig) (m n : ℕ) → m ≤ n → backoff c m ≤ backoff c n
unfolding backoff
backoff-grows c m n h =
    let more : c.error_backoff * 2 ^ min (m - 1) 5 ≤ c.error_backoff * 2 ^ min (n - 1) 5 =
      mul-le-mul_left c.error_backoff (
        pow-le-pow_right {n = 2} (omega arith) {i = min (m - 1) 5} {j = min (n - 1) 5}
          (omega arith)) in
    omega (arith, more)
