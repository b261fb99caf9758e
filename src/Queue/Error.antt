-- ===== src/Queue/Error.antt =====
-- dog-queue/src/error.rs: the errors of the queue and of a job's execution.
-- A message that the source formats from values is kept as those values.
use Prim.Native.String.{◌++◌ as text_append}
use dogrs.Base.{ℕ, String, Bool, true, false, ◌≡◌, refl, ◌⊎◌, inl, inr}

-- The check of `QueueConfig::validate` that an `InvalidConfig` reports.
pub data ConfigCheck : Type 0 where
  max_workers base_retry_backoff heartbeat_interval poll_interval error_backoff poll_jitter :
      ConfigCheck

-- Execution outcome of a job that did not succeed.
pub data JobError : Type 0 where
  retryable permanent : String → JobError

abbrev pub is_retryable : JobError → Bool
is_retryable (JobError.retryable msg) = true
is_retryable (JobError.permanent msg) = false

abbrev pub message : JobError → String
message (JobError.retryable msg) = msg
message (JobError.permanent msg) = msg

-- `Display`.
unfoldable pub display : JobError → String
display (JobError.retryable msg) = text_append "Retryable error: " msg
display (JobError.permanent msg) = text_append "Permanent error: " msg

pub data QueueError : Type 0 where
  job_not_found invalid_lease_token : String → QueueError
  lease_expired job_canceled job_already_terminal worker_shutdown : QueueError
  job_failed : JobError → QueueError
  codec_not_found backend_unsupported serialization_error : String → QueueError
  payload_too_large : ℕ → ℕ → QueueError
  job_type_not_registered job_type_already_registered : String → QueueError
  invalid_config : ConfigCheck → QueueError
  internal : String → QueueError
  timeout : ℕ → QueueError

-- `QueueResult`.
pub data QueueResult {ℓ} (A : Type ℓ) : Type ℓ where
  ok : A → QueueResult A
  err : QueueError → QueueResult A

infixl 5 ◌>>=◌ ◌>>◌
abbrev pub ◌>>=◌ {ℓ κ} :
    {A : Type ℓ} {B : Type κ} → QueueResult A → (A → QueueResult B) → QueueResult B
ok a >>= f = f a
err e >>= f = err e

abbrev pub ◌>>◌ {ℓ} : {B : Type ℓ} → QueueResult (Unit {0}) → QueueResult B → QueueResult B
m >> k = m >>= λ _. k

-- `if !condition { return Err(e) }`.
abbrev pub ensure : Bool → QueueError → QueueResult (Unit {0})
ensure true e = ok tt
ensure false e = err e

-- A chain that succeeds has a first step that succeeds.
pub bind_inv {ℓ κ} :
    {A : Type ℓ} {B : Type κ} (m : QueueResult A) (f : A → QueueResult B) {b : B}
    → (m >>= f) ≡ ok b
    → (a : A) × (m ≡ ok a) × (f a ≡ ok b)
bind_inv (ok a) f h = (a, refl, h)
bind_inv (err e) f h = cc

pub Result-cases {ℓ} :
    {A : Type ℓ} (m : QueueResult A) → ((e : QueueError) × (m ≡ err e)) ⊎ ((a : A) × (m ≡ ok a))
Result-cases (ok a) = inr (a, refl)
Result-cases (err e) = inl (e, refl)
