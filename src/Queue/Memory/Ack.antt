-- ===== src/Queue/Memory/Ack.antt =====
-- The operations of dog-queue/src/backend/memory/storage.rs on one job: acknowledgements,
-- heartbeats, cancellation and reads. Each holds the lock of the jobs from its first look at the
-- record to its last write, so each is one step.
use Prim.Native.String.{◌++◌ as text_append}
use dogrs.Base.{
  ℕ, ◌+◌, String, Bool, true, false, Option, none, some, List, if◌then◌else◌, ltb, keep, ◌==◌,
  string_eq,
}
use dogrs.Dict
use dogrs.Queue.Ctx.{QueueCtx}
use dogrs.Queue.Error.{QueueError, QueueResult, ok, err, ensure, ◌>>=◌, ◌>>◌}
use dogrs.Queue.Event.{JobEvent}
use dogrs.Queue.Event
use dogrs.Queue.Memory.{MemoryBackend, put_job, send, insert_entry}
use dogrs.Queue.Order.{QueueEntry}
use dogrs.Queue.Record.{JobId, LeaseToken, JobStatus, JobRecord, lease_until}
use dogrs.Queue.Record

-- A job of another tenant is reported as missing.
unfoldable pub find_job : MemoryBackend → QueueCtx → JobId → QueueResult JobRecord
find_job b ctx id = elim (Dict.get b.jobs id) [
  | none ↦ err (QueueError.job_not_found id)
  | some r ↦ if r.tenant_id == ctx.tenant_id then ok r else err (QueueError.job_not_found id)
]

abbrev pub require_live : JobStatus → QueueResult (Unit {0})
require_live (JobStatus.canceled _) = err QueueError.job_canceled
require_live (JobStatus.completed _) = err QueueError.job_already_terminal
require_live (JobStatus.failed _ _) = err QueueError.job_already_terminal
require_live _ = ok tt

-- `record.lease_token.as_ref() == Some(&lease_token)`.
abbrev pub holds : Option LeaseToken → LeaseToken → Bool
holds none token = false
holds (some held) token = held == token

abbrev pub in_time : Option ℕ → ℕ → Bool
in_time none now = true
in_time (some lease_until) now = if ltb lease_until now then false else true

-- The checks that `ack_complete` and `ack_fail` make on the record, in their order.
unfoldable pub require_lease : JobRecord → JobId → LeaseToken → ℕ → QueueResult JobRecord
require_lease r id token now = do
  require_live r.status
  ensure (holds r.lease_token token) (QueueError.invalid_lease_token id)
  ensure (in_time (lease_until r) now) QueueError.lease_expired
  ok r

unfoldable pub owned_lease :
    MemoryBackend → QueueCtx → JobId → LeaseToken → ℕ → QueueResult JobRecord
owned_lease b ctx id token now = do r ← find_job b ctx id; require_lease r id token now

unfoldable pub ack_complete :
    MemoryBackend
    → QueueCtx
    → JobId
    → LeaseToken
    → Option String
    → ℕ
    → ℕ
    → QueueResult (Unit {0}) × MemoryBackend
ack_complete b ctx id token result_ref now stamp = elim (owned_lease b ctx id token now) [
  | err e ↦ (err e, b)
  | ok r ↦ (
    ok tt,
    send (put_job b id (Record.complete (record r { result = result_ref }) stamp))
        (JobEvent.completed id ctx.tenant_id now),
  )
]

-- The job goes back to its queue.
unfoldable pub retry_job :
    MemoryBackend → QueueCtx → JobId → JobRecord → String → ℕ → ℕ → ℕ → MemoryBackend
retry_job b ctx id r error retry_time now stamp =
    let r' = Record.set_error (Record.schedule_retry r retry_time stamp) error stamp in
    let entry : QueueEntry = record {
      priority = r'.message.priority;
      run_at = retry_time;
      job_id = id;
    } in
    let queued = insert_entry (put_job b id r') ctx.tenant_id r'.message.queue entry in
    send queued (JobEvent.retrying id ctx.tenant_id retry_time error now)

unfoldable pub ack_fail :
    MemoryBackend
    → QueueCtx
    → JobId
    → LeaseToken
    → String
    → Option ℕ
    → ℕ
    → ℕ
    → QueueResult (Unit {0}) × MemoryBackend
ack_fail b ctx id token error retry_at now stamp = elim (owned_lease b ctx id token now) [
  | err e ↦ (err e, b)
  | ok r ↦ elim retry_at [
    | some retry_time ↦ (ok tt, retry_job b ctx id r error retry_time now stamp)
    | none ↦ (
      ok tt,
      send (put_job b id (Record.fail r error stamp)) (JobEvent.failed id ctx.tenant_id error now),
    )
  ]
]

-- `record.lease_until` is moved by `extra`; the text of a conversion error is left out.
unfoldable pub extend_lease :
    MemoryBackend
    → QueueCtx
    → JobId
    → JobRecord
    → Option ℕ
    → ℕ
    → QueueResult (Unit {0}) × MemoryBackend
extend_lease b ctx id r extra now = elim r.status [
  | JobStatus.processing lease_until ↦ elim extra [
    | none ↦ (err (QueueError.internal "Invalid heartbeat duration"), b)
    | some d ↦ (
      ok tt,
      send
          (put_job b id
            (record r { status = JobStatus.processing (lease_until + d); updated_at = now }))
          (JobEvent.heartbeat_extended id ctx.tenant_id (lease_until + d) now),
    )
  ]
  | _ ↦ (
    err (
        QueueError.internal (
          text_append "heartbeat_extend called on job " (
            text_append id (
              text_append " in '"
                (text_append (Record.status_name r.status) "' state (must be Processing)"))))),
    b,
  )
]

abbrev pub not_canceled : JobStatus → QueueResult (Unit {0})
not_canceled (JobStatus.canceled _) = err QueueError.job_canceled
not_canceled _ = ok tt

unfoldable pub heartbeat_job : MemoryBackend → QueueCtx → JobId → LeaseToken → QueueResult JobRecord
heartbeat_job b ctx id token = do
  r ← find_job b ctx id
  not_canceled r.status
  ensure (holds r.lease_token token) (QueueError.invalid_lease_token id)
  ok r

unfoldable pub heartbeat_extend :
    (ℕ → Option ℕ)
    → MemoryBackend
    → QueueCtx
    → JobId
    → LeaseToken
    → ℕ
    → ℕ
    → QueueResult (Unit {0}) × MemoryBackend
heartbeat_extend from_std b ctx id token extra_time now = elim (heartbeat_job b ctx id token) [
  | err e ↦ (err e, b)
  | ok r ↦ extend_lease b ctx id r (from_std extra_time) now
]

unfoldable pub cancel : MemoryBackend → QueueCtx → JobId → ℕ → ℕ → QueueResult Bool × MemoryBackend
cancel b ctx id now stamp = elim (find_job b ctx id) [
  | err e ↦ (err e, b)
  | ok r ↦ if Record.is_terminal r.status then (ok false, b) else (
    ok true,
    send (put_job b id (Record.cancel r stamp)) (JobEvent.canceled id ctx.tenant_id now),
  )
]

unfoldable pub get_status : MemoryBackend → QueueCtx → JobId → QueueResult JobStatus
get_status b ctx id = do r ← find_job b ctx id; ok r.status

unfoldable pub get_record : MemoryBackend → QueueCtx → JobId → QueueResult JobRecord
get_record b ctx id = find_job b ctx id

-- What a subscriber of the tenant gets of the events that its receiver has read.
unfoldable pub event_stream : QueueCtx → List JobEvent → List JobEvent
unfolding keep
event_stream ctx = keep (λ (e : JobEvent). Event.tenant_id e == ctx.tenant_id)
