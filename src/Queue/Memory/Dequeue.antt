-- ===== src/Queue/Memory/Dequeue.antt =====
-- `dequeue` of dog-queue/src/backend/memory/storage.rs: an advisory test, then for each queue
-- name a pop under the lock of the queues and a lease under the lock of the jobs.
use dogrs.Base.{
  ℕ, ◌+◌, ◌%◌, ◌^◌, String, Bool, true, false, Option, none, some, List, [], ◌∷◌, if◌then◌else◌,
  leb, any, is_empty, string_eq,
}
use dogrs.Dict
use dogrs.Dict.{Dict}
use dogrs.Queue.Ctx.{QueueCtx}
use dogrs.Queue.Error.{QueueResult, ok}
use dogrs.Queue.Event.{JobEvent}
use dogrs.Queue.Memory.{MemoryBackend, TenantQueues, put_job, send}
use dogrs.Queue.Order.{QueueEntry, take_due}
use dogrs.Queue.Record.{JobId, LeaseToken, JobStatus, JobRecord, LeasedJob, start_processing}

unfoldable pub has_due : Dict String (List QueueEntry) → ℕ → String → Bool
unfolding any
has_due tenant_queues now name = elim (Dict.get tenant_queues name) [
  | none ↦ false
  | some queue ↦ any (λ (e : QueueEntry). leb e.run_at now) queue
]

-- The fast path, under the read lock.
unfoldable pub has_candidate : TenantQueues → String → List String → ℕ → Bool
unfolding has_due
has_candidate queues tenant names now = elim (Dict.get queues tenant) [
  | none ↦ false
  | some tenant_queues ↦ any (has_due tenant_queues now) names
]

unfoldable pub pop_due : List QueueEntry → ℕ → Option QueueEntry × List QueueEntry
pop_due queue now = elim (take_due queue now) [
  | none ↦ (none, queue)
  | some (e, rest) ↦ (some e, rest)
]

-- The first due entry of one queue; a queue that is empty afterwards is dropped.
unfoldable pub pop_queue :
    Dict String (List QueueEntry) → String → ℕ → Option QueueEntry × Dict String (List QueueEntry)
pop_queue tenant_queues name now = elim (Dict.get tenant_queues name) [
  | none ↦ (none, tenant_queues)
  | some queue ↦
      let (found, rest) = pop_due queue now in
      (
        found,
        if is_empty rest then Dict.remove tenant_queues name else Dict.put tenant_queues name rest,
      )
]

-- Phase 1, under the write lock of the queues; a tenant with no queue left is dropped.
unfoldable pub pop_entry : TenantQueues → String → String → ℕ → Option QueueEntry × TenantQueues
pop_entry queues tenant name now = elim (Dict.get queues tenant) [
  | none ↦ (none, queues)
  | some tenant_queues ↦
      let (found, rest) = pop_queue tenant_queues name now in
      (found, if Dict.is_empty rest then Dict.remove queues tenant else Dict.put queues tenant rest)
]

-- `attempt += 1` on a `u32`, which wraps in a release build.
unfoldable pub leased_record : JobRecord → LeaseToken → ℕ → ℕ → JobRecord
unfolding start_processing
leased_record r token lease_until stamp =
    start_processing (record r { attempt = (r.attempt + 1) % 2 ^ 32 }) token lease_until stamp

unfoldable pub grant :
    MemoryBackend → JobId → JobRecord → LeaseToken → ℕ → ℕ → Option LeasedJob × MemoryBackend
unfolding leased_record put_job send
grant b id r token now stamp =
    let lease_until = now + b.lease_duration in
    let r' = leased_record r token lease_until stamp in
    (
      some (record { record_ = r'; lease_token = token; lease_until = lease_until }),
      send (put_job b id r') (JobEvent.leased id r.tenant_id lease_until now),
    )

abbrev pub is_waiting : JobStatus → Bool
is_waiting JobStatus.enqueued = true
is_waiting (JobStatus.retrying _) = true
is_waiting _ = false

-- Phase 2, under the write lock of the jobs. The entry of a job that does not wait is dropped.
unfoldable pub lease_job :
    MemoryBackend → JobId → LeaseToken → ℕ → ℕ → Option LeasedJob × MemoryBackend
lease_job b id token now stamp = elim (Dict.get b.jobs id) [
  | none ↦ (none, b)
  | some r ↦ if is_waiting r.status then grant b id r token now stamp else (none, b)
]

-- The loop over the queue names.
unfoldable pub dequeue_from :
    MemoryBackend → QueueCtx → List String → LeaseToken → ℕ → ℕ → Option LeasedJob × MemoryBackend
dequeue_from b ctx [] token now stamp = (none, b)
dequeue_from b ctx (name ∷ names) token now stamp =
    let (candidate, queues) = pop_entry b.queues ctx.tenant_id name now in
    let b' = record b { queues = queues } in
    elim candidate [
      | none ↦ dequeue_from b' ctx names token now stamp
      | some e ↦
          let (leased, b'') = lease_job b' e.job_id token now stamp in
          elim leased [ none ↦ dequeue_from b'' ctx names token now stamp | some l ↦ (some l, b'') ]
    ]

unfoldable pub dequeue :
    MemoryBackend
    → QueueCtx
    → List String
    → LeaseToken
    → ℕ
    → ℕ
    → QueueResult (Option LeasedJob) × MemoryBackend
dequeue b ctx names token now stamp =
    if has_candidate b.queues ctx.tenant_id names now
    then (let (leased, b') = dequeue_from b ctx names token now stamp in (ok leased, b'))
    else (ok none, b)
