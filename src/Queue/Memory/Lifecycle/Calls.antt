-- ===== src/Queue/Memory/Lifecycle/Calls.antt =====
-- Each operation of the backend moves the records along the state machine of a job.
use dogrs.Base.{
  ℕ, ◌+◌, ◌≡◌, refl, inl, inr, String, true, Option, none, some, List, [], ◌∷◌, arith, string_eq,
  Bool-cases, Option-cases, ltb,
}
use dogrs.Dict
use dogrs.Dict.{Dict}
use dogrs.Queue.Ctx.{QueueCtx}
use dogrs.Queue.Error.{ok, Result-cases}
use dogrs.Queue.Memory.{
  MemoryBackend, put_job, send, insert_entry, existing, scope_of, register_key, enqueue_new,
  enqueue, Scope,
}
use dogrs.Queue.Memory.Ack.{
  find_job, owned_lease, ack_complete, ack_fail, retry_job, cancel, heartbeat_job, heartbeat_extend,
  extend_lease,
}
use dogrs.Queue.Memory.Checks.{Held, owned_lease_iff, find_job_iff}
use dogrs.Queue.Memory.Dequeue.{
  is_waiting, lease_job, grant, leased_record, pop_entry, dequeue_from, dequeue, has_candidate,
}
use dogrs.Queue.Memory.Invariant.{Inv}
use dogrs.Queue.Memory.Invariant.Flow.{heartbeat_job-found}
use dogrs.Queue.Memory.Lifecycle.{
  leases, extends, completes, retries, fails, cancels, Evolved, Evolved-refl, put-Evolved,
  put_new-Evolved,
}
use dogrs.Queue.Memory.Reaper.{Requeue, Reaping, reap_job, give_up, requeue, cleared}
use dogrs.Queue.Record.{
  JobId, JobMessage, JobRecord, JobStatus, LeaseToken, is_processing, is_terminal, lease_expired,
  complete, fail, schedule_retry, set_error, start_processing, new_record,
}
use dogrs.Queue.Record

-- A lease is held only of a job at work.
held-processing :
    (b : MemoryBackend) (p : List Requeue) (id : JobId) (r : JobRecord) (token : LeaseToken)
    → Inv b p
    → Dict.get b.jobs id ≡ some r
    → r.lease_token ≡ some token
    → is_processing r.status ≡ true
held-processing b p id r token v found held = let j = v.job id r found in ground (arith, j.leased)

module _ (b : MemoryBackend) (p : List Requeue) (ctx : QueueCtx) (id : JobId) (v : Inv b p) where
  pub ack_complete-Evolved :
      (token : LeaseToken) (result : Option String) (now stamp : ℕ)
      → Evolved b.jobs (ack_complete b ctx id token result now stamp).1.jobs
  unfolding ack_complete put_job send complete
  ack_complete-Evolved token result now stamp =
      elim (Result-cases (owned_lease b ctx id token now)) [
        | inl (e, h) ↦ rw (h, ack_complete) (Evolved-refl b.jobs)
        | inr (r, h) ↦
            let held = (owned_lease_iff b ctx id token now r).0 h in
            rw (h, ack_complete)
              (put-Evolved b.jobs id r _ held.found (
                completes stamp (record { job_id = refl; tenant_id = refl; message = refl })
                  (held-processing b p id r token v held.found held.held) refl refl refl))
      ]

  pub cancel-Evolved : (now stamp : ℕ) → Evolved b.jobs (cancel b ctx id now stamp).1.jobs
  unfolding cancel put_job send Record.cancel
  cancel-Evolved now stamp = elim (Result-cases (find_job b ctx id)) [
    | inl (e, h) ↦ rw (h, cancel) (Evolved-refl b.jobs)
    | inr (r, h) ↦ elim (Bool-cases (is_terminal r.status)) [
      | inl done ↦ rw (h, cancel, done) (Evolved-refl b.jobs)
      | inr live ↦
          rw (h, cancel, live)
            (put-Evolved b.jobs id r _ ((find_job_iff b ctx id r).0 h).found (
              cancels stamp (record { job_id = refl; tenant_id = refl; message = refl }) live refl
                refl refl))
    ]
  ]

  failed_or_retried :
      (token : LeaseToken) (error : String) (retry_at : Option ℕ) (now stamp : ℕ) (r : JobRecord)
      → owned_lease b ctx id token now ≡ ok r
      → Held b ctx id token now r
      → Evolved b.jobs (ack_fail b ctx id token error retry_at now stamp).1.jobs
  unfolding ack_fail retry_job insert_entry put_job send fail schedule_retry set_error
  failed_or_retried token error none now stamp r h held =
      rw (h, ack_fail)
        (put-Evolved b.jobs id r _ held.found (
          fails stamp error (record { job_id = refl; tenant_id = refl; message = refl })
            (held-processing b p id r token v held.found held.held) refl refl refl))
  failed_or_retried token error (some t) now stamp r h held =
      rw (h, ack_fail)
        (put-Evolved b.jobs id r _ held.found (
          retries t (record { job_id = refl; tenant_id = refl; message = refl })
            (held-processing b p id r token v held.found held.held) refl refl refl))

  pub ack_fail-Evolved :
      (token : LeaseToken) (error : String) (retry_at : Option ℕ) (now stamp : ℕ)
      → Evolved b.jobs (ack_fail b ctx id token error retry_at now stamp).1.jobs
  unfolding ack_fail
  ack_fail-Evolved token error retry_at now stamp =
      elim (Result-cases (owned_lease b ctx id token now)) [
        | inl (e, h) ↦ rw (h, ack_fail) (Evolved-refl b.jobs)
        | inr (r, h) ↦
            failed_or_retried token error retry_at now stamp r h
              ((owned_lease_iff b ctx id token now r).0 h)
      ]

extend_lease-Evolved :
    (b : MemoryBackend) (ctx : QueueCtx) (id : JobId) (r : JobRecord) (s : JobStatus)
    (extra : Option ℕ) (now : ℕ)
    → Dict.get b.jobs id ≡ some r
    → r.status ≡ s
    → Evolved b.jobs (extend_lease b ctx id r extra now).1.jobs
unfolding extend_lease put_job send
extend_lease-Evolved b ctx id r (JobStatus.processing t) (some d) now found e =
    rw (e, extend_lease)
      (put-Evolved b.jobs id r _ found
        (extends t d (record { job_id = refl; tenant_id = refl; message = refl }) e refl refl refl))
extend_lease-Evolved b ctx id r (JobStatus.processing t) none now found e =
    rw (e, extend_lease) (Evolved-refl b.jobs)
extend_lease-Evolved b ctx id r s extra now found e = rw (e, extend_lease) (Evolved-refl b.jobs)

pub heartbeat_extend-Evolved :
    (from_std : ℕ → Option ℕ) (b : MemoryBackend) (ctx : QueueCtx) (id : JobId) (token : LeaseToken)
    (extra now : ℕ)
    → Evolved b.jobs (heartbeat_extend from_std b ctx id token extra now).1.jobs
unfolding heartbeat_extend
heartbeat_extend-Evolved from_std b ctx id token extra now =
    elim (Result-cases (heartbeat_job b ctx id token)) [
      | inl (e, h) ↦ rw (h, heartbeat_extend) (Evolved-refl b.jobs)
      | inr (r, h) ↦
          rw (h, heartbeat_extend)
            (extend_lease-Evolved b ctx id r r.status (from_std extra) now
              (heartbeat_job-found b ctx id token r h).0.found refl)
    ]

pub register_key-jobs :
    (b : MemoryBackend) (s : Option Scope) (id : JobId) → (register_key b s id).jobs ≡ b.jobs
unfolding register_key
register_key-jobs b none id = refl
register_key-jobs b (some scope) id = refl

pub enqueue_new-jobs :
    (b : MemoryBackend) (ctx : QueueCtx) (m : JobMessage) (id : JobId) (now stamp : ℕ)
    → (enqueue_new b ctx m id now stamp).jobs
      ≡ Dict.put b.jobs id (new_record id ctx.tenant_id m stamp)
unfolding enqueue_new send insert_entry put_job
enqueue_new-jobs b ctx m id now stamp = register_key-jobs _ (scope_of ctx m) id

pub enqueue-Evolved :
    (b : MemoryBackend) (ctx : QueueCtx) (m : JobMessage) (id : JobId) (now stamp : ℕ)
    → Dict.get b.jobs id ≡ none
    → Evolved b.jobs (enqueue b ctx m id now stamp).1.jobs
unfolding enqueue
enqueue-Evolved b ctx m id now stamp fresh = elim (Option-cases (existing b (scope_of ctx m))) [
  | inl h ↦ rw (h, enqueue) (rw enqueue_new-jobs (put_new-Evolved b.jobs id _ fresh))
  | inr (old, h) ↦ rw (h, enqueue) (Evolved-refl b.jobs)
]

-- `lease_job` moves the job that it leases, and nothing if it leases none.
pub lease_job-Evolved :
    (b : MemoryBackend) (id : JobId) (token : LeaseToken) (now stamp : ℕ)
    → Evolved b.jobs (lease_job b id token now stamp).1.jobs
unfolding lease_job grant leased_record start_processing put_job send
lease_job-Evolved b id token now stamp = elim (Option-cases (Dict.get b.jobs id)) [
  | inl h ↦ rw (h, lease_job) (Evolved-refl b.jobs)
  | inr (r, h) ↦ elim (Bool-cases (is_waiting r.status)) [
    | inl w ↦
        rw (h, lease_job, w)
          (put-Evolved b.jobs id r _ h (
            leases token (now + b.lease_duration)
              (record { job_id = refl; tenant_id = refl; message = refl }) w refl refl refl))
    | inr w ↦ rw (h, lease_job, w) (Evolved-refl b.jobs)
  ]
]

pub lease_job-none :
    (b : MemoryBackend) (id : JobId) (token : LeaseToken) (now stamp : ℕ)
    → (lease_job b id token now stamp).0 ≡ none
    → (lease_job b id token now stamp).1 ≡ b
unfolding lease_job grant
lease_job-none b id token now stamp h = ground arith

pub dequeue_from-Evolved :
    (b : MemoryBackend) (ctx : QueueCtx) (names : List String) (token : LeaseToken) (now stamp : ℕ)
    → Evolved b.jobs (dequeue_from b ctx names token now stamp).1.jobs
unfolding dequeue_from
dequeue_from-Evolved b ctx [] token now stamp = Evolved-refl b.jobs
dequeue_from-Evolved b ctx (name ∷ names) token now stamp =
    let b' : MemoryBackend = record b { queues = (pop_entry b.queues ctx.tenant_id name now).1 } in
    elim (Option-cases (pop_entry b.queues ctx.tenant_id name now).0) [
      | inl h ↦ rw (h, dequeue_from) (dequeue_from-Evolved b' ctx names token now stamp)
      | inr (e, h) ↦ elim (Option-cases (lease_job b' e.job_id token now stamp).0) [
        | inl n ↦
            rw (h, dequeue_from, n, lease_job-none b' e.job_id token now stamp n)
              (dequeue_from-Evolved b' ctx names token now stamp)
        | inr (l, n) ↦ rw (h, dequeue_from, n) (lease_job-Evolved b' e.job_id token now stamp)
      ]
    ]

pub dequeue-Evolved :
    (b : MemoryBackend) (ctx : QueueCtx) (names : List String) (token : LeaseToken) (now stamp : ℕ)
    → Evolved b.jobs (dequeue b ctx names token now stamp).1.jobs
unfolding dequeue
dequeue-Evolved b ctx names token now stamp =
    elim (Bool-cases (has_candidate b.queues ctx.tenant_id names now)) [
      | inl h ↦ rw h (dequeue_from-Evolved b ctx names token now stamp)
      | inr h ↦ rw h (Evolved-refl b.jobs)
    ]

pub reap_job-Evolved :
    (s : Reaping) (backoff : ℕ) (id : JobId) (now stamp : ℕ)
    → Evolved s.backend.jobs (reap_job s backoff id now stamp).backend.jobs
unfolding reap_job give_up requeue cleared set_error put_job
reap_job-Evolved s backoff id now stamp = elim (Option-cases (Dict.get s.backend.jobs id)) [
  | inl h ↦ rw (h, reap_job) (Evolved-refl s.backend.jobs)
  | inr (r, h) ↦ elim (Bool-cases (lease_expired r now)) [
    | inl x ↦ elim (Bool-cases (ltb r.message.max_retries r.attempt)) [
      | inl over ↦
          rw (h, reap_job, x, over)
            (put-Evolved s.backend.jobs id r _ h (
              fails now _ (record { job_id = refl; tenant_id = refl; message = refl })
                (ground arith) refl refl refl))
      | inr within ↦
          rw (h, reap_job, x, within)
            (put-Evolved s.backend.jobs id r _ h (
              retries (now + backoff) (record { job_id = refl; tenant_id = refl; message = refl })
                (ground arith) refl refl refl))
    ]
    | inr x ↦ rw (h, reap_job, x) (Evolved-refl s.backend.jobs)
  ]
]
