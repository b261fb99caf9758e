-- ===== src/Queue/Memory/Invariant/Flow.antt =====
-- `enqueue`, `dequeue`, in their phases and whole, and `heartbeat_extend` keep the invariant.
use dogrs.Base.{
  ℕ, ◌+◌, ◌≡◌, refl, inl, inr, String, true, Option, none, some, List, [], ◌∷◌, arith, ◌==◌,
  string_eq, str_beq_iff, str_beq_refl, Bool-cases, Option-cases,
}
use dogrs.Dict
use dogrs.Dict.{Dict, get-put}
use dogrs.Queue.Ctx.{QueueCtx}
use dogrs.Queue.Error.{ok, Result-cases, bind_inv}
use dogrs.Queue.Memory.{
  MemoryBackend, put_job, insert_entry, scope_of, existing, entry_of, enqueue_new, enqueue, Scope,
}
use dogrs.Queue.Memory.Dequeue.{
  is_waiting, pop_entry, lease_job, leased_record, grant, dequeue_from, has_candidate, dequeue,
}
use dogrs.Queue.Memory.Ack.{find_job, holds, heartbeat_job, extend_lease, heartbeat_extend}
use dogrs.Queue.Memory.Checks.{find_job_iff, Visible, holds→eq}
use dogrs.Queue.Memory.Reaper.{Requeue}
use dogrs.Queue.Memory.Invariant.{count_pending, queued, HasKey, Inv}
use dogrs.Queue.Memory.Invariant.Jobs.{tickets-put}
use dogrs.Queue.Memory.Invariant.Steps.{put_job-Inv, put_new-Inv, register_key-Inv, send-Inv}
use dogrs.Queue.Memory.Invariant.Entries.{insert_entry-Inv, forget-Inv}
use dogrs.Queue.Memory.Invariant.Pops.{pop_entry-none-Inv, pop_entry-some-Inv, ticket}
use dogrs.Queue.Memory.Invariant.Calls.{settle-Inv, count-leased}
use dogrs.Queue.Record.{
  JobId, JobMessage, JobRecord, JobStatus, LeaseToken, start_processing, new_record,
}

-- What `heartbeat_extend` has checked before it looks at the status.
pub heartbeat_job-found :
    (b : MemoryBackend) (ctx : QueueCtx) (id : JobId) (token : LeaseToken) (r : JobRecord)
    → heartbeat_job b ctx id token ≡ ok r
    → Visible b ctx id r × (r.lease_token ≡ some token)
unfolding heartbeat_job
heartbeat_job-found b ctx id token r h =
    let (s, found, checked) = bind_inv (find_job b ctx id) _ h in
    let same : s ≡ r = ground arith in
    let held : holds s.lease_token token ≡ true = ground arith in
    (
      rw (← same) ((find_job_iff b ctx id s).0 found),
      rw (← same) (holds→eq s.lease_token token held),
    )

extend_lease-Inv :
    (b : MemoryBackend) (p : List Requeue) (ctx : QueueCtx) (id : JobId) (r : JobRecord)
    (token : LeaseToken) (extra : Option ℕ) (now : ℕ)
    → Inv b p
    → Dict.get b.jobs id ≡ some r
    → r.lease_token ≡ some token
    → Inv (extend_lease b ctx id r extra now).1 p
unfolding extend_lease
extend_lease-Inv b p ctx id r token extra now v found held = go r.status refl extra
  where
    empty : queued b.queues id r + count_pending id p ≡ 0
    empty = count-leased b p id r token v found held

    go :
        (s : JobStatus)
        → r.status ≡ s
        → (extra : Option ℕ) → Inv (extend_lease b ctx id r extra now).1 p
    go (JobStatus.processing t) e (some d) =
        rw (e, extend_lease)
          (send-Inv _ p _ (
            settle-Inv b p id r _ v found
              (record { job_id = refl; tenant_id = refl; message = refl }) refl (rw held) empty))
    go (JobStatus.processing t) e none = rw (e, extend_lease) v
    go s e extra = rw (e, extend_lease) v

pub heartbeat_extend-Inv :
    (from_std : ℕ → Option ℕ) (b : MemoryBackend) (p : List Requeue) (ctx : QueueCtx) (id : JobId)
    (token : LeaseToken) (extra now : ℕ)
    → Inv b p
    → Inv (heartbeat_extend from_std b ctx id token extra now).1 p
unfolding heartbeat_extend
heartbeat_extend-Inv from_std b p ctx id token extra now v =
    elim (Result-cases (heartbeat_job b ctx id token)) [
      | inl (e, h) ↦ rw (h, heartbeat_extend) v
      | inr (r, h) ↦
          let (seen, held) = heartbeat_job-found b ctx id token r h in
          rw (h, heartbeat_extend)
            (extend_lease-Inv b p ctx id r token (from_std extra) now v seen.found held)
    ]

pub scope_of-HasKey :
    (ctx : QueueCtx) (m : JobMessage) (r : JobRecord) (s : Scope)
    → r.tenant_id ≡ ctx.tenant_id
    → r.message ≡ m
    → scope_of ctx m ≡ some s
    → HasKey (some r) s
unfolding scope_of
scope_of-HasKey ctx m r (a, b, c, d) tenant message e =
    (ground arith, ground arith, ground arith, ground arith)

-- A new job.
pub enqueue_new-Inv :
    (b : MemoryBackend) (p : List Requeue) (ctx : QueueCtx) (m : JobMessage) (id : JobId)
    (now stamp : ℕ)
    → Dict.get b.jobs id ≡ none
    → Inv b p
    → Inv (enqueue_new b ctx m id now stamp) p
unfolding enqueue_new new_record
enqueue_new-Inv b p ctx m id now stamp fresh v =
    send-Inv _ p _ (register_key-Inv _ p (scope_of ctx m) id (insert_entry-Inv _ k p added) keyed)
  where
    k : Requeue
    k = record { tenant = ctx.tenant_id; queue = m.queue; entry = entry_of id m }

    added : Inv (put_job b id (new_record id ctx.tenant_id m stamp)) (k ∷ p)
    added = put_new-Inv b k p id _ v fresh refl refl refl refl (record {
      same_tenant = refl;
      same_queue = refl;
      same_priority = refl;
      same_time = λ w. refl;
    })

    keyed :
        (scope : Scope)
        → scope_of ctx m ≡ some scope
        → HasKey
            (Dict.get
              (insert_entry
                (put_job b id (new_record id ctx.tenant_id m stamp))
                ctx.tenant_id
                m.queue
                (entry_of id m)).jobs
              id)
            scope
    keyed scope e =
        rw (get-put, str_beq_refl)
          (scope_of-HasKey ctx m (new_record id ctx.tenant_id m stamp) scope refl refl e)

pub enqueue-Inv :
    (b : MemoryBackend) (p : List Requeue) (ctx : QueueCtx) (m : JobMessage) (id : JobId)
    (now stamp : ℕ)
    → Dict.get b.jobs id ≡ none
    → Inv b p
    → Inv (enqueue b ctx m id now stamp).1 p
unfolding enqueue
enqueue-Inv b p ctx m id now stamp fresh v = elim (Option-cases (existing b (scope_of ctx m))) [
  | inl h ↦ rw (h, enqueue) (enqueue_new-Inv b p ctx m id now stamp fresh v)
  | inr (old, h) ↦ rw (h, enqueue) v
]

-- A popped entry turns into a lease, or is dropped if its job does not wait.
grant-Inv :
    (b : MemoryBackend) (k : Requeue) (p : List Requeue) (id : JobId) (r : JobRecord)
    (token : LeaseToken) (now stamp : ℕ)
    → k.entry.job_id ≡ id
    → Dict.get b.jobs id ≡ some r
    → is_waiting r.status ≡ true
    → Inv b (k ∷ p)
    → Inv (grant b id r token now stamp).1 p
unfolding grant leased_record start_processing count_pending
grant-Inv b k p id r token now stamp entry found waits v = send-Inv _ p _ (
    put_job-Inv b (k ∷ p) p id r _ v found
      (record { job_id = refl; tenant_id = refl; message = refl })
      (tickets-put b.jobs id r _ p found
        (record { job_id = refl; tenant_id = refl; message = refl }) (inl refl) v.tickets.1)
      (λ j miss. rw (entry, miss) (omega arith)) (inl refl) refl one_entry)
  where
    one_entry : queued b.queues id r + count_pending id p ≡ 0
    one_entry =
        let j = v.job id r found in
        let hit : k.entry.job_id == id ≡ true = (str_beq_iff k.entry.job_id id).1 entry in
        ground (arith, j.counted)

pub lease_job-Inv :
    (b : MemoryBackend) (k : Requeue) (p : List Requeue) (token : LeaseToken) (now stamp : ℕ)
    → Inv b (k ∷ p)
    → Inv (lease_job b k.entry.job_id token now stamp).1 p
unfolding lease_job
lease_job-Inv b k p token now stamp v = elim (Option-cases (Dict.get b.jobs k.entry.job_id)) [
  | inl h ↦ rw (h, lease_job) (forget-Inv b k p (λ r found. ground arith) v)
  | inr (r, h) ↦ elim (Bool-cases (is_waiting r.status)) [
    | inl w ↦ rw (h, lease_job, w) (grant-Inv b k p k.entry.job_id r token now stamp refl h w v)
    | inr w ↦ rw (h, lease_job, w) (forget-Inv b k p (λ s found. ground arith) v)
  ]
]

pub dequeue_from-Inv :
    (b : MemoryBackend) (p : List Requeue) (ctx : QueueCtx) (names : List String)
    (token : LeaseToken) (now stamp : ℕ)
    → Inv b p
    → Inv (dequeue_from b ctx names token now stamp).1 p
unfolding dequeue_from
dequeue_from-Inv b p ctx [] token now stamp v = v
dequeue_from-Inv b p ctx (name ∷ names) token now stamp v =
    let b' : MemoryBackend = record b { queues = (pop_entry b.queues ctx.tenant_id name now).1 } in
    elim (Option-cases (pop_entry b.queues ctx.tenant_id name now).0) [
      | inl h ↦
          rw (h, dequeue_from)
            (dequeue_from-Inv b' p ctx names token now stamp
              (pop_entry-none-Inv b ctx.tenant_id name now p h v))
      | inr (e, h) ↦
          let v'' =
            lease_job-Inv b' (ticket b ctx.tenant_id name now p e) p token now stamp
              (pop_entry-some-Inv b ctx.tenant_id name now p e h v) in
          elim (Option-cases (lease_job b' e.job_id token now stamp).0) [
            | inl n ↦
                rw (h, dequeue_from, n)
                  (dequeue_from-Inv (lease_job b' e.job_id token now stamp).1 p ctx names token now
                    stamp v'')
            | inr (l, n) ↦ rw (h, dequeue_from, n) v''
          ]
    ]

pub dequeue-Inv :
    (b : MemoryBackend) (p : List Requeue) (ctx : QueueCtx) (names : List String)
    (token : LeaseToken) (now stamp : ℕ)
    → Inv b p
    → Inv (dequeue b ctx names token now stamp).1 p
unfolding dequeue
dequeue-Inv b p ctx names token now stamp v =
    elim (Bool-cases (has_candidate b.queues ctx.tenant_id names now)) [
      | inl h ↦ rw h (dequeue_from-Inv b p ctx names token now stamp v)
      | inr h ↦ rw h v
    ]
