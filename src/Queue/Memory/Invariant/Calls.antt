-- ===== src/Queue/Memory/Invariant/Calls.antt =====
-- Every operation on one job, and every phase of `enqueue` and `dequeue`, keeps the invariant.
use dogrs.Base.{
  ℕ, ◌+◌, ◌≡◌, refl, inl, inr, subst, sym, String, false, Option, none, some, List, ◌∷◌, arith,
  string_eq, All, str_beq_refl, Bool-cases,
}
use dogrs.Dict
use dogrs.Dict.{Dict, get-put}
use dogrs.Queue.Ctx.{QueueCtx}
use dogrs.Queue.Error.{QueueResult, ok, Result-cases}
use dogrs.Queue.Memory.{MemoryBackend, put_job, send}
use dogrs.Queue.Memory.Dequeue.{is_waiting}
use dogrs.Queue.Memory.Ack.{find_job, owned_lease, ack_complete, retry_job, ack_fail, cancel}
use dogrs.Queue.Memory.Checks.{Held, owned_lease_iff, find_job_iff}
use dogrs.Queue.Memory.Reaper.{Requeue}
use dogrs.Queue.Memory.Invariant.{
  Fits, FitsJob, OwnedTicket, count_pending, CountOk, is_some, queued, Inv,
}
use dogrs.Queue.Memory.Invariant.Jobs.{Same, tickets-put}
use dogrs.Queue.Memory.Invariant.Steps.{put_job-Inv, send-Inv}
use dogrs.Queue.Memory.Invariant.Entries.{insert_entry-Inv}
use dogrs.Queue.Event.{JobEvent}
use dogrs.Queue.Record.{
  JobId, JobMessage, JobRecord, JobStatus, LeaseToken, is_processing, is_terminal, complete, fail,
  schedule_retry, set_error, start_processing, new_record,
}
use dogrs.Queue.Record

module _ (b : MemoryBackend) (p : List Requeue) (id : JobId) (r r' : JobRecord) where
  -- A record that does not wait, in place of the old one.
  pub settle-Inv :
      Inv b p
      → Dict.get b.jobs id ≡ some r
      → Same r r'
      → is_waiting r'.status ≡ false
      → is_processing r'.status ≡ is_some r'.lease_token
      → CountOk r'.status (queued b.queues id r + count_pending id p)
      → Inv (put_job b id r') p
  settle-Inv v found same quiet leased counted =
      put_job-Inv b p p id r r' v found same
        (tickets-put b.jobs id r r' p found same (inl quiet) v.tickets) (λ j miss. refl) (inl quiet)
        leased counted

-- The job of a lease stands in no queue.
pub count-leased :
    (b : MemoryBackend) (p : List Requeue) (id : JobId) (r : JobRecord) (token : LeaseToken)
    → Inv b p
    → Dict.get b.jobs id ≡ some r
    → r.lease_token ≡ some token
    → queued b.queues id r + count_pending id p ≡ 0
count-leased b p id r token v found held =
    let j = v.job id r found in ground (arith, j.leased, j.counted)

pub ack_complete-Inv :
    (b : MemoryBackend) (p : List Requeue) (ctx : QueueCtx) (id : JobId) (token : LeaseToken)
    (result : Option String) (now stamp : ℕ)
    → Inv b p
    → Inv (ack_complete b ctx id token result now stamp).1 p
unfolding ack_complete
ack_complete-Inv b p ctx id token result now stamp v =
    elim (Result-cases (owned_lease b ctx id token now)) [
      | inl (e, h) ↦ rw (h, ack_complete) v
      | inr (r, h) ↦
          let held = (owned_lease_iff b ctx id token now r).0 h in
          let zero_entries = count-leased b p id r token v held.found held.held in
          rw (h, ack_complete)
            (send-Inv _ p _ (
              unfold complete in
              settle-Inv b p id r _ v held.found
                (record { job_id = refl; tenant_id = refl; message = refl }) refl refl
                zero_entries))
    ]

pub cancel-Inv :
    (b : MemoryBackend) (p : List Requeue) (ctx : QueueCtx) (id : JobId) (now stamp : ℕ)
    → Inv b p
    → Inv (cancel b ctx id now stamp).1 p
unfolding cancel
cancel-Inv b p ctx id now stamp v = elim (Result-cases (find_job b ctx id)) [
  | inl (e, h) ↦ rw (h, cancel) v
  | inr (r, h) ↦ elim (Bool-cases (is_terminal r.status)) [
    | inl done ↦ rw (h, cancel, done) v
    | inr live ↦
        let seen = (find_job_iff b ctx id r).0 h in
        let j = v.job id r seen.found in
        rw (h, cancel, live)
          (send-Inv _ p _ (
            unfold Record.cancel in
            settle-Inv b p id r _ v seen.found
              (record { job_id = refl; tenant_id = refl; message = refl }) refl refl
              (ground (arith, j.counted))))
  ]
]

-- A job that has no entry is made to wait: its entry is pending.
module _ (b : MemoryBackend) (p p' : List Requeue) (k : Requeue) (id : JobId)
    (r r' : JobRecord) where
  pub wait-Inv :
      Inv b p
      → Dict.get b.jobs id ≡ some r
      → Same r r'
      → All (OwnedTicket b.jobs) p'
      → ((j : JobId) → count_pending j p' ≡ count_pending j p)
      → k.entry.job_id ≡ id
      → Fits r' k.tenant k.queue k.entry
      → queued b.queues id r + count_pending id p ≡ 0
      → (t : ℕ) → r'.status ≡ JobStatus.retrying t
      → r'.lease_token ≡ none
      → Inv (put_job b id r') (k ∷ p')
  unfolding count_pending
  wait-Inv v found same tickets counts entry fits empty t status token =
      put_job-Inv b p (k ∷ p') id r r' v found same
        (
          subst (λ x. FitsJob x k.tenant k.queue k.entry) (sym at) fits,
          tickets-put b.jobs id r r' p' found same (inr (omega (arith, empty, counts id))) tickets,
        )
        (λ j miss. rw (entry, miss) (omega (arith, counts j))) (inr (omega arith))
        (rw (status, token)) (rw (status, entry, str_beq_refl) (omega (arith, counts id)))
    where
      at : Dict.get (Dict.put b.jobs id r') k.entry.job_id ≡ some r'
      at = ground (arith, get-put b.jobs id k.entry.job_id r', str_beq_refl id)

retry_job-Inv :
    (b : MemoryBackend) (p : List Requeue) (ctx : QueueCtx) (id : JobId) (token : LeaseToken)
    (r : JobRecord) (error : String) (retry_time now stamp : ℕ)
    → Inv b p
    → Held b ctx id token now r
    → Inv (retry_job b ctx id r error retry_time now stamp) p
unfolding retry_job set_error schedule_retry
retry_job-Inv b p ctx id token r error retry_time now stamp v held = send-Inv _ p _ (
    insert_entry-Inv _ k p (
      wait-Inv b p p k id r _ v held.found
        (record { job_id = refl; tenant_id = refl; message = refl }) v.tickets (λ j. refl) refl
        (record {
          same_tenant = held.tenant;
          same_queue = refl;
          same_priority = refl;
          same_time = λ w. refl;
        })
        (count-leased b p id r token v held.found held.held) retry_time refl refl))
  where
    k : Requeue
    k = record {
      tenant = ctx.tenant_id;
      queue = r.message.queue;
      entry = record { priority = r.message.priority; run_at = retry_time; job_id = id };
    }

pub ack_fail-Inv :
    (b : MemoryBackend) (p : List Requeue) (ctx : QueueCtx) (id : JobId) (token : LeaseToken)
    (error : String) (retry_at : Option ℕ) (now stamp : ℕ)
    → Inv b p
    → Inv (ack_fail b ctx id token error retry_at now stamp).1 p
unfolding ack_fail
ack_fail-Inv b p ctx id token error retry_at now stamp v =
    elim (Result-cases (owned_lease b ctx id token now)) [
      | inl (e, h) ↦ rw (h, ack_fail) v
      | inr (r, h) ↦
          let held = (owned_lease_iff b ctx id token now r).0 h in
          rw (h, ack_fail) (decided retry_at r held)
    ]
  where
    decided :
        (retry_at : Option ℕ) (r : JobRecord)
        → Held b ctx id token now r
        → Inv
            (unfold ack_fail in
              (elim retry_at as (λ _. QueueResult (Unit {0}) × MemoryBackend) [
                | some retry_time ↦ (ok tt, retry_job b ctx id r error retry_time now stamp)
                | none ↦ (
                  ok tt,
                  send
                      (put_job b id (Record.fail r error stamp))
                      (JobEvent.failed id ctx.tenant_id error now),
                )
              ]).1)
            p
    decided (some t) r held = retry_job-Inv b p ctx id token r error t now stamp v held
    decided none r held = send-Inv _ p _ (
        unfold Record.fail in
        settle-Inv b p id r _ v held.found
          (record { job_id = refl; tenant_id = refl; message = refl }) refl refl
          (count-leased b p id r token v held.found held.held))
