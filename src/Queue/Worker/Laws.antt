-- ===== src/Queue/Worker/Laws.antt =====
-- What one call of `process_next_job` does to the backend and to the job that it took.
use dogrs.Base.{
  ℕ, ◌<◌, ◌≡◌, refl, inl, inr, String, true, Option, none, some, List, [], ◌∷◌, arith, string_eq,
  leb, if◌then◌else◌, subst,
}
use dogrs.Dict
use dogrs.Dict.{get-put_self}
use dogrs.Queue.Ctx.{QueueCtx}
use dogrs.Queue.Error.{JobError, display, QueueError, QueueResult, ok, err, Result-cases}
use dogrs.Queue.Memory.{MemoryBackend, put_job, send, insert_entry}
use dogrs.Queue.Memory.Ack.{ack_complete, ack_fail, get_status, retry_job}
use dogrs.Queue.Memory.Checks.{Held, Visible, owned_lease_iff, find_job_iff}
use dogrs.Queue.Memory.Outcomes.{canceled_refuses, ack_complete-done, done}
use dogrs.Queue.Record.{
  JobId, JobRecord, JobStatus, LeasedJob, LeaseToken, is_terminal, complete, fail, schedule_retry,
  set_error,
}
use dogrs.Queue.Retry.{calculate_retry_time}
use dogrs.Queue.Worker.{
  Worker, Clock, Execution, Handler, Observation, Processed, finish, give_back, reject, acknowledge,
  run_job, process_leased, decode_job_payload, decode_error, retry_time, get_handler,
}

-- The status that a failure leaves.
abbrev pub failed_status : String → Option ℕ → ℕ → JobStatus
failed_status error none stamp = JobStatus.failed stamp error
failed_status error (some at) stamp = JobStatus.retrying at

stored_status :
    (b : MemoryBackend) (ctx : QueueCtx) (id : JobId) (r : JobRecord)
    → Dict.get b.jobs id ≡ some r
    → r.tenant_id ≡ ctx.tenant_id
    → get_status b ctx id ≡ ok r.status
unfolding get_status
stored_status b ctx id r found tenant =
    rw ((find_job_iff b ctx id r).1 (record { found = found; tenant = tenant }))

ack_complete-status :
    (b : MemoryBackend) (ctx : QueueCtx) (id : JobId) (token : LeaseToken) (result : Option String)
    (now stamp : ℕ) (r : JobRecord)
    → Held b ctx id token now r
    → ((ack_complete b ctx id token result now stamp).0 ≡ ok tt)
      × (get_status (ack_complete b ctx id token result now stamp).1 ctx id
          ≡ ok (JobStatus.completed stamp))
unfolding complete put_job send
ack_complete-status b ctx id token result now stamp r held =
    rw (ack_complete-done b ctx id token result now stamp r held) (
      refl,
      stored_status (done b ctx id r result now stamp) ctx id _ (get-put_self b.jobs id _)
          held.tenant,
    )

ack_fail-status :
    (b : MemoryBackend) (ctx : QueueCtx) (id : JobId) (token : LeaseToken) (error : String)
    (retry_at : Option ℕ) (now stamp : ℕ) (r : JobRecord)
    → Held b ctx id token now r
    → ((ack_fail b ctx id token error retry_at now stamp).0 ≡ ok tt)
      × (get_status (ack_fail b ctx id token error retry_at now stamp).1 ctx id
          ≡ ok (failed_status error retry_at stamp))
unfolding ack_fail retry_job fail schedule_retry set_error put_job send insert_entry
ack_fail-status b ctx id token error none now stamp r held =
    rw ((owned_lease_iff b ctx id token now r).1 held, ack_fail)
      (refl, stored_status _ ctx id _ (get-put_self b.jobs id _) held.tenant)
ack_fail-status b ctx id token error (some at) now stamp r held =
    rw ((owned_lease_iff b ctx id token now r).1 held, ack_fail)
      (refl, stored_status _ ctx id _ (get-put_self b.jobs id _) held.tenant)

module _ (sample : ℕ → ℕ) (add_seconds : ℕ → ℕ → ℕ) (to_string : QueueError → String) where
  -- When a failed job runs again: at the calculated time, if the error is of the kind that may be
  -- retried and the attempts so far do not exceed the retries.
  abbrev pub allowed : Worker → JobRecord → JobError → Clock → Option ℕ
  allowed w r (JobError.permanent msg) t = none
  allowed w r (JobError.retryable msg) t =
      if leb r.attempt r.message.max_retries
      then some (calculate_retry_time sample add_seconds w.config r.attempt t.failed)
      else none

  retry_time_lem :
      (w : Worker) (r : JobRecord) (e : JobError) (t : Clock)
      → retry_time sample add_seconds to_string w r e t ≡ allowed w r e t
  unfolding retry_time
  retry_time_lem w r (JobError.permanent msg) t = refl
  retry_time_lem w r (JobError.retryable msg) t = refl

  -- The status in which a worker leaves the job of a lease.
  abbrev pub verdict : Worker → Handler → LeasedJob → Clock → JobStatus
  verdict w handler l t = elim (decode_job_payload w.codecs l.record_.message) [
    | err e ↦ JobStatus.failed t.ack_stamp (decode_error sample add_seconds to_string e)
    | ok bytes ↦ elim (handler (record (l.record_.message) { payload_bytes = bytes })) [
      | Execution.success result ↦ JobStatus.completed t.ack_stamp
      | Execution.failure e ↦ failed_status (display e) (allowed w l.record_ e t) t.ack_stamp
    ]
  ]

  Leaves : Processed → QueueCtx → JobId → JobStatus → Type 0
  Leaves p ctx id s = (p.0 ≡ ok true) × (get_status p.2 ctx id ≡ ok s)

  acknowledge-Leaves :
      (w : Worker) (l : LeasedJob) (x : Execution) (t : Clock) (b : MemoryBackend) (r : JobRecord)
      → Held b w.ctx l.record_.job_id l.lease_token t.acked r
      → Leaves (acknowledge sample add_seconds to_string w l x t b) w.ctx l.record_.job_id (elim x [
        | Execution.success result ↦ JobStatus.completed t.ack_stamp
        | Execution.failure e ↦ failed_status (display e) (allowed w l.record_ e t) t.ack_stamp
      ])
  unfolding acknowledge finish give_back Leaves
  acknowledge-Leaves w l (Execution.success result) t b r held =
      let (said, left) =
        ack_complete-status b w.ctx l.record_.job_id l.lease_token result t.acked t.ack_stamp r
          held in
      rw (said, finish) (refl, left)
  acknowledge-Leaves w l (Execution.failure e) t b r held =
      let at = retry_time sample add_seconds to_string w l.record_ e t in
      let (said, left) =
        ack_fail-status b w.ctx l.record_.job_id l.lease_token (display e) at t.acked t.ack_stamp r
          held in
      rw (said, give_back)
        (
          refl,
          subst
              (λ x.
                get_status
                  (ack_fail b w.ctx l.record_.job_id l.lease_token (display e) at t.acked
                    t.ack_stamp).1
                  w.ctx l.record_.job_id
                ≡ ok (failed_status (display e) x t.ack_stamp))
              (retry_time_lem w l.record_ e t) left,
        )

  -- If a handler of the job's type is registered and the worker still holds a running lease when it
  -- acknowledges, then its call succeeds and the job is left as the payload, the handler's answer and the attempts decide: failed if the payload
  -- cannot be decoded, completed on success, waiting for a retry on an error that may be retried
  -- while the attempts do not exceed the retries, and failed otherwise.
  pub process_leased-verdict :
      (w : Worker) (l : LeasedJob) (t : Clock) (b b' : MemoryBackend) (handler : Handler)
      (r : JobRecord)
      → get_handler w.handlers l.record_.message.job_type ≡ ok handler
      → Held b' w.ctx l.record_.job_id l.lease_token t.acked r
      → ((process_leased sample add_seconds to_string w l t b b').0 ≡ ok true)
        × (get_status
              (process_leased sample add_seconds to_string w l t b b').2
              w.ctx
              l.record_.job_id
            ≡ ok (verdict w handler l t))
  unfolding process_leased run_job reject Leaves
  process_leased-verdict w l t b b' handler r at held =
      rw (at, process_leased)
        (elim (Result-cases (decode_job_payload w.codecs l.record_.message)) [
          | inl (e, h) ↦
              rw (verdict, h, run_job)
                (
                  refl,
                  (ack_fail-status b' w.ctx l.record_.job_id l.lease_token
                      (decode_error sample add_seconds to_string e) none t.acked t.ack_stamp r
                      held).1,
                )
          | inr (bytes, h) ↦
              rw (verdict, h, run_job)
                (acknowledge-Leaves w l
                  (handler (record (l.record_.message) { payload_bytes = bytes })) t b' r held)
        ])

  -- Once a job has run more often than it has retries, its worker leaves it at its end, if a handler
  -- of its type is registered and the worker still holds a running lease when it acknowledges.
  pub process_leased-last :
      (w : Worker) (l : LeasedJob) (t : Clock) (b b' : MemoryBackend) (handler : Handler)
      (r : JobRecord)
      → get_handler w.handlers l.record_.message.job_type ≡ ok handler
      → Held b' w.ctx l.record_.job_id l.lease_token t.acked r
      → l.record_.message.max_retries < l.record_.attempt
      → (s : JobStatus) × (get_status
            (process_leased sample add_seconds to_string w l t b b').2
            w.ctx
            l.record_.job_id
          ≡ ok s)
        × (is_terminal s ≡ true)
  process_leased-last w l t b b' handler r at held spent = (
    verdict w handler l t,
    (process_leased-verdict w l t b b' handler r at held).1,
    ended (decode_job_payload w.codecs l.record_.message),
  )
    where
      no_retry : (e : JobError) → allowed w l.record_ e t ≡ none
      no_retry (JobError.permanent msg) = refl
      no_retry (JobError.retryable msg) = ground arith

      after :
          (x : Execution)
          → is_terminal (elim x as (λ _. JobStatus) [
            | Execution.success result ↦ JobStatus.completed t.ack_stamp
            | Execution.failure e ↦ failed_status (display e) (allowed w l.record_ e t) t.ack_stamp
          ])
            ≡ true
      after (Execution.success result) = refl
      after (Execution.failure e) = rw (no_retry e) refl

      ended :
          (d : QueueResult (List ℕ))
          → is_terminal (elim d as (λ _. JobStatus) [
            | err e ↦ JobStatus.failed t.ack_stamp (decode_error sample add_seconds to_string e)
            | ok bytes ↦
                elim (handler (record (l.record_.message) { payload_bytes = bytes }))
                  as (λ _. JobStatus) [
                    | Execution.success result ↦ JobStatus.completed t.ack_stamp
                    | Execution.failure e ↦
                        failed_status (display e) (allowed w l.record_ e t) t.ack_stamp
                  ]
          ])
            ≡ true
      ended (err e) = refl
      ended (ok bytes) = after (handler (record (l.record_.message) { payload_bytes = bytes }))

  -- If a job of the worker's tenant was canceled while its handler ran, the backend stays as it is. A worker whose
  -- handler succeeded takes that for a processed job; one whose handler failed returns the error
  -- `JobCanceled`.
  pub canceled_mid_flight :
      (w : Worker) (l : LeasedJob) (t : Clock) (b : MemoryBackend) (r : JobRecord) (at : ℕ)
      → Visible b w.ctx l.record_.job_id r
      → r.status ≡ JobStatus.canceled at
      → ((result : Option String)
          → acknowledge sample add_seconds to_string w l (Execution.success result) t b
            ≡ (ok true, Observation.execution_time ∷ [], b))
        × ((e : JobError)
            → acknowledge sample add_seconds to_string w l (Execution.failure e) t b
              ≡ (err QueueError.job_canceled, Observation.execution_time ∷ [], b))
  unfolding acknowledge finish give_back
  canceled_mid_flight w l t b r at seen status =
      let (completes, fails, _) =
        canceled_refuses b w.ctx l.record_.job_id r at seen status l.lease_token t.acked
          t.ack_stamp in
      (
        λ result. rw (completes result, finish) (rw (completes result) refl),
        λ e.
            rw
              (
                fails (display e) (retry_time sample add_seconds to_string w l.record_ e t),
                give_back,
              )
              (rw (fails (display e) (retry_time sample add_seconds to_string w l.record_ e t))
                refl),
      )
