-- ===== src/Queue/Memory/Outcomes.antt =====
-- What a caller of the in-memory backend is told, and what its call has then done.
use dogrs.Base.{
  ℕ, ◌≡◌, ◌≢◌, ◌↔◌, ◌⊎◌, refl, inl, inr, ap, String, true, false, Option, none, some, arith,
  string_eq, str_beq_ne, Bool-cases,
}
use dogrs.Dict
use dogrs.Dict.{Dict, get-put_self}
use dogrs.Queue.Ctx.{QueueCtx}
use dogrs.Queue.Error.{QueueError, ok, err, Result-cases}
use dogrs.Queue.Event.{JobEvent}
use dogrs.Queue.Memory.{MemoryBackend, put_job, send}
use dogrs.Queue.Memory.Ack.{
  find_job, owned_lease, require_lease, holds, ack_complete, ack_fail, cancel, heartbeat_job,
  heartbeat_extend, extend_lease, get_record, get_status,
}
use dogrs.Queue.Memory.Checks.{Held, Visible, owned_lease_iff, find_job_iff}
use dogrs.Queue.Memory.Interleaving.{World, Reach, Step}
use dogrs.Queue.Memory.Interleaving.Laws.{
  start, Reach-terminal, Reach-Sound, Step-Sound, start-Sound,
}
use dogrs.Queue.Record.{
  JobId, JobRecord, JobStatus, LeaseToken, is_terminal, is_processing, lease_expired, lease_until,
  complete, set_error,
}
use dogrs.Queue.Record

-- The backend after a completion.
abbrev pub done :
    MemoryBackend → QueueCtx → JobId → JobRecord → Option String → ℕ → ℕ → MemoryBackend
done b ctx id r result now stamp =
    send (put_job b id (complete (record r { result = result }) stamp))
      (JobEvent.completed id ctx.tenant_id now)

pub ack_complete-done :
    (b : MemoryBackend) (ctx : QueueCtx) (id : JobId) (token : LeaseToken) (result : Option String)
    (now stamp : ℕ) (r : JobRecord)
    → Held b ctx id token now r
    → ack_complete b ctx id token result now stamp ≡ (ok tt, done b ctx id r result now stamp)
unfolding ack_complete
ack_complete-done b ctx id token result now stamp r held =
    rw ((owned_lease_iff b ctx id token now r).1 held, ack_complete) refl

get_record-put :
    (b : MemoryBackend) (ctx : QueueCtx) (id : JobId) (r : JobRecord) (event : JobEvent)
    → r.tenant_id ≡ ctx.tenant_id
    → get_record (send (put_job b id r) event) ctx id ≡ ok r
unfolding get_record put_job send
get_record-put b ctx id r event tenant =
    (find_job_iff (send (put_job b id r) event) ctx id r).1
      (record { found = get-put_self b.jobs id r; tenant = tenant })

ack_complete-Held :
    (b : MemoryBackend) (ctx : QueueCtx) (id : JobId) (token : LeaseToken) (result : Option String)
    (now stamp : ℕ)
    → (ack_complete b ctx id token result now stamp).0 ≡ ok tt
    → (r : JobRecord) × Held b ctx id token now r
unfolding ack_complete
ack_complete-Held b ctx id token result now stamp h =
    elim (Result-cases (owned_lease b ctx id token now)) [
      | inl (e, w) ↦ absurd (ground arith)
      | inr (r, w) ↦ (r, (owned_lease_iff b ctx id token now r).0 w)
    ]

-- `ack_complete` answers Ok exactly if there is a record of the job that belongs to the caller's
-- tenant, is at no end, is leased under the token and whose lease has not run out; `get_record` then
-- returns this record with the result, completed, with no lease and otherwise only `updated_at`
-- changed. If it does not answer Ok, the backend is as before.
pub ack_complete_iff :
    (b : MemoryBackend) (ctx : QueueCtx) (id : JobId) (token : LeaseToken) (result : Option String)
    (now stamp : ℕ)
    → ((ack_complete b ctx id token result now stamp).0 ≡ ok tt
        ↔ (r : JobRecord) × Held b ctx id token now r)
      × ((r : JobRecord)
          → Held b ctx id token now r
          → get_record (ack_complete b ctx id token result now stamp).1 ctx id
            ≡ ok (record r {
              status = JobStatus.completed stamp;
              result = result;
              lease_token = none;
              updated_at = stamp;
            }))
      × (((ack_complete b ctx id token result now stamp).0 ≡ ok tt)
          ⊎ ((ack_complete b ctx id token result now stamp).1 ≡ b))
unfolding ack_complete complete
ack_complete_iff b ctx id token result now stamp = (
  (
    ack_complete-Held b ctx id token result now stamp,
    λ (r, held). rw ((owned_lease_iff b ctx id token now r).1 held, ack_complete) refl,
  ),
  λ r held.
      rw ((owned_lease_iff b ctx id token now r).1 held, ack_complete)
        (get_record-put b ctx id _ _ held.tenant),
  ground arith,
)

-- Each operation on one job succeeds or leaves the backend as it was.
pub refused_keeps :
    (b : MemoryBackend) (ctx : QueueCtx) (id : JobId) (token : LeaseToken) (result : Option String)
    (error : String) (retry_at : Option ℕ) (from_std : ℕ → Option ℕ) (extra now stamp : ℕ)
    → (((ack_complete b ctx id token result now stamp).0 ≡ ok tt)
        ⊎ ((ack_complete b ctx id token result now stamp).1 ≡ b))
      × (((ack_fail b ctx id token error retry_at now stamp).0 ≡ ok tt)
          ⊎ ((ack_fail b ctx id token error retry_at now stamp).1 ≡ b))
      × (((heartbeat_extend from_std b ctx id token extra now).0 ≡ ok tt)
          ⊎ ((heartbeat_extend from_std b ctx id token extra now).1 ≡ b))
      × (((cancel b ctx id now stamp).0 ≡ ok true) ⊎ ((cancel b ctx id now stamp).1 ≡ b))
unfolding ack_complete ack_fail heartbeat_extend extend_lease cancel
refused_keeps b ctx id token result error retry_at from_std extra now stamp =
    (ground arith, ground arith, ground arith, ground arith)

-- A job of another tenant looks like one that does not exist, to every operation on one job.
pub foreign_not_found :
    (b : MemoryBackend) (ctx : QueueCtx) (id : JobId) (r : JobRecord) (token : LeaseToken)
    (now stamp : ℕ)
    → Dict.get b.jobs id ≡ some r
    → r.tenant_id ≢ ctx.tenant_id
    → ((result : Option String)
        → ack_complete b ctx id token result now stamp ≡ (err (QueueError.job_not_found id), b))
      × ((error : String) (retry_at : Option ℕ)
          → ack_fail b ctx id token error retry_at now stamp
            ≡ (err (QueueError.job_not_found id), b))
      × ((from_std : ℕ → Option ℕ) (extra : ℕ)
          → heartbeat_extend from_std b ctx id token extra now
            ≡ (err (QueueError.job_not_found id), b))
      × (cancel b ctx id now stamp ≡ (err (QueueError.job_not_found id), b))
      × (get_status b ctx id ≡ err (QueueError.job_not_found id))
      × (get_record b ctx id ≡ err (QueueError.job_not_found id))
unfolding ack_complete ack_fail heartbeat_extend cancel get_status get_record owned_lease
    heartbeat_job
foreign_not_found b ctx id r token now stamp found foreign = (
  λ result. rw (miss, owned_lease, ack_complete),
  λ error retry_at. rw (miss, owned_lease, ack_fail),
  λ from_std extra. rw (miss, heartbeat_job, heartbeat_extend),
  rw (miss, cancel),
  rw (miss, get_status),
  miss,
)
  where
    miss : find_job b ctx id ≡ err (QueueError.job_not_found id)
    miss = unfold find_job in ground (arith, str_beq_ne r.tenant_id ctx.tenant_id foreign)

holds-ne : (o : Option LeaseToken) (token : LeaseToken) → o ≢ some token → holds o token ≡ false
holds-ne none token h = refl
holds-ne (some t) token h = str_beq_ne t token (λ e. h (ap some e))

-- A job at its end refuses its worker: with `JobCanceled` if it was canceled.
pub canceled_refuses :
    (b : MemoryBackend) (ctx : QueueCtx) (id : JobId) (r : JobRecord) (at : ℕ)
    → Visible b ctx id r
    → r.status ≡ JobStatus.canceled at
    → (token : LeaseToken) (now stamp : ℕ)
    → ((result : Option String)
        → ack_complete b ctx id token result now stamp ≡ (err QueueError.job_canceled, b))
      × ((error : String) (retry_at : Option ℕ)
          → ack_fail b ctx id token error retry_at now stamp ≡ (err QueueError.job_canceled, b))
      × ((from_std : ℕ → Option ℕ) (extra : ℕ)
          → heartbeat_extend from_std b ctx id token extra now ≡ (err QueueError.job_canceled, b))
unfolding ack_complete ack_fail heartbeat_extend owned_lease require_lease heartbeat_job
canceled_refuses b ctx id r at seen status token now stamp = (
  λ result. rw (found, owned_lease, ack_complete) (rw (status, require_lease)),
  λ error retry_at. rw (found, owned_lease, ack_fail) (rw (status, require_lease)),
  λ from_std extra. rw (found, heartbeat_job, heartbeat_extend) (rw status),
)
  where
    found : find_job b ctx id ≡ ok r
    found = (find_job_iff b ctx id r).1 seen

-- What `cancel` leaves when it says that it canceled.
pub cancel-true :
    (b : MemoryBackend) (ctx : QueueCtx) (id : JobId) (now stamp : ℕ)
    → (cancel b ctx id now stamp).0 ≡ ok true
    → (r : JobRecord) × Visible (cancel b ctx id now stamp).1 ctx id r
      × (r.status ≡ JobStatus.canceled stamp)
unfolding cancel
cancel-true b ctx id now stamp h = elim (Result-cases (find_job b ctx id)) [
  | inl (e, w) ↦ absurd (ground arith)
  | inr (r, w) ↦ elim (Bool-cases (is_terminal r.status)) [
    | inl end ↦ absurd (ground arith)
    | inr live ↦
        let seen = (find_job_iff b ctx id r).0 w in
        rw (w, cancel, live)
          (
            Record.cancel r stamp,
            unfold put_job send Record.cancel in
                record { found = get-put_self b.jobs id _; tenant = seen.tenant },
            unfold Record.cancel in refl,
          )
  ]
]

-- Cancel wins. Once `cancel` has answered `true` in a world that the tasks can reach from a new
-- backend, then whatever they do afterwards, the job's tenant finds `JobCanceled` when it
-- acknowledges the job or extends its lease, under any token, and nothing changes.
pub cancel_wins :
    {w x : World} (duration : ℕ) (ctx : QueueCtx) (id : JobId) (at now stamp : ℕ)
    (token : LeaseToken)
    → Reach (start duration) w
    → (cancel w.backend ctx id at stamp).0 ≡ ok true
    → Reach (record w { backend = (cancel w.backend ctx id at stamp).1 }) x
    → ((result : Option String)
        → ack_complete x.backend ctx id token result now stamp
          ≡ (err QueueError.job_canceled, x.backend))
      × ((error : String) (retry_at : Option ℕ)
          → ack_fail x.backend ctx id token error retry_at now stamp
            ≡ (err QueueError.job_canceled, x.backend))
      × ((from_std : ℕ → Option ℕ) (extra : ℕ)
          → heartbeat_extend from_std x.backend ctx id token extra now
            ≡ (err QueueError.job_canceled, x.backend))
cancel_wins {w} {x} duration ctx id at now stamp token before said after =
    let (r, seen, status) = cancel-true w.backend ctx id at stamp said in
    let sound =
      Step-Sound {w = w} (Step.canceled ctx id at stamp)
        (Reach-Sound before (start-Sound duration)) in
    let still = Reach-terminal id r after sound seen.found (rw status) in
    canceled_refuses x.backend ctx id r stamp (record { found = still; tenant = seen.tenant })
      status token now stamp

-- Under a token that is not the job's, a worker is told so, and nothing changes.
pub stale_refused :
    (b : MemoryBackend) (ctx : QueueCtx) (id : JobId) (r : JobRecord) (token : LeaseToken)
    (now stamp : ℕ)
    → Visible b ctx id r
    → is_terminal r.status ≡ false
    → r.lease_token ≢ some token
    → ((result : Option String)
        → ack_complete b ctx id token result now stamp
          ≡ (err (QueueError.invalid_lease_token id), b))
      × ((error : String) (retry_at : Option ℕ)
          → ack_fail b ctx id token error retry_at now stamp
            ≡ (err (QueueError.invalid_lease_token id), b))
unfolding ack_complete ack_fail owned_lease
stale_refused b ctx id r token now stamp seen live other = (
  λ result. rw (found, owned_lease, ack_complete) (rw refuse),
  λ error retry_at. rw (found, owned_lease, ack_fail) (rw refuse),
)
  where
    found : find_job b ctx id ≡ ok r
    found = (find_job_iff b ctx id r).1 seen

    refuse : require_lease r id token now ≡ err (QueueError.invalid_lease_token id)
    refuse = unfold require_lease in ground (arith, holds-ne r.lease_token token other)
