-- ===== src/Queue/Memory/Reaped.antt =====
-- What a cycle of the reaper achieves.
use dogrs.Base.{
  ℕ, ◌≤◌, String, ◌≡◌, refl, inl, inr, ap, sym, true, false, Option, some, List, [], ◌∷◌, arith,
  ◌==◌, string_eq, str_beq_iff, Bool-cases, Option-cases, ltb, In, here, there,
}
use dogrs.Dict
use dogrs.Dict.{Dict, get-put, get-put_self, iter-get, get-iter}
use dogrs.Queue.Ctx.{QueueCtx}
use dogrs.Queue.Error.{QueueError, err}
use dogrs.Queue.Event.{JobEvent}
use dogrs.Queue.Memory.{MemoryBackend, put_job, insert_entry, send}
use dogrs.Queue.Memory.Ack.{ack_complete, ack_fail}
use dogrs.Queue.Memory.Checks.{Held, Visible}
use dogrs.Queue.Memory.Outcomes.{stale_refused}
use dogrs.Queue.Memory.Reaper.{
  Requeue, Reaping, expired_among, expired_ids, reap_job, reap_jobs, requeue, give_up, cleared,
  LeaseReaper, requeue_all, send_all, start_reaping, reap_expired_leases,
}
use dogrs.Queue.Record.{JobId, JobRecord, LeaseToken, lease_expired, set_error}

In-expired_among :
    (l : List (JobId × JobRecord)) (now : ℕ) (id : JobId) (r : JobRecord)
    → In (id, r) l
    → lease_expired r now ≡ true
    → In id (expired_among l now)
unfolding expired_among
In-expired_among [] now id r m h = elim m [ ]
In-expired_among ((j, s) ∷ l) now id r (here e) h =
    rw (sym (ap (λ (x : JobId × JobRecord). x.1) e))
      (rw h (here (ap (λ (x : JobId × JobRecord). x.0) e)))
In-expired_among ((j, s) ∷ l) now id r (there m) h =
    let rest = In-expired_among l now id r m h in
    elim (Bool-cases (lease_expired s now)) [ inl x ↦ rw x (there rest) | inr x ↦ rw x rest ]

pub In-expired_ids :
    (b : MemoryBackend) (now : ℕ) (id : JobId) (r : JobRecord)
    → Dict.get b.jobs id ≡ some r
    → lease_expired r now ≡ true
    → In id (expired_ids b now)
unfolding expired_ids
In-expired_ids b now id r found h =
    In-expired_among (Dict.iter b.jobs) now id r (get-iter b.jobs id r found) h

put-expired :
    (jobs : Dict JobId JobRecord) (id j : JobId) (r r' : JobRecord) (now : ℕ)
    → Dict.get (Dict.put jobs id r') j ≡ some r
    → lease_expired r' now ≡ false
    → lease_expired r now ≡ true
    → (Dict.get jobs j ≡ some r) × ((j == id) ≡ false)
put-expired jobs id j r r' now found fresh x = elim (Bool-cases (id == j)) [
  | inl hit ↦ absurd (ground (arith, get-put jobs id j r'))
  | inr miss ↦
      (ground (arith, get-put jobs id j r'), ground (arith, str_beq_iff id j, str_beq_iff j id))
]

-- What is still expired after the reaper has looked at a job is another, untouched job.
reap_job-expired :
    (s : Reaping) (backoff : ℕ) (id : JobId) (now stamp : ℕ) (j : JobId) (r : JobRecord)
    → Dict.get (reap_job s backoff id now stamp).backend.jobs j ≡ some r
    → lease_expired r now ≡ true
    → (Dict.get s.backend.jobs j ≡ some r) × ((j == id) ≡ false)
unfolding reap_job give_up requeue cleared set_error put_job
reap_job-expired s backoff id now stamp j r found x =
    elim (Option-cases (Dict.get s.backend.jobs id)) [
      | inl h ↦
          let at : Dict.get s.backend.jobs j ≡ some r = rw (h, reap_job) at found in
          (at, ground (arith, str_beq_iff j id))
      | inr (q, h) ↦ elim (Bool-cases (lease_expired q now)) [
        | inl y ↦ elim (Bool-cases (ltb q.message.max_retries q.attempt)) [
          | inl over ↦
              put-expired s.backend.jobs id j r _ now (rw (h, reap_job, y, over) at found) refl x
          | inr within ↦
              put-expired s.backend.jobs id j r _ now (rw (h, reap_job, y, within) at found) refl x
        ]
        | inr y ↦
            let at : Dict.get s.backend.jobs j ≡ some r = rw (h, reap_job, y) at found in
            (at, ground (arith, str_beq_iff j id))
      ]
    ]

reap_jobs-expired :
    (s : Reaping) (backoff : ℕ) (ids : List JobId) (now stamp : ℕ)
    → ((j : JobId) (r : JobRecord)
        → Dict.get s.backend.jobs j ≡ some r
        → lease_expired r now ≡ true
        → In j ids)
    → (j : JobId) (r : JobRecord)
    → Dict.get (reap_jobs s backoff ids now stamp).backend.jobs j ≡ some r
    → lease_expired r now ≡ true
    → ⊥
unfolding reap_jobs
reap_jobs-expired s backoff [] now stamp all j r found x = elim (all j r found x) [ ]
reap_jobs-expired s backoff (id ∷ ids) now stamp all j r found x =
    reap_jobs-expired (reap_job s backoff id now stamp) backoff ids now stamp
      (λ i q at y.
        let old = reap_job-expired s backoff id now stamp i q at y in
        later i (all i q old.0 y) old.1)
      j r found x
  where
    later : (j : JobId) → In j (id ∷ ids) → (j == id) ≡ false → In j ids
    later j (here e) miss = absurd (ground (arith, str_beq_iff j id))
    later j (there m) miss = m

queued-jobs : (b : MemoryBackend) (ks : List Requeue) → (requeue_all b ks).jobs ≡ b.jobs
unfolding requeue_all insert_entry
queued-jobs b [] = refl
queued-jobs b (k ∷ ks) = queued-jobs (insert_entry b k.tenant k.queue k.entry) ks

sent-jobs : (b : MemoryBackend) (es : List JobEvent) → (send_all b es).jobs ≡ b.jobs
unfolding send_all send
sent-jobs b [] = refl
sent-jobs b (e ∷ es) = sent-jobs (send b e) es

-- After a cycle of the reaper at `now` no job is left whose lease had run out by then.
pub reap-none_expired :
    (reaper : LeaseReaper) (b : MemoryBackend) (now stamp : ℕ) (id : JobId) (r : JobRecord)
    → Dict.get (reap_expired_leases reaper b now stamp).1.jobs id ≡ some r
    → lease_expired r now ≡ false
unfolding reap_expired_leases
reap-none_expired reaper b now stamp id r found = elim (Bool-cases (lease_expired r now)) [
  | inl x ↦ absurd (
      reap_jobs-expired (start_reaping b) reaper.base_retry_backoff (expired_ids b now) now stamp
        (In-expired_ids b now) id r (rw (sent-jobs, queued-jobs) at found) x)
  | inr h ↦ h
]

-- At one instant a lease can be acknowledged or reaped, never both: where an acknowledgement
-- would be accepted, the reaper leaves the job alone.
pub Held-not_reaped :
    (s : Reaping) (ctx : QueueCtx) (id : JobId) (token : LeaseToken) (now : ℕ) (r : JobRecord)
    (backoff stamp : ℕ)
    → Held s.backend ctx id token now r
    → reap_job s backoff id now stamp ≡ s
unfolding reap_job
Held-not_reaped s ctx id token now r backoff stamp held = ground (arith, held.found, held.timely)

-- A worker whose job the reaper has put back for a retry is refused: its token is no longer the
-- job's. (The answer is `InvalidLeaseToken`, since the job is at no end.)
pub reaped_refused :
    (s : Reaping) (ctx : QueueCtx) (id : JobId) (r : JobRecord) (token : LeaseToken)
    (backoff reaped_at now stamp : ℕ)
    → Visible s.backend ctx id r
    → lease_expired r reaped_at ≡ true
    → r.attempt ≤ r.message.max_retries
    → let b = (reap_job s backoff id reaped_at stamp).backend in
      ((result : Option String)
        → ack_complete b ctx id token result now stamp
          ≡ (err (QueueError.invalid_lease_token id), b))
      × ((error : String) (retry_at : Option ℕ)
          → ack_fail b ctx id token error retry_at now stamp
            ≡ (err (QueueError.invalid_lease_token id), b))
unfolding reap_job requeue cleared set_error put_job
reaped_refused s ctx id r token backoff reaped_at now stamp seen x within =
    let few : ltb r.message.max_retries r.attempt ≡ false = ground arith in
    rw (seen.found, reap_job, x, few)
      (stale_refused _ ctx id _ token now stamp
        (record { found = get-put_self s.backend.jobs id _; tenant = seen.tenant }) refl (λ e. cc))
