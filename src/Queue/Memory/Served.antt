-- ===== src/Queue/Memory/Served.antt =====
-- What job `dequeue` hands out.
use dogrs.Base.{
  ℕ, ◌+◌, ◌≤◌, ◌<◌, ◌⊎◌, ◌≡◌, refl, inl, inr, ap, ◌∙◌, sym, subst, String, Option, some, List, [],
  ◌∷◌, arith, string_eq, Bool-cases, Option-cases, All, In, here, there, true,
}
use dogrs.Dict
use dogrs.Dict.{Dict, get-put_self}
use dogrs.Queue.Ctx.{QueueCtx}
use dogrs.Queue.Error.{ok}
use dogrs.Queue.Memory.{MemoryBackend, put_job, send}
use dogrs.Queue.Memory.Dequeue.{
  is_waiting, pop_entry, lease_job, grant, leased_record, dequeue_from, has_candidate, dequeue,
}
use dogrs.Queue.Memory.Invariant.{Inv, due, Owned, Fits}
use dogrs.Queue.Memory.Invariant.Pops.{pop_entry-none-Inv, pop_entry-some-Inv, ticket}
use dogrs.Queue.Memory.Invariant.Flow.{lease_job-Inv}
use dogrs.Queue.Memory.Invariant.Jobs.{Owned-Fits}
use dogrs.Queue.Memory.Lifecycle.Calls.{lease_job-none}
use dogrs.Queue.Memory.Queues.{queue_of, pop_entry_lem, PopResult}
use dogrs.Queue.Order.{QueueEntry}
use dogrs.Queue.Order.Laws.{rank, Taken, Taken-due, Taken-highest, All-Taken}
use dogrs.Queue.Priority.{as_u8}
use dogrs.Queue.Record.{JobId, JobRecord, LeasedJob, LeaseToken}

-- A lease of a job that waited, was due and belongs to the tenant and to a queue that was asked
-- for, while nothing of higher priority that is due stays in that queue.
pub record Serves (jobs : Dict JobId JobRecord) (duration : ℕ) (ctx : QueueCtx)
    (names : List String) (token : LeaseToken) (now stamp : ℕ) (after : MemoryBackend)
    (l : LeasedJob) : Type 0 where
  pub id : JobId
  pub before : JobRecord
  pub found : Dict.get jobs id ≡ some before
  pub tenant : before.tenant_id ≡ ctx.tenant_id
  pub listed : In before.message.queue names
  pub waited : is_waiting before.status ≡ true
  pub was_due : due before ≤ now
  pub leased : l.record_ ≡ leased_record before token (now + duration) stamp
  pub token_given : l.lease_token ≡ token
  pub until : l.lease_until ≡ now + duration
  pub stored : Dict.get after.jobs id ≡ some l.record_
  pub highest :
      All
        (λ f. (now < f.run_at) ⊎ (rank f ≤ as_u8 before.message.priority))
        (queue_of after.queues ctx.tenant_id before.message.queue)

-- The lease of a popped entry.
lease_job-some :
    (b : MemoryBackend) (id : JobId) (token : LeaseToken) (now stamp : ℕ) (l : LeasedJob)
    → (lease_job b id token now stamp).0 ≡ some l
    → (r : JobRecord) × (Dict.get b.jobs id ≡ some r)
      × (is_waiting r.status ≡ true)
      × (l ≡ record {
        record_ = leased_record r token (now + b.lease_duration) stamp;
        lease_token = token;
        lease_until = now + b.lease_duration;
      })
      × (Dict.get (lease_job b id token now stamp).1.jobs id ≡ some l.record_)
      × ((lease_job b id token now stamp).1.queues ≡ b.queues)
unfolding lease_job grant put_job send
lease_job-some b id token now stamp l h = elim (Option-cases (Dict.get b.jobs id)) [
  | inl m ↦ absurd (ground arith)
  | inr (r, m) ↦ elim (Bool-cases (is_waiting r.status)) [
    | inl w ↦
        let r' : JobRecord = leased_record r token (now + b.lease_duration) stamp in
        let made : LeasedJob = record {
          record_ = r';
          lease_token = token;
          lease_until = now + b.lease_duration;
        } in
        let h' : some made ≡ some l = rw (m, lease_job, w) at h in
        let same : l ≡ made = cc in
        (
          r,
          m,
          w,
          same,
          rw (m, lease_job, w, same) (get-put_self b.jobs id r'),
          rw (m, lease_job, w) refl,
        )
    | inr w ↦ absurd (ground arith)
  ]
]

some_inv : (l l' : LeasedJob) → some l ≡ some l' → l ≡ l'
some_inv l l' h = cc

-- `dequeue` on the queues in turn.
dequeue_from-Serves :
    (b : MemoryBackend) (ctx : QueueCtx) (names : List String) (token : LeaseToken) (now stamp : ℕ)
    (l : LeasedJob)
    → Inv b []
    → (dequeue_from b ctx names token now stamp).0 ≡ some l
    → Serves b.jobs b.lease_duration ctx names token now stamp
        (dequeue_from b ctx names token now stamp).1
        l
unfolding dequeue_from
dequeue_from-Serves b ctx [] token now stamp l v h = cc
dequeue_from-Serves b ctx (name ∷ names) token now stamp l v h =
    let b' : MemoryBackend = record b { queues = (pop_entry b.queues ctx.tenant_id name now).1 } in
    elim (Option-cases (pop_entry b.queues ctx.tenant_id name now).0) [
      | inl n ↦
          rw (n, dequeue_from)
            (later (
              dequeue_from-Serves b' ctx names token now stamp l
                (pop_entry-none-Inv b ctx.tenant_id name now [] n v) (rw (n, dequeue_from) at h)))
      | inr (e, n) ↦ elim (Option-cases (lease_job b' e.job_id token now stamp).0) [
        | inl m ↦
            let still = lease_job-none b' e.job_id token now stamp m in
            let v' : Inv b' [] =
              subst (λ x. Inv x []) still
                (lease_job-Inv b' (ticket b ctx.tenant_id name now [] e) [] token now stamp
                  (pop_entry-some-Inv b ctx.tenant_id name now [] e n v)) in
            rw (n, dequeue_from, m, still)
              (later (
                dequeue_from-Serves b' ctx names token now stamp l v'
                  (rw (n, dequeue_from, m, still) at h)))
        | inr (l', m) ↦
            let same : l' ≡ l = some_inv l' l (rw (n, dequeue_from, m) at h) in
            rw (n, dequeue_from, m) (now_serves e n (m ∙ ap some same))
      ]
    ]
  where
    later :
        {after : MemoryBackend}
        → Serves b.jobs b.lease_duration ctx names token now stamp after l
        → Serves b.jobs b.lease_duration ctx (name ∷ names) token now stamp after l
    later s = record {
      id = s.id;
      before = s.before;
      found = s.found;
      tenant = s.tenant;
      listed = there s.listed;
      waited = s.waited;
      was_due = s.was_due;
      leased = s.leased;
      token_given = s.token_given;
      until = s.until;
      stored = s.stored;
      highest = s.highest;
    }

    now_serves :
        (e : QueueEntry)
        → (pop_entry b.queues ctx.tenant_id name now).0 ≡ some e
        → (lease_job
            (record b { queues = (pop_entry b.queues ctx.tenant_id name now).1 })
            e.job_id
            token
            now
            stamp).0
          ≡ some l
        → Serves b.jobs b.lease_duration ctx
            (name ∷ names)
            token
            now
            stamp
            (lease_job
              (record b { queues = (pop_entry b.queues ctx.tenant_id name now).1 })
              e.job_id
              token
              now
              stamp).1
            l
    now_serves e n m =
        let b' : MemoryBackend = record b {
          queues = (pop_entry b.queues ctx.tenant_id name now).1;
        } in
        let taken : Taken now (queue_of b.queues ctx.tenant_id name) e
            (queue_of b'.queues ctx.tenant_id name) =
          subst
            (λ o.
              PopResult now (queue_of b.queues ctx.tenant_id name) o
                (queue_of b'.queues ctx.tenant_id name))
            n (pop_entry_lem b.queues ctx.tenant_id name now) in
        let (r, found, waits, same, stored, queues) =
          lease_job-some b' e.job_id token now stamp l m in
        let fits : Fits r ctx.tenant_id name e =
          Owned-Fits b.jobs ctx.tenant_id name e r found
            (All-Taken (Owned b.jobs ctx.tenant_id name) taken (v.owned ctx.tenant_id name)).0 in
        record {
          id = e.job_id;
          before = r;
          found = found;
          tenant = fits.same_tenant;
          listed = here fits.same_queue;
          waited = waits;
          was_due = subst (λ t. t ≤ now) (fits.same_time waits) (Taken-due taken);
          leased = ap (λ (x : LeasedJob). x.record_) same;
          token_given = ap (λ (x : LeasedJob). x.lease_token) same;
          until = ap (λ (x : LeasedJob). x.lease_until) same;
          stored = stored;
          highest =
              rw (queues, fits.same_queue, sym fits.same_priority)
                (Taken-highest now taken (v.sorted ctx.tenant_id name));
        }

-- If the backend's invariant holds, what `dequeue` hands out is a job of the caller's tenant, from a
-- queue that was asked for, that waited and was due. It carries the caller's token and a lease of the configured length, it is what
-- the backend stores for the job, and no due entry that stays in that queue has a higher priority.
pub dequeue-Serves :
    (b : MemoryBackend) (ctx : QueueCtx) (names : List String) (token : LeaseToken) (now stamp : ℕ)
    (l : LeasedJob)
    → Inv b []
    → (dequeue b ctx names token now stamp).0 ≡ ok (some l)
    → Serves b.jobs b.lease_duration ctx names token now stamp
        (dequeue b ctx names token now stamp).1
        l
unfolding dequeue
dequeue-Serves b ctx names token now stamp l v h =
    elim (Bool-cases (has_candidate b.queues ctx.tenant_id names now)) [
      | inl c ↦
          rw (c, dequeue)
            (dequeue_from-Serves b ctx names token now stamp l v
              (ok_inv _ _ (rw (c, dequeue) at h)))
      | inr c ↦ absurd (ground arith)
    ]
  where
    ok_inv : (x y : Option LeasedJob) → ok x ≡ ok y → x ≡ y
    ok_inv x y e = cc
