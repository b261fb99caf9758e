-- ===== src/Queue/Memory/Progress.antt =====
-- When `dequeue` cannot come back empty-handed.
use dogrs.Base.{
  ℕ, ◌+◌, ◌≤◌, ◌<◌, ◌≡◌, refl, inl, inr, subst, sym, String, Bool, true, Option, none, some, List,
  [], ◌∷◌, arith, string_eq, All, In, here, there, any, leb, Option-cases,
}
use dogrs.Dict
use dogrs.Dict.{Dict}
use dogrs.Queue.Ctx.{QueueCtx}
use dogrs.Queue.Error.{ok}
use dogrs.Queue.Memory.{MemoryBackend, TenantQueues}
use dogrs.Queue.Memory.Dequeue.{
  is_waiting, pop_entry, lease_job, dequeue_from, has_candidate, has_due, dequeue, grant,
  leased_record,
}
use dogrs.Queue.Memory.Queues.{queue_of, entries_of, pop_entry_lem, PopResult}
use dogrs.Queue.Order.{QueueEntry}
use dogrs.Queue.Order.Laws.{All-Taken}
use dogrs.Queue.Record.{JobId, JobRecord, LeasedJob, LeaseToken}

any-In {ℓ} :
    {A : Type ℓ} (p : A → Bool) (x : A) (xs : List A) → In x xs → p x ≡ true → any p xs ≡ true
unfolding any
any-In p x [] m h = elim m [ ]
any-In p x (y ∷ ys) (here e) h = rw (← e, h) refl
any-In p x (y ∷ ys) (there m) h = ground (arith, any-In p x ys m h)

All-In {ℓ κ} : {A : Type ℓ} (P : A → Type κ) (x : A) (xs : List A) → In x xs → All P xs → P x
All-In P x [] m h = elim m [ ]
All-In P x (y ∷ ys) (here e) h = subst P (sym e) h.0
All-In P x (y ∷ ys) (there m) h = All-In P x ys m h.1

abbrev WaitingJob : Option JobRecord → Type 0
WaitingJob none = ⊥
WaitingJob (some r) = is_waiting r.status ≡ true

-- The job of the entry waits.
abbrev pub Waits : Dict JobId JobRecord → QueueEntry → Type 0
Waits jobs e = WaitingJob (Dict.get jobs e.job_id)

has_due-In :
    (tq : Dict String (List QueueEntry)) (name : String) (now : ℕ) (e : QueueEntry)
    → In e (entries_of tq name)
    → e.run_at ≤ now
    → has_due tq now name ≡ true
unfolding has_due entries_of Dict.get_or_default
has_due-In tq name now e m h = elim (Option-cases (Dict.get tq name)) [
  | inl n ↦ elim (subst (In e) (entries n) m) [ ]
  | inr (q, n) ↦
      rw (n, has_due)
        (any-In (λ (f : QueueEntry). leb f.run_at now) e q (subst (In e) (listed q n) m)
          (ground arith))
]
  where
    entries : Dict.get tq name ≡ none → entries_of tq name ≡ []
    entries n = ground arith

    listed : (q : List QueueEntry) → Dict.get tq name ≡ some q → entries_of tq name ≡ q
    listed q n = ground arith

has_candidate-In :
    (queues : TenantQueues) (tenant name : String) (now : ℕ) (e : QueueEntry)
    → In e (queue_of queues tenant name)
    → e.run_at ≤ now
    → has_candidate queues tenant (name ∷ []) now ≡ true
unfolding has_candidate queue_of any
has_candidate-In queues tenant name now e m h = elim (Option-cases (Dict.get queues tenant)) [
  | inl n ↦ elim (subst (In e) (nothing n) m) [ ]
  | inr (tq, n) ↦
      rw (n, has_candidate) (rw (has_due-In tq name now e (subst (In e) (listed tq n) m) h) refl)
]
  where
    nothing : Dict.get queues tenant ≡ none → queue_of queues tenant name ≡ []
    nothing n = ground arith

    listed :
        (tq : Dict String (List QueueEntry))
        → Dict.get queues tenant ≡ some tq
        → queue_of queues tenant name ≡ entries_of tq name
    listed tq n = ground arith

lease_job-Waits :
    (b : MemoryBackend) (e : QueueEntry) (token : LeaseToken) (now stamp : ℕ)
    → Waits b.jobs e
    → (l : LeasedJob) × ((lease_job b e.job_id token now stamp).0 ≡ some l)
unfolding lease_job grant
lease_job-Waits b e token now stamp w = elim (Option-cases (Dict.get b.jobs e.job_id)) [
  | inl n ↦ absurd (subst WaitingJob n w)
  | inr (r, n) ↦ (
    record {
      record_ = leased_record r token (now + b.lease_duration) stamp;
      lease_token = token;
      lease_until = now + b.lease_duration;
    },
    rw (n, lease_job) (rw (subst WaitingJob n w) refl),
  )
]

-- If every entry of a queue is that of a waiting job, and one of them is due, then `dequeue` on that
-- queue hands out a job.
pub dequeue-progress :
    (b : MemoryBackend) (ctx : QueueCtx) (name : String) (token : LeaseToken) (now stamp : ℕ)
    (e : QueueEntry)
    → All (Waits b.jobs) (queue_of b.queues ctx.tenant_id name)
    → In e (queue_of b.queues ctx.tenant_id name)
    → e.run_at ≤ now
    → (l : LeasedJob) × ((dequeue b ctx (name ∷ []) token now stamp).0 ≡ ok (some l))
unfolding dequeue dequeue_from
dequeue-progress b ctx name token now stamp e live m h =
    let b' : MemoryBackend = record b { queues = (pop_entry b.queues ctx.tenant_id name now).1 } in
    elim (Option-cases (pop_entry b.queues ctx.tenant_id name now).0) [
      | inl n ↦ absurd (late (All-In (λ f. now < f.run_at) e _ m (result none n).0))
      | inr (e', n) ↦
          let (l, leased) =
            lease_job-Waits b' e' token now stamp
              (All-Taken (Waits b.jobs) (result (some e') n) live).0 in
          (
            l,
            rw (has_candidate-In b.queues ctx.tenant_id name now e m h, dequeue)
                (rw (n, dequeue_from, leased) refl),
          )
    ]
  where
    late : now < e.run_at → ⊥
    late x = omega arith

    result :
        (o : Option QueueEntry)
        → (pop_entry b.queues ctx.tenant_id name now).0 ≡ o
        → PopResult now
            (queue_of b.queues ctx.tenant_id name)
            o
            (queue_of (pop_entry b.queues ctx.tenant_id name now).1 ctx.tenant_id name)
    result o n =
        subst
          (λ x.
            PopResult now (queue_of b.queues ctx.tenant_id name) x
              (queue_of (pop_entry b.queues ctx.tenant_id name now).1 ctx.tenant_id name))
          n (pop_entry_lem b.queues ctx.tenant_id name now)
