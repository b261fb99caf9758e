-- ===== src/Queue/Memory/Invariant/Steps.antt =====
-- The invariant across the primitive steps: a record stored, an entry queued, popped or dropped.
use dogrs.Base.{
  ◌+◌, ◌≡◌, ◌⊎◌, refl, inl, inr, ap, subst, ◌∙◌, sym, String, false, Option, none, some, List, ◌∷◌,
  arith, ◌==◌, string_eq, All, str_beq_iff, str_beq_refl, Bool-cases, ◌&&◌,
}
use dogrs.Dict
use dogrs.Dict.{Dict, get-put, put-IsWf}
use dogrs.Queue.Memory.{MemoryBackend, Scope, scope_eq, scope_beq_iff, put_job, register_key, send}
use dogrs.Queue.Memory.Dequeue.{is_waiting}
use dogrs.Queue.Memory.Queues.{queue_of}
use dogrs.Queue.Memory.Reaper.{Requeue}
use dogrs.Queue.Memory.Invariant.{
  Fits, FitsJob, OwnedTicket, count_pending, CountOk, is_some, queued, JobOk, HasKey, Inv,
}
use dogrs.Queue.Memory.Invariant.Jobs.{
  Same, All-Owned-put, All-Owned-new, count-elsewhere, tickets-new,
}
use dogrs.Queue.Event.{JobEvent}
use dogrs.Queue.Order.Laws.{count}
use dogrs.Queue.Record.{JobId, JobMessage, JobRecord, JobStatus, is_processing}

-- Nothing of the job is queued elsewhere either.
nowhere :
    (b : MemoryBackend) (p : List Requeue) (id : JobId) (r : JobRecord)
    → Inv b p
    → Dict.get b.jobs id ≡ some r
    → queued b.queues id r ≡ 0
    → (tenant name : String) → count id (queue_of b.queues tenant name) ≡ 0
nowhere b p id r v found zero_here tenant name =
    elim (Bool-cases (r.tenant_id == tenant && r.message.queue == name)) [
      | inl h ↦
          let et : r.tenant_id ≡ tenant = ground (arith, str_beq_iff r.tenant_id tenant) in
          let en : r.message.queue ≡ name = ground (arith, str_beq_iff r.message.queue name) in
          rw (← et, ← en) zero_here
      | inr h ↦
          count-elsewhere b.jobs id r tenant name _ found
            (λ et en.
              ground (arith, str_beq_iff r.tenant_id tenant, str_beq_iff r.message.queue name))
            (v.owned tenant name)
    ]

module _ (b : MemoryBackend) (p p' : List Requeue) (id : JobId) (r r' : JobRecord) where
  stored-JobOk :
      (v : Inv b p)
      → Dict.get b.jobs id ≡ some r
      → Same r r'
      → ((j : JobId) → (id == j) ≡ false → count_pending j p' ≡ count_pending j p)
      → is_processing r'.status ≡ is_some r'.lease_token
      → CountOk r'.status (queued b.queues id r + count_pending id p')
      → (j : JobId) (s : JobRecord) → Dict.get (Dict.put b.jobs id r') j ≡ some s
      → JobOk b.queues p' j s
  stored-JobOk v found same others leased counted j s e = elim (Bool-cases (id == j)) [
    | inl hit ↦
        let same_job : id ≡ j = (str_beq_iff id j).0 hit in
        let same_record : r' ≡ s = ground (arith, get-put b.jobs id j r') in
        let old = v.job id r found in
        rw (← same_job, ← same_record)
          (record {
            same_id = same.job_id ∙ old.same_id;
            leased = leased;
            counted = rw (same.tenant_id, same.message) counted;
          })
    | inr miss ↦
        let old = v.job j s (ground (arith, get-put b.jobs id j r')) in
        record {
          same_id = old.same_id;
          leased = old.leased;
          counted = rw (others j miss) old.counted;
        }
  ]

  HasKey-Same : (s : Scope) → Same r r' → HasKey (some r) s → HasKey (some r') s
  HasKey-Same (t, n, ty, k) same (a, b', c, d) = (
    same.tenant_id ∙ a,
    ap (λ (m : JobMessage). m.queue) same.message ∙ b',
    ap (λ (m : JobMessage). m.job_type) same.message ∙ c,
    ap (λ (m : JobMessage). m.idempotency_key) same.message ∙ d,
  )

  HasKey-stored :
      (s : Scope) (j : JobId)
      → Dict.get b.jobs id ≡ some r
      → Same r r'
      → HasKey (Dict.get b.jobs j) s
      → HasKey (Dict.get (Dict.put b.jobs id r') j) s
  HasKey-stored s j found same k = rw get-put (elim (Bool-cases (id == j)) [
    | inl hit ↦
        let at : Dict.get b.jobs j ≡ some r =
          ap (Dict.get b.jobs) (sym ((str_beq_iff id j).0 hit)) ∙ found in
        rw hit (HasKey-Same s same (subst (λ x. HasKey x s) at k))
    | inr miss ↦ rw miss k
  ])

  -- A record is replaced by one of the same job.
  pub put_job-Inv :
      Inv b p
      → Dict.get b.jobs id ≡ some r
      → Same r r'
      → All (OwnedTicket (Dict.put b.jobs id r')) p'
      → ((j : JobId) → (id == j) ≡ false → count_pending j p' ≡ count_pending j p)
      → (is_waiting r'.status ≡ false) ⊎ (queued b.queues id r ≡ 0)
      → is_processing r'.status ≡ is_some r'.lease_token
      → CountOk r'.status (queued b.queues id r + count_pending id p')
      → Inv (put_job b id r') p'
  unfolding put_job
  put_job-Inv v found same tickets others quiet leased counted = record {
    sorted = v.sorted;
    owned = λ t n.
        All-Owned-put b.jobs id r r' t n (queue_of b.queues t n) found same (quiet_at quiet t n)
          (v.owned t n);
    tickets = tickets;
    job = stored-JobOk v found same others leased counted;
    keyed = λ s j e. HasKey-stored s j found same (v.keyed s j e);
    unique = put-IsWf b.jobs id r' v.unique;
  }
    where
      quiet_at :
          (is_waiting r'.status ≡ false) ⊎ (queued b.queues id r ≡ 0)
          → (t n : String) → (is_waiting r'.status ≡ false) ⊎ (count id (queue_of b.queues t n) ≡ 0)
      quiet_at (inl h) t n = inl h
      quiet_at (inr h) t n = inr (nowhere b p id r v found h t n)

count_other :
    (k : Requeue) (p : List Requeue) (j : JobId)
    → (k.entry.job_id == j) ≡ false
    → count_pending j p ≡ count_pending j (k ∷ p)
unfolding count_pending
count_other k p j miss = ground arith

-- A job is stored under a fresh identifier, and its entry is pending.
module _ (b : MemoryBackend) (k : Requeue) (p : List Requeue) (id : JobId) (r : JobRecord) where
  HasKey-added :
      (s : Scope) (j : JobId)
      → Dict.get b.jobs id ≡ none
      → HasKey (Dict.get b.jobs j) s
      → HasKey (Dict.get (Dict.put b.jobs id r) j) s
  HasKey-added s j fresh h = rw get-put (elim (Bool-cases (id == j)) [
    | inl hit ↦
        absurd (
          subst (λ x. HasKey x s) (ap (Dict.get b.jobs) (sym ((str_beq_iff id j).0 hit)) ∙ fresh) h)
    | inr miss ↦ rw miss h
  ])

  added-JobOk :
      (v : Inv b p)
      → Dict.get b.jobs id ≡ none
      → r.job_id ≡ id
      → r.status ≡ JobStatus.enqueued
      → r.lease_token ≡ none
      → k.entry.job_id ≡ id
      → (j : JobId) (s : JobRecord) → Dict.get (Dict.put b.jobs id r) j ≡ some s
      → JobOk b.queues (k ∷ p) j s
  unfolding count_pending
  added-JobOk v fresh same status token entry j s e = elim (Bool-cases (id == j)) [
    | inl hit ↦
        let same_job : id ≡ j = (str_beq_iff id j).0 hit in
        let same_record : r ≡ s = ground (arith, get-put b.jobs id j r) in
        let none_queued =
          (All-Owned-new b.jobs id r r.tenant_id r.message.queue _ fresh
            (v.owned r.tenant_id r.message.queue)).1 in
        let none_pending = (tickets-new b.jobs id r p fresh v.tickets).1 in
        rw (← same_job, ← same_record)
          (record {
            same_id = same;
            leased = rw (status, token);
            counted = rw (status, entry) (ground (arith, str_beq_refl id));
          })
    | inr miss ↦
        let old = v.job j s (ground (arith, get-put b.jobs id j r)) in
        record {
          same_id = old.same_id;
          leased = old.leased;
          counted =
              subst (λ m. CountOk s.status (queued b.queues j s + m))
                (count_other k p j (ground arith)) old.counted;
        }
  ]

  pub put_new-Inv :
      Inv b p
      → Dict.get b.jobs id ≡ none
      → r.job_id ≡ id
      → r.status ≡ JobStatus.enqueued
      → r.lease_token ≡ none
      → k.entry.job_id ≡ id
      → Fits r k.tenant k.queue k.entry
      → Inv (put_job b id r) (k ∷ p)
  unfolding put_job
  put_new-Inv v fresh same status token entry fits = record {
    sorted = v.sorted;
    owned = λ t n. (All-Owned-new b.jobs id r t n _ fresh (v.owned t n)).0;
    tickets = (
      subst (λ x. FitsJob x k.tenant k.queue k.entry) (sym found) fits,
      (tickets-new b.jobs id r p fresh v.tickets).0,
    );
    job = added-JobOk v fresh same status token entry;
    keyed = λ s j e. HasKey-added s j fresh (v.keyed s j e);
    unique = put-IsWf b.jobs id r v.unique;
  }
    where
      found : Dict.get (Dict.put b.jobs id r) k.entry.job_id ≡ some r
      found = ground (arith, get-put b.jobs id k.entry.job_id r, str_beq_refl id)

pub register_key-Inv :
    (b : MemoryBackend) (p : List Requeue) (s : Option Scope) (id : JobId)
    → Inv b p
    → ((scope : Scope) → s ≡ some scope → HasKey (Dict.get b.jobs id) scope)
    → Inv (register_key b s id) p
unfolding register_key
register_key-Inv b p none id v h = v
register_key-Inv b p (some scope) id v h = record {
  sorted = v.sorted;
  owned = v.owned;
  tickets = v.tickets;
  job = v.job;
  keyed = λ s j e. elim (Bool-cases (scope == s)) [
    | inl hit ↦
        let es : scope ≡ s = (scope_beq_iff scope s).0 hit in
        let ej : id ≡ j = ground (arith, get-put b.idempotency scope s id) in
        rw (← es, ← ej) (h scope refl)
    | inr miss ↦ v.keyed s j (ground (arith, get-put b.idempotency scope s id))
  ];
  unique = v.unique;
}

-- Events are no part of the invariant.
pub send-Inv :
    (b : MemoryBackend) (p : List Requeue) (event : JobEvent) → Inv b p → Inv (send b event) p
unfolding send
send-Inv b p event v = record {
  sorted = v.sorted;
  owned = v.owned;
  tickets = v.tickets;
  job = v.job;
  keyed = v.keyed;
  unique = v.unique;
}
