-- ===== src/Queue/Memory/Invariant/Entries.antt =====
-- The invariant when an entry moves: from a call that holds it into its queue,
-- or to nowhere once its job no longer waits.
use dogrs.Base.{
  ℕ, ◌+◌, ◌≡◌, ◌⊎◌, inl, inr, ap, subst, ◌∙◌, String, Bool, true, false, some, List, [], ◌∷◌, arith,
  ◌==◌, string_eq, All, if◌then◌else◌, str_beq_iff, str_beq_refl, Bool-cases, ◌&&◌,
}
use dogrs.Dict
use dogrs.Dict.{Dict}
use dogrs.Queue.Memory.{MemoryBackend, TenantQueues, push_entry, insert_entry}
use dogrs.Queue.Memory.Dequeue.{is_waiting}
use dogrs.Queue.Memory.Queues.{queue_of, queue_of-push_entry}
use dogrs.Queue.Memory.Reaper.{Requeue}
use dogrs.Queue.Memory.Invariant.{Owned, count_pending, CountOk, queued, JobOk, Inv}
use dogrs.Queue.Memory.Invariant.Jobs.{Owned-Fits}
use dogrs.Queue.Order.{QueueEntry, priority_insert}
use dogrs.Queue.Order.Laws.{
  count, IsSorted, priority_insert-IsSorted, All-priority_insert, count-priority_insert,
}
use dogrs.Queue.Record.{JobId, JobRecord, JobStatus}

-- Whether two names of a queue are the same.
abbrev pub same_queue : String → String → String → String → Bool
same_queue t n t' n' = t == t' && n == n'

pub same_queue→eq : (t n t' n' : String) → same_queue t n t' n' ≡ true → (t ≡ t') × (n ≡ n')
same_queue→eq t n t' n' h = (ground (arith, str_beq_iff t t'), ground (arith, str_beq_iff n n'))

-- What holds of every queue, and of the one that a push changes, holds after the push.
pushed :
    (P : String → String → List QueueEntry → Type 0) (qs : TenantQueues) (t n : String)
    (e : QueueEntry)
    → P t n (priority_insert (queue_of qs t n) e)
    → ((t' n' : String) → P t' n' (queue_of qs t' n'))
    → (t' n' : String) → P t' n' (queue_of (push_entry qs t n e) t' n')
pushed P qs t n e new old t' n' = rw queue_of-push_entry (elim (Bool-cases (t == t')) [
  | inl ht ↦ elim (Bool-cases (n == n')) [
    | inl hn ↦
        rw (ht, hn)
          (subst (λ x. P x n' (priority_insert (queue_of qs t n) e)) ((str_beq_iff t t').0 ht)
            (subst (λ y. P t y (priority_insert (queue_of qs t n) e)) ((str_beq_iff n n').0 hn)
              new))
    | inr hn ↦ rw (ht, hn) (old t' n')
  ]
  | inr ht ↦ rw ht (old t' n')
])

count-pushed :
    (id : JobId) (qs : TenantQueues) (t n : String) (e : QueueEntry) (t' n' : String)
    → count id (queue_of (push_entry qs t n e) t' n')
      ≡ (if same_queue t n t' n' then count id (e ∷ []) else 0) + count id (queue_of qs t' n')
count-pushed id qs t n e t' n' = elim (Bool-cases (same_queue t n t' n')) [
  | inl h ↦
      let same = same_queue→eq t n t' n' h in
      rw (← same.0, ← same.1, queue_of-push_entry, str_beq_refl, str_beq_refl)
        (count-priority_insert id (queue_of qs t n) e)
  | inr h ↦ ground (arith, queue_of-push_entry qs t n e t' n')
]

-- A pending entry goes into its queue.
module _ (b : MemoryBackend) (k : Requeue) (p : List Requeue) where
  abbrev after_queues : TenantQueues
  after_queues = push_entry b.queues k.tenant k.queue k.entry

  insert_entry-JobOk :
      Inv b (k ∷ p)
      → (id : JobId) (r : JobRecord) → Dict.get b.jobs id ≡ some r
      → JobOk after_queues p id r
  unfolding count count_pending
  insert_entry-JobOk v id r e = record {
    same_id = old.same_id;
    leased = old.leased;
    counted = subst (CountOk r.status) (total (Bool-cases (k.entry.job_id == id))) old.counted;
  }
    where
      old : JobOk b.queues (k ∷ p) id r
      old = v.job id r e

      total :
          ((k.entry.job_id == id) ≡ true) ⊎ ((k.entry.job_id == id) ≡ false)
          → queued b.queues id r + count_pending id (k ∷ p)
            ≡ queued after_queues id r + count_pending id p
      total (inl hit) =
          let at : Dict.get b.jobs k.entry.job_id ≡ some r =
            ap (Dict.get b.jobs) ((str_beq_iff k.entry.job_id id).0 hit) ∙ e in
          let fits = Owned-Fits b.jobs k.tenant k.queue k.entry r at v.tickets.0 in
          ground (
            arith,
            count-pushed id b.queues k.tenant k.queue k.entry r.tenant_id r.message.queue,
            str_beq_iff k.tenant r.tenant_id,
            str_beq_iff k.queue r.message.queue,
            fits.same_tenant,
            fits.same_queue,
          )
      total (inr miss) =
          ground
            (arith, count-pushed id b.queues k.tenant k.queue k.entry r.tenant_id r.message.queue)

  pub insert_entry-Inv : Inv b (k ∷ p) → Inv (insert_entry b k.tenant k.queue k.entry) p
  unfolding insert_entry
  insert_entry-Inv v = record {
    sorted =
        pushed (λ t n q. IsSorted q) b.queues k.tenant k.queue k.entry
          (priority_insert-IsSorted _ k.entry (v.sorted k.tenant k.queue)) v.sorted;
    owned =
        pushed (λ t n q. All (Owned b.jobs t n) q) b.queues k.tenant k.queue k.entry
          (All-priority_insert (Owned b.jobs k.tenant k.queue) _ k.entry (v.owned k.tenant k.queue)
            v.tickets.0)
          v.owned;
    tickets = v.tickets.1;
    job = insert_entry-JobOk v;
    keyed = v.keyed;
    unique = v.unique;
  }

-- A job that does not wait may have fewer entries.
fewer :
    (s : JobStatus) (m n : ℕ) → is_waiting s ≡ false → CountOk s (m + (1 + n)) → CountOk s (m + n)
fewer JobStatus.enqueued m n w h = cc
fewer (JobStatus.retrying _) m n w h = cc
fewer (JobStatus.canceled _) m n w h = omega arith
fewer (JobStatus.processing _) m n w h = omega arith
fewer (JobStatus.completed _) m n w h = omega arith
fewer (JobStatus.failed _ _) m n w h = omega arith

-- An entry whose job does not wait may be forgotten.
pub forget-Inv :
    (b : MemoryBackend) (k : Requeue) (p : List Requeue)
    → ((r : JobRecord) → Dict.get b.jobs k.entry.job_id ≡ some r → is_waiting r.status ≡ false)
    → Inv b (k ∷ p)
    → Inv b p
unfolding count_pending
forget-Inv b k p quiet v = record {
  sorted = v.sorted;
  owned = v.owned;
  tickets = v.tickets.1;
  job = λ id r found.
      let old = v.job id r found in
      record { same_id = old.same_id; leased = old.leased; counted = less id r found old.counted };
  keyed = v.keyed;
  unique = v.unique;
}
  where
    less :
        (id : JobId) (r : JobRecord)
        → Dict.get b.jobs id ≡ some r
        → CountOk r.status (queued b.queues id r + count_pending id (k ∷ p))
        → CountOk r.status (queued b.queues id r + count_pending id p)
    less id r found h = elim (Bool-cases (k.entry.job_id == id)) [
      | inl hit ↦
          let w = quiet r (ap (Dict.get b.jobs) ((str_beq_iff k.entry.job_id id).0 hit) ∙ found) in
          ground (arith, fewer r.status (queued b.queues id r) (count_pending id p) w)
      | inr miss ↦ ground arith
    ]
