-- ===== src/Queue/Memory/Invariant/Reap.antt =====
-- The reaper's phases keep the invariant; the entries that it will queue are pending between them.
use dogrs.Base.{
  ℕ, ◌+◌, ◌≡◌, refl, inl, inr, subst, sym, true, some, List, [], ◌∷◌, ◌++◌, arith, string_eq, All,
  All-append, ltb, Bool-cases, Option-cases,
}
use mathlib.Core.List.{append_assoc}
use dogrs.Dict
use dogrs.Queue.Event.{JobEvent}
use dogrs.Queue.Memory.{MemoryBackend, insert_entry, send}
use dogrs.Queue.Memory.Reaper.{
  LeaseReaper, Requeue, Reaping, cleared, give_up, requeue, reap_job, reap_jobs, requeue_all,
  send_all, start_reaping, expired_ids, reap_expired_leases,
}
use dogrs.Queue.Memory.Invariant.{OwnedTicket, count_pending, CountOk, queued, Inv}
use dogrs.Queue.Memory.Invariant.Steps.{send-Inv}
use dogrs.Queue.Memory.Invariant.Entries.{insert_entry-Inv}
use dogrs.Queue.Memory.Invariant.Calls.{settle-Inv, wait-Inv}
use dogrs.Queue.Record.{JobId, JobRecord, lease_expired, set_error}

-- An expired lease has no entry.
count-expired :
    (b : MemoryBackend) (p : List Requeue) (id : JobId) (r : JobRecord) (now : ℕ)
    → Inv b p
    → Dict.get b.jobs id ≡ some r
    → lease_expired r now ≡ true
    → queued b.queues id r + count_pending id p ≡ 0
count-expired b p id r now v found h = let j = v.job id r found in ground (arith, j.counted)

count_pending-append :
    (id : JobId) (p q : List Requeue)
    → count_pending id (p ++ q) ≡ count_pending id p + count_pending id q
unfolding count_pending
count_pending-append id [] q = omega arith
count_pending-append id (k ∷ p) q = omega (arith, count_pending-append id p q)

give_up-Inv :
    (s : Reaping) (p : List Requeue) (id : JobId) (r : JobRecord) (now stamp : ℕ)
    → Dict.get s.backend.jobs id ≡ some r
    → lease_expired r now ≡ true
    → Inv s.backend (s.to_requeue ++ p)
    → Inv (give_up s id r now stamp).backend ((give_up s id r now stamp).to_requeue ++ p)
unfolding give_up cleared set_error
give_up-Inv s p id r now stamp found h v =
    settle-Inv s.backend (s.to_requeue ++ p) id r _ v found
      (record { job_id = refl; tenant_id = refl; message = refl }) refl refl
      (count-expired s.backend (s.to_requeue ++ p) id r now v found h)

-- The order of the pending entries does not matter.
pub reorder-Inv :
    (b : MemoryBackend) (p p' : List Requeue)
    → All (OwnedTicket b.jobs) p'
    → ((j : JobId) → count_pending j p ≡ count_pending j p')
    → Inv b p
    → Inv b p'
reorder-Inv b p p' tickets counts v = record {
  sorted = v.sorted;
  owned = v.owned;
  tickets = tickets;
  job = λ j r found.
      let old = v.job j r found in
      record {
        same_id = old.same_id;
        leased = old.leased;
        counted = subst (λ m. CountOk r.status (queued b.queues j r + m)) (counts j) old.counted;
      };
  keyed = v.keyed;
  unique = v.unique;
}

All-split {ℓ κ} : {A : Type ℓ} (P : A → Type κ) (p q : List A) → All P (p ++ q) → All P p × All P q
All-split P [] q h = (tt, h)
All-split P (x ∷ p) q h = let r = All-split P p q h.1 in ((h.0, r.0), r.1)

pub middle-Inv :
    (b : MemoryBackend) (k : Requeue) (p q : List Requeue)
    → Inv b (k ∷ (p ++ q))
    → Inv b (p ++ (k ∷ q))
unfolding count_pending
middle-Inv b k p q v =
    let parts = All-split (OwnedTicket b.jobs) p q v.tickets.1 in
    reorder-Inv b (k ∷ (p ++ q)) (p ++ (k ∷ q))
      (All-append (OwnedTicket b.jobs) p (k ∷ q) parts.0 (v.tickets.0, parts.1))
      (λ j. omega (arith, count_pending-append j p q, count_pending-append j p (k ∷ q))) v

pub front-Inv :
    (b : MemoryBackend) (k : Requeue) (p q : List Requeue)
    → Inv b (p ++ (k ∷ q))
    → Inv b (k ∷ (p ++ q))
unfolding count_pending
front-Inv b k p q v =
    let parts = All-split (OwnedTicket b.jobs) p (k ∷ q) v.tickets in
    reorder-Inv b (p ++ (k ∷ q)) (k ∷ (p ++ q))
      (parts.1.0, All-append (OwnedTicket b.jobs) p q parts.0 parts.1.1)
      (λ j. omega (arith, count_pending-append j p q, count_pending-append j p (k ∷ q))) v

requeue-Inv :
    (s : Reaping) (p : List Requeue) (backoff : ℕ) (id : JobId) (r : JobRecord) (now stamp : ℕ)
    → Dict.get s.backend.jobs id ≡ some r
    → lease_expired r now ≡ true
    → Inv s.backend (s.to_requeue ++ p)
    → Inv
        (requeue s backoff id r now stamp).backend
        ((requeue s backoff id r now stamp).to_requeue ++ p)
unfolding requeue cleared set_error
requeue-Inv s p backoff id r now stamp found h v =
    subst (Inv _) (sym (append_assoc s.to_requeue (k ∷ []) p)) (
      middle-Inv _ k s.to_requeue p (
        wait-Inv s.backend (s.to_requeue ++ p) (s.to_requeue ++ p) k id r _ v found
          (record { job_id = refl; tenant_id = refl; message = refl }) v.tickets (λ j. refl) refl
          (record {
            same_tenant = refl;
            same_queue = refl;
            same_priority = refl;
            same_time = λ w. refl;
          })
          (count-expired s.backend (s.to_requeue ++ p) id r now v found h) (now + backoff) refl
          refl))
  where
    k : Requeue
    k = record {
      tenant = r.tenant_id;
      queue = r.message.queue;
      entry = record { priority = r.message.priority; run_at = now + backoff; job_id = id };
    }

pub reap_job-Inv :
    (s : Reaping) (p : List Requeue) (backoff : ℕ) (id : JobId) (now stamp : ℕ)
    → Inv s.backend (s.to_requeue ++ p)
    → Inv
        (reap_job s backoff id now stamp).backend
        ((reap_job s backoff id now stamp).to_requeue ++ p)
unfolding reap_job
reap_job-Inv s p backoff id now stamp v = elim (Option-cases (Dict.get s.backend.jobs id)) [
  | inl h ↦ rw (h, reap_job) v
  | inr (r, h) ↦ elim (Bool-cases (lease_expired r now)) [
    | inl x ↦ elim (Bool-cases (ltb r.message.max_retries r.attempt)) [
      | inl over ↦ rw (h, reap_job, x, over) (give_up-Inv s p id r now stamp h x v)
      | inr within ↦ rw (h, reap_job, x, within) (requeue-Inv s p backoff id r now stamp h x v)
    ]
    | inr x ↦ rw (h, reap_job, x) v
  ]
]

-- Phase 2 for any list of identifiers, so also one collected some time before.
pub reap_jobs-Inv :
    (s : Reaping) (p : List Requeue) (backoff : ℕ) (ids : List JobId) (now stamp : ℕ)
    → Inv s.backend (s.to_requeue ++ p)
    → Inv
        (reap_jobs s backoff ids now stamp).backend
        ((reap_jobs s backoff ids now stamp).to_requeue ++ p)
unfolding reap_jobs
reap_jobs-Inv s p backoff [] now stamp v = v
reap_jobs-Inv s p backoff (id ∷ ids) now stamp v =
    reap_jobs-Inv (reap_job s backoff id now stamp) p backoff ids now stamp
      (reap_job-Inv s p backoff id now stamp v)

pub requeue_all-Inv :
    (b : MemoryBackend) (ks p : List Requeue) → Inv b (ks ++ p) → Inv (requeue_all b ks) p
unfolding requeue_all
requeue_all-Inv b [] p v = v
requeue_all-Inv b (k ∷ ks) p v =
    requeue_all-Inv (insert_entry b k.tenant k.queue k.entry) ks p
      (insert_entry-Inv b k (ks ++ p) v)

pub send_all-Inv :
    (b : MemoryBackend) (p : List Requeue) (es : List JobEvent) → Inv b p → Inv (send_all b es) p
unfolding send_all
send_all-Inv b p [] v = v
send_all-Inv b p (e ∷ es) v = send_all-Inv (send b e) p es (send-Inv b p e v)

-- A cycle of the reaper keeps the backend's invariant.
pub reap_expired_leases-Inv :
    (reaper : LeaseReaper) (b : MemoryBackend) (p : List Requeue) (now stamp : ℕ)
    → Inv b p
    → Inv (reap_expired_leases reaper b now stamp).1 p
unfolding reap_expired_leases
reap_expired_leases-Inv reaper b p now stamp v = send_all-Inv _ p _ (
    requeue_all-Inv _ _ p
      (reap_jobs-Inv (start_reaping b) p reaper.base_retry_backoff (expired_ids b now) now stamp v))

pub swap-Inv :
    (b : MemoryBackend) (p q r : List Requeue) → Inv b (p ++ (q ++ r)) → Inv b (q ++ (p ++ r))
swap-Inv b p q r v =
    let first = All-split (OwnedTicket b.jobs) p (q ++ r) v.tickets in
    let second = All-split (OwnedTicket b.jobs) q r first.1 in
    reorder-Inv b (p ++ (q ++ r)) (q ++ (p ++ r))
      (All-append (OwnedTicket b.jobs) q (p ++ r) second.0
        (All-append (OwnedTicket b.jobs) p r first.0 second.1))
      (λ j. omega (
        arith,
        count_pending-append j p (q ++ r),
        count_pending-append j q r,
        count_pending-append j q (p ++ r),
        count_pending-append j p r,
      ))
      v
