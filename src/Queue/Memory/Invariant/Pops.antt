-- ===== src/Queue/Memory/Invariant/Pops.antt =====
-- The invariant when `dequeue` pops an entry, which is pending from then on.
use dogrs.Base.{
  ℕ, ◌+◌, ◌≡◌, refl, inl, inr, ap, subst, ◌∙◌, sym, String, Option, none, some, List, ◌∷◌, arith,
  ◌==◌, string_eq, All, str_beq_iff, Bool-cases,
}
use dogrs.Dict
use dogrs.Dict.{Dict}
use dogrs.Queue.Memory.{MemoryBackend}
use dogrs.Queue.Memory.Dequeue.{pop_entry}
use dogrs.Queue.Memory.Queues.{queue_of, PopResult, pop_entry_lem, pop_entry_other}
use dogrs.Queue.Memory.Reaper.{Requeue}
use dogrs.Queue.Memory.Invariant.{Owned, count_pending, CountOk, queued, Inv}
use dogrs.Queue.Memory.Invariant.Jobs.{Owned-Fits}
use dogrs.Queue.Order.{QueueEntry}
use dogrs.Queue.Order.Laws.{count, IsSorted, Taken-IsSorted, All-Taken, count-Taken}
use dogrs.Queue.Record.{JobId, JobRecord}
use dogrs.Queue.Memory.Invariant.Entries.{same_queue, same_queue→eq}

-- A pop of the queue `name` of the tenant.
module _ (b : MemoryBackend) (tenant name : String) (now : ℕ) (p : List Requeue) where
  abbrev popped : MemoryBackend
  popped = record b { queues = (pop_entry b.queues tenant name now).1 }

  abbrev pub ticket : QueueEntry → Requeue
  ticket e = record { tenant = tenant; queue = name; entry = e }

  elsewhere :
      (P : String → String → List QueueEntry → Type 0)
      → P tenant name (queue_of popped.queues tenant name)
      → ((t n : String) → P t n (queue_of b.queues t n))
      → (t n : String) → P t n (queue_of popped.queues t n)
  elsewhere P new old t n = elim (Bool-cases (same_queue tenant name t n)) [
    | inl h ↦
        let same = same_queue→eq tenant name t n h in
        subst (λ x. P x n (queue_of popped.queues x n)) same.0
          (subst (λ y. P tenant y (queue_of popped.queues tenant y)) same.1 new)
    | inr h ↦ subst (P t n) (sym (pop_entry_other b.queues tenant name now t n h)) (old t n)
  ]

  abbrev Popped : Option QueueEntry → Type 0
  Popped o = PopResult now (queue_of b.queues tenant name) o (queue_of popped.queues tenant name)

  pub pop_entry-none-Inv : (pop_entry b.queues tenant name now).0 ≡ none → Inv b p → Inv popped p
  pop_entry-none-Inv h v =
      let r : Popped none = subst Popped h (pop_entry_lem b.queues tenant name now) in
      record {
        sorted = elsewhere (λ t n q. IsSorted q) (rw (r.1) (v.sorted tenant name)) v.sorted;
        owned =
            elsewhere (λ t n q. All (Owned b.jobs t n) q) (rw (r.1) (v.owned tenant name)) v.owned;
        tickets = v.tickets;
        job = λ id s e.
            let old = v.job id s e in
            let still =
              elsewhere (λ t n q. count id (queue_of b.queues t n) ≡ count id q) (rw (r.1) refl)
                (λ t n. refl) s.tenant_id s.message.queue in
            record {
              same_id = old.same_id;
              leased = old.leased;
              counted = subst (λ m. CountOk s.status (m + count_pending id p)) still old.counted;
            };
        keyed = v.keyed;
        unique = v.unique;
      }

  -- The entry that was popped is pending from then on.
  module _ (e : QueueEntry) (taken : Popped (some e)) (v : Inv b p) where
    popped-Owned : Owned b.jobs tenant name e
    popped-Owned = (All-Taken (Owned b.jobs tenant name) taken (v.owned tenant name)).0

    popped_total :
        (id : JobId) (r : JobRecord)
        → Dict.get b.jobs id ≡ some r
        → queued b.queues id r + count_pending id p
          ≡ queued popped.queues id r + count_pending id (ticket e ∷ p)
    unfolding count count_pending
    popped_total id r found = elim (Bool-cases (e.job_id == id)) [
      | inl hit ↦
          let at : Dict.get b.jobs e.job_id ≡ some r =
            ap (Dict.get b.jobs) ((str_beq_iff e.job_id id).0 hit) ∙ found in
          let fits = Owned-Fits b.jobs tenant name e r at popped-Owned in
          rw (fits.same_tenant, fits.same_queue) (ground (arith, count-Taken id taken))
      | inr miss ↦
          let still =
            elsewhere (λ t n q. count id (queue_of b.queues t n) ≡ count id q)
              (ground (arith, count-Taken id taken)) (λ t n. refl) r.tenant_id r.message.queue in
          ground arith
    ]

    popped-Inv : Inv popped (ticket e ∷ p)
    popped-Inv = record {
      sorted =
          elsewhere (λ t n q. IsSorted q) (Taken-IsSorted taken (v.sorted tenant name)) v.sorted;
      owned =
          elsewhere (λ t n q. All (Owned b.jobs t n) q)
            (All-Taken (Owned b.jobs tenant name) taken (v.owned tenant name)).1 v.owned;
      tickets = (popped-Owned, v.tickets);
      job = λ id s found.
          let old = v.job id s found in
          record {
            same_id = old.same_id;
            leased = old.leased;
            counted = subst (CountOk s.status) (popped_total id s found) old.counted;
          };
      keyed = v.keyed;
      unique = v.unique;
    }

  pub pop_entry-some-Inv :
      (e : QueueEntry)
      → (pop_entry b.queues tenant name now).0 ≡ some e
      → Inv b p
      → Inv popped (ticket e ∷ p)
  pop_entry-some-Inv e h v =
      popped-Inv e (subst Popped h (pop_entry_lem b.queues tenant name now)) v
