-- ===== src/Queue/Memory/Invariant.antt =====
-- What holds of the in-memory backend between any two critical sections. `pending` are the entries
-- that are in no queue because some call holds them: a job that `dequeue` has popped and not yet
-- leased, that `enqueue` has stored and not yet queued, or that the reaper will queue again.
pub mod Jobs
pub mod Steps
pub mod Entries
pub mod Pops
pub mod Calls
pub mod Flow
pub mod Reap
use dogrs.Base.{
  ℕ, ◌+◌, ◌≤◌, ◌≡◌, String, Bool, true, false, Option, none, some, List, [], ◌∷◌, ◌==◌, string_eq,
  All, if◌then◌else◌,
}
use dogrs.Dict
use dogrs.Dict.{Dict}
use dogrs.Queue.Memory.{MemoryBackend, TenantQueues, Scope, scope_eq}
use dogrs.Queue.Memory.Dequeue.{is_waiting}
use dogrs.Queue.Memory.Queues.{queue_of}
use dogrs.Queue.Memory.Reaper.{Requeue}
use dogrs.Queue.Order.{QueueEntry}
use dogrs.Queue.Order.Laws.{IsSorted, count}
use dogrs.Queue.Record.{JobId, LeaseToken, JobStatus, JobRecord, is_processing}

-- When a waiting job may run.
abbrev pub due : JobRecord → ℕ
due r = elim r.status [ JobStatus.retrying retry_at ↦ retry_at | _ ↦ r.message.run_at ]

-- The entry says of the job what its record says.
pub record Fits (r : JobRecord) (tenant name : String) (e : QueueEntry) : Type 0 where
  pub same_tenant : r.tenant_id ≡ tenant
  pub same_queue : r.message.queue ≡ name
  pub same_priority : e.priority ≡ r.message.priority
  pub same_time : is_waiting r.status ≡ true → e.run_at ≡ due r

abbrev pub FitsJob : Option JobRecord → String → String → QueueEntry → Type 0
FitsJob none tenant name e = ⊥
FitsJob (some r) tenant name e = Fits r tenant name e

abbrev pub Owned : Dict JobId JobRecord → String → String → QueueEntry → Type 0
Owned jobs tenant name e = FitsJob (Dict.get jobs e.job_id) tenant name e

abbrev pub OwnedTicket : Dict JobId JobRecord → Requeue → Type 0
OwnedTicket jobs k = Owned jobs k.tenant k.queue k.entry

unfoldable pub count_pending : JobId → List Requeue → ℕ
count_pending id [] = 0
count_pending id (k ∷ ks) = (if k.entry.job_id == id then 1 else 0) + count_pending id ks

-- A waiting job stands once in the queues or among the pending entries, a job at work or at its
-- end nowhere, and a canceled one at most once, until `dequeue` meets its entry.
abbrev pub CountOk : JobStatus → ℕ → Type 0
CountOk JobStatus.enqueued n = n ≡ 1
CountOk (JobStatus.retrying _) n = n ≡ 1
CountOk (JobStatus.canceled _) n = n ≤ 1
CountOk _ n = n ≡ 0

abbrev pub is_some {ℓ} : {A : Type ℓ} → Option A → Bool
is_some none = false
is_some (some a) = true

-- The entries of a job that are in its queue.
abbrev pub queued : TenantQueues → JobId → JobRecord → ℕ
queued queues id r = count id (queue_of queues r.tenant_id r.message.queue)

pub record JobOk (queues : TenantQueues) (pending : List Requeue) (id : JobId) (r : JobRecord)
    : Type 0 where
  pub same_id : r.job_id ≡ id
  pub leased : is_processing r.status ≡ is_some r.lease_token
  pub counted : CountOk r.status (queued queues id r + count_pending id pending)

-- The job of a registered key has that key.
abbrev pub HasKey : Option JobRecord → Scope → Type 0
HasKey none s = ⊥
HasKey (some r) (tenant, name, job_type, key) =
    (r.tenant_id ≡ tenant)
    × (r.message.queue ≡ name)
    × (r.message.job_type ≡ job_type)
    × (r.message.idempotency_key ≡ some key)

pub record Inv (b : MemoryBackend) (pending : List Requeue) : Type 0 where
  pub sorted : (tenant name : String) → IsSorted (queue_of b.queues tenant name)
  pub owned :
      (tenant name : String) → All (Owned b.jobs tenant name) (queue_of b.queues tenant name)
  pub tickets : All (OwnedTicket b.jobs) pending
  pub job : (id : JobId) (r : JobRecord) → Dict.get b.jobs id ≡ some r → JobOk b.queues pending id r
  pub keyed :
      (s : Scope) (id : JobId) → Dict.get b.idempotency s ≡ some id → HasKey (Dict.get b.jobs id) s
  pub unique : Dict.IsWf b.jobs
