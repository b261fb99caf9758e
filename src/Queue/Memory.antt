-- ===== src/Queue/Memory.antt =====
-- dog-queue/src/backend/memory/storage.rs: the in-memory backend. A method takes the state and
-- returns its result with the new state. What the code does under one lock is a function of its
-- own, and a method is their composition. `now` is the method's reading of the clock and `stamp`
-- that of the record's helpers; fresh identifiers and tokens (`Uuid::new_v4`) are arguments.
-- `sent` is what has been broadcast, oldest first.
pub mod Dequeue
pub mod Ack
pub mod Reaper
pub mod Queues
pub mod Invariant
pub mod Checks
pub mod Lifecycle
pub mod Interleaving
pub mod Outcomes
pub mod Reaped
pub mod Served
pub mod Idempotent
pub mod Progress
use dogrs.Base.{
  ℕ, ◌≡◌, ◌↔◌, String, Bool, true, ◌&&◌, Option, none, some, List, [], ◌∷◌, ◌++◌, Eq, if◌then◌else◌,
  arith, str_beq, str_beq_iff, string_eq,
}
use dogrs.Dict
use dogrs.Dict.{Dict}
use dogrs.Queue.Ctx.{QueueCtx}
use dogrs.Queue.Error.{QueueResult, ok}
use dogrs.Queue.Event.{JobEvent}
use dogrs.Queue.Order.{QueueEntry, priority_insert}
use dogrs.Queue.Record.{JobId, JobMessage, JobRecord}
use dogrs.Queue.Record

-- The scope of an idempotency key: tenant, queue, job type, key.
abbrev pub Scope : Type 0
Scope = String × String × String × String

abbrev scope_beq : Scope → Scope → Bool
scope_beq (a, b, c, d) (a', b', c', d') =
    str_beq a a' && (str_beq b b' && (str_beq c c' && str_beq d d'))

pub scope_beq_iff : (s t : Scope) → (scope_beq s t ≡ true) ↔ (s ≡ t)
scope_beq_iff (a, b, c, d) (a', b', c', d') =
    ground (arith, str_beq_iff a a', str_beq_iff b b', str_beq_iff c c', str_beq_iff d d')

instance abbrev pub scope_eq : Eq Scope
scope_eq = record { beq = scope_beq; beq_iff = scope_beq_iff }

abbrev pub TenantQueues : Type 0
TenantQueues = Dict String (Dict String (List QueueEntry))

pub record MemoryBackend : Type 0 where
  pub jobs : Dict JobId JobRecord
  pub queues : TenantQueues
  pub idempotency : Dict Scope JobId
  pub sent : List JobEvent
  pub lease_duration : ℕ

-- Five minutes, in nanoseconds.
unfoldable pub new : MemoryBackend
unfolding Dict.empty
new = record {
  jobs = Dict.empty;
  queues = Dict.empty;
  idempotency = Dict.empty;
  sent = [];
  lease_duration = 300_000_000_000;
}

-- `chrono::Duration::from_std` is a parameter here and below. `none` is the panic of `expect`.
unfoldable pub with_lease_duration : (ℕ → Option ℕ) → MemoryBackend → ℕ → Option MemoryBackend
with_lease_duration from_std b duration = elim (from_std duration) [
  | none ↦ none
  | some d ↦ some (record b { lease_duration = d })
]

unfoldable pub send : MemoryBackend → JobEvent → MemoryBackend
send b event = record b { sent = b.sent ++ event ∷ [] }

unfoldable pub put_job : MemoryBackend → JobId → JobRecord → MemoryBackend
put_job b id r = record b { jobs = Dict.put b.jobs id r }

-- `queues.entry(tenant).or_default().entry(queue).or_default()`, and `priority_insert` there.
unfoldable pub push_entry : TenantQueues → String → String → QueueEntry → TenantQueues
push_entry queues tenant name entry =
    let tenant_queues = Dict.get_or_default queues tenant Dict.empty in
    let queue = Dict.get_or_default tenant_queues name [] in
    Dict.put queues tenant (Dict.put tenant_queues name (priority_insert queue entry))

unfoldable pub insert_entry : MemoryBackend → String → String → QueueEntry → MemoryBackend
insert_entry b tenant name entry = record b { queues = push_entry b.queues tenant name entry }

-- enqueue

unfoldable pub scope_of : QueueCtx → JobMessage → Option Scope
scope_of ctx m = elim m.idempotency_key [
  | none ↦ none
  | some key ↦ some (ctx.tenant_id, m.queue, m.job_type, key)
]

-- The live job that already has this key.
unfoldable pub existing : MemoryBackend → Option Scope → Option JobId
existing b none = none
existing b (some scope) = elim (Dict.get b.idempotency scope) [
  | none ↦ none
  | some id ↦ elim (Dict.get b.jobs id) [
    | none ↦ none
    | some r ↦ if Record.is_terminal r.status then none else some id
  ]
]

unfoldable pub register_key : MemoryBackend → Option Scope → JobId → MemoryBackend
register_key b none id = b
register_key b (some scope) id = record b { idempotency = Dict.put b.idempotency scope id }

abbrev pub entry_of : JobId → JobMessage → QueueEntry
entry_of id m = record { priority = m.priority; run_at = m.run_at; job_id = id }

unfoldable pub enqueue_new : MemoryBackend → QueueCtx → JobMessage → JobId → ℕ → ℕ → MemoryBackend
unfolding send put_job insert_entry register_key scope_of
enqueue_new b ctx m id now stamp =
    let stored = put_job b id (Record.new_record id ctx.tenant_id m stamp) in
    let queued = insert_entry stored ctx.tenant_id m.queue (entry_of id m) in
    let registered = register_key queued (scope_of ctx m) id in
    send registered (JobEvent.enqueued id ctx.tenant_id m.queue m.job_type now)

unfoldable pub enqueue :
    MemoryBackend → QueueCtx → JobMessage → JobId → ℕ → ℕ → QueueResult JobId × MemoryBackend
enqueue b ctx m id now stamp = elim (existing b (scope_of ctx m)) [
  | some old ↦ (ok old, b)
  | none ↦ (ok id, enqueue_new b ctx m id now stamp)
]
