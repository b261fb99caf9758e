-- ===== src/Queue/Memory/Reaper.antt =====
-- dog-queue/src/backend/memory/reaper.rs: jobs whose lease has run out go back to their queue or
-- fail. Phase 1 collects under the read lock of the jobs, phase 2 mutates under its write lock,
-- phase 3 queues under the lock of the queues, phase 4 broadcasts.
use dogrs.Base.{
  ℕ, ◌+◌, String, Bool, true, false, Option, none, some, List, [], ◌∷◌, ◌++◌, if◌then◌else◌, ltb,
  string_eq,
}
use dogrs.Dict
use dogrs.Queue.Error.{QueueResult, ok}
use dogrs.Queue.Event.{JobEvent}
use dogrs.Queue.Memory.{MemoryBackend, put_job, send, insert_entry}
use dogrs.Queue.Order.{QueueEntry}
use dogrs.Queue.Record.{JobId, JobStatus, JobRecord, lease_expired}
use dogrs.Queue.Record

pub record ReapOutcome : Type 0 where
  pub tenant_id : String
  pub job_id : JobId
  pub job_type : String
  pub permanently_failed : Bool
  pub retry_at : Option ℕ

-- The interval and the loop of `start` only say when a cycle runs.
pub record LeaseReaper : Type 0 where
  pub interval : ℕ
  pub base_retry_backoff : ℕ

unfoldable pub new_reaper : LeaseReaper
new_reaper = record { interval = 30_000_000_000; base_retry_backoff = 1_000_000_000 }

unfoldable pub with_interval : ℕ → LeaseReaper
with_interval interval = record { interval = interval; base_retry_backoff = 1_000_000_000 }

unfoldable pub with_backoff : (ℕ → Option ℕ) → LeaseReaper → ℕ → LeaseReaper
with_backoff from_std reaper backoff = record reaper {
  base_retry_backoff = elim (from_std backoff) [ none ↦ 1_000_000_000 | some d ↦ d ];
}

-- An entry of `to_requeue`: where it goes, and what is queued there.
pub record Requeue : Type 0 where
  pub tenant : String
  pub queue : String
  pub entry : QueueEntry

unfoldable pub expired_among : List (JobId × JobRecord) → ℕ → List JobId
expired_among [] now = []
expired_among ((id, r) ∷ rest) now =
    if lease_expired r now then id ∷ expired_among rest now else expired_among rest now

-- Phase 1.
unfoldable pub expired_ids : MemoryBackend → ℕ → List JobId
unfolding expired_among
expired_ids b now = expired_among (Dict.iter b.jobs) now

-- What phase 2 carries on: the state, and the lists that it fills.
pub record Reaping : Type 0 where
  pub backend : MemoryBackend
  pub to_requeue : List Requeue
  pub events : List JobEvent
  pub outcomes : List ReapOutcome

abbrev exceeded : String
exceeded = "Max retries exceeded due to lease expiry"

-- The record with its lease cleared.
unfoldable pub cleared : JobRecord → ℕ → ℕ → JobRecord
cleared r now stamp =
    let r' = Record.set_error (record r { lease_token = none }) "Lease expired" stamp in
    record r' { updated_at = now }

unfoldable pub give_up : Reaping → JobId → JobRecord → ℕ → ℕ → Reaping
give_up s id r now stamp =
    let r' = record (cleared r now stamp) { status = JobStatus.failed now exceeded } in
    let outcome : ReapOutcome = record {
      tenant_id = r.tenant_id;
      job_id = id;
      job_type = r.message.job_type;
      permanently_failed = true;
      retry_at = none;
    } in
    record s {
      backend = put_job s.backend id r';
      events = s.events ++ JobEvent.failed id r.tenant_id exceeded now ∷ [];
      outcomes = s.outcomes ++ outcome ∷ [];
    }

unfoldable pub requeue : Reaping → ℕ → JobId → JobRecord → ℕ → ℕ → Reaping
requeue s backoff id r now stamp =
    let retry_at = now + backoff in
    let r' = record (cleared r now stamp) { status = JobStatus.retrying retry_at } in
    let entry : QueueEntry = record {
      priority = r.message.priority;
      run_at = retry_at;
      job_id = id;
    } in
    let ticket : Requeue = record {
      tenant = r.tenant_id;
      queue = r.message.queue;
      entry = entry;
    } in
    let outcome : ReapOutcome = record {
      tenant_id = r.tenant_id;
      job_id = id;
      job_type = r.message.job_type;
      permanently_failed = false;
      retry_at = some retry_at;
    } in
    record {
      backend = put_job s.backend id r';
      to_requeue = s.to_requeue ++ ticket ∷ [];
      events = s.events ++ JobEvent.retrying id r.tenant_id retry_at "Lease expired" now ∷ [];
      outcomes = s.outcomes ++ outcome ∷ [];
    }

-- Phase 2 on one job: its status is read again.
unfoldable pub reap_job : Reaping → ℕ → JobId → ℕ → ℕ → Reaping
reap_job s backoff id now stamp = elim (Dict.get s.backend.jobs id) [
  | none ↦ s
  | some r ↦
      if lease_expired r now
      then (if ltb r.message.max_retries r.attempt
          then give_up s id r now stamp
          else requeue s backoff id r now stamp)
      else s
]

unfoldable pub reap_jobs : Reaping → ℕ → List JobId → ℕ → ℕ → Reaping
reap_jobs s backoff [] now stamp = s
reap_jobs s backoff (id ∷ ids) now stamp =
    reap_jobs (reap_job s backoff id now stamp) backoff ids now stamp

-- Phase 3.
unfoldable pub requeue_all : MemoryBackend → List Requeue → MemoryBackend
requeue_all b [] = b
requeue_all b (k ∷ ks) = requeue_all (insert_entry b k.tenant k.queue k.entry) ks

-- Phase 4.
unfoldable pub send_all : MemoryBackend → List JobEvent → MemoryBackend
send_all b [] = b
send_all b (e ∷ es) = send_all (send b e) es

abbrev pub start_reaping : MemoryBackend → Reaping
start_reaping b = record { backend = b; to_requeue = []; events = []; outcomes = [] }

unfoldable pub reap_expired_leases :
    LeaseReaper → MemoryBackend → ℕ → ℕ → QueueResult (List ReapOutcome) × MemoryBackend
reap_expired_leases reaper b now stamp =
    let s = reap_jobs (start_reaping b) reaper.base_retry_backoff (expired_ids b now) now stamp in
    (ok s.outcomes, send_all (requeue_all s.backend s.to_requeue) s.events)

-- The backend's own cycle, with a reaper of the default settings.
unfoldable pub reclaim_expired_leases :
    MemoryBackend → ℕ → ℕ → QueueResult (List ReapOutcome) × MemoryBackend
reclaim_expired_leases b now stamp = reap_expired_leases new_reaper b now stamp
