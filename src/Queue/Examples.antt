-- ===== src/Queue/Examples.antt =====
-- A small backend on which the theorems of the queue are applied: one job of the tenant acme.
pub mod History
pub mod Backend
pub mod Worker
pub mod Values
use dogrs.Base.{
  ℕ, ◌≡◌, refl, String, Option, none, some, List, [], ◌∷◌, string_eq, true, false, any, str_beq,
}
use dogrs.Dict
use dogrs.Queue.Ctx.{QueueCtx}
use dogrs.Queue.Error.{ok}
use dogrs.Queue.Memory
use dogrs.Queue.Memory.{
  MemoryBackend, enqueue, existing, scope_of, enqueue_new, push_entry, insert_entry, put_job,
  register_key, send,
}
use dogrs.Queue.Memory.Checks.{Held, Visible}
use dogrs.Queue.Memory.Dequeue.{
  dequeue, has_candidate, dequeue_from, pop_entry, pop_queue, pop_due, lease_job, grant, has_due,
  leased_record,
}
use dogrs.Queue.Memory.Invariant.{Inv}
use dogrs.Queue.Memory.Invariant.Flow.{enqueue-Inv, dequeue-Inv}
use dogrs.Queue.Order.{priority_insert, take_due, insert, partition_point}
use dogrs.Queue.Memory.Interleaving.Laws.{start, start-Sound}
use dogrs.Queue.Priority.{JobPriority}
use dogrs.Queue.Record.{JobMessage, JobRecord, LeasedJob, new_record, start_processing}

abbrev pub acme : QueueCtx
acme = record { tenant_id = "acme"; trace_id = none; request_id = none; tags = Dict.empty }

abbrev pub other : QueueCtx
other = record { tenant_id = "other"; trace_id = none; request_id = none; tags = Dict.empty }

abbrev pub mail : JobMessage
mail = record {
  job_type = "send";
  payload_bytes = 1 ∷ 2 ∷ [];
  codec = "json";
  queue = "mail";
  priority = JobPriority.high;
  max_retries = 1;
  run_at = 100;
  idempotency_key = some "once";
}

abbrev pub empty : MemoryBackend
empty = (start 1_000).backend

-- The job is enqueued at 100, and leased at 200 until 1200.
abbrev pub waiting : MemoryBackend
waiting = (enqueue empty acme mail "j1" 100 100).1

abbrev pub working : MemoryBackend
working = (dequeue waiting acme ("mail" ∷ []) "t1" 200 200).1

abbrev pub stored : JobRecord
stored = new_record "j1" "acme" mail 100

abbrev pub held : JobRecord
held = leased_record stored "t1" 1_200 200

abbrev pub lease : LeasedJob
lease = record { record_ = held; lease_token = "t1"; lease_until = 1_200 }

pub empty-fresh : Dict.get empty.jobs "j1" ≡ none
unfolding Memory.new Dict.empty Dict.get
empty-fresh = refl

pub empty-Inv : Inv empty []
empty-Inv = start-Sound 1_000

pub waiting-Inv : Inv waiting []
waiting-Inv = enqueue-Inv empty [] acme mail "j1" 100 100 empty-fresh empty-Inv

-- What the calls answer and store.
pub enqueued : (enqueue empty acme mail "j1" 100 100).0 ≡ ok "j1"
unfolding enqueue existing scope_of Memory.new Dict.empty Dict.get
enqueued = refl

pub leased : (dequeue waiting acme ("mail" ∷ []) "t1" 200 200).0 ≡ ok (some lease)
unfolding Memory.new enqueue dequeue has_candidate Dict.get existing scope_of enqueue_new push_entry
    Dict.put str_beq priority_insert Dict.get_or_default dequeue_from pop_entry pop_queue pop_due
    take_due lease_job any Dict.empty Dict.is_empty Dict.remove grant has_due leased_record
    insert_entry put_job register_key send insert partition_point new_record start_processing
leased = refl

pub at_work : Dict.get working.jobs "j1" ≡ some held
unfolding Memory.new enqueue dequeue has_candidate Dict.get existing scope_of enqueue_new push_entry
    Dict.put str_beq priority_insert Dict.get_or_default dequeue_from pop_entry pop_queue pop_due
    take_due lease_job any Dict.empty Dict.is_empty Dict.remove grant has_due leased_record
    insert_entry put_job register_key send insert partition_point new_record start_processing
at_work = refl

pub working-Held : Held working acme "j1" "t1" 300 held
unfolding leased_record new_record start_processing
working-Held = record { found = at_work; tenant = refl; live = refl; held = refl; timely = refl }
