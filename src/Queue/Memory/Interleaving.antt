-- ===== src/Queue/Memory/Interleaving.antt =====
-- Any number of tasks share the in-memory backend. Each critical section of the source is one step,
-- and the sections of different calls interleave in any order: a call that holds an entry between
-- two sections is an element of `popped` or `queueing`. The reaper's second phase, one section
-- over many jobs, is given more freely as one step for each job.
pub mod Laws
use dogrs.Base.{ℕ, ◌≡◌, String, Option, none, some, List, [], ◌∷◌, ◌++◌, string_eq}
use dogrs.Dict
use dogrs.Queue.Ctx.{QueueCtx}
use dogrs.Queue.Event.{JobEvent}
use dogrs.Queue.Memory.{
  MemoryBackend, Scope, put_job, send, insert_entry, register_key, scope_of, entry_of,
}
use dogrs.Queue.Memory.Ack.{ack_complete, ack_fail, heartbeat_extend, cancel}
use dogrs.Queue.Memory.Dequeue.{pop_entry, lease_job}
use dogrs.Queue.Memory.Reaper.{Requeue, Reaping, reap_job}
use dogrs.Queue.Order.{QueueEntry}
use dogrs.Queue.Record.{JobId, JobMessage, JobRecord, LeaseToken, new_record}

pub record World : Type 0 where
  pub backend : MemoryBackend
  -- Popped by `dequeue`, and not yet leased.
  pub popped : List Requeue
  -- Stored by `enqueue` or collected by the reaper, and not yet queued.
  pub queueing : List Requeue

abbrev pub new_ticket : QueueCtx → JobMessage → JobId → Requeue
new_ticket ctx m id = record { tenant = ctx.tenant_id; queue = m.queue; entry = entry_of id m }

abbrev pub popped_ticket : String → String → QueueEntry → Requeue
popped_ticket tenant name e = record { tenant = tenant; queue = name; entry = e }

-- The reaper's state for one job.
abbrev pub reaping : World → Reaping
reaping w = record { backend = w.backend; to_requeue = []; events = []; outcomes = [] }

pub data Step (w : World) : World → Type 0 where
  -- `enqueue`, with an identifier that is fresh.
  store :
      (ctx : QueueCtx) (m : JobMessage) (id : JobId) (stamp : ℕ)
      → Dict.get w.backend.jobs id ≡ none
      → Step w (record w {
        backend = put_job w.backend id (new_record id ctx.tenant_id m stamp);
        queueing = new_ticket ctx m id ∷ w.queueing;
      })
  -- `enqueue` and the reaper's third phase.
  queue_up :
      (k : Requeue) (before after : List Requeue)
      → w.queueing ≡ before ++ (k ∷ after)
      → Step w (record w {
        backend = insert_entry w.backend k.tenant k.queue k.entry;
        queueing = before ++ after;
      })
  -- `enqueue`, for the job that it has stored.
  register :
      (ctx : QueueCtx) (id : JobId) (r : JobRecord)
      → Dict.get w.backend.jobs id ≡ some r
      → r.tenant_id ≡ ctx.tenant_id
      → Step w (record w { backend = register_key w.backend (scope_of ctx r.message) id })
  broadcast : (event : JobEvent) → Step w (record w { backend = send w.backend event })
  -- `dequeue`, first phase.
  pop :
      (tenant name : String) (now : ℕ) (e : QueueEntry)
      → (pop_entry w.backend.queues tenant name now).0 ≡ some e
      → Step w (record w {
        backend = record w.backend { queues = (pop_entry w.backend.queues tenant name now).1 };
        popped = popped_ticket tenant name e ∷ w.popped;
      })
  pop_nothing :
      (tenant name : String) (now : ℕ)
      → (pop_entry w.backend.queues tenant name now).0 ≡ none
      → Step w (record w {
        backend = record w.backend { queues = (pop_entry w.backend.queues tenant name now).1 };
      })
  -- `dequeue`, second phase.
  lease :
      (k : Requeue) (before after : List Requeue) (token : LeaseToken) (now stamp : ℕ)
      → w.popped ≡ before ++ (k ∷ after)
      → Step w (record w {
        backend = (lease_job w.backend k.entry.job_id token now stamp).1;
        popped = before ++ after;
      })
  completed :
      (ctx : QueueCtx) (id : JobId) (token : LeaseToken) (result : Option String) (now stamp : ℕ)
      → Step w (record w { backend = (ack_complete w.backend ctx id token result now stamp).1 })
  failed :
      (ctx : QueueCtx) (id : JobId) (token : LeaseToken) (error : String) (retry_at : Option ℕ)
      (now stamp : ℕ)
      → Step w (record w { backend = (ack_fail w.backend ctx id token error retry_at now stamp).1 })
  extended :
      (from_std : ℕ → Option ℕ) (ctx : QueueCtx) (id : JobId) (token : LeaseToken) (extra now : ℕ)
      → Step w
          (record w { backend = (heartbeat_extend from_std w.backend ctx id token extra now).1 })
  canceled :
      (ctx : QueueCtx) (id : JobId) (now stamp : ℕ)
      → Step w (record w { backend = (cancel w.backend ctx id now stamp).1 })
  -- The reaper's second phase, on a job that it collected at some time.
  reap :
      (backoff : ℕ) (id : JobId) (now stamp : ℕ)
      → Step w (record w {
        backend = (reap_job (reaping w) backoff id now stamp).backend;
        queueing = (reap_job (reaping w) backoff id now stamp).to_requeue ++ w.queueing;
      })

pub data Reach (w : World) : World → Type 0 where
  here : Reach w w
  next : {u x : World} → Reach w u → Step u x → Reach w x
