-- ===== src/Queue/Memory/Interleaving/Laws.antt =====
-- What holds in every world that the tasks can reach.
use dogrs.Base.{
  ℕ, ◌+◌, ◌≡◌, refl, ap, subst, ◌∙◌, sym, String, true, some, List, [], ◌∷◌, ◌++◌, arith, string_eq,
}
use mathlib.Core.List.{append_assoc}
use dogrs.Dict
use dogrs.Dict.{get-empty}
use dogrs.Queue.Memory
use dogrs.Queue.Memory.Queues.{queue_of}
use dogrs.Queue.Order.{QueueEntry}
use dogrs.Queue.Memory.{
  MemoryBackend, Scope, scope_eq, put_job, insert_entry, send, register_key, scope_of,
}
use dogrs.Queue.Memory.Interleaving.{
  World, Step, store, queue_up, register, broadcast, pop, pop_nothing, lease, completed, failed,
  extended, canceled, reap, Reach, here, next, new_ticket, reaping,
}
use dogrs.Queue.Memory.Invariant.{Inv, count_pending, queued, HasKey, CountOk}
use dogrs.Queue.Memory.Invariant.Calls.{ack_complete-Inv, ack_fail-Inv, cancel-Inv}
use dogrs.Queue.Memory.Invariant.Entries.{insert_entry-Inv}
use dogrs.Queue.Memory.Invariant.Pops.{pop_entry-some-Inv, pop_entry-none-Inv}
use dogrs.Queue.Memory.Invariant.Flow.{heartbeat_extend-Inv, lease_job-Inv, scope_of-HasKey}
use dogrs.Queue.Memory.Invariant.Reap.{front-Inv, middle-Inv, swap-Inv, reap_job-Inv}
use dogrs.Queue.Memory.Invariant.Steps.{put_new-Inv, register_key-Inv, send-Inv}
use dogrs.Queue.Memory.Lifecycle.{
  Evolved, Evolves, Evolved-refl, put_new-Evolved, Evolves, Evolves-terminal,
}
use dogrs.Queue.Memory.Lifecycle.Calls.{
  register_key-jobs, ack_complete-Evolved, ack_fail-Evolved, cancel-Evolved,
  heartbeat_extend-Evolved, lease_job-Evolved, reap_job-Evolved,
}
use dogrs.Queue.Memory.Reaper.{Requeue, reap_job}
use dogrs.Queue.Record.{JobId, JobRecord, new_record, is_terminal}

abbrev pub Sound : World → Type 0
Sound w = Inv w.backend (w.popped ++ w.queueing)

-- An element of `queueing` is brought to the front of what is pending.
queueing_front :
    (w : World) (k : Requeue) (before after : List Requeue)
    → w.queueing ≡ before ++ (k ∷ after)
    → Sound w
    → Inv w.backend (k ∷ (w.popped ++ (before ++ after)))
queueing_front w k before after e v =
    let v' : Inv w.backend (w.popped ++ (before ++ (k ∷ after))) =
      subst (λ q. Inv w.backend (w.popped ++ q)) e v in
    let v'' : Inv w.backend ((w.popped ++ before) ++ (k ∷ after)) =
      subst (Inv w.backend) (sym (append_assoc w.popped before (k ∷ after))) v' in
    subst (λ q. Inv w.backend (k ∷ q)) (append_assoc w.popped before after)
      (front-Inv w.backend k (w.popped ++ before) after v'')

popped_front :
    (w : World) (k : Requeue) (before after : List Requeue)
    → w.popped ≡ before ++ (k ∷ after)
    → Sound w
    → Inv w.backend (k ∷ ((before ++ after) ++ w.queueing))
popped_front w k before after e v =
    let v' : Inv w.backend ((before ++ (k ∷ after)) ++ w.queueing) =
      subst (λ q. Inv w.backend (q ++ w.queueing)) e v in
    let v'' : Inv w.backend (before ++ (k ∷ (after ++ w.queueing))) =
      subst (Inv w.backend) (append_assoc before (k ∷ after) w.queueing) v' in
    subst (λ q. Inv w.backend (k ∷ q)) (sym (append_assoc before after w.queueing))
      (front-Inv w.backend k before (after ++ w.queueing) v'')

pub Step-Sound : {w x : World} → Step w x → Sound w → Sound x
unfolding new_record
Step-Sound {w} (store ctx m id stamp fresh) v =
    middle-Inv _ (new_ticket ctx m id) w.popped w.queueing (
      put_new-Inv w.backend (new_ticket ctx m id) (w.popped ++ w.queueing) id
        (new_record id ctx.tenant_id m stamp) v fresh refl refl refl refl
        (record {
          same_tenant = refl;
          same_queue = refl;
          same_priority = refl;
          same_time = λ waits. refl;
        }))
Step-Sound {w} (queue_up k before after e) v =
    insert_entry-Inv w.backend k (w.popped ++ (before ++ after))
      (queueing_front w k before after e v)
Step-Sound {w} (register ctx id r found tenant) v =
    register_key-Inv w.backend _ (scope_of ctx r.message) id v (λ scope e.
      subst (λ o. HasKey o scope) (sym found) (scope_of-HasKey ctx r.message r scope tenant refl e))
Step-Sound {w} (broadcast event) v = send-Inv w.backend _ event v
Step-Sound {w} (pop tenant name now e h) v = pop_entry-some-Inv w.backend tenant name now _ e h v
Step-Sound {w} (pop_nothing tenant name now h) v =
    pop_entry-none-Inv w.backend tenant name now _ h v
Step-Sound {w} (lease k before after token now stamp e) v =
    lease_job-Inv w.backend k ((before ++ after) ++ w.queueing) token now stamp
      (popped_front w k before after e v)
Step-Sound {w} (completed ctx id token result now stamp) v =
    ack_complete-Inv w.backend _ ctx id token result now stamp v
Step-Sound {w} (failed ctx id token error retry_at now stamp) v =
    ack_fail-Inv w.backend _ ctx id token error retry_at now stamp v
Step-Sound {w} (extended from_std ctx id token extra now) v =
    heartbeat_extend-Inv from_std w.backend _ ctx id token extra now v
Step-Sound {w} (canceled ctx id now stamp) v = cancel-Inv w.backend _ ctx id now stamp v
Step-Sound {w} (reap backoff id now stamp) v =
    swap-Inv _ (reap_job (reaping w) backoff id now stamp).to_requeue w.popped w.queueing
      (reap_job-Inv (reaping w) (w.popped ++ w.queueing) backoff id now stamp v)

-- Soundness is an invariant of all interleavings.
pub Reach-Sound : {w x : World} → Reach w x → Sound w → Sound x
Reach-Sound here v = v
Reach-Sound (next r step) v = Step-Sound step (Reach-Sound r v)

-- A backend as it is built, with any lease duration, and no call under way.
abbrev pub start : ℕ → World
start duration = record {
  backend = record Memory.new { lease_duration = duration };
  popped = [];
  queueing = [];
}

queue_of-nothing : (t n : String) → queue_of Dict.empty t n ≡ []
unfolding queue_of
queue_of-nothing t n = rw (get-empty {V = Dict.Dict String (List QueueEntry)} t, queue_of) refl

pub start-Sound : (duration : ℕ) → Sound (start duration)
unfolding Memory.new
start-Sound duration = record {
  sorted = λ t n. rw queue_of-nothing tt;
  owned = λ t n. rw queue_of-nothing tt;
  tickets = tt;
  job = λ id r e. ground (arith, get-empty {V = JobRecord} id);
  keyed = λ s id e. ground (arith, get-empty {V = JobId} s);
  unique = unfold Dict.empty in tt;
}

-- In every world that the tasks can reach from a new backend, a job that is enqueued or retrying
-- has exactly one entry, in its own queue or in the hands of one call; a job that is processing,
-- completed or failed has none; and a canceled job has at most one.
pub start-counted :
    {x : World} (duration : ℕ) (id : JobId) (r : JobRecord)
    → Reach (start duration) x
    → Dict.get x.backend.jobs id ≡ some r
    → CountOk r.status (queued x.backend.queues id r + count_pending id (x.popped ++ x.queueing))
start-counted duration id r reached found =
    ((Reach-Sound reached (start-Sound duration)).job id r found).counted

-- Each step of a sound world moves each record along the state machine.
pub Step-Evolved : {w x : World} → Step w x → Sound w → Evolved w.backend.jobs x.backend.jobs
unfolding put_job insert_entry send
Step-Evolved {w} (store ctx m id stamp fresh) v = put_new-Evolved w.backend.jobs id _ fresh
Step-Evolved {w} (queue_up k before after e) v = Evolved-refl w.backend.jobs
Step-Evolved {w} (register ctx id r found tenant) v =
    rw register_key-jobs (Evolved-refl w.backend.jobs)
Step-Evolved {w} (broadcast event) v = Evolved-refl w.backend.jobs
Step-Evolved {w} (pop tenant name now e h) v = Evolved-refl w.backend.jobs
Step-Evolved {w} (pop_nothing tenant name now h) v = Evolved-refl w.backend.jobs
Step-Evolved {w} (lease k before after token now stamp e) v =
    lease_job-Evolved w.backend k.entry.job_id token now stamp
Step-Evolved {w} (completed ctx id token result now stamp) v =
    ack_complete-Evolved w.backend _ ctx id v token result now stamp
Step-Evolved {w} (failed ctx id token error retry_at now stamp) v =
    ack_fail-Evolved w.backend _ ctx id v token error retry_at now stamp
Step-Evolved {w} (extended from_std ctx id token extra now) v =
    heartbeat_extend-Evolved from_std w.backend ctx id token extra now
Step-Evolved {w} (canceled ctx id now stamp) v = cancel-Evolved w.backend _ ctx id v now stamp
Step-Evolved {w} (reap backoff id now stamp) v = reap_job-Evolved (reaping w) backoff id now stamp

-- A record at its end stays as it is.
pub Reach-terminal :
    {w x : World} (id : JobId) (r : JobRecord)
    → Reach w x
    → Sound w
    → Dict.get w.backend.jobs id ≡ some r
    → is_terminal r.status ≡ true
    → Dict.get x.backend.jobs id ≡ some r
Reach-terminal id r here v found end = found
Reach-terminal id r (next reached step) v found end =
    let at = Reach-terminal id r reached v found end in
    let (r', found', move) = Step-Evolved step (Reach-Sound reached v) id r at in
    found' ∙ ap some (Evolves-terminal r r' end move)

pub Reach-append : {w x y : World} → Reach w x → Reach x y → Reach w y
Reach-append r here = r
Reach-append r (next s step) = next (Reach-append r s) step

-- From a new backend on, every step of the tasks keeps every job, and leaves its record as it is
-- or moves it along the state machine of a job.
pub start-Evolves :
    {w x : World} (duration : ℕ) (id : JobId) (r : JobRecord)
    → Reach (start duration) w
    → Step w x
    → Dict.get w.backend.jobs id ≡ some r
    → (r' : JobRecord) × (Dict.get x.backend.jobs id ≡ some r') × Evolves r r'
start-Evolves duration id r reached step found =
    Step-Evolved step (Reach-Sound reached (start-Sound duration)) id r found
