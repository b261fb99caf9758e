-- ===== src/Queue/Examples/Backend.antt =====
-- The theorems on the operations of the in-memory backend at concrete inputs.
use dogrs.Base.{
  All, In, here, subst, sym, ℕ, ◌≡◌, ◌≢◌, ◌↔◌, ◌⊎◌, refl, String, true, false, Option, none, some,
  [], ◌∷◌, arith, string_eq, str_beq, str_beq_iff, any,
}
use dogrs.Dict
use dogrs.Queue.Error.{QueueError, ok, err}
use dogrs.Queue.Examples.{
  acme, other, mail, empty, waiting, working, held, lease, waiting-Inv, enqueued, leased, at_work,
}
use dogrs.Queue.Memory
use dogrs.Queue.Memory.{
  entry_of, MemoryBackend, enqueue, existing, scope_of, enqueue_new, push_entry, insert_entry,
  put_job, register_key, send,
}
use dogrs.Queue.Memory.Ack.{
  ack_complete, ack_fail, heartbeat_extend, cancel, get_status, get_record,
}
use dogrs.Queue.Memory.Checks.{Held}
use dogrs.Queue.Memory.Dequeue.{
  dequeue, has_candidate, dequeue_from, pop_entry, pop_queue, pop_due, lease_job, grant, has_due,
  leased_record,
}
use dogrs.Queue.Memory.Idempotent.{enqueue-again}
use dogrs.Queue.Memory.Outcomes.{ack_complete_iff, foreign_not_found}
use dogrs.Queue.Memory.Reaped.{reap-none_expired}
use dogrs.Queue.Memory.Reaper.{
  reap_expired_leases, reap_job, new_reaper, reap_jobs, expired_ids, expired_among, cleared,
  give_up, requeue, requeue_all, send_all,
}
use dogrs.Queue.Memory.Served.{Serves, dequeue-Serves}
use dogrs.Queue.Memory.Progress.{Waits, dequeue-progress}
use dogrs.Queue.Memory.Queues.{queue_of, entries_of}
use dogrs.Queue.Order.{QueueEntry, priority_insert, take_due, insert, partition_point}
use dogrs.Queue.Record.{
  set_error, LeasedJob, JobRecord, JobStatus, lease_expired, new_record, start_processing,
}

dequeue-Serves_example :
    Serves waiting.jobs waiting.lease_duration acme ("mail" ∷ []) "t1" 200 200 working lease
dequeue-Serves_example =
    dequeue-Serves waiting acme ("mail" ∷ []) "t1" 200 200 lease waiting-Inv leased

ack_complete_iff_example :
    ((ack_complete working acme "j1" "t1" (some "done") 300 310).0 ≡ ok tt
      ↔ (r : JobRecord) × Held working acme "j1" "t1" 300 r)
    × ((r : JobRecord)
        → Held working acme "j1" "t1" 300 r
        → get_record (ack_complete working acme "j1" "t1" (some "done") 300 310).1 acme "j1"
          ≡ ok (record r {
            status = JobStatus.completed 310;
            result = some "done";
            lease_token = none;
            updated_at = 310;
          }))
    × (((ack_complete working acme "j1" "t1" (some "done") 300 310).0 ≡ ok tt)
        ⊎ ((ack_complete working acme "j1" "t1" (some "done") 300 310).1 ≡ working))
ack_complete_iff_example = ack_complete_iff working acme "j1" "t1" (some "done") 300 310

not_other : held.tenant_id ≢ other.tenant_id
unfolding leased_record new_record start_processing
not_other h =
    let same : str_beq "acme" "other" ≡ true = (str_beq_iff "acme" "other").1 h in
    unfold str_beq in ground (arith, same)

foreign_not_found_example :
    ((result : Option String)
      → ack_complete working other "j1" "t1" result 300 300
        ≡ (err (QueueError.job_not_found "j1"), working))
    × ((error : String) (retry_at : Option ℕ)
        → ack_fail working other "j1" "t1" error retry_at 300 300
          ≡ (err (QueueError.job_not_found "j1"), working))
    × ((from_std : ℕ → Option ℕ) (extra : ℕ)
        → heartbeat_extend from_std working other "j1" "t1" extra 300
          ≡ (err (QueueError.job_not_found "j1"), working))
    × (cancel working other "j1" 300 300 ≡ (err (QueueError.job_not_found "j1"), working))
    × (get_status working other "j1" ≡ err (QueueError.job_not_found "j1"))
    × (get_record working other "j1" ≡ err (QueueError.job_not_found "j1"))
foreign_not_found_example = foreign_not_found working other "j1" held "t1" 300 300 at_work not_other

scoped : scope_of acme mail ≡ some ("acme", "mail", "send", "once")
unfolding scope_of
scoped = refl

enqueue-again_example : enqueue waiting acme mail "j2" 150 150 ≡ (ok "j1", waiting)
enqueue-again_example =
    enqueue-again empty acme mail mail "j1" "j2" "j1" 100 100 150 150
      ("acme", "mail", "send", "once") scoped scoped enqueued

expired : lease_expired held 2_000 ≡ true
unfolding leased_record new_record start_processing
expired = refl

abbrev put_back : JobRecord
put_back = record held {
  status = JobStatus.retrying 1_000_002_000;
  lease_token = none;
  last_error = some "Lease expired";
  updated_at = 2_000;
}

after_cycle :
    Dict.get (reap_expired_leases new_reaper working 2_000 2_000).1.jobs "j1" ≡ some put_back
unfolding Memory.new enqueue dequeue has_candidate Dict.get existing scope_of enqueue_new push_entry
    Dict.put str_beq priority_insert Dict.get_or_default dequeue_from pop_entry pop_queue pop_due
    take_due lease_job any Dict.empty Dict.is_empty Dict.remove grant has_due leased_record
    insert_entry put_job register_key send insert partition_point new_record start_processing
    reap_expired_leases reap_job new_reaper reap_jobs expired_ids expired_among cleared give_up
    requeue requeue_all send_all set_error Dict.iter
after_cycle = refl

reap-none_expired_example : lease_expired put_back 2_000 ≡ false
reap-none_expired_example =
    reap-none_expired new_reaper working 2_000 2_000 "j1" put_back after_cycle

abbrev queued : QueueEntry
queued = entry_of "j1" mail

in_queue : queue_of waiting.queues "acme" "mail" ≡ queued ∷ []
unfolding queue_of entries_of Memory.new enqueue Dict.get existing scope_of enqueue_new push_entry
    Dict.put str_beq priority_insert Dict.get_or_default Dict.empty insert_entry put_job
    register_key send insert partition_point new_record
in_queue = refl

waits : Waits waiting.jobs queued
unfolding Memory.new enqueue Dict.get existing scope_of enqueue_new push_entry Dict.put str_beq
    priority_insert Dict.get_or_default Dict.empty insert_entry put_job register_key send insert
    partition_point new_record
waits = refl

dequeue-progress_example :
    (l : LeasedJob) × ((dequeue waiting acme ("mail" ∷ []) "t1" 200 200).0 ≡ ok (some l))
dequeue-progress_example =
    dequeue-progress waiting acme "mail" "t1" 200 200 queued
      (subst (All (Waits waiting.jobs)) (sym in_queue) (waits, tt))
      (subst (In queued) (sym in_queue) (here refl)) (omega arith)
