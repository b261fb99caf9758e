-- ===== src/Queue/Examples/History.antt =====
-- The theorems on interleavings at concrete histories.
use dogrs.Base.{
  ℕ, ◌+◌, ◌≡◌, refl, String, true, Option, none, some, [], ◌∷◌, ◌++◌, string_eq, str_beq,
}
use dogrs.Dict
use dogrs.Queue.Error.{QueueError, ok, err}
use dogrs.Queue.Examples.{acme, mail, empty, stored, empty-fresh}
use dogrs.Queue.Memory
use dogrs.Queue.Memory.{put_job, insert_entry, send}
use dogrs.Queue.Memory.Ack.{ack_complete, ack_fail, heartbeat_extend, cancel, find_job}
use dogrs.Queue.Memory.Interleaving.{World, Step, Reach, new_ticket}
use dogrs.Queue.Memory.Interleaving.Laws.{start, start-counted, start-Evolves}
use dogrs.Queue.Memory.Invariant.{CountOk, queued, count_pending}
use dogrs.Queue.Memory.Lifecycle.{Evolves}
use dogrs.Queue.Memory.Outcomes.{cancel_wins}
use dogrs.Queue.Record.{JobRecord, new_record}

-- `enqueue` has stored the job, and not yet queued it.
abbrev half_way : World
half_way = record (start 1_000) {
  backend = put_job empty "j1" stored;
  queueing = new_ticket acme mail "j1" ∷ [];
}

abbrev queued_up : World
queued_up = record half_way {
  backend =
      insert_entry (put_job empty "j1" stored) "acme" "mail" (new_ticket acme mail "j1").entry;
  queueing = [];
}

half_way-Reach : Reach (start 1_000) half_way
half_way-Reach = Reach.next Reach.here (Step.store acme mail "j1" 100 empty-fresh)

queued_up-Reach : Reach (start 1_000) queued_up
queued_up-Reach = Reach.next half_way-Reach (Step.queue_up (new_ticket acme mail "j1") [] [] refl)

found : Dict.get queued_up.backend.jobs "j1" ≡ some stored
unfolding insert_entry put_job Memory.new Dict.empty Dict.get Dict.put str_beq
found = refl

start-counted_example :
    CountOk stored.status
      (queued queued_up.backend.queues "j1" stored + count_pending "j1" ([] ++ []))
start-counted_example = start-counted 1_000 "j1" stored queued_up-Reach found

start-Evolves_example :
    (r' : JobRecord) × (Dict.get (cancel queued_up.backend acme "j1" 300 300).1.jobs "j1" ≡ some r')
    × Evolves stored r'
start-Evolves_example =
    start-Evolves 1_000 "j1" stored queued_up-Reach (Step.canceled acme "j1" 300 300) found

canceled : (cancel queued_up.backend acme "j1" 300 300).0 ≡ ok true
unfolding cancel find_job insert_entry put_job Memory.new Dict.empty Dict.get Dict.put str_beq
    new_record
canceled = refl

abbrev after : World
after = record queued_up { backend = (cancel queued_up.backend acme "j1" 300 300).1 }

-- A completion that comes too late.
abbrev later : World
later = record after { backend = (ack_complete after.backend acme "j1" "t1" none 350 350).1 }

cancel_wins_example :
    ((result : Option String)
      → ack_complete later.backend acme "j1" "t1" result 400 300
        ≡ (err QueueError.job_canceled, later.backend))
    × ((error : String) (retry_at : Option ℕ)
        → ack_fail later.backend acme "j1" "t1" error retry_at 400 300
          ≡ (err QueueError.job_canceled, later.backend))
    × ((from_std : ℕ → Option ℕ) (extra : ℕ)
        → heartbeat_extend from_std later.backend acme "j1" "t1" extra 400
          ≡ (err QueueError.job_canceled, later.backend))
cancel_wins_example =
    cancel_wins 1_000 acme "j1" 300 400 300 "t1" queued_up-Reach canceled
      (Reach.next Reach.here (Step.completed acme "j1" "t1" none 350 350))
