-- ===== src/Queue/Examples/Values.antt =====
-- The theorems on priorities, queues, settings, delays, metrics and the worker's loop at concrete inputs.
use dogrs.Base.{length, String, ℕ, ◌≡◌, min, some, List, [], ◌∷◌, ◌++◌, arith}
use dogrs.Queue.Config.{default_config}
use dogrs.Queue.Error.{QueueError, err}
use dogrs.Queue.Metrics.{new_metrics, capacity}
use dogrs.Queue.Metrics.Recent.{record_all, durations, times_of, record_all-recent}
use dogrs.Queue.Order.{QueueEntry, priority_insert}
use dogrs.Queue.Order.Laws.{IsSorted, of_rank, of_rank-priority_insert}
use dogrs.Queue.Priority.{JobPriority}
use dogrs.Queue.Retry.{ceiling}
use dogrs.Queue.Retry.Bounds.{ceiling-overflow}
use dogrs.Queue.Worker.Loop.{WorkerState, Poll}

abbrev entry : JobPriority → ℕ → QueueEntry
entry p n = record { priority = p; run_at = n; job_id = "j" }

abbrev queue : List QueueEntry
queue =
    entry JobPriority.high 5
    ∷ entry JobPriority.normal 1
    ∷ entry JobPriority.normal 2
    ∷ entry JobPriority.low 1
    ∷ []

queue-IsSorted : IsSorted queue
queue-IsSorted = (
  (omega arith, (omega arith, (omega arith, tt))),
  ((omega arith, (omega arith, tt)), ((omega arith, tt), (tt, tt))),
)

of_rank-priority_insert_example :
    of_rank 2 (priority_insert queue (entry JobPriority.normal 3))
    ≡ of_rank 2 queue ++ of_rank 2 (entry JobPriority.normal 3 ∷ [])
of_rank-priority_insert_example =
    of_rank-priority_insert 2 queue (entry JobPriority.normal 3) queue-IsSorted

ceiling-overflow_example : ceiling default_config 65 ≡ 0
ceiling-overflow_example = ceiling-overflow default_config 65 (omega arith)

abbrev down : Poll
down = record { result = err (QueueError.internal "down"); now = 10; later = 20 }

abbrev fresh : WorkerState
fresh = record { idle_since = some 5; consecutive_errors = 0 }

abbrev mails : List (String × ℕ × ℕ)
mails = ("mail", 5, 1) ∷ ("sms", 7, 2) ∷ ("mail", 9, 3) ∷ []

record_all-recent_example :
    ((old : List ℕ) × (old ++ times_of (record_all (new_metrics 0).performance mails) "mail"
        ≡ durations "mail" mails))
    × (length (times_of (record_all (new_metrics 0).performance mails) "mail")
        ≡ min capacity (length (durations "mail" mails)))
record_all-recent_example = record_all-recent "mail" mails 0
