-- ===== src/Queue/Examples/Worker.antt =====
-- The theorems on one call of `process_next_job` at concrete inputs.
use dogrs.Base.{
  ℕ, ◌+◌, ◌*◌, ◌<◌, ◌≡◌, refl, String, true, Option, [], ◌∷◌, arith, string_eq, str_beq,
}
use dogrs.Dict
use dogrs.Dict.{Dict}
use dogrs.Queue.Config.{default_config}
use dogrs.Queue.Error.{JobError, QueueError, ok, err}
use dogrs.Queue.Examples.{acme, waiting, working, held, lease, waiting-Inv, working-Held}
use dogrs.Queue.Memory.{MemoryBackend, put_job}
use dogrs.Queue.Memory.Ack.{get_status}
use dogrs.Queue.Memory.Checks.{Held, Visible}
use dogrs.Queue.Memory.Dequeue.{leased_record}
use dogrs.Queue.Memory.Invariant.{Inv}
use dogrs.Queue.Record.{
  JobRecord, JobStatus, LeasedJob, is_terminal, new_record, start_processing, cancel,
}
use dogrs.Queue.Worker.{
  Worker, Clock, Execution, Handler, Decoder, Observation, get_handler, acknowledge, process_leased,
  process_next_job,
}
use dogrs.Queue.Worker.Keeps.{process_next_job-Inv}
use dogrs.Queue.Worker.Laws.{
  verdict, process_leased-verdict, process_leased-last, canceled_mid_flight,
}

-- A handler that always fails, and a codec that changes nothing.
abbrev failing : Handler
failing m = Execution.failure (JobError.retryable "down")

abbrev plain : Decoder
plain bytes = ok bytes

abbrev first : ℕ → ℕ
first n = 0

abbrev add_seconds : ℕ → ℕ → ℕ
add_seconds now s = now + s * 1_000_000_000

abbrev shown : QueueError → String
shown e = "error"

abbrev worker : Worker
worker = record {
  ctx = acme;
  queues = "mail" ∷ [];
  config = default_config;
  codecs = Dict.put Dict.empty "json" plain;
  handlers = Dict.put Dict.empty "send" failing;
}

abbrev clock : Clock
clock = record { dequeued = 200; dequeue_stamp = 200; failed = 290; acked = 300; ack_stamp = 310 }

registered : get_handler worker.handlers lease.record_.message.job_type ≡ ok failing
unfolding get_handler Dict.get Dict.put Dict.empty str_beq leased_record new_record start_processing
registered = refl

lease-Held : Held working acme lease.record_.job_id lease.lease_token clock.acked held
unfolding leased_record new_record start_processing
lease-Held = working-Held

process_leased-verdict_example :
    ((process_leased first add_seconds shown worker lease clock working working).0 ≡ ok true)
    × (get_status
          (process_leased first add_seconds shown worker lease clock working working).2
          acme
          lease.record_.job_id
        ≡ ok (verdict first add_seconds shown worker failing lease clock))
process_leased-verdict_example =
    process_leased-verdict first add_seconds shown worker lease clock working working failing held
      registered lease-Held

-- The same lease on its second and last attempt.
abbrev last_held : JobRecord
last_held = record held { attempt = 2 }

abbrev last_lease : LeasedJob
last_lease = record { record_ = last_held; lease_token = "t1"; lease_until = 1_200 }

abbrev last_working : MemoryBackend
last_working = put_job working "j1" last_held

last-Held :
    Held last_working acme last_lease.record_.job_id last_lease.lease_token clock.acked last_held
unfolding leased_record new_record start_processing put_job Dict.get Dict.put str_beq
last-Held = record { found = refl; tenant = refl; live = refl; held = refl; timely = refl }

last_registered : get_handler worker.handlers last_lease.record_.message.job_type ≡ ok failing
unfolding get_handler Dict.get Dict.put Dict.empty str_beq leased_record new_record start_processing
last_registered = refl

spent : last_lease.record_.message.max_retries < last_lease.record_.attempt
unfolding leased_record new_record start_processing
spent = omega arith

process_leased-last_example :
    (s : JobStatus) × (get_status
        (process_leased first add_seconds shown worker last_lease clock last_working last_working).2
        acme
        last_lease.record_.job_id
      ≡ ok s)
    × (is_terminal s ≡ true)
process_leased-last_example =
    process_leased-last first add_seconds shown worker last_lease clock last_working last_working
      failing last_held last_registered last-Held spent

-- The job as a cancellation leaves it while its handler runs.
abbrev canceled : JobRecord
canceled = cancel held 250

abbrev stopped : MemoryBackend
stopped = put_job working "j1" canceled

stopped-Visible : Visible stopped acme lease.record_.job_id canceled
unfolding leased_record new_record start_processing put_job Dict.get Dict.put str_beq cancel
stopped-Visible = record { found = refl; tenant = refl }

canceled-status : canceled.status ≡ JobStatus.canceled 250
unfolding cancel
canceled-status = refl

canceled_mid_flight_example :
    ((result : Option String)
      → acknowledge first add_seconds shown worker lease (Execution.success result) clock stopped
        ≡ (ok true, Observation.execution_time ∷ [], stopped))
    × ((e : JobError)
        → acknowledge first add_seconds shown worker lease (Execution.failure e) clock stopped
          ≡ (err QueueError.job_canceled, Observation.execution_time ∷ [], stopped))
canceled_mid_flight_example =
    canceled_mid_flight first add_seconds shown worker lease clock stopped canceled 250
      stopped-Visible canceled-status

process_next_job-Inv_example :
    Inv (process_next_job first add_seconds shown worker "t1" clock (λ b. b) waiting).2 []
process_next_job-Inv_example =
    process_next_job-Inv first add_seconds shown worker "t1" clock (λ b. b) waiting (λ x v. v)
      waiting-Inv
