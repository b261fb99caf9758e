-- ===== src/Queue/Worker/Keeps.antt =====
-- The calls of a worker keep the invariant of the backend.
use dogrs.Base.{ℕ, inl, inr, String, Option, none, [], Option-cases, string_eq}
use dogrs.Queue.Error.{display, QueueError, Result-cases}
use dogrs.Queue.Memory.{MemoryBackend}
use dogrs.Queue.Memory.Ack.{ack_complete, ack_fail}
use dogrs.Queue.Memory.Dequeue.{dequeue}
use dogrs.Queue.Memory.Invariant.{Inv}
use dogrs.Queue.Memory.Invariant.Calls.{ack_complete-Inv, ack_fail-Inv}
use dogrs.Queue.Memory.Invariant.Flow.{dequeue-Inv}
use dogrs.Queue.Record.{LeasedJob, LeaseToken}
use dogrs.Queue.Worker.{
  Worker, Clock, Execution, finish, give_back, reject, acknowledge, run_job, process_leased,
  process_next_job, decode_job_payload, decode_error, retry_time, get_handler,
}

finish-Inv :
    (w : Worker) (l : LeasedJob) (result : Option String) (t : Clock) (b : MemoryBackend)
    → Inv b []
    → Inv (finish w l result t b).2 []
unfolding finish
finish-Inv w l result t b v =
    let kept =
      ack_complete-Inv b [] w.ctx l.record_.job_id l.lease_token result t.acked t.ack_stamp v in
    elim (Result-cases
      (ack_complete b w.ctx l.record_.job_id l.lease_token result t.acked t.ack_stamp).0) [
        | inl (e, h) ↦ rw (h, finish) kept
        | inr (u, h) ↦ rw (h, finish) kept
      ]

give_back-Inv :
    (w : Worker) (l : LeasedJob) (error : String) (retry_at : Option ℕ) (t : Clock)
    (b : MemoryBackend)
    → Inv b []
    → Inv (give_back w l error retry_at t b).2 []
unfolding give_back
give_back-Inv w l error retry_at t b v =
    let kept =
      ack_fail-Inv b [] w.ctx l.record_.job_id l.lease_token error retry_at t.acked t.ack_stamp v in
    elim (Result-cases
      (ack_fail b w.ctx l.record_.job_id l.lease_token error retry_at t.acked t.ack_stamp).0) [
        | inl (e, h) ↦ rw (h, give_back) kept
        | inr (u, h) ↦ rw (h, give_back) kept
      ]

module _ (sample : ℕ → ℕ) (add_seconds : ℕ → ℕ → ℕ) (to_string : QueueError → String) where
  process_leased-Inv :
      (w : Worker) (l : LeasedJob) (t : Clock) (b b' : MemoryBackend)
      → Inv b []
      → Inv b' []
      → Inv (process_leased sample add_seconds to_string w l t b b').2 []
  unfolding process_leased run_job reject acknowledge
  process_leased-Inv w l t b b' v v' =
      elim (Result-cases (get_handler w.handlers l.record_.message.job_type)) [
        | inl (e, h) ↦ rw (h, process_leased) v
        | inr (handler, h) ↦ elim (Result-cases (decode_job_payload w.codecs l.record_.message)) [
          | inl (e, d) ↦
              rw (h, process_leased, d, run_job)
                (ack_fail-Inv b' [] w.ctx l.record_.job_id l.lease_token
                  (decode_error sample add_seconds to_string e) none t.acked t.ack_stamp v')
          | inr (bytes, d) ↦
              rw (h, process_leased, d, run_job)
                (answered (handler (record (l.record_.message) { payload_bytes = bytes })))
        ]
      ]
    where
      answered : (x : Execution) → Inv (acknowledge sample add_seconds to_string w l x t b').2 []
      answered (Execution.success result) = finish-Inv w l result t b' v'
      answered (Execution.failure e) =
          give_back-Inv w l (display e) (retry_time sample add_seconds to_string w l.record_ e t) t
            b' v'

  -- One call of `process_next_job` keeps the backend's invariant, if the calls that come between
  -- its dequeue and its acknowledgement do.
  pub process_next_job-Inv :
      (w : Worker) (token : LeaseToken) (t : Clock) (during : MemoryBackend → MemoryBackend)
      (b : MemoryBackend)
      → ((x : MemoryBackend) → Inv x [] → Inv (during x) [])
      → Inv b []
      → Inv (process_next_job sample add_seconds to_string w token t during b).2 []
  unfolding process_next_job
  process_next_job-Inv w token t during b keeps v =
      let v' = dequeue-Inv b [] w.ctx w.queues token t.dequeued t.dequeue_stamp v in
      elim (Result-cases (dequeue b w.ctx w.queues token t.dequeued t.dequeue_stamp).0) [
        | inl (e, h) ↦ rw (h, process_next_job) v'
        | inr (o, h) ↦ elim (Option-cases o) [
          | inl n ↦ rw (h, process_next_job, n) v'
          | inr (l, n) ↦ rw (h, process_next_job, n) (process_leased-Inv w l t _ _ v' (keeps _ v'))
        ]
      ]
