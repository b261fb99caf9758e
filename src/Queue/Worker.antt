-- ===== src/Queue/Worker.antt =====
-- `Worker::process_next_job` of dog-queue/src/adapter.rs over the in-memory backend, with the
-- lookups in the registries of codecs and of handlers (dog-queue/src/codec/mod.rs and
-- dog-queue/src/job/registry.rs). A handler and a codec are functions that the user supplies.
-- `during` is what other calls, the worker's own heartbeats included, do to the backend between
-- the dequeue and the acknowledgement.
pub mod Laws
pub mod Keeps
pub mod Loop
use Prim.Native.String.{◌++◌ as text_append}
use dogrs.Base.{
  ℕ, String, Bool, true, false, ◌&&◌, Option, none, some, List, [], ◌∷◌, if◌then◌else◌, leb,
  string_eq,
}
use dogrs.Dict
use dogrs.Dict.{Dict}
use dogrs.Queue.Config.{QueueConfig}
use dogrs.Queue.Ctx.{QueueCtx}
use dogrs.Queue.Error.{JobError, is_retryable, display, QueueError, QueueResult, ok, err, ◌>>=◌}
use dogrs.Queue.Memory.{MemoryBackend}
use dogrs.Queue.Memory.Ack.{ack_complete, ack_fail}
use dogrs.Queue.Memory.Dequeue.{dequeue}
use dogrs.Queue.Record.{JobMessage, JobRecord, LeasedJob, LeaseToken}
use dogrs.Queue.Retry.{calculate_retry_time}

-- `Result<Option<String>, JobError>`, what `JobHandler::execute` returns.
pub data Execution : Type 0 where
  success : Option String → Execution
  failure : JobError → Execution

abbrev pub Handler : Type 0
Handler = JobMessage → Execution

abbrev pub Decoder : Type 0
Decoder = List ℕ → QueueResult (List ℕ)

-- The calls of the observability layer for a job.
pub data Observation : Type 0 where
  execution_time job_completed : Observation
  job_failed : String → Observation
  job_retrying : String → ℕ → Observation

pub record Worker : Type 0 where
  pub ctx : QueueCtx
  pub queues : List String
  pub config : QueueConfig
  pub codecs : Dict String Decoder
  pub handlers : Dict String Handler

-- The readings of the clock in one call.
pub record Clock : Type 0 where
  pub dequeued : ℕ
  pub dequeue_stamp : ℕ
  pub failed : ℕ
  pub acked : ℕ
  pub ack_stamp : ℕ

unfoldable pub get_codec : Dict String Decoder → String → QueueResult Decoder
get_codec codecs id = elim (Dict.get codecs id) [
  | none ↦ err (QueueError.codec_not_found id)
  | some codec ↦ ok codec
]

unfoldable pub decode_job_payload : Dict String Decoder → JobMessage → QueueResult (List ℕ)
decode_job_payload codecs m = do codec ← get_codec codecs m.codec; codec m.payload_bytes

unfoldable pub get_handler : Dict String Handler → String → QueueResult Handler
get_handler handlers job_type = elim (Dict.get handlers job_type) [
  | none ↦ err (
      QueueError.internal
        (text_append "No handler registered for job type '" (text_append job_type "'")))
  | some handler ↦ ok handler
]

abbrev pub Processed : Type 0
Processed = QueueResult Bool × List Observation × MemoryBackend

-- An acknowledgement of a finished job that was canceled or reclaimed is no error.
abbrev pub lost_race : QueueError → QueueResult Bool
lost_race QueueError.job_canceled = ok true
lost_race QueueError.job_already_terminal = ok true
lost_race e = err e

unfoldable pub finish : Worker → LeasedJob → Option String → Clock → MemoryBackend → Processed
finish w l result t b =
    let (answer, b') =
      ack_complete b w.ctx l.record_.job_id l.lease_token result t.acked t.ack_stamp in
    elim answer [
      | ok _ ↦ (ok true, Observation.execution_time ∷ Observation.job_completed ∷ [], b')
      | err e ↦ (lost_race e, Observation.execution_time ∷ [], b')
    ]

abbrev pub observed : String → Option ℕ → Observation
observed error none = Observation.job_failed error
observed error (some retry_at) = Observation.job_retrying error retry_at

unfoldable pub give_back :
    Worker → LeasedJob → String → Option ℕ → Clock → MemoryBackend → Processed
give_back w l error retry_at t b =
    let (answer, b') =
      ack_fail b w.ctx l.record_.job_id l.lease_token error retry_at t.acked t.ack_stamp in
    elim answer [
      | ok _ ↦ (ok true, Observation.execution_time ∷ observed error retry_at ∷ [], b')
      | err e ↦ (err e, Observation.execution_time ∷ [], b')
    ]

-- A payload that cannot be decoded fails the job for good, whatever the backend answers.
unfoldable pub reject : Worker → LeasedJob → String → Clock → MemoryBackend → Processed
reject w l error t b =
    let (answer, b') =
      ack_fail b w.ctx l.record_.job_id l.lease_token error none t.acked t.ack_stamp in
    (ok true, Observation.job_failed error ∷ [], b')

-- `QueueError`'s `Display`, which thiserror generates, is the parameter `to_string`.
module _ (sample : ℕ → ℕ) (add_seconds : ℕ → ℕ → ℕ) (to_string : QueueError → String) where
  unfoldable pub decode_error : QueueError → String
  decode_error e =
      text_append "Codec decode failed (permanent — payload is corrupt or codec mismatch): "
        (to_string e)

  unfoldable pub retry_time : Worker → JobRecord → JobError → Clock → Option ℕ
  retry_time w r e t =
      if is_retryable e && leb r.attempt r.message.max_retries
      then some (calculate_retry_time sample add_seconds w.config r.attempt t.failed)
      else none

  unfoldable pub acknowledge : Worker → LeasedJob → Execution → Clock → MemoryBackend → Processed
  acknowledge w l (Execution.success result) t b = finish w l result t b
  acknowledge w l (Execution.failure e) t b =
      give_back w l (display e) (retry_time w l.record_ e t) t b

  unfoldable pub run_job : Worker → Handler → LeasedJob → Clock → MemoryBackend → Processed
  run_job w handler l t b = elim (decode_job_payload w.codecs l.record_.message) [
    | err e ↦ reject w l (decode_error e) t b
    | ok bytes ↦
        acknowledge w l (handler (record (l.record_.message) { payload_bytes = bytes })) t b
  ]

  unfoldable pub process_leased :
      Worker → LeasedJob → Clock → MemoryBackend → MemoryBackend → Processed
  process_leased w l t b b' = elim (get_handler w.handlers l.record_.message.job_type) [
    | err e ↦ (err e, [], b)
    | ok handler ↦ run_job w handler l t b'
  ]

  unfoldable pub process_next_job :
      Worker → LeaseToken → Clock → (MemoryBackend → MemoryBackend) → MemoryBackend → Processed
  process_next_job w token t during b =
      let (answer, b') = dequeue b w.ctx w.queues token t.dequeued t.dequeue_stamp in
      elim answer [
        | err e ↦ (err e, [], b')
        | ok none ↦ (ok false, [], b')
        | ok (some l) ↦ process_leased w l t b' (during b')
      ]
