-- ===== src/Queue/Record.antt =====
-- dog-queue/src/types/message.rs, record.rs and ids.rs: what a job is and the states that it goes through.
-- Times are nanoseconds since a fixed instant, and durations are nanoseconds; a method that reads
-- the clock takes the reading as its argument `now`. Identifiers and tokens are texts.

use dogrs.Base.{
  ℕ, ◌-◌, String, Bool, true, false, Option, none, some, List, ltb, leb, if◌then◌else◌,
}
use dogrs.Queue.Priority.{JobPriority}

abbrev pub JobId : Type 0
JobId = String

abbrev pub LeaseToken : Type 0
LeaseToken = String

pub record JobMessage : Type 0 where
  pub job_type : String
  pub payload_bytes : List ℕ
  pub codec : String
  pub queue : String
  pub priority : JobPriority
  pub max_retries : ℕ
  pub run_at : ℕ
  pub idempotency_key : Option String

unfoldable pub new_message : String → List ℕ → String → String → ℕ → JobMessage
new_message job_type payload_bytes codec queue now = record {
  job_type = job_type;
  payload_bytes = payload_bytes;
  codec = codec;
  queue = queue;
  priority = JobPriority.normal;
  max_retries = 3;
  run_at = now;
  idempotency_key = none;
}

-- `JobMessage::is_eligible`.
abbrev pub is_due : JobMessage → ℕ → Bool
is_due m now = leb m.run_at now

pub data JobStatus : Type 0 where
  enqueued : JobStatus
  processing retrying completed : ℕ → JobStatus
  failed : ℕ → String → JobStatus
  canceled : ℕ → JobStatus

abbrev pub is_terminal : JobStatus → Bool
is_terminal (JobStatus.completed _) = true
is_terminal (JobStatus.failed _ _) = true
is_terminal (JobStatus.canceled _) = true
is_terminal _ = false

abbrev pub is_processing : JobStatus → Bool
is_processing (JobStatus.processing _) = true
is_processing _ = false

-- `JobStatus::is_eligible`.
abbrev pub is_eligible : JobStatus → ℕ → Bool
is_eligible JobStatus.enqueued now = true
is_eligible (JobStatus.retrying retry_at) now = leb retry_at now
is_eligible _ now = false

abbrev pub status_name : JobStatus → String
status_name JobStatus.enqueued = "enqueued"
status_name (JobStatus.processing _) = "processing"
status_name (JobStatus.retrying _) = "retrying"
status_name (JobStatus.completed _) = "completed"
status_name (JobStatus.failed _ _) = "failed"
status_name (JobStatus.canceled _) = "canceled"

pub record JobRecord : Type 0 where
  pub job_id : JobId
  pub tenant_id : String
  pub message : JobMessage
  pub status : JobStatus
  pub attempt : ℕ
  pub created_at : ℕ
  pub updated_at : ℕ
  pub last_error : Option String
  pub result : Option String
  pub lease_token : Option LeaseToken

unfoldable pub new_record : JobId → String → JobMessage → ℕ → JobRecord
new_record job_id tenant_id message now = record {
  job_id = job_id;
  tenant_id = tenant_id;
  message = message;
  status = JobStatus.enqueued;
  attempt = 0;
  created_at = now;
  updated_at = now;
  last_error = none;
  result = none;
  lease_token = none;
}

abbrev pub deadline : JobStatus → Option ℕ
deadline (JobStatus.processing lease_until) = some lease_until
deadline _ = none

-- `JobRecord::lease_until`.
abbrev pub lease_until : JobRecord → Option ℕ
lease_until r = deadline r.status

abbrev pub expired_at : JobStatus → ℕ → Bool
expired_at (JobStatus.processing lease_until) now = ltb lease_until now
expired_at _ now = false

-- `JobRecord::lease_expired`, and the test by which the reaper collects and re-checks jobs.
abbrev pub lease_expired : JobRecord → ℕ → Bool
lease_expired r now = expired_at r.status now

unfoldable pub set_error : JobRecord → String → ℕ → JobRecord
set_error r error now = record r { last_error = some error; updated_at = now }

unfoldable pub start_processing : JobRecord → LeaseToken → ℕ → ℕ → JobRecord
start_processing r token lease_until now = record r {
  status = JobStatus.processing lease_until;
  lease_token = some token;
  updated_at = now;
}

unfoldable pub complete : JobRecord → ℕ → JobRecord
complete r now = record r { status = JobStatus.completed now; lease_token = none; updated_at = now }

unfoldable pub fail : JobRecord → String → ℕ → JobRecord
fail r error now = record r {
  status = JobStatus.failed now error;
  last_error = some error;
  lease_token = none;
  updated_at = now;
}

unfoldable pub schedule_retry : JobRecord → ℕ → ℕ → JobRecord
schedule_retry r retry_at now = record r {
  status = JobStatus.retrying retry_at;
  lease_token = none;
  updated_at = now;
}

unfoldable pub cancel : JobRecord → ℕ → JobRecord
cancel r now = record r { status = JobStatus.canceled now; lease_token = none; updated_at = now }

-- A lease as `dequeue` hands it to a worker.
pub record LeasedJob : Type 0 where
  pub record_ : JobRecord
  pub lease_token : LeaseToken
  pub lease_until : ℕ

unfoldable pub lease_valid : LeasedJob → ℕ → Bool
lease_valid l now = ltb now l.lease_until

-- The difference of two instants may be negative in the source, and is then `None`, as here at 0.
unfoldable pub lease_remaining : LeasedJob → ℕ → Option ℕ
lease_remaining l now =
    let remaining = l.lease_until - now in if ltb 0 remaining then some remaining else none
