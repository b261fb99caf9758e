-- ===== src/Queue/Event.antt =====
-- dog-queue/src/types/events.rs: the events that the backend broadcasts.
use dogrs.Base.{ℕ, String}
use dogrs.Queue.Record.{JobId}

-- Fields in the order of the source: job, tenant, then what the event adds, and its time last.
pub data JobEvent : Type 0 where
  enqueued : JobId → String → String → String → ℕ → JobEvent
  leased : JobId → String → ℕ → ℕ → JobEvent
  retrying : JobId → String → ℕ → String → ℕ → JobEvent
  completed : JobId → String → ℕ → JobEvent
  failed : JobId → String → String → ℕ → JobEvent
  canceled : JobId → String → ℕ → JobEvent
  heartbeat_extended : JobId → String → ℕ → ℕ → JobEvent

abbrev pub event_name : JobEvent → String
event_name (JobEvent.enqueued _ _ _ _ _) = "enqueued"
event_name (JobEvent.leased _ _ _ _) = "leased"
event_name (JobEvent.retrying _ _ _ _ _) = "retrying"
event_name (JobEvent.completed _ _ _) = "completed"
event_name (JobEvent.failed _ _ _ _) = "failed"
event_name (JobEvent.canceled _ _ _) = "canceled"
event_name (JobEvent.heartbeat_extended _ _ _ _) = "heartbeat_extended"

abbrev pub tenant_id : JobEvent → String
tenant_id (JobEvent.enqueued _ t _ _ _) = t
tenant_id (JobEvent.leased _ t _ _) = t
tenant_id (JobEvent.retrying _ t _ _ _) = t
tenant_id (JobEvent.completed _ t _) = t
tenant_id (JobEvent.failed _ t _ _) = t
tenant_id (JobEvent.canceled _ t _) = t
tenant_id (JobEvent.heartbeat_extended _ t _ _) = t

abbrev pub job_id : JobEvent → JobId
job_id (JobEvent.enqueued j _ _ _ _) = j
job_id (JobEvent.leased j _ _ _) = j
job_id (JobEvent.retrying j _ _ _ _) = j
job_id (JobEvent.completed j _ _) = j
job_id (JobEvent.failed j _ _ _) = j
job_id (JobEvent.canceled j _ _) = j
job_id (JobEvent.heartbeat_extended j _ _ _) = j

abbrev pub timestamp : JobEvent → ℕ
timestamp (JobEvent.enqueued _ _ _ _ at) = at
timestamp (JobEvent.leased _ _ _ at) = at
timestamp (JobEvent.retrying _ _ _ _ at) = at
timestamp (JobEvent.completed _ _ at) = at
timestamp (JobEvent.failed _ _ _ at) = at
timestamp (JobEvent.canceled _ _ at) = at
timestamp (JobEvent.heartbeat_extended _ _ _ at) = at
