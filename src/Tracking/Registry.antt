-- ===== src/Tracking/Registry.antt =====
-- src/quant_platform/tracking/registry.py and contracts.py: the rows of the durable job
-- queue. A job carries its own lifecycle events, oldest first. Instants are microseconds.
pub mod Rows
pub mod Operations
pub mod Expiry
pub mod Queue
pub mod Choice
pub mod Completion
pub mod Recovery
pub mod Laws
pub mod Keeping
pub mod Methods
pub mod Attempts
pub mod Endings
pub mod Capacity
pub mod Sound
pub mod Histories
pub mod Readable
pub mod ReadableRows
pub mod Fencing
pub mod Ended
pub mod Reclaiming
pub mod Recovering
pub mod Once
use signalattice.Prelude.{
  Bool, List, Option, Result, String, bool_eq, false, is_none, is_some, leb, ltb, none, not, ok,
  refuse, require, some, true, ℕ, ℤ, ◌*◌, ◌+◌, ◌>>=◌, ◌>>◌, ◌||◌, is_within, leb_ℤ, negsuc, pos,
  ◌&&◌,
}

pub data RegistryError : Type 0 where
  validation_error integrity_error conflict_error capacity_error not_found lease_lost :
      RegistryError
  invalid_transition retention_pending : RegistryError

pub data JobState : Type 0 where
  queued running succeeded failed cancelled : JobState

pub data EventKind : Type 0 where
  submitted claimed retried cancel_requested job_succeeded job_failed job_cancelled lease_expired :
      EventKind

pub data RunStatus : Type 0 where
  run_succeeded run_failed run_cancelled : RunStatus

pub record RegistryLimits : Type 0 where
  pub queue_capacity : ℕ
  pub max_request_bytes : ℕ
  pub max_attempts : ℕ
  pub min_lease_seconds : ℕ
  pub max_lease_seconds : ℕ
  pub recovery_batch_size : ℕ
  pub max_events_per_job : ℕ

-- `RegistryLimits.__post_init__`, for the limits of the job queue.
unfoldable pub check_limits : RegistryLimits → Result RegistryError RegistryLimits
check_limits limits = do
  require (is_within 1 1000000 limits.queue_capacity) validation_error
  require (is_within 1024 16777216 limits.max_request_bytes) validation_error
  require (is_within 1 100 limits.max_attempts) validation_error
  require (is_within 1 86400 limits.min_lease_seconds) validation_error
  require (is_within 1 86400 limits.max_lease_seconds) validation_error
  require (is_within 1 10000 limits.recovery_batch_size) validation_error
  require (is_within 8 10000 limits.max_events_per_job) validation_error
  refuse (ltb limits.max_lease_seconds limits.min_lease_seconds) validation_error
  refuse (ltb limits.max_events_per_job (2 * limits.max_attempts + 2)) validation_error
  ok limits

pub record LifecycleEvent : Type 0 where
  pub kind : EventKind
  pub from_state : Option JobState
  pub to_state : JobState
  pub occurred_at : ℕ
  pub attempt : ℕ
  pub actor : String

pub record Job : Type 0 where
  pub job_id : String
  pub request_digest : String
  pub idempotency_digest : String
  pub state : JobState
  pub priority : ℤ
  pub attempt_count : ℕ
  pub max_attempts : ℕ
  pub created_at : ℕ
  pub updated_at : ℕ
  pub lease_owner : Option String
  pub lease_token_digest : Option String
  pub lease_expires_at : Option ℕ
  pub heartbeat_at : Option ℕ
  pub cancel_requested_at : Option ℕ
  pub cancel_reason : Option String
  pub terminal_at : Option ℕ
  pub result_run_id : Option String
  pub failure_code : Option String
  pub failure_summary : Option String
  pub events : List LifecycleEvent

abbrev pub is_queued : JobState → Bool
is_queued queued = true
is_queued running = false
is_queued succeeded = false
is_queued failed = false
is_queued cancelled = false

abbrev pub is_running : JobState → Bool
is_running running = true
is_running queued = false
is_running succeeded = false
is_running failed = false
is_running cancelled = false

-- `JobState.terminal`.
abbrev pub is_terminal : JobState → Bool
is_terminal state = not (is_queued state || is_running state)

abbrev pub is_succeeded : JobState → Bool
is_succeeded succeeded = true
is_succeeded queued = false
is_succeeded running = false
is_succeeded failed = false
is_succeeded cancelled = false

abbrev pub is_failed : JobState → Bool
is_failed failed = true
is_failed queued = false
is_failed running = false
is_failed succeeded = false
is_failed cancelled = false

abbrev pub is_absent_or_from : ℕ → Option ℕ → Bool
is_absent_or_from instant none = true
is_absent_or_from instant (some moment) = leb instant moment

-- -100 to 100.
abbrev pub is_priority : ℤ → Bool
is_priority priority = leb_ℤ (negsuc 99) priority && leb_ℤ priority (pos 100)

-- `_job`: the checks of `JobSnapshot.__post_init__` on a stored row; any failure is an
-- IntegrityError.
unfoldable pub check_job : Job → Result RegistryError Job
check_job job = do
  require (is_priority job.priority) integrity_error
  require (is_within 1 100 job.max_attempts) integrity_error
  refuse (ltb job.max_attempts job.attempt_count) integrity_error
  refuse (ltb job.updated_at job.created_at) integrity_error
  require (is_absent_or_from job.created_at job.lease_expires_at) integrity_error
  require (is_absent_or_from job.created_at job.cancel_requested_at) integrity_error
  require (is_absent_or_from job.created_at job.terminal_at) integrity_error
  require (is_absent_or_from job.updated_at job.lease_expires_at) integrity_error
  require (bool_eq (is_none job.lease_owner) (is_none job.lease_expires_at)) integrity_error
  require (bool_eq (is_running job.state) (is_some job.lease_owner)) integrity_error
  require (bool_eq (is_terminal job.state) (is_some job.terminal_at)) integrity_error
  require (bool_eq (is_succeeded job.state) (is_some job.result_run_id)) integrity_error
  require (bool_eq (is_failed job.state) (is_some job.failure_code)) integrity_error
  require (bool_eq (is_none job.cancel_requested_at) (is_none job.cancel_reason)) integrity_error
  ok job
