-- ===== src/Tracking/Registry/Operations.antt =====
-- The operations of tracking/registry.py on the tables of the job queue. Each runs in one write
-- transaction: it returns the tables that it commits, or an error and none. `now` is the instant
-- that the registry's time authority returns, `job_id`, `token` the fresh random texts, and `digest`
-- the keyed digest of a secret in the domain of its use. Artifact links, the texts of the event
-- details and the checks of the form of identifiers, secrets and summaries are left out.
use signalattice.Prelude.{
  Bool, List, Option, Result, String, [], any, err, false, find, if◌then◌else◌, ltb, ltb_ℤ, none,
  ok, refuse, require, some, str_eq, true, ℕ, ℤ, ◌&&◌, ◌++◌, ◌+◌, ◌==◌, ◌>>=◌, ◌>>◌, ◌||◌, ◌∷◌,
  is_within,
}
use signalattice.Tracking.Registry.{
  EventKind, Job, JobState, LifecycleEvent, RegistryError, RunStatus, cancel_requested, claimed,
  conflict_error, integrity_error, is_queued, is_running, is_terminal, job_cancelled, job_failed,
  job_succeeded, lease_expired, not_found, retried, submitted, validation_error, is_priority,
}

pub record RunRow : Type 0 where
  pub run_id : String
  pub job_id : String
  pub attempt : ℕ
  pub status : RunStatus
  pub created_at : ℕ
  pub started_at : ℕ
  pub ended_at : ℕ

-- The jobs are in the order of their sequence.
pub record Registry : Type 0 where
  pub jobs : List Job
  pub runs : List RunRow
  pub retention_pending : Bool

abbrev pub empty_registry : Registry
empty_registry = record { jobs = []; runs = []; retention_pending = false }

-- `canonical` is the encoded request: its digest and its size are what `submit` computes of it.
pub record SubmissionRequest : Type 0 where
  pub digest : String
  pub encoded_size : ℕ
  pub priority : ℤ
  pub max_attempts : ℕ

-- `SubmissionRequest.__post_init__`, for the numbers of the request.
unfoldable pub check_request : SubmissionRequest → Result RegistryError SubmissionRequest
check_request request = do
  require (is_priority request.priority) validation_error
  require (is_within 1 100 request.max_attempts) validation_error
  ok request

pub record Lease : Type 0 where
  pub job_id : String
  pub worker_id : String
  pub token : String
  pub attempt : ℕ
  pub expires_at : ℕ
  pub cancel_requested : Bool

pub record TerminalRunRequest : Type 0 where
  pub run_id : String
  pub started_at : Option ℕ

abbrev pub has_id : String → Job → Bool
has_id job_id job = str_eq job.job_id job_id

abbrev pub from_option {ℓ} : {A : Type ℓ} → RegistryError → Option A → Result RegistryError A
from_option e none = err e
from_option e (some a) = ok a

-- `_require_job`.
unfoldable pub require_job : Registry → String → Result RegistryError Job
require_job r job_id = from_option not_found (find (has_id job_id) r.jobs)

-- An UPDATE of the row with the job's identifier.
unfoldable pub put_job : Job → List Job → List Job
put_job job [] = []
put_job job (other ∷ jobs) = (if has_id job.job_id other then job else other) ∷ put_job job jobs

abbrev pub with_job : Registry → Job → Registry
with_job r job = record r { jobs = put_job job r.jobs }

-- `ORDER BY priority DESC, sequence ASC LIMIT 1` among the queued jobs.
abbrev pub preferred : Job → Option Job → Job
preferred job none = job
preferred job (some other) = if ltb_ℤ job.priority other.priority then other else job

unfoldable pub best_queued : List Job → Option Job
best_queued [] = none
best_queued (job ∷ jobs) =
    let rest = best_queued jobs in if is_queued job.state then some (preferred job rest) else rest

unfoldable pub count_active : List Job → ℕ
count_active [] = 0
count_active (job ∷ jobs) =
    let rest = count_active jobs in if is_terminal job.state then rest else rest + 1

-- The events of the claim of the current attempt.
abbrev pub is_claim_of : ℕ → LifecycleEvent → Bool
is_claim_of attempt event = is_claimed event.kind && event.attempt == attempt
  where
    is_claimed : EventKind → Bool
    is_claimed claimed = true
    is_claimed submitted = false
    is_claimed retried = false
    is_claimed cancel_requested = false
    is_claimed job_succeeded = false
    is_claimed job_failed = false
    is_claimed job_cancelled = false
    is_claimed lease_expired = false

unfoldable pub claims_of : ℕ → List LifecycleEvent → List LifecycleEvent
claims_of attempt [] = []
claims_of attempt (event ∷ events) =
    let rest = claims_of attempt events in if is_claim_of attempt event then event ∷ rest else rest

abbrev pub is_option_of : String → Option String → Bool
is_option_of text none = false
is_option_of text (some other) = str_eq other text

abbrev pub is_claim_shape : Job → LifecycleEvent → Bool
is_claim_shape job event =
    is_option_of event.actor job.lease_owner
    && is_from_queued event.from_state
    && is_running event.to_state
  where
    is_from_queued : Option JobState → Bool
    is_from_queued none = false
    is_from_queued (some state) = is_queued state

abbrev pub sole_claim : Job → List LifecycleEvent → Result RegistryError ℕ
sole_claim job [] = err integrity_error
sole_claim job (event ∷ []) = do
  require (is_claim_shape job event) integrity_error
  ok event.occurred_at
sole_claim job (event ∷ other ∷ events) = err integrity_error

-- `_current_attempt_claimed_at`.
unfoldable pub current_attempt_claimed_at : Job → Result RegistryError ℕ
current_attempt_claimed_at job = sole_claim job (claims_of job.attempt_count job.events)

abbrev pub or_else : Option ℕ → ℕ → ℕ
or_else none moment = moment
or_else (some chosen) moment = chosen

abbrev pub is_run_taken : String → Job → RunRow → Bool
is_run_taken run_id job run =
    str_eq run.run_id run_id || str_eq run.job_id job.job_id && run.attempt == job.attempt_count

-- `_insert_terminal_run`, for a run without artifact links.
unfoldable pub insert_terminal_run :
    Registry → Job → TerminalRunRequest → RunStatus → ℕ → Result RegistryError Registry
insert_terminal_run r job request status now = do
  claimed_at ← current_attempt_claimed_at job
  refuse (ltb claimed_at job.created_at || ltb now claimed_at) integrity_error
  let started_at = or_else request.started_at claimed_at
  refuse (ltb started_at claimed_at || ltb now started_at) validation_error
  refuse (any (is_run_taken request.run_id job) r.runs) conflict_error
  ok (record r {
    runs =
        r.runs
        ++ record {
          run_id = request.run_id;
          job_id = job.job_id;
          attempt = job.attempt_count;
          status = status;
          created_at = job.created_at;
          started_at = started_at;
          ended_at = now;
        }
          ∷ [];
  })
