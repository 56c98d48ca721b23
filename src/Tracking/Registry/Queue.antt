-- ===== src/Tracking/Registry/Queue.antt =====
-- The methods of ExperimentRegistry in tracking/registry.py that move jobs, over the tables.
use signalattice.Prelude.{
  Bool, Option, Result, String, [], any, false, find, if◌then◌else◌, is_some, leb, ltb, none, ok,
  refuse, require, some, str_eq, ℕ, ◌&&◌, ◌*◌, ◌++◌, ◌+◌, ◌==◌, ◌>>=◌, ◌>>◌, ◌||◌, ◌∷◌, is_within,
}
use signalattice.Tracking.Registry.{
  Job, RegistryError, RegistryLimits, cancelled, capacity_error, check_job, conflict_error,
  integrity_error, invalid_transition, is_queued, is_running, is_terminal, job_cancelled,
  job_succeeded, lease_lost, queued, retention_pending, run_cancelled, run_failed, run_succeeded,
  submitted, succeeded, validation_error,
}
use signalattice.Tracking.Registry.Rows.{
  add_event, cancel_job, claim_job, event_of, fail_job, require_monotonic, set_terminal,
}
use signalattice.Tracking.Registry.Operations.{
  Lease, Registry, SubmissionRequest, TerminalRunRequest, best_queued, count_active, has_id,
  insert_terminal_run, is_option_of, require_job, with_job, check_request,
}
use signalattice.Tracking.Registry.Expiry.{recover_expired_jobs}

abbrev pub lease_end : ℕ → ℕ → ℕ
lease_end now lease_seconds = now + 1_000_000 * lease_seconds

-- What `idempotency_digest` finds.
abbrev pub has_key : String → Job → Bool
has_key key job = str_eq job.idempotency_digest key

abbrev pub submitted_job : SubmissionRequest → String → String → ℕ → Job
submitted_job request key job_id now = record {
  job_id = job_id;
  request_digest = request.digest;
  idempotency_digest = key;
  state = queued;
  priority = request.priority;
  attempt_count = 0;
  max_attempts = request.max_attempts;
  created_at = now;
  updated_at = now;
  lease_owner = none;
  lease_token_digest = none;
  lease_expires_at = none;
  heartbeat_at = none;
  cancel_requested_at = none;
  cancel_reason = none;
  terminal_at = none;
  result_run_id = none;
  failure_code = none;
  failure_summary = none;
  events = [];
}

abbrev pub is_after : ℕ → Option ℕ → Bool
is_after now none = false
is_after now (some expiry) = ltb now expiry

-- The lease is the live one of a running job.
abbrev pub is_owned : (String → String) → Lease → ℕ → Job → Bool
is_owned digest lease now job =
    is_running job.state
    && is_option_of lease.worker_id job.lease_owner
    && is_option_of (digest lease.token) job.lease_token_digest
    && is_after now job.lease_expires_at
    && job.attempt_count == lease.attempt

module _ (limits : RegistryLimits) where
  -- `_validate_lease_seconds`.
  unfoldable pub validate_lease_seconds : ℕ → Result RegistryError (Unit {0})
  validate_lease_seconds lease_seconds =
      require (is_within limits.min_lease_seconds limits.max_lease_seconds lease_seconds)
        validation_error

  -- The branches of `submit` behind the look-up of the key.
  unfoldable pub submit_or_replay :
      Option Job
      → Registry
      → SubmissionRequest
      → String
      → String
      → ℕ
      → Result RegistryError (Job × Registry)
  submit_or_replay (some prior) r request key job_id now = do
    require (str_eq prior.request_digest request.digest) conflict_error
    snapshot ← check_job prior
    ok (snapshot, r)
  submit_or_replay none r request key job_id now = do
    refuse (leb limits.queue_capacity (count_active r.jobs)) capacity_error
    refuse (any (has_id job_id) r.jobs) integrity_error
    job ←
        add_event limits (submitted_job request key job_id now)
          (event_of submitted none queued now 0 "submitter")
    snapshot ← check_job job
    ok (snapshot, record r { jobs = r.jobs ++ job ∷ [] })

  -- `submit`, with the digest of the idempotency key.
  unfoldable pub submit :
      Registry → SubmissionRequest → String → String → ℕ → Result RegistryError (Job × Registry)
  submit r request key job_id now = do
    check_request request
    refuse (ltb limits.max_request_bytes request.encoded_size) validation_error
    refuse (ltb limits.max_attempts request.max_attempts) validation_error
    submit_or_replay (find (has_key key) r.jobs) r request key job_id now

  module _ (digest : String → String) where
    -- The job that `claim` takes, if there is one.
    unfoldable pub claim_best :
        Option Job
        → Registry
        → String
        → ℕ
        → String
        → ℕ
        → Result RegistryError (Option Lease × Registry)
    claim_best none r worker_id lease_seconds token now = ok (none, r)
    claim_best (some job) r worker_id lease_seconds token now = do
      require_monotonic job now
      check_job job
      require (is_queued job.state) integrity_error
      after ← claim_job limits job now (lease_end now lease_seconds) worker_id (digest token)
      ok (
        some (record {
          job_id = job.job_id;
          worker_id = worker_id;
          token = token;
          attempt = after.attempt_count;
          expires_at = lease_end now lease_seconds;
          cancel_requested = false;
        }),
        with_job r after,
      )

    unfoldable pub claim :
        Registry → String → ℕ → String → ℕ → Result RegistryError (Option Lease × Registry)
    claim r worker_id lease_seconds token now = do
      validate_lease_seconds lease_seconds
      refuse r.retention_pending retention_pending
      (_, s) ← recover_expired_jobs limits none r now
      claim_best (best_queued s.jobs) s worker_id lease_seconds token now

    -- `_owned_running`.
    unfoldable pub owned_running : Registry → Lease → ℕ → Result RegistryError Job
    owned_running r lease now = do
      job ← require_job r lease.job_id
      require_monotonic job now
      check_job job
      require (is_owned digest lease now job) lease_lost
      ok job

    unfoldable pub heartbeat : Registry → Lease → ℕ → ℕ → Result RegistryError (Lease × Registry)
    heartbeat r lease lease_seconds now = do
      validate_lease_seconds lease_seconds
      (_, s) ← recover_expired_jobs limits none r now
      job ← owned_running s lease now
      require_monotonic job now
      let expires = lease_end now lease_seconds
      let after = record job {
        updated_at = now;
        heartbeat_at = some now;
        lease_expires_at = some expires;
      }
      ok (
        record lease {
          attempt = job.attempt_count;
          expires_at = expires;
          cancel_requested = is_some job.cancel_requested_at;
        },
        with_job s after,
      )

    -- What the three methods that end an attempt return.
    abbrev pub finish : Registry → Job → Result RegistryError (Job × Registry)
    finish r after = do snapshot ← check_job after; ok (snapshot, with_job r after)

    unfoldable pub acknowledge_cancel :
        Registry → Lease → TerminalRunRequest → ℕ → Result RegistryError (Job × Registry)
    acknowledge_cancel r lease request now = do
      (_, s) ← recover_expired_jobs limits none r now
      job ← owned_running s lease now
      require (is_some job.cancel_requested_at) invalid_transition
      t ← insert_terminal_run s job request run_cancelled now
      after ← set_terminal limits job cancelled job_cancelled lease.worker_id now none none none
      finish t after

    unfoldable pub complete :
        Registry → Lease → TerminalRunRequest → ℕ → Result RegistryError (Job × Registry)
    complete r lease request now = do
      (_, s) ← recover_expired_jobs limits none r now
      job ← owned_running s lease now
      refuse (is_some job.cancel_requested_at) invalid_transition
      t ← insert_terminal_run s job request run_succeeded now
      after ←
          set_terminal limits job succeeded job_succeeded lease.worker_id now (some request.run_id)
            none none
      finish t after

    unfoldable pub fail :
        Registry
        → Lease
        → String
        → String
        → Bool
        → TerminalRunRequest
        → ℕ
        → Result RegistryError (Job × Registry)
    fail r lease code summary retryable request now = do
      (_, s) ← recover_expired_jobs limits none r now
      job ← owned_running s lease now
      let status = if is_some job.cancel_requested_at then run_cancelled else run_failed
      t ← insert_terminal_run s job request status now
      after ← fail_job limits job now lease.worker_id code summary retryable
      finish t after

  -- `request_cancel`.
  unfoldable pub request_cancel :
      Registry → String → String → ℕ → Result RegistryError (Job × Registry)
  request_cancel r job_id reason now = do
    (_, s) ← recover_expired_jobs limits (some job_id) r now
    job ← require_job s job_id
    require_monotonic job now
    snapshot ← check_job job
    if is_terminal job.state || is_some job.cancel_requested_at then ok (snapshot, s) else (do
      after ← cancel_job limits job now reason
      checked ← check_job after
      ok (checked, with_job s after))
