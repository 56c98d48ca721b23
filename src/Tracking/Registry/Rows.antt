-- ===== src/Tracking/Registry/Rows.antt =====
-- What each operation of tracking/registry.py does to one row of the job queue.
use signalattice.Prelude.{
  Bool, Option, Result, String, [], if◌then◌else◌, is_some, leb, length, ltb, none, not, ok, refuse,
  require, some, true, ℕ, ◌&&◌, ◌++◌, ◌+◌, ◌>>=◌, ◌>>◌, ◌∷◌,
}
use signalattice.Tracking.Registry.{
  EventKind, Job, JobState, LifecycleEvent, RegistryError, RegistryLimits, cancel_requested,
  cancelled, capacity_error, check_job, claimed, failed, integrity_error, invalid_transition,
  is_queued, is_running, is_terminal, job_cancelled, job_failed, lease_expired, queued, retried,
  running,
}

-- `_event`: one more lifecycle event, within the capacity of the job.
unfoldable pub add_event : RegistryLimits → Job → LifecycleEvent → Result RegistryError Job
add_event limits job event = do
  refuse (leb limits.max_events_per_job (length job.events)) capacity_error
  ok (record job { events = job.events ++ event ∷ [] })

-- `_require_monotonic`.
abbrev pub require_monotonic : Job → ℕ → Result RegistryError (Unit {0})
require_monotonic job now = refuse (ltb now job.updated_at) integrity_error

abbrev pub is_expired : ℕ → Job → Bool
is_expired now job = is_running job.state && not (is_live job.lease_expires_at)
  where
    is_live : Option ℕ → Bool
    is_live none = true
    is_live (some expiry) = ltb now expiry

abbrev pub event_of : EventKind → Option JobState → JobState → ℕ → ℕ → String → LifecycleEvent
event_of kind from to now attempt actor = record {
  kind = kind;
  from_state = from;
  to_state = to;
  occurred_at = now;
  attempt = attempt;
  actor = actor;
}

module _ (limits : RegistryLimits) where
  -- The update of `claim` and its event.
  unfoldable pub claim_job : Job → ℕ → ℕ → String → String → Result RegistryError Job
  claim_job job now expires worker token_digest =
      add_event limits
        (record job {
          state = running;
          attempt_count = job.attempt_count + 1;
          updated_at = now;
          lease_owner = some worker;
          lease_token_digest = some token_digest;
          lease_expires_at = some expires;
          heartbeat_at = some now;
        })
        (event_of claimed (some queued) running now (job.attempt_count + 1) worker)

  abbrev pub without_lease : Job → Job
  without_lease job = record job {
    lease_owner = none;
    lease_token_digest = none;
    lease_expires_at = none;
    heartbeat_at = none;
  }

  -- One row of `_recover_expired`.
  unfoldable pub expire_job : Job → ℕ → Result RegistryError Job
  expire_job job now = do
    check_job job
    if is_some job.cancel_requested_at
        then add_event limits
            (record (without_lease job) {
              state = cancelled;
              updated_at = now;
              terminal_at = some now;
              failure_code = none;
              failure_summary = none;
            })
            (event_of lease_expired (some running) cancelled now job.attempt_count "registry")
        else if leb job.max_attempts job.attempt_count
        then add_event limits
            (record (without_lease job) {
              state = failed;
              updated_at = now;
              terminal_at = some now;
              failure_code = some "lease_attempts_exhausted";
              failure_summary = some "lease expired after the final permitted attempt";
            })
            (event_of lease_expired (some running) failed now job.attempt_count "registry")
        else add_event limits
            (record (without_lease job) {
              state = queued;
              updated_at = now;
              terminal_at = none;
              failure_code = none;
              failure_summary = none;
            })
            (event_of lease_expired (some running) queued now job.attempt_count "registry")

  -- The update of a queued job that is cancelled, and its event.
  unfoldable pub cancel_queued : Job → ℕ → Result RegistryError Job
  cancel_queued job now =
      add_event limits (record job { state = cancelled; terminal_at = some now; updated_at = now })
        (event_of job_cancelled (some queued) cancelled now job.attempt_count "registry")

  -- The writes of `request_cancel`.
  unfoldable pub cancel_job : Job → ℕ → String → Result RegistryError Job
  cancel_job job now reason = do
    asked ←
        add_event limits
          (record job {
            cancel_requested_at = some now;
            cancel_reason = some reason;
            updated_at = now;
          })
          (event_of cancel_requested (some job.state) job.state now job.attempt_count "requester")
    if is_queued job.state then cancel_queued asked now else ok asked

  -- `_set_terminal`.
  unfoldable pub set_terminal :
      Job
      → JobState
      → EventKind
      → String
      → ℕ
      → Option String
      → Option String
      → Option String
      → Result RegistryError Job
  set_terminal job to kind actor now run_id code summary = do
    require (is_terminal to) integrity_error
    require (is_running job.state) invalid_transition
    add_event limits
        (record (without_lease job) {
          state = to;
          updated_at = now;
          terminal_at = some now;
          result_run_id = run_id;
          failure_code = code;
          failure_summary = summary;
        })
        (event_of kind (some running) to now job.attempt_count actor)

  -- The requeueing branch of `fail`.
  unfoldable pub retry_job : Job → ℕ → String → Result RegistryError Job
  retry_job job now actor =
      add_event limits (record (without_lease job) { state = queued; updated_at = now })
        (event_of retried (some running) queued now job.attempt_count actor)

  -- What `fail` does after its run is recorded.
  unfoldable pub fail_job : Job → ℕ → String → String → String → Bool → Result RegistryError Job
  fail_job job now actor code summary retryable =
      if is_some job.cancel_requested_at
      then set_terminal job cancelled job_cancelled actor now none none none
      else if retryable && ltb job.attempt_count job.max_attempts
      then retry_job job now actor
      else set_terminal job failed job_failed actor now none (some code) (some summary)
