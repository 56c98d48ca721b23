-- ===== src/Tracking/Examples.antt =====
-- A short life of a job queue on which the theorems about the registry are applied.
mod Fencing
use signalattice.Prelude.{
  List, String, [], get_elem?, none, ok, pos, refl, some, true, ◌+◌, ◌∷◌, ◌≡◌, ◌≤◌, false, find,
  is_some, ℕ, ◌<◌,
}
use signalattice.Tracking.Registry.{
  Job, RegistryLimits, cancel_requested, check_job, check_limits, claimed, is_queued, is_running,
  lease_expired, queued, running, submitted, job_succeeded, succeeded,
}
use signalattice.Tracking.Registry.Rows.{
  add_event, cancel_job, claim_job, event_of, expire_job, set_terminal, is_expired,
}
use signalattice.Tracking.Registry.Operations.{
  best_queued, count_active, empty_registry, put_job, require_job, Lease, Registry, check_request,
  TerminalRunRequest, claims_of, current_attempt_claimed_at, has_id, insert_terminal_run,
}
use signalattice.Tracking.Registry.Choice.{IsFirst, claim-IsFirst}
use signalattice.Tracking.Registry.Completion.{IsHolder, complete-IsHolder}
use signalattice.Tracking.Registry.Recovery.{recover_expired-batch}
use signalattice.Tracking.Registry.Expiry.{recover_expired, recover_expired_jobs, recover_rows}
use signalattice.Tracking.Registry.Queue.{
  claim, claim_best, request_cancel, submit, validate_lease_seconds, lease_end, submit_or_replay,
  complete, owned_running,
}
use signalattice.Tracking.Registry.Histories.{
  Call, cancelling, claiming, events_fit, run, step, submitting, completing, recovering,
}

abbrev default_limits : RegistryLimits
default_limits = record {
  queue_capacity = 1024;
  max_request_bytes = 262144;
  max_attempts = 10;
  min_lease_seconds = 1;
  max_lease_seconds = 3600;
  recovery_batch_size = 100;
  max_events_per_job = 512;
}

default_limits_checked : check_limits default_limits ≡ ok default_limits
unfolding check_limits
default_limits_checked = refl

abbrev keyed : String → String
keyed token = token

-- A job is submitted and claimed; its lease expires, and it is claimed again and cancelled.
abbrev two_attempts : List Call
two_attempts =
    submitting (record { digest = "d"; encoded_size = 20; priority = pos 1; max_attempts = 2 })
      "key" "job" 10
    ∷ claiming "worker" 5 "token" 20
    ∷ claiming "other" 5 "secret" 9_000_000
    ∷ cancelling "job" "superseded" 9_000_001
    ∷ []

abbrev twice_claimed : Job
twice_claimed = record {
  job_id = "job";
  request_digest = "d";
  idempotency_digest = "key";
  state = running;
  priority = pos 1;
  attempt_count = 2;
  max_attempts = 2;
  created_at = 10;
  updated_at = 9_000_001;
  lease_owner = some "other";
  lease_token_digest = some "secret";
  lease_expires_at = some 14_000_000;
  heartbeat_at = some 9_000_000;
  cancel_requested_at = some 9_000_001;
  cancel_reason = some "superseded";
  terminal_at = none;
  result_run_id = none;
  failure_code = none;
  failure_summary = none;
  events =
      event_of submitted none queued 10 0 "submitter"
      ∷ event_of claimed (some queued) running 20 1 "worker"
      ∷ event_of lease_expired (some running) queued 9_000_000 1 "registry"
      ∷ event_of claimed (some queued) running 9_000_000 2 "other"
      ∷ event_of cancel_requested (some running) running 9_000_001 2 "requester"
      ∷ [];
}

two_attempts_job :
    get_elem? (run default_limits keyed empty_registry two_attempts).jobs 0 ≡ some twice_claimed
unfolding run step submit submit_or_replay check_request claim claim_best recover_expired_jobs
    recover_rows expire_job claim_job add_event check_job best_queued put_job request_cancel
    require_job cancel_job validate_lease_seconds count_active
two_attempts_job = refl

events_fit_example :
    (2 ≤ 2)
    × (is_queued running ≡ true → 5 + 2 ≤ 512)
    × (is_running running ≡ true → 5 + 2 ≤ 512 + 1)
events_fit_example =
    events_fit default_limits keyed two_attempts 0 {job = twice_claimed} default_limits_checked
      two_attempts_job

abbrev submitted_only : Registry
submitted_only = run default_limits keyed empty_registry (
    submitting (record { digest = "d"; encoded_size = 20; priority = pos 1; max_attempts = 2 })
      "key" "job" 10
    ∷ [])

abbrev first_lease : Lease
first_lease = record {
  job_id = "job";
  worker_id = "worker";
  token = "token";
  attempt = 1;
  expires_at = 5_000_020;
  cancel_requested = false;
}

abbrev claimed_registry : Registry
claimed_registry = run default_limits keyed submitted_only (claiming "worker" 5 "token" 20 ∷ [])

nothing_expired :
    recover_expired_jobs default_limits none submitted_only 20 ≡ ok (0, submitted_only)
unfolding run step submit submit_or_replay check_request recover_expired_jobs recover_rows add_event
    check_job count_active
nothing_expired = refl

first_claim :
    claim default_limits keyed submitted_only "worker" 5 "token" 20
    ≡ ok (some first_lease, claimed_registry)
unfolding run step submit submit_or_replay check_request claim claim_best recover_expired_jobs
    recover_rows claim_job add_event check_job best_queued put_job validate_lease_seconds
    count_active
first_claim = refl

claim-IsFirst_example :
    (job : Job) × IsFirst submitted_only.jobs job
    × ("job" ≡ job.job_id)
    × (5_000_020 ≡ lease_end 20 5)
    × (job.updated_at ≤ 20)
claim-IsFirst_example =
    claim-IsFirst default_limits keyed submitted_only submitted_only "worker" 5 "token" 20 0
      {lease = first_lease} {t = claimed_registry} nothing_expired first_claim

abbrev first_run : TerminalRunRequest
first_run = record { run_id = "run"; started_at = none }

abbrev completed_registry : Registry
completed_registry =
    run default_limits keyed claimed_registry (completing first_lease first_run 30 ∷ [])

abbrev completed_job : Job
completed_job = record {
  job_id = "job";
  request_digest = "d";
  idempotency_digest = "key";
  state = succeeded;
  priority = pos 1;
  attempt_count = 1;
  max_attempts = 2;
  created_at = 10;
  updated_at = 30;
  lease_owner = none;
  lease_token_digest = none;
  lease_expires_at = none;
  heartbeat_at = none;
  cancel_requested_at = none;
  cancel_reason = none;
  terminal_at = some 30;
  result_run_id = some "run";
  failure_code = none;
  failure_summary = none;
  events =
      event_of submitted none queued 10 0 "submitter"
      ∷ event_of claimed (some queued) running 20 1 "worker"
      ∷ event_of job_succeeded (some running) succeeded 30 1 "worker"
      ∷ [];
}

none_expired_yet :
    recover_expired_jobs default_limits none claimed_registry 30 ≡ ok (0, claimed_registry)
unfolding run step submit submit_or_replay check_request claim claim_best recover_expired_jobs
    recover_rows claim_job add_event check_job best_queued put_job validate_lease_seconds
    count_active
none_expired_yet = refl

first_completion :
    complete default_limits keyed claimed_registry first_lease first_run 30
    ≡ ok (completed_job, completed_registry)
unfolding run step submit submit_or_replay check_request claim claim_best recover_expired_jobs
    recover_rows claim_job add_event check_job best_queued put_job validate_lease_seconds
    count_active complete owned_running require_job insert_terminal_run current_attempt_claimed_at
    claims_of set_terminal
first_completion = refl

complete-IsHolder_example :
    (job : Job) × (find (has_id "job") claimed_registry.jobs ≡ some job)
    × IsHolder keyed first_lease 30 job
    × (is_some job.cancel_requested_at ≡ false)
    × (completed_job.state ≡ succeeded)
    × (completed_job.terminal_at ≡ some 30)
    × (completed_job.result_run_id ≡ some "run")
    × (completed_job.lease_owner ≡ none)
complete-IsHolder_example =
    complete-IsHolder default_limits keyed claimed_registry claimed_registry first_lease first_run
      30 0 {j = completed_job} {t = completed_registry} none_expired_yet first_completion

abbrev recovered_registry : Registry
recovered_registry = run default_limits keyed claimed_registry (recovering 9_000_000 ∷ [])

one_recovered :
    recover_expired default_limits claimed_registry 9_000_000 ≡ ok (1, recovered_registry)
unfolding run step submit submit_or_replay check_request claim claim_best recover_expired
    recover_expired_jobs recover_rows expire_job claim_job add_event check_job best_queued put_job
    validate_lease_seconds count_active
one_recovered = refl

recover_expired-batch_example :
    (1 ≤ 100)
    × (1 < 100
        → (i : ℕ) (job : Job) → get_elem? recovered_registry.jobs i ≡ some job
        → is_expired 9_000_000 job ≡ false)
recover_expired-batch_example =
    recover_expired-batch default_limits claimed_registry 9_000_000 one_recovered
