-- ===== src/Tracking/Examples/Fencing.antt =====
-- A worker of the job queue whose lease has ended, or was taken over, and leases that have expired.
use signalattice.Prelude.{is_ok, true, arith, [], ok, refl, some, false, ◌∷◌, ◌≡◌}
use signalattice.Tracking.Registry.{check_job}
use signalattice.Tracking.Registry.Rows.{add_event, claim_job, expire_job}
use signalattice.Tracking.Registry.Operations.{
  empty_registry, Lease, Registry, best_queued, check_request, count_active, put_job,
}
use signalattice.Tracking.Registry.Expiry.{recover_expired, recover_expired_jobs, recover_rows}
use signalattice.Tracking.Registry.Queue.{
  claim, claim_best, submit, submit_or_replay, validate_lease_seconds,
}
use signalattice.Tracking.Registry.Histories.{claiming, completing, recovering, run, step}
use signalattice.Tracking.Registry.Ended.{by_completion}
use signalattice.Tracking.Registry.Recovering.{recover_expired-run}
use signalattice.Tracking.Registry.Once.{IsFenced, claim_fences, ended_once}
use signalattice.Tracking.Examples.{
  two_attempts, default_limits_checked, claimed_registry, completed_job, completed_registry,
  default_limits, first_completion, first_lease, first_run, keyed,
}

ended_once_example :
    IsFenced default_limits keyed
      (run default_limits keyed completed_registry (recovering 40 ∷ claiming "other" 5 "t" 50 ∷ []))
      first_lease
ended_once_example =
    ended_once default_limits keyed claimed_registry completed_registry first_lease first_lease
      (recovering 40 ∷ claiming "other" 5 "t" 50 ∷ [])
      (by_completion first_run 30 completed_job first_completion) refl (omega arith)

abbrev second_lease : Lease
second_lease = record {
  job_id = "job";
  worker_id = "other";
  token = "secret";
  attempt = 2;
  expires_at = 14_000_000;
  cancel_requested = false;
}

abbrev taken_over : Registry
taken_over = run default_limits keyed claimed_registry (claiming "other" 5 "secret" 9_000_000 ∷ [])

second_claim :
    claim default_limits keyed claimed_registry "other" 5 "secret" 9_000_000
    ≡ ok (some second_lease, taken_over)
unfolding run step submit submit_or_replay check_request claim claim_best recover_expired_jobs
    recover_rows expire_job claim_job add_event check_job best_queued put_job validate_lease_seconds
    count_active
second_claim = refl

claim_fences_example :
    IsFenced default_limits keyed
      (run default_limits keyed taken_over (completing first_lease first_run 9_000_010 ∷ []))
      first_lease
claim_fences_example =
    claim_fences default_limits keyed claimed_registry taken_over "other" 5 "secret" 9_000_000
      second_lease first_lease (completing first_lease first_run 9_000_010 ∷ []) second_claim refl
      (omega arith)

-- The second worker's lease has expired, and its job is to be cancelled.
recover_expired-run_example :
    is_ok (
      recover_expired default_limits
        (run default_limits keyed empty_registry two_attempts)
        15_000_000)
    ≡ true
recover_expired-run_example =
    recover_expired-run default_limits keyed two_attempts 15_000_000 default_limits_checked
