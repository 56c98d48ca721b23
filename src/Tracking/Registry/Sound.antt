-- ===== src/Tracking/Registry/Sound.antt =====
-- The accounting of the events of a job in tracking/registry.py is kept by every write of a row.
use signalattice.Prelude.{arith, String, [], none, ok, refl, ℕ, ◌≡◌, ◌≤◌}
use signalattice.Tracking.Registry.{Job, RegistryLimits, queued, submitted}
use signalattice.Tracking.Registry.Rows.{add_event, event_of}
use signalattice.Tracking.Registry.Capacity.{IsSound, claim_job-IsSound, queued-IsSound}
use signalattice.Tracking.Registry.Endings.{
  cancel_job-IsSound, expire_job-IsSound, fail_job-IsSound, set_terminal-IsSound,
}
use signalattice.Tracking.Registry.Operations.{SubmissionRequest}
use signalattice.Tracking.Registry.Queue.{submitted_job}
use signalattice.Tracking.Registry.Laws.{RowLaws}

module _ (limits : RegistryLimits) where
  submitted-IsSound :
      (request : SubmissionRequest) (key job_id : String) (now : ℕ) {job : Job}
      → add_event limits
          (submitted_job request key job_id now)
          (event_of submitted none queued now 0 "submitter")
        ≡ ok job
      → 1 ≤ request.max_attempts
      → request.max_attempts ≤ limits.max_attempts
      → IsSound limits job
  submitted-IsSound request key job_id now e p m = queued-IsSound limits _ _ e refl refl p m refl

  pub IsSound-laws : RowLaws limits (IsSound limits) []
  IsSound-laws = record {
    by_submit = λ request key job_id now e p m fresh snapshot c.
        submitted-IsSound request key job_id now e p m;
    by_claim = λ job now expires worker token e q m l s.
        claim_job-IsSound limits job now expires worker token e q s;
    by_beat = λ job now expires r m l s. record {
      attempts_within = s.attempts_within;
      allowed = s.allowed;
      queued_counted = s.queued_counted;
      running_counted = s.running_counted;
      all_counted = s.all_counted;
    };
    by_expire = λ job now e x s. expire_job-IsSound limits job now e (ground (arith, x)) s;
    by_set_terminal = λ job to kind actor now run_id code summary e snapshot c s.
        set_terminal-IsSound limits job to kind actor now run_id code summary e s;
    by_fail = λ job now actor code summary retryable e r snapshot c s.
        fail_job-IsSound limits job now actor code summary retryable e r s;
    by_cancel =
        λ job now reason e t n snapshot c s. cancel_job-IsSound limits job now reason e t n s;
  }
