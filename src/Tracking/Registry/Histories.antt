-- ===== src/Tracking/Registry/Histories.antt =====
-- Histories of the job queue of tracking/registry.py: any sequence of calls by any workers, failed
-- ones included, from empty tables.
use signalattice.Prelude.{
  Bool, List, Result, String, [], arith, err, get_elem?, length, none, ok, refl, some, true, ℕ, ◌*◌,
  ◌+◌, ◌∷◌, ◌≡◌, ◌≤◌,
}
use signalattice.Tracking.Registry.{
  Job, RegistryError, RegistryLimits, check_limits, is_queued, is_running,
}
use signalattice.Tracking.Registry.Capacity.{IsSound, requests}
use signalattice.Tracking.Registry.Operations.{
  Lease, Registry, SubmissionRequest, TerminalRunRequest, empty_registry,
}
use signalattice.Tracking.Registry.Expiry.{recover_expired}
use signalattice.Tracking.Registry.Queue.{
  acknowledge_cancel, claim, complete, fail, heartbeat, request_cancel, submit,
}
use signalattice.Tracking.Registry.Laws.{AllKept, RowLaws}
use signalattice.Tracking.Registry.Keeping.{get_elem?-All, recover_expired_jobs-AllKept}
use signalattice.Tracking.Registry.Methods.{claim-AllKept, submit-AllKept}
use signalattice.Tracking.Registry.Attempts.{
  acknowledge_cancel-AllKept, complete-AllKept, fail-AllKept, heartbeat-AllKept,
  request_cancel-AllKept,
}
use signalattice.Tracking.Registry.Sound.{IsSound-laws}

-- A call of a method, with its arguments and the instant and the random texts that it draws.
pub data Call : Type 0 where
  submitting : SubmissionRequest → String → String → ℕ → Call
  claiming : String → ℕ → String → ℕ → Call
  beating : Lease → ℕ → ℕ → Call
  recovering : ℕ → Call
  cancelling : String → String → ℕ → Call
  acknowledging : Lease → TerminalRunRequest → ℕ → Call
  completing : Lease → TerminalRunRequest → ℕ → Call
  failing : Lease → String → String → Bool → TerminalRunRequest → ℕ → Call

-- What a transaction leaves: its tables if it commits, and else those it began with.
abbrev pub commit {ℓ} : {A : Type ℓ} → Registry → Result RegistryError (A × Registry) → Registry
commit r (ok x) = x.1
commit r (err e) = r

module _ (limits : RegistryLimits) (digest : String → String) where
  unfoldable pub step : Registry → Call → Registry
  step r (submitting request key job_id now) = commit r (submit limits r request key job_id now)
  step r (claiming worker_id lease_seconds token now) =
      commit r (claim limits digest r worker_id lease_seconds token now)
  step r (beating lease lease_seconds now) =
      commit r (heartbeat limits digest r lease lease_seconds now)
  step r (recovering now) = commit r (recover_expired limits r now)
  step r (cancelling job_id reason now) = commit r (request_cancel limits r job_id reason now)
  step r (acknowledging lease request now) =
      commit r (acknowledge_cancel limits digest r lease request now)
  step r (completing lease request now) = commit r (complete limits digest r lease request now)
  step r (failing lease code summary retryable request now) =
      commit r (fail limits digest r lease code summary retryable request now)

  unfoldable pub run : Registry → List Call → Registry
  run r [] = r
  run r (call ∷ calls) = run (step r call) calls

  module _ (P : Job → Type 0) (reserved : List String) (laws : RowLaws limits P reserved) where
    commit-AllKept {ℓ} :
        {A : Type ℓ} (r : Registry) (result : Result RegistryError (A × Registry))
        → AllKept P reserved r.jobs
        → ((a : A) (t : Registry) → result ≡ ok (a, t) → AllKept P reserved t.jobs)
        → AllKept P reserved (commit r result).jobs
    commit-AllKept r (ok (a, t)) s k = k a t refl
    commit-AllKept r (err e) s k = s

    step-AllKept :
        (r : Registry) (call : Call)
        → AllKept P reserved r.jobs
        → AllKept P reserved (step r call).jobs
    unfolding step recover_expired
    step-AllKept r (submitting request key job_id now) s =
        commit-AllKept r _ s
          λ a t e. submit-AllKept limits P reserved laws r request key job_id now e s
    step-AllKept r (claiming worker_id lease_seconds token now) s =
        commit-AllKept r _ s λ a t e.
          claim-AllKept limits P reserved laws digest r worker_id lease_seconds token now e s
    step-AllKept r (beating lease lease_seconds now) s =
        commit-AllKept r _ s
          λ a t e. heartbeat-AllKept limits P reserved laws digest r lease lease_seconds now e s
    step-AllKept r (recovering now) s =
        commit-AllKept r _ s
          λ a t e. recover_expired_jobs-AllKept limits P reserved laws none r now e s
    step-AllKept r (cancelling job_id reason now) s =
        commit-AllKept r _ s
          λ a t e. request_cancel-AllKept limits P reserved laws r job_id reason now e s
    step-AllKept r (acknowledging lease request now) s =
        commit-AllKept r _ s
          λ a t e. acknowledge_cancel-AllKept limits P reserved laws digest r lease request now e s
    step-AllKept r (completing lease request now) s =
        commit-AllKept r _ s
          λ a t e. complete-AllKept limits P reserved laws digest r lease request now e s
    step-AllKept r (failing lease code summary retryable request now) s =
        commit-AllKept r _ s λ a t e.
          fail-AllKept limits P reserved laws digest r lease code summary retryable request now e s

    pub run-AllKept :
        (r : Registry) (calls : List Call)
        → AllKept P reserved r.jobs
        → AllKept P reserved (run r calls).jobs
    unfolding run
    run-AllKept r [] s = s
    run-AllKept r (call ∷ calls) s = run-AllKept (step r call) calls (step-AllKept r call s)

  pub capacity :
      check_limits limits ≡ ok limits → 2 * limits.max_attempts + 2 ≤ limits.max_events_per_job
  unfolding check_limits
  capacity h = ground arith

  -- Under limits that were checked, after any calls on empty tables, whatever their arguments and
  -- whether or not they raised: no job has had more attempts than its request allows, and a job that
  -- is queued or running has room for one more lifecycle event, and for two if its cancellation can
  -- still be requested. So the capacity of events never strands a job that has a legal exit.
  pub events_fit :
      (calls : List Call) (i : ℕ) {job : Job}
      → check_limits limits ≡ ok limits
      → get_elem? (run empty_registry calls).jobs i ≡ some job
      → (job.attempt_count ≤ job.max_attempts)
        × (is_queued job.state ≡ true → length job.events + 2 ≤ limits.max_events_per_job)
        × (is_running job.state ≡ true
            → length job.events + 2 ≤ limits.max_events_per_job + requests job)
  events_fit calls i {job} h at_i =
      let s =
        get_elem?-All limits (IsSound limits) [] (IsSound-laws limits)
          (run empty_registry calls).jobs i at_i
          (run-AllKept (IsSound limits) [] (IsSound-laws limits) empty_registry calls
            (record { rows = tt; ids = tt })).rows in
      let room = capacity h in
      (
        s.attempts_within,
        λ q. let (less, _, c) = s.queued_counted q in omega (arith, room, less, c, s.allowed),
        λ r.
            let (_, c) = s.running_counted r in
            omega (arith, room, c, s.allowed, s.attempts_within),
      )
