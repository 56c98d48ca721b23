-- ===== src/Tracking/Registry/Methods.antt =====
-- `submit` and `claim` of tracking/registry.py keep what every write of a row keeps, and a job that is
-- owned has it.
use signalattice.Prelude.{
  List, >>=-eq-ok, Option, Option-cases, String, any, ap, arith, find, inl, inr, leb, ltb, none, ok,
  ok-injective, refl, refuse, require, require-true, refuse-false, some, str_eq, subst, true, ℕ,
  ◌≡◌, ◌≤◌,
}
use signalattice.Tracking.Registry.{
  Job, RegistryLimits, check_job, is_queued, is_running, lease_lost, validation_error,
}
use signalattice.Tracking.Registry.Rows.{add_event, claim_job, require_monotonic}
use signalattice.Tracking.Registry.Operations.{
  Lease, Registry, SubmissionRequest, best_queued, count_active, has_id, require_job, check_request,
}
use signalattice.Tracking.Registry.Expiry.{recover_expired_jobs}
use signalattice.Tracking.Registry.Queue.{
  claim, claim_best, has_key, owned_running, submit, submit_or_replay, validate_lease_seconds,
  is_owned,
}
use signalattice.Tracking.Registry.Laws.{AllKept, RowLaws}
use signalattice.Tracking.Registry.Keeping.{
  IsWaiting, append-AllKept, best_queued-All, find-All, fresh_unreserved, put_job-AllKept,
  recover_expired_jobs-AllKept,
}

checked_attempts :
    (request : SubmissionRequest) {checked : SubmissionRequest}
    → check_request request ≡ ok checked
    → 1 ≤ request.max_attempts
unfolding check_request
checked_attempts request h = ground arith

module _ (limits : RegistryLimits) (P : Job → Type 0) (reserved : List String)
    (laws : RowLaws limits P reserved) where
  submit_or_replay-AllKept :
      (prior : Option Job) (r : Registry) (request : SubmissionRequest) (key job_id : String)
      (now : ℕ) {job : Job} {t : Registry}
      → submit_or_replay limits prior r request key job_id now ≡ ok (job, t)
      → 1 ≤ request.max_attempts
      → request.max_attempts ≤ limits.max_attempts
      → AllKept P reserved r.jobs
      → AllKept P reserved t.jobs
  unfolding submit_or_replay
  submit_or_replay-AllKept (some prior) r request key job_id now h p m s =
      let (_, _, h') = >>=-eq-ok (require (str_eq prior.request_digest request.digest) _) _ h in
      let (_, _, h'') = >>=-eq-ok (check_job prior) _ h' in
      subst (λ t. AllKept P reserved t.jobs) (ap (λ x. x.1) (ok-injective h'')) s
  submit_or_replay-AllKept none r request key job_id now h p m s =
      let (_, _, h₁) = >>=-eq-ok (refuse (leb limits.queue_capacity (count_active r.jobs)) _) _ h in
      let (_, taken, h₂) = >>=-eq-ok (refuse (any (has_id job_id) r.jobs) _) _ h₁ in
      let (new, e, h₃) = >>=-eq-ok (add_event limits _ _) _ h₂ in
      let (snapshot, c, h₄) = >>=-eq-ok (check_job new) _ h₃ in
      subst (λ t. AllKept P reserved t.jobs) (ap (λ x. x.1) (ok-injective h₄))
        (append-AllKept limits P reserved laws r.jobs new s (
          laws.by_submit request key job_id now e p m
            (fresh_unreserved limits P reserved laws r.jobs job_id s (refuse-false _ _ taken))
            snapshot c))

  pub submit-AllKept :
      (r : Registry) (request : SubmissionRequest) (key job_id : String) (now : ℕ) {job : Job}
      {t : Registry}
      → submit limits r request key job_id now ≡ ok (job, t)
      → AllKept P reserved r.jobs
      → AllKept P reserved t.jobs
  unfolding submit
  submit-AllKept r request key job_id now h s =
      let (_, a, h₁) = >>=-eq-ok (check_request request) _ h in
      let (_, _, h₂) =
        >>=-eq-ok (refuse (ltb limits.max_request_bytes request.encoded_size) _) _ h₁ in
      let (_, b, h₃) =
        >>=-eq-ok (refuse (ltb limits.max_attempts request.max_attempts) validation_error) _ h₂ in
      submit_or_replay-AllKept (find (has_key key) r.jobs) r request key job_id now h₃
        (checked_attempts request a) (ground (arith, b)) s

  module _ (digest : String → String) where
    claim_best-AllKept :
        (o : Option Job) (r : Registry) (worker_id : String) (lease_seconds : ℕ) (token : String)
        (now : ℕ) {l : Option Lease} {t : Registry}
        → claim_best limits digest o r worker_id lease_seconds token now ≡ ok (l, t)
        → ((job : Job) → o ≡ some job → IsWaiting limits P reserved laws job)
        → AllKept P reserved r.jobs
        → AllKept P reserved t.jobs
    unfolding claim_best
    claim_best-AllKept none r worker_id lease_seconds token now h w s =
        subst (λ t. AllKept P reserved t.jobs) (ap (λ x. x.1) (ok-injective h)) s
    claim_best-AllKept (some job) r worker_id lease_seconds token now h w s =
        let (_, m, h₁) = >>=-eq-ok (require_monotonic job now) _ h in
        let (_, _, h₂) = >>=-eq-ok (check_job job) _ h₁ in
        let (_, _, h₃) = >>=-eq-ok (require (is_queued job.state) _) _ h₂ in
        let (after, e, h₄) = >>=-eq-ok (claim_job limits job now _ worker_id _) _ h₃ in
        let (sound, waits) = w job refl in
        subst (λ t. AllKept P reserved t.jobs) (ap (λ x. x.1) (ok-injective h₄))
          (put_job-AllKept limits P reserved laws after r.jobs
            (laws.by_claim job now _ worker_id _ e waits (refuse-false _ _ m) (omega arith) sound)
            s)

    pub claim-AllKept :
        (r : Registry) (worker_id : String) (lease_seconds : ℕ) (token : String) (now : ℕ)
        {l : Option Lease} {t : Registry}
        → claim limits digest r worker_id lease_seconds token now ≡ ok (l, t)
        → AllKept P reserved r.jobs
        → AllKept P reserved t.jobs
    unfolding claim
    claim-AllKept r worker_id lease_seconds token now h s =
        let (_, _, h₁) = >>=-eq-ok (validate_lease_seconds limits lease_seconds) _ h in
        let (_, _, h₂) = >>=-eq-ok (refuse r.retention_pending _) _ h₁ in
        let ((_, u), e, h₃) = >>=-eq-ok (recover_expired_jobs limits none r now) _ h₂ in
        let k = recover_expired_jobs-AllKept limits P reserved laws none r now e s in
        claim_best-AllKept (best_queued u.jobs) u worker_id lease_seconds token now h₃
          (λ job b. best_queued-All limits P reserved laws u.jobs b k.rows) k

    -- A job that a live lease owns has the property and runs.
    pub owned_running-kept :
        (r : Registry) (lease : Lease) (now : ℕ) {job : Job}
        → owned_running limits digest r lease now ≡ ok job
        → AllKept P reserved r.jobs
        → P job × (is_running job.state ≡ true)
    unfolding owned_running require_job
    owned_running-kept r lease now h s = elim (Option-cases (find (has_id lease.job_id) r.jobs)) [
      | inl e ↦ cc (rw e at h)
      | inr (found, e) ↦
          let h' = rw e at h in
          let (_, _, h₁) = >>=-eq-ok (require_monotonic found now) _ h' in
          let (_, _, h₂) = >>=-eq-ok (check_job found) _ h₁ in
          let (_, g, h₃) = >>=-eq-ok (require (is_owned digest lease now found) lease_lost) _ h₂ in
          let sound = find-All limits P reserved laws (has_id lease.job_id) r.jobs e s.rows in
          subst (λ j. P j × (is_running j.state ≡ true)) (ok-injective h₃)
            (sound, ground (arith, require-true (is_owned digest lease now found) lease_lost g))
    ]
