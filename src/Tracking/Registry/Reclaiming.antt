-- ===== src/Tracking/Registry/Reclaiming.antt =====
-- The rows of a job that `claim` of tracking/registry.py has leased.
use signalattice.Prelude.{
  >>=-eq-ok, Bool-cases, List, Option, Option-cases, String, [], ap, arith, eq_iff, inl, inr, ltb_ℤ,
  none, ok, ok-injective, refl, refuse, require, some, some-eq, subst, ℕ, ◌<◌, ◌∙◌, ◌∷◌, ◌≡◌,
}
use signalattice.Tracking.Registry.{Job, RegistryLimits, check_job, is_queued}
use signalattice.Tracking.Registry.Rows.{claim_job, require_monotonic}
use signalattice.Tracking.Registry.Capacity.{add_event-eq}
use signalattice.Tracking.Registry.Operations.{Lease, Registry, best_queued}
use signalattice.Tracking.Registry.Expiry.{recover_expired_jobs}
use signalattice.Tracking.Registry.Queue.{claim, claim_best, validate_lease_seconds}
use signalattice.Tracking.Registry.Laws.{AllKept, Stored, put_job-ids}
use signalattice.Tracking.Registry.Ended.{put_job-IsSuperseded}
use signalattice.Tracking.Registry.Fencing.{IsSuperseded}

best_queued-Stored :
    (jobs : List Job) {job : Job} → best_queued jobs ≡ some job → Stored jobs job.job_id
unfolding best_queued
best_queued-Stored [] h = cc
best_queued-Stored (j ∷ jobs) {job} h = elim (Bool-cases (is_queued j.state)) [
  | inr q ↦ ground (arith, best_queued-Stored jobs (rw q at h))
  | inl q ↦ elim (Option-cases (best_queued jobs)) [
    | inl e ↦
        let same : j ≡ job = some-eq (rw (q, e) at h) in
        ground (arith, (eq_iff j.job_id job.job_id).1 (ap (λ x. x.job_id) same))
    | inr (other, e) ↦ elim (Bool-cases (ltb_ℤ j.priority other.priority)) [
      | inl b ↦
          let same : other ≡ job = some-eq (rw (q, e, b) at h) in
          let k = subst (λ x. Stored jobs x.job_id) same (best_queued-Stored jobs e) in
          ground (arith, k)
      | inr b ↦
          let same : j ≡ job = some-eq (rw (q, e, b) at h) in
          ground (arith, (eq_iff j.job_id job.job_id).1 (ap (λ x. x.job_id) same))
    ]
  ]
]

module _ (limits : RegistryLimits) (digest : String → String) where
  claim_job-moved :
      (job : Job) (now expires : ℕ) (worker token : String) {after : Job}
      → claim_job limits job now expires worker token ≡ ok after
      → after.job_id ≡ job.job_id
  unfolding claim_job
  claim_job-moved job now expires worker token h = ap (λ j. j.job_id) (add_event-eq limits _ _ h)

  -- The attempts before that of the lease have passed.
  claim_best-IsSuperseded :
      (o : Option Job) (u : Registry) (worker_id : String) (lease_seconds : ℕ) (token : String)
      (now n : ℕ) {l : Lease} {t : Registry}
      → claim_best limits digest o u worker_id lease_seconds token now ≡ ok (some l, t)
      → ((job : Job) → o ≡ some job → Stored u.jobs job.job_id)
      → n < l.attempt
      → AllKept (IsSuperseded limits l.job_id n) (l.job_id ∷ []) t.jobs
  unfolding claim_best
  claim_best-IsSuperseded none u worker_id lease_seconds token now n h w less =
      cc (ap (λ x. x.0) (ok-injective h))
  claim_best-IsSuperseded (some job) u worker_id lease_seconds token now n {l} {t} h w less =
      let (_, _, h₁) = >>=-eq-ok (require_monotonic job now) _ h in
      let (_, _, h₂) = >>=-eq-ok (check_job job) _ h₁ in
      let (_, _, h₃) = >>=-eq-ok (require (is_queued job.state) _) _ h₂ in
      let (after, e, h₄) = >>=-eq-ok (claim_job limits job now _ worker_id _) _ h₃ in
      let leased = some-eq (ap (λ x. x.0) (ok-injective h₄)) in
      let id : job.job_id ≡ l.job_id = ap (λ x. x.job_id) leased in
      let attempt : after.attempt_count ≡ l.attempt = ap (λ x. x.attempt) leased in
      subst (λ t. AllKept (IsSuperseded limits l.job_id n) (l.job_id ∷ []) t.jobs)
        (ap (λ x. x.1) (ok-injective h₄))
        (record {
          rows =
              put_job-IsSuperseded limits l.job_id n after u.jobs
                (claim_job-moved job now _ worker_id _ e ∙ id)
                (record {
                  begun = λ same. omega (arith, less, attempt);
                  passed = λ same r. omega (arith, less, attempt);
                });
          ids = (put_job-ids l.job_id after u.jobs ∙ subst (Stored u.jobs) id (w job refl), tt);
        })

  pub claim-IsSuperseded :
      (r : Registry) (worker_id : String) (lease_seconds : ℕ) (token : String) (now n : ℕ)
      {l : Lease} {t : Registry}
      → claim limits digest r worker_id lease_seconds token now ≡ ok (some l, t)
      → n < l.attempt
      → AllKept (IsSuperseded limits l.job_id n) (l.job_id ∷ []) t.jobs
  unfolding claim
  claim-IsSuperseded r worker_id lease_seconds token now n h less =
      let (_, _, h₁) = >>=-eq-ok (validate_lease_seconds limits lease_seconds) _ h in
      let (_, _, h₂) = >>=-eq-ok (refuse r.retention_pending _) _ h₁ in
      let ((_, u), e, h₃) = >>=-eq-ok (recover_expired_jobs limits none r now) _ h₂ in
      claim_best-IsSuperseded (best_queued u.jobs) u worker_id lease_seconds token now n h₃
        (λ job b. best_queued-Stored u.jobs b) less
