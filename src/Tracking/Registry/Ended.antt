-- ===== src/Tracking/Registry/Ended.antt =====
-- The rows of a job whose attempt a lease has ended, by a method of tracking/registry.py.
use mathlib.Core.Bool.{true≢false}
use signalattice.Prelude.{
  >>=-eq-ok, All, Bool, Bool-cases, List, Option, String, [], ap, arith, eq_iff, find, find-In,
  find-any, inl, inr, is_some, ltb, ok, ok-injective, refuse, require, some, subst, sym, ℕ, ◌&&◌,
  ◌∙◌, ◌∷◌, ◌≡◌, none, any,
}
use signalattice.Tracking.Registry.{
  EventKind, Job, JobState, RegistryLimits, RunStatus, check_job, integrity_error,
  invalid_transition, is_running, is_terminal, run_cancelled, run_succeeded,
}
use signalattice.Tracking.Registry.Rows.{fail_job, retry_job, set_terminal}
use signalattice.Tracking.Registry.Capacity.{add_event-eq}
use signalattice.Tracking.Registry.Operations.{
  Lease, Registry, TerminalRunRequest, has_id, insert_terminal_run, put_job,
}
use signalattice.Tracking.Registry.Expiry.{recover_expired_jobs}
use signalattice.Tracking.Registry.Queue.{acknowledge_cancel, complete, fail, finish, owned_running}
use signalattice.Tracking.Registry.Completion.{owned_running-IsHolder}
use signalattice.Tracking.Registry.Laws.{AllKept, Stored, put_job-ids}
use signalattice.Tracking.Registry.Attempts.{insert_terminal_run-jobs}
use signalattice.Tracking.Registry.Fencing.{
  IsSuperseded, fail_job-IsSuperseded, set_terminal-IsSuperseded,
}

module _ (limits : RegistryLimits) where
  set_terminal-id :
      (job : Job) (to : JobState) (kind : EventKind) (actor : String) (now : ℕ)
      (run_id code summary : Option String) {after : Job}
      → set_terminal limits job to kind actor now run_id code summary ≡ ok after
      → after.job_id ≡ job.job_id
  unfolding set_terminal
  set_terminal-id job to kind actor now run_id code summary h =
      let (_, _, h₁) = >>=-eq-ok (require (is_terminal to) integrity_error) _ h in
      let (_, _, h₂) = >>=-eq-ok (require (is_running job.state) invalid_transition) _ h₁ in
      ap (λ j. j.job_id) (add_event-eq limits _ _ h₂)

  fail_job-id :
      (job : Job) (now : ℕ) (actor code summary : String) (retryable : Bool) {after : Job}
      → fail_job limits job now actor code summary retryable ≡ ok after
      → after.job_id ≡ job.job_id
  unfolding fail_job retry_job
  fail_job-id job now actor code summary retryable h =
      elim (Bool-cases (is_some job.cancel_requested_at)) [
        | inl e ↦ set_terminal-id job _ _ _ now _ _ _ (rw e at h)
        | inr e ↦ elim (Bool-cases (retryable && ltb job.attempt_count job.max_attempts)) [
          | inl b ↦ ap (λ j. j.job_id) (add_event-eq limits _ _ (rw (e, b) at h))
          | inr b ↦ set_terminal-id job _ _ _ now _ _ _ (rw (e, b) at h)
        ]
      ]

  pub put_job-IsSuperseded :
      (id : String) (n : ℕ) (job : Job) (jobs : List Job)
      → job.job_id ≡ id
      → IsSuperseded limits id n job
      → All (IsSuperseded limits id n) (put_job job jobs)
  unfolding put_job
  put_job-IsSuperseded id n job [] i s = tt
  put_job-IsSuperseded id n job (other ∷ jobs) i s = elim (Bool-cases (has_id job.job_id other)) [
    | inl e ↦ rw e (s, put_job-IsSuperseded id n job jobs i s)
    | inr e ↦
        let differs = λ (same : other.job_id ≡ id).
          true≢false (sym ((eq_iff other.job_id job.job_id).1 (same ∙ sym i)) ∙ e) in
        rw e (
          record {
            begun = λ same. absurd (differs same);
            passed = λ same r. absurd (differs same);
          },
          put_job-IsSuperseded id n job jobs i s,
        )
  ]

  module _ (digest : String → String) where
    -- What a method that has ended the attempt of a lease leaves.
    ended-IsSuperseded :
        (u v : Registry) (job after : Job) (lease : Lease) (request : TerminalRunRequest)
        (status : RunStatus) (now : ℕ) {j : Job} {t : Registry}
        → find (has_id lease.job_id) u.jobs ≡ some job
        → insert_terminal_run u job request status now ≡ ok v
        → finish limits digest v after ≡ ok (j, t)
        → after.job_id ≡ job.job_id
        → IsSuperseded limits lease.job_id lease.attempt after
        → AllKept (IsSuperseded limits lease.job_id lease.attempt) (lease.job_id ∷ []) t.jobs
    ended-IsSuperseded u v job after lease request status now found i f same s =
        let (_, owned) = find-In (has_id lease.job_id) u.jobs job found in
        let id = same ∙ (eq_iff job.job_id lease.job_id).0 owned in
        let (_, _, f') = >>=-eq-ok (check_job after) _ f in
        let stored : Stored v.jobs lease.job_id =
          ap (λ jobs. any (has_id lease.job_id) jobs)
            (insert_terminal_run-jobs u job request status now i)
          ∙ find-any (has_id lease.job_id) u.jobs job found in
        subst
          (λ t. AllKept (IsSuperseded limits lease.job_id lease.attempt) (lease.job_id ∷ []) t.jobs)
          (ap (λ x. x.1) (ok-injective f'))
          (record {
            rows = put_job-IsSuperseded lease.job_id lease.attempt after v.jobs id s;
            ids = (put_job-ids lease.job_id after v.jobs ∙ stored, tt);
          })

    -- The end of an attempt by the lease that owns it.
    pub data Ends (r : Registry) (lease : Lease) (t : Registry) : Type 0 where
      by_completion :
          (request : TerminalRunRequest) (now : ℕ) (j : Job)
          → complete limits digest r lease request now ≡ ok (j, t)
          → Ends r lease t
      by_acknowledgement :
          (request : TerminalRunRequest) (now : ℕ) (j : Job)
          → acknowledge_cancel limits digest r lease request now ≡ ok (j, t)
          → Ends r lease t
      by_failure :
          (code summary : String) (retryable : Bool) (request : TerminalRunRequest) (now : ℕ)
          (j : Job)
          → fail limits digest r lease code summary retryable request now ≡ ok (j, t)
          → Ends r lease t

    pub Ends-IsSuperseded :
        (r t : Registry) (lease : Lease)
        → Ends r lease t
        → AllKept (IsSuperseded limits lease.job_id lease.attempt) (lease.job_id ∷ []) t.jobs
    unfolding complete acknowledge_cancel fail
    Ends-IsSuperseded r t lease (by_completion request now j h) =
        let ((_, u), e, h₁) = >>=-eq-ok (recover_expired_jobs limits none r now) _ h in
        let (job, o, h₂) = >>=-eq-ok (owned_running limits digest u lease now) _ h₁ in
        let (_, _, h₃) = >>=-eq-ok (refuse (is_some job.cancel_requested_at) _) _ h₂ in
        let (v, i, h₄) = >>=-eq-ok (insert_terminal_run u job request run_succeeded now) _ h₃ in
        let (after, w, f) = >>=-eq-ok (set_terminal limits job _ _ _ now _ _ _) _ h₄ in
        let (found, holds) = owned_running-IsHolder limits digest u lease now o in
        ended-IsSuperseded u v job after lease request run_succeeded now found i f
          (set_terminal-id job _ _ _ now _ _ _ w)
          (set_terminal-IsSuperseded limits lease.job_id lease.attempt job _ _ _ now _ _ _ w
            λ same. omega (arith, holds.same_attempt))
    Ends-IsSuperseded r t lease (by_acknowledgement request now j h) =
        let ((_, u), e, h₁) = >>=-eq-ok (recover_expired_jobs limits none r now) _ h in
        let (job, o, h₂) = >>=-eq-ok (owned_running limits digest u lease now) _ h₁ in
        let (_, _, h₃) = >>=-eq-ok (require (is_some job.cancel_requested_at) _) _ h₂ in
        let (v, i, h₄) = >>=-eq-ok (insert_terminal_run u job request run_cancelled now) _ h₃ in
        let (after, w, f) = >>=-eq-ok (set_terminal limits job _ _ _ now _ _ _) _ h₄ in
        let (found, holds) = owned_running-IsHolder limits digest u lease now o in
        ended-IsSuperseded u v job after lease request run_cancelled now found i f
          (set_terminal-id job _ _ _ now _ _ _ w)
          (set_terminal-IsSuperseded limits lease.job_id lease.attempt job _ _ _ now _ _ _ w
            λ same. omega (arith, holds.same_attempt))
    Ends-IsSuperseded r t lease (by_failure code summary retryable request now j h) =
        let ((_, u), e, h₁) = >>=-eq-ok (recover_expired_jobs limits none r now) _ h in
        let (job, o, h₂) = >>=-eq-ok (owned_running limits digest u lease now) _ h₁ in
        let (v, i, h₃) = >>=-eq-ok (insert_terminal_run u job request _ now) _ h₂ in
        let (after, w, f) =
          >>=-eq-ok (fail_job limits job now lease.worker_id code summary retryable) _ h₃ in
        let (found, holds) = owned_running-IsHolder limits digest u lease now o in
        ended-IsSuperseded u v job after lease request _ now found i f
          (fail_job-id job now _ code summary retryable w)
          (fail_job-IsSuperseded limits lease.job_id lease.attempt job now _ code summary retryable
            w λ same. omega (arith, holds.same_attempt))
