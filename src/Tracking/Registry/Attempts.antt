-- ===== src/Tracking/Registry/Attempts.antt =====
-- The methods of tracking/registry.py that a lease's holder calls, and cancellation, keep what every
-- write of a row keeps.
use signalattice.Prelude.{
  List, >>=-eq-ok, Bool, String, ap, is_some, none, ok, ok-injective, refuse, refuse-false, require,
  some, subst, sym, ℕ, ◌≡◌, any, ltb, ◌||◌, Bool-cases, Option-cases, arith, find, inl, inr,
}
use signalattice.Tracking.Registry.{
  Job, RegistryLimits, RunStatus, check_job, conflict_error, integrity_error, run_cancelled,
  run_succeeded, validation_error, is_terminal,
}
use signalattice.Tracking.Registry.Rows.{fail_job, require_monotonic, set_terminal, cancel_job}
use signalattice.Tracking.Registry.Endings.{is_some-false}
use signalattice.Tracking.Registry.Operations.{
  Lease, Registry, TerminalRunRequest, current_attempt_claimed_at, insert_terminal_run,
  is_run_taken, or_else, has_id, require_job,
}
use signalattice.Tracking.Registry.Expiry.{recover_expired_jobs}
use signalattice.Tracking.Registry.Queue.{
  acknowledge_cancel, complete, fail, finish, heartbeat, owned_running, validate_lease_seconds,
  request_cancel,
}
use signalattice.Tracking.Registry.Methods.{owned_running-kept}
use signalattice.Tracking.Registry.Laws.{AllKept, RowLaws}
use signalattice.Tracking.Registry.Keeping.{find-All, put_job-AllKept, recover_expired_jobs-AllKept}

pub insert_terminal_run-jobs :
    (r : Registry) (job : Job) (request : TerminalRunRequest) (status : RunStatus) (now : ℕ)
    {t : Registry}
    → insert_terminal_run r job request status now ≡ ok t
    → t.jobs ≡ r.jobs
unfolding insert_terminal_run
insert_terminal_run-jobs r job request status now h =
    let (claimed_at, _, h₁) = >>=-eq-ok (current_attempt_claimed_at job) _ h in
    let (_, _, h₂) =
      >>=-eq-ok (refuse (ltb claimed_at job.created_at || ltb now claimed_at) integrity_error) _
        h₁ in
    let (_, _, h₃) =
      >>=-eq-ok
        (refuse
          (ltb (or_else request.started_at claimed_at) claimed_at
            || ltb now (or_else request.started_at claimed_at))
          validation_error)
        _ h₂ in
    let (_, _, h₄) =
      >>=-eq-ok (refuse (any (is_run_taken request.run_id job) r.runs) conflict_error) _ h₃ in
    ap (λ t. t.jobs) (sym (ok-injective h₄))

module _ (limits : RegistryLimits) (P : Job → Type 0) (reserved : List String)
    (laws : RowLaws limits P reserved) (digest : String → String) where
  pub heartbeat-AllKept :
      (r : Registry) (lease : Lease) (lease_seconds now : ℕ) {l : Lease} {t : Registry}
      → heartbeat limits digest r lease lease_seconds now ≡ ok (l, t)
      → AllKept P reserved r.jobs
      → AllKept P reserved t.jobs
  unfolding heartbeat
  heartbeat-AllKept r lease lease_seconds now h s =
      let (_, _, h₁) = >>=-eq-ok (validate_lease_seconds limits lease_seconds) _ h in
      let ((_, u), e, h₂) = >>=-eq-ok (recover_expired_jobs limits none r now) _ h₁ in
      let (job, o, h₃) = >>=-eq-ok (owned_running limits digest u lease now) _ h₂ in
      let (_, m, h₄) = >>=-eq-ok (require_monotonic job now) _ h₃ in
      let k = recover_expired_jobs-AllKept limits P reserved laws none r now e s in
      let (sound, runs) = owned_running-kept limits P reserved laws digest u lease now o k in
      subst (λ t. AllKept P reserved t.jobs) (ap (λ x. x.1) (ok-injective h₄))
        (put_job-AllKept limits P reserved laws _ u.jobs
          (laws.by_beat job now _ runs (refuse-false _ _ m) (omega arith) sound) k)

  finish-AllKept :
      (r : Registry) (job : Job) {j : Job} {t : Registry}
      → finish limits digest r job ≡ ok (j, t)
      → ((snapshot : Job) → check_job job ≡ ok snapshot → P job)
      → AllKept P reserved r.jobs
      → AllKept P reserved t.jobs
  finish-AllKept r job h i s =
      let (snapshot, c, h₁) = >>=-eq-ok (check_job job) _ h in
      subst (λ t. AllKept P reserved t.jobs) (ap (λ x. x.1) (ok-injective h₁))
        (put_job-AllKept limits P reserved laws job r.jobs (i snapshot c) s)

  -- The run recorded, a sound row is written back.
  ended-AllKept :
      (r u : Registry) (job after : Job) (request : TerminalRunRequest) (status : RunStatus)
      (now : ℕ) {j : Job} {t : Registry}
      → insert_terminal_run r job request status now ≡ ok u
      → finish limits digest u after ≡ ok (j, t)
      → ((snapshot : Job) → check_job after ≡ ok snapshot → P after)
      → AllKept P reserved r.jobs
      → AllKept P reserved t.jobs
  ended-AllKept r u job after request status now i f a s =
      finish-AllKept u after f a
        (subst (AllKept P reserved) (sym (insert_terminal_run-jobs r job request status now i)) s)

  pub complete-AllKept :
      (r : Registry) (lease : Lease) (request : TerminalRunRequest) (now : ℕ) {j : Job}
      {t : Registry}
      → complete limits digest r lease request now ≡ ok (j, t)
      → AllKept P reserved r.jobs
      → AllKept P reserved t.jobs
  unfolding complete
  complete-AllKept r lease request now h s =
      let ((_, u), e, h₁) = >>=-eq-ok (recover_expired_jobs limits none r now) _ h in
      let (job, o, h₂) = >>=-eq-ok (owned_running limits digest u lease now) _ h₁ in
      let (_, _, h₃) = >>=-eq-ok (refuse (is_some job.cancel_requested_at) _) _ h₂ in
      let (v, i, h₄) = >>=-eq-ok (insert_terminal_run u job request run_succeeded now) _ h₃ in
      let (after, w, f) = >>=-eq-ok (set_terminal limits job _ _ _ now _ _ _) _ h₄ in
      let k = recover_expired_jobs-AllKept limits P reserved laws none r now e s in
      let (sound, _) = owned_running-kept limits P reserved laws digest u lease now o k in
      ended-AllKept u v job after request run_succeeded now i f
        (λ snapshot c. laws.by_set_terminal job _ _ _ now _ _ _ w snapshot c sound) k

  pub acknowledge_cancel-AllKept :
      (r : Registry) (lease : Lease) (request : TerminalRunRequest) (now : ℕ) {j : Job}
      {t : Registry}
      → acknowledge_cancel limits digest r lease request now ≡ ok (j, t)
      → AllKept P reserved r.jobs
      → AllKept P reserved t.jobs
  unfolding acknowledge_cancel
  acknowledge_cancel-AllKept r lease request now h s =
      let ((_, u), e, h₁) = >>=-eq-ok (recover_expired_jobs limits none r now) _ h in
      let (job, o, h₂) = >>=-eq-ok (owned_running limits digest u lease now) _ h₁ in
      let (_, _, h₃) = >>=-eq-ok (require (is_some job.cancel_requested_at) _) _ h₂ in
      let (v, i, h₄) = >>=-eq-ok (insert_terminal_run u job request run_cancelled now) _ h₃ in
      let (after, w, f) = >>=-eq-ok (set_terminal limits job _ _ _ now _ _ _) _ h₄ in
      let k = recover_expired_jobs-AllKept limits P reserved laws none r now e s in
      let (sound, _) = owned_running-kept limits P reserved laws digest u lease now o k in
      ended-AllKept u v job after request run_cancelled now i f
        (λ snapshot c. laws.by_set_terminal job _ _ _ now _ _ _ w snapshot c sound) k

  pub fail-AllKept :
      (r : Registry) (lease : Lease) (code summary : String) (retryable : Bool)
      (request : TerminalRunRequest) (now : ℕ) {j : Job} {t : Registry}
      → fail limits digest r lease code summary retryable request now ≡ ok (j, t)
      → AllKept P reserved r.jobs
      → AllKept P reserved t.jobs
  unfolding fail
  fail-AllKept r lease code summary retryable request now h s =
      let ((_, u), e, h₁) = >>=-eq-ok (recover_expired_jobs limits none r now) _ h in
      let (job, o, h₂) = >>=-eq-ok (owned_running limits digest u lease now) _ h₁ in
      let (v, i, h₃) = >>=-eq-ok (insert_terminal_run u job request _ now) _ h₂ in
      let (after, w, f) =
        >>=-eq-ok (fail_job limits job now lease.worker_id code summary retryable) _ h₃ in
      let k = recover_expired_jobs-AllKept limits P reserved laws none r now e s in
      let (sound, runs) = owned_running-kept limits P reserved laws digest u lease now o k in
      ended-AllKept u v job after request _ now i f
        (λ snapshot c. laws.by_fail job now _ code summary retryable w runs snapshot c sound) k

module _ (limits : RegistryLimits) (P : Job → Type 0) (reserved : List String)
    (laws : RowLaws limits P reserved) where
  required-kept :
      (r : Registry) (job_id : String) {job : Job}
      → require_job r job_id ≡ ok job
      → AllKept P reserved r.jobs
      → P job
  unfolding require_job
  required-kept r job_id h s = elim (Option-cases (find (has_id job_id) r.jobs)) [
    | inl e ↦ cc (rw e at h)
    | inr (found, e) ↦
        subst (P) (ok-injective (rw e at h))
          (find-All limits P reserved laws (has_id job_id) r.jobs e s.rows)
  ]

  pub request_cancel-AllKept :
      (r : Registry) (job_id reason : String) (now : ℕ) {j : Job} {t : Registry}
      → request_cancel limits r job_id reason now ≡ ok (j, t)
      → AllKept P reserved r.jobs
      → AllKept P reserved t.jobs
  unfolding request_cancel
  request_cancel-AllKept r job_id reason now h s =
      let ((_, u), e, h₁) = >>=-eq-ok (recover_expired_jobs limits (some job_id) r now) _ h in
      let (job, o, h₂) = >>=-eq-ok (require_job u job_id) _ h₁ in
      let (_, _, h₃) = >>=-eq-ok (require_monotonic job now) _ h₂ in
      let (snapshot, _, h₄) = >>=-eq-ok (check_job job) _ h₃ in
      let k = recover_expired_jobs-AllKept limits P reserved laws (some job_id) r now e s in
      let sound = required-kept u job_id o k in
      elim (Bool-cases (is_terminal job.state || is_some job.cancel_requested_at)) [
        | inl b ↦
            subst (λ t. AllKept P reserved t.jobs) (ap (λ x. x.1) (ok-injective (rw b at h₄))) k
        | inr b ↦
            let (after, c, h₅) = >>=-eq-ok (cancel_job limits job now reason) _ (rw b at h₄) in
            let (checked, d, h₆) = >>=-eq-ok (check_job after) _ h₅ in
            subst (λ t. AllKept P reserved t.jobs) (ap (λ x. x.1) (ok-injective h₆))
              (put_job-AllKept limits P reserved laws after u.jobs
                (laws.by_cancel job now reason c (ground (arith, b))
                  (is_some-false job.cancel_requested_at (ground (arith, b))) checked d sound)
                k)
      ]
