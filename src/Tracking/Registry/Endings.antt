-- ===== src/Tracking/Registry/Endings.antt =====
-- The ends of attempts in tracking/registry.py keep the events of a job accounted for.
use signalattice.Prelude.{
  >>=-eq-ok, Bool, Bool-cases, Option, Option-cases, String, arith, false, inl, inr, leb, length,
  length-append, ltb, none, ok, ok-injective, refl, require, require-true, subst, true, ℕ, ◌&&◌,
  ◌*◌, ◌+◌, ◌<◌, ◌∙◌, ◌≡◌, ◌≤◌, is_some, some,
}
use signalattice.Tracking.Registry.{
  EventKind, Job, JobState, RegistryLimits, check_job, integrity_error, invalid_transition,
  is_queued, is_running, is_terminal,
}
use signalattice.Tracking.Registry.Rows.{
  add_event, cancel_job, cancel_queued, expire_job, fail_job, set_terminal,
}
use signalattice.Tracking.Registry.Capacity.{
  IsSound, add_event-eq, queued-IsSound, retry_job-IsSound, running-IsSound, terminal-IsSound,
  requests,
}

pub is_some-false : (o : Option ℕ) → is_some o ≡ false → o ≡ none
is_some-false none h = refl
is_some-false (some n) h = cc

module _ (limits : RegistryLimits) where
  -- The events of a running job leave room for a last one.
  running_room :
      (job : Job)
      → IsSound limits job
      → is_running job.state ≡ true
      → length job.events ≤ 2 * job.max_attempts + 1
  running_room job s r =
      let (p, c) = s.running_counted r in
      ground (arith, c, s.attempts_within, Option-cases job.cancel_requested_at)

  pub set_terminal-IsSound :
      (job : Job) (to : JobState) (kind : EventKind) (actor : String) (now : ℕ)
      (run_id code summary : Option String) {after : Job}
      → set_terminal limits job to kind actor now run_id code summary ≡ ok after
      → IsSound limits job
      → IsSound limits after
  unfolding set_terminal
  set_terminal-IsSound job to kind actor now run_id code summary h s =
      let (_, t, h') = >>=-eq-ok (require (is_terminal to) integrity_error) _ h in
      let (_, r, h'') = >>=-eq-ok (require (is_running job.state) invalid_transition) _ h' in
      let ends : is_terminal to ≡ true = require-true (is_terminal to) integrity_error t in
      let runs : is_running job.state ≡ true =
        require-true (is_running job.state) invalid_transition r in
      terminal-IsSound limits _ _ h'' (ground arith) (ground arith) s.attempts_within s.allowed
        (running_room job s runs)

  pub fail_job-IsSound :
      (job : Job) (now : ℕ) (actor code summary : String) (retryable : Bool) {after : Job}
      → fail_job limits job now actor code summary retryable ≡ ok after
      → is_running job.state ≡ true
      → IsSound limits job
      → IsSound limits after
  unfolding fail_job
  fail_job-IsSound job now actor code summary retryable h r s =
      elim (Bool-cases (is_some job.cancel_requested_at)) [
        | inl e ↦ set_terminal-IsSound job _ _ _ now _ _ _ (rw e at h) s
        | inr e ↦ elim (Bool-cases (retryable && ltb job.attempt_count job.max_attempts)) [
          | inl b ↦
              retry_job-IsSound limits job now actor (rw (e, b) at h) r
                (is_some-false job.cancel_requested_at e) (ground (arith, b)) s
          | inr b ↦ set_terminal-IsSound job _ _ _ now _ _ _ (rw (e, b) at h) s
        ]
      ]

  pub expire_job-IsSound :
      (job : Job) (now : ℕ) {after : Job}
      → expire_job limits job now ≡ ok after
      → is_running job.state ≡ true
      → IsSound limits job
      → IsSound limits after
  unfolding expire_job
  expire_job-IsSound job now h r s =
      let (_, _, h') = >>=-eq-ok (check_job job) _ h in
      let (p, c) = s.running_counted r in
      elim (Option-cases job.cancel_requested_at) [
        | inr (at, e) ↦
            terminal-IsSound limits _ _ (rw e at h') refl refl s.attempts_within s.allowed
              (running_room job s r)
        | inl e ↦
            let unasked : is_some job.cancel_requested_at ≡ false = rw e refl in
            elim (Bool-cases (leb job.max_attempts job.attempt_count)) [
              | inl b ↦
                  terminal-IsSound limits _ _ (rw (unasked, b) at h') refl refl s.attempts_within
                    s.allowed (running_room job s r)
              | inr b ↦
                  queued-IsSound limits _ _ (rw (unasked, b) at h') refl e (ground (arith, b))
                    s.allowed (c ∙ rw e (omega arith))
            ]
      ]

  cancel_queued-IsSound :
      (job : Job) (now : ℕ) {after : Job}
      → cancel_queued limits job now ≡ ok after
      → job.attempt_count < job.max_attempts
      → job.max_attempts ≤ limits.max_attempts
      → length job.events ≡ 2 * job.attempt_count + 2
      → IsSound limits after
  unfolding cancel_queued
  cancel_queued-IsSound job now h less m c =
      terminal-IsSound limits _ _ h refl refl (omega (arith, less)) m (omega (arith, c, less))

  pub cancel_job-IsSound :
      (job : Job) (now : ℕ) (reason : String) {after : Job}
      → cancel_job limits job now reason ≡ ok after
      → is_terminal job.state ≡ false
      → job.cancel_requested_at ≡ none
      → IsSound limits job
      → IsSound limits after
  unfolding cancel_job
  cancel_job-IsSound job now reason h t n s = elim (Bool-cases (is_queued job.state)) [
    | inl q ↦
        let (asked, e, h') = >>=-eq-ok (add_event limits _ _) _ h in
        let (less, _, c) = s.queued_counted q in
        let same = add_event-eq limits _ _ e in
        let h'' = rw (same, q) at h' in
        cancel_queued-IsSound _ now h'' less s.allowed (omega (arith, length-append job.events, c))
    | inr q ↦
        let (asked, e, h') = >>=-eq-ok (add_event limits _ _) _ h in
        let unasked : requests job ≡ 0 = rw n refl in
        let r : is_running job.state ≡ true = ground arith in
        let (p, c) = s.running_counted r in
        subst (IsSound limits) (ok-injective (rw q at h')) (
          running-IsSound limits _ _ e (ground (arith, r)) p s.attempts_within s.allowed
            (omega (arith, c, unasked)))
  ]
