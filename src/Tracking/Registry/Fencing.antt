-- ===== src/Tracking/Registry/Fencing.antt =====
-- A lease of an attempt that tracking/registry.py has superseded, by the end of the attempt or by a later
-- claim, under any later calls.
use signalattice.Prelude.{
  >>=-eq-ok, Bool, Bool-cases, In, Option, String, [], arith, false, inl, inr, is_some, leb, ltb,
  none, ok, ok-injective, refl, subst, sym, true, ℕ, ◌<◌, ◌∙◌, ◌∷◌, ◌≡◌, ◌≤◌, ◌&&◌, require,
}
use signalattice.Tracking.Registry.{
  EventKind, Job, JobState, LifecycleEvent, RegistryLimits, check_job, is_queued, is_running,
  is_terminal, queued, submitted, integrity_error, invalid_transition,
}
use signalattice.Tracking.Registry.Rows.{
  add_event, cancel_job, cancel_queued, claim_job, event_of, expire_job, fail_job, retry_job,
  set_terminal,
}
use signalattice.Tracking.Registry.Capacity.{add_event-eq}
use signalattice.Tracking.Registry.Operations.{SubmissionRequest}
use signalattice.Tracking.Registry.Queue.{submitted_job}
use signalattice.Tracking.Registry.Laws.{RowLaws}

module _ (limits : RegistryLimits) (id : String) (n : ℕ) where
  -- The `n`-th attempt of the job with that identifier, if this is it, does not run.
  pub record IsSuperseded (job : Job) : Type 0 where
    pub begun : job.job_id ≡ id → n ≤ job.attempt_count
    pub passed : job.job_id ≡ id → is_running job.state ≡ true → n < job.attempt_count

  -- After one more event of a row that does not run.
  stopped-IsSuperseded :
      (job : Job) (event : LifecycleEvent) {after : Job}
      → add_event limits job event ≡ ok after
      → is_running job.state ≡ false
      → (job.job_id ≡ id → n ≤ job.attempt_count)
      → IsSuperseded after
  stopped-IsSuperseded job event h r k =
      subst IsSuperseded (sym (add_event-eq limits job event h))
        (record { begun = k; passed = λ e q. cc (r, q) })

  -- After one more event of a row in the state and of the attempt of a superseded one.
  same-IsSuperseded :
      (job before : Job) (event : LifecycleEvent) {after : Job}
      → add_event limits job event ≡ ok after
      → job.job_id ≡ before.job_id
      → job.state ≡ before.state
      → job.attempt_count ≡ before.attempt_count
      → IsSuperseded before
      → IsSuperseded after
  same-IsSuperseded job before event h i q a s =
      subst IsSuperseded (sym (add_event-eq limits job event h)) (record {
        begun = λ e. rw a (s.begun (sym i ∙ e));
        passed = λ e r. rw a (s.passed (sym i ∙ e) (rw q at r));
      })

  submitted-IsSuperseded :
      (request : SubmissionRequest) (key job_id : String) (now : ℕ) {job : Job}
      → add_event limits
          (submitted_job request key job_id now)
          (event_of submitted none queued now 0 "submitter")
        ≡ ok job
      → (In job_id (id ∷ []) → ⊥)
      → IsSuperseded job
  submitted-IsSuperseded request key job_id now h fresh =
      stopped-IsSuperseded _ _ h refl λ e. absurd (fresh (inl e))

  claim_job-IsSuperseded :
      (job : Job) (now expires : ℕ) (worker token : String) {after : Job}
      → claim_job limits job now expires worker token ≡ ok after
      → IsSuperseded job
      → IsSuperseded after
  unfolding claim_job
  claim_job-IsSuperseded job now expires worker token h s =
      subst IsSuperseded (sym (add_event-eq limits _ _ h))
        (record { begun = λ e. omega (arith, s.begun e); passed = λ e r. omega (arith, s.begun e) })

  pub set_terminal-IsSuperseded :
      (job : Job) (to : JobState) (kind : EventKind) (actor : String) (now : ℕ)
      (run_id code summary : Option String) {after : Job}
      → set_terminal limits job to kind actor now run_id code summary ≡ ok after
      → (job.job_id ≡ id → n ≤ job.attempt_count)
      → IsSuperseded after
  unfolding set_terminal
  set_terminal-IsSuperseded job to kind actor now run_id code summary h s =
      let (_, t, h₁) = >>=-eq-ok (require (is_terminal to) integrity_error) _ h in
      let (_, _, h₂) = >>=-eq-ok (require (is_running job.state) invalid_transition) _ h₁ in
      stopped-IsSuperseded _ _ h₂ (ground arith) s

  pub fail_job-IsSuperseded :
      (job : Job) (now : ℕ) (actor code summary : String) (retryable : Bool) {after : Job}
      → fail_job limits job now actor code summary retryable ≡ ok after
      → (job.job_id ≡ id → n ≤ job.attempt_count)
      → IsSuperseded after
  unfolding fail_job retry_job
  fail_job-IsSuperseded job now actor code summary retryable h s =
      elim (Bool-cases (is_some job.cancel_requested_at)) [
        | inl e ↦ set_terminal-IsSuperseded job _ _ _ now _ _ _ (rw e at h) s
        | inr e ↦ elim (Bool-cases (retryable && ltb job.attempt_count job.max_attempts)) [
          | inl b ↦ stopped-IsSuperseded _ _ (rw (e, b) at h) refl s
          | inr b ↦ set_terminal-IsSuperseded job _ _ _ now _ _ _ (rw (e, b) at h) s
        ]
      ]

  expire_job-IsSuperseded :
      (job : Job) (now : ℕ) {after : Job}
      → expire_job limits job now ≡ ok after
      → IsSuperseded job
      → IsSuperseded after
  unfolding expire_job
  expire_job-IsSuperseded job now h s =
      let (_, _, h') = >>=-eq-ok (check_job job) _ h in
      elim (Bool-cases (is_some job.cancel_requested_at)) [
        | inl e ↦ stopped-IsSuperseded _ _ (rw e at h') refl s.begun
        | inr e ↦ elim (Bool-cases (leb job.max_attempts job.attempt_count)) [
          | inl b ↦ stopped-IsSuperseded _ _ (rw (e, b) at h') refl s.begun
          | inr b ↦ stopped-IsSuperseded _ _ (rw (e, b) at h') refl s.begun
        ]
      ]

  cancel_job-IsSuperseded :
      (job : Job) (now : ℕ) (reason : String) {after : Job}
      → cancel_job limits job now reason ≡ ok after
      → IsSuperseded job
      → IsSuperseded after
  unfolding cancel_job cancel_queued
  cancel_job-IsSuperseded job now reason h s =
      let (asked, e, h') = >>=-eq-ok (add_event limits _ _) _ h in
      let t = same-IsSuperseded _ job _ e refl refl refl s in
      elim (Bool-cases (is_queued job.state)) [
        | inl q ↦ stopped-IsSuperseded _ _ (rw q at h') refl t.begun
        | inr q ↦ subst IsSuperseded (ok-injective (rw q at h')) t
      ]

  pub IsSuperseded-laws : RowLaws limits IsSuperseded (id ∷ [])
  IsSuperseded-laws = record {
    by_submit = λ request key job_id now e p m fresh snapshot c.
        submitted-IsSuperseded request key job_id now e fresh;
    by_claim = λ job now expires worker token h q m l s.
        claim_job-IsSuperseded job now expires worker token h s;
    by_beat = λ job now expires r m l s. record { begun = s.begun; passed = s.passed };
    by_expire = λ job now h r s. expire_job-IsSuperseded job now h s;
    by_set_terminal = λ job to kind actor now run_id code summary h snapshot c s.
        set_terminal-IsSuperseded job to kind actor now run_id code summary h s.begun;
    by_fail = λ job now actor code summary retryable h r snapshot c s.
        fail_job-IsSuperseded job now actor code summary retryable h s.begun;
    by_cancel = λ job now reason h t n snapshot c s. cancel_job-IsSuperseded job now reason h s;
  }
