-- ===== src/Tracking/Registry/ReadableRows.antt =====
-- The rows that tracking/registry.py writes pass the checks with which it reads them.
use signalattice.Prelude.{
  >>=-eq-ok, Bool-cases, Option-cases, String, [], arith, false, inl, inr, is_some, leb, ltb, ok,
  refl, some, subst, sym, true, ℕ, ◌≡◌, ◌≤◌,
}
use signalattice.Tracking.Registry.{Job, RegistryLimits, check_job, is_queued, is_running}
use signalattice.Tracking.Registry.Rows.{claim_job, expire_job, is_expired}
use signalattice.Tracking.Registry.Capacity.{IsSound, add_event-eq}
use signalattice.Tracking.Registry.Laws.{RowLaws}
use signalattice.Tracking.Registry.Sound.{IsSound-laws}
use signalattice.Tracking.Registry.Readable.{
  IsReadable, after_creation, check_job-IsReadable, queued_fields, running_fields,
}

module _ (limits : RegistryLimits) where
  claim_job-IsReadable :
      (job : Job) (now expires : ℕ) (worker token : String) {after : Job}
      → claim_job limits job now expires worker token ≡ ok after
      → is_queued job.state ≡ true
      → ltb now job.updated_at ≡ false
      → now ≤ expires
      → IsSound limits job
      → IsReadable job
      → IsReadable after
  unfolding claim_job
  claim_job-IsReadable job now expires worker token h q m l s r =
      let (less, _, _) = s.queued_counted q in
      let (alive, unrun, unfailed) = queued_fields job q r in
      let since = after_creation job.created_at job.updated_at now r.updated_since m in
      subst IsReadable (sym (add_event-eq limits _ _ h)) (record {
        priority_within = r.priority_within;
        attempts_allowed = r.attempts_allowed;
        attempts_fit = ground (arith, less);
        updated_since = since;
        leased_since = ground (arith, since, l);
        asked_since = r.asked_since;
        ended_since = r.ended_since;
        leased_beyond = ground (arith, l);
        lease_whole = refl;
        lease_runs = refl;
        terminal_ended = rw alive refl;
        succeeded_run = rw unrun refl;
        failed_code = rw unfailed refl;
        asked_reason = r.asked_reason;
      })

  beaten-IsReadable :
      (job : Job) (now expires : ℕ)
      → is_running job.state ≡ true
      → ltb now job.updated_at ≡ false
      → now ≤ expires
      → IsReadable job
      → IsReadable (record job {
        updated_at = now;
        heartbeat_at = some now;
        lease_expires_at = some expires;
      })
  beaten-IsReadable job now expires q m l r =
      let (alive, unrun, unfailed, leased) = running_fields job q r in
      let since = after_creation job.created_at job.updated_at now r.updated_since m in
      record {
        priority_within = r.priority_within;
        attempts_allowed = r.attempts_allowed;
        attempts_fit = r.attempts_fit;
        updated_since = since;
        leased_since = ground (arith, since, l);
        asked_since = r.asked_since;
        ended_since = r.ended_since;
        leased_beyond = ground (arith, l);
        lease_whole = rw leased refl;
        lease_runs = r.lease_runs;
        terminal_ended = r.terminal_ended;
        succeeded_run = r.succeeded_run;
        failed_code = r.failed_code;
        asked_reason = r.asked_reason;
      }

  -- The instant of an expiry is not before the row was created.
  expired_since :
      (job : Job) (now : ℕ)
      → is_expired now job ≡ true
      → IsReadable job
      → ltb now job.created_at ≡ false
  expired_since job now x r = elim (Option-cases job.lease_expires_at) [
    | inl e ↦ ground (arith, rw e at x)
    | inr (expiry, e) ↦
        let since = rw e at r.leased_since in
        let passed = rw e at x in ground (arith, since, passed)
  ]

  expire_job-IsReadable :
      (job : Job) (now : ℕ) {after : Job}
      → expire_job limits job now ≡ ok after
      → is_expired now job ≡ true
      → IsReadable job
      → IsReadable after
  unfolding expire_job
  expire_job-IsReadable job now h x r =
      let (_, _, h') = >>=-eq-ok (check_job job) _ h in
      let (alive, unrun, unfailed, leased) = running_fields job (ground (arith, x)) r in
      let since = expired_since job now x r in
      elim (Bool-cases (is_some job.cancel_requested_at)) [
        | inl e ↦ subst IsReadable (sym (add_event-eq limits _ _ (rw e at h'))) (record {
          priority_within = r.priority_within;
          attempts_allowed = r.attempts_allowed;
          attempts_fit = r.attempts_fit;
          updated_since = since;
          leased_since = refl;
          asked_since = r.asked_since;
          ended_since = ground (arith, since);
          leased_beyond = refl;
          lease_whole = refl;
          lease_runs = refl;
          terminal_ended = refl;
          succeeded_run = rw unrun refl;
          failed_code = refl;
          asked_reason = r.asked_reason;
        })
        | inr e ↦ elim (Bool-cases (leb job.max_attempts job.attempt_count)) [
          | inl b ↦ subst IsReadable (sym (add_event-eq limits _ _ (rw (e, b) at h'))) (record {
            priority_within = r.priority_within;
            attempts_allowed = r.attempts_allowed;
            attempts_fit = r.attempts_fit;
            updated_since = since;
            leased_since = refl;
            asked_since = r.asked_since;
            ended_since = ground (arith, since);
            leased_beyond = refl;
            lease_whole = refl;
            lease_runs = refl;
            terminal_ended = refl;
            succeeded_run = rw unrun refl;
            failed_code = refl;
            asked_reason = r.asked_reason;
          })
          | inr b ↦ subst IsReadable (sym (add_event-eq limits _ _ (rw (e, b) at h'))) (record {
            priority_within = r.priority_within;
            attempts_allowed = r.attempts_allowed;
            attempts_fit = r.attempts_fit;
            updated_since = since;
            leased_since = refl;
            asked_since = r.asked_since;
            ended_since = refl;
            leased_beyond = refl;
            lease_whole = refl;
            lease_runs = refl;
            terminal_ended = refl;
            succeeded_run = rw unrun refl;
            failed_code = refl;
            asked_reason = r.asked_reason;
          })
        ]
      ]

  -- Accounted, and readable.
  abbrev pub IsWhole : Job → Type 0
  IsWhole job = IsSound limits job × IsReadable job

  pub IsWhole-laws : RowLaws limits IsWhole []
  IsWhole-laws =
      let sound = IsSound-laws limits in
      record {
        by_submit = λ request key job_id now e p m fresh snapshot c. (
          sound.by_submit request key job_id now e p m fresh snapshot c,
          check_job-IsReadable _ c,
        );
        by_claim = λ job now expires worker token e q m l s. (
          sound.by_claim job now expires worker token e q m l s.0,
          claim_job-IsReadable job now expires worker token e q m l s.0 s.1,
        );
        by_beat = λ job now expires q m l s.
            (sound.by_beat job now expires q m l s.0, beaten-IsReadable job now expires q m l s.1);
        by_expire = λ job now e x s.
            (sound.by_expire job now e x s.0, expire_job-IsReadable job now e x s.1);
        by_set_terminal = λ job to kind actor now run_id code summary e snapshot c s. (
          sound.by_set_terminal job to kind actor now run_id code summary e snapshot c s.0,
          check_job-IsReadable _ c,
        );
        by_fail = λ job now actor code summary retryable e q snapshot c s. (
          sound.by_fail job now actor code summary retryable e q snapshot c s.0,
          check_job-IsReadable _ c,
        );
        by_cancel = λ job now reason e t n snapshot c s.
            (sound.by_cancel job now reason e t n snapshot c s.0, check_job-IsReadable _ c);
      }
