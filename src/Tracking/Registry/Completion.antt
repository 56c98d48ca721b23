-- ===== src/Tracking/Registry/Completion.antt =====
-- What `complete` of tracking/registry.py asks of a lease, and what it leaves.
use signalattice.Prelude.{
  >>=-eq-ok, Option, Option-cases, String, ap, arith, eq_iff, false, find, inl, inr, is_some,
  ltb→lt, none, ok, ok-injective, refl, refuse, require, require-true, some, subst, sym, true, ℕ,
  ◌<◌, ◌∙◌, ◌≡◌,
}
use signalattice.Tracking.Registry.{
  EventKind, Job, JobState, RegistryLimits, cancelled, check_job, failed, invalid_transition,
  is_running, job_succeeded, lease_lost, queued, run_succeeded, running, succeeded,
}
use signalattice.Tracking.Registry.Rows.{add_event, require_monotonic, set_terminal}
use signalattice.Tracking.Registry.Operations.{
  Lease, Registry, TerminalRunRequest, has_id, insert_terminal_run, is_option_of, require_job,
}
use signalattice.Tracking.Registry.Expiry.{recover_expired_jobs}
use signalattice.Tracking.Registry.Queue.{complete, is_after, is_owned, owned_running}

check_job-eq : (job : Job) {snapshot : Job} → check_job job ≡ ok snapshot → snapshot ≡ job
unfolding check_job
check_job-eq job h = ground arith

-- The lease is the one that the row holds, and it has not expired.
pub record IsHolder (digest : String → String) (lease : Lease) (now : ℕ) (job : Job) : Type 0 where
  pub runs : job.state ≡ running
  pub held_by : job.lease_owner ≡ some lease.worker_id
  pub with_token : job.lease_token_digest ≡ some (digest lease.token)
  pub unexpired : (expiry : ℕ) × (job.lease_expires_at ≡ some expiry) × (now < expiry)
  pub same_attempt : job.attempt_count ≡ lease.attempt

is_option_of-eq : (text : String) (o : Option String) → is_option_of text o ≡ true → o ≡ some text
is_option_of-eq text none h = cc
is_option_of-eq text (some other) h = ap (λ s. some s) ((eq_iff other text).0 h)

is_after-lt :
    (now : ℕ) (o : Option ℕ)
    → is_after now o ≡ true
    → (expiry : ℕ) × (o ≡ some expiry) × (now < expiry)
is_after-lt now none h = cc
is_after-lt now (some expiry) h = (expiry, refl, ltb→lt now expiry h)

is_running-eq : (state : JobState) → is_running state ≡ true → state ≡ running
is_running-eq queued h = cc
is_running-eq running h = refl
is_running-eq succeeded h = cc
is_running-eq failed h = cc
is_running-eq cancelled h = cc

is_owned-IsHolder :
    (digest : String → String) (lease : Lease) (now : ℕ) (job : Job)
    → is_owned digest lease now job ≡ true
    → IsHolder digest lease now job
is_owned-IsHolder digest lease now job h = record {
  runs = is_running-eq job.state (ground (arith, h));
  held_by = is_option_of-eq lease.worker_id job.lease_owner (ground (arith, h));
  with_token = is_option_of-eq (digest lease.token) job.lease_token_digest (ground (arith, h));
  unexpired = is_after-lt now job.lease_expires_at (ground (arith, h));
  same_attempt = ground (arith, h);
}

module _ (limits : RegistryLimits) (digest : String → String) where
  pub owned_running-IsHolder :
      (r : Registry) (lease : Lease) (now : ℕ) {job : Job}
      → owned_running limits digest r lease now ≡ ok job
      → (find (has_id lease.job_id) r.jobs ≡ some job) × IsHolder digest lease now job
  unfolding owned_running require_job
  owned_running-IsHolder r lease now h = elim (Option-cases (find (has_id lease.job_id) r.jobs)) [
    | inl e ↦ cc (rw e at h)
    | inr (found, e) ↦
        let (_, _, h₁) = >>=-eq-ok (require_monotonic found now) _ (rw e at h) in
        let (_, _, h₂) = >>=-eq-ok (check_job found) _ h₁ in
        let (_, g, h₃) = >>=-eq-ok (require (is_owned digest lease now found) lease_lost) _ h₂ in
        let holds =
          is_owned-IsHolder digest lease now found
            (require-true (is_owned digest lease now found) lease_lost g) in
        subst (λ j. (find (has_id lease.job_id) r.jobs ≡ some j) × IsHolder digest lease now j)
          (ok-injective h₃) (e, holds)
  ]

  -- A terminal row has ended now, holds no lease, and is in the state asked for.
  set_terminal-ended :
      (job : Job) (to : JobState) (kind : EventKind) (actor : String) (now : ℕ)
      (run_id code summary : Option String) {after : Job}
      → set_terminal limits job to kind actor now run_id code summary ≡ ok after
      → (after.state ≡ to)
        × (after.terminal_at ≡ some now)
        × (after.result_run_id ≡ run_id)
        × (after.lease_owner ≡ none)
  unfolding set_terminal add_event
  set_terminal-ended job to kind actor now run_id code summary h = ground arith

  -- `complete` returns only for the lease that the job's row holds, unexpired and of its current
  -- attempt, as the recovery of expired leases leaves it, and only if no cancellation was requested;
  -- the job that it returns has succeeded at that instant with the given run, and holds no lease.
  pub complete-IsHolder :
      (r u : Registry) (lease : Lease) (request : TerminalRunRequest) (now n : ℕ) {j : Job}
      {t : Registry}
      → recover_expired_jobs limits none r now ≡ ok (n, u)
      → complete limits digest r lease request now ≡ ok (j, t)
      → (job : Job) × (find (has_id lease.job_id) u.jobs ≡ some job)
        × IsHolder digest lease now job
        × (is_some job.cancel_requested_at ≡ false)
        × (j.state ≡ succeeded)
        × (j.terminal_at ≡ some now)
        × (j.result_run_id ≡ some request.run_id)
        × (j.lease_owner ≡ none)
  unfolding complete
  complete-IsHolder r u lease request now n {j} {t} e h =
      let (job, o, h₁) = >>=-eq-ok (owned_running limits digest u lease now) _ (rw e at h) in
      let (_, c, h₂) =
        >>=-eq-ok (refuse (is_some job.cancel_requested_at) invalid_transition) _ h₁ in
      let (v, _, h₃) = >>=-eq-ok (insert_terminal_run u job request run_succeeded now) _ h₂ in
      let (after, w, h₄) =
        >>=-eq-ok
          (set_terminal limits job succeeded job_succeeded lease.worker_id now (some request.run_id)
            none none)
          _ h₃ in
      let (snapshot, k, h₅) = >>=-eq-ok (check_job after) _ h₄ in
      let same : after ≡ j = sym (check_job-eq after k) ∙ ap (λ x. x.0) (ok-injective h₅) in
      let (found, holds) = owned_running-IsHolder u lease now o in
      let (s, ends, run_id, free) = set_terminal-ended job _ _ _ now _ _ _ w in
      (
        job,
        found,
        holds,
        ground (arith, c),
        ap (λ x. x.state) (sym same) ∙ s,
        ap (λ x. x.terminal_at) (sym same) ∙ ends,
        ap (λ x. x.result_run_id) (sym same) ∙ run_id,
        ap (λ x. x.lease_owner) (sym same) ∙ free,
      )
