-- ===== src/Tracking/Registry/Once.antt =====
-- A lease of tracking/registry.py ends its job's attempt once.
use signalattice.Prelude.{
  >>=-eq-ok, All, List, Result, String, [], ap, arith, eq_iff, err, false, is_ok, none, ok, refl, ℕ,
  ◌<◌, some, ◌∙◌, ◌∷◌, ◌≡◌, ◌≤◌, find-In, Bool,
}
use signalattice.Tracking.Registry.{Job, RegistryLimits, is_running}
use signalattice.Tracking.Registry.Operations.{Lease, Registry, TerminalRunRequest, has_id}
use signalattice.Tracking.Registry.Expiry.{recover_expired_jobs}
use signalattice.Tracking.Registry.Queue.{
  acknowledge_cancel, claim, complete, fail, heartbeat, owned_running, validate_lease_seconds,
}
use signalattice.Tracking.Registry.Completion.{owned_running-IsHolder}
use signalattice.Tracking.Registry.Laws.{AllKept, Stored}
use signalattice.Tracking.Registry.Keeping.{find-All, recover_expired_jobs-AllKept}
use signalattice.Tracking.Registry.Histories.{Call, run, run-AllKept}
use signalattice.Tracking.Registry.Reclaiming.{claim-IsSuperseded}
use signalattice.Tracking.Registry.Ended.{Ends, Ends-IsSuperseded}
use signalattice.Tracking.Registry.Fencing.{IsSuperseded, IsSuperseded-laws}

is_ok-false {ℓ κ} :
    {E : Type ℓ} {A : Type κ} (result : Result E A)
    → ((a : A) → result ≡ ok a → ⊥)
    → is_ok result ≡ false
is_ok-false (ok a) h = absurd (h a refl)
is_ok-false (err x) h = refl

module _ (limits : RegistryLimits) (digest : String → String) where
  -- The methods that use a lease all raise.
  pub record IsFenced (r : Registry) (late : Lease) : Type 0 where
    pub no_heartbeat :
        (lease_seconds now : ℕ) → is_ok (heartbeat limits digest r late lease_seconds now) ≡ false
    pub no_acknowledgement :
        (request : TerminalRunRequest) (now : ℕ)
        → is_ok (acknowledge_cancel limits digest r late request now) ≡ false
    pub no_completion :
        (request : TerminalRunRequest) (now : ℕ)
        → is_ok (complete limits digest r late request now) ≡ false
    pub no_failure :
        (code summary : String) (retryable : Bool) (request : TerminalRunRequest) (now : ℕ)
        → is_ok (fail limits digest r late code summary retryable request now) ≡ false

  module _ (id : String) (n : ℕ) where
    superseded_unowned :
        (r u : Registry) (late : Lease) (now k : ℕ) {job : Job}
        → late.job_id ≡ id
        → late.attempt ≤ n
        → AllKept (IsSuperseded limits id n) (id ∷ []) r.jobs
        → recover_expired_jobs limits none r now ≡ ok (k, u)
        → owned_running limits digest u late now ≡ ok job
        → ⊥
    superseded_unowned r u late now k {job} i m s e o =
        let t =
          recover_expired_jobs-AllKept limits (IsSuperseded limits id n) (id ∷ [])
            (IsSuperseded-laws limits id n) none r now e s in
        let (found, holds) = owned_running-IsHolder limits digest u late now o in
        let (_, same) = find-In (has_id late.job_id) u.jobs job found in
        let p =
          find-All limits (IsSuperseded limits id n) (id ∷ []) (IsSuperseded-laws limits id n)
            (has_id late.job_id) u.jobs found t.rows in
        let less =
          p.passed ((eq_iff job.job_id late.job_id).0 same ∙ i) (ap is_running holds.runs) in
        omega (arith, less, holds.same_attempt, m)

    superseded-IsFenced :
        (r : Registry) (late : Lease)
        → late.job_id ≡ id
        → late.attempt ≤ n
        → AllKept (IsSuperseded limits id n) (id ∷ []) r.jobs
        → IsFenced r late
    unfolding heartbeat acknowledge_cancel complete fail
    superseded-IsFenced r late i m s = record {
      no_heartbeat = λ lease_seconds now. is_ok-false _ λ a h.
          let (_, _, h₀) = >>=-eq-ok (validate_lease_seconds limits lease_seconds) _ h in
          let ((k, u), e, h₁) = >>=-eq-ok (recover_expired_jobs limits none r now) _ h₀ in
          let (job, o, _) = >>=-eq-ok (owned_running limits digest u late now) _ h₁ in
          superseded_unowned r u late now k i m s e o;
      no_acknowledgement = λ request now. is_ok-false _ λ a h.
          let ((k, u), e, h₁) = >>=-eq-ok (recover_expired_jobs limits none r now) _ h in
          let (job, o, _) = >>=-eq-ok (owned_running limits digest u late now) _ h₁ in
          superseded_unowned r u late now k i m s e o;
      no_completion = λ request now. is_ok-false _ λ a h.
          let ((k, u), e, h₁) = >>=-eq-ok (recover_expired_jobs limits none r now) _ h in
          let (job, o, _) = >>=-eq-ok (owned_running limits digest u late now) _ h₁ in
          superseded_unowned r u late now k i m s e o;
      no_failure = λ code summary retryable request now. is_ok-false _ λ a h.
          let ((k, u), e, h₁) = >>=-eq-ok (recover_expired_jobs limits none r now) _ h in
          let (job, o, _) = >>=-eq-ok (owned_running limits digest u late now) _ h₁ in
          superseded_unowned r u late now k i m s e o;
    }

    -- In tables that store the job `id` only with its attempts up to the `n`-th superseded, and after
    -- any calls on them, whatever their arguments and whether or not they raised: each method that
    -- takes a lease refuses every lease of such an attempt, whoever holds it.
    superseded_for_good :
        (r : Registry) (calls : List Call) (late : Lease)
        → All (IsSuperseded limits id n) r.jobs
        → Stored r.jobs id
        → late.job_id ≡ id
        → late.attempt ≤ n
        → IsFenced (run limits digest r calls) late
    superseded_for_good r calls late s stored i m =
        superseded-IsFenced (run limits digest r calls) late i m (
          run-AllKept limits digest (IsSuperseded limits id n) (id ∷ [])
            (IsSuperseded-laws limits id n) r calls (record { rows = s; ids = (stored, tt) }))

  -- Once `complete`, `acknowledge_cancel` or `fail` has succeeded with a lease, and after any further
  -- calls, whatever their arguments and whether or not they raised, `heartbeat`, `acknowledge_cancel`,
  -- `complete` and `fail` raise for every lease of that job and of that attempt or an earlier one,
  -- whoever holds it: an attempt is ended once.
  pub ended_once :
      (r t : Registry) (lease late : Lease) (calls : List Call)
      → Ends limits digest r lease t
      → late.job_id ≡ lease.job_id
      → late.attempt ≤ lease.attempt
      → IsFenced (run limits digest t calls) late
  ended_once r t lease late calls e i m =
      let s = Ends-IsSuperseded limits digest r t lease e in
      superseded_for_good lease.job_id lease.attempt t calls late s.rows s.ids.0 i m

  -- Once a claim has returned a lease, and after any further calls, whatever their arguments and whether
  -- or not they raised, `heartbeat`, `acknowledge_cancel`, `complete` and `fail` raise for every lease
  -- of that job and of an earlier attempt.
  pub claim_fences :
      (r t : Registry) (worker_id : String) (lease_seconds : ℕ) (token : String) (now : ℕ)
      (lease late : Lease) (calls : List Call)
      → claim limits digest r worker_id lease_seconds token now ≡ ok (some lease, t)
      → late.job_id ≡ lease.job_id
      → late.attempt < lease.attempt
      → IsFenced (run limits digest t calls) late
  claim_fences r t worker_id lease_seconds token now lease late calls h i less =
      let s =
        claim-IsSuperseded limits digest r worker_id lease_seconds token now late.attempt h less in
      superseded_for_good lease.job_id late.attempt t calls late s.rows s.ids.0 i (omega arith)
