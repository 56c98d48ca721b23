-- ===== src/Tracking/Registry/Recovering.antt =====
-- The recovery of expired leases of tracking/registry.py never raises on tables that the queue wrote.
use signalattice.Prelude.{
  err, All, Bool, Bool-cases, List, String, [], arith, false, inl, inr, is_ok, is_some, leb, length,
  none, ok, refl, suc, true, zero, ℕ, ◌&&◌, ◌*◌, ◌+◌, ◌-◌, ◌∷◌, ◌≡◌, ◌≤◌, some, get_elem?, Result,
}
use signalattice.Tracking.Registry.{Job, LifecycleEvent, RegistryLimits, check_job, check_limits}
use signalattice.Tracking.Registry.Rows.{add_event, expire_job, is_expired}
use signalattice.Tracking.Registry.Capacity.{requests}
use signalattice.Tracking.Registry.Operations.{Registry, empty_registry}
use signalattice.Tracking.Registry.Expiry.{
  recover_expired, recover_expired_jobs, recover_rows, is_other,
}
use signalattice.Tracking.Registry.Keeping.{get_elem?-All}
use signalattice.Tracking.Registry.Readable.{check_job-readable}
use signalattice.Tracking.Registry.ReadableRows.{IsWhole, IsWhole-laws}
use signalattice.Tracking.Registry.Histories.{Call, capacity, run, run-AllKept}

is_ok-some {ℓ κ} :
    {E : Type ℓ} {A : Type κ} (result : Result E A)
    → is_ok result ≡ true
    → (a : A) × (result ≡ ok a)
is_ok-some (ok a) h = (a, refl)
is_ok-some (err x) h = cc

module _ (limits : RegistryLimits) where
  add_event-ok :
      (job : Job) (event : LifecycleEvent)
      → leb limits.max_events_per_job (length job.events) ≡ false
      → is_ok (add_event limits job event) ≡ true
  unfolding add_event
  add_event-ok job event h = rw h refl

  expire_job-ok :
      (job : Job) (now : ℕ)
      → 2 * limits.max_attempts + 2 ≤ limits.max_events_per_job
      → is_expired now job ≡ true
      → IsWhole limits job
      → is_ok (expire_job limits job now) ≡ true
  unfolding expire_job
  expire_job-ok job now room x (s, r) =
      let (_, counted) = s.running_counted (ground (arith, x)) in
      let asked : requests job ≤ 1 = ground (arith, Bool-cases (is_some job.cancel_requested_at)) in
      let fits : length job.events + 1 ≤ limits.max_events_per_job =
        omega (arith, counted, asked, room, s.allowed, s.attempts_within) in
      let free : leb limits.max_events_per_job (length job.events) ≡ false = ground (arith, fits) in
      elim (Bool-cases (is_some job.cancel_requested_at)) [
        | inl e ↦ rw (check_job-readable job r, e) (add_event-ok _ _ free)
        | inr e ↦ elim (Bool-cases (leb job.max_attempts job.attempt_count)) [
          | inl b ↦ rw (check_job-readable job r, e, b) (add_event-ok _ _ free)
          | inr b ↦ rw (check_job-readable job r, e, b) (add_event-ok _ _ free)
        ]
      ]

  recover_rows-ok :
      (wanted : Job → Bool) (now budget : ℕ) (jobs : List Job)
      → 2 * limits.max_attempts + 2 ≤ limits.max_events_per_job
      → All (IsWhole limits) jobs
      → (n : ℕ) × (after : List Job) × (recover_rows limits wanted now budget jobs ≡ ok (n, after))
  unfolding recover_rows
  recover_rows-ok wanted now budget [] room s = (0, [], refl)
  recover_rows-ok wanted now zero (j ∷ jobs) room s = (0, j ∷ jobs, refl)
  recover_rows-ok wanted now (suc budget) (j ∷ jobs) room s =
      elim (Bool-cases (is_expired now j && wanted j)) [
        | inl e ↦
            let (after, x) = is_ok-some _ (expire_job-ok j now room (ground (arith, e)) s.0) in
            let (n, rest, y) = recover_rows-ok wanted now budget jobs room s.1 in
            (n + 1, after ∷ rest, rw (e, x, y) refl)
        | inr e ↦
            let (n, rest, y) = recover_rows-ok wanted now (suc budget) jobs room s.1 in
            (n, j ∷ rest, rw (e, y) refl)
      ]

  recover_expired-ok :
      (r : Registry) (now : ℕ)
      → 2 * limits.max_attempts + 2 ≤ limits.max_events_per_job
      → All (IsWhole limits) r.jobs
      → is_ok (recover_expired limits r now) ≡ true
  unfolding recover_expired recover_expired_jobs
  recover_expired-ok r now room s =
      let (n, after, e) =
        recover_rows-ok (is_other none) now (limits.recovery_batch_size - 0) r.jobs room s in
      rw e refl

  module _ (digest : String → String) where
    -- After any calls on empty tables, whatever their arguments and whether or not they raised, every
    -- stored job passes the checks of the constructor with which it is read.
    rows_readable :
        (calls : List Call) (i : ℕ) {job : Job}
        → get_elem? (run limits digest empty_registry calls).jobs i ≡ some job
        → check_job job ≡ ok job
    rows_readable calls i {job} at_i =
        let whole =
          get_elem?-All limits (IsWhole limits) [] (IsWhole-laws limits)
            (run limits digest empty_registry calls).jobs i at_i
            (run-AllKept limits digest (IsWhole limits) [] (IsWhole-laws limits) empty_registry
              calls (record { rows = tt; ids = tt })).rows in
        check_job-readable job whole.1

    -- Under limits that were checked, after any calls on empty tables, whatever their arguments and
    -- whether or not they raised, `recover_expired` succeeds at every instant.
    pub recover_expired-run :
        (calls : List Call) (now : ℕ)
        → check_limits limits ≡ ok limits
        → is_ok (recover_expired limits (run limits digest empty_registry calls) now) ≡ true
    recover_expired-run calls now h =
        recover_expired-ok (run limits digest empty_registry calls) now (capacity limits digest h)
          (run-AllKept limits digest (IsWhole limits) [] (IsWhole-laws limits) empty_registry calls
            (record { rows = tt; ids = tt })).rows
