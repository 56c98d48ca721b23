-- ===== src/Tracking/Registry/Recovery.antt =====
-- How far `recover_expired` of tracking/registry.py gets.
use signalattice.Prelude.{
  >>=-eq-ok, Bool, Bool-cases, List, [], ap, arith, false, get_elem?, inl, inr, none, ok,
  ok-injective, refl, some, some-eq, subst, suc, zero, ℕ, ◌&&◌, ◌+◌, ◌-◌, ◌<◌, ◌∙◌, ◌∷◌, ◌≡◌, ◌≤◌,
}
use signalattice.Tracking.Registry.{Job, RegistryLimits, check_job, is_running}
use signalattice.Tracking.Registry.Rows.{add_event, expire_job, is_expired}
use signalattice.Tracking.Registry.Operations.{Registry}
use signalattice.Tracking.Registry.Expiry.{
  is_other, recover_expired, recover_expired_jobs, recover_rows,
}

module _ (limits : RegistryLimits) where
  -- A row that was recovered runs no more.
  expire_job-stopped :
      (job : Job) (now : ℕ) {after : Job}
      → expire_job limits job now ≡ ok after
      → is_running after.state ≡ false
  unfolding expire_job add_event
  expire_job-stopped job now h = let (_, _, h') = >>=-eq-ok (check_job job) _ h in ground arith

  expired-stopped :
      (job : Job) (now : ℕ) → is_running job.state ≡ false → is_expired now job ≡ false
  expired-stopped job now h = rw h refl

  -- The rows that are left to recover.
  record Recovered (wanted : Job → Bool) (now budget n : ℕ) (after : List Job) : Type 0 where
    pub within : n ≤ budget
    pub none_left :
        n < budget
        → (i : ℕ) (job : Job) → get_elem? after i ≡ some job
        → (is_expired now job && wanted job) ≡ false

  cons-left :
      (wanted : Job → Bool) (now : ℕ) (head : Job) (rest : List Job)
      → (is_expired now head && wanted head) ≡ false
      → ((i : ℕ) (job : Job)
          → get_elem? rest i ≡ some job
          → (is_expired now job && wanted job) ≡ false)
      → (i : ℕ) (job : Job) → get_elem? (head ∷ rest) i ≡ some job
      → (is_expired now job && wanted job) ≡ false
  cons-left wanted now head rest h k zero job e =
      subst (λ j. (is_expired now j && wanted j) ≡ false) (some-eq e) h
  cons-left wanted now head rest h k (suc i) job e = k i job e

  recover_rows-Recovered :
      (wanted : Job → Bool) (now budget : ℕ) (jobs : List Job) {n : ℕ} {after : List Job}
      → recover_rows limits wanted now budget jobs ≡ ok (n, after)
      → Recovered wanted now budget n after
  unfolding recover_rows
  recover_rows-Recovered wanted now budget [] h =
      subst (λ r. Recovered wanted now budget r.0 r.1) (ok-injective h)
        (record { within = omega arith; none_left = λ l i job e. cc })
  recover_rows-Recovered wanted now zero (j ∷ jobs) h =
      subst (λ r. Recovered wanted now 0 r.0 r.1) (ok-injective h)
        (record { within = omega arith; none_left = λ l i job e. absurd (omega (arith, l)) })
  recover_rows-Recovered wanted now (suc budget) (j ∷ jobs) h =
      elim (Bool-cases (is_expired now j && wanted j)) [
        | inl e ↦
            let (head, x, h') = >>=-eq-ok (expire_job limits j now) _ (rw e at h) in
            let ((m, rest), y, h'') = >>=-eq-ok (recover_rows limits wanted now budget jobs) _ h' in
            let c = recover_rows-Recovered wanted now budget jobs y in
            let idle = expired-stopped head now (expire_job-stopped j now x) in
            subst (λ r. Recovered wanted now (suc budget) r.0 r.1) (ok-injective h'')
              (record {
                within = omega (arith, c.within);
                none_left = λ l.
                    cons-left wanted now head rest (rw idle refl) (c.none_left (omega (arith, l)));
              })
        | inr e ↦
            let ((m, rest), y, h') =
              >>=-eq-ok (recover_rows limits wanted now (suc budget) jobs) _ (rw e at h) in
            let c = recover_rows-Recovered wanted now (suc budget) jobs y in
            subst (λ r. Recovered wanted now (suc budget) r.0 r.1) (ok-injective h')
              (record {
                within = c.within;
                none_left = λ l. cons-left wanted now j rest e (c.none_left l);
              })
      ]

  -- A recovery that returns resolves at most one batch of expired leases, and if it resolves fewer,
  -- no running job with an expired lease is left.
  pub recover_expired-batch :
      (r : Registry) (now : ℕ) {n : ℕ} {t : Registry}
      → recover_expired limits r now ≡ ok (n, t)
      → (n ≤ limits.recovery_batch_size)
        × (n < limits.recovery_batch_size
            → (i : ℕ) (job : Job) → get_elem? t.jobs i ≡ some job
            → is_expired now job ≡ false)
  unfolding recover_expired recover_expired_jobs
  recover_expired-batch r now {n} {t} h =
      let budget = limits.recovery_batch_size - 0 in
      let ((others, jobs), y, h') =
        >>=-eq-ok (recover_rows limits (is_other none) now budget r.jobs) _ h in
      let c = recover_rows-Recovered (is_other none) now budget r.jobs y in
      let count : 0 + others ≡ n = ap (λ x. x.0) (ok-injective h') in
      let table : jobs ≡ t.jobs = ap (λ x. x.1.jobs) (ok-injective h') in
      (
        omega (arith, c.within, count),
        λ l i job e.
            let left =
              c.none_left (omega (arith, l, count)) i job (ap (λ js. get_elem? js i) table ∙ e) in
            ground (arith, left),
      )
