-- ===== src/Tracking/Registry/Choice.antt =====
-- Which job `claim` of tracking/registry.py takes.
use signalattice.Prelude.{
  >>=-eq-ok, Bool-cases, List, Option-cases, String, [], ap, arith, false, get_elem?, inl, inr,
  leb_ℤ, ltb_ℤ, none, ok, ok-injective, refl, refuse, require, some, some-eq, subst, suc, sym, true,
  zero, ℕ, ◌<◌, ◌∷◌, ◌≡◌, ◌≢◌, ◌≤◌,
}
use signalattice.Tracking.Registry.{Job, RegistryLimits, check_job, is_queued}
use signalattice.Tracking.Registry.Rows.{claim_job, require_monotonic}
use signalattice.Tracking.Registry.Operations.{Lease, Registry, best_queued}
use signalattice.Tracking.Registry.Expiry.{recover_expired_jobs}
use signalattice.Tracking.Registry.Queue.{claim, claim_best, lease_end, validate_lease_seconds}

-- The job at a place is queued, no queued job has a higher priority, and none before it has one as
-- high.
pub record IsFirst (jobs : List Job) (job : Job) : Type 0 where
  pub place : ℕ
  pub stands_there : get_elem? jobs place ≡ some job
  pub waits : is_queued job.state ≡ true
  pub highest :
      (j : ℕ) (other : Job)
      → get_elem? jobs j ≡ some other
      → is_queued other.state ≡ true
      → (leb_ℤ other.priority job.priority ≡ true)
        × (j < place → ltb_ℤ other.priority job.priority ≡ true)

none_waits :
    (jobs : List Job)
    → best_queued jobs ≡ none
    → (j : ℕ) (other : Job) → get_elem? jobs j ≡ some other
    → is_queued other.state ≡ false
unfolding best_queued
none_waits [] h j other e = cc
none_waits (job ∷ jobs) h zero other e = elim (Bool-cases (is_queued job.state)) [
  | inl q ↦ cc (rw q at h)
  | inr q ↦ subst (λ o. is_queued o.state ≡ false) (some-eq e) q
]
none_waits (job ∷ jobs) h (suc j) other e = elim (Bool-cases (is_queued job.state)) [
  | inl q ↦ cc (rw q at h)
  | inr q ↦ none_waits jobs (rw q at h) j other e
]

-- A job that does not wait, or is lower than the first of the rest, leaves that one first.
later-IsFirst :
    (job best : Job) (jobs : List Job)
    → IsFirst jobs best
    → (is_queued job.state ≡ true → ltb_ℤ job.priority best.priority ≡ true)
    → IsFirst (job ∷ jobs) best
later-IsFirst job best jobs f lower = record {
  place = suc f.place;
  stands_there = f.stands_there;
  waits = f.waits;
  highest = highest_of;
}
  where
    highest_of :
        (j : ℕ) (other : Job)
        → get_elem? (job ∷ jobs) j ≡ some other
        → is_queued other.state ≡ true
        → (leb_ℤ other.priority best.priority ≡ true)
          × (j < suc f.place → ltb_ℤ other.priority best.priority ≡ true)
    highest_of zero other e q =
        let same : job ≡ other = some-eq e in
        let below =
          subst (λ o. ltb_ℤ o.priority best.priority ≡ true) same
            (lower (subst (λ o. is_queued o.state ≡ true) (sym same) q)) in
        (ground (arith, below), λ l. below)
    highest_of (suc j) other e q =
        let (le, before) = f.highest j other e q in (le, λ l. before (omega (arith, l)))

-- A waiting job that no job of the rest is above is first.
head-IsFirst :
    (job : Job) (jobs : List Job)
    → is_queued job.state ≡ true
    → ((j : ℕ) (other : Job)
        → get_elem? jobs j ≡ some other
        → is_queued other.state ≡ true
        → leb_ℤ other.priority job.priority ≡ true)
    → IsFirst (job ∷ jobs) job
head-IsFirst job jobs w above = record {
  place = 0;
  stands_there = refl;
  waits = w;
  highest = highest_of;
}
  where
    highest_of :
        (j : ℕ) (other : Job)
        → get_elem? (job ∷ jobs) j ≡ some other
        → is_queued other.state ≡ true
        → (leb_ℤ other.priority job.priority ≡ true)
          × (j < 0 → ltb_ℤ other.priority job.priority ≡ true)
    highest_of zero other e q =
        let same : job ≡ other = some-eq e in
        (
          subst (λ o. leb_ℤ o.priority job.priority ≡ true) same (ground arith),
          λ l. absurd (omega (arith, l)),
        )
    highest_of (suc j) other e q = (above j other e q, λ l. absurd (omega (arith, l)))

pub best_queued-IsFirst :
    (jobs : List Job) {job : Job} → best_queued jobs ≡ some job → IsFirst jobs job
unfolding best_queued
best_queued-IsFirst [] h = cc
best_queued-IsFirst (j ∷ jobs) {job} h = elim (Bool-cases (is_queued j.state)) [
  | inr q ↦ later-IsFirst j job jobs (best_queued-IsFirst jobs (rw q at h)) (λ w. cc (w, q))
  | inl q ↦ elim (Option-cases (best_queued jobs)) [
    | inl e ↦
        subst (IsFirst (j ∷ jobs)) (some-eq (rw (q, e) at h))
          (head-IsFirst j jobs q (λ k other at_k w. cc (w, none_waits jobs e k other at_k)))
    | inr (b, e) ↦
        let f = best_queued-IsFirst jobs e in
        elim (Bool-cases (ltb_ℤ j.priority b.priority)) [
          | inl l ↦
              subst (IsFirst (j ∷ jobs)) (some-eq (rw (q, e, l) at h))
                (later-IsFirst j b jobs f (λ w. l))
          | inr l ↦ subst (IsFirst (j ∷ jobs)) (some-eq (rw (q, e, l) at h)) (
              head-IsFirst j jobs q
                (λ k other at_k w. let (le, _) = f.highest k other at_k w in ground (arith, le, l)))
        ]
  ]
]

module _ (limits : RegistryLimits) (digest : String → String) where
  no_lease :
      (r : Registry) (worker_id : String) (lease_seconds : ℕ) (token : String) (now : ℕ)
      {lease : Lease} {t : Registry}
      → claim_best limits digest none r worker_id lease_seconds token now ≢ ok (some lease, t)
  unfolding claim_best
  no_lease r worker_id lease_seconds token now h = cc

  claim_best-job :
      (job : Job) (r : Registry) (worker_id : String) (lease_seconds : ℕ) (token : String) (now : ℕ)
      {lease : Lease} {t : Registry}
      → claim_best limits digest (some job) r worker_id lease_seconds token now ≡ ok (some lease, t)
      → (lease.job_id ≡ job.job_id)
        × (lease.expires_at ≡ lease_end now lease_seconds)
        × (job.updated_at ≤ now)
  unfolding claim_best
  claim_best-job job r worker_id lease_seconds token now h =
      let (_, m, h₁) = >>=-eq-ok (require_monotonic job now) _ h in
      let (_, _, h₂) = >>=-eq-ok (check_job job) _ h₁ in
      let (_, _, h₃) = >>=-eq-ok (require (is_queued job.state) _) _ h₂ in
      let (after, _, h₄) = >>=-eq-ok (claim_job limits job now _ worker_id _) _ h₃ in
      let same = some-eq (ap (λ x. x.0) (ok-injective h₄)) in
      (ap (λ l. l.job_id) (sym same), ap (λ l. l.expires_at) (sym same), ground (arith, m))

  -- A claim that returns a lease leases, of the jobs left by the recovery of expired leases, a queued
  -- one that no queued job exceeds in priority, and of those with its priority the one submitted
  -- first; the lease ends `lease_seconds` after the claim, and no claim moves a job back in time.
  pub claim-IsFirst :
      (r u : Registry) (worker_id : String) (lease_seconds : ℕ) (token : String) (now n : ℕ)
      {lease : Lease} {t : Registry}
      → recover_expired_jobs limits none r now ≡ ok (n, u)
      → claim limits digest r worker_id lease_seconds token now ≡ ok (some lease, t)
      → (job : Job) × IsFirst u.jobs job
        × (lease.job_id ≡ job.job_id)
        × (lease.expires_at ≡ lease_end now lease_seconds)
        × (job.updated_at ≤ now)
  unfolding claim
  claim-IsFirst r u worker_id lease_seconds token now n {lease} {t} e h =
      let (_, _, h₁) = >>=-eq-ok (validate_lease_seconds limits lease_seconds) _ h in
      let (_, _, h₂) = >>=-eq-ok (refuse r.retention_pending _) _ h₁ in
      let h₃ = rw e at h₂ in
      elim (Option-cases (best_queued u.jobs)) [
        | inl b ↦ absurd (no_lease u worker_id lease_seconds token now (rw b at h₃))
        | inr (job, b) ↦
            let (id, ends, moves) =
              claim_best-job job u worker_id lease_seconds token now (rw b at h₃) in
            (job, best_queued-IsFirst u.jobs b, id, ends, moves)
      ]
