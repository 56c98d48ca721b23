-- ===== src/Tracking/Registry/Expiry.antt =====
-- The recovery of expired leases of tracking/registry.py, over the tables.
use signalattice.Prelude.{
  Bool, List, Option, Result, String, [], if◌then◌else◌, none, not, ok, some, suc, true, zero, ℕ,
  ◌&&◌, ◌+◌, ◌-◌, ◌>>=◌, ◌∷◌,
}
use signalattice.Tracking.Registry.{Job, RegistryError, RegistryLimits}
use signalattice.Tracking.Registry.Rows.{expire_job, is_expired}
use signalattice.Tracking.Registry.Operations.{Registry, has_id}

abbrev pub is_other : Option String → Job → Bool
is_other none job = true
is_other (some target) job = not (has_id target job)

module _ (limits : RegistryLimits) where
  -- At most `budget` expired rows that `wanted` selects, in the order of their sequence: how many
  -- there were, and all rows after their updates.
  unfoldable pub recover_rows :
      (Job → Bool) → ℕ → ℕ → List Job → Result RegistryError (ℕ × List Job)
  recover_rows wanted now budget [] = ok (0, [])
  recover_rows wanted now zero (job ∷ jobs) = ok (0, job ∷ jobs)
  recover_rows wanted now (suc budget) (job ∷ jobs) =
      let skipped = recover_rows wanted now (suc budget) jobs in
      let taken = recover_rows wanted now budget jobs in
      if is_expired now job && wanted job
      then (do after ← expire_job limits job now; (n, rest) ← taken; ok (n + 1, after ∷ rest))
      else (do (n, rest) ← skipped; ok (n, job ∷ rest))

  abbrev pub recover_target : Option String → ℕ → List Job → Result RegistryError (ℕ × List Job)
  recover_target none now jobs = ok (0, jobs)
  recover_target (some target) now jobs = recover_rows (has_id target) now 1 jobs

  -- `_recover_expired`, with the job that it is to recover first.
  unfoldable pub recover_expired_jobs :
      Option String → Registry → ℕ → Result RegistryError (ℕ × Registry)
  recover_expired_jobs target r now = do
    (first, some_jobs) ← recover_target target now r.jobs
    (others, jobs) ←
        recover_rows (is_other target) now (limits.recovery_batch_size - first) some_jobs
    ok (first + others, record r { jobs = jobs })

  unfoldable pub recover_expired : Registry → ℕ → Result RegistryError (ℕ × Registry)
  recover_expired r now = recover_expired_jobs none r now
