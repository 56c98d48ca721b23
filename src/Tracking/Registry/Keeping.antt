-- ===== src/Tracking/Registry/Keeping.antt =====
-- The tables of tracking/registry.py whose jobs all have a property that every write of a row keeps, and
-- which go on storing the jobs of some identifiers.
use mathlib.Core.Bool.{true≢false}
use signalattice.Prelude.{
  >>=-eq-ok, All, All-lookup, All-map, In, Bool, Bool-cases, List, Option, String, [], any, ap,
  arith, false, find, get_elem?, inl, inr, ltb_ℤ, none, ok, ok-injective, refl, some, some-eq,
  subst, suc, sym, true, zero, ℕ, ◌&&◌, ◌++◌, ◌∙◌, ◌∷◌, ◌≡◌,
}
use signalattice.Tracking.Registry.{Job, RegistryLimits, is_queued}
use signalattice.Tracking.Registry.Rows.{expire_job, is_expired}
use signalattice.Tracking.Registry.Operations.{Registry, best_queued, has_id, preferred, put_job}
use signalattice.Tracking.Registry.Expiry.{recover_expired_jobs, recover_rows, recover_target}
use signalattice.Tracking.Registry.Laws.{
  AllKept, RowLaws, Stored, append-ids, expire_job-id, put_job-ids,
}

module _ (limits : RegistryLimits) (P : Job → Type 0) (reserved : List String)
    (laws : RowLaws limits P reserved) where
  pub get_elem?-All :
      (jobs : List Job) (i : ℕ) {job : Job} → get_elem? jobs i ≡ some job → All P jobs → P job
  get_elem?-All [] i h s = cc
  get_elem?-All (j ∷ jobs) zero h s = subst P (some-eq h) s.0
  get_elem?-All (j ∷ jobs) (suc i) h s = get_elem?-All jobs i h s.1

  pub find-All :
      (p : Job → Bool) (jobs : List Job) {job : Job} → find p jobs ≡ some job → All P jobs → P job
  find-All p [] h s = cc
  find-All p (j ∷ jobs) h s = elim (Bool-cases (p j)) [
    | inl e ↦ subst P (some-eq (rw e at h)) s.0
    | inr e ↦ find-All p jobs (rw e at h) s.1
  ]

  pub put_job-All : (job : Job) (jobs : List Job) → P job → All P jobs → All P (put_job job jobs)
  unfolding put_job
  put_job-All job [] h s = tt
  put_job-All job (other ∷ jobs) h s = elim (Bool-cases (has_id job.job_id other)) [
    | inl e ↦ rw e (h, put_job-All job jobs h s.1)
    | inr e ↦ rw e (s.0, put_job-All job jobs h s.1)
  ]

  pub append-All : (jobs : List Job) (job : Job) → All P jobs → P job → All P (jobs ++ job ∷ [])
  append-All [] job s h = (h, tt)
  append-All (j ∷ jobs) job s h = (s.0, append-All jobs job s.1 h)

  -- A job that waits, and has the property.
  abbrev pub IsWaiting : Job → Type 0
  IsWaiting job = P job × (is_queued job.state ≡ true)

  preferred-IsWaiting :
      (job : Job) (o : Option Job)
      → IsWaiting job
      → ((other : Job) → o ≡ some other → IsWaiting other)
      → IsWaiting (preferred job o)
  preferred-IsWaiting job none h k = h
  preferred-IsWaiting job (some other) h k = elim (Bool-cases (ltb_ℤ job.priority other.priority)) [
    | inl e ↦ rw e (k other refl)
    | inr e ↦ rw e h
  ]

  pub best_queued-All :
      (jobs : List Job) {job : Job} → best_queued jobs ≡ some job → All P jobs → IsWaiting job
  unfolding best_queued
  best_queued-All [] h s = cc
  best_queued-All (j ∷ jobs) h s = elim (Bool-cases (is_queued j.state)) [
    | inl e ↦
        subst IsWaiting (some-eq (rw e at h)) (
          preferred-IsWaiting j (best_queued jobs) (s.0, e) (λ other b. best_queued-All jobs b s.1))
    | inr e ↦ best_queued-All jobs (rw e at h) s.1
  ]

  recover_rows-All :
      (wanted : Job → Bool) (now budget : ℕ) (jobs : List Job) {n : ℕ} {after : List Job}
      → recover_rows limits wanted now budget jobs ≡ ok (n, after)
      → All P jobs
      → All P after
  unfolding recover_rows
  recover_rows-All wanted now budget [] h s = subst (All P) (ap (λ r. r.1) (ok-injective h)) tt
  recover_rows-All wanted now zero (j ∷ jobs) h s = subst (All P) (ap (λ r. r.1) (ok-injective h)) s
  recover_rows-All wanted now (suc budget) (j ∷ jobs) h s =
      elim (Bool-cases (is_expired now j && wanted j)) [
        | inl e ↦
            let (after, x, h') = >>=-eq-ok (expire_job limits j now) _ (rw e at h) in
            let ((n, rest), y, h'') = >>=-eq-ok (recover_rows limits wanted now budget jobs) _ h' in
            subst (All P) (ap (λ r. r.1) (ok-injective h'')) (
              laws.by_expire j now x (ground (arith, e)) s.0,
              recover_rows-All wanted now budget jobs y s.1,
            )
        | inr e ↦
            let ((n, rest), y, h') =
              >>=-eq-ok (recover_rows limits wanted now (suc budget) jobs) _ (rw e at h) in
            subst (All P) (ap (λ r. r.1) (ok-injective h'))
              (s.0, recover_rows-All wanted now (suc budget) jobs y s.1)
      ]

  recover_target-All :
      (target : Option String) (now : ℕ) (jobs : List Job) {n : ℕ} {after : List Job}
      → recover_target limits target now jobs ≡ ok (n, after)
      → All P jobs
      → All P after
  recover_target-All none now jobs h s = subst (All P) (ap (λ r. r.1) (ok-injective h)) s
  recover_target-All (some target) now jobs h s = recover_rows-All (has_id target) now 1 jobs h s

  recover_rows-ids :
      (wanted : Job → Bool) (now budget : ℕ) (id : String) (jobs : List Job) {n : ℕ}
      {after : List Job}
      → recover_rows limits wanted now budget jobs ≡ ok (n, after)
      → any (has_id id) after ≡ any (has_id id) jobs
  unfolding recover_rows
  recover_rows-ids wanted now budget id [] h =
      subst (λ l. any (has_id id) l ≡ false) (ap (λ r. r.1) (ok-injective h)) refl
  recover_rows-ids wanted now zero id (j ∷ jobs) h =
      ap (λ r. any (has_id id) r.1) (sym (ok-injective h))
  recover_rows-ids wanted now (suc budget) id (j ∷ jobs) h =
      elim (Bool-cases (is_expired now j && wanted j)) [
        | inl e ↦
            let (after, x, h') = >>=-eq-ok (expire_job limits j now) _ (rw e at h) in
            let ((n, rest), y, h'') = >>=-eq-ok (recover_rows limits wanted now budget jobs) _ h' in
            ap (λ r. any (has_id id) r.1) (sym (ok-injective h''))
            ∙ rw (expire_job-id limits j now x, recover_rows-ids wanted now budget id jobs y) refl
        | inr e ↦
            let ((n, rest), y, h') =
              >>=-eq-ok (recover_rows limits wanted now (suc budget) jobs) _ (rw e at h) in
            ap (λ r. any (has_id id) r.1) (sym (ok-injective h'))
            ∙ rw (recover_rows-ids wanted now (suc budget) id jobs y) refl
      ]

  recover_target-ids :
      (target : Option String) (now : ℕ) (id : String) (jobs : List Job) {n : ℕ} {after : List Job}
      → recover_target limits target now jobs ≡ ok (n, after)
      → any (has_id id) after ≡ any (has_id id) jobs
  recover_target-ids none now id jobs h = ap (λ r. any (has_id id) r.1) (sym (ok-injective h))
  recover_target-ids (some target) now id jobs h = recover_rows-ids (has_id target) now 1 id jobs h

  pub put_job-AllKept :
      (job : Job) (jobs : List Job)
      → P job
      → AllKept P reserved jobs
      → AllKept P reserved (put_job job jobs)
  put_job-AllKept job jobs h s = record {
    rows = put_job-All job jobs h s.rows;
    ids =
        All-map (Stored jobs) (Stored (put_job job jobs)) (λ id e. put_job-ids id job jobs ∙ e)
          reserved s.ids;
  }

  pub append-AllKept :
      (jobs : List Job) (job : Job)
      → AllKept P reserved jobs
      → P job
      → AllKept P reserved (jobs ++ job ∷ [])
  append-AllKept jobs job s h = record {
    rows = append-All jobs job s.rows h;
    ids =
        All-map (Stored jobs) (Stored (jobs ++ job ∷ [])) (λ id. append-ids id job jobs) reserved
          s.ids;
  }

  -- A fresh identifier is none of those reserved.
  pub fresh_unreserved :
      (jobs : List Job) (id : String)
      → AllKept P reserved jobs
      → any (has_id id) jobs ≡ false
      → In id reserved
      → ⊥
  fresh_unreserved jobs id s f i =
      true≢false (sym (All-lookup (Stored jobs) reserved id s.ids i) ∙ f)

  pub recover_expired_jobs-AllKept :
      (target : Option String) (r : Registry) (now : ℕ) {n : ℕ} {t : Registry}
      → recover_expired_jobs limits target r now ≡ ok (n, t)
      → AllKept P reserved r.jobs
      → AllKept P reserved t.jobs
  unfolding recover_expired_jobs
  recover_expired_jobs-AllKept target r now h s =
      let ((first, some_jobs), x, h') = >>=-eq-ok (recover_target limits target now r.jobs) _ h in
      let ((others, jobs), y, h'') = >>=-eq-ok (recover_rows limits _ now _ some_jobs) _ h' in
      let same = λ (id : String).
        recover_rows-ids _ now _ id some_jobs y ∙ recover_target-ids target now id r.jobs x in
      subst (λ t. AllKept P reserved t.jobs) (ap (λ r. r.1) (ok-injective h''))
        (record {
          rows =
              recover_rows-All _ now _ some_jobs y (recover_target-All target now r.jobs x s.rows);
          ids = All-map (Stored r.jobs) (Stored jobs) (λ id e. same id ∙ e) reserved s.ids;
        })
