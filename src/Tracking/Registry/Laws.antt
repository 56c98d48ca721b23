-- ===== src/Tracking/Registry/Laws.antt =====
-- The writes of a row of tracking/registry.py as laws of a property of rows, and the identifiers that a
-- write of the table leaves stored.
use signalattice.Prelude.{
  >>=-eq-ok, All, In, Bool, Bool-cases, List, Option, String, [], any, ap, arith, false, inl, inr,
  none, ok, refl, some, true, ℕ, ◌++◌, ◌∷◌, ◌≡◌, ◌≤◌, eq_iff, is_some, leb, ltb,
}
use signalattice.Tracking.Registry.{
  EventKind, Job, JobState, RegistryLimits, check_job, is_queued, is_running, is_terminal, queued,
  submitted,
}
use signalattice.Tracking.Registry.Rows.{
  add_event, cancel_job, claim_job, event_of, expire_job, fail_job, set_terminal, is_expired,
}
use signalattice.Tracking.Registry.Capacity.{add_event-eq}
use signalattice.Tracking.Registry.Operations.{SubmissionRequest, has_id, put_job}
use signalattice.Tracking.Registry.Queue.{submitted_job}

-- What the writes of a row keep; a new job has none of the reserved identifiers.
pub record RowLaws (limits : RegistryLimits) (P : Job → Type 0) (reserved : List String)
    : Type 0 where
  pub by_submit :
      (request : SubmissionRequest) (key job_id : String) (now : ℕ) {job : Job}
      → add_event limits
          (submitted_job request key job_id now)
          (event_of submitted none queued now 0 "submitter")
        ≡ ok job
      → 1 ≤ request.max_attempts
      → request.max_attempts ≤ limits.max_attempts
      → (In job_id reserved → ⊥)
      → (snapshot : Job) → check_job job ≡ ok snapshot
      → P job
  pub by_claim :
      (job : Job) (now expires : ℕ) (worker token : String) {after : Job}
      → claim_job limits job now expires worker token ≡ ok after
      → is_queued job.state ≡ true
      → ltb now job.updated_at ≡ false
      → now ≤ expires
      → P job
      → P after
  pub by_beat :
      (job : Job) (now expires : ℕ)
      → is_running job.state ≡ true
      → ltb now job.updated_at ≡ false
      → now ≤ expires
      → P job
      → P (record job {
        updated_at = now;
        heartbeat_at = some now;
        lease_expires_at = some expires;
      })
  pub by_expire :
      (job : Job) (now : ℕ) {after : Job}
      → expire_job limits job now ≡ ok after
      → is_expired now job ≡ true
      → P job
      → P after
  pub by_set_terminal :
      (job : Job) (to : JobState) (kind : EventKind) (actor : String) (now : ℕ)
      (run_id code summary : Option String) {after : Job}
      → set_terminal limits job to kind actor now run_id code summary ≡ ok after
      → (snapshot : Job) → check_job after ≡ ok snapshot
      → P job
      → P after
  pub by_fail :
      (job : Job) (now : ℕ) (actor code summary : String) (retryable : Bool) {after : Job}
      → fail_job limits job now actor code summary retryable ≡ ok after
      → is_running job.state ≡ true
      → (snapshot : Job) → check_job after ≡ ok snapshot
      → P job
      → P after
  pub by_cancel :
      (job : Job) (now : ℕ) (reason : String) {after : Job}
      → cancel_job limits job now reason ≡ ok after
      → is_terminal job.state ≡ false
      → job.cancel_requested_at ≡ none
      → (snapshot : Job) → check_job after ≡ ok snapshot
      → P job
      → P after

abbrev pub Stored : List Job → String → Type 0
Stored jobs id = any (has_id id) jobs ≡ true

pub record AllKept (P : Job → Type 0) (reserved : List String) (jobs : List Job) : Type 0 where
  pub rows : All P jobs
  pub ids : All (Stored jobs) reserved

pub put_job-ids :
    (id : String) (job : Job) (jobs : List Job)
    → any (has_id id) (put_job job jobs) ≡ any (has_id id) jobs
unfolding put_job
put_job-ids id job [] = refl
put_job-ids id job (other ∷ jobs) = elim (Bool-cases (has_id job.job_id other)) [
  | inl e ↦ rw (e, put_job-ids id job jobs, (eq_iff other.job_id job.job_id).0 e) refl
  | inr e ↦ rw (e, put_job-ids id job jobs) refl
]

pub append-ids :
    (id : String) (job : Job) (jobs : List Job) → Stored jobs id → Stored (jobs ++ job ∷ []) id
append-ids id job [] h = cc
append-ids id job (other ∷ jobs) h = ground (arith, h, append-ids id job jobs)

pub expire_job-id :
    (limits : RegistryLimits) (job : Job) (now : ℕ) {after : Job}
    → expire_job limits job now ≡ ok after
    → after.job_id ≡ job.job_id
unfolding expire_job
expire_job-id limits job now h =
    let (_, _, h') = >>=-eq-ok (check_job job) _ h in
    elim (Bool-cases (is_some job.cancel_requested_at)) [
      | inl e ↦ ap (λ j. j.job_id) (add_event-eq limits _ _ (rw e at h'))
      | inr e ↦ elim (Bool-cases (leb job.max_attempts job.attempt_count)) [
        | inl b ↦ ap (λ j. j.job_id) (add_event-eq limits _ _ (rw (e, b) at h'))
        | inr b ↦ ap (λ j. j.job_id) (add_event-eq limits _ _ (rw (e, b) at h'))
      ]
    ]
