-- ===== src/Tracking/Registry/Readable.antt =====
-- The checks of JobSnapshot in tracking/contracts.py, under the writes of a row by tracking/registry.py.
use signalattice.Prelude.{
  >>=-eq-ok, arith, bool_eq, false, is_none, is_some, is_within, ltb, ok, refl, refuse,
  refuse-false, require, require-true, true, ℕ, ◌≡◌, Option, none, some,
}
use signalattice.Tracking.Registry.{
  Job, check_job, integrity_error, is_absent_or_from, is_failed, is_priority, is_queued, is_running,
  is_succeeded, is_terminal,
}

pub record IsReadable (job : Job) : Type 0 where
  pub priority_within : is_priority job.priority ≡ true
  pub attempts_allowed : is_within 1 100 job.max_attempts ≡ true
  pub attempts_fit : ltb job.max_attempts job.attempt_count ≡ false
  pub updated_since : ltb job.updated_at job.created_at ≡ false
  pub leased_since : is_absent_or_from job.created_at job.lease_expires_at ≡ true
  pub asked_since : is_absent_or_from job.created_at job.cancel_requested_at ≡ true
  pub ended_since : is_absent_or_from job.created_at job.terminal_at ≡ true
  pub leased_beyond : is_absent_or_from job.updated_at job.lease_expires_at ≡ true
  pub lease_whole : bool_eq (is_none job.lease_owner) (is_none job.lease_expires_at) ≡ true
  pub lease_runs : bool_eq (is_running job.state) (is_some job.lease_owner) ≡ true
  pub terminal_ended : bool_eq (is_terminal job.state) (is_some job.terminal_at) ≡ true
  pub succeeded_run : bool_eq (is_succeeded job.state) (is_some job.result_run_id) ≡ true
  pub failed_code : bool_eq (is_failed job.state) (is_some job.failure_code) ≡ true
  pub asked_reason : bool_eq (is_none job.cancel_requested_at) (is_none job.cancel_reason) ≡ true

pub check_job-readable : (job : Job) → IsReadable job → check_job job ≡ ok job
unfolding check_job
check_job-readable job r =
    rw
      (
        r.priority_within, r.attempts_allowed, r.attempts_fit, r.updated_since, r.leased_since,
        r.asked_since, r.ended_since, r.leased_beyond, r.lease_whole, r.lease_runs,
        r.terminal_ended, r.succeeded_run, r.failed_code, r.asked_reason,
      )
      refl

pub check_job-IsReadable :
    (job : Job) {snapshot : Job} → check_job job ≡ ok snapshot → IsReadable job
unfolding check_job
check_job-IsReadable job h =
    let (_, a, h₁) = >>=-eq-ok (require (is_priority job.priority) integrity_error) _ h in
    let (_, b, h₂) = >>=-eq-ok (require (is_within 1 100 job.max_attempts) integrity_error) _ h₁ in
    let (_, c, h₃) =
      >>=-eq-ok (refuse (ltb job.max_attempts job.attempt_count) integrity_error) _ h₂ in
    let (_, d, h₄) = >>=-eq-ok (refuse (ltb job.updated_at job.created_at) integrity_error) _ h₃ in
    let (_, e, h₅) =
      >>=-eq-ok (require (is_absent_or_from job.created_at job.lease_expires_at) integrity_error) _
        h₄ in
    let (_, f, h₆) =
      >>=-eq-ok (require (is_absent_or_from job.created_at job.cancel_requested_at) integrity_error)
        _ h₅ in
    let (_, g, h₇) =
      >>=-eq-ok (require (is_absent_or_from job.created_at job.terminal_at) integrity_error) _ h₆ in
    let (_, i, h₈) =
      >>=-eq-ok (require (is_absent_or_from job.updated_at job.lease_expires_at) integrity_error) _
        h₇ in
    let (_, j, h₉) =
      >>=-eq-ok
        (require (bool_eq (is_none job.lease_owner) (is_none job.lease_expires_at)) integrity_error)
        _ h₈ in
    let (_, k, k₁) =
      >>=-eq-ok (require (bool_eq (is_running job.state) (is_some job.lease_owner)) integrity_error)
        _ h₉ in
    let (_, l, k₂) =
      >>=-eq-ok
        (require (bool_eq (is_terminal job.state) (is_some job.terminal_at)) integrity_error) _
        k₁ in
    let (_, m, k₃) =
      >>=-eq-ok
        (require (bool_eq (is_succeeded job.state) (is_some job.result_run_id)) integrity_error) _
        k₂ in
    let (_, n, k₄) =
      >>=-eq-ok (require (bool_eq (is_failed job.state) (is_some job.failure_code)) integrity_error)
        _ k₃ in
    let (_, o, k₅) =
      >>=-eq-ok
        (require (bool_eq (is_none job.cancel_requested_at) (is_none job.cancel_reason))
          integrity_error)
        _ k₄ in
    record {
      priority_within = require-true _ _ a;
      attempts_allowed = require-true _ _ b;
      attempts_fit = refuse-false _ _ c;
      updated_since = refuse-false _ _ d;
      leased_since = require-true _ _ e;
      asked_since = require-true _ _ f;
      ended_since = require-true _ _ g;
      leased_beyond = require-true _ _ i;
      lease_whole = require-true _ _ j;
      lease_runs = require-true _ _ k;
      terminal_ended = require-true _ _ l;
      succeeded_run = require-true _ _ m;
      failed_code = require-true _ _ n;
      asked_reason = require-true _ _ o;
    }

-- A row that waits has neither a terminal time, a run nor a failure.
pub queued_fields :
    (job : Job)
    → is_queued job.state ≡ true
    → IsReadable job
    → (is_some job.terminal_at ≡ false)
      × (is_some job.result_run_id ≡ false)
      × (is_some job.failure_code ≡ false)
queued_fields job q r = (
  ground (arith, q, r.terminal_ended),
  ground (arith, q, r.succeeded_run),
  ground (arith, q, r.failed_code),
)

is_none-false {ℓ} : {A : Type ℓ} (o : Option A) → is_some o ≡ true → is_none o ≡ false
is_none-false none h = cc
is_none-false (some a) h = refl

pub running_fields :
    (job : Job)
    → is_running job.state ≡ true
    → IsReadable job
    → (is_some job.terminal_at ≡ false)
      × (is_some job.result_run_id ≡ false)
      × (is_some job.failure_code ≡ false)
      × (is_none job.lease_owner ≡ false)
running_fields job q r = (
  ground (arith, q, r.terminal_ended),
  ground (arith, q, r.succeeded_run),
  ground (arith, q, r.failed_code),
  ground (arith, q, r.lease_runs),
)

-- A later event, expiry or not, leaves the time of creation behind it.
pub after_creation :
    (created updated now : ℕ)
    → ltb updated created ≡ false
    → ltb now updated ≡ false
    → ltb now created ≡ false
after_creation created updated now h k = ground arith
