-- ===== src/Tracking/Retention/Staging.antt =====
-- Phase A of tracking/retention.py: a confirmed plan is compared with the tables, and its envelope and
-- its pending tombstones are written.
use signalattice.Prelude.{
  Result, String, if◌then◌else◌, leb, length, ltb, none, ok, refuse, require, str_eq, ℕ, ◌==◌,
  ◌>>=◌, ◌>>◌, map,
}
use signalattice.Tracking.Retention.{
  RetentionError, RetentionPolicy, active_work_error, confirmation_error, disabled_error,
  is_content_digest,
}
use signalattice.Tracking.Retention.Records.{
  DecodedRetentionPlan, DigestConfirmedRetentionPlan, digests_of, same_policy, total_bytes,
}
use signalattice.Tracking.Retention.Authority.{ArtifactStore, Authority, canonical_payload}
use signalattice.Tracking.Retention.Tables.{
  RetentionTables, StoredPlan, StoredTombstone, has_running_work, insert_plan, insert_tombstones,
}
use signalattice.Tracking.Retention.Planning.{cutoff_of, microseconds}
use signalattice.Tracking.Retention.Comparing.{inspect_durable_plan_state}

-- The bounds, the cutoff and the policy of a plan against the configured policy.
unfoldable pub require_policy :
    RetentionPolicy → DecodedRetentionPlan → Result RetentionError (Unit {0})
require_policy policy decoded = do
  refuse (ltb policy.max_candidates (length decoded.candidates)) confirmation_error
  refuse (ltb policy.max_total_bytes (total_bytes decoded.candidates)) confirmation_error
  require (leb (microseconds policy.grace_period_seconds) decoded.plan.planned_at)
      confirmation_error
  require (decoded.eligible_before == cutoff_of policy decoded.plan.planned_at) confirmation_error
  require (same_policy decoded.policy policy) confirmation_error

-- A row of the cohort that `_stage` inserts.
abbrev pub tombstone_of : DigestConfirmedRetentionPlan → String → StoredTombstone
tombstone_of signed digest = record {
  artifact_digest = digest;
  plan_digest = signed.digest;
  planned_at = signed.decoded.plan.planned_at;
  deleted_at = none;
  reason = signed.decoded.plan.reason;
}

module _ (store : ArtifactStore) (auth : Authority) where
  -- `_validate_confirmation`.
  unfoldable pub validate_confirmation :
      RetentionPolicy → DigestConfirmedRetentionPlan → String → ℕ → Result RetentionError (Unit {0})
  validate_confirmation policy signed confirmed_digest now = do
    require policy.enabled disabled_error
    refuse (ltb now signed.decoded.plan.planned_at) confirmation_error
    require (str_eq signed.decoded.registry_id auth.registry_id) confirmation_error
    require (str_eq signed.decoded.cas_store_id store.store_id) confirmation_error
    require auth.verifier_is_store confirmation_error
    require (str_eq auth.artifact_store_id store.store_id) confirmation_error
    require_policy policy signed.decoded
    payload ← canonical_payload auth signed.decoded
    require (str_eq signed.digest (auth.sign signed.decoded.cas_store_id payload))
        confirmation_error
    require (is_content_digest confirmed_digest) confirmation_error
    require (str_eq confirmed_digest signed.digest) confirmation_error

  -- The envelope that `_stage` inserts.
  abbrev pub envelope_of : DigestConfirmedRetentionPlan → StoredPlan
  envelope_of signed = record {
    plan_digest = signed.digest;
    payload_digest = signed.payload_digest;
    payload_json = auth.payload signed.decoded;
    registry_id = signed.decoded.registry_id;
    cas_store_id = signed.decoded.cas_store_id;
    planned_at = signed.decoded.plan.planned_at;
    schema_version = signed.decoded.schema_version;
  }

  -- The write transaction of `_stage`.
  unfoldable pub write_intent :
      RetentionTables → DigestConfirmedRetentionPlan → Result RetentionError RetentionTables
  unfolding inspect_durable_plan_state insert_plan insert_tombstones
  write_intent t signed = do
    refuse (has_running_work t) active_work_error
    staged ← inspect_durable_plan_state store auth t signed
    if staged then ok t else (do
      u ← insert_plan t (envelope_of signed)
      insert_tombstones u (map (tombstone_of signed) (digests_of signed.decoded.candidates)))

  -- `_stage` up to its COMMIT.
  unfoldable pub stage :
      RetentionPolicy
      → RetentionTables
      → DigestConfirmedRetentionPlan
      → String
      → ℕ
      → Result RetentionError RetentionTables
  unfolding validate_confirmation canonical_payload write_intent
  stage policy t signed confirmed_digest now = do
    validate_confirmation policy signed confirmed_digest now
    canonical_payload auth signed.decoded
    write_intent t signed
