-- ===== src/Tracking/Retention/Executing.antt =====
-- Phase B of tracking/retention.py: the transactions and the checks with which one candidate of a
-- staged plan is deleted. The unlink of the store lies between `begin_unlink` and `finalize_row`.
use signalattice.Prelude.{
  List, length, Bool, Result, eq_ℤ, false, find, if◌then◌else◌, leb, ltb, ltb_ℤ, ok, refuse,
  require, require_some, str_eq, true, ℕ, ◌&&◌, ◌==◌, ◌>>=◌, ◌>>◌, is_some,
}
use signalattice.Tracking.Retention.{
  max_retention_candidates, ArtifactMetadata, RetentionError, datetime_to_nanoseconds, drift_error,
  integrity_error, store_error,
}
use signalattice.Tracking.Retention.Records.{
  same_texts, DigestConfirmedRetentionPlan, RetentionCandidate,
}
use signalattice.Tracking.Retention.Authority.{ArtifactStore}
use signalattice.Tracking.Retention.Tables.{
  RetentionTables, StoredTombstone, is_of_plan, is_tombstone_of, mark_deleted,
}
use signalattice.Tracking.Retention.Comparing.{
  artifact_digests, check_tombstone, check_tombstones, tombstones_of_plan, require_exact_tombstone,
  revalidate_candidate,
}

-- The tombstone of a candidate, once the candidate is validated again.
unfoldable pub candidate_tombstone :
    RetentionTables
    → DigestConfirmedRetentionPlan
    → RetentionCandidate
    → Result RetentionError StoredTombstone
unfolding revalidate_candidate check_tombstone require_exact_tombstone
candidate_tombstone t signed candidate = do
  revalidate_candidate t signed.decoded candidate.metadata
  row ←
      require_some
        (find (λ row. is_tombstone_of candidate.metadata.digest row && is_of_plan signed.digest row)
          t.tombstones)
        drift_error
  tombstone ← check_tombstone row
  require_exact_tombstone tombstone signed
  ok tombstone

-- `_require_finalized_chronology`.
unfoldable pub require_finalized_chronology : StoredTombstone → ℕ → Result RetentionError (Unit {0})
require_finalized_chronology tombstone now = do
  deleted_at ← require_some tombstone.deleted_at integrity_error
  require (leb tombstone.planned_at deleted_at && leb deleted_at now) integrity_error

-- The tombstones that `_read_intent` reads.
unfoldable pub read_cohort :
    RetentionTables → DigestConfirmedRetentionPlan → Result RetentionError (List StoredTombstone)
unfolding check_tombstones
read_cohort t signed = do
  refuse (ltb max_retention_candidates (length (tombstones_of_plan t signed.digest)))
      integrity_error
  cohort ← check_tombstones (tombstones_of_plan t signed.digest)
  require (same_texts (artifact_digests cohort) signed.decoded.plan.artifact_digests) drift_error
  ok cohort

-- What a transaction without a value commits.
abbrev pub committed :
    Result RetentionError RetentionTables → Result RetentionError (Unit {0} × RetentionTables)
committed result = do t ← result; ok (tt, t)

module _ (store : ArtifactStore) where
  -- `_inspect_candidate_generation`.
  unfoldable pub inspect_candidate_generation :
      store.Objects
      → DigestConfirmedRetentionPlan
      → RetentionCandidate
      → Result RetentionError (Unit {0})
  inspect_candidate_generation objects signed candidate = do
    observed ← require_some (store.inspect objects candidate.metadata) store_error
    require
        (observed.last_changed_at == candidate.last_changed_at
          && eq_ℤ observed.last_changed_ns candidate.last_changed_ns
          && str_eq observed.generation candidate.generation)
        drift_error
    limit ← datetime_to_nanoseconds signed.decoded.eligible_before
    refuse (ltb_ℤ limit observed.last_changed_ns) drift_error

  -- `_verify_finalized_tombstone`.
  unfoldable pub verify_finalized_tombstone :
      store.Objects → StoredTombstone → ArtifactMetadata → ℕ → Result RetentionError (Unit {0})
  unfolding require_finalized_chronology
  verify_finalized_tombstone objects tombstone metadata now = do
    require_finalized_chronology tombstone now
    require (store.verify_absent objects metadata) integrity_error

  -- The write transaction of `_finalize_candidate`, and whether it finalized the tombstone.
  unfoldable pub finalize_row :
      RetentionTables
      → store.Objects
      → DigestConfirmedRetentionPlan
      → RetentionCandidate
      → ℕ
      → Result RetentionError (Bool × RetentionTables)
  unfolding candidate_tombstone require_finalized_chronology revalidate_candidate check_tombstone
      require_exact_tombstone
  finalize_row t objects signed candidate deleted_at = do
    refuse (ltb deleted_at signed.decoded.plan.planned_at) integrity_error
    tombstone ← candidate_tombstone t signed candidate
    if is_some tombstone.deleted_at
        then (do
          require_finalized_chronology tombstone deleted_at
          require (store.verify_absent objects candidate.metadata) store_error
          ok (false, t))
        else ok (true, mark_deleted t candidate.metadata.digest signed.digest deleted_at)
