-- ===== src/Tracking/Retention/Comparing.antt =====
-- A plan of tracking/retention.py against what the tables have of it: the candidates, the envelope
-- and the tombstones.
use signalattice.Prelude.{
  codes, is_some, is_within, Bool, List, Option, Result, String, [], any, filter, find,
  if◌then◌else◌, is_empty, length, ltb, none, ok, refuse, require, require_some, some, sorted,
  str_eq, ℕ, ◌==◌, ◌>>=◌, ◌>>◌, ◌||◌, ◌∷◌, map, false, err,
}
use signalattice.Tracking.Retention.{
  ArtifactMetadata, RetentionError, active_work_error, check_metadata, drift_error, integrity_error,
  is_content_digest, is_reason, is_text_before, max_plan_envelope_bytes, max_retention_candidates,
  plan_schema_version,
}
use signalattice.Tracking.Retention.Records.{
  DecodedRetentionPlan, DigestConfirmedRetentionPlan, RetentionCandidate, same_metadata, same_plan,
  same_texts,
}
use signalattice.Tracking.Retention.Authority.{
  ArtifactStore, Authority, canonical_payload, check_signed_plan,
}
use signalattice.Tracking.Retention.Tables.{
  RetentionTables, StoredPlan, StoredTombstone, has_digest, has_plan_digest, has_running_work,
  is_link_to, is_of_plan, is_tombstone_of,
}

-- `_revalidate_candidate`.
unfoldable pub revalidate_candidate :
    RetentionTables → DecodedRetentionPlan → ArtifactMetadata → Result RetentionError (Unit {0})
revalidate_candidate t decoded metadata = do
  row ← require_some (find (has_digest metadata.digest) t.artifacts) drift_error
  current ← check_metadata row
  require (same_metadata current metadata) drift_error
  refuse (current.pinned || ltb decoded.eligible_before current.created_at) drift_error
  refuse (any (is_link_to metadata.digest) t.links) drift_error

unfoldable pub revalidate_candidates :
    RetentionTables
    → DecodedRetentionPlan
    → List RetentionCandidate
    → Result RetentionError (Unit {0})
unfolding revalidate_candidate
revalidate_candidates t decoded [] = ok tt
revalidate_candidates t decoded (candidate ∷ rest) = do
  revalidate_candidate t decoded candidate.metadata
  revalidate_candidates t decoded rest

-- `_tombstone_from_row`, of a row whose columns have their types.
unfoldable pub check_tombstone : StoredTombstone → Result RetentionError StoredTombstone
check_tombstone tombstone = do
  require (is_content_digest tombstone.artifact_digest) integrity_error
  require (is_content_digest tombstone.plan_digest) integrity_error
  require (is_reason (codes tombstone.reason)) integrity_error
  refuse (is_before_plan tombstone.deleted_at) integrity_error
  ok tombstone
  where
    is_before_plan : Option ℕ → Bool
    is_before_plan none = false
    is_before_plan (some instant) = ltb instant tombstone.planned_at

unfoldable pub check_tombstones :
    List StoredTombstone → Result RetentionError (List StoredTombstone)
unfolding check_tombstone
check_tombstones [] = ok []
check_tombstones (row ∷ rows) = do
  tombstone ← check_tombstone row
  tombstones ← check_tombstones rows
  ok (tombstone ∷ tombstones)

-- `_require_exact_tombstone`.
unfoldable pub require_exact_tombstone :
    StoredTombstone → DigestConfirmedRetentionPlan → Result RetentionError (Unit {0})
require_exact_tombstone tombstone signed = do
  require (str_eq tombstone.plan_digest signed.digest) drift_error
  require (tombstone.planned_at == signed.decoded.plan.planned_at) drift_error
  require (str_eq tombstone.reason signed.decoded.plan.reason) drift_error

unfoldable pub require_exact_cohort :
    DigestConfirmedRetentionPlan → List StoredTombstone → Result RetentionError (Unit {0})
unfolding require_exact_tombstone
require_exact_cohort signed [] = ok tt
require_exact_cohort signed (tombstone ∷ rest) = do
  require_exact_tombstone tombstone signed
  require_exact_cohort signed rest

-- The tombstones of a plan, `ORDER BY artifact_digest`.
abbrev pub tombstones_of_plan : RetentionTables → String → List StoredTombstone
tombstones_of_plan t plan_digest =
    sorted (λ a b. is_text_before a.artifact_digest b.artifact_digest)
      (filter (is_of_plan plan_digest) t.tombstones)

abbrev pub artifact_digests : List StoredTombstone → List String
artifact_digests tombstones = map (λ tombstone. tombstone.artifact_digest) tombstones

-- No candidate of a new plan belongs to another one.
unfoldable pub require_unclaimed :
    RetentionTables → List RetentionCandidate → Result RetentionError (Unit {0})
require_unclaimed t [] = ok tt
require_unclaimed t (candidate ∷ rest) = do
  refuse (any (is_tombstone_of candidate.metadata.digest) t.tombstones) drift_error
  require_unclaimed t rest

-- The candidates are those of the cohort, or belong to no plan.
unfoldable pub compare_cohort :
    RetentionTables
    → DigestConfirmedRetentionPlan
    → List StoredTombstone
    → Result RetentionError (Unit {0})
unfolding require_exact_cohort require_unclaimed
compare_cohort t signed cohort =
    if is_empty cohort then require_unclaimed t signed.decoded.candidates else (do
      require (same_texts (artifact_digests cohort) signed.decoded.plan.artifact_digests)
          drift_error
      require_exact_cohort signed cohort)

-- A ValidationError becomes a RetentionIntegrityError.
abbrev pub or_integrity {ℓ} : {A : Type ℓ} → Result RetentionError A → Result RetentionError A
or_integrity (err e) = err integrity_error
or_integrity (ok a) = ok a

module _ (store : ArtifactStore) (auth : Authority) where
  -- `_plan_from_envelope_row`.
  unfoldable pub plan_of_row : StoredPlan → Result RetentionError DigestConfirmedRetentionPlan
  unfolding check_signed_plan canonical_payload
  plan_of_row row = do
    require (is_content_digest row.plan_digest) integrity_error
    require (is_content_digest row.payload_digest) integrity_error
    require (is_within 2 max_plan_envelope_bytes (auth.utf8_size row.payload_json)) integrity_error
    require (row.schema_version == plan_schema_version) integrity_error
    require (str_eq (auth.sha256 row.payload_json) row.payload_digest) integrity_error
    decoded ← require_some (auth.decode row.payload_json) integrity_error
    signed ← or_integrity (
        check_signed_plan auth (record {
          decoded = decoded;
          payload_digest = row.payload_digest;
          digest = row.plan_digest;
        }))
    require (str_eq decoded.registry_id row.registry_id) integrity_error
    require (str_eq decoded.cas_store_id row.cas_store_id) integrity_error
    require (decoded.plan.planned_at == row.planned_at) integrity_error
    require (str_eq decoded.registry_id auth.registry_id) integrity_error
    require (str_eq decoded.cas_store_id store.store_id) integrity_error
    require (str_eq row.plan_digest (auth.sign decoded.cas_store_id row.payload_json))
        integrity_error
    ok signed

  -- The envelope that `load_plan` reads.
  unfoldable pub stored_plan :
      RetentionTables → String → Result RetentionError DigestConfirmedRetentionPlan
  unfolding plan_of_row
  stored_plan t plan_digest = do
    row ← require_some (find (has_plan_digest plan_digest) t.plans) drift_error
    plan_of_row row

  -- The envelope of a staged plan is the plan's, and it has a cohort; a plan without one has none.
  unfoldable pub compare_envelope :
      DigestConfirmedRetentionPlan
      → Option StoredPlan
      → List StoredTombstone
      → Result RetentionError (Unit {0})
  unfolding plan_of_row check_signed_plan canonical_payload
  compare_envelope signed none cohort = require (is_empty cohort) integrity_error
  compare_envelope signed (some row) cohort = do
    stored ← plan_of_row row
    require (same_plan stored signed) drift_error
    refuse (is_empty cohort) drift_error

  -- `_inspect_durable_plan_state`: whether the plan is staged already.
  unfoldable pub inspect_durable_plan_state :
      RetentionTables → DigestConfirmedRetentionPlan → Result RetentionError Bool
  unfolding compare_envelope compare_cohort check_tombstones revalidate_candidates
  inspect_durable_plan_state t signed = do
    refuse (ltb max_retention_candidates (length (tombstones_of_plan t signed.digest)))
        integrity_error
    cohort ← check_tombstones (tombstones_of_plan t signed.digest)
    compare_envelope signed (find (has_plan_digest signed.digest) t.plans) cohort
    compare_cohort t signed cohort
    revalidate_candidates t signed.decoded signed.decoded.candidates
    ok (is_some (find (has_plan_digest signed.digest) t.plans))

  -- The reads of `_preflight_new_intent`.
  unfoldable pub inspect_idle :
      RetentionTables → DigestConfirmedRetentionPlan → Result RetentionError Bool
  unfolding inspect_durable_plan_state
  inspect_idle t signed = do
    refuse (has_running_work t) active_work_error
    inspect_durable_plan_state t signed
