-- ===== src/Tracking/Retention/Planning.antt =====
-- `RetentionController.plan` of tracking/retention.py: what is eligible for deletion.
use signalattice.Prelude.{
  require_some, Bool, List, Option, Result, String, [], any, filter, if◌then◌else◌, leb, ltb, none,
  not, ok, refuse, require, some, sorted, ℕ, ◌&&◌, ◌*◌, ◌+◌, ◌-◌, ◌==◌, ◌>>=◌, ◌>>◌, ◌||◌, ◌∷◌,
  ltb_ℤ,
}
use signalattice.Tracking.Retention.{
  ArtifactMetadata, RetentionError, RetentionPolicy, active_work_error, check_metadata,
  check_retention_plan, datetime_to_nanoseconds, disabled_error, integrity_error, is_text_before,
  plan_schema_version, require_reason, validation_error,
}
use signalattice.Tracking.Retention.Records.{
  DigestConfirmedRetentionPlan, RetentionCandidate, check_candidate, digests_of,
}
use signalattice.Tracking.Retention.Authority.{
  ArtifactStore, Authority, InventoryRecord, create, canonical_payload, check_signed_plan,
}
use signalattice.Tracking.Retention.Tables.{
  RetentionTables, has_running_work, is_link_to, is_tombstone_of,
}
use signalattice.Shadow.Reading.{take}

-- `instant - timedelta(seconds=grace_period_seconds)`, which overflows before datetime.min.
abbrev pub microseconds : ℕ → ℕ
microseconds seconds = seconds * 1_000_000

abbrev pub cutoff_of : RetentionPolicy → ℕ → ℕ
cutoff_of policy instant = instant - microseconds policy.grace_period_seconds

-- The WHERE clause of the query.
abbrev pub is_eligible : RetentionTables → RetentionPolicy → ℕ → ArtifactMetadata → Bool
is_eligible t policy cutoff row =
    not row.pinned
    && leb row.created_at cutoff
    && leb row.byte_size policy.max_total_bytes
    && not (any (is_link_to row.digest) t.links)
    && not (any (is_tombstone_of row.digest) t.tombstones)

-- `ORDER BY created_at ASC, digest ASC`.
abbrev pub is_older : ArtifactMetadata → ArtifactMetadata → Bool
is_older a b =
    ltb a.created_at b.created_at
    || (a.created_at == b.created_at && is_text_before a.digest b.digest)

abbrev pub eligible_rows : RetentionTables → RetentionPolicy → ℕ → List ArtifactMetadata
eligible_rows t policy cutoff =
    take policy.max_candidates (sorted is_older (filter (is_eligible t policy cutoff) t.artifacts))

-- The rows up to the first with which the bytes exceed the policy.
unfoldable pub select_rows :
    RetentionPolicy → ℕ → List ArtifactMetadata → Result RetentionError (List ArtifactMetadata)
select_rows policy total [] = ok []
select_rows policy total (row ∷ rows) = do
  candidate ← check_metadata row
  let rest = select_rows policy (total + candidate.byte_size) rows
  if ltb policy.max_total_bytes (total + candidate.byte_size)
      then ok []
      else (rest >>= λ selected. ok (candidate ∷ selected))

abbrev pub candidate_of : ArtifactMetadata → InventoryRecord → RetentionCandidate
candidate_of metadata observed = record {
  metadata = metadata;
  last_changed_at = observed.last_changed_at;
  last_changed_ns = observed.last_changed_ns;
  generation = observed.generation;
}

module _ (store : ArtifactStore) where
  -- The candidates whose physical generation is no younger than the cutoff.
  unfoldable pub inspect_rows :
      store.Objects → ℕ → List ArtifactMetadata → Result RetentionError (List RetentionCandidate)
  inspect_rows objects cutoff [] = ok []
  inspect_rows objects cutoff (metadata ∷ rest) =
      let later = inspect_rows objects cutoff rest in
      (do
        observed ← require_some (store.inspect objects metadata) integrity_error
        limit ← datetime_to_nanoseconds cutoff
        if ltb_ℤ limit observed.last_changed_ns then later else (do
          candidate ← check_candidate (candidate_of metadata observed)
          candidates ← later
          ok (candidate ∷ candidates)))

module _ (store : ArtifactStore) (auth : Authority) where
  -- The envelope of the candidates that are left, or none.
  unfoldable pub sign_candidates :
      RetentionPolicy
      → ℕ
      → String
      → List RetentionCandidate
      → Result RetentionError (Option DigestConfirmedRetentionPlan)
  unfolding create canonical_payload check_signed_plan
  sign_candidates policy instant reason [] = ok none
  sign_candidates policy instant reason (first ∷ rest) = do
    plan ← check_retention_plan (record {
      artifact_digests = digests_of (first ∷ rest);
      planned_at = instant;
      reason = reason;
    })
    signed ← create auth (record {
      plan = plan;
      candidates = first ∷ rest;
      eligible_before = cutoff_of policy instant;
      policy = policy;
      registry_id = auth.registry_id;
      cas_store_id = store.store_id;
      schema_version = plan_schema_version;
    })
    ok (some signed)

  -- `now` is the instant that the registry's clock returns.
  unfoldable pub plan :
      RetentionPolicy
      → RetentionTables
      → store.Objects
      → String
      → ℕ
      → Result RetentionError (Option DigestConfirmedRetentionPlan)
  unfolding inspect_rows sign_candidates
  plan policy t objects reason now = do
    require policy.enabled disabled_error
    require_reason reason
    require (leb (microseconds policy.grace_period_seconds) now) validation_error
    refuse (has_running_work t) active_work_error
    selected ← select_rows policy 0 (eligible_rows t policy (cutoff_of policy now))
    candidates ←
        inspect_rows store objects (cutoff_of policy now)
          (sorted (λ a b. is_text_before a.digest b.digest) selected)
    sign_candidates policy now reason candidates
