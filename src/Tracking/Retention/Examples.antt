-- ===== src/Tracking/Retention/Examples.antt =====
-- One artifact that is planned, staged and deleted, on which the theorems about retention are applied.
use signalattice.Tracking.Retention.Runs.{World}
use signalattice.Prelude.{
  All, In, List, String, [], any, filter, if◌then◌else◌, inl, none, not, ok, pos, refl, some,
  str_eq, true, false, ℕ, ◌+◌, ◌∷◌, ◌≡◌, ◌≤◌, arith, sorted, leb_codes,
}
use signalattice.Tracking.Retention.{
  is_type_rest, ArtifactMetadata, RetentionPolicy, check_metadata, check_retention_plan,
  datetime_to_nanoseconds, is_media_type, nanoseconds_to_display_time, output_class, require_reason,
  unix_epoch,
}
use signalattice.Tracking.Retention.Records.{
  check_candidate, DigestConfirmedRetentionPlan, RetentionCandidate,
}
use signalattice.Tracking.Retention.Authority.{
  ArtifactStore, Authority, canonical_payload, check_signed_plan, create,
}
use signalattice.Tracking.Retention.Tables.{
  empty_retention_tables, RetentionTables, StoredTombstone, insert_plan, insert_tombstone,
  insert_tombstones, is_link_to, mark_deleted, register_artifact, register_beside,
}
use signalattice.Tracking.Retention.Planning.{
  inspect_rows, microseconds, plan, select_rows, sign_candidates,
}
use signalattice.Tracking.Retention.Comparing.{
  require_exact_cohort, check_tombstone, check_tombstones, compare_cohort, compare_envelope,
  inspect_durable_plan_state, inspect_idle, require_exact_tombstone, require_unclaimed,
  revalidate_candidate, revalidate_candidates,
}
use signalattice.Tracking.Retention.Staging.{
  envelope_of, require_policy, stage, tombstone_of, validate_confirmation, write_intent,
}
use signalattice.Tracking.Retention.Executing.{
  candidate_tombstone, finalize_row, inspect_candidate_generation, read_cohort,
  require_finalized_chronology, verify_finalized_tombstone,
}
use signalattice.Tracking.Retention.Intents.{read_intent, read_tombstone, split_tombstones}
use signalattice.Tracking.Retention.Execution.{
  RetentionExecution, candidate_is_finalized, execute, finalize_candidate, finalize_pending,
  inspect_new_candidates, inspect_pending, preflight_new_intent, stage_intent,
  verify_finalized_candidates,
}
use signalattice.Tracking.Retention.Interleaving.{
  Steps, System, here, next, registers, stages, starts, unlinks, initial,
}
use signalattice.Tracking.Retention.Deletions.{unlinked_for_good}
use signalattice.Tracking.Retention.Reads.{Deleted}
use signalattice.Tracking.Retention.Finished.{execute-AllDeleted}
use signalattice.Tracking.Retention.Confirmed.{plan-validate_confirmation}

abbrev digest_a : String
digest_a = "aaaaaaaaaaaaaaaaaaaaaaaaaaaaaaaaaaaaaaaaaaaaaaaaaaaaaaaaaaaaaaaa"

abbrev registry_name : String
registry_name = "00000000000000000000000000000000"

-- The objects are the digests that are stored; each was last changed at the Unix epoch.
abbrev shelf : ArtifactStore
shelf = record {
  Objects = List String;
  store_id = digest_a;
  inspect = λ objects metadata.
      if any (str_eq metadata.digest) objects
      then some (record { last_changed_at = unix_epoch; last_changed_ns = pos 0; generation = "g" })
      else none;
  unlink_verified = λ objects metadata generation.
      (filter (λ digest. not (str_eq metadata.digest digest)) objects, true);
  verify_absent = λ objects metadata. not (any (str_eq metadata.digest) objects);
}

abbrev notary : Authority
notary = record {
  registry_id = registry_name;
  artifact_store_id = digest_a;
  verifier_is_store = true;
  sha256 = λ text. digest_a;
  sign = λ store_id text. digest_a;
  payload = λ decoded. "{}";
  decode = λ text. none;
  utf8_size = λ text. 2;
}

abbrev one_second : RetentionPolicy
one_second = record {
  enabled = true;
  grace_period_seconds = 1;
  max_candidates = 100;
  max_total_bytes = 1000;
}

abbrev table_a : ArtifactMetadata
table_a = record {
  digest = digest_a;
  artifact_class = output_class;
  byte_size = 10;
  media_type = "text/csv";
  storage_relpath =
      "objects/aa/aa/aaaaaaaaaaaaaaaaaaaaaaaaaaaaaaaaaaaaaaaaaaaaaaaaaaaaaaaaaaaaaaaa";
  created_at = unix_epoch;
  pinned = false;
}

abbrev later : ℕ
later = unix_epoch + 2_000_000

abbrev registered_tables : RetentionTables
registered_tables = record empty_retention_tables { artifacts = table_a ∷ [] }

abbrev candidate_a : RetentionCandidate
candidate_a = record {
  metadata = table_a;
  last_changed_at = unix_epoch;
  last_changed_ns = pos 0;
  generation = "g";
}

abbrev plan_a : DigestConfirmedRetentionPlan
plan_a = record {
  decoded = record {
    plan = record { artifact_digests = digest_a ∷ []; planned_at = later; reason = "expired" };
    candidates = candidate_a ∷ [];
    eligible_before = unix_epoch + 1_000_000;
    policy = one_second;
    registry_id = registry_name;
    cas_store_id = digest_a;
    schema_version = 1;
  };
  payload_digest = digest_a;
  digest = digest_a;
}

planned :
    plan shelf notary one_second registered_tables (digest_a ∷ []) "expired" later
    ≡ ok (some plan_a)
unfolding plan select_rows inspect_rows sign_candidates create canonical_payload check_signed_plan
    require_reason check_retention_plan check_metadata check_candidate is_media_type is_type_rest
    nanoseconds_to_display_time datetime_to_nanoseconds sorted leb_codes register_artifact
    register_beside stage validate_confirmation require_policy write_intent
    inspect_durable_plan_state compare_envelope compare_cohort check_tombstones
    revalidate_candidates revalidate_candidate require_unclaimed insert_plan insert_tombstones
    insert_tombstone candidate_tombstone check_tombstone require_exact_tombstone execute
    preflight_new_intent inspect_new_candidates inspect_idle inspect_candidate_generation
    stage_intent read_intent read_cohort require_exact_cohort split_tombstones read_tombstone
    verify_finalized_tombstone require_finalized_chronology verify_finalized_candidates
    inspect_pending finalize_pending finalize_candidate candidate_is_finalized finalize_row
planned = refl

plan-validate_confirmation_example :
    validate_confirmation shelf notary one_second plan_a digest_a (later + 1) ≡ ok tt
plan-validate_confirmation_example =
    plan-validate_confirmation shelf notary one_second registered_tables (digest_a ∷ []) "expired"
      later (later + 1) planned (omega arith) refl

abbrev tombstone_a : StoredTombstone
tombstone_a = tombstone_of plan_a digest_a

abbrev staged_tables : RetentionTables
staged_tables = record registered_tables {
  plans = envelope_of shelf notary plan_a ∷ [];
  tombstones = tombstone_a ∷ [];
}

abbrev unlinked_system : System shelf notary one_second
unlinked_system = record {
  tables = staged_tables;
  objects = [];
  deleting = (plan_a, candidate_a) ∷ [];
  unlinked = digest_a ∷ [];
}

deletion :
    Steps shelf notary one_second (initial shelf notary one_second (digest_a ∷ [])) unlinked_system
unfolding plan select_rows inspect_rows sign_candidates create canonical_payload check_signed_plan
    require_reason check_retention_plan check_metadata check_candidate is_media_type is_type_rest
    nanoseconds_to_display_time datetime_to_nanoseconds sorted leb_codes register_artifact
    register_beside stage validate_confirmation require_policy write_intent
    inspect_durable_plan_state compare_envelope compare_cohort check_tombstones
    revalidate_candidates revalidate_candidate require_unclaimed insert_plan insert_tombstones
    insert_tombstone candidate_tombstone check_tombstone require_exact_tombstone execute
    preflight_new_intent inspect_new_candidates inspect_idle inspect_candidate_generation
    stage_intent read_intent read_cohort require_exact_cohort split_tombstones read_tombstone
    verify_finalized_tombstone require_finalized_chronology verify_finalized_candidates
    inspect_pending finalize_pending finalize_candidate candidate_is_finalized finalize_row
deletion =
    next
      (next
        (next (next here (registers table_a table_a registered_tables refl refl))
          (stages plan_a digest_a later staged_tables refl refl))
        (starts plan_a candidate_a tombstone_a refl refl refl))
      (unlinks plan_a candidate_a (inl refl) refl)

unlinked_for_good_example :
    (tombstone : StoredTombstone) × (row : ArtifactMetadata) × In tombstone staged_tables.tombstones
    × In row staged_tables.artifacts
    × (tombstone.artifact_digest ≡ digest_a)
    × (row.digest ≡ digest_a)
    × (row.pinned ≡ false)
    × (row.created_at + microseconds 1 ≤ tombstone.planned_at)
    × (any (is_link_to digest_a) staged_tables.links ≡ false)
unlinked_for_good_example =
    unlinked_for_good shelf notary one_second (digest_a ∷ []) deletion digest_a (inl refl)

abbrev idle : World (List String)
idle = record {
  tables = registered_tables;
  objects = digest_a ∷ [];
  instants = λ n. later + n;
  samples = 0;
}

abbrev deleted_tables : RetentionTables
deleted_tables = mark_deleted staged_tables digest_a digest_a (later + 2)

abbrev emptied : World (List String)
emptied = record { tables = deleted_tables; objects = []; instants = λ n. later + n; samples = 5 }

abbrev execution_a : RetentionExecution
execution_a = record {
  newly_deleted_digests = digest_a ∷ [];
  previously_deleted_digests = [];
  deleted_bytes = 10;
  executed_at = later + 4;
}

executed : execute shelf notary one_second plan_a digest_a idle ≡ (emptied, ok execution_a)
unfolding plan select_rows inspect_rows sign_candidates create canonical_payload check_signed_plan
    require_reason check_retention_plan check_metadata check_candidate is_media_type is_type_rest
    nanoseconds_to_display_time datetime_to_nanoseconds sorted leb_codes register_artifact
    register_beside stage validate_confirmation require_policy write_intent
    inspect_durable_plan_state compare_envelope compare_cohort check_tombstones
    revalidate_candidates revalidate_candidate require_unclaimed insert_plan insert_tombstones
    insert_tombstone candidate_tombstone check_tombstone require_exact_tombstone execute
    preflight_new_intent inspect_new_candidates inspect_idle inspect_candidate_generation
    stage_intent read_intent read_cohort require_exact_cohort split_tombstones read_tombstone
    verify_finalized_tombstone require_finalized_chronology verify_finalized_candidates
    inspect_pending finalize_pending finalize_candidate candidate_is_finalized finalize_row
executed = refl

execute-AllDeleted_example :
    (cohort : List StoredTombstone) × (read_cohort deleted_tables plan_a ≡ ok cohort)
    × All (Deleted shelf notary plan_a []) cohort
execute-AllDeleted_example =
    execute-AllDeleted shelf notary one_second plan_a digest_a idle emptied execution_a executed
