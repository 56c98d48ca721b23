-- ===== src/Tracking/Retention/Records.antt =====
-- The candidates of a retention plan in tracking/retention.py, the envelope that is signed, and when
-- two of them are equal.
use signalattice.Prelude.{
  Bool, List, Result, String, [], bool_eq, eq_ℤ, ok, refuse, require, str_eq, true, false, ℕ, ℤ,
  ◌&&◌, ◌==◌, ◌>>=◌, ◌>>◌, ◌∷◌, ◌+◌, map,
}
use signalattice.Tracking.Retention.{
  ArtifactClass, ArtifactMetadata, RetentionError, RetentionPlan, RetentionPolicy, check_metadata,
  input_class, output_class, model_class, report_class, plot_class, log_class, metadata_class,
  nanoseconds_to_display_time, validation_error,
}

-- `generation` is the token of the physical generation.
pub record RetentionCandidate : Type 0 where
  pub metadata : ArtifactMetadata
  pub last_changed_at : ℕ
  pub last_changed_ns : ℤ
  pub generation : String

-- `RetentionCandidate.__post_init__`.
unfoldable pub check_candidate : RetentionCandidate → Result RetentionError RetentionCandidate
check_candidate candidate = do
  refuse candidate.metadata.pinned validation_error
  check_metadata candidate.metadata
  display ← nanoseconds_to_display_time candidate.last_changed_ns
  require (display == candidate.last_changed_at) validation_error
  ok candidate

pub record DecodedRetentionPlan : Type 0 where
  pub plan : RetentionPlan
  pub candidates : List RetentionCandidate
  pub eligible_before : ℕ
  pub policy : RetentionPolicy
  pub registry_id : String
  pub cas_store_id : String
  pub schema_version : ℕ

pub record DigestConfirmedRetentionPlan : Type 0 where
  pub decoded : DecodedRetentionPlan
  pub payload_digest : String
  pub digest : String

abbrev pub digests_of : List RetentionCandidate → List String
digests_of candidates = map (λ candidate. candidate.metadata.digest) candidates

-- `DigestConfirmedRetentionPlan.total_bytes`.
abbrev pub total_bytes : List RetentionCandidate → ℕ
total_bytes [] = 0
total_bytes (candidate ∷ candidates) = candidate.metadata.byte_size + total_bytes candidates

-- `ArtifactClass.value`.
abbrev pub class_value : ArtifactClass → String
class_value input_class = "input"
class_value output_class = "output"
class_value model_class = "model"
class_value report_class = "report"
class_value plot_class = "plot"
class_value log_class = "log"
class_value metadata_class = "metadata"

abbrev pub same_texts : List String → List String → Bool
same_texts [] [] = true
same_texts [] (d ∷ ds) = false
same_texts (c ∷ cs) [] = false
same_texts (c ∷ cs) (d ∷ ds) = str_eq c d && same_texts cs ds

-- What `register_artifact` compares of two records of one digest.
abbrev pub same_registration : ArtifactMetadata → ArtifactMetadata → Bool
same_registration a b =
    str_eq a.digest b.digest
    && str_eq (class_value a.artifact_class) (class_value b.artifact_class)
    && a.byte_size == b.byte_size
    && str_eq a.media_type b.media_type
    && str_eq a.storage_relpath b.storage_relpath
    && bool_eq a.pinned b.pinned

abbrev pub same_metadata : ArtifactMetadata → ArtifactMetadata → Bool
same_metadata a b = same_registration a b && a.created_at == b.created_at

abbrev pub same_policy : RetentionPolicy → RetentionPolicy → Bool
same_policy a b =
    bool_eq a.enabled b.enabled
    && a.grace_period_seconds == b.grace_period_seconds
    && a.max_candidates == b.max_candidates
    && a.max_total_bytes == b.max_total_bytes

abbrev pub same_candidates : List RetentionCandidate → List RetentionCandidate → Bool
same_candidates [] [] = true
same_candidates [] (d ∷ ds) = false
same_candidates (c ∷ cs) [] = false
same_candidates (c ∷ cs) (d ∷ ds) =
    same_metadata c.metadata d.metadata
    && c.last_changed_at == d.last_changed_at
    && eq_ℤ c.last_changed_ns d.last_changed_ns
    && str_eq c.generation d.generation
    && same_candidates cs ds

abbrev pub same_envelope : DecodedRetentionPlan → DecodedRetentionPlan → Bool
same_envelope a b =
    same_texts a.plan.artifact_digests b.plan.artifact_digests
    && a.plan.planned_at == b.plan.planned_at
    && str_eq a.plan.reason b.plan.reason
    && same_candidates a.candidates b.candidates
    && a.eligible_before == b.eligible_before
    && same_policy a.policy b.policy
    && str_eq a.registry_id b.registry_id
    && str_eq a.cas_store_id b.cas_store_id
    && a.schema_version == b.schema_version

abbrev pub same_plan : DigestConfirmedRetentionPlan → DigestConfirmedRetentionPlan → Bool
same_plan a b =
    same_envelope a.decoded b.decoded
    && str_eq a.payload_digest b.payload_digest
    && str_eq a.digest b.digest
