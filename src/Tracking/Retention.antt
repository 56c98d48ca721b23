-- ===== src/Tracking/Retention.antt =====
-- src/quant_platform/tracking/retention.py: the records of a retention plan and the checks of their
-- constructors. Instants are microseconds since datetime.min; the timestamps of objects are
-- nanoseconds since the Unix epoch.
pub mod Records
pub mod Tables
pub mod Planning
pub mod Comparing
pub mod Staging
pub mod Executing
pub mod Runs
pub mod Intents
pub mod Execution
pub mod Interleaving
pub mod Evidence
pub mod Tombstoning
pub mod Condemning
pub mod Transactions
pub mod Deletions
pub mod Reads
pub mod Finished
pub mod Bounds
pub mod Signing
pub mod Confirmed
mod Examples
pub mod Authority
use signalattice.Prelude.{
  Bool, List, Result, String, [], any, codes, false, is_digit, is_hex, is_lower, is_within, leb,
  length, ok, require, str_eq, true, all, ℕ, ℤ, pos, negsuc, ◌&&◌, ◌*◌, ◌+◌, ◌-◌, ◌/◌, ◌==◌, ◌>>◌,
  ◌||◌, ◌∷◌, ◌++◌, leb_codes, not, if◌then◌else◌, ◌>>=◌,
}

-- The exceptions of retention.py. An error of the artifact store that reaches the caller is
-- `store_error`; `partial_failure` has the digests that are finalized and those that are pending.
pub data RetentionError : Type 0 where
  validation_error integrity_error conflict_error disabled_error confirmation_error : RetentionError
  drift_error active_work_error store_error database_error : RetentionError
  partial_failure : List String → List String → RetentionError

pub data ArtifactClass : Type 0 where
  input_class output_class model_class report_class plot_class log_class metadata_class :
      ArtifactClass

pub record ArtifactMetadata : Type 0 where
  pub digest : String
  pub artifact_class : ArtifactClass
  pub byte_size : ℕ
  pub media_type : String
  pub storage_relpath : String
  pub created_at : ℕ
  pub pinned : Bool

pub record RetentionPolicy : Type 0 where
  pub enabled : Bool
  pub grace_period_seconds : ℕ
  pub max_candidates : ℕ
  pub max_total_bytes : ℕ

pub record RetentionPlan : Type 0 where
  pub artifact_digests : List String
  pub planned_at : ℕ
  pub reason : String

abbrev pub plan_schema_version : ℕ
plan_schema_version = 1

abbrev pub max_retention_candidates : ℕ
max_retention_candidates = 1_000

abbrev pub max_plan_envelope_bytes : ℕ
max_plan_envelope_bytes = 1_048_576

abbrev pub max_artifact_bytes : ℕ
max_artifact_bytes = 1_073_741_824

abbrev pub unix_epoch : ℕ
unix_epoch = 62_135_596_800_000_000

abbrev pub max_int64 : ℕ
max_int64 = 9_223_372_036_854_775_807

-- `require_digest`.
abbrev pub is_content_digest : String → Bool
is_content_digest digest = length (codes digest) == 64 && all is_hex (codes digest)

-- `_require_registry_id`.
abbrev pub is_registry_id : String → Bool
is_registry_id text = length (codes text) == 32 && all is_hex (codes text)

-- The characters of `_REASON_CODE` after the first.
abbrev pub is_reason_code : ℕ → Bool
is_reason_code c = is_lower c || is_digit c || c == b'.' || c == b'_' || c == b'-'

abbrev pub is_reason : List ℕ → Bool
is_reason [] = false
is_reason (c ∷ cs) = is_lower c && leb (length cs) 127 && all is_reason_code cs

unfoldable pub require_reason : String → Result RetentionError (Unit {0})
require_reason reason = require (is_reason (codes reason)) validation_error

-- `RetentionPolicy.__post_init__`.
unfoldable pub check_retention_policy : RetentionPolicy → Result RetentionError RetentionPolicy
check_retention_policy policy = do
  require (is_within 1 31_622_400 policy.grace_period_seconds) validation_error
  require (is_within 1 max_retention_candidates policy.max_candidates) validation_error
  require (is_within 1 max_int64 policy.max_total_bytes) validation_error
  ok policy

-- The order of Python's texts.
abbrev pub is_text_before : String → String → Bool
is_text_before a b = leb_codes (codes a) (codes b)

-- `value == tuple(sorted(set(value)))`.
abbrev pub is_ascending : List String → Bool
is_ascending [] = true
is_ascending (a ∷ []) = true
is_ascending (a ∷ b ∷ rest) = not (str_eq a b) && is_text_before a b && is_ascending (b ∷ rest)

-- `RetentionPlan.__post_init__`; the size of the reason is checked by `require_reason`.
unfoldable pub check_retention_plan : RetentionPlan → Result RetentionError RetentionPlan
check_retention_plan plan = do
  require (is_within 1 10_000 (length plan.artifact_digests)) validation_error
  require (is_ascending plan.artifact_digests) validation_error
  require (all is_content_digest plan.artifact_digests) validation_error
  ok plan

-- `_datetime_to_nanoseconds`.
unfoldable pub datetime_to_nanoseconds : ℕ → Result RetentionError ℤ
datetime_to_nanoseconds instant =
    if leb unix_epoch instant
    then (do
      require (leb ((instant - unix_epoch) * 1000) max_int64) validation_error
      ok (pos ((instant - unix_epoch) * 1000)))
    else (do
      require (leb ((unix_epoch - instant) * 1000) (max_int64 + 1)) validation_error
      ok (negsuc ((unix_epoch - instant) * 1000 - 1)))

-- `_nanoseconds_to_display_time`, of a signed 64-bit number: the microseconds are rounded down.
unfoldable pub nanoseconds_to_display_time : ℤ → Result RetentionError ℕ
nanoseconds_to_display_time (pos n) = do
  require (leb n max_int64) validation_error
  ok (unix_epoch + n / 1000)
nanoseconds_to_display_time (negsuc n) = do
  require (leb n max_int64) validation_error
  ok (unix_epoch - (n / 1000 + 1))

-- `_MEDIA_TYPE`.
abbrev is_media_start : ℕ → Bool
is_media_start c = is_lower c || is_digit c

abbrev is_media_code : ℕ → Bool
is_media_code c = is_media_start c || any (λ d. c == d) (codes "!#$&^_.+-")

abbrev is_subtype : List ℕ → Bool
is_subtype [] = false
is_subtype (c ∷ cs) = is_media_start c && all is_media_code cs

unfoldable pub is_type_rest : List ℕ → Bool
is_type_rest [] = false
is_type_rest (c ∷ cs) =
    let rest = is_type_rest cs in (c == b'/' && is_subtype cs) || (is_media_code c && rest)

unfoldable pub is_media_type : List ℕ → Bool
unfolding is_type_rest
is_media_type [] = false
is_media_type (c ∷ cs) = leb (length cs) 127 && is_media_start c && is_type_rest cs

abbrev pub same_codes : List ℕ → List ℕ → Bool
same_codes [] [] = true
same_codes [] (d ∷ ds) = false
same_codes (c ∷ cs) [] = false
same_codes (c ∷ cs) (d ∷ ds) = c == d && same_codes cs ds

-- `_storage_key`: the first four digits name two directories.
abbrev pub storage_key : List ℕ → List ℕ
storage_key (a ∷ b ∷ c ∷ d ∷ rest) =
    codes "objects/" ++ a ∷ b ∷ b'/' ∷ c ∷ d ∷ b'/' ∷ a ∷ b ∷ c ∷ d ∷ rest
storage_key few = []

-- `ArtifactMetadata.__post_init__` and `_published_artifact`, whose key leaves nothing to check of the
-- path.
unfoldable pub check_metadata : ArtifactMetadata → Result RetentionError ArtifactMetadata
check_metadata metadata = do
  require (is_content_digest metadata.digest) integrity_error
  require (leb metadata.byte_size max_artifact_bytes) integrity_error
  require (is_media_type (codes metadata.media_type)) integrity_error
  require (same_codes (codes metadata.storage_relpath) (storage_key (codes metadata.digest)))
      integrity_error
  ok metadata
