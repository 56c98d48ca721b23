-- ===== src/Tracking/Retention/Authority.antt =====
-- What tracking/retention.py uses of its registry and its artifact store, the content-addressed store
-- of tracking/cas.py, and the checks of a signed plan. A call of the store either returns or raises.
use signalattice.Prelude.{
  Bool, Option, Result, String, is_within, length, ok, refuse, require, str_eq, ℕ, ℤ, ◌==◌, ◌>>=◌,
  ◌>>◌, ltb,
}
use signalattice.Tracking.Retention.{
  ArtifactMetadata, RetentionError, integrity_error, is_ascending, is_content_digest,
  is_registry_id, max_plan_envelope_bytes, max_retention_candidates, plan_schema_version,
  require_reason, validation_error,
}
use signalattice.Tracking.Retention.Records.{
  DecodedRetentionPlan, DigestConfirmedRetentionPlan, digests_of, same_texts,
}

-- `ArtifactInventoryRecord`, less what identifies the object.
pub record InventoryRecord : Type 0 where
  pub last_changed_at : ℕ
  pub last_changed_ns : ℤ
  pub generation : String

-- An object is identified by its metadata, from which `_published_artifact` takes digest, size and key.
pub record ArtifactStore : Type 1 where
  pub Objects : Type 0
  pub store_id : String
  -- `none` where the call raises
  pub inspect : Objects → ArtifactMetadata → Option InventoryRecord
  -- the objects that the call leaves, and whether it returned
  pub unlink_verified : Objects → ArtifactMetadata → String → Objects × Bool
  -- whether the call returned
  pub verify_absent : Objects → ArtifactMetadata → Bool

-- SHA-256 and the registry's HMAC of a payload for a store are hexadecimal texts; the payload of an
-- envelope is its canonical JSON text, which `decode_retention_plan_payload` reads.
pub record Authority : Type 0 where
  pub registry_id : String
  pub artifact_store_id : String
  -- `_same_object(registry.artifact_verifier, store)`
  pub verifier_is_store : Bool
  pub sha256 : String → String
  pub sign : String → String → String
  pub payload : DecodedRetentionPlan → String
  pub decode : String → Option DecodedRetentionPlan
  pub utf8_size : String → ℕ

module _ (auth : Authority) where
  -- `canonical_payload_bytes`.
  unfoldable pub canonical_payload : DecodedRetentionPlan → Result RetentionError String
  canonical_payload decoded = do
    require (is_within 2 max_plan_envelope_bytes (auth.utf8_size (auth.payload decoded)))
        validation_error
    ok (auth.payload decoded)

  -- `DigestConfirmedRetentionPlan.__post_init__`.
  unfoldable pub check_signed_plan :
      DigestConfirmedRetentionPlan → Result RetentionError DigestConfirmedRetentionPlan
  unfolding canonical_payload
  check_signed_plan signed = do
    require_reason signed.decoded.plan.reason
    require (is_within 1 max_retention_candidates (length signed.decoded.candidates))
        validation_error
    require (is_ascending (digests_of signed.decoded.candidates)) validation_error
    require (same_texts (digests_of signed.decoded.candidates) signed.decoded.plan.artifact_digests)
        validation_error
    refuse (ltb signed.decoded.plan.planned_at signed.decoded.eligible_before) validation_error
    require (signed.decoded.schema_version == plan_schema_version) validation_error
    require (is_registry_id signed.decoded.registry_id) validation_error
    require (is_content_digest signed.decoded.cas_store_id) validation_error
    require (is_content_digest signed.payload_digest) validation_error
    require (is_content_digest signed.digest) validation_error
    payload ← canonical_payload signed.decoded
    require (str_eq signed.payload_digest (auth.sha256 payload)) validation_error
    ok signed

  -- `DigestConfirmedRetentionPlan.create`.
  unfoldable pub create : DecodedRetentionPlan → Result RetentionError DigestConfirmedRetentionPlan
  unfolding canonical_payload check_signed_plan
  create decoded = do
    require (is_registry_id decoded.registry_id) validation_error
    require (is_content_digest decoded.cas_store_id) validation_error
    payload ← canonical_payload decoded
    require (str_eq auth.artifact_store_id decoded.cas_store_id) integrity_error
    check_signed_plan (record {
      decoded = decoded;
      payload_digest = auth.sha256 payload;
      digest = auth.sign decoded.cas_store_id payload;
    })
