-- ===== src/Tracking/Retention/Signing.antt =====
-- What the constructors and `create` of tracking/retention.py establish of a plan that is signed.
use signalattice.Prelude.{
  all, >>=-eq-ok, String, arith, is_within, leb, length, ltb, ok, ok-injective, refl, refuse,
  require, require-true, str_eq, subst, sym, true, false, ℕ, ◌==◌, ◌≡◌, ◌≤◌, bool_eq, Bool,
}
use signalattice.Tracking.Retention.{
  check_retention_plan, RetentionPolicy, is_ascending, is_content_digest, is_registry_id,
  max_retention_candidates, plan_schema_version, require_reason, RetentionPlan,
}
use signalattice.Tracking.Retention.Records.{
  DecodedRetentionPlan, DigestConfirmedRetentionPlan, digests_of, same_policy, same_texts,
  total_bytes,
}
use signalattice.Tracking.Retention.Authority.{
  Authority, canonical_payload, check_signed_plan, create,
}
use signalattice.Tracking.Retention.Planning.{cutoff_of, microseconds}
use signalattice.Tracking.Retention.Staging.{require_policy}

pub bool_eq_refl : (b : Bool) → bool_eq b b ≡ true
bool_eq_refl true = refl
bool_eq_refl false = refl

pub ==-refl : (n : ℕ) → (n == n) ≡ true
==-refl n = ground arith

same_policy_refl : (policy : RetentionPolicy) → same_policy policy policy ≡ true
same_policy_refl policy =
    rw
      (
        bool_eq_refl policy.enabled,
        ==-refl policy.grace_period_seconds,
        ==-refl policy.max_candidates,
        ==-refl policy.max_total_bytes,
      )
      refl

pub not_ltb : (a b : ℕ) → a ≤ b → ltb b a ≡ false
not_ltb a b h = ground arith

-- A plan whose candidates are within the bounds is the policy's.
pub require_policy-ok :
    (policy : RetentionPolicy) (decoded : DecodedRetentionPlan)
    → length decoded.candidates ≤ policy.max_candidates
    → total_bytes decoded.candidates ≤ policy.max_total_bytes
    → leb (microseconds policy.grace_period_seconds) decoded.plan.planned_at ≡ true
    → decoded.eligible_before ≡ cutoff_of policy decoded.plan.planned_at
    → decoded.policy ≡ policy
    → require_policy policy decoded ≡ ok tt
unfolding require_policy
require_policy-ok policy decoded few small long cut same =
    rw
      (
        not_ltb (length decoded.candidates) policy.max_candidates few,
        not_ltb (total_bytes decoded.candidates) policy.max_total_bytes small,
        long,
        cut,
        ==-refl (cutoff_of policy decoded.plan.planned_at),
        same,
        same_policy_refl policy,
      )
      refl

module _ (auth : Authority) where
  -- What `create` establishes of the plan that it signs.
  pub record Signed (decoded : DecodedRetentionPlan) (signed : DigestConfirmedRetentionPlan)
      : Type 0 where
    pub payload : String
    pub encoded : canonical_payload auth decoded ≡ ok payload
    pub bound : str_eq auth.artifact_store_id decoded.cas_store_id ≡ true
    pub is : signed ≡ record {
      decoded = decoded;
      payload_digest = auth.sha256 payload;
      digest = auth.sign decoded.cas_store_id payload;
    }
    pub canonical : is_content_digest signed.digest ≡ true

  check_signed_plan-same :
      (s : DigestConfirmedRetentionPlan) {checked : DigestConfirmedRetentionPlan}
      → check_signed_plan auth s ≡ ok checked
      → (checked ≡ s) × (is_content_digest s.digest ≡ true)
  unfolding check_signed_plan
  check_signed_plan-same s e =
      let (_, _, e1) = >>=-eq-ok (require_reason s.decoded.plan.reason) _ e in
      let (_, _, e2) =
        >>=-eq-ok (require (is_within 1 max_retention_candidates (length s.decoded.candidates)) _) _
          e1 in
      let (_, _, e3) =
        >>=-eq-ok (require (is_ascending (digests_of s.decoded.candidates)) _) _ e2 in
      let (_, _, e4) =
        >>=-eq-ok
          (require (same_texts (digests_of s.decoded.candidates) s.decoded.plan.artifact_digests) _)
          _ e3 in
      let (_, _, e5) =
        >>=-eq-ok (refuse (ltb s.decoded.plan.planned_at s.decoded.eligible_before) _) _ e4 in
      let (_, _, e6) =
        >>=-eq-ok (require (s.decoded.schema_version == plan_schema_version) _) _ e5 in
      let (_, _, e7) = >>=-eq-ok (require (is_registry_id s.decoded.registry_id) _) _ e6 in
      let (_, _, e8) = >>=-eq-ok (require (is_content_digest s.decoded.cas_store_id) _) _ e7 in
      let (_, _, e9) = >>=-eq-ok (require (is_content_digest s.payload_digest) _) _ e8 in
      let (_, d, e10) = >>=-eq-ok (require (is_content_digest s.digest) _) _ e9 in
      let (payload, _, e11) = >>=-eq-ok (canonical_payload auth s.decoded) _ e10 in
      let (_, _, e12) =
        >>=-eq-ok (require (str_eq s.payload_digest (auth.sha256 payload)) _) _ e11 in
      (sym (ok-injective e12), require-true _ _ d)

  pub create-Signed :
      (decoded : DecodedRetentionPlan) {signed : DigestConfirmedRetentionPlan}
      → create auth decoded ≡ ok signed
      → Signed decoded signed
  unfolding create
  create-Signed decoded e =
      let (_, _, e1) = >>=-eq-ok (require (is_registry_id decoded.registry_id) _) _ e in
      let (_, _, e2) = >>=-eq-ok (require (is_content_digest decoded.cas_store_id) _) _ e1 in
      let (payload, p, e3) = >>=-eq-ok (canonical_payload auth decoded) _ e2 in
      let (_, b, e4) =
        >>=-eq-ok (require (str_eq auth.artifact_store_id decoded.cas_store_id) _) _ e3 in
      let (same, d) =
        check_signed_plan-same
          (record {
            decoded = decoded;
            payload_digest = auth.sha256 payload;
            digest = auth.sign decoded.cas_store_id payload;
          })
          e4 in
      record {
        payload = payload;
        encoded = p;
        bound = require-true _ _ b;
        is = same;
        canonical = subst (λ s. is_content_digest s.digest ≡ true) (sym same) d;
      }

pub check_retention_plan-same :
    (plan : RetentionPlan) {checked : RetentionPlan}
    → check_retention_plan plan ≡ ok checked
    → checked ≡ plan
unfolding check_retention_plan
check_retention_plan-same p e =
    let (_, _, e1) = >>=-eq-ok (require (is_within 1 10_000 (length p.artifact_digests)) _) _ e in
    let (_, _, e2) = >>=-eq-ok (require (is_ascending p.artifact_digests) _) _ e1 in
    let (_, _, e3) = >>=-eq-ok (require (all is_content_digest p.artifact_digests) _) _ e2 in
    sym (ok-injective e3)
