-- ===== src/Tracking/Retention/Confirmed.antt =====
-- A plan of tracking/retention.py against the check of its confirmation.
use signalattice.Tracking.Retention.Bounds.{
  length-take_le, inspect_rows-bounds, row_bytes-sorted, select_rows-bounds,
}
use signalattice.Tracking.Retention.Tables.{RetentionTables, has_running_work}
use signalattice.Prelude.{
  filter, >>=-eq-ok, String, arith, leb, ok, ok-injective, refl, refuse, require, require-true,
  str_eq, subst, true, ℕ, ◌≡◌, ◌≤◌, List, [], ap, length-sorted, some, some-eq, sorted, ◌∷◌,
  eq_refl, ◌∙◌,
}
use signalattice.Tracking.Retention.{
  ArtifactMetadata, is_text_before, check_retention_plan, RetentionPolicy, plan_schema_version,
  require_reason, RetentionPlan,
}
use signalattice.Tracking.Retention.Records.{
  DecodedRetentionPlan, DigestConfirmedRetentionPlan, digests_of, RetentionCandidate,
}
use signalattice.Tracking.Retention.Authority.{Authority, create, ArtifactStore}
use signalattice.Tracking.Retention.Planning.{
  is_eligible, is_older, cutoff_of, plan, select_rows, inspect_rows, sign_candidates, eligible_rows,
  microseconds,
}
use signalattice.Tracking.Retention.Staging.{require_policy, validate_confirmation}
use signalattice.Tracking.Retention.Signing.{
  Signed, check_retention_plan-same, create-Signed, not_ltb, require_policy-ok,
}

module _ (store : ArtifactStore) (auth : Authority) where
  -- The envelope of the candidates.
  abbrev envelope_for :
      RetentionPolicy → ℕ → RetentionPlan → List RetentionCandidate → DecodedRetentionPlan
  envelope_for policy now plan candidates = record {
    plan = plan;
    candidates = candidates;
    eligible_before = cutoff_of policy now;
    policy = policy;
    registry_id = auth.registry_id;
    cas_store_id = store.store_id;
    schema_version = plan_schema_version;
  }

  sign_candidates-Signed :
      (policy : RetentionPolicy) (now : ℕ) (reason : String) (candidates : List RetentionCandidate)
      {signed : DigestConfirmedRetentionPlan}
      → sign_candidates store auth policy now reason candidates ≡ ok (some signed)
      → (plan : RetentionPlan) × (plan.planned_at ≡ now)
        × Signed auth (envelope_for policy now plan candidates) signed
  unfolding sign_candidates
  sign_candidates-Signed policy now reason [] e = cc
  sign_candidates-Signed policy now reason (first ∷ rest) e =
      let planned : RetentionPlan = record {
        artifact_digests = digests_of (first ∷ rest);
        planned_at = now;
        reason = reason;
      } in
      let (checked, c, e1) = >>=-eq-ok (check_retention_plan planned) _ e in
      let (signed, s, e2) =
        >>=-eq-ok (create auth (envelope_for policy now checked (first ∷ rest))) _ e1 in
      (
        checked,
        ap (λ p. p.planned_at) (check_retention_plan-same planned c),
        subst (Signed auth (envelope_for policy now checked (first ∷ rest)))
            (some-eq (ok-injective e2)) (create-Signed auth _ s),
      )

  validate_confirmation-ok :
      (policy : RetentionPolicy) (decoded : DecodedRetentionPlan)
      (signed : DigestConfirmedRetentionPlan) (later : ℕ)
      → Signed auth decoded signed
      → policy.enabled ≡ true
      → decoded.plan.planned_at ≤ later
      → decoded.registry_id ≡ auth.registry_id
      → decoded.cas_store_id ≡ store.store_id
      → auth.verifier_is_store ≡ true
      → require_policy policy decoded ≡ ok tt
      → validate_confirmation store auth policy signed signed.digest later ≡ ok tt
  unfolding validate_confirmation
  validate_confirmation-ok policy decoded signed later s on late mine here same within =
      let bound = subst (λ id. str_eq auth.artifact_store_id id ≡ true) here s.bound in
      let signature =
        ap (λ x. str_eq x.digest (auth.sign decoded.cas_store_id s.payload)) s.is
        ∙ eq_refl (auth.sign decoded.cas_store_id s.payload) in
      rw
        (
          ap (λ x. x.decoded) s.is,
          within,
          s.encoded,
          on,
          not_ltb decoded.plan.planned_at later late,
          ap (λ id. str_eq id auth.registry_id) mine ∙ eq_refl auth.registry_id,
          ap (λ id. str_eq id store.store_id) here ∙ eq_refl store.store_id,
          same,
          bound,
          signature,
          s.canonical,
          eq_refl signed.digest,
        )
        refl

  -- A plan that `plan` returns is confirmed by its own digest, under the same policy and by the same
  -- authority, at every instant from the plan's on, as long as the registry's verifier is the store.
  pub plan-validate_confirmation :
      (policy : RetentionPolicy) (t : RetentionTables) (objects : store.Objects) (reason : String)
      (now later : ℕ) {signed : DigestConfirmedRetentionPlan}
      → plan store auth policy t objects reason now ≡ ok (some signed)
      → now ≤ later
      → auth.verifier_is_store ≡ true
      → validate_confirmation store auth policy signed signed.digest later ≡ ok tt
  unfolding plan
  plan-validate_confirmation policy t objects reason now later {signed} e late same =
      let (_, on, e1) = >>=-eq-ok (require policy.enabled _) _ e in
      let (_, _, e2) = >>=-eq-ok (require_reason reason) _ e1 in
      let (_, long, e3) =
        >>=-eq-ok (require (leb (microseconds policy.grace_period_seconds) now) _) _ e2 in
      let (_, _, e4) = >>=-eq-ok (refuse (has_running_work t) _) _ e3 in
      let (selected, s, e5) =
        >>=-eq-ok (select_rows policy 0 (eligible_rows t policy (cutoff_of policy now))) _ e4 in
      let by_digest = λ (a b : ArtifactMetadata). is_text_before a.digest b.digest in
      let (candidates, i, e6) =
        >>=-eq-ok (inspect_rows store objects (cutoff_of policy now) (sorted by_digest selected)) _
          e5 in
      let (planned, at, made) = sign_candidates-Signed policy now reason candidates e6 in
      let (small, few) =
        select_rows-bounds policy 0 (eligible_rows t policy (cutoff_of policy now)) s
          (omega arith) in
      let (bytes, count) =
        inspect_rows-bounds store objects (cutoff_of policy now) (sorted by_digest selected) i in
      validate_confirmation-ok policy (envelope_for policy now planned candidates) signed later made
        (require-true _ _ on) (omega (arith, at, late)) refl refl same
        (require_policy-ok policy (envelope_for policy now planned candidates)
          (omega (
            arith,
            count,
            few,
            length-sorted by_digest selected,
            length-take_le policy.max_candidates (
                sorted is_older (filter (is_eligible t policy (cutoff_of policy now)) t.artifacts)),
          ))
          (omega (arith, bytes, small, row_bytes-sorted by_digest selected))
          (rw at (require-true _ _ long)) (rw at refl) refl)
