-- ===== src/Tracking/Retention/Transactions.antt =====
-- The transactions of tracking/retention.py against what is condemned: a plan that is staged condemns
-- its candidates only, and the rest of the transactions condemn nothing more.
use signalattice.Tracking.Retention.Authority.{ArtifactStore, Authority, canonical_payload}
use signalattice.Prelude.{
  find-any, ◌&&◌, is_some, Bool-cases, inl, inr, ◌>>=◌, >>=-eq-ok, find, ok, ltb, refuse, require,
  require_some, require_some-eq, ◌≡◌, ◌≤◌, ◌+◌, All, String, arith, false, map, ok-injective, subst,
  sym, ℕ, ◌∷◌, Bool, any, if◌then◌else◌, length, str_eq, true, ap,
}
use signalattice.Tracking.Retention.{RetentionPolicy, max_retention_candidates}
use signalattice.Tracking.Retention.Records.{
  DigestConfirmedRetentionPlan, RetentionCandidate, digests_of,
}
use signalattice.Tracking.Retention.Tables.{
  RetentionTables, StoredPlan, StoredTombstone, has_plan_digest, has_running_work, insert_plan,
  insert_tombstones, is_of_plan, is_tombstone_of,
}
use signalattice.Tracking.Retention.Planning.{microseconds}
use signalattice.Tracking.Retention.Comparing.{
  check_tombstones, tombstones_of_plan, compare_cohort, compare_envelope,
  inspect_durable_plan_state, revalidate_candidate, revalidate_candidates,
}
use signalattice.Tracking.Retention.Staging.{
  envelope_of, require_policy, stage, tombstone_of, validate_confirmation, write_intent,
}
use signalattice.Tracking.Retention.Executing.{
  candidate_tombstone, finalize_row, require_finalized_chronology,
}
use signalattice.Tracking.Retention.Tombstoning.{insert_tombstones-Kept, mark_deleted-Kept}
use signalattice.Tracking.Retention.Evidence.{Condemned, Kept, Kept-refl, Kept-trans}
use signalattice.Tracking.Retention.Condemning.{
  any_mono, require_policy-cutoff, revalidate_candidates-Condemned,
}

module _ (store : ArtifactStore) (auth : Authority) (policy : RetentionPolicy) where
  -- A confirmed plan was made the grace period after its cutoff.
  validate_confirmation-cutoff :
      (signed : DigestConfirmedRetentionPlan) (confirmed_digest : String) (now : ℕ)
      → validate_confirmation store auth policy signed confirmed_digest now ≡ ok tt
      → signed.decoded.eligible_before + microseconds policy.grace_period_seconds
        ≤ signed.decoded.plan.planned_at
  unfolding validate_confirmation
  validate_confirmation-cutoff signed confirmed_digest now e =
      let (_, _, e1) = >>=-eq-ok (require policy.enabled _) _ e in
      let (_, _, e2) = >>=-eq-ok (refuse (ltb now signed.decoded.plan.planned_at) _) _ e1 in
      let (_, _, e3) =
        >>=-eq-ok (require (str_eq signed.decoded.registry_id auth.registry_id) _) _ e2 in
      let (_, _, e4) =
        >>=-eq-ok (require (str_eq signed.decoded.cas_store_id store.store_id) _) _ e3 in
      let (_, _, e5) = >>=-eq-ok (require auth.verifier_is_store _) _ e4 in
      let (_, _, e6) = >>=-eq-ok (require (str_eq auth.artifact_store_id store.store_id) _) _ e5 in
      let (_, e7, _) = >>=-eq-ok (require_policy policy signed.decoded) _ e6 in
      require_policy-cutoff policy signed.decoded e7

  inspect_durable_plan_state-valid :
      (t : RetentionTables) (signed : DigestConfirmedRetentionPlan) {staged : Bool}
      → inspect_durable_plan_state store auth t signed ≡ ok staged
      → revalidate_candidates t signed.decoded signed.decoded.candidates ≡ ok tt
  unfolding inspect_durable_plan_state
  inspect_durable_plan_state-valid t signed e =
      let (_, _, e1) =
        >>=-eq-ok
          (refuse (ltb max_retention_candidates (length (tombstones_of_plan t signed.digest))) _) _
          e in
      let (cohort, _, e2) =
        >>=-eq-ok (check_tombstones (tombstones_of_plan t signed.digest)) _ e1 in
      let (_, _, e3) =
        >>=-eq-ok
          (compare_envelope store auth signed (find (has_plan_digest signed.digest) t.plans) cohort)
          _ e2 in
      let (_, _, e4) = >>=-eq-ok (compare_cohort t signed cohort) _ e3 in
      let (_, valid, _) =
        >>=-eq-ok (revalidate_candidates t signed.decoded signed.decoded.candidates) _ e4 in
      valid

  insert_plan-eq :
      (t : RetentionTables) (row : StoredPlan) {u : RetentionTables}
      → insert_plan t row ≡ ok u
      → u ≡ record t { plans = row ∷ t.plans }
  unfolding insert_plan
  insert_plan-eq t row e =
      let (_, _, e1) = >>=-eq-ok (refuse (any (has_plan_digest row.plan_digest) t.plans) _) _ e in
      sym (ok-injective e1)

  write_cohort-Kept :
      (t : RetentionTables) (signed : DigestConfirmedRetentionPlan) (staged : Bool)
      {u : RetentionTables}
      → (if staged
          then ok t
          else (insert_plan t (envelope_of store auth signed) >>= λ v.
              insert_tombstones v
                (map (tombstone_of signed) (digests_of signed.decoded.candidates))))
        ≡ ok u
      → All
          (Condemned policy t.artifacts t.links)
          (map (tombstone_of signed) (digests_of signed.decoded.candidates))
      → Kept policy t u
  write_cohort-Kept t signed true e h = subst (Kept policy t) (ok-injective e) (Kept-refl policy t)
  write_cohort-Kept t signed false e h =
      let (v, e1, e2) = >>=-eq-ok (insert_plan t (envelope_of store auth signed)) _ e in
      let new = insert_plan-eq t (envelope_of store auth signed) e1 in
      let xs = map (tombstone_of signed) (digests_of signed.decoded.candidates) in
      Kept-trans policy
        (subst (Kept policy t) (sym new) (record { keys = λ digest k. k; condemned = λ k. k }))
        (insert_tombstones-Kept policy v xs e2
          (subst (λ w. All (Condemned policy w.artifacts w.links) xs) (sym new) h))

  write_intent-Kept :
      (t : RetentionTables) (signed : DigestConfirmedRetentionPlan) {u : RetentionTables}
      → write_intent store auth t signed ≡ ok u
      → signed.decoded.eligible_before + microseconds policy.grace_period_seconds
        ≤ signed.decoded.plan.planned_at
      → Kept policy t u
  unfolding write_intent inspect_durable_plan_state
  write_intent-Kept t signed e old =
      let (_, _, e1) = >>=-eq-ok (refuse (has_running_work t) _) _ e in
      let (staged, i, e2) = >>=-eq-ok (inspect_durable_plan_state store auth t signed) _ e1 in
      write_cohort-Kept t signed staged e2 (
        revalidate_candidates-Condemned policy t signed signed.decoded.candidates
          (inspect_durable_plan_state-valid t signed i) old)

  pub stage-Kept :
      (t : RetentionTables) (signed : DigestConfirmedRetentionPlan) (confirmed_digest : String)
      (now : ℕ) {u : RetentionTables}
      → stage store auth policy t signed confirmed_digest now ≡ ok u
      → Kept policy t u
  unfolding stage
  stage-Kept t signed confirmed_digest now e =
      let (_, v, e1) =
        >>=-eq-ok (validate_confirmation store auth policy signed confirmed_digest now) _ e in
      let (_, _, e2) = >>=-eq-ok (canonical_payload auth signed.decoded) _ e1 in
      write_intent-Kept t signed e2 (validate_confirmation-cutoff signed confirmed_digest now v)

  -- A candidate's tombstone that is read is in the table.
  pub candidate_tombstone-stored :
      (t : RetentionTables) (signed : DigestConfirmedRetentionPlan) (candidate : RetentionCandidate)
      {tombstone : StoredTombstone}
      → candidate_tombstone t signed candidate ≡ ok tombstone
      → any (is_tombstone_of candidate.metadata.digest) t.tombstones ≡ true
  unfolding candidate_tombstone
  candidate_tombstone-stored t signed candidate e =
      let (_, _, e1) = >>=-eq-ok (revalidate_candidate t signed.decoded candidate.metadata) _ e in
      let (row, f, _) =
        >>=-eq-ok
          (require_some
            (find (λ r. is_tombstone_of candidate.metadata.digest r && is_of_plan signed.digest r)
              t.tombstones)
            _)
          _ e1 in
      any_mono (λ r. is_tombstone_of candidate.metadata.digest r && is_of_plan signed.digest r)
        (is_tombstone_of candidate.metadata.digest) (λ r h. ground arith) t.tombstones
        (find-any _ t.tombstones row (require_some-eq _ _ f))

  -- Finalizing leaves the tables, or marks one tombstone.
  pub finalize_row-Kept :
      (t : RetentionTables) (objects : store.Objects) (signed : DigestConfirmedRetentionPlan)
      (candidate : RetentionCandidate) (deleted_at : ℕ) {done : Bool} {u : RetentionTables}
      → finalize_row store t objects signed candidate deleted_at ≡ ok (done, u)
      → Kept policy t u
  unfolding finalize_row
  finalize_row-Kept t objects signed candidate deleted_at e =
      let (_, _, e1) = >>=-eq-ok (refuse (ltb deleted_at signed.decoded.plan.planned_at) _) _ e in
      let (tombstone, _, e2) = >>=-eq-ok (candidate_tombstone t signed candidate) _ e1 in
      elim (Bool-cases (is_some tombstone.deleted_at)) [
        | inl b ↦
            let (_, _, e3) =
              >>=-eq-ok (require_finalized_chronology tombstone deleted_at) _ (rw b at e2) in
            let (_, _, e4) =
              >>=-eq-ok (require (store.verify_absent objects candidate.metadata) _) _ e3 in
            subst (Kept policy t) (ap (λ r. r.1) (ok-injective e4)) (Kept-refl policy t)
        | inr b ↦
            subst (Kept policy t) (ap (λ r. r.1) (ok-injective (rw b at e2)))
              (mark_deleted-Kept policy t candidate.metadata.digest signed.digest deleted_at)
      ]
