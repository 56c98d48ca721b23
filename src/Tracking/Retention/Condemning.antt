-- ===== src/Tracking/Retention/Condemning.antt =====
-- What the checks of tracking/retention.py establish of a candidate: its artifact may be condemned.
use signalattice.Prelude.{
  codes, >>=-eq-ok, find, find-In, ok, ltb, refuse, require, require_some, require_some-eq, ◌≡◌,
  ◌≤◌, ◌+◌, ◌||◌, All, List, [], arith, false, leb, map, ok-injective, refuse-false, subst, sym, ℕ,
  ◌∷◌, ==_iff, Bool, any, leb→le, length, require-true, true, ◌==◌,
}
use signalattice.Tracking.Retention.{
  ArtifactMetadata, RetentionPolicy, check_metadata, is_content_digest, is_media_type,
  max_artifact_bytes, same_codes, storage_key,
}
use signalattice.Tracking.Retention.Records.{
  DecodedRetentionPlan, DigestConfirmedRetentionPlan, RetentionCandidate, digests_of, same_metadata,
  total_bytes,
}
use signalattice.Tracking.Retention.Tables.{RetentionTables, has_digest}
use signalattice.Tracking.Retention.Planning.{cutoff_of, microseconds}
use signalattice.Tracking.Retention.Comparing.{revalidate_candidate, revalidate_candidates}
use signalattice.Tracking.Retention.Staging.{require_policy, tombstone_of}
use signalattice.Tracking.Retention.Evidence.{Condemned, or_false}

pub any_mono :
    {A : Type 0} (p q : A → Bool)
    → ((x : A) → p x ≡ true → q x ≡ true)
    → (xs : List A) → any p xs ≡ true
    → any q xs ≡ true
any_mono p q f [] h = h
any_mono p q f (x ∷ xs) h = ground (arith, f x, any_mono p q f xs)

pub check_metadata-same :
    (metadata : ArtifactMetadata) {checked : ArtifactMetadata}
    → check_metadata metadata ≡ ok checked
    → checked ≡ metadata
unfolding check_metadata
check_metadata-same m e =
    let (_, _, e1) = >>=-eq-ok (require (is_content_digest m.digest) _) _ e in
    let (_, _, e2) = >>=-eq-ok (require (leb m.byte_size max_artifact_bytes) _) _ e1 in
    let (_, _, e3) = >>=-eq-ok (require (is_media_type (codes m.media_type)) _) _ e2 in
    let (_, _, e4) =
      >>=-eq-ok (require (same_codes (codes m.storage_relpath) (storage_key (codes m.digest))) _) _
        e3 in
    sym (ok-injective e4)

pub le_of_not-ltb : (a b : ℕ) → ltb a b ≡ false → b ≤ a
le_of_not-ltb a b h = ground arith

module _ (policy : RetentionPolicy) where
  -- A candidate that is validated is an artifact that may be condemned.
  pub revalidate_candidate-Condemned :
      (t : RetentionTables) (signed : DigestConfirmedRetentionPlan) (metadata : ArtifactMetadata)
      → revalidate_candidate t signed.decoded metadata ≡ ok tt
      → signed.decoded.eligible_before + microseconds policy.grace_period_seconds
        ≤ signed.decoded.plan.planned_at
      → Condemned policy t.artifacts t.links (tombstone_of signed metadata.digest)
  unfolding revalidate_candidate
  revalidate_candidate-Condemned t signed metadata e old =
      let (row, f, e1) =
        >>=-eq-ok (require_some (find (has_digest metadata.digest) t.artifacts) _) _ e in
      let (current, c, e2) = >>=-eq-ok (check_metadata row) _ e1 in
      let (_, _, e3) = >>=-eq-ok (require (same_metadata current metadata) _) _ e2 in
      let (_, p, e4) =
        >>=-eq-ok
          (refuse (current.pinned || ltb signed.decoded.eligible_before current.created_at) _) _
          e3 in
      let (found, same) =
        find-In (has_digest metadata.digest) t.artifacts row (require_some-eq _ _ f) in
      let (unpinned, young) =
        or_false row.pinned (ltb signed.decoded.eligible_before row.created_at) (
          subst (λ m. (m.pinned || ltb signed.decoded.eligible_before m.created_at) ≡ false)
            (check_metadata-same row c) (refuse-false _ _ p)) in
      let within = le_of_not-ltb signed.decoded.eligible_before row.created_at young in
      record {
        row = row;
        registered = found;
        same = same;
        unpinned = unpinned;
        old = omega (arith, within, old);
        unlinked = refuse-false _ _ e4;
      }

  pub revalidate_candidates-Condemned :
      (t : RetentionTables) (signed : DigestConfirmedRetentionPlan)
      (candidates : List RetentionCandidate)
      → revalidate_candidates t signed.decoded candidates ≡ ok tt
      → signed.decoded.eligible_before + microseconds policy.grace_period_seconds
        ≤ signed.decoded.plan.planned_at
      → All
          (Condemned policy t.artifacts t.links)
          (map (tombstone_of signed) (digests_of candidates))
  unfolding revalidate_candidates
  revalidate_candidates-Condemned t signed [] e old = tt
  revalidate_candidates-Condemned t signed (candidate ∷ rest) e old =
      let (_, e1, e2) = >>=-eq-ok (revalidate_candidate t signed.decoded candidate.metadata) _ e in
      (
        revalidate_candidate-Condemned t signed candidate.metadata e1 old,
        revalidate_candidates-Condemned t signed rest e2 old,
      )

-- The cutoff of a plan lies the grace period before it.
pub require_policy-cutoff :
    (policy : RetentionPolicy) (decoded : DecodedRetentionPlan) {x : Unit {0}}
    → require_policy policy decoded ≡ ok x
    → decoded.eligible_before + microseconds policy.grace_period_seconds ≤ decoded.plan.planned_at
unfolding require_policy
require_policy-cutoff policy d e =
    let (_, _, e1) = >>=-eq-ok (refuse (ltb policy.max_candidates (length d.candidates)) _) _ e in
    let (_, _, e2) =
      >>=-eq-ok (refuse (ltb policy.max_total_bytes (total_bytes d.candidates)) _) _ e1 in
    let (_, g, e3) =
      >>=-eq-ok (require (leb (microseconds policy.grace_period_seconds) d.plan.planned_at) _) _
        e2 in
    let (_, c, _) =
      >>=-eq-ok (require (d.eligible_before == cutoff_of policy d.plan.planned_at) _) _ e3 in
    let long = leb→le _ _ (require-true _ _ g) in
    let cut = (==_iff _ _).0 (require-true _ _ c) in omega (arith, long, cut)
