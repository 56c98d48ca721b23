-- ===== src/Tracking/Retention/Intents.antt =====
-- What tracking/retention.py reads of a staged plan: its envelope, and which of its candidates are
-- pending and which are finalized.
use signalattice.Tracking.Retention.Runs.{Run, reads, return, sample, ◌>>=◌, ◌>>◌}
use signalattice.Prelude.{
  str_eq, Bool, List, Result, String, [], false, find, if◌then◌else◌, is_some, require,
  require_some, true, ◌∷◌,
}
use signalattice.Tracking.Retention.{
  RetentionError, drift_error, is_content_digest, validation_error,
}
use signalattice.Tracking.Retention.Records.{DigestConfirmedRetentionPlan, RetentionCandidate}
use signalattice.Tracking.Retention.Authority.{ArtifactStore, Authority}
use signalattice.Tracking.Retention.Tables.{StoredTombstone}
use signalattice.Tracking.Retention.Comparing.{require_exact_tombstone, stored_plan}
use signalattice.Tracking.Retention.Executing.{read_cohort, verify_finalized_tombstone}

pub record RetentionIntent : Type 0 where
  pub pending_digests : List String
  pub finalized_digests : List String

abbrev pub is_candidate : String → RetentionCandidate → Bool
is_candidate digest candidate = str_eq candidate.metadata.digest digest

-- `candidates_by_digest[digest]`: a KeyError stands as a drift.
abbrev pub candidate_by_digest :
    DigestConfirmedRetentionPlan → String → Result RetentionError RetentionCandidate
candidate_by_digest signed digest =
    require_some (find (is_candidate digest) signed.decoded.candidates) drift_error

abbrev pub with_digest : Bool → String → RetentionIntent → RetentionIntent
with_digest true digest intent = record intent {
  finalized_digests = digest ∷ intent.finalized_digests;
}
with_digest false digest intent = record intent {
  pending_digests = digest ∷ intent.pending_digests;
}

module _ (store : ArtifactStore) (auth : Authority) where
  -- The body of the loop of `_read_intent`: whether the tombstone is finalized.
  unfoldable pub read_tombstone :
      DigestConfirmedRetentionPlan → StoredTombstone → Run store.Objects Bool
  unfolding verify_finalized_tombstone
  read_tombstone signed tombstone = do
    reads (λ t objects. require_exact_tombstone tombstone signed)
    if is_some tombstone.deleted_at
        then (do
          candidate ← reads (λ t objects. candidate_by_digest signed tombstone.artifact_digest)
          now ← sample
          reads (λ t objects.
              verify_finalized_tombstone store objects tombstone candidate.metadata now)
          return true)
        else return false

  -- The loop of `_read_intent` over the tombstones of the plan.
  unfoldable pub split_tombstones :
      DigestConfirmedRetentionPlan → List StoredTombstone → Run store.Objects RetentionIntent
  unfolding read_tombstone
  split_tombstones signed [] = return (record { pending_digests = []; finalized_digests = [] })
  split_tombstones signed (tombstone ∷ rest) =
      let others = split_tombstones signed rest in
      (do
        done ← read_tombstone signed tombstone
        intent ← others
        return (with_digest done tombstone.artifact_digest intent))

  -- `_read_intent`.
  unfoldable pub read_intent : DigestConfirmedRetentionPlan → Run store.Objects RetentionIntent
  unfolding split_tombstones
  read_intent signed = do
    cohort ← reads (λ t objects. read_cohort t signed)
    split_tombstones signed cohort

  -- `load_plan`.
  unfoldable pub load_plan : String → Run store.Objects DigestConfirmedRetentionPlan
  unfolding read_intent
  load_plan plan_digest = do
    reads (λ t objects. require (is_content_digest plan_digest) validation_error)
    signed ← reads (λ t objects. stored_plan store auth t plan_digest)
    read_intent signed
    return signed
