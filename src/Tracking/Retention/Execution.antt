-- ===== src/Tracking/Retention/Execution.antt =====
-- `execute` of tracking/retention.py, by one caller.
use signalattice.Tracking.Retention.Runs.{
  Run, World, attempt, reads, return, sample, writes, ◌>>=◌, ◌>>◌,
}
use signalattice.Prelude.{
  Bool, List, Option, Result, String, [], any, err, false, filter, if◌then◌else◌, is_empty, is_some,
  ltb, none, not, refuse, require, some, str_eq, true, ℕ, ◌+◌, ◌∷◌,
}
use signalattice.Tracking.Retention.{
  ArtifactMetadata, RetentionError, RetentionPolicy, drift_error, integrity_error, partial_failure,
  store_error,
}
use signalattice.Tracking.Retention.Records.{DigestConfirmedRetentionPlan, RetentionCandidate}
use signalattice.Tracking.Retention.Authority.{ArtifactStore, Authority}
use signalattice.Tracking.Retention.Comparing.{inspect_idle}
use signalattice.Tracking.Retention.Staging.{stage, validate_confirmation}
use signalattice.Tracking.Retention.Executing.{
  candidate_tombstone, committed, finalize_row, inspect_candidate_generation,
  verify_finalized_tombstone,
}
use signalattice.Tracking.Retention.Intents.{
  RetentionIntent, candidate_by_digest, load_plan, read_intent,
}

pub record RetentionExecution : Type 0 where
  pub newly_deleted_digests : List String
  pub previously_deleted_digests : List String
  pub deleted_bytes : ℕ
  pub executed_at : ℕ

abbrev pub is_listed : String → List String → Bool
is_listed digest digests = any (str_eq digest) digests

abbrev pub bytes_of : List RetentionCandidate → List String → ℕ
bytes_of [] digests = 0
bytes_of (candidate ∷ rest) digests =
    if is_listed candidate.metadata.digest digests
    then candidate.metadata.byte_size + bytes_of rest digests
    else bytes_of rest digests

-- An ArtifactStoreError becomes a RetentionDriftError.
abbrev pub as_drift : RetentionError → RetentionError
as_drift store_error = drift_error
as_drift e = e

module _ (store : ArtifactStore) (auth : Authority) where
  -- `_preflight_new_intent` at the instant of the confirmation.
  unfoldable pub inspect_new_candidates :
      DigestConfirmedRetentionPlan → List RetentionCandidate → Run store.Objects (Unit {0})
  unfolding inspect_candidate_generation
  inspect_new_candidates signed [] = return tt
  inspect_new_candidates signed (candidate ∷ rest) = do
    attempt (reads (λ t objects. inspect_candidate_generation store objects signed candidate))
        (λ e. reads (λ t objects. err (as_drift e)))
    inspect_new_candidates signed rest

  -- `_preflight_new_intent`.
  unfoldable pub preflight_new_intent :
      RetentionPolicy → DigestConfirmedRetentionPlan → String → ℕ → Run store.Objects (Unit {0})
  unfolding inspect_new_candidates
  preflight_new_intent policy signed confirmed_digest now = do
    reads (λ t objects. validate_confirmation store auth policy signed confirmed_digest now)
    reads (λ t objects. inspect_idle store auth t signed) >>= λ staged.
        if staged then return tt else inspect_new_candidates signed signed.decoded.candidates

  -- `_stage`, with the intent that it reads back.
  unfoldable pub stage_intent :
      RetentionPolicy
      → DigestConfirmedRetentionPlan
      → String
      → ℕ
      → Run store.Objects RetentionIntent
  unfolding read_intent
  stage_intent policy signed confirmed_digest now = do
    writes (λ t objects. committed (stage store auth policy t signed confirmed_digest now))
    read_intent store auth signed

  -- `_candidate_is_finalized`.
  unfoldable pub candidate_is_finalized :
      DigestConfirmedRetentionPlan → RetentionCandidate → Run store.Objects Bool
  unfolding candidate_tombstone verify_finalized_tombstone
  candidate_is_finalized signed candidate = do
    tombstone ← reads (λ t objects. candidate_tombstone t signed candidate)
    if is_some tombstone.deleted_at
        then (do
          now ← sample
          reads (λ t objects.
              verify_finalized_tombstone store objects tombstone candidate.metadata now)
          return true)
        else return false

  -- `_verify_finalized_candidate` of every finalized candidate.
  unfoldable pub verify_finalized_candidates :
      DigestConfirmedRetentionPlan → List String → Run store.Objects (Unit {0})
  unfolding candidate_is_finalized
  verify_finalized_candidates signed [] = return tt
  verify_finalized_candidates signed (digest ∷ rest) = do
    candidate ← reads (λ t objects. candidate_by_digest signed digest)
    done ← candidate_is_finalized signed candidate
    reads (λ t objects. require done drift_error)
    verify_finalized_candidates signed rest

  -- `RetentionPartialFailure` of the intent that is read after the failure.
  abbrev pub partial_of : RetentionIntent → RetentionError
  partial_of intent = partial_failure intent.finalized_digests intent.pending_digests

  -- The inspection of every pending candidate before the first unlink.
  unfoldable pub inspect_pending :
      DigestConfirmedRetentionPlan → List String → Run store.Objects (Unit {0})
  unfolding read_intent
  inspect_pending signed [] = return tt
  inspect_pending signed (digest ∷ rest) = do
    candidate ← reads (λ t objects. candidate_by_digest signed digest)
    attempt (reads (λ t objects. inspect_candidate_generation store objects signed candidate)) (λ e.
        (do
          current ← read_intent store auth signed
          if is_listed digest current.finalized_digests
              then return tt
              else reads (λ t objects. err (partial_of current))))
    inspect_pending signed rest

  -- `unlink_verified`: it may raise after it has unlinked.
  abbrev pub unlink : ArtifactMetadata → String → Run store.Objects (Unit {0})
  unlink metadata generation w = unlinked (store.unlink_verified w.objects metadata generation)
    where
      unlinked : store.Objects × Bool → World store.Objects × Result RetentionError (Unit {0})
      unlinked (after, returned) = (record w { objects = after }, require returned store_error)

  -- `_finalize_candidate`: whether the call finalized the tombstone.
  unfoldable pub finalize_candidate :
      DigestConfirmedRetentionPlan → RetentionCandidate → Run store.Objects Bool
  unfolding candidate_is_finalized inspect_candidate_generation finalize_row
  finalize_candidate signed candidate = do
    done ← candidate_is_finalized signed candidate
    if done then return false else (do
      reads (λ t objects. inspect_candidate_generation store objects signed candidate)
      before_unlink ← sample
      reads (λ t objects. refuse (ltb before_unlink signed.decoded.plan.planned_at) integrity_error)
      unlink candidate.metadata candidate.generation
      deleted_at ← sample
      writes (λ t objects. finalize_row store t objects signed candidate deleted_at))

  -- What the loop of `execute` does after a candidate: `none` where it breaks.
  abbrev pub go_on :
      String → Option Bool → Run store.Objects (List String) → Run store.Objects (List String)
  go_on digest none later = return []
  go_on digest (some deleted) later = do
    digests ← later
    return (if deleted then digest ∷ digests else digests)

  -- The loop of `execute` over the pending candidates: the digests that it deletes.
  unfoldable pub finalize_pending :
      DigestConfirmedRetentionPlan → List String → Run store.Objects (List String)
  unfolding finalize_candidate read_intent
  finalize_pending signed [] = return []
  finalize_pending signed (digest ∷ rest) =
      let later = finalize_pending signed rest in
      (do
        candidate ← reads (λ t objects. candidate_by_digest signed digest)
        outcome ←
            attempt (do deleted ← finalize_candidate signed candidate; return (some deleted))
              (λ e. (do
                current ← read_intent store auth signed
                if is_empty current.pending_digests
                    then return none
                    else reads (λ t objects. err (partial_of current))))
        go_on digest outcome later)

  -- `RetentionExecution`, of the digests that are deleted and those that were.
  abbrev pub execution_of :
      DigestConfirmedRetentionPlan → List String → RetentionIntent → ℕ → RetentionExecution
  execution_of signed newly final now = record {
    newly_deleted_digests = newly;
    previously_deleted_digests =
        filter (λ digest. not (is_listed digest newly)) final.finalized_digests;
    deleted_bytes = bytes_of signed.decoded.candidates newly;
    executed_at = now;
  }

  -- `execute`. The digests of an intent are in order, so sorting them again changes nothing.
  unfoldable pub execute :
      RetentionPolicy → DigestConfirmedRetentionPlan → String → Run store.Objects RetentionExecution
  unfolding preflight_new_intent stage_intent verify_finalized_candidates inspect_pending
      finalize_pending read_intent
  execute policy signed confirmed_digest = do
    now ← sample
    preflight_new_intent policy signed confirmed_digest now
    intent ← stage_intent policy signed confirmed_digest now
    verify_finalized_candidates signed intent.finalized_digests
    inspect_pending signed intent.pending_digests
    newly ← finalize_pending signed intent.pending_digests
    final ← read_intent store auth signed
    reads (λ t objects. require (is_empty final.pending_digests) (partial_of final))
    executed_at ← sample
    reads (λ t objects. refuse (ltb executed_at signed.decoded.plan.planned_at) integrity_error)
    return (execution_of signed newly final executed_at)

  -- `resume`.
  unfoldable pub resume : RetentionPolicy → String → String → Run store.Objects RetentionExecution
  unfolding load_plan execute
  resume policy plan_digest confirmed_digest = do
    signed ← load_plan store auth plan_digest
    execute policy signed confirmed_digest
