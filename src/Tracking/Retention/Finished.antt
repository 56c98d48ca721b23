-- ===== src/Tracking/Retention/Finished.antt =====
-- What holds when `execute` of tracking/retention.py returns.
use signalattice.Tracking.Retention.Executing.{read_cohort}
use signalattice.Tracking.Retention.Runs.{World, reads, return, sample, ◌>>=◌, ◌>>◌}
use signalattice.Prelude.{
  refuse, ltb, ◌+◌, ap, ok, ◌≡◌, require-true, subst, ◌∙◌, All, List, String, is_empty, require,
}
use signalattice.Tracking.Retention.{RetentionPolicy, integrity_error}
use signalattice.Tracking.Retention.Records.{DigestConfirmedRetentionPlan}
use signalattice.Tracking.Retention.Authority.{ArtifactStore, Authority}
use signalattice.Tracking.Retention.Tables.{StoredTombstone}
use signalattice.Tracking.Retention.Intents.{read_intent}
use signalattice.Tracking.Retention.Execution.{
  RetentionExecution, execute, execution_of, finalize_pending, inspect_pending, partial_of,
  preflight_new_intent, stage_intent, verify_finalized_candidates,
}
use signalattice.Tracking.Retention.Reads.{Deleted, continue-ok, read_intent-AllDeleted, reads-ok}

module _ (store : ArtifactStore) (auth : Authority) where
  -- An execution that returns has deleted the whole plan: the tombstones that are stored of it are
  -- of the plan's digests, each finalized at an instant not before the plan was made, and the store
  -- proves the object of each absent.
  pub execute-AllDeleted :
      (policy : RetentionPolicy) (signed : DigestConfirmedRetentionPlan) (confirmed_digest : String)
      (w u : World store.Objects) (execution : RetentionExecution)
      → execute store auth policy signed confirmed_digest w ≡ (u, ok execution)
      → (cohort : List StoredTombstone) × (read_cohort u.tables signed ≡ ok cohort)
        × All (Deleted store auth signed u.objects) cohort
  unfolding execute
  execute-AllDeleted policy signed confirmed w u execution e =
      let now = w.instants w.samples in
      let w0 = record w { samples = w.samples + 1 } in
      let (w1, _, _, e1) =
        continue-ok (preflight_new_intent store auth policy signed confirmed now w0) _ e in
      let (w2, intent, _, e2) =
        continue-ok (stage_intent store auth policy signed confirmed now w1) _ e1 in
      let (w3, _, _, e3) =
        continue-ok (verify_finalized_candidates store auth signed intent.finalized_digests w2) _
          e2 in
      let (w4, _, _, e4) =
        continue-ok (inspect_pending store auth signed intent.pending_digests w3) _ e3 in
      let (w5, newly, _, e5) =
        continue-ok (finalize_pending store auth signed intent.pending_digests w4) _ e4 in
      finished w5 newly e5
    where
      finished :
          (v : World store.Objects) (newly : List String)
          → (do
            final ← read_intent store auth signed
            reads (λ t objects.
                require (is_empty final.pending_digests) (partial_of store auth final))
            executed_at ← sample
            reads (λ t objects.
                refuse (ltb executed_at signed.decoded.plan.planned_at) integrity_error)
            return (execution_of store auth signed newly final executed_at))
              v
            ≡ (u, ok execution)
          → (cohort : List StoredTombstone) × (read_cohort u.tables signed ≡ ok cohort)
            × All (Deleted store auth signed u.objects) cohort
      finished v newly e =
          let (v1, final, a, e1) = continue-ok (read_intent store auth signed v) _ e in
          let (s1, d) = read_intent-AllDeleted store auth signed v v1 a in
          let (v2, _, b, e2) =
            continue-ok
              (reads
                (λ t objects.
                  require (is_empty final.pending_digests) (partial_of store auth final))
                v1)
              _ e1 in
          let (s2, none_left) =
            reads-ok
              (λ t objects. require (is_empty final.pending_digests) (partial_of store auth final))
              v1 b in
          let v3 = record v2 { samples = v2.samples + 1 } in
          let late = ltb (v2.instants v2.samples) signed.decoded.plan.planned_at in
          let (v4, _, c, e3) =
            continue-ok (reads (λ t objects. refuse late integrity_error) v3) _ e2 in
          let (s4, _) = reads-ok (λ t objects. refuse late integrity_error) v3 c in
          let k = d (require-true _ _ none_left) in
          let tables =
            s1.0 ∙ ap (λ r. r.tables) s2 ∙ ap (λ r. r.tables) s4 ∙ ap (λ r. r.0.tables) e3 in
          let objects =
            s1.1 ∙ ap (λ r. r.objects) s2 ∙ ap (λ r. r.objects) s4 ∙ ap (λ r. r.0.objects) e3 in
          (
            k.cohort,
            subst (λ t. read_cohort t signed ≡ ok k.cohort) tables k.read,
            subst (λ o. All (Deleted store auth signed o) k.cohort) objects k.deleted,
          )
