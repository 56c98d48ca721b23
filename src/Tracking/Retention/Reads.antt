-- ===== src/Tracking/Retention/Reads.antt =====
-- What the reads of an intent in tracking/retention.py establish of the tables and the store.
use signalattice.Tracking.Retention.Executing.{
  read_cohort, require_finalized_chronology, verify_finalized_tombstone,
}
use signalattice.Tracking.Retention.Runs.{Run, World, continue, reads, return, sample, ◌>>=◌, ◌>>◌}
use mathlib.Core.Bool.{true≢false}
use signalattice.Prelude.{
  >>=-eq-ok, ◌+◌, Result, ap, err, find, leb, ok, refl, some, true, ℕ, ◌≡◌, Bool, arith, is_some,
  require-true, require_some, require_some-eq, subst, sym, ◌&&◌, ◌∙◌, false, if◌then◌else◌,
  ok-injective, All, List, String, [], is_empty, ◌∷◌,
}
use signalattice.Tracking.Retention.{RetentionError}
use signalattice.Tracking.Retention.Records.{DigestConfirmedRetentionPlan, RetentionCandidate}
use signalattice.Tracking.Retention.Authority.{ArtifactStore, Authority}
use signalattice.Tracking.Retention.Tables.{RetentionTables, StoredTombstone}
use signalattice.Tracking.Retention.Comparing.{require_exact_tombstone}
use signalattice.Tracking.Retention.Intents.{
  RetentionIntent, candidate_by_digest, read_intent, read_tombstone, split_tombstones, with_digest,
  is_candidate,
}

both_true : (a b : Bool) → (a && b) ≡ true → (a ≡ true) × (b ≡ true)
both_true a b h = ground arith

-- A chain that returned ran its first step, and the rest in the world that this left.
pub continue-ok :
    {Objects A B : Type 0} (first : World Objects × Result RetentionError A)
    (rest : A → Run Objects B) {v : World Objects} {b : B}
    → continue first rest ≡ (v, ok b)
    → (u : World Objects) × (a : A) × (first ≡ (u, ok a)) × (rest a u ≡ (v, ok b))
continue-ok (u, ok a) rest e = (u, a, refl, e)
continue-ok (u, err x) rest e = cc

-- A check that returned left the world.
pub reads-ok :
    {Objects A : Type 0} (check : RetentionTables → Objects → Result RetentionError A)
    (w : World Objects) {u : World Objects} {a : A}
    → reads check w ≡ (u, ok a)
    → (w ≡ u) × (check w.tables w.objects ≡ ok a)
reads-ok check w e = (ap (λ r. r.0) e, ap (λ r. r.1) e)

module _ (store : ArtifactStore) (auth : Authority) where
  -- The tombstone is finalized at an instant that is not before its plan, and the store proves that
  -- the object of the candidate with its digest is absent.
  pub record Deleted (signed : DigestConfirmedRetentionPlan) (objects : store.Objects)
      (x : StoredTombstone) : Type 0 where
    pub candidate : RetentionCandidate
    pub deleted_at : ℕ
    pub found : find (is_candidate x.artifact_digest) signed.decoded.candidates ≡ some candidate
    pub finalized : x.deleted_at ≡ some deleted_at
    pub ordered : leb x.planned_at deleted_at ≡ true
    pub absent : store.verify_absent objects candidate.metadata ≡ true

  -- The tables and the objects of a world.
  abbrev pub Same : World store.Objects → World store.Objects → Type 0
  Same w u = (w.tables ≡ u.tables) × (w.objects ≡ u.objects)

  -- What the check of a finalized tombstone establishes.
  pub finalized-Deleted :
      (signed : DigestConfirmedRetentionPlan) (objects : store.Objects) (x : StoredTombstone)
      (candidate : RetentionCandidate) (now : ℕ) {r : Unit {0}}
      → find (is_candidate x.artifact_digest) signed.decoded.candidates ≡ some candidate
      → verify_finalized_tombstone store objects x candidate.metadata now ≡ ok r
      → Deleted signed objects x
  unfolding verify_finalized_tombstone require_finalized_chronology
  finalized-Deleted signed objects x candidate now f v =
      let (_, c, v1) = >>=-eq-ok (require_finalized_chronology x now) _ v in
      let (deleted_at, d, c1) = >>=-eq-ok (require_some x.deleted_at _) _ c in
      record {
        candidate = candidate;
        deleted_at = deleted_at;
        found = f;
        finalized = require_some-eq _ _ d;
        ordered = (both_true _ _ (require-true _ _ c1)).0;
        absent = require-true _ _ v1;
      }

  read_tombstone-Deleted :
      (signed : DigestConfirmedRetentionPlan) (x : StoredTombstone) (w u : World store.Objects)
      {done : Bool}
      → read_tombstone store auth signed x w ≡ (u, ok done)
      → Same w u × (done ≡ true → Deleted signed w.objects x)
  unfolding read_tombstone
  read_tombstone-Deleted signed x w u {done} e =
      let (w1, _, a, e1) =
        continue-ok (reads (λ t objects. require_exact_tombstone x signed) w) _ e in
      let (s1, _) = reads-ok (λ t objects. require_exact_tombstone x signed) w a in
      go w1 (is_some x.deleted_at) s1 e1
    where
      go :
          (w1 : World store.Objects) (b : Bool)
          → w ≡ w1
          → (if b
                then (do
                  candidate ← reads (λ t objects. candidate_by_digest signed x.artifact_digest)
                  now ← sample
                  reads (λ t objects.
                      verify_finalized_tombstone store objects x candidate.metadata now)
                  return true)
                else return false)
              w1
            ≡ (u, ok done)
          → Same w u × (done ≡ true → Deleted signed w.objects x)
      go w1 true s e1 =
          let (w2, candidate, a, e2) =
            continue-ok (reads (λ t objects. candidate_by_digest signed x.artifact_digest) w1) _
              e1 in
          let (s2, f) = reads-ok (λ t objects. candidate_by_digest signed x.artifact_digest) w1 a in
          let now = w2.instants w2.samples in
          let w3 = record w2 { samples = w2.samples + 1 } in
          let (w4, _, v, e3) =
            continue-ok
              (reads
                (λ t objects. verify_finalized_tombstone store objects x candidate.metadata now) w3)
              _ e2 in
          let (s4, c) =
            reads-ok
              (λ t objects. verify_finalized_tombstone store objects x candidate.metadata now) w3
              v in
          (
            (
              ap (λ r. r.tables) (s ∙ s2) ∙ ap (λ r. r.tables) s4 ∙ ap (λ r. r.0.tables) e3,
              ap (λ r. r.objects) (s ∙ s2) ∙ ap (λ r. r.objects) s4 ∙ ap (λ r. r.0.objects) e3,
            ),
            λ _. finalized-Deleted signed w.objects x candidate now (require_some-eq _ _ f) (
                subst (λ o. verify_finalized_tombstone store o x candidate.metadata now ≡ ok _)
                  (sym (ap (λ r. r.objects) (s ∙ s2))) c),
          )
      go w1 false s e1 = (
        (
          ap (λ r. r.tables) s ∙ ap (λ r. r.0.tables) e1,
          ap (λ r. r.objects) s ∙ ap (λ r. r.0.objects) e1,
        ),
        λ h. absurd (true≢false (sym (ok-injective (ap (λ r. r.1) e1) ∙ h))),
      )

  -- An intent with nothing pending, with one digest more that is not pending either.
  nothing_pending :
      (done : Bool) (digest : String) (intent : RetentionIntent)
      → is_empty (with_digest done digest intent).pending_digests ≡ true
      → (done ≡ true) × (is_empty intent.pending_digests ≡ true)
  nothing_pending true digest intent h = (refl, h)
  nothing_pending false digest intent h = cc

  split_tombstones-Deleted :
      (signed : DigestConfirmedRetentionPlan) (xs : List StoredTombstone)
      (w u : World store.Objects) {intent : RetentionIntent}
      → split_tombstones store auth signed xs w ≡ (u, ok intent)
      → Same w u × (is_empty intent.pending_digests ≡ true → All (Deleted signed w.objects) xs)
  unfolding split_tombstones
  split_tombstones-Deleted signed [] w u e =
      ((ap (λ r. r.0.tables) e, ap (λ r. r.0.objects) e), λ h. tt)
  split_tombstones-Deleted signed (x ∷ xs) w u e =
      let (w1, done, a, e1) = continue-ok (read_tombstone store auth signed x w) _ e in
      let (w2, rest, b, e2) = continue-ok (split_tombstones store auth signed xs w1) _ e1 in
      let (s1, d) = read_tombstone-Deleted signed x w w1 a in
      let (s2, ds) = split_tombstones-Deleted signed xs w1 w2 b in
      (
        (s1.0 ∙ s2.0 ∙ ap (λ r. r.0.tables) e2, s1.1 ∙ s2.1 ∙ ap (λ r. r.0.objects) e2),
        λ h.
            let (yes_done, empty) =
              nothing_pending done x.artifact_digest rest
                (ap (λ i. is_empty i.pending_digests) (ok-injective (ap (λ r. r.1) e2)) ∙ h) in
            (d yes_done, subst (λ o. All (Deleted signed o) xs) (sym s1.1) (ds empty)),
      )

  -- Every tombstone of the plan that is stored is that of a deleted object.
  pub record AllDeleted (signed : DigestConfirmedRetentionPlan) (w : World store.Objects)
      : Type 0 where
    pub cohort : List StoredTombstone
    pub read : read_cohort w.tables signed ≡ ok cohort
    pub deleted : All (Deleted signed w.objects) cohort

  pub read_intent-AllDeleted :
      (signed : DigestConfirmedRetentionPlan) (w u : World store.Objects) {intent : RetentionIntent}
      → read_intent store auth signed w ≡ (u, ok intent)
      → Same w u × (is_empty intent.pending_digests ≡ true → AllDeleted signed w)
  unfolding read_intent
  read_intent-AllDeleted signed w u e =
      let (w1, cohort, a, e1) = continue-ok (reads (λ t objects. read_cohort t signed) w) _ e in
      let (s1, r) = reads-ok (λ t objects. read_cohort t signed) w a in
      let (s2, ds) = split_tombstones-Deleted signed cohort w1 u e1 in
      (
        (ap (λ r. r.tables) s1 ∙ s2.0, ap (λ r. r.objects) s1 ∙ s2.1),
        λ h. record {
          cohort = cohort;
          read = r;
          deleted = subst (λ v. All (Deleted signed v.objects) cohort) (sym s1) (ds h);
        },
      )
