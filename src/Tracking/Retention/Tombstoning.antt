-- ===== src/Tracking/Retention/Tombstoning.antt =====
-- The writes of tracking/retention.py to its tombstones keep the evidence.
use signalattice.Prelude.{
  subst, is_within, length, codes, is_none, >>=-eq-ok, All, List, String, any, ok, refuse, require,
  true, ◌≡◌, Bool-cases, [], arith, inl, inr, map, ok-injective, refl, sym, ℕ, ◌∷◌,
}
use signalattice.Tracking.Retention.{ArtifactMetadata, RetentionPolicy}
use signalattice.Tracking.Retention.Tables.{
  has_plan_digest, is_pending_of, RetentionTables, RunArtifact, StoredTombstone, has_digest,
  is_tombstone_of, finalized, insert_tombstone, insert_tombstones, mark_deleted,
}
use signalattice.Tracking.Retention.Evidence.{Condemned, Kept, Kept-refl, Kept-trans}

module _ (policy : RetentionPolicy) where
  insert_tombstone-Kept :
      (t : RetentionTables) (x : StoredTombstone) {u : RetentionTables}
      → insert_tombstone t x ≡ ok u
      → Condemned policy t.artifacts t.links x
      → (u ≡ record t { tombstones = x ∷ t.tombstones }) × Kept policy t u
  unfolding insert_tombstone
  insert_tombstone-Kept t x e c =
      let (_, _, e1) = >>=-eq-ok (require (is_none x.deleted_at) _) _ e in
      let (_, _, e2) =
        >>=-eq-ok (refuse (any (is_tombstone_of x.artifact_digest) t.tombstones) _) _ e1 in
      let (_, _, e3) =
        >>=-eq-ok (require (any (has_digest x.artifact_digest) t.artifacts) _) _ e2 in
      let (_, _, e4) = >>=-eq-ok (require (any (has_plan_digest x.plan_digest) t.plans) _) _ e3 in
      let (_, _, e5) = >>=-eq-ok (require (is_within 1 1024 (length (codes x.reason))) _) _ e4 in
      (
        sym (ok-injective e5),
        subst (Kept policy t) (ok-injective e5)
            (record { keys = λ digest h. ground (arith, h); condemned = λ h. (c, h) }),
      )

  pub insert_tombstones-Kept :
      (t : RetentionTables) (xs : List StoredTombstone) {u : RetentionTables}
      → insert_tombstones t xs ≡ ok u
      → All (Condemned policy t.artifacts t.links) xs
      → Kept policy t u
  unfolding insert_tombstones
  insert_tombstones-Kept t [] e h = subst (Kept policy t) (ok-injective e) (Kept-refl policy t)
  insert_tombstones-Kept t (x ∷ xs) e h =
      let (v, e1, e2) = >>=-eq-ok (insert_tombstone t x) _ e in
      let (new, first) = insert_tombstone-Kept t x e1 h.0 in
      Kept-trans policy first (
        insert_tombstones-Kept v xs e2
          (subst (λ w. All (Condemned policy w.artifacts w.links) xs) (sym new) h.1))

  -- Finalizing changes no digest.
  finalized-key :
      (digest plan_digest : String) (instant : ℕ) (x : StoredTombstone)
      → (finalized digest plan_digest instant x).artifact_digest ≡ x.artifact_digest
  finalized-key digest plan_digest instant x =
      elim (Bool-cases (is_pending_of digest plan_digest x)) [
        | inl b ↦ rw b refl
        | inr b ↦ rw b refl
      ]

  finalized-Condemned :
      (artifacts : List ArtifactMetadata) (links : List RunArtifact) (digest plan_digest : String)
      (instant : ℕ) (x : StoredTombstone)
      → Condemned policy artifacts links x
      → Condemned policy artifacts links (finalized digest plan_digest instant x)
  finalized-Condemned artifacts links digest plan_digest instant x c =
      elim (Bool-cases (is_pending_of digest plan_digest x)) [
        | inl b ↦ rw b (record {
          row = c.row;
          registered = c.registered;
          same = c.same;
          unpinned = c.unpinned;
          old = c.old;
          unlinked = c.unlinked;
        })
        | inr b ↦ rw b c
      ]

  pub mark_deleted-Kept :
      (t : RetentionTables) (digest plan_digest : String) (instant : ℕ)
      → Kept policy t (mark_deleted t digest plan_digest instant)
  mark_deleted-Kept t digest plan_digest instant = record {
    keys = keep t.tombstones;
    condemned = condemn t.tombstones;
  }
    where
      keep :
          (xs : List StoredTombstone) (d : String)
          → any (is_tombstone_of d) xs ≡ true
          → any (is_tombstone_of d) (map (finalized digest plan_digest instant) xs) ≡ true
      keep [] d h = h
      keep (x ∷ xs) d h =
          rw (finalized-key digest plan_digest instant x) (ground (arith, h, keep xs d))

      condemn :
          (xs : List StoredTombstone)
          → All (Condemned policy t.artifacts t.links) xs
          → All
              (Condemned policy t.artifacts t.links)
              (map (finalized digest plan_digest instant) xs)
      condemn [] h = tt
      condemn (x ∷ xs) h =
          (finalized-Condemned t.artifacts t.links digest plan_digest instant x h.0, condemn xs h.1)
