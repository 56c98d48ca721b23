-- ===== src/Tracking/Retention/Deletions.antt =====
-- What tracking/retention.py deletes, however its callers interleave with the others of the registry
-- and of the store.
use signalattice.Prelude.{
  All-lookup, All, All-map, Bool, In, List, String, any, false, inl, inr, refl, subst, sym, true,
  ◌+◌, ◌∷◌, ◌≡◌, ◌≤◌, ◌∙◌, eq_iff, Bool-cases, [],
}
use signalattice.Tracking.Retention.{ArtifactMetadata, RetentionPolicy}
use signalattice.Tracking.Retention.Records.{DigestConfirmedRetentionPlan, RetentionCandidate}
use signalattice.Tracking.Retention.Authority.{ArtifactStore, Authority}
use signalattice.Tracking.Retention.Tables.{
  RetentionTables, StoredTombstone, is_link_to, is_tombstone_of,
}
use signalattice.Tracking.Retention.Planning.{microseconds}
use signalattice.Tracking.Retention.Evidence.{
  AllCondemned, Condemned, Kept, link_artifacts-Kept, register_artifact-Kept,
}
use signalattice.Tracking.Retention.Transactions.{
  candidate_tombstone-stored, finalize_row-Kept, stage-Kept,
}
use signalattice.Tracking.Retention.Interleaving.{
  Step, Steps, System, finalizes, here, initial, links, next, registers, stages, starts, stores,
  unlinks, works,
}

any-In :
    {A : Type 0} (p : A → Bool) (xs : List A) → any p xs ≡ true → (x : A) × In x xs × (p x ≡ true)
any-In p [] h = cc
any-In p (x ∷ xs) h = elim (Bool-cases (p x)) [
  | inl b ↦ (x, inl refl, b)
  | inr b ↦ let (y, i, q) = any-In p xs (rw b at h) in (y, inr i, q)
]

module _ (store : ArtifactStore) (auth : Authority) (policy : RetentionPolicy) where
  abbrev HasTombstone : RetentionTables → String → Type 0
  HasTombstone t digest = any (is_tombstone_of digest) t.tombstones ≡ true

  abbrev Started : RetentionTables → DigestConfirmedRetentionPlan × RetentionCandidate → Type 0
  Started t (signed, candidate) = HasTombstone t candidate.metadata.digest

  -- Whatever a deletion has started on, or has unlinked, has a tombstone, and is condemned.
  record IsSound (s : System store auth policy) : Type 0 where
    condemned : AllCondemned policy s.tables
    started : All (Started s.tables) s.deleting
    gone : All (HasTombstone s.tables) s.unlinked

  -- A write that keeps the tombstones keeps the state sound.
  IsSound-write :
      (s : System store auth policy) (t : RetentionTables)
      → Kept policy s.tables t
      → IsSound s
      → IsSound (record s { tables = t })
  IsSound-write s t k h = record {
    condemned = k.condemned h.condemned;
    started =
        All-map (Started s.tables) (Started t) (λ x. k.keys x.1.metadata.digest) s.deleting
          h.started;
    gone = All-map (HasTombstone s.tables) (HasTombstone t) k.keys s.unlinked h.gone;
  }

  Step-IsSound :
      {s u : System store auth policy} → Step store auth policy s u → IsSound s → IsSound u
  Step-IsSound {s} (registers metadata row t e same) h =
      subst IsSound (sym same)
        (IsSound-write s t (register_artifact-Kept policy s.tables metadata e) h)
  Step-IsSound {s} (links preflighted rows t e same) h =
      subst IsSound (sym same)
        (IsSound-write s t (link_artifacts-Kept policy s.tables preflighted rows e) h)
  Step-IsSound {s} (works jobs same) h =
      subst IsSound (sym same)
        (record { condemned = h.condemned; started = h.started; gone = h.gone })
  Step-IsSound {s} (stores objects same) h =
      subst IsSound (sym same)
        (record { condemned = h.condemned; started = h.started; gone = h.gone })
  Step-IsSound {s} (stages signed confirmed now t e same) h =
      subst IsSound (sym same)
        (IsSound-write s t (stage-Kept store auth policy s.tables signed confirmed now e) h)
  Step-IsSound {s} (starts signed candidate tombstone e pending same) h =
      subst IsSound (sym same) (record {
        condemned = h.condemned;
        started =
            (candidate_tombstone-stored store auth policy s.tables signed candidate e, h.started);
        gone = h.gone;
      })
  Step-IsSound {s} (unlinks signed candidate i same) h = subst IsSound (sym same) (record {
    condemned = h.condemned;
    started = h.started;
    gone = (All-lookup (Started s.tables) s.deleting (signed, candidate) h.started i, h.gone);
  })
  Step-IsSound {s} (finalizes signed candidate deleted_at done t i e same) h =
      subst IsSound (sym same) (
        IsSound-write s t
          (finalize_row-Kept store auth policy s.tables s.objects signed candidate deleted_at e) h)

  Steps-IsSound :
      {s u : System store auth policy} → Steps store auth policy s u → IsSound s → IsSound u
  Steps-IsSound here h = h
  Steps-IsSound (next steps step) h = Step-IsSound step (Steps-IsSound steps h)

  -- However the callers interleave from empty tables, whatever the store answers and whatever the
  -- instants, an object that a deletion has ever unlinked is that of a registered artifact with a
  -- tombstone, which is not pinned, was registered at least the grace period before its plan was
  -- made, and is linked to no run, then and ever after.
  pub unlinked_for_good :
      (objects : store.Objects) {s : System store auth policy}
      → Steps store auth policy (initial store auth policy objects) s
      → (digest : String) → In digest s.unlinked
      → (tombstone : StoredTombstone) × (row : ArtifactMetadata) × In tombstone s.tables.tombstones
        × In row s.tables.artifacts
        × (tombstone.artifact_digest ≡ digest)
        × (row.digest ≡ digest)
        × (row.pinned ≡ false)
        × (row.created_at + microseconds policy.grace_period_seconds ≤ tombstone.planned_at)
        × (any (is_link_to digest) s.tables.links ≡ false)
  unlinked_for_good objects {s} steps digest i =
      let sound = Steps-IsSound steps (record { condemned = tt; started = tt; gone = tt }) in
      let (x, stored, same) =
        any-In (is_tombstone_of digest) s.tables.tombstones
          (All-lookup (HasTombstone s.tables) s.unlinked digest sound.gone i) in
      let c =
        All-lookup (Condemned policy s.tables.artifacts s.tables.links) s.tables.tombstones x
          sound.condemned stored in
      let mine = (eq_iff x.artifact_digest digest).0 same in
      (
        x,
        c.row,
        stored,
        c.registered,
        mine,
        (eq_iff c.row.digest x.artifact_digest).0 c.same ∙ mine,
        c.unpinned,
        c.old,
        subst (λ d. any (is_link_to d) s.tables.links ≡ false) mine c.unlinked,
      )
