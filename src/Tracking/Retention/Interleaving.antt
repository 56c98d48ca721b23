-- ===== src/Tracking/Retention/Interleaving.antt =====
-- Retention beside the other callers of the registry and the store, as tracking/retention.py and
-- tracking/registry.py let them interleave: a deletion reads the tombstone of its candidate, unlinks
-- the object later and finalizes the tombstone later still. The policy is the one configured.
use signalattice.Prelude.{Bool, List, String, [], false, is_some, ok, ℕ, ◌∷◌, ◌≡◌, In}
use signalattice.Tracking.Retention.{ArtifactMetadata, RetentionPolicy}
use signalattice.Tracking.Registry.{Job}
use signalattice.Tracking.Retention.Records.{DigestConfirmedRetentionPlan, RetentionCandidate}
use signalattice.Tracking.Retention.Authority.{ArtifactStore, Authority}
use signalattice.Tracking.Retention.Tables.{
  RetentionTables, RunArtifact, StoredTombstone, empty_retention_tables, link_artifacts,
  register_artifact,
}
use signalattice.Tracking.Retention.Staging.{stage}
use signalattice.Tracking.Retention.Executing.{candidate_tombstone, finalize_row}

module _ (store : ArtifactStore) (auth : Authority) (policy : RetentionPolicy) where
  -- `deleting` has the candidates whose tombstones were read as pending; `unlinked` is the history
  -- of the objects that deletions unlinked, with those of unlinks that raised.
  pub record System : Type 0 where
    pub tables : RetentionTables
    pub objects : store.Objects
    pub deleting : List (DigestConfirmedRetentionPlan × RetentionCandidate)
    pub unlinked : List String

  abbrev pub initial : store.Objects → System
  initial objects = record {
    tables = empty_retention_tables;
    objects = objects;
    deleting = [];
    unlinked = [];
  }

  -- `stores` is a publication, or any other change of the objects; `works` is a change of the job
  -- queue. A deletion that has started may unlink and finalize more than once, or never.
  pub data Step (s : System) (u : System) : Type 0 where
    registers :
        (metadata row : ArtifactMetadata) (t : RetentionTables)
        → register_artifact s.tables metadata ≡ ok (row, t)
        → u ≡ record s { tables = t }
        → Step s u
    links :
        (preflighted : List ArtifactMetadata) (rows : List RunArtifact) (t : RetentionTables)
        → link_artifacts s.tables preflighted rows ≡ ok t
        → u ≡ record s { tables = t }
        → Step s u
    works : (jobs : List Job) → u ≡ record s { tables = record s.tables { jobs = jobs } } → Step s u
    stores : (objects : store.Objects) → u ≡ record s { objects = objects } → Step s u
    stages :
        (signed : DigestConfirmedRetentionPlan) (confirmed_digest : String) (now : ℕ)
        (t : RetentionTables)
        → stage store auth policy s.tables signed confirmed_digest now ≡ ok t
        → u ≡ record s { tables = t }
        → Step s u
    starts :
        (signed : DigestConfirmedRetentionPlan) (candidate : RetentionCandidate)
        (tombstone : StoredTombstone)
        → candidate_tombstone s.tables signed candidate ≡ ok tombstone
        → is_some tombstone.deleted_at ≡ false
        → u ≡ record s { deleting = (signed, candidate) ∷ s.deleting }
        → Step s u
    unlinks :
        (signed : DigestConfirmedRetentionPlan) (candidate : RetentionCandidate)
        → In (signed, candidate) s.deleting
        → u ≡ record s {
          objects = (store.unlink_verified s.objects candidate.metadata candidate.generation).0;
          unlinked = candidate.metadata.digest ∷ s.unlinked;
        }
        → Step s u
    finalizes :
        (signed : DigestConfirmedRetentionPlan) (candidate : RetentionCandidate) (deleted_at : ℕ)
        (done : Bool) (t : RetentionTables)
        → In (signed, candidate) s.deleting
        → finalize_row store s.tables s.objects signed candidate deleted_at ≡ ok (done, t)
        → u ≡ record s { tables = t }
        → Step s u

  pub data Steps (s : System) : System → Type 0 where
    here : Steps s s
    next : {t u : System} → Steps s t → Step t u → Steps s u
