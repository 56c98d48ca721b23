-- ===== src/Tracking/Retention/Tables.antt =====
-- The tables that tracking/retention.py reads and writes, as _MIGRATION_1 of tracking/migrations.py
-- constrains them, and the writes of tracking/registry.py to the artifacts and their links.
use signalattice.Prelude.{
  require_some, Bool, List, Option, Result, String, [], any, codes, find, is_none, is_within,
  length, none, ok, refuse, require, some, str_eq, ℕ, ◌&&◌, ◌>>=◌, ◌>>◌, ◌∷◌, map, if◌then◌else◌,
}
use signalattice.Tracking.Retention.{
  ArtifactMetadata, RetentionError, conflict_error, database_error, integrity_error,
}
use signalattice.Tracking.Registry.{Job, is_running}
use signalattice.Tracking.Retention.Records.{same_metadata, same_registration}

pub record StoredPlan : Type 0 where
  pub plan_digest : String
  pub payload_digest : String
  pub payload_json : String
  pub registry_id : String
  pub cas_store_id : String
  pub planned_at : ℕ
  pub schema_version : ℕ

pub record StoredTombstone : Type 0 where
  pub artifact_digest : String
  pub plan_digest : String
  pub planned_at : ℕ
  pub deleted_at : Option ℕ
  pub reason : String

pub record RunArtifact : Type 0 where
  pub run_id : String
  pub role : String
  pub artifact_digest : String
  pub linked_at : ℕ

-- `jobs` is the table of the job queue.
pub record RetentionTables : Type 0 where
  pub artifacts : List ArtifactMetadata
  pub links : List RunArtifact
  pub plans : List StoredPlan
  pub tombstones : List StoredTombstone
  pub jobs : List Job

abbrev pub empty_retention_tables : RetentionTables
empty_retention_tables = record {
  artifacts = [];
  links = [];
  plans = [];
  tombstones = [];
  jobs = [];
}

abbrev pub has_digest : String → ArtifactMetadata → Bool
has_digest digest metadata = str_eq metadata.digest digest

abbrev pub is_link_to : String → RunArtifact → Bool
is_link_to digest link = str_eq link.artifact_digest digest

abbrev pub is_tombstone_of : String → StoredTombstone → Bool
is_tombstone_of digest tombstone = str_eq tombstone.artifact_digest digest

abbrev pub is_of_plan : String → StoredTombstone → Bool
is_of_plan plan_digest tombstone = str_eq tombstone.plan_digest plan_digest

abbrev pub has_plan_digest : String → StoredPlan → Bool
has_plan_digest plan_digest row = str_eq row.plan_digest plan_digest

-- `_has_running_work`.
abbrev pub has_running_work : RetentionTables → Bool
has_running_work t = any (λ job. is_running job.state) t.jobs

-- `register_artifact`, once the bytes are verified, beside the row of the digest: the same
-- registration again returns the row.
unfoldable pub register_beside :
    RetentionTables
    → ArtifactMetadata
    → Option ArtifactMetadata
    → Result RetentionError (ArtifactMetadata × RetentionTables)
register_beside t metadata (some observed) = do
  require (same_registration observed metadata) conflict_error
  ok (observed, t)
register_beside t metadata none = do
  refuse (any (λ row. str_eq row.storage_relpath metadata.storage_relpath) t.artifacts)
      database_error
  ok (metadata, record t { artifacts = metadata ∷ t.artifacts })

unfoldable pub register_artifact :
    RetentionTables → ArtifactMetadata → Result RetentionError (ArtifactMetadata × RetentionTables)
unfolding register_beside
register_artifact t metadata =
    register_beside t metadata (find (has_digest metadata.digest) t.artifacts)

-- The check of a preflighted artifact in `_insert_terminal_run`.
unfoldable pub require_linkable :
    RetentionTables → ArtifactMetadata → Result RetentionError (Unit {0})
require_linkable t expected = do
  stored ← require_some (find (has_digest expected.digest) t.artifacts) integrity_error
  require (same_metadata stored expected) integrity_error
  refuse (any (is_tombstone_of expected.digest) t.tombstones) conflict_error

unfoldable pub require_all_linkable :
    RetentionTables → List ArtifactMetadata → Result RetentionError (Unit {0})
unfolding require_linkable
require_all_linkable t [] = ok tt
require_all_linkable t (expected ∷ rest) = do
  require_linkable t expected
  require_all_linkable t rest

abbrev pub is_same_link : RunArtifact → RunArtifact → Bool
is_same_link a b =
    str_eq a.run_id b.run_id && str_eq a.role b.role && str_eq a.artifact_digest b.artifact_digest

-- `INSERT INTO sl_registry_run_artifacts`, under its trigger, its foreign key and its unique index.
unfoldable pub insert_link : RetentionTables → RunArtifact → Result RetentionError RetentionTables
insert_link t link = do
  refuse (any (is_tombstone_of link.artifact_digest) t.tombstones) database_error
  require (any (has_digest link.artifact_digest) t.artifacts) database_error
  require (is_within 1 128 (length (codes link.role))) database_error
  refuse (any (is_same_link link) t.links) database_error
  ok (record t { links = link ∷ t.links })

unfoldable pub insert_links :
    RetentionTables → List RunArtifact → Result RetentionError RetentionTables
unfolding insert_link
insert_links t [] = ok t
insert_links t (link ∷ links) = do u ← insert_link t link; insert_links u links

-- What `_insert_terminal_run` does to the artifacts of a run.
unfoldable pub link_artifacts :
    RetentionTables
    → List ArtifactMetadata
    → List RunArtifact
    → Result RetentionError RetentionTables
unfolding require_all_linkable insert_links
link_artifacts t preflighted links = do require_all_linkable t preflighted; insert_links t links

-- `INSERT INTO sl_registry_retention_plans`.
unfoldable pub insert_plan : RetentionTables → StoredPlan → Result RetentionError RetentionTables
insert_plan t row = do
  refuse (any (has_plan_digest row.plan_digest) t.plans) database_error
  ok (record t { plans = row ∷ t.plans })

-- `INSERT INTO sl_registry_retention_tombstones`, under its keys and its trigger.
unfoldable pub insert_tombstone :
    RetentionTables → StoredTombstone → Result RetentionError RetentionTables
insert_tombstone t tombstone = do
  require (is_none tombstone.deleted_at) database_error
  refuse (any (is_tombstone_of tombstone.artifact_digest) t.tombstones) database_error
  require (any (has_digest tombstone.artifact_digest) t.artifacts) database_error
  require (any (has_plan_digest tombstone.plan_digest) t.plans) database_error
  require (is_within 1 1024 (length (codes tombstone.reason))) database_error
  ok (record t { tombstones = tombstone ∷ t.tombstones })

unfoldable pub insert_tombstones :
    RetentionTables → List StoredTombstone → Result RetentionError RetentionTables
unfolding insert_tombstone
insert_tombstones t [] = ok t
insert_tombstones t (tombstone ∷ rest) = do
  u ← insert_tombstone t tombstone
  insert_tombstones u rest

-- The UPDATE that finalizes a tombstone, and the row that its trigger lets it write.
abbrev pub is_pending_of : String → String → StoredTombstone → Bool
is_pending_of digest plan_digest tombstone =
    is_tombstone_of digest tombstone
    && is_of_plan plan_digest tombstone
    && is_none tombstone.deleted_at

abbrev pub finalized : String → String → ℕ → StoredTombstone → StoredTombstone
finalized digest plan_digest instant tombstone =
    if is_pending_of digest plan_digest tombstone
    then record tombstone { deleted_at = some instant }
    else tombstone

abbrev pub mark_deleted : RetentionTables → String → String → ℕ → RetentionTables
mark_deleted t digest plan_digest instant = record t {
  tombstones = map (finalized digest plan_digest instant) t.tombstones;
}
