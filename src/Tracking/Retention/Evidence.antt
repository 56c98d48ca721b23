-- ===== src/Tracking/Retention/Evidence.antt =====
-- What retention never deletes: the writes of tracking/retention.py and tracking/registry.py against
-- the artifacts that are linked or pinned.
use signalattice.Prelude.{
  ◌||◌, Option, some, none, subst, is_within, length, codes, >>=-eq-ok, All, In, List, String, any,
  false, ok, refuse, require, str_eq, true, ◌≡◌, ◌≤◌, ◌+◌, All-map, [], ap, arith, find, inr,
  ok-injective, refl, refuse-false, str_eq_sym, ◌∙◌, ◌∷◌, Bool,
}
use signalattice.Tracking.Retention.{ArtifactMetadata, RetentionPolicy}
use signalattice.Tracking.Retention.Tables.{
  register_beside, is_same_link, RetentionTables, RunArtifact, StoredTombstone, has_digest,
  insert_link, is_link_to, is_tombstone_of, register_artifact, insert_links, link_artifacts,
  require_all_linkable,
}
use signalattice.Tracking.Retention.Records.{same_registration}
use signalattice.Tracking.Retention.Planning.{microseconds}

pub or_false : (a b : Bool) → (a || b) ≡ false → (a ≡ false) × (b ≡ false)
or_false a b h = ground arith

module _ (policy : RetentionPolicy) where
  -- The tombstone's artifact is registered since the grace period before the plan at least, is not
  -- pinned, and no run links to it.
  pub record Condemned (artifacts : List ArtifactMetadata) (links : List RunArtifact)
      (x : StoredTombstone) : Type 0 where
    pub row : ArtifactMetadata
    pub registered : In row artifacts
    pub same : str_eq row.digest x.artifact_digest ≡ true
    pub unpinned : row.pinned ≡ false
    pub old : row.created_at + microseconds policy.grace_period_seconds ≤ x.planned_at
    pub unlinked : any (is_link_to x.artifact_digest) links ≡ false

  -- In other tables that have the row and no link.
  Condemned-with :
      {artifacts others : List ArtifactMetadata} {links rest : List RunArtifact}
      {x : StoredTombstone} (c : Condemned artifacts links x)
      → In c.row others
      → any (is_link_to x.artifact_digest) rest ≡ false
      → Condemned others rest x
  Condemned-with c i h = record {
    row = c.row;
    registered = i;
    same = c.same;
    unpinned = c.unpinned;
    old = c.old;
    unlinked = h;
  }

  abbrev pub AllCondemned : RetentionTables → Type 0
  AllCondemned t = All (Condemned t.artifacts t.links) t.tombstones

  -- What every write keeps: the tombstones stay, and each stands for a condemned artifact.
  pub record Kept (t : RetentionTables) (u : RetentionTables) : Type 0 where
    pub keys :
        (digest : String)
        → any (is_tombstone_of digest) t.tombstones ≡ true
        → any (is_tombstone_of digest) u.tombstones ≡ true
    pub condemned : AllCondemned t → AllCondemned u

  pub Kept-trans : {t u v : RetentionTables} → Kept t u → Kept u v → Kept t v
  Kept-trans a b = record {
    keys = λ digest h. b.keys digest (a.keys digest h);
    condemned = λ h. b.condemned (a.condemned h);
  }

  pub Kept-refl : (t : RetentionTables) → Kept t t
  Kept-refl t = record { keys = λ digest h. h; condemned = λ h. h }

  register_beside-Kept :
      (t : RetentionTables) (metadata : ArtifactMetadata) (prior : Option ArtifactMetadata)
      {row : ArtifactMetadata} {u : RetentionTables}
      → register_beside t metadata prior ≡ ok (row, u)
      → Kept t u
  unfolding register_beside
  register_beside-Kept t metadata (some observed) e =
      let (_, _, e1) = >>=-eq-ok (require (same_registration observed metadata) _) _ e in
      subst (Kept t) (ap (λ r. r.1) (ok-injective e1)) (Kept-refl t)
  register_beside-Kept t metadata none e =
      let (_, _, e1) =
        >>=-eq-ok
          (refuse (any (λ r. str_eq r.storage_relpath metadata.storage_relpath) t.artifacts) _) _
          e in
      subst (Kept t) (ap (λ r. r.1) (ok-injective e1)) (record {
        keys = λ digest h. h;
        condemned =
            All-map (Condemned t.artifacts t.links) (Condemned (metadata ∷ t.artifacts) t.links)
              (λ x c. Condemned-with c (inr c.registered) c.unlinked) t.tombstones;
      })

  pub register_artifact-Kept :
      (t : RetentionTables) (metadata : ArtifactMetadata) {row : ArtifactMetadata}
      {u : RetentionTables}
      → register_artifact t metadata ≡ ok (row, u)
      → Kept t u
  unfolding register_artifact
  register_artifact-Kept t metadata e =
      register_beside-Kept t metadata (find (has_digest metadata.digest) t.artifacts) e

  -- A link to an artifact without a tombstone leaves the tombstones' artifacts unlinked.
  Condemned-link :
      (artifacts : List ArtifactMetadata) (links : List RunArtifact) (link : RunArtifact)
      (tombstones : List StoredTombstone)
      → any (is_tombstone_of link.artifact_digest) tombstones ≡ false
      → All (Condemned artifacts links) tombstones
      → All (Condemned artifacts (link ∷ links)) tombstones
  Condemned-link artifacts links link [] a h = tt
  Condemned-link artifacts links link (x ∷ xs) a h =
      let (theirs, others) = or_false (is_tombstone_of link.artifact_digest x) _ a in
      let other = str_eq_sym link.artifact_digest x.artifact_digest ∙ theirs in
      (
        Condemned-with h.0 h.0.registered (rw (other, h.0.unlinked) refl),
        Condemned-link artifacts links link xs others h.1,
      )

  insert_link-Kept :
      (t : RetentionTables) (link : RunArtifact) {u : RetentionTables}
      → insert_link t link ≡ ok u
      → Kept t u
  unfolding insert_link
  insert_link-Kept t link e =
      let (_, a, e1) =
        >>=-eq-ok (refuse (any (is_tombstone_of link.artifact_digest) t.tombstones) _) _ e in
      let (_, _, e2) =
        >>=-eq-ok (require (any (has_digest link.artifact_digest) t.artifacts) _) _ e1 in
      let (_, _, e3) = >>=-eq-ok (require (is_within 1 128 (length (codes link.role))) _) _ e2 in
      let (_, _, e4) = >>=-eq-ok (refuse (any (is_same_link link) t.links) _) _ e3 in
      subst (Kept t) (ok-injective e4) (record {
        keys = λ digest h. h;
        condemned = Condemned-link t.artifacts t.links link t.tombstones (refuse-false _ _ a);
      })

  insert_links-Kept :
      (t : RetentionTables) (links : List RunArtifact) {u : RetentionTables}
      → insert_links t links ≡ ok u
      → Kept t u
  unfolding insert_links
  insert_links-Kept t [] e = subst (Kept t) (ok-injective e) (Kept-refl t)
  insert_links-Kept t (link ∷ links) e =
      let (v, e1, e2) = >>=-eq-ok (insert_link t link) _ e in
      Kept-trans (insert_link-Kept t link e1) (insert_links-Kept v links e2)

  pub link_artifacts-Kept :
      (t : RetentionTables) (preflighted : List ArtifactMetadata) (links : List RunArtifact)
      {u : RetentionTables}
      → link_artifacts t preflighted links ≡ ok u
      → Kept t u
  unfolding link_artifacts
  link_artifacts-Kept t preflighted links e =
      let (_, _, e1) = >>=-eq-ok (require_all_linkable t preflighted) _ e in
      insert_links-Kept t links e1
