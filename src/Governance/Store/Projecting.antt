-- ===== src/Governance/Store/Projecting.antt =====
-- The stored head of governance/store.py against the head that the events of its lane produce.
use signalattice.Governance.Lane.{FreezeTrigger}
use signalattice.Governance.Store.Written.{assigned_row, frozen_row, headed}
use signalattice.Governance.Store.Moves.{Assigned, Froze}
use signalattice.Governance.Store.Operations.{key_digest, recorded}
use signalattice.Governance.Store.Appends.{Appended, added, inserted, replayed, next_row}
use signalattice.Governance.Runtime.{
  IsRestored, Payload, Runtime, assignment_payload, freeze_payload,
}
use signalattice.Prelude.{
  Bool, List, Option, String, [], false, map, none, ok, some, true, ◌++◌, ◌+◌, ◌∷◌, ◌≡◌, >>=-eq-ok,
  >>=-ok, Bool-cases, ap, eq_iff, inl, inr, ok-injective, refl, str_eq, subst, sym, ℕ, ◌∙◌, ◌≢◌,
}
use signalattice.Governance.Store.Tables.{
  Store, EventKind, EventRow, HeadRow, approval, assignment, comparison, freezing, monitoring,
  policy, request, GovernanceEvent, update, row_to_event,
}
use signalattice.Governance.Store.Head.{project, Projection, no_events, project_kind}

-- The projection that a stored head caches; a lane with no head has had no events.
abbrev pub projection_of : Option HeadRow → Projection
projection_of none = no_events
projection_of (some row) = record {
  state = row.state;
  champion = row.champion_revision;
  generation = row.generation;
  trigger = row.freeze_trigger;
}

-- An event of a kind that moves no head.
abbrev pub moves_no_head : EventKind → Bool
moves_no_head assignment = false
moves_no_head freezing = false
moves_no_head policy = true
moves_no_head comparison = true
moves_no_head request = true
moves_no_head approval = true
moves_no_head monitoring = true

project_kind-moves_no_head :
    (kind : EventKind) (p : Projection) (payload : Payload)
    → moves_no_head kind ≡ true
    → project_kind kind p payload ≡ ok p
project_kind-moves_no_head assignment p payload h = cc
project_kind-moves_no_head freezing p payload h = cc
project_kind-moves_no_head _ p payload h = refl

none-ne-some : {row : EventRow} → none ≢ some row
none-ne-some h = cc

module _ (rt : Runtime) where
  -- The events of every lane produce its stored head.
  abbrev pub IsCoherent : Store → Type 0
  IsCoherent s =
      (lane : String)
      → project no_events (map (row_to_event rt) (s.events lane))
        ≡ ok (projection_of (s.heads lane))

  pub project-append :
      (p : Projection) (rows : List EventRow) (row : EventRow) {q : Projection}
      → project p (map (row_to_event rt) rows) ≡ ok q
      → project p (map (row_to_event rt) (rows ++ row ∷ []))
        ≡ project_kind row.event.kind q (rt.decode row.event.payload)
  unfolding project
  project-append p [] row h =
      >>=-ok (project_kind row.event.kind p (rt.decode row.event.payload))
      ∙ ap (λ q. project_kind row.event.kind q (rt.decode row.event.payload)) (ok-injective h)
  project-append p (r ∷ rows) row h =
      let (q', e, h') =
        >>=-eq-ok (project_kind r.event.kind p (rt.decode r.event.payload))
          (λ q'. project q' (map (row_to_event rt) rows)) h in
      rw e (project-append q' rows row h')

  -- A row is inserted and a head is written, in one transaction, so that they agree.
  inserted-IsCoherent :
      (s : Store) (lane : String) (row : EventRow) (head : Option HeadRow)
      → IsCoherent s
      → project_kind row.event.kind (projection_of (s.heads lane)) (rt.decode row.event.payload)
        ≡ ok (projection_of head)
      → IsCoherent (record (inserted s lane row) { heads = update s.heads lane head })
  inserted-IsCoherent s lane row head c h j = elim (Bool-cases (str_eq j lane)) [
    | inl e ↦ rw e (project-append no_events (s.events lane) row (c lane) ∙ h)
    | inr e ↦ rw e (c j)
  ]

  -- The key of a write is none, or one that the lane has not recorded.
  abbrev pub IsFresh : Store → String → Option String → Type 0
  IsFresh s lane key =
      (digest : Option String)
      → key_digest rt key ≡ ok digest
      → recorded (s.events lane) digest ≡ none

  -- An append of an event that moves no head keeps heads and chains in agreement.
  pub append-IsCoherent :
      (s : Store) (lane : String) (kind : EventKind) (payload : Payload) (now : ℕ)
      (key : Option String) {event : GovernanceEvent} {t : Store}
      → Appended rt s lane kind payload now key event t
      → moves_no_head kind ≡ true
      → IsCoherent s
      → IsCoherent t
  append-IsCoherent s lane kind payload now key (replayed _ row d r p e q) m c =
      subst IsCoherent (sym q) c
  append-IsCoherent s lane kind payload now key (added k d r f e q) m c =
      subst IsCoherent (sym q) (λ j. elim (Bool-cases (str_eq j lane)) [
        | inl e ↦ rw e (
            project-append no_events (s.events lane) _ (c lane)
            ∙ project_kind-moves_no_head kind (projection_of (s.heads lane)) _ m
            ∙ ap (λ k. ok (projection_of (s.heads k))) (sym ((eq_iff j lane).0 e)))
        | inr e ↦ rw e (c j)
      ])

  -- Under a fresh key the event of a successful write is a new one.
  fresh-added :
      (s : Store) (lane : String) (kind : EventKind) (payload : Payload) (now : ℕ)
      (key : Option String) {event : GovernanceEvent} {t : Store}
      → Appended rt s lane kind payload now key event t
      → IsFresh s lane key
      → (digest : Option String) × (t
          ≡ inserted s lane (next_row rt s lane kind payload now digest))
  fresh-added s lane kind payload now key (replayed k row d r p e q) f =
      absurd (none-ne-some (sym (f k d) ∙ r))
  fresh-added s lane kind payload now key (added k d r f e q) _ = (k, q)

  pub assign-IsCoherent :
      (s : Store) (lane champion : String) (expected_generation : ℕ)
      (expected_champion : Option String) (now : ℕ) (key : Option String) {event : GovernanceEvent}
      {u : Store}
      → Assigned rt s lane champion expected_generation expected_champion now key event u
      → IsRestored rt (
          assignment_payload champion
            (expected_generation + 1)
            expected_champion
            expected_generation)
      → IsFresh s lane key
      → IsCoherent s
      → IsCoherent u
  assign-IsCoherent s lane champion expected_generation expected_champion now key {event} {u} a o f
        c =
      let (k, q) = fresh-added s lane assignment _ now key a.appended f in
      subst IsCoherent
        (sym (a.written.tables ∙ ap (λ t. headed t lane (assigned_row a.row champion event now)) q))
        (inserted-IsCoherent s lane _ (some (assigned_row a.row champion event now)) c (
          ap (project_kind assignment (projection_of (s.heads lane))) (
            subst
              (λ n.
                IsRestored rt
                  (assignment_payload champion (n + 1) expected_champion expected_generation))
              (sym a.generation_expected) o)))

  pub freeze-IsCoherent :
      (s : Store) (lane : String) (trigger : FreezeTrigger) (detail : String) (now : ℕ)
      (key : Option String) {event : GovernanceEvent} {u : Store}
      → Froze rt s lane trigger detail now key event u
      → IsRestored rt (freeze_payload trigger detail)
      → IsFresh s lane key
      → IsCoherent s
      → IsCoherent u
  freeze-IsCoherent s lane trigger detail now key {event} {u} a o f c =
      let (k, q) = fresh-added s lane freezing _ now key a.appended f in
      subst IsCoherent
        (sym (a.written.tables ∙ ap (λ t. headed t lane (frozen_row a.row trigger event now)) q))
        (inserted-IsCoherent s lane _ (some (frozen_row a.row trigger event now)) c
          (ap (project_kind freezing (projection_of (s.heads lane))) o ∙ rw a.before refl))
