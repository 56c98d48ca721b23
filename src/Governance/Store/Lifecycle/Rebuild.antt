-- ===== src/Governance/Store/Lifecycle/Rebuild.antt =====
-- `rebuild_head` of governance/store.py reproduces the stored head after every clean history.
use signalattice.Governance.Lane.{
  FreezeTrigger, LaneHead, check_head, consecutive_soft_breach, hard_integrity,
}
use signalattice.Governance.Store.Lifecycle.Chains.{
  IsChained-empty, run-IsChained, verify_chain-IsChained,
}
use signalattice.Governance.Store.Projecting.{
  IsCoherent, IsFresh, append-IsCoherent, assign-IsCoherent, freeze-IsCoherent, moves_no_head,
  projection_of,
}
use signalattice.Governance.Store.Lifecycle.Heads.{
  IsSound, calls-keep-IsSound, stored_head, SoundAt,
}
use signalattice.Governance.Store.Chain.{IsChained}
use signalattice.Governance.Store.Tables.{
  HeadRow, Store, empty_store, lane_identity, max_events_per_query, update, GovernanceEvent,
  lane_head, row_to_event, load_events, option_str_eq, option_trigger_eq,
}
use signalattice.Governance.Store.Head.{no_events, project, rebuild_head, head_eq, replay_head}
use signalattice.Governance.Store.Operations.{insert_or_ignore, register_lane, unassigned_row}
use signalattice.Prelude.{
  All, Bool-cases, List, Option, String, [], ap, codes, eq_iff, inl, inr, length, map, none, ok,
  refl, some, str_eq, subst, true, ℕ, ◌∙◌, ◌∷◌, ◌≡◌, ◌≤◌, arith, eq_refl,
}
use signalattice.Governance.Runtime.{Runtime}
use signalattice.Governance.Store.Lifecycle.{
  Call, IsReloaded, KeptBy, append, assigning, freezing_lane, register, run, step, step-keeps,
}

registered-projection :
    (o : Option HeadRow) (now : ℕ)
    → projection_of o ≡ projection_of (insert_or_ignore o (unassigned_row now))
registered-projection none now = refl
registered-projection (some row) now = refl

option_str_eq_refl : (o : Option String) → option_str_eq o o ≡ true
option_str_eq_refl none = refl
option_str_eq_refl (some s) = eq_refl s

option_trigger_eq_refl : (o : Option FreezeTrigger) → option_trigger_eq o o ≡ true
option_trigger_eq_refl none = refl
option_trigger_eq_refl (some hard_integrity) = refl
option_trigger_eq_refl (some consecutive_soft_breach) = refl

head_eq_refl : (h : LaneHead) → head_eq h h ≡ true
unfolding head_eq
head_eq_refl h = ground (
  arith,
  eq_refl h.lane_identity,
  option_str_eq_refl h.champion_revision,
  option_trigger_eq_refl h.freeze_trigger,
)

load_events-within :
    (rt : Runtime) (s : Store) (lane : String)
    → length (s.events lane) ≤ max_events_per_query
    → load_events rt s lane ≡ ok (map (row_to_event rt) (s.events lane))
unfolding load_events
load_events-within rt s lane fits = ground arith

stored-lane_head :
    (s : Store) (lane : String) (row : HeadRow)
    → IsSound s
    → s.heads lane ≡ some row
    → lane_head s lane ≡ ok (stored_head lane row)
unfolding lane_head
stored-lane_head s lane row sound e = rw e (subst (SoundAt lane) e (sound lane))

replayed-head :
    (events : List GovernanceEvent) (lane : String) (row : HeadRow)
    → project no_events events ≡ ok (projection_of (some row))
    → check_head (stored_head lane row) ≡ ok (stored_head lane row)
    → replay_head events lane ≡ ok (stored_head lane row)
unfolding replay_head
replayed-head events lane row p c = rw p c

module _ (rt : Runtime) where
  -- The calls of a history are clean where an append moves no head and the key of an assignment or
  -- a freeze is none, or is one that its lane has not recorded yet.
  abbrev pub Clean : Store → Call → Type 0
  Clean s (register lane now) = Unit
  Clean s (append lane kind payload now key) = moves_no_head kind ≡ true
  Clean s (assigning lane champion generation expected now key) = IsFresh rt s lane key
  Clean s (freezing_lane lane trigger detail now key) = IsFresh rt s lane key

  abbrev pub AllClean : Store → List Call → Type 0
  AllClean s [] = Unit
  AllClean s (call ∷ calls) = Clean s call × AllClean (step rt s call) calls

  registered-IsCoherent :
      (s : Store) (lane : String) (now : ℕ)
      → IsCoherent rt s
      → (j : String)
      → project no_events (map (row_to_event rt) (s.events j))
        ≡ ok (
            projection_of
              (update s.heads lane (insert_or_ignore (s.heads lane) (unassigned_row now)) j))
  registered-IsCoherent s lane now c j = elim (Bool-cases (str_eq j lane)) [
    | inl b ↦ rw b (
        rw ((eq_iff j lane).0 b)
          (c lane ∙ ap (λ p. ok p) (registered-projection (s.heads lane) now)))
    | inr b ↦ rw b (c j)
  ]

  calls-keep-IsCoherent :
      (s : Store) (call : Call)
      → IsReloaded rt call
      → Clean s call
      → IsCoherent rt s
      → KeptBy rt (IsCoherent rt) s call
  unfolding register_lane
  calls-keep-IsCoherent s call o clean c = record {
    by_register = λ lane now e. registered-IsCoherent s (lane_identity rt lane) now c;
    by_append = λ lane kind payload now key e event t a.
        append-IsCoherent rt s lane kind payload now key a (subst (Clean s) e clean) c;
    by_assign = λ lane champion generation expected now key e d event t a.
        assign-IsCoherent rt s lane champion generation expected now key a
          (subst (IsReloaded rt) e o) (subst (Clean s) e clean) c;
    by_freeze = λ lane trigger detail now key e event t a.
        freeze-IsCoherent rt s lane trigger detail now key a (subst (IsReloaded rt) e o)
          (subst (Clean s) e clean) c;
  }

  run-IsCoherent :
      (s : Store) (calls : List Call)
      → All (IsReloaded rt) calls
      → AllClean s calls
      → IsCoherent rt s
      → IsCoherent rt (run rt s calls)
  unfolding run
  run-IsCoherent s [] o clean c = c
  run-IsCoherent s (call ∷ calls) o clean c =
      run-IsCoherent (step rt s call) calls o.1 clean.1
        (step-keeps rt (IsCoherent rt) s call c (calls-keep-IsCoherent s call o.0 clean.0 c))

  IsCoherent-empty : IsCoherent rt empty_store
  unfolding project
  IsCoherent-empty lane = refl

  -- A store whose chains verify and whose heads are sound and coherent rebuilds every head.
  rebuild_head-stored :
      (s : Store) (lane : String) (row : HeadRow)
      → IsChained rt s
      → IsSound s
      → IsCoherent rt s
      → s.heads lane ≡ some row
      → length (s.events lane) ≤ max_events_per_query
      → rebuild_head rt s lane ≡ ok (stored_head lane row)
  unfolding rebuild_head
  rebuild_head-stored s lane row chained sound coherent e fits = rw (
    verify_chain-IsChained rt s lane chained fits,
    load_events-within rt s lane fits,
    replayed-head (map (row_to_event rt) (s.events lane)) lane row
        (coherent lane ∙ ap (λ o. ok (projection_of o)) e) (subst (SoundAt lane) e (sound lane)),
    stored-lane_head s lane row sound e,
    head_eq_refl (stored_head lane row),
  )

  module _ (digest_width : (text : String) → length (codes (rt.sha256 text)) ≡ 64) where
    run-IsSound : (s : Store) (calls : List Call) → IsSound s → IsSound (run rt s calls)
    unfolding run
    run-IsSound s [] h = h
    run-IsSound s (call ∷ calls) h =
        run-IsSound (step rt s call) calls
          (step-keeps rt IsSound s call h (calls-keep-IsSound rt digest_width s call h))

    -- After any calls on empty tables, failed ones included, `rebuild_head` of a lane that has a head
    -- and is within the query ceiling succeeds, and returns that head, if the calls are clean: no
    -- `append_event` records an assignment or a freeze by itself, and no assignment or freeze comes
    -- under a key that its lane has recorded; if `json.dumps` of what `json.loads` makes of an
    -- appended payload's text is that text again, and the payloads of assignments and freezes are
    -- read back as they were; and if SHA-256 digests have 64 characters.
    pub rebuild_head-run :
        (calls : List Call) (lane : String) (row : HeadRow)
        → All (IsReloaded rt) calls
        → AllClean empty_store calls
        → (run rt empty_store calls).heads lane ≡ some row
        → length ((run rt empty_store calls).events lane) ≤ max_events_per_query
        → rebuild_head rt (run rt empty_store calls) lane ≡ ok (stored_head lane row)
    rebuild_head-run calls lane row o clean e fits =
        rebuild_head-stored (run rt empty_store calls) lane row
          (run-IsChained rt empty_store calls o (IsChained-empty rt))
          (run-IsSound empty_store calls (λ lane. tt))
          (run-IsCoherent empty_store calls o clean IsCoherent-empty) e fits
