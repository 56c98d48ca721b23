-- ===== src/Governance/Store/Head.antt =====
-- The head of a lane in governance/store.py: assignment under compare-and-swap, freezing, the
-- verification of the chain, and the head that the chain's events produce.
use signalattice.Prelude.{
  ℕ, Bool, List, Option, Result, String, [], codes, err, length, ltb, none, ok, refuse, require,
  some, str_eq, ◌&&◌, ◌+◌, ◌==◌, ◌>>=◌, ◌>>◌, ◌||◌, ◌∷◌,
}
use signalattice.Governance.Lane.{
  LaneState, FreezeTrigger, GovernanceError, LaneHead, active, assert_lane_transition,
  chain_integrity, check_head, frozen, key_error, lane_state_eq, stale_write, store_error,
  unassigned,
}
use signalattice.Governance.Runtime.{Runtime, Payload, assignment_payload, document, freeze_payload}
use signalattice.Governance.Store.Tables.{
  Store, EventKind, GovernanceEvent, HeadRow, approval, assignment, canonical_digest, chain_digest,
  comparison, freezing, genesis_digest, lane_head, load_events, monitoring, option_str_eq,
  option_trigger_eq, policy, request, require_digest,
}
use signalattice.Governance.Store.Operations.{append_locked, write_head}

-- What the loop over the events keeps.
pub record Projection : Type 0 where
  pub state : LaneState
  pub champion : Option String
  pub generation : ℕ
  pub trigger : Option FreezeTrigger

abbrev pub no_events : Projection
no_events = record { state = unassigned; champion = none; generation = 0; trigger = none }

-- The branch of an ASSIGNMENT event; its payload is read by key.
abbrev pub project_assignment : Projection → Payload → Result GovernanceError Projection
project_assignment p (assignment_payload champion generation previous before) =
    ok
      (record { state = active; champion = some champion; generation = generation; trigger = none })
project_assignment p (freeze_payload trigger detail) = err key_error
project_assignment p (document text) = err key_error

-- The branch of a FREEZE event.
abbrev pub project_freeze : Projection → Payload → Result GovernanceError Projection
project_freeze p (freeze_payload trigger detail) =
    ok (record p { state = frozen; trigger = some trigger })
project_freeze p (assignment_payload champion generation previous before) = err key_error
project_freeze p (document text) = err key_error

abbrev pub project_kind : EventKind → Projection → Payload → Result GovernanceError Projection
project_kind assignment p payload = project_assignment p payload
project_kind freezing p payload = project_freeze p payload
project_kind policy p payload = ok p
project_kind comparison p payload = ok p
project_kind request p payload = ok p
project_kind approval p payload = ok p
project_kind monitoring p payload = ok p

-- The loop of `rebuild_head` and `replay_head`.
unfoldable pub project : Projection → List GovernanceEvent → Result GovernanceError Projection
project p [] = ok p
project p (event ∷ events) = do q ← project_kind event.kind p event.payload; project q events

abbrev pub head_of : String → Projection → LaneHead
head_of lane p = record {
  lane_identity = lane;
  state = p.state;
  champion_revision = p.champion;
  generation = p.generation;
  freeze_trigger = p.trigger;
}

unfoldable pub replay_head : List GovernanceEvent → String → Result GovernanceError LaneHead
unfolding project
replay_head events lane = do p ← project no_events events; check_head (head_of lane p)

-- The comparison of two `to_dict()`.
unfoldable pub head_eq : LaneHead → LaneHead → Bool
unfolding lane_state_eq
head_eq a b =
    str_eq a.lane_identity b.lane_identity
    && lane_state_eq a.state b.state
    && option_str_eq a.champion_revision b.champion_revision
    && a.generation == b.generation
    && option_trigger_eq a.freeze_trigger b.freeze_trigger

-- The row of a lane's head.
abbrev pub require_row : Option HeadRow → Result GovernanceError HeadRow
require_row none = err store_error
require_row (some row) = ok row

abbrev pub require_optional_digest : Option String → Result GovernanceError (Unit {0})
require_optional_digest none = ok tt
require_optional_digest (some value) = do require_digest value; ok tt

-- What is read after the transaction.
abbrev pub read_back :
    Store
    → String
    → Result GovernanceError (GovernanceEvent × Store)
    → Result GovernanceError LaneHead × Store
read_back s lane (ok r) = (lane_head r.1 lane, r.1)
read_back s lane (err e) = (err e, s)

module _ (rt : Runtime) where
  -- The loop of `verify_chain`, at a position and with the digest computed so far.
  unfoldable pub verify_from : ℕ → String → List GovernanceEvent → Result GovernanceError (Unit {0})
  verify_from position previous [] = ok tt
  verify_from position previous (event ∷ events) = do
    require (event.sequence == position) chain_integrity
    let recomputed = canonical_digest rt event.payload
    require (str_eq recomputed event.payload_digest) chain_integrity
    require (str_eq event.previous_digest previous) chain_integrity
    require
        (str_eq (chain_digest rt previous recomputed event.sequence event.kind) event.chain_digest)
        chain_integrity
    verify_from (position + 1) event.chain_digest events

  unfoldable pub verify_chain : Store → String → Result GovernanceError ℕ
  unfolding verify_from load_events
  verify_chain s lane = do
    events ← load_events rt s lane
    verify_from 1 genesis_digest events
    ok (length events)

  unfoldable pub rebuild_head : Store → String → Result GovernanceError LaneHead
  rebuild_head s lane = do
    verify_chain s lane
    events ← load_events rt s lane
    rebuilt ← replay_head events lane
    stored ← lane_head s lane
    require (head_eq rebuilt stored) chain_integrity
    ok rebuilt

  -- The transaction of `apply_assignment`; `updated != 1` is the last test.
  unfoldable pub assign :
      Store
      → String
      → String
      → ℕ
      → Option String
      → ℕ
      → Option String
      → Result GovernanceError (GovernanceEvent × Store)
  assign s lane champion expected_generation expected_champion now idempotency_key = do
    row ← require_row (s.heads lane)
    require (row.generation == expected_generation) stale_write
    require (option_str_eq row.champion_revision expected_champion) stale_write
    assert_lane_transition row.state active
    (event, t) ←
        append_locked rt s lane assignment
          (assignment_payload champion (row.generation + 1) expected_champion expected_generation)
          now idempotency_key
    require (row.generation == expected_generation) stale_write
    u ← write_head t lane row (record {
      state = active;
      champion_revision = some champion;
      generation = row.generation + 1;
      freeze_trigger = none;
      sequence = event.sequence;
      updated_at = now;
    })
    ok (event, u)

  -- `apply_assignment` up to its COMMIT.
  unfoldable pub checked_assign :
      Store
      → String
      → String
      → ℕ
      → Option String
      → ℕ
      → Option String
      → Result GovernanceError (GovernanceEvent × Store)
  checked_assign s lane champion expected_generation expected_champion now idempotency_key = do
    require_digest champion
    require_optional_digest expected_champion
    assign s lane champion expected_generation expected_champion now idempotency_key

  unfoldable pub apply_assignment :
      Store
      → String
      → String
      → ℕ
      → Option String
      → ℕ
      → Option String
      → Result GovernanceError LaneHead × Store
  apply_assignment s lane champion expected_generation expected_champion now idempotency_key =
      read_back s lane
        (checked_assign s lane champion expected_generation expected_champion now idempotency_key)

  -- The transaction of `freeze`.
  unfoldable pub freeze_lane :
      Store
      → String
      → FreezeTrigger
      → String
      → ℕ
      → Option String
      → Result GovernanceError (GovernanceEvent × Store)
  freeze_lane s lane trigger detail now idempotency_key = do
    row ← require_row (s.heads lane)
    assert_lane_transition row.state frozen
    (event, t) ←
        append_locked rt s lane freezing (freeze_payload trigger detail) now idempotency_key
    u ← write_head t lane row (record row {
      state = frozen;
      freeze_trigger = some trigger;
      sequence = event.sequence;
      updated_at = now;
    })
    ok (event, u)

  -- `freeze` up to its COMMIT.
  unfoldable pub checked_freeze :
      Store
      → String
      → FreezeTrigger
      → String
      → ℕ
      → Option String
      → Result GovernanceError (GovernanceEvent × Store)
  checked_freeze s lane trigger detail now idempotency_key = do
    refuse (str_eq (rt.strip detail) "" || ltb 512 (length (codes detail))) store_error
    freeze_lane s lane trigger detail now idempotency_key

  unfoldable pub freeze :
      Store
      → String
      → FreezeTrigger
      → String
      → ℕ
      → Option String
      → Result GovernanceError LaneHead × Store
  freeze s lane trigger detail now idempotency_key =
      read_back s lane (checked_freeze s lane trigger detail now idempotency_key)
