-- ===== src/Governance/Store/Tables.antt =====
-- The three tables of governance/store.py (their schema is _MIGRATION_3 of tracking/migrations.py)
-- and the reads of them. `events` holds the rows of each lane in the order of their sequence, and
-- `links` is the unique index of all chain digests, over every lane.
use Prim.Native.String.{◌++◌}
use signalattice.Prelude.{
  ℕ, Bool, List, Option, Result, String, [], all, codes, err, false, if◌then◌else◌, is_hex, length,
  ltb, map, none, ok, refuse, require, some, str_eq, true, ◌&&◌, ◌==◌, ◌>>◌, ◌||◌,
}
use signalattice.Governance.Lane.{
  LaneState, FreezeTrigger, GovernanceError, GovernanceLane, LaneHead, check_head,
  consecutive_soft_breach, hard_integrity, store_error,
}
use signalattice.Governance.Runtime.{Runtime, Payload}

pub data EventKind : Type 0 where
  policy comparison request approval assignment monitoring freezing : EventKind

pub record GovernanceEvent : Type 0 where
  pub lane_identity : String
  pub sequence : ℕ
  pub kind : EventKind
  pub payload : Payload
  pub payload_digest : String
  pub previous_digest : String
  pub chain_digest : String
  pub recorded_at : ℕ

-- The columns of an event, whose payload is stored as its JSON text.
pub record StoredEvent : Type 0 where
  pub lane_identity : String
  pub sequence : ℕ
  pub kind : EventKind
  pub payload : String
  pub payload_digest : String
  pub previous_digest : String
  pub chain_digest : String
  pub recorded_at : ℕ

pub record EventRow : Type 0 where
  pub event : StoredEvent
  pub idempotency_digest : Option String

pub record LaneRow : Type 0 where
  pub lane_key : String
  pub created_at : ℕ

pub record HeadRow : Type 0 where
  pub state : LaneState
  pub champion_revision : Option String
  pub generation : ℕ
  pub freeze_trigger : Option FreezeTrigger
  pub sequence : ℕ
  pub updated_at : ℕ

pub record Store : Type 0 where
  pub lanes : String → Option LaneRow
  pub events : String → List EventRow
  pub links : List String
  pub heads : String → Option HeadRow

abbrev pub empty_store : Store
empty_store = record { lanes = λ k. none; events = λ k. []; links = []; heads = λ k. none }

-- One row of a table written, the others left.
abbrev pub update {ℓ} : {A : Type ℓ} → (String → A) → String → A → String → A
update f k v j = if str_eq j k then v else f j

abbrev pub max_payload_bytes : ℕ
max_payload_bytes = 1_048_576

abbrev pub max_events_per_query : ℕ
max_events_per_query = 100_000

-- "0" * 64
abbrev pub genesis_digest : String
genesis_digest = "0000000000000000000000000000000000000000000000000000000000000000"

-- `EventKind.value`.
abbrev pub kind_value : EventKind → String
kind_value policy = "policy"
kind_value comparison = "comparison"
kind_value request = "request"
kind_value approval = "approval"
kind_value assignment = "assignment"
kind_value monitoring = "monitoring"
kind_value freezing = "freeze"

abbrev pub option_str_eq : Option String → Option String → Bool
option_str_eq none none = true
option_str_eq (some a) (some b) = str_eq a b
option_str_eq none (some b) = false
option_str_eq (some a) none = false

abbrev pub is_trigger : FreezeTrigger → FreezeTrigger → Bool
is_trigger hard_integrity hard_integrity = true
is_trigger consecutive_soft_breach consecutive_soft_breach = true
is_trigger hard_integrity consecutive_soft_breach = false
is_trigger consecutive_soft_breach hard_integrity = false

abbrev pub option_trigger_eq : Option FreezeTrigger → Option FreezeTrigger → Bool
option_trigger_eq none none = true
option_trigger_eq (some a) (some b) = is_trigger a b
option_trigger_eq none (some b) = false
option_trigger_eq (some a) none = false

-- `_require_digest`.
unfoldable pub require_digest : String → Result GovernanceError String
require_digest value = do
  require (length (codes value) == 64 && all is_hex (codes value)) store_error
  ok value

head_of_row : String → Option HeadRow → Result GovernanceError LaneHead
head_of_row lane none = err store_error
head_of_row lane (some row) = check_head (record {
  lane_identity = lane;
  state = row.state;
  champion_revision = row.champion_revision;
  generation = row.generation;
  freeze_trigger = row.freeze_trigger;
})

-- `GovernanceStore.lane_head`.
unfoldable pub lane_head : Store → String → Result GovernanceError LaneHead
unfolding head_of_row
lane_head s lane = head_of_row lane (s.heads lane)

module _ (rt : Runtime) where
  -- `canonical_digest` of shadow/contracts.py.
  abbrev pub canonical_digest : Payload → String
  canonical_digest payload = rt.sha256 (rt.encode payload)

  -- `GovernanceLane.identity`.
  abbrev pub lane_identity : GovernanceLane → String
  lane_identity lane = rt.sha256 (rt.encode_lane lane)

  unfoldable pub chain_digest : String → String → ℕ → EventKind → String
  chain_digest previous payload sequence kind =
      rt.sha256 (previous ++ ":" ++ payload ++ ":" ++ rt.decimal sequence ++ ":" ++ kind_value kind)

  unfoldable pub idempotency_digest : String → Result GovernanceError String
  idempotency_digest key = do
    refuse (str_eq (rt.strip key) "" || ltb 256 (length (codes key))) store_error
    ok (rt.sha256 ("sl-governance-idempotency:" ++ key))

  abbrev pub stored_event : GovernanceEvent → StoredEvent
  stored_event event = record {
    lane_identity = event.lane_identity;
    sequence = event.sequence;
    kind = event.kind;
    payload = rt.encode event.payload;
    payload_digest = event.payload_digest;
    previous_digest = event.previous_digest;
    chain_digest = event.chain_digest;
    recorded_at = event.recorded_at;
  }

  -- `_row_to_event`.
  abbrev pub row_to_event : EventRow → GovernanceEvent
  row_to_event row = record {
    lane_identity = row.event.lane_identity;
    sequence = row.event.sequence;
    kind = row.event.kind;
    payload = rt.decode row.event.payload;
    payload_digest = row.event.payload_digest;
    previous_digest = row.event.previous_digest;
    chain_digest = row.event.chain_digest;
    recorded_at = row.event.recorded_at;
  }

  -- The event chain of a lane: `GovernanceStore.load_events`.
  unfoldable pub load_events : Store → String → Result GovernanceError (List GovernanceEvent)
  load_events s lane = do
    refuse (ltb max_events_per_query (length (s.events lane))) store_error
    ok (map row_to_event (s.events lane))
