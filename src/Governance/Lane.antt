-- ===== src/Governance/Lane.antt =====
-- src/quant_platform/governance/lane.py: lane identity, the lane head, and the two state machines
-- as explicit transition tables. A raised exception is the error of a `Result`; the `isinstance`
-- tests are the types.
pub mod Requests
pub mod Fields
mod Examples
use signalattice.Prelude.{
  ℕ, zero, suc, String, Bool, true, false, ◌&&◌, ◌||◌, Option, none, some, List, [], ◌∷◌, any, leb,
  Result, ok, err, require, refuse, ◌>>=◌, ◌>>◌, is_some, ◌==◌, codes, is_lower, is_digit, length,
  ℤ, pos, leb_ℤ, str_eq, if◌then◌else◌, bool_eq,
}

-- The exceptions of the package that these modules raise; `database_error` is a
-- `sqlite3.DatabaseError` from a constraint or a trigger of the schema, `key_error` a `KeyError`.
pub data GovernanceError : Type 0 where
  validation_error state_error store_error chain_integrity stale_write database_error :
      GovernanceError
  key_error : GovernanceError

pub data LaneState : Type 0 where
  unassigned active frozen : LaneState

pub data RequestState : Type 0 where
  awaiting_approval approved applied rejected withdrawn expired stale revoked : RequestState

pub data FreezeTrigger : Type 0 where
  hard_integrity consecutive_soft_breach : FreezeTrigger

-- The position of a member; members are compared by identity.
abbrev pub lane_state_index : LaneState → ℕ
lane_state_index unassigned = 0
lane_state_index active = 1
lane_state_index frozen = 2

abbrev pub request_state_index : RequestState → ℕ
request_state_index awaiting_approval = 0
request_state_index approved = 1
request_state_index applied = 2
request_state_index rejected = 3
request_state_index withdrawn = 4
request_state_index expired = 5
request_state_index stale = 6
request_state_index revoked = 7

unfoldable pub lane_state_eq : LaneState → LaneState → Bool
lane_state_eq a b = lane_state_index a == lane_state_index b

unfoldable pub request_state_eq : RequestState → RequestState → Bool
request_state_eq a b = request_state_index a == request_state_index b

abbrev pub max_lane_field_chars : ℕ
max_lane_field_chars = 64

abbrev pub max_generation : ℕ
max_generation = 1_000_000

-- `_LANE_TRANSITIONS`.
abbrev pub lane_transitions : List (LaneState × LaneState)
lane_transitions =
    (unassigned, active) ∷ (active, active) ∷ (active, frozen) ∷ (frozen, active) ∷ []

abbrev pub terminal_request_states : List RequestState
terminal_request_states = applied ∷ rejected ∷ withdrawn ∷ expired ∷ stale ∷ revoked ∷ []

-- `_REQUEST_TRANSITIONS`.
abbrev pub request_transitions : List (RequestState × RequestState)
request_transitions =
    (awaiting_approval, approved)
    ∷ (awaiting_approval, rejected)
    ∷ (awaiting_approval, withdrawn)
    ∷ (awaiting_approval, expired)
    ∷ (awaiting_approval, stale)
    ∷ (approved, applied)
    ∷ (approved, revoked)
    ∷ (approved, expired)
    ∷ (approved, stale)
    ∷ []

unfoldable pub assert_lane_transition : LaneState → LaneState → Result GovernanceError (Unit {0})
unfolding lane_state_eq
assert_lane_transition current target =
    require (any (λ t. lane_state_eq current t.0 && lane_state_eq target t.1) lane_transitions)
      state_error

unfoldable pub assert_request_transition :
    RequestState → RequestState → Result GovernanceError (Unit {0})
unfolding request_state_eq
assert_request_transition current target = do
  refuse (any (request_state_eq current) terminal_request_states) state_error
  require
      (any (λ t. request_state_eq current t.0 && request_state_eq target t.1) request_transitions)
      state_error

-- `[a-z0-9_\-]`.
abbrev pub is_field_char : ℕ → Bool
is_field_char c = is_lower c || is_digit c || c == b'_' || c == b'-'

-- The `$` of the pattern: the end of the text, or a newline that ends it.
abbrev pub at_end : List ℕ → Bool
at_end [] = true
at_end (c ∷ []) = c == 10
at_end (c ∷ d ∷ cs) = false

-- `[a-z0-9_\-]{0,k}$`.
unfoldable pub field_rest : ℕ → List ℕ → Bool
field_rest k [] = true
field_rest zero (c ∷ cs) = at_end (c ∷ cs)
field_rest (suc k) (c ∷ cs) =
    let rest = field_rest k cs in if is_field_char c then rest else at_end (c ∷ cs)

-- `_LANE_FIELD_PATTERN.match`.
unfoldable pub lane_field_matches : List ℕ → Bool
unfolding field_rest
lane_field_matches [] = false
lane_field_matches (c ∷ cs) = is_lower c && field_rest 63 cs

unfoldable pub lane_field : String → Result GovernanceError String
unfolding lane_field_matches
lane_field value = if lane_field_matches (codes value) then ok value else err validation_error

pub record GovernanceLane : Type 0 where
  pub purpose : String
  pub target : String
  pub horizon_days : ℤ
  pub frequency : String
  pub universe : String
  pub decision_policy : String
  pub environment : String

-- `GovernanceLane.__post_init__`.
unfoldable pub check_lane : GovernanceLane → Result GovernanceError GovernanceLane
unfolding lane_field
check_lane lane = do
  lane_field lane.purpose
  lane_field lane.target
  lane_field lane.frequency
  lane_field lane.universe
  lane_field lane.decision_policy
  lane_field lane.environment
  require (leb_ℤ (pos 1) lane.horizon_days && leb_ℤ lane.horizon_days (pos 365)) validation_error
  ok lane

-- `generation` is stored under a check that it is not negative.
pub record LaneHead : Type 0 where
  pub lane_identity : String
  pub state : LaneState
  pub champion_revision : Option String
  pub generation : ℕ
  pub freeze_trigger : Option FreezeTrigger

-- `not champion_revision`: absent, or the empty text.
abbrev pub is_falsy : Option String → Bool
is_falsy none = true
is_falsy (some s) = str_eq s ""

-- `LaneHead.__post_init__`.
unfoldable pub check_head : LaneHead → Result GovernanceError LaneHead
unfolding lane_state_eq
check_head head = do
  require (length (codes head.lane_identity) == 64) validation_error
  require (leb head.generation max_generation) validation_error
  refuse (lane_state_eq head.state unassigned && is_some head.champion_revision) validation_error
  refuse (lane_state_eq head.state active && is_falsy head.champion_revision) validation_error
  require (bool_eq (lane_state_eq head.state frozen) (is_some head.freeze_trigger)) validation_error
  ok head
