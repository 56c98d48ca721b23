-- ===== src/Governance/Lane/Requests.antt =====
-- What the request machine of governance/lane.py allows over whole histories.
use signalattice.Prelude.{
  ◌≡◌, refl, ◌⊎◌, true, List, [], ◌∷◌, any, Result, ok, err, arith, ◌>>◌, ◌≢◌, inl, length, ◌↔◌,
  ◌≤◌,
}
use signalattice.Governance.Lane.{
  GovernanceError, RequestState, awaiting_approval, approved, applied, assert_request_transition,
  request_state_eq, state_error, terminal_request_states, LaneState, active, assert_lane_transition,
  frozen, unassigned,
}

-- A request that is taken through a list of states, each step asserted first.
unfoldable pub run_request : RequestState → List RequestState → Result GovernanceError RequestState
run_request s [] = ok s
run_request s (t ∷ ts) = do assert_request_transition s t; run_request t ts

abbrev pub IsTerminal : RequestState → Type 0
IsTerminal s = any (request_state_eq s) terminal_request_states ≡ true

-- A transition out of a terminal state is refused, whatever its target.
terminal_refuses :
    (s t : RequestState) → IsTerminal s → assert_request_transition s t ≡ err state_error
unfolding assert_request_transition
terminal_refuses s t h = ground arith

terminal-run_request :
    (s : RequestState) (ts : List RequestState) {t : RequestState}
    → IsTerminal s
    → run_request s ts ≡ ok t
    → ts ≡ []
unfolding run_request
terminal-run_request s [] h e = refl
terminal-run_request s (t ∷ ts) h e = ground (arith, terminal_refuses s t h)

-- What an accepted step out of `approved` leads to.
approved_step : (t : RequestState) → assert_request_transition approved t ≡ ok tt → IsTerminal t
unfolding assert_request_transition
approved_step t h = ground arith

awaiting_step :
    (t : RequestState)
    → assert_request_transition awaiting_approval t ≡ ok tt
    → (t ≡ approved) ⊎ (IsTerminal t × (t ≢ applied))
unfolding assert_request_transition
awaiting_step t h = ground arith

approved_history :
    (ts : List RequestState) {t : RequestState}
    → run_request approved ts ≡ ok t
    → (ts ≡ []) × (t ≡ approved) ⊎ (ts ≡ t ∷ []) × IsTerminal t
unfolding run_request
approved_history [] e = inl (refl, ground arith)
approved_history (u ∷ us) {t} e = ground (arith, approved_step u, terminal-run_request u us {t = t})

-- From `awaiting_approval`, an accepted history that ends in `applied` is the approval and then
-- the application, and no accepted history has more than two steps.
request_histories :
    (ts : List RequestState) {t : RequestState}
    → run_request awaiting_approval ts ≡ ok t
    → (length ts ≤ 2) × (t ≡ applied → ts ≡ approved ∷ applied ∷ [])
unfolding run_request
request_histories [] e = ground arith
request_histories (u ∷ us) {t} e =
    ground (arith, awaiting_step u, approved_history us {t = t}, terminal-run_request u us {t = t})

-- `assert_lane_transition` lets a lane be frozen only while it is active, and lets a frozen lane
-- only become active; it never lets a lane become unassigned.
lane_freezing :
    (s t : LaneState)
    → (assert_lane_transition s frozen ≡ ok tt ↔ (s ≡ active))
      × (assert_lane_transition frozen t ≡ ok tt ↔ (t ≡ active))
      × (assert_lane_transition s unassigned ≡ err state_error)
unfolding assert_lane_transition
lane_freezing s t = ground arith
