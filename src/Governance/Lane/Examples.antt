-- ===== src/Governance/Lane/Examples.antt =====
-- Requests and lane fields on which the theorems about governance/lane.py are applied.
use signalattice.Prelude.{List, [], codes, ok, refl, true, ℕ, ◌++◌, ◌∷◌, ◌≡◌}
use signalattice.Governance.Lane.{
  applied, approved, assert_request_transition, awaiting_approval, lane_field_matches,
}
use signalattice.Governance.Lane.Requests.{run_request}
use signalattice.Governance.Lane.Fields.{accepts_newline}

applied_history : run_request awaiting_approval (approved ∷ applied ∷ []) ≡ ok applied
unfolding run_request assert_request_transition
applied_history = refl

abbrev after_first : List ℕ
after_first = codes "aily"

accepted_daily : lane_field_matches (100 ∷ after_first) ≡ true
unfolding lane_field_matches
accepted_daily = refl

accepts_newline_example : lane_field_matches ((100 ∷ after_first) ++ 10 ∷ []) ≡ true
accepts_newline_example = accepts_newline 100 after_first refl accepted_daily
