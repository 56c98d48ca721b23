-- ===== src/Shadow/Examples/Reading.antt =====
-- The sealed campaign of the examples is closed, and its batch is read back.
use signalattice.Shadow.Revisions.{group_outcomes, load_outcomes}
use signalattice.Shadow.Histories.{BelongsTo, IsRevisedBy, load_outcomes-history}
use signalattice.Shadow.Reading.{is_joined, max_query_rows, summary}
use signalattice.Prelude.{
  Ordered, pos, ◌↔◌, [], length, ok, refl, ℕ, ◌∷◌, ◌≡◌, leb_codes, sorted, ◌≤◌, In, arith, filter,
}
use signalattice.Shadow.{
  ShadowOutcome, assert_campaign_transition, sealed, symbol_matches, symbol_rest,
  validate_campaign_name, validate_symbol, closed, reconciling,
}
use signalattice.Governance.Lane.{field_rest, lane_field_matches}
use signalattice.Shadow.Records.{check_batch, check_outcome}
use signalattice.Shadow.Store.{
  Tables, append_outcome, campaign_state, insert_outcome, read_transition, replay_or_insert,
  require_active, state_of_row, transition, update_state, write_transition,
}
use signalattice.Shadow.Sealing.{
  create_campaign, insert_batch, insert_campaign, insert_forecasts, replay_or_seal, seal_batch,
}
use signalattice.Shadow.Closing.{transitions, transitions-states_left}
use signalattice.Shadow.Lifecycle.{build_and_append, build_and_seal, run, step}
use signalattice.Shadow.Examples.{digest_a, digest_b, spy_outcome, alive, toy}

alive_sealed : campaign_state alive "alpha" ≡ ok sealed
unfolding run step create_campaign insert_campaign transition read_transition write_transition
    update_state campaign_state state_of_row assert_campaign_transition build_and_seal check_batch
    validate_symbol symbol_matches symbol_rest validate_campaign_name lane_field_matches field_rest
    sorted leb_codes seal_batch require_active replay_or_seal insert_batch insert_forecasts
    build_and_append check_outcome append_outcome replay_or_insert insert_outcome
alive_sealed = refl

transitions-states_left_example :
    (t : Tables ℕ) × (transitions alive "alpha" (reconciling ∷ closed ∷ []) 30 ≡ ok t)
    × (campaign_state t "alpha" ≡ ok closed)
    × (2 ≤ 4)
transitions-states_left_example = transitions-states_left alive "alpha" 30 sealed alive_sealed refl

-- The label is corrected, and an outcome is stored of which the campaign has no forecast.
abbrev spy_correction : ShadowOutcome
spy_correction = record spy_outcome { realized_label = "down"; revision = pos 1 }

abbrev corrected : Tables ℕ
corrected = record alive {
  outcomes = record spy_outcome { forecast_id = digest_b } ∷ spy_correction ∷ spy_outcome ∷ [];
}

corrected_loaded :
    (load_outcomes toy corrected "alpha" ≡ ok ((digest_a, spy_outcome ∷ spy_correction ∷ []) ∷ []))
    × (length (filter (is_joined corrected "alpha") corrected.outcomes) ≡ 2)
unfolding run step create_campaign insert_campaign transition read_transition write_transition
    update_state campaign_state state_of_row assert_campaign_transition build_and_seal check_batch
    validate_symbol symbol_matches symbol_rest validate_campaign_name lane_field_matches field_rest
    sorted leb_codes seal_batch require_active replay_or_seal insert_batch insert_forecasts
    build_and_append check_outcome append_outcome replay_or_insert insert_outcome load_outcomes
    group_outcomes
corrected_loaded = (refl, refl)

two_outcomes : length (filter (is_joined corrected "alpha") corrected.outcomes) ≤ max_query_rows
two_outcomes = omega (arith, corrected_loaded.1)

load_outcomes-history_example :
    Ordered IsRevisedBy (spy_outcome ∷ spy_correction ∷ [])
    × ((outcome : ShadowOutcome)
        → In outcome (spy_outcome ∷ spy_correction ∷ [])
          ↔ BelongsTo toy corrected "alpha" digest_a outcome)
load_outcomes-history_example =
    load_outcomes-history toy corrected "alpha" corrected_loaded.0 two_outcomes digest_a

alpha_summary :
    summary alive "alpha"
    ≡ ok (record {
      campaign = "alpha";
      state = sealed;
      batches = 1;
      forecasts = 1;
      outcome_revisions = 1;
    })
unfolding run step create_campaign insert_campaign transition read_transition write_transition
    update_state campaign_state state_of_row assert_campaign_transition build_and_seal check_batch
    validate_symbol symbol_matches symbol_rest validate_campaign_name lane_field_matches field_rest
    sorted leb_codes seal_batch require_active replay_or_seal insert_batch insert_forecasts
    build_and_append check_outcome append_outcome replay_or_insert insert_outcome summary
alpha_summary = refl
