-- ===== src/Shadow/Interleaving/Examples.antt =====
-- The interleaved steps of a small campaign, on which the theorems about the interleavings are
-- applied.
use signalattice.Prelude.{[], err, false, leb_codes, ok, pos, refl, some, sorted, true, ℕ, ◌∷◌, ◌≡◌}
use signalattice.Governance.Store.Tables.{update}
use signalattice.Shadow.{
  ShadowOutcome, abandoned, active, assert_campaign_transition, conflict_error, draft, sealed,
  symbol_matches, symbol_rest, validate_campaign_name, validate_symbol,
}
use signalattice.Governance.Lane.{field_rest, lane_field_matches}
use signalattice.Shadow.Records.{check_batch, check_outcome}
use signalattice.Shadow.Store.{
  CampaignRow, Tables, append_outcome, campaign_state, empty_tables, insert_outcome,
  is_same_outcome, read_transition, replay_or_insert, require_active, state_of_row, stored_outcome,
  transition, update_state, write_transition,
}
use signalattice.Shadow.Sealing.{
  create_campaign, draft_row, insert_batch, insert_campaign, insert_forecasts, replay_or_seal,
  seal_batch,
}
use signalattice.Shadow.Lifecycle.{build_and_append, build_and_seal, moving, run, step}
use signalattice.Shadow.Interleaving.{
  Steps, System, creates, here, inserts_batch, looks, next, reads_active, reads_transition,
  writes_transition,
}
use signalattice.Shadow.Interleaving.Outcomes.{outcome_recorded}
use signalattice.Shadow.Interleaving.Opinions.{IsSound, Steps-IsSound}
use signalattice.Shadow.Interleaving.Reopening.{sealed_campaign_reopens, terminal_for_good}
use signalattice.Shadow.Examples.{
  active_tables, batch_tables, creation, digest_a, draft_tables, sealed_tables, spy_batch,
  spy_outcome, toy,
}

-- The same life as interleaved steps of one caller.
abbrev idle : Tables ℕ → System toy
idle t = record { tables = t; readers = [] }

draft_history : Steps toy (idle empty_tables) (idle draft_tables)
unfolding run step create_campaign insert_campaign transition read_transition write_transition
    update_state campaign_state state_of_row assert_campaign_transition build_and_seal check_batch
    validate_symbol symbol_matches symbol_rest validate_campaign_name lane_field_matches field_rest
    sorted leb_codes seal_batch require_active replay_or_seal insert_batch insert_forecasts
    build_and_append check_outcome append_outcome replay_or_insert insert_outcome
draft_history =
    next here (creates "alpha" (pos 5) ("up" ∷ "down" ∷ []) digest_a 1 draft_tables refl refl)

active_history : Steps toy (idle empty_tables) (idle active_tables)
unfolding run step create_campaign insert_campaign transition read_transition write_transition
    update_state campaign_state state_of_row assert_campaign_transition build_and_seal check_batch
    validate_symbol symbol_matches symbol_rest validate_campaign_name lane_field_matches field_rest
    sorted leb_codes seal_batch require_active replay_or_seal insert_batch insert_forecasts
    build_and_append check_outcome append_outcome replay_or_insert insert_outcome
active_history =
    next (next draft_history (reads_transition "alpha" draft active 2 refl refl))
      (writes_transition "alpha" draft active 2 [] [] active_tables refl refl refl)

batch_history : Steps toy (idle empty_tables) (idle batch_tables)
unfolding run step create_campaign insert_campaign transition read_transition write_transition
    update_state campaign_state state_of_row assert_campaign_transition build_and_seal check_batch
    validate_symbol symbol_matches symbol_rest validate_campaign_name lane_field_matches field_rest
    sorted leb_codes seal_batch require_active replay_or_seal insert_batch insert_forecasts
    build_and_append check_outcome append_outcome replay_or_insert insert_outcome
batch_history =
    next
      (next (next active_history (reads_active spy_batch refl refl))
        (looks spy_batch [] [] refl refl refl))
      (inserts_batch spy_batch [] [] batch_tables refl refl refl)

sealing_history : Steps toy (idle batch_tables) (idle sealed_tables)
unfolding run step create_campaign insert_campaign transition read_transition write_transition
    update_state campaign_state state_of_row assert_campaign_transition build_and_seal check_batch
    validate_symbol symbol_matches symbol_rest validate_campaign_name lane_field_matches field_rest
    sorted leb_codes seal_batch require_active replay_or_seal insert_batch insert_forecasts
    build_and_append check_outcome append_outcome replay_or_insert insert_outcome
sealing_history =
    next (next here (reads_transition "alpha" active sealed 12 refl refl))
      (writes_transition "alpha" active sealed 12 [] [] sealed_tables refl refl refl)

Steps-IsSound_example : IsSound batch_tables
Steps-IsSound_example = Steps-IsSound toy batch_history

draft_read : campaign_state draft_tables "alpha" ≡ ok draft
unfolding run step create_campaign insert_campaign transition read_transition write_transition
    update_state campaign_state state_of_row assert_campaign_transition build_and_seal check_batch
    validate_symbol symbol_matches symbol_rest validate_campaign_name lane_field_matches field_rest
    sorted leb_codes seal_batch require_active replay_or_seal insert_batch insert_forecasts
    build_and_append check_outcome append_outcome replay_or_insert insert_outcome
draft_read = refl

sealed_campaign_reopens_example :
    (u v : System toy) × Steps toy (idle draft_tables) u
    × (campaign_state u.tables "alpha" ≡ ok sealed)
    × Steps toy u v
    × (campaign_state v.tables "alpha" ≡ ok active)
sealed_campaign_reopens_example =
    sealed_campaign_reopens toy (idle draft_tables) "alpha" 3 draft_read

abbrev scored_tables : Tables ℕ
scored_tables = record batch_tables { outcomes = spy_outcome ∷ [] }

outcome_appended : append_outcome batch_tables spy_outcome ≡ ok (pos 0, scored_tables)
unfolding run step create_campaign insert_campaign transition read_transition write_transition
    update_state campaign_state state_of_row assert_campaign_transition build_and_seal check_batch
    validate_symbol symbol_matches symbol_rest validate_campaign_name lane_field_matches field_rest
    sorted leb_codes seal_batch require_active replay_or_seal insert_batch insert_forecasts
    build_and_append check_outcome append_outcome replay_or_insert insert_outcome
outcome_appended = refl

abbrev sealed_scored_tables : Tables ℕ
sealed_scored_tables = record sealed_tables { outcomes = spy_outcome ∷ [] }

sealing_scored_history : Steps toy (idle scored_tables) (idle sealed_scored_tables)
unfolding run step create_campaign insert_campaign transition read_transition write_transition
    update_state campaign_state state_of_row assert_campaign_transition build_and_seal check_batch
    validate_symbol symbol_matches symbol_rest validate_campaign_name lane_field_matches field_rest
    sorted leb_codes seal_batch require_active replay_or_seal insert_batch insert_forecasts
    build_and_append check_outcome append_outcome replay_or_insert insert_outcome
sealing_scored_history =
    next (next here (reads_transition "alpha" active sealed 12 refl refl))
      (writes_transition "alpha" active sealed 12 [] [] sealed_scored_tables refl refl refl)

outcome_recorded_example :
    (row : ShadowOutcome) × (stored_outcome sealed_scored_tables digest_a (pos 0) ≡ some row)
    × (is_same_outcome row spy_outcome ≡ true)
    × (append_outcome sealed_scored_tables spy_outcome ≡ ok (pos 0, sealed_scored_tables))
    × ((other : ShadowOutcome)
        → other.forecast_id ≡ digest_a
        → other.revision ≡ pos 0
        → is_same_outcome row other ≡ false
        → append_outcome sealed_scored_tables other ≡ err conflict_error)
outcome_recorded_example =
    outcome_recorded toy (idle batch_tables) (idle sealed_scored_tables) spy_outcome
      outcome_appended sealing_scored_history

abbrev abandoned_row : CampaignRow
abandoned_row = record (draft_row toy (pos 5) ("up" ∷ "down" ∷ []) digest_a 1) { state = abandoned }

abbrev abandoned_tables : Tables ℕ
abandoned_tables = run toy empty_tables (creation ∷ moving "alpha" abandoned 2 ∷ [])

abbrev later_tables : Tables ℕ
later_tables = record abandoned_tables {
  campaigns =
      update abandoned_tables.campaigns "beta"
        (some (draft_row toy (pos 5) ("up" ∷ "down" ∷ []) digest_a 1));
}

abandoned_stored : abandoned_tables.campaigns "alpha" ≡ some abandoned_row
unfolding run step create_campaign insert_campaign transition read_transition write_transition
    update_state campaign_state state_of_row assert_campaign_transition build_and_seal check_batch
    validate_symbol symbol_matches symbol_rest validate_campaign_name lane_field_matches field_rest
    sorted leb_codes seal_batch require_active replay_or_seal insert_batch insert_forecasts
    build_and_append check_outcome append_outcome replay_or_insert insert_outcome
abandoned_stored = refl

later_history : Steps toy (idle abandoned_tables) (idle later_tables)
unfolding run step create_campaign insert_campaign transition read_transition write_transition
    update_state campaign_state state_of_row assert_campaign_transition build_and_seal check_batch
    validate_symbol symbol_matches symbol_rest validate_campaign_name lane_field_matches field_rest
    sorted leb_codes seal_batch require_active replay_or_seal insert_batch insert_forecasts
    build_and_append check_outcome append_outcome replay_or_insert insert_outcome
later_history =
    next here (creates "beta" (pos 5) ("up" ∷ "down" ∷ []) digest_a 1 later_tables refl refl)

terminal_for_good_example : later_tables.campaigns "alpha" ≡ some abandoned_row
terminal_for_good_example =
    terminal_for_good toy {s = idle abandoned_tables} {u = idle later_tables} "alpha" abandoned_row
      refl abandoned_stored later_history
