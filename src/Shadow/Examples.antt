-- ===== src/Shadow/Examples.antt =====
-- A small campaign on which the theorems about the shadow campaigns are applied.
pub mod Reading
use signalattice.Shadow.Freezing.{IsPastActive, forecasts_of, sealed_forecasts}
use signalattice.Prelude.{
  List, [], if◌then◌else◌, leb, length, ltb, ok, pos, refl, true, ℕ, ◌*◌, ◌+◌, ◌-◌, ◌∷◌, ◌≡◌,
  String, leb_codes, sorted,
}
use signalattice.Service.Admission.Arithmetic.{Floats}
use signalattice.Shadow.{
  ProbabilityVector, SealedBatch, ShadowForecast, ShadowOutcome, assert_campaign_transition, active,
  assert_precedes, check_forecast, observed, sealed, symbol_matches, symbol_rest,
  validate_campaign_name, validate_symbol,
}
use signalattice.Governance.Lane.{field_rest, lane_field_matches}
use signalattice.Shadow.Runtime.{ShadowRuntime}
use signalattice.Shadow.Records.{
  check_batch, check_outcome, check_vector, probability_at, probability_of, Float, forecast_id,
}
use signalattice.Shadow.Store.{
  Tables, append_outcome, campaign_state, empty_tables, insert_outcome, read_transition,
  replay_or_insert, require_active, state_of_row, transition, update_state, write_transition,
}
use signalattice.Shadow.Sealing.{
  create_campaign, insert_batch, insert_campaign, insert_forecasts, replay_or_seal, seal_batch,
}
use signalattice.Shadow.Lifecycle.{
  Call, build_and_append, build_and_seal, creating, moving, recording, run, sealing, step,
}
use signalattice.Shadow.Paths.{Logged, log_of, run-IsPath}

abbrev pub digest_a : String
digest_a = "aaaaaaaaaaaaaaaaaaaaaaaaaaaaaaaaaaaaaaaaaaaaaaaaaaaaaaaaaaaaaaaa"

abbrev pub digest_b : String
digest_b = "bbbbbbbbbbbbbbbbbbbbbbbbbbbbbbbbbbbbbbbbbbbbbbbbbbbbbbbbbbbbbbbb"

-- Probabilities in percent.
abbrev pub percents : Floats
percents = record {
  Float = ℕ;
  from_nat = λ n. n * 100;
  is_finite = λ n. true;
  is_less = ltb;
  is_at_most = leb;
  plus = λ m n. m + n;
  minus = λ m n. m - n;
  times = λ m n. m * n;
  minimum = λ m n. if leb m n then m else n;
  least_rate = 1;
  greatest_rate = 10000;
}

abbrev pub sum : List ℕ → ℕ
sum [] = 0
sum (n ∷ ns) = n + sum ns

abbrev pub toy : ShadowRuntime
toy = record {
  floats = percents;
  fsum = sum;
  absolute = λ n. n;
  tolerance = 0;
  strip = λ text. text;
  sha256 = λ text. digest_a;
  encode_forecast = λ forecast. forecast.symbol;
  encode_batch = λ campaign as_of universe identities. campaign;
  encode_distribution = λ vector. "[0.7, 0.3]";
  decode_distribution =
      λ text. record { labels = "up" ∷ "down" ∷ []; probabilities = 70 ∷ 30 ∷ [] };
  encode_labels = λ labels. "[]";
}

abbrev pub up_or_down : ProbabilityVector ℕ
up_or_down = record { labels = "up" ∷ "down" ∷ []; probabilities = 70 ∷ 30 ∷ [] }

abbrev pub spy_forecast : ShadowForecast ℕ
spy_forecast = record {
  campaign = "alpha";
  symbol = "SPY";
  as_of = 10;
  target_instant = 20;
  horizon_days = pos 5;
  distribution = up_or_down;
  feature_prefix_digest = digest_b;
  model_identity = digest_a;
}

abbrev pub spy_batch : SealedBatch ℕ
spy_batch = record {
  campaign = "alpha";
  as_of = 10;
  expected_universe = "SPY" ∷ [];
  forecasts = spy_forecast ∷ [];
  sealed_at = 11;
}

abbrev pub spy_outcome : ShadowOutcome
spy_outcome = record {
  forecast_id = digest_a;
  realized_label = "up";
  observed_at = 20;
  recorded_at = 21;
  revision = pos 0;
  status = observed;
}

up_or_down_checked : check_vector toy up_or_down ≡ ok up_or_down
unfolding check_vector
up_or_down_checked = refl

down_probability : probability_of toy up_or_down "down" ≡ ok 30
unfolding probability_of probability_at
down_probability = refl

pub spy_forecast_checked : check_forecast spy_forecast ≡ ok spy_forecast
unfolding check_forecast validate_campaign_name validate_symbol symbol_matches symbol_rest
    lane_field_matches field_rest
spy_forecast_checked = refl

late_outcome_allowed : assert_precedes spy_forecast 20 ≡ ok tt
unfolding assert_precedes
late_outcome_allowed = refl

-- The calls of a campaign's life: it is created, activated, gets its batch, is sealed, and an
-- outcome is recorded.
abbrev pub creation : Call toy
creation = creating "alpha" (pos 5) ("up" ∷ "down" ∷ []) digest_a 1

abbrev pub life : List (Call toy)
life =
    creation
    ∷ moving "alpha" active 2
    ∷ sealing spy_batch
    ∷ moving "alpha" sealed 12
    ∷ recording spy_outcome
    ∷ []

abbrev pub draft_tables : Tables ℕ
draft_tables = run toy empty_tables (creation ∷ [])

abbrev pub active_tables : Tables ℕ
active_tables = run toy empty_tables (creation ∷ moving "alpha" active 2 ∷ [])

abbrev pub batch_tables : Tables ℕ
batch_tables = run toy empty_tables (creation ∷ moving "alpha" active 2 ∷ sealing spy_batch ∷ [])

abbrev pub sealed_tables : Tables ℕ
sealed_tables =
    run toy empty_tables
      (creation ∷ moving "alpha" active 2 ∷ sealing spy_batch ∷ moving "alpha" sealed 12 ∷ [])

abbrev pub alive : Tables ℕ
alive = run toy empty_tables life

life_states :
    (length alive.transitions ≡ 2) × (length alive.forecasts ≡ 1) × (length alive.outcomes ≡ 1)
unfolding run step create_campaign insert_campaign transition read_transition write_transition
    update_state campaign_state state_of_row assert_campaign_transition build_and_seal check_batch
    validate_symbol symbol_matches symbol_rest validate_campaign_name lane_field_matches field_rest
    sorted leb_codes seal_batch require_active replay_or_seal insert_batch insert_forecasts
    build_and_append check_outcome append_outcome replay_or_insert insert_outcome
life_states = (refl, refl, refl)

run-IsPath_example : Logged (alive.campaigns "alpha") (log_of toy alive "alpha")
run-IsPath_example = run-IsPath toy life "alpha"

sealed_past : IsPastActive (alive.campaigns "alpha")
unfolding run step create_campaign insert_campaign transition read_transition write_transition
    update_state campaign_state state_of_row assert_campaign_transition build_and_seal check_batch
    validate_symbol symbol_matches symbol_rest validate_campaign_name lane_field_matches field_rest
    sorted leb_codes seal_batch require_active replay_or_seal insert_batch insert_forecasts
    build_and_append check_outcome append_outcome replay_or_insert insert_outcome
sealed_past = refl

sealed_forecasts_example :
    IsPastActive ((run toy alive (sealing spy_batch ∷ [])).campaigns "alpha")
    × (forecasts_of toy (run toy alive (sealing spy_batch ∷ [])) "alpha"
        ≡ forecasts_of toy alive "alpha")
sealed_forecasts_example = sealed_forecasts toy alive "alpha" (sealing spy_batch ∷ []) sealed_past

spy_batch_checked : check_batch spy_batch ≡ ok spy_batch
unfolding run step create_campaign insert_campaign transition read_transition write_transition
    update_state campaign_state state_of_row assert_campaign_transition build_and_seal check_batch
    validate_symbol symbol_matches symbol_rest validate_campaign_name lane_field_matches field_rest
    sorted leb_codes seal_batch require_active replay_or_seal insert_batch insert_forecasts
    build_and_append check_outcome append_outcome replay_or_insert insert_outcome
spy_batch_checked = refl
