-- ===== src/Shadow/Reading.antt =====
-- The readers of shadow/store.py. A query returns at most MAX_QUERY_ROWS rows, and every row is built
-- again as a record of shadow/contracts.py.
use signalattice.Prelude.{
  Bool, List, Result, String, [], any, codes, filter, leb_codes, length, ltb, ok, sorted, str_eq,
  suc, zero, ℕ, ◌&&◌, ◌==◌, ◌>>=◌, ◌>>◌, ◌||◌, ◌∷◌,
}
use signalattice.Shadow.{
  CampaignState, ShadowError, ShadowForecast, check_forecast, validate_campaign_name, ShadowOutcome,
}
use signalattice.Shadow.Runtime.{ShadowRuntime}
use signalattice.Shadow.Records.{Float, check_vector}
use signalattice.Shadow.Store.{ForecastRow, StoredForecast, Tables, campaign_state, has_id}

abbrev pub max_query_rows : ℕ
max_query_rows = 100_000

-- `LIMIT ?`.
abbrev pub take {ℓ} : {A : Type ℓ} → ℕ → List A → List A
take n [] = []
take zero (x ∷ xs) = []
take (suc n) (x ∷ xs) = x ∷ take n xs

pub record Summary : Type 0 where
  pub campaign : String
  pub state : CampaignState
  pub batches : ℕ
  pub forecasts : ℕ
  pub outcome_revisions : ℕ

module _ {Float : Type 0} where
  abbrev pub is_of : String → ForecastRow Float → Bool
  is_of campaign row = str_eq row.forecast.campaign campaign

  -- `ORDER BY as_of, symbol`.
  abbrev pub is_row_before : ForecastRow Float → ForecastRow Float → Bool
  is_row_before a b =
      ltb a.forecast.as_of b.forecast.as_of
      || (a.forecast.as_of == b.forecast.as_of
          && leb_codes (codes a.forecast.symbol) (codes b.forecast.symbol))

  -- The outcomes of the campaign's forecasts: the join of the two tables.
  abbrev pub is_joined : Tables Float → String → ShadowOutcome → Bool
  is_joined s name outcome = any (has_id outcome.forecast_id) (filter (is_of name) s.forecasts)

  abbrev pub count_outcomes : Tables Float → String → ℕ
  count_outcomes s name = length (filter (is_joined s name) s.outcomes)

  unfoldable pub summary : Tables Float → String → Result ShadowError Summary
  summary s name = do
    validate_campaign_name name
    state ← campaign_state s name
    ok (record {
      campaign = name;
      state = state;
      batches = length (filter (λ row. str_eq row.campaign name) s.batches);
      forecasts = length (filter (is_of name) s.forecasts);
      outcome_revisions = count_outcomes s name;
    })

module _ (rt : ShadowRuntime) where
  -- The record that a row of the query is built into: first its distribution, then the forecast.
  unfoldable pub build_forecast :
      String → StoredForecast → Result ShadowError (ShadowForecast (Float rt))
  build_forecast name row = do
    vector ← check_vector rt (rt.decode_distribution row.distribution)
    check_forecast (record {
      campaign = name;
      symbol = row.symbol;
      as_of = row.as_of;
      target_instant = row.target_instant;
      horizon_days = row.horizon_days;
      distribution = vector;
      feature_prefix_digest = row.feature_prefix_digest;
      model_identity = row.model_identity;
    })

  -- The first row that cannot be built raises.
  unfoldable pub build_forecasts :
      String → List (ForecastRow (Float rt)) → Result ShadowError (List (ShadowForecast (Float rt)))
  build_forecasts name [] = ok []
  build_forecasts name (row ∷ rows) = do
    forecast ← build_forecast name row.forecast
    forecasts ← build_forecasts name rows
    ok (forecast ∷ forecasts)

  unfoldable pub load_forecasts :
      Tables (Float rt) → String → Result ShadowError (List (ShadowForecast (Float rt)))
  unfolding build_forecasts
  load_forecasts s campaign = do
    name ← validate_campaign_name campaign
    build_forecasts name
        (take max_query_rows (sorted is_row_before (filter (is_of name) s.forecasts)))
