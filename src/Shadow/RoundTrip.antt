-- ===== src/Shadow/RoundTrip.antt =====
-- A batch that `seal_batch` of shadow/store.py has inserted is what `load_forecasts` reads back.
use signalattice.Prelude.{In, String, arith, ok, ◌≡◌}
use signalattice.Shadow.{ShadowForecast, check_forecast, validate_campaign_name}
use signalattice.Shadow.Runtime.{ShadowRuntime}
use signalattice.Shadow.Records.{Float, check_vector}
use signalattice.Shadow.Store.{ForecastRow, Tables}
use signalattice.Shadow.Sealing.{stored_forecast}
use signalattice.Shadow.Loading.{IsReadable}

module _ (rt : ShadowRuntime) where
  -- The forecast and its distribution pass the checks of their constructors, and the distribution
  -- is read back from its JSON text as it was.
  pub record IsWhole (f : ShadowForecast (Float rt)) : Type 0 where
    pub vector_checked : check_vector rt f.distribution ≡ ok f.distribution
    pub forecast_checked : check_forecast f ≡ ok f
    pub restored : rt.decode_distribution (rt.encode_distribution f.distribution) ≡ f.distribution

  -- The tables hold a row of the forecast.
  abbrev Held : Tables (Float rt) → ShadowForecast (Float rt) → Type 0
  Held s f =
      (row : ForecastRow (Float rt)) × In row s.forecasts × (row.forecast ≡ stored_forecast rt f)

  abbrev pub IsOwnReadable : ForecastRow (Float rt) → Type 0
  IsOwnReadable row = IsReadable rt row.forecast.campaign row

  validate_campaign_name-same :
      (name : String) {checked : String} → validate_campaign_name name ≡ ok checked → name ≡ checked
  unfolding validate_campaign_name
  validate_campaign_name-same name e = ground arith
