-- ===== src/Shadow/Records.antt =====
-- The records of shadow/contracts.py whose checks or identities use floats, digests or the sorting
-- of texts: distributions, outcomes and sealed batches.
use signalattice.Prelude.{
  Bool, List, Result, String, [], all, any, codes, err, if◌then◌else◌, is_empty, is_within, length,
  ltb, ltb_ℤ, map, ok, pos, refuse, require, str_eq, ◌==◌, ◌>>◌, ◌||◌, ◌∷◌, leb_codes, sorted,
}
use signalattice.Shadow.{
  ProbabilityVector, SealedBatch, ShadowError, ShadowForecast, ShadowOutcome, all_unique,
  chronology_error, max_classes, max_symbols_per_batch, validate_campaign_name, validate_symbol,
  validation_error,
}
use signalattice.Shadow.Runtime.{ShadowRuntime}

-- `key=` of `sorted`, for a key that is a text.
abbrev pub by_text {ℓ} : {A : Type ℓ} → (A → String) → A → A → Bool
by_text key a b = leb_codes (codes (key a)) (codes (key b))

-- Every item of the first list is in the second: `not (set(xs) - set(ys))`.
abbrev pub is_covered : List String → List String → Bool
is_covered xs ys = all (λ x. any (str_eq x) ys) xs

-- The first call that raises ends the loop.
abbrev pub validate_symbols : List String → Result ShadowError (List String)
validate_symbols [] = ok []
validate_symbols (s ∷ ss) = do validate_symbol s; validate_symbols ss; ok (s ∷ ss)

abbrev pub symbols_of : {Float : Type 0} → List (ShadowForecast Float) → List String
symbols_of = map (λ forecast. forecast.symbol)

-- `SealedBatch.__post_init__`, whose last two statements sort the universe and the forecasts.
unfoldable pub check_batch :
    {Float : Type 0} → SealedBatch Float → Result ShadowError (SealedBatch Float)
unfolding validate_campaign_name validate_symbol
check_batch batch = do
  validate_campaign_name batch.campaign
  validate_symbols batch.expected_universe
  refuse (is_empty batch.expected_universe) validation_error
  refuse (ltb max_symbols_per_batch (length batch.expected_universe)) validation_error
  require (all_unique batch.expected_universe) validation_error
  require (all (λ forecast. str_eq forecast.campaign batch.campaign) batch.forecasts)
      validation_error
  require (all (λ forecast. forecast.as_of == batch.as_of) batch.forecasts) chronology_error
  require (all_unique (symbols_of batch.forecasts)) validation_error
  require (is_covered batch.expected_universe (symbols_of batch.forecasts)) validation_error
  require (is_covered (symbols_of batch.forecasts) batch.expected_universe) validation_error
  refuse (ltb batch.sealed_at batch.as_of) chronology_error
  ok (record batch {
    expected_universe = sorted (by_text (λ symbol. symbol)) batch.expected_universe;
    forecasts = sorted (by_text (λ forecast. forecast.symbol)) batch.forecasts;
  })

module _ (rt : ShadowRuntime) where
  abbrev pub Float : Type 0
  Float = rt.floats.Float

  -- `ProbabilityVector.__post_init__`.
  unfoldable pub check_vector :
      ProbabilityVector Float → Result ShadowError (ProbabilityVector Float)
  check_vector vector = do
    require (is_within 2 max_classes (length vector.labels)) validation_error
    refuse (any (λ label. str_eq (rt.strip label) "") vector.labels) validation_error
    require (all_unique vector.labels) validation_error
    require (all rt.floats.is_finite vector.probabilities) validation_error
    require (length vector.probabilities == length vector.labels) validation_error
    refuse
        (any
          (λ p.
            rt.floats.is_less p (rt.floats.from_nat 0)
            || rt.floats.is_less (rt.floats.from_nat 1) p)
          vector.probabilities)
        validation_error
    refuse
        (rt.floats.is_less rt.tolerance
          (rt.absolute (rt.floats.minus (rt.fsum vector.probabilities) (rt.floats.from_nat 1))))
        validation_error
    ok vector

  -- The probability that stands at the position of the label's first occurrence; a checked vector
  -- has as many labels as probabilities.
  unfoldable pub probability_at : String → List String → List Float → Result ShadowError Float
  probability_at label [] ps = err validation_error
  probability_at label (l ∷ ls) [] = err validation_error
  probability_at label (l ∷ ls) (p ∷ ps) =
      let rest = probability_at label ls ps in if str_eq l label then ok p else rest

  unfoldable pub probability_of : ProbabilityVector Float → String → Result ShadowError Float
  unfolding probability_at
  probability_of vector label = probability_at label vector.labels vector.probabilities

  -- `ShadowOutcome.__post_init__`.
  unfoldable pub check_outcome : ShadowOutcome → Result ShadowError ShadowOutcome
  check_outcome outcome = do
    require (length (codes outcome.forecast_id) == 64) validation_error
    refuse (str_eq (rt.strip outcome.realized_label) "") validation_error
    refuse (ltb outcome.recorded_at outcome.observed_at) chronology_error
    refuse (ltb_ℤ outcome.revision (pos 0)) validation_error
    ok outcome

  -- `ShadowForecast.forecast_id`, `SealedBatch.batch_id`.
  abbrev pub forecast_id : ShadowForecast Float → String
  forecast_id forecast = rt.sha256 (rt.encode_forecast forecast)

  abbrev pub batch_id : SealedBatch Float → String
  batch_id batch = rt.sha256 (
      rt.encode_batch batch.campaign batch.as_of batch.expected_universe
        (map forecast_id batch.forecasts))
