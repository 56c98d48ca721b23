-- ===== src/Promotion/Cohorts.antt =====
-- governance/comparison.py: the exact pairing of two arms. Outcomes are a function of the forecast's
-- identity, which returns no revision for a key that is missing.
use signalattice.Prelude.{
  Bool, List, Option, Result, String, [], if◌then◌else◌, is_ok, length, none, not, ok, require,
  some, sorted, str_eq, ℕ, ◌++◌, ◌+◌, ◌/◌, ◌==◌, ◌>>=◌, ◌>>◌, ◌∷◌,
}
use signalattice.Shadow.{ShadowForecast, ShadowOutcome, assert_precedes}
use signalattice.Shadow.Records.{forecast_id}
use signalattice.Promotion.{
  DecisionError, PairedCohort, PairedScore, comparison_error, leakage_error,
}
use signalattice.Promotion.Keys.{
  check_cohort, count_only, day, index_forecasts, is_key_before, key_of, latest_observed,
  match_keys,
}
use signalattice.Promotion.Scores.{Number, brier_score, log_score}
use signalattice.Promotion.Runtime.{PromotionRuntime}

module _ (rt : PromotionRuntime) where
  unfoldable pub score_pair :
      ShadowForecast (Number rt)
      → ShadowForecast (Number rt)
      → String
      → Result DecisionError (PairedScore (Number rt))
  score_pair champion challenger label = do
    champion_brier ← brier_score rt champion.distribution label
    challenger_brier ← brier_score rt challenger.distribution label
    champion_log ← log_score rt champion.distribution label
    challenger_log ← log_score rt challenger.distribution label
    ok (record {
      key = key_of champion;
      as_of_date = champion.as_of / day;
      champion_brier = champion_brier;
      challenger_brier = challenger_brier;
      champion_log = champion_log;
      challenger_log = challenger_log;
    })

  -- Both outcomes of a pair are of one label, and neither forecast could have consumed its own.
  unfoldable pub check_pair :
      ShadowForecast (Number rt)
      → ShadowForecast (Number rt)
      → ShadowOutcome
      → ShadowOutcome
      → Result DecisionError (Unit {0})
  check_pair champion challenger champion_outcome challenger_outcome = do
    require (str_eq champion_outcome.realized_label challenger_outcome.realized_label)
        comparison_error
    require (is_ok (assert_precedes champion champion_outcome.observed_at)) leakage_error
    require (is_ok (assert_precedes challenger challenger_outcome.observed_at)) leakage_error

  -- What the loop has so far.
  pub record Paired : Type 0 where
    pub pairs : List (PairedScore (Number rt))
    pub champion_unscored : ℕ
    pub challenger_unscored : ℕ

  abbrev pub unscored : Option ShadowOutcome → ℕ
  unscored none = 1
  unscored (some o) = 0

  -- The body of the loop, with the latest observed outcome of each arm.
  unfoldable pub pair_with :
      ShadowForecast (Number rt)
      → ShadowForecast (Number rt)
      → Option ShadowOutcome
      → Option ShadowOutcome
      → Result DecisionError (List (PairedScore (Number rt)))
  pair_with champion challenger (some a) (some b) = do
    check_pair champion challenger a b
    pair ← score_pair champion challenger a.realized_label
    ok (pair ∷ [])
  pair_with champion challenger none b = ok []
  pair_with champion challenger (some a) none = ok []

  -- `champion_unscored / len(shared) if shared else 0.0`.
  abbrev pub missing_rate : ℕ → ℕ → (Number rt)
  missing_rate count shared =
      if shared == 0
      then rt.shadow.floats.from_nat 0
      else rt.divide (rt.shadow.floats.from_nat count) (rt.shadow.floats.from_nat shared)

  abbrev pub outcome_of :
      (String → List ShadowOutcome) → ShadowForecast (Number rt) → Option ShadowOutcome
  outcome_of outcomes forecast = latest_observed (outcomes (forecast_id rt.shadow forecast))

  abbrev pub added :
      List (PairedScore (Number rt)) → Option ShadowOutcome → Option ShadowOutcome → Paired → Paired
  added found a b later = record {
    pairs = found ++ later.pairs;
    champion_unscored = unscored a + later.champion_unscored;
    challenger_unscored = unscored b + later.challenger_unscored;
  }

  -- The keys that both arms have. Those of one instant and symbol, which differ in their horizons,
  -- are in the order of the champion's forecasts, where the program's set has no order.
  abbrev pub shared_keys :
      List (ShadowForecast (Number rt))
      → List (ShadowForecast (Number rt))
      → List (ShadowForecast (Number rt) × ShadowForecast (Number rt))
  shared_keys champions challengers =
      sorted (λ p q. is_key_before (key_of p.0) (key_of q.0)) (match_keys champions challengers)

  -- How much the rates at which the arms miss outcomes differ.
  abbrev pub asymmetry_of : Paired → ℕ → Number rt
  asymmetry_of paired shared = rt.shadow.absolute (
      rt.shadow.floats.minus (missing_rate paired.champion_unscored shared)
        (missing_rate paired.challenger_unscored shared))

  abbrev pub is_comparable : Paired → ℕ → Bool
  is_comparable paired shared =
      rt.shadow.floats.is_at_most (asymmetry_of paired shared) rt.max_missingness_asymmetry

  abbrev pub cohort_of :
      List (ShadowForecast (Number rt))
      → List (ShadowForecast (Number rt))
      → Paired
      → PairedCohort (Number rt)
  cohort_of champions challengers paired =
      let comparable = is_comparable paired (length (shared_keys champions challengers)) in
      record {
        pairs = paired.pairs;
        champion_total = length champions;
        challenger_total = length challengers;
        champion_only = count_only champions challengers;
        challenger_only = count_only challengers champions;
        champion_unscored = paired.champion_unscored;
        challenger_unscored = paired.challenger_unscored;
        comparable = comparable;
        has_reason = not comparable;
      }

  module _ (champion_outcomes challenger_outcomes : String → List ShadowOutcome) where
    -- The loop over the keys that both arms have, each with its two forecasts.
    unfoldable pub pair_all :
        List (ShadowForecast (Number rt) × ShadowForecast (Number rt)) → Result DecisionError Paired
    pair_all [] = ok (record { pairs = []; champion_unscored = 0; challenger_unscored = 0 })
    pair_all ((champion, challenger) ∷ rest) = do
      let a = outcome_of champion_outcomes champion
      let b = outcome_of challenger_outcomes challenger
      found ← pair_with champion challenger a b
      later ← pair_all rest
      ok (added found a b later)

    unfoldable pub build_paired_cohort :
        List (ShadowForecast (Number rt))
        → List (ShadowForecast (Number rt))
        → Result DecisionError (PairedCohort (Number rt))
    build_paired_cohort champions challengers = do
      index_forecasts champions
      index_forecasts challengers
      paired ← pair_all (shared_keys champions challengers)
      check_cohort (cohort_of champions challengers paired)
