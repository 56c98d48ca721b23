-- ===== src/Promotion/Scores.antt =====
-- The proper scores of shadow/reports.py. A checked distribution has as many labels as probabilities.
use signalattice.Prelude.{
  List, Result, String, [], any, err, if◌then◌else◌, ok, require, str_eq, ◌>>=◌, ◌>>◌, ◌∷◌,
}
use signalattice.Shadow.{ProbabilityVector, ShadowError, validation_error}
use signalattice.Shadow.Records.{probability_of}
use signalattice.Promotion.{DecisionError, shadow_error}
use signalattice.Promotion.Runtime.{PromotionRuntime}

module _ (rt : PromotionRuntime) where
  abbrev pub Number : Type 0
  Number = rt.shadow.floats.Float

  -- `(probability - indicator) ** 2` over the classes.
  unfoldable pub brier_terms : String → List String → List Number → Number → Number
  brier_terms realized [] ps total = total
  brier_terms realized (l ∷ ls) [] total = total
  brier_terms realized (l ∷ ls) (p ∷ ps) total =
      let difference =
        rt.shadow.floats.minus p (rt.shadow.floats.from_nat (if str_eq l realized then 1 else 0)) in
      brier_terms realized ls ps
        (rt.shadow.floats.plus total (rt.shadow.floats.times difference difference))

  unfoldable pub brier_score : ProbabilityVector Number → String → Result DecisionError Number
  brier_score distribution realized = do
    require (any (str_eq realized) distribution.labels) (shadow_error validation_error)
    ok (
        brier_terms realized distribution.labels distribution.probabilities
          (rt.shadow.floats.from_nat 0))

  -- An error of a contract, as it goes through the modules of the comparison.
  abbrev pub from_shadow : {A : Type 0} → Result ShadowError A → Result DecisionError A
  from_shadow (ok a) = ok a
  from_shadow (err e) = err (shadow_error e)

  unfoldable pub log_score : ProbabilityVector Number → String → Result DecisionError Number
  log_score distribution realized = do
    p ← from_shadow (probability_of rt.shadow distribution realized)
    ok (
        rt.negate (
          rt.log
            (if rt.shadow.floats.is_less p rt.log_score_epsilon then rt.log_score_epsilon else p)))
