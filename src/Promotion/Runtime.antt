-- ===== src/Promotion/Runtime.antt =====
-- What the promotion of a challenger takes from outside the package, beside what the shadow campaigns
-- take: operations on floats, the JSON encoder and the formatting of the texts for a reader.
use signalattice.Prelude.{List, Option, String, ℕ}
use signalattice.Shadow.Runtime.{ShadowRuntime}
use signalattice.Promotion.{Decision, FrozenPolicy, PairedCohort}

pub record PromotionRuntime : Type 1 where
  pub shadow : ShadowRuntime
  pub divide : shadow.floats.Float → shadow.floats.Float → shadow.floats.Float
  pub negate : shadow.floats.Float → shadow.floats.Float
  -- `math.log`
  pub log : shadow.floats.Float → shadow.floats.Float
  -- LOG_SCORE_EPSILON, MAX_MISSINGNESS_ASYMMETRY and 0.5
  pub log_score_epsilon : shadow.floats.Float
  pub max_missingness_asymmetry : shadow.floats.Float
  pub half : shadow.floats.Float
  -- `json.dumps` of what identifies a cohort, a policy and a decision, with sorted keys
  pub encode_cohort : PairedCohort shadow.floats.Float → String
  pub encode_policy : FrozenPolicy shadow.floats.Float → String
  pub encode_decision : Decision shadow.floats.Float → String
  -- the formatted detail of a gate, by its name
  pub detail :
      PairedCohort shadow.floats.Float
      → FrozenPolicy shadow.floats.Float
      → Option (List (String × ℕ))
      → Option shadow.floats.Float
      → String
      → String
