-- ===== src/Promotion.antt =====
-- src/quant_platform/governance/comparison.py, inference.py and gates.py: the records of a promotion
-- decision. `Float` is the type of the floats, instants are microseconds in UTC, a date is the number
-- of its day, and a dictionary is the list of its items in the order of their insertion.
pub mod Runtime
pub mod Scores
pub mod Keys
pub mod Cohorts
pub mod Pairing
pub mod Accounting
pub mod Holm
pub mod StepDown
pub mod Gates
pub mod Decisions
pub mod Verdicts
pub mod Promoting
mod Examples
mod Approvals
use signalattice.Prelude.{Bool, List, Option, String, ℕ, ℤ}
use signalattice.Shadow.{ShadowError}

-- The exceptions that the three modules raise themselves, and `shadow_error` of a contract.
pub data DecisionError : Type 0 where
  comparison_error leakage_error inference_error governance_error not_authorized : DecisionError
  shadow_error : ShadowError → DecisionError

pub record PairKey : Type 0 where
  pub campaign_symbol : String
  pub as_of : ℕ
  pub horizon_days : ℤ

pub record PairedScore (Float : Type 0) : Type 0 where
  pub key : PairKey
  pub as_of_date : ℕ
  pub champion_brier : Float
  pub challenger_brier : Float
  pub champion_log : Float
  pub challenger_log : Float

-- Whether there is a reason why the arms are not comparable; its text is for a reader.
pub record PairedCohort (Float : Type 0) : Type 0 where
  pub pairs : List (PairedScore Float)
  pub champion_total : ℕ
  pub challenger_total : ℕ
  pub champion_only : ℕ
  pub challenger_only : ℕ
  pub champion_unscored : ℕ
  pub challenger_unscored : ℕ
  pub comparable : Bool
  pub has_reason : Bool

pub data TestVerdict : Type 0 where
  favours_challenger favours_champion inconclusive underpowered : TestVerdict

pub data Recommendation : Type 0 where
  promote retain_champion insufficient_evidence invalid : Recommendation

-- The position of a member; members are compared by identity.
abbrev pub test_verdict_index : TestVerdict → ℕ
test_verdict_index favours_challenger = 0
test_verdict_index favours_champion = 1
test_verdict_index inconclusive = 2
test_verdict_index underpowered = 3

abbrev pub recommendation_index : Recommendation → ℕ
recommendation_index promote = 0
recommendation_index retain_champion = 1
recommendation_index insufficient_evidence = 2
recommendation_index invalid = 3

pub record TestResult (Float : Type 0) : Type 0 where
  pub name : String
  pub metric : String
  pub verdict : TestVerdict
  pub point_estimate : Option Float
  pub interval : Option (Option Float × Option Float)
  pub p_value : Option Float
  pub blocks : ℕ
  pub observations : ℕ
  pub margin : Option Float

pub record Margin (Float : Type 0) : Type 0 where
  pub metric : String
  pub value : Float

pub record FrozenPolicy (Float : Type 0) : Type 0 where
  pub version : String
  pub alpha : Float
  pub margin : Margin Float
  pub minimum_days : ℤ
  pub minimum_target_dates : ℤ
  pub minimum_pairs : ℤ
  pub minimum_per_class : ℤ
  pub minimum_coverage : Float
  pub minimum_power : Float

pub record GateResult : Type 0 where
  pub name : String
  pub satisfied : Bool
  pub detail : String

-- What `holm_adjust` returns, without the texts that it adds.
pub record Correction (Float : Type 0) : Type 0 where
  pub alpha : Float
  pub family_size : ℕ
  pub adjusted : List (String × Float)
  pub rejected : List (String × Bool)

pub record Decision (Float : Type 0) : Type 0 where
  pub recommendation : Recommendation
  pub policy_identity : String
  pub cohort_identity : String
  pub gates : List GateResult
  pub tests : List (TestResult Float)
  pub correction : Option (Correction Float)
  pub decided_at : ℕ

pub record Approval : Type 0 where
  pub approver : String
  pub decision_identity : String
  pub approved_at : ℕ
  pub reference : String
