-- ===== src/Promotion/Decisions.antt =====
-- governance/gates.py: the recommendation, and the authorization to apply it.
use signalattice.Prelude.{
  Bool, List, Option, Result, String, [], all, any, codes, if◌then◌else◌, is_empty, leb, length,
  ltb, none, not, ok, refuse, require, some, str_eq, true, ℕ, ◌&&◌, ◌+◌, ◌==◌, ◌>>=◌, ◌>>◌, ◌∷◌,
}
use signalattice.Promotion.{
  Approval, Correction, Decision, DecisionError, FrozenPolicy, GateResult, PairedCohort,
  Recommendation, TestResult, TestVerdict, favours_challenger, governance_error,
  insufficient_evidence, invalid, not_authorized, promote, recommendation_index, retain_champion,
  test_verdict_index, underpowered,
}
use signalattice.Promotion.Runtime.{PromotionRuntime}
use signalattice.Promotion.Scores.{Number}
use signalattice.Promotion.Gates.{evaluate_gates}
use signalattice.Promotion.Holm.{holm_adjust}

-- APPROVAL_VALIDITY in microseconds.
abbrev pub approval_validity : ℕ
approval_validity = 604_800_000_000

abbrev pub max_name_chars : ℕ
max_name_chars = 64

abbrev pub is_verdict : TestVerdict → TestVerdict → Bool
is_verdict a b = test_verdict_index a == test_verdict_index b

abbrev pub is_recommendation : Recommendation → Recommendation → Bool
is_recommendation a b = recommendation_index a == recommendation_index b

-- `INVALID if "cohort_comparable" in failing else INSUFFICIENT_EVIDENCE`.
abbrev pub failed_kind : List GateResult → Recommendation
failed_kind gates =
    if any (λ gate. str_eq gate.name "cohort_comparable" && not gate.satisfied) gates
    then invalid
    else insufficient_evidence

-- A dictionary with an entry written: at its place if the key is there, and else at the end.
abbrev pub insert_item {ℓ} : {A : Type ℓ} → String → A → List (String × A) → List (String × A)
insert_item k v [] = (k, v) ∷ []
insert_item k v (item ∷ items) =
    if str_eq item.0 k then (k, v) ∷ items else item ∷ insert_item k v items

abbrev pub insert_p_value :
    {Float : Type 0} → Option Float → String → List (String × Float) → List (String × Float)
insert_p_value none name family = family
insert_p_value (some p) name family = insert_item name p family

-- `{item.name: item.p_value for item in tests if item.p_value is not None}`, after some items.
abbrev pub family_from :
    {Float : Type 0} → List (String × Float) → List (TestResult Float) → List (String × Float)
family_from family [] = family
family_from family (test ∷ tests) = family_from (insert_p_value test.p_value test.name family) tests

abbrev pub all_satisfied : List GateResult → Bool
all_satisfied = all (λ gate. gate.satisfied)

-- `Decision.__post_init__`.
unfoldable pub check_decision :
    {Float : Type 0} → Decision Float → Result DecisionError (Decision Float)
check_decision decision = do
  refuse (is_recommendation decision.recommendation promote && not (all_satisfied decision.gates))
      governance_error
  ok decision

-- `Approval.is_current`.
abbrev pub is_current : Approval → ℕ → Bool
is_current approval now =
    leb approval.approved_at now && leb now (approval.approved_at + approval_validity)

module _ (rt : PromotionRuntime) where
  abbrev pub policy_identity : FrozenPolicy (Number rt) → String
  policy_identity policy = rt.shadow.sha256 (rt.encode_policy policy)

  abbrev pub decision_identity : Decision (Number rt) → String
  decision_identity decision = rt.shadow.sha256 (rt.encode_decision decision)

  abbrev pub is_expected : Option String → String → Bool
  is_expected none identity = true
  is_expected (some expected) identity = str_eq identity expected

  abbrev pub decision_of :
      PairedCohort (Number rt)
      → FrozenPolicy (Number rt)
      → List (TestResult (Number rt))
      → ℕ
      → List GateResult
      → Recommendation
      → Option (Correction (Number rt))
      → Decision (Number rt)
  decision_of cohort policy tests now gates recommendation correction = record {
    recommendation = recommendation;
    policy_identity = policy_identity policy;
    cohort_identity = rt.shadow.sha256 (rt.encode_cohort cohort);
    gates = gates;
    tests = tests;
    correction = correction;
    decided_at = now;
  }

  -- The correction of the family, and the recommendation that it leads to.
  unfoldable pub recommend_corrected :
      PairedCohort (Number rt)
      → FrozenPolicy (Number rt)
      → List (TestResult (Number rt))
      → ℕ
      → List GateResult
      → Result DecisionError (Decision (Number rt))
  recommend_corrected cohort policy tests now gates = do
    refuse (is_empty (family_from [] tests)) governance_error
    correction ← holm_adjust rt.shadow.floats (family_from [] tests) policy.alpha
    check_decision (
        decision_of cohort policy tests now gates
          (if all (λ item. item.1) correction.rejected
              && all (λ test. is_verdict test.verdict favours_challenger) tests
            then promote
            else retain_champion)
          (some correction))

  -- The branches on the gates, on the power of the tests and on the corrected family.
  unfoldable pub recommend_on :
      PairedCohort (Number rt)
      → FrozenPolicy (Number rt)
      → List (TestResult (Number rt))
      → ℕ
      → List GateResult
      → Result DecisionError (Decision (Number rt))
  recommend_on cohort policy tests now gates =
      let corrected = recommend_corrected cohort policy tests now gates in
      if not (all_satisfied gates)
      then check_decision (decision_of cohort policy tests now gates (failed_kind gates) none)
      else if any (λ test. is_verdict test.verdict underpowered) tests
      then check_decision (decision_of cohort policy tests now gates insufficient_evidence none)
      else corrected

  unfoldable pub recommend :
      PairedCohort (Number rt)
      → FrozenPolicy (Number rt)
      → List (TestResult (Number rt))
      → ℕ
      → Option String
      → Option (List (String × ℕ))
      → Option (Number rt)
      → Result DecisionError (Decision (Number rt))
  recommend cohort policy tests now expected class_counts achieved_power = do
    require (is_expected expected (policy_identity policy)) governance_error
    refuse (is_empty tests) governance_error
    recommend_on cohort policy tests now
        (evaluate_gates rt cohort policy class_counts achieved_power)

  abbrev pub is_unpadded : String → Bool
  is_unpadded text = not (str_eq (rt.shadow.strip text) "") && str_eq text (rt.shadow.strip text)

  -- `Approval.__post_init__`.
  unfoldable pub check_approval : Approval → Result DecisionError Approval
  check_approval approval = do
    require (is_unpadded approval.approver) governance_error
    refuse (ltb max_name_chars (length (codes approval.approver))) governance_error
    require (is_unpadded approval.reference) governance_error
    refuse (ltb max_name_chars (length (codes approval.reference))) governance_error
    require (length (codes approval.decision_identity) == 64) governance_error
    ok approval

  unfoldable pub authorize_apply :
      Decision (Number rt) → Approval → String → String → ℕ → Result DecisionError (Unit {0})
  authorize_apply decision approval observed_lane_head expected_lane_head now = do
    require (is_recommendation decision.recommendation promote) not_authorized
    require (str_eq approval.decision_identity (decision_identity decision)) not_authorized
    require (is_current approval now) not_authorized
    require (str_eq observed_lane_head expected_lane_head) not_authorized
