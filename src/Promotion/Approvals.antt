-- ===== src/Promotion/Approvals.antt =====
-- A small promotion on which the theorems about the decisions are applied.
use signalattice.Prelude.{
  List, Option, String, [], leb_codes, none, ok, pos, refl, some, sorted, true, ℕ, ◌&&◌, ◌+◌, ◌∷◌,
  ◌≡◌, ◌≤◌,
}
use signalattice.Promotion.{
  Approval, Decision, FrozenPolicy, TestResult, favours_challenger, promote,
}
use signalattice.Promotion.Gates.{check_policy, evaluate_gates}
use signalattice.Promotion.Holm.{adjust, holm_adjust}
use signalattice.Promotion.Decisions.{
  all_satisfied, approval_validity, authorize_apply, check_approval, check_decision,
  decision_identity, decision_of, recommend, recommend_corrected, recommend_on,
}
use signalattice.Promotion.Verdicts.{all_favour, authorize_apply-recommended}
use signalattice.Promotion.Promoting.{
  all_stepped_down, recommend-step_down, recommend_lost_p_value, recommendation_of,
}
use signalattice.Promotion.Examples.{digest_a, one_pair, thousandths_ordered, toy}

abbrev small_policy : FrozenPolicy ℕ
small_policy = record {
  version = "v1";
  alpha = 50;
  margin = record { metric = "brier"; value = 10 };
  minimum_days = pos 1;
  minimum_target_dates = pos 1;
  minimum_pairs = pos 1;
  minimum_per_class = pos 1;
  minimum_coverage = 990;
  minimum_power = 800;
}

small_policy_checked : check_policy toy small_policy ≡ ok small_policy
unfolding check_policy
small_policy_checked = refl

abbrev test_named : String → ℕ → TestResult ℕ
test_named name p = record {
  name = name;
  metric = "brier";
  verdict = favours_challenger;
  point_estimate = none;
  interval = none;
  p_value = some p;
  blocks = 20;
  observations = 200;
  margin = none;
}

abbrev two_tests : List (TestResult ℕ)
two_tests = test_named "superiority" 4 ∷ test_named "non_inferiority" 20 ∷ []

abbrev counts : Option (List (String × ℕ))
counts = some (("up", 1) ∷ [])

abbrev promotion : Decision ℕ
promotion =
    decision_of toy one_pair small_policy two_tests 30
      (evaluate_gates toy one_pair small_policy counts (some 900)) promote
      (some (record {
        alpha = 50;
        family_size = 2;
        adjusted = ("non_inferiority", 20) ∷ ("superiority", 8) ∷ [];
        rejected = ("non_inferiority", true) ∷ ("superiority", true) ∷ [];
      }))

promotion_recommended :
    recommend toy one_pair small_policy two_tests 30 none counts (some 900) ≡ ok promotion
unfolding recommend recommend_on recommend_corrected check_decision evaluate_gates holm_adjust
    adjust sorted leb_codes
promotion_recommended = refl

recommend-step_down_example : true ≡ (
    all_satisfied (evaluate_gates toy one_pair small_policy counts (some 900))
    && all_favour two_tests
    && all_stepped_down toy thousandths_ordered one_pair small_policy two_tests 30 none counts
        (some 900))
recommend-step_down_example =
    recommend-step_down toy thousandths_ordered one_pair small_policy two_tests 30 none counts
      (some 900) promotion refl refl refl promotion_recommended

abbrev approval : Approval
approval = record {
  approver = "alice";
  decision_identity = digest_a;
  approved_at = 40;
  reference = "ticket";
}

approval_checked : check_approval toy approval ≡ ok approval
unfolding check_approval
approval_checked = refl

approval_accepted : authorize_apply toy promotion approval "head" "head" 50 ≡ ok tt
unfolding authorize_apply
approval_accepted = refl

authorize_apply-recommended_example :
    (all_satisfied promotion.gates ≡ true)
    × (all_favour two_tests ≡ true)
    × (approval.decision_identity ≡ decision_identity toy promotion)
    × (40 ≤ 50)
    × (50 ≤ 40 + approval_validity)
    × ◌≡◌ {A = String} "head" "head"
authorize_apply-recommended_example =
    authorize_apply-recommended toy one_pair small_policy two_tests 30 none counts (some 900)
      promotion approval "head" "head" 50 promotion_recommended approval_accepted

recommend_lost_p_value_example :
    recommendation_of (
      recommend toy one_pair small_policy
        (test_named "non_inferiority" 4 ∷ test_named "non_inferiority" 20 ∷ [])
        30
        none
        counts
        (some 900))
    ≡ recommendation_of (
        recommend toy one_pair small_policy
          (test_named "non_inferiority" 900 ∷ test_named "non_inferiority" 20 ∷ [])
          30
          none
          counts
          (some 900))
recommend_lost_p_value_example =
    recommend_lost_p_value toy one_pair small_policy 30 (test_named "non_inferiority" 4)
      (test_named "non_inferiority" 20) 4 900 20 none counts (some 900) refl refl
