-- ===== src/Promotion/Promoting.antt =====
-- The rule that governance/gates.py promotes by, and the tests that have one name.
use signalattice.Prelude.{
  Bool, List, Option, Result, String, [], all, all-sorted_eq, ap, arith, codes, eq_refl, leb_codes,
  ok, refl, some, sorted, true, ℕ, ◌&&◌, ◌>>=◌, ◌∙◌, ◌∷◌, ◌≡◌, Bool-cases, any, err, if◌then◌else◌,
  inl, inr, is_empty, none, not, sym,
}
use signalattice.Promotion.{
  Correction, Decision, DecisionError, FrozenPolicy, GateResult, PairedCohort, Recommendation,
  TestResult, promote, retain_champion, underpowered,
}
use signalattice.Promotion.Runtime.{PromotionRuntime}
use signalattice.Promotion.Scores.{Number}
use signalattice.Promotion.Gates.{evaluate_gates}
use signalattice.Promotion.Holm.{holm_adjust, is_before}
use signalattice.Promotion.StepDown.{OrderLaws, holm_adjust-step_down, step_down}
use signalattice.Promotion.Decisions.{
  all_satisfied, check_decision, decision_of, family_from, is_recommendation, recommend,
  failed_kind, is_expected, is_verdict, policy_identity, recommend_corrected, recommend_on,
}
use signalattice.Promotion.Verdicts.{
  Decided, all_favour, failed_kind_not_promote, favour_not_underpowered, on_correction, on_gates,
  on_power, recommend-Decided,
}

module _ (rt : PromotionRuntime) (laws : OrderLaws rt.shadow.floats)
    (cohort : PairedCohort (Number rt)) (policy : FrozenPolicy (Number rt))
    (tests : List (TestResult (Number rt))) (now : ℕ) (expected : Option String)
    (class_counts : Option (List (String × ℕ))) (power : Option (Number rt)) where
  abbrev pub all_stepped_down : Bool
  all_stepped_down =
      all (λ item. item.1)
        (step_down rt.shadow.floats policy.alpha true
          (sorted (is_before rt.shadow.floats) (family_from [] tests)))

  rejected_all :
      (c : Correction (Number rt))
      → laws.is_number policy.alpha ≡ true
      → rt.shadow.floats.is_less policy.alpha (rt.shadow.floats.from_nat 1) ≡ true
      → rt.shadow.floats.is_at_most (rt.shadow.floats.from_nat 0) policy.alpha ≡ true
      → holm_adjust rt.shadow.floats (family_from [] tests) policy.alpha ≡ ok c
      → all (λ item. item.1) c.rejected ≡ all_stepped_down
  rejected_all c n b z h =
      ap (all (λ item. item.1))
        (holm_adjust-step_down rt.shadow.floats laws policy.alpha n b (family_from [] tests) c z h)
      ∙ all-sorted_eq (λ a b. leb_codes (codes a.0) (codes b.0)) (λ item. item.1)
          (step_down rt.shadow.floats policy.alpha true
            (sorted (is_before rt.shadow.floats) (family_from [] tests)))

  Decided-promoting :
      {d : Decision (Number rt)} {gates : List GateResult}
      → laws.is_number policy.alpha ≡ true
      → rt.shadow.floats.is_less policy.alpha (rt.shadow.floats.from_nat 1) ≡ true
      → rt.shadow.floats.is_at_most (rt.shadow.floats.from_nat 0) policy.alpha ≡ true
      → Decided rt cohort policy tests now gates d
      → is_recommendation d.recommendation promote
        ≡ (all_satisfied gates && all_favour tests && all_stepped_down)
  Decided-promoting {d} {gates} n b z (on_gates g e) =
      rw (e, g) (failed_kind_not_promote rt cohort policy tests now gates)
  Decided-promoting {d} {gates} n b z (on_power u e) =
      let f = favour_not_underpowered tests u in rw (e, f) (ground arith)
  Decided-promoting {d} {gates} n b z (on_correction g c h e) =
      let r = rejected_all c n b z h in rw (e, g) (ground arith)

  -- For a level that is at least zero and less than one, a decision that `recommend` returns
  -- recommends a promotion exactly when every gate is satisfied, every test favours the challenger,
  -- and Holm's step-down procedure rejects every hypothesis of the family of p-values.
  pub recommend-step_down :
      (d : Decision (Number rt))
      → laws.is_number policy.alpha ≡ true
      → rt.shadow.floats.is_less policy.alpha (rt.shadow.floats.from_nat 1) ≡ true
      → rt.shadow.floats.is_at_most (rt.shadow.floats.from_nat 0) policy.alpha ≡ true
      → recommend rt cohort policy tests now expected class_counts power ≡ ok d
      → is_recommendation d.recommendation promote ≡ (
          all_satisfied (evaluate_gates rt cohort policy class_counts power)
          && all_favour tests
          && all_stepped_down)
  recommend-step_down d n b z e =
      Decided-promoting n b z
        (recommend-Decided rt cohort policy tests now expected class_counts power e)

-- The recommendation, without the evidence that a decision carries.
abbrev pub recommendation_of :
    {Float : Type 0} → Result DecisionError (Decision Float) → Result DecisionError Recommendation
recommendation_of r = r >>= λ d. ok d.recommendation

module _ (rt : PromotionRuntime) (cohort : PairedCohort (Number rt))
    (policy : FrozenPolicy (Number rt)) (now : ℕ) where
  check_decision-recommendation :
      (tests others : List (TestResult (Number rt))) (gates : List GateResult)
      (recommendation : Recommendation) (c : Option (Correction (Number rt)))
      → recommendation_of
          (check_decision (decision_of rt cohort policy tests now gates recommendation c))
        ≡ recommendation_of
            (check_decision (decision_of rt cohort policy others now gates recommendation c))
  unfolding check_decision
  check_decision-recommendation tests others gates recommendation c =
      elim (Bool-cases (is_recommendation recommendation promote && not (all_satisfied gates))) [
        | inl b ↦ rw b refl
        | inr b ↦ rw b refl
      ]

  module _ (tests others : List (TestResult (Number rt))) (gates : List GateResult)
      (one_family : family_from [] tests ≡ family_from [] others)
      (one_favour : all_favour tests ≡ all_favour others) where
    chained-recommendation :
        (r : Result DecisionError (Correction (Number rt)))
        → recommendation_of (
            r >>= λ c. check_decision (
              decision_of rt cohort policy tests now gates
                (if all (λ item. item.1) c.rejected && all_favour tests
                  then promote
                  else retain_champion)
                (some c)))
          ≡ recommendation_of (
              r >>= λ c. check_decision (
                decision_of rt cohort policy others now gates
                  (if all (λ item. item.1) c.rejected && all_favour others
                    then promote
                    else retain_champion)
                  (some c)))
    chained-recommendation (err e) = refl
    chained-recommendation (ok c) =
        rw one_favour (check_decision-recommendation tests others gates _ (some c))

    corrected-recommendation :
        recommendation_of (recommend_corrected rt cohort policy tests now gates)
        ≡ recommendation_of (recommend_corrected rt cohort policy others now gates)
    unfolding recommend_corrected
    corrected-recommendation = elim (Bool-cases (is_empty (family_from [] others))) [
      | inl b ↦ rw (one_family, b) refl
      | inr b ↦
          rw (one_family, b)
            (chained-recommendation
              (holm_adjust rt.shadow.floats (family_from [] others) policy.alpha))
    ]

  lost_family :
      (first second : TestResult (Number rt)) (p r : Number rt)
      → first.name ≡ second.name
      → second.p_value ≡ some r
      → family_from [] (record first { p_value = some p } ∷ second ∷ []) ≡ (second.name, r) ∷ []
  lost_family first second p r same e = rw (e, same, eq_refl second.name) refl

  recommend_on-recommendation :
      (tests others : List (TestResult (Number rt))) (gates : List GateResult)
      → family_from [] tests ≡ family_from [] others
      → all_favour tests ≡ all_favour others
      → any (λ test. is_verdict test.verdict underpowered) tests
        ≡ any (λ test. is_verdict test.verdict underpowered) others
      → recommendation_of (recommend_on rt cohort policy tests now gates)
        ≡ recommendation_of (recommend_on rt cohort policy others now gates)
  unfolding recommend_on
  recommend_on-recommendation tests others gates f v u = elim (Bool-cases (all_satisfied gates)) [
    | inl g ↦ elim (Bool-cases (any (λ test. is_verdict test.verdict underpowered) others)) [
      | inl b ↦ rw (g, u, b) (check_decision-recommendation tests others gates _ none)
      | inr b ↦ rw (g, u, b) (corrected-recommendation tests others gates f v)
    ]
    | inr g ↦ rw g (check_decision-recommendation tests others gates (failed_kind gates) none)
  ]

  -- Of two tests of one name that both have a p-value, the first one's p-value does not matter for
  -- the recommendation: whatever it is, `recommend` returns the same recommendation or error.
  pub recommend_lost_p_value :
      (first second : TestResult (Number rt)) (p q r : Number rt) (expected : Option String)
      (class_counts : Option (List (String × ℕ))) (power : Option (Number rt))
      → first.name ≡ second.name
      → second.p_value ≡ some r
      → recommendation_of (
          recommend rt cohort policy
            (record first { p_value = some p } ∷ second ∷ [])
            now
            expected
            class_counts
            power)
        ≡ recommendation_of (
            recommend rt cohort policy
              (record first { p_value = some q } ∷ second ∷ [])
              now
              expected
              class_counts
              power)
  unfolding recommend
  recommend_lost_p_value first second p q r expected class_counts power same e =
      let family =
        lost_family first second p r same e ∙ sym (lost_family first second q r same e) in
      let gates = evaluate_gates rt cohort policy class_counts power in
      elim (Bool-cases (is_expected rt expected (policy_identity rt policy))) [
        | inl b ↦ rw b (
            recommend_on-recommendation (record first { p_value = some p } ∷ second ∷ [])
              (record first { p_value = some q } ∷ second ∷ []) gates family refl refl)
        | inr b ↦ rw b refl
      ]
