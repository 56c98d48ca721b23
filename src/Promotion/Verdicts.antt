-- ===== src/Promotion/Verdicts.antt =====
-- Which evidence governance/gates.py recommends a promotion on, and what an application needs.
use mathlib.Core.Bool.{true≢false}
use signalattice.Prelude.{
  >>=-eq-ok, Bool, Bool-cases, List, Option, String, [], all, any, arith, false, if◌then◌else◌, inl,
  inr, is_empty, none, not, ok, ok-injective, refuse, refuse-false, require, some, sym, true, ℕ,
  ◌&&◌, ◌∷◌, ◌≡◌, ap, eq_iff, require-true, str_eq, ◌+◌, ◌∙◌, ◌≤◌,
}
use signalattice.Promotion.{
  Correction, Decision, FrozenPolicy, GateResult, PairedCohort, TestResult, favours_challenger,
  insufficient_evidence, promote, retain_champion, underpowered, Approval,
}
use signalattice.Promotion.Runtime.{PromotionRuntime}
use signalattice.Promotion.Scores.{Number}
use signalattice.Promotion.Gates.{evaluate_gates}
use signalattice.Promotion.Holm.{holm_adjust}
use signalattice.Promotion.Decisions.{
  all_satisfied, check_decision, decision_of, failed_kind, family_from, is_expected,
  is_recommendation, is_verdict, policy_identity, recommend, recommend_corrected, approval_validity,
  authorize_apply, decision_identity, is_current, recommend_on,
}

-- Every test favours the challenger.
abbrev pub all_favour : {Float : Type 0} → List (TestResult Float) → Bool
all_favour = all (λ test. is_verdict test.verdict favours_challenger)

pub favour_not_underpowered :
    {Float : Type 0} (tests : List (TestResult Float))
    → any (λ test. is_verdict test.verdict underpowered) tests ≡ true
    → all_favour tests ≡ false
favour_not_underpowered [] h = cc
favour_not_underpowered (test ∷ tests) h = ground (arith, favour_not_underpowered tests)

check_decision-eq :
    {Float : Type 0} (decision : Decision Float) {d : Decision Float}
    → check_decision decision ≡ ok d
    → (d ≡ decision)
      × ((is_recommendation decision.recommendation promote && not (all_satisfied decision.gates))
          ≡ false)
unfolding check_decision
check_decision-eq decision e =
    let (_, r, e1) =
      >>=-eq-ok
        (refuse
          (is_recommendation decision.recommendation promote && not (all_satisfied decision.gates))
          _)
        _ e in
    (sym (ok-injective e1), refuse-false _ _ r)

module _ (rt : PromotionRuntime) (cohort : PairedCohort (Number rt))
    (policy : FrozenPolicy (Number rt)) (tests : List (TestResult (Number rt))) (now : ℕ)
    (gates : List GateResult) where
  recommend_corrected-eq :
      {d : Decision (Number rt)}
      → recommend_corrected rt cohort policy tests now gates ≡ ok d
      → (c : Correction (Number rt)) × (holm_adjust rt.shadow.floats
            (family_from [] tests)
            policy.alpha
          ≡ ok c)
        × (d
            ≡ decision_of rt cohort policy tests now gates
                (if all (λ item. item.1) c.rejected && all_favour tests
                  then promote
                  else retain_champion)
                (some c))
  unfolding recommend_corrected
  recommend_corrected-eq e =
      let (_, _, e1) = >>=-eq-ok (refuse (is_empty (family_from [] tests)) _) _ e in
      let (c, h, e2) =
        >>=-eq-ok (holm_adjust rt.shadow.floats (family_from [] tests) policy.alpha) _ e1 in
      (c, h, (check_decision-eq _ e2).0)

  -- What the three branches of `recommend` decide on.
  pub data Decided (d : Decision (Number rt)) : Type 0 where
    on_gates :
        all_satisfied gates ≡ false
        → d ≡ decision_of rt cohort policy tests now gates (failed_kind gates) none
        → Decided d
    on_power :
        any (λ test. is_verdict test.verdict underpowered) tests ≡ true
        → d ≡ decision_of rt cohort policy tests now gates insufficient_evidence none
        → Decided d
    on_correction :
        all_satisfied gates ≡ true
        → (c : Correction (Number rt))
        → holm_adjust rt.shadow.floats (family_from [] tests) policy.alpha ≡ ok c
        → d
          ≡ decision_of rt cohort policy tests now gates
              (if all (λ item. item.1) c.rejected && all_favour tests
                then promote
                else retain_champion)
              (some c)
        → Decided d

  recommend_on-Decided :
      {d : Decision (Number rt)} → recommend_on rt cohort policy tests now gates ≡ ok d → Decided d
  unfolding recommend_on
  recommend_on-Decided e = elim (Bool-cases (all_satisfied gates)) [
    | inl g ↦ elim (Bool-cases (any (λ test. is_verdict test.verdict underpowered) tests)) [
      | inl u ↦
          on_power u
            (check_decision-eq
              (decision_of rt cohort policy tests now gates insufficient_evidence none)
              (rw (g, u) at e)).0
      | inr u ↦
          let (c, h, same) = recommend_corrected-eq (rw (g, u) at e) in on_correction g c h same
    ]
    | inr g ↦
        on_gates g
          (check_decision-eq (decision_of rt cohort policy tests now gates (failed_kind gates) none)
            (rw g at e)).0
  ]

  pub failed_kind_not_promote : is_recommendation (failed_kind gates) promote ≡ false
  failed_kind_not_promote = ground arith

  Decided-gates : {d : Decision (Number rt)} → Decided d → (d.gates ≡ gates) × (d.tests ≡ tests)
  Decided-gates (on_gates g e) = (ap (λ d. d.gates) e, ap (λ d. d.tests) e)
  Decided-gates (on_power u e) = (ap (λ d. d.gates) e, ap (λ d. d.tests) e)
  Decided-gates (on_correction g c h e) = (ap (λ d. d.gates) e, ap (λ d. d.tests) e)

  -- A promotion is recommended on satisfied gates and tests that all favour the challenger.
  Decided-promote :
      {d : Decision (Number rt)}
      → Decided d
      → is_recommendation d.recommendation promote ≡ true
      → (all_satisfied gates ≡ true) × (all_favour tests ≡ true)
  Decided-promote (on_gates g e) p = absurd (true≢false (sym (rw e at p) ∙ failed_kind_not_promote))
  Decided-promote (on_power u e) p = cc (rw e at p)
  Decided-promote (on_correction g c h e) p = let q = rw e at p in (g, ground arith)

module _ (rt : PromotionRuntime) (cohort : PairedCohort (Number rt))
    (policy : FrozenPolicy (Number rt)) (tests : List (TestResult (Number rt))) (now : ℕ)
    (expected : Option String) (class_counts : Option (List (String × ℕ)))
    (power : Option (Number rt)) where
  abbrev pub gates_of : List GateResult
  gates_of = evaluate_gates rt cohort policy class_counts power

  pub recommend-Decided :
      {d : Decision (Number rt)}
      → recommend rt cohort policy tests now expected class_counts power ≡ ok d
      → Decided rt cohort policy tests now gates_of d
  unfolding recommend
  recommend-Decided e =
      let (_, _, e1) =
        >>=-eq-ok (require (is_expected rt expected (policy_identity rt policy)) _) _ e in
      let (_, _, e2) = >>=-eq-ok (refuse (is_empty tests) _) _ e1 in
      recommend_on-Decided rt cohort policy tests now gates_of e2

  -- An application that is authorized, of a decision that `recommend` returned, is of a decision whose
  -- gates were all satisfied and whose tests all favour the challenger, by an approval that is bound
  -- to it, not from the future and at most seven days old, and the lane's head is the expected one.
  pub authorize_apply-recommended :
      (d : Decision (Number rt)) (approval : Approval) (observed head : String) (later : ℕ)
      → recommend rt cohort policy tests now expected class_counts power ≡ ok d
      → authorize_apply rt d approval observed head later ≡ ok tt
      → (all_satisfied d.gates ≡ true)
        × (all_favour d.tests ≡ true)
        × (approval.decision_identity ≡ decision_identity rt d)
        × (approval.approved_at ≤ later)
        × (later ≤ approval.approved_at + approval_validity)
        × (observed ≡ head)
  unfolding authorize_apply
  authorize_apply-recommended d approval observed head later r e =
      let (_, p, e1) = >>=-eq-ok (require (is_recommendation d.recommendation promote) _) _ e in
      let (_, b, e2) =
        >>=-eq-ok (require (str_eq approval.decision_identity (decision_identity rt d)) _) _ e1 in
      let (_, w, e3) = >>=-eq-ok (require (is_current approval later) _) _ e2 in
      let decided = recommend-Decided r in
      let (g, t) = Decided-gates rt cohort policy tests now gates_of decided in
      let (satisfied, favour) =
        Decided-promote rt cohort policy tests now gates_of decided (require-true _ _ p) in
      let window = require-true _ _ w in
      (
        rw g satisfied,
        rw t favour,
        (eq_iff approval.decision_identity (decision_identity rt d)).0 (require-true _ _ b),
        ground arith,
        ground arith,
        (eq_iff observed head).0 (require-true _ _ e3),
      )
