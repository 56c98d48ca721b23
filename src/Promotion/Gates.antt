-- ===== src/Promotion/Gates.antt =====
-- governance/gates.py: the frozen policy and the gates. The texts of a gate are formatted by the
-- runtime.
use signalattice.Prelude.{
  Bool, List, Option, Result, String, [], any, codes, false, if◌then◌else◌, is_some, leb_codes,
  leb_ℤ, length, ltb, map, none, not, ok, pos, refuse, require, some, str_eq, ℕ, ◌&&◌, ◌+◌, ◌-◌,
  ◌==◌, ◌>>◌, ◌||◌, ◌∷◌,
}
use signalattice.Promotion.{DecisionError, FrozenPolicy, GateResult, PairedCohort, governance_error}
use signalattice.Promotion.Runtime.{PromotionRuntime}
use signalattice.Promotion.Scores.{Number}

-- `len({item.as_of_date for item in cohort.pairs})`.
abbrev pub count_distinct : List ℕ → ℕ
count_distinct [] = 0
count_distinct (d ∷ ds) = (if any (λ e. e == d) ds then 0 else 1) + count_distinct ds

abbrev pub latest : ℕ → List ℕ → ℕ
latest d [] = d
latest d (e ∷ es) = if ltb d e then latest e es else latest d es

abbrev pub earliest : ℕ → List ℕ → ℕ
earliest d [] = d
earliest d (e ∷ es) = if ltb e d then earliest e es else earliest d es

-- `_calendar_span`, of the dates of the pairs.
abbrev pub calendar_span : List ℕ → ℕ
calendar_span [] = 0
calendar_span (d ∷ ds) = latest d ds - earliest d ds + 1

-- The least item by (count, name).
abbrev pub smallest_item : String × ℕ → List (String × ℕ) → String × ℕ
smallest_item best [] = best
smallest_item best (item ∷ items) =
    if ltb item.1 best.1 || (item.1 == best.1 && not (leb_codes (codes best.0) (codes item.0)))
    then smallest_item item items
    else smallest_item best items

-- `_smallest_class`.
abbrev pub smallest_class : Option (List (String × ℕ)) → Option String × ℕ
smallest_class none = (none, 0)
smallest_class (some []) = (none, 0)
smallest_class (some (item ∷ items)) =
    let least = smallest_item item items in (some least.0, least.1)

module _ (rt : PromotionRuntime) where
  -- `0 < value <= 1`.
  abbrev pub is_share : Number rt → Bool
  is_share x =
      rt.shadow.floats.is_less (rt.shadow.floats.from_nat 0) x
      && rt.shadow.floats.is_at_most x (rt.shadow.floats.from_nat 1)

  -- `FrozenPolicy.__post_init__`.
  unfoldable pub check_policy :
      FrozenPolicy (Number rt) → Result DecisionError (FrozenPolicy (Number rt))
  check_policy policy = do
    refuse (str_eq (rt.shadow.strip policy.version) "") governance_error
    require
        (rt.shadow.floats.is_less (rt.shadow.floats.from_nat 0) policy.alpha
          && rt.shadow.floats.is_less policy.alpha rt.half)
        governance_error
    require (leb_ℤ (pos 1) policy.minimum_days) governance_error
    require (leb_ℤ (pos 1) policy.minimum_target_dates) governance_error
    require (leb_ℤ (pos 1) policy.minimum_pairs) governance_error
    require (leb_ℤ (pos 1) policy.minimum_per_class) governance_error
    require (is_share policy.minimum_coverage) governance_error
    require (is_share policy.minimum_power) governance_error
    ok policy

  -- `PairedCohort.coverage`.
  abbrev pub coverage : PairedCohort (Number rt) → Number rt
  coverage cohort =
      let union = cohort.champion_total + cohort.challenger_only in
      if union == 0
      then rt.shadow.floats.from_nat 0
      else rt.divide (rt.shadow.floats.from_nat (length cohort.pairs))
          (rt.shadow.floats.from_nat union)

  abbrev pub reaches : Option (Number rt) → Number rt → Bool
  reaches none minimum = false
  reaches (some power) minimum = rt.shadow.floats.is_at_most minimum power

  abbrev pub gate_result :
      PairedCohort (Number rt)
      → FrozenPolicy (Number rt)
      → Option (List (String × ℕ))
      → Option (Number rt)
      → String
      → Bool
      → GateResult
  gate_result cohort policy class_counts achieved_power name satisfied = record {
    name = name;
    satisfied = satisfied;
    detail = rt.detail cohort policy class_counts achieved_power name;
  }

  unfoldable pub evaluate_gates :
      PairedCohort (Number rt)
      → FrozenPolicy (Number rt)
      → Option (List (String × ℕ))
      → Option (Number rt)
      → List GateResult
  evaluate_gates cohort policy class_counts achieved_power =
      let dates = map (λ item. item.as_of_date) cohort.pairs in
      let gate = gate_result cohort policy class_counts achieved_power in
      gate "cohort_comparable" cohort.comparable
      ∷ gate "minimum_duration" (leb_ℤ policy.minimum_days (pos (calendar_span dates)))
      ∷ gate "minimum_target_dates" (leb_ℤ policy.minimum_target_dates (pos (count_distinct dates)))
      ∷ gate "minimum_pairs" (leb_ℤ policy.minimum_pairs (pos (length cohort.pairs)))
      ∷ gate "minimum_per_class" (
          is_some class_counts
          && leb_ℤ policy.minimum_per_class (pos (smallest_class class_counts).1))
      ∷ gate "minimum_coverage"
          (rt.shadow.floats.is_at_most policy.minimum_coverage (coverage cohort))
      ∷ gate "minimum_power" (reaches achieved_power policy.minimum_power)
      ∷ []
