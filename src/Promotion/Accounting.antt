-- ===== src/Promotion/Accounting.antt =====
-- A whole cohort of governance/comparison.py: its pairs and its totals.
use signalattice.Prelude.{
  >>=-eq-ok, All, List, String, [], arith, find, length, ok, refl, ℕ, ◌+◌, ◌∷◌, ◌≡◌, ◌≤◌, All-In,
  All-sorted, Option-cases, find-any, find-none-any, inl, inr, length-sorted,
}
use signalattice.Shadow.{ShadowForecast, ShadowOutcome}
use signalattice.Promotion.{PairedCohort}
use signalattice.Promotion.Runtime.{PromotionRuntime}
use signalattice.Promotion.Scores.{Number}
use signalattice.Promotion.Keys.{
  check_cohort, count_only, has_key, index_forecasts, is_key_before, key_of, match_keys, max_pairs,
}
use signalattice.Promotion.Pairing.{Fair, Matched, match_keys-Matched, pair_all-facts}
use signalattice.Promotion.Cohorts.{pair_all, build_paired_cohort, cohort_of, shared_keys}

-- The keys of the champion that the challenger has, and those that it has not.
length-match_keys :
    {Float : Type 0} (items others : List (ShadowForecast Float))
    → length (match_keys items others) + count_only items others ≡ length items
length-match_keys [] others = refl
length-match_keys (item ∷ items) others =
    elim (Option-cases (find (has_key (key_of item)) others)) [
      | inl n ↦
          ground
            (arith, length-match_keys items others, find-none-any (has_key (key_of item)) others n)
      | inr (other, s) ↦
          ground
            (arith, length-match_keys items others, find-any (has_key (key_of item)) others other s)
    ]

check_cohort-eq :
    {Float : Type 0} (cohort : PairedCohort Float) {checked : PairedCohort Float}
    → check_cohort cohort ≡ ok checked
    → (checked ≡ cohort) × (length cohort.pairs ≤ max_pairs)
unfolding check_cohort
check_cohort-eq cohort e = ground arith

module _ (rt : PromotionRuntime)
    (champion_outcomes challenger_outcomes : String → List ShadowOutcome)
    (champions challengers : List (ShadowForecast (Number rt))) where
  -- Every pair of a cohort that is built scores a champion's and a challenger's forecast of one key,
  -- on the one label of the latest observed outcomes of both, each observed after its forecast's
  -- as-of; and with the number of keys that both arms have, the totals of the cohort account for
  -- every forecast of the champion, scored, unscored or without a partner.
  pub build_paired_cohort-Fair :
      (cohort : PairedCohort (Number rt))
      → build_paired_cohort rt champion_outcomes challenger_outcomes champions challengers
        ≡ ok cohort
      → All (Fair rt champion_outcomes challenger_outcomes champions challengers) cohort.pairs
        × (length cohort.pairs ≤ max_pairs)
        × (shared : ℕ) × (cohort.champion_total ≡ shared + cohort.champion_only)
        × (length cohort.pairs + cohort.champion_unscored ≤ shared)
        × (length cohort.pairs + cohort.challenger_unscored ≤ shared)
        × (shared ≤ length cohort.pairs + cohort.champion_unscored + cohort.challenger_unscored)
  unfolding build_paired_cohort
  build_paired_cohort-Fair cohort e =
      let (_, _, e1) = >>=-eq-ok (index_forecasts champions) _ e in
      let (_, _, e2) = >>=-eq-ok (index_forecasts challengers) _ e1 in
      let keys = shared_keys rt champions challengers in
      let (paired, p, e3) =
        >>=-eq-ok (pair_all rt champion_outcomes challenger_outcomes keys) _ e2 in
      let found = match_keys champions challengers in
      let matched =
        All-sorted (λ p q. is_key_before (key_of p.0) (key_of q.0))
          (Matched rt champion_outcomes challenger_outcomes champions challengers) found
          (match_keys-Matched rt champion_outcomes challenger_outcomes champions challengers
            champions (All-In champions)) in
      let (counted, fair) =
        pair_all-facts rt champion_outcomes challenger_outcomes champions challengers keys matched
          p in
      let (same, bounded) = check_cohort-eq (cohort_of rt champions challengers paired) e3 in
      let total = length-sorted (λ p q. is_key_before (key_of p.0) (key_of q.0)) found in
      rw same (
        fair,
        bounded,
        length keys,
        omega (arith, total, length-match_keys champions challengers),
        counted.champion_bound,
        counted.challenger_bound,
        counted.covered,
      )
