-- ===== src/Promotion/Keys.antt =====
-- governance/comparison.py: the keys that two arms are paired by, the latest observed revision, and
-- the checks of a cohort.
use signalattice.Prelude.{
  Bool, List, Option, Result, [], any, codes, distinct, eq_ℤ, filter, find, if◌then◌else◌,
  leb_codes, length, ltb, ltb_ℤ, none, not, ok, refuse, require, some, str_eq, ℕ, ◌&&◌, ◌++◌, ◌==◌,
  ◌>>◌, ◌||◌, ◌∷◌,
}
use signalattice.Shadow.{ShadowForecast, ShadowOutcome, observed, outcome_status_index}
use signalattice.Promotion.{DecisionError, PairKey, PairedCohort, comparison_error}

abbrev pub max_pairs : ℕ
max_pairs = 500_000

-- The microseconds of a day: `datetime.date` of an instant is the day that it falls on.
abbrev pub day : ℕ
day = 86_400_000_000

abbrev pub is_key : PairKey → PairKey → Bool
is_key a b =
    str_eq a.campaign_symbol b.campaign_symbol
    && a.as_of == b.as_of
    && eq_ℤ a.horizon_days b.horizon_days

-- The comparison of the tuples (as_of, campaign_symbol).
abbrev pub is_key_before : PairKey → PairKey → Bool
is_key_before a b =
    ltb a.as_of b.as_of
    || (a.as_of == b.as_of && leb_codes (codes a.campaign_symbol) (codes b.campaign_symbol))

-- `item.status.value == "observed"`.
abbrev pub is_observed : ShadowOutcome → Bool
is_observed outcome = outcome_status_index outcome.status == outcome_status_index observed

-- `max(..., key=lambda item: item.revision)`: the first of those with the greatest revision.
abbrev pub newest : ShadowOutcome → List ShadowOutcome → ShadowOutcome
newest best [] = best
newest best (o ∷ os) = if ltb_ℤ best.revision o.revision then newest o os else newest best os

abbrev pub newest_of : List ShadowOutcome → Option ShadowOutcome
newest_of [] = none
newest_of (o ∷ os) = some (newest o os)

unfoldable pub latest_observed : List ShadowOutcome → Option ShadowOutcome
latest_observed history = newest_of (filter is_observed history)

-- `PairedCohort.__post_init__`.
unfoldable pub check_cohort :
    {Float : Type 0} → PairedCohort Float → Result DecisionError (PairedCohort Float)
check_cohort cohort = do
  refuse (ltb max_pairs (length cohort.pairs)) comparison_error
  refuse (cohort.comparable && cohort.has_reason) comparison_error
  refuse (not cohort.comparable && not cohort.has_reason) comparison_error
  ok cohort

module _ {Float : Type 0} where
  abbrev pub key_of : ShadowForecast Float → PairKey
  key_of item = record {
    campaign_symbol = item.symbol;
    as_of = item.as_of;
    horizon_days = item.horizon_days;
  }

  abbrev pub has_key : PairKey → ShadowForecast Float → Bool
  has_key key item = is_key (key_of item) key

  -- `_index`: the forecasts, whose keys differ, are their own index.
  unfoldable pub index_forecasts : List (ShadowForecast Float) → Result DecisionError (Unit {0})
  index_forecasts items = require (distinct (λ a. has_key (key_of a)) items) comparison_error

  abbrev pub partner :
      ShadowForecast Float
      → Option (ShadowForecast Float)
      → List (ShadowForecast Float × ShadowForecast Float)
  partner item none = []
  partner item (some other) = (item, other) ∷ []

  -- The forecasts of one arm with those of the other that have their keys.
  abbrev pub match_keys :
      List (ShadowForecast Float)
      → List (ShadowForecast Float)
      → List (ShadowForecast Float × ShadowForecast Float)
  match_keys [] others = []
  match_keys (item ∷ items) others =
      partner item (find (has_key (key_of item)) others) ++ match_keys items others

  -- The keys of the first list that the second has not.
  abbrev pub count_only : List (ShadowForecast Float) → List (ShadowForecast Float) → ℕ
  count_only items others = length (filter (λ item. not (any (has_key (key_of item)) others)) items)
