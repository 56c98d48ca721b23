-- ===== src/Promotion/Examples.antt =====
-- A small comparison on which the theorems about the pairing and the correction are applied.
use signalattice.Prelude.{
  All, List, String, [], arith, false, if◌then◌else◌, leb, leb_codes, ltb, not, ok, pos, refl,
  sorted, true, ℕ, ◌*◌, ◌+◌, ◌-◌, ◌/◌, ◌||◌, ◌∷◌, ◌≡◌, ◌≤◌,
}
use signalattice.Service.Admission.Arithmetic.{Floats}
use signalattice.Shadow.{ShadowForecast, ShadowOutcome, assert_precedes, observed}
use signalattice.Shadow.Runtime.{ShadowRuntime}
use signalattice.Shadow.Records.{probability_at, probability_of}
use signalattice.Promotion.{Correction, PairedCohort}
use signalattice.Promotion.Runtime.{PromotionRuntime}
use signalattice.Promotion.Keys.{check_cohort, index_forecasts, latest_observed, max_pairs}
use signalattice.Promotion.Scores.{brier_score, brier_terms, log_score}
use signalattice.Promotion.Cohorts.{
  build_paired_cohort, check_pair, pair_all, pair_with, score_pair,
}
use signalattice.Promotion.Pairing.{Fair}
use signalattice.Promotion.Accounting.{build_paired_cohort-Fair}
use signalattice.Promotion.Holm.{adjust, by_name, holm_adjust, is_before}
use signalattice.Promotion.StepDown.{OrderLaws, holm_adjust-step_down, step_down}

-- Thousandths.
abbrev pub thousandths : Floats
thousandths = record {
  Float = ℕ;
  from_nat = λ n. n * 1000;
  is_finite = λ n. true;
  is_less = ltb;
  is_at_most = leb;
  plus = λ m n. m + n;
  minus = λ m n. m - n;
  times = λ m n. m * n / 1000;
  minimum = λ m n. if leb m n then m else n;
  least_rate = 10;
  greatest_rate = 10000000;
}

pub leb_total : (a b : ℕ) → (leb a b || leb b a) ≡ true
leb_total a b = ground arith

pub ltb-leb : (a b : ℕ) → ltb a b ≡ not (leb b a)
ltb-leb a b = ground arith

pub leb_trans : (a b c : ℕ) → leb a b ≡ true → leb b c ≡ true → leb a c ≡ true
leb_trans a b c h k = ground arith

abbrev pub thousandths_ordered : OrderLaws thousandths
thousandths_ordered = record {
  is_number = λ n. true;
  total = λ a b m n. leb_total a b;
  less = λ a b m n. ltb-leb a b;
  trans = leb_trans;
  whole = λ n. refl;
  scaled = λ n p h. refl;
}

abbrev pub digest_a : String
digest_a = "aaaaaaaaaaaaaaaaaaaaaaaaaaaaaaaaaaaaaaaaaaaaaaaaaaaaaaaaaaaaaaaa"

abbrev pub toy_shadow : ShadowRuntime
toy_shadow = record {
  floats = thousandths;
  fsum = λ xs. 1000;
  absolute = λ n. n;
  tolerance = 0;
  strip = λ text. text;
  sha256 = λ text. text;
  encode_forecast = λ forecast. forecast.campaign;
  encode_batch = λ campaign as_of universe identities. campaign;
  encode_distribution = λ vector. "{}";
  decode_distribution = λ text. record { labels = []; probabilities = [] };
  encode_labels = λ labels. "[]";
}

abbrev pub toy : PromotionRuntime
toy = record {
  shadow = toy_shadow;
  divide = λ m n. m * 1000 / n;
  negate = λ n. n;
  log = λ n. 1000 - n;
  log_score_epsilon = 1;
  max_missingness_asymmetry = 50;
  half = 500;
  encode_cohort = λ cohort. "cohort";
  encode_policy = λ policy. policy.version;
  encode_decision = λ decision. digest_a;
  detail = λ cohort policy class_counts power name. name;
}

-- Three p-values: two of them stay below the level.
abbrev pub three_tests : List (String × ℕ)
three_tests = ("calibration", 20) ∷ ("superiority", 4) ∷ ("log", 60) ∷ []

abbrev pub three_corrected : Correction ℕ
three_corrected = record {
  alpha = 50;
  family_size = 3;
  adjusted = ("calibration", 40) ∷ ("log", 60) ∷ ("superiority", 12) ∷ [];
  rejected = ("calibration", true) ∷ ("log", false) ∷ ("superiority", true) ∷ [];
}

three_adjusted : holm_adjust thousandths three_tests 50 ≡ ok three_corrected
unfolding holm_adjust adjust sorted leb_codes
three_adjusted = refl

holm_adjust-step_down_example :
    three_corrected.rejected
    ≡ by_name (step_down thousandths 50 true (sorted (is_before thousandths) three_tests))
holm_adjust-step_down_example =
    holm_adjust-step_down thousandths thousandths_ordered 50 refl refl three_tests three_corrected
      refl three_adjusted

abbrev pub forecast_by : String → ℕ → ShadowForecast ℕ
forecast_by campaign up = record {
  campaign = campaign;
  symbol = "SPY";
  as_of = 10;
  target_instant = 20;
  horizon_days = pos 5;
  distribution = record { labels = "up" ∷ "down" ∷ []; probabilities = up ∷ (1000 - up) ∷ [] };
  feature_prefix_digest = digest_a;
  model_identity = digest_a;
}

abbrev pub up_observed : String → List ShadowOutcome
up_observed identity =
    record {
      forecast_id = identity;
      realized_label = "up";
      observed_at = 20;
      recorded_at = 21;
      revision = pos 0;
      status = observed;
    }
    ∷ []

abbrev pub champions : List (ShadowForecast ℕ)
champions = forecast_by "champion" 600 ∷ []

abbrev pub challengers : List (ShadowForecast ℕ)
challengers = forecast_by "challenger" 800 ∷ []

abbrev pub one_pair : PairedCohort ℕ
one_pair = record {
  pairs =
      record {
        key = record { campaign_symbol = "SPY"; as_of = 10; horizon_days = pos 5 };
        as_of_date = 0;
        champion_brier = 160;
        challenger_brier = 40;
        champion_log = 400;
        challenger_log = 200;
      }
      ∷ [];
  champion_total = 1;
  challenger_total = 1;
  champion_only = 0;
  challenger_only = 0;
  champion_unscored = 0;
  challenger_unscored = 0;
  comparable = true;
  has_reason = false;
}

one_pair_built : build_paired_cohort toy up_observed up_observed champions challengers ≡ ok one_pair
unfolding build_paired_cohort index_forecasts pair_all pair_with check_pair score_pair brier_score
    brier_terms log_score probability_of probability_at check_cohort latest_observed sorted
    leb_codes assert_precedes
one_pair_built = refl

build_paired_cohort-Fair_example :
    All (Fair toy up_observed up_observed champions challengers) one_pair.pairs
    × (1 ≤ max_pairs)
    × (shared : ℕ) × (1 ≡ shared + 0)
    × (1 + 0 ≤ shared)
    × (1 + 0 ≤ shared)
    × (shared ≤ 1 + 0 + 0)
build_paired_cohort-Fair_example =
    build_paired_cohort-Fair toy up_observed up_observed champions challengers one_pair
      one_pair_built
