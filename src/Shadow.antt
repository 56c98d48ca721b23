-- ===== src/Shadow.antt =====
-- src/quant_platform/shadow/contracts.py: the states of a campaign and the records that a campaign
-- is made of, with the checks that their constructors make. Instants are microseconds in UTC, which
-- `utc_instant` returns; the `isinstance` tests are the types.
pub mod Runtime
pub mod Records
pub mod Store
pub mod Sealing
pub mod Batches
pub mod Facts
pub mod Inserts
pub mod Examples
pub mod Lifecycle
pub mod Paths
pub mod Freezing
pub mod Interleaving
pub mod Closing
pub mod Reading
pub mod Loading
pub mod RoundTrip
pub mod Revisions
pub mod Histories
use Prim.Native.String.{String}
use signalattice.Prelude.{
  ℕ, ℤ, zero, suc, Bool, true, false, List, [], ◌∷◌, Result, ok, require, ◌>>=◌, ◌>>◌, any, all,
  length, codes, leb, ltb, leb_ℤ, pos, is_digit, is_hex, str_eq, ◌&&◌, ◌||◌, ◌==◌, not,
  if◌then◌else◌,
}
use signalattice.Governance.Lane.{at_end, lane_field_matches}

-- The exceptions that the two modules raise; `database_error` is a `sqlite3.IntegrityError`, from a
-- constraint or a trigger of the schema, that the store does not catch.
pub data ShadowError : Type 0 where
  validation_error chronology_error sealed_error conflict_error not_found_error database_error :
      ShadowError

pub data CampaignState : Type 0 where
  draft active sealed reconciling closed abandoned : CampaignState

pub data OutcomeStatus : Type 0 where
  observed pending missing late wrong_horizon : OutcomeStatus

-- The position of a member; members are compared by identity.
abbrev pub campaign_state_index : CampaignState → ℕ
campaign_state_index draft = 0
campaign_state_index active = 1
campaign_state_index sealed = 2
campaign_state_index reconciling = 3
campaign_state_index closed = 4
campaign_state_index abandoned = 5

abbrev pub outcome_status_index : OutcomeStatus → ℕ
outcome_status_index observed = 0
outcome_status_index pending = 1
outcome_status_index missing = 2
outcome_status_index late = 3
outcome_status_index wrong_horizon = 4

abbrev pub is_state : CampaignState → CampaignState → Bool
is_state a b = campaign_state_index a == campaign_state_index b

-- `ALLOWED_CAMPAIGN_TRANSITIONS`.
abbrev pub allowed_campaign_transitions : CampaignState → List CampaignState
allowed_campaign_transitions draft = active ∷ abandoned ∷ []
allowed_campaign_transitions active = sealed ∷ abandoned ∷ []
allowed_campaign_transitions sealed = reconciling ∷ abandoned ∷ []
allowed_campaign_transitions reconciling = closed ∷ abandoned ∷ []
allowed_campaign_transitions closed = []
allowed_campaign_transitions abandoned = []

-- Both raises of the function are validation errors.
unfoldable pub assert_campaign_transition :
    CampaignState → CampaignState → Result ShadowError (Unit {0})
assert_campaign_transition current proposed =
    require (any (is_state proposed) (allowed_campaign_transitions current)) validation_error

abbrev pub max_symbols_per_batch : ℕ
max_symbols_per_batch = 5_000

abbrev pub max_classes : ℕ
max_classes = 16

-- `[A-Z]`, `[A-Z0-9.\-]`.
abbrev pub is_upper : ℕ → Bool
is_upper c = leb b'A' c && leb c b'Z'

abbrev pub is_symbol_char : ℕ → Bool
is_symbol_char c = is_upper c || is_digit c || c == b'.' || c == b'-'

-- `[A-Z0-9.\-]{0,k}$`.
unfoldable pub symbol_rest : ℕ → List ℕ → Bool
symbol_rest k [] = true
symbol_rest zero (c ∷ cs) = at_end (c ∷ cs)
symbol_rest (suc k) (c ∷ cs) =
    let rest = symbol_rest k cs in if is_symbol_char c then rest else at_end (c ∷ cs)

-- `_SYMBOL_PATTERN.match`.
unfoldable pub symbol_matches : List ℕ → Bool
unfolding symbol_rest
symbol_matches [] = false
symbol_matches (c ∷ cs) = is_upper c && symbol_rest 23 cs

unfoldable pub validate_symbol : String → Result ShadowError String
validate_symbol value = do require (symbol_matches (codes value)) validation_error; ok value

-- `_CAMPAIGN_PATTERN` is the pattern of a lane's fields.
unfoldable pub validate_campaign_name : String → Result ShadowError String
validate_campaign_name value = do
  require (lane_field_matches (codes value)) validation_error
  ok value

-- `len(set(texts)) == len(texts)`.
abbrev pub all_unique : List String → Bool
all_unique [] = true
all_unique (t ∷ ts) = not (any (str_eq t) ts) && all_unique ts

-- A full SHA-256 digest in lowercase hexadecimal.
abbrev pub is_digest : String → Bool
is_digest value = length (codes value) == 64 && all is_hex (codes value)

pub record ProbabilityVector (Float : Type 0) : Type 0 where
  pub labels : List String
  pub probabilities : List Float

pub record ShadowForecast (Float : Type 0) : Type 0 where
  pub campaign : String
  pub symbol : String
  pub as_of : ℕ
  pub target_instant : ℕ
  pub horizon_days : ℤ
  pub distribution : ProbabilityVector Float
  pub feature_prefix_digest : String
  pub model_identity : String

pub record ShadowOutcome : Type 0 where
  pub forecast_id : String
  pub realized_label : String
  pub observed_at : ℕ
  pub recorded_at : ℕ
  pub revision : ℤ
  pub status : OutcomeStatus

pub record SealedBatch (Float : Type 0) : Type 0 where
  pub campaign : String
  pub as_of : ℕ
  pub expected_universe : List String
  pub forecasts : List (ShadowForecast Float)
  pub sealed_at : ℕ

module _ {Float : Type 0} where
  -- `ShadowForecast.__post_init__`.
  unfoldable pub check_forecast : ShadowForecast Float → Result ShadowError (ShadowForecast Float)
  check_forecast forecast = do
    validate_campaign_name forecast.campaign
    validate_symbol forecast.symbol
    require (ltb forecast.as_of forecast.target_instant) chronology_error
    require (leb_ℤ (pos 1) forecast.horizon_days && leb_ℤ forecast.horizon_days (pos 365))
        validation_error
    require (is_digest forecast.feature_prefix_digest) validation_error
    require (is_digest forecast.model_identity) validation_error
    ok forecast

  -- `ShadowForecast.assert_precedes`.
  unfoldable pub assert_precedes : ShadowForecast Float → ℕ → Result ShadowError (Unit {0})
  assert_precedes forecast observed_at = require (ltb forecast.as_of observed_at) chronology_error
