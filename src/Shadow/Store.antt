-- ===== src/Shadow/Store.antt =====
-- src/quant_platform/shadow/store.py over the tables of _MIGRATION_2 (tracking/migrations.py). A
-- method reads on connections of their own and then writes in one transaction: the reads and the
-- writes are separate functions, and the method is their composition. `campaigns` is a table by
-- primary key, `transitions` has the rows in the order of their id, the others newest first.
use signalattice.Prelude.{
  Bool, List, Option, Result, String, [], any, codes, eq_ℤ, err, false, find, is_lower, is_within,
  leb, leb_ℤ, length, none, ok, pos, refuse, require, some, str_eq, ℕ, ℤ, ◌&&◌, ◌++◌, ◌==◌, ◌>>=◌,
  ◌>>◌, ◌||◌, ◌∷◌,
}
use signalattice.Governance.Store.Tables.{update}
use signalattice.Shadow.{
  CampaignState, ShadowError, ShadowOutcome, abandoned, active, assert_campaign_transition, closed,
  conflict_error, database_error, is_state, not_found_error, outcome_status_index, sealed_error,
  validate_campaign_name,
}

pub record CampaignRow : Type 0 where
  pub state : CampaignState
  pub horizon_days : ℤ
  pub class_labels : String
  pub created_at : ℕ
  pub model_identity : String

pub record TransitionRow : Type 0 where
  pub campaign : String
  pub from_state : CampaignState
  pub to_state : CampaignState
  pub occurred_at : ℕ

pub record BatchRow : Type 0 where
  pub batch_id : String
  pub campaign : String
  pub as_of : ℕ
  pub sealed_at : ℕ
  pub expected_universe : List String
  pub forecast_count : ℕ

-- The columns of a forecast, whose distribution is stored as its JSON text.
pub record StoredForecast : Type 0 where
  pub campaign : String
  pub symbol : String
  pub as_of : ℕ
  pub target_instant : ℕ
  pub horizon_days : ℤ
  pub distribution : String
  pub feature_prefix_digest : String
  pub model_identity : String

-- The type of the floats is that of the runtime that encodes the distributions.
pub record ForecastRow (Float : Type 0) : Type 0 where
  pub forecast_id : String
  pub batch_id : String
  pub forecast : StoredForecast

-- A row of the outcomes has the fields of an outcome.
pub record Tables (Float : Type 0) : Type 0 where
  pub campaigns : String → Option CampaignRow
  pub transitions : List TransitionRow
  pub batches : List BatchRow
  pub forecasts : List (ForecastRow Float)
  pub outcomes : List ShadowOutcome

abbrev pub is_terminal : CampaignState → Bool
is_terminal state = is_state state closed || is_state state abandoned

-- `GLOB '[a-z]*'`.
abbrev pub begins_lower : List ℕ → Bool
begins_lower [] = false
begins_lower (c ∷ cs) = is_lower c

unfoldable pub state_of_row : Option CampaignRow → Result ShadowError CampaignState
state_of_row none = err not_found_error
state_of_row (some row) = ok row.state

abbrev pub is_for : String → ℕ → BatchRow → Bool
is_for campaign as_of row = str_eq row.campaign campaign && row.as_of == as_of

abbrev pub is_revision : String → ℤ → ShadowOutcome → Bool
is_revision forecast revision row = str_eq row.forecast_id forecast && eq_ℤ row.revision revision

-- The texts that two outcomes of one revision must share.
abbrev pub is_same_outcome : ShadowOutcome → ShadowOutcome → Bool
is_same_outcome stored outcome =
    str_eq stored.realized_label outcome.realized_label
    && outcome_status_index stored.status == outcome_status_index outcome.status
    && stored.observed_at == outcome.observed_at

abbrev pub log_entry : String → CampaignState → CampaignState → ℕ → TransitionRow
log_entry campaign current target now = record {
  campaign = campaign;
  from_state = current;
  to_state = target;
  occurred_at = now;
}

module _ {Float : Type 0} where
  abbrev pub empty_tables : Tables Float
  empty_tables = record {
    campaigns = λ name. none;
    transitions = [];
    batches = [];
    forecasts = [];
    outcomes = [];
  }

  -- What a call leaves: its tables if it returns, and else those it began with.
  abbrev pub commit {ℓ} :
      {A : Type ℓ} → Tables Float → Result ShadowError (A × Tables Float) → Tables Float
  commit s (ok r) = r.1
  commit s (err e) = s

  unfoldable pub campaign_state : Tables Float → String → Result ShadowError CampaignState
  unfolding state_of_row
  campaign_state s campaign = do
    validate_campaign_name campaign
    state_of_row (s.campaigns campaign)

  -- The reads of `transition`: the state to leave.
  unfoldable pub read_transition :
      Tables Float → String → CampaignState → Result ShadowError CampaignState
  read_transition s campaign target = do
    current ← campaign_state s campaign
    assert_campaign_transition current target
    ok current

  -- `UPDATE sl_shadow_campaigns SET state = ?`, under sl_shadow_campaigns_state_forward_only; of a
  -- campaign that is not stored it changes nothing, and the insertion that follows then violates
  -- a foreign key.
  unfoldable pub update_state :
      Tables Float → String → CampaignState → Option CampaignRow → Result ShadowError (Tables Float)
  update_state s campaign target none = err database_error
  update_state s campaign target (some row) = do
    refuse (is_terminal row.state) database_error
    ok (record s { campaigns = update s.campaigns campaign (some (record row { state = target })) })

  -- The write transaction of `transition`, whatever the state is by then.
  unfoldable pub write_transition :
      Tables Float → String → CampaignState → CampaignState → ℕ → Result ShadowError (Tables Float)
  unfolding update_state
  write_transition s campaign current target now = do
    t ← update_state s campaign target (s.campaigns campaign)
    ok (record t { transitions = t.transitions ++ log_entry campaign current target now ∷ [] })

  unfoldable pub transition :
      Tables Float → String → CampaignState → ℕ → Result ShadowError (Unit {0} × Tables Float)
  transition s campaign target now = do
    current ← read_transition s campaign target
    t ← write_transition s campaign current target now
    ok (tt, t)

  -- The reads of `seal_batch`: the campaign is active; the batch stored for the same instant.
  unfoldable pub require_active : Tables Float → String → Result ShadowError (Unit {0})
  require_active s campaign = do
    state ← campaign_state s campaign
    require (is_state state active) sealed_error

  abbrev pub stored_batch : Tables Float → String → ℕ → Option BatchRow
  stored_batch s campaign as_of = find (is_for campaign as_of) s.batches

  -- `SELECT ... WHERE forecast_id = ? AND revision = ?`.
  abbrev pub stored_outcome : Tables Float → String → ℤ → Option ShadowOutcome
  stored_outcome s forecast revision = find (is_revision forecast revision) s.outcomes

  abbrev pub has_id : String → ForecastRow Float → Bool
  has_id identity row = str_eq row.forecast_id identity

  -- `INSERT INTO sl_shadow_outcomes`, under the checks of the table and its foreign key.
  unfoldable pub insert_outcome : Tables Float → ShadowOutcome → Result ShadowError (Tables Float)
  insert_outcome s outcome = do
    require (any (has_id outcome.forecast_id) s.forecasts) database_error
    refuse (any (is_revision outcome.forecast_id outcome.revision) s.outcomes) database_error
    require (is_within 1 64 (length (codes outcome.realized_label))) database_error
    require (leb outcome.observed_at outcome.recorded_at) database_error
    require (leb_ℤ (pos 0) outcome.revision) database_error
    ok (record s { outcomes = outcome ∷ s.outcomes })

  -- A revision that is stored returns, if its content is the same.
  unfoldable pub replay_or_insert :
      Option ShadowOutcome → Tables Float → ShadowOutcome → Result ShadowError (ℤ × Tables Float)
  unfolding insert_outcome
  replay_or_insert (some stored) s outcome = do
    require (is_same_outcome stored outcome) conflict_error
    ok (outcome.revision, s)
  replay_or_insert none s outcome = do t ← insert_outcome s outcome; ok (outcome.revision, t)

  unfoldable pub append_outcome :
      Tables Float → ShadowOutcome → Result ShadowError (ℤ × Tables Float)
  unfolding replay_or_insert
  append_outcome s outcome = do
    require (any (has_id outcome.forecast_id) s.forecasts) not_found_error
    replay_or_insert (stored_outcome s outcome.forecast_id outcome.revision) s outcome
