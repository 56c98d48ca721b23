-- ===== src/Shadow/Sealing.antt =====
-- The methods of shadow/store.py that use digests: the creation of a campaign, whose labels are
-- stored as JSON, and the sealing of a batch.
use signalattice.Prelude.{
  List, Option, Result, String, [], any, codes, is_empty, is_some, is_within, leb_ℤ, length, ltb,
  none, not, ok, pos, refuse, require, some, str_eq, ℕ, ℤ, ◌&&◌, ◌>>=◌, ◌>>◌, ◌||◌, ◌∷◌,
}
use signalattice.Governance.Store.Tables.{update}
use signalattice.Shadow.{
  SealedBatch, ShadowError, ShadowForecast, all_unique, conflict_error, database_error, draft,
  is_digest, validate_campaign_name, validation_error,
}
use signalattice.Shadow.Runtime.{ShadowRuntime}
use signalattice.Shadow.Records.{Float, batch_id, forecast_id}
use signalattice.Shadow.Store.{
  BatchRow, CampaignRow, StoredForecast, Tables, begins_lower, has_id, is_for, require_active,
  stored_batch,
}

module _ (rt : ShadowRuntime) where
  -- `INSERT INTO sl_shadow_campaigns`: every violation is a conflict.
  unfoldable pub insert_campaign :
      Tables (Float rt) → String → CampaignRow → Result ShadowError (Tables (Float rt))
  insert_campaign s name row = do
    refuse (is_some (s.campaigns name)) conflict_error
    require (is_within 1 64 (length (codes name)) && begins_lower (codes name)) conflict_error
    require (leb_ℤ (pos 1) row.horizon_days && leb_ℤ row.horizon_days (pos 365)) conflict_error
    require (is_within 2 4096 (length (codes row.class_labels))) conflict_error
    require (is_digest row.model_identity) conflict_error
    ok (record s { campaigns = update s.campaigns name (some row) })

  abbrev pub draft_row : ℤ → List String → String → ℕ → CampaignRow
  draft_row horizon_days class_labels model_identity now = record {
    state = draft;
    horizon_days = horizon_days;
    class_labels = rt.encode_labels class_labels;
    created_at = now;
    model_identity = model_identity;
  }

  unfoldable pub create_campaign :
      Tables (Float rt)
      → String
      → ℤ
      → List String
      → String
      → ℕ
      → Result ShadowError (Unit {0} × Tables (Float rt))
  unfolding insert_campaign
  create_campaign s campaign horizon_days class_labels model_identity now = do
    validate_campaign_name campaign
    refuse (ltb (length class_labels) 2 || not (all_unique class_labels)) validation_error
    t ← insert_campaign s campaign (draft_row horizon_days class_labels model_identity now)
    ok (tt, t)

  abbrev pub stored_forecast : ShadowForecast (Float rt) → StoredForecast
  stored_forecast item = record {
    campaign = item.campaign;
    symbol = item.symbol;
    as_of = item.as_of;
    target_instant = item.target_instant;
    horizon_days = item.horizon_days;
    distribution = rt.encode_distribution item.distribution;
    feature_prefix_digest = item.feature_prefix_digest;
    model_identity = item.model_identity;
  }

  -- The rows of `executemany`, one after the other, under the primary key, the foreign keys and the
  -- checks of sl_shadow_forecasts; its checks on digests and horizons are those of the forecast.
  unfoldable pub insert_forecasts :
      Tables (Float rt)
      → String
      → List (ShadowForecast (Float rt))
      → Result ShadowError (Tables (Float rt))
  insert_forecasts s batch [] = ok s
  insert_forecasts s batch (item ∷ items) = do
    refuse (any (has_id (forecast_id rt item)) s.forecasts) database_error
    require (is_some (s.campaigns item.campaign)) database_error
    require (is_within 1 24 (length (codes item.symbol))) database_error
    require (ltb item.as_of item.target_instant) database_error
    insert_forecasts
        (record s {
          forecasts =
              record {
                forecast_id = forecast_id rt item;
                batch_id = batch;
                forecast = stored_forecast item;
              }
              ∷ s.forecasts;
        })
        batch items

  -- The write transaction of `seal_batch`.
  unfoldable pub insert_batch :
      Tables (Float rt) → SealedBatch (Float rt) → Result ShadowError (Tables (Float rt))
  unfolding insert_forecasts
  insert_batch s batch = do
    refuse (any (λ row. str_eq row.batch_id (batch_id rt batch)) s.batches) database_error
    refuse (any (is_for batch.campaign batch.as_of) s.batches) database_error
    require (is_some (s.campaigns batch.campaign)) database_error
    refuse (is_empty batch.forecasts) database_error
    insert_forecasts
        (record s {
          batches =
              record {
                batch_id = batch_id rt batch;
                campaign = batch.campaign;
                as_of = batch.as_of;
                sealed_at = batch.sealed_at;
                expected_universe = batch.expected_universe;
                forecast_count = length batch.forecasts;
              }
              ∷ s.batches;
        })
        (batch_id rt batch) batch.forecasts

  unfoldable pub replay_or_seal :
      Option BatchRow
      → Tables (Float rt)
      → SealedBatch (Float rt)
      → Result ShadowError (String × Tables (Float rt))
  unfolding insert_batch
  replay_or_seal (some row) s batch = do
    require (str_eq row.batch_id (batch_id rt batch)) conflict_error
    ok (batch_id rt batch, s)
  replay_or_seal none s batch = do t ← insert_batch s batch; ok (batch_id rt batch, t)

  unfoldable pub seal_batch :
      Tables (Float rt) → SealedBatch (Float rt) → Result ShadowError (String × Tables (Float rt))
  unfolding replay_or_seal
  seal_batch s batch = do
    require_active s batch.campaign
    replay_or_seal (stored_batch s batch.campaign batch.as_of) s batch
