-- ===== src/Shadow/Inserts.antt =====
-- What an insertion of shadow/store.py that succeeded did to the tables.
use signalattice.Prelude.{
  >>=-eq-ok, Bool, List, String, [], all, any, ap, arith, codes, false, is_empty, is_some,
  is_within, length, ltb, not, ok, ok-injective, refuse, refuse-false, require, some, str_eq, subst,
  sym, true, ℕ, ℤ, ◌||◌, ◌∙◌, ◌∷◌, ◌≡◌,
}
use signalattice.Governance.Store.Tables.{update}
use signalattice.Shadow.{SealedBatch, ShadowForecast, all_unique, validate_campaign_name}
use signalattice.Shadow.Records.{Float, batch_id, forecast_id}
use signalattice.Shadow.Batches.{IsOwn}
use signalattice.Shadow.Store.{BatchRow, CampaignRow, Tables, has_id, is_for}
use signalattice.Shadow.Sealing.{
  create_campaign, draft_row, insert_batch, insert_campaign, insert_forecasts, stored_forecast,
}
use signalattice.Shadow.Runtime.{ShadowRuntime}

module _ (rt : ShadowRuntime) where
  -- The tables with one forecast more, and with one batch more.
  abbrev pub with_forecast :
      Tables (Float rt) → String → ShadowForecast (Float rt) → Tables (Float rt)
  with_forecast s batch item = record s {
    forecasts =
        record {
          forecast_id = forecast_id rt item;
          batch_id = batch;
          forecast = stored_forecast rt item;
        }
        ∷ s.forecasts;
  }

  abbrev pub row_of : SealedBatch (Float rt) → BatchRow
  row_of batch = record {
    batch_id = batch_id rt batch;
    campaign = batch.campaign;
    as_of = batch.as_of;
    sealed_at = batch.sealed_at;
    expected_universe = batch.expected_universe;
    forecast_count = length batch.forecasts;
  }

  abbrev pub with_batch : Tables (Float rt) → SealedBatch (Float rt) → Tables (Float rt)
  with_batch s batch = record s { batches = row_of batch ∷ s.batches }

  -- What every insertion of a fresh forecast that passes a test keeps, the insertion of a list of
  -- such forecasts keeps.
  pub insert_forecasts-keeps {ℓ} :
      (P : Tables (Float rt) → Type ℓ) (test : ShadowForecast (Float rt) → Bool) (batch : String)
      → ((u : Tables (Float rt)) (item : ShadowForecast (Float rt))
          → test item ≡ true
          → any (has_id (forecast_id rt item)) u.forecasts ≡ false
          → P u
          → P (with_forecast u batch item))
      → (s : Tables (Float rt)) (items : List (ShadowForecast (Float rt))) {t : Tables (Float rt)}
      → all test items ≡ true
      → insert_forecasts rt s batch items ≡ ok t
      → P s
      → P t
  unfolding insert_forecasts
  insert_forecasts-keeps P test batch one s [] a e h = subst P (ok-injective e) h
  insert_forecasts-keeps P test batch one s (item ∷ items) a e h =
      let (_, fresh, e1) =
        >>=-eq-ok (refuse (any (has_id (forecast_id rt item)) s.forecasts) _) _ e in
      let (_, _, e2) = >>=-eq-ok (require (is_some (s.campaigns item.campaign)) _) _ e1 in
      let (_, _, e3) = >>=-eq-ok (require (is_within 1 24 (length (codes item.symbol))) _) _ e2 in
      let (_, _, e4) = >>=-eq-ok (require (ltb item.as_of item.target_instant) _) _ e3 in
      insert_forecasts-keeps P test batch one (with_forecast s batch item) items (ground arith) e4
        (one s item (ground arith) (refuse-false _ _ fresh) h)

  -- A batch that is inserted is the only one with its identity, and the only one for its instant.
  pub record Fresh (s : Tables (Float rt)) (batch : SealedBatch (Float rt)) (t : Tables (Float rt))
      : Type 0 where
    pub new_id : any (λ row. str_eq row.batch_id (batch_id rt batch)) s.batches ≡ false
    pub new_instant : any (is_for batch.campaign batch.as_of) s.batches ≡ false
    pub inserted :
        insert_forecasts rt (with_batch s batch) (batch_id rt batch) batch.forecasts ≡ ok t

  pub insert_batch-Fresh :
      (s : Tables (Float rt)) (batch : SealedBatch (Float rt)) {t : Tables (Float rt)}
      → insert_batch rt s batch ≡ ok t
      → Fresh s batch t
  unfolding insert_batch
  insert_batch-Fresh s batch e =
      let (_, n, e1) =
        >>=-eq-ok (refuse (any (λ row. str_eq row.batch_id (batch_id rt batch)) s.batches) _) _ e in
      let (_, i, e2) =
        >>=-eq-ok (refuse (any (is_for batch.campaign batch.as_of) s.batches) _) _ e1 in
      let (_, _, e3) = >>=-eq-ok (require (is_some (s.campaigns batch.campaign)) _) _ e2 in
      let (_, _, e4) = >>=-eq-ok (refuse (is_empty batch.forecasts) _) _ e3 in
      record { new_id = refuse-false _ _ n; new_instant = refuse-false _ _ i; inserted = e4 }

  -- What the row of a fresh batch and then every fresh forecast of its campaign keep, its sealing
  -- keeps.
  pub Fresh-keeps {ℓ} :
      (P : Tables (Float rt) → Type ℓ) (s : Tables (Float rt)) (batch : SealedBatch (Float rt))
      {t : Tables (Float rt)}
      → Fresh s batch t
      → IsOwn batch
      → P (with_batch s batch)
      → ((u : Tables (Float rt)) (item : ShadowForecast (Float rt))
          → str_eq item.campaign batch.campaign ≡ true
          → any (has_id (forecast_id rt item)) u.forecasts ≡ false
          → P u
          → P (with_forecast u (batch_id rt batch) item))
      → P t
  Fresh-keeps P s batch f own h one =
      insert_forecasts-keeps P (λ item. str_eq item.campaign batch.campaign) (batch_id rt batch) one
        (with_batch s batch) batch.forecasts own f.inserted h

  insert_campaign-eq :
      (s : Tables (Float rt)) (name : String) (row : CampaignRow) {t : Tables (Float rt)}
      → insert_campaign rt s name row ≡ ok t
      → (is_some (s.campaigns name) ≡ false)
        × (t ≡ record s { campaigns = update s.campaigns name (some row) })
  unfolding insert_campaign
  insert_campaign-eq s name row e = ground arith

  pub create_campaign-eq :
      (s : Tables (Float rt)) (name : String) (horizon : ℤ) (labels : List String) (model : String)
      (now : ℕ) {a : Unit {0}} {t : Tables (Float rt)}
      → create_campaign rt s name horizon labels model now ≡ ok (a, t)
      → (is_some (s.campaigns name) ≡ false)
        × (t ≡ record s {
          campaigns = update s.campaigns name (some (draft_row rt horizon labels model now));
        })
  unfolding create_campaign
  create_campaign-eq s name horizon labels model now e =
      let (_, _, e1) = >>=-eq-ok (validate_campaign_name name) _ e in
      let (_, _, e2) =
        >>=-eq-ok (refuse (ltb (length labels) 2 || not (all_unique labels)) _) _ e1 in
      let (u, i, e3) =
        >>=-eq-ok (insert_campaign rt s name (draft_row rt horizon labels model now)) _ e2 in
      let (fresh, same) = insert_campaign-eq s name (draft_row rt horizon labels model now) i in
      (fresh, sym (ap (λ r. r.1) (ok-injective e3)) ∙ same)
