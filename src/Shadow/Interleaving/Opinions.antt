-- ===== src/Shadow/Interleaving/Opinions.antt =====
-- What the constraints of _MIGRATION_2 (tracking/migrations.py) keep in the tables of
-- shadow/store.py, however its callers interleave.
use signalattice.Prelude.{
  Bool, List, String, [], all, all_mono, all-true, any, arith, distinct, eq_refl, false, refl,
  str_eq, subst, true, ◌∷◌, ◌≡◌, Option, sym,
}
use signalattice.Shadow.{SealedBatch, ShadowForecast, ShadowOutcome}
use signalattice.Shadow.Runtime.{ShadowRuntime}
use signalattice.Shadow.Records.{Float, batch_id, forecast_id}
use signalattice.Shadow.Store.{
  BatchRow, ForecastRow, Tables, empty_tables, has_id, is_for, is_revision, CampaignRow,
  TransitionRow,
}
use signalattice.Shadow.Inserts.{Fresh, insert_forecasts-keeps, row_of, with_batch, with_forecast}
use signalattice.Shadow.Interleaving.Keeping.{KeptByWrites, Steps-keep}
use signalattice.Shadow.Interleaving.{Steps, System}

module _ {Float : Type 0} where
  abbrev pub is_in : List BatchRow → ForecastRow Float → Bool
  is_in batches row = any (λ batch. str_eq batch.batch_id row.batch_id) batches

  abbrev pub is_scored : List (ForecastRow Float) → ShadowOutcome → Bool
  is_scored forecasts outcome = any (has_id outcome.forecast_id) forecasts

  -- One batch for a campaign's instant, one forecast for an identity, which has a batch, and one
  -- outcome for a revision of a forecast, which is stored.
  pub record IsSound (s : Tables Float) : Type 0 where
    pub one_batch : distinct (λ a. is_for a.campaign a.as_of) s.batches ≡ true
    pub one_forecast : distinct (λ a. has_id a.forecast_id) s.forecasts ≡ true
    pub in_batch : all (is_in s.batches) s.forecasts ≡ true
    pub one_revision : distinct (λ a. is_revision a.forecast_id a.revision) s.outcomes ≡ true
    pub scored : all (is_scored s.forecasts) s.outcomes ≡ true

  -- The campaigns and the log do not matter.
  kept :
      (s : Tables Float) {campaigns : String → Option CampaignRow}
      {transitions : List TransitionRow}
      → IsSound s
      → IsSound (record s { campaigns = campaigns; transitions = transitions })
  kept s h = record {
    one_batch = h.one_batch;
    one_forecast = h.one_forecast;
    in_batch = h.in_batch;
    one_revision = h.one_revision;
    scored = h.scored;
  }

  scored-IsSound :
      (s : Tables Float) (outcome : ShadowOutcome)
      → any (has_id outcome.forecast_id) s.forecasts ≡ true
      → any (is_revision outcome.forecast_id outcome.revision) s.outcomes ≡ false
      → IsSound s
      → IsSound (record s { outcomes = outcome ∷ s.outcomes })
  scored-IsSound s outcome known new h = record {
    one_batch = h.one_batch;
    one_forecast = h.one_forecast;
    in_batch = h.in_batch;
    one_revision = rw new h.one_revision;
    scored = rw known h.scored;
  }

module _ (rt : ShadowRuntime) where
  -- Sound tables that hold a batch.
  record Holds (batch : String) (s : Tables (Float rt)) : Type 0 where
    sound : IsSound s
    held : any (λ row. str_eq row.batch_id batch) s.batches ≡ true

  with_batch-Holds :
      (s : Tables (Float rt)) (batch : SealedBatch (Float rt))
      → IsSound s
      → any (is_for batch.campaign batch.as_of) s.batches ≡ false
      → Holds (batch_id rt batch) (with_batch rt s batch)
  with_batch-Holds s batch h new = record {
    sound = record {
      one_batch = rw new h.one_batch;
      one_forecast = h.one_forecast;
      in_batch =
          all_mono (is_in s.batches) (is_in (row_of rt batch ∷ s.batches)) (λ row k. ground arith)
            s.forecasts h.in_batch;
      one_revision = h.one_revision;
      scored = h.scored;
    };
    held = rw (eq_refl (batch_id rt batch)) refl;
  }

  with_forecast-Holds :
      (batch : String) (u : Tables (Float rt)) (item : ShadowForecast (Float rt))
      → any (has_id (forecast_id rt item)) u.forecasts ≡ false
      → Holds batch u
      → Holds batch (with_forecast rt u batch item)
  with_forecast-Holds batch u item new h = record {
    sound = record {
      one_batch = h.sound.one_batch;
      one_forecast = rw new h.sound.one_forecast;
      in_batch = rw h.held h.sound.in_batch;
      one_revision = h.sound.one_revision;
      scored =
          all_mono (is_scored u.forecasts) (is_scored ((with_forecast rt u batch item).forecasts))
            (λ outcome k. ground arith) u.outcomes h.sound.scored;
    };
    held = h.held;
  }

  Fresh-IsSound :
      (s : Tables (Float rt)) (batch : SealedBatch (Float rt)) (t : Tables (Float rt))
      → Fresh rt s batch t
      → IsSound s
      → IsSound t
  Fresh-IsSound s batch t f h =
      let k =
        insert_forecasts-keeps rt (Holds (batch_id rt batch)) (λ item. true) (batch_id rt batch)
          (λ u item _ new h. with_forecast-Holds (batch_id rt batch) u item new h)
          (with_batch rt s batch) batch.forecasts (all-true batch.forecasts) f.inserted
          (with_batch-Holds s batch h f.new_instant) in
      k.sound

  IsSound-kept : KeptByWrites rt IsSound
  IsSound-kept = record {
    by_create = λ s name row fresh h. kept s h;
    by_move = λ s name from target now t w h. subst IsSound (sym w.tables) (kept s h);
    by_batch = Fresh-IsSound;
    by_outcome = scored-IsSound;
  }

  -- However callers interleave, from empty tables a campaign has at most one batch for an instant,
  -- no two forecasts have one identity, every forecast has its batch, no two outcomes are one
  -- revision of one forecast, and every outcome has its forecast.
  pub Steps-IsSound :
      {u : System rt}
      → Steps rt (record { tables = empty_tables; readers = [] }) u
      → IsSound u.tables
  Steps-IsSound steps = Steps-keep rt IsSound IsSound-kept steps (record {
    one_batch = refl;
    one_forecast = refl;
    in_batch = refl;
    one_revision = refl;
    scored = refl;
  })
