-- ===== src/Shadow/Interleaving.antt =====
-- The methods of shadow/store.py as they interleave: a caller reads on connections of its own and
-- writes later, so that other callers may write in between. A step is a read or a write that
-- succeeds, or a caller that gives up.
pub mod Keeping
pub mod Outcomes
pub mod Opinions
mod Examples
pub mod Reopening
use signalattice.Prelude.{List, String, any, none, ok, true, ℕ, ℤ, ◌++◌, ◌∷◌, ◌≡◌}
use signalattice.Shadow.{CampaignState, SealedBatch, ShadowOutcome}
use signalattice.Shadow.Runtime.{ShadowRuntime}
use signalattice.Shadow.Records.{Float}
use signalattice.Shadow.Store.{
  Tables, has_id, insert_outcome, read_transition, require_active, stored_batch, stored_outcome,
  write_transition,
}
use signalattice.Shadow.Sealing.{create_campaign, insert_batch}

module _ (rt : ShadowRuntime) where
  -- What a caller that has read is about to do: to write a transition from the state it read, to
  -- look for a batch of the instant once the campaign was active, to insert a batch where it found
  -- none, or to insert an outcome where it found its forecast and no such revision.
  pub data Reader : Type 0 where
    to_transition : String → CampaignState → CampaignState → ℕ → Reader
    to_look : SealedBatch (Float rt) → Reader
    to_insert_batch : SealedBatch (Float rt) → Reader
    to_insert_outcome : ShadowOutcome → Reader

  pub record System : Type 0 where
    pub tables : Tables (Float rt)
    pub readers : List Reader

  -- The tables and the readers after a write of one of them.
  abbrev pub written : Tables (Float rt) → List Reader → List Reader → System
  written t before after = record { tables = t; readers = before ++ after }

  abbrev pub waiting : System → Reader → System
  waiting s reader = record s { readers = reader ∷ s.readers }

  pub data Step (s : System) (u : System) : Type 0 where
    creates :
        (name : String) (horizon : ℤ) (labels : List String) (model : String) (now : ℕ)
        (t : Tables (Float rt))
        → create_campaign rt s.tables name horizon labels model now ≡ ok (tt, t)
        → u ≡ record s { tables = t }
        → Step s u
    reads_transition :
        (name : String) (current target : CampaignState) (now : ℕ)
        → read_transition s.tables name target ≡ ok current
        → u ≡ waiting s (to_transition name current target now)
        → Step s u
    reads_active :
        (batch : SealedBatch (Float rt))
        → require_active s.tables batch.campaign ≡ ok tt
        → u ≡ waiting s (to_look batch)
        → Step s u
    looks :
        (batch : SealedBatch (Float rt)) (before after : List Reader)
        → s.readers ≡ before ++ to_look batch ∷ after
        → stored_batch s.tables batch.campaign batch.as_of ≡ none
        → u ≡ waiting (written s.tables before after) (to_insert_batch batch)
        → Step s u
    reads_outcome :
        (outcome : ShadowOutcome)
        → any (has_id outcome.forecast_id) s.tables.forecasts ≡ true
        → stored_outcome s.tables outcome.forecast_id outcome.revision ≡ none
        → u ≡ waiting s (to_insert_outcome outcome)
        → Step s u
    writes_transition :
        (name : String) (current target : CampaignState) (now : ℕ) (before after : List Reader)
        (t : Tables (Float rt))
        → s.readers ≡ before ++ to_transition name current target now ∷ after
        → write_transition s.tables name current target now ≡ ok t
        → u ≡ written t before after
        → Step s u
    inserts_batch :
        (batch : SealedBatch (Float rt)) (before after : List Reader) (t : Tables (Float rt))
        → s.readers ≡ before ++ to_insert_batch batch ∷ after
        → insert_batch rt s.tables batch ≡ ok t
        → u ≡ written t before after
        → Step s u
    inserts_outcome :
        (outcome : ShadowOutcome) (before after : List Reader) (t : Tables (Float rt))
        → s.readers ≡ before ++ to_insert_outcome outcome ∷ after
        → insert_outcome s.tables outcome ≡ ok t
        → u ≡ written t before after
        → Step s u
    gives_up :
        (reader : Reader) (before after : List Reader)
        → s.readers ≡ before ++ reader ∷ after
        → u ≡ written s.tables before after
        → Step s u

  pub data Steps (s : System) : System → Type 0 where
    here : Steps s s
    next : {t u : System} → Steps s t → Step t u → Steps s u
