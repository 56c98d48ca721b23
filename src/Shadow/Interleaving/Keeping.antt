-- ===== src/Shadow/Interleaving/Keeping.antt =====
-- What the interleaved callers of shadow/store.py keep: a property that every write keeps.
use signalattice.Prelude.{String, any, false, is_some, some, true, ℕ, ◌∷◌, ◌≡◌}
use signalattice.Governance.Store.Tables.{update}
use signalattice.Shadow.{CampaignState, SealedBatch, ShadowOutcome}
use signalattice.Shadow.Runtime.{ShadowRuntime}
use signalattice.Shadow.Records.{Float}
use signalattice.Shadow.Store.{CampaignRow, Tables, has_id, is_revision}
use signalattice.Shadow.Sealing.{draft_row}
use signalattice.Shadow.Inserts.{Fresh, create_campaign-eq, insert_batch-Fresh}
use signalattice.Shadow.Facts.{Written, insert_outcome-Scored, write_transition-Written}
use signalattice.Shadow.Interleaving.{
  Step, Steps, System, creates, gives_up, here, inserts_batch, inserts_outcome, looks, next,
  reads_active, reads_outcome, reads_transition, writes_transition,
}

module _ (rt : ShadowRuntime) where
  pub record KeptByWrites {ℓ} (P : Tables (Float rt) → Type ℓ) : Type ℓ where
    pub by_create :
        (s : Tables (Float rt)) (name : String) (row : CampaignRow)
        → is_some (s.campaigns name) ≡ false
        → P s
        → P (record s { campaigns = update s.campaigns name (some row) })
    pub by_move :
        (s : Tables (Float rt)) (name : String) (from target : CampaignState) (now : ℕ)
        (t : Tables (Float rt))
        → Written s name from target now t
        → P s
        → P t
    pub by_batch :
        (s : Tables (Float rt)) (batch : SealedBatch (Float rt)) (t : Tables (Float rt))
        → Fresh rt s batch t
        → P s
        → P t
    pub by_outcome :
        (s : Tables (Float rt)) (outcome : ShadowOutcome)
        → any (has_id outcome.forecast_id) s.forecasts ≡ true
        → any (is_revision outcome.forecast_id outcome.revision) s.outcomes ≡ false
        → P s
        → P (record s { outcomes = outcome ∷ s.outcomes })

  module _ {ℓ} (P : Tables (Float rt) → Type ℓ) (k : KeptByWrites P) where
    Step-keeps : {s u : System rt} → Step rt s u → P s.tables → P u.tables
    Step-keeps {s} (creates name horizon labels model now t e same) h =
        let (fresh, new) = create_campaign-eq rt s.tables name horizon labels model now e in
        rw (same, new) (k.by_create s.tables name (draft_row rt horizon labels model now) fresh h)
    Step-keeps (reads_transition name current target now e same) h = rw same h
    Step-keeps (reads_active batch e same) h = rw same h
    Step-keeps (looks batch before after r e same) h = rw same h
    Step-keeps (reads_outcome outcome f e same) h = rw same h
    Step-keeps {s} (writes_transition name from target now before after t r e same) h = rw same (
        k.by_move s.tables name from target now t
          (write_transition-Written s.tables name from target now e) h)
    Step-keeps {s} (inserts_batch batch before after t r e same) h =
        rw same (k.by_batch s.tables batch t (insert_batch-Fresh rt s.tables batch e) h)
    Step-keeps {s} (inserts_outcome outcome before after t r e same) h =
        let i = insert_outcome-Scored s.tables outcome e in
        rw (same, i.tables) (k.by_outcome s.tables outcome i.known i.new h)
    Step-keeps (gives_up reader before after r same) h = rw same h

    pub Steps-keep : {s u : System rt} → Steps rt s u → P s.tables → P u.tables
    Steps-keep here h = h
    Steps-keep (next steps step) h = Step-keeps step (Steps-keep steps h)
