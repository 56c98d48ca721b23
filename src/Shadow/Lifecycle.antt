-- ===== src/Shadow/Lifecycle.antt =====
-- Histories of shadow/store.py in which each method runs whole, as one caller makes them: any
-- sequence of calls, failed ones included.
use signalattice.Shadow.Inserts.{Fresh, create_campaign-eq, insert_batch-Fresh}
use signalattice.Shadow.Facts.{
  Written, append_outcome-tables, read_transition-permitted, require_active-is,
  write_transition-Written,
}
use signalattice.Shadow.Batches.{Built-IsOwn, IsOwn, check_batch-Built}
use signalattice.Prelude.{
  List, Result, String, [], err, false, is_some, ok, refl, some, str_eq, ℕ, ℤ, ◌>>=◌, ◌∷◌, ◌≡◌,
  >>=-eq-ok, Option, ap, inl, inr, none, ok-injective, require, subst, sym,
}
use signalattice.Governance.Store.Tables.{update}
use signalattice.Shadow.{
  CampaignState, SealedBatch, ShadowError, ShadowOutcome, active, assert_campaign_transition, draft,
}
use signalattice.Shadow.Runtime.{ShadowRuntime}
use signalattice.Shadow.Records.{Float, check_batch, check_outcome, batch_id}
use signalattice.Shadow.Store.{
  CampaignRow, Tables, append_outcome, commit, transition, BatchRow, campaign_state,
  read_transition, require_active, stored_batch, write_transition,
}
use signalattice.Shadow.Sealing.{
  create_campaign, seal_batch, insert_batch, replay_or_seal, draft_row,
}

module _ (rt : ShadowRuntime) where
  -- A call of a method, with its arguments; batches and outcomes are built before they are passed.
  pub data Call : Type 0 where
    creating : String → ℤ → List String → String → ℕ → Call
    moving : String → CampaignState → ℕ → Call
    sealing : SealedBatch (Float rt) → Call
    recording : ShadowOutcome → Call

  -- A batch is built and sealed, an outcome is built and appended.
  unfoldable pub build_and_seal :
      Tables (Float rt) → SealedBatch (Float rt) → Result ShadowError (String × Tables (Float rt))
  build_and_seal s batch = do built ← check_batch batch; seal_batch rt s built

  unfoldable pub build_and_append :
      Tables (Float rt) → ShadowOutcome → Result ShadowError (ℤ × Tables (Float rt))
  build_and_append s outcome = do built ← check_outcome rt outcome; append_outcome s built

  -- The tables after a call.
  unfoldable pub step : Tables (Float rt) → Call → Tables (Float rt)
  step s (creating name horizon labels model now) =
      commit s (create_campaign rt s name horizon labels model now)
  step s (moving name target now) = commit s (transition s name target now)
  step s (sealing batch) = commit s (build_and_seal s batch)
  step s (recording outcome) = commit s (build_and_append s outcome)

  unfoldable pub run : Tables (Float rt) → List Call → Tables (Float rt)
  run s [] = s
  run s (call ∷ calls) = run (step s call) calls

  commit-keeps {ℓ} :
      {A : Type 0} (P : Tables (Float rt) → Type ℓ) (s : Tables (Float rt))
      (r : Result ShadowError (A × Tables (Float rt)))
      → P s
      → ((a : A) (t : Tables (Float rt)) → r ≡ ok (a, t) → P t)
      → P (commit s r)
  commit-keeps P s (ok (a, t)) h k = k a t refl
  commit-keeps P s (err e) h k = h

  -- What the tables keep under every successful transaction holds after every call.
  pub record KeptBy {ℓ} (P : Tables (Float rt) → Type ℓ) (s : Tables (Float rt)) : Type ℓ where
    pub by_create :
        (name : String) (row : CampaignRow)
        → is_some (s.campaigns name) ≡ false
        → row.state ≡ draft
        → P (record s { campaigns = update s.campaigns name (some row) })
    pub by_move :
        (name : String) (row : CampaignRow) (target : CampaignState) (now : ℕ)
        (t : Tables (Float rt))
        → s.campaigns name ≡ some row
        → assert_campaign_transition row.state target ≡ ok tt
        → Written s name row.state target now t
        → P t
    pub by_seal :
        (batch : SealedBatch (Float rt)) (t : Tables (Float rt))
        → IsOwn batch
        → campaign_state s batch.campaign ≡ ok active
        → Fresh rt s batch t
        → P t
    pub by_record : (outcome : ShadowOutcome) → P (record s { outcomes = outcome ∷ s.outcomes })

  transition-keeps {ℓ} :
      (P : Tables (Float rt) → Type ℓ) (s : Tables (Float rt)) (name : String)
      (target : CampaignState) (now : ℕ) {a : Unit {0}} {t : Tables (Float rt)}
      → KeptBy P s
      → transition s name target now ≡ ok (a, t)
      → P t
  unfolding transition
  transition-keeps P s name target now k e =
      let (current, r, e1) = >>=-eq-ok (read_transition s name target) _ e in
      let (u, w, e2) = >>=-eq-ok (write_transition s name current target now) _ e1 in
      let (row, stored, is, permitted) = read_transition-permitted s name target r in
      subst P (ap (λ r. r.1) (ok-injective e2)) (
        k.by_move name row target now u stored
          (subst (λ c. assert_campaign_transition c target ≡ ok tt) (sym is) permitted)
          (subst (λ c. Written s name c target now u) (sym is)
            (write_transition-Written s name current target now w)))

  create-keeps {ℓ} :
      (P : Tables (Float rt) → Type ℓ) (s : Tables (Float rt)) (name : String) (horizon : ℤ)
      (labels : List String) (model : String) (now : ℕ) {a : Unit {0}} {t : Tables (Float rt)}
      → KeptBy P s
      → create_campaign rt s name horizon labels model now ≡ ok (a, t)
      → P t
  create-keeps P s name horizon labels model now k e =
      let (fresh, same) = create_campaign-eq rt s name horizon labels model now e in
      subst P (sym same) (k.by_create name (draft_row rt horizon labels model now) fresh refl)

  append_outcome-keeps {ℓ} :
      (P : Tables (Float rt) → Type ℓ) (s : Tables (Float rt)) (outcome : ShadowOutcome) {a : ℤ}
      {t : Tables (Float rt)}
      → KeptBy P s
      → P s
      → append_outcome s outcome ≡ ok (a, t)
      → P t
  append_outcome-keeps P s outcome k h e = elim (append_outcome-tables s outcome e) [
    | inl same ↦ subst P (sym same) h
    | inr new ↦ subst P (sym new) (k.by_record outcome)
  ]

  replay_or_seal-keeps {ℓ} :
      (P : Tables (Float rt) → Type ℓ) (s : Tables (Float rt)) (o : Option BatchRow)
      (batch : SealedBatch (Float rt)) {a : String} {t : Tables (Float rt)}
      → KeptBy P s
      → P s
      → IsOwn batch
      → campaign_state s batch.campaign ≡ ok active
      → replay_or_seal rt o s batch ≡ ok (a, t)
      → P t
  unfolding replay_or_seal
  replay_or_seal-keeps P s (some row) batch k h own is e =
      let (_, _, e1) = >>=-eq-ok (require (str_eq row.batch_id (batch_id rt batch)) _) _ e in
      subst P (ap (λ r. r.1) (ok-injective e1)) h
  replay_or_seal-keeps P s none batch k h own is e =
      let (u, i, e1) = >>=-eq-ok (insert_batch rt s batch) _ e in
      subst P (ap (λ r. r.1) (ok-injective e1))
        (k.by_seal batch u own is (insert_batch-Fresh rt s batch i))

  seal_batch-keeps {ℓ} :
      (P : Tables (Float rt) → Type ℓ) (s : Tables (Float rt)) (batch : SealedBatch (Float rt))
      {a : String} {t : Tables (Float rt)}
      → KeptBy P s
      → P s
      → IsOwn batch
      → seal_batch rt s batch ≡ ok (a, t)
      → P t
  unfolding seal_batch
  seal_batch-keeps P s batch k h own e =
      let (_, r, e1) = >>=-eq-ok (require_active s batch.campaign) _ e in
      replay_or_seal-keeps P s (stored_batch s batch.campaign batch.as_of) batch k h own
        (require_active-is s batch.campaign r) e1

  pub step-keeps {ℓ} :
      (P : Tables (Float rt) → Type ℓ) (s : Tables (Float rt)) (call : Call)
      → P s
      → KeptBy P s
      → P (step s call)
  unfolding step build_and_seal build_and_append
  step-keeps P s (creating name horizon labels model now) h k =
      commit-keeps P s _ h λ a t e. create-keeps P s name horizon labels model now k e
  step-keeps P s (moving name target now) h k =
      commit-keeps P s _ h λ a t e. transition-keeps P s name target now k e
  step-keeps P s (sealing batch) h k = commit-keeps P s (build_and_seal s batch) h λ a t e.
      let (built, b, e1) = >>=-eq-ok (check_batch batch) (seal_batch rt s) e in
      seal_batch-keeps P s built k h (Built-IsOwn batch (check_batch-Built batch b)) e1
  step-keeps P s (recording outcome) h k = commit-keeps P s (build_and_append s outcome) h λ a t e.
      let (built, b, e1) = >>=-eq-ok (check_outcome rt outcome) (append_outcome s) e in
      append_outcome-keeps P s built k h e1
