-- ===== src/Shadow/Facts.antt =====
-- What a read or a transaction of shadow/store.py that succeeded did to the tables.
use signalattice.Prelude.{
  >>=-eq-ok, String, [], false, ok, ok-injective, some, subst, sym, ℕ, ◌++◌, ◌∙◌, ◌∷◌, ◌≡◌, Option,
  none, refl, refuse, refuse-false, any, arith, require, true, ap, inl, inr, require-true, ℤ, ◌⊎◌,
}
use signalattice.Governance.Store.Tables.{update}
use signalattice.Shadow.{
  CampaignState, assert_campaign_transition, validate_campaign_name, database_error, ShadowOutcome,
  abandoned, active, closed, draft, is_state, reconciling, sealed,
}
use signalattice.Shadow.Store.{
  CampaignRow, Tables, campaign_state, is_terminal, read_transition, update_state, write_transition,
  state_of_row, has_id, append_outcome, insert_outcome, replay_or_insert, require_active,
  stored_outcome, log_entry, is_revision,
}

state_of_row-row :
    (o : Option CampaignRow) {state : CampaignState}
    → state_of_row o ≡ ok state
    → (row : CampaignRow) × (o ≡ some row) × (row.state ≡ state)
unfolding state_of_row
state_of_row-row none e = cc
state_of_row-row (some row) e = (row, refl, ok-injective e)

-- Members with one position are one.
pub is_state-eq : (a b : CampaignState) → is_state a b ≡ true → a ≡ b
is_state-eq draft b h = ground arith
is_state-eq active b h = ground arith
is_state-eq sealed b h = ground arith
is_state-eq reconciling b h = ground arith
is_state-eq closed b h = ground arith
is_state-eq abandoned b h = ground arith

module _ {Float : Type 0} where
  pub campaign_state-row :
      (s : Tables Float) (campaign : String) {state : CampaignState}
      → campaign_state s campaign ≡ ok state
      → (row : CampaignRow) × (s.campaigns campaign ≡ some row) × (row.state ≡ state)
  unfolding campaign_state
  campaign_state-row s campaign e =
      let (u, _, h) = >>=-eq-ok (validate_campaign_name campaign) _ e in
      state_of_row-row (s.campaigns campaign) h

  pub read_transition-permitted :
      (s : Tables Float) (campaign : String) (target : CampaignState) {current : CampaignState}
      → read_transition s campaign target ≡ ok current
      → (row : CampaignRow) × (s.campaigns campaign ≡ some row)
        × (row.state ≡ current)
        × (assert_campaign_transition current target ≡ ok tt)
  unfolding read_transition
  read_transition-permitted s campaign target {current} e =
      let (state, r, h) = >>=-eq-ok (campaign_state s campaign) _ e in
      let (u, a, k) = >>=-eq-ok (assert_campaign_transition state target) _ h in
      let (row, stored, is) = campaign_state-row s campaign r in
      let same = ok-injective k in
      (row, stored, is ∙ same, subst (λ c. assert_campaign_transition c target ≡ ok tt) same a)

  -- The transaction that writes a transition leaves a state that is not terminal.
  pub record Written (s : Tables Float) (campaign : String) (current target : CampaignState)
      (now : ℕ) (t : Tables Float) : Type 0 where
    pub row : CampaignRow
    pub before : s.campaigns campaign ≡ some row
    pub not_terminal : is_terminal row.state ≡ false
    pub tables : t ≡ record s {
      campaigns = update s.campaigns campaign (some (record row { state = target }));
      transitions = s.transitions ++ log_entry campaign current target now ∷ [];
    }

  update_state-row :
      (s : Tables Float) (campaign : String) (target : CampaignState) (o : Option CampaignRow)
      {t : Tables Float}
      → update_state s campaign target o ≡ ok t
      → (row : CampaignRow) × (o ≡ some row)
        × (is_terminal row.state ≡ false)
        × (t ≡ record s {
          campaigns = update s.campaigns campaign (some (record row { state = target }));
        })
  unfolding update_state
  update_state-row s campaign target none e = cc
  update_state-row s campaign target (some row) {t} e =
      let (u, n, h) = >>=-eq-ok (refuse (is_terminal row.state) database_error) _ e in
      (row, refl, refuse-false _ _ n, sym (ok-injective h))

  pub write_transition-Written :
      (s : Tables Float) (campaign : String) (current target : CampaignState) (now : ℕ)
      {t : Tables Float}
      → write_transition s campaign current target now ≡ ok t
      → Written s campaign current target now t
  unfolding write_transition
  write_transition-Written s campaign current target now e =
      let (u, h, k) = >>=-eq-ok (update_state s campaign target (s.campaigns campaign)) _ e in
      let (row, r, n, x) = update_state-row s campaign target (s.campaigns campaign) h in
      record { row = row; before = r; not_terminal = n; tables = sym (ok-injective (rw x at k)) }

  pub require_active-is :
      (s : Tables Float) (campaign : String) {x : Unit {0}}
      → require_active s campaign ≡ ok x
      → campaign_state s campaign ≡ ok active
  unfolding require_active
  require_active-is s campaign e =
      let (state, r, e1) = >>=-eq-ok (campaign_state s campaign) _ e in
      r ∙ ap ok (is_state-eq state active (require-true _ _ e1))

  -- An outcome that is inserted has its forecast, and is the first of its revision.
  pub record Scored (s : Tables Float) (outcome : ShadowOutcome) (t : Tables Float) : Type 0 where
    pub known : any (has_id outcome.forecast_id) s.forecasts ≡ true
    pub new : any (is_revision outcome.forecast_id outcome.revision) s.outcomes ≡ false
    pub tables : t ≡ record s { outcomes = outcome ∷ s.outcomes }

  pub insert_outcome-Scored :
      (s : Tables Float) (outcome : ShadowOutcome) {t : Tables Float}
      → insert_outcome s outcome ≡ ok t
      → Scored s outcome t
  unfolding insert_outcome
  insert_outcome-Scored s outcome e = ground arith

  replay_or_insert-tables :
      (o : Option ShadowOutcome) (s : Tables Float) (outcome : ShadowOutcome) {a : ℤ}
      {t : Tables Float}
      → replay_or_insert o s outcome ≡ ok (a, t)
      → (t ≡ s) ⊎ (t ≡ record s { outcomes = outcome ∷ s.outcomes })
  unfolding replay_or_insert insert_outcome
  replay_or_insert-tables none s outcome e = inr (ground arith)
  replay_or_insert-tables (some stored) s outcome e = inl (ground arith)

  pub append_outcome-tables :
      (s : Tables Float) (outcome : ShadowOutcome) {a : ℤ} {t : Tables Float}
      → append_outcome s outcome ≡ ok (a, t)
      → (t ≡ s) ⊎ (t ≡ record s { outcomes = outcome ∷ s.outcomes })
  unfolding append_outcome
  append_outcome-tables s outcome e =
      let (_, _, e1) = >>=-eq-ok (require (any (has_id outcome.forecast_id) s.forecasts) _) _ e in
      replay_or_insert-tables (stored_outcome s outcome.forecast_id outcome.revision) s outcome e1
