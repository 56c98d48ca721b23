-- ===== src/Shadow/Interleaving/Reopening.antt =====
-- Which states of a campaign of shadow/store.py can be left when callers interleave.
use signalattice.Governance.Store.Tables.{update}
use signalattice.Shadow.Inserts.{Fresh, insert_forecasts-keeps, with_batch}
use signalattice.Shadow.Facts.{campaign_state-row, Written}
use signalattice.Shadow.Records.{Float, batch_id}
use mathlib.Core.Bool.{true≢false}
use signalattice.Prelude.{
  List, String, ok, ℕ, ◌++◌, ◌∷◌, ◌≡◌, >>=-eq-ok, [], ap, eq_refl, false, refl, some, true, ◌∙◌,
  Bool-cases, all-true, eq_iff, inl, inr, is_some, some-eq, str_eq, subst, sym,
}
use signalattice.Shadow.{
  CampaignState, active, draft, sealed, validate_campaign_name, assert_campaign_transition,
  SealedBatch,
}
use signalattice.Shadow.Runtime.{ShadowRuntime}
use signalattice.Shadow.Store.{
  Tables, campaign_state, read_transition, CampaignRow, is_terminal, log_entry, state_of_row,
  update_state, write_transition,
}
use signalattice.Shadow.Interleaving.Keeping.{Steps-keep}
use signalattice.Shadow.Interleaving.{
  Reader, Step, Steps, System, to_transition, waiting, here, next, reads_transition,
  writes_transition, written,
}

module _ {Float : Type 0} where
  campaign_state-named :
      (s : Tables Float) (name : String) {state : CampaignState}
      → campaign_state s name ≡ ok state
      → (x : String) × (validate_campaign_name name ≡ ok x)
  unfolding campaign_state
  campaign_state-named s name e =
      let (x, v, h) = >>=-eq-ok (validate_campaign_name name) _ e in (x, v)

  row-campaign_state :
      (s : Tables Float) (name : String) {x : String} (row : CampaignRow)
      → validate_campaign_name name ≡ ok x
      → s.campaigns name ≡ some row
      → campaign_state s name ≡ ok row.state
  unfolding campaign_state state_of_row
  row-campaign_state s name row v e = rw (v, e) refl

  pub read_transition_ok :
      (s : Tables Float) (name : String) (current target : CampaignState)
      → campaign_state s name ≡ ok current
      → assert_campaign_transition current target ≡ ok tt
      → read_transition s name target ≡ ok current
  unfolding read_transition
  read_transition_ok s name current target e a = rw (e, a) refl

  pub write_transition_ok :
      (s : Tables Float) (name : String) (from target : CampaignState) (now : ℕ)
      {current : CampaignState}
      → campaign_state s name ≡ ok current
      → is_terminal current ≡ false
      → (t : Tables Float) × (write_transition s name from target now ≡ ok t)
        × (campaign_state t name ≡ ok target)
  unfolding write_transition update_state
  write_transition_ok s name from target now {current} e n =
      let (row, stored, is) = campaign_state-row s name e in
      let (x, v) = campaign_state-named s name e in
      let t = record s {
        campaigns = update s.campaigns name (some (record row { state = target }));
        transitions = s.transitions ++ log_entry name from target now ∷ [];
      } in
      (
        t,
        rw (stored, ap is_terminal is ∙ n) refl,
        row-campaign_state t name (record row { state = target }) v (rw (eq_refl name) refl),
      )

module _ (rt : ShadowRuntime) where
  -- A caller that waits writes its transition, if the state at that moment is not terminal.
  writes :
      (s : System rt) (name : String) (from target : CampaignState) (now : ℕ)
      (before after : List (Reader rt)) {current : CampaignState}
      → s.readers ≡ before ++ to_transition name from target now ∷ after
      → campaign_state s.tables name ≡ ok current
      → is_terminal current ≡ false
      → (t : Tables (Float rt)) × Step rt s (written rt t before after)
        × (campaign_state t name ≡ ok target)
  writes s name from target now before after r e n =
      let (t, w, is) = write_transition_ok s.tables name from target now e n in
      (t, writes_transition name from target now before after t r w refl, is)

  reads :
      (s : System rt) (name : String) (current target : CampaignState) (now : ℕ)
      → campaign_state s.tables name ≡ ok current
      → assert_campaign_transition current target ≡ ok tt
      → Step rt s (waiting rt s (to_transition name current target now))
  reads s name current target now e a =
      reads_transition name current target now (read_transition_ok s.tables name current target e a)
        refl

  -- From any system in which a campaign is a draft, two callers that both activate it and a third
  -- that seals it can interleave so that the campaign is sealed and then active again.
  pub sealed_campaign_reopens :
      (s : System rt) (name : String) (now : ℕ)
      → campaign_state s.tables name ≡ ok draft
      → (u v : System rt) × Steps rt s u
        × (campaign_state u.tables name ≡ ok sealed)
        × Steps rt u v
        × (campaign_state v.tables name ≡ ok active)
  unfolding assert_campaign_transition
  sealed_campaign_reopens s name now e =
      let activating = to_transition name draft active now in
      let s1 = waiting rt s activating in
      let s2 = waiting rt s1 activating in
      let (t3, w3, is3) = writes s2 name draft active now [] (activating ∷ s.readers) refl e refl in
      let s3 = written rt t3 [] (activating ∷ s.readers) in
      let sealing = to_transition name active sealed now in
      let s4 = waiting rt s3 sealing in
      let (t5, w5, is5) =
        writes s4 name active sealed now [] (activating ∷ s.readers) refl is3 refl in
      let s5 = written rt t5 [] (activating ∷ s.readers) in
      let (t6, w6, is6) = writes s5 name draft active now [] s.readers refl is5 refl in
      (
        s5,
        written rt t6 [] s.readers,
        next
            (next
              (next
                (next (next here (reads s name draft active now e refl))
                  (reads s1 name draft active now e refl))
                w3)
              (reads s3 name active sealed now is3 refl))
            w5,
        is5,
        next here w6,
        is6,
      )

  -- The row of a campaign.
  abbrev Stored : String → CampaignRow → Tables (Float rt) → Type 0
  Stored name row s = s.campaigns name ≡ some row

  created-Stored :
      (name : String) (row : CampaignRow) (s : Tables (Float rt)) (other : String)
      (new : CampaignRow)
      → is_some (s.campaigns other) ≡ false
      → Stored name row s
      → Stored name row (record s { campaigns = update s.campaigns other (some new) })
  created-Stored name row s other new fresh h = elim (Bool-cases (str_eq name other)) [
    | inl b ↦
        let found = ap is_some (sym (ap s.campaigns ((eq_iff name other).0 b)) ∙ h) in
        absurd (true≢false (sym found ∙ fresh))
    | inr b ↦ rw b h
  ]

  moved-Stored :
      (s : Tables (Float rt)) (name other : String) (row : CampaignRow)
      (from target : CampaignState) (now : ℕ) {t : Tables (Float rt)}
      → is_terminal row.state ≡ true
      → Written s other from target now t
      → Stored name row s
      → Stored name row t
  moved-Stored s name other row from target now terminal w h =
      subst (Stored name row) (sym w.tables) (elim (Bool-cases (str_eq name other)) [
        | inl b ↦
            let same = some-eq (sym h ∙ ap s.campaigns ((eq_iff name other).0 b) ∙ w.before) in
            absurd (true≢false (sym terminal ∙ ap (λ r. is_terminal r.state) same ∙ w.not_terminal))
        | inr b ↦ rw b h
      ])

  Fresh-Stored :
      (name : String) (row : CampaignRow) (s : Tables (Float rt)) (batch : SealedBatch (Float rt))
      (t : Tables (Float rt))
      → Fresh rt s batch t
      → Stored name row s
      → Stored name row t
  Fresh-Stored name row s batch t f h =
      insert_forecasts-keeps rt (Stored name row) (λ item. true) (batch_id rt batch)
        (λ v item _ new k. k) (with_batch rt s batch) batch.forecasts (all-true batch.forecasts)
        f.inserted h

  -- However callers interleave, the row of a campaign that is closed or abandoned stays as it is.
  pub terminal_for_good :
      {s u : System rt} (name : String) (row : CampaignRow)
      → is_terminal row.state ≡ true
      → s.tables.campaigns name ≡ some row
      → Steps rt s u
      → u.tables.campaigns name ≡ some row
  terminal_for_good name row terminal h steps =
      Steps-keep rt (Stored name row)
        (record {
          by_create = created-Stored name row;
          by_move = λ s other from target now t w k.
              moved-Stored s name other row from target now terminal w k;
          by_batch = Fresh-Stored name row;
          by_outcome = λ s outcome known new k. k;
        })
        steps h
