-- ===== src/Shadow/Freezing.antt =====
-- The seal of a campaign in shadow/store.py, over histories in which each method runs whole.
use signalattice.Prelude.{
  Bool-cases, List, Option, String, [], ap, arith, eq_iff, false, filter, inl, inr, is_some, leb,
  none, ok, refl, some, str_eq, subst, sym, true, ℕ, ◌<◌, ◌∙◌, ◌∷◌, ◌≡◌,
}
use signalattice.Shadow.{
  CampaignState, abandoned, active, assert_campaign_transition, campaign_state_index, closed, draft,
  reconciling, sealed,
}
use signalattice.Shadow.Runtime.{ShadowRuntime}
use signalattice.Shadow.Records.{Float}
use signalattice.Shadow.Store.{CampaignRow, ForecastRow, Tables, campaign_state}
use signalattice.Shadow.Inserts.{Fresh-keeps}
use signalattice.Shadow.Facts.{Written, campaign_state-row}
use signalattice.Shadow.Lifecycle.{Call, KeptBy, run, step, step-keeps}

-- The campaign is stored, in a state after `active`.
abbrev pub IsPastActive : Option CampaignRow → Type 0
IsPastActive none = ⊥
IsPastActive (some row) = leb 2 (campaign_state_index row.state) ≡ true

assert_forward :
    (a b : CampaignState)
    → assert_campaign_transition a b ≡ ok tt
    → campaign_state_index a < campaign_state_index b
unfolding assert_campaign_transition
assert_forward draft b h = ground arith
assert_forward active b h = ground arith
assert_forward sealed b h = ground arith
assert_forward reconciling b h = ground arith
assert_forward closed b h = ground arith
assert_forward abandoned b h = ground arith

module _ (rt : ShadowRuntime) where
  abbrev pub forecasts_of : Tables (Float rt) → String → List (ForecastRow (Float rt))
  forecasts_of s campaign = filter (λ row. str_eq row.forecast.campaign campaign) s.forecasts

  -- The campaign is past `active`, and has the forecasts of a list.
  pub record Sealed (campaign : String) (rows : List (ForecastRow (Float rt)))
      (s : Tables (Float rt)) : Type 0 where
    pub past : IsPastActive (s.campaigns campaign)
    pub same : forecasts_of s campaign ≡ rows

  created-past :
      (o : Option CampaignRow) (row : CampaignRow)
      → is_some o ≡ false
      → IsPastActive o
      → IsPastActive (some row)
  created-past none row n h = elim h [ ]
  created-past (some old) row n h = cc

  moved-past :
      (o : Option CampaignRow) (row : CampaignRow) (target : CampaignState)
      → o ≡ some row
      → assert_campaign_transition row.state target ≡ ok tt
      → IsPastActive o
      → leb 2 (campaign_state_index target) ≡ true
  moved-past o row target e permitted h =
      let past = subst IsPastActive e h in ground (arith, assert_forward row.state target permitted)

  moved-Sealed :
      (campaign name : String) (rows : List (ForecastRow (Float rt))) (s : Tables (Float rt))
      (row : CampaignRow) (target : CampaignState) (now : ℕ) {t : Tables (Float rt)}
      → s.campaigns name ≡ some row
      → assert_campaign_transition row.state target ≡ ok tt
      → Written s name row.state target now t
      → Sealed campaign rows s
      → Sealed campaign rows t
  moved-Sealed campaign name rows s row target now stored permitted w h =
      subst (Sealed campaign rows) (sym w.tables) (record {
        past = elim (Bool-cases (str_eq campaign name)) [
          | inl b ↦ rw b (
              moved-past (s.campaigns campaign) row target
                (ap s.campaigns ((eq_iff campaign name).0 b) ∙ stored) permitted h.past)
          | inr b ↦ rw b h.past
        ];
        same = h.same;
      })

  -- An active campaign is not the one that is past it.
  active-other :
      (campaign name : String) (s : Tables (Float rt))
      → campaign_state s name ≡ ok active
      → IsPastActive (s.campaigns campaign)
      → str_eq name campaign ≡ false
  active-other campaign name s is h = elim (Bool-cases (str_eq name campaign)) [
    | inl b ↦
        let (row, stored, state) = campaign_state-row s name is in
        let past =
          subst IsPastActive (ap s.campaigns (sym ((eq_iff name campaign).0 b)) ∙ stored) h in
        let late = subst (λ c. leb 2 (campaign_state_index c) ≡ true) state past in ground arith
    | inr b ↦ b
  ]

  Sealed-kept :
      (campaign : String) (rows : List (ForecastRow (Float rt))) (s : Tables (Float rt))
      → Sealed campaign rows s
      → KeptBy rt (Sealed campaign rows) s
  Sealed-kept campaign rows s h = record {
    by_create = λ name row fresh new. record {
      past = elim (Bool-cases (str_eq campaign name)) [
        | inl b ↦ rw b (
            created-past (s.campaigns campaign) row
              (subst (λ c. is_some (s.campaigns c) ≡ false) (sym ((eq_iff campaign name).0 b))
                fresh)
              h.past)
        | inr b ↦ rw b h.past
      ];
      same = h.same;
    };
    by_move = λ name row target now t stored permitted w.
        moved-Sealed campaign name rows s row target now stored permitted w h;
    by_seal = λ batch t own is fresh.
        let other = active-other campaign batch.campaign s is h.past in
        Fresh-keeps rt (Sealed campaign rows) s batch fresh own
          (record { past = h.past; same = h.same })
          (λ u item c n k. record {
            past = k.past;
            same =
                rw
                  (ap (λ name. str_eq name campaign) ((eq_iff item.campaign batch.campaign).0 c)
                    ∙ other)
                  k.same;
          });
    by_record = λ outcome. record { past = h.past; same = h.same };
  }

  run-Sealed :
      (campaign : String) (rows : List (ForecastRow (Float rt))) (s : Tables (Float rt))
      (calls : List (Call rt))
      → Sealed campaign rows s
      → Sealed campaign rows (run rt s calls)
  unfolding run
  run-Sealed campaign rows s [] h = h
  run-Sealed campaign rows s (call ∷ calls) h =
      run-Sealed campaign rows (step rt s call) calls
        (step-keeps rt (Sealed campaign rows) s call h (Sealed-kept campaign rows s h))

  -- Once a campaign is past `active`, any calls, each of them whole, leave it past `active` and with
  -- the forecasts that it had.
  pub sealed_forecasts :
      (s : Tables (Float rt)) (campaign : String) (calls : List (Call rt))
      → IsPastActive (s.campaigns campaign)
      → IsPastActive ((run rt s calls).campaigns campaign)
        × (forecasts_of (run rt s calls) campaign ≡ forecasts_of s campaign)
  sealed_forecasts s campaign calls h =
      let k =
        run-Sealed campaign (forecasts_of s campaign) s calls (record { past = h; same = refl }) in
      (k.past, k.same)
