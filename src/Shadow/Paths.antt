-- ===== src/Shadow/Paths.antt =====
-- The log of transitions of shadow/store.py against the state machine of shadow/contracts.py, over
-- histories in which each method runs whole.
use signalattice.Prelude.{
  Bool-cases, List, Option, String, [], eq_iff, false, filter, inl, inr, is_some, none, ok, refl,
  some, str_eq, subst, sym, ℕ, ◌++◌, ◌∙◌, ◌∷◌, ◌≡◌, ap, filter-append_dropped, filter-append_kept,
  str_eq_sym,
}
use signalattice.Shadow.{CampaignState, assert_campaign_transition, draft}
use signalattice.Shadow.Runtime.{ShadowRuntime}
use signalattice.Shadow.Records.{Float}
use signalattice.Shadow.Store.{CampaignRow, Tables, TransitionRow, empty_tables, log_entry}
use signalattice.Shadow.Inserts.{Fresh-keeps}
use signalattice.Shadow.Facts.{Written}
use signalattice.Shadow.Lifecycle.{KeptBy, Call, run, step, step-keeps}

-- Each entry of a log leaves the state that the one before it entered, by a permitted transition.
abbrev pub IsPath : CampaignState → List TransitionRow → CampaignState → Type 0
IsPath from [] to = from ≡ to
IsPath from (row ∷ rows) to =
    (row.from_state ≡ from)
    × (assert_campaign_transition from row.to_state ≡ ok tt)
    × IsPath row.to_state rows to

-- A campaign's log leads from `draft` to its state; without the campaign there is none.
abbrev pub Logged : Option CampaignRow → List TransitionRow → Type 0
Logged none log = log ≡ []
Logged (some row) log = IsPath draft log row.state

IsPath-append :
    (from mid to : CampaignState) (log : List TransitionRow) (row : TransitionRow)
    → IsPath from log mid
    → row.from_state ≡ mid
    → row.to_state ≡ to
    → assert_campaign_transition mid to ≡ ok tt
    → IsPath from (log ++ row ∷ []) to
IsPath-append from mid to [] row p e f a = (
  e ∙ sym p,
  subst (λ s. assert_campaign_transition s row.to_state ≡ ok tt) (sym p)
      (subst (λ s. assert_campaign_transition mid s ≡ ok tt) (sym f) a),
  f,
)
IsPath-append from mid to (x ∷ xs) row p e f a =
    (p.0, p.1, IsPath-append x.to_state mid to xs row p.2 e f a)

module _ (rt : ShadowRuntime) where
  abbrev pub log_of : Tables (Float rt) → String → List TransitionRow
  log_of s campaign = filter (λ row. str_eq row.campaign campaign) s.transitions

  abbrev LoggedIn : String → Tables (Float rt) → Type 0
  LoggedIn campaign s = Logged (s.campaigns campaign) (log_of s campaign)

  created-Logged :
      (o : Option CampaignRow) (row : CampaignRow) (log : List TransitionRow)
      → is_some o ≡ false
      → row.state ≡ draft
      → Logged o log
      → Logged (some row) log
  created-Logged none row log n e h = rw h (sym e)
  created-Logged (some old) row log n e h = cc

  moved-Logged :
      (campaign name : String) (s : Tables (Float rt)) (row : CampaignRow) (target : CampaignState)
      (now : ℕ) {t : Tables (Float rt)}
      → s.campaigns name ≡ some row
      → assert_campaign_transition row.state target ≡ ok tt
      → Written s name row.state target now t
      → LoggedIn campaign s
      → LoggedIn campaign t
  moved-Logged campaign name s row target now stored permitted w h =
      subst (LoggedIn campaign) (sym w.tables) (elim (Bool-cases (str_eq campaign name)) [
        | inl b ↦
            let same = (eq_iff campaign name).0 b in
            rw
              (
                b,
                filter-append_kept (λ r. str_eq r.campaign campaign) s.transitions
                    (log_entry name row.state target now) (str_eq_sym name campaign ∙ b),
              )
              (IsPath-append draft row.state target (log_of s campaign)
                (log_entry name row.state target now)
                (subst (λ o. Logged o (log_of s campaign)) (ap s.campaigns same ∙ stored) h) refl
                refl permitted)
        | inr b ↦
            rw
              (
                b,
                filter-append_dropped (λ r. str_eq r.campaign campaign) s.transitions
                    (log_entry name row.state target now) (str_eq_sym name campaign ∙ b),
              )
              h
      ])

  Logged-kept :
      (campaign : String) (s : Tables (Float rt))
      → LoggedIn campaign s
      → KeptBy rt (LoggedIn campaign) s
  Logged-kept campaign s h = record {
    by_create = λ name row fresh new. elim (Bool-cases (str_eq campaign name)) [
      | inl b ↦
          let same = (eq_iff campaign name).0 b in
          rw b (
            created-Logged (s.campaigns campaign) row (log_of s campaign)
              (subst (λ c. is_some (s.campaigns c) ≡ false) (sym same) fresh) new h)
      | inr b ↦ rw b h
    ];
    by_move = λ name row target now t stored permitted w.
        moved-Logged campaign name s row target now stored permitted w h;
    by_seal = λ batch t own is fresh.
        Fresh-keeps rt (LoggedIn campaign) s batch fresh own h (λ u item c n k. k);
    by_record = λ outcome. h;
  }

  run-Logged :
      (campaign : String) (s : Tables (Float rt)) (calls : List (Call rt))
      → LoggedIn campaign s
      → LoggedIn campaign (run rt s calls)
  unfolding run
  run-Logged campaign s [] h = h
  run-Logged campaign s (call ∷ calls) h =
      run-Logged campaign (step rt s call) calls
        (step-keeps rt (LoggedIn campaign) s call h (Logged-kept campaign s h))

  -- After any calls on empty tables, each of them whole, the log of a campaign's transitions leads
  -- from `draft` to the state that is stored, every entry a permitted transition from the state that
  -- the entry before it entered; a campaign that is not stored has no log.
  pub run-IsPath :
      (calls : List (Call rt)) (campaign : String)
      → let t = run rt empty_tables calls in Logged (t.campaigns campaign) (log_of t campaign)
  run-IsPath calls campaign = run-Logged campaign empty_tables calls refl
