-- ===== src/Shadow/Closing.antt =====
-- The end of a campaign of shadow/store.py: the transitions that its state has left.
use signalattice.Prelude.{
  List, Result, String, [], arith, false, length, ok, refl, ℕ, ◌>>=◌, ◌∷◌, ◌≡◌, ◌≤◌, all,
}
use signalattice.Shadow.{
  CampaignState, ShadowError, abandoned, active, assert_campaign_transition, closed, draft,
  is_state, reconciling, sealed,
}
use signalattice.Shadow.Store.{Tables, campaign_state, is_terminal, transition}
use signalattice.Shadow.Interleaving.Reopening.{read_transition_ok, write_transition_ok}

-- The states that a campaign still goes through until it is closed.
abbrev pub states_left : CampaignState → List CampaignState
states_left draft = active ∷ sealed ∷ reconciling ∷ closed ∷ []
states_left active = sealed ∷ reconciling ∷ closed ∷ []
states_left sealed = reconciling ∷ closed ∷ []
states_left reconciling = closed ∷ []
states_left closed = []
states_left abandoned = []

module _ {Float : Type 0} where
  -- One transition after the other; the first that raises ends them.
  unfoldable pub transitions :
      Tables Float → String → List CampaignState → ℕ → Result ShadowError (Tables Float)
  transitions s name [] now = ok s
  transitions s name (target ∷ targets) now = do
    (u, t) ← transition s name target now
    transitions t name targets now

  -- All of them succeed and leave the campaign closed.
  abbrev Closes : Tables Float → String → List CampaignState → ℕ → Type 0
  Closes s name targets now =
      (t : Tables Float) × (transitions s name targets now ≡ ok t)
      × (campaign_state t name ≡ ok closed)

  moves :
      (s : Tables Float) (name : String) (current target : CampaignState) (now : ℕ)
      → campaign_state s name ≡ ok current
      → assert_campaign_transition current target ≡ ok tt
      → is_terminal current ≡ false
      → (t : Tables Float) × (transition s name target now ≡ ok (tt, t))
        × (campaign_state t name ≡ ok target)
  unfolding transition
  moves s name current target now e a n =
      let (t, w, is) = write_transition_ok s name current target now e n in
      (t, rw (read_transition_ok s name current target e a, w) refl, is)

  Closes-first :
      (s : Tables Float) (name : String) (current target : CampaignState)
      (targets : List CampaignState) (now : ℕ)
      → campaign_state s name ≡ ok current
      → assert_campaign_transition current target ≡ ok tt
      → is_terminal current ≡ false
      → ((t : Tables Float) → campaign_state t name ≡ ok target → Closes t name targets now)
      → Closes s name (target ∷ targets) now
  unfolding transitions
  Closes-first s name current target targets now e a n k =
      let (t, w, is) = moves s name current target now e a n in
      let (u, all, ends) = k t is in (u, rw w all, ends)

  from_closed :
      (s : Tables Float) (name : String) (now : ℕ)
      → campaign_state s name ≡ ok closed
      → Closes s name [] now
  unfolding transitions
  from_closed s name now e = (s, refl, e)

  from_reconciling :
      (s : Tables Float) (name : String) (now : ℕ)
      → campaign_state s name ≡ ok reconciling
      → Closes s name (states_left reconciling) now
  unfolding assert_campaign_transition
  from_reconciling s name now e =
      Closes-first s name reconciling closed _ now e refl refl λ t. from_closed t name now

  from_sealed :
      (s : Tables Float) (name : String) (now : ℕ)
      → campaign_state s name ≡ ok sealed
      → Closes s name (states_left sealed) now
  unfolding assert_campaign_transition
  from_sealed s name now e =
      Closes-first s name sealed reconciling _ now e refl refl λ t. from_reconciling t name now

  from_active :
      (s : Tables Float) (name : String) (now : ℕ)
      → campaign_state s name ≡ ok active
      → Closes s name (states_left active) now
  unfolding assert_campaign_transition
  from_active s name now e =
      Closes-first s name active sealed _ now e refl refl λ t. from_sealed t name now

  -- The transitions that a campaign's state has left, at most four of them, all succeed and close
  -- the campaign, unless it is abandoned.
  pub transitions-states_left :
      (s : Tables Float) (name : String) (now : ℕ) (state : CampaignState)
      → campaign_state s name ≡ ok state
      → is_state state abandoned ≡ false
      → (t : Tables Float) × (transitions s name (states_left state) now ≡ ok t)
        × (campaign_state t name ≡ ok closed)
        × (length (states_left state) ≤ 4)
  unfolding assert_campaign_transition
  transitions-states_left s name now draft e n =
      let (t, all, ends) =
        Closes-first s name draft active _ now e refl refl λ t. from_active t name now in
      (t, all, ends, omega arith)
  transitions-states_left s name now active e n =
      let (t, all, ends) = from_active s name now e in (t, all, ends, omega arith)
  transitions-states_left s name now sealed e n =
      let (t, all, ends) = from_sealed s name now e in (t, all, ends, omega arith)
  transitions-states_left s name now reconciling e n =
      let (t, all, ends) = from_reconciling s name now e in (t, all, ends, omega arith)
  transitions-states_left s name now closed e n =
      let (t, all, ends) = from_closed s name now e in (t, all, ends, omega arith)
  transitions-states_left s name now abandoned e n = cc
