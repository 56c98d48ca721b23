-- ===== src/Governance/Store/Lifecycle.antt =====
-- Histories of the governance store: any sequence of calls of its writing methods, failed ones
-- included, from empty tables (governance/store.py).
pub mod Chains
pub mod Heads
pub mod Rebuild
pub mod Races
pub mod Freezing
use signalattice.Governance.Store.Appends.{Appended, append_locked-Appended}
use signalattice.Governance.Store.Moves.{
  Assigned, Froze, checked_assign-Assigned, checked_freeze-Froze,
}
use signalattice.Prelude.{
  ℕ, List, Option, Result, String, [], err, ok, refl, subst, sym, ◌+◌, ◌∷◌, ◌≡◌,
}
use signalattice.Governance.Lane.{FreezeTrigger, GovernanceError, GovernanceLane}
use signalattice.Governance.Runtime.{
  IsRestored, IsStable, Runtime, Payload, assignment_payload, freeze_payload,
}
use signalattice.Governance.Store.Tables.{Store, EventKind, GovernanceEvent, require_digest}
use signalattice.Governance.Store.Operations.{append_event, commit, register_lane, append_locked}
use signalattice.Governance.Store.Head.{
  apply_assignment, freeze, read_back, checked_assign, checked_freeze,
}

-- A call of a writing method, with its arguments.
pub data Call : Type 0 where
  register : GovernanceLane → ℕ → Call
  append : String → EventKind → Payload → ℕ → Option String → Call
  assigning : String → String → ℕ → Option String → ℕ → Option String → Call
  freezing_lane : String → FreezeTrigger → String → ℕ → Option String → Call

read_back-commit :
    (s : Store) (lane : String) (r : Result GovernanceError (GovernanceEvent × Store))
    → (read_back s lane r).1 ≡ commit s r
read_back-commit s lane (ok r) = refl
read_back-commit s lane (err e) = refl

module _ (rt : Runtime) where
  -- The tables after a call.
  unfoldable pub step : Store → Call → Store
  step s (register lane now) = (register_lane rt s lane now).1
  step s (append lane kind payload now key) = commit s (append_event rt s lane kind payload now key)
  step s (assigning lane champion generation expected now key) =
      (apply_assignment rt s lane champion generation expected now key).1
  step s (freezing_lane lane trigger detail now key) = (freeze rt s lane trigger detail now key).1

  unfoldable pub run : Store → List Call → Store
  run s [] = s
  run s (call ∷ calls) = run (step s call) calls

  commit-keeps {ℓ} :
      (P : Store → Type ℓ) (s : Store) (r : Result GovernanceError (GovernanceEvent × Store))
      → P s
      → ((event : GovernanceEvent) (t : Store) → r ≡ ok (event, t) → P t)
      → P (commit s r)
  commit-keeps P s (ok (event, t)) h k = k event t refl
  commit-keeps P s (err e) h k = h

  -- A property that the tables keep under every successful transaction holds after every call.
  pub record KeptBy {ℓ} (P : Store → Type ℓ) (s : Store) (call : Call) : Type ℓ where
    pub by_register :
        (lane : GovernanceLane) (now : ℕ)
        → call ≡ register lane now
        → P (register_lane rt s lane now).1
    pub by_append :
        (lane : String) (kind : EventKind) (payload : Payload) (now : ℕ) (key : Option String)
        → call ≡ append lane kind payload now key
        → (event : GovernanceEvent) (t : Store) → Appended rt s lane kind payload now key event t
        → P t
    pub by_assign :
        (lane champion : String) (generation : ℕ) (expected : Option String) (now : ℕ)
        (key : Option String)
        → call ≡ assigning lane champion generation expected now key
        → require_digest champion ≡ ok champion
        → (event : GovernanceEvent) (t : Store)
        → Assigned rt s lane champion generation expected now key event t
        → P t
    pub by_freeze :
        (lane : String) (trigger : FreezeTrigger) (detail : String) (now : ℕ) (key : Option String)
        → call ≡ freezing_lane lane trigger detail now key
        → (event : GovernanceEvent) (t : Store) → Froze rt s lane trigger detail now key event t
        → P t

  pub step-keeps {ℓ} :
      (P : Store → Type ℓ) (s : Store) (call : Call) → P s → KeptBy P s call → P (step s call)
  unfolding step append_event apply_assignment freeze
  step-keeps P s (register lane now) h k = k.by_register lane now refl
  step-keeps P s (append lane kind payload now key) h k =
      commit-keeps P s (append_locked rt s lane kind payload now key) h λ event t e.
        k.by_append lane kind payload now key refl event t
          (append_locked-Appended rt s lane kind payload now key e)
  step-keeps P s (assigning lane champion generation expected now key) h k =
      let r = checked_assign rt s lane champion generation expected now key in
      subst P (sym (read_back-commit s lane r)) (
        commit-keeps P s r h λ event t e.
          let (d, a) = checked_assign-Assigned rt s lane champion generation expected now key e in
          k.by_assign lane champion generation expected now key refl d event t a)
  step-keeps P s (freezing_lane lane trigger detail now key) h k =
      let r = checked_freeze rt s lane trigger detail now key in
      subst P (sym (read_back-commit s lane r)) (
        commit-keeps P s r h λ event t e.
          k.by_freeze lane trigger detail now key refl event t
            (checked_freeze-Froze rt s lane trigger detail now key e))

  -- What the call records is read back as it was, as `json.loads` does with an object whose keys
  -- are texts; of a payload from outside, at least its canonical text.
  abbrev pub IsReloaded : Call → Type 0
  IsReloaded (register lane now) = Unit
  IsReloaded (append lane kind payload now key) = IsStable rt payload
  IsReloaded (assigning lane champion generation expected now key) =
      IsRestored rt (assignment_payload champion (generation + 1) expected generation)
  IsReloaded (freezing_lane lane trigger detail now key) =
      IsRestored rt (freeze_payload trigger detail)
