-- ===== src/Governance/Store/Lifecycle/Freezing.antt =====
-- A freeze of governance/store.py holds until an assignment.
use signalattice.Governance.Store.Appends.{heads-Appended}
use signalattice.Governance.Store.Head.{checked_freeze}
use signalattice.Governance.Store.Written.{HeadWritten, frozen_row}
use signalattice.Governance.Store.Moves.{Froze, checked_freeze-Froze}
use signalattice.Governance.Store.Operations.{insert_or_ignore, register_lane, unassigned_row}
use signalattice.Governance.Store.Tables.{
  GovernanceEvent, HeadRow, Store, assignment, freezing, lane_identity, update,
}
use signalattice.Governance.Runtime.{Runtime}
use signalattice.Governance.Lane.{FreezeTrigger, assert_lane_transition, frozen}
use signalattice.Prelude.{
  Bool-cases, List, Option, String, [], ap, arith, eq_iff, inl, inr, ok, refl, some, str_eq, subst,
  sym, ℕ, ◌∙◌, ◌∷◌, ◌≡◌, ◌≢◌, eq_refl, some-eq,
}
use signalattice.Governance.Store.Lifecycle.{
  Call, KeptBy, append, assigning, freezing_lane, register, run, step, step-keeps,
}

-- The call assigns no champion to the lane.
abbrev pub SparesLane : String → Call → Type 0
SparesLane lane (assigning other champion generation expected now key) = other ≢ lane
SparesLane lane (register other now) = Unit
SparesLane lane (append other kind payload now key) = Unit
SparesLane lane (freezing_lane other trigger detail now key) = Unit

abbrev pub AllSpare : String → List Call → Type 0
AllSpare lane [] = Unit
AllSpare lane (call ∷ calls) = SparesLane lane call × AllSpare lane calls

update-ne :
    (heads : String → Option HeadRow) (lane other : String) (new : Option HeadRow)
    → other ≢ lane
    → update heads other new lane ≡ heads lane
update-ne heads lane other new h = ground (arith, eq_iff lane other)

written-ne :
    (lane other : String) (s t : Store) (old new row : HeadRow) {u : Store}
    → HeadWritten t other old new u
    → t.heads ≡ s.heads
    → other ≢ lane
    → s.heads lane ≡ some row
    → u.heads lane ≡ some row
written-ne lane other s t old new row w e n h =
    ap (λ u. u.heads lane) w.tables
    ∙ update-ne t.heads lane other (some new) n
    ∙ ap (λ heads. heads lane) e
    ∙ h

frozen_not_permitted :
    (row : HeadRow) → row.state ≡ frozen → assert_lane_transition row.state frozen ≢ ok tt
unfolding assert_lane_transition
frozen_not_permitted row f h = ground arith

registered-head :
    (heads : String → Option HeadRow) (lane other : String) (now : ℕ) (row : HeadRow)
    → heads lane ≡ some row
    → update heads other (insert_or_ignore (heads other) (unassigned_row now)) lane ≡ some row
registered-head heads lane other now row h = elim (Bool-cases (str_eq lane other)) [
  | inl b ↦ rw b (rw (ap heads (sym ((eq_iff lane other).0 b)) ∙ h))
  | inr b ↦ rw b h
]

module _ (rt : Runtime) (lane : String) (row : HeadRow) (is_frozen : row.state ≡ frozen) where
  abbrev Holds : Store → Type 0
  Holds s = s.heads lane ≡ some row

  freeze-other :
      (s : Store) (other : String) (trigger : FreezeTrigger) (detail : String) (now : ℕ)
      (key : Option String) {event : GovernanceEvent} {t : Store}
      → Froze rt s other trigger detail now key event t
      → Holds s
      → other ≢ lane
  freeze-other s other trigger detail now key a h e =
      let same : row ≡ a.row = some-eq (sym h ∙ ap s.heads (sym e) ∙ a.before) in
      frozen_not_permitted a.row (ap (λ r. r.state) (sym same) ∙ is_frozen) a.permitted

  calls-keep-Holds :
      (s : Store) (call : Call) → SparesLane lane call → Holds s → KeptBy rt Holds s call
  unfolding register_lane
  calls-keep-Holds s call spares h = record {
    by_register = λ other now e. registered-head s.heads lane (lane_identity rt other) now row h;
    by_append = λ other kind payload now key e event t a.
        ap (λ heads. heads lane) (heads-Appended rt s other kind payload now key a) ∙ h;
    by_assign = λ other champion generation expected now key e d event t a.
        written-ne lane other s a.between a.row _ row a.written
          (heads-Appended rt s other assignment _ now key a.appended)
          (subst (SparesLane lane) e spares) h;
    by_freeze = λ other trigger detail now key e event t a.
        written-ne lane other s a.between a.row _ row a.written
          (heads-Appended rt s other freezing _ now key a.appended)
          (freeze-other s other trigger detail now key a h) h;
  }

  pub run-Holds :
      (s : Store) (calls : List Call) → AllSpare lane calls → Holds s → Holds (run rt s calls)
  unfolding run
  run-Holds s [] spares h = h
  run-Holds s (call ∷ calls) spares h =
      run-Holds (step rt s call) calls spares.1
        (step-keeps rt Holds s call h (calls-keep-Holds s call spares.0 h))

-- After a freeze that succeeds, and any calls that assign nothing to that lane, failed ones and
-- further freezes included, its head is frozen with the trigger given, and has the champion and the
-- generation that it had before the freeze.
pub freeze_holds :
    (rt : Runtime) (s : Store) (lane : String) (trigger : FreezeTrigger) (detail : String) (now : ℕ)
    (key : Option String) (row : HeadRow) {event : GovernanceEvent} {t : Store} (calls : List Call)
    → s.heads lane ≡ some row
    → checked_freeze rt s lane trigger detail now key ≡ ok (event, t)
    → AllSpare lane calls
    → (run rt t calls).heads lane ≡ some (frozen_row row trigger event now)
freeze_holds rt s lane trigger detail now key row {event} {t} calls e f spares =
    let a = checked_freeze-Froze rt s lane trigger detail now key f in
    let same : a.row ≡ row = some-eq (sym a.before ∙ e) in
    run-Holds rt lane (frozen_row row trigger event now) refl t calls spares (
      ap (λ u. u.heads lane) a.written.tables
      ∙ rw (eq_refl lane) (ap (λ r. some (frozen_row r trigger event now)) same))
