-- ===== src/Governance/Store/Lifecycle/Races.antt =====
-- Compare-and-swap and freezing of governance/store.py over histories: generations never move back,
-- an approval is good for one assignment, and only an assignment leaves a freeze.
use signalattice.Governance.Lane.{stale_write}
use signalattice.Governance.Store.Written.{HeadWritten}
use signalattice.Governance.Store.Moves.{Assigned, checked_assign-Assigned}
use signalattice.Governance.Store.Appends.{heads-Appended}
use signalattice.Governance.Store.Tables.{
  GovernanceEvent, HeadRow, Store, assignment, freezing, lane_identity, require_digest, update,
}
use signalattice.Governance.Store.Operations.{insert_or_ignore, register_lane, unassigned_row}
use signalattice.Governance.Store.Head.{
  apply_assignment, assign, checked_assign, require_optional_digest, require_row,
}
use signalattice.Governance.Runtime.{Runtime}
use signalattice.Prelude.{
  Bool-cases, List, Option, String, [], ap, arith, eq_iff, eq_refl, err, inl, inr, none, ok, some,
  str_eq, subst, sym, ℕ, ◌+◌, ◌∙◌, ◌∷◌, ◌≡◌, ◌≤◌, refl,
}
use native.Mathlib.Nat.{le_trans}
use signalattice.Governance.Store.Lifecycle.{Call, KeptBy, run, step, step-keeps}

-- The lane has a head, whose generation is at least a number.
abbrev pub ReachedAt : ℕ → Option HeadRow → Type 0
ReachedAt n none = ⊥
ReachedAt n (some row) = n ≤ row.generation

update-ReachedAt :
    (n : ℕ) (heads : String → Option HeadRow) (lane other : String) (old new : HeadRow)
    → heads other ≡ some old
    → old.generation ≤ new.generation
    → ReachedAt n (heads lane)
    → ReachedAt n (update heads other (some new) lane)
update-ReachedAt n heads lane other old new e g h = elim (Bool-cases (str_eq lane other)) [
  | inl b ↦ rw b (le_trans (subst (ReachedAt n) (ap heads ((eq_iff lane other).0 b) ∙ e) h) g)
  | inr b ↦ rw b h
]

registered-ReachedAt :
    (n : ℕ) (heads : String → Option HeadRow) (lane other : String) (now : ℕ)
    → ReachedAt n (heads lane)
    → ReachedAt n (update heads other (insert_or_ignore (heads other) (unassigned_row now)) lane)
registered-ReachedAt n heads lane other now h = elim (Bool-cases (str_eq lane other)) [
  | inl b ↦
      rw b (kept (heads other) (subst (λ k. ReachedAt n (heads k)) ((eq_iff lane other).0 b) h))
  | inr b ↦ rw b h
]
  where
    kept :
        (o : Option HeadRow) → ReachedAt n o → ReachedAt n (insert_or_ignore o (unassigned_row now))
    kept none k = elim k [ ]
    kept (some row) k = k

module _ (rt : Runtime) where
  abbrev Reached : ℕ → String → Store → Type 0
  Reached n lane s = ReachedAt n (s.heads lane)

  written-Reached :
      (n : ℕ) (lane other : String) (s t : Store) (old new : HeadRow) {u : Store}
      → HeadWritten t other old new u
      → t.heads ≡ s.heads
      → s.heads other ≡ some old
      → Reached n lane s
      → Reached n lane u
  written-Reached n lane other s t old new w e before h = subst (Reached n lane) (sym w.tables) (
      update-ReachedAt n t.heads lane other old new (ap (λ heads. heads other) e ∙ before)
        w.generation_forward (subst (λ heads. ReachedAt n (heads lane)) (sym e) h))

  calls-keep-Reached :
      (n : ℕ) (lane : String) (s : Store) (call : Call)
      → Reached n lane s
      → KeptBy rt (Reached n lane) s call
  unfolding register_lane
  calls-keep-Reached n lane s call h = record {
    by_register = λ other now e. registered-ReachedAt n s.heads lane (lane_identity rt other) now h;
    by_append = λ other kind payload now key e event t a.
        subst (λ heads. ReachedAt n (heads lane))
          (sym (heads-Appended rt s other kind payload now key a)) h;
    by_assign = λ other champion generation expected now key e d event t a.
        written-Reached n lane other s a.between a.row _ a.written
          (heads-Appended rt s other assignment _ now key a.appended) a.before h;
    by_freeze = λ other trigger detail now key e event t a.
        written-Reached n lane other s a.between a.row _ a.written
          (heads-Appended rt s other freezing _ now key a.appended) a.before h;
  }

  run-Reached :
      (n : ℕ) (lane : String) (s : Store) (calls : List Call)
      → Reached n lane s
      → Reached n lane (run rt s calls)
  unfolding run
  run-Reached n lane s [] h = h
  run-Reached n lane s (call ∷ calls) h =
      run-Reached n lane (step rt s call) calls
        (step-keeps rt (Reached n lane) s call h (calls-keep-Reached n lane s call h))

  reached_row :
      (n : ℕ) (o : Option HeadRow)
      → ReachedAt n o
      → (row : HeadRow) × (o ≡ some row) × (n ≤ row.generation)
  reached_row n none h = elim h [ ]
  reached_row n (some row) h = (row, refl, h)

  Assigned-Reached :
      (s : Store) (lane champion : String) (generation : ℕ) (expected : Option String) (now : ℕ)
      (key : Option String) {event : GovernanceEvent} {t : Store}
      → Assigned rt s lane champion generation expected now key event t
      → Reached (generation + 1) lane t
  Assigned-Reached s lane champion generation expected now key a =
      subst (Reached (generation + 1) lane) (sym a.written.tables)
        (rw (eq_refl lane) (omega (arith, a.generation_expected)))

  stale_assign :
      (s : Store) (lane champion : String) (generation : ℕ) (expected : Option String) (now : ℕ)
      (key : Option String)
      → Reached (generation + 1) lane s
      → assign rt s lane champion generation expected now key ≡ err stale_write
  unfolding assign
  stale_assign s lane champion generation expected now key h =
      let (row, e, g) = reached_row (generation + 1) (s.heads lane) h in
      rw (e, require_row) (ground arith)

  stale :
      (s : Store) (lane champion : String) (generation : ℕ) (expected : Option String) (now : ℕ)
      (key : Option String)
      → Reached (generation + 1) lane s
      → require_digest champion ≡ ok champion
      → require_optional_digest expected ≡ ok tt
      → apply_assignment rt s lane champion generation expected now key ≡ (err stale_write, s)
  unfolding apply_assignment checked_assign
  stale s lane champion generation expected now key h d o =
      rw (d, o, stale_assign s lane champion generation expected now key h)

  -- Once an assignment that names a generation has succeeded, every later assignment of that lane
  -- that names the same generation, with well-formed digests, is refused as stale and
  -- changes nothing, whatever calls come between.
  pub second_assignment_stale :
      (s : Store) (lane first second : String) (generation : ℕ) (expected other : Option String)
      (now later : ℕ) (key other_key : Option String) {event : GovernanceEvent} {t : Store}
      (calls : List Call)
      → checked_assign rt s lane first generation expected now key ≡ ok (event, t)
      → require_digest second ≡ ok second
      → require_optional_digest other ≡ ok tt
      → apply_assignment rt (run rt t calls) lane second generation other later other_key
        ≡ (err stale_write, run rt t calls)
  second_assignment_stale s lane first second generation expected other now later key other_key
        {event} {t} calls a d o =
      stale (run rt t calls) lane second generation other later other_key
        (run-Reached (generation + 1) lane t calls (
          Assigned-Reached s lane first generation expected now key
            (checked_assign-Assigned rt s lane first generation expected now key a).1))
        d o
