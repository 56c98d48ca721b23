-- ===== src/Governance/Store/Moves.antt =====
-- What a successful assignment or freeze of governance/store.py did, step by step.
use mathlib.Core.Path.{subst₂}
use signalattice.Prelude.{
  ℕ, Option, String, ap, arith, ok, require, some, ◌+◌, ◌≡◌, ==_iff, >>=-eq-ok, ok-injective,
  require-true, subst, ◌==◌, codes, length, ltb, refuse, str_eq, ◌||◌,
}
use signalattice.Governance.Lane.{
  FreezeTrigger, active, assert_lane_transition, frozen, stale_write, store_error,
}
use signalattice.Governance.Runtime.{Runtime, assignment_payload, freeze_payload}
use signalattice.Governance.Store.Tables.{
  Store, GovernanceEvent, HeadRow, assignment, option_str_eq, freezing, require_digest,
}
use signalattice.Governance.Store.Operations.{append_locked, write_head}
use signalattice.Governance.Store.Head.{
  assign, require_row, freeze_lane, checked_assign, checked_freeze, require_optional_digest,
}
use signalattice.Governance.Store.Appends.{Appended, append_locked-Appended}
use signalattice.Governance.Store.Written.{
  HeadWritten, assigned_payload, assigned_row, frozen_row, option_str_eq→eq, require_row-some,
  write_head-HeadWritten,
}

module _ (rt : Runtime) where
  pub record Assigned (s : Store) (lane champion : String) (expected_generation : ℕ)
      (expected_champion : Option String) (now : ℕ) (key : Option String) (event : GovernanceEvent)
      (u : Store) : Type 0 where
    pub row : HeadRow
    pub before : s.heads lane ≡ some row
    pub generation_expected : row.generation ≡ expected_generation
    pub champion_expected : row.champion_revision ≡ expected_champion
    pub permitted : assert_lane_transition row.state active ≡ ok tt
    pub between : Store
    pub appended :
        Appended rt s lane assignment
          (assigned_payload champion expected_champion expected_generation row)
          now
          key
          event
          between
    pub written : HeadWritten between lane row (assigned_row row champion event now) u

  module _ (s : Store) (lane champion : String) (expected_generation : ℕ)
      (expected_champion : Option String) (now : ℕ) (key : Option String) {event : GovernanceEvent}
      {u : Store} where
    assign-parts :
        assign rt s lane champion expected_generation expected_champion now key ≡ ok (event, u)
        → (row : HeadRow) × (t : Store) × (s.heads lane ≡ some row)
          × (row.generation ≡ expected_generation)
          × (row.champion_revision ≡ expected_champion)
          × (assert_lane_transition row.state active ≡ ok tt)
          × (append_locked rt s lane assignment
                (assignment_payload champion
                  (row.generation + 1)
                  expected_champion
                  expected_generation)
                now
                key
              ≡ ok (event, t))
          × (write_head t lane row (assigned_row row champion event now) ≡ ok u)
    unfolding assign
    assign-parts h =
        let (row, e, h1) = >>=-eq-ok (require_row (s.heads lane)) _ h in
        let (_, g, h2) =
          >>=-eq-ok (require (row.generation == expected_generation) stale_write) _ h1 in
        let (_, c, h3) =
          >>=-eq-ok (require (option_str_eq row.champion_revision expected_champion) stale_write) _
            h2 in
        let (_, p, h4) = >>=-eq-ok (assert_lane_transition row.state active) _ h3 in
        let (r, a, h5) =
          >>=-eq-ok
            (append_locked rt s lane assignment
              (assigned_payload champion expected_champion expected_generation row) now key)
            _ h4 in
        let (_, _, h6) =
          >>=-eq-ok (require (row.generation == expected_generation) stale_write) _ h5 in
        let (v, w, h7) =
          >>=-eq-ok (write_head r.1 lane row (assigned_row row champion r.0 now)) _ h6 in
        let same = ok-injective h7 in
        (
          row,
          r.1,
          require_row-some (s.heads lane) e,
          (==_iff _ _).0 (require-true _ _ g),
          option_str_eq→eq _ _ (require-true _ _ c),
          p,
          subst
              (λ x.
                append_locked rt s lane assignment
                  (assigned_payload champion expected_champion expected_generation row) now key
                ≡ ok (x, r.1))
              (ap (λ x. x.0) same) a,
          subst₂ (λ x y. write_head r.1 lane row (assigned_row row champion x now) ≡ ok y)
              (ap (λ x. x.0) same) (ap (λ x. x.1) same) w,
        )

    pub assign-Assigned :
        assign rt s lane champion expected_generation expected_champion now key ≡ ok (event, u)
        → Assigned s lane champion expected_generation expected_champion now key event u
    assign-Assigned h =
        let (row, t, e, g, c, p, a, w) = assign-parts h in
        record {
          row = row;
          before = e;
          generation_expected = g;
          champion_expected = c;
          permitted = p;
          between = t;
          appended = append_locked-Appended rt s lane assignment _ now key a;
          written = write_head-HeadWritten t lane row _ w;
        }

  pub record Froze (s : Store) (lane : String) (trigger : FreezeTrigger) (detail : String) (now : ℕ)
      (key : Option String) (event : GovernanceEvent) (u : Store) : Type 0 where
    pub row : HeadRow
    pub before : s.heads lane ≡ some row
    pub permitted : assert_lane_transition row.state frozen ≡ ok tt
    pub between : Store
    pub appended : Appended rt s lane freezing (freeze_payload trigger detail) now key event between
    pub written : HeadWritten between lane row (frozen_row row trigger event now) u

  module _ (s : Store) (lane : String) (trigger : FreezeTrigger) (detail : String) (now : ℕ)
      (key : Option String) {event : GovernanceEvent} {u : Store} where
    freeze-parts :
        freeze_lane rt s lane trigger detail now key ≡ ok (event, u)
        → (row : HeadRow) × (t : Store) × (s.heads lane ≡ some row)
          × (assert_lane_transition row.state frozen ≡ ok tt)
          × (append_locked rt s lane freezing (freeze_payload trigger detail) now key
              ≡ ok (event, t))
          × (write_head t lane row (frozen_row row trigger event now) ≡ ok u)
    unfolding freeze_lane
    freeze-parts h =
        let (row, e, h1) = >>=-eq-ok (require_row (s.heads lane)) _ h in
        let (_, p, h2) = >>=-eq-ok (assert_lane_transition row.state frozen) _ h1 in
        let (r, a, h3) =
          >>=-eq-ok (append_locked rt s lane freezing (freeze_payload trigger detail) now key) _
            h2 in
        let (v, w, h4) =
          >>=-eq-ok (write_head r.1 lane row (frozen_row row trigger r.0 now)) _ h3 in
        let same = ok-injective h4 in
        (
          row,
          r.1,
          require_row-some (s.heads lane) e,
          p,
          subst
              (λ x.
                append_locked rt s lane freezing (freeze_payload trigger detail) now key
                ≡ ok (x, r.1))
              (ap (λ x. x.0) same) a,
          subst₂ (λ x y. write_head r.1 lane row (frozen_row row trigger x now) ≡ ok y)
              (ap (λ x. x.0) same) (ap (λ x. x.1) same) w,
        )

    pub freeze_lane-Froze :
        freeze_lane rt s lane trigger detail now key ≡ ok (event, u)
        → Froze s lane trigger detail now key event u
    freeze_lane-Froze h =
        let (row, t, e, p, a, w) = freeze-parts h in
        record {
          row = row;
          before = e;
          permitted = p;
          between = t;
          appended = append_locked-Appended rt s lane freezing _ now key a;
          written = write_head-HeadWritten t lane row _ w;
        }

  require_digest-eq : (c : String) {d : String} → require_digest c ≡ ok d → require_digest c ≡ ok c
  unfolding require_digest
  require_digest-eq c h = ground arith

  pub checked_assign-Assigned :
      (s : Store) (lane champion : String) (generation : ℕ) (expected : Option String) (now : ℕ)
      (key : Option String) {event : GovernanceEvent} {u : Store}
      → checked_assign rt s lane champion generation expected now key ≡ ok (event, u)
      → (require_digest champion ≡ ok champion)
        × Assigned s lane champion generation expected now key event u
  unfolding checked_assign
  checked_assign-Assigned s lane champion generation expected now key h =
      let (_, d, h1) = >>=-eq-ok (require_digest champion) _ h in
      let (_, _, h2) = >>=-eq-ok (require_optional_digest expected) _ h1 in
      (require_digest-eq champion d, assign-Assigned s lane champion generation expected now key h2)

  pub checked_freeze-Froze :
      (s : Store) (lane : String) (trigger : FreezeTrigger) (detail : String) (now : ℕ)
      (key : Option String) {event : GovernanceEvent} {u : Store}
      → checked_freeze rt s lane trigger detail now key ≡ ok (event, u)
      → Froze s lane trigger detail now key event u
  unfolding checked_freeze
  checked_freeze-Froze s lane trigger detail now key h =
      let (_, _, h1) =
        >>=-eq-ok
          (refuse (str_eq (rt.strip detail) "" || ltb 512 (length (codes detail))) store_error) _
          h in
      freeze_lane-Froze s lane trigger detail now key h1
