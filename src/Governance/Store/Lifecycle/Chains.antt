-- ===== src/Governance/Store/Lifecycle/Chains.antt =====
-- Every history of the governance store leaves chains that verify.
use signalattice.Governance.Store.Operations.{register_lane}
use signalattice.Prelude.{
  All, Option, ℕ, ◌+◌, List, String, [], ap, arith, length, map, ok, refl, subst, suc, sym, ◌∷◌,
  ◌≡◌, ◌≤◌,
}
use signalattice.Governance.Runtime.{
  IsRestored, IsRestored-IsStable, IsStable, Runtime, assignment_payload,
}
use signalattice.Governance.Store.Tables.{
  row_to_event, Store, EventRow, HeadRow, assignment, empty_store, freezing, max_events_per_query,
}
use signalattice.Governance.Store.Head.{verify_chain, verify_from}
use signalattice.Governance.Store.Written.{HeadWritten}
use signalattice.Governance.Store.Chain.{IsChained, Appended-IsChained}
use signalattice.Governance.Store.Lifecycle.{Call, IsReloaded, KeptBy, run, step, step-keeps}

module _ (rt : Runtime) where
  headed-IsChained :
      (t : Store) (lane : String) (old new : HeadRow) {u : Store}
      → HeadWritten t lane old new u
      → IsChained rt t
      → IsChained rt u
  headed-IsChained t lane old new w c = subst (IsChained rt) (sym w.tables) c

  assigned-IsStable :
      (champion : String) (generation n : ℕ) (expected : Option String)
      → n ≡ generation
      → IsRestored rt (assignment_payload champion (generation + 1) expected generation)
      → IsStable rt (assignment_payload champion (n + 1) expected generation)
  assigned-IsStable champion generation n expected same o = IsRestored-IsStable rt _ (
      subst (λ k. IsRestored rt (assignment_payload champion (k + 1) expected generation))
        (sym same) o)

  calls-keep-IsChained :
      (s : Store) (call : Call)
      → IsReloaded rt call
      → IsChained rt s
      → KeptBy rt (IsChained rt) s call
  unfolding register_lane
  calls-keep-IsChained s call o c = record {
    by_register = λ lane now e. c;
    by_append = λ lane kind payload now key e event t a.
        Appended-IsChained rt s lane kind payload now key a (subst (IsReloaded rt) e o) c;
    by_assign = λ lane champion generation expected now key e d event t a.
        headed-IsChained a.between lane a.row _ a.written (
          Appended-IsChained rt s lane assignment _ now key a.appended
            (assigned-IsStable champion generation a.row.generation expected a.generation_expected
              (subst (IsReloaded rt) e o))
            c);
    by_freeze = λ lane trigger detail now key e event t a.
        headed-IsChained a.between lane a.row _ a.written (
          Appended-IsChained rt s lane freezing _ now key a.appended
            (IsRestored-IsStable rt _ (subst (IsReloaded rt) e o)) c);
  }

  pub run-IsChained :
      (s : Store) (calls : List Call)
      → All (IsReloaded rt) calls
      → IsChained rt s
      → IsChained rt (run rt s calls)
  unfolding run
  run-IsChained s [] o c = c
  run-IsChained s (call ∷ calls) o c =
      run-IsChained (step rt s call) calls o.1
        (step-keeps rt (IsChained rt) s call c (calls-keep-IsChained s call o.0 c))

  pub IsChained-empty : IsChained rt empty_store
  unfolding verify_from
  IsChained-empty lane = refl

  length-row_to_event : (rows : List EventRow) → length (map (row_to_event rt) rows) ≡ length rows
  length-row_to_event [] = refl
  length-row_to_event (r ∷ rows) = ap suc (length-row_to_event rows)

  pub verify_chain-IsChained :
      (s : Store) (lane : String)
      → IsChained rt s
      → length (s.events lane) ≤ max_events_per_query
      → verify_chain rt s lane ≡ ok (length (s.events lane))
  unfolding verify_chain
  verify_chain-IsChained s lane c fits = ground (arith, c lane, length-row_to_event (s.events lane))

  -- After any calls on empty tables, whatever their arguments and whether or not they raised, the
  -- chain of every lane that is within the query ceiling verifies, over all its events, if
  -- `json.dumps` of what `json.loads` makes of an appended payload's text is that text again, and
  -- the payloads of assignments and freezes are read back as they were.
  pub verify_chain-run :
      (calls : List Call) (lane : String)
      → All (IsReloaded rt) calls
      → length ((run rt empty_store calls).events lane) ≤ max_events_per_query
      → verify_chain rt (run rt empty_store calls) lane
        ≡ ok (length ((run rt empty_store calls).events lane))
  verify_chain-run calls lane o fits =
      verify_chain-IsChained (run rt empty_store calls) lane
        (run-IsChained empty_store calls o IsChained-empty) fits
