-- ===== src/Governance/Examples.antt =====
-- Histories on which the theorems about the governance store are applied.
mod Divergence
use signalattice.Prelude.{
  List, String, [], arith, err, if◌then◌else◌, length, map, none, ok, refl, some, str_eq, ◌∷◌, ◌≡◌,
  ◌⊎◌,
}
use signalattice.Governance.Lane.{assert_lane_transition, hard_integrity, stale_write, store_error}
use signalattice.Governance.Runtime.{assignment_payload, document}
use signalattice.Governance.Store.Tables.{
  GovernanceEvent, Store, assignment, canonical_digest, chain_digest, empty_store,
  idempotency_digest, row_to_event, lane_head, monitoring, policy, require_digest,
}
use signalattice.Governance.Store.Operations.{
  append_event, append_locked, append_new, insert_event, key_digest, link_event, register_lane,
  replay_or_append, write_head,
}
use signalattice.Governance.Store.Head.{
  apply_assignment, assign, checked_assign, checked_freeze, freeze, freeze_lane, rebuild_head,
  verify_chain,
}
use signalattice.Governance.Store.Written.{frozen_row}
use signalattice.Governance.Store.Keys.{append_event-key, reread}
use signalattice.Governance.Store.Projecting.{IsFresh}
use signalattice.Governance.Store.Lifecycle.{
  Call, append, assigning, freezing_lane, register, run, step,
}
use signalattice.Governance.Store.Lifecycle.Chains.{verify_chain-run}
use signalattice.Governance.Store.Lifecycle.Heads.{stored_head}
use signalattice.Governance.Store.Lifecycle.Rebuild.{rebuild_head-run}
use signalattice.Governance.Store.Lifecycle.Races.{second_assignment_stale}
use signalattice.Governance.Store.Lifecycle.Freezing.{freeze_holds}
use signalattice.Governance.Toy.{
  equities, assigned_head, assigned_store, by_length-width, digest_a, digest_b, digest_c,
  frozen_life, registered_store, registering, the_freeze, toy,
}

frozen_life_events : length ((run toy empty_store frozen_life).events digest_a) ≡ 2
unfolding run step register_lane apply_assignment checked_assign assign append_locked key_digest
    idempotency_digest replay_or_append append_new insert_event write_head require_digest
    assert_lane_transition lane_head freeze checked_freeze freeze_lane chain_digest
frozen_life_events = refl

frozen_life_head :
    (run toy empty_store frozen_life).heads digest_a
    ≡ some (frozen_row assigned_head hard_integrity the_freeze 3)
unfolding run step register_lane apply_assignment checked_assign assign append_locked key_digest
    idempotency_digest replay_or_append append_new insert_event write_head require_digest
    assert_lane_transition lane_head freeze checked_freeze freeze_lane chain_digest
frozen_life_head = refl

keyless-IsFresh : (s : Store) (lane : String) → IsFresh toy s lane none
unfolding key_digest
keyless-IsFresh s lane none e = refl
keyless-IsFresh s lane (some d) e = cc

rebuild_head-run_example :
    rebuild_head toy (run toy empty_store frozen_life) digest_a
    ≡ ok (stored_head digest_a (frozen_row assigned_head hard_integrity the_freeze 3))
rebuild_head-run_example =
    rebuild_head-run toy by_length-width frozen_life digest_a
      (frozen_row assigned_head hard_integrity the_freeze 3) (tt, (refl, (refl, tt)))
      (
        tt,
        (
          keyless-IsFresh (step toy empty_store (register equities 1)) digest_a,
          (
            keyless-IsFresh
                (step toy (step toy empty_store (register equities 1))
                  (assigning digest_a digest_b 0 none 2 none))
                digest_a,
            tt,
          ),
        ),
      )
      frozen_life_head (rw frozen_life_events (omega arith))

abbrev the_assignment : GovernanceEvent
the_assignment =
    link_event toy registered_store digest_a assignment (assignment_payload digest_b 1 none 0) 2

first_assignment :
    checked_assign toy registered_store digest_a digest_b 0 none 2 none
    ≡ ok (the_assignment, assigned_store)
unfolding run step register_lane append_event apply_assignment checked_assign assign append_locked
    key_digest idempotency_digest replay_or_append append_new insert_event write_head require_digest
    assert_lane_transition lane_head freeze checked_freeze freeze_lane chain_digest
first_assignment = refl

digest_c_is_digest : require_digest digest_c ≡ ok digest_c
unfolding require_digest
digest_c_is_digest = refl

second_assignment_stale_example :
    apply_assignment toy (run toy assigned_store registering) digest_a digest_c 0 none 9 none
    ≡ (err stale_write, run toy assigned_store registering)
second_assignment_stale_example =
    second_assignment_stale toy registered_store digest_a digest_b digest_c 0 none none 2 9 none
      none registering first_assignment digest_c_is_digest refl

abbrev frozen_store : Store
frozen_store = run toy empty_store frozen_life

the_freezing :
    checked_freeze toy assigned_store digest_a hard_integrity "breach" 3 none
    ≡ ok (the_freeze, frozen_store)
unfolding run step register_lane append_event apply_assignment checked_assign assign append_locked
    key_digest idempotency_digest replay_or_append append_new insert_event write_head require_digest
    assert_lane_transition lane_head freeze checked_freeze freeze_lane chain_digest
the_freezing = refl

assigned_store_head : assigned_store.heads digest_a ≡ some assigned_head
unfolding run step register_lane append_event apply_assignment checked_assign assign append_locked
    key_digest idempotency_digest replay_or_append append_new insert_event write_head require_digest
    assert_lane_transition lane_head freeze checked_freeze freeze_lane chain_digest
assigned_store_head = refl

freeze_holds_example :
    (run toy frozen_store
        (freezing_lane digest_a hard_integrity "again" 8 none ∷ registering)).heads
      digest_a
    ≡ some (frozen_row assigned_head hard_integrity the_freeze 3)
freeze_holds_example =
    freeze_holds toy assigned_store digest_a hard_integrity "breach" 3 none assigned_head
      (freezing_lane digest_a hard_integrity "again" 8 none ∷ registering) assigned_store_head
      the_freezing (tt, (tt, tt))

abbrev frozen_chain : List GovernanceEvent
frozen_chain = map (row_to_event toy) (frozen_store.events digest_a)

-- A policy is recorded under a key.
abbrev the_policy : GovernanceEvent
the_policy = link_event toy assigned_store digest_a policy (document "limits") 3

abbrev policy_life : List Call
policy_life =
    register equities 1
    ∷ assigning digest_a digest_b 0 none 2 none
    ∷ append digest_a policy (document "limits") 3 (some "key")
    ∷ []

abbrev policy_store : Store
policy_store = run toy empty_store policy_life

policy_events : length (policy_store.events digest_a) ≡ 2
unfolding run step register_lane append_event apply_assignment checked_assign assign append_locked
    key_digest idempotency_digest replay_or_append append_new insert_event write_head require_digest
    assert_lane_transition lane_head freeze checked_freeze freeze_lane chain_digest
policy_events = refl

verify_chain-run_example :
    verify_chain toy policy_store digest_a ≡ ok (length (policy_store.events digest_a))
verify_chain-run_example =
    verify_chain-run toy policy_life digest_a (tt, (refl, (refl, tt)))
      (rw policy_events (omega arith))

policy_recorded :
    append_event toy assigned_store digest_a policy (document "limits") 3 (some "key")
    ≡ ok (the_policy, policy_store)
unfolding run step register_lane append_event apply_assignment checked_assign assign append_locked
    key_digest idempotency_digest replay_or_append append_new insert_event write_head require_digest
    assert_lane_transition lane_head freeze checked_freeze freeze_lane chain_digest
policy_recorded = refl

append_event-key_example :
    (read : GovernanceEvent) × ((read ≡ the_policy) ⊎ (read ≡ reread toy the_policy))
    × (append_event toy policy_store digest_a monitoring (document "other") 7 (some "key") ≡ (
        if str_eq the_policy.payload_digest (canonical_digest toy (document "other"))
        then ok (read, policy_store)
        else err store_error))
append_event-key_example =
    append_event-key toy assigned_store digest_a policy monitoring (document "limits")
      (document "other") 3 7 "key" policy_recorded (omega arith)
