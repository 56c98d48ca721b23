-- ===== src/Governance/Examples/Divergence.antt =====
-- What governance/store.py departs from its comments in, on small histories.
use signalattice.Prelude.{
  String, [], arith, eq_iff, err, is_some, none, ok, refl, some, sym, true, ◌∷◌, ◌≡◌, ◌≢◌, ◌≤◌,
}
use signalattice.Governance.Lane.{
  assert_lane_transition, chain_integrity, database_error, hard_integrity,
}
use signalattice.Governance.Runtime.{Runtime, document}
use signalattice.Governance.Store.Tables.{
  GovernanceEvent, Store, chain_digest, empty_store, idempotency_digest, row_to_event, stored_event,
  lane_head, policy, require_digest,
}
use signalattice.Governance.Store.Operations.{
  append_event, append_locked, append_new, insert_event, key_digest, link_event, recorded,
  register_lane, replay_or_append, write_head,
}
use signalattice.Governance.Store.Head.{
  apply_assignment, assign, checked_assign, checked_freeze, freeze, freeze_lane, verify_chain,
}
use signalattice.Governance.Store.Appends.{inserted, next_row}
use signalattice.Governance.Store.Written.{frozen_row, headed}
use signalattice.Governance.Store.Divergence.{
  first_events_collide, freeze_without_event, unstable_payload_breaks,
}
use signalattice.Governance.Store.Lifecycle.{register, run, step}
use signalattice.Governance.Toy.{equities, assigned_head, digest_a, digest_b, toy}
use signalattice.Governance.Examples.{the_policy, policy_store}

-- Two lanes are registered, under the two digests that the names' lengths give.
abbrev long_name : String
long_name =
    "aaaaaaaaaaaaaaaaaaaaaaaaaaaaaaaaaaaaaaaaaaaaaaaaaaaaaaaaaaaaaaaaaaaaaaaaaaaaaaaaaaaaaaaaaaaaaaaaaaaaaaaaaaaaaaaa"

abbrev two_lanes : Store
two_lanes =
    run toy empty_store
      (register equities 1 ∷ register (record equities { purpose = long_name }) 1 ∷ [])

abbrev two_lanes_policy : GovernanceEvent
two_lanes_policy = link_event toy two_lanes digest_a policy (document "limits") 3

two_lanes_recorded :
    append_event toy two_lanes digest_a policy (document "limits") 3 none
    ≡ ok (
      two_lanes_policy,
      inserted two_lanes digest_a
          (next_row toy two_lanes digest_a policy (document "limits") 3 none),
    )
unfolding run step register_lane append_event apply_assignment checked_assign assign append_locked
    key_digest idempotency_digest replay_or_append append_new insert_event write_head require_digest
    assert_lane_transition lane_head freeze checked_freeze freeze_lane chain_digest
two_lanes_recorded = refl

second_lane_registered :
    (two_lanes.events digest_a ≡ [])
    × (two_lanes.events digest_b ≡ [])
    × (is_some (two_lanes.lanes digest_b) ≡ true)
unfolding run step register_lane append_event apply_assignment checked_assign assign append_locked
    key_digest idempotency_digest replay_or_append append_new insert_event write_head require_digest
    assert_lane_transition lane_head freeze checked_freeze freeze_lane chain_digest
second_lane_registered = (refl, refl, refl)

digests_differ : digest_a ≢ digest_b
digests_differ e = ground (arith, eq_iff digest_a digest_b)

first_events_collide_example :
    append_event toy
      (inserted two_lanes digest_a
        (next_row toy two_lanes digest_a policy (document "limits") 3 none))
      digest_b
      policy
      (document "limits")
      4
      none
    ≡ err database_error
first_events_collide_example =
    first_events_collide toy two_lanes digest_a digest_b policy (document "limits") 3 4
      digests_differ second_lane_registered.0 second_lane_registered.1 second_lane_registered.2
      two_lanes_recorded

policy_row :
    (recorded (policy_store.events digest_a) (some digest_a)
      ≡ some (record { event = stored_event toy the_policy; idempotency_digest = some digest_a }))
    × (policy_store.heads digest_a ≡ some assigned_head)
    × (key_digest toy (some "key") ≡ ok (some digest_a))
unfolding run step register_lane append_event apply_assignment checked_assign assign append_locked
    key_digest idempotency_digest replay_or_append append_new insert_event write_head require_digest
    assert_lane_transition lane_head freeze checked_freeze freeze_lane chain_digest
policy_row = (refl, refl, refl)

policy_order : assigned_head.sequence ≤ the_policy.sequence
unfolding run step register_lane append_event apply_assignment checked_assign assign append_locked
    key_digest idempotency_digest replay_or_append append_new insert_event write_head require_digest
    assert_lane_transition lane_head freeze checked_freeze freeze_lane chain_digest
policy_order = omega arith

freeze_without_event_example :
    freeze_lane toy policy_store digest_a hard_integrity "limits" 9 (some "key")
    ≡ ok (
      row_to_event toy
          (record { event = stored_event toy the_policy; idempotency_digest = some digest_a }),
      headed policy_store digest_a (frozen_row assigned_head hard_integrity the_policy 9),
    )
freeze_without_event_example =
    freeze_without_event toy policy_store digest_a hard_integrity "limits" 9 (some "key")
      (record { event = stored_event toy the_policy; idempotency_digest = some digest_a })
      assigned_head policy_row.1 refl policy_row.2 policy_row.0 refl (omega arith) policy_order
      (omega arith)

-- Here every text is read back as one that is longer, and has another digest.
abbrev lengthening : Runtime
lengthening = record toy { decode = λ text. document long_name }

abbrev lengthened : Store
lengthened =
    inserted two_lanes digest_a
      (next_row lengthening two_lanes digest_a policy (document "limits") 3 none)

lengthened_recorded :
    append_event lengthening two_lanes digest_a policy (document "limits") 3 none
    ≡ ok (two_lanes_policy, lengthened)
unfolding run step register_lane append_event apply_assignment checked_assign assign append_locked
    key_digest idempotency_digest replay_or_append append_new insert_event write_head require_digest
    assert_lane_transition lane_head freeze checked_freeze freeze_lane chain_digest
lengthened_recorded = refl

digests_differ_back : digest_b ≢ digest_a
digests_differ_back e = digests_differ (sym e)

unstable_payload_breaks_example : verify_chain lengthening lengthened digest_a ≡ err chain_integrity
unstable_payload_breaks_example =
    unstable_payload_breaks lengthening two_lanes digest_a policy (document "limits") 3
      second_lane_registered.0 lengthened_recorded digests_differ_back
