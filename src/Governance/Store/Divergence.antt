-- ===== src/Governance/Store/Divergence.antt =====
-- Where governance/store.py departs from what its comments promise: the index of chain digests runs
-- over all lanes, and a recorded key lets a head move without an event.
use signalattice.Governance.Store.Appends.{
  Appended, added, inserted, next_row, replayed, append_locked-Appended,
}
use signalattice.Governance.Store.Written.{frozen_row, headed}
use signalattice.Governance.Lane.{
  FreezeTrigger, chain_integrity, active, assert_lane_transition, database_error, max_generation,
  store_error,
}
use signalattice.Prelude.{
  Option, String, [], err, is_some, none, ok, some, true, ℕ, ◌≡◌, ◌≢◌, ◌≤◌, >>=-eq-ok, ltb, refuse,
  List, arith, eq_iff, eq_refl, false, refl, str_eq, ◌∷◌, subst, sym,
}
use signalattice.Governance.Store.Tables.{
  EventKind, EventRow, GovernanceEvent, HeadRow, Store, canonical_digest, max_payload_bytes,
  row_to_event, load_events,
}
use signalattice.Governance.Store.Operations.{
  append_event, append_locked, append_new, key_digest, link_event, recorded, replay_or_append,
  write_head, insert_event,
}
use signalattice.Governance.Runtime.{Payload, Runtime, freeze_payload}
use signalattice.Governance.Store.Head.{freeze_lane, verify_chain, verify_from}

insert_taken :
    (s : Store) (lane : String) (row : EventRow) (link : String) (links : List String)
    → s.links ≡ link ∷ links
    → row.event.chain_digest ≡ link
    → insert_event s lane row ≡ err database_error
unfolding insert_event
insert_taken s lane row link links e p = rw (e, (eq_iff row.event.chain_digest link).1 p)

str_ne : (a b : String) → a ≢ b → str_eq b a ≡ false
str_ne a b n = ground (arith, eq_iff b a)

module _ (rt : Runtime) where
  first_link :
      (s : Store) (a b : String) (kind : EventKind) (payload : Payload) (now later : ℕ)
      → a ≢ b
      → s.events a ≡ []
      → s.events b ≡ []
      → (link_event rt
          (inserted s a (next_row rt s a kind payload now none))
          b
          kind
          payload
          later).chain_digest
        ≡ (link_event rt s a kind payload now).chain_digest
  first_link s a b kind payload now later n ea eb = rw (str_ne a b n, ea, eb)

  -- An append with no key inserts.
  keyless-inserted :
      (s : Store) (lane : String) (kind : EventKind) (payload : Payload) (now : ℕ)
      {event : GovernanceEvent} {t : Store}
      → Appended rt s lane kind payload now none event t
      → t ≡ inserted s lane (next_row rt s lane kind payload now none)
  unfolding key_digest
  keyless-inserted s lane kind payload now (replayed none row d r p e q) = cc
  keyless-inserted s lane kind payload now (replayed (some k) row d r p e q) = cc
  keyless-inserted s lane kind payload now (added none d r f e q) = q
  keyless-inserted s lane kind payload now (added (some k) d r f e q) = cc

  taken_link :
      (s : Store) (a b : String) (kind : EventKind) (payload : Payload) (now later : ℕ)
      → a ≢ b
      → s.events a ≡ []
      → s.events b ≡ []
      → is_some (s.lanes b) ≡ true
      → append_new rt
          (inserted s a (next_row rt s a kind payload now none))
          b
          kind
          payload
          later
          none
        ≡ err database_error
  unfolding append_new
  taken_link s a b kind payload now later n ea eb r = rw r (
      rw (
        insert_taken (inserted s a (next_row rt s a kind payload now none)) b
          (next_row rt (inserted s a (next_row rt s a kind payload now none)) b kind payload later
            none)
          (link_event rt s a kind payload now).chain_digest s.links refl
          (first_link s a b kind payload now later n ea eb)))

  -- Right after the first event of one lane has been appended with no key, an append with no key of
  -- the same kind and payload to another registered lane without events is refused by the unique
  -- index: the chain digest does not bind the lane.
  pub first_events_collide :
      (s : Store) (a b : String) (kind : EventKind) (payload : Payload) (now later : ℕ)
      {event : GovernanceEvent} {t : Store}
      → a ≢ b
      → s.events a ≡ []
      → s.events b ≡ []
      → is_some (s.lanes b) ≡ true
      → append_event rt s a kind payload now none ≡ ok (event, t)
      → append_event rt t b kind payload later none ≡ err database_error
  unfolding append_event replay_or_append key_digest
  first_events_collide s a b kind payload now later n ea eb r h =
      let (_, size, _) =
        >>=-eq-ok (refuse (ltb max_payload_bytes (rt.utf8_size (rt.encode payload))) store_error) _
          h in
      subst (λ u. append_event rt u b kind payload later none ≡ err database_error)
        (sym (
          keyless-inserted s a kind payload now
            (append_locked-Appended rt s a kind payload now none h)))
        (rw (size, taken_link s a b kind payload now later n ea eb r))

  -- If an event, of any kind, was recorded under a key, with the payload that a freeze would
  -- record, then a freeze of an active lane under that key moves its head to frozen and records no
  -- event, as long as the recorded event is no older than the head.
  pub freeze_without_event :
      (s : Store) (lane : String) (trigger : FreezeTrigger) (detail : String) (now : ℕ)
      (key : Option String) {k : Option String} (row : EventRow) (head : HeadRow)
      → s.heads lane ≡ some head
      → head.state ≡ active
      → key_digest rt key ≡ ok k
      → recorded (s.events lane) k ≡ some row
      → row.event.payload_digest ≡ canonical_digest rt (freeze_payload trigger detail)
      → rt.utf8_size (rt.encode (freeze_payload trigger detail)) ≤ max_payload_bytes
      → head.sequence ≤ row.event.sequence
      → head.generation ≤ max_generation
      → freeze_lane rt s lane trigger detail now key
        ≡ ok
            (row_to_event rt row, headed s lane (frozen_row head trigger (row_to_event rt row) now))
  unfolding freeze_lane append_locked replay_or_append write_head assert_lane_transition
  freeze_without_event s lane trigger detail now key row head e st d r p size seq gen =
      ground (
        arith,
        eq_iff row.event.payload_digest (canonical_digest rt (freeze_payload trigger detail)),
      )

  -- An event with no key begins the chain of a lane. If its payload, as its JSON text is read back,
  -- has another digest than it had, then `verify_chain` of that lane raises.
  pub unstable_payload_breaks :
      (s : Store) (lane : String) (kind : EventKind) (payload : Payload) (now : ℕ)
      {event : GovernanceEvent} {t : Store}
      → s.events lane ≡ []
      → append_event rt s lane kind payload now none ≡ ok (event, t)
      → canonical_digest rt (rt.decode (rt.encode payload)) ≢ canonical_digest rt payload
      → verify_chain rt t lane ≡ err chain_integrity
  unfolding append_event verify_chain verify_from load_events
  unstable_payload_breaks s lane kind payload now first h differs =
      let t =
        keyless-inserted s lane kind payload now
          (append_locked-Appended rt s lane kind payload now none h) in
      rw (
        t,
        eq_refl lane,
        first,
        str_ne (canonical_digest rt payload) (canonical_digest rt (rt.decode (rt.encode payload)))
            (λ e. differs (sym e)),
      )
