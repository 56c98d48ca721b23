-- ===== src/Governance/Store/Appends.antt =====
-- What a successful `_append_locked` of governance/store.py does to the tables.
use signalattice.Prelude.{
  ℕ, >>=-eq-ok, Option, String, [], any, arith, eq_iff, false, ltb, none, ok, refl, refuse, some,
  str_eq, ◌++◌, ◌∷◌, ◌≡◌, ap,
}
use signalattice.Governance.Lane.{store_error}
use signalattice.Governance.Runtime.{Runtime, Payload}
use signalattice.Governance.Store.Tables.{
  Store, EventKind, EventRow, GovernanceEvent, canonical_digest, max_payload_bytes, update,
  row_to_event, stored_event,
}
use signalattice.Governance.Store.Operations.{
  append_new, append_locked, key_digest, link_event, recorded, replay_or_append,
}

-- The tables after a row is inserted.
abbrev pub inserted : Store → String → EventRow → Store
inserted s lane row = record s {
  events = update s.events lane (s.events lane ++ row ∷ []);
  links = row.event.chain_digest ∷ s.links;
}

module _ (rt : Runtime) where
  abbrev pub next_row : Store → String → EventKind → Payload → ℕ → Option String → EventRow
  next_row s lane kind payload now key = record {
    event = stored_event rt (link_event rt s lane kind payload now);
    idempotency_digest = key;
  }

  -- A successful append returns a recorded event and changes nothing, or inserts the next link.
  pub data Appended (s : Store) (lane : String) (kind : EventKind) (payload : Payload) (now : ℕ)
      (idempotency_key : Option String) (event : GovernanceEvent) (t : Store) : Type 0 where
    replayed :
        (key : Option String) (row : EventRow)
        → key_digest rt idempotency_key ≡ ok key
        → recorded (s.events lane) key ≡ some row
        → row.event.payload_digest ≡ canonical_digest rt payload
        → event ≡ row_to_event rt row
        → t ≡ s
        → Appended s lane kind payload now idempotency_key event t
    added :
        (key : Option String)
        → key_digest rt idempotency_key ≡ ok key
        → recorded (s.events lane) key ≡ none
        → any (str_eq (link_event rt s lane kind payload now).chain_digest) s.links ≡ false
        → event ≡ link_event rt s lane kind payload now
        → t ≡ inserted s lane (next_row s lane kind payload now key)
        → Appended s lane kind payload now idempotency_key event t

  module _ (s : Store) (lane : String) (kind : EventKind) (payload : Payload) (now : ℕ)
      (idempotency_key : Option String) where
    append_new-Appended :
        (key : Option String) {event : GovernanceEvent} {t : Store}
        → key_digest rt idempotency_key ≡ ok key
        → recorded (s.events lane) key ≡ none
        → append_new rt s lane kind payload now key ≡ ok (event, t)
        → Appended s lane kind payload now idempotency_key event t
    unfolding append_new
    append_new-Appended key d r h = added key d r (ground arith) (ground arith) (ground arith)

    replay_or_append-Appended :
        (found : Option EventRow) (key : Option String) {event : GovernanceEvent} {t : Store}
        → key_digest rt idempotency_key ≡ ok key
        → recorded (s.events lane) key ≡ found
        → replay_or_append rt found s lane kind payload now key ≡ ok (event, t)
        → Appended s lane kind payload now idempotency_key event t
    unfolding replay_or_append
    replay_or_append-Appended none key d r h = append_new-Appended key d r (unfold append_new in h)
    replay_or_append-Appended (some row) key d r h =
        replayed key row d r
          (ground (arith, eq_iff row.event.payload_digest (canonical_digest rt payload)))
          (ground arith) (ground arith)

    pub append_locked-Appended :
        {event : GovernanceEvent} {t : Store}
        → append_locked rt s lane kind payload now idempotency_key ≡ ok (event, t)
        → Appended s lane kind payload now idempotency_key event t
    unfolding append_locked
    append_locked-Appended h =
        let (_, _, h') =
          >>=-eq-ok (refuse (ltb max_payload_bytes (rt.utf8_size (rt.encode payload))) store_error)
            _ h in
        let (key, d, h'') = >>=-eq-ok (key_digest rt idempotency_key) _ h' in
        replay_or_append-Appended (recorded (s.events lane) key) key d refl h''

    -- An append leaves the heads.
    pub heads-Appended :
        {event : GovernanceEvent} {t : Store}
        → Appended s lane kind payload now idempotency_key event t
        → t.heads ≡ s.heads
    heads-Appended (replayed k row d r p e q) = ap (λ u. u.heads) q
    heads-Appended (added k d r f e q) = ap (λ u. u.heads) q
