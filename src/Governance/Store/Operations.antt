-- ===== src/Governance/Store/Operations.antt =====
-- The operations of governance/store.py that write. Each runs in one IMMEDIATE transaction: it
-- returns the tables that it commits, or an error and none, after which the caller goes on from the
-- tables that it had (`commit`). `now` has been through `utc_instant`.
use signalattice.Prelude.{
  ℕ, List, Option, Result, String, [], any, err, find, is_none, is_some, last, leb, ltb, none, ok,
  refuse, require, some, str_eq, ◌&&◌, ◌++◌, ◌+◌, ◌>>=◌, ◌>>◌, ◌||◌, ◌∷◌, bool_eq,
}
use signalattice.Governance.Lane.{
  GovernanceError, GovernanceLane, active, database_error, frozen, lane_state_eq, max_generation,
  store_error, unassigned,
}
use signalattice.Governance.Runtime.{Runtime, Payload}
use signalattice.Governance.Store.Tables.{
  Store, EventKind, EventRow, GovernanceEvent, HeadRow, canonical_digest, genesis_digest,
  max_payload_bytes, option_str_eq, update, chain_digest, idempotency_digest, lane_identity,
  row_to_event, stored_event,
}

-- What a transaction leaves: its tables if it commits, and else those it began with.
abbrev pub commit {ℓ} : {A : Type ℓ} → Store → Result GovernanceError (A × Store) → Store
commit s (ok r) = r.1
commit s (err e) = s

-- `SELECT sequence, chain_digest ... ORDER BY sequence DESC LIMIT 1`.
abbrev pub next_sequence : Option EventRow → ℕ
next_sequence none = 1
next_sequence (some row) = row.event.sequence + 1

abbrev pub previous_link : Option EventRow → String
previous_link none = genesis_digest
previous_link (some row) = row.event.chain_digest

-- `SELECT ... WHERE lane_identity = ? AND idempotency_digest = ?`, for a key that is given.
abbrev pub recorded : List EventRow → Option String → Option EventRow
recorded rows none = none
recorded rows (some key) = find (λ row. option_str_eq row.idempotency_digest (some key)) rows

-- `INSERT INTO sl_governance_events`, under the unique index of chain digests.
unfoldable pub insert_event : Store → String → EventRow → Result GovernanceError Store
insert_event s lane row = do
  refuse (any (str_eq row.event.chain_digest) s.links) database_error
  ok (record s {
    events = update s.events lane (s.events lane ++ row ∷ []);
    links = row.event.chain_digest ∷ s.links;
  })

-- `UPDATE sl_governance_lane_head`, under the checks of the table and the trigger
-- sl_governance_lane_head_forward_only.
unfoldable pub write_head : Store → String → HeadRow → HeadRow → Result GovernanceError Store
unfolding lane_state_eq
write_head s lane old new = do
  refuse (ltb new.generation old.generation || ltb new.sequence old.sequence) database_error
  require (leb new.generation max_generation) database_error
  refuse (lane_state_eq new.state unassigned && is_some new.champion_revision) database_error
  refuse (lane_state_eq new.state active && is_none new.champion_revision) database_error
  require (bool_eq (lane_state_eq new.state frozen) (is_some new.freeze_trigger)) database_error
  ok (record s { heads = update s.heads lane (some new) })

abbrev pub insert_or_ignore {ℓ} : {A : Type ℓ} → Option A → A → Option A
insert_or_ignore none a = some a
insert_or_ignore (some b) a = some b

-- The head of a lane that is registered.
abbrev pub unassigned_row : ℕ → HeadRow
unassigned_row now = record {
  state = unassigned;
  champion_revision = none;
  generation = 0;
  freeze_trigger = none;
  sequence = 0;
  updated_at = now;
}

module _ (rt : Runtime) where
  -- The digest of a key, if there is one.
  unfoldable pub key_digest : Option String → Result GovernanceError (Option String)
  unfolding idempotency_digest
  key_digest none = ok none
  key_digest (some key) = do digest ← idempotency_digest rt key; ok (some digest)

  -- The event that a lane's chain takes next.
  abbrev pub link_event : Store → String → EventKind → Payload → ℕ → GovernanceEvent
  link_event s lane kind payload now =
      let before = last (s.events lane) in
      record {
        lane_identity = lane;
        sequence = next_sequence before;
        kind = kind;
        payload = payload;
        payload_digest = canonical_digest rt payload;
        previous_digest = previous_link before;
        chain_digest =
            chain_digest rt (previous_link before) (canonical_digest rt payload)
              (next_sequence before) kind;
        recorded_at = now;
      }

  unfoldable pub append_new :
      Store
      → String
      → EventKind
      → Payload
      → ℕ
      → Option String
      → Result GovernanceError (GovernanceEvent × Store)
  unfolding insert_event
  append_new s lane kind payload now key = do
    require (is_some (s.lanes lane)) store_error
    let event = link_event s lane kind payload now
    t ← insert_event s lane (record { event = stored_event rt event; idempotency_digest = key })
    ok (event, t)

  -- A key that the lane has recorded returns its event, if the payload is the same.
  unfoldable pub replay_or_append :
      Option EventRow
      → Store
      → String
      → EventKind
      → Payload
      → ℕ
      → Option String
      → Result GovernanceError (GovernanceEvent × Store)
  unfolding append_new
  replay_or_append (some row) s lane kind payload now key = do
    require (str_eq row.event.payload_digest (canonical_digest rt payload)) store_error
    ok (row_to_event rt row, s)
  replay_or_append none s lane kind payload now key = append_new s lane kind payload now key

  -- `_append_locked`.
  unfoldable pub append_locked :
      Store
      → String
      → EventKind
      → Payload
      → ℕ
      → Option String
      → Result GovernanceError (GovernanceEvent × Store)
  unfolding replay_or_append key_digest
  append_locked s lane kind payload now idempotency_key = do
    refuse (ltb max_payload_bytes (rt.utf8_size (rt.encode payload))) store_error
    key ← key_digest idempotency_key
    replay_or_append (recorded (s.events lane) key) s lane kind payload now key

  unfoldable pub append_event :
      Store
      → String
      → EventKind
      → Payload
      → ℕ
      → Option String
      → Result GovernanceError (GovernanceEvent × Store)
  unfolding append_locked
  append_event s lane kind payload now idempotency_key =
      append_locked s lane kind payload now idempotency_key

  -- `register_lane`: both inserts are `INSERT OR IGNORE`.
  unfoldable pub register_lane : Store → GovernanceLane → ℕ → String × Store
  register_lane s lane now =
      let identity = lane_identity rt lane in
      (
        identity,
        record s {
          lanes = update s.lanes identity (
              insert_or_ignore (s.lanes identity)
                (record { lane_key = rt.encode_lane lane; created_at = now }));
          heads =
              update s.heads identity (insert_or_ignore (s.heads identity) (unassigned_row now));
        },
      )
