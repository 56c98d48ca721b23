-- ===== src/Governance/Toy.antt =====
-- A small runtime and a lane's life for the examples of the governance store.
use signalattice.Prelude.{
  Bool-cases, List, String, [], codes, if◌then◌else◌, inl, inr, leb, length, none, pos, refl, some,
  str_eq, ◌∷◌, ◌≡◌,
}
use signalattice.Governance.Lane.{GovernanceLane, active, hard_integrity}
use signalattice.Governance.Runtime.{Payload, Runtime, assignment_payload, document, freeze_payload}
use signalattice.Governance.Store.Tables.{GovernanceEvent, HeadRow, Store, empty_store, freezing}
use signalattice.Governance.Store.Operations.{link_event}
use signalattice.Governance.Store.Lifecycle.{Call, assigning, freezing_lane, register, run}

abbrev pub digest_a : String
digest_a = "aaaaaaaaaaaaaaaaaaaaaaaaaaaaaaaaaaaaaaaaaaaaaaaaaaaaaaaaaaaaaaaa"

abbrev pub digest_b : String
digest_b = "bbbbbbbbbbbbbbbbbbbbbbbbbbbbbbbbbbbbbbbbbbbbbbbbbbbbbbbbbbbbbbbb"

abbrev pub digest_c : String
digest_c = "cccccccccccccccccccccccccccccccccccccccccccccccccccccccccccccccc"

-- A digest that tells texts apart by their lengths alone.
abbrev pub by_length : String → String
by_length text =
    if leb (length (codes text)) 100
    then digest_a
    else if leb (length (codes text)) 140
    then digest_b
    else digest_c

abbrev pub encode_example : Payload → String
encode_example (assignment_payload champion generation previous before) = champion
encode_example (freeze_payload trigger detail) = detail
encode_example (document text) = text

-- It tells the payloads of `frozen_life` from others.
abbrev pub decode_example : String → Payload
decode_example text =
    if str_eq text digest_b
    then assignment_payload digest_b 1 none 0
    else if str_eq text "breach"
    then freeze_payload hard_integrity "breach"
    else document text

abbrev pub toy : Runtime
toy = record {
  sha256 = by_length;
  encode = encode_example;
  decode = decode_example;
  encode_lane = λ lane. lane.purpose;
  utf8_size = λ text. length (codes text);
  decimal = λ n. "0";
  strip = λ text. text;
}

pub by_length-width : (text : String) → length (codes (by_length text)) ≡ 64
by_length-width text = elim (Bool-cases (leb (length (codes text)) 100)) [
  | inl a ↦ rw a refl
  | inr a ↦ elim (Bool-cases (leb (length (codes text)) 140)) [
    | inl b ↦ rw (a, b) refl
    | inr b ↦ rw (a, b) refl
  ]
]

abbrev pub equities : GovernanceLane
equities = record {
  purpose = "ranking";
  target = "return";
  horizon_days = pos 5;
  frequency = "daily";
  universe = "large_cap";
  decision_policy = "top_decile";
  environment = "shadow";
}

-- The lane is registered, gets a champion, and is frozen.
abbrev pub registering : List Call
registering = register equities 1 ∷ []

abbrev pub frozen_life : List Call
frozen_life =
    register equities 1
    ∷ assigning digest_a digest_b 0 none 2 none
    ∷ freezing_lane digest_a hard_integrity "breach" 3 none
    ∷ []

abbrev pub registered_store : Store
registered_store = run toy empty_store registering

abbrev pub assigned_store : Store
assigned_store =
    run toy empty_store (register equities 1 ∷ assigning digest_a digest_b 0 none 2 none ∷ [])

abbrev pub the_freeze : GovernanceEvent
the_freeze =
    link_event toy assigned_store digest_a freezing (freeze_payload hard_integrity "breach") 3

abbrev pub assigned_head : HeadRow
assigned_head = record {
  state = active;
  champion_revision = some digest_b;
  generation = 1;
  freeze_trigger = none;
  sequence = 1;
  updated_at = 2;
}
