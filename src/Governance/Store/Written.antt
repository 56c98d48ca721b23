-- ===== src/Governance/Store/Written.antt =====
-- The rows of the heads that governance/store.py writes.
use signalattice.Prelude.{
  ℕ, Option, String, ap, arith, eq_iff, none, ok, refl, some, true, ◌+◌, ◌≡◌, ◌≤◌,
}
use signalattice.Governance.Lane.{FreezeTrigger, active, frozen, max_generation}
use signalattice.Governance.Runtime.{assignment_payload, Payload}
use signalattice.Governance.Store.Tables.{Store, GovernanceEvent, HeadRow, option_str_eq, update}
use signalattice.Governance.Store.Operations.{write_head}
use signalattice.Governance.Store.Head.{require_row}

pub option_str_eq→eq : (a b : Option String) → option_str_eq a b ≡ true → a ≡ b
option_str_eq→eq none none h = refl
option_str_eq→eq none (some b) h = cc
option_str_eq→eq (some a) none h = cc
option_str_eq→eq (some a) (some b) h = ap (λ x. some x) ((eq_iff a b).0 h)

-- The tables after a head is written.
abbrev pub headed : Store → String → HeadRow → Store
headed t lane new = record t { heads = update t.heads lane (some new) }

-- A head that is written moved neither its generation nor its sequence back, and is coherent.
pub record HeadWritten (t : Store) (lane : String) (old new : HeadRow) (u : Store) : Type 0 where
  pub tables : u ≡ headed t lane new
  pub generation_forward : old.generation ≤ new.generation
  pub sequence_forward : old.sequence ≤ new.sequence
  pub generation_bounded : new.generation ≤ max_generation

pub write_head-HeadWritten :
    (t : Store) (lane : String) (old new : HeadRow) {u : Store}
    → write_head t lane old new ≡ ok u
    → HeadWritten t lane old new u
unfolding write_head
write_head-HeadWritten t lane old new h = ground arith

abbrev pub assigned_row : HeadRow → String → GovernanceEvent → ℕ → HeadRow
assigned_row row champion event now = record {
  state = active;
  champion_revision = some champion;
  generation = row.generation + 1;
  freeze_trigger = none;
  sequence = event.sequence;
  updated_at = now;
}

abbrev pub frozen_row : HeadRow → FreezeTrigger → GovernanceEvent → ℕ → HeadRow
frozen_row row trigger event now = record row {
  state = frozen;
  freeze_trigger = some trigger;
  sequence = event.sequence;
  updated_at = now;
}

-- The payload of an assignment over a head.
abbrev pub assigned_payload : String → Option String → ℕ → HeadRow → Payload
assigned_payload champion expected_champion expected_generation row =
    assignment_payload champion (row.generation + 1) expected_champion expected_generation

pub require_row-some : (o : Option HeadRow) {row : HeadRow} → require_row o ≡ ok row → o ≡ some row
require_row-some none h = cc
require_row-some (some row) h = cc
