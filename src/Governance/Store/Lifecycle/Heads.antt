-- ===== src/Governance/Store/Lifecycle/Heads.antt =====
-- The stored heads of governance/store.py are sound, and are the ones that their events produce.
use signalattice.Governance.Store.Appends.{heads-Appended}
use signalattice.Governance.Store.Lifecycle.{Call, KeptBy}
use signalattice.Governance.Store.Operations.{register_lane, insert_or_ignore, unassigned_row}
use signalattice.Governance.Runtime.{Runtime}
use signalattice.Governance.Store.Projecting.{projection_of}
use signalattice.Governance.Store.Head.{head_of}
use signalattice.Governance.Store.Written.{assigned_row, frozen_row}
use signalattice.Governance.Store.Moves.{Assigned, Froze}
use signalattice.Governance.Lane.{FreezeTrigger, LaneHead, check_head, max_generation}
use signalattice.Governance.Store.Tables.{
  GovernanceEvent, HeadRow, Store, require_digest, update, lane_identity, assignment, freezing,
}
use signalattice.Prelude.{
  ℕ, String, arith, eq_iff, ok, some, ◌+◌, ◌≡◌, ◌≤◌, Bool-cases, codes, false, inl, inr, length,
  str_eq, subst, sym, Option, none, refl,
}

abbrev pub stored_head : String → HeadRow → LaneHead
stored_head lane row = head_of lane (projection_of (some row))

abbrev pub SoundAt : String → Option HeadRow → Type 0
SoundAt lane none = Unit
SoundAt lane (some row) = check_head (stored_head lane row) ≡ ok (stored_head lane row)

abbrev pub HeadsSound : (String → Option HeadRow) → Type 0
HeadsSound heads = (lane : String) → SoundAt lane (heads lane)

-- Every stored head meets the checks of `LaneHead`.
abbrev pub IsSound : Store → Type 0
IsSound s = HeadsSound s.heads

update-IsSound :
    (heads : String → Option HeadRow) (lane : String) (new : Option HeadRow)
    → HeadsSound heads
    → SoundAt lane new
    → (j : String) → SoundAt j (update heads lane new j)
update-IsSound heads lane new h k j = elim (Bool-cases (str_eq j lane)) [
  | inl b ↦ rw b (subst (λ i. SoundAt i new) (sym ((eq_iff j lane).0 b)) k)
  | inr b ↦ rw b (h j)
]

digest-ne-empty : (c : String) → require_digest c ≡ ok c → str_eq c "" ≡ false
unfolding require_digest
digest-ne-empty c d = elim (Bool-cases (str_eq c "")) [
  | inl b ↦ cc (subst (λ x. require_digest x ≡ ok x) ((eq_iff c "").0 b) d)
  | inr b ↦ b
]

assigned_sound :
    (lane champion : String) (row : HeadRow) (event : GovernanceEvent) (now : ℕ)
    → require_digest champion ≡ ok champion
    → row.generation + 1 ≤ max_generation
    → check_head (stored_head lane row) ≡ ok (stored_head lane row)
    → check_head (stored_head lane (assigned_row row champion event now))
      ≡ ok (stored_head lane (assigned_row row champion event now))
unfolding check_head
assigned_sound lane champion row event now d g h = ground (arith, digest-ne-empty champion d)

frozen_sound :
    (lane : String) (row : HeadRow) (trigger : FreezeTrigger) (event : GovernanceEvent) (now : ℕ)
    → check_head (stored_head lane row) ≡ ok (stored_head lane row)
    → check_head (stored_head lane (frozen_row row trigger event now))
      ≡ ok (stored_head lane (frozen_row row trigger event now))
unfolding check_head
frozen_sound lane row trigger event now h = ground arith

module _ (rt : Runtime)
    (digest_width : (text : String) → length (codes (rt.sha256 text)) ≡ 64) where
  register-SoundAt :
      (lane : String) (now : ℕ) (o : Option HeadRow)
      → length (codes lane) ≡ 64
      → SoundAt lane o
      → SoundAt lane (insert_or_ignore o (unassigned_row now))
  unfolding check_head
  register-SoundAt lane now none w h = rw w refl
  register-SoundAt lane now (some row) w h = h

  row-SoundAt :
      (s : Store) (lane : String) (row : HeadRow)
      → IsSound s
      → s.heads lane ≡ some row
      → check_head (stored_head lane row) ≡ ok (stored_head lane row)
  row-SoundAt s lane row h e = subst (SoundAt lane) e (h lane)

  assign-IsSound :
      (s : Store) (lane champion : String) (generation : ℕ) (expected : Option String) (now : ℕ)
      (key : Option String) {event : GovernanceEvent} {t : Store}
      → require_digest champion ≡ ok champion
      → Assigned rt s lane champion generation expected now key event t
      → IsSound s
      → IsSound t
  assign-IsSound s lane champion generation expected now key {event} d a h =
      subst IsSound (sym a.written.tables) (
        update-IsSound a.between.heads lane (some (assigned_row a.row champion event now))
          (subst HeadsSound (sym (heads-Appended rt s lane assignment _ now key a.appended)) h)
          (assigned_sound lane champion a.row event now d a.written.generation_bounded
            (row-SoundAt s lane a.row h a.before)))

  freeze-IsSound :
      (s : Store) (lane : String) (trigger : FreezeTrigger) (detail : String) (now : ℕ)
      (key : Option String) {event : GovernanceEvent} {t : Store}
      → Froze rt s lane trigger detail now key event t
      → IsSound s
      → IsSound t
  freeze-IsSound s lane trigger detail now key {event} a h = subst IsSound (sym a.written.tables) (
      update-IsSound a.between.heads lane (some (frozen_row a.row trigger event now))
        (subst HeadsSound (sym (heads-Appended rt s lane freezing _ now key a.appended)) h)
        (frozen_sound lane a.row trigger event now (row-SoundAt s lane a.row h a.before)))

  pub calls-keep-IsSound : (s : Store) (call : Call) → IsSound s → KeptBy rt IsSound s call
  unfolding register_lane
  calls-keep-IsSound s call h = record {
    by_register = λ lane now e. update-IsSound s.heads (lane_identity rt lane) _ h (
        register-SoundAt (lane_identity rt lane) now (s.heads (lane_identity rt lane))
          (digest_width (rt.encode_lane lane)) (h (lane_identity rt lane)));
    by_append = λ lane kind payload now key e event t a.
        subst HeadsSound (sym (heads-Appended rt s lane kind payload now key a)) h;
    by_assign = λ lane champion generation expected now key e d event t a.
        assign-IsSound s lane champion generation expected now key d a h;
    by_freeze =
        λ lane trigger detail now key e event t a. freeze-IsSound s lane trigger detail now key a h;
  }
