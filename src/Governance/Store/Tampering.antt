-- ===== src/Governance/Store/Tampering.antt =====
-- What two chains that both verify can differ in (governance/store.py): nothing, unless two
-- different links have one digest.
use signalattice.Governance.Store.Tables.{
  EventKind, GovernanceEvent, canonical_digest, chain_digest,
}
use signalattice.Prelude.{List, String, [], ℕ, ◌∷◌, ◌≡◌, ◌≢◌}
use signalattice.Governance.Runtime.{Runtime}

-- What a chain digest is taken over.
pub record Link : Type 0 where
  pub previous : String
  pub payload_digest : String
  pub sequence : ℕ
  pub kind : EventKind

module _ (rt : Runtime) where
  abbrev pub digest_of : Link → String
  digest_of l = chain_digest rt l.previous l.payload_digest l.sequence l.kind

  -- Two different links with one digest.
  pub record Collision : Type 0 where
    pub left : Link
    pub right : Link
    pub differ : left ≢ right
    pub same_digest : digest_of left ≡ digest_of right

  -- The digest that a verification ends with.
  unfoldable pub chain_tip : String → List GovernanceEvent → String
  chain_tip previous [] = previous
  chain_tip previous (event ∷ events) = chain_tip event.chain_digest events

  -- What two events of verified chains share: all that the chain binds.
  abbrev pub SameEvent : GovernanceEvent → GovernanceEvent → Type 0
  SameEvent a b =
      (a.sequence ≡ b.sequence)
      × (a.kind ≡ b.kind)
      × (a.payload_digest ≡ b.payload_digest)
      × (a.previous_digest ≡ b.previous_digest)
      × (a.chain_digest ≡ b.chain_digest)

  abbrev pub SameEvents : List GovernanceEvent → List GovernanceEvent → Type 0
  SameEvents [] [] = Unit
  SameEvents [] (b ∷ ys) = ⊥
  SameEvents (a ∷ xs) [] = ⊥
  SameEvents (a ∷ xs) (b ∷ ys) = SameEvent a b × SameEvents xs ys

  abbrev link_of : ℕ → String → GovernanceEvent → Link
  link_of k previous event = record {
    previous = previous;
    payload_digest = canonical_digest rt event.payload;
    sequence = k;
    kind = event.kind;
  }
