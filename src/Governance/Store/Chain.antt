-- ===== src/Governance/Store/Chain.antt =====
-- The event chains that the operations of governance/store.py leave.
use signalattice.Governance.Store.Appends.{Appended, added, inserted, next_row, replayed}
use signalattice.Prelude.{
  ℕ, List, Option, String, [], arith, last, map, none, ok, some, ◌++◌, ◌+◌, ◌∷◌, ◌≡◌, eq_iff, refl,
  last-cons, subst, str_eq, ap, Bool-cases, Option-cases, inl, inr, sym,
}
use signalattice.Governance.Runtime.{IsStable, Runtime, Payload}
use signalattice.Governance.Store.Tables.{
  EventRow, GovernanceEvent, canonical_digest, chain_digest, EventKind, Store, genesis_digest,
  row_to_event,
}
use signalattice.Governance.Store.Head.{verify_from}

-- The sequence and the predecessor that the row after these has.
abbrev pub next_or : ℕ → Option EventRow → ℕ
next_or k none = k
next_or k (some row) = row.event.sequence + 1

abbrev pub link_or : String → Option EventRow → String
link_or previous none = previous
link_or previous (some row) = row.event.chain_digest

module _ (rt : Runtime) where
  pub record IsLinked (sequence : ℕ) (previous : String) (event : GovernanceEvent) : Type 0 where
    pub at_sequence : event.sequence ≡ sequence
    pub payload_bound : event.payload_digest ≡ canonical_digest rt event.payload
    pub predecessor : event.previous_digest ≡ previous
    pub link_bound :
        event.chain_digest
        ≡ chain_digest rt previous (canonical_digest rt event.payload) sequence event.kind

  verify_from-single :
      (k : ℕ) (previous : String) (event : GovernanceEvent) (events : List GovernanceEvent)
      → IsLinked k previous event
      → verify_from rt (k + 1) event.chain_digest events ≡ ok tt
      → verify_from rt k previous (event ∷ events) ≡ ok tt
  unfolding verify_from
  verify_from-single k previous event events h v = ground (
    arith,
    eq_iff (canonical_digest rt event.payload) event.payload_digest,
    eq_iff event.previous_digest previous,
    eq_iff (chain_digest rt previous (canonical_digest rt event.payload) event.sequence event.kind)
        event.chain_digest,
  )

  verify_from-head :
      (k : ℕ) (previous : String) (event : GovernanceEvent) (events : List GovernanceEvent)
      → verify_from rt k previous (event ∷ events) ≡ ok tt
      → (event.sequence ≡ k) × (verify_from rt (k + 1) event.chain_digest events ≡ ok tt)
  unfolding verify_from
  verify_from-head k previous event events v = ground arith

  pub verify_from-IsLinked :
      (k : ℕ) (previous : String) (event : GovernanceEvent) (events : List GovernanceEvent)
      → verify_from rt k previous (event ∷ events) ≡ ok tt
      → IsLinked k previous event × (verify_from rt (k + 1) event.chain_digest events ≡ ok tt)
  unfolding verify_from
  verify_from-IsLinked k previous event events v = ground (
    arith,
    eq_iff (canonical_digest rt event.payload) event.payload_digest,
    eq_iff event.previous_digest previous,
    eq_iff (chain_digest rt previous (canonical_digest rt event.payload) event.sequence event.kind)
        event.chain_digest,
  )

  -- The events after the first may be replaced by others that verify from its link.
  verify_from-retail :
      (k : ℕ) (previous : String) (event : GovernanceEvent) (events others : List GovernanceEvent)
      → verify_from rt k previous (event ∷ events) ≡ ok tt
      → verify_from rt (k + 1) event.chain_digest others ≡ ok tt
      → verify_from rt k previous (event ∷ others) ≡ ok tt
  unfolding verify_from
  verify_from-retail k previous event events others v w = ground arith

  IsLinked-last :
      (k j : ℕ) (p q : String) (r : EventRow) (rows : List EventRow) (event : GovernanceEvent)
      → IsLinked (next_or k (last (r ∷ rows))) (link_or p (last (r ∷ rows))) event
      → IsLinked (next_or j (last (r ∷ rows))) (link_or q (last (r ∷ rows))) event
  IsLinked-last k j p q r rows event h = let (y, e) = last-cons r rows in rw e (rw e at h)

  -- The link of a row after `r ∷ rows` is one after `rows`, from the link of `r`.
  IsLinked-after :
      (k : ℕ) (p : String) (r : EventRow) (rows : List EventRow) (row : EventRow)
      → r.event.sequence ≡ k
      → IsLinked (next_or k (last (r ∷ rows))) (link_or p (last (r ∷ rows))) (row_to_event rt row)
      → IsLinked
          (next_or (k + 1) (last rows))
          (link_or r.event.chain_digest (last rows))
          (row_to_event rt row)
  IsLinked-after k p r [] row e h =
      subst (λ n. IsLinked (n + 1) r.event.chain_digest (row_to_event rt row)) e h
  IsLinked-after k p r (q ∷ rows) row e h =
      IsLinked-last k (k + 1) p r.event.chain_digest q rows (row_to_event rt row) h

  verify_from-append :
      (k : ℕ) (previous : String) (rows : List EventRow) (row : EventRow)
      → verify_from rt k previous (map (row_to_event rt) rows) ≡ ok tt
      → IsLinked (next_or k (last rows)) (link_or previous (last rows)) (row_to_event rt row)
      → verify_from rt k previous (map (row_to_event rt) (rows ++ row ∷ [])) ≡ ok tt
  verify_from-append k previous [] row v h =
      verify_from-single k previous (row_to_event rt row) [] h (unfold verify_from in refl)
  verify_from-append k previous (r ∷ rows) row v h =
      let (at, rest) =
        verify_from-head k previous (row_to_event rt r) (map (row_to_event rt) rows) v in
      verify_from-retail k previous (row_to_event rt r) (map (row_to_event rt) rows)
        (map (row_to_event rt) (rows ++ row ∷ [])) v
        (verify_from-append (k + 1) r.event.chain_digest rows row rest
          (IsLinked-after k previous r rows row at h))

  abbrev pub IsChained : Store → Type 0
  IsChained s =
      (lane : String)
      → verify_from rt 1 genesis_digest (map (row_to_event rt) (s.events lane)) ≡ ok tt

  next_row-IsLinked :
      (s : Store) (lane : String) (kind : EventKind) (payload : Payload) (now : ℕ)
      (key : Option String)
      → IsStable rt payload
      → IsLinked
          (next_or 1 (last (s.events lane)))
          (link_or genesis_digest (last (s.events lane)))
          (row_to_event rt (next_row rt s lane kind payload now key))
  next_row-IsLinked s lane kind payload now key same =
      let digests : canonical_digest rt payload
          ≡ canonical_digest rt (rt.decode (rt.encode payload)) =
        ap rt.sha256 (sym same) in
      elim (Option-cases (last (s.events lane))) [
        | inl e ↦ rw e (record {
          at_sequence = refl;
          payload_bound = digests;
          predecessor = refl;
          link_bound = ap (λ d. chain_digest rt genesis_digest d 1 kind) digests;
        })
        | inr (row, e) ↦ rw e (record {
          at_sequence = refl;
          payload_bound = digests;
          predecessor = refl;
          link_bound =
              ap (λ d. chain_digest rt row.event.chain_digest d (row.event.sequence + 1) kind)
                digests;
        })
      ]

  inserted-IsChained :
      (s : Store) (lane : String) (row : EventRow)
      → IsLinked
          (next_or 1 (last (s.events lane)))
          (link_or genesis_digest (last (s.events lane)))
          (row_to_event rt row)
      → IsChained s
      → IsChained (inserted s lane row)
  inserted-IsChained s lane row l c j = elim (Bool-cases (str_eq j lane)) [
    | inl e ↦ rw e (verify_from-append 1 genesis_digest (s.events lane) row (c lane) l)
    | inr e ↦ rw e (c j)
  ]

  -- Every append, new or replayed, leaves every lane's chain verified.
  pub Appended-IsChained :
      (s : Store) (lane : String) (kind : EventKind) (payload : Payload) (now : ℕ)
      (idempotency_key : Option String) {event : GovernanceEvent} {t : Store}
      → Appended rt s lane kind payload now idempotency_key event t
      → IsStable rt payload
      → IsChained s
      → IsChained t
  Appended-IsChained s lane kind payload now key (replayed _ row d r p e q) same c =
      subst IsChained (sym q) c
  Appended-IsChained s lane kind payload now key (added k d r f e q) same c =
      subst IsChained (sym q)
        (inserted-IsChained s lane _ (next_row-IsLinked s lane kind payload now k same) c)
