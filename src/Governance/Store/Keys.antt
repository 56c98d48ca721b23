-- ===== src/Governance/Store/Keys.antt =====
-- Idempotency keys of governance/store.py: what a key that was used once does from then on.
use signalattice.Governance.Lane.{store_error}
use signalattice.Governance.Store.Tables.{
  EventKind, EventRow, GovernanceEvent, Store, canonical_digest, idempotency_digest,
  max_payload_bytes, option_str_eq, row_to_event,
}
use signalattice.Governance.Store.Operations.{
  append_event, key_digest, recorded, replay_or_append, append_locked,
}
use signalattice.Prelude.{
  >>=-eq-ok, Bool-cases, List, Option, String, [], ap, eq_refl, err, false, if◌then◌else◌, inl, inr,
  ltb, none, ok, ok-injective, refl, some, str_eq, sym, ℕ, ◌++◌, ◌∙◌, ◌∷◌, ◌≡◌, arith, subst, ◌≤◌,
  ◌⊎◌,
}
use signalattice.Governance.Runtime.{Payload, Runtime}
use signalattice.Governance.Store.Appends.{
  Appended, added, next_row, replayed, append_locked-Appended,
}

recorded-append :
    (rows : List EventRow) (row : EventRow) (digest : String)
    → row.idempotency_digest ≡ some digest
    → recorded rows (some digest) ≡ none
    → recorded (rows ++ row ∷ []) (some digest) ≡ some row
recorded-append [] row digest h r = rw h (rw (eq_refl digest) refl)
recorded-append (q ∷ rows) row digest h r =
    elim (Bool-cases (option_str_eq q.idempotency_digest (some digest))) [
      | inl e ↦ cc (rw e at r)
      | inr e ↦ rw e (recorded-append rows row digest h (rw e at r))
    ]

module _ (rt : Runtime) where
  -- The event as it is read back from its row.
  abbrev pub reread : GovernanceEvent → GovernanceEvent
  reread event = record event { payload = rt.decode (rt.encode event.payload) }

  key_digest-some :
      (key : String) {k : Option String}
      → key_digest rt (some key) ≡ ok k
      → (d : String) × (k ≡ some d)
  unfolding key_digest
  key_digest-some key h =
      let (d, _, e) = >>=-eq-ok (idempotency_digest rt key) _ h in (d, sym (ok-injective e))

  -- After a successful append under a key, the lane has recorded the event under its digest.
  Appended-recorded :
      (s : Store) (lane : String) (kind : EventKind) (payload : Payload) (now : ℕ) (key : String)
      {event : GovernanceEvent} {t : Store}
      → Appended rt s lane kind payload now (some key) event t
      → (k : Option String) × (row : EventRow) × (key_digest rt (some key) ≡ ok k)
        × (recorded (t.events lane) k ≡ some row)
        × ((row_to_event rt row ≡ event) ⊎ (row_to_event rt row ≡ reread event))
        × (row.event.payload_digest ≡ event.payload_digest)
  Appended-recorded s lane kind payload now key (replayed k row d r p e q) = (
    k,
    row,
    d,
    ap (λ u. recorded (u.events lane) k) q ∙ r,
    inl (sym e),
    ap (λ v. v.payload_digest) (sym e),
  )
  Appended-recorded s lane kind payload now key (added k d r f e q) =
      let (digest, is) = key_digest-some key d in
      (
        k,
        next_row rt s lane kind payload now k,
        d,
        ap (λ u. recorded (u.events lane) k) q
            ∙ rw (eq_refl lane) (
                rw is (
                  recorded-append (s.events lane) _ digest refl
                    (subst (λ x. recorded (s.events lane) x ≡ none) is r))),
        inr (ap reread (sym e)),
        ap (λ v. v.payload_digest) (sym e),
      )

  append_again :
      (t : Store) (lane : String) (kind : EventKind) (payload : Payload) (now : ℕ)
      (key : Option String) (k : Option String) (row : EventRow)
      → ltb max_payload_bytes (rt.utf8_size (rt.encode payload)) ≡ false
      → key_digest rt key ≡ ok k
      → recorded (t.events lane) k ≡ some row
      → append_event rt t lane kind payload now key ≡ (
          if str_eq row.event.payload_digest (canonical_digest rt payload)
          then ok (row_to_event rt row, t)
          else err store_error)
  unfolding append_event replay_or_append
  append_again t lane kind payload now key k row size d r = rw (size, d, r) (ground arith)

  append_event_lem :
      (s : Store) (lane : String) (kind : EventKind) (payload : Payload) (now : ℕ)
      (key : Option String)
      → append_locked rt s lane kind payload now key ≡ append_event rt s lane kind payload now key
  unfolding append_event
  append_event_lem s lane kind payload now key = refl

  -- After a successful append under a key, an append to the lane under that key, of any kind and at
  -- any instant, returns the recorded event, or that event with the payload as its JSON text is read
  -- back, and changes nothing if the digest of its payload is the one recorded, and is refused
  -- otherwise; its payload is taken to be within the size ceiling.
  pub append_event-key :
      (s : Store) (lane : String) (kind other : EventKind) (payload again : Payload) (now later : ℕ)
      (key : String) {event : GovernanceEvent} {t : Store}
      → append_event rt s lane kind payload now (some key) ≡ ok (event, t)
      → rt.utf8_size (rt.encode again) ≤ max_payload_bytes
      → (read : GovernanceEvent) × ((read ≡ event) ⊎ (read ≡ reread event))
        × (append_event rt t lane other again later (some key) ≡ (
            if str_eq event.payload_digest (canonical_digest rt again)
            then ok (read, t)
            else err store_error))
  append_event-key s lane kind other payload again now later key {event} {t} h size =
      let (k, row, d, r, e, p) = Appended-recorded s lane kind payload now key (
        append_locked-Appended rt s lane kind payload now (some key)
          (append_event_lem s lane kind payload now (some key) ∙ h)) in
      (
        row_to_event rt row,
        e,
        append_again t lane other again later (some key) k row (ground arith) d r
            ∙ ap
                (λ p.
                  if str_eq p (canonical_digest rt again)
                  then ok (row_to_event rt row, t)
                  else err store_error)
                p,
      )
