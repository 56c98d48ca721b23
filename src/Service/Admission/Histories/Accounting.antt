-- ===== src/Service/Admission/Histories/Accounting.antt =====
-- The accounting of service/admission.py: the counters are the requests that were accepted and not
-- yet released, so that a release of a request that is held never underflows.
use signalattice.Prelude.{
  Bool-cases, List, Result, [], arith, err, false, if◌then◌else◌, is_ok, ltb, ok, refl, ℕ, ◌+◌, ◌-◌,
  ◌∷◌, ◌≡◌,
}
use signalattice.Service.Admission.{
  AdmissionController, AdmissionDecision, AdmissionError, AdmissionLane, AdmissionLimits,
  begin_shutdown, data_lane, new_controller, operations_lane, release, try_acquire,
}
use signalattice.Service.Admission.Arithmetic.{Floats}
use signalattice.Service.Admission.Counters.{
  Acquired, Released, release-Released, try_acquire-Acquired,
}
use signalattice.Service.Admission.Histories.{
  Call, acquiring, after_acquire, after_release, releasing, run, shutting, step,
}

-- The requests of each lane that the callers hold.
pub record Ledger : Type 0 where
  pub data_held : ℕ
  pub operations_held : ℕ

abbrev pub nothing_held : Ledger
nothing_held = record { data_held = 0; operations_held = 0 }

abbrev pub held : Ledger → AdmissionLane → ℕ
held l data_lane = l.data_held
held l operations_lane = l.operations_held

abbrev pub one_more : Ledger → AdmissionLane → Ledger
one_more l data_lane = record l { data_held = l.data_held + 1 }
one_more l operations_lane = record l { operations_held = l.operations_held + 1 }

abbrev pub one_less : Ledger → AdmissionLane → Ledger
one_less l data_lane = record l { data_held = l.data_held - 1 }
one_less l operations_lane = record l { operations_held = l.operations_held - 1 }

module _ (F : Floats) where
  -- The callers take note of what they were answered.
  abbrev pub note_acquire :
      Ledger → Result AdmissionError (AdmissionDecision × AdmissionController F) → Ledger
  note_acquire l (ok r) = if r.0.accepted then one_more l r.0.lane else l
  note_acquire l (err e) = l

  abbrev pub note_release :
      Ledger → AdmissionLane → Result AdmissionError (AdmissionController F) → Ledger
  note_release l lane (ok d) = one_less l lane
  note_release l lane (err e) = l

  unfoldable pub note : AdmissionController F → Ledger → Call F → Ledger
  note c l (acquiring lane now) = note_acquire l (try_acquire F c lane now)
  note c l (releasing lane) = note_release l lane (release F c lane)
  note c l shutting = l

  -- What the callers hold after a sequence of calls.
  unfoldable pub notes : AdmissionController F → Ledger → List (Call F) → Ledger
  unfolding note step
  notes c l [] = l
  notes c l (call ∷ calls) = notes (step F c call) (note c l call) calls

  -- The counters are what the ledger says.
  pub record IsAccounted (c : AdmissionController F) (l : Ledger) : Type 0 where
    pub data_accounted : c.active_data ≡ l.data_held
    pub total_accounted : c.active_total ≡ l.data_held + l.operations_held

  acquire-IsAccounted :
      (c : AdmissionController F) (l : Ledger) (lane : AdmissionLane)
      (r : Result AdmissionError (AdmissionDecision × AdmissionController F))
      → ((a : AdmissionDecision) (d : AdmissionController F)
          → r ≡ ok (a, d)
          → Acquired F c lane a d)
      → IsAccounted c l
      → IsAccounted (after_acquire F c r) (note_acquire l r)
  acquire-IsAccounted c l lane (err e) k b = b
  acquire-IsAccounted c l lane (ok (a, d)) k b = accepted-IsAccounted (k a d refl)
    where
      accepted-IsAccounted : Acquired F c lane a d → IsAccounted d (note_acquire l (ok (a, d)))
      accepted-IsAccounted q = ground (
        arith,
        Bool-cases a.accepted,
        q.lane_answered,
        q.total_counted,
        q.data_counted,
        b.data_accounted,
        b.total_accounted,
      )

  release-IsAccounted :
      (c : AdmissionController F) (l : Ledger) (lane : AdmissionLane)
      (r : Result AdmissionError (AdmissionController F))
      → ((d : AdmissionController F) → r ≡ ok d → Released F c lane d)
      → IsAccounted c l
      → IsAccounted (after_release F c r) (note_release l lane r)
  release-IsAccounted c l lane (err e) k b = b
  release-IsAccounted c l data_lane (ok d) k b =
      let q = k d refl in
      ground (arith, q.total_counted, q.data_counted, b.data_accounted, b.total_accounted)
  release-IsAccounted c l operations_lane (ok d) k b =
      let q = k d refl in
      ground (
        arith, q.total_counted, q.data_counted, q.operations_left, b.data_accounted,
        b.total_accounted,
      )

  run-IsAccounted :
      (c : AdmissionController F) (l : Ledger) (calls : List (Call F))
      → IsAccounted c l
      → IsAccounted (run F c calls) (notes c l calls)
  unfolding run step notes note begin_shutdown
  run-IsAccounted c l [] b = b
  run-IsAccounted c l (acquiring lane now ∷ calls) b = run-IsAccounted _ _ calls (
      acquire-IsAccounted c l lane (try_acquire F c lane now)
        (λ a d e. try_acquire-Acquired F c lane now e) b)
  run-IsAccounted c l (releasing lane ∷ calls) b =
      run-IsAccounted _ _ calls
        (release-IsAccounted c l lane (release F c lane) (λ d e. release-Released F c lane e) b)
  run-IsAccounted c l (shutting ∷ calls) b =
      run-IsAccounted (record c { accepting = false }) l calls
        (record { data_accounted = b.data_accounted; total_accounted = b.total_accounted })

  release-held :
      (c : AdmissionController F) (l : Ledger) (lane : AdmissionLane)
      → IsAccounted c l
      → is_ok (release F c lane) ≡ ltb 0 (held l lane)
  unfolding release
  release-held c l data_lane b = ground (arith, b.data_accounted, b.total_accounted)
  release-held c l operations_lane b = ground (arith, b.data_accounted, b.total_accounted)

  new_controller-IsAccounted :
      (limits : AdmissionLimits F) (initial : F.Float) {c : AdmissionController F}
      → new_controller F limits initial ≡ ok c
      → IsAccounted c nothing_held
  unfolding new_controller
  new_controller-IsAccounted limits initial h = ground arith

  -- On a controller that was built, after any calls, the counters are the numbers of accepted
  -- requests that were not yet released, and a release returns exactly if a request of its lane is
  -- held: the underflow errors are never raised for a caller that releases what it was given.
  pub release-run :
      (limits : AdmissionLimits F) (initial : F.Float) (calls : List (Call F))
      (lane : AdmissionLane) {c : AdmissionController F}
      → new_controller F limits initial ≡ ok c
      → (is_ok (release F (run F c calls) lane) ≡ ltb 0 (held (notes c nothing_held calls) lane))
        × ((run F c calls).active_data ≡ (notes c nothing_held calls).data_held)
        × ((run F c calls).active_total
            ≡ (notes c nothing_held calls).data_held + (notes c nothing_held calls).operations_held)
  release-run limits initial calls lane {c} h =
      let b = run-IsAccounted c nothing_held calls (new_controller-IsAccounted limits initial h) in
      (
        release-held (run F c calls) (notes c nothing_held calls) lane b,
        b.data_accounted,
        b.total_accounted,
      )
