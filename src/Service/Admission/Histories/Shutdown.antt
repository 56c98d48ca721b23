-- ===== src/Service/Admission/Histories/Shutdown.antt =====
-- The shutdown of the controller of service/admission.py.
use signalattice.Prelude.{
  List, Result, [], arith, err, false, ok, refl, some, subst, sym, ℕ, ◌∷◌, ◌≡◌, ◌≤◌,
}
use signalattice.Service.Admission.{
  AdmissionController, AdmissionError, AdmissionLane, begin_shutdown, decision, release,
  shutting_down, try_acquire,
}
use signalattice.Service.Admission.Arithmetic.{Floats}
use signalattice.Service.Admission.Counters.{Released, release-Released}
use signalattice.Service.Admission.Histories.{
  Call, acquiring, after_acquire, after_release, releasing, run, shutting, step,
}

module _ (F : Floats) where
  -- The controller accepts nothing, and no more requests are active than there were.
  record Drains (most : ℕ) (c : AdmissionController F) : Type 0 where
    pub closed : c.accepting ≡ false
    pub drained : c.active_total ≤ most

  refuses :
      (c : AdmissionController F) (lane : AdmissionLane) (now : F.Float)
      → c.accepting ≡ false
      → try_acquire F c lane now
        ≡ ok (record { accepted = false; lane = lane; rejection = some shutting_down }, c)
  unfolding try_acquire decision
  refuses c lane now h = rw h refl

  release-Drains :
      (most : ℕ) (c : AdmissionController F) (lane : AdmissionLane)
      (r : Result AdmissionError (AdmissionController F))
      → ((d : AdmissionController F) → r ≡ ok d → Released F c lane d)
      → Drains most c
      → Drains most (after_release F c r)
  release-Drains most c lane (ok d) k h =
      let q = k d refl in ground (arith, q.accepting_kept, q.total_counted, h.closed, h.drained)
  release-Drains most c lane (err e) k h = h

  run-Drains :
      (most : ℕ) (c : AdmissionController F) (calls : List (Call F))
      → Drains most c
      → Drains most (run F c calls)
  unfolding run step begin_shutdown
  run-Drains most c [] h = h
  run-Drains most c (acquiring lane now ∷ calls) h =
      run-Drains most (after_acquire F c (try_acquire F c lane now)) calls
        (subst (λ r. Drains most (after_acquire F c r)) (sym (refuses c lane now h.closed)) h)
  run-Drains most c (releasing lane ∷ calls) h =
      run-Drains most _ calls
        (release-Drains most c lane (release F c lane) (λ d e. release-Released F c lane e) h)
  run-Drains most c (shutting ∷ calls) h =
      run-Drains most (record c { accepting = false }) calls
        (record { closed = refl; drained = h.drained })

  -- After `begin_shutdown` and any further calls, every attempt of either lane, at any instant, is
  -- answered with `shutting_down` and takes neither a token nor a place, and no more requests are
  -- active than when the shutdown began.
  shutdown_refuses :
      (c : AdmissionController F) (calls : List (Call F)) (lane : AdmissionLane) (now : F.Float)
      → (try_acquire F (run F (begin_shutdown F c) calls) lane now
          ≡ ok (
            record { accepted = false; lane = lane; rejection = some shutting_down },
            run F (begin_shutdown F c) calls,
          ))
        × ((run F (begin_shutdown F c) calls).active_total ≤ c.active_total)
  unfolding begin_shutdown
  shutdown_refuses c calls lane now =
      let h =
        run-Drains c.active_total (record c { accepting = false }) calls
          (record { closed = refl; drained = omega arith }) in
      (refuses (run F (record c { accepting = false }) calls) lane now h.closed, h.drained)
