-- ===== src/Service/Admission/Histories.antt =====
-- Sequences of calls of the controller of service/admission.py by any threads: each call holds the
-- lock, and one that raises leaves the counters and the buckets as they were.
pub mod Accounting
pub mod Shutdown
use signalattice.Prelude.{
  List, Result, [], arith, err, ok, refl, subst, true, ◌+◌, ◌-◌, ◌<◌, ◌∙◌, ◌∷◌, ◌≡◌, ◌≤◌,
}
use signalattice.Service.Admission.{
  AdmissionController, AdmissionDecision, AdmissionError, AdmissionLane, AdmissionLimits,
  AdmissionSnapshot, begin_shutdown, new_controller, operations_lane, release, snapshot, take_token,
  try_acquire,
}
use signalattice.Service.Admission.Arithmetic.{Floats}
use signalattice.Service.Admission.Counters.{
  Acquired, Acquired-IsBounded, IsBounded, Released, Released-IsBounded, release-Released,
  try_acquire-Acquired,
}

-- A call: an admission attempt at an instant, a release, or the begin of the shutdown.
pub data Call (F : Floats) : Type 0 where
  acquiring : AdmissionLane → F.Float → Call F
  releasing : AdmissionLane → Call F
  shutting : Call F

module _ (F : Floats) where
  abbrev pub after_acquire :
      AdmissionController F
      → Result AdmissionError (AdmissionDecision × AdmissionController F)
      → AdmissionController F
  after_acquire c (ok r) = r.1
  after_acquire c (err e) = c

  abbrev pub after_release :
      AdmissionController F → Result AdmissionError (AdmissionController F) → AdmissionController F
  after_release c (ok d) = d
  after_release c (err e) = c

  -- The controller after a call.
  unfoldable pub step : AdmissionController F → Call F → AdmissionController F
  step c (acquiring lane now) = after_acquire c (try_acquire F c lane now)
  step c (releasing lane) = after_release c (release F c lane)
  step c shutting = begin_shutdown F c

  unfoldable pub run : AdmissionController F → List (Call F) → AdmissionController F
  run c [] = c
  run c (call ∷ calls) = run (step c call) calls

  after_acquire-IsBounded :
      (c : AdmissionController F) (lane : AdmissionLane)
      (r : Result AdmissionError (AdmissionDecision × AdmissionController F))
      → ((a : AdmissionDecision) (d : AdmissionController F)
          → r ≡ ok (a, d)
          → Acquired F c lane a d)
      → IsBounded F c
      → IsBounded F (after_acquire c r)
  after_acquire-IsBounded c lane (ok (a, d)) k b = Acquired-IsBounded F c lane (k a d refl) b
  after_acquire-IsBounded c lane (err e) k b = b

  after_release-IsBounded :
      (c : AdmissionController F) (lane : AdmissionLane)
      (r : Result AdmissionError (AdmissionController F))
      → ((d : AdmissionController F) → r ≡ ok d → Released F c lane d)
      → IsBounded F c
      → IsBounded F (after_release c r)
  after_release-IsBounded c lane (ok d) k b = Released-IsBounded F c lane (k d refl) b
  after_release-IsBounded c lane (err e) k b = b

  pub step-IsBounded :
      (c : AdmissionController F) (call : Call F) → IsBounded F c → IsBounded F (step c call)
  unfolding step begin_shutdown
  step-IsBounded c (acquiring lane now) b =
      after_acquire-IsBounded c lane (try_acquire F c lane now)
        (λ a d e. try_acquire-Acquired F c lane now e) b
  step-IsBounded c (releasing lane) b =
      after_release-IsBounded c lane (release F c lane) (λ d e. release-Released F c lane e) b
  step-IsBounded c shutting b = record {
    data_within_total = b.data_within_total;
    total_within_limit = b.total_within_limit;
    data_within_limit = b.data_within_limit;
  }

  pub run-IsBounded :
      (c : AdmissionController F) (calls : List (Call F))
      → IsBounded F c
      → IsBounded F (run c calls)
  unfolding run
  run-IsBounded c [] b = b
  run-IsBounded c (call ∷ calls) b = run-IsBounded (step c call) calls (step-IsBounded c call b)

  pub new_controller-IsBounded :
      (limits : AdmissionLimits F) (initial : F.Float) {c : AdmissionController F}
      → new_controller F limits initial ≡ ok c
      → IsBounded F c × (c.limits ≡ limits)
  unfolding new_controller
  new_controller-IsBounded limits initial h = ground arith

  Acquired-limits :
      (c : AdmissionController F) (lane : AdmissionLane)
      (r : Result AdmissionError (AdmissionDecision × AdmissionController F))
      → ((a : AdmissionDecision) (d : AdmissionController F)
          → r ≡ ok (a, d)
          → Acquired F c lane a d)
      → (after_acquire c r).limits ≡ c.limits
  Acquired-limits c lane (ok (a, d)) k = (k a d refl).limits_kept
  Acquired-limits c lane (err e) k = refl

  Released-limits :
      (c : AdmissionController F) (lane : AdmissionLane)
      (r : Result AdmissionError (AdmissionController F))
      → ((d : AdmissionController F) → r ≡ ok d → Released F c lane d)
      → (after_release c r).limits ≡ c.limits
  Released-limits c lane (ok d) k = (k d refl).limits_kept
  Released-limits c lane (err e) k = refl

  pub run-limits :
      (c : AdmissionController F) (calls : List (Call F)) → (run c calls).limits ≡ c.limits
  unfolding run step begin_shutdown
  run-limits c [] = refl
  run-limits c (acquiring lane now ∷ calls) =
      run-limits (step c (acquiring lane now)) calls
      ∙ Acquired-limits c lane (try_acquire F c lane now)
          (λ a d e. try_acquire-Acquired F c lane now e)
  run-limits c (releasing lane ∷ calls) =
      run-limits (step c (releasing lane)) calls
      ∙ Released-limits c lane (release F c lane) (λ d e. release-Released F c lane e)
  run-limits c (shutting ∷ calls) = run-limits (step c shutting) calls

  -- What a snapshot of a bounded controller reports.
  abbrev pub reported : AdmissionController F → AdmissionSnapshot
  reported c = record {
    accepting = c.accepting;
    active_total = c.active_total;
    active_data = c.active_data;
    active_operations = c.active_total - c.active_data;
  }

  snapshot-IsBounded : (c : AdmissionController F) → IsBounded F c → snapshot F c ≡ ok (reported c)
  unfolding snapshot
  snapshot-IsBounded c b = ground (arith, b.data_within_total)

  -- On a controller that was built, after any calls, releases that raise included, `snapshot` returns
  -- the counters as they are and whether requests are accepted: at most `global_concurrency` requests are active and at most `data_concurrency`
  -- of the data lane, and the two lanes' numbers add up to the total.
  pub snapshot-run :
      (limits : AdmissionLimits F) (initial : F.Float) (calls : List (Call F))
      {c : AdmissionController F}
      → new_controller F limits initial ≡ ok c
      → (s : AdmissionSnapshot) × (snapshot F (run c calls) ≡ ok s)
        × (s.accepting ≡ (run c calls).accepting)
        × (s.active_total ≡ (run c calls).active_total)
        × (s.active_data ≡ (run c calls).active_data)
        × (s.active_data + s.active_operations ≡ s.active_total)
        × (s.active_total ≤ limits.global_concurrency)
        × (s.active_data ≤ limits.data_concurrency)
  snapshot-run limits initial calls {c} h =
      let (b, l) = new_controller-IsBounded limits initial h in
      let k = run-IsBounded c calls b in
      let same : (run c calls).limits ≡ limits = run-limits c calls ∙ l in
      (
        reported (run c calls),
        snapshot-IsBounded (run c calls) k,
        refl,
        refl,
        refl,
        omega (arith, k.data_within_total),
        subst (λ m. (run c calls).active_total ≤ m.global_concurrency) same k.total_within_limit,
        subst (λ m. (run c calls).active_data ≤ m.data_concurrency) same k.data_within_limit,
      )

  -- While requests are accepted, an operations request finds room under the global limit as long as
  -- fewer operations requests are active than the limits reserve for them, whatever the data lane
  -- has taken: after any calls only the token bucket decides.
  pub operations_reserved :
      (limits : AdmissionLimits F) (initial now : F.Float) (calls : List (Call F))
      {c : AdmissionController F}
      → new_controller F limits initial ≡ ok c
      → (run c calls).accepting ≡ true
      → (run c calls).active_total - (run c calls).active_data
        < limits.global_concurrency - limits.data_concurrency
      → try_acquire F (run c calls) operations_lane now
        ≡ take_token F (run c calls) operations_lane now
  unfolding try_acquire
  operations_reserved limits initial now calls {c} h accepts room =
      let (b, l) = new_controller-IsBounded limits initial h in
      let k = run-IsBounded c calls b in
      let same : (run c calls).limits ≡ limits = run-limits c calls ∙ l in
      let data_limit =
        subst (λ m. (run c calls).active_data ≤ m.data_concurrency) same k.data_within_limit in
      rw (accepts, same) (ground (arith, data_limit, k.data_within_total, room))
