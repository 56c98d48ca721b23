-- ===== src/Service/Admission/Counters.antt =====
-- The concurrency counters of service/admission.py: what a call leaves of them, and that no
-- sequence of calls breaks their bounds.
use signalattice.Prelude.{
  arith, if◌then◌else◌, ok, true, ◌&&◌, ◌+◌, ◌<◌, ◌≡◌, ◌≤◌, Bool-cases, false,
}
use signalattice.Service.Admission.{
  AdmissionController, AdmissionDecision, AdmissionLane, consume, decision, is_data, take_token,
  try_acquire, data_lane, operations_lane, release,
}
use signalattice.Service.Admission.Arithmetic.{Floats}

module _ (F : Floats) where
  -- The counters are within the limits.
  pub record IsBounded (c : AdmissionController F) : Type 0 where
    pub data_within_total : c.active_data ≤ c.active_total
    pub total_within_limit : c.active_total ≤ c.limits.global_concurrency
    pub data_within_limit : c.active_data ≤ c.limits.data_concurrency

  -- What `try_acquire` does to the counters: nothing, or one more request of its lane.
  pub record Acquired (c : AdmissionController F) (lane : AdmissionLane) (a : AdmissionDecision)
      (d : AdmissionController F) : Type 0 where
    pub limits_kept : d.limits ≡ c.limits
    pub accepting_kept : d.accepting ≡ c.accepting
    pub lane_answered : a.lane ≡ lane
    pub accepted_only : a.accepted ≡ true → c.accepting ≡ true
    pub has_room :
        a.accepted ≡ true
        → (c.active_total < c.limits.global_concurrency)
          × (is_data F lane ≡ true → c.active_data < c.limits.data_concurrency)
    pub total_counted : d.active_total ≡ (if a.accepted then c.active_total + 1 else c.active_total)
    pub data_counted :
        d.active_data ≡ (if a.accepted && is_data F lane then c.active_data + 1 else c.active_data)

  pub try_acquire-Acquired :
      (c : AdmissionController F) (lane : AdmissionLane) (now : F.Float) {a : AdmissionDecision}
      {d : AdmissionController F}
      → try_acquire F c lane now ≡ ok (a, d)
      → Acquired c lane a d
  unfolding try_acquire take_token consume decision
  try_acquire-Acquired c lane now h = ground arith

  pub Acquired-IsBounded :
      (c : AdmissionController F) (lane : AdmissionLane) {a : AdmissionDecision}
      {d : AdmissionController F}
      → Acquired c lane a d
      → IsBounded c
      → IsBounded d
  Acquired-IsBounded c data_lane {a} {d} k b = ground (
    arith,
    Bool-cases a.accepted,
    k.limits_kept,
    k.has_room,
    k.total_counted,
    k.data_counted,
    b.data_within_total,
    b.total_within_limit,
    b.data_within_limit,
  )
  Acquired-IsBounded c operations_lane {a} {d} k b = ground (
    arith,
    Bool-cases a.accepted,
    k.limits_kept,
    k.has_room,
    k.total_counted,
    k.data_counted,
    b.data_within_total,
    b.total_within_limit,
    b.data_within_limit,
  )

  -- What a `release` that returns does to the counters.
  pub record Released (c : AdmissionController F) (lane : AdmissionLane) (d : AdmissionController F)
      : Type 0 where
    pub limits_kept : d.limits ≡ c.limits
    pub accepting_kept : d.accepting ≡ c.accepting
    pub total_counted : c.active_total ≡ d.active_total + 1
    pub data_counted : c.active_data ≡ (if is_data F lane then d.active_data + 1 else d.active_data)
    pub operations_left : is_data F lane ≡ false → c.active_data < c.active_total

  pub release-Released :
      (c : AdmissionController F) (lane : AdmissionLane) {d : AdmissionController F}
      → release F c lane ≡ ok d
      → Released c lane d
  unfolding release
  release-Released c data_lane h = ground arith
  release-Released c operations_lane h = ground arith

  pub Released-IsBounded :
      (c : AdmissionController F) (lane : AdmissionLane) {d : AdmissionController F}
      → Released c lane d
      → IsBounded c
      → IsBounded d
  Released-IsBounded c data_lane k b = ground (
    arith, k.limits_kept, k.total_counted, k.data_counted, b.data_within_total,
    b.total_within_limit, b.data_within_limit,
  )
  Released-IsBounded c operations_lane k b = ground (
    arith, k.limits_kept, k.total_counted, k.data_counted, k.operations_left, b.data_within_total,
    b.total_within_limit, b.data_within_limit,
  )
