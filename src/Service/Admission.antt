-- ===== src/Service/Admission.antt =====
-- src/quant_platform/service/admission.py: two token buckets and two concurrency counters. Every
-- method runs under one lock, so a call is one step, with the instant that the clock returns as an
-- argument. The `type` tests are the types; an integer below 0 is refused like 0.
pub mod Arithmetic
pub mod Counters
pub mod Histories
use signalattice.Prelude.{
  Bool, Option, Result, bool_eq, false, if◌then◌else◌, is_some, leb, ltb, none, not, ok, refuse,
  require, some, true, ℕ, ◌&&◌, ◌+◌, ◌-◌, ◌>>=◌, ◌>>◌, ◌||◌, is_within,
}
use signalattice.Service.Admission.Arithmetic.{Floats}

pub data AdmissionError : Type 0 where
  value_error runtime_error : AdmissionError

pub data AdmissionLane : Type 0 where
  data_lane operations_lane : AdmissionLane

pub data AdmissionRejection : Type 0 where
  rate_limited data_saturated global_saturated shutting_down : AdmissionRejection

pub record AdmissionDecision : Type 0 where
  pub accepted : Bool
  pub lane : AdmissionLane
  pub rejection : Option AdmissionRejection

-- `AdmissionDecision.__post_init__`.
unfoldable pub decision :
    Bool → AdmissionLane → Option AdmissionRejection → Result AdmissionError AdmissionDecision
decision accepted lane rejection = do
  refuse (bool_eq accepted (is_some rejection)) value_error
  ok (record { accepted = accepted; lane = lane; rejection = rejection })

pub record AdmissionSnapshot : Type 0 where
  pub accepting : Bool
  pub active_total : ℕ
  pub active_data : ℕ
  pub active_operations : ℕ

module _ (F : Floats) where
  pub record AdmissionLimits : Type 0 where
    pub global_concurrency : ℕ
    pub data_concurrency : ℕ
    pub api_rate_per_second : F.Float
    pub api_burst : ℕ
    pub operations_rate_per_second : F.Float
    pub operations_burst : ℕ

  abbrev pub is_rate : F.Float → Bool
  is_rate rate =
      F.is_finite rate && F.is_at_most F.least_rate rate && F.is_at_most rate F.greatest_rate

  -- `AdmissionLimits.__post_init__`.
  unfoldable pub check_limits : AdmissionLimits → Result AdmissionError AdmissionLimits
  check_limits limits = do
    require (is_within 1 1024 limits.global_concurrency) value_error
    require (is_within 1 1024 limits.data_concurrency) value_error
    require (is_within 1 10000 limits.api_burst) value_error
    require (is_within 1 1000 limits.operations_burst) value_error
    refuse (ltb limits.global_concurrency limits.data_concurrency) value_error
    require (is_rate limits.api_rate_per_second) value_error
    require (is_rate limits.operations_rate_per_second) value_error
    ok limits

  pub record TokenBucket : Type 0 where
    pub rate : F.Float
    pub capacity : F.Float
    pub tokens : F.Float
    pub updated_at : F.Float

  -- `_TokenBucket.consume`.
  unfoldable pub consume : TokenBucket → F.Float → Result AdmissionError (Bool × TokenBucket)
  consume bucket now = do
    refuse (not (F.is_finite now) || F.is_less now (F.from_nat 0)) runtime_error
    refuse (F.is_less now bucket.updated_at) runtime_error
    let elapsed = F.minus now bucket.updated_at
    let tokens = F.minimum bucket.capacity (F.plus bucket.tokens (F.times elapsed bucket.rate))
    if F.is_less tokens (F.from_nat 1)
        then ok (false, record bucket { tokens = tokens; updated_at = now })
        else ok (true, record bucket { tokens = F.minus tokens (F.from_nat 1); updated_at = now })

  pub record AdmissionController : Type 0 where
    pub limits : AdmissionLimits
    pub data_bucket : TokenBucket
    pub operations_bucket : TokenBucket
    pub accepting : Bool
    pub active_total : ℕ
    pub active_data : ℕ

  abbrev pub full_bucket : F.Float → ℕ → F.Float → TokenBucket
  full_bucket rate burst initial = record {
    rate = rate;
    capacity = F.from_nat burst;
    tokens = F.from_nat burst;
    updated_at = initial;
  }

  -- `AdmissionController.__init__`, with limits that were checked and the clock's first instant.
  unfoldable pub new_controller :
      AdmissionLimits → F.Float → Result AdmissionError AdmissionController
  new_controller limits initial = do
    refuse (not (F.is_finite initial) || F.is_less initial (F.from_nat 0)) value_error
    ok (record {
      limits = limits;
      data_bucket = full_bucket limits.api_rate_per_second limits.api_burst initial;
      operations_bucket =
          full_bucket limits.operations_rate_per_second limits.operations_burst initial;
      accepting = true;
      active_total = 0;
      active_data = 0;
    })

  -- `self._buckets[lane]`.
  abbrev pub bucket_of : AdmissionController → AdmissionLane → TokenBucket
  bucket_of c data_lane = c.data_bucket
  bucket_of c operations_lane = c.operations_bucket

  abbrev pub with_bucket : AdmissionController → AdmissionLane → TokenBucket → AdmissionController
  with_bucket c data_lane bucket = record c { data_bucket = bucket }
  with_bucket c operations_lane bucket = record c { operations_bucket = bucket }

  abbrev pub is_data : AdmissionLane → Bool
  is_data data_lane = true
  is_data operations_lane = false

  abbrev pub count_in : AdmissionController → AdmissionLane → AdmissionController
  count_in c data_lane = record c {
    active_total = c.active_total + 1;
    active_data = c.active_data + 1;
  }
  count_in c operations_lane = record c { active_total = c.active_total + 1 }

  abbrev pub rejected :
      AdmissionController
      → AdmissionLane
      → AdmissionRejection
      → Result AdmissionError (AdmissionDecision × AdmissionController)
  rejected c lane reason = do answer ← decision false lane (some reason); ok (answer, c)

  -- The part of `try_acquire` behind the counters' tests.
  unfoldable pub take_token :
      AdmissionController
      → AdmissionLane
      → F.Float
      → Result AdmissionError (AdmissionDecision × AdmissionController)
  take_token c lane now = do
    (has_token, bucket) ← consume (bucket_of c lane) now
    let d = with_bucket c lane bucket
    if has_token
        then (do answer ← decision true lane none; ok (answer, count_in d lane))
        else rejected d lane rate_limited

  unfoldable pub try_acquire :
      AdmissionController
      → AdmissionLane
      → F.Float
      → Result AdmissionError (AdmissionDecision × AdmissionController)
  try_acquire c lane now =
      if not c.accepting
      then rejected c lane shutting_down
      else if leb c.limits.global_concurrency c.active_total
      then rejected c lane global_saturated
      else if is_data lane && leb c.limits.data_concurrency c.active_data
      then rejected c lane data_saturated
      else take_token c lane now

  -- `release`: each branch tests the counter that it uses.
  unfoldable pub release :
      AdmissionController → AdmissionLane → Result AdmissionError AdmissionController
  release c data_lane = do
    refuse (leb c.active_total 0) runtime_error
    refuse (leb c.active_data 0) runtime_error
    ok (record c { active_total = c.active_total - 1; active_data = c.active_data - 1 })
  release c operations_lane = do
    refuse (leb c.active_total 0) runtime_error
    refuse (leb c.active_total c.active_data) runtime_error
    ok (record c { active_total = c.active_total - 1 })

  unfoldable pub begin_shutdown : AdmissionController → AdmissionController
  begin_shutdown c = record c { accepting = false }

  unfoldable pub snapshot : AdmissionController → Result AdmissionError AdmissionSnapshot
  snapshot c = do
    refuse (ltb c.active_total c.active_data) runtime_error
    ok (record {
      accepting = c.accepting;
      active_total = c.active_total;
      active_data = c.active_data;
      active_operations = c.active_total - c.active_data;
    })
