-- ===== src/Service/Examples.antt =====
-- A small controller on which the theorems about the admission control are applied.
use signalattice.Prelude.{
  List, [], arith, if◌then◌else◌, is_ok, leb, ltb, ok, refl, true, ℕ, ◌*◌, ◌+◌, ◌-◌, ◌<◌, ◌∷◌, ◌≡◌,
  ◌≤◌,
}
use signalattice.Service.Admission.{
  AdmissionController, AdmissionLimits, AdmissionSnapshot, consume, data_lane, decision,
  full_bucket, new_controller, operations_lane, release, snapshot, take_token, try_acquire,
}
use signalattice.Service.Admission.Arithmetic.{Floats}
use signalattice.Service.Admission.Histories.{
  Call, acquiring, operations_reserved, releasing, run, snapshot-run, step,
}
use signalattice.Service.Admission.Histories.Accounting.{held, notes, nothing_held, release-run}

-- Whole seconds.
abbrev seconds : Floats
seconds = record {
  Float = ℕ;
  from_nat = λ n. n;
  is_finite = λ n. true;
  is_less = ltb;
  is_at_most = leb;
  plus = λ m n. m + n;
  minus = λ m n. m - n;
  times = λ m n. m * n;
  minimum = λ m n. if leb m n then m else n;
  least_rate = 1;
  greatest_rate = 10000;
}

abbrev small_limits : AdmissionLimits seconds
small_limits = record {
  global_concurrency = 3;
  data_concurrency = 2;
  api_rate_per_second = 1;
  api_burst = 2;
  operations_rate_per_second = 1;
  operations_burst = 1;
}

abbrev small : AdmissionController seconds
small = record {
  limits = small_limits;
  data_bucket = full_bucket seconds 1 2 7;
  operations_bucket = full_bucket seconds 1 1 7;
  accepting = true;
  active_total = 0;
  active_data = 0;
}

small_built : new_controller seconds small_limits 7 ≡ ok small
unfolding new_controller
small_built = refl

-- Two data requests are accepted, a third finds no room, and one is released.
abbrev busy : List (Call seconds)
busy =
    acquiring data_lane 7
    ∷ acquiring data_lane 7
    ∷ acquiring data_lane 8
    ∷ releasing data_lane
    ∷ releasing operations_lane
    ∷ []

busy_counts :
    ((run seconds small busy).accepting ≡ true)
    × ((run seconds small busy).active_total ≡ 1)
    × ((run seconds small busy).active_data ≡ 1)
unfolding run step try_acquire take_token consume decision release
busy_counts = (refl, refl, refl)

snapshot-run_example :
    (s : AdmissionSnapshot) × (snapshot seconds (run seconds small busy) ≡ ok s)
    × (s.accepting ≡ (run seconds small busy).accepting)
    × (s.active_total ≡ (run seconds small busy).active_total)
    × (s.active_data ≡ (run seconds small busy).active_data)
    × (s.active_data + s.active_operations ≡ s.active_total)
    × (s.active_total ≤ 3)
    × (s.active_data ≤ 2)
snapshot-run_example = snapshot-run seconds small_limits 7 busy small_built

busy_room : (run seconds small busy).active_total - (run seconds small busy).active_data < 3 - 2
busy_room = rw (busy_counts.1, busy_counts.2) (omega arith)

operations_reserved_example :
    try_acquire seconds (run seconds small busy) operations_lane 9
    ≡ take_token seconds (run seconds small busy) operations_lane 9
operations_reserved_example =
    operations_reserved seconds small_limits 7 9 busy small_built busy_counts.0 busy_room

release-run_example :
    (is_ok (release seconds (run seconds small busy) data_lane)
      ≡ ltb 0 (held (notes seconds small nothing_held busy) data_lane))
    × ((run seconds small busy).active_data ≡ (notes seconds small nothing_held busy).data_held)
    × ((run seconds small busy).active_total
        ≡ (notes seconds small nothing_held busy).data_held
          + (notes seconds small nothing_held busy).operations_held)
release-run_example = release-run seconds small_limits 7 busy data_lane small_built
