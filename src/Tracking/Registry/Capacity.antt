-- ===== src/Tracking/Registry/Capacity.antt =====
-- The events of a job in tracking/registry.py: how many its state and its attempts account for, and
-- the room that they leave.
use signalattice.Prelude.{
  Option-cases, String, [], arith, false, if◌then◌else◌, is_some, length, length-append, none, ok,
  refl, subst, sym, true, ℕ, ◌*◌, ◌++◌, ◌+◌, ◌<◌, ◌∙◌, ◌∷◌, ◌≡◌, ◌≤◌,
}
use signalattice.Tracking.Registry.{
  Job, LifecycleEvent, RegistryLimits, is_queued, is_running, queued, running,
}
use signalattice.Tracking.Registry.Rows.{add_event, claim_job, retry_job}

-- One if the cancellation of the job was requested.
abbrev pub requests : Job → ℕ
requests job = if is_some job.cancel_requested_at then 1 else 0

module _ (limits : RegistryLimits) where
  pub record IsSound (job : Job) : Type 0 where
    pub attempts_within : job.attempt_count ≤ job.max_attempts
    pub allowed : job.max_attempts ≤ limits.max_attempts
    pub queued_counted :
        is_queued job.state ≡ true
        → (job.attempt_count < job.max_attempts)
          × (job.cancel_requested_at ≡ none)
          × (length job.events ≡ 2 * job.attempt_count + 1)
    pub running_counted :
        is_running job.state ≡ true
        → (1 ≤ job.attempt_count) × (length job.events ≡ 2 * job.attempt_count + requests job)
    pub all_counted : length job.events ≤ 2 * job.max_attempts + 2

  -- What `_event` returns, when it does.
  pub add_event-eq :
      (job : Job) (event : LifecycleEvent) {after : Job}
      → add_event limits job event ≡ ok after
      → after ≡ record job { events = job.events ++ event ∷ [] }
  unfolding add_event
  add_event-eq job event h = ground arith

  -- Sound after one more event of a terminal row.
  pub terminal-IsSound :
      (job : Job) (event : LifecycleEvent) {after : Job}
      → add_event limits job event ≡ ok after
      → is_queued job.state ≡ false
      → is_running job.state ≡ false
      → job.attempt_count ≤ job.max_attempts
      → job.max_attempts ≤ limits.max_attempts
      → length job.events ≤ 2 * job.max_attempts + 1
      → IsSound after
  terminal-IsSound job event {after} h q r a m c =
      subst IsSound (sym (add_event-eq job event h)) (record {
        attempts_within = a;
        allowed = m;
        queued_counted = λ s. cc (q, s);
        running_counted = λ s. cc (r, s);
        all_counted = omega (arith, length-append job.events (event ∷ []), c);
      })

  pub queued-IsSound :
      (job : Job) (event : LifecycleEvent) {after : Job}
      → add_event limits job event ≡ ok after
      → job.state ≡ queued
      → job.cancel_requested_at ≡ none
      → job.attempt_count < job.max_attempts
      → job.max_attempts ≤ limits.max_attempts
      → length job.events ≡ 2 * job.attempt_count
      → IsSound after
  queued-IsSound job event {after} h q n a m c =
      let more : length (job.events ++ event ∷ []) ≡ 2 * job.attempt_count + 1 =
        omega (arith, length-append job.events (event ∷ []), c) in
      subst IsSound (sym (add_event-eq job event h)) (record {
        attempts_within = omega (arith, a);
        allowed = m;
        queued_counted = λ s. (a, n, more);
        running_counted = λ s. ground (arith, q);
        all_counted = omega (arith, more, a);
      })

  pub running-IsSound :
      (job : Job) (event : LifecycleEvent) {after : Job}
      → add_event limits job event ≡ ok after
      → job.state ≡ running
      → 1 ≤ job.attempt_count
      → job.attempt_count ≤ job.max_attempts
      → job.max_attempts ≤ limits.max_attempts
      → length job.events + 1 ≡ 2 * job.attempt_count + requests job
      → IsSound after
  running-IsSound job event {after} h r p a m c =
      let more : length (job.events ++ event ∷ []) ≡ 2 * job.attempt_count + requests job =
        omega (arith, length-append job.events (event ∷ []), c) in
      subst IsSound (sym (add_event-eq job event h)) (record {
        attempts_within = a;
        allowed = m;
        queued_counted = λ s. ground (arith, r);
        running_counted = λ s. (p, more);
        all_counted = ground (arith, more, a, Option-cases job.cancel_requested_at);
      })

  pub claim_job-IsSound :
      (job : Job) (now expires : ℕ) (worker token : String) {after : Job}
      → claim_job limits job now expires worker token ≡ ok after
      → is_queued job.state ≡ true
      → IsSound job
      → IsSound after
  unfolding claim_job
  claim_job-IsSound job now expires worker token h q s =
      let (less, n, c) = s.queued_counted q in
      running-IsSound _ _ h refl (omega arith) (omega (arith, less)) s.allowed
        (rw n (omega (arith, c)))

  pub retry_job-IsSound :
      (job : Job) (now : ℕ) (actor : String) {after : Job}
      → retry_job limits job now actor ≡ ok after
      → is_running job.state ≡ true
      → job.cancel_requested_at ≡ none
      → job.attempt_count < job.max_attempts
      → IsSound job
      → IsSound after
  unfolding retry_job
  retry_job-IsSound job now actor h r n less s =
      let (p, c) = s.running_counted r in
      queued-IsSound _ _ h refl n less s.allowed (c ∙ rw n (omega arith))
