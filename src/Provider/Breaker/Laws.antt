-- ===== src/Provider/Breaker/Laws.antt =====
-- The breaker as a state machine: when it opens, how long it blocks, how it recovers.
use payflow_backend.Common.{
  ℕ, ◌+◌, ◌-◌, ◌^◌, ◌<◌, ◌≡◌, refl, sym, ap, ◌∙◌, ◌↔◌, inl, inr, Bool, true, false, List, [], ◌∷◌,
  if◌then◌else◌, ltb, length, arith, Bool-cases, true≢false,
}
use payflow_backend.Common.Int.{pos, leb_ℤ, ◌≤ℤ◌, ◌<ℤ◌}
use payflow_backend.Common.Int64.{add64, add64-pos}
use payflow_backend.Provider.Breaker.{
  CircuitState, CircuitBreakerConfig, CircuitBreaker, new_circuit_breaker, allow_in, allow,
  record_success, record_failure,
}

pub data Event : Type 0 where
  asked failed : (now : ℕ) → Event
  succeeded : Event

module _ (config : CircuitBreakerConfig) where
  unfoldable pub step : Event → CircuitBreaker → CircuitBreaker
  unfolding allow record_success record_failure
  step (Event.asked now) cb = (allow config now cb).1
  step (Event.failed now) cb = record_failure config now cb
  step Event.succeeded cb = record_success config cb

  unfoldable pub run : List Event → CircuitBreaker → CircuitBreaker
  unfolding step
  run [] cb = cb
  run (e ∷ es) cb = run es (step e cb)

abbrev pub is_closed : CircuitState → Bool
is_closed CircuitState.circuit_closed = true
is_closed _ = false

-- The failures since the last success.
abbrev pub failures_in : List Event → ℕ → ℕ
failures_in [] k = k
failures_in (Event.asked now ∷ es) k = failures_in es k
failures_in (Event.failed now ∷ es) k = failures_in es (k + 1)
failures_in (Event.succeeded ∷ es) k = failures_in es 0

-- The breaker has counted `k` failures, and its circuit is closed while they are under the threshold.
abbrev pub IsCounted : CircuitBreakerConfig → ℕ → CircuitBreaker → Type 0
IsCounted config k cb =
    (cb.failures ≡ pos k) × ((is_closed cb.state ≡ true) ↔ (pos k <ℤ config.failure_threshold))

module _ (config : CircuitBreakerConfig) where
  allow_in-IsCounted :
      (st : CircuitState) (now k : ℕ) (cb : CircuitBreaker)
      → cb.state ≡ st
      → IsCounted config k cb
      → IsCounted config k (allow_in config st now cb).1
  unfolding allow_in
  allow_in-IsCounted CircuitState.circuit_closed now k cb s h = h
  allow_in-IsCounted CircuitState.circuit_half_open now k cb s h = h
  allow_in-IsCounted CircuitState.circuit_open now k cb s h =
      elim (Bool-cases (ltb config.reset_timeout (now - cb.last_failure))) [
        | inl q ↦
            rw q
              (h.0, (λ c. absurd (true≢false (sym c)), λ below. sym (ap is_closed s) ∙ h.1.1 below))
        | inr q ↦ rw q h
      ]

  -- A failure opens the circuit just when it makes the threshold full.
  opened :
      (k : ℕ) (st : CircuitState)
      → (is_closed st ≡ true) ↔ (pos k <ℤ config.failure_threshold)
      → (let st' =
            if leb_ℤ config.failure_threshold (pos (k + 1))
            then CircuitState.circuit_open
            else st in
          (is_closed st' ≡ true) ↔ (pos (k + 1) <ℤ config.failure_threshold))
  opened k st under = elim (Bool-cases (leb_ℤ config.failure_threshold (pos (k + 1)))) [
    | inl q ↦ rw q (λ c. absurd (true≢false (sym c)), λ below. absurd (full q below))
    | inr q ↦ rw q (λ c. not_full q, λ below. under.1 (fewer below))
  ]
    where
      full :
          leb_ℤ config.failure_threshold (pos (k + 1)) ≡ true
          → ¬ (pos (k + 1) <ℤ config.failure_threshold)
      full q below = ground arith

      not_full :
          leb_ℤ config.failure_threshold (pos (k + 1)) ≡ false
          → pos (k + 1) <ℤ config.failure_threshold
      not_full q = ground arith

      fewer : pos (k + 1) <ℤ config.failure_threshold → pos k <ℤ config.failure_threshold
      fewer below = omega arith

  failed-IsCounted :
      (now k : ℕ) (cb : CircuitBreaker)
      → k + 1 < 2 ^ 63
      → IsCounted config k cb
      → IsCounted config (k + 1) (record_failure config now cb)
  unfolding record_failure
  failed-IsCounted now k cb b (p, under) =
      let one_more : add64 (pos k) (pos 1) ≡ pos (k + 1) = add64-pos k 1 (omega arith) in
      let counted = opened k cb.state under in rw p (rw one_more (refl, counted))

  reset-IsCounted :
      (cb : CircuitBreaker)
      → pos 1 ≤ℤ config.failure_threshold
      → cb.failures ≡ pos 0
      → is_closed cb.state ≡ true
      → IsCounted config 0 cb
  reset-IsCounted cb t p c = (p, (λ _. omega arith, λ _. c))

  run-from :
      (es : List Event) (k : ℕ) (cb : CircuitBreaker)
      → pos 1 ≤ℤ config.failure_threshold
      → k + length es < 2 ^ 63
      → IsCounted config k cb
      → IsCounted config (failures_in es k) (run config es cb)
  unfolding run step allow record_success
  run-from [] k cb t b h = h
  run-from (Event.asked now ∷ es) k cb t b h =
      run-from es k _ t (omega arith) (allow_in-IsCounted cb.state now k cb refl h)
  run-from (Event.failed now ∷ es) k cb t b h =
      run-from es (k + 1) _ t (omega arith) (failed-IsCounted now k cb (omega arith) h)
  run-from (Event.succeeded ∷ es) k cb t b h =
      run-from es 0 _ t (omega arith) (reset-IsCounted (record_success config cb) t refl refl)

  -- Over any history of questions, successes and failures of a new breaker with a positive
  -- threshold, shorter than 2 ^ 63: the counter is the number of failures since the last success, and
  -- the circuit is closed exactly while that number is under the threshold.
  pub run-IsCounted :
      (es : List Event)
      → pos 1 ≤ℤ config.failure_threshold
      → length es < 2 ^ 63
      → IsCounted config (failures_in es 0) (run config es new_circuit_breaker)
  run-IsCounted es t b =
      run-from es 0 new_circuit_breaker t (omega arith)
        (reset-IsCounted new_circuit_breaker t refl refl)
