-- ===== src/Examples/Breakers.antt =====
-- A breaker with the default configuration.
use payflow_backend.Common.{◌≡◌, refl, List, [], ◌∷◌, map, arith}
use payflow_backend.Common.Int.{◌+ℤ◌}
use payflow_backend.Common.Int64.{wrap64, add64}
use payflow_backend.Provider.Breaker.{
  CircuitState, default_circuit_breaker_config, new_circuit_breaker,
}
use payflow_backend.Provider.Breaker.Laws.{Event, run, IsCounted, run-IsCounted}

abbrev five_failures : List Event
five_failures = map Event.failed (1 ∷ 2 ∷ 3 ∷ 4 ∷ 5 ∷ [])

-- The fifth failure opens the circuit.
fifth_failure_opens :
    (run default_circuit_breaker_config five_failures new_circuit_breaker).state
    ≡ CircuitState.circuit_open
unfolding run add64 wrap64 ◌+ℤ◌
fifth_failure_opens = refl

run-IsCounted_example :
    IsCounted default_circuit_breaker_config 5
      (run default_circuit_breaker_config five_failures new_circuit_breaker)
run-IsCounted_example =
    run-IsCounted default_circuit_breaker_config five_failures (omega arith) (omega arith)
