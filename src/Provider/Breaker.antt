-- ===== src/Provider/Breaker.antt =====
-- internal/service/provider/circuit_breaker.go. Times are nanoseconds of a clock that does not run
-- back; the mutexes make each method one step.
pub mod Laws
use Prim.Native.String.{String}
use payflow_backend.Common.{
  ℕ, ◌+◌, ◌-◌, ◌*◌, ◌^◌, Bool, true, false, Option, none, some, if◌then◌else◌, ltb, leb,
}
use payflow_backend.Common.Int.{ℤ, pos, leb_ℤ}
use payflow_backend.Common.Int64.{add64}
use payflow_backend.Common.Texts.{same_text}

pub data CircuitState : Type 0 where
  circuit_closed circuit_open circuit_half_open : CircuitState

pub record CircuitBreakerConfig : Type 0 where
  pub failure_threshold : ℤ
  pub reset_timeout : ℕ

-- `DefaultCircuitBreakerConfig`: five failures, sixty seconds.
abbrev pub default_circuit_breaker_config : CircuitBreakerConfig
default_circuit_breaker_config = record {
  failure_threshold = pos 5;
  reset_timeout = 60 * 1000000000;
}

pub record CircuitBreaker : Type 0 where
  pub state : CircuitState
  pub failures : ℤ
  pub last_failure : ℕ

abbrev pub new_circuit_breaker : CircuitBreaker
new_circuit_breaker = record {
  state = CircuitState.circuit_closed;
  failures = pos 0;
  last_failure = 0;
}

module _ (config : CircuitBreakerConfig) where
  unfoldable pub allow_in : CircuitState → ℕ → CircuitBreaker → Bool × CircuitBreaker
  allow_in CircuitState.circuit_closed now cb = (true, cb)
  allow_in CircuitState.circuit_open now cb =
      if ltb config.reset_timeout (now - cb.last_failure)
      then (true, record cb { state = CircuitState.circuit_half_open })
      else (false, cb)
  allow_in CircuitState.circuit_half_open now cb = (true, cb)

  -- `Allow`
  unfoldable pub allow : ℕ → CircuitBreaker → Bool × CircuitBreaker
  unfolding allow_in
  allow now cb = allow_in cb.state now cb

  -- `RecordSuccess`
  unfoldable pub record_success : CircuitBreaker → CircuitBreaker
  record_success cb = record cb { state = CircuitState.circuit_closed; failures = pos 0 }

  -- `RecordFailure`
  unfoldable pub record_failure : ℕ → CircuitBreaker → CircuitBreaker
  record_failure now cb =
      let failures = add64 cb.failures (pos 1) in
      record {
        state =
            if leb_ℤ config.failure_threshold failures then CircuitState.circuit_open else cb.state;
        failures = failures;
        last_failure = now;
      }

-- The registry of the providers' breakers.
abbrev pub Breakers : Type 0
Breakers = String → Option CircuitBreaker

abbrev pub or_new : Option CircuitBreaker → CircuitBreaker
or_new none = new_circuit_breaker
or_new (some cb) = cb

abbrev pub store : String → CircuitBreaker → Breakers → Breakers
store name cb bs other = if same_text other name then some cb else bs other

-- `Get`: a missing breaker is created.
unfoldable pub get : String → Breakers → CircuitBreaker × Breakers
get name bs = (or_new (bs name), store name (or_new (bs name)) bs)

-- `IsAvailable`
unfoldable pub is_available : CircuitBreakerConfig → ℕ → String → Breakers → Bool × Breakers
unfolding get allow
is_available config now name bs =
    let (cb, bs') = get name bs in
    let (answer, cb') = allow config now cb in (answer, store name cb' bs')
