-- ===== src/HttpClient/CircuitBreaker.antt =====
-- src/app/integrations/http_client/circuit_breaker.py: the in-process circuit breaker.
-- A method that mutates the breaker returns the new record. `time.monotonic()` is the argument
-- `now`, in ticks of any fixed length since the clock's origin; logging is left out.
pub mod Invariant
pub mod Recovery
pub mod Trace
use fast_api_boilerplate.Base.{ℕ, ◌+◌, ◌-◌, Bool, Option, none, some, String, leb, if◌then◌else◌}

pub data CircuitState : Type 0 where
  closed open_ half_open : CircuitState

pub record CircuitBreakerConfig : Type 0 where
  pub failure_threshold : ℕ
  pub recovery_timeout : ℕ
  pub name : String

pub record CircuitBreaker : Type 0 where
  pub config : CircuitBreakerConfig
  pub state : CircuitState
  pub failure_count : ℕ
  pub last_failure_time : ℕ

-- `CircuitBreaker(config)`
abbrev pub create : CircuitBreakerConfig → CircuitBreaker
create config = record { config = config; state = closed; failure_count = 0; last_failure_time = 0 }

-- The property `state`: reading it moves an open breaker to half-open after the timeout.
refresh : CircuitState → CircuitBreaker → ℕ → CircuitBreaker
refresh open_ b now =
    if leb b.config.recovery_timeout (now - b.last_failure_time)
    then record b { state = half_open }
    else b
refresh _ b now = b

pub read_state : CircuitBreaker → ℕ → CircuitBreaker
unfolding refresh
read_state b now = refresh b.state b now

abbrev pub rejects : CircuitState → Bool
rejects open_ = Bool.true
rejects _ = Bool.false

-- `check`: the flag is true where `HttpCircuitOpenError` is raised.
pub check : CircuitBreaker → ℕ → CircuitBreaker × Bool
unfolding read_state
check b now = let b' = read_state b now in (b', rejects b'.state)

pub record_success : CircuitBreaker → CircuitBreaker
record_success b = record b { failure_count = 0; state = closed }

trip : CircuitState → CircuitBreaker → CircuitBreaker
trip half_open b = record b { state = open_ }
trip _ b = if leb b.config.failure_threshold b.failure_count then record b { state = open_ } else b

pub record_failure : CircuitBreaker → ℕ → CircuitBreaker
unfolding trip
record_failure b now =
    let b' = record b { failure_count = b.failure_count + 1; last_failure_time = now } in
    trip b.state b'

pub reset : CircuitBreaker → CircuitBreaker
reset b = record b { state = closed; failure_count = 0; last_failure_time = 0 }
