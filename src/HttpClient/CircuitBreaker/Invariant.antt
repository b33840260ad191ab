-- ===== src/HttpClient/CircuitBreaker/Invariant.antt =====
-- What holds of a circuit breaker after any sequence of calls.
use fast_api_boilerplate.Base.{ℕ, suc, ◌≤◌, ◌<◌, ◌≡◌, ◌⊎◌, ◌↔◌, ◌≢◌, List, [], ◌∷◌, arith}
use fast_api_boilerplate.HttpClient.CircuitBreaker.{
  closed, CircuitBreakerConfig, CircuitBreaker, create, check, record_success, record_failure,
  reset,
}
use fast_api_boilerplate.HttpClient.CircuitBreaker.Trace.{
  Call, checked, succeeded, failed, was_reset, run, streak_from,
}

pub record Inv (config : CircuitBreakerConfig) (n : ℕ) (b : CircuitBreaker) : Type 0 where
  pub same_config : b.config ≡ config
  pub counted : b.failure_count ≡ n
  pub quiet : b.state ≡ closed → (n ≡ 0) ⊎ (n < config.failure_threshold)
  pub tripped : b.state ≢ closed → (0 < n) × (config.failure_threshold ≤ n)

check-Inv :
    (config : CircuitBreakerConfig) (n : ℕ) (b : CircuitBreaker) (now : ℕ)
    → Inv config n b
    → Inv config n (check b now).0
unfolding check
check-Inv config n b now h = ground arith

success-Inv :
    (config : CircuitBreakerConfig) (n : ℕ) (b : CircuitBreaker)
    → Inv config n b
    → Inv config 0 (record_success b)
unfolding record_success
success-Inv config n b h = ground arith

failure-Inv :
    (config : CircuitBreakerConfig) (n : ℕ) (b : CircuitBreaker) (now : ℕ)
    → Inv config n b
    → Inv config (suc n) (record_failure b now)
unfolding record_failure
failure-Inv config n b now h = ground arith

reset-Inv :
    (config : CircuitBreakerConfig) (n : ℕ) (b : CircuitBreaker)
    → Inv config n b
    → Inv config 0 (reset b)
unfolding reset
reset-Inv config n b h = ground arith

create-Inv : (config : CircuitBreakerConfig) → Inv config 0 (create config)
create-Inv config = ground arith

run-Inv :
    (config : CircuitBreakerConfig) (n : ℕ) (b : CircuitBreaker) (cs : List Call)
    → Inv config n b
    → Inv config (streak_from n cs) (run b cs)
unfolding run streak_from
run-Inv config n b [] h = h
run-Inv config n b (checked now ∷ cs) h =
    run-Inv config n (check b now).0 cs (check-Inv config n b now h)
run-Inv config n b (succeeded ∷ cs) h =
    run-Inv config 0 (record_success b) cs (success-Inv config n b h)
run-Inv config n b (failed now ∷ cs) h =
    run-Inv config (suc n) (record_failure b now) cs (failure-Inv config n b now h)
run-Inv config n b (was_reset ∷ cs) h = run-Inv config 0 (reset b) cs (reset-Inv config n b h)

-- After any sequence of calls of a new breaker, its counter is the number of failures since the
-- last success or reset, and the breaker is closed exactly when that number is 0 or below the
-- threshold.
pub run-closed_iff :
    (config : CircuitBreakerConfig) (cs : List Call)
    → ((run (create config) cs).failure_count ≡ streak_from 0 cs)
      × (((run (create config) cs).state ≡ closed)
          ↔ ((streak_from 0 cs ≡ 0) ⊎ (streak_from 0 cs < config.failure_threshold)))
run-closed_iff config cs =
    let h = run-Inv config 0 (create config) cs (create-Inv config) in
    (h.counted, (h.quiet, λ e. ground (arith, h)))
