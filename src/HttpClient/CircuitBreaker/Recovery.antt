-- ===== src/HttpClient/CircuitBreaker/Recovery.antt =====
-- How an open circuit breaker rejects, probes and recovers.
use fast_api_boilerplate.Base.{
  ℕ, ◌-◌, ◌≤◌, ◌<◌, ◌≡◌, refl, true, false, List, [], ◌∷◌, map, arith, All,
}
use fast_api_boilerplate.HttpClient.CircuitBreaker.{
  closed, open_, half_open, CircuitBreaker, check, record_success, record_failure,
}
use fast_api_boilerplate.HttpClient.CircuitBreaker.Trace.{poll}

check_early :
    (b : CircuitBreaker) (now : ℕ)
    → b.state ≡ open_
    → now - b.last_failure_time < b.config.recovery_timeout
    → check b now ≡ (b, true)
unfolding check
check_early b now o e = ground arith

-- An open breaker that is polled only before its recovery timeout has passed rejects every call
-- and is left unchanged.
pub poll-open_early :
    (b : CircuitBreaker) (nows : List ℕ)
    → b.state ≡ open_
    → All (λ now. now - b.last_failure_time < b.config.recovery_timeout) nows
    → poll b nows ≡ (b, map (λ _. true) nows)
unfolding poll
poll-open_early b [] o e = refl
poll-open_early b (now ∷ nows) o e =
    ground (arith, check_early b now o e.0, poll-open_early b nows o e.1)

check_half : (b : CircuitBreaker) (now : ℕ) → b.state ≡ half_open → check b now ≡ (b, false)
unfolding check
check_half b now h = ground arith

-- A half-open breaker admits every call made before an outcome is recorded, however many there
-- are, and stays half-open.
pub poll-half_open :
    (b : CircuitBreaker) (nows : List ℕ)
    → b.state ≡ half_open
    → poll b nows ≡ (b, map (λ _. false) nows)
unfolding poll
poll-half_open b [] h = refl
poll-half_open b (now ∷ nows) h = ground (arith, check_half b now h, poll-half_open b nows h)

-- The first call of an open breaker at or after the recovery timeout is admitted; a success then
-- closes the breaker with its counter at 0, and a failure at `t` opens it again, so that every call
-- within the timeout counted from `t` is rejected.
pub check-recovery :
    (b : CircuitBreaker) (now t later : ℕ)
    → b.state ≡ open_
    → b.config.recovery_timeout ≤ now - b.last_failure_time
    → later - t < b.config.recovery_timeout
    → ((check b now).1 ≡ false)
      × ((record_success (check b now).0).state ≡ closed)
      × ((record_success (check b now).0).failure_count ≡ 0)
      × ((check (record_failure (check b now).0 t) later).1 ≡ true)
unfolding check record_success record_failure
check-recovery b now t later o e l = ground arith
