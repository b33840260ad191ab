-- ===== src/HttpClient/CircuitBreaker/Trace.antt =====
-- Sequences of calls of a circuit breaker, and the history that its counter stands for.
use fast_api_boilerplate.Base.{ℕ, suc, List, [], ◌∷◌, Bool}
use fast_api_boilerplate.HttpClient.CircuitBreaker.{
  CircuitBreaker, check, record_success, record_failure, reset,
}

-- One call of a method, with the clock's value where the method reads it.
pub data Call : Type 0 where
  checked : ℕ → Call
  succeeded : Call
  failed : ℕ → Call
  was_reset : Call

pub step : CircuitBreaker → Call → CircuitBreaker
step b (checked now) = (check b now).0
step b succeeded = record_success b
step b (failed now) = record_failure b now
step b was_reset = reset b

unfoldable pub run : CircuitBreaker → List Call → CircuitBreaker
unfolding step
run b [] = b
run b (c ∷ cs) = run (step b c) cs

-- The failures since the last success or reset, the count `n` being those before the calls.
unfoldable pub streak_from : ℕ → List Call → ℕ
streak_from n [] = n
streak_from n (checked now ∷ cs) = streak_from n cs
streak_from n (succeeded ∷ cs) = streak_from 0 cs
streak_from n (failed now ∷ cs) = streak_from (suc n) cs
streak_from n (was_reset ∷ cs) = streak_from 0 cs

-- The answers of `check` at a row of times: `true` where the call is rejected.
unfoldable pub poll : CircuitBreaker → List ℕ → CircuitBreaker × List Bool
poll b [] = (b, [])
poll b (now ∷ nows) =
    let (b', rejected) = check b now in let (b'', rest) = poll b' nows in (b'', rejected ∷ rest)
