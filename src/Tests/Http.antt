-- ===== src/Tests/Http.antt =====
-- Runs of the HTTP client's circuit breaker, errors and retries, and of the worker's backoff.
use fast_api_boilerplate.Base.{
  ℕ, ◌≤◌, ◌<◌, ◌≡◌, refl, ◌↔◌, ◌⊎◌, true, false, String, Option, some, ltb, arith, List, [], ◌∷◌,
}
use fast_api_boilerplate.Floats.{AtMost}
use fast_api_boilerplate.Tests.Samples.{nat_floats}
use fast_api_boilerplate.HttpClient.CircuitBreaker.{
  open_, closed, half_open, CircuitBreaker, CircuitBreakerConfig, create, check, record_success,
  record_failure,
}
use fast_api_boilerplate.HttpClient.CircuitBreaker.Trace.{
  Call, checked, failed, run, poll, streak_from,
}
use fast_api_boilerplate.HttpClient.CircuitBreaker.Invariant.{run-closed_iff}
use fast_api_boilerplate.HttpClient.CircuitBreaker.Recovery.{poll-open_early, check-recovery}
use fast_api_boilerplate.HttpClient.Errors.{
  HttpError, Response, class_is_retryable, classify_status_code, raise_for_status,
}
use fast_api_boilerplate.HttpClient.Errors as Errors
use fast_api_boilerplate.HttpClient.Retry.{HttpRetryPolicy, is_retryable_error, resolve_retry_delay}
use fast_api_boilerplate.HttpClient.Retry.Delays.{FromZero, resolve_retry_delay_bounds}
use fast_api_boilerplate.HttpClient.Retry.Decisions.{raise_for_status-retried_iff}
use fast_api_boilerplate.Backoff.{BackoffPolicy, build_policy}

abbrev config : CircuitBreakerConfig
config = record { failure_threshold = 2; recovery_timeout = 30; name = "default" }

abbrev calls : List Call
calls = failed 5 ∷ checked 6 ∷ failed 7 ∷ checked 8 ∷ checked 40 ∷ []

abbrev opened : CircuitBreaker
opened = record { config = config; state = open_; failure_count = 2; last_failure_time = 7 }

abbrev probing : CircuitBreaker
probing = record opened { state = half_open }

run-closed_iff_example :
    ((run (create config) calls).failure_count ≡ streak_from 0 calls)
    × (((run (create config) calls).state ≡ closed)
        ↔ ((streak_from 0 calls ≡ 0) ⊎ (streak_from 0 calls < 2)))
run-closed_iff_example = run-closed_iff config calls

poll-open_early_example : poll opened (8 ∷ 20 ∷ []) ≡ (opened, true ∷ true ∷ [])
poll-open_early_example = poll-open_early opened (8 ∷ 20 ∷ []) refl (omega arith, (omega arith, tt))

check-recovery_example :
    ((check opened 40).1 ≡ false)
    × ((record_success (check opened 40).0).state ≡ closed)
    × ((record_success (check opened 40).0).failure_count ≡ 0)
    × ((check (record_failure (check opened 40).0 41) 50).1 ≡ true)
check-recovery_example = check-recovery opened 40 41 50 refl (omega arith) (omega arith)

abbrev parse : String → Option ℕ
parse text = some 7

abbrev limited : Response
limited = record { status_code = 429; is_success = false; retry_after = some "7" }

abbrev policy : HttpRetryPolicy nat_floats
policy = record {
  max_attempts = 3;
  backoff_base = 1;
  backoff_max = 30;
  backoff_multiplier = 2;
  jitter = true;
  retry_on_timeout = true;
  retry_on_connection_error = true;
  retry_on_server_error = true;
  retry_on_rate_limit = true;
  idempotent_methods_only = false;
}

abbrev rate_limited : HttpError ℕ
rate_limited = record {
  cls = Errors.rate_limit;
  is_retryable = true;
  status_code = some 429;
  retry_after_seconds = some 45;
}

no_negative : (s : ℕ) → some 45 ≡ some s → ltb s 0 ≡ false
no_negative s h = ground arith

resolve_retry_delay_bounds_example :
    let d = resolve_retry_delay nat_floats rate_limited 0 1 policy in
    FromZero nat_floats rate_limited.retry_after_seconds d × AtMost nat_floats d 30
resolve_retry_delay_bounds_example =
    resolve_retry_delay_bounds nat_floats rate_limited 0 1 policy
      (record { base_nonneg = refl; max_nonneg = refl; multiplier_pos = refl })

raise_for_status-retried_iff_example :
    (e : HttpError ℕ) × (raise_for_status parse limited ≡ some e)
    × ((is_retryable_error nat_floats e policy ≡ true)
        ↔ (((◌≡◌ {A = ℕ} 429 429) × (true ≡ true)) ⊎ ((500 ≤ 429) × (429 < 600) × (true ≡ true))))
raise_for_status-retried_iff_example =
    raise_for_status-retried_iff nat_floats parse limited policy refl

abbrev backoff : BackoffPolicy nat_floats
backoff = record { base_delay_seconds = 5; max_delay_seconds = 300; multiplier = 2; jitter = true }

built : build_policy nat_floats 5 300 2 true ≡ some backoff
unfolding build_policy
built = refl

abbrev steady : BackoffPolicy nat_floats
steady = record backoff { jitter = false }

built_steady : build_policy nat_floats 5 300 2 false ≡ some steady
unfolding build_policy
built_steady = refl
