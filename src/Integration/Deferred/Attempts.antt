-- ===== src/Integration/Deferred/Attempts.antt =====
-- The two tests of the attempts that remain.
use fast_api_boilerplate.Base.{ℕ, ◌≡◌, ◌&&◌, Option, String, arith}
use fast_api_boilerplate.Integration.Errors.{IntegrationError, is_retryable_integration_error}
use fast_api_boilerplate.Integration.Deferred.{
  should_defer_retry, build_deferred_retry_request, has_attempts_remaining,
}

-- For every error and attempt, a retry is deferred exactly where the error is retryable and the
-- request that would be built for this attempt has attempts remaining.
pub should_defer_retry-has_attempts_remaining :
    {F P : Type 0} (provider operation : String) (payload : P) (error : IntegrationError F)
    (attempt max_attempts : ℕ) (policy : String) (cid : Option String)
    → let request =
        build_deferred_retry_request provider operation payload error attempt max_attempts policy
          cid in
      should_defer_retry error attempt max_attempts
      ≡ (is_retryable_integration_error error && has_attempts_remaining request)
unfolding should_defer_retry build_deferred_retry_request has_attempts_remaining
should_defer_retry-has_attempts_remaining provider operation payload error attempt max policy cid =
    ground arith
