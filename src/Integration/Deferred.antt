-- ===== src/Integration/Deferred.antt =====
-- src/app/integrations/contracts/resilience.py: deferring a failed call to the job queue.
pub mod Attempts
use fast_api_boilerplate.Base.{
  ℕ, ◌+◌, Bool, true, false, not, Option, none, some, String, ltb, leb, if◌then◌else◌,
}
use fast_api_boilerplate.Integration.Errors.{
  IntegrationErrorClass, IntegrationError, is_retryable_integration_error, timeout, connection,
  server, rate_limit, unavailable,
}

-- `P` is the type of payloads.
pub record DeferredRetryRequest (P : Type 0) : Type 0 where
  pub provider_name : String
  pub operation : String
  pub payload : P
  pub error_category : String
  pub attempt : ℕ
  pub max_attempts : ℕ
  pub backoff_policy : String
  pub correlation_id : Option String

module _ {P : Type 0} where
  unfoldable pub next_attempt : DeferredRetryRequest P → ℕ
  next_attempt request = request.attempt + 1

  unfoldable pub has_attempts_remaining : DeferredRetryRequest P → Bool
  unfolding next_attempt
  has_attempts_remaining request = ltb (next_attempt request) request.max_attempts

unfoldable pub should_defer_retry : {F : Type 0} → IntegrationError F → ℕ → ℕ → Bool
should_defer_retry error current_attempt max_attempts =
    if not (is_retryable_integration_error error)
    then false
    else if leb max_attempts (current_attempt + 1)
    then false
    else true

class_category : IntegrationErrorClass → String
class_category timeout = "timeout"
class_category connection = "connection"
class_category server = "server_error"
class_category rate_limit = "rate_limited"
class_category unavailable = "unavailable"
class_category _ = "unknown"

unfoldable pub classify_error_for_deferred_retry : {F : Type 0} → IntegrationError F → String
unfolding class_category
classify_error_for_deferred_retry error = class_category error.cls

unfoldable pub build_deferred_retry_request :
    {F P : Type 0}
    → String
    → String
    → P
    → IntegrationError F
    → ℕ
    → ℕ
    → String
    → Option String
    → DeferredRetryRequest P
unfolding classify_error_for_deferred_retry
build_deferred_retry_request provider operation payload error attempt max_attempts policy cid =
    record {
      provider_name = provider;
      operation = operation;
      payload = payload;
      error_category = classify_error_for_deferred_retry error;
      attempt = attempt;
      max_attempts = max_attempts;
      backoff_policy = policy;
      correlation_id = cid;
    }
