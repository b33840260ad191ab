-- ===== src/HttpClient/Retry/Decisions.antt =====
-- Which responses lead to another attempt.
use fast_api_boilerplate.Base.{ℕ, ◌≤◌, ◌<◌, ◌≡◌, ◌↔◌, ◌⊎◌, true, false, Option, some, String, arith}
use fast_api_boilerplate.Floats.{Floats}
use fast_api_boilerplate.HttpClient.Errors.{
  HttpError, Response, classify_status_code, class_is_retryable, raise_for_status,
}
use fast_api_boilerplate.HttpClient.Errors.Status.{raised}
use fast_api_boilerplate.HttpClient.Retry.{HttpRetryPolicy, class_enabled, is_retryable_error}

module _ (fl : Floats) where
  open fl use {F}

  class_enabled_iff :
      (status : ℕ) (policy : HttpRetryPolicy fl)
      → ((class_is_retryable (classify_status_code status) ≡ true)
          × (class_enabled fl (classify_status_code status) policy ≡ true))
        ↔ (((status ≡ 429) × (policy.retry_on_rate_limit ≡ true))
            ⊎ ((500 ≤ status) × (status < 600) × (policy.retry_on_server_error ≡ true)))
  unfolding class_is_retryable classify_status_code class_enabled
  class_enabled_iff status policy = (λ h. ground arith, λ h. ground arith)

  retryable_iff :
      (e : HttpError F) (status : ℕ) (policy : HttpRetryPolicy fl)
      → e.cls ≡ classify_status_code status
      → e.is_retryable ≡ class_is_retryable (classify_status_code status)
      → (is_retryable_error fl e policy ≡ true) ↔ (
          (class_is_retryable (classify_status_code status) ≡ true)
          × (class_enabled fl (classify_status_code status) policy ≡ true))
  unfolding is_retryable_error
  retryable_iff e status policy p q = rw (p, q) (λ h. ground arith, λ h. ground arith)

  -- A response that httpx does not count as a success raises an error that the policy retries
  -- exactly when the status is 429 and rate-limit retries are on, or the status is 5xx and
  -- server-error retries are on.
  pub raise_for_status-retried_iff :
      (parse_float : String → Option F) (response : Response) (policy : HttpRetryPolicy fl)
      → response.is_success ≡ false
      → (e : HttpError F) × (raise_for_status parse_float response ≡ some e)
        × ((is_retryable_error fl e policy ≡ true) ↔ (
            ((response.status_code ≡ 429) × (policy.retry_on_rate_limit ≡ true))
            ⊎ ((500 ≤ response.status_code)
                × (response.status_code < 600)
                × (policy.retry_on_server_error ≡ true))))
  raise_for_status-retried_iff parse_float response policy h =
      let (e, raises, cls, status, retryable) = raised parse_float response h in
      let a = retryable_iff e response.status_code policy cls retryable in
      let b = class_enabled_iff response.status_code policy in
      (e, raises, (λ x. b.0 (a.0 x), λ x. a.1 (b.1 x)))
