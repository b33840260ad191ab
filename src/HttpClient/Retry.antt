-- ===== src/HttpClient/Retry.antt =====
-- src/app/integrations/http_client/retry.py: which failed requests are retried, and when.
-- `random.uniform` draws from the state `seed`.
pub mod Decisions
pub mod Delays
use fast_api_boilerplate.Base.{
  ℕ, ◌-◌, Bool, true, false, ◌&&◌, ◌||◌, Option, none, some, String, List, [], ◌∷◌, map, leb, ◌==◌,
  if◌then◌else◌,
}
use fast_api_boilerplate.Base.Ascii.{codes, codes_eq}
use fast_api_boilerplate.Floats.{Floats, fmin}
use fast_api_boilerplate.HttpClient.Errors.{
  HttpErrorClass, HttpError, timeout, connection, server, rate_limit,
}

-- `str.upper` on ASCII text; HTTP methods are ASCII.
upper : String → List ℕ
upper s = map (λ c. if leb b'a' c && leb c b'z' then c - 32 else c) (codes s)

unfoldable pub is_member : List ℕ → List String → Bool
unfolding codes_eq
is_member cs [] = false
is_member cs (s ∷ ss) = codes_eq cs (codes s) || is_member cs ss

abbrev pub idempotent_methods : List String
idempotent_methods = "GET" ∷ "HEAD" ∷ "OPTIONS" ∷ "PUT" ∷ "DELETE" ∷ []

module _ (fl : Floats) where
  open fl use {F}

  pub record HttpRetryPolicy : Type 0 where
    pub max_attempts : ℕ
    pub backoff_base : F
    pub backoff_max : F
    pub backoff_multiplier : F
    pub jitter : Bool
    pub retry_on_timeout : Bool
    pub retry_on_connection_error : Bool
    pub retry_on_server_error : Bool
    pub retry_on_rate_limit : Bool
    pub idempotent_methods_only : Bool

  unfoldable pub delay_for_attempt : HttpRetryPolicy → ℕ → ℕ → F
  delay_for_attempt policy seed attempt =
      let exponential = fl.mul policy.backoff_base (fl.pow policy.backoff_multiplier attempt) in
      let capped = fmin fl exponential policy.backoff_max in
      if policy.jitter then fl.uniform seed fl.zero capped else capped

  class_enabled : HttpErrorClass → HttpRetryPolicy → Bool
  class_enabled timeout policy = policy.retry_on_timeout
  class_enabled connection policy = policy.retry_on_connection_error
  class_enabled server policy = policy.retry_on_server_error
  class_enabled rate_limit policy = policy.retry_on_rate_limit
  class_enabled _ policy = false

  -- The classes are disjoint, so the row of `isinstance` tests is one match.
  unfoldable pub is_retryable_error : HttpError F → HttpRetryPolicy → Bool
  unfolding class_enabled
  is_retryable_error error policy = error.is_retryable && class_enabled error.cls policy

  unfoldable pub should_retry_method : String → HttpRetryPolicy → Bool
  unfolding upper is_member
  should_retry_method method policy =
      if policy.idempotent_methods_only then is_member (upper method) idempotent_methods else true

  resolve_class : HttpErrorClass → Option F → HttpRetryPolicy → ℕ → ℕ → F
  resolve_class rate_limit (some seconds) policy seed attempt = fmin fl seconds policy.backoff_max
  resolve_class _ _ policy seed attempt = delay_for_attempt policy seed attempt

  unfoldable pub resolve_retry_delay : HttpError F → ℕ → ℕ → HttpRetryPolicy → F
  unfolding resolve_class
  resolve_retry_delay error seed attempt policy =
      resolve_class error.cls error.retry_after_seconds policy seed attempt
