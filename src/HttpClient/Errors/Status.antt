-- ===== src/HttpClient/Errors/Status.antt =====
-- Which responses the HTTP client lets a caller retry.
use fast_api_boilerplate.Base.{
  ℕ, ◌≤◌, ◌<◌, ◌≡◌, refl, ◌⊎◌, inl, inr, ◌↔◌, true, false, Option, none, some, String, arith,
  Bool-cases,
}
use fast_api_boilerplate.HttpClient.Errors.{
  HttpError, Response, class_is_retryable, classify_status_code, raise_for_status, construct,
  is_rate_limit, parse_retry_after,
}

-- The class that a status gets is retryable exactly for 429 and outside of 4xx.
pub classify_status_code-retryable :
    (status : ℕ)
    → (class_is_retryable (classify_status_code status) ≡ true)
      ↔ ((status ≡ 429) ⊎ ((status < 400) ⊎ (500 ≤ status)))
unfolding class_is_retryable classify_status_code
classify_status_code-retryable status = (λ h. ground arith, λ h. ground arith)

pub raised :
    {F : Type 0} (parse_float : String → Option F) (response : Response)
    → response.is_success ≡ false
    → (e : HttpError F) × (raise_for_status parse_float response ≡ some e)
      × (e.cls ≡ classify_status_code response.status_code)
      × (e.status_code ≡ some response.status_code)
      × (e.is_retryable ≡ class_is_retryable (classify_status_code response.status_code))
unfolding raise_for_status
raised parse_float response h =
    elim (Bool-cases (is_rate_limit (classify_status_code response.status_code))) [
      | inl limited ↦ (
        construct (classify_status_code response.status_code) (some response.status_code)
            (parse_retry_after parse_float response.retry_after),
        rw (h, limited),
        refl,
        refl,
        refl,
      )
      | inr other ↦ (
        construct (classify_status_code response.status_code) (some response.status_code) none,
        rw (h, other),
        refl,
        refl,
        refl,
      )
    ]

-- A response that httpx does not count as a success raises an error that carries its status, and
-- the error is retryable exactly when the status is 429 or no 4xx status.
pub raise_for_status-retryable_iff :
    {F : Type 0} (parse_float : String → Option F) (response : Response)
    → response.is_success ≡ false
    → (e : HttpError F) × (raise_for_status parse_float response ≡ some e)
      × (e.status_code ≡ some response.status_code)
      × ((e.is_retryable ≡ true) ↔ (
          (response.status_code ≡ 429)
          ⊎ ((response.status_code < 400) ⊎ (500 ≤ response.status_code))))
raise_for_status-retryable_iff parse_float response h =
    let (e, raises, cls, status, retryable) = raised parse_float response h in
    (e, raises, status, rw retryable (classify_status_code-retryable response.status_code))

pub raise_for_status-none_iff :
    {F : Type 0} (parse_float : String → Option F) (response : Response)
    → (raise_for_status parse_float response ≡ none) ↔ (response.is_success ≡ true)
unfolding raise_for_status
raise_for_status-none_iff parse_float response = (λ h. ground arith, λ h. ground arith)
