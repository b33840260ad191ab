-- ===== src/Integration/Errors/Classify.antt =====
-- How the integration taxonomy agrees with the HTTP taxonomy on what to retry.
use fast_api_boilerplate.Base.{ℕ, ◌≡◌, ◌≢◌, refl, ◌↔◌, ◌⊎◌, false, Option, some, String, arith}
use fast_api_boilerplate.HttpClient.Errors.{
  HttpErrorClass, HttpError, Response, construct, conflict, non_retryable, raise_for_status,
  classify_status_code,
}
use fast_api_boilerplate.HttpClient.Errors as Http
use fast_api_boilerplate.HttpClient.Errors.Status.{raised}
use fast_api_boilerplate.Integration.Errors.{
  classify_http_error, integration_class, class_is_retryable, is_retryable_integration_error,
}

classes_agree :
    (cls : HttpErrorClass)
    → (class_is_retryable (integration_class cls) ≡ Http.class_is_retryable cls)
      ↔ ((cls ≢ conflict) × (cls ≢ non_retryable))
unfolding class_is_retryable integration_class Http.class_is_retryable
classes_agree conflict = (λ h. cc, λ h. absurd (h.0 refl))
classes_agree non_retryable = (λ h. cc, λ h. absurd (h.1 refl))
classes_agree _ = (λ _. (λ e. cc, λ e. cc), λ _. refl)

-- An error built by the constructor of its HTTP class is classified into an integration error with
-- the same verdict on retrying exactly where its class is neither `HttpConflictError` nor
-- `NonRetryableHttpError`.
pub classify_http_error-retryable :
    {F : Type 0} (provider operation : String) (cls : HttpErrorClass) (status : Option ℕ)
    (retry_after : Option F)
    → let e = construct cls status retry_after in
      (is_retryable_integration_error (classify_http_error provider operation e) ≡ e.is_retryable)
      ↔ ((cls ≢ conflict) × (cls ≢ non_retryable))
unfolding is_retryable_integration_error classify_http_error construct
classify_http_error-retryable provider operation cls status retry_after = classes_agree cls

status_verdict :
    (status : ℕ)
    → (class_is_retryable (integration_class (classify_status_code status)) ≡ false)
      ↔ ((status ≡ 400) ⊎ ((status ≡ 401) ⊎ ((status ≡ 403) ⊎ (status ≡ 404))))
unfolding class_is_retryable integration_class classify_status_code
status_verdict status = (λ h. ground arith, λ h. ground arith)

-- A response that httpx does not count as a success ends, through `raise_for_status` and
-- `classify_http_error`, in an integration error that is not retryable exactly for the statuses
-- 400, 401, 403 and 404.
pub response-retryable_iff :
    {F : Type 0} (parse_float : String → Option F) (provider operation : String)
    (response : Response)
    → response.is_success ≡ false
    → (e : HttpError F) × (raise_for_status parse_float response ≡ some e)
      × ((is_retryable_integration_error (classify_http_error provider operation e) ≡ false) ↔ (
          (response.status_code ≡ 400)
          ⊎ ((response.status_code ≡ 401)
              ⊎ ((response.status_code ≡ 403) ⊎ (response.status_code ≡ 404)))))
unfolding is_retryable_integration_error classify_http_error
response-retryable_iff parse_float provider operation response h =
    let (e, raises, cls, _, _) = raised parse_float response h in
    (e, raises, rw cls (status_verdict response.status_code))
