-- ===== src/Tests/Integration.antt =====
-- Runs of the integration contracts: error classes, fallbacks, bulk operations, compensation.
use fast_api_boilerplate.Base.{
  ℕ, ◌+◌, ◌*◌, ◌≤◌, ◌≡◌, ◌≢◌, refl, ◌↔◌, ◌⊎◌, true, false, String, Option, none, some, is_some, [],
  ◌∷◌, ltb, if◌then◌else◌,
}
use fast_api_boilerplate.HttpClient.Errors.{HttpErrorClass, HttpError, Response, construct}
use fast_api_boilerplate.Integration.Errors.{
  IntegrationErrorClass, IntegrationError, classify_http_error, is_retryable_integration_error,
  is_auth_error, is_config_error,
}
use fast_api_boilerplate.Integration.Errors.Classify.{classify_http_error-retryable}
use fast_api_boilerplate.Integration.Fallback.{
  ResilientResult, PrimaryRun, FallbackRun, failed, provided, with_fallback, fallback,
}
use fast_api_boilerplate.Integration.Fallback.Sources.{
  IsCoherent, provides, with_fallback-IsCoherent, with_fallback-retryable,
}
use fast_api_boilerplate.Integration.PartialFailure.{
  PartialFailurePolicy, PartialFailureResult, ItemRun, aborted, partial_success,
  execute_with_partial_failure,
}
use fast_api_boilerplate.Integration.PartialFailure as Bulk
use fast_api_boilerplate.Integration.PartialFailure.Prefix.{
  Accounts, execute_with_partial_failure-Accounts,
}
use fast_api_boilerplate.Integration.PartialFailure.Counts.{execute_with_partial_failure-bounded}

abbrev not_found : Response
not_found = record { status_code = 404; is_success = false; retry_after = none }

abbrev parse : String → Option ℕ
parse text = none

classify_http_error-retryable_example :
    let e : HttpError ℕ = construct HttpErrorClass.conflict (some 409) none in
    (is_retryable_integration_error (classify_http_error "stripe" "charge" e) ≡ e.is_retryable) ↔ (
      (HttpErrorClass.conflict ≢ HttpErrorClass.conflict)
      × (HttpErrorClass.conflict ≢ HttpErrorClass.non_retryable))
classify_http_error-retryable_example =
    classify_http_error-retryable "stripe" "charge" HttpErrorClass.conflict (some 409) none

abbrev error_of : IntegrationErrorClass → IntegrationError ℕ
error_of cls = record {
  cls = cls;
  provider_name = "stripe";
  operation = "charge";
  cause = none;
  retry_after_seconds = none;
}

abbrev broken : IntegrationError ℕ
broken = error_of IntegrationErrorClass.timeout

abbrev refused : IntegrationError ℕ
refused = error_of IntegrationErrorClass.auth

-- The world counts the calls.
abbrev primary_call : ℕ → PrimaryRun ℕ String × ℕ
primary_call w = (failed broken, w + 1)

abbrev refused_call : ℕ → PrimaryRun ℕ String × ℕ
refused_call w = (failed refused, w + 1)

abbrev cached : ℕ → FallbackRun ℕ String × ℕ
cached w = (provided (some "stale"), w + 1)

abbrev stale : ResilientResult ℕ String
stale = record {
  payload = some "stale";
  source = fallback;
  primary_error = some broken;
  degraded = true;
}

is_retryable_broken : is_retryable_integration_error broken ≡ true
unfolding is_retryable_integration_error
is_retryable_broken = refl

is_retryable_refused : is_retryable_integration_error refused ≡ false
unfolding is_retryable_integration_error
is_retryable_refused = refl

gives_stale : (with_fallback ℕ String primary_call (some cached) none 0).0 ≡ some stale
unfolding with_fallback is_retryable_integration_error
gives_stale = refl

with_fallback-IsCoherent_example : IsCoherent stale
with_fallback-IsCoherent_example =
    with_fallback-IsCoherent primary_call (some cached) none 0 stale gives_stale

with_fallback-retryable_example :
    (r : ResilientResult ℕ String) × (with_fallback ℕ String primary_call (some cached) none 0
      ≡ (some r, 2))
    × ((is_some r.payload ≡ true)
        ↔ ((provides (cached 1).0 ≡ true) ⊎ (is_some {A = String} none ≡ true)))
with_fallback-retryable_example =
    with_fallback-retryable primary_call cached none broken 0 1 refl is_retryable_broken

abbrev half : PartialFailurePolicy
half = record {
  ratio_num = 1;
  ratio_den = 2;
  fail_fast_on_auth = true;
  fail_fast_on_config = true;
  collect_errors = true;
}

-- An item above 9 raises; the world is the sum of the items.
abbrev operation : ℕ → ℕ → ItemRun ℕ ℕ ℕ × ℕ
operation item w = (if ltb 9 item then Bulk.failed broken else Bulk.returned (item + 1), w + item)

abbrev bulk_result : PartialFailureResult ℕ ℕ ℕ
bulk_result = record {
  outcome = partial_success;
  succeeded = 2 ∷ 4 ∷ [];
  failures = (10, broken) ∷ [];
  aborted_at = none;
  total = 3;
}

bulk_run :
    execute_with_partial_failure ℕ ℕ ℕ half (1 ∷ 10 ∷ 3 ∷ []) operation 0 ≡ (some bulk_result, 14)
unfolding execute_with_partial_failure is_auth_error is_config_error
bulk_run = refl

execute_with_partial_failure-Accounts_example :
    Accounts operation (1 ∷ 10 ∷ 3 ∷ []) 0 bulk_result 14
execute_with_partial_failure-Accounts_example =
    execute_with_partial_failure-Accounts half operation (1 ∷ 10 ∷ 3 ∷ []) 0 14 bulk_result bulk_run

execute_with_partial_failure-bounded_example :
    (2 + 1 ≡ bulk_result.total) × (1 * 2 ≤ 1 * bulk_result.total) × (bulk_result.outcome ≢ aborted)
execute_with_partial_failure-bounded_example =
    execute_with_partial_failure-bounded half operation (1 ∷ 10 ∷ 3 ∷ []) 0 14 bulk_result bulk_run
      refl
