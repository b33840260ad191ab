-- ===== src/Integration/Errors.antt =====
-- src/app/integrations/contracts/errors.py: integration errors, and how HTTP errors become such.
-- Message texts and the `detail` text are left out.
pub mod Classify
use fast_api_boilerplate.Base.{ℕ, Bool, true, false, Option, none, some, String}
use fast_api_boilerplate.HttpClient.Errors.{HttpErrorClass, HttpError}
use fast_api_boilerplate.HttpClient.Errors

-- The subclasses of `IntegrationError`, all direct, and `integration` for the class itself.
pub data IntegrationErrorClass : Type 0 where
  integration auth not_found rate_limit timeout connection validation : IntegrationErrorClass
  server config unavailable disabled mode credential : IntegrationErrorClass
  production_validation : IntegrationErrorClass

pub record IntegrationError (F : Type 0) : Type 0 where
  pub cls : IntegrationErrorClass
  pub provider_name : String
  pub operation : String
  pub cause : Option (HttpError F)
  pub retry_after_seconds : Option F

-- The class that the row of `isinstance` tests picks. The HTTP classes are disjoint.
unfoldable pub integration_class : HttpErrorClass → IntegrationErrorClass
integration_class HttpErrorClass.authentication = auth
integration_class HttpErrorClass.authorization = auth
integration_class HttpErrorClass.not_found = not_found
integration_class HttpErrorClass.rate_limit = rate_limit
integration_class HttpErrorClass.timeout = timeout
integration_class HttpErrorClass.connection = connection
integration_class HttpErrorClass.bad_request = validation
integration_class HttpErrorClass.server = server
integration_class HttpErrorClass.circuit_open = unavailable
integration_class _ = integration

keep_retry_after : {F : Type 0} → HttpErrorClass → Option F → Option F
keep_retry_after HttpErrorClass.rate_limit retry_after = retry_after
keep_retry_after _ retry_after = none

unfoldable pub classify_http_error :
    {F : Type 0} → String → String → HttpError F → IntegrationError F
unfolding integration_class keep_retry_after
classify_http_error provider_name operation error = record {
  cls = integration_class error.cls;
  provider_name = provider_name;
  operation = operation;
  cause = some error;
  retry_after_seconds = keep_retry_after error.cls error.retry_after_seconds;
}

unfoldable pub class_is_retryable : IntegrationErrorClass → Bool
class_is_retryable auth = false
class_is_retryable not_found = false
class_is_retryable validation = false
class_is_retryable config = false
class_is_retryable _ = true

unfoldable pub is_retryable_integration_error : {F : Type 0} → IntegrationError F → Bool
unfolding class_is_retryable
is_retryable_integration_error error = class_is_retryable error.cls

-- `_is_auth_error` and `_is_config_error` of resilience.py.
unfoldable pub is_auth_error : {F : Type 0} → IntegrationError F → Bool
is_auth_error error = elim (error.cls) [ auth ↦ true | credential ↦ true | _ ↦ false ]

unfoldable pub is_config_error : {F : Type 0} → IntegrationError F → Bool
is_config_error error = elim (error.cls) [
  | config ↦ true
  | validation ↦ true
  | mode ↦ true
  | _ ↦ false
]
