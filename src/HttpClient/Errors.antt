-- ===== src/HttpClient/Errors.antt =====
-- src/app/integrations/http_client/exceptions.py and the status handling of client.py: the classes
-- of HTTP errors. An exception object keeps what the program reads of it: its class, whether it is
-- retryable, the status of its response summary and the Retry-After value. Message texts are left
-- out.
pub mod Status
use fast_api_boilerplate.Base.{
  ℕ, ◌≡◌, Bool, true, false, ◌&&◌, Option, none, some, String, ltb, leb, ◌==◌, if◌then◌else◌,
}

-- The subclasses of `HttpClientError`, all direct, and `client_error` for the class itself.
pub data HttpErrorClass : Type 0 where
  client_error timeout connection server rate_limit : HttpErrorClass
  authentication authorization not_found conflict bad_request : HttpErrorClass
  circuit_open non_retryable : HttpErrorClass

pub record HttpError (F : Type 0) : Type 0 where
  pub cls : HttpErrorClass
  pub is_retryable : Bool
  pub status_code : Option ℕ
  pub retry_after_seconds : Option F

-- The `is_retryable` that each class's `__init__` passes on (for `HttpClientError` its default).
unfoldable pub class_is_retryable : HttpErrorClass → Bool
class_is_retryable client_error = true
class_is_retryable timeout = true
class_is_retryable connection = true
class_is_retryable server = true
class_is_retryable rate_limit = true
class_is_retryable authentication = false
class_is_retryable authorization = false
class_is_retryable not_found = false
class_is_retryable conflict = false
class_is_retryable bad_request = false
class_is_retryable circuit_open = true
class_is_retryable non_retryable = false

-- `cls(message, response_summary=summary)`
unfoldable pub construct : {F : Type 0} → HttpErrorClass → Option ℕ → Option F → HttpError F
construct cls status retry_after = record {
  cls = cls;
  is_retryable = class_is_retryable cls;
  status_code = status;
  retry_after_seconds = retry_after;
}

unfoldable pub classify_status_code : ℕ → HttpErrorClass
classify_status_code status =
    if status == 400
    then bad_request
    else if status == 401
    then authentication
    else if status == 403
    then authorization
    else if status == 404
    then not_found
    else if status == 409
    then conflict
    else if status == 429
    then rate_limit
    else if leb 500 status && ltb status 600
    then server
    else if leb 400 status && ltb status 500
    then non_retryable
    else client_error

-- What the code reads of an `httpx.Response`. `is_success` is computed by httpx.
pub record Response : Type 0 where
  pub status_code : ℕ
  pub is_success : Bool
  pub retry_after : Option String

-- `float(retry_after)` is the argument `parse_float`; `none` where it raises.
unfoldable pub parse_retry_after : {F : Type 0} → (String → Option F) → Option String → Option F
parse_retry_after parse_float none = none
parse_retry_after parse_float (some text) = parse_float text

is_rate_limit : HttpErrorClass → Bool
is_rate_limit rate_limit = true
is_rate_limit _ = false

-- `none` where the function returns, otherwise what it raises.
unfoldable pub raise_for_status :
    {F : Type 0} → (String → Option F) → Response → Option (HttpError F)
unfolding construct class_is_retryable classify_status_code parse_retry_after is_rate_limit
raise_for_status parse_float response =
    let cls = classify_status_code response.status_code in
    let summary = some response.status_code in
    if response.is_success
    then none
    else if is_rate_limit cls
    then some (construct cls summary (parse_retry_after parse_float response.retry_after))
    else some (construct cls summary none)
