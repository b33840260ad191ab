-- ===== src/HttpClient/Client.antt =====
-- src/app/integrations/http_client/client.py: `TemplateHttpClient.request`.
-- The awaitables act on a world `W`. A hook's arguments are cut down to what differs between the
-- outcomes of one request: the status and the error. Durations, bodies and logging are left out, and
-- `build_correlation_headers()` is the argument `correlation`.
pub mod Headers
pub mod Outcome
use fast_api_boilerplate.Base.{
  ℕ, Bool, true, false, Option, none, some, String, List, [], ◌∷◌, if◌then◌else◌, is_some,
}
use fast_api_boilerplate.Base.Dict.{Dict, lookup, insert}
use fast_api_boilerplate.HttpClient.Errors.{
  HttpError, Response, construct, raise_for_status, timeout, connection, client_error,
}

-- `d.update(new)`. A dict has no key twice, so the order of the insertions does not matter.
unfoldable pub update : Dict String → Dict String → Dict String
update d [] = d
update d ((key, value) ∷ new) = insert key value (update d new)

-- `setdefault` for each entry of `new`.
unfoldable pub set_defaults : Dict String → Dict String → Dict String
set_defaults d [] = d
set_defaults d ((key, value) ∷ new) =
    let rest = set_defaults d new in if is_some (lookup key d) then rest else insert key value rest

unfoldable pub merge_headers : Bool → Dict String → Option (Dict String) → Dict String → Dict String
unfolding update set_defaults
merge_headers propagate default_headers headers correlation =
    let merged : Dict String = elim headers [
      | none ↦ default_headers
      | some given ↦ update default_headers given
    ] in
    if propagate then set_defaults merged correlation else merged

-- What awaiting `httpx.AsyncClient.request` does: a response, one of httpx's exceptions, or another.
pub data Transport : Type 0 where
  answered : Response → Transport
  timed_out connect_failed : Transport
  status_error : Response → Transport
  http_failed crashed : Transport

-- What `request` does: it returns, raises an `HttpClientError`, or lets another exception through.
pub data Sent (F : Type 0) : Type 0 where
  received : Response → Sent F
  raised : HttpError F → Sent F
  propagated : Sent F

module _ {F : Type 0} where
  checked : Response → Option (HttpError F) → Sent F
  checked response none = received response
  checked response (some error) = raised error

  -- The `try` with its `except` clauses.
  unfoldable pub settle : (String → Option F) → Bool → Transport → Sent F
  unfolding checked
  settle parse_float raise_codes (answered response) =
      if raise_codes
      then checked response (raise_for_status parse_float response)
      else received response
  settle parse_float raise_codes timed_out = raised (construct timeout none none)
  settle parse_float raise_codes connect_failed = raised (construct connection none none)
  settle parse_float raise_codes (status_error response) =
      raised (construct client_error (some response.status_code) none)
  settle parse_float raise_codes http_failed = raised (construct client_error none none)
  settle parse_float raise_codes crashed = propagated

  -- The variable `error` at the `finally`. It is not assigned where `raise_for_status` raises.
  unfoldable pub error_seen : Transport → Option (HttpError F)
  error_seen (answered response) = none
  error_seen timed_out = some (construct timeout none none)
  error_seen connect_failed = some (construct connection none none)
  error_seen (status_error response) =
      some (construct client_error (some response.status_code) none)
  error_seen http_failed = some (construct client_error none none)
  error_seen crashed = none

-- `response.status_code if response is not None else 0`
unfoldable pub status_seen : Transport → ℕ
status_seen (answered response) = response.status_code
status_seen _ = 0

-- A client's configuration and hooks, and its transport.
pub record TemplateHttpClient (F W : Type 0) : Type 0 where
  pub default_headers : Dict String
  pub propagate_correlation : Bool
  -- A request hook gives the new headers, or raises.
  pub request_hooks : List (Dict String → W → Option (Dict String) × W)
  -- A response hook's flag says that it raised; the exception is logged and dropped.
  pub response_hooks : List (ℕ → Option (HttpError F) → W → Bool × W)
  pub send : Dict String → W → Transport × W

unfoldable pub run_request_hooks :
    {W : Type 0}
    → List (Dict String → W → Option (Dict String) × W)
    → Dict String
    → W
    → Option (Dict String) × W
run_request_hooks [] headers w = (some headers, w)
run_request_hooks (hook ∷ hooks) headers w =
    let (given, w') = hook headers w in
    elim given [ none ↦ (none, w') | some headers' ↦ run_request_hooks hooks headers' w' ]

module _ {F W : Type 0} where
  unfoldable pub run_response_hooks :
      List (ℕ → Option (HttpError F) → W → Bool × W) → ℕ → Option (HttpError F) → W → W
  run_response_hooks [] status error w = w
  run_response_hooks (hook ∷ hooks) status error w =
      let (raises, w') = hook status error w in run_response_hooks hooks status error w'

  -- What follows the request hooks: the `try` statement.
  exchange :
      (String → Option F) → TemplateHttpClient F W → Bool → Option (Dict String) × W → Sent F × W
  unfolding settle error_seen status_seen run_response_hooks
  exchange parse_float client raise_codes (none, w) = (propagated, w)
  exchange parse_float client raise_codes (some headers, w) =
      let (transport, w') = client.send headers w in
      (
        settle parse_float raise_codes transport,
        run_response_hooks client.response_hooks (status_seen transport) (error_seen transport) w',
      )

  unfoldable pub request :
      (String → Option F)
      → TemplateHttpClient F W
      → Bool
      → Option (Dict String)
      → Dict String
      → W
      → Sent F × W
  unfolding exchange merge_headers run_request_hooks
  request parse_float client raise_codes headers correlation w =
      exchange parse_float client raise_codes (
        run_request_hooks client.request_hooks
          (merge_headers client.propagate_correlation client.default_headers headers correlation) w)
