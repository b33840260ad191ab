-- ===== src/Tests/Client.antt =====
-- Runs of the HTTP client's request and of its reading of rate-limit headers.
use fast_api_boilerplate.Base.{
  ℕ, ◌+◌, ◌≡◌, refl, ◌↔◌, ◌⊎◌, true, false, String, Option, none, some, List, [], ◌∷◌,
}
use fast_api_boilerplate.Base.Ascii.{codes_eq}
use fast_api_boilerplate.Base.Dict.{Dict, lookup, insert}
use fast_api_boilerplate.Base.Int.{ℤ, pos, negsuc}
use fast_api_boilerplate.Tests.Samples.{nat_floats}
use fast_api_boilerplate.HttpClient.Errors.{HttpError, Response, raise_for_status}
use fast_api_boilerplate.HttpClient.Client.{
  answered, received, raised, run_request_hooks, merge_headers, update, set_defaults,
  TemplateHttpClient, request,
}
use fast_api_boilerplate.HttpClient.Client.Headers.{merge_headers-lookup, or_else, given_value}
use fast_api_boilerplate.HttpClient.Client.Outcome.{
  Passes, observed, request-received_iff, request-unseen_error,
}
use fast_api_boilerplate.HttpClient.RateLimit.{
  RateLimitInfo, get_header, safe_parse, is_exhausted, parse_rate_limit_headers,
}
use fast_api_boilerplate.HttpClient.RateLimit.Exhausted.{parse_rate_limit_headers-exhausted_iff}

abbrev defaults : Dict String
defaults = ("accept", "json") ∷ []

abbrev given : Dict String
given = ("accept", "text") ∷ []

abbrev correlation : Dict String
correlation = ("x-request-id", "7") ∷ []

merge_headers-lookup_example :
    lookup "accept" (merge_headers true defaults (some given) correlation)
    ≡ or_else
        (given_value (some given) "accept")
        (or_else (lookup "accept" defaults) (lookup "accept" correlation))
merge_headers-lookup_example = merge_headers-lookup true defaults (some given) correlation "accept"

abbrev parse : String → Option ℕ
parse text = none

abbrev failure : Response
failure = record { status_code = 503; is_success = false; retry_after = none }

-- The world counts the calls; the response hook raises.
abbrev client : TemplateHttpClient ℕ ℕ
client = record {
  default_headers = defaults;
  propagate_correlation = true;
  request_hooks = (λ headers w. (some headers, w + 1)) ∷ [];
  response_hooks = (λ status error w. (true, w + status)) ∷ [];
  send = λ headers w. (answered failure, w + 10);
}

abbrev sent_headers : Dict String
sent_headers = ("accept", "text") ∷ ("x-request-id", "7") ∷ []

hooks_pass :
    run_request_hooks client.request_hooks (merge_headers true defaults (some given) correlation) 0
    ≡ (some sent_headers, 1)
unfolding run_request_hooks merge_headers update set_defaults lookup insert
hooks_pass = refl

abbrev passes : Passes client (some given) correlation 0 (answered failure) 11
passes = record { final = sent_headers; between = 1; passed = hooks_pass; sent = refl }

request-received_iff_example :
    ((request parse client false (some given) correlation 0).0 ≡ received failure)
    ↔ ((answered failure ≡ answered failure) × ((false ≡ false) ⊎ (failure.is_success ≡ true)))
request-received_iff_example =
    request-received_iff parse client false (some given) correlation (answered failure) 0 11 failure
      passes

request-unseen_error_example :
    (e : HttpError ℕ) × (raise_for_status parse failure ≡ some e)
    × (request parse client true (some given) correlation 0
        ≡ (raised e, observed client.response_hooks 503 none 11))
request-unseen_error_example =
    request-unseen_error parse client (some given) correlation failure 0 11 passes refl

abbrev parse_int : String → Option ℤ
parse_int text = some (pos 0)

abbrev response_headers : List (String × String)
response_headers = ("X-RateLimit-Remaining", "0") ∷ []

no_draft_header : get_header "ratelimit-remaining" response_headers ≡ none
unfolding get_header codes_eq
no_draft_header = refl

parse_rate_limit_headers-exhausted_iff_example :
    (is_exhausted nat_floats (parse_rate_limit_headers nat_floats parse_int parse response_headers)
      ≡ true)
    ↔ ((n : ℕ) × (safe_parse parse_int (get_header "x-ratelimit-remaining" response_headers)
          ≡ some (negsuc n)))
parse_rate_limit_headers-exhausted_iff_example =
    parse_rate_limit_headers-exhausted_iff nat_floats parse_int parse response_headers
      no_draft_header

abbrev info : RateLimitInfo nat_floats
info = record {
  limit = none;
  remaining = none;
  reset_seconds = some 0;
  retry_after_seconds = some 9;
}
