-- ===== src/HttpClient/RateLimit.antt =====
-- src/app/integrations/http_client/rate_limit.py: the rate-limit headers of a response.
-- `int(value.strip())` and `float(value.strip())` are the arguments `parse_int` and `parse_float`,
-- with `none` where they raise.
pub mod Exhausted
use fast_api_boilerplate.Base.{
  ℕ, zero, ◌*◌, ◌==◌, ◌+◌, Bool, true, false, Option, none, some, String, List, [], ◌∷◌, ltb, leb,
  if◌then◌else◌, ◌&&◌, not, map,
}
use fast_api_boilerplate.Base.Int.{ℤ, pos, negsuc}
use fast_api_boilerplate.Floats.{Floats}
use fast_api_boilerplate.Base.Ascii.{codes, codes_eq}

-- `str.lower` on ASCII text; header names are ASCII.
lower : String → List ℕ
lower s = map (λ c. if leb b'A' c && leb c b'Z' then c + 32 else c) (codes s)

-- `header_map.get(name)`: of the keys that agree in lower case, the last one counts.
unfoldable pub get_header : String → List (String × String) → Option String
unfolding lower codes_eq
get_header name [] = none
get_header name ((key, value) ∷ headers) = elim (get_header name headers) [
  | some last ↦ some last
  | none ↦ if codes_eq (lower key) (codes name) then some value else none
]

unfoldable pub safe_parse : {A : Type 0} → (String → Option A) → Option String → Option A
safe_parse parse none = none
safe_parse parse (some value) = parse value

-- `a or b`, for integers: `None` and `0` are false.
unfoldable pub or_int : Option ℤ → Option ℤ → Option ℤ
or_int none b = b
or_int (some (pos zero)) b = b
or_int (some n) b = some n

module _ (fl : Floats) where
  open fl use {F}

  pub record RateLimitInfo : Type 0 where
    pub limit : Option ℤ
    pub remaining : Option ℤ
    pub reset_seconds : Option F
    pub retry_after_seconds : Option F

  unfoldable pub is_exhausted : RateLimitInfo → Bool
  is_exhausted info = elim (info.remaining) [
    | none ↦ false
    | some (pos n) ↦ leb n 0
    | some (negsuc n) ↦ true
  ]

  -- `remaining / limit < 0.1` is multiplied out; the rounding of the quotient is left out.
  approaching : Option ℤ → Option ℤ → Bool
  approaching (some (pos limit)) (some (pos remaining)) = ltb 0 limit && ltb (10 * remaining) limit
  approaching (some (pos limit)) (some (negsuc remaining)) = ltb 0 limit
  approaching _ _ = false

  unfoldable pub is_approaching_limit : RateLimitInfo → Bool
  unfolding approaching
  is_approaching_limit info = approaching info.limit info.remaining

  -- `a or b`, for floats: `None` and zero are false.
  or_float : Option F → Option F → Option F
  or_float none b = b
  or_float (some x) b = if fl.ltb x fl.zero then some x else if fl.ltb fl.zero x then some x else b

  unfoldable pub parse_rate_limit_headers :
      (String → Option ℤ) → (String → Option F) → List (String × String) → RateLimitInfo
  unfolding get_header safe_parse or_int or_float
  parse_rate_limit_headers parse_int parse_float headers = record {
    limit =
        or_int (safe_parse parse_int (get_header "x-ratelimit-limit" headers))
          (safe_parse parse_int (get_header "ratelimit-limit" headers));
    remaining =
        or_int (safe_parse parse_int (get_header "x-ratelimit-remaining" headers))
          (safe_parse parse_int (get_header "ratelimit-remaining" headers));
    reset_seconds =
        or_float (safe_parse parse_float (get_header "x-ratelimit-reset" headers))
          (safe_parse parse_float (get_header "ratelimit-reset" headers));
    retry_after_seconds = safe_parse parse_float (get_header "retry-after" headers);
  }

  -- The value where it is there and positive.
  positive : Option F → Option F
  positive none = none
  positive (some x) = if fl.ltb fl.zero x then some x else none

  unfoldable pub compute_rate_limit_delay : RateLimitInfo → F → F
  unfolding positive
  compute_rate_limit_delay info default_delay = elim (positive info.retry_after_seconds) [
    | some seconds ↦ seconds
    | none ↦ elim (positive info.reset_seconds) [ some seconds ↦ seconds | none ↦ default_delay ]
  ]
