-- ===== src/HttpClient/RateLimit/Exhausted.antt =====
-- When a response counts as the last of its rate limit, and how long to wait then.
use fast_api_boilerplate.Base.{
  ℕ, zero, suc, ◌≡◌, refl, ◌↔◌, true, Option, none, some, String, List, arith, leb,
}
use fast_api_boilerplate.Base.Int.{ℤ, pos, negsuc}
use fast_api_boilerplate.Floats.{Floats}
use fast_api_boilerplate.HttpClient.RateLimit.{
  RateLimitInfo, get_header, safe_parse, or_int, is_exhausted, parse_rate_limit_headers,
  compute_rate_limit_delay, positive,
}

not_exhausted : (n : ℕ) → leb (suc n) 0 ≡ true → ⊥
not_exhausted n h = ground arith

module _ (fl : Floats) where
  open fl use {F}

  exhausted_iff :
      (parsed : Option ℤ) (limit : Option ℤ) (reset retry_after : Option F)
      → (is_exhausted fl (record {
        limit = limit;
        remaining = or_int parsed none;
        reset_seconds = reset;
        retry_after_seconds = retry_after;
      })
          ≡ true)
        ↔ ((n : ℕ) × (parsed ≡ some (negsuc n)))
  unfolding is_exhausted or_int
  exhausted_iff none limit reset retry_after = (λ h. cc, λ (n, h). cc)
  exhausted_iff (some (negsuc n)) limit reset retry_after = (λ h. (n, refl), λ h. refl)
  exhausted_iff (some (pos zero)) limit reset retry_after = (λ h. cc, λ (n, h). cc)
  exhausted_iff (some (pos (suc n))) limit reset retry_after =
      (λ h. absurd (not_exhausted n h), λ (n, h). cc)

  -- Where a response has no `RateLimit-Remaining` header, the parsed information is exhausted exactly
  -- when its `X-RateLimit-Remaining` header is a negative number, and so not when it is 0.
  pub parse_rate_limit_headers-exhausted_iff :
      (parse_int : String → Option ℤ) (parse_float : String → Option F)
      (headers : List (String × String))
      → get_header "ratelimit-remaining" headers ≡ none
      → (is_exhausted fl (parse_rate_limit_headers fl parse_int parse_float headers) ≡ true) ↔ (
          (n : ℕ) × (safe_parse parse_int (get_header "x-ratelimit-remaining" headers)
            ≡ some (negsuc n)))
  unfolding parse_rate_limit_headers
  parse_rate_limit_headers-exhausted_iff parse_int parse_float headers h =
      rw (h, safe_parse)
        (exhausted_iff (safe_parse parse_int (get_header "x-ratelimit-remaining" headers)) _ _ _)

  positive_value :
      (o : Option F) (default_delay : F)
      → fl.ltb fl.zero default_delay ≡ true
      → fl.ltb fl.zero (elim (positive fl o) [ some x ↦ x | none ↦ default_delay ]) ≡ true
  unfolding positive
  positive_value none default_delay h = h
  positive_value (some x) default_delay h = ground arith

  -- With a positive default, the delay for any information is positive, and it is the Retry-After
  -- value where that is positive.
  pub compute_rate_limit_delay-positive :
      (info : RateLimitInfo fl) (default_delay : F)
      → fl.ltb fl.zero default_delay ≡ true
      → (fl.ltb fl.zero (compute_rate_limit_delay fl info default_delay) ≡ true)
        × ((seconds : F)
            → info.retry_after_seconds ≡ some seconds
            → fl.ltb fl.zero seconds ≡ true
            → compute_rate_limit_delay fl info default_delay ≡ seconds)
  unfolding compute_rate_limit_delay positive
  compute_rate_limit_delay-positive info default_delay h = (
    positive_value info.retry_after_seconds _ (positive_value info.reset_seconds default_delay h),
    λ seconds s p. ground arith,
  )
