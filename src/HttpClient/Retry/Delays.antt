-- ===== src/HttpClient/Retry/Delays.antt =====
-- Bounds on the delays between the attempts of one request.
use fast_api_boilerplate.Base.{
  ℕ, ◌≡◌, true, Option, none, some, refl, ◌⊎◌, inl, inr, ap, sym, subst, Bool-cases,
}
use fast_api_boilerplate.Floats.{Floats, AtMost, fmin, fmin-le_right, le-fmin, capped_bounds}
use fast_api_boilerplate.HttpClient.Errors.{HttpErrorClass, HttpError, rate_limit}
use fast_api_boilerplate.HttpClient.Retry.{
  HttpRetryPolicy, delay_for_attempt, resolve_class, resolve_retry_delay,
}

module _ (fl : Floats) where
  open fl use {F}

  -- The parameters under which the exponential delay makes sense.
  pub record IsUsable (policy : HttpRetryPolicy fl) : Type 0 where
    pub base_nonneg : AtMost fl fl.zero policy.backoff_base
    pub max_nonneg : AtMost fl fl.zero policy.backoff_max
    pub multiplier_pos : fl.ltb fl.zero policy.backoff_multiplier ≡ true

  pub delay_bounds :
      (policy : HttpRetryPolicy fl) (seed attempt : ℕ)
      → IsUsable policy
      → let d = delay_for_attempt fl policy seed attempt in
        AtMost fl fl.zero d × AtMost fl d policy.backoff_max
  unfolding delay_for_attempt
  delay_bounds policy seed attempt u =
      capped_bounds fl _ policy.backoff_max policy.jitter seed
        (fl.mul_nonneg _ _ u.base_nonneg (fl.pow_nonneg _ attempt u.multiplier_pos)) u.max_nonneg

  -- What the delay is at least: 0, or the negative value that the server has sent.
  abbrev pub FromZero : Option F → F → Type 0
  FromZero retry_after d =
      AtMost fl fl.zero d ⊎ ((retry_after ≡ some d) × (fl.ltb d fl.zero ≡ true))

  fmin-negative : (s y : F) → fl.ltb s fl.zero ≡ true → AtMost fl fl.zero y → fmin fl s y ≡ s
  fmin-negative s y below nonneg =
      rw (fl.trans_le s fl.zero y (fl.lt_le s fl.zero below) nonneg) refl

  resolve_bounds :
      (cls : HttpErrorClass) (retry_after : Option F) (policy : HttpRetryPolicy fl)
      (seed attempt : ℕ)
      → IsUsable policy
      → let d = resolve_class fl cls retry_after policy seed attempt in
        FromZero retry_after d × AtMost fl d policy.backoff_max
  unfolding resolve_class
  resolve_bounds rate_limit (some s) policy seed attempt u = elim (Bool-cases (fl.ltb s fl.zero)) [
    | inl below ↦
        let same = fmin-negative s policy.backoff_max below u.max_nonneg in
        (
          inr (ap some (sym same), subst (λ d. fl.ltb d fl.zero ≡ true) (sym same) below),
          fmin-le_right fl s _,
        )
    | inr from ↦
        (inl (le-fmin fl s policy.backoff_max fl.zero from u.max_nonneg), fmin-le_right fl s _)
  ]
  resolve_bounds rate_limit none policy seed attempt u =
      let (least, most) = delay_bounds policy seed attempt u in (inl least, most)
  resolve_bounds _ _ policy seed attempt u =
      let (least, most) = delay_bounds policy seed attempt u in (inl least, most)

  -- Where the policy's base and cap are not negative and its multiplier is positive, the delay before
  -- the next attempt is at most the policy's cap for every error and every Retry-After value, and it
  -- is at least 0 unless it is a negative Retry-After value itself.
  pub resolve_retry_delay_bounds :
      (error : HttpError F) (seed attempt : ℕ) (policy : HttpRetryPolicy fl)
      → IsUsable policy
      → let d = resolve_retry_delay fl error seed attempt policy in
        FromZero error.retry_after_seconds d × AtMost fl d policy.backoff_max
  unfolding resolve_retry_delay
  resolve_retry_delay_bounds error seed attempt policy u =
      resolve_bounds error.cls error.retry_after_seconds policy seed attempt u
