-- ===== src/Backoff.antt =====
-- src/app/core/worker/retry.py: backoff delays and failure categories of the worker's jobs.
-- `random.uniform` draws from the state `seed`; a `ValueError` is `none`.
pub mod Delays
use fast_api_boilerplate.Base.{
  ℕ, ◌^◌, Bool, true, false, not, ◌||◌, Option, none, some, String, List, [], ◌∷◌, str_eq,
  if◌then◌else◌,
}
use fast_api_boilerplate.Base.Int.{ℤ, pos, negsuc}
use fast_api_boilerplate.Floats.{Floats, fmin}

module _ (fl : Floats) where
  open fl use {F}

  non_negative : ℤ → Option ℕ
  non_negative (pos n) = some n
  non_negative (negsuc n) = none

  -- The three tests that open both functions.
  arguments_ok : F → ℤ → F → Option ℕ
  unfolding non_negative
  arguments_ok base_delay attempt max_delay =
      if fl.ltb base_delay fl.zero
      then none
      else if fl.ltb max_delay base_delay
      then none
      else non_negative attempt

  exponential : F → ℕ → F → F
  exponential base_delay attempt max_delay =
      fmin fl (fl.mul base_delay (fl.of_nat (2 ^ attempt))) max_delay

  unfoldable pub calculate_backoff_delay : ℕ → F → ℤ → F → Option F
  unfolding arguments_ok exponential
  calculate_backoff_delay seed base_delay attempt max_delay =
      elim (arguments_ok base_delay attempt max_delay) [
        | none ↦ none
        | some n ↦ some (fl.uniform seed fl.zero (exponential base_delay n max_delay))
      ]

  unfoldable pub calculate_backoff_delay_deterministic : F → ℤ → F → Option F
  unfolding arguments_ok exponential
  calculate_backoff_delay_deterministic base_delay attempt max_delay =
      elim (arguments_ok base_delay attempt max_delay) [
        | none ↦ none
        | some n ↦ some (exponential base_delay n max_delay)
      ]

  pub record BackoffPolicy : Type 0 where
    pub base_delay_seconds : F
    pub max_delay_seconds : F
    pub multiplier : F
    pub jitter : Bool

  -- `BackoffPolicy(...)`: `__post_init__` raises where a parameter is out of range.
  unfoldable pub build_policy : F → F → F → Bool → Option BackoffPolicy
  build_policy base_delay max_delay multiplier jitter =
      if fl.ltb base_delay fl.zero
      then none
      else if fl.ltb max_delay base_delay
      then none
      else if fl.ltb fl.zero multiplier
      then some (record {
        base_delay_seconds = base_delay;
        max_delay_seconds = max_delay;
        multiplier = multiplier;
        jitter = jitter;
      })
      else none

  unfoldable pub delay_for_attempt : BackoffPolicy → ℕ → ℕ → F
  delay_for_attempt policy seed attempt =
      let delay = fl.mul policy.base_delay_seconds (fl.pow policy.multiplier attempt) in
      let capped = fmin fl delay policy.max_delay_seconds in
      if policy.jitter then fl.uniform seed fl.zero capped else capped

  abbrev pub backoff_fast : Option BackoffPolicy
  backoff_fast = build_policy (fl.of_nat 1) (fl.of_nat 30) (fl.of_nat 2) true

  abbrev pub backoff_standard : Option BackoffPolicy
  backoff_standard = build_policy (fl.of_nat 5) (fl.of_nat 300) (fl.of_nat 2) true

  abbrev pub backoff_slow : Option BackoffPolicy
  backoff_slow = build_policy (fl.of_nat 30) (fl.of_nat 1800) (fl.of_nat 2) true

-- `JobFailureCategory`, as its values.
abbrev pub non_retryable_categories : List String
non_retryable_categories =
    "invalid_payload" ∷ "authentication" ∷ "authorization" ∷ "not_found" ∷ "conflict" ∷ []

abbrev contains : String → List String → Bool
contains s [] = false
contains s (t ∷ ts) = str_eq s t || contains s ts

unfoldable pub is_retryable_category : String → Bool
is_retryable_category category = not (contains category non_retryable_categories)
