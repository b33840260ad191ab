-- ===== src/Webhooks/Processing/Decision.antt =====
-- When a failed webhook is tried again.
use fast_api_boilerplate.Base.{
  ◌<◌, ◌≡◌, refl, ◌↔◌, ◌⊎◌, inl, inr, Bool, true, false, some, List, [], ◌∷◌, arith,
}
use fast_api_boilerplate.Webhooks.Processing.{
  WebhookProcessingAttempt, retry, dead_letter, is_any, is_retryable, is_final_attempt,
  remaining_attempts, decide_retry,
}

module _ {C E : Type 0} (isinstance : E → C → Bool) where
  retryable_iff :
      (error : E) (classes : List C)
      → (is_retryable isinstance error classes ≡ true)
        ↔ ((classes ≡ []) ⊎ (is_any isinstance error classes ≡ true))
  unfolding is_retryable is_any
  retryable_iff error [] = (λ h. inl refl, λ h. refl)
  retryable_iff error (cls ∷ classes) = (λ h. inr h, λ h. ground arith)

  decided :
      (attempt : WebhookProcessingAttempt) (error : E) (retryable_errors permanent_errors : List C)
      → let decision =
          (decide_retry isinstance attempt error retryable_errors
            permanent_errors).retry_decision in
        ((decision ≡ some retry) ↔ (
          (is_any isinstance error permanent_errors ≡ false)
          × (0 < remaining_attempts attempt)
          × (is_retryable isinstance error retryable_errors ≡ true)))
        × ((decision ≡ some retry) ⊎ (decision ≡ some dead_letter))
  unfolding decide_retry is_final_attempt remaining_attempts
  decided attempt error retryable_errors permanent_errors =
      ((λ h. ground arith, λ h. ground arith), ground arith)

  -- A failed attempt is retried exactly where the error is none of the permanent ones, attempts
  -- remain, and the retryable errors are not given or the error is one of them; in every other case
  -- it is dead-lettered.
  pub decide_retry-retry_iff :
      (attempt : WebhookProcessingAttempt) (error : E) (retryable_errors permanent_errors : List C)
      → let decision =
          (decide_retry isinstance attempt error retryable_errors
            permanent_errors).retry_decision in
        ((decision ≡ some retry) ↔ (
          (is_any isinstance error permanent_errors ≡ false)
          × (0 < remaining_attempts attempt)
          × ((retryable_errors ≡ []) ⊎ (is_any isinstance error retryable_errors ≡ true))))
        × ((decision ≡ some retry) ⊎ (decision ≡ some dead_letter))
  decide_retry-retry_iff attempt error retryable_errors permanent_errors =
      let (only, either) = decided attempt error retryable_errors permanent_errors in
      let why = retryable_iff error retryable_errors in
      (
        (
          λ h. let (fresh, left, good) = only.0 h in (fresh, left, why.0 good),
          λ (fresh, left, good). only.1 (fresh, left, why.1 good),
        ),
        either,
      )
