-- ===== src/Webhooks/Processing.antt =====
-- src/app/webhooks/processing.py: the retry decision after a failed processing attempt.
-- `isinstance` on an error of type `E` and a class of type `C` is an argument. Texts, times and
-- metadata are left out of the outcome.
pub mod Decision
pub mod JobRequest
pub mod Acknowledgement
use fast_api_boilerplate.Base.{
  ℕ, ◌-◌, Bool, true, false, Option, none, some, List, [], ◌∷◌, leb, ◌||◌, ◌&&◌, if◌then◌else◌,
}

pub data WebhookProcessingStatus : Type 0 where
  started succeeded failed_retryable failed_permanent dead_lettered : WebhookProcessingStatus

pub data WebhookRetryDecision : Type 0 where
  retry dead_letter discard : WebhookRetryDecision

pub record WebhookProcessingAttempt : Type 0 where
  pub webhook_event_id : ℕ
  pub attempt_number : ℕ
  pub max_attempts : ℕ

-- `WebhookProcessingAttempt(...)`: `__post_init__` raises below 1.
unfoldable pub build_attempt : ℕ → ℕ → ℕ → Option WebhookProcessingAttempt
build_attempt event attempt_number max_attempts =
    if leb 1 attempt_number && leb 1 max_attempts
    then some (record {
      webhook_event_id = event;
      attempt_number = attempt_number;
      max_attempts = max_attempts;
    })
    else none

unfoldable pub is_final_attempt : WebhookProcessingAttempt → Bool
is_final_attempt attempt = leb attempt.max_attempts attempt.attempt_number

-- `max(max_attempts - attempt_number, 0)`: the subtraction of ℕ stops at 0.
unfoldable pub remaining_attempts : WebhookProcessingAttempt → ℕ
remaining_attempts attempt = attempt.max_attempts - attempt.attempt_number

pub record WebhookProcessingOutcome : Type 0 where
  pub attempt : WebhookProcessingAttempt
  pub status : WebhookProcessingStatus
  pub retry_decision : Option WebhookRetryDecision

-- The property `succeeded`, whose name the status has here.
unfoldable pub is_succeeded : WebhookProcessingOutcome → Bool
is_succeeded outcome = elim outcome.status [ succeeded ↦ true | _ ↦ false ]

unfoldable pub should_retry : WebhookProcessingOutcome → Bool
should_retry outcome = elim outcome.retry_decision [ some retry ↦ true | _ ↦ false ]

unfoldable pub should_dead_letter : WebhookProcessingOutcome → Bool
should_dead_letter outcome = elim outcome.retry_decision [ some dead_letter ↦ true | _ ↦ false ]

unfoldable pub build_success_outcome : WebhookProcessingAttempt → WebhookProcessingOutcome
build_success_outcome attempt = record {
  attempt = attempt;
  status = WebhookProcessingStatus.succeeded;
  retry_decision = none;
}

module _ {C E : Type 0} (isinstance : E → C → Bool) where
  -- `isinstance(error, classes)` for a tuple of classes.
  unfoldable pub is_any : E → List C → Bool
  is_any error [] = false
  is_any error (cls ∷ classes) = isinstance error cls || is_any error classes

  is_retryable : E → List C → Bool
  unfolding is_any
  is_retryable error [] = true
  is_retryable error (cls ∷ classes) = is_any error (cls ∷ classes)

  unfoldable pub decide_retry :
      WebhookProcessingAttempt → E → List C → List C → WebhookProcessingOutcome
  unfolding is_any is_final_attempt is_retryable
  decide_retry attempt error retryable_errors permanent_errors =
      if is_any error permanent_errors
      then record {
        attempt = attempt;
        status = failed_permanent;
        retry_decision = some dead_letter;
      }
      else if is_final_attempt attempt
      then record {
        attempt = attempt;
        status = failed_retryable;
        retry_decision = some dead_letter;
      }
      else if is_retryable error retryable_errors
      then record { attempt = attempt; status = failed_retryable; retry_decision = some retry }
      else record {
        attempt = attempt;
        status = failed_permanent;
        retry_decision = some dead_letter;
      }
