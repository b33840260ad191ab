-- ===== src/Integration/PartialFailure.antt =====
-- src/app/integrations/contracts/resilience.py, `execute_with_partial_failure`: a bulk operation
-- with per-item errors and abort rules. The operation acts on a world `W`. The float
-- `max_failure_ratio` is the fraction `ratio_num / ratio_den`, and a comparison of two ratios is
-- multiplied out; the rounding of the two float divisions is left out.
pub mod Counts
pub mod Prefix
use fast_api_boilerplate.Base.{
  ℕ, suc, ◌+◌, ◌*◌, Bool, true, false, not, ◌&&◌, ◌||◌, Option, none, some, List, [], ◌∷◌, ◌++◌,
  ltb, leb, length, if◌then◌else◌,
}
use fast_api_boilerplate.Integration.Errors.{
  IntegrationError, is_auth_error, is_config_error, is_retryable_integration_error,
}

pub record PartialFailurePolicy : Type 0 where
  pub ratio_num : ℕ
  pub ratio_den : ℕ
  pub fail_fast_on_auth : Bool
  pub fail_fast_on_config : Bool
  pub collect_errors : Bool

-- `__post_init__`: the ratio lies between 0 and 1.
unfoldable pub build_policy : ℕ → ℕ → Bool → Bool → Bool → Option PartialFailurePolicy
build_policy num den auth config collect =
    if ltb 0 den && leb num den
    then some (record {
      ratio_num = num;
      ratio_den = den;
      fail_fast_on_auth = auth;
      fail_fast_on_config = config;
      collect_errors = collect;
    })
    else none

pub data PartialFailureOutcome : Type 0 where
  all_succeeded partial_success all_failed aborted : PartialFailureOutcome

module _ (F I T : Type 0) where
  -- What awaiting `operation(item)` does. Only an `IntegrationError` is caught.
  pub data ItemRun : Type 0 where
    returned : T → ItemRun
    failed : IntegrationError F → ItemRun
    crashed : ItemRun

  pub record PartialFailureResult : Type 0 where
    pub outcome : PartialFailureOutcome
    pub succeeded : List T
    pub failures : List (I × IntegrationError F)
    pub aborted_at : Option ℕ
    pub total : ℕ

  -- The loop's variables.
  pub record Progress : Type 0 where
    pub succeeded : List T
    pub failures : List (I × IntegrationError F)

  add_success : T → Progress → Progress
  add_success value p = record p { succeeded = p.succeeded ++ (value ∷ []) }

  add_failure : I → IntegrationError F → Progress → Progress
  add_failure item e p = record p { failures = p.failures ++ ((item, e) ∷ []) }

  -- `len(failed) / (idx + 1) > max_failure_ratio`
  ratio_exceeded : PartialFailurePolicy → ℕ → ℕ → Bool
  ratio_exceeded policy idx failed_count =
      ltb (policy.ratio_num * (idx + 1)) (failed_count * policy.ratio_den)

  -- The four tests that break the loop after a failure was recorded.
  must_abort : PartialFailurePolicy → ℕ → IntegrationError F → Progress → Bool
  unfolding ratio_exceeded
  must_abort policy idx e p =
      (policy.fail_fast_on_auth && is_auth_error e)
      || (policy.fail_fast_on_config && is_config_error e)
      || ratio_exceeded policy idx (length p.failures)
      || not policy.collect_errors

  -- What the loop ends with: the progress and `aborted_at`, or an exception that propagates.
  pub data LoopEnd : Type 0 where
    finished : Progress → Option ℕ → LoopEnd
    propagated : LoopEnd

  finish : PartialFailurePolicy → ℕ → Progress → Option ℕ → PartialFailureResult
  finish policy total p aborted_at = record {
    outcome = elim aborted_at [
      | some idx ↦ aborted
      | none ↦
          if leb (length p.failures) 0
          then all_succeeded
          else if leb (length p.succeeded) 0
          then all_failed
          else partial_success
    ];
    succeeded = p.succeeded;
    failures = p.failures;
    aborted_at = aborted_at;
    total = total;
  }

  module _ {W : Type 0} where
    -- `loop idx p items` with a helper for what one item's run leads to. `rest` is the loop over the
    -- remaining items.
    after_item :
        PartialFailurePolicy
        → ℕ
        → I
        → Progress
        → (Progress → W → LoopEnd × W)
        → ItemRun × W
        → LoopEnd × W
    unfolding add_success add_failure must_abort
    after_item policy idx item p rest (returned value, w) = rest (add_success value p) w
    after_item policy idx item p rest (failed e, w) =
        let p' = add_failure item e p in
        if must_abort policy idx e p' then (finished p' (some idx), w) else rest p' w
    after_item policy idx item p rest (crashed, w) = (propagated, w)

    loop : PartialFailurePolicy → (I → W → ItemRun × W) → ℕ → List I → Progress → W → LoopEnd × W
    unfolding after_item
    loop policy operation idx [] p w = (finished p none, w)
    loop policy operation idx (item ∷ items) p w =
        after_item policy idx item p (loop policy operation (suc idx) items) (operation item w)

    conclude : PartialFailurePolicy → ℕ → LoopEnd × W → Option PartialFailureResult × W
    unfolding finish
    conclude policy total (finished p aborted_at, w) = (some (finish policy total p aborted_at), w)
    conclude policy total (propagated, w) = (none, w)

    -- `none` where an exception of the operation propagates.
    unfoldable pub execute_with_partial_failure :
        PartialFailurePolicy → List I → (I → W → ItemRun × W) → W → Option PartialFailureResult × W
    unfolding loop conclude
    execute_with_partial_failure policy items operation w =
        conclude policy (length items)
          (loop policy operation 0 items (record { succeeded = []; failures = [] }) w)

-- The property `retryable_failures` of a result.
unfoldable pub retryable_failures :
    {F I : Type 0} → List (I × IntegrationError F) → List (I × IntegrationError F)
retryable_failures [] = []
retryable_failures ((item, e) ∷ rest) =
    let kept = retryable_failures rest in
    if is_retryable_integration_error e then (item, e) ∷ kept else kept
