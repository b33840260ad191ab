-- ===== src/Workflow/Advance/Retries.antt =====
-- One `advance` of an execution at a step that always fails.
use fast_api_boilerplate.Base.{ℕ, ◌+◌, ◌<◌, ◌≡◌, some, arith, ◌∙◌, sym, ap, subst}
use fast_api_boilerplate.Workflow.{
  StepStatus, WorkflowStep, WorkflowDefinition, WorkflowExecution, WorkflowExecutionStatus,
  StepResult,
}
use fast_api_boilerplate.Workflow.Definition.{get_step}
use fast_api_boilerplate.Workflow.State.{state_of, attempts_of, max_attempts_of}
use fast_api_boilerplate.Workflow.Runner.{ok, execute_step, handle_step_failure}
use fast_api_boilerplate.Workflow.Runner.Failure.{
  AlwaysFails, execute_step-fails, handle_step_failure-retry, handle_step_failure-over, GaveUp,
}
use fast_api_boilerplate.Workflow.Advance.{advance, advance_step, settle}

module _ {V P W : Type 0} where
  pub advance_here :
      (definition : WorkflowDefinition V P W) (now : ℕ) (e : WorkflowExecution V P)
      (step : WorkflowStep V P W) (w : W)
      → e.current_step ≡ some step.step_name
      → get_step definition step.step_name ≡ some step
      → advance definition now e w
        ≡ (ok (advance_step definition now e step w).0, (advance_step definition now e step w).1)
  unfolding advance
  advance_here definition now e step w current found = ground arith

  settle_failed :
      (definition : WorkflowDefinition V P W) (now : ℕ) (step : WorkflowStep V P W)
      (status : StepStatus) (result : StepResult V) (e : WorkflowExecution V P) (w : W)
      → status ≡ StepStatus.failed
      → settle definition now step status result e w
        ≡ handle_step_failure definition now e step result w
  unfolding settle
  settle_failed definition now step status result e w h = rw h

  advance_step-fails :
      (definition : WorkflowDefinition V P W) (now : ℕ) (e : WorkflowExecution V P)
      (step : WorkflowStep V P W) (w : W)
      → AlwaysFails step
      → let (result, e₁, w₁) = execute_step definition now e step w in
        advance_step definition now e step w ≡ handle_step_failure definition now e₁ step result w₁
  unfolding advance_step
  advance_step-fails definition now e step w h =
      let (result, e₁, w₁) = execute_step definition now e step w in
      settle_failed definition now step result.status result e₁ w₁
        (execute_step-fails definition now e step w h).says_failed

  -- How an execution stands at a step after some failures.
  pub record Tried (step : WorkflowStep V P W) (attempts : ℕ) (e : WorkflowExecution V P)
      : Type 0 where
    pub at_step : e.current_step ≡ some step.step_name
    pub counted : attempts_of (state_of step.step_name e.context) ≡ attempts

  pub fail_again :
      (definition : WorkflowDefinition V P W) (now : ℕ) (e : WorkflowExecution V P)
      (step : WorkflowStep V P W) (a : ℕ) (w : W)
      → AlwaysFails step
      → Tried step a e
      → a + 1 < max_attempts_of step.retry_policy
      → let e' = (advance_step definition now e step w).0 in
        Tried step (a + 1) e'
        × (e'.status ≡ WorkflowExecutionStatus.waiting)
        × (e'.context.compensation_log ≡ e.context.compensation_log)
  fail_again definition now e step a w h t lt =
      let (result, e₁, w₁) = execute_step definition now e step w in
      let ran = execute_step-fails definition now e step w h in
      let counted = ran.counted ∙ ap (λ n. n + 1) t.counted in
      let r =
        handle_step_failure-retry definition now e₁ step result w₁
          (subst (λ n. n < max_attempts_of step.retry_policy) (sym counted) lt) in
      rw (advance_step-fails definition now e step w h) (
        record { at_step = r.1 ∙ ran.same_current ∙ t.at_step; counted = r.2 ∙ counted },
        r.0,
        r.3 ∙ ran.same_log,
      )

  pub fail_finally :
      (definition : WorkflowDefinition V P W) (now : ℕ) (e : WorkflowExecution V P)
      (step : WorkflowStep V P W) (a : ℕ) (w : W)
      → AlwaysFails step
      → get_step definition step.step_name ≡ some step
      → Tried step a e
      → a + 1 ≡ max_attempts_of step.retry_policy
      → let (result, e₁, w₁) = execute_step definition now e step w in
        let (e', w') = advance_step definition now e step w in
        GaveUp definition now step e₁ w₁ e' w'
        × (attempts_of (state_of step.step_name e'.context) ≡ a + 1)
        × (e₁.context.compensation_log ≡ e.context.compensation_log)
  fail_finally definition now e step a w h found t last =
      let (result, e₁, w₁) = execute_step definition now e step w in
      let ran = execute_step-fails definition now e step w h in
      let counted = ran.counted ∙ ap (λ n. n + 1) t.counted in
      let g =
        handle_step_failure-over definition now e₁ step result w₁ found
          (omega (arith, counted, last)) in
      rw (advance_step-fails definition now e step w h) (g, g.counted ∙ counted, ran.same_log)
