-- ===== src/Workflow/Runner/Success.antt =====
-- What one run of a step that succeeds does to an execution.
use fast_api_boilerplate.Base.{ℕ, ◌+◌, ◌≡◌, refl, Option, none, String, ap, ◌∙◌}
use fast_api_boilerplate.Workflow.{
  StepStatus, WorkflowStep, WorkflowDefinition, WorkflowExecution, StepResult, StepRun, returned,
  raised, WorkflowContext,
}
use fast_api_boilerplate.Workflow.State.{
  override_of, state_of, attempts_of, set_state, start_state, update_step_state,
}
use fast_api_boilerplate.Workflow.Runner.{execute_step, after_run, build_context}

-- A run that returned a success and names no other step to go on with.
pub record IsSuccess {V : Type 0} (ran : StepRun V) : Type 0 where
  pub result : StepResult V
  pub returns : ran ≡ returned result
  pub says_succeeded : result.status ≡ StepStatus.succeeded
  pub goes_on : override_of result.next_step_override ≡ none

-- The result that the runner goes on with, and the completed steps, which it has not changed.
pub record Succeeded {V P : Type 0} (e : WorkflowExecution V P) (result : StepResult V)
    (e' : WorkflowExecution V P) : Type 0 where
  pub says_succeeded : result.status ≡ StepStatus.succeeded
  pub goes_on : override_of result.next_step_override ≡ none
  pub same_completed : e'.context.completed_steps ≡ e.context.completed_steps

not_raised :
    {V : Type 0} (message : String) (code : Option String) (result : StepResult V)
    → raised message code ≡ returned result
    → ⊥
not_raised message code result h = cc

same_result : {V : Type 0} {r r' : StepResult V} → returned r ≡ returned r' → r ≡ r'
same_result h = cc

module _ {V P W : Type 0} where
  abbrev pub AlwaysSucceeds : WorkflowStep V P W → Type 0
  AlwaysSucceeds step =
      (context : WorkflowContext V P) (w : W) → IsSuccess (step.execute context w).0

  after_run-success :
      (now attempt : ℕ) (name : String) (e : WorkflowExecution V P) (ran : StepRun V × W)
      → IsSuccess ran.0
      → let (result, e', w') = after_run now attempt name e ran in Succeeded e result e'
  unfolding after_run update_step_state
  after_run-success now attempt name e (returned result, w) h =
      let same = same_result h.returns in
      record {
        says_succeeded = ap (λ r. r.status) same ∙ h.says_succeeded;
        goes_on = ap (λ r. override_of r.next_step_override) same ∙ h.goes_on;
        same_completed = refl;
      }
  after_run-success now attempt name e (raised message code, w) h =
      absurd (not_raised message code h.result h.returns)

  pub execute_step-success :
      (definition : WorkflowDefinition V P W) (now : ℕ) (e : WorkflowExecution V P)
      (step : WorkflowStep V P W) (w : W)
      → AlwaysSucceeds step
      → let (result, e', w') = execute_step definition now e step w in Succeeded e result e'
  unfolding execute_step update_step_state
  execute_step-success definition now e step w h =
      let attempt = attempts_of (state_of step.step_name e.context) + 1 in
      let context = build_context definition e step in
      let r =
        after_run-success now attempt step.step_name
          (set_state step.step_name (start_state now attempt) e) (step.execute context w)
          (h context w) in
      record {
        says_succeeded = r.says_succeeded;
        goes_on = r.goes_on;
        same_completed = r.same_completed;
      }
