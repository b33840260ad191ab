-- ===== src/Workflow/Advance.antt =====
-- `WorkflowRunner.advance` and `resume`.
pub mod Invariant
pub mod Reachable
pub mod Completion
pub mod Exhaustion
pub mod Retries
pub mod Waiting
use fast_api_boilerplate.Base.{
  ℕ, Bool, true, false, Option, none, some, String, List, [], ◌∷◌, ◌++◌, ltb, if◌then◌else◌,
}
use fast_api_boilerplate.Workflow.{
  StepStatus, WorkflowExecutionStatus, StepResult, WorkflowStep, WorkflowDefinition,
  WorkflowExecution,
}
use fast_api_boilerplate.Workflow.Definition.{get_step, get_next_step}
use fast_api_boilerplate.Workflow.Runner.{
  Result, ok, err, no_current_step, step_not_found, cannot_resume, execute_step,
  handle_step_failure,
}
use fast_api_boilerplate.Workflow.State.{
  override_of, complete, is_resumable, still_waiting, state_of,
}

module _ {V P W : Type 0} where
  -- The next step of a step that succeeded or was skipped.
  choose_next : WorkflowDefinition V P W → String → Option String → Option (WorkflowStep V P W)
  choose_next definition current none = get_next_step definition current
  choose_next definition current (some name) = get_step definition name

  move_to : ℕ → Option (WorkflowStep V P W) → WorkflowExecution V P → WorkflowExecution V P
  move_to now none execution = record execution {
    status = WorkflowExecutionStatus.succeeded;
    completed_at = some now;
    last_transition_at = now;
  }
  move_to now (some next) execution = record execution {
    current_step = some next.step_name;
    status = WorkflowExecutionStatus.running;
    last_transition_at = now;
  }

  settle :
      WorkflowDefinition V P W
      → ℕ
      → WorkflowStep V P W
      → StepStatus
      → StepResult V
      → WorkflowExecution V P
      → W
      → WorkflowExecution V P × W
  unfolding choose_next move_to complete
  settle definition now step StepStatus.succeeded result execution w = (
    move_to now (choose_next definition step.step_name (override_of result.next_step_override))
        (complete step.step_name result.output execution),
    w,
  )
  settle definition now step StepStatus.waiting result execution w =
      (record execution { status = WorkflowExecutionStatus.waiting; last_transition_at = now }, w)
  settle definition now step StepStatus.skipped result execution w = (
    move_to now (choose_next definition step.step_name (override_of result.next_step_override))
        execution,
    w,
  )
  settle definition now step StepStatus.failed result execution w =
      handle_step_failure definition now execution step result w

  pub advance_step :
      WorkflowDefinition V P W
      → ℕ
      → WorkflowExecution V P
      → WorkflowStep V P W
      → W
      → WorkflowExecution V P × W
  unfolding settle execute_step
  advance_step definition now execution step w =
      let (result, execution', w') = execute_step definition now execution step w in
      settle definition now step result.status result execution' w'

  advance_found :
      WorkflowDefinition V P W
      → ℕ
      → WorkflowExecution V P
      → Option (WorkflowStep V P W)
      → W
      → Result (WorkflowExecution V P) × W
  unfolding advance_step
  advance_found definition now execution none w = (err step_not_found, w)
  advance_found definition now execution (some step) w =
      let (execution', w') = advance_step definition now execution step w in (ok execution', w')

  advance_named :
      WorkflowDefinition V P W
      → ℕ
      → WorkflowExecution V P
      → Option String
      → W
      → Result (WorkflowExecution V P) × W
  unfolding advance_found
  advance_named definition now execution none w = (err no_current_step, w)
  advance_named definition now execution (some name) w =
      advance_found definition now execution (get_step definition name) w

  unfoldable pub advance :
      WorkflowDefinition V P W → ℕ → WorkflowExecution V P → W → Result (WorkflowExecution V P) × W
  unfolding advance_named
  advance definition now execution w =
      advance_named definition now execution execution.current_step w

  resume_found :
      WorkflowDefinition V P W
      → ℕ
      → WorkflowExecution V P
      → String
      → Option (WorkflowStep V P W)
      → W
      → Result (WorkflowExecution V P) × W
  unfolding still_waiting
  resume_found definition now execution name none w = (err step_not_found, w)
  resume_found definition now execution name (some step) w =
      if still_waiting now execution.status (state_of name execution.context).wait_until
      then (ok execution, w)
      else advance definition now execution w

  resume_named :
      WorkflowDefinition V P W
      → ℕ
      → WorkflowExecution V P
      → Option String
      → W
      → Result (WorkflowExecution V P) × W
  unfolding resume_found
  resume_named definition now execution none w = (err no_current_step, w)
  resume_named definition now execution (some name) w =
      resume_found definition now execution name (get_step definition name) w

  unfoldable pub resume :
      WorkflowDefinition V P W → ℕ → WorkflowExecution V P → W → Result (WorkflowExecution V P) × W
  unfolding is_resumable resume_named
  resume definition now execution w =
      if is_resumable execution.status
      then resume_named definition now execution execution.current_step w
      else (err cannot_resume, w)
