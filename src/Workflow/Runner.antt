-- ===== src/Workflow/Runner.antt =====
-- `WorkflowRunner`: starting, advancing, retrying, compensating and resuming an execution.
-- The session's `flush` is left out; a method that changes the execution returns the new one.
pub mod Failure
pub mod Fields
pub mod Log
pub mod Success
use fast_api_boilerplate.Base.{
  ℕ, zero, suc, ◌+◌, Bool, true, false, Option, none, some, String, List, [], ◌∷◌, ◌++◌, ltb,
  str_eq, if◌then◌else◌, ◌&&◌, ◌||◌, not,
}
use fast_api_boilerplate.Base.Dict.{Dict, lookup, insert}
use fast_api_boilerplate.Workflow.{
  StepStatus, WorkflowExecutionStatus, StepRetryPolicy, StepResult, WorkflowStepState,
  WorkflowContext, StepRun, returned, raised, WorkflowStep, WorkflowDefinition, CompensationEntry,
  ExecutionContext, WorkflowExecution,
}
use fast_api_boilerplate.Workflow.State.{
  no_state, state_of, attempts_of, set_state, start_state, end_state, error_state, max_attempts_of,
  wait_for_retry, give_up,
}
use fast_api_boilerplate.Workflow.Definition.{get_step, get_next_step, get_steps_for_compensation}

-- The `ValueError`s of the runner.
pub data WorkflowError : Type 0 where
  no_steps no_current_step step_not_found cannot_resume : WorkflowError

pub data Result {ℓ} (A : Type ℓ) : Type ℓ where
  ok : A → Result A
  err : WorkflowError → Result A

module _ {V P W : Type 0} where
  unfoldable pub build_context :
      WorkflowDefinition V P W → WorkflowExecution V P → WorkflowStep V P W → WorkflowContext V P
  build_context definition execution step = record {
    workflow_execution_id = execution.id;
    workflow_name = definition.name;
    current_step = step.step_name;
    input_payload = execution.input_payload;
    step_outputs = execution.context.step_outputs;
    correlation_id = execution.correlation_id;
    attempt_count = execution.attempt_count;
  }

  -- `start`, from the new row's id and the caller's arguments.
  start_at :
      WorkflowDefinition V P W
      → List (WorkflowStep V P W)
      → ℕ
      → ℕ
      → P
      → Option String
      → Result (WorkflowExecution V P)
  start_at definition [] id now input_payload correlation_id = err no_steps
  start_at definition (first ∷ _) id now input_payload correlation_id = ok (record {
    id = id;
    workflow_name = definition.name;
    correlation_id = correlation_id;
    status = WorkflowExecutionStatus.running;
    current_step = some first.step_name;
    attempt_count = 1;
    max_attempts = definition.max_attempts;
    started_at = some now;
    completed_at = none;
    last_transition_at = now;
    input_payload = input_payload;
    context = record {
      step_states = [];
      completed_steps = [];
      compensation_log = [];
      step_outputs = [];
    };
    error_code = none;
    error_detail = none;
  })

  unfoldable pub start :
      WorkflowDefinition V P W → ℕ → ℕ → P → Option String → Result (WorkflowExecution V P)
  unfolding start_at
  start definition id now input_payload correlation_id =
      start_at definition definition.steps id now input_payload correlation_id

  after_run :
      ℕ
      → ℕ
      → String
      → WorkflowExecution V P
      → StepRun V × W
      → StepResult V × WorkflowExecution V P × W
  unfolding end_state error_state
  after_run now attempt name execution (returned result, w) =
      (result, set_state name (end_state now attempt result) execution, w)
  after_run now attempt name execution (raised message code, w) = (
    record {
      status = StepStatus.failed;
      output = none;
      error_message = some message;
      error_code = code;
      wait_until = none;
      next_step_override = none;
    },
    set_state name (error_state now attempt message code) execution,
    w,
  )

  unfoldable pub execute_step :
      WorkflowDefinition V P W
      → ℕ
      → WorkflowExecution V P
      → WorkflowStep V P W
      → W
      → StepResult V × WorkflowExecution V P × W
  unfolding build_context start_state after_run
  execute_step definition now execution step w =
      let context = build_context definition execution step in
      let attempt = attempts_of (state_of step.step_name execution.context) + 1 in
      let started = set_state step.step_name (start_state now attempt) execution in
      after_run now attempt step.step_name started (step.execute context w)

  -- One round of the loop of `compensate`: the entry for the log, and the world.
  run_compensation : ℕ → WorkflowContext V P → WorkflowStep V P W → W → List CompensationEntry × W
  run_compensation now context step w = elim (step.compensate) [
    | none ↦ ([], w)
    | some compensate ↦
        let (error, w') = compensate context w in
        (record { step = step.step_name; error = error; timestamp = now } ∷ [], w')
  ]

  unfoldable pub compensate_steps :
      ℕ → WorkflowContext V P → List (WorkflowStep V P W) → W → List CompensationEntry × W
  unfolding run_compensation
  compensate_steps now context [] w = ([], w)
  compensate_steps now context (step ∷ steps) w =
      let (entry, w') = run_compensation now context step w in
      let (entries, w'') = compensate_steps now context steps w' in (entry ++ entries, w'')

  compensate_from :
      WorkflowDefinition V P W
      → ℕ
      → WorkflowExecution V P
      → Option (WorkflowStep V P W)
      → List (WorkflowStep V P W)
      → W
      → WorkflowExecution V P × W
  unfolding build_context compensate_steps
  compensate_from definition now execution failed_step [] w = (execution, w)
  compensate_from definition now execution none (step ∷ steps) w = (execution, w)
  compensate_from definition now execution (some failed_step) (step ∷ steps) w =
      let context = build_context definition execution failed_step in
      let (entries, w') = compensate_steps now context (step ∷ steps) w in
      (
        record execution {
          context = record (execution.context) {
            compensation_log = execution.context.compensation_log ++ entries;
          };
        },
        w',
      )

  unfoldable pub compensate :
      WorkflowDefinition V P W → ℕ → WorkflowExecution V P → String → W → WorkflowExecution V P × W
  unfolding compensate_from
  compensate definition now execution failed_step w =
      compensate_from definition now execution (get_step definition failed_step)
        (get_steps_for_compensation definition failed_step) w

  unfoldable pub handle_step_failure :
      WorkflowDefinition V P W
      → ℕ
      → WorkflowExecution V P
      → WorkflowStep V P W
      → StepResult V
      → W
      → WorkflowExecution V P × W
  unfolding wait_for_retry give_up
  handle_step_failure definition now execution step result w =
      let attempt = attempts_of (state_of step.step_name execution.context) in
      let (compensated, w') = compensate definition now execution step.step_name w in
      if ltb attempt (max_attempts_of step.retry_policy)
      then (wait_for_retry now step.step_name execution, w)
      else (give_up now result compensated, w')
