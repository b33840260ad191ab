-- ===== src/Worker/StepJob.antt =====
-- src/app/core/worker/workflow.py `WorkflowStepJob.run`: one advance of a stored workflow execution.
-- The session is the rows that are committed: what is not committed is lost when it closes.
pub mod Redelivery
use fast_api_boilerplate.Base.{
  ℕ, Bool, true, false, Option, none, some, String, List, [], ◌∷◌, ◌==◌, if◌then◌else◌,
}
use fast_api_boilerplate.Base.Dict.{Dict}
use fast_api_boilerplate.Workflow.{WorkflowDefinition, WorkflowExecution, WorkflowExecutionStatus}
use fast_api_boilerplate.Workflow.Definition.{get_workflow}
use fast_api_boilerplate.Workflow.Runner.{Result, ok, err}
use fast_api_boilerplate.Workflow.Advance.{advance}

module _ (V P W : Type 0) where
  pub record StepJobState : Type 0 where
    pub rows : List (WorkflowExecution V P)
    pub world : W

-- The dict that the job returns, and the exceptions that it raises.
pub data StepJobOutcome : Type 0 where
  completed : ℕ → WorkflowExecutionStatus → Option String → StepJobOutcome
  missing_execution_id : StepJobOutcome
  retryable_job_error : StepJobOutcome

module _ {V P : Type 0} where
  unfoldable pub load_row : ℕ → List (WorkflowExecution V P) → Option (WorkflowExecution V P)
  load_row id [] = none
  load_row id (row ∷ rows) = if row.id == id then some row else load_row id rows

  -- `session.commit()` writes the columns of the loaded row that were assigned. `execution_context` is
  -- a plain `JSON` column, whose dict is changed in place, which the session does not see: the
  -- database keeps the old one.
  unfoldable pub commit_row :
      ℕ → WorkflowExecution V P → List (WorkflowExecution V P) → List (WorkflowExecution V P)
  commit_row id execution [] = []
  commit_row id execution (row ∷ rows) =
      if row.id == id
      then record execution { id = row.id; context = row.context } ∷ rows
      else row ∷ commit_row id execution rows

module _ {V P W : Type 0} where
  unfoldable pub after_advance :
      ℕ
      → StepJobState V P W
      → Result (WorkflowExecution V P) × W
      → StepJobOutcome × StepJobState V P W
  after_advance id state (ok execution, w) = (
    completed execution.id execution.status execution.current_step,
    record { rows = commit_row id execution state.rows; world = w },
  )
  after_advance id state (err error, w) = (retryable_job_error, record state { world = w })

  unfoldable pub run_registered :
      ℕ
      → ℕ
      → WorkflowExecution V P
      → Option (WorkflowDefinition V P W)
      → StepJobState V P W
      → StepJobOutcome × StepJobState V P W
  run_registered now id execution none state = (retryable_job_error, state)
  run_registered now id execution (some workflow) state =
      after_advance id state (advance workflow now execution state.world)

  unfoldable pub run_loaded :
      Dict (WorkflowDefinition V P W)
      → ℕ
      → ℕ
      → Option (WorkflowExecution V P)
      → StepJobState V P W
      → StepJobOutcome × StepJobState V P W
  run_loaded registry now id none state = (retryable_job_error, state)
  run_loaded registry now id (some execution) state =
      run_registered now id execution (get_workflow execution.workflow_name registry) state

  -- `execution_id` is what the payload has under that key; an id of 0 is false.
  unfoldable pub run_step_job :
      Dict (WorkflowDefinition V P W)
      → ℕ
      → Option ℕ
      → StepJobState V P W
      → StepJobOutcome × StepJobState V P W
  run_step_job registry now none state = (missing_execution_id, state)
  run_step_job registry now (some execution_id) state =
      if execution_id == 0
      then (missing_execution_id, state)
      else run_loaded registry now execution_id (load_row execution_id state.rows) state
