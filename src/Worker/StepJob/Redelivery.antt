-- ===== src/Worker/StepJob/Redelivery.antt =====
-- A queue job that is delivered again.
use fast_api_boilerplate.Base.{ℕ, ◌≡◌, ◌==◌, false, some}
use fast_api_boilerplate.Base.Dict.{Dict}
use fast_api_boilerplate.Workflow.{WorkflowDefinition, WorkflowExecution, WorkflowStep}
use fast_api_boilerplate.Workflow.Definition.{get_workflow, get_step}
use fast_api_boilerplate.Worker.StepJob.{StepJobState, load_row}

module _ {V P W : Type 0} where
  -- The row, the definition and the step that a job finds.
  pub record Finds (registry : Dict (WorkflowDefinition V P W)) (id : ℕ)
      (state : StepJobState V P W) (execution : WorkflowExecution V P)
      (workflow : WorkflowDefinition V P W) (step : WorkflowStep V P W) : Type 0 where
    pub nonzero : id == 0 ≡ false
    pub row : load_row id state.rows ≡ some execution
    pub registered : get_workflow execution.workflow_name registry ≡ some workflow
    pub current : execution.current_step ≡ some step.step_name
    pub known : get_step workflow step.step_name ≡ some step
