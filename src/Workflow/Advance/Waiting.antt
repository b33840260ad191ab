-- ===== src/Workflow/Advance/Waiting.antt =====
-- When a waiting execution goes on.
use fast_api_boilerplate.Base.{ℕ, ◌≤◌, ◌<◌, ◌≡◌, refl, some, String, arith, lt→ltb, ◌∙◌}
use fast_api_boilerplate.Base.Dict.{lookup-insert_self}
use fast_api_boilerplate.Workflow.{
  WorkflowExecutionStatus, WorkflowStep, WorkflowDefinition, WorkflowExecution, StepResult,
}
use fast_api_boilerplate.Workflow.Definition.{get_step}
use fast_api_boilerplate.Workflow.State.{
  state_of, update_step_state, wait_for_retry, attempts_of, max_attempts_of,
}
use fast_api_boilerplate.Workflow.Runner.{ok, handle_step_failure}
use fast_api_boilerplate.Workflow.Advance.{advance, resume, resume_found}

waits_from :
    {V P : Type 0} (now : ℕ) (name : String) (execution : WorkflowExecution V P)
    → let waiting = wait_for_retry now name execution in
      (waiting.status ≡ WorkflowExecutionStatus.waiting)
      × (waiting.current_step ≡ execution.current_step)
      × ((state_of name waiting.context).wait_until ≡ some (some now))
unfolding wait_for_retry
waits_from now name execution =
    (refl, refl, unfold update_step_state in rw (state_of, lookup-insert_self))

module _ {V P W : Type 0} where
  resume_waiting :
      (definition : WorkflowDefinition V P W) (now : ℕ) (execution : WorkflowExecution V P)
      (name : String) (step : WorkflowStep V P W) (w : W)
      → execution.status ≡ WorkflowExecutionStatus.waiting
      → execution.current_step ≡ some name
      → get_step definition name ≡ some step
      → resume definition now execution w ≡ resume_found definition now execution name (some step) w
  unfolding resume
  resume_waiting definition now execution name step w waits current found = ground arith

  resumed :
      (definition : WorkflowDefinition V P W) (late : ℕ) (execution : WorkflowExecution V P)
      (name : String) (step : WorkflowStep V P W) (until : ℕ) (w : W)
      → execution.status ≡ WorkflowExecutionStatus.waiting
      → (state_of name execution.context).wait_until ≡ some (some until)
      → until ≤ late
      → resume_found definition late execution name (some step) w
        ≡ advance definition late execution w
  unfolding resume_found
  resumed definition late execution name step until w waits state le = ground arith

  -- An execution that waits until `until` for its current step is left alone, and so is the world,
  -- by a `resume` before that time, and is advanced by one at that time or later.
  pub resume_until :
      (definition : WorkflowDefinition V P W) (execution : WorkflowExecution V P) (name : String)
      (step : WorkflowStep V P W) (until early late : ℕ) (w : W)
      → execution.status ≡ WorkflowExecutionStatus.waiting
      → execution.current_step ≡ some name
      → get_step definition name ≡ some step
      → (state_of name execution.context).wait_until ≡ some (some until)
      → early < until
      → until ≤ late
      → (resume definition early execution w ≡ (ok execution, w))
        × (resume definition late execution w ≡ advance definition late execution w)
  resume_until definition execution name step until early late w waits current found state lt le = (
    rw (resume_waiting definition early execution name step w waits current found)
        (unfold resume_found in ground arith),
    rw (resume_waiting definition late execution name step w waits current found)
        (resumed definition late execution name step until w waits state le),
  )

  handle_step_failure-waits :
      (definition : WorkflowDefinition V P W) (now : ℕ) (execution : WorkflowExecution V P)
      (step : WorkflowStep V P W) (result : StepResult V) (w : W)
      → attempts_of (state_of step.step_name execution.context) < max_attempts_of step.retry_policy
      → handle_step_failure definition now execution step result w
        ≡ (wait_for_retry now step.step_name execution, w)
  unfolding handle_step_failure
  handle_step_failure-waits definition now execution step result w h = rw (lt→ltb _ _ h)

  -- A failed step with attempts left makes the execution wait, and a `resume` at any time from the
  -- failure on, that of the failure included, runs the step again at once: the backoff policy has no
  -- effect.
  pub handle_step_failure-resume :
      (definition : WorkflowDefinition V P W) (now later : ℕ) (execution : WorkflowExecution V P)
      (step : WorkflowStep V P W) (result : StepResult V) (w w' : W)
      → execution.current_step ≡ some step.step_name
      → get_step definition step.step_name ≡ some step
      → attempts_of (state_of step.step_name execution.context) < max_attempts_of step.retry_policy
      → now ≤ later
      → let waiting = (handle_step_failure definition now execution step result w).0 in
        (waiting.status ≡ WorkflowExecutionStatus.waiting)
        × (resume definition later waiting w' ≡ advance definition later waiting w')
  handle_step_failure-resume definition now later execution step result w w' current found lt le =
      let waits = waits_from now step.step_name execution in
      rw (handle_step_failure-waits definition now execution step result w lt) (
        waits.0,
        (rw
            (resume_waiting definition later (wait_for_retry now step.step_name execution)
              step.step_name step w' waits.0 (waits.1 ∙ current) found)
            (resumed definition later (wait_for_retry now step.step_name execution) step.step_name
              step now w' waits.0 waits.2 le)),
      )
