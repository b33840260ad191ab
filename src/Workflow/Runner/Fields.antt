-- ===== src/Workflow/Runner/Fields.antt =====
-- What the runner's parts leave unchanged.
use fast_api_boilerplate.Base.{ℕ, ◌≡◌, refl, Option, none, some, String, List, [], ◌∷◌, arith}
use fast_api_boilerplate.Workflow.{
  WorkflowStep, WorkflowDefinition, WorkflowExecution, WorkflowExecutionStatus, StepRun, returned,
  raised,
}
use fast_api_boilerplate.Workflow.Runner.{
  compensate, compensate_from, execute_step, after_run, start, start_at, ok,
}

-- All but the context is the same.
pub record SameProgress {V P : Type 0} (e e' : WorkflowExecution V P) : Type 0 where
  pub same_current : e'.current_step ≡ e.current_step
  pub same_status : e'.status ≡ e.status
  pub same_completed : e'.completed_at ≡ e.completed_at

module _ {V P W : Type 0} where
  compensate_from-same :
      (definition : WorkflowDefinition V P W) (now : ℕ) (execution : WorkflowExecution V P)
      (failed : Option (WorkflowStep V P W)) (steps : List (WorkflowStep V P W)) (w : W)
      → (compensate_from definition now execution failed steps w).0.current_step
        ≡ execution.current_step
  unfolding compensate_from
  compensate_from-same definition now execution failed [] w = refl
  compensate_from-same definition now execution none (step ∷ steps) w = refl
  compensate_from-same definition now execution (some failed) (step ∷ steps) w = refl

  pub compensate-same :
      (definition : WorkflowDefinition V P W) (now : ℕ) (execution : WorkflowExecution V P)
      (name : String) (w : W)
      → (compensate definition now execution name w).0.current_step ≡ execution.current_step
  unfolding compensate
  compensate-same definition now execution name w =
      compensate_from-same definition now execution _ _ w

  after_run-same :
      (now attempt : ℕ) (name : String) (execution : WorkflowExecution V P) (ran : StepRun V × W)
      → SameProgress execution (after_run now attempt name execution ran).1
  unfolding after_run
  after_run-same now attempt name execution (returned result, w) = record {
    same_current = refl;
    same_status = refl;
    same_completed = refl;
  }
  after_run-same now attempt name execution (raised message code, w) = record {
    same_current = refl;
    same_status = refl;
    same_completed = refl;
  }

  pub execute_step-same :
      (definition : WorkflowDefinition V P W) (now : ℕ) (execution : WorkflowExecution V P)
      (step : WorkflowStep V P W) (w : W)
      → SameProgress execution (execute_step definition now execution step w).1
  unfolding execute_step
  execute_step-same definition now execution step w =
      let same = after_run-same now _ step.step_name _ (step.execute _ w) in
      record {
        same_current = same.same_current;
        same_status = same.same_status;
        same_completed = same.same_completed;
      }

  -- A new execution stands at the first step.
  pub record Started (definition : WorkflowDefinition V P W) (e : WorkflowExecution V P)
      : Type 0 where
    pub first : WorkflowStep V P W
    pub rest : List (WorkflowStep V P W)
    pub steps : definition.steps ≡ first ∷ rest
    pub at_first : e.current_step ≡ some first.step_name
    pub runs : e.status ≡ WorkflowExecutionStatus.running
    pub open_ : e.completed_at ≡ none
    pub fresh : e.context ≡ record {
      step_states = [];
      completed_steps = [];
      compensation_log = [];
      step_outputs = [];
    }

  start_at-Started :
      (definition : WorkflowDefinition V P W) (steps : List (WorkflowStep V P W)) (id now : ℕ)
      (payload : P) (cid : Option String) (e : WorkflowExecution V P)
      → definition.steps ≡ steps
      → start_at definition steps id now payload cid ≡ ok e
      → Started definition e
  unfolding start_at
  start_at-Started definition [] id now payload cid e s h = cc
  start_at-Started definition (first ∷ rest) id now payload cid e s h = record {
    first = first;
    rest = rest;
    steps = s;
    at_first = ground arith;
    runs = ground arith;
    open_ = ground arith;
    fresh = ground arith;
  }

  pub start-Started :
      (definition : WorkflowDefinition V P W) (id now : ℕ) (payload : P) (cid : Option String)
      (e : WorkflowExecution V P)
      → start definition id now payload cid ≡ ok e
      → Started definition e
  unfolding start
  start-Started definition id now payload cid e h =
      start_at-Started definition definition.steps id now payload cid e refl h
