-- ===== src/Workflow/Runner/Failure.antt =====
-- What one run of a failing step does to an execution.
use mathlib.Core.List.{append-nil}
use fast_api_boilerplate.Base.{
  ℕ, ◌+◌, ◌<◌, ◌≤◌, ◌≡◌, refl, Option, none, some, String, List, [], ◌∷◌, ◌++◌, arith, Bool, true,
  false, ltb, lt→ltb, sym,
}
use fast_api_boilerplate.Workflow.{
  StepStatus, WorkflowStep, WorkflowDefinition, WorkflowExecution, WorkflowExecutionStatus, StepRun,
  returned, raised, StepResult, WorkflowContext,
}
use fast_api_boilerplate.Workflow.Definition.{get_step, get_steps_for_compensation}
use fast_api_boilerplate.Workflow.State.{
  state_of, attempts_of, set_state, start_state, end_state, error_state, max_attempts_of, no_state,
  update_step_state,
}
use fast_api_boilerplate.Workflow.State.Updates.{attempts-set, attempts-kept, state_of-same}
use fast_api_boilerplate.Workflow.Runner.{
  execute_step, after_run, handle_step_failure, compensate, compensate_steps, compensate_from,
  build_context,
}

-- The run raised, or returned a result that says `failed`.
abbrev pub fails : {V : Type 0} → StepRun V → Bool
fails (returned result) = elim (result.status) [ StepStatus.failed ↦ true | _ ↦ false ]
fails (raised message code) = true

-- The execution after a failed run, and the result that the runner goes on with.
pub record FailedRun {V P : Type 0} (name : String) (attempt : ℕ) (e : WorkflowExecution V P)
    (result : StepResult V) (e' : WorkflowExecution V P) : Type 0 where
  pub says_failed : result.status ≡ StepStatus.failed
  pub counted : attempts_of (state_of name e'.context) ≡ attempt
  pub same_log : e'.context.compensation_log ≡ e.context.compensation_log
  pub same_completed : e'.context.completed_steps ≡ e.context.completed_steps
  pub same_current : e'.current_step ≡ e.current_step

status_of_fails :
    {V : Type 0} (result : StepResult V)
    → fails (returned result) ≡ true
    → result.status ≡ StepStatus.failed
status_of_fails result h = ground arith

not_lt : (a m : ℕ) → m ≤ a → ltb a m ≡ false
not_lt a m h = ground arith

module _ {V P W : Type 0} where
  abbrev pub AlwaysFails : WorkflowStep V P W → Type 0
  AlwaysFails step =
      (context : WorkflowContext V P) (w : W) → fails (step.execute context w).0 ≡ true

  after_run-fails :
      (now attempt : ℕ) (name : String) (e : WorkflowExecution V P) (ran : StepRun V × W)
      → fails ran.0 ≡ true
      → let (result, e', w') = after_run now attempt name e ran in
        FailedRun name attempt e result e'
  unfolding after_run update_step_state
  after_run-fails now attempt name e (returned result, w) h = record {
    says_failed = status_of_fails result h;
    counted = attempts-set name (end_state now attempt result) e.context attempt refl;
    same_log = refl;
    same_completed = refl;
    same_current = refl;
  }
  after_run-fails now attempt name e (raised message code, w) h = record {
    says_failed = refl;
    counted = attempts-set name (error_state now attempt message code) e.context attempt refl;
    same_log = refl;
    same_completed = refl;
    same_current = refl;
  }

  pub execute_step-fails :
      (definition : WorkflowDefinition V P W) (now : ℕ) (e : WorkflowExecution V P)
      (step : WorkflowStep V P W) (w : W)
      → AlwaysFails step
      → let (result, e', w') = execute_step definition now e step w in
        FailedRun step.step_name (attempts_of (state_of step.step_name e.context) + 1) e result e'
  unfolding execute_step update_step_state
  execute_step-fails definition now e step w h =
      let attempt = attempts_of (state_of step.step_name e.context) + 1 in
      let context = build_context definition e step in
      let r =
        after_run-fails now attempt step.step_name
          (set_state step.step_name (start_state now attempt) e) (step.execute context w)
          (h context w) in
      record {
        says_failed = r.says_failed;
        counted = r.counted;
        same_log = r.same_log;
        same_completed = r.same_completed;
        same_current = r.same_current;
      }

  compensate_from-same :
      (definition : WorkflowDefinition V P W) (now : ℕ) (e : WorkflowExecution V P)
      (failed : Option (WorkflowStep V P W)) (steps : List (WorkflowStep V P W)) (w : W)
      → (compensate_from definition now e failed steps w).0.context.step_states
        ≡ e.context.step_states
  unfolding compensate_from
  compensate_from-same definition now e failed [] w = refl
  compensate_from-same definition now e none (step ∷ steps) w = refl
  compensate_from-same definition now e (some failed) (step ∷ steps) w = refl

  -- A failure with attempts left waits; without, it compensates and fails.
  pub handle_step_failure-retry :
      (definition : WorkflowDefinition V P W) (now : ℕ) (e : WorkflowExecution V P)
      (step : WorkflowStep V P W) (result : StepResult V) (w : W)
      → attempts_of (state_of step.step_name e.context) < max_attempts_of step.retry_policy
      → let (e', w') = handle_step_failure definition now e step result w in
        (e'.status ≡ WorkflowExecutionStatus.waiting)
        × (e'.current_step ≡ e.current_step)
        × (attempts_of (state_of step.step_name e'.context)
            ≡ attempts_of (state_of step.step_name e.context))
        × (e'.context.compensation_log ≡ e.context.compensation_log)
        × (w' ≡ w)
  unfolding handle_step_failure update_step_state
  handle_step_failure-retry definition now e step result w h = rw (lt→ltb _ _ h) (
    refl,
    refl,
    attempts-kept step.step_name (record no_state { wait_until = some (some now) }) e.context refl,
    refl,
    refl,
  )

  compensate-states :
      (definition : WorkflowDefinition V P W) (now : ℕ) (e : WorkflowExecution V P) (name : String)
      (w : W)
      → (compensate definition now e name w).0.context.step_states ≡ e.context.step_states
  unfolding compensate
  compensate-states definition now e name w = compensate_from-same definition now e _ _ w

  compensated :
      (definition : WorkflowDefinition V P W) (now : ℕ) (e : WorkflowExecution V P) (name : String)
      (step : WorkflowStep V P W) (w : W)
      → get_step definition name ≡ some step
      → let steps = get_steps_for_compensation definition name in
        let (entries, w') = compensate_steps now (build_context definition e step) steps w in
        ((compensate definition now e name w).0.context.compensation_log
          ≡ e.context.compensation_log ++ entries)
        × ((compensate definition now e name w).1 ≡ w')
  unfolding compensate compensate_from compensate_steps
  compensated definition now e name step w h =
      rw h (from_steps (get_steps_for_compensation definition name))
    where
      from_steps :
          (steps : List (WorkflowStep V P W))
          → let (entries, w') = compensate_steps now (build_context definition e step) steps w in
            ((compensate_from definition now e (some step) steps w).0.context.compensation_log
              ≡ e.context.compensation_log ++ entries)
            × ((compensate_from definition now e (some step) steps w).1 ≡ w')
      from_steps [] = (sym (append-nil e.context.compensation_log), refl)
      from_steps (s ∷ steps) = (refl, refl)

  -- The parts of an execution that a final failure determines.
  pub record GaveUp (definition : WorkflowDefinition V P W) (now : ℕ) (step : WorkflowStep V P W)
      (e : WorkflowExecution V P) (w : W) (e' : WorkflowExecution V P) (w' : W) : Type 0 where
    pub is_failed : e'.status ≡ WorkflowExecutionStatus.failed
    pub completed_now : e'.completed_at ≡ some now
    pub counted :
        attempts_of (state_of step.step_name e'.context)
        ≡ attempts_of (state_of step.step_name e.context)
    pub log :
        e'.context.compensation_log
        ≡ e.context.compensation_log
          ++ (compensate_steps now
              (build_context definition e step)
              (get_steps_for_compensation definition step.step_name)
              w).0
    pub world :
        w'
        ≡ (compensate_steps now
            (build_context definition e step)
            (get_steps_for_compensation definition step.step_name)
            w).1

  pub handle_step_failure-over :
      (definition : WorkflowDefinition V P W) (now : ℕ) (e : WorkflowExecution V P)
      (step : WorkflowStep V P W) (result : StepResult V) (w : W)
      → get_step definition step.step_name ≡ some step
      → max_attempts_of step.retry_policy ≤ attempts_of (state_of step.step_name e.context)
      → let (e', w') = handle_step_failure definition now e step result w in
        GaveUp definition now step e w e' w'
  unfolding handle_step_failure
  handle_step_failure-over definition now e step result w found h =
      let (log, world) = compensated definition now e step.step_name step w found in
      rw (not_lt _ _ h) (record {
        is_failed = refl;
        completed_now = refl;
        counted =
            state_of-same step.step_name _ _ (compensate-states definition now e step.step_name w);
        log = log;
        world = world;
      })
