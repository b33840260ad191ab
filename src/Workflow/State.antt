-- ===== src/Workflow/State.antt =====
-- The dict that the runner keeps for each step, and the small changes that its methods make to an
-- execution.
pub mod Updates
use fast_api_boilerplate.Base.{
  ℕ, Bool, true, false, Option, none, some, String, List, [], ◌∷◌, ◌++◌, ltb, str_eq, if◌then◌else◌,
}
use fast_api_boilerplate.Base.Dict.{Dict, lookup, insert}
use fast_api_boilerplate.Workflow.{
  StepStatus, WorkflowExecutionStatus, StepRetryPolicy, StepResult, WorkflowStepState,
  ExecutionContext, WorkflowExecution,
}

-- A key of `t` that is there replaces that of `s`.
abbrev pub later : {A : Type 0} → Option A → Option A → Option A
later old none = old
later old (some new) = some new

module _ {V : Type 0} where
  abbrev pub no_state : WorkflowStepState V
  no_state = record {
    status = none;
    started_at = none;
    completed_at = none;
    attempt_count = none;
    output = none;
    error_message = none;
    error_code = none;
    wait_until = none;
  }

  -- `s.update(t)`
  unfoldable pub update_state : WorkflowStepState V → WorkflowStepState V → WorkflowStepState V
  update_state s t = record {
    status = later s.status t.status;
    started_at = later s.started_at t.started_at;
    completed_at = later s.completed_at t.completed_at;
    attempt_count = later s.attempt_count t.attempt_count;
    output = later s.output t.output;
    error_message = later s.error_message t.error_message;
    error_code = later s.error_code t.error_code;
    wait_until = later s.wait_until t.wait_until;
  }

  -- `step_states.get(name, {})`
  unfoldable pub state_of : String → ExecutionContext V → WorkflowStepState V
  state_of name context = elim (lookup name context.step_states) [ none ↦ no_state | some s ↦ s ]

  -- `step_state.get("attempt_count", 0)`
  abbrev pub attempts_of : WorkflowStepState V → ℕ
  attempts_of s = elim (s.attempt_count) [ none ↦ 0 | some n ↦ n ]

  unfoldable pub update_step_state :
      String → WorkflowStepState V → ExecutionContext V → ExecutionContext V
  unfolding state_of update_state
  update_step_state name state context = record context {
    step_states = insert name (update_state (state_of name context) state) context.step_states;
  }

  -- The states that `execute_step` writes before the call, after it, and after an exception.
  unfoldable pub start_state : ℕ → ℕ → WorkflowStepState V
  start_state now attempt = record no_state {
    status = some StepStatus.succeeded;
    started_at = some now;
    attempt_count = some attempt;
  }

  unfoldable pub end_state : ℕ → ℕ → StepResult V → WorkflowStepState V
  end_state now attempt result = record no_state {
    status = some result.status;
    completed_at = some now;
    attempt_count = some attempt;
    output = some result.output;
    error_message = some result.error_message;
    error_code = some result.error_code;
    wait_until = some result.wait_until;
  }

  unfoldable pub error_state : ℕ → ℕ → String → Option String → WorkflowStepState V
  error_state now attempt message code = record no_state {
    status = some StepStatus.failed;
    completed_at = some now;
    attempt_count = some attempt;
    error_message = some (some message);
    error_code = some code;
  }

-- A text, or a dict, that is `None` or empty is false.
abbrev pub override_of : Option String → Option String
override_of none = none
override_of (some name) = if str_eq name "" then none else some name

abbrev pub add_output : {V : Type 0} → String → Option (Dict V) → Dict (Dict V) → Dict (Dict V)
add_output name none outputs = outputs
add_output name (some []) outputs = outputs
add_output name (some (entry ∷ entries)) outputs = insert name (entry ∷ entries) outputs

abbrev pub max_attempts_of : Option StepRetryPolicy → ℕ
max_attempts_of none = 3
max_attempts_of (some policy) = policy.max_attempts

unfoldable pub is_resumable : WorkflowExecutionStatus → Bool
is_resumable WorkflowExecutionStatus.running = true
is_resumable WorkflowExecutionStatus.waiting = true
is_resumable _ = false

unfoldable pub still_waiting : ℕ → WorkflowExecutionStatus → Option (Option ℕ) → Bool
still_waiting now WorkflowExecutionStatus.waiting (some (some until)) = ltb now until
still_waiting now _ _ = false

module _ {V P : Type 0} where
  abbrev pub set_state :
      String → WorkflowStepState V → WorkflowExecution V P → WorkflowExecution V P
  set_state name state execution = record execution {
    context = update_step_state name state execution.context;
  }

  unfoldable pub wait_for_retry : ℕ → String → WorkflowExecution V P → WorkflowExecution V P
  wait_for_retry now name execution =
      record (set_state name (record no_state { wait_until = some (some now) }) execution) {
        status = WorkflowExecutionStatus.waiting;
        last_transition_at = now;
      }

  unfoldable pub give_up : ℕ → StepResult V → WorkflowExecution V P → WorkflowExecution V P
  give_up now result execution = record execution {
    status = WorkflowExecutionStatus.failed;
    error_code = result.error_code;
    error_detail = result.error_message;
    completed_at = some now;
    last_transition_at = now;
  }

  -- What a success adds to the execution's context.
  unfoldable pub complete :
      String → Option (List (String × V)) → WorkflowExecution V P → WorkflowExecution V P
  complete name output execution =
      let marked =
        set_state name (record no_state { status = some StepStatus.succeeded }) execution in
      record marked {
        context = record (marked.context) {
          completed_steps = marked.context.completed_steps ++ (name ∷ []);
          step_outputs = add_output name output marked.context.step_outputs;
        };
      }
