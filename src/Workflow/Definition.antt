-- ===== src/Workflow/Definition.antt =====
-- `WorkflowDefinition`'s methods and the registry of workflows.
pub mod Lookup
pub mod Order
pub mod Sequence
use fast_api_boilerplate.Base.{
  ℕ, zero, suc, ◌-◌, Bool, true, false, Option, none, some, String, List, [], ◌∷◌, ◌++◌, length,
  get_elem?, leb, str_eq, if◌then◌else◌, is_some,
}
use fast_api_boilerplate.Base.Dict.{Dict, lookup, insert}
use fast_api_boilerplate.Workflow.{WorkflowStep, WorkflowDefinition, StepRetryPolicy}

-- `StepRetryPolicy(max_attempts, backoff)`: `__post_init__` raises below 1.
unfoldable pub build_retry_policy : ℕ → Option String → Option StepRetryPolicy
build_retry_policy max_attempts backoff =
    if leb 1 max_attempts
    then some (record { max_attempts = max_attempts; backoff = backoff })
    else none

module _ {V P W : Type 0} where
  find_step : List (WorkflowStep V P W) → String → Option (WorkflowStep V P W)
  find_step [] name = none
  find_step (step ∷ steps) name =
      if str_eq step.step_name name then some step else find_step steps name

  unfoldable pub get_step : WorkflowDefinition V P W → String → Option (WorkflowStep V P W)
  unfolding find_step
  get_step definition name = find_step definition.steps name

  -- The loop of `get_step_index` from the index `idx` on.
  index_from : ℕ → List (WorkflowStep V P W) → String → Option ℕ
  index_from idx [] name = none
  index_from idx (step ∷ steps) name =
      if str_eq step.step_name name then some idx else index_from (suc idx) steps name

  unfoldable pub get_step_index : WorkflowDefinition V P W → String → Option ℕ
  unfolding index_from
  get_step_index definition name = index_from 0 definition.steps name

  next_at : List (WorkflowStep V P W) → Option ℕ → Option (WorkflowStep V P W)
  next_at steps none = none
  next_at steps (some idx) = if leb (length steps - 1) idx then none else get_elem? steps (suc idx)

  unfoldable pub get_next_step : WorkflowDefinition V P W → String → Option (WorkflowStep V P W)
  unfolding next_at
  get_next_step definition current = next_at definition.steps (get_step_index definition current)

  -- `[step] if isinstance(step, CompensatingStep) else []`
  keep_compensating : Option (WorkflowStep V P W) → List (WorkflowStep V P W)
  keep_compensating none = []
  keep_compensating (some step) = if is_some step.compensate then step ∷ [] else []

  -- `for i in range(count - 1, -1, -1)`
  compensating_down : List (WorkflowStep V P W) → ℕ → List (WorkflowStep V P W)
  unfolding keep_compensating
  compensating_down steps zero = []
  compensating_down steps (suc i) =
      keep_compensating (get_elem? steps i) ++ compensating_down steps i

  up_to_index : List (WorkflowStep V P W) → Option ℕ → List (WorkflowStep V P W)
  unfolding compensating_down
  up_to_index steps none = []
  up_to_index steps (some idx) = compensating_down steps (suc idx)

  unfoldable pub get_steps_for_compensation :
      WorkflowDefinition V P W → String → List (WorkflowStep V P W)
  unfolding up_to_index
  get_steps_for_compensation definition up_to =
      up_to_index definition.steps (get_step_index definition up_to)

  -- `none` where the name is taken and a `ValueError` is raised.
  unfoldable pub register_workflow :
      WorkflowDefinition V P W
      → Dict (WorkflowDefinition V P W)
      → Option (Dict (WorkflowDefinition V P W))
  register_workflow definition registry =
      if is_some (lookup definition.name registry)
      then none
      else some (insert definition.name definition registry)

  unfoldable pub get_workflow :
      String → Dict (WorkflowDefinition V P W) → Option (WorkflowDefinition V P W)
  get_workflow name registry = lookup name registry
