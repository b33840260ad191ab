-- ===== src/Integration/Compensation.antt =====
-- src/app/integrations/contracts/resilience.py: compensating actions, in a `CompensationContext`
-- and in `with_compensation`. Steps and actions act on a world `W`; message texts and logging are
-- left out.
pub mod Rollback
pub mod Saga
use fast_api_boilerplate.Base.{
  ℕ, zero, suc, Bool, true, false, Option, none, some, String, List, [], ◌∷◌, ◌++◌, reverse, length,
  ◌==◌, if◌then◌else◌, get_elem?,
}
use fast_api_boilerplate.Integration.Errors.{IntegrationError, integration}

pub data Detail : Type 0 where
  cannot_compensate unexpected_error : Detail
  own : Detail

pub record CompensatingActionResult : Type 0 where
  pub success : Bool
  pub action_description : String
  pub detail : Detail

-- A coroutine of an action: what it returns, or `raised`, and the world after it.
pub data Awaited (A : Type 0) : Type 0 where
  returned : A → Awaited A
  raised : Awaited A

pub record CompensatingAction (W : Type 0) : Type 0 where
  pub description : String
  pub can_compensate : W → Awaited Bool × W
  pub execute : W → Awaited CompensatingActionResult × W

module _ {W : Type 0} where
  report : CompensatingAction W → Detail → CompensatingActionResult
  report action detail = record {
    success = false;
    action_description = action.description;
    detail = detail;
  }

  after_execute :
      CompensatingAction W → Awaited CompensatingActionResult × W → CompensatingActionResult × W
  unfolding report
  after_execute action (returned result, w) = (result, w)
  after_execute action (raised, w) = (report action unexpected_error, w)

  after_check : CompensatingAction W → Awaited Bool × W → CompensatingActionResult × W
  unfolding report after_execute
  after_check action (returned true, w) = after_execute action (action.execute w)
  after_check action (returned false, w) = (report action cannot_compensate, w)
  after_check action (raised, w) = (report action unexpected_error, w)

  -- The body of both loops: one action, with its `try`.
  unfoldable pub compensate_one : CompensatingAction W → W → CompensatingActionResult × W
  unfolding after_check
  compensate_one action w = after_check action (action.can_compensate w)

  compensate_in_order : List (CompensatingAction W) → W → List CompensatingActionResult × W
  unfolding compensate_one
  compensate_in_order [] w = ([], w)
  compensate_in_order (action ∷ actions) w =
      let (result, w') = compensate_one action w in
      let (results, w'') = compensate_in_order actions w' in (result ∷ results, w'')

  -- `CompensationContext`: the registered actions, oldest first.
  unfoldable pub register :
      CompensatingAction W → List (CompensatingAction W) → List (CompensatingAction W)
  register action actions = actions ++ (action ∷ [])

  unfoldable pub compensate_all :
      List (CompensatingAction W) → W → List CompensatingActionResult × W
  unfolding compensate_in_order
  compensate_all actions w = compensate_in_order (reverse actions) w

  -- `for idx in range(completed - 1, -1, -1)`. There is an action for each step, so an index out of
  -- range, which would raise, is not met.
  undo_down : List (CompensatingAction W) → ℕ → W → List CompensatingActionResult × W
  unfolding compensate_one
  undo_down compensations zero w = ([], w)
  undo_down compensations (suc idx) w = elim (get_elem? compensations idx) [
    | none ↦ ([], w)
    | some action ↦
        let (result, w') = compensate_one action w in
        let (results, w'') = undo_down compensations idx w' in (result ∷ results, w'')
  ]

-- What awaiting a step does: it returns, or raises an `IntegrationError` or another exception.
pub data StepRun (F : Type 0) : Type 0 where
  done : StepRun F
  failed : IntegrationError F → StepRun F
  crashed : StepRun F

pub record CompensationOutcome (F : Type 0) : Type 0 where
  pub completed_steps : ℕ
  pub total_steps : ℕ
  pub success : Bool
  pub failure_error : Option (IntegrationError F)
  pub compensation_results : List CompensatingActionResult

-- The error that a foreign exception is wrapped in.
pub wrap : {F : Type 0} → String → String → IntegrationError F
wrap provider_name operation = record {
  cls = integration;
  provider_name = provider_name;
  operation = operation;
  cause = none;
  retry_after_seconds = none;
}

module _ {F W : Type 0} where
  -- The loop over the steps: how many completed, the error that stopped it, and the world.
  run_steps :
      String → String → List (W → StepRun F × W) → ℕ → W → ℕ × Option (IntegrationError F) × W
  unfolding wrap
  run_steps provider operation [] completed w = (completed, none, w)
  run_steps provider operation (step ∷ steps) completed w =
      let (ran, w') = step w in
      let rest = run_steps provider operation steps (suc completed) w' in
      elim ran [
        | done ↦ rest
        | failed e ↦ (completed, some e, w')
        | crashed ↦ (completed, some (wrap provider operation), w')
      ]

  undo :
      List (CompensatingAction W)
      → ℕ
      → Option (IntegrationError F)
      → W
      → List CompensatingActionResult × W
  unfolding undo_down
  undo compensations completed none w = ([], w)
  undo compensations completed (some e) w =
      let (results, w') = undo_down compensations completed w in (reverse results, w')

  -- `none` where the two lists differ in length and a `ValueError` is raised.
  unfoldable pub with_compensation :
      String
      → String
      → List (W → StepRun F × W)
      → List (CompensatingAction W)
      → W
      → Option (CompensationOutcome F) × W
  unfolding run_steps undo
  with_compensation provider operation steps compensations w =
      let (completed, failure, w') = run_steps provider operation steps 0 w in
      let (results, w'') = undo compensations completed failure w' in
      if length steps == length compensations
      then (
        some (record {
          completed_steps = completed;
          total_steps = length steps;
          success = elim failure [ none ↦ true | some e ↦ false ];
          failure_error = failure;
          compensation_results = results;
        }),
        w'',
      )
      else (none, w)
