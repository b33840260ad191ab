-- ===== src/Workflow.antt =====
-- src/app/core/worker/workflow.py: workflows of named steps with retries and compensation, and the
-- columns of src/app/core/db/workflow_execution.py that the runner reads and writes.
--
-- A step acts on a world `W`, which holds all that its coroutines can change, the free keys of
-- `execution_context` included; the runner's own keys of that dict are the fields of
-- `ExecutionContext`, a missing key being the empty value that the runner would create. Texts of
-- errors are kept, logging is left out. `V` is the type of the values in a step's output and `P`
-- that of payloads. A point in time is a number, and the readings of the clock within one call are
-- one instant.
pub mod Advance
pub mod Definition
pub mod Runner
pub mod State
use fast_api_boilerplate.Base.{ℕ, Bool, Option, String, List}
use fast_api_boilerplate.Base.Dict.{Dict}

pub data StepStatus : Type 0 where
  succeeded failed waiting skipped : StepStatus

pub data WorkflowExecutionStatus : Type 0 where
  pending running waiting succeeded failed canceled : WorkflowExecutionStatus

-- `backoff` only names a policy: the runner logs its delay.
pub record StepRetryPolicy : Type 0 where
  pub max_attempts : ℕ
  pub backoff : Option String

pub record StepResult (V : Type 0) : Type 0 where
  pub status : StepStatus
  pub output : Option (Dict V)
  pub error_message : Option String
  pub error_code : Option String
  pub wait_until : Option ℕ
  pub next_step_override : Option String

-- A `TypedDict` with optional keys: `none` is a missing key.
pub record WorkflowStepState (V : Type 0) : Type 0 where
  pub status : Option StepStatus
  pub started_at : Option ℕ
  pub completed_at : Option ℕ
  pub attempt_count : Option ℕ
  pub output : Option (Option (Dict V))
  pub error_message : Option (Option String)
  pub error_code : Option (Option String)
  pub wait_until : Option (Option ℕ)

pub record WorkflowContext (V P : Type 0) : Type 0 where
  pub workflow_execution_id : ℕ
  pub workflow_name : String
  pub current_step : String
  pub input_payload : P
  pub step_outputs : Dict (Dict V)
  pub correlation_id : Option String
  pub attempt_count : ℕ

-- What awaiting `step.execute(context)` does: it returns, or raises an exception with a text and
-- maybe an `error_code`.
pub data StepRun (V : Type 0) : Type 0 where
  returned : StepResult V → StepRun V
  raised : String → Option String → StepRun V

-- A step with `compensate` is a `CompensatingStep`; that coroutine returns, or raises with a text.
pub record WorkflowStep (V P W : Type 0) : Type 0 where
  pub step_name : String
  pub retry_policy : Option StepRetryPolicy
  pub execute : WorkflowContext V P → W → StepRun V × W
  pub compensate : Option (WorkflowContext V P → W → Option String × W)

pub record WorkflowDefinition (V P W : Type 0) : Type 0 where
  pub name : String
  pub steps : List (WorkflowStep V P W)
  pub max_attempts : ℕ

-- An entry of `_compensation_log`: the step, the error text if it failed, and the time.
pub record CompensationEntry : Type 0 where
  pub step : String
  pub error : Option String
  pub timestamp : ℕ

pub record ExecutionContext (V : Type 0) : Type 0 where
  pub step_states : Dict (WorkflowStepState V)
  pub completed_steps : List String
  pub compensation_log : List CompensationEntry
  pub step_outputs : Dict (Dict V)

pub record WorkflowExecution (V P : Type 0) : Type 0 where
  pub id : ℕ
  pub workflow_name : String
  pub correlation_id : Option String
  pub status : WorkflowExecutionStatus
  pub current_step : Option String
  pub attempt_count : ℕ
  pub max_attempts : ℕ
  pub started_at : Option ℕ
  pub completed_at : Option ℕ
  pub last_transition_at : ℕ
  pub input_payload : P
  pub context : ExecutionContext V
  pub error_code : Option String
  pub error_detail : Option String
