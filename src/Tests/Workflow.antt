-- ===== src/Tests/Workflow.antt =====
-- Runs of the workflow runner.
use fast_api_boilerplate.Base.{ℕ, ◌+◌, ◌<◌, ◌≡◌, refl, String, none, some, arith, [], ◌∷◌, reverse}
use fast_api_boilerplate.Base.Dict.{lookup, insert}
use fast_api_boilerplate.Workflow.{
  StepStatus, WorkflowExecutionStatus, StepResult, returned, raised, WorkflowStep,
  WorkflowDefinition, ExecutionContext, WorkflowExecution,
}
use fast_api_boilerplate.Workflow.Definition.{
  get_step, get_step_index, get_steps_for_compensation, register_workflow,
}
use fast_api_boilerplate.Workflow.Definition.Order.{
  compensating, get_steps_for_compensation-reverse,
}
use fast_api_boilerplate.Workflow.State.{no_state, state_of, attempts_of}
use fast_api_boilerplate.Workflow.Runner.{ok, start, handle_step_failure}
use fast_api_boilerplate.Workflow.Runner.Failure.{AlwaysFails}
use fast_api_boilerplate.Workflow.Runner.Success.{AlwaysSucceeds}
use fast_api_boilerplate.Workflow.Advance.Completion.{CompletesAll, start-CompletesAll}
use fast_api_boilerplate.Workflow.Advance.{advance, resume}
use fast_api_boilerplate.Workflow.Advance.Waiting.{handle_step_failure-resume}
use fast_api_boilerplate.Workflow.Advance.Invariant.{IsConsistent}
use fast_api_boilerplate.Workflow.Advance.Reachable.{resume_all, resume_all-IsConsistent}
use fast_api_boilerplate.Workflow.Advance.Exhaustion.{Exhausts, advance_all-Exhausts}

-- The world counts the calls of the steps; payloads and outputs are texts.
abbrev pub reserve : WorkflowStep String String ℕ
reserve = record {
  step_name = "reserve";
  retry_policy = none;
  execute = λ context w. (
    returned (record {
      status = StepStatus.succeeded;
      output = none;
      error_message = none;
      error_code = none;
      wait_until = none;
      next_step_override = none;
    }),
    w + 1,
  );
  compensate = some (λ context w. (none, w + 1));
}

abbrev charge : WorkflowStep String String ℕ
charge = record {
  step_name = "charge";
  retry_policy = some (record { max_attempts = 2; backoff = none });
  execute = λ context w. (raised "declined" none, w + 1);
  compensate = none;
}

abbrev order : WorkflowDefinition String String ℕ
order = record { name = "order"; steps = reserve ∷ charge ∷ []; max_attempts = 3 }

abbrev empty_context : ExecutionContext String
empty_context = record {
  step_states = [];
  completed_steps = [];
  compensation_log = [];
  step_outputs = [];
}

abbrev pub begun : WorkflowExecution String String
begun = record {
  id = 1;
  workflow_name = "order";
  correlation_id = none;
  status = WorkflowExecutionStatus.running;
  current_step = some "reserve";
  attempt_count = 1;
  max_attempts = 3;
  started_at = some 0;
  completed_at = none;
  last_transition_at = 0;
  input_payload = "body";
  context = empty_context;
  error_code = none;
  error_detail = none;
}

abbrev charging : WorkflowExecution String String
charging = record begun { current_step = some "charge" }

abbrev held : WorkflowExecution String String
held = record charging {
  status = WorkflowExecutionStatus.waiting;
  context = record empty_context {
    step_states = ("charge", record no_state { wait_until = some (some 60) }) ∷ [];
  };
}

abbrev declined : StepResult String
declined = record {
  status = StepStatus.failed;
  output = none;
  error_message = some "declined";
  error_code = none;
  wait_until = none;
  next_step_override = none;
}

finds_charge : get_step order "charge" ≡ some charge
unfolding get_step
finds_charge = refl

index_of_charge : get_step_index order "charge" ≡ some 1
unfolding get_step_index
index_of_charge = refl

get_steps_for_compensation-reverse_example :
    get_steps_for_compensation order "charge" ≡ reverse (compensating (reserve ∷ charge ∷ []))
get_steps_for_compensation-reverse_example =
    get_steps_for_compensation-reverse order "charge" 1 index_of_charge

registers : register_workflow order [] ≡ some (("order", order) ∷ [])
unfolding register_workflow lookup insert
registers = refl

held_until : (state_of "charge" held.context).wait_until ≡ some (some 60)
unfolding state_of lookup
held_until = refl

no_attempts : attempts_of (state_of "charge" charging.context) ≡ 0
unfolding state_of lookup
no_attempts = refl

has_attempts : attempts_of (state_of "charge" charging.context) < 2
has_attempts = omega (arith, no_attempts)

handle_step_failure-resume_example :
    let waiting = (handle_step_failure order 5 charging charge declined 0).0 in
    (waiting.status ≡ WorkflowExecutionStatus.waiting)
    × (resume order 5 waiting 0 ≡ advance order 5 waiting 0)
handle_step_failure-resume_example =
    handle_step_failure-resume order 5 5 charging charge declined 0 0 refl finds_charge has_attempts
      (omega arith)

begins : start order 1 0 "body" none ≡ ok begun
unfolding start
begins = refl

resume_all-IsConsistent_example : IsConsistent order (resume_all order (1 ∷ 2 ∷ 3 ∷ []) begun 0).0
resume_all-IsConsistent_example =
    resume_all-IsConsistent order 1 0 "body" none begun (1 ∷ 2 ∷ 3 ∷ []) 0 begins

charge-AlwaysFails : AlwaysFails charge
charge-AlwaysFails context w = refl

advance_all-Exhausts_example : Exhausts order charge (5 ∷ 6 ∷ []) charging 0 2
advance_all-Exhausts_example =
    advance_all-Exhausts order 5 (6 ∷ []) charging charge 0 0 charge-AlwaysFails finds_charge
      (record { at_step = refl; counted = no_attempts }) (omega arith)

abbrev notify : WorkflowStep String String ℕ
notify = record reserve { step_name = "notify"; compensate = none }

abbrev pipeline : WorkflowDefinition String String ℕ
pipeline = record { name = "order"; steps = reserve ∷ notify ∷ []; max_attempts = 3 }

pipeline_begins : start pipeline 1 0 "body" none ≡ ok begun
unfolding start
pipeline_begins = refl

pub reserve-AlwaysSucceeds : AlwaysSucceeds reserve
reserve-AlwaysSucceeds context w = record {
  result = _;
  returns = refl;
  says_succeeded = refl;
  goes_on = refl;
}

notify-AlwaysSucceeds : AlwaysSucceeds notify
notify-AlwaysSucceeds context w = record {
  result = _;
  returns = refl;
  says_succeeded = refl;
  goes_on = refl;
}

start-CompletesAll_example : CompletesAll pipeline (5 ∷ 6 ∷ []) begun 0
start-CompletesAll_example =
    start-CompletesAll pipeline 1 0 "body" none begun (5 ∷ 6 ∷ []) 0 pipeline_begins
      ((refl, tt), (tt, tt)) (reserve-AlwaysSucceeds, (notify-AlwaysSucceeds, tt)) refl
