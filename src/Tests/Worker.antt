-- ===== src/Tests/Worker.antt =====
-- Runs of worker jobs: the alert hooks, the queue's retries and the job around the workflow runner.
use fast_api_boilerplate.Base.{
  ℕ, ◌≡◌, refl, Bool, true, false, none, some, String, List, [], ◌∷◌, ◌++◌,
}
use fast_api_boilerplate.Base.Int.{pos}
use fast_api_boilerplate.Floats.{AtMost}
use fast_api_boilerplate.Backoff.{BackoffPolicy, build_policy, delay_for_attempt}
use fast_api_boilerplate.Tests.Samples.{nat_floats}
use fast_api_boilerplate.Tests.Workflow.{reserve, begun}
use fast_api_boilerplate.Workflow.{WorkflowDefinition, WorkflowExecution, WorkflowExecutionStatus}
use fast_api_boilerplate.Worker.Alerts.{fire_alert_hooks}
use fast_api_boilerplate.Worker.Jobs.{
  JobEnvelope, JobRetryPolicy, WorkerJob, retryable, retry_after, execute_parsed, settle_run,
  choose_defer, retry_count_from_context, with_retry_count, resolved_retry_policy,
}
use fast_api_boilerplate.Worker.Jobs.Retrying.{
  Fails, deliveries, attempts_from, log-deliveries, execute-defer_bounds,
}
use fast_api_boilerplate.Worker.StepJob.{StepJobState}

abbrev backoff : BackoffPolicy nat_floats
backoff = record { base_delay_seconds = 2; max_delay_seconds = 10; multiplier = 2; jitter = false }

abbrev three_tries : JobRetryPolicy nat_floats
three_tries = record { max_tries = 3; defer_seconds = 5 }

abbrev envelope : JobEnvelope String
envelope = record {
  payload = [];
  correlation_id = none;
  tenant_context = record { tenant_id = none; organization_id = none };
  retry_count = 0;
  metadata = [];
}

-- Its one hook writes to the log and raises.
abbrev failing : WorkerJob nat_floats String String (List (ℕ × Bool))
failing = record {
  job_name = "sync";
  retry_policy = none;
  backoff_policy = some backoff;
  alert_hooks = (λ failure w. (true, w ++ (failure.attempt, failure.is_final_attempt) ∷ [])) ∷ [];
  run = λ e w. (retryable "busy" none (some 70), w);
}

failing-Fails : Fails nat_floats failing (λ w. w)
unfolding fire_alert_hooks
failing-Fails = record {
  raises = λ e w. ("busy", none, some 70, w, refl, refl);
  logs = λ failure w. refl;
}

log-deliveries_example :
    deliveries nat_floats three_tries failing 0 envelope 4 1 []
    ≡ attempts_from (resolved_retry_policy nat_floats three_tries failing).max_tries 4 1
log-deliveries_example =
    log-deliveries nat_floats three_tries failing (λ w. w) 0 4 envelope [] failing-Fails

told : attempts_from 3 4 1 ≡ (1, false) ∷ (2, false) ∷ (3, true) ∷ (4, true) ∷ []
unfolding attempts_from
told = refl

accepted : build_policy nat_floats 2 10 2 false ≡ some backoff
unfolding build_policy
accepted = refl

third_try :
    (execute_parsed nat_floats three_tries failing (some (pos 3)) 0 envelope []).0 ≡ retry_after 8
unfolding execute_parsed settle_run choose_defer delay_for_attempt retry_count_from_context
    with_retry_count
third_try = refl

execute-defer_bounds_example : AtMost nat_floats 0 8 × AtMost nat_floats 8 10
execute-defer_bounds_example =
    execute-defer_bounds nat_floats three_tries failing (some (pos 3)) 0 envelope [] 2 10 2 false
      backoff 8 accepted refl third_try

abbrev booking : WorkflowDefinition String String ℕ
booking = record { name = "order"; steps = reserve ∷ []; max_attempts = 3 }

-- An execution that is over.
abbrev booked : WorkflowExecution String String
booked = record begun { status = WorkflowExecutionStatus.succeeded; completed_at = some 5 }

abbrev stored : StepJobState String String ℕ
stored = record { rows = booked ∷ []; world = 1 }
