-- ===== src/Lib.antt =====
-- The resilience and workflow core of the FastAPI boilerplate: outgoing HTTP calls that fail, the
-- integration contracts above them, the workflows, jobs and scheduled jobs of the background
-- workers, the way of a webhook from its request to the worker, and the authorization policy.
--
-- Parts and files:
--   HttpClient.CircuitBreaker  src/app/integrations/http_client/circuit_breaker.py. A `CircuitBreaker`
--     holds the state, the counter and the time of the last failure; `read_state` is the property
--     `state`, and `check`, `record_success`, `record_failure` and `reset` are the methods. A method
--     that mutates the breaker returns the new one, and `now` is a reading of the clock.
--   HttpClient.Errors  .../http_client/exceptions.py, and `raise_for_status` of client.py.
--   HttpClient.Client  .../http_client/client.py: `request`, from the merged headers over the request
--     hooks and the one exchange to the response hooks. `TemplateHttpClient` holds what it reads.
--   HttpClient.RateLimit  .../http_client/rate_limit.py: rate-limit headers and the delay they ask for.
--   HttpClient.Retry  .../http_client/retry.py: the policy, what is retried, and the delays.
--   Backoff  src/app/core/worker/retry.py: the delays and failure categories of worker jobs.
--   Integration.Errors  src/app/integrations/contracts/errors.py: HTTP errors become integration
--     errors in `classify_http_error`, which the next four files read.
--   Integration.Fallback, .PartialFailure, .Compensation, .Deferred
--     src/app/integrations/contracts/resilience.py: `with_fallback`, `execute_with_partial_failure`,
--     `CompensationContext` and `with_compensation`, and deferred retries.
--   Integration.Cursor  src/app/integrations/contracts/sync.py: `SyncCursor` and its checkpoint.
--   Workflow  src/app/core/worker/workflow.py and the columns of src/app/core/db/workflow_execution.py:
--     .Definition (steps and registry), .State (the runner's keys of `execution_context`), .Runner
--     (`start`, `execute_step`, `handle_step_failure`, `compensate`) and .Advance (`advance`, `resume`).
--   Worker  .Alerts and .Jobs: the alert hooks of src/app/core/worker/retry.py and `execute` of
--     src/app/core/worker/jobs.py. .StepJob: `WorkflowStepJob` of workflow.py around the runner above.
--     .Scheduler: src/app/core/worker/scheduler.py, the wrapper of a scheduled job over its Redis lock, cut
--     into phases at its awaits (`await_next`), so that calls interleave; schedules and registry.
--   Webhooks.Events  src/app/webhooks/persistence.py: the rows of src/app/core/db/webhook_event.py and
--     the marks that change them. The result of a signature check is the record of signatures.py.
--   Webhooks.Replay, .Ingestion  src/app/webhooks/replay.py and ingestion.py: a delivery is verified,
--     validated, checked for replay, stored, acknowledged and enqueued, each through the file above.
--   Webhooks.Idempotency  src/app/webhooks/idempotency.py over the rows of
--     src/app/core/db/idempotency_key.py: `protect`, and `record_idempotency_key` under the table's
--     unique constraint.
--   Webhooks.Processing  src/app/webhooks/processing.py: `decide_retry` and the attempts it reads,
--     the request that goes to the worker as a job's payload (.JobRequest), and .Acknowledgement.
--   Authorization  src/app/core/authorization.py: the policy with the roles that a role inherits, the
--     subject that a user's claims give (.Subject), and the checks of the routes (.Checks).
--   Base holds the shared names, tests and list lemmas, Floats the interface for Python's `float`,
--     and Tests the concrete runs at which the theorems are applied.
--
-- Conventions. A coroutine given by the caller (a step, a compensation, a provider) is a function of
-- a world `W` that it may change; it returns a value that says whether it returned or raised. An
-- exception of the modelled code is `none` or `err`. The loops recurse on their lists, except for the
-- worklist of `expand_roles`, whose fuel is the number of pending roles and of all listed inherited
-- roles; each round takes a role off the list, and a role is expanded once, so this is enough. The
-- wrapper of a scheduled job has six awaits at most and is given six. A `dict` is an association list,
-- and points in time are natural numbers.
--
-- Outside the model: `float` is the interface `Floats` with the facts on finite floats that the
-- code relies on, `random.uniform` is its sample from a seed, httpx gives a response's status and
-- `is_success` and is the transport `send`, hashlib's digest is the argument `sha256`, and the
-- logger is left out. The SQLAlchemy session is the rows of a table; a commit writes the columns
-- that were assigned, which a dict that is changed in place in a plain JSON column is not. The
-- Redis client, the texts of its floats, the decoding of a body, JSON values and pydantic's
-- validation of an envelope are arguments; `KeepsLock` is what Redis documents of `SET` with `NX`
-- and `EX`, `GET` and `SET`, each of which may fail. Identifiers and headers are ASCII texts.
-- Message texts are left out where nothing reads them. Not modelled are the HTTP client's own
-- hooks (authentication, instrumentation, logging), the rest of the sync contracts, settings,
-- secrets, dead letters, the validation, retention and replay tooling of webhooks, the domain
-- services, passwords and tokens, query parameters and caching, the API, the admin and the
-- middleware, and configuration and observability.
pub mod Base
pub mod Floats
pub mod HttpClient
pub mod Backoff
pub mod Integration
pub mod Webhooks
pub mod Authorization
pub mod Worker
pub mod Workflow
mod Tests
