-- ===== src/Worker/Jobs.antt =====
-- src/app/core/worker/jobs.py: `WorkerJob.execute` around the `run` of a job class. The envelope's
-- parser is pydantic's, the argument `model_validate`; logging and the log context are left out.
pub mod Retrying
use fast_api_boilerplate.Base.{
  ℕ, suc, ◌-◌, Bool, true, false, Option, none, some, String, List, [], ◌∷◌, ltb, leb,
  if◌then◌else◌,
}
use fast_api_boilerplate.Base.Dict.{Dict}
use fast_api_boilerplate.Base.Int.{ℤ, pos, negsuc}
use fast_api_boilerplate.Floats.{Floats}
use fast_api_boilerplate.Backoff.{BackoffPolicy, delay_for_attempt}
use fast_api_boilerplate.Worker.Alerts.{JobFailure, JobAlertHook, fire_alert_hooks}

pub record JobTenantContext : Type 0 where
  pub tenant_id : Option String
  pub organization_id : Option String

pub record JobEnvelope (V : Type 0) : Type 0 where
  pub payload : Dict V
  pub correlation_id : Option String
  pub tenant_context : JobTenantContext
  pub retry_count : ℕ
  pub metadata : Dict V

-- `validate_retry_count`
unfoldable pub validate_retry_count : ℤ → Option ℕ
validate_retry_count (pos retry_count) = some retry_count
validate_retry_count (negsuc n) = none

unfoldable pub with_retry_count : {V : Type 0} → ℕ → JobEnvelope V → JobEnvelope V
with_retry_count retry_count envelope = record envelope { retry_count = retry_count }

-- `max(job_try - 1, 0)` where the context's `job_try` is an `int`.
unfoldable pub retry_count_from_context : Option ℤ → ℕ → ℕ
retry_count_from_context none fallback = fallback
retry_count_from_context (some (pos job_try)) fallback = job_try - 1
retry_count_from_context (some (negsuc n)) fallback = 0

pub data EnvelopeInput (V R : Type 0) : Type 0 where
  envelope : JobEnvelope V → EnvelopeInput V R
  raw : R → EnvelopeInput V R

module _ (fl : Floats) where
  open fl use {F}

  pub record JobRetryPolicy : Type 0 where
    pub max_tries : ℕ
    pub defer_seconds : F

  -- `JobRetryPolicy(...)`: `__post_init__` raises where a parameter is out of range.
  unfoldable pub job_retry_policy : ℕ → F → Option JobRetryPolicy
  job_retry_policy max_tries defer_seconds =
      if ltb max_tries 1
      then none
      else if fl.ltb defer_seconds fl.zero
      then none
      else some (record { max_tries = max_tries; defer_seconds = defer_seconds })

  -- What awaiting `cls.run` does: it returns, raises one of the two job errors, with the category that
  -- the error carries, or raises anything else.
  pub data JobRun (T : Type 0) : Type 0 where
    returned : T → JobRun T
    non_retryable : String → Option String → JobRun T
    retryable : String → Option String → Option F → JobRun T
    crashed : String → JobRun T

  -- What awaiting `execute` does. `retry_after` is arq's `Retry`.
  pub data JobOutcome (T : Type 0) : Type 0 where
    result : T → JobOutcome T
    failed_permanently : String → Option String → JobOutcome T
    retry_after : F → JobOutcome T
    raised : String → JobOutcome T
    invalid_envelope : JobOutcome T

  -- The class variables of a job.
  pub record WorkerJob (V T W : Type 0) : Type 0 where
    pub job_name : String
    pub retry_policy : Option JobRetryPolicy
    pub backoff_policy : Option (BackoffPolicy fl)
    pub alert_hooks : List (JobAlertHook (JobEnvelope V) W)
    pub run : JobEnvelope V → W → JobRun T × W

  -- The settings' policy stands in for a missing one.
  unfoldable pub resolved_retry_policy :
      {V T W : Type 0} → JobRetryPolicy → WorkerJob V T W → JobRetryPolicy
  resolved_retry_policy default_policy job = elim (job.retry_policy) [
    | none ↦ default_policy
    | some policy ↦ policy
  ]

  -- The class's backoff comes first, then the error's own value, then the retry policy.
  unfoldable pub choose_defer : Option (BackoffPolicy fl) → Option F → JobRetryPolicy → ℕ → ℕ → F
  choose_defer (some backoff) own policy seed retry_count =
      delay_for_attempt fl backoff seed retry_count
  choose_defer none (some own) policy seed retry_count = own
  choose_defer none none policy seed retry_count = policy.defer_seconds

  module _ {V T W : Type 0} where
    -- The failure that the hooks are told of.
    unfoldable pub failure_of :
        WorkerJob V T W
        → JobEnvelope V
        → ℕ
        → String
        → Option String
        → Bool
        → JobFailure (JobEnvelope V)
    failure_of job runtime_envelope max_attempts message category final = record {
      job_name = job.job_name;
      envelope_data = some runtime_envelope;
      attempt = suc runtime_envelope.retry_count;
      max_attempts = max_attempts;
      error_category = category;
      error_message = message;
      is_final_attempt = final;
    }

    -- The `except` clauses.
    unfoldable pub settle_run :
        WorkerJob V T W → JobRetryPolicy → ℕ → JobEnvelope V → JobRun T × W → JobOutcome T × W
    settle_run job policy seed runtime_envelope (returned value, w) = (result value, w)
    settle_run job policy seed runtime_envelope (non_retryable message category, w) = (
      failed_permanently message category,
      fire_alert_hooks job.alert_hooks
          (failure_of job runtime_envelope policy.max_tries message category true) w,
    )
    settle_run job policy seed runtime_envelope (retryable message category own, w) = (
      retry_after (choose_defer job.backoff_policy own policy seed runtime_envelope.retry_count),
      fire_alert_hooks job.alert_hooks
          (failure_of job runtime_envelope policy.max_tries message category
            (leb policy.max_tries (suc runtime_envelope.retry_count)))
          w,
    )
    settle_run job policy seed runtime_envelope (crashed message, w) = (raised message, w)

    unfoldable pub execute_parsed :
        JobRetryPolicy → WorkerJob V T W → Option ℤ → ℕ → JobEnvelope V → W → JobOutcome T × W
    execute_parsed default_policy job job_try seed parsed_envelope w =
        let retry_count = retry_count_from_context job_try parsed_envelope.retry_count in
        let runtime_envelope = with_retry_count retry_count parsed_envelope in
        settle_run job (resolved_retry_policy default_policy job) seed runtime_envelope
          (job.run runtime_envelope w)

    unfoldable pub execute :
        {R : Type 0}
        → (R → Option (JobEnvelope V))
        → JobRetryPolicy
        → WorkerJob V T W
        → Option ℤ
        → ℕ
        → EnvelopeInput V R
        → W
        → JobOutcome T × W
    execute model_validate default_policy job job_try seed (envelope parsed) w =
        execute_parsed default_policy job job_try seed parsed w
    execute model_validate default_policy job job_try seed (raw data_) w =
        elim (model_validate data_) [
          | none ↦ (invalid_envelope, w)
          | some parsed ↦ execute_parsed default_policy job job_try seed parsed w
        ]
