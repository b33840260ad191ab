-- ===== src/Worker/Jobs/Retrying.antt =====
-- What the alert hooks of a job are told, and when its retry is due.
use fast_api_boilerplate.Base.{
  ℕ, zero, suc, ◌-◌, ◌≡◌, refl, Bool, Option, some, String, List, [], ◌∷◌, ◌++◌, leb, arith, ap,
  sym, ◌∙◌, subst,
}
use mathlib.Core.List.{append_assoc, append-nil}
use fast_api_boilerplate.Base.Int.{ℤ, pos}
use fast_api_boilerplate.Floats.{Floats, AtMost}
use fast_api_boilerplate.Backoff.{BackoffPolicy, build_policy, delay_for_attempt}
use fast_api_boilerplate.Backoff.Delays.{build_policy-delay_bounds}
use fast_api_boilerplate.Worker.Alerts.{JobFailure, JobAlertHook, fire_alert_hooks}
use fast_api_boilerplate.Worker.Jobs.{
  JobEnvelope, JobRetryPolicy, JobRun, retryable, returned, non_retryable, crashed, retry_after,
  WorkerJob, resolved_retry_policy, choose_defer, failure_of, settle_run, execute_parsed,
  with_retry_count, retry_count_from_context,
}

-- The hooks of a run are called one after the other, each on the world that the one before it left,
-- whether that one raised or not.
pub fire_alert_hooks-append :
    {E W : Type 0} (first rest : List (JobAlertHook E W)) (failure : JobFailure E) (w : W)
    → fire_alert_hooks (first ++ rest) failure w
      ≡ fire_alert_hooks rest failure (fire_alert_hooks first failure w)
unfolding fire_alert_hooks
fire_alert_hooks-append [] rest failure w = refl
fire_alert_hooks-append (hook ∷ first) rest failure w =
    fire_alert_hooks-append first rest failure (hook failure w).1

module _ (fl : Floats) where
  open fl use {F}

  module _ {V T W : Type 0} where
    settle_run-defer :
        (job : WorkerJob fl V T W) (policy : JobRetryPolicy fl) (seed : ℕ) (e : JobEnvelope V)
        (run : JobRun fl T × W) (d : F) (backoff : BackoffPolicy fl)
        → job.backoff_policy ≡ some backoff
        → (settle_run fl job policy seed e run).0 ≡ retry_after d
        → d ≡ delay_for_attempt fl backoff seed e.retry_count
    unfolding settle_run choose_defer
    settle_run-defer job policy seed e (returned value, w) d backoff b h = absurd (cc h)
    settle_run-defer job policy seed e (non_retryable message category, w) d backoff b h =
        absurd (cc h)
    settle_run-defer job policy seed e (retryable message category own, w) d backoff b h = cc (b, h)
    settle_run-defer job policy seed e (crashed message, w) d backoff b h = absurd (cc h)

    -- Where the class has a backoff that its constructor accepts, every retry that `execute` asks for
    -- is due between 0 and the backoff's cap, whatever the error's own value and the retry policy are.
    pub execute-defer_bounds :
        (default_policy : JobRetryPolicy fl) (job : WorkerJob fl V T W) (job_try : Option ℤ)
        (seed : ℕ) (e : JobEnvelope V) (w : W) (base max multiplier : F) (jitter : Bool)
        (backoff : BackoffPolicy fl) (d : F)
        → build_policy fl base max multiplier jitter ≡ some backoff
        → job.backoff_policy ≡ some backoff
        → (execute_parsed fl default_policy job job_try seed e w).0 ≡ retry_after d
        → AtMost fl fl.zero d × AtMost fl d max
    unfolding execute_parsed
    execute-defer_bounds default_policy job job_try seed e w base max multiplier jitter backoff d
          built b h =
        let retry_count = retry_count_from_context job_try e.retry_count in
        let runtime_envelope = with_retry_count retry_count e in
        let same =
          settle_run-defer job (resolved_retry_policy fl default_policy job) seed runtime_envelope
            (job.run runtime_envelope w) d backoff b h in
        subst (λ x. AtMost fl fl.zero x × AtMost fl x max) (sym same)
          (build_policy-delay_bounds fl base max multiplier jitter backoff seed
            runtime_envelope.retry_count built)

-- The attempts from `attempt` on, the final ones marked.
unfoldable pub attempts_from : ℕ → ℕ → ℕ → List (ℕ × Bool)
attempts_from max_tries zero attempt = []
attempts_from max_tries (suc count) attempt =
    (attempt, leb max_tries attempt) ∷ attempts_from max_tries count (suc attempt)

module _ (fl : Floats) {V T W : Type 0} where
  -- A job whose runs all raise a `RetryableJobError`, and whose hooks write each failure that they are
  -- told to a log in the world, which the runs do not touch: the attempt, and if it is the final one.
  pub record Fails (job : WorkerJob fl V T W) (log : W → List (ℕ × Bool)) : Type 0 where
    pub raises :
        (e : JobEnvelope V) (w : W)
        → (message : String) × (category : Option String) × (own : Option (fl.F)) × (w' : W)
          × (job.run e w ≡ (retryable message category own, w'))
          × (log w' ≡ log w)
    pub logs :
        (failure : JobFailure (JobEnvelope V)) (w : W)
        → log (fire_alert_hooks job.alert_hooks failure w)
          ≡ log w ++ (failure.attempt, failure.is_final_attempt) ∷ []

  -- The job is delivered `count` times, with rising values of the queue's `job_try`.
  unfoldable pub deliveries :
      JobRetryPolicy fl → WorkerJob fl V T W → ℕ → JobEnvelope V → ℕ → ℕ → W → W
  deliveries default_policy job seed e zero job_try w = w
  deliveries default_policy job seed e (suc count) job_try w =
      deliveries default_policy job seed e count (suc job_try)
        (execute_parsed fl default_policy job (some (pos job_try)) seed e w).1

  log-execute_parsed :
      (default_policy : JobRetryPolicy fl) (job : WorkerJob fl V T W) (log : W → List (ℕ × Bool))
      (seed job_try : ℕ) (e : JobEnvelope V) (w : W)
      → Fails job log
      → let max_tries = (resolved_retry_policy fl default_policy job).max_tries in
        log (execute_parsed fl default_policy job (some (pos (suc job_try))) seed e w).1
        ≡ log w ++ (suc job_try, leb max_tries (suc job_try)) ∷ []
  unfolding execute_parsed settle_run failure_of with_retry_count retry_count_from_context
  log-execute_parsed default_policy job log seed job_try e w f =
      let policy = resolved_retry_policy fl default_policy job in
      let runtime_envelope = with_retry_count (suc job_try - 1) e in
      let (message, category, own, w', ran, same) = f.raises runtime_envelope w in
      let failure =
        failure_of fl job runtime_envelope policy.max_tries message category
          (leb policy.max_tries (suc (suc job_try - 1))) in
      let count : suc job_try - 1 ≡ job_try = omega arith in
      ap (λ r. log (settle_run fl job policy seed runtime_envelope r).1) ran
      ∙ f.logs failure w'
      ∙ ap (λ l. l ++ (suc (suc job_try - 1), leb policy.max_tries (suc (suc job_try - 1))) ∷ [])
          same
      ∙ ap (λ n. log w ++ (suc n, leb policy.max_tries (suc n)) ∷ []) count

  deliveries_log :
      (default_policy : JobRetryPolicy fl) (job : WorkerJob fl V T W) (log : W → List (ℕ × Bool))
      (seed count job_try : ℕ) (e : JobEnvelope V) (w : W)
      → Fails job log
      → let max_tries = (resolved_retry_policy fl default_policy job).max_tries in
        log (deliveries default_policy job seed e count (suc job_try) w)
        ≡ log w ++ attempts_from max_tries count (suc job_try)
  unfolding deliveries attempts_from
  deliveries_log default_policy job log seed zero job_try e w f = sym (append-nil (log w))
  deliveries_log default_policy job log seed (suc count) job_try e w f =
      let max_tries = (resolved_retry_policy fl default_policy job).max_tries in
      let rest = attempts_from max_tries count (suc (suc job_try)) in
      let w' = (execute_parsed fl default_policy job (some (pos (suc job_try))) seed e w).1 in
      deliveries_log default_policy job log seed count (suc job_try) e w' f
      ∙ ap (λ l. l ++ rest) (log-execute_parsed default_policy job log seed job_try e w f)
      ∙ append_assoc (log w) ((suc job_try, leb max_tries (suc job_try)) ∷ []) rest

  -- A job that keeps failing tells its alert hooks of the attempts 1, 2, 3 and so on in order, one
  -- for each delivery, and marks as final exactly those from its policy's `max_tries` on.
  pub log-deliveries :
      (default_policy : JobRetryPolicy fl) (job : WorkerJob fl V T W) (log : W → List (ℕ × Bool))
      (seed count : ℕ) (e : JobEnvelope V) (w : W)
      → Fails job log
      → log (deliveries default_policy job seed e count 1 w)
        ≡ log w ++ attempts_from (resolved_retry_policy fl default_policy job).max_tries count 1
  log-deliveries default_policy job log seed count e w f =
      deliveries_log default_policy job log seed count 0 e w f
