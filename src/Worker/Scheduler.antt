-- ===== src/Worker/Scheduler.antt =====
-- src/app/core/worker/scheduler.py: `ScheduledJob._execute_wrapper`, the lock that keeps a scheduled
-- job from running twice at once, the test for clock drift, and the registry. The Redis client is an
-- argument, as are the float operations that only this file uses; times stay numbers. The wrapper is
-- cut into phases at its awaits, so that calls of many workers can interleave there.
pub mod Locking
pub mod Phases
pub mod Release
pub mod Exclusion
pub mod Registry
use Prim.Native.String.{◌++◌ as append}
use fast_api_boilerplate.Base.{
  ℕ, zero, suc, Bool, true, false, Option, none, some, String, List, [], ◌∷◌, if◌then◌else◌,
}
use fast_api_boilerplate.Base.Dict.{Dict}
use fast_api_boilerplate.Floats.{Floats}
use fast_api_boilerplate.Worker.Alerts.{JobFailure, JobAlertHook, fire_alert_hooks}

-- The commands that the wrapper sends. `none`, or the flag `true`, says that the command raised.
pub record Redis (W : Type 0) : Type 0 where
  -- `set(key, "1", nx=True, ex=ttl)`
  pub set_nx : String → ℕ → W → Option Bool × W
  pub get : String → W → Option (Option String) × W
  -- `set(key, value, ex=ttl)`
  pub set : String → String → ℕ → W → Bool × W
  pub delete : String → W → Bool × W

-- The float operations: `x - y`, `int(x)`, `float(text)` and `str(x)`.
pub record FloatTexts (F : Type 0) : Type 0 where
  pub sub : F → F → F
  pub truncate : F → ℕ
  pub parse : String → Option F
  pub show : F → String

-- What awaiting `cls.run` does: a value that is no dict counts as an empty one.
pub data ScheduledRun (V : Type 0) : Type 0 where
  returned : Option (Dict V) → ScheduledRun V
  raised : String → ScheduledRun V

pub data ScheduledStatus : Type 0 where
  ok skipped_duplicate skipped_clock_drift : ScheduledStatus

module _ (fl : Floats) where
  open fl use {F}

  pub record ScheduledJobResult (V : Type 0) : Type 0 where
    pub status : ScheduledStatus
    pub job_name : String
    pub scheduled_at : F
    pub completed_at : Option F
    pub duration_seconds : Option F
    pub metadata : Dict V

  -- What awaiting `_execute_wrapper` does.
  pub data WrapperOutcome (V : Type 0) : Type 0 where
    result : ScheduledJobResult V → WrapperOutcome V
    job_raised : String → WrapperOutcome V
    redis_raised : WrapperOutcome V

  -- The two settings that stand in for missing class variables, where the context has settings.
  pub record SchedulerSettings : Type 0 where
    pub lock_ttl_seconds : F
    pub clock_drift_tolerance_seconds : F

  pub record ScheduledJob (V W : Type 0) : Type 0 where
    pub job_name : String
    pub max_tries : ℕ
    pub lock_ttl_seconds : Option F
    pub clock_drift_tolerance_seconds : Option F
    pub alert_hooks : List (JobAlertHook Unit W)
    pub run : W → ScheduledRun V × W

  pub record SchedulerContext (W : Type 0) : Type 0 where
    pub redis : Option (Redis W)
    pub settings : Option SchedulerSettings

  -- The readings of the clocks: at the start, and after the run.
  pub record Readings : Type 0 where
    pub scheduled_at : F
    pub completed_at : F
    pub duration : F

  abbrev pub first_of : Option F → Option F → F → F
  first_of (some own) setting default = own
  first_of none (some setting) default = setting
  first_of none none default = default

  unfoldable pub resolved_lock_ttl :
      {V W : Type 0} → ScheduledJob V W → Option SchedulerSettings → F
  resolved_lock_ttl job none = first_of job.lock_ttl_seconds none (fl.of_nat 300)
  resolved_lock_ttl job (some settings) =
      first_of job.lock_ttl_seconds (some settings.lock_ttl_seconds) (fl.of_nat 300)

  unfoldable pub resolved_clock_drift_tolerance :
      {V W : Type 0} → ScheduledJob V W → Option SchedulerSettings → F
  resolved_clock_drift_tolerance job none =
      first_of job.clock_drift_tolerance_seconds none (fl.of_nat 10)
  resolved_clock_drift_tolerance job (some settings) =
      first_of job.clock_drift_tolerance_seconds (some settings.clock_drift_tolerance_seconds)
        (fl.of_nat 10)

  -- What the wrapper awaits next, and with what: the answer of Redis to the lock, to the lookup of the
  -- last run and to its record, the job, the alert hooks, and the release. The flag says whether the
  -- lock was acquired.
  pub data Phase (V : Type 0) : Type 0 where
    starting : Phase V
    looking recording running : Bool → Phase V
    alerting : Bool → String → Phase V
    releasing : Bool → WrapperOutcome V → Phase V
    over : WrapperOutcome V → Phase V

  module _ (texts : FloatTexts F) {V W : Type 0} (job : ScheduledJob V W) where
    abbrev pub lock_key : String
    lock_key = append "scheduler:lock:" job.job_name

    abbrev pub last_run_key : String
    last_run_key = append "scheduler:last_run:" job.job_name

    abbrev pub skipped : ScheduledStatus → Readings → WrapperOutcome V
    skipped status readings = result (record {
      status = status;
      job_name = job.job_name;
      scheduled_at = readings.scheduled_at;
      completed_at = none;
      duration_seconds = none;
      metadata = [];
    })

    -- An error of the command is passed over.
    unfoldable pub release_lock : Redis W → Bool → W → W
    release_lock redis true w = (redis.delete lock_key w).1
    release_lock redis false w = w

    -- A text that is no float is passed over.
    unfoldable pub too_soon : F → F → Option String → Bool
    too_soon tolerance now none = false
    too_soon tolerance now (some raw) = elim (texts.parse raw) [
      | none ↦ false
      | some last_run ↦ fl.ltb (texts.sub now last_run) tolerance
    ]

    unfoldable pub after_record : Bool → Bool → Phase V
    after_record acquired true = over redis_raised
    after_record acquired false = running acquired

    unfoldable pub after_last_run : Bool → F → Readings → Option (Option String) → Phase V
    after_last_run acquired tolerance readings none = over redis_raised
    after_last_run acquired tolerance readings (some raw) =
        if too_soon tolerance readings.scheduled_at raw
        then releasing acquired (skipped skipped_clock_drift readings)
        else recording acquired

    unfoldable pub check_drift : Bool → F → Phase V
    check_drift acquired tolerance =
        if fl.ltb fl.zero tolerance then looking acquired else running acquired

    unfoldable pub after_lock : F → Readings → Option Bool → Phase V
    after_lock tolerance readings none = over redis_raised
    after_lock tolerance readings (some false) = over (skipped skipped_duplicate readings)
    after_lock tolerance readings (some true) = check_drift true tolerance

    unfoldable pub enter : Redis W → Option SchedulerSettings → Readings → W → Phase V × W
    enter redis settings readings w =
        let tolerance = resolved_clock_drift_tolerance job settings in
        if fl.ltb fl.zero (resolved_lock_ttl job settings)
        then (let (answer, w') =
              redis.set_nx lock_key (texts.truncate (resolved_lock_ttl job settings)) w in
            (after_lock tolerance readings answer, w'))
        else (check_drift false tolerance, w)

    unfoldable pub or_no_metadata : Option (Dict V) → Dict V
    or_no_metadata none = []
    or_no_metadata (some metadata) = metadata

    -- The `try` and `except` clauses, after the run.
    unfoldable pub settle_run : Readings → Bool → ScheduledRun V → Phase V
    settle_run readings acquired (returned value) = releasing acquired (
        result (record {
          status = ok;
          job_name = job.job_name;
          scheduled_at = readings.scheduled_at;
          completed_at = some readings.completed_at;
          duration_seconds = some readings.duration;
          metadata = or_no_metadata value;
        }))
    settle_run readings acquired (raised message) = alerting acquired message

    abbrev pub scheduled_failure : String → JobFailure Unit
    scheduled_failure message = record {
      job_name = job.job_name;
      envelope_data = none;
      attempt = 1;
      max_attempts = job.max_tries;
      error_category = none;
      error_message = message;
      is_final_attempt = true;
    }

    -- One await of the wrapper, with what follows it up to the next. Without a Redis client nothing is
    -- looked up or recorded.
    unfoldable pub await_next :
        Option (Redis W) → Option SchedulerSettings → Readings → Phase V → W → Phase V × W
    await_next (some redis) settings readings starting w = enter redis settings readings w
    await_next (some redis) settings readings (looking acquired) w =
        let (raw, w') = redis.get last_run_key w in
        (after_last_run acquired (resolved_clock_drift_tolerance job settings) readings raw, w')
    await_next (some redis) settings readings (recording acquired) w =
        let (raises, w') = redis.set last_run_key (texts.show readings.scheduled_at) 86400 w in
        (after_record acquired raises, w')
    await_next (some redis) settings readings (releasing acquired outcome) w =
        (over outcome, release_lock redis acquired w)
    await_next none settings readings starting w = (running false, w)
    await_next none settings readings (looking acquired) w = (running acquired, w)
    await_next none settings readings (recording acquired) w = (running acquired, w)
    await_next none settings readings (releasing acquired outcome) w = (over outcome, w)
    await_next redis settings readings (running acquired) w =
        let (ran, w') = job.run w in (settle_run readings acquired ran, w')
    await_next redis settings readings (alerting acquired message) w = (
      releasing acquired (job_raised message),
      fire_alert_hooks job.alert_hooks (scheduled_failure message) w,
    )
    await_next redis settings readings (over outcome) w = (over outcome, w)

    -- So many awaits of the wrapper.
    unfoldable pub await_times :
        ℕ → Option (Redis W) → Option SchedulerSettings → Readings → Phase V × W → Phase V × W
    await_times zero redis settings readings (phase, w) = (phase, w)
    await_times (suc n) redis settings readings (phase, w) =
        await_times n redis settings readings (await_next redis settings readings phase w)

    -- The whole wrapper: there are six awaits at most.
    unfoldable pub execute_wrapper : SchedulerContext W → Readings → W → Phase V × W
    execute_wrapper ctx readings w = await_times 6 ctx.redis ctx.settings readings (starting, w)
