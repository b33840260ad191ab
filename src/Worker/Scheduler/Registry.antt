-- ===== src/Worker/Scheduler/Registry.antt =====
-- Cron schedules and the registry of scheduled jobs. A job is what the registry reads of its class.
use Prim.Native.String.{◌++◌ as append}
use fast_api_boilerplate.Base.{
  ℕ, Bool, true, false, Option, none, some, String, List, [], ◌∷◌, str_eq, if◌then◌else◌, map,
}
use fast_api_boilerplate.Base.Dict.{Dict, lookup, insert}

-- A field of a schedule: a number, a set of numbers, or `None`.
pub data CronField : Type 0 where
  every : CronField
  at : ℕ → CronField
  among : List ℕ → CronField

pub record CronSchedule : Type 0 where
  pub second : CronField
  pub minute : CronField
  pub hour : CronField
  pub day : CronField
  pub month : CronField
  pub weekday : CronField

unfoldable pub normalize : CronField → Option (List ℕ)
normalize every = none
normalize (at value) = some (value ∷ [])
normalize (among values) = some values

pub record ScheduledJobClass : Type 0 where
  pub job_name : String
  pub schedule : Option CronSchedule
  pub run_at_startup : Bool
  pub unique : Bool
  pub max_tries : ℕ

-- The arguments of `cron`.
pub record CronJob : Type 0 where
  pub name : String
  pub second : Option (List ℕ)
  pub minute : Option (List ℕ)
  pub hour : Option (List ℕ)
  pub day : Option (List ℕ)
  pub month : Option (List ℕ)
  pub weekday : Option (List ℕ)
  pub run_at_startup : Bool
  pub unique : Bool
  pub max_tries : ℕ

-- A job without a schedule cannot be registered.
unfoldable pub cron_job : ScheduledJobClass → Option CronJob
cron_job job = elim (job.schedule) [
  | none ↦ none
  | some schedule ↦ some (record {
    name = job.job_name;
    second = normalize schedule.second;
    minute = normalize schedule.minute;
    hour = normalize schedule.hour;
    day = normalize schedule.day;
    month = normalize schedule.month;
    weekday = normalize schedule.weekday;
    run_at_startup = job.run_at_startup;
    unique = job.unique;
    max_tries = job.max_tries;
  })
]

-- `none` is a `ValueError`.
unfoldable pub register_scheduled_job :
    ScheduledJobClass → Dict ScheduledJobClass → Option (Dict ScheduledJobClass)
register_scheduled_job job registry = if str_eq job.job_name "" then none else elim (job.schedule) [
  | none ↦ none
  | some schedule ↦ some (insert job.job_name job registry)
]

unfoldable pub get_scheduled_job : String → Dict ScheduledJobClass → Option ScheduledJobClass
get_scheduled_job name registry = lookup name registry

unfoldable pub build_cron_jobs : Dict ScheduledJobClass → List (Option CronJob)
build_cron_jobs registry = map (λ entry. cron_job entry.1) registry

abbrev daily : ℕ → ℕ → CronSchedule
daily hour minute = record {
  second = at 0;
  minute = at minute;
  hour = at hour;
  day = every;
  month = every;
  weekday = every;
}

abbrev placeholder : String → CronSchedule → ScheduledJobClass
placeholder name schedule = record {
  job_name = append "platform.scheduled." name;
  schedule = some schedule;
  run_at_startup = false;
  unique = true;
  max_tries = 1;
}

abbrev pub placeholder_jobs : List ScheduledJobClass
placeholder_jobs =
    placeholder "token_blacklist_cleanup" (daily 3 0)
    ∷ placeholder "webhook_event_retention" (daily 4 0)
    ∷ placeholder "dead_letter_retention" (daily 4 30)
    ∷ []
