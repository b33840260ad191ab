-- ===== src/Worker/Alerts.antt =====
-- The alert hooks of a job class, src/app/core/worker/retry.py `JobAlertHook`, and the two methods
-- `_fire_alert_hooks` of jobs.py and scheduler.py that call them. The warning that they log is left out.
use fast_api_boilerplate.Base.{ℕ, Bool, Option, String, List, [], ◌∷◌}

-- What a hook is told; `E` is the envelope.
pub record JobFailure (E : Type 0) : Type 0 where
  pub job_name : String
  pub envelope_data : Option E
  pub attempt : ℕ
  pub max_attempts : ℕ
  pub error_category : Option String
  pub error_message : String
  pub is_final_attempt : Bool

-- A hook acts on the world and says whether it raised.
abbrev pub JobAlertHook : Type 0 → Type 0 → Type 0
JobAlertHook E W = JobFailure E → W → Bool × W

module _ {E W : Type 0} where
  -- The `except` clause takes whatever a hook raises.
  unfoldable pub fire_alert_hooks : List (JobAlertHook E W) → JobFailure E → W → W
  fire_alert_hooks [] failure w = w
  fire_alert_hooks (hook ∷ hooks) failure w =
      let (raised, w') = hook failure w in fire_alert_hooks hooks failure w'
