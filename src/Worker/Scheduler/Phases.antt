-- ===== src/Worker/Scheduler/Phases.antt =====
-- The awaits of the wrapper come to an end.
use fast_api_boilerplate.Base.{ℕ}
use fast_api_boilerplate.Floats.{Floats}
use fast_api_boilerplate.Worker.Scheduler.{
  FloatTexts, ScheduledJob, Phase, starting, looking, recording, running, alerting, releasing, over,
}

module _ (fl : Floats) (texts : FloatTexts fl.F) {V W : Type 0} (job : ScheduledJob fl V W) where
  -- How many awaits may follow.
  unfoldable rank : Phase fl V → ℕ
  rank starting = 6
  rank (looking acquired) = 5
  rank (recording acquired) = 4
  rank (running acquired) = 3
  rank (alerting acquired message) = 2
  rank (releasing acquired outcome) = 1
  rank (over outcome) = 0
