-- ===== src/Worker/Scheduler/Release.antt =====
-- What an error on the way to the run leaves of the lock.
use fast_api_boilerplate.Base.{
  ℕ, zero, suc, ◌+◌, ◌<◌, ◌≡◌, refl, Bool, true, false, Option, none, some, ap, ◌∙◌,
}
use fast_api_boilerplate.Floats.{Floats}
use fast_api_boilerplate.Worker.Scheduler.{
  Redis, FloatTexts, ScheduledJob, SchedulerSettings, SchedulerContext, Readings, starting, looking,
  over, WrapperOutcome, enter, redis_raised, last_run_key, lock_key, resolved_lock_ttl,
  resolved_clock_drift_tolerance, check_drift, after_lock, after_last_run, skipped,
  skipped_duplicate, await_next, await_times, execute_wrapper,
}
use fast_api_boilerplate.Worker.Scheduler.Locking.{KeepsLock, Locks, Free}

module _ (fl : Floats) (texts : FloatTexts fl.F) {V W : Type 0} (job : ScheduledJob fl V W)
    (redis : Redis W) (settings : Option (SchedulerSettings fl)) (clock : W → ℕ)
    (expiry : W → Option ℕ) (keeps : KeepsLock fl texts job redis clock expiry) where
  await_times-stay :
      (n : ℕ) (readings : Readings fl) (outcome : WrapperOutcome fl V) (w : W)
      → await_times fl texts job n (some redis) settings readings (over outcome, w)
        ≡ (over outcome, w)
  unfolding await_times await_next
  await_times-stay zero readings outcome w = refl
  await_times-stay (suc n) readings outcome w = await_times-stay n readings outcome w

  abbrev seconds : ℕ
  seconds = texts.truncate (resolved_lock_ttl fl job settings)

  abbrev asked : W → Option Bool × W
  asked w = redis.set_nx (lock_key fl texts job) seconds w

  await_next-looks :
      (readings : Readings fl) (w : W)
      → Locks fl texts job redis settings
      → fl.ltb fl.zero (resolved_clock_drift_tolerance fl job settings) ≡ true
      → (asked w).0 ≡ some true
      → await_next fl texts job (some redis) settings readings starting w
        ≡ (looking true, (asked w).1)
  unfolding await_next enter after_lock check_drift
  await_next-looks readings w locks drifts granted = rw locks (
      ap
        (λ r. (
          after_lock fl texts job (resolved_clock_drift_tolerance fl job settings) readings r,
          (asked w).1,
        ))
        granted
      ∙ rw drifts refl)

  await_next-skips :
      (readings : Readings fl) (w : W)
      → Locks fl texts job redis settings
      → (asked w).0 ≡ some false
      → (asked w).1 ≡ w
      → await_next fl texts job (some redis) settings readings starting w
        ≡ (over (skipped fl texts job skipped_duplicate readings), w)
  unfolding await_next enter after_lock
  await_next-skips readings w locks refused same = rw locks (
      ap
        (λ r. (
          after_lock fl texts job (resolved_clock_drift_tolerance fl job settings) readings r,
          (asked w).1,
        ))
        refused
      ∙ ap (λ v. (over (skipped fl texts job skipped_duplicate readings), v)) same)

  await_next-raises :
      (readings : Readings fl) (w : W)
      → (redis.get (last_run_key fl texts job) w).0 ≡ none
      → await_next fl texts job (some redis) settings readings (looking true) w
        ≡ (over redis_raised, w)
  unfolding await_next after_last_run
  await_next-raises readings w fails =
      let left = (redis.get (last_run_key fl texts job) w).1 in
      ap
        (λ r. (
          after_last_run fl texts job true (resolved_clock_drift_tolerance fl job settings) readings
              r,
          left,
        ))
        fails
      ∙ ap (λ v. (over redis_raised, v)) (keeps.gets w)

  answer_true :
      (answer : Option Bool) (b : Bool)
      → answer ≡ some b
      → ¬ (answer ≡ some false)
      → answer ≡ some true
  answer_true answer true same other = same
  answer_true answer false same other = absurd (other same)

  answer_false :
      (answer : Option Bool) (b : Bool)
      → answer ≡ some b
      → ¬ (answer ≡ some true)
      → answer ≡ some false
  answer_false answer false same other = same
  answer_false answer true same other = absurd (other same)

  -- Where Redis answers `SET NX` and the lock is free, but the lookup of the last run fails, the wrapper
  -- raises after it has taken the lock and before it runs the job, and the lock stays: until its time
  -- is over, every call of the wrapper is skipped as a duplicate.
  pub execute_wrapper-leaks :
      (readings later : Readings fl) (w w' : W)
      → Locks fl texts job redis settings
      → fl.ltb fl.zero (resolved_clock_drift_tolerance fl job settings) ≡ true
      → Free fl texts job redis clock expiry w
      → ((v : W)
          → (b : Bool) × ((redis.set_nx
                (lock_key fl texts job)
                (texts.truncate (resolved_lock_ttl fl job settings))
                v).0
              ≡ some b))
      → ((v : W) → (redis.get (last_run_key fl texts job) v).0 ≡ none)
      → let ctx : SchedulerContext fl W = record { redis = some redis; settings = settings } in
        expiry w' ≡ expiry (execute_wrapper fl texts job ctx readings w).1
        → clock w' < clock w + texts.truncate (resolved_lock_ttl fl job settings)
        → ((execute_wrapper fl texts job ctx readings w).0 ≡ over redis_raised)
          × (execute_wrapper fl texts job ctx later w'
              ≡ (over (skipped fl texts job skipped_duplicate later), w'))
  unfolding execute_wrapper await_times
  execute_wrapper-leaks readings later w w' locks drifts free answers fails same before = (
    ap (λ r. r.0) stops,
    ap (await_times fl texts job 5 (some redis) settings later) (
          await_next-skips later w' locks
            (answer_false _ _ (answers w').1 (keeps.refuses seconds _ w' (kept, before)).0)
            (keeps.refuses seconds _ w' (kept, before)).1)
        ∙ await_times-stay 5 later _ w',
  )
    where
      granted : (asked w).0 ≡ some true
      granted = answer_true _ _ (answers w).1 (keeps.takes seconds w free)

      stops :
          await_times fl texts job 6 (some redis) settings readings (starting, w)
          ≡ (over redis_raised, (asked w).1)
      stops =
          ap (await_times fl texts job 5 (some redis) settings readings)
            (await_next-looks readings w locks drifts granted)
          ∙ ap (await_times fl texts job 4 (some redis) settings readings)
              (await_next-raises readings (asked w).1 (fails (asked w).1))
          ∙ await_times-stay 4 readings redis_raised (asked w).1

      kept : expiry w' ≡ some (clock w + seconds)
      kept = same ∙ ap (λ r. expiry r.1) stops ∙ (keeps.grants seconds w granted).0
