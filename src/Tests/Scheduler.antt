-- ===== src/Tests/Scheduler.antt =====
-- Runs of the wrapper around a scheduled job. The world is a clock and the lock's time.
use fast_api_boilerplate.Base.{
  ℕ, ◌+◌, ◌≤◌, ◌<◌, ◌≡◌, refl, Bool, true, false, Option, none, some, String, [], ◌∷◌, leb,
  if◌then◌else◌, arith, length,
}
use fast_api_boilerplate.Tests.Samples.{nat_floats}
use fast_api_boilerplate.Worker.Scheduler.{
  Redis, FloatTexts, ScheduledJob, SchedulerContext, Phase, returned, starting, looking, over,
  redis_raised, skipped, skipped_duplicate, resolved_lock_ttl, resolved_clock_drift_tolerance,
  Readings, enter, after_lock, check_drift, after_last_run, await_next, await_times,
  execute_wrapper,
}
use fast_api_boilerplate.Worker.Alerts.{fire_alert_hooks}
use fast_api_boilerplate.Worker.Scheduler.Locking.{KeepsLock, SparesLock, Locks}
use fast_api_boilerplate.Worker.Scheduler.Exclusion.{
  System, Call, called, awaited, Steps, stop, step, live_calls, go_on, Steps-exclusion,
}
use fast_api_boilerplate.Worker.Scheduler.Release.{execute_wrapper-leaks}

abbrev World : Type 0
World = ℕ × Option ℕ

abbrev clock : World → ℕ
clock w = w.0

abbrev expiry : World → Option ℕ
expiry w = w.1

abbrev is_free : ℕ → Option ℕ → Bool
is_free now none = true
is_free now (some due) = leb due now

-- `SET NX` raises for a time of 0.
abbrev set_key : Bool → Bool → ℕ → World → Option Bool × World
set_key false free ttl w = (none, w)
set_key true true ttl w = (some true, (w.0, some (w.0 + ttl)))
set_key true false ttl w = (some false, w)

-- `fails` says whether `get` raises.
abbrev redis : Bool → Redis World
redis fails = record {
  set_nx = λ key ttl w. set_key (leb 1 ttl) (is_free w.0 w.1) ttl w;
  get = λ key w. (if fails then none else some none, w);
  set = λ key value ttl w. (false, w);
  delete = λ key w. (false, (w.0, none));
}

abbrev texts : FloatTexts ℕ
texts = record { sub = λ x y. x; truncate = λ x. x; parse = λ raw. none; show = λ x. "" }

abbrev nightly : ScheduledJob nat_floats String World
nightly = record {
  job_name = "nightly";
  max_tries = 1;
  lock_ttl_seconds = some 30;
  clock_drift_tolerance_seconds = none;
  alert_hooks = [];
  run = λ w. (returned none, w);
}

abbrev readings : Readings nat_floats
readings = record { scheduled_at = 7; completed_at = 8; duration = 1 }

is_free-due :
    (now : ℕ) (due : Option ℕ) → ((x : ℕ) → due ≡ some x → x ≤ now) → is_free now due ≡ true
is_free-due now none h = refl
is_free-due now (some x) h = let le : x ≤ now = h x refl in ground arith

is_free-held : (now x : ℕ) (due : Option ℕ) → due ≡ some x → now < x → is_free now due ≡ false
is_free-held now x none held before = absurd (cc held)
is_free-held now x (some y) held before = let same : y ≡ x = cc held in ground arith

set_key-takes :
    (positive free : Bool) (ttl : ℕ) (w : World)
    → free ≡ true
    → ¬ ((set_key positive free ttl w).0 ≡ some false)
set_key-takes false free ttl w h e = absurd (cc e)
set_key-takes true true ttl w h e = absurd (cc e)
set_key-takes true false ttl w h e = absurd (cc h)

set_key-grants :
    (positive free : Bool) (ttl : ℕ) (w : World)
    → (set_key positive free ttl w).0 ≡ some true
    → (expiry (set_key positive free ttl w).1 ≡ some (clock w + ttl))
      × (clock (set_key positive free ttl w).1 ≡ clock w)
set_key-grants false free ttl w e = absurd (cc e)
set_key-grants true true ttl w e = (refl, refl)
set_key-grants true false ttl w e = absurd (cc e)

set_key-refuses :
    (positive free : Bool) (ttl : ℕ) (w : World)
    → free ≡ false
    → (¬ ((set_key positive free ttl w).0 ≡ some true)) × ((set_key positive free ttl w).1 ≡ w)
set_key-refuses false free ttl w h = (λ e. absurd (cc e), refl)
set_key-refuses true false ttl w h = (λ e. absurd (cc e), refl)
set_key-refuses true true ttl w h = absurd (cc h)

redis-KeepsLock : (fails : Bool) → KeepsLock nat_floats texts nightly (redis fails) clock expiry
redis-KeepsLock fails = record {
  takes = λ ttl w free. set_key-takes (leb 1 ttl) _ ttl w (is_free-due w.0 w.1 free);
  grants = λ ttl w. set_key-grants (leb 1 ttl) (is_free w.0 w.1) ttl w;
  refuses =
      λ ttl x w held. set_key-refuses (leb 1 ttl) _ ttl w (is_free-held w.0 x w.1 held.0 held.1);
  gets = λ w. refl;
  sets = λ value ttl w. (refl, refl);
}

nightly-SparesLock : SparesLock nat_floats texts nightly (redis false) clock expiry
unfolding fire_alert_hooks
nightly-SparesLock = record { runs = λ w. (refl, refl); alerts = λ failure w. (refl, refl) }

locks : (fails : Bool) → Locks nat_floats texts nightly (redis fails) none
unfolding resolved_lock_ttl
locks fails = refl

drifts :
    nat_floats.ltb nat_floats.zero (resolved_clock_drift_tolerance nat_floats nightly none) ≡ true
unfolding resolved_clock_drift_tolerance
drifts = refl

nothing_held : (x : ℕ) → expiry (7, none) ≡ some x → x ≤ clock (7, none)
nothing_held x h = absurd (cc h)

abbrev context : Bool → SchedulerContext nat_floats World
context fails = record { redis = some (redis fails); settings = none }

left_behind :
    expiry (20, some 37)
    ≡ expiry (execute_wrapper nat_floats texts nightly (context true) readings (7, none)).1
unfolding execute_wrapper await_times await_next enter after_lock check_drift after_last_run
    resolved_lock_ttl resolved_clock_drift_tolerance
left_behind = refl

not_yet : 20 < 7 + resolved_lock_ttl nat_floats nightly none
unfolding resolved_lock_ttl
not_yet = omega arith

set_key-answers :
    (free : Bool) (ttl : ℕ) (w : World) → (b : Bool) × ((set_key true free ttl w).0 ≡ some b)
set_key-answers true ttl w = (true, refl)
set_key-answers false ttl w = (false, refl)

answers :
    (v : World)
    → (b : Bool) × (((redis true).set_nx "" (resolved_lock_ttl nat_floats nightly none) v).0
        ≡ some b)
unfolding resolved_lock_ttl
answers v = set_key-answers (is_free v.0 v.1) 30 v

execute_wrapper-leaks_example :
    ((execute_wrapper nat_floats texts nightly (context true) readings (7, none)).0
      ≡ over redis_raised)
    × (execute_wrapper nat_floats texts nightly (context true) readings (20, some 37)
        ≡ (over (skipped nat_floats texts nightly skipped_duplicate readings), (20, some 37)))
execute_wrapper-leaks_example =
    execute_wrapper-leaks nat_floats texts nightly (redis true) none clock expiry
      (redis-KeepsLock true) readings readings (7, none) (20, some 37) (locks true) drifts
      nothing_held answers (λ v. refl) left_behind not_yet

abbrev NightlySystem : Type 0
NightlySystem = System nat_floats texts nightly (redis false) none clock expiry

abbrev NightlySteps : NightlySystem → NightlySystem → Type 0
NightlySteps = Steps nat_floats texts nightly (redis false) none clock expiry

abbrev at : Phase nat_floats String → Call nat_floats texts nightly (redis false) none clock expiry
at phase = record { phase = phase; began = 7; readings = readings }

abbrev quiet : NightlySystem
quiet = record { world = (7, none); calls = [] }

-- Two workers call the wrapper, and the second one asks for the lock before the first one has looked
-- up the last run.
abbrev interleaved : NightlySystem
interleaved = record {
  world = (7, some 37);
  calls =
      at (over (skipped nat_floats texts nightly skipped_duplicate readings))
      ∷ at (looking true)
      ∷ [];
}

abbrev one_called : NightlySystem
one_called = record { world = (7, none); calls = at starting ∷ [] }

abbrev both_called : NightlySystem
both_called = record { world = (7, none); calls = at starting ∷ at starting ∷ [] }

abbrev one_asked : NightlySystem
one_asked = record { world = (7, some 37); calls = at starting ∷ at (looking true) ∷ [] }

two_calls : NightlySteps quiet interleaved
unfolding go_on await_next enter after_lock check_drift resolved_lock_ttl
    resolved_clock_drift_tolerance
two_calls =
    step {t = one_asked}
      (step {t = both_called}
        (step {t = one_called} (step stop (called (at starting) refl refl refl))
          (called (at starting) refl refl refl))
        (awaited (at starting ∷ []) [] (at starting) refl refl refl))
      (awaited [] (at (looking true) ∷ []) (at starting) refl refl refl)

positive : 0 < resolved_lock_ttl nat_floats nightly none
unfolding resolved_lock_ttl
positive = omega arith

Steps-exclusion_example :
    length (live_calls nat_floats texts nightly (redis false) none clock expiry interleaved.calls)
    ≤ 1
Steps-exclusion_example =
    Steps-exclusion nat_floats texts nightly (redis false) none clock expiry (redis-KeepsLock false)
      nightly-SparesLock (locks false) positive quiet interleaved refl two_calls
