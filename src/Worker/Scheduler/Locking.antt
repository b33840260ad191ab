-- ===== src/Worker/Scheduler/Locking.antt =====
-- The lock of a scheduled job, by what Redis documents of the commands that the wrapper sends, and what
-- each await of the wrapper does to it.
use fast_api_boilerplate.Base.{
  ℕ, ◌+◌, ◌≤◌, ◌<◌, ◌≡◌, ◌⊎◌, refl, inl, inr, Bool, true, false, Option, none, some, String, ap,
}
use fast_api_boilerplate.Floats.{Floats}
use fast_api_boilerplate.Worker.Alerts.{JobFailure, fire_alert_hooks}
use fast_api_boilerplate.Worker.Scheduler.{
  Redis, FloatTexts, ScheduledJob, SchedulerSettings, Readings, Phase, starting, looking, recording,
  running, alerting, releasing, over, lock_key, last_run_key, enter, resolved_lock_ttl,
  resolved_clock_drift_tolerance, after_lock, await_next,
}

module _ (fl : Floats) (texts : FloatTexts fl.F) {V W : Type 0} (job : ScheduledJob fl V W)
    (redis : Redis W) where
  module _ (clock : W → ℕ) (expiry : W → Option ℕ) where
    -- The lock's key is there, and is due to go at `x`, which is to come.
    abbrev pub Held : ℕ → W → Type 0
    Held x w = (expiry w ≡ some x) × (clock w < x)

    -- A key that is due is no longer there.
    abbrev pub Free : W → Type 0
    Free w = (x : ℕ) → expiry w ≡ some x → x ≤ clock w

    abbrev pub Kept : W → W → Type 0
    Kept w w' = (expiry w' ≡ expiry w) × (clock w' ≡ clock w)

    -- What Redis documents of these commands: `clock` is the server's, and `expiry` is when the lock's
    -- key is due to go, if there is one. Every command may fail; what `DEL` does is not needed.
    pub record KeepsLock : Type 0 where
      pub takes :
          (ttl : ℕ) (w : W)
          → Free w
          → ¬ ((redis.set_nx (lock_key fl texts job) ttl w).0 ≡ some false)
      pub grants :
          (ttl : ℕ) (w : W)
          → (redis.set_nx (lock_key fl texts job) ttl w).0 ≡ some true
          → (expiry (redis.set_nx (lock_key fl texts job) ttl w).1 ≡ some (clock w + ttl))
            × (clock (redis.set_nx (lock_key fl texts job) ttl w).1 ≡ clock w)
      pub refuses :
          (ttl x : ℕ) (w : W)
          → Held x w
          → (¬ ((redis.set_nx (lock_key fl texts job) ttl w).0 ≡ some true))
            × ((redis.set_nx (lock_key fl texts job) ttl w).1 ≡ w)
      pub gets : (w : W) → (redis.get (last_run_key fl texts job) w).1 ≡ w
      pub sets :
          (value : String) (ttl : ℕ) (w : W)
          → Kept w (redis.set (last_run_key fl texts job) value ttl w).1

    -- The job and its alert hooks do not write the key of the lock. Time that they take passes before
    -- or after them.
    pub record SparesLock : Type 0 where
      pub runs : (w : W) → Kept w (job.run w).1
      pub alerts :
          (failure : JobFailure Unit) (w : W) → Kept w (fire_alert_hooks job.alert_hooks failure w)

  -- The wrapper takes a lock.
  abbrev pub Locks : Option (SchedulerSettings fl) → Type 0
  Locks settings = fl.ltb fl.zero (resolved_lock_ttl fl job settings) ≡ true

  -- The call stands between its lock and the end of its release.
  unfoldable pub is_live : Phase fl V → Bool
  is_live starting = false
  is_live (over outcome) = false
  is_live _ = true

  module _ {clock : W → ℕ} {expiry : W → Option ℕ} (keeps : KeepsLock clock expiry)
      (spares : SparesLock clock expiry) (settings : Option (SchedulerSettings fl))
      (readings : Readings fl) where
    -- A call that stays live keeps the lock as it is.
    pub await_next-live :
        (phase : Phase fl V) (w : W)
        → is_live phase ≡ true
        → let (next, w') = await_next fl texts job (some redis) settings readings phase w in
          (is_live next ≡ false) ⊎ Kept clock expiry w w'
    unfolding is_live await_next
    await_next-live starting w live = absurd (cc live)
    await_next-live (looking acquired) w live =
        inr (ap expiry (keeps.gets w), ap clock (keeps.gets w))
    await_next-live (recording acquired) w live = inr (keeps.sets _ _ w)
    await_next-live (running acquired) w live = inr (spares.runs w)
    await_next-live (alerting acquired message) w live = inr (spares.alerts _ w)
    await_next-live (releasing acquired outcome) w live = inl refl
    await_next-live (over outcome) w live = absurd (cc live)

    after_lock-live :
        (tolerance : fl.F) (answer : Option Bool)
        → (is_live (after_lock fl texts job tolerance readings answer) ≡ false)
          ⊎ (answer ≡ some true)
    unfolding after_lock is_live
    after_lock-live tolerance none = inl refl
    after_lock-live tolerance (some false) = inl refl
    after_lock-live tolerance (some true) = inr refl

    abbrev seconds : ℕ
    seconds = texts.truncate (resolved_lock_ttl fl job settings)

    -- A call that becomes live has taken the lock.
    pub await_next-takes :
        (w : W)
        → Locks settings
        → let (next, w') = await_next fl texts job (some redis) settings readings starting w in
          (is_live next ≡ false) ⊎ ((expiry w' ≡ some (clock w + seconds)) × (clock w' ≡ clock w))
    unfolding await_next enter
    await_next-takes w locks =
        let key = lock_key fl texts job in
        rw locks
          (elim (after_lock-live (resolved_clock_drift_tolerance fl job settings)
            (redis.set_nx key seconds w).0) [
              | inl ends ↦ inl ends
              | inr granted ↦ inr (keeps.grants seconds w granted)
            ])

    -- While the lock is held, a call ends at its lock and changes nothing.
    pub await_next-Held :
        (x : ℕ) (w : W)
        → Locks settings
        → Held clock expiry x w
        → let (next, w') = await_next fl texts job (some redis) settings readings starting w in
          (is_live next ≡ false) × (w' ≡ w)
    unfolding await_next enter
    await_next-Held x w locks held =
        let key = lock_key fl texts job in
        let (refused, same) = keeps.refuses seconds x w held in
        rw locks
          (elim (after_lock-live (resolved_clock_drift_tolerance fl job settings)
            (redis.set_nx key seconds w).0) [
              | inl ends ↦ (ends, same)
              | inr granted ↦ absurd (refused granted)
            ])
