-- ===== src/Worker/Scheduler/Exclusion.antt =====
-- Which calls of the wrapper hold the lock at once, when the awaits of many workers interleave.
use fast_api_boilerplate.Base.{
  ℕ, ◌+◌, ◌≤◌, ◌<◌, ◌≡◌, ◌⊎◌, refl, inl, inr, Bool, true, false, Option, some, List, [], ◌∷◌, ◌++◌,
  arith, ap, sym, ◌∙◌, subst, length, Bool-cases, All, if◌then◌else◌,
}
use fast_api_boilerplate.Floats.{Floats}
use fast_api_boilerplate.Worker.Scheduler.{
  Redis, FloatTexts, ScheduledJob, SchedulerSettings, Readings, Phase, starting, over,
  resolved_lock_ttl, await_next,
}
use fast_api_boilerplate.Worker.Scheduler.Locking.{
  KeepsLock, SparesLock, Locks, is_live, await_next-live, await_next-takes, await_next-Held,
}

module _ (fl : Floats) (texts : FloatTexts fl.F) {V W : Type 0} (job : ScheduledJob fl V W)
    (redis : Redis W) (settings : Option (SchedulerSettings fl)) (clock : W → ℕ)
    (expiry : W → Option ℕ) where
  -- A worker's call of the wrapper: where it stands, when it last sent a command for the lock, and what
  -- it reads from its clock.
  pub record Call : Type 0 where
    pub phase : Phase fl V
    pub began : ℕ
    pub readings : Readings fl

  pub record System : Type 0 where
    pub world : W
    pub calls : List Call

  -- `int(lock_ttl)`
  abbrev pub lock_seconds : ℕ
  lock_seconds = texts.truncate (resolved_lock_ttl fl job settings)

  abbrev began_after : Phase fl V → ℕ → ℕ → ℕ
  began_after starting now began = now
  began_after phase now began = began

  -- The call after its next await, and the world.
  unfoldable pub go_on : Call → W → Call × W
  go_on c w =
      let (next, w') = await_next fl texts job (some redis) settings c.readings c.phase w in
      (
        record {
          phase = next;
          began = began_after c.phase (clock w) c.began;
          readings = c.readings;
        },
        w',
      )

  abbrev pub live : Call → Bool
  live c = is_live fl texts job redis c.phase

  unfoldable pub live_calls : List Call → List Call
  live_calls [] = []
  live_calls (c ∷ cs) = let rest = live_calls cs in if live c then c ∷ rest else rest

  -- A worker calls the wrapper, any one call does its next await, or time passes. `passes` asks that no
  -- call takes as long, from its lock to the end of its release, as the lock lasts.
  pub data Step (s t : System) : Type 0 where
    called : (c : Call) → c.phase ≡ starting → t.world ≡ s.world → t.calls ≡ c ∷ s.calls → Step s t
    awaited :
        (before after : List Call) (c : Call)
        → s.calls ≡ before ++ c ∷ after
        → t.world ≡ (go_on c s.world).1
        → t.calls ≡ before ++ (go_on c s.world).0 ∷ after
        → Step s t
    passes :
        expiry t.world ≡ expiry s.world
        → All (λ c. clock t.world < c.began + lock_seconds) (live_calls s.calls)
        → t.calls ≡ s.calls
        → Step s t

  pub data Steps (s : System) : System → Type 0 where
    stop : Steps s s
    step : {t u : System} → Steps s t → Step t u → Steps s u

  live_calls-cons :
      (c : Call) (cs : List Call) → live c ≡ true → live_calls (c ∷ cs) ≡ c ∷ live_calls cs
  unfolding live_calls
  live_calls-cons c cs h = rw h refl

  live_calls-skip :
      (c : Call) (cs : List Call) → live c ≡ false → live_calls (c ∷ cs) ≡ live_calls cs
  unfolding live_calls
  live_calls-skip c cs h = rw h refl

  live_calls-append : (xs ys : List Call) → live_calls (xs ++ ys) ≡ live_calls xs ++ live_calls ys
  unfolding live_calls
  live_calls-append [] ys = refl
  live_calls-append (c ∷ xs) ys = elim (Bool-cases (live c)) [
    | inl h ↦ rw (h, live_calls-append xs ys) refl
    | inr h ↦ rw (h, live_calls-append xs ys) refl
  ]

  -- No call is live, or one alone, which holds the lock.
  record Holds (s : System) : Type 0 where
    holder : Call
    alone : live_calls s.calls ≡ holder ∷ []
    expires : expiry s.world ≡ some (holder.began + lock_seconds)
    in_time : clock s.world < holder.began + lock_seconds

  abbrev Inv : System → Type 0
  Inv s = (live_calls s.calls ≡ []) ⊎ Holds s

  both_empty : (xs ys : List Call) → xs ++ ys ≡ [] → (xs ≡ []) × (ys ≡ [])
  both_empty [] ys h = (refl, h)
  both_empty (x ∷ xs) ys h = absurd (cc h)

  only_one :
      (xs ys : List Call) (c x : Call) → xs ++ c ∷ ys ≡ x ∷ [] → (xs ≡ []) × (ys ≡ []) × (c ≡ x)
  only_one [] ys c x h = (refl, cc h, cc h)
  only_one (y ∷ xs) ys c x h = let (none, more) = both_empty xs (c ∷ ys) (cc h) in absurd (cc more)

  module _ (keeps : KeepsLock fl texts job redis clock expiry)
      (spares : SparesLock fl texts job redis clock expiry)
      (locks : Locks fl texts job redis settings) (lasts : 0 < lock_seconds) where
    module _ (s t : System) (before after : List Call) (c : Call)
        (had : s.calls ≡ before ++ c ∷ after) (world : t.world ≡ (go_on c s.world).1)
        (has : t.calls ≡ before ++ (go_on c s.world).0 ∷ after) where
      -- The live calls around one that is not.
      around :
          (c' : Call) (u : System)
          → u.calls ≡ before ++ c' ∷ after
          → live c' ≡ false
          → live_calls u.calls ≡ live_calls before ++ live_calls after
      around c' u same dead =
          ap live_calls same
          ∙ live_calls-append before (c' ∷ after)
          ∙ ap (λ cs. live_calls before ++ cs) (live_calls-skip c' after dead)

      among :
          (c' : Call) (u : System)
          → u.calls ≡ before ++ c' ∷ after
          → live c' ≡ true
          → live_calls u.calls ≡ live_calls before ++ c' ∷ live_calls after
      among c' u same alive =
          ap live_calls same
          ∙ live_calls-append before (c' ∷ after)
          ∙ ap (λ cs. live_calls before ++ cs) (live_calls-cons c' after alive)

      Inv-dead :
          live c ≡ false
          → live (go_on c s.world).0 ≡ false
          → live_calls t.calls ≡ live_calls s.calls
      Inv-dead was is = around _ t has is ∙ sym (around c s had was)

    -- What the next await of a call does, by the phases of the call.
    go_on_idle :
        (phase : Phase fl V) (began : ℕ) (readings : Readings fl) (w : W)
        → is_live fl texts job redis phase ≡ false
        → let (c, w') = go_on (record { phase = phase; began = began; readings = readings }) w in
          (live c ≡ false)
          ⊎ ((expiry w' ≡ some (c.began + lock_seconds)) × (clock w' < c.began + lock_seconds))
    unfolding go_on is_live await_next
    go_on_idle starting began readings w dead =
        elim (await_next-takes fl texts job redis keeps spares settings readings w locks) [
          | inl ends ↦ inl ends
          | inr (e, c) ↦ inr (e, omega (arith, c, lasts))
        ]
    go_on_idle (over outcome) began readings w dead = inl refl
    go_on_idle _ began readings w dead = absurd (cc dead)

    go_on_held :
        (phase : Phase fl V) (began : ℕ) (readings : Readings fl) (x : ℕ) (w : W)
        → is_live fl texts job redis phase ≡ false
        → expiry w ≡ some x
        → clock w < x
        → let (c, w') = go_on (record { phase = phase; began = began; readings = readings }) w in
          (live c ≡ false) × (w' ≡ w)
    unfolding go_on is_live await_next
    go_on_held starting began readings x w dead e before =
        await_next-Held fl texts job redis keeps spares settings readings x w locks (e, before)
    go_on_held (over outcome) began readings x w dead e before = (refl, refl)
    go_on_held _ began readings x w dead e before = absurd (cc dead)

    began_after-live :
        (phase : Phase fl V) (now began : ℕ)
        → is_live fl texts job redis phase ≡ true
        → began_after phase now began ≡ began
    unfolding is_live
    began_after-live starting now began h = absurd (cc h)
    began_after-live _ now began h = refl

    go_on-live :
        (c : Call) (w : W)
        → live c ≡ true
        → let (c', w') = go_on c w in
          (live c' ≡ false) ⊎ ((c'.began ≡ c.began) × (expiry w' ≡ expiry w) × (clock w' ≡ clock w))
    unfolding go_on
    go_on-live c w alive =
        elim (await_next-live fl texts job redis keeps spares settings c.readings c.phase w alive) [
          | inl ends ↦ inl ends
          | inr (e, now) ↦ inr (began_after-live c.phase (clock w) c.began alive, e, now)
        ]

    Inv-awaited_idle :
        (s t : System) (before after : List Call) (c : Call)
        → s.calls ≡ before ++ c ∷ after
        → t.world ≡ (go_on c s.world).1
        → t.calls ≡ before ++ (go_on c s.world).0 ∷ after
        → live_calls s.calls ≡ []
        → Inv t
    Inv-awaited_idle s t before after c had world has idle = elim (Bool-cases (live c)) [
      | inl alive ↦
          let (none, more) =
            both_empty (live_calls before) (c ∷ live_calls after)
              (sym (among s t before after c had world has c s had alive) ∙ idle) in
          absurd (cc more)
      | inr dead ↦ elim (Bool-cases (live (go_on c s.world).0)) [
        | inr ends ↦ inl (Inv-dead s t before after c had world has dead ends ∙ idle)
        | inl starts ↦
            let (no_before, no_after) =
              both_empty _ _ (sym (around s t before after c had world has c s had dead) ∙ idle) in
            elim (go_on_idle c.phase c.began c.readings s.world dead) [
              | inl ends ↦ absurd (cc (starts, ends))
              | inr (e, in_time) ↦ inr (record {
                holder = (go_on c s.world).0;
                alone =
                    among s t before after c had world has _ t has starts
                    ∙ ap (λ cs. cs ++ (go_on c s.world).0 ∷ live_calls after) no_before
                    ∙ ap (λ cs. (go_on c s.world).0 ∷ cs) no_after;
                expires = ap expiry world ∙ e;
                in_time = omega (arith, ap clock world, in_time);
              })
            ]
      ]
    ]

    Inv-awaited_busy :
        (s t : System) (before after : List Call) (c : Call)
        → s.calls ≡ before ++ c ∷ after
        → t.world ≡ (go_on c s.world).1
        → t.calls ≡ before ++ (go_on c s.world).0 ∷ after
        → Holds s
        → Inv t
    Inv-awaited_busy s t before after c had world has holds = elim (Bool-cases (live c)) [
      | inr dead ↦
          let (ends, same) =
            go_on_held c.phase c.began c.readings _ s.world dead holds.expires holds.in_time in
          inr (record {
            holder = holds.holder;
            alone = Inv-dead s t before after c had world has dead ends ∙ holds.alone;
            expires = ap expiry (world ∙ same) ∙ holds.expires;
            in_time = omega (arith, ap clock (world ∙ same), holds.in_time);
          })
      | inl alive ↦
          let (no_before, no_after, it) =
            only_one _ _ _ _
              (sym (among s t before after c had world has c s had alive) ∙ holds.alone) in
          elim (Bool-cases (live (go_on c s.world).0)) [
            | inr ends ↦ inl (
                around s t before after c had world has _ t has ends
                ∙ ap (λ cs. cs ++ live_calls after) no_before
                ∙ no_after)
            | inl stays ↦ elim (go_on-live c s.world alive) [
              | inl ends ↦ absurd (cc (stays, ends))
              | inr (began, e, now) ↦
                  let since : (go_on c s.world).0.began ≡ holds.holder.began =
                    began ∙ ap (λ x. x.began) it in
                  inr (record {
                    holder = (go_on c s.world).0;
                    alone =
                        among s t before after c had world has _ t has stays
                        ∙ ap (λ cs. cs ++ (go_on c s.world).0 ∷ live_calls after) no_before
                        ∙ ap (λ cs. (go_on c s.world).0 ∷ cs) no_after;
                    expires =
                        ap expiry world
                        ∙ e
                        ∙ holds.expires
                        ∙ ap (λ b. some (b + lock_seconds)) (sym since);
                    in_time = omega (arith, ap clock world, now, since, holds.in_time);
                  })
            ]
          ]
    ]

    Inv-Step : (s t : System) → Inv s → Step s t → Inv t
    Inv-Step s t (inl idle) (awaited before after c had world has) =
        Inv-awaited_idle s t before after c had world has idle
    Inv-Step s t (inr holds) (awaited before after c had world has) =
        Inv-awaited_busy s t before after c had world has holds
    Inv-Step s t h (called c begins same calls) =
        let dead : live c ≡ false = unfold is_live in ap (is_live fl texts job redis) begins in
        let unchanged : live_calls t.calls ≡ live_calls s.calls =
          ap live_calls calls ∙ live_calls-skip c s.calls dead in
        elim h [
          | inl idle ↦ inl (unchanged ∙ idle)
          | inr holds ↦ inr (record {
            holder = holds.holder;
            alone = unchanged ∙ holds.alone;
            expires = ap expiry same ∙ holds.expires;
            in_time = omega (arith, ap clock same, holds.in_time);
          })
        ]
    Inv-Step s t (inl idle) (passes same in_time calls) = inl (ap live_calls calls ∙ idle)
    Inv-Step s t (inr holds) (passes same in_time calls) =
        let each = subst (All (λ c. clock t.world < c.began + lock_seconds)) holds.alone in_time in
        inr (record {
          holder = holds.holder;
          alone = ap live_calls calls ∙ holds.alone;
          expires = same ∙ holds.expires;
          in_time = each.0;
        })

    Inv-Steps : (s t : System) → Inv s → Steps s t → Inv t
    Inv-Steps s t h stop = h
    Inv-Steps s t h (step {t = u} steps last) = Inv-Step u t (Inv-Steps s u h steps) last

  -- However many workers call the wrapper, and however their awaits interleave, at most one call stands
  -- between its lock and the end of its release, provided that the lock's time is positive, that no
  -- call takes as long from its lock to the end of its release as the lock lasts, that neither the job nor
  -- its alert hooks write the lock's key, and that Redis behaves as it documents, where any command
  -- may fail.
  pub Steps-exclusion :
      KeepsLock fl texts job redis clock expiry
      → SparesLock fl texts job redis clock expiry
      → Locks fl texts job redis settings
      → 0 < lock_seconds
      → (s t : System) → s.calls ≡ []
      → Steps s t
      → length (live_calls t.calls) ≤ 1
  Steps-exclusion keeps spares locks lasts s t none_yet steps =
      elim (Inv-Steps keeps spares locks lasts s t
        (inl (unfold live_calls in ap live_calls none_yet)) steps) [
          | inl idle ↦ omega (arith, ap length idle)
          | inr holds ↦ omega (arith, ap length holds.alone)
        ]
