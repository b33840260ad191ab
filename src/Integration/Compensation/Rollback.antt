-- ===== src/Integration/Compensation/Rollback.antt =====
-- When a failed saga leaves the world as it found it.
use fast_api_boilerplate.Base.{
  ◌≡◌, ◌≢◌, refl, true, false, Option, none, some, String, List, [], ◌∷◌, length, arith, All, inl,
  inr, sym, ◌∙◌, ap, subst, Bool-cases,
}
use fast_api_boilerplate.Integration.Errors.{IntegrationError}
use fast_api_boilerplate.Integration.Compensation.{
  CompensatingActionResult, CompensatingAction, StepRun, done, failed, crashed, compensate_one,
  with_compensation, CompensationOutcome,
}
use fast_api_boilerplate.Integration.Compensation.Saga.{
  saga, after_step, then_undo, with_compensation-saga,
}

some≢none : {A : Type 0} {a : A} → some a ≡ none → ⊥
some≢none h = cc

-- Every result reports success.
abbrev pub Successes : List CompensatingActionResult → Type 0
Successes = All (λ r. r.success ≡ true)

module _ {F W : Type 0} where
  -- The action takes the world back across the step, and reports success.
  abbrev pub Undoes : (W → StepRun F × W) → CompensatingAction W → Type 0
  Undoes step action =
      (w w' : W)
      → step w ≡ (done, w')
      → ((compensate_one action w').1 ≡ w) × ((compensate_one action w').0.success ≡ true)

  -- A step that raises leaves the world alone.
  abbrev pub FailsCleanly : (W → StepRun F × W) → Type 0
  FailsCleanly step = (w w' : W) (e : StepRun F) → step w ≡ (e, w') → e ≢ done → w' ≡ w

  abbrev pub Reversible : List (W → StepRun F × W) → List (CompensatingAction W) → Type 0
  Reversible [] [] = Unit
  Reversible (step ∷ steps) (action ∷ actions) =
      Undoes step action × FailsCleanly step × Reversible steps actions
  Reversible _ _ = ⊥

  pub Reversible-length :
      (steps : List (W → StepRun F × W)) (actions : List (CompensatingAction W))
      → Reversible steps actions
      → length steps ≡ length actions
  Reversible-length [] [] h = refl
  Reversible-length [] (action ∷ actions) h = absurd h
  Reversible-length (step ∷ steps) [] h = absurd h
  Reversible-length (step ∷ steps) (action ∷ actions) h =
      omega (arith, Reversible-length steps actions h.2)

  undone_rest :
      (action : CompensatingAction W)
      (ended : Option (IntegrationError F) × List CompensatingActionResult × W) (w w₁ : W)
      (e : IntegrationError F)
      → (ended.0 ≡ some e → (ended.2 ≡ w₁) × Successes ended.1)
      → ((compensate_one action w₁).1 ≡ w) × ((compensate_one action w₁).0.success ≡ true)
      → (then_undo action ended).0 ≡ some e
      → ((then_undo action ended).2 ≡ w) × Successes (then_undo action ended).1
  undone_rest action (none, results, w₂) w w₁ e ih u h = cc
  undone_rest action (some e', results, w₂) w w₁ e ih u h =
      let (back, good) = ih h in (rw back u.0, (rw back u.1, good))

  undone_step :
      (provider operation : String) (step : W → StepRun F × W) (action : CompensatingAction W)
      (rest : W → Option (IntegrationError F) × List CompensatingActionResult × W) (w : W)
      (ran : StepRun F × W) (e : IntegrationError F)
      → Undoes step action
      → FailsCleanly step
      → ((w₁ : W) → (rest w₁).0 ≡ some e → ((rest w₁).2 ≡ w₁) × Successes (rest w₁).1)
      → step w ≡ ran
      → (after_step provider operation action rest ran).0 ≡ some e
      → ((after_step provider operation action rest ran).2 ≡ w)
        × Successes (after_step provider operation action rest ran).1
  unfolding after_step
  undone_step provider operation step action rest w (done, w₁) e u c ih s h =
      undone_rest action (rest w₁) w w₁ e (ih w₁) (u w w₁ s) h
  undone_step provider operation step action rest w (failed x, w₁) e u c ih s h =
      (c w w₁ (failed x) s (λ q. cc), tt)
  undone_step provider operation step action rest w (crashed, w₁) e u c ih s h =
      (c w w₁ crashed s (λ q. cc), tt)

  saga-Reversible :
      (provider operation : String) (steps : List (W → StepRun F × W))
      (actions : List (CompensatingAction W)) (w : W) (e : IntegrationError F)
      → Reversible steps actions
      → (saga provider operation steps actions w).0 ≡ some e
      → ((saga provider operation steps actions w).2 ≡ w)
        × Successes (saga provider operation steps actions w).1
  unfolding saga
  saga-Reversible provider operation [] [] w e h f = cc
  saga-Reversible provider operation [] (action ∷ actions) w e h f = absurd h
  saga-Reversible provider operation (step ∷ steps) [] w e h f = absurd h
  saga-Reversible provider operation (step ∷ steps) (action ∷ actions) w e (u, c, h) f =
      undone_step provider operation step action (saga provider operation steps actions) w (step w)
        e u c (λ w₁ f₁. saga-Reversible provider operation steps actions w₁ e h f₁) refl f

  -- Where each compensation undoes its step and a step that raises leaves the world alone, a run of
  -- `with_compensation` that reports an error ends in the world that it began in, and each of its
  -- compensations reports success.
  pub with_compensation-rollback :
      (provider operation : String) (steps : List (W → StepRun F × W))
      (actions : List (CompensatingAction W)) (w w' : W) (r : CompensationOutcome F)
      (e : IntegrationError F)
      → Reversible steps actions
      → with_compensation provider operation steps actions w ≡ (some r, w')
      → r.failure_error ≡ some e
      → (w' ≡ w) × Successes r.compensation_results × (r.success ≡ false)
  with_compensation-rollback provider operation steps actions w w' r e h runs fails =
      let (r₁, same, error, results, success) =
        with_compensation-saga provider operation steps actions w
          (Reversible-length steps actions h) in
      let same_r : r₁ ≡ r = cc in
      let same_w : (saga provider operation steps actions w).2 ≡ w' = cc in
      let f : (saga provider operation steps actions w).0 ≡ some e = cc in
      let (back, good) = saga-Reversible provider operation steps actions w e h f in
      (
        sym same_w ∙ back,
        subst Successes (sym results ∙ ap (λ q. q.compensation_results) same_r) good,
        elim (Bool-cases (r.success)) [
          | inl yes_ ↦ absurd (some≢none (sym f ∙ success.0 (ap (λ q. q.success) same_r ∙ yes_)))
          | inr no_ ↦ no_
        ],
      )
