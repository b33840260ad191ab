-- ===== src/Integration/Compensation/Saga.antt =====
-- `with_compensation` against a specification by recursion on the steps: each step's compensation
-- is run after everything that follows the step has been undone.
use mathlib.Core.List.{reverse-append}
use fast_api_boilerplate.Base.{
  ℕ, zero, suc, ◌+◌, ◌≤◌, ◌≡◌, refl, true, false, Option, none, some, String, List, [], ◌∷◌, ◌++◌,
  length, get_elem?, arith, sym, ◌↔◌, ◌==◌,
}
use fast_api_boilerplate.Integration.Errors.{IntegrationError}
use fast_api_boilerplate.Integration.Compensation.{
  CompensatingActionResult, CompensatingAction, StepRun, done, failed, crashed, compensate_one,
  wrap, run_steps, undo, undo_down, with_compensation, CompensationOutcome,
}

same_length : (m n : ℕ) → m ≡ n → (m == n) ≡ true
same_length m n h = ground arith

success_iff :
    {F : Type 0} (failure : Option (IntegrationError F))
    → ((elim failure [ none ↦ true | some e ↦ false ]) ≡ true) ↔ (failure ≡ none)
success_iff none = (λ h. refl, λ h. refl)
success_iff (some e) = (λ h. cc, λ h. cc)

module _ {F W : Type 0} where
  -- What undoing the rest of the saga leaves for one step's action to do.
  abbrev pub then_undo :
      CompensatingAction W
      → Option (IntegrationError F) × List CompensatingActionResult × W
      → Option (IntegrationError F) × List CompensatingActionResult × W
  then_undo action (none, results, w) = (none, results, w)
  then_undo action (some e, results, w) =
      let (result, w') = compensate_one action w in (some e, result ∷ results, w')

  unfoldable pub after_step :
      String
      → String
      → CompensatingAction W
      → (W → Option (IntegrationError F) × List CompensatingActionResult × W)
      → StepRun F × W
      → Option (IntegrationError F) × List CompensatingActionResult × W
  after_step provider operation action rest (done, w) = then_undo action (rest w)
  after_step provider operation action rest (failed e, w) = (some e, [], w)
  after_step provider operation action rest (crashed, w) = (some (wrap provider operation), [], w)

  -- The error, if any, the results of the compensations in the order of their steps, and the world.
  unfoldable pub saga :
      String
      → String
      → List (W → StepRun F × W)
      → List (CompensatingAction W)
      → W
      → Option (IntegrationError F) × List CompensatingActionResult × W
  unfolding after_step
  saga provider operation (step ∷ steps) (action ∷ actions) w =
      after_step provider operation action (saga provider operation steps actions) (step w)
  saga provider operation _ _ w = (none, [], w)

module _ {W : Type 0} where
  get_elem?-some :
      (xs : List (CompensatingAction W)) (k : ℕ)
      → suc k ≤ length xs
      → (x : CompensatingAction W) × (get_elem? xs k ≡ some x)
  get_elem?-some [] k h = absurd (omega arith)
  get_elem?-some (x ∷ xs) zero h = (x, refl)
  get_elem?-some (x ∷ xs) (suc k) h = get_elem?-some xs k (omega arith)

  undo_down-suc :
      (actions : List (CompensatingAction W)) (idx : ℕ) (action : CompensatingAction W) (w : W)
      → get_elem? actions idx ≡ some action
      → undo_down actions (suc idx) w ≡ (
        (compensate_one action w).0 ∷ (undo_down actions idx (compensate_one action w).1).0,
        (undo_down actions idx (compensate_one action w).1).1,
      )
  unfolding undo_down
  undo_down-suc actions idx action w h = rw (h, undo_down)

  undo_down-zero : (actions : List (CompensatingAction W)) (w : W) → undo_down actions 0 w ≡ ([], w)
  unfolding undo_down
  undo_down-zero actions w = refl

  undo_down-cons :
      (action : CompensatingAction W) (actions : List (CompensatingAction W)) (k : ℕ) (w : W)
      → k ≤ length actions
      → undo_down (action ∷ actions) (suc k) w ≡ (
        (undo_down actions k w).0 ++ ((compensate_one action (undo_down actions k w).1).0 ∷ []),
        (compensate_one action (undo_down actions k w).1).1,
      )
  undo_down-cons action actions zero w h =
      rw (undo_down-suc (action ∷ actions) 0 action w refl, undo_down-zero, undo_down-zero)
  undo_down-cons action actions (suc k) w h =
      let (last, found) = get_elem?-some actions k h in
      let ih = undo_down-cons action actions k (compensate_one last w).1 (omega arith) in
      rw (
        undo_down-suc (action ∷ actions) (suc k) last w found,
        undo_down-suc actions k last w found,
        ih,
      )

module _ {F W : Type 0} where
  run_steps-suc :
      (provider operation : String) (steps : List (W → StepRun F × W)) (c : ℕ) (w : W)
      → let r = run_steps provider operation steps c w in
        run_steps provider operation steps (suc c) w ≡ (suc r.0, r.1, r.2)
  unfolding run_steps
  run_steps-suc provider operation [] c w = refl
  run_steps-suc provider operation (step ∷ steps) c w =
      ground (arith, run_steps-suc provider operation steps (suc c) (step w).1)

  run_steps-le :
      (provider operation : String) (steps : List (W → StepRun F × W)) (c : ℕ) (w : W)
      → (run_steps provider operation steps c w).0 ≤ c + length steps
  unfolding run_steps
  run_steps-le provider operation [] c w = omega arith
  run_steps-le provider operation (step ∷ steps) c w =
      ground (arith, run_steps-le provider operation steps (suc c) (step w).1)

  abbrev finished :
      List (CompensatingAction W)
      → ℕ × Option (IntegrationError F) × W
      → Option (IntegrationError F) × List CompensatingActionResult × W
  finished actions (completed, failure, w) =
      let (results, w') = undo actions completed failure w in (failure, results, w')

  then_undo-finished :
      (action : CompensatingAction W) (actions : List (CompensatingAction W)) (completed : ℕ)
      (failure : Option (IntegrationError F)) (w : W)
      → completed ≤ length actions
      → finished (action ∷ actions) (suc completed, failure, w)
        ≡ then_undo action (finished actions (completed, failure, w))
  unfolding undo
  then_undo-finished action actions completed none w h = refl
  then_undo-finished action actions completed (some e) w h =
      rw (undo_down-cons action actions completed w h, reverse-append)

  cons_step :
      (provider operation : String) (action : CompensatingAction W)
      (actions : List (CompensatingAction W)) (steps : List (W → StepRun F × W))
      (ran : StepRun F × W)
      → length steps ≡ length actions
      → ((w : W)
          → saga provider operation steps actions w
            ≡ finished actions (run_steps provider operation steps 0 w))
      → after_step provider operation action (saga provider operation steps actions) ran
        ≡ finished (action ∷ actions) (elim (ran.0) [
          | done ↦ run_steps provider operation steps 1 ran.1
          | failed e ↦ (0, some e, ran.1)
          | crashed ↦ (0, some (wrap provider operation), ran.1)
        ])
  unfolding after_step undo undo_down
  cons_step provider operation action actions steps (done, w) same ih =
      let r = run_steps provider operation steps 0 w in
      let le = run_steps-le provider operation steps 0 w in
      rw (ih w, run_steps-suc provider operation steps 0 w)
        (sym (then_undo-finished action actions r.0 r.1 r.2 (omega arith)))
  cons_step provider operation action actions steps (failed e, w) same ih = refl
  cons_step provider operation action actions steps (crashed, w) same ih = refl

  saga-run_steps :
      (provider operation : String) (steps : List (W → StepRun F × W))
      (actions : List (CompensatingAction W)) (w : W)
      → length steps ≡ length actions
      → saga provider operation steps actions w
        ≡ finished actions (run_steps provider operation steps 0 w)
  unfolding saga run_steps undo
  saga-run_steps provider operation [] [] w h = refl
  saga-run_steps provider operation [] (action ∷ actions) w h = absurd (omega arith)
  saga-run_steps provider operation (step ∷ steps) [] w h = absurd (omega arith)
  saga-run_steps provider operation (step ∷ steps) (action ∷ actions) w h =
      cons_step provider operation action actions steps (step w) (omega arith)
        (λ w'. saga-run_steps provider operation steps actions w' (omega arith))

  -- With as many compensations as steps, `with_compensation` returns an outcome whose error, results
  -- and world are those of the saga: a failure at a step undoes exactly the steps before it, the
  -- latest first, and the results stand in the order of the steps.
  pub with_compensation-saga :
      (provider operation : String) (steps : List (W → StepRun F × W))
      (actions : List (CompensatingAction W)) (w : W)
      → length steps ≡ length actions
      → let (failure, results, w') = saga provider operation steps actions w in
        (r : CompensationOutcome F) × (with_compensation provider operation steps actions w
          ≡ (some r, w'))
        × (r.failure_error ≡ failure)
        × (r.compensation_results ≡ results)
        × ((r.success ≡ true) ↔ (failure ≡ none))
  unfolding with_compensation
  with_compensation-saga provider operation steps actions w h =
      let r = run_steps provider operation steps 0 w in
      rw (saga-run_steps provider operation steps actions w h) (
        record {
          completed_steps = r.0;
          total_steps = length steps;
          success = elim (r.1) [ none ↦ true | some e ↦ false ];
          failure_error = r.1;
          compensation_results = (undo actions r.0 r.1 r.2).0;
        },
        rw (same_length (length steps) (length actions) h),
        refl,
        refl,
        success_iff r.1,
      )
