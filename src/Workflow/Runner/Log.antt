-- ===== src/Workflow/Runner/Log.antt =====
-- The compensation log names the compensated steps.
use mathlib.Core.List.{map-append}
use mathlib.Core.Path.{ap₂}
use fast_api_boilerplate.Base.{
  ◌∙◌, ℕ, ◌≡◌, refl, Option, none, some, String, List, [], ◌∷◌, ◌++◌, arith, true, map, is_some,
}
use fast_api_boilerplate.Workflow.{WorkflowStep, WorkflowContext, CompensationEntry}
use fast_api_boilerplate.Workflow.Definition.Order.{AreCompensating}
use fast_api_boilerplate.Workflow.Runner.{compensate_steps, run_compensation}

-- The names in a log.
abbrev pub logged : List CompensationEntry → List String
logged = map (λ c. c.step)

module _ {V P W : Type 0} where
  abbrev entry_of :
      ℕ
      → WorkflowContext V P
      → String
      → Option (WorkflowContext V P → W → Option String × W)
      → W
      → List CompensationEntry × W
  entry_of now context name action w = elim action [
    | none ↦ ([], w)
    | some compensate ↦
        let (error, w') = compensate context w in
        (record { step = name; error = error; timestamp = now } ∷ [], w')
  ]

  entry_of-logged :
      (now : ℕ) (context : WorkflowContext V P) (name : String) (w : W)
      (action : Option (WorkflowContext V P → W → Option String × W))
      → is_some action ≡ true
      → logged (entry_of now context name action w).0 ≡ name ∷ []
  entry_of-logged now context name w none h = ground arith
  entry_of-logged now context name w (some compensate) h = refl

  run_compensation-logged :
      (now : ℕ) (context : WorkflowContext V P) (step : WorkflowStep V P W) (w : W)
      → is_some step.compensate ≡ true
      → logged (run_compensation now context step w).0 ≡ step.step_name ∷ []
  unfolding run_compensation
  run_compensation-logged now context step w h =
      entry_of-logged now context step.step_name w step.compensate h

  -- Each compensating step leaves one entry under its name, in order.
  pub compensate_steps-logged :
      (now : ℕ) (context : WorkflowContext V P) (steps : List (WorkflowStep V P W)) (w : W)
      → AreCompensating steps
      → logged (compensate_steps now context steps w).0 ≡ map (λ s. s.step_name) steps
  unfolding compensate_steps
  compensate_steps-logged now context [] w h = refl
  compensate_steps-logged now context (step ∷ steps) w h =
      let (entry, w') = run_compensation now context step w in
      map-append (λ c. c.step) entry (compensate_steps now context steps w').0
      ∙ ap₂ (λ xs ys. xs ++ ys) (run_compensation-logged now context step w h.0)
          (compensate_steps-logged now context steps w' h.1)
