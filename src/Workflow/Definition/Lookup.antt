-- ===== src/Workflow/Definition/Lookup.antt =====
-- The steps that the definition's methods return are steps of the definition.
use text.Mathlib.TextPositions.{eq_refl}
use fast_api_boilerplate.Base.{
  ℕ, zero, suc, ◌≡◌, true, Option, none, some, String, List, [], ◌∷◌, is_some, eq_iff, arith,
  get_elem?,
}
use fast_api_boilerplate.Workflow.{WorkflowStep, WorkflowDefinition}
use fast_api_boilerplate.Workflow.Definition.{
  find_step, get_step, get_step_index, get_next_step, next_at,
}

module _ {V P W : Type 0} where
  -- A lookup returns a step of the name that was asked for.
  find_step-name :
      (steps : List (WorkflowStep V P W)) (name : String) (step : WorkflowStep V P W)
      → find_step steps name ≡ some step
      → step.step_name ≡ name
  unfolding find_step
  find_step-name [] name step h = cc
  find_step-name (x ∷ steps) name step h =
      ground (arith, eq_iff x.step_name name, find_step-name steps name step)

  pub get_step-name :
      (definition : WorkflowDefinition V P W) (name : String) (step : WorkflowStep V P W)
      → get_step definition name ≡ some step
      → step.step_name ≡ name
  unfolding get_step
  get_step-name definition name step h = find_step-name definition.steps name step h

  find_step-elem :
      (steps : List (WorkflowStep V P W)) (i : ℕ) (step : WorkflowStep V P W)
      → get_elem? steps i ≡ some step
      → is_some (find_step steps step.step_name) ≡ true
  unfolding find_step
  find_step-elem [] i step h = cc
  find_step-elem (x ∷ steps) zero step h = ground (arith, eq_refl x.step_name)
  find_step-elem (x ∷ steps) (suc i) step h = ground (arith, find_step-elem steps i step h)

  next_at-elem :
      (steps : List (WorkflowStep V P W)) (idx : Option ℕ) (step : WorkflowStep V P W)
      → next_at steps idx ≡ some step
      → (i : ℕ) × (get_elem? steps i ≡ some step)
  unfolding next_at
  next_at-elem steps none step h = cc
  next_at-elem steps (some idx) step h = (suc idx, ground arith)

  pub get_next_step-known :
      (definition : WorkflowDefinition V P W) (current : String) (step : WorkflowStep V P W)
      → get_next_step definition current ≡ some step
      → is_some (get_step definition step.step_name) ≡ true
  unfolding get_next_step get_step
  get_next_step-known definition current step h =
      let (i, at) = next_at-elem definition.steps (get_step_index definition current) step h in
      find_step-elem definition.steps i step at

  pub get_step-known :
      (definition : WorkflowDefinition V P W) (name : String) (step : WorkflowStep V P W)
      → get_step definition name ≡ some step
      → is_some (get_step definition step.step_name) ≡ true
  get_step-known definition name step h = rw (get_step-name definition name step h, h)

  -- The first step is found under its name.
  pub first-known :
      (definition : WorkflowDefinition V P W) (first : WorkflowStep V P W)
      (rest : List (WorkflowStep V P W))
      → definition.steps ≡ first ∷ rest
      → get_step definition first.step_name ≡ some first
  unfolding get_step find_step
  first-known definition first rest h = rw (h, find_step, eq_refl first.step_name)
