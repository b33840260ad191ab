-- ===== src/Workflow/Definition/Order.antt =====
-- The order of the compensations, and the registry.
use mathlib.Core.List.{reverse-append, append_assoc}
use fast_api_boilerplate.Base.{
  ℕ, zero, suc, ◌≡◌, refl, true, Option, none, some, String, List, [], ◌∷◌, ◌++◌, reverse, take,
  get_elem?, is_some, arith, if◌then◌else◌, ◌∙◌, ap, subst, All, Bool-cases, inl, inr,
}
use fast_api_boilerplate.Base.Dict.{Dict, lookup, insert, lookup-insert_self}
use fast_api_boilerplate.Workflow.{WorkflowStep, WorkflowDefinition}
use fast_api_boilerplate.Workflow.Definition.{
  get_step_index, get_steps_for_compensation, keep_compensating, compensating_down, up_to_index,
  register_workflow, get_workflow,
}

module _ {V P W : Type 0} where
  -- The steps that implement the protocol, in the given order.
  unfoldable pub compensating : List (WorkflowStep V P W) → List (WorkflowStep V P W)
  compensating [] = []
  compensating (step ∷ steps) =
      let rest = compensating steps in if is_some step.compensate then step ∷ rest else rest

  compensating-append :
      (xs ys : List (WorkflowStep V P W))
      → compensating (xs ++ ys) ≡ compensating xs ++ compensating ys
  unfolding compensating
  compensating-append [] ys = refl
  compensating-append (x ∷ xs) ys = ground (arith, compensating-append xs ys)

  reverse-compensating :
      (x : WorkflowStep V P W) (ys : List (WorkflowStep V P W))
      → reverse (compensating (x ∷ ys))
        ≡ reverse (compensating ys) ++ reverse (compensating (x ∷ []))
  reverse-compensating x ys =
      ap reverse (compensating-append (x ∷ []) ys) ∙ reverse-append (compensating (x ∷ [])) _

  take-suc :
      (xs : List (WorkflowStep V P W)) (i : ℕ)
      → reverse (compensating (take (suc i) xs))
        ≡ keep_compensating (get_elem? xs i) ++ reverse (compensating (take i xs))
  take-suc [] zero = unfold compensating keep_compensating in refl
  take-suc [] (suc i) = unfold compensating keep_compensating in refl
  take-suc (x ∷ xs) zero = unfold compensating keep_compensating in ground arith
  take-suc (x ∷ xs) (suc i) =
      rw
        (
          reverse-compensating x (take (suc i) xs),
          reverse-compensating x (take i xs),
          take-suc xs i,
        )
        (append_assoc (keep_compensating (get_elem? xs i)) _ _)

  down-reverse :
      (steps : List (WorkflowStep V P W)) (n : ℕ)
      → compensating_down steps n ≡ reverse (compensating (take n steps))
  unfolding compensating_down
  down-reverse steps zero = unfold compensating in refl
  down-reverse steps (suc i) = rw (take-suc steps i, down-reverse steps i)

  -- The steps to compensate for a step at index `idx` are the compensating ones among the first
  -- `idx + 1` steps, that step included, in reverse order.
  pub get_steps_for_compensation-reverse :
      (definition : WorkflowDefinition V P W) (name : String) (idx : ℕ)
      → get_step_index definition name ≡ some idx
      → get_steps_for_compensation definition name
        ≡ reverse (compensating (take (suc idx) definition.steps))
  unfolding get_steps_for_compensation
  get_steps_for_compensation-reverse definition name idx h =
      rw (h, up_to_index) (down-reverse definition.steps (suc idx))

  registered :
      (definition : WorkflowDefinition V P W) (registry registry' : Dict (WorkflowDefinition V P W))
      → register_workflow definition registry ≡ some registry'
      → insert definition.name definition registry ≡ registry'
  unfolding register_workflow
  registered definition registry registry' h = ground arith

  found :
      (definition : WorkflowDefinition V P W) (registry registry' : Dict (WorkflowDefinition V P W))
      → register_workflow definition registry ≡ some registry'
      → lookup definition.name registry' ≡ some definition
  found definition registry registry' h =
      subst (λ r. lookup definition.name r ≡ some definition)
        (registered definition registry registry' h)
        (lookup-insert_self definition.name definition registry)

  -- A workflow that was registered is found under its name, and a second registration under that
  -- name is refused.
  pub get_workflow-register_workflow :
      (definition other : WorkflowDefinition V P W)
      (registry registry' : Dict (WorkflowDefinition V P W))
      → register_workflow definition registry ≡ some registry'
      → other.name ≡ definition.name
      → (get_workflow definition.name registry' ≡ some definition)
        × (register_workflow other registry' ≡ none)
  unfolding get_workflow register_workflow
  get_workflow-register_workflow definition other registry registry' h same =
      let at_name = found definition registry registry' h in (at_name, rw (same, at_name))

  abbrev pub AreCompensating : List (WorkflowStep V P W) → Type 0
  AreCompensating = All (λ step. is_some step.compensate ≡ true)

  All-append :
      (xs ys : List (WorkflowStep V P W))
      → AreCompensating xs
      → AreCompensating ys
      → AreCompensating (xs ++ ys)
  All-append [] ys hx hy = hy
  All-append (x ∷ xs) ys hx hy = (hx.0, All-append xs ys hx.1 hy)

  keep-AreCompensating :
      (step : Option (WorkflowStep V P W)) → AreCompensating (keep_compensating step)
  unfolding keep_compensating
  keep-AreCompensating none = tt
  keep-AreCompensating (some step) = elim (Bool-cases (is_some step.compensate)) [
    | inl there ↦ rw there (there, tt)
    | inr missing ↦ rw missing tt
  ]

  down-AreCompensating :
      (steps : List (WorkflowStep V P W)) (n : ℕ) → AreCompensating (compensating_down steps n)
  unfolding compensating_down
  down-AreCompensating steps zero = tt
  down-AreCompensating steps (suc i) =
      All-append _ _ (keep-AreCompensating (get_elem? steps i)) (down-AreCompensating steps i)

  up_to-AreCompensating :
      (steps : List (WorkflowStep V P W)) (idx : Option ℕ) → AreCompensating (up_to_index steps idx)
  unfolding up_to_index
  up_to-AreCompensating steps none = tt
  up_to-AreCompensating steps (some idx) = down-AreCompensating steps (suc idx)

  pub for_compensation-AreCompensating :
      (definition : WorkflowDefinition V P W) (name : String)
      → AreCompensating (get_steps_for_compensation definition name)
  unfolding get_steps_for_compensation
  for_compensation-AreCompensating definition name =
      up_to-AreCompensating definition.steps (get_step_index definition name)
