-- ===== src/Workflow/Definition/Sequence.antt =====
-- Looking up the steps of a definition whose names are distinct.
use text.Mathlib.TextPositions.{eq_refl}
use fast_api_boilerplate.Base.{
  ℕ, suc, ◌+◌, ◌-◌, ◌≡◌, refl, some, List, [], ◌∷◌, ◌++◌, arith, true, false, All, get_elem?,
  length, length-append, str_eq, leb, ap, ◌∙◌,
}
use fast_api_boilerplate.Workflow.{WorkflowStep, WorkflowDefinition}
use fast_api_boilerplate.Workflow.Definition.{
  find_step, get_step, index_from, get_step_index, get_next_step, next_at,
}

last_index : (n m : ℕ) → m ≡ n + 1 → leb (m - 1) n ≡ true
last_index n m h = ground arith

inner_index : (n k m : ℕ) → m ≡ n + suc (suc k) → leb (m - 1) n ≡ false
inner_index n k m h = ground arith

module _ {V P W : Type 0} where
  -- No step of the list has the name.
  abbrev pub Apart : List (WorkflowStep V P W) → WorkflowStep V P W → Type 0
  Apart steps step = All (λ other. str_eq other.step_name step.step_name ≡ false) steps

  abbrev pub Distinct : List (WorkflowStep V P W) → Type 0
  Distinct [] = Unit
  Distinct (step ∷ steps) =
      All (λ other. str_eq step.step_name other.step_name ≡ false) steps × Distinct steps

  find_middle :
      (before : List (WorkflowStep V P W)) (step : WorkflowStep V P W)
      (after : List (WorkflowStep V P W))
      → Apart before step
      → find_step (before ++ (step ∷ after)) step.step_name ≡ some step
  unfolding find_step
  find_middle [] step after h = rw (eq_refl step.step_name) refl
  find_middle (x ∷ before) step after h = rw (h.0) (find_middle before step after h.1)

  index_middle :
      (k : ℕ) (before : List (WorkflowStep V P W)) (step : WorkflowStep V P W)
      (after : List (WorkflowStep V P W))
      → Apart before step
      → index_from k (before ++ (step ∷ after)) step.step_name ≡ some (k + length before)
  unfolding index_from
  index_middle k [] step after h = rw (eq_refl step.step_name) (ap some (omega arith))
  index_middle k (x ∷ before) step after h =
      rw (h.0) (index_middle (suc k) before step after h.1 ∙ ap some (omega arith))

  index_from_start :
      (before : List (WorkflowStep V P W)) (step : WorkflowStep V P W)
      (after : List (WorkflowStep V P W))
      → Apart before step
      → index_from 0 (before ++ (step ∷ after)) step.step_name ≡ some (length before)
  index_from_start before step after apart =
      index_middle 0 before step after apart ∙ ap some (omega arith)

  elem_after :
      (before : List (WorkflowStep V P W)) (step : WorkflowStep V P W)
      (after : List (WorkflowStep V P W))
      → get_elem? (before ++ (step ∷ after)) (suc (length before)) ≡ get_elem? after 0
  elem_after [] step after = refl
  elem_after (x ∷ before) step after = elem_after before step after

  next_middle :
      (before : List (WorkflowStep V P W)) (step : WorkflowStep V P W)
      (after : List (WorkflowStep V P W))
      → next_at (before ++ (step ∷ after)) (some (length before)) ≡ get_elem? after 0
  unfolding next_at
  next_middle before step [] =
      rw
        (last_index (length before) (length (before ++ (step ∷ [])))
          (length-append before (step ∷ [])))
        refl
  next_middle before step (next ∷ after) =
      rw
        (inner_index (length before) (length after) (length (before ++ (step ∷ next ∷ after)))
          (length-append before (step ∷ next ∷ after)))
        (elem_after before step (next ∷ after))

  pub get_step-middle :
      (definition : WorkflowDefinition V P W) (before : List (WorkflowStep V P W))
      (step : WorkflowStep V P W) (after : List (WorkflowStep V P W))
      → definition.steps ≡ before ++ (step ∷ after)
      → Apart before step
      → get_step definition step.step_name ≡ some step
  unfolding get_step
  get_step-middle definition before step after h apart = rw h (find_middle before step after apart)

  pub get_next_step-middle :
      (definition : WorkflowDefinition V P W) (before : List (WorkflowStep V P W))
      (step : WorkflowStep V P W) (after : List (WorkflowStep V P W))
      → definition.steps ≡ before ++ (step ∷ after)
      → Apart before step
      → get_next_step definition step.step_name ≡ get_elem? after 0
  unfolding get_next_step get_step_index
  get_next_step-middle definition before step after h apart =
      rw (h, index_from_start before step after apart) (next_middle before step after)

  Apart-append :
      (before : List (WorkflowStep V P W)) (step other : WorkflowStep V P W)
      → Apart before other
      → str_eq step.step_name other.step_name ≡ false
      → Apart (before ++ (step ∷ [])) other
  Apart-append [] step other h d = (d, tt)
  Apart-append (x ∷ before) step other h d = (h.0, Apart-append before step other h.1 d)

  pub Apart-extend :
      (before : List (WorkflowStep V P W)) (step : WorkflowStep V P W)
      (steps : List (WorkflowStep V P W))
      → All (Apart before) steps
      → All (λ other. str_eq step.step_name other.step_name ≡ false) steps
      → All (Apart (before ++ (step ∷ []))) steps
  Apart-extend before step [] h d = tt
  Apart-extend before step (x ∷ steps) h d =
      (Apart-append before step x h.0 d.0, Apart-extend before step steps h.1 d.1)

  pub Apart-nil : (steps : List (WorkflowStep V P W)) → All (Apart []) steps
  Apart-nil [] = tt
  Apart-nil (step ∷ steps) = (tt, Apart-nil steps)
