-- ===== src/Workflow/Advance/Completion.antt =====
-- A workflow whose steps all succeed runs them in order and ends as `succeeded`.
use fast_api_boilerplate.Base.{
  ℕ, ◌≡◌, refl, Option, none, some, String, List, [], ◌∷◌, ◌++◌, arith, All, length, ◌∙◌, sym, ap,
  subst, map,
}
use mathlib.Core.List.{append_assoc}
use fast_api_boilerplate.Workflow.{
  StepStatus, WorkflowStep, WorkflowDefinition, WorkflowExecution, WorkflowExecutionStatus,
  StepResult,
}
use fast_api_boilerplate.Workflow.Definition.{get_step, get_next_step}
use fast_api_boilerplate.Workflow.State.{override_of, complete, update_step_state}
use fast_api_boilerplate.Workflow.Runner.{ok, execute_step}
use fast_api_boilerplate.Workflow.Runner.Success.{AlwaysSucceeds, execute_step-success}
use fast_api_boilerplate.Workflow.Definition.Sequence.{
  Apart, Distinct, get_step-middle, get_next_step-middle, Apart-extend, Apart-nil,
}
use fast_api_boilerplate.Workflow.Runner.{start}
use fast_api_boilerplate.Workflow.Runner.Fields.{start-Started}
use fast_api_boilerplate.Workflow.Advance.{advance_step, settle, move_to, choose_next}
use fast_api_boilerplate.Workflow.Advance.Exhaustion.{advance_all, advance_all-cons}

module _ {V P W : Type 0} where
  -- Each step is found under its name, succeeds, and is followed by the next one of the list.
  abbrev pub Runs : WorkflowDefinition V P W → List (WorkflowStep V P W) → Type 0
  Runs definition [] = Unit
  Runs definition (step ∷ []) =
      AlwaysSucceeds step
      × (get_step definition step.step_name ≡ some step)
      × (get_next_step definition step.step_name ≡ none)
  Runs definition (step ∷ next ∷ steps) =
      (AlwaysSucceeds step
        × (get_step definition step.step_name ≡ some step)
        × (get_next_step definition step.step_name ≡ some next))
      × Runs definition (next ∷ steps)

  settle_succeeded :
      (definition : WorkflowDefinition V P W) (now : ℕ) (step : WorkflowStep V P W)
      (status : StepStatus) (result : StepResult V) (e : WorkflowExecution V P) (w : W)
      (next : Option (WorkflowStep V P W))
      → status ≡ StepStatus.succeeded
      → override_of result.next_step_override ≡ none
      → get_next_step definition step.step_name ≡ next
      → settle definition now step status result e w
        ≡ (move_to now next (complete step.step_name result.output e), w)
  unfolding settle choose_next
  settle_succeeded definition now step status result e w next s o n = rw (s, o, n) refl

  advance_step-success :
      (definition : WorkflowDefinition V P W) (now : ℕ) (e : WorkflowExecution V P)
      (step : WorkflowStep V P W) (w : W) (next : Option (WorkflowStep V P W))
      → AlwaysSucceeds step
      → get_next_step definition step.step_name ≡ next
      → let (result, e₁, w₁) = execute_step definition now e step w in
        advance_step definition now e step w
        ≡ (move_to now next (complete step.step_name result.output e₁), w₁)
  unfolding advance_step
  advance_step-success definition now e step w next h n =
      let (result, e₁, w₁) = execute_step definition now e step w in
      let s = execute_step-success definition now e step w h in
      settle_succeeded definition now step result.status result e₁ w₁ next s.says_succeeded
        s.goes_on n

  -- How the execution stands after an advance at a step that succeeded.
  moved :
      (definition : WorkflowDefinition V P W) (now : ℕ) (e : WorkflowExecution V P)
      (step next : WorkflowStep V P W) (w : W)
      → AlwaysSucceeds step
      → get_next_step definition step.step_name ≡ some next
      → let e' = (advance_step definition now e step w).0 in
        (e'.current_step ≡ some next.step_name)
        × (e'.context.completed_steps ≡ e.context.completed_steps ++ (step.step_name ∷ []))
  unfolding move_to complete update_step_state
  moved definition now e step next w h n =
      rw (advance_step-success definition now e step w (some next) h n) (
        refl,
        ap (λ xs. xs ++ (step.step_name ∷ []))
            (execute_step-success definition now e step w h).same_completed,
      )

  pub ended :
      (definition : WorkflowDefinition V P W) (now : ℕ) (e : WorkflowExecution V P)
      (step : WorkflowStep V P W) (w : W)
      → AlwaysSucceeds step
      → get_next_step definition step.step_name ≡ none
      → let e' = (advance_step definition now e step w).0 in
        (e'.status ≡ WorkflowExecutionStatus.succeeded)
        × (e'.context.completed_steps ≡ e.context.completed_steps ++ (step.step_name ∷ []))
        × (e'.completed_at ≡ some now)
  unfolding move_to complete update_step_state
  ended definition now e step w h n = rw (advance_step-success definition now e step w none h n) (
    refl,
    ap (λ xs. xs ++ (step.step_name ∷ []))
        (execute_step-success definition now e step w h).same_completed,
    refl,
  )

  -- The end of a run of steps that all succeed.
  pub record Completes (definition : WorkflowDefinition V P W) (steps : List (WorkflowStep V P W))
      (nows : List ℕ) (e : WorkflowExecution V P) (w : W) : Type 0 where
    pub end : WorkflowExecution V P
    pub world : W
    pub reached : advance_all definition nows e w ≡ (ok end, world)
    pub has_succeeded : end.status ≡ WorkflowExecutionStatus.succeeded
    pub completed :
        end.context.completed_steps
        ≡ e.context.completed_steps ++ map (λ step. step.step_name) steps

  Completes-last :
      (definition : WorkflowDefinition V P W) (step : WorkflowStep V P W) (now : ℕ)
      (e : WorkflowExecution V P) (w : W)
      → Runs definition (step ∷ [])
      → e.current_step ≡ some step.step_name
      → Completes definition (step ∷ []) (now ∷ []) e w
  unfolding advance_all
  Completes-last definition step now e w (h, found, next) current =
      let (good, completed, at) = ended definition now e step w h next in
      record {
        end = (advance_step definition now e step w).0;
        world = (advance_step definition now e step w).1;
        reached = advance_all-cons definition now [] e step w current found;
        has_succeeded = good;
        completed = completed;
      }

  run_to_end :
      (definition : WorkflowDefinition V P W) (first : WorkflowStep V P W)
      (rest : List (WorkflowStep V P W)) (nows : List ℕ) (e : WorkflowExecution V P) (w : W)
      → Runs definition (first ∷ rest)
      → e.current_step ≡ some first.step_name
      → length nows ≡ length (first ∷ rest)
      → Completes definition (first ∷ rest) nows e w
  run_to_end definition first rest [] e w h current l = absurd (omega (arith, l))
  run_to_end definition first [] (now ∷ []) e w h current l =
      Completes-last definition first now e w h current
  run_to_end definition first [] (now ∷ later ∷ nows) e w h current l = absurd (omega (arith, l))
  run_to_end definition first (next ∷ rest) (now ∷ nows) e w ((h, found, follows), runs) current l =
      let (at, completed) = moved definition now e first next w h follows in
      let r = run_to_end definition next rest nows _ _ runs at (omega (arith, l)) in
      record {
        end = r.end;
        world = r.world;
        reached = advance_all-cons definition now nows e first w current found ∙ r.reached;
        has_succeeded = r.has_succeeded;
        completed =
            r.completed
            ∙ ap (λ xs. xs ++ map (λ step. step.step_name) (next ∷ rest)) completed
            ∙ append_assoc e.context.completed_steps (first.step_name ∷ []) _;
      }

  Runs-from :
      (definition : WorkflowDefinition V P W) (before : List (WorkflowStep V P W))
      (step : WorkflowStep V P W) (after : List (WorkflowStep V P W))
      → definition.steps ≡ before ++ (step ∷ after)
      → All (Apart before) (step ∷ after)
      → Distinct (step ∷ after)
      → All AlwaysSucceeds (step ∷ after)
      → Runs definition (step ∷ after)
  Runs-from definition before step [] h apart distinct good = (
    good.0,
    get_step-middle definition before step [] h apart.0,
    get_next_step-middle definition before step [] h apart.0,
  )
  Runs-from definition before step (next ∷ after) h apart distinct good = (
    (
      good.0,
      get_step-middle definition before step (next ∷ after) h apart.0,
      get_next_step-middle definition before step (next ∷ after) h apart.0,
    ),
    Runs-from definition (before ++ (step ∷ [])) next after
        (h ∙ sym (append_assoc before (step ∷ []) (next ∷ after)))
        (Apart-extend before step (next ∷ after) apart.1 distinct.0) distinct.1 good.1,
  )

  -- What a workflow has done when every step succeeded.
  pub record CompletesAll (definition : WorkflowDefinition V P W) (nows : List ℕ)
      (e : WorkflowExecution V P) (w : W) : Type 0 where
    pub end : WorkflowExecution V P
    pub world : W
    pub reached : advance_all definition nows e w ≡ (ok end, world)
    pub has_succeeded : end.status ≡ WorkflowExecutionStatus.succeeded
    pub completed : end.context.completed_steps ≡ map (λ step. step.step_name) definition.steps

  -- Where the step names are distinct and every run of a step returns a success without naming
  -- another step to go on with, a started execution that is advanced once per step ends as
  -- `succeeded`, and its completed steps are all steps of the definition, in order.
  pub start-CompletesAll :
      (definition : WorkflowDefinition V P W) (id now : ℕ) (payload : P) (cid : Option String)
      (e : WorkflowExecution V P) (nows : List ℕ) (w : W)
      → start definition id now payload cid ≡ ok e
      → Distinct definition.steps
      → All AlwaysSucceeds definition.steps
      → length nows ≡ length definition.steps
      → CompletesAll definition nows e w
  start-CompletesAll definition id now payload cid e nows w started distinct good l =
      let s = start-Started definition id now payload cid e started in
      let runs =
        Runs-from definition [] s.first s.rest s.steps (Apart-nil (s.first ∷ s.rest))
          (subst Distinct s.steps distinct) (subst (All AlwaysSucceeds) s.steps good) in
      let r =
        run_to_end definition s.first s.rest nows e w runs s.at_first (l ∙ ap length s.steps) in
      record {
        end = r.end;
        world = r.world;
        reached = r.reached;
        has_succeeded = r.has_succeeded;
        completed =
            r.completed
            ∙ ap (λ c. c.completed_steps ++ map (λ step. step.step_name) (s.first ∷ s.rest)) s.fresh
            ∙ sym (ap (map (λ step. step.step_name)) s.steps);
      }
