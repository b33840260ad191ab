-- ===== src/Workflow/Advance/Exhaustion.antt =====
-- A step that always fails: how often it is tried, and what happens then.
use mathlib.Core.List.{map-append}
use mathlib.Core.Path.{ap₂}
use fast_api_boilerplate.Workflow.Definition.Order.{for_compensation-AreCompensating}
use fast_api_boilerplate.Base.{
  ℕ, ◌+◌, ◌<◌, ◌≤◌, ◌≡◌, some, String, List, [], ◌∷◌, ◌++◌, arith, length, ◌⊎◌, inl, inr, ◌∙◌, ap,
  subst, map,
}
use fast_api_boilerplate.Workflow.{
  CompensationEntry, WorkflowStep, WorkflowDefinition, WorkflowExecution, WorkflowExecutionStatus,
}
use fast_api_boilerplate.Workflow.Definition.{get_step, get_steps_for_compensation}
use fast_api_boilerplate.Workflow.State.{state_of, attempts_of, max_attempts_of}
use fast_api_boilerplate.Workflow.Runner.{Result, ok, err}
use fast_api_boilerplate.Workflow.Runner.Failure.{AlwaysFails}
use fast_api_boilerplate.Workflow.Runner.Log.{logged, compensate_steps-logged}
use fast_api_boilerplate.Workflow.Advance.{advance, advance_step}
use fast_api_boilerplate.Workflow.Advance.Retries.{Tried, fail_again, fail_finally, advance_here}

lt_or_eq : (a m : ℕ) → a ≤ m → (a < m) ⊎ (a ≡ m)
lt_or_eq a m h = ground arith

logged-append :
    {l l' : List CompensationEntry}
    → l ≡ l'
    → (entries : List CompensationEntry) (names : List String) → logged entries ≡ names
    → logged (l ++ entries) ≡ logged l' ++ names
logged-append {l} {l'} same entries names h =
    map-append (λ c. c.step) l entries ∙ ap₂ (λ xs ys. logged xs ++ ys) same h

module _ {V P W : Type 0} where
  abbrev pub continue_with :
      (WorkflowExecution V P → W → Result (WorkflowExecution V P) × W)
      → Result (WorkflowExecution V P) × W
      → Result (WorkflowExecution V P) × W
  continue_with rest (ok e, w) = rest e w
  continue_with rest (err x, w) = (err x, w)

  -- An `advance` at each of the given times, until one raises.
  unfoldable pub advance_all :
      WorkflowDefinition V P W
      → List ℕ
      → WorkflowExecution V P
      → W
      → Result (WorkflowExecution V P) × W
  advance_all definition [] e w = (ok e, w)
  advance_all definition (now ∷ nows) e w =
      continue_with (advance_all definition nows) (advance definition now e w)

  pub advance_all-cons :
      (definition : WorkflowDefinition V P W) (now : ℕ) (nows : List ℕ) (e : WorkflowExecution V P)
      (step : WorkflowStep V P W) (w : W)
      → e.current_step ≡ some step.step_name
      → get_step definition step.step_name ≡ some step
      → let (e', w') = advance_step definition now e step w in
        advance_all definition (now ∷ nows) e w ≡ advance_all definition nows e' w'
  unfolding advance_all
  advance_all-cons definition now nows e step w current found =
      ap (continue_with (advance_all definition nows))
        (advance_here definition now e step w current found)

  -- Below the limit the step waits; at the limit the execution has failed, and the log names the
  -- compensating steps up to and including this one, the latest first.
  abbrev pub Ends :
      WorkflowDefinition V P W
      → WorkflowStep V P W
      → List CompensationEntry
      → ℕ
      → WorkflowExecution V P
      → Type 0
  Ends definition step log attempts end =
      ((attempts < max_attempts_of step.retry_policy)
        × (end.status ≡ WorkflowExecutionStatus.waiting)
        × (end.context.compensation_log ≡ log))
      ⊎ ((attempts ≡ max_attempts_of step.retry_policy)
          × (end.status ≡ WorkflowExecutionStatus.failed)
          × (logged end.context.compensation_log
              ≡ logged log
                ++ map (λ s. s.step_name) (get_steps_for_compensation definition step.step_name)))

  -- The result of advancing a failing step at the given times.
  pub record Exhausts (definition : WorkflowDefinition V P W) (step : WorkflowStep V P W)
      (nows : List ℕ) (e : WorkflowExecution V P) (w : W) (attempts : ℕ) : Type 0 where
    pub end : WorkflowExecution V P
    pub world : W
    pub reached : advance_all definition nows e w ≡ (ok end, world)
    pub counted : attempts_of (state_of step.step_name end.context) ≡ attempts
    pub ends : Ends definition step e.context.compensation_log attempts end

  Exhausts-again :
      (definition : WorkflowDefinition V P W) (now : ℕ) (nows : List ℕ) (e : WorkflowExecution V P)
      (step : WorkflowStep V P W) (a n : ℕ) (w : W)
      → AlwaysFails step
      → get_step definition step.step_name ≡ some step
      → Tried step a e
      → a + 1 < max_attempts_of step.retry_policy
      → Exhausts definition step nows
          (advance_step definition now e step w).0
          (advance_step definition now e step w).1
          n
      → Exhausts definition step (now ∷ nows) e w n
  Exhausts-again definition now nows e step a n w h found t lt rest = record {
    end = rest.end;
    world = rest.world;
    reached = advance_all-cons definition now nows e step w t.at_step found ∙ rest.reached;
    counted = rest.counted;
    ends =
        subst (λ log. Ends definition step log n rest.end)
          (fail_again definition now e step a w h t lt).2 rest.ends;
  }

  Exhausts-waiting :
      (definition : WorkflowDefinition V P W) (now : ℕ) (e : WorkflowExecution V P)
      (step : WorkflowStep V P W) (a : ℕ) (w : W)
      → AlwaysFails step
      → get_step definition step.step_name ≡ some step
      → Tried step a e
      → a + 1 < max_attempts_of step.retry_policy
      → Exhausts definition step (now ∷ []) e w (a + 1)
  unfolding advance_all
  Exhausts-waiting definition now e step a w h found t lt =
      let (tried, waiting, log) = fail_again definition now e step a w h t lt in
      record {
        end = (advance_step definition now e step w).0;
        world = (advance_step definition now e step w).1;
        reached = advance_all-cons definition now [] e step w t.at_step found;
        counted = tried.counted;
        ends = inl (lt, waiting, log);
      }

  Exhausts-failed :
      (definition : WorkflowDefinition V P W) (now : ℕ) (e : WorkflowExecution V P)
      (step : WorkflowStep V P W) (a : ℕ) (w : W)
      → AlwaysFails step
      → get_step definition step.step_name ≡ some step
      → Tried step a e
      → a + 1 ≡ max_attempts_of step.retry_policy
      → Exhausts definition step (now ∷ []) e w (a + 1)
  unfolding advance_all
  Exhausts-failed definition now e step a w h found t last =
      let (over, counted, log) = fail_finally definition now e step a w h found t last in
      record {
        end = (advance_step definition now e step w).0;
        world = (advance_step definition now e step w).1;
        reached = advance_all-cons definition now [] e step w t.at_step found;
        counted = counted;
        ends = inr (
          last,
          over.is_failed,
          ap logged over.log
              ∙ logged-append log _ _ (
                  compensate_steps-logged now _ _ _
                    (for_compensation-AreCompensating definition step.step_name)),
        );
      }

  -- An execution stands at a step that is found under its name, always fails, and has been tried
  -- `a` times. Where `max_attempts` leaves room for one more try per given time, each `advance`
  -- tries it once and is counted. With attempts left then, the execution is `waiting` and nothing
  -- was compensated. Where the last one was used, it is `failed`, and the log has grown by the
  -- compensating steps up to and including this one, in reverse order, whether or not they had run.
  pub advance_all-Exhausts :
      (definition : WorkflowDefinition V P W) (now : ℕ) (nows : List ℕ) (e : WorkflowExecution V P)
      (step : WorkflowStep V P W) (a : ℕ) (w : W)
      → AlwaysFails step
      → get_step definition step.step_name ≡ some step
      → Tried step a e
      → a + length (now ∷ nows) ≤ max_attempts_of step.retry_policy
      → Exhausts definition step (now ∷ nows) e w (a + length (now ∷ nows))
  advance_all-Exhausts definition now [] e step a w h found t le =
      elim (lt_or_eq (a + 1) (max_attempts_of step.retry_policy) le) [
        | inl lt ↦ Exhausts-waiting definition now e step a w h found t lt
        | inr last ↦ Exhausts-failed definition now e step a w h found t last
      ]
  advance_all-Exhausts definition now (later ∷ nows) e step a w h found t le =
      let lt : a + 1 < max_attempts_of step.retry_policy = omega (arith, le) in
      let (tried, waiting, log) = fail_again definition now e step a w h t lt in
      Exhausts-again definition now (later ∷ nows) e step a _ w h found t lt (
        subst (Exhausts definition step (later ∷ nows) _ _) (omega arith) (
          advance_all-Exhausts definition later nows _ step (a + 1) _ h found tried
            (omega (arith, le))))
