-- ===== src/Workflow/Advance/Invariant.antt =====
-- What holds of every execution that `start` creates and `resume` drives.
use fast_api_boilerplate.Base.{
  ℕ, ◌≡◌, refl, ◌↔◌, inl, inr, true, Option, none, some, String, is_some, arith, Bool-cases, ltb,
  subst, sym, ◌∙◌,
}
use fast_api_boilerplate.Workflow.{
  StepStatus, StepResult, WorkflowStep, WorkflowDefinition, WorkflowExecution,
}
use fast_api_boilerplate.Workflow.Definition.{get_step}
use fast_api_boilerplate.Workflow.Definition.Lookup.{get_next_step-known, get_step-known}
use fast_api_boilerplate.Workflow.State.{
  is_resumable, still_waiting, state_of, override_of, attempts_of, max_attempts_of, complete,
}
use fast_api_boilerplate.Workflow.Runner.{ok, execute_step, handle_step_failure}
use fast_api_boilerplate.Workflow.Advance.{
  advance, advance_named, advance_found, advance_step, settle, move_to, choose_next, resume,
  resume_named, resume_found,
}
use fast_api_boilerplate.Workflow.Runner.Fields.{compensate-same, execute_step-same}

module _ {V P W : Type 0} where
  -- The part of an execution that the invariant speaks of.
  abbrev pub Known : WorkflowDefinition V P W → Option String → Type 0
  Known definition none = ⊥
  Known definition (some name) = is_some (get_step definition name) ≡ true

  pub record IsConsistent (definition : WorkflowDefinition V P W)
      (execution : WorkflowExecution V P) : Type 0 where
    pub known : Known definition execution.current_step
    pub open_iff : (execution.completed_at ≡ none) ↔ (is_resumable execution.status ≡ true)

  choose_next-known :
      (definition : WorkflowDefinition V P W) (current : String) (name : Option String)
      (step : WorkflowStep V P W)
      → choose_next definition current name ≡ some step
      → is_some (get_step definition step.step_name) ≡ true
  unfolding choose_next
  choose_next-known definition current none step h = get_next_step-known definition current step h
  choose_next-known definition current (some name) step h = get_step-known definition name step h

  move_to-IsConsistent :
      (definition : WorkflowDefinition V P W) (now : ℕ) (next : Option (WorkflowStep V P W))
      (execution : WorkflowExecution V P)
      → ((step : WorkflowStep V P W)
          → next ≡ some step
          → is_some (get_step definition step.step_name) ≡ true)
      → Known definition execution.current_step
      → execution.completed_at ≡ none
      → IsConsistent definition (move_to now next execution)
  unfolding move_to is_resumable
  move_to-IsConsistent definition now none execution h k c = record {
    known = k;
    open_iff = (λ p. cc, λ p. cc);
  }
  move_to-IsConsistent definition now (some step) execution h k c = record {
    known = h step refl;
    open_iff = (λ p. refl, λ p. c);
  }

  failure-IsConsistent :
      (definition : WorkflowDefinition V P W) (now : ℕ) (execution : WorkflowExecution V P)
      (step : WorkflowStep V P W) (result : StepResult V) (w : W)
      → Known definition execution.current_step
      → execution.completed_at ≡ none
      → IsConsistent definition (handle_step_failure definition now execution step result w).0
  unfolding handle_step_failure is_resumable
  failure-IsConsistent definition now execution step result w k c =
      elim (Bool-cases (
        ltb (attempts_of (state_of step.step_name execution.context))
          (max_attempts_of step.retry_policy))) [
            | inl again ↦ rw again (record { known = k; open_iff = (λ p. refl, λ p. c) })
            | inr over ↦ rw over (record {
              known = rw (compensate-same definition now execution step.step_name w) k;
              open_iff = (λ p. cc, λ p. cc);
            })
          ]

  settle-IsConsistent :
      (definition : WorkflowDefinition V P W) (now : ℕ) (step : WorkflowStep V P W)
      (status : StepStatus) (result : StepResult V) (execution : WorkflowExecution V P) (w : W)
      → Known definition execution.current_step
      → execution.completed_at ≡ none
      → IsConsistent definition (settle definition now step status result execution w).0
  unfolding settle is_resumable
  settle-IsConsistent definition now step StepStatus.succeeded result execution w k c =
      move_to-IsConsistent definition now _ (complete step.step_name result.output execution)
        (choose_next-known definition step.step_name (override_of result.next_step_override)) k c
  settle-IsConsistent definition now step StepStatus.waiting result execution w k c = record {
    known = k;
    open_iff = (λ p. refl, λ p. c);
  }
  settle-IsConsistent definition now step StepStatus.skipped result execution w k c =
      move_to-IsConsistent definition now _ execution
        (choose_next-known definition step.step_name (override_of result.next_step_override)) k c
  settle-IsConsistent definition now step StepStatus.failed result execution w k c =
      failure-IsConsistent definition now execution step result w k c

  step-IsConsistent :
      (definition : WorkflowDefinition V P W) (now : ℕ) (execution : WorkflowExecution V P)
      (step : WorkflowStep V P W) (w : W)
      → Known definition execution.current_step
      → execution.completed_at ≡ none
      → IsConsistent definition (advance_step definition now execution step w).0
  unfolding advance_step
  step-IsConsistent definition now execution step w k c =
      let ran = execute_step definition now execution step w in
      let same = execute_step-same definition now execution step w in
      settle-IsConsistent definition now step _ ran.0 ran.1 ran.2
        (subst (Known definition) (sym same.same_current) k) (same.same_completed ∙ c)

  found-IsConsistent :
      (definition : WorkflowDefinition V P W) (now : ℕ) (execution e' : WorkflowExecution V P)
      (step : Option (WorkflowStep V P W)) (w w' : W)
      → Known definition execution.current_step
      → execution.completed_at ≡ none
      → advance_found definition now execution step w ≡ (ok e', w')
      → IsConsistent definition e'
  unfolding advance_found
  found-IsConsistent definition now execution e' none w w' k c h = cc
  found-IsConsistent definition now execution e' (some step) w w' k c h =
      let same : (advance_step definition now execution step w).0 ≡ e' = cc in
      subst (IsConsistent definition) same (step-IsConsistent definition now execution step w k c)

  named-IsConsistent :
      (definition : WorkflowDefinition V P W) (now : ℕ) (execution e' : WorkflowExecution V P)
      (name : Option String) (w w' : W)
      → Known definition execution.current_step
      → execution.completed_at ≡ none
      → advance_named definition now execution name w ≡ (ok e', w')
      → IsConsistent definition e'
  unfolding advance_named
  named-IsConsistent definition now execution e' none w w' k c h = cc
  named-IsConsistent definition now execution e' (some name) w w' k c h =
      found-IsConsistent definition now execution e' (get_step definition name) w w' k c h

  advance-IsConsistent :
      (definition : WorkflowDefinition V P W) (now : ℕ) (execution e' : WorkflowExecution V P)
      (w w' : W)
      → Known definition execution.current_step
      → execution.completed_at ≡ none
      → advance definition now execution w ≡ (ok e', w')
      → IsConsistent definition e'
  unfolding advance
  advance-IsConsistent definition now execution e' w w' k c h =
      named-IsConsistent definition now execution e' execution.current_step w w' k c h

  resume_found-IsConsistent :
      (definition : WorkflowDefinition V P W) (now : ℕ) (execution e' : WorkflowExecution V P)
      (name : String) (step : Option (WorkflowStep V P W)) (w w' : W)
      → IsConsistent definition execution
      → execution.completed_at ≡ none
      → resume_found definition now execution name step w ≡ (ok e', w')
      → IsConsistent definition e'
  unfolding resume_found
  resume_found-IsConsistent definition now execution e' name none w w' v c h = cc
  resume_found-IsConsistent definition now execution e' name (some step) w w' v c h =
      elim (Bool-cases
        (still_waiting now execution.status (state_of name execution.context).wait_until)) [
          | inl early ↦ subst (IsConsistent definition) (ground arith) v
          | inr late ↦
              advance-IsConsistent definition now execution e' w w' v.known c (ground arith)
        ]

  resume_named-IsConsistent :
      (definition : WorkflowDefinition V P W) (now : ℕ) (execution e' : WorkflowExecution V P)
      (name : Option String) (w w' : W)
      → IsConsistent definition execution
      → execution.completed_at ≡ none
      → resume_named definition now execution name w ≡ (ok e', w')
      → IsConsistent definition e'
  unfolding resume_named
  resume_named-IsConsistent definition now execution e' none w w' v c h = cc
  resume_named-IsConsistent definition now execution e' (some name) w w' v c h =
      resume_found-IsConsistent definition now execution e' name (get_step definition name) w w' v c
        h

  -- `resume` keeps the invariant: the current step is one of the definition, and the execution has a
  -- completion time exactly when it is neither running nor waiting.
  pub resume-IsConsistent :
      (definition : WorkflowDefinition V P W) (now : ℕ) (execution e' : WorkflowExecution V P)
      (w w' : W)
      → IsConsistent definition execution
      → resume definition now execution w ≡ (ok e', w')
      → IsConsistent definition e'
  unfolding resume
  resume-IsConsistent definition now execution e' w w' v h =
      elim (Bool-cases (is_resumable execution.status)) [
        | inl live ↦
            resume_named-IsConsistent definition now execution e' execution.current_step w w' v
              (v.open_iff.1 live) (ground arith)
        | inr dead ↦ ground arith
      ]
