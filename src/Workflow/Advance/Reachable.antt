-- ===== src/Workflow/Advance/Reachable.antt =====
-- Executions that `start` and any row of `resume` calls lead to.
use fast_api_boilerplate.Base.{ℕ, ◌≡◌, refl, Option, String, List, [], ◌∷◌, subst, sym}
use fast_api_boilerplate.Workflow.{WorkflowDefinition, WorkflowExecution}
use fast_api_boilerplate.Workflow.Definition.Lookup.{first-known}
use fast_api_boilerplate.Workflow.State.{is_resumable}
use fast_api_boilerplate.Workflow.Runner.{Result, ok, err, start}
use fast_api_boilerplate.Workflow.Runner.Fields.{start-Started}
use fast_api_boilerplate.Workflow.Advance.{resume}
use fast_api_boilerplate.Workflow.Advance.Invariant.{IsConsistent, Known, resume-IsConsistent}

-- A call that raises leaves the execution as it was.
after_resume :
    {V P : Type 0} → WorkflowExecution V P → Result (WorkflowExecution V P) → WorkflowExecution V P
after_resume execution (ok execution') = execution'
after_resume execution (err e) = execution

module _ {V P W : Type 0} where
  -- A `resume` at each of the given times, one after the other.
  unfoldable pub resume_all :
      WorkflowDefinition V P W → List ℕ → WorkflowExecution V P → W → WorkflowExecution V P × W
  unfolding after_resume
  resume_all definition [] execution w = (execution, w)
  resume_all definition (now ∷ nows) execution w =
      let (r, w') = resume definition now execution w in
      resume_all definition nows (after_resume execution r) w'

  after-IsConsistent :
      (definition : WorkflowDefinition V P W) (now : ℕ) (execution : WorkflowExecution V P) (w : W)
      (ran : Result (WorkflowExecution V P) × W)
      → IsConsistent definition execution
      → resume definition now execution w ≡ ran
      → IsConsistent definition (after_resume execution ran.0)
  unfolding after_resume
  after-IsConsistent definition now execution w (ok e', w') v h =
      resume-IsConsistent definition now execution e' w w' v h
  after-IsConsistent definition now execution w (err e, w') v h = v

  all-IsConsistent :
      (definition : WorkflowDefinition V P W) (nows : List ℕ) (execution : WorkflowExecution V P)
      (w : W)
      → IsConsistent definition execution
      → IsConsistent definition (resume_all definition nows execution w).0
  unfolding resume_all
  all-IsConsistent definition [] execution w v = v
  all-IsConsistent definition (now ∷ nows) execution w v =
      all-IsConsistent definition nows _ _
        (after-IsConsistent definition now execution w (resume definition now execution w) v refl)

  -- An execution that was started and then resumed any number of times, with any steps at all,
  -- stands at a step of its definition, and has a completion time exactly when it is neither running
  -- nor waiting.
  pub resume_all-IsConsistent :
      (definition : WorkflowDefinition V P W) (id now : ℕ) (payload : P) (cid : Option String)
      (execution : WorkflowExecution V P) (nows : List ℕ) (w : W)
      → start definition id now payload cid ≡ ok execution
      → IsConsistent definition (resume_all definition nows execution w).0
  resume_all-IsConsistent definition id now payload cid execution nows w h =
      let s = start-Started definition id now payload cid execution h in
      all-IsConsistent definition nows execution w (record {
        known =
            subst (Known definition) (sym s.at_first)
              (rw (first-known definition s.first s.rest s.steps));
        open_iff = (λ p. rw s.runs (unfold is_resumable in refl), λ p. s.open_);
      })
