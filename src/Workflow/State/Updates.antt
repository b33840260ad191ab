-- ===== src/Workflow/State/Updates.antt =====
-- The state of a step after an update.
use fast_api_boilerplate.Base.{ℕ, ◌≡◌, ap, none, some, String}
use fast_api_boilerplate.Base.Dict.{lookup-insert_self}
use fast_api_boilerplate.Workflow.{WorkflowStepState, ExecutionContext}
use fast_api_boilerplate.Workflow.State.{
  no_state, state_of, update_step_state, update_state, attempts_of,
}

module _ {V : Type 0} where
  pub state_of-update_step_state :
      (name : String) (state : WorkflowStepState V) (context : ExecutionContext V)
      → state_of name (update_step_state name state context)
        ≡ update_state (state_of name context) state
  unfolding update_step_state state_of
  state_of-update_step_state name state context =
      ap {B = WorkflowStepState V} (λ o. elim o [ none ↦ no_state | some s ↦ s ])
        (lookup-insert_self name (update_state (state_of name context) state) context.step_states)

  -- An update that brings a number of attempts sets it, and one that does not keeps it.
  pub attempts-set :
      (name : String) (state : WorkflowStepState V) (context : ExecutionContext V) (n : ℕ)
      → state.attempt_count ≡ some n
      → attempts_of (state_of name (update_step_state name state context)) ≡ n
  attempts-set name state context n h =
      rw (state_of-update_step_state name state context) (unfold update_state in rw h)

  pub attempts-kept :
      (name : String) (state : WorkflowStepState V) (context : ExecutionContext V)
      → state.attempt_count ≡ none
      → attempts_of (state_of name (update_step_state name state context))
        ≡ attempts_of (state_of name context)
  attempts-kept name state context h =
      rw (state_of-update_step_state name state context) (unfold update_state in rw h)

  pub state_of-same :
      (name : String) (c c' : ExecutionContext V)
      → c.step_states ≡ c'.step_states
      → attempts_of (state_of name c) ≡ attempts_of (state_of name c')
  unfolding state_of
  state_of-same name c c' h = rw (h)
