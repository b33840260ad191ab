-- ===== src/Tests/Saga.antt =====
-- Runs of `with_compensation`.
use fast_api_boilerplate.Base.{
  ℕ, ◌+◌, ◌-◌, ◌≡◌, refl, ◌↔◌, true, false, none, some, arith, ap, sym, [], ◌∷◌,
}
use fast_api_boilerplate.Integration.Errors.{IntegrationErrorClass, IntegrationError}
use fast_api_boilerplate.Integration.Compensation.{
  CompensatingActionResult, CompensatingAction, CompensationOutcome, StepRun, done, failed, own,
  returned, compensate_one, with_compensation,
}
use fast_api_boilerplate.Integration.Compensation.Saga.{saga, with_compensation-saga}
use fast_api_boilerplate.Integration.Compensation.Rollback.{
  Undoes, FailsCleanly, Successes, with_compensation-rollback,
}

-- The world is a balance.
abbrev credit : ℕ → StepRun ℕ × ℕ
credit w = (done, w + 5)

abbrev lost : IntegrationError ℕ
lost = record {
  cls = IntegrationErrorClass.connection;
  provider_name = "bank";
  operation = "transfer";
  cause = none;
  retry_after_seconds = none;
}

abbrev send : ℕ → StepRun ℕ × ℕ
send w = (failed lost, w)

abbrev undone : CompensatingActionResult
undone = record { success = true; action_description = "debit"; detail = own }

abbrev debit : CompensatingAction ℕ
debit = record {
  description = "debit";
  can_compensate = λ w. (returned true, w);
  execute = λ w. (returned undone, w - 5);
}

abbrev outcome : CompensationOutcome ℕ
outcome = record {
  completed_steps = 1;
  total_steps = 2;
  success = false;
  failure_error = some lost;
  compensation_results = undone ∷ [];
}

with_compensation-saga_example :
    let (failure, results, w') =
      saga "bank" "transfer" (credit ∷ send ∷ []) (debit ∷ debit ∷ []) 7 in
    (r : CompensationOutcome ℕ) × (with_compensation "bank" "transfer"
        (credit ∷ send ∷ [])
        (debit ∷ debit ∷ [])
        7
      ≡ (some r, w'))
    × (r.failure_error ≡ failure)
    × (r.compensation_results ≡ results)
    × ((r.success ≡ true) ↔ (failure ≡ none))
with_compensation-saga_example =
    with_compensation-saga "bank" "transfer" (credit ∷ send ∷ []) (debit ∷ debit ∷ []) 7 refl

ran :
    with_compensation "bank" "transfer" (credit ∷ send ∷ []) (debit ∷ debit ∷ []) 7
    ≡ (some outcome, 7)
unfolding with_compensation compensate_one
ran = refl

debit-Undoes :
    (step : ℕ → StepRun ℕ × ℕ)
    → ((w : ℕ) → (step w).0 ≡ done → (step w).1 ≡ w + 5)
    → Undoes step debit
unfolding compensate_one
debit-Undoes step adds w w' h = (omega (arith, adds w (ap (λ x. x.0) h), ap (λ x. x.1) h), refl)

never_done : {w w' : ℕ} → ◌≡◌ {A = StepRun ℕ × ℕ} (failed lost, w) (done, w') → ⊥
never_done h = cc

credit-FailsCleanly : FailsCleanly credit
credit-FailsCleanly w w' e h other = absurd (other (sym (ap (λ x. x.0) h)))

send-FailsCleanly : FailsCleanly send
send-FailsCleanly w w' e h other = sym (ap (λ x. x.1) h)

send-Undoes : Undoes send debit
send-Undoes w w' h = absurd (never_done h)

with_compensation-rollback_example : (◌≡◌ {A = ℕ} 7 7) × Successes (undone ∷ []) × (false ≡ false)
with_compensation-rollback_example =
    with_compensation-rollback "bank" "transfer" (credit ∷ send ∷ []) (debit ∷ debit ∷ []) 7 7
      outcome lost
      (debit-Undoes credit (λ w d. refl), credit-FailsCleanly, (send-Undoes, send-FailsCleanly, tt))
      ran refl
