-- ===== src/Integration/PartialFailure/Counts.antt =====
-- Conservation of the items, and the bound that the abort rule keeps on the failures.
use fast_api_boilerplate.Base.{
  ℕ, suc, ◌+◌, ◌*◌, ◌≤◌, ◌<◌, ◌≡◌, ◌≢◌, refl, true, false, none, some, List, [], ◌∷◌, length,
  length-append, arith, Bool-cases, inl, inr, subst,
}
use fast_api_boilerplate.Integration.Errors.{IntegrationError}
use fast_api_boilerplate.Integration.PartialFailure.{
  PartialFailurePolicy, PartialFailureResult, ItemRun, returned, failed, crashed, Progress, LoopEnd,
  finished, propagated, after_item, loop, conclude, execute_with_partial_failure, add_success,
  add_failure, must_abort, finish, aborted,
}

first_aborts :
    {F I : Type 0} (T : Type 0) (policy : PartialFailurePolicy) (item : I) (e : IntegrationError F)
    → policy.ratio_num < policy.ratio_den
    → must_abort F I T policy 0 e (record { succeeded = []; failures = (item, e) ∷ [] }) ≡ true
unfolding must_abort
first_aborts T policy item e h = ground arith

module _ {F I T : Type 0} where
  not_exceeded :
      (policy : PartialFailurePolicy) (idx : ℕ) (e : IntegrationError F) (p : Progress F I T)
      → must_abort F I T policy idx e p ≡ false
      → length p.failures * policy.ratio_den ≤ policy.ratio_num * (idx + 1)
  unfolding must_abort
  not_exceeded policy idx e p h = ground arith

  module _ {W : Type 0} where
    ends_item :
        (policy : PartialFailurePolicy) (idx : ℕ) (item : I) (n : ℕ) (p : Progress F I T)
        (rest : Progress F I T → W → LoopEnd F I T × W) (ran : ItemRun F I T × W)
        (p' : Progress F I T) (w' : W)
        → ((p₁ : Progress F I T) (w₁ : W)
            → length p₁.succeeded + length p₁.failures ≡ suc idx
            → length p₁.failures * policy.ratio_den ≤ policy.ratio_num * suc idx
            → rest p₁ w₁ ≡ (finished p' none, w')
            → (length p'.succeeded + length p'.failures ≡ suc idx + n)
              × (length p'.failures * policy.ratio_den ≤ policy.ratio_num * (suc idx + n)))
        → length p.succeeded + length p.failures ≡ idx
        → length p.failures * policy.ratio_den ≤ policy.ratio_num * idx
        → after_item F I T policy idx item p rest ran ≡ (finished p' none, w')
        → (length p'.succeeded + length p'.failures ≡ suc idx + n)
          × (length p'.failures * policy.ratio_den ≤ policy.ratio_num * (suc idx + n))
    unfolding after_item add_success add_failure
    ends_item policy idx item n p rest (returned value, w) p' w' ih c b h =
        ih (add_success F I T value p) w (omega (arith, length-append p.succeeded (value ∷ [])))
          (omega arith) h
    ends_item policy idx item n p rest (failed e, w) p' w' ih c b h =
        let p₁ = add_failure F I T item e p in
        elim (Bool-cases (must_abort F I T policy idx e p₁)) [
          | inl stops ↦ ground arith
          | inr goes_on ↦
              ih p₁ w (omega (arith, length-append p.failures ((item, e) ∷ [])))
                (omega (arith, not_exceeded policy idx e p₁ goes_on)) (ground arith)
        ]
    ends_item policy idx item n p rest (crashed, w) p' w' ih c b h = cc

    ends_loop :
        (policy : PartialFailurePolicy) (operation : I → W → ItemRun F I T × W) (idx : ℕ)
        (items : List I) (p : Progress F I T) (w : W) (p' : Progress F I T) (w' : W)
        → length p.succeeded + length p.failures ≡ idx
        → length p.failures * policy.ratio_den ≤ policy.ratio_num * idx
        → loop F I T policy operation idx items p w ≡ (finished p' none, w')
        → (length p'.succeeded + length p'.failures ≡ idx + length items)
          × (length p'.failures * policy.ratio_den ≤ policy.ratio_num * (idx + length items))
    unfolding loop
    ends_loop policy operation idx [] p w p' w' c b h =
        let same : p ≡ p' = cc in
        subst
          (λ q.
            (length q.succeeded + length q.failures ≡ idx + 0)
            × (length q.failures * policy.ratio_den ≤ policy.ratio_num * (idx + 0)))
          same (omega arith, omega arith)
    ends_loop policy operation idx (item ∷ items) p w p' w' c b h =
        let r =
          ends_item policy idx item (length items) p (loop F I T policy operation (suc idx) items)
            (operation item w) p' w'
            (λ p₁ w₁ c₁ b₁ h₁. ends_loop policy operation (suc idx) items p₁ w₁ p' w' c₁ b₁ h₁) c b
            h in
        (omega arith, omega arith)

    concluded :
        (policy : PartialFailurePolicy) (operation : I → W → ItemRun F I T × W) (items : List I)
        (w w' : W) (ended : LoopEnd F I T × W) (r : PartialFailureResult F I T)
        → loop F I T policy operation 0 items (record { succeeded = []; failures = [] }) w ≡ ended
        → conclude F I T policy (length items) ended ≡ (some r, w')
        → r.aborted_at ≡ none
        → (length r.succeeded + length r.failures ≡ r.total)
          × (length r.failures * policy.ratio_den ≤ policy.ratio_num * r.total)
          × (r.outcome ≢ aborted)
    unfolding conclude finish
    concluded policy operation items w w' (finished p' none, w₁) r h e a =
        let x = ends_loop policy operation 0 items _ w p' w₁ (omega arith) (omega arith) h in
        (ground arith, ground arith, ground arith)
    concluded policy operation items w w' (finished p' (some idx), w₁) r h e a = ground arith
    concluded policy operation items w w' (propagated, w₁) r h e a = cc

    -- A bulk operation that is not aborted accounts for every item, as a success or as a failure,
    -- and its failures are at most the policy's ratio of all the items.
    pub execute_with_partial_failure-bounded :
        (policy : PartialFailurePolicy) (operation : I → W → ItemRun F I T × W) (items : List I)
        (w w' : W) (r : PartialFailureResult F I T)
        → execute_with_partial_failure F I T policy items operation w ≡ (some r, w')
        → r.aborted_at ≡ none
        → (length r.succeeded + length r.failures ≡ r.total)
          × (length r.failures * policy.ratio_den ≤ policy.ratio_num * r.total)
          × (r.outcome ≢ aborted)
    unfolding execute_with_partial_failure
    execute_with_partial_failure-bounded policy operation items w w' r h a =
        concluded policy operation items w w' _ r refl h a

    first_item :
        (policy : PartialFailurePolicy) (item : I) (e : IntegrationError F) (n : ℕ)
        (rest : Progress F I T → W → LoopEnd F I T × W) (w : W)
        → policy.ratio_num < policy.ratio_den
        → conclude F I T policy n (
            after_item F I T policy 0 item
              (record { succeeded = []; failures = [] })
              rest
              (failed e, w))
          ≡ (
            some (record {
              outcome = aborted;
              succeeded = [];
              failures = (item, e) ∷ [];
              aborted_at = some 0;
              total = n;
            }),
            w,
          )
    unfolding conclude after_item add_failure finish
    first_item policy item e n rest w h = rw (first_aborts T policy item e h)

    -- Under a policy whose ratio is below 1, a bulk operation whose first item raises an integration
    -- error is aborted there: no later item is run, whatever the number of items.
    pub execute_with_partial_failure-first :
        (policy : PartialFailurePolicy) (operation : I → W → ItemRun F I T × W) (item : I)
        (items : List I) (w w' : W) (e : IntegrationError F)
        → policy.ratio_num < policy.ratio_den
        → operation item w ≡ (failed e, w')
        → execute_with_partial_failure F I T policy (item ∷ items) operation w ≡ (
          some (record {
            outcome = aborted;
            succeeded = [];
            failures = (item, e) ∷ [];
            aborted_at = some 0;
            total = length (item ∷ items);
          }),
          w',
        )
    unfolding execute_with_partial_failure loop
    execute_with_partial_failure-first policy operation item items w w' e ratio fails = rw fails (
        first_item policy item e (length (item ∷ items)) (loop F I T policy operation 1 items) w'
          ratio)
