-- ===== src/Integration/PartialFailure/Prefix.antt =====
-- The result of a bulk operation against the runs of a prefix of its items.
use mathlib.Core.List.{append_assoc, append-nil}
use fast_api_boilerplate.Base.{
  ℕ, suc, ◌+◌, ◌≤◌, ◌≡◌, refl, inl, inr, Option, none, some, List, [], ◌∷◌, ◌++◌, length, take,
  arith, Bool-cases, sym, ◌∙◌, subst,
}
use fast_api_boilerplate.Integration.Errors.{IntegrationError}
use fast_api_boilerplate.Integration.PartialFailure.{
  PartialFailurePolicy, PartialFailureResult, ItemRun, returned, failed, crashed, Progress, LoopEnd,
  finished, propagated, after_item, loop, conclude, execute_with_partial_failure, add_success,
  add_failure, must_abort, finish,
}

-- Where a loop that began at `idx` with `n` items left and ran `k` of them has stopped.
abbrev StopsAt : Option ℕ → ℕ → ℕ → ℕ → Type 0
StopsAt none idx k n = k ≡ n
StopsAt (some j) idx k n = suc j ≡ idx + k

shift_stop :
    (aborted_at : Option ℕ) (idx k n : ℕ)
    → StopsAt aborted_at (suc idx) k n
    → StopsAt aborted_at idx (suc k) (suc n)
shift_stop none idx k n h = omega arith
shift_stop (some j) idx k n h = omega arith

module _ {F I T : Type 0} where
  -- What the runs of some items returned, in order.
  abbrev pub successes : List (I × ItemRun F I T) → List T
  successes [] = []
  successes ((item, returned value) ∷ rest) = value ∷ successes rest
  successes ((item, failed e) ∷ rest) = successes rest
  successes ((item, crashed) ∷ rest) = successes rest

  -- The items whose runs raised an integration error, in order, with the errors.
  abbrev pub failures_of : List (I × ItemRun F I T) → List (I × IntegrationError F)
  failures_of [] = []
  failures_of ((item, returned value) ∷ rest) = failures_of rest
  failures_of ((item, failed e) ∷ rest) = (item, e) ∷ failures_of rest
  failures_of ((item, crashed) ∷ rest) = failures_of rest

  -- How many items a result accounts for.
  abbrev pub processed : PartialFailureResult F I T → ℕ
  processed r = elim (r.aborted_at) [ none ↦ r.total | some idx ↦ suc idx ]

  module _ {W : Type 0} where
    -- Every item in order, with no abort rule.
    unfoldable pub run_all : (I → W → ItemRun F I T × W) → List I → W → List (I × ItemRun F I T) × W
    run_all operation [] w = ([], w)
    run_all operation (item ∷ items) w =
        let (ran, w') = operation item w in
        let (rest, w'') = run_all operation items w' in ((item, ran) ∷ rest, w'')

    -- The loop from `idx` on has run the first `k` of `items`, and its variables say so.
    record Explains (operation : I → W → ItemRun F I T × W) (idx : ℕ) (items : List I)
        (p : Progress F I T) (w : W) (p' : Progress F I T) (aborted_at : Option ℕ) (w' : W)
        : Type 0 where
      k : ℕ
      within : k ≤ length items
      stop : StopsAt aborted_at idx k (length items)
      same_succeeded :
          p'.succeeded ≡ p.succeeded ++ successes (run_all operation (take k items) w).0
      same_failures : p'.failures ≡ p.failures ++ failures_of (run_all operation (take k items) w).0
      same_world : w' ≡ (run_all operation (take k items) w).1

    run_all-cons :
        (operation : I → W → ItemRun F I T × W) (item : I) (items : List I) (w w₁ : W)
        (ran : ItemRun F I T)
        → operation item w ≡ (ran, w₁)
        → run_all operation (item ∷ items) w
          ≡ ((item, ran) ∷ (run_all operation items w₁).0, (run_all operation items w₁).1)
    unfolding run_all
    run_all-cons operation item items w w₁ ran e = rw (e, run_all)

    run_all-one :
        (operation : I → W → ItemRun F I T × W) (item : I) (w w₁ : W) (ran : ItemRun F I T)
        → operation item w ≡ (ran, w₁)
        → run_all operation (item ∷ []) w ≡ ((item, ran) ∷ [], w₁)
    unfolding run_all
    run_all-one operation item w w₁ ran e = rw (e, run_all)

    Explains-item :
        (policy : PartialFailurePolicy) (operation : I → W → ItemRun F I T × W) (idx : ℕ) (item : I)
        (items : List I) (p : Progress F I T) (w : W)
        (rest : Progress F I T → W → LoopEnd F I T × W) (ran : ItemRun F I T × W)
        (p' : Progress F I T) (aborted_at : Option ℕ) (w' : W)
        → ((p₁ : Progress F I T) (w₁ : W)
            → rest p₁ w₁ ≡ (finished p' aborted_at, w')
            → Explains operation (suc idx) items p₁ w₁ p' aborted_at w')
        → operation item w ≡ ran
        → after_item F I T policy idx item p rest ran ≡ (finished p' aborted_at, w')
        → Explains operation idx (item ∷ items) p w p' aborted_at w'
    unfolding after_item add_success add_failure
    Explains-item policy operation idx item items p w rest (returned value, w₁) p' at w' ih e h =
        let all = λ (n : ℕ). run_all-cons operation item (take n items) w w₁ (returned value) e in
        let x = ih (add_success F I T value p) w₁ h in
        record {
          k = suc x.k;
          within = omega (arith, x.within);
          stop = shift_stop at idx x.k (length items) x.stop;
          same_succeeded =
              rw (all x.k) (x.same_succeeded ∙ append_assoc p.succeeded (value ∷ []) _);
          same_failures = rw (all x.k) x.same_failures;
          same_world = rw (all x.k) x.same_world;
        }
    Explains-item policy operation idx item items p w rest (failed err, w₁) p' at w' ih e h =
        let all = λ (n : ℕ). run_all-cons operation item (take n items) w w₁ (failed err) e in
        elim (Bool-cases (must_abort F I T policy idx err (add_failure F I T item err p))) [
          | inl stops ↦
              let one = run_all-one operation item w w₁ (failed err) e in
              record {
                k = 1;
                within = omega arith;
                stop =
                    subst (λ o. StopsAt o idx 1 (length (item ∷ items))) {x = some idx}
                      (ground arith) (omega arith);
                same_succeeded = rw one (ground (arith, append-nil p.succeeded));
                same_failures = rw one (ground arith);
                same_world = rw one (ground arith);
              }
          | inr goes_on ↦
              (let x = ih (add_failure F I T item err p) w₁ (ground arith) in
                record {
                  k = suc x.k;
                  within = omega (arith, x.within);
                  stop = shift_stop at idx x.k (length items) x.stop;
                  same_succeeded = rw (all x.k) x.same_succeeded;
                  same_failures =
                      rw (all x.k) (x.same_failures ∙ append_assoc p.failures ((item, err) ∷ []) _);
                  same_world = rw (all x.k) x.same_world;
                })
        ]
    Explains-item policy operation idx item items p w rest (crashed, w₁) p' at w' ih e h =
        ground arith

    Explains-loop :
        (policy : PartialFailurePolicy) (operation : I → W → ItemRun F I T × W) (idx : ℕ)
        (items : List I) (p : Progress F I T) (w : W) (p' : Progress F I T) (aborted_at : Option ℕ)
        (w' : W)
        → loop F I T policy operation idx items p w ≡ (finished p' aborted_at, w')
        → Explains operation idx items p w p' aborted_at w'
    unfolding loop run_all
    Explains-loop policy operation idx [] p w p' at w' h = record {
      k = 0;
      within = omega arith;
      stop = subst (λ o. StopsAt o idx 0 0) {x = none} (ground arith) (omega arith);
      same_succeeded = ground (arith, append-nil p.succeeded);
      same_failures = ground (arith, append-nil p.failures);
      same_world = ground arith;
    }
    Explains-loop policy operation idx (item ∷ items) p w p' at w' h =
        Explains-item policy operation idx item items p w
          (loop F I T policy operation (suc idx) items) (operation item w) p' at w'
          (λ p₁ w₁ h₁. Explains-loop policy operation (suc idx) items p₁ w₁ p' at w' h₁) refl h

    -- A result, and the world it is returned in, tell of the runs of the items it accounts for.
    pub record Accounts (operation : I → W → ItemRun F I T × W) (items : List I) (w : W)
        (r : PartialFailureResult F I T) (w' : W) : Type 0 where
      pub same_total : r.total ≡ length items
      pub within : processed r ≤ length items
      pub same_succeeded :
          r.succeeded ≡ successes (run_all operation (take (processed r) items) w).0
      pub same_failures :
          r.failures ≡ failures_of (run_all operation (take (processed r) items) w).0
      pub same_world : w' ≡ (run_all operation (take (processed r) items) w).1

    finish-Accounts :
        (policy : PartialFailurePolicy) (operation : I → W → ItemRun F I T × W) (items : List I)
        (w w' : W) (p' : Progress F I T) (at : Option ℕ)
        → Explains operation 0 items (record { succeeded = []; failures = [] }) w p' at w'
        → Accounts operation items w (finish F I T policy (length items) p' at) w'
    unfolding finish
    finish-Accounts policy operation items w w' p' none x =
        let same : length items ≡ x.k = sym x.stop in
        record {
          same_total = refl;
          within = omega arith;
          same_succeeded = rw same x.same_succeeded;
          same_failures = rw same x.same_failures;
          same_world = rw same x.same_world;
        }
    finish-Accounts policy operation items w w' p' (some idx) x =
        let same : x.k ≡ suc idx = omega (arith, x.stop) in
        record {
          same_total = refl;
          within = omega (arith, x.within);
          same_succeeded =
              subst (λ n. p'.succeeded ≡ successes (run_all operation (take n items) w).0) same
                x.same_succeeded;
          same_failures =
              subst (λ n. p'.failures ≡ failures_of (run_all operation (take n items) w).0) same
                x.same_failures;
          same_world = subst (λ n. w' ≡ (run_all operation (take n items) w).1) same x.same_world;
        }

    concluded :
        (policy : PartialFailurePolicy) (operation : I → W → ItemRun F I T × W) (items : List I)
        (w w' : W) (ended : LoopEnd F I T × W) (r : PartialFailureResult F I T)
        → loop F I T policy operation 0 items (record { succeeded = []; failures = [] }) w ≡ ended
        → conclude F I T policy (length items) ended ≡ (some r, w')
        → Accounts operation items w r w'
    unfolding conclude
    concluded policy operation items w w' (finished p' at, w₁) r h e =
        let same_result : finish F I T policy (length items) p' at ≡ r = cc in
        let same_world : w₁ ≡ w' = cc in
        let x = Explains-loop policy operation 0 items _ w p' at w₁ h in
        subst (λ r'. Accounts operation items w r' w') same_result
          (subst (λ v. Accounts operation items w (finish F I T policy (length items) p' at) v)
            same_world (finish-Accounts policy operation items w w₁ p' at x))
    concluded policy operation items w w' (propagated, w₁) r h e = cc

    -- A bulk operation that returns a result has run a prefix of its items in order: all of them
    -- without an abort, and those up to and including the index `aborted_at` with one. `succeeded`
    -- and `failed` are what these runs returned and raised, in order, and no other item had an
    -- effect on the world.
    pub execute_with_partial_failure-Accounts :
        (policy : PartialFailurePolicy) (operation : I → W → ItemRun F I T × W) (items : List I)
        (w w' : W) (r : PartialFailureResult F I T)
        → execute_with_partial_failure F I T policy items operation w ≡ (some r, w')
        → Accounts operation items w r w'
    unfolding execute_with_partial_failure
    execute_with_partial_failure-Accounts policy operation items w w' r h =
        concluded policy operation items w w' _ r refl h
