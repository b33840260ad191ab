-- ===== src/Backoff/Delays.antt =====
-- Bounds and growth of the backoff delays.
use fast_api_boilerplate.Base.{ℕ, suc, ◌≡◌, Bool, true, false, none, some, arith, subst}
use fast_api_boilerplate.Base.Int.{pos}
use fast_api_boilerplate.Floats.{Floats, AtMost, fmin_mono, capped_bounds}
use fast_api_boilerplate.Backoff.{
  calculate_backoff_delay_deterministic, BackoffPolicy, build_policy, delay_for_attempt,
}

module _ (fl : Floats) where
  open fl use {F}

  -- What `__post_init__` has tested.
  pub record IsValid (policy : BackoffPolicy fl) : Type 0 where
    pub base_nonneg : AtMost fl fl.zero policy.base_delay_seconds
    pub base_capped : AtMost fl policy.base_delay_seconds policy.max_delay_seconds
    pub multiplier_pos : fl.ltb fl.zero policy.multiplier ≡ true

  build_policy-IsValid :
      (base max multiplier : F) (jitter : Bool) {policy : BackoffPolicy fl}
      → build_policy fl base max multiplier jitter ≡ some policy
      → IsValid policy
  unfolding build_policy
  build_policy-IsValid base max multiplier jitter h = ground arith

  build_policy-fields :
      (base max multiplier : F) (jitter : Bool) {policy : BackoffPolicy fl}
      → build_policy fl base max multiplier jitter ≡ some policy
      → (policy.max_delay_seconds ≡ max)
        × (policy.multiplier ≡ multiplier)
        × (policy.jitter ≡ jitter)
  unfolding build_policy
  build_policy-fields base max multiplier jitter h = ground arith

  delay_bounds :
      (policy : BackoffPolicy fl) (seed attempt : ℕ)
      → IsValid policy
      → let d = delay_for_attempt fl policy seed attempt in
        AtMost fl fl.zero d × AtMost fl d policy.max_delay_seconds
  unfolding delay_for_attempt
  delay_bounds policy seed attempt v =
      capped_bounds fl _ policy.max_delay_seconds policy.jitter seed
        (fl.mul_nonneg _ _ v.base_nonneg (fl.pow_nonneg _ attempt v.multiplier_pos))
        (fl.trans_le _ _ _ v.base_nonneg v.base_capped)

  -- A policy that its constructor accepts gives every attempt, with or without jitter, a delay
  -- between 0 and the `max_delay` it was constructed with.
  pub build_policy-delay_bounds :
      (base max multiplier : F) (jitter : Bool) (policy : BackoffPolicy fl) (seed attempt : ℕ)
      → build_policy fl base max multiplier jitter ≡ some policy
      → let d = delay_for_attempt fl policy seed attempt in AtMost fl fl.zero d × AtMost fl d max
  build_policy-delay_bounds base max multiplier jitter policy seed attempt h =
      let v = build_policy-IsValid base max multiplier jitter h in
      let d = delay_bounds policy seed attempt v in
      let cap = (build_policy-fields base max multiplier jitter h).0 in
      (d.0, subst (λ y. AtMost fl (delay_for_attempt fl policy seed attempt) y) cap d.1)

  -- Without jitter and with a multiplier of at least 1, the delays of an accepted policy do not
  -- fall from one attempt to the next.
  pub delay_for_attempt_mono :
      (base max multiplier : F) (policy : BackoffPolicy fl) (seed seed' attempt : ℕ)
      → build_policy fl base max multiplier false ≡ some policy
      → AtMost fl (fl.of_nat 1) multiplier
      → AtMost fl
          (delay_for_attempt fl policy seed attempt)
          (delay_for_attempt fl policy seed' (suc attempt))
  unfolding delay_for_attempt
  delay_for_attempt_mono base max multiplier policy seed seed' attempt h m =
      let v = build_policy-IsValid base max multiplier false h in
      let (_, same_multiplier, no_jitter) = build_policy-fields base max multiplier false h in
      rw no_jitter (
        fmin_mono fl _ _ policy.max_delay_seconds (
          fl.mul_mono policy.base_delay_seconds _ _ v.base_nonneg
            (fl.pow_mono policy.multiplier attempt (rw same_multiplier m))))

  -- For every base, cap and non-negative attempt, the deterministic function and the policy with
  -- multiplier 2 and no jitter agree: both refuse the arguments, or both give the same delay.
  pub deterministic-delay_for_attempt :
      (base max : F) (seed attempt : ℕ)
      → fl.ltb fl.zero (fl.of_nat 2) ≡ true
      → calculate_backoff_delay_deterministic fl base (pos attempt) max
        ≡ elim (build_policy fl base max (fl.of_nat 2) false) [
          | none ↦ none
          | some policy ↦ some (delay_for_attempt fl policy seed attempt)
        ]
  unfolding calculate_backoff_delay_deterministic build_policy delay_for_attempt
  deterministic-delay_for_attempt base max seed attempt two = ground (arith, fl.pow_two attempt)
