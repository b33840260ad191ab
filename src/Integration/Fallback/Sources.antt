-- ===== src/Integration/Fallback/Sources.antt =====
-- Where the data of a resilient result comes from.
use fast_api_boilerplate.Base.{
  ◌≡◌, refl, ◌↔◌, Bool, true, false, Option, none, some, is_some, arith, ◌⊎◌, inl,
}
use fast_api_boilerplate.Integration.Errors.{IntegrationError, is_retryable_integration_error}
use fast_api_boilerplate.Integration.Fallback.{
  primary, none_, ResilientResult, PrimaryRun, FallbackRun, with_fallback, after_primary, returned,
  failed, crashed, provided, raised, use_fallback, unavailable,
}

-- What a resilient result may look like, source by source.
pub record IsCoherent {F T : Type 0} (r : ResilientResult F T) : Type 0 where
  pub degraded_iff : (r.degraded ≡ false) ↔ (r.source ≡ primary)
  pub error_iff : (r.primary_error ≡ none) ↔ (r.source ≡ primary)
  pub empty_source : r.payload ≡ none → (r.source ≡ none_) ⊎ (r.source ≡ primary)
  pub none_empty : r.source ≡ none_ → r.payload ≡ none

-- Whether a fallback provider came back with data.
abbrev pub provides : {F T : Type 0} → FallbackRun F T → Bool
provides (provided (some value)) = true
provides _ = false

module _ {F T : Type 0} where
  use_fallback-payload :
      (run : FallbackRun F T) (default : Option T) (e : IntegrationError F)
      → (is_some (use_fallback F T run default e).payload ≡ true)
        ↔ ((provides run ≡ true) ⊎ (is_some default ≡ true))
  unfolding use_fallback
  use_fallback-payload (provided (some value)) default e = (λ h. inl refl, λ h. refl)
  use_fallback-payload (provided none) default e = (λ h. ground arith, λ h. ground arith)
  use_fallback-payload raised default e = (λ h. ground arith, λ h. ground arith)

module _ {F T W : Type 0} where
  IsCoherent-run :
      (provider : Option (W → FallbackRun F T × W)) (default : Option T) (ran : PrimaryRun F T × W)
      (r : ResilientResult F T)
      → (after_primary F T provider default ran).0 ≡ some r
      → IsCoherent r
  unfolding after_primary
  IsCoherent-run provider default (returned value, w) r h = ground arith
  IsCoherent-run none default (failed e, w) r h = ground arith
  IsCoherent-run (some get_fallback) default (failed e, w) r h = ground arith
  IsCoherent-run provider default (crashed, w) r h = cc

  -- Every result has its fields in agreement: not degraded exactly from the primary source, no error
  -- kept exactly from the primary source, and no data only from no source or from a primary call
  -- that returned `None`.
  pub with_fallback-IsCoherent :
      (primary_call : W → PrimaryRun F T × W) (provider : Option (W → FallbackRun F T × W))
      (default : Option T) (w : W) (r : ResilientResult F T)
      → (with_fallback F T primary_call provider default w).0 ≡ some r
      → IsCoherent r
  unfolding with_fallback
  with_fallback-IsCoherent primary_call provider default w r h =
      IsCoherent-run provider default (primary_call w) r h

  -- Where the primary call fails with a retryable error, the fallback provider is called once, after
  -- it, and the result has data exactly where the provider gave some or there is a default; an
  -- exception of the provider never propagates.
  pub with_fallback-retryable :
      (primary_call : W → PrimaryRun F T × W) (get_fallback : W → FallbackRun F T × W)
      (default : Option T) (e : IntegrationError F) (w w' : W)
      → primary_call w ≡ (failed e, w')
      → is_retryable_integration_error e ≡ true
      → (r : ResilientResult F T) × (with_fallback F T primary_call (some get_fallback) default w
          ≡ (some r, (get_fallback w').1))
        × ((is_some r.payload ≡ true)
            ↔ ((provides (get_fallback w').0 ≡ true) ⊎ (is_some default ≡ true)))
  unfolding with_fallback
  with_fallback-retryable primary_call get_fallback default e w w' fails retryable =
      let run = (get_fallback w').0 in
      (
        use_fallback F T run default e,
        rw (fails, after_primary, retryable),
        use_fallback-payload run default e,
      )

  -- Where the primary call fails with an error that is not retryable, neither the provider nor the
  -- default is used: the result has no data, names the error, and the world is as the primary call
  -- left it.
  pub with_fallback-permanent :
      (primary_call : W → PrimaryRun F T × W) (provider : Option (W → FallbackRun F T × W))
      (default : Option T) (e : IntegrationError F) (w w' : W)
      → primary_call w ≡ (failed e, w')
      → is_retryable_integration_error e ≡ false
      → with_fallback F T primary_call provider default w ≡ (some (unavailable F T e), w')
  unfolding with_fallback
  with_fallback-permanent primary_call provider default e w w' fails permanent =
      rw (fails, after_primary, permanent)
