-- ===== src/Integration/Fallback.antt =====
-- src/app/integrations/contracts/resilience.py, `with_fallback`: stale or default data when the
-- primary provider fails. The awaitables act on a world `W`; logging is left out.
pub mod Sources
use fast_api_boilerplate.Base.{Bool, true, false, Option, none, some, if◌then◌else◌}
use fast_api_boilerplate.Integration.Errors.{IntegrationError, is_retryable_integration_error}

pub data ResultSource : Type 0 where
  primary fallback default_ none_ : ResultSource

module _ (F T : Type 0) where
  pub record ResilientResult : Type 0 where
    pub payload : Option T
    pub source : ResultSource
    pub primary_error : Option (IntegrationError F)
    pub degraded : Bool

  -- The primary call may return `None` itself.
  from_primary : Option T → ResilientResult
  from_primary value = record {
    payload = value;
    source = primary;
    primary_error = none;
    degraded = false;
  }

  from_fallback : T → IntegrationError F → ResilientResult
  from_fallback value e = record {
    payload = some value;
    source = fallback;
    primary_error = some e;
    degraded = true;
  }

  from_default : T → IntegrationError F → ResilientResult
  from_default value e = record {
    payload = some value;
    source = default_;
    primary_error = some e;
    degraded = true;
  }

  pub unavailable : IntegrationError F → ResilientResult
  unavailable e = record { payload = none; source = none_; primary_error = some e; degraded = true }

  -- What awaiting `primary()` does. Only an `IntegrationError` is caught.
  pub data PrimaryRun : Type 0 where
    returned : Option T → PrimaryRun
    failed : IntegrationError F → PrimaryRun
    crashed : PrimaryRun

  -- What awaiting `fallback.get_fallback(...)` does: data or `None`, or any exception.
  pub data FallbackRun : Type 0 where
    provided : Option T → FallbackRun
    raised : FallbackRun

  use_default : Option T → IntegrationError F → ResilientResult
  unfolding from_default unavailable
  use_default (some value) e = from_default value e
  use_default none e = unavailable e

  use_fallback : FallbackRun → Option T → IntegrationError F → ResilientResult
  unfolding from_fallback use_default
  use_fallback (provided (some value)) default e = from_fallback value e
  use_fallback (provided none) default e = use_default default e
  use_fallback raised default e = use_default default e

  module _ {W : Type 0} where
    on_error :
        Option (W → FallbackRun × W) → Option T → IntegrationError F → W → ResilientResult × W
    unfolding use_fallback use_default
    on_error none default e w = (use_default default e, w)
    on_error (some get_fallback) default e w =
        let (run, w') = get_fallback w in (use_fallback run default e, w')

    after_primary :
        Option (W → FallbackRun × W) → Option T → PrimaryRun × W → Option ResilientResult × W
    unfolding from_primary on_error unavailable
    after_primary provider default (returned value, w) = (some (from_primary value), w)
    after_primary provider default (failed e, w) =
        if is_retryable_integration_error e
        then (let (r, w') = on_error provider default e w in (some r, w'))
        else (some (unavailable e), w)
    after_primary provider default (crashed, w) = (none, w)

    -- `none` where an exception of `primary` propagates.
    unfoldable pub with_fallback :
        (W → PrimaryRun × W)
        → Option (W → FallbackRun × W)
        → Option T
        → W
        → Option ResilientResult × W
    unfolding after_primary
    with_fallback primary_call provider default w = after_primary provider default (primary_call w)
