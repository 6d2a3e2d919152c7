-- ===== src/Config/Styles.antt =====
-- Configurations in the deprecated and in the current style.
use kdrive.Common.{◌≡◌, ◌≢◌, ◌⊎◌, true, false, pos, ltℤ, ◌>>=◌}
use kdrive.Config.Types.{StorageConfig, WasabiConfig, BreakerConfig, GatewayConfig, WorkerConfig}
use kdrive.Config.Load.{of_wasabi}

-- A configuration in the deprecated style: nothing but the Wasabi fields is given.
pub record Deprecated (s : StorageConfig) (w : WasabiConfig) (b old : BreakerConfig) : Type 0 where
  pub provider : s.provider ≡ ""
  pub endpoint : s.endpoint ≡ ""
  pub given : w.endpoint ≢ ""
  pub disabled : b.enabled ≡ false
  pub unset : b.threshold ≡ pos 0
  pub threshold : ltℤ old.threshold (pos 0) ≡ false

-- A configuration in the current style: it names a provider, and each deprecated breaker field that
-- it gives has its current counterpart.
pub record Current (s : StorageConfig) (b old : BreakerConfig) : Type 0 where
  pub provider : s.provider ≢ ""
  pub enabled : (b.enabled ≡ true) ⊎ (old.enabled ≡ false)
  pub threshold : (b.threshold ≢ pos 0) ⊎ (ltℤ (pos 0) old.threshold ≡ false)

-- The gateway's configuration with the current fields filled in from the deprecated ones.
abbrev pub modern_gateway : GatewayConfig → GatewayConfig
modern_gateway g = record g { storage = of_wasabi g.wasabi; storage_breaker = g.wasabi_breaker }

abbrev pub modern_worker : WorkerConfig → WorkerConfig
modern_worker c = record c { storage = of_wasabi c.wasabi; storage_breaker = c.wasabi_breaker }
