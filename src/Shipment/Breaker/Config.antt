-- ===== src/Shipment/Breaker/Config.antt =====
-- What a preset of the circuit breaker resolves to.
use navin_contracts.Host.{◌>>=◌}
use navin_contracts.Shipment.Breaker.{
  CircuitBreakerConfig, CircuitBreakerPreset, custom, default_preset, strict_preset,
  permissive_preset, resolve, max_failure_threshold, max_recovery_timeout, max_half_open_requests,
}
use navin_contracts.Prelude.{◌≤◌, some, ◌≡◌, arith}

-- Neither a threshold that blocks every transfer, nor a timeout that never ends, nor a recovery
-- that admits no request.
pub record IsSane (c : CircuitBreakerConfig) : Type 0 where
  pub opens : 1 ≤ c.failure_threshold
  pub opens_in_time : c.failure_threshold ≤ max_failure_threshold
  pub recovers : c.recovery_timeout ≤ max_recovery_timeout
  pub admits : 1 ≤ c.half_open_max_requests
  pub admits_few : c.half_open_max_requests ≤ max_half_open_requests

-- Every configuration that a preset resolves to is sane.
pub resolve-IsSane :
    (p : CircuitBreakerPreset) {c : CircuitBreakerConfig} → resolve p ≡ some c → IsSane c
unfolding ◌>>=◌ resolve
resolve-IsSane default_preset h = ground arith
resolve-IsSane strict_preset h = ground arith
resolve-IsSane permissive_preset h = ground arith
resolve-IsSane (custom a b d) h = ground arith

-- `custom` accepts exactly the sane configurations, and takes them as given.
pub resolve-custom :
    (c : CircuitBreakerConfig)
    → IsSane c
    → resolve (custom c.failure_threshold c.recovery_timeout c.half_open_max_requests) ≡ some c
unfolding ◌>>=◌ resolve
resolve-custom c h = ground arith
