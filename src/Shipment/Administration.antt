-- ===== src/Shipment/Administration.antt =====
-- The administration of the contract: `initialize`, the limits, the pause, the configuration, the
-- platform fee, the creation quota and the circuit breaker, of contracts/shipment/src/lib.rs, with
-- `set_config` of config.rs and `manual_reset` and `set_config` of circuit_breaker.rs.
pub mod Configured
use navin_contracts.Host.{Env, ◌>>=◌, ◌>>◌, gets, modify, fail_if, ok_or, require_auth}
use navin_contracts.Shipment.Errors.{NavinError}
use navin_contracts.Shipment.Config.{ContractConfig, default_contract_config, validate_config}
use navin_contracts.Shipment.Breaker.{CircuitBreakerPreset, resolve, new}
use navin_contracts.Shipment.Data.{HostApi, Event}
use navin_contracts.Shipment.Store.{Store, Call, publish}
use navin_contracts.Shipment.Guards.{
  require_initialized, require_not_paused, require_admin_or_guardian,
}
use navin_contracts.Shipment.Symbols.{byte_at}
use navin_contracts.Shipment.Progress.{get_contract_config}
use navin_contracts.Shipment.Creation.{set_shipment_counter}
use navin_contracts.Shipment.Council.{set_company_role, set_version, is_admin}
use navin_contracts.Shipment.Roles.{require_admin}
use navin_contracts.Prelude.{
  ℕ, zero, suc, List, some, Bool, true, false, not, ◌==◌, ◌&&◌, ◌||◌, ltb, ◌+◌, is_some,
  if◌then◌else◌, length,
}

-- Whether so many bytes from an index on are zero; past the end a byte counts as 1.
unfoldable pub all_zero : List ℕ → ℕ → ℕ → Bool
all_zero xdr i zero = true
all_zero xdr i (suc n) =
    let rest = all_zero xdr (i + 1) n in
    if ltb i (length xdr) && byte_at xdr i == 0 then rest else false

unfoldable pub is_zero_address : List ℕ → Bool
unfolding all_zero
is_zero_address xdr = if ltb (length xdr) 40 then true else all_zero xdr 8 32

module _ {T : Type 0} where
  -- What the storage writes before the checksum is tested stays written.
  unfoldable pub set_config : HostApi → ContractConfig → Call T (Unit {0})
  set_config host c = do
    modify (λ s. record s { config = some c })
    fail_if (host.config_checksum c == 0) NavinError.invalid_config
    modify (λ s. record s {
      settings = record s.settings { config_checksum = some (host.config_checksum c) };
    })

  abbrev pub set_shipment_limit_to : ℕ → Store T → Store T
  set_shipment_limit_to n s = record s { registry = record s.registry { shipment_limit = some n } }

  -- `self` is the contract's own address.
  unfoldable pub initialize : HostApi → ℕ → Env → ℕ → ℕ → Call T (Unit {0})
  unfolding set_config
  initialize host self env admin token_contract = do
    a ← gets (λ s. s.admin)
    fail_if (is_some a) NavinError.already_initialized
    fail_if (token_contract == admin || token_contract == self) NavinError.invalid_token_address
    modify (λ s. record s { admin = some admin })
    modify (λ s. record s { token_contract = some token_contract })
    modify (set_shipment_counter 0)
    modify (set_version 1)
    modify (set_company_role admin)
    set_config host default_contract_config
    modify (set_shipment_limit_to default_contract_config.default_shipment_limit)
    modify (publish (Event.contract_initialized admin token_contract))
    config ← gets get_contract_config
    modify (
        publish
          (Event.extend_instance_ttl config.shipment_ttl_threshold config.shipment_ttl_extension))

  unfoldable pub set_shipment_limit : Env → ℕ → ℕ → Call T (Unit {0})
  unfolding require_initialized require_not_paused
  set_shipment_limit env admin limit = do
    require_initialized
    require_not_paused
    require_auth env admin
    require_admin admin
    modify (set_shipment_limit_to limit)
    modify (publish (Event.shipment_limit_updated admin limit))

  unfoldable pub set_company_shipment_limit : Env → ℕ → ℕ → ℕ → Call T (Unit {0})
  unfolding require_initialized require_not_paused
  set_company_shipment_limit env admin company limit = do
    require_initialized
    require_not_paused
    require_auth env admin
    require_admin admin
    modify (λ s. record s {
      registry = record s.registry {
        company_limit = λ k. if k == company then some limit else s.registry.company_limit k;
      };
    })
    modify (publish (Event.company_limit_updated admin company limit))

  unfoldable pub pause : Env → ℕ → Call T (Unit {0})
  unfolding require_initialized require_admin_or_guardian
  pause env admin = do
    require_initialized
    require_auth env admin
    require_admin_or_guardian admin
    modify (λ s. record s { is_paused = true })
    modify (publish (Event.contract_paused admin env.timestamp))

  unfoldable pub unpause : Env → ℕ → Call T (Unit {0})
  unfolding require_initialized require_admin_or_guardian
  unpause env admin = do
    require_initialized
    require_auth env admin
    require_admin_or_guardian admin
    modify (λ s. record s { is_paused = false })
    modify (publish (Event.contract_unpaused admin env.timestamp))

  unfoldable pub update_config : HostApi → Env → ℕ → ContractConfig → Call T (Unit {0})
  unfolding require_initialized require_not_paused set_config validate_config
  update_config host env admin new_config = do
    require_initialized
    require_not_paused
    require_auth env admin
    require_admin admin
    fail_if (not (validate_config new_config)) NavinError.invalid_config
    set_config host new_config
    modify (publish (Event.config_updated admin new_config))

  unfoldable pub set_platform_fee : HostApi → Env → ℕ → ℕ → ℕ → Call T (Unit {0})
  unfolding require_initialized require_not_paused is_zero_address
  set_platform_fee host env admin fee_bps treasury = do
    require_initialized
    require_not_paused
    require_auth env admin
    require_admin admin
    fail_if (ltb 1000 fee_bps) NavinError.invalid_amount
    fail_if (is_zero_address (host.address_xdr treasury)) NavinError.invalid_address
    modify (λ s. record s { fee_config = some (record { fee_bps = fee_bps; treasury = treasury }) })
    modify (λ s. record s { settings = record s.settings { treasury = some treasury } })
    modify (publish (Event.fee_config_updated admin fee_bps treasury))

  unfoldable pub set_creation_quota_config : HostApi → Env → ℕ → ℕ → ℕ → Call T (Unit {0})
  unfolding require_initialized set_config
  set_creation_quota_config host env admin max_per_window window_seconds = do
    require_initialized
    require_auth env admin
    require_admin admin
    fail_if (ltb 0 max_per_window && window_seconds == 0) NavinError.invalid_config
    cfg ← gets get_contract_config
    set_config host (record cfg {
      creation_quota_max = max_per_window;
      creation_quota_window_seconds = window_seconds;
    })
    modify (publish (Event.quota_set admin max_per_window window_seconds))

  unfoldable pub manual_reset : Env → ℕ → Call T (Unit {0})
  manual_reset env admin = do
    require_auth env admin
    listed ← gets (is_admin admin)
    fail_if (not listed) NavinError.unauthorized
    modify (λ s. record s { breaker = some new })
    modify (publish (Event.circuit_breaker_reset admin env.timestamp))

  unfoldable pub reset_circuit_breaker : Env → ℕ → Call T (Unit {0})
  unfolding require_initialized manual_reset
  reset_circuit_breaker env admin = do require_initialized; manual_reset env admin

  unfoldable pub set_circuit_breaker_config : Env → ℕ → CircuitBreakerPreset → Call T (Unit {0})
  unfolding require_initialized resolve
  set_circuit_breaker_config env admin preset = do
    require_initialized
    require_auth env admin
    require_admin admin
    config ← ok_or (resolve preset) NavinError.invalid_config
    modify (λ s. record s { breaker_config = some config })
    modify (
        publish (
          Event.circuit_breaker_config_updated config.failure_threshold config.recovery_timeout
            config.half_open_max_requests))
