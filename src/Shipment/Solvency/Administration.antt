-- ===== src/Shipment/Solvency/Administration.antt =====
-- The accounts over roles, the audit log and the administration of the contract, which leave them
-- alone.
use navin_contracts.Shipment.Audit.{log_entry, cleanup_audit_logs}
use navin_contracts.Shipment.Breaker.{CircuitBreakerPreset}
use navin_contracts.Shipment.Roles.{
  accept_admin_transfer, remove_carrier_from_whitelist, add_carrier_to_whitelist, reactivate_role,
  suspend_role, revoke_role, reactivate_company, suspend_company, reactivate_carrier,
  suspend_carrier, add_official, add_member, require_admin_or_operator, revoke,
}
use navin_contracts.Shipment.Administration.{
  initialize, pause, unpause, reset_circuit_breaker, update_config, set_platform_fee,
  set_creation_quota_config, set_circuit_breaker_config, set_shipment_limit,
  set_company_shipment_limit,
}
use navin_contracts.Shipment.Guards.{require_role}
use navin_contracts.Host.{Env}
use navin_contracts.Host.Keeps.{Keeps}
use navin_contracts.Shipment.Store.{Store}
use navin_contracts.Shipment.Data.{HostApi, Role}
use navin_contracts.Shipment.Config.{ContractConfig}
use navin_contracts.Shipment.Roles.Audited.{Change, change}
use navin_contracts.Shipment.Administration.Configured.{Order, obey}
use navin_contracts.Shipment.Solvency.Steps.{IsStable, books, beside_parts}
use navin_contracts.Prelude.{ℕ, ◌≡◌, arith}

revoke-books : {T : Type 0} (a : ℕ) (r : Role) (s : Store T) → books (revoke a r s) ≡ books s
revoke-books a r s = ground arith

module _ {T : Type 0} {P : Store T → Type 0} (c : IsStable P) where
  require_admin_or_operator-Beside : (a : ℕ) → Keeps P (require_admin_or_operator {T = T} a)
  unfolding require_admin_or_operator
  require_admin_or_operator-Beside a = search beside_parts depth 80 fits 5000

  company-Beside : (a : ℕ) → Keeps P (require_role {T = T} a Role.company)
  unfolding require_role
  company-Beside a = search beside_parts depth 80 fits 5000

  add_member-Beside : (env : Env) (r : Role) (a b : ℕ) → Keeps P (add_member {T = T} env r a b)
  unfolding add_member log_entry
  add_member-Beside env r a b =
      search (require_admin_or_operator-Beside, beside_parts) depth 80 fits 5000

  add_official-Beside : (env : Env) (r : Role) (a b : ℕ) → Keeps P (add_official {T = T} env r a b)
  unfolding add_official log_entry
  add_official-Beside env r a b = search beside_parts depth 80 fits 5000

  suspend_carrier-Beside : (env : Env) (a b : ℕ) → Keeps P (suspend_carrier {T = T} env a b)
  unfolding suspend_carrier
  suspend_carrier-Beside env a b =
      search (require_admin_or_operator-Beside, beside_parts) depth 80 fits 5000

  reactivate_carrier-Beside : (env : Env) (a b : ℕ) → Keeps P (reactivate_carrier {T = T} env a b)
  unfolding reactivate_carrier
  reactivate_carrier-Beside env a b =
      search (require_admin_or_operator-Beside, beside_parts) depth 80 fits 5000

  suspend_company-Beside : (env : Env) (a b : ℕ) → Keeps P (suspend_company {T = T} env a b)
  unfolding suspend_company
  suspend_company-Beside env a b =
      search (require_admin_or_operator-Beside, beside_parts) depth 80 fits 5000

  reactivate_company-Beside : (env : Env) (a b : ℕ) → Keeps P (reactivate_company {T = T} env a b)
  unfolding reactivate_company
  reactivate_company-Beside env a b =
      search (require_admin_or_operator-Beside, beside_parts) depth 80 fits 5000

  revoke_role-Beside : (env : Env) (a b : ℕ) → Keeps P (revoke_role {T = T} env a b)
  unfolding revoke_role log_entry
  revoke_role-Beside env a b = search (revoke-books, beside_parts) depth 80 fits 5000

  suspend_role-Beside : (env : Env) (a b : ℕ) → Keeps P (suspend_role {T = T} env a b)
  unfolding suspend_role log_entry
  suspend_role-Beside env a b = search beside_parts depth 80 fits 5000

  reactivate_role-Beside : (env : Env) (a b : ℕ) → Keeps P (reactivate_role {T = T} env a b)
  unfolding reactivate_role log_entry
  reactivate_role-Beside env a b = search beside_parts depth 80 fits 5000

  add_carrier_to_whitelist-Beside :
      (env : Env) (a b : ℕ) → Keeps P (add_carrier_to_whitelist {T = T} env a b)
  unfolding add_carrier_to_whitelist log_entry
  add_carrier_to_whitelist-Beside env a b = search (company-Beside, beside_parts) depth 80 fits 5000

  remove_carrier_from_whitelist-Beside :
      (env : Env) (a b : ℕ) → Keeps P (remove_carrier_from_whitelist {T = T} env a b)
  unfolding remove_carrier_from_whitelist log_entry
  remove_carrier_from_whitelist-Beside env a b =
      search (company-Beside, beside_parts) depth 80 fits 5000

  pub accept_admin_transfer-Beside :
      (env : Env) (a : ℕ) → Keeps P (accept_admin_transfer {T = T} env a)
  unfolding accept_admin_transfer log_entry
  accept_admin_transfer-Beside env a = search beside_parts depth 80 fits 5000

  pub cleanup_audit_logs-Beside :
      (env : Env) (a before : ℕ) → Keeps P (cleanup_audit_logs {T = T} env a before)
  unfolding cleanup_audit_logs
  cleanup_audit_logs-Beside env a before = search beside_parts depth 80 fits 5000

  initialize-Beside :
      (host : HostApi) (self : ℕ) (env : Env) (a t : ℕ)
      → Keeps P (initialize {T = T} host self env a t)
  unfolding initialize
  initialize-Beside host self env a t = search beside_parts depth 80 fits 5000

  set_shipment_limit-Beside : (env : Env) (a n : ℕ) → Keeps P (set_shipment_limit {T = T} env a n)
  unfolding set_shipment_limit
  set_shipment_limit-Beside env a n = search beside_parts depth 80 fits 5000

  set_company_shipment_limit-Beside :
      (env : Env) (a b n : ℕ) → Keeps P (set_company_shipment_limit {T = T} env a b n)
  unfolding set_company_shipment_limit
  set_company_shipment_limit-Beside env a b n = search beside_parts depth 80 fits 5000

  pause-Beside : (env : Env) (a : ℕ) → Keeps P (pause {T = T} env a)
  unfolding pause
  pause-Beside env a = search beside_parts depth 80 fits 5000

  unpause-Beside : (env : Env) (a : ℕ) → Keeps P (unpause {T = T} env a)
  unfolding unpause
  unpause-Beside env a = search beside_parts depth 80 fits 5000

  reset_circuit_breaker-Beside : (env : Env) (a : ℕ) → Keeps P (reset_circuit_breaker {T = T} env a)
  unfolding reset_circuit_breaker
  reset_circuit_breaker-Beside env a = search beside_parts depth 80 fits 5000

  update_config-Beside :
      (host : HostApi) (env : Env) (a : ℕ) (config : ContractConfig)
      → Keeps P (update_config {T = T} host env a config)
  unfolding update_config
  update_config-Beside host env a config = search beside_parts depth 80 fits 5000

  set_platform_fee-Beside :
      (host : HostApi) (env : Env) (a bps t : ℕ)
      → Keeps P (set_platform_fee {T = T} host env a bps t)
  unfolding set_platform_fee
  set_platform_fee-Beside host env a bps t = search beside_parts depth 80 fits 5000

  set_creation_quota_config-Beside :
      (host : HostApi) (env : Env) (a n w : ℕ)
      → Keeps P (set_creation_quota_config {T = T} host env a n w)
  unfolding set_creation_quota_config
  set_creation_quota_config-Beside host env a n w = search beside_parts depth 80 fits 5000

  set_circuit_breaker_config-Beside :
      (env : Env) (a : ℕ) (preset : CircuitBreakerPreset)
      → Keeps P (set_circuit_breaker_config {T = T} env a preset)
  unfolding set_circuit_breaker_config
  set_circuit_breaker_config-Beside env a preset = search beside_parts depth 80 fits 5000

  pub change-Beside : (env : Env) (x : Change) → Keeps P (change {T = T} env x)
  unfolding change
  change-Beside env (Change.enlist_company a b) = add_member-Beside env Role.company a b
  change-Beside env (Change.enlist_carrier a b) = add_member-Beside env Role.carrier a b
  change-Beside env (Change.appoint_guardian a b) = add_official-Beside env Role.guardian a b
  change-Beside env (Change.appoint_operator a b) = add_official-Beside env Role.operator a b
  change-Beside env (Change.hold_carrier a b) = suspend_carrier-Beside env a b
  change-Beside env (Change.free_carrier a b) = reactivate_carrier-Beside env a b
  change-Beside env (Change.hold_company a b) = suspend_company-Beside env a b
  change-Beside env (Change.free_company a b) = reactivate_company-Beside env a b
  change-Beside env (Change.take_role a b) = revoke_role-Beside env a b
  change-Beside env (Change.hold_role a b) = suspend_role-Beside env a b
  change-Beside env (Change.free_role a b) = reactivate_role-Beside env a b
  change-Beside env (Change.list_carrier a b) = add_carrier_to_whitelist-Beside env a b
  change-Beside env (Change.unlist_carrier a b) = remove_carrier_from_whitelist-Beside env a b

  pub obey-Beside :
      (host : HostApi) (self : ℕ) (env : Env) (o : Order) → Keeps P (obey {T = T} host self env o)
  unfolding obey
  obey-Beside host self env (Order.begin a t) = initialize-Beside host self env a t
  obey-Beside host self env (Order.limit a n) = set_shipment_limit-Beside env a n
  obey-Beside host self env (Order.limit_company a b n) =
      set_company_shipment_limit-Beside env a b n
  obey-Beside host self env (Order.stop a) = pause-Beside env a
  obey-Beside host self env (Order.resume a) = unpause-Beside env a
  obey-Beside host self env (Order.reset a) = reset_circuit_breaker-Beside env a
  obey-Beside host self env (Order.configure a config) = update_config-Beside host env a config
  obey-Beside host self env (Order.charge a bps t) = set_platform_fee-Beside host env a bps t
  obey-Beside host self env (Order.ration a n w) = set_creation_quota_config-Beside host env a n w
  obey-Beside host self env (Order.tune a preset) = set_circuit_breaker_config-Beside env a preset
