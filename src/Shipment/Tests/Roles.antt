-- ===== src/Shipment/Tests/Roles.antt =====
-- The theorems on roles, the audit log and the settings at concrete inputs.
use navin_contracts.Shipment.Breaker.{CircuitBreakerPreset}
use navin_contracts.Shipment.Administration.Configured.{
  obey_all-Configured, obey_all, Order, Configured,
}
use navin_contracts.Shipment.Tests.{host, at, running}
use navin_contracts.Host.{Env, ◌>>=◌, invoke}
use navin_contracts.Host.Keeps.{Ends}
use navin_contracts.Shipment.Data.{Role, AuditEventType, AuditLogEntry}
use navin_contracts.Shipment.Store.{Store}
use navin_contracts.Shipment.Audit.{
  log_entry, new_entry, query_audit_history, query_audit_history_for_target,
  query_audit_history_by_actor, cleanup_audit_logs,
}
use navin_contracts.Shipment.Audit.History.{log_entry-appends, query_audit_history-cleanup}
use navin_contracts.Shipment.Roles.{revoke_role, primary_role}
use navin_contracts.Shipment.Roles.Revoked.{revoke_role_once}
use navin_contracts.Shipment.Roles.Audited.{Change, change, recorded, change-Audited}
use navin_contracts.Prelude.{
  ℤ, some, none, [], ◌∷◌, ◌==◌, true, false, ◌≡◌, arith, if◌then◌else◌, List,
}

-- Address 31 is a company that was made a guardian later.
abbrev rostered : Store ℤ
rostered = record running {
  roster = record { primary_role = λ a. some Role.guardian; whitelist = λ a b. false };
}

revoke_role_once_example :
    let s' = invoke (revoke_role (at 1000) 10 31) rostered in
    (s'.user_role 31 Role.company ≡ true)
    × (primary_role 31 s' ≡ Role.unassigned)
    × ((invoke (revoke_role (at 2000) 10 31) s').user_role ≡ s'.user_role)
unfolding ◌>>=◌ invoke revoke_role log_entry
revoke_role_once_example = revoke_role_once (at 1000) (at 2000) 10 10 31 31 Role.company rostered tt

change-Audited_example :
    Ends
      (λ s'.
        (true ≡ true)
        × (true ≡ true)
        × (running.is_paused ≡ false)
        × (s'.audit ≡ recorded (at 1000) (Change.take_role 10 31) rostered.audit))
      (change (at 1000) (Change.take_role 10 31) rostered)
change-Audited_example = change-Audited (at 1000) (Change.take_role 10 31) rostered

abbrev early : AuditLogEntry
early = record {
  entry_id = 0;
  event_type = AuditEventType.role_assigned;
  actor = 10;
  target = 31;
  timestamp = 500;
}

abbrev logged : Store ℤ
logged = record running {
  audit = record { entries = λ k. if k == 0 then some early else none; entry_count = 1 };
}

log_entry-appends_example :
    let e = new_entry (at 1000) AuditEventType.role_revoked 10 31 logged.audit in
    let s' = invoke (log_entry (at 1000) AuditEventType.role_revoked 10 31) logged in
    (query_audit_history 400 900 s'.audit ≡ early ∷ [])
    × (query_audit_history_for_target 31 s'.audit ≡ early ∷ e ∷ [])
    × (query_audit_history_by_actor 31 s'.audit ≡ [])
unfolding ◌>>=◌ invoke log_entry query_audit_history query_audit_history_for_target
    query_audit_history_by_actor
log_entry-appends_example =
    log_entry-appends (at 1000) AuditEventType.role_revoked 10 31 logged 400 900 31 (omega arith)

query_audit_history-cleanup_example :
    query_audit_history 400 900 (invoke (cleanup_audit_logs (at 1000) 21 600) logged).audit ≡ []
unfolding ◌>>=◌ invoke cleanup_audit_logs query_audit_history
query_audit_history-cleanup_example = query_audit_history-cleanup (at 1000) 21 600 400 900 logged tt

running-Configured : Configured running
running-Configured = record {
  bounded = λ c q. ground arith;
  fair = λ f q. ground arith;
  sane = λ c q. ground arith;
}

abbrev orders : List (Env × Order)
orders =
    (at 1000, Order.charge 10 250 77)
    ∷ (at 1001, Order.tune 10 CircuitBreakerPreset.strict_preset)
    ∷ (at 1002, Order.ration 10 20 3600)
    ∷ []

obey_all-Configured_example : Configured (obey_all host 100 orders running)
obey_all-Configured_example = obey_all-Configured host 100 orders running running-Configured
