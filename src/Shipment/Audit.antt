-- ===== src/Shipment/Audit.antt =====
-- The audit log: contracts/shipment/src/audit.rs.
pub mod History
use navin_contracts.Host.{Env, ◌>>=◌, ◌>>◌, gets, modify, fail_if, require_auth, pure}
use navin_contracts.Shipment.Errors.{NavinError}
use navin_contracts.Shipment.Data.{AuditEventType, AuditLogEntry, AuditLog, Event}
use navin_contracts.Shipment.Store.{Store, Call, publish, saturating_suc}
use navin_contracts.Shipment.Council.{is_admin}
use navin_contracts.Prelude.{
  ℕ, zero, suc, List, [], ◌∷◌, ◌++◌, Option, none, some, Bool, not, ◌==◌, ◌&&◌, leb, ltb, ◌+◌,
  if◌then◌else◌,
}

-- The entry goes under its ID; the count saturates.
abbrev pub store_audit_entry : AuditLogEntry → AuditLog → AuditLog
store_audit_entry e log = record {
  entries = λ k. if k == e.entry_id then some e else log.entries k;
  entry_count = saturating_suc log.entry_count;
}

-- The loop of the three queries, over the entries below a count: those that the test selects.
unfoldable pub collect :
    (AuditLogEntry → Bool) → (ℕ → Option AuditLogEntry) → ℕ → List AuditLogEntry
collect p get zero = []
collect p get (suc n) =
    let earlier = collect p get n in
    elim (get n) [ none ↦ earlier | some e ↦ if p e then earlier ++ (e ∷ []) else earlier ]

unfoldable pub query_audit_history : ℕ → ℕ → AuditLog → List AuditLogEntry
unfolding collect
query_audit_history start_time end_time log =
    collect (λ e. leb start_time e.timestamp && leb e.timestamp end_time) log.entries
      log.entry_count

unfoldable pub query_audit_history_for_target : ℕ → AuditLog → List AuditLogEntry
unfolding collect
query_audit_history_for_target target log =
    collect (λ e. e.target == target) log.entries log.entry_count

unfoldable pub query_audit_history_by_actor : ℕ → AuditLog → List AuditLogEntry
unfolding collect
query_audit_history_by_actor actor log = collect (λ e. e.actor == actor) log.entries log.entry_count

-- The loop of `cleanup_audit_logs` over the entries below a count: the entries that it leaves, and
-- how many it removes (on u32, below the count).
unfoldable pub purge : ℕ → (ℕ → Option AuditLogEntry) → ℕ → (ℕ → Option AuditLogEntry) × ℕ
purge before get zero = (get, 0)
purge before get (suc n) =
    let done = purge before get n in
    elim (done.0 n) [
      | none ↦ done
      | some e ↦
          if ltb e.timestamp before
          then ((λ k. if k == n then none else done.0 k), done.1 + 1)
          else done
    ]

abbrev pub new_entry : Env → AuditEventType → ℕ → ℕ → AuditLog → AuditLogEntry
new_entry env event_type actor target log = record {
  entry_id = log.entry_count;
  event_type = event_type;
  actor = actor;
  target = target;
  timestamp = env.timestamp;
}

module _ {T : Type 0} where
  abbrev pub set_audit : AuditLog → Store T → Store T
  set_audit log s = record s { audit = log }

  -- What the six functions that log an entry have in common.
  unfoldable pub log_entry : Env → AuditEventType → ℕ → ℕ → Call T ℕ
  log_entry env event_type actor target = do
    log ← gets (λ s. s.audit)
    let entry = new_entry env event_type actor target log
    modify (set_audit (store_audit_entry entry log))
    modify (publish (Event.audited entry))
    pure log.entry_count

  abbrev pub log_role_assigned : Env → ℕ → ℕ → Call T ℕ
  log_role_assigned env = log_entry env AuditEventType.role_assigned

  abbrev pub log_role_revoked : Env → ℕ → ℕ → Call T ℕ
  log_role_revoked env = log_entry env AuditEventType.role_revoked

  abbrev pub log_role_suspended : Env → ℕ → ℕ → Call T ℕ
  log_role_suspended env = log_entry env AuditEventType.role_suspended

  abbrev pub log_role_reactivated : Env → ℕ → ℕ → Call T ℕ
  log_role_reactivated env = log_entry env AuditEventType.role_reactivated

  abbrev pub log_admin_transferred : Env → ℕ → ℕ → Call T ℕ
  log_admin_transferred env = log_entry env AuditEventType.admin_transferred

  abbrev pub log_carrier_whitelisted : Env → ℕ → ℕ → Call T ℕ
  log_carrier_whitelisted env = log_entry env AuditEventType.carrier_whitelisted

  unfoldable pub cleanup_audit_logs : Env → ℕ → ℕ → Call T ℕ
  unfolding purge
  cleanup_audit_logs env admin before_timestamp = do
    require_auth env admin
    listed ← gets (is_admin admin)
    fail_if (not listed) NavinError.unauthorized
    log ← gets (λ s. s.audit)
    let done = purge before_timestamp log.entries log.entry_count
    modify (set_audit (record log { entries = done.0 }))
    pure done.1
