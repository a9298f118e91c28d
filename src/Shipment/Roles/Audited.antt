-- ===== src/Shipment/Roles/Audited.antt =====
-- Who may change a role, and which changes the audit log records.
use navin_contracts.Shipment.Roles.{
  add_operator, add_guardian, add_carrier, add_company, remove_carrier_from_whitelist,
  add_carrier_to_whitelist, reactivate_role, suspend_role, revoke_role, reactivate_company,
  suspend_company, reactivate_carrier, suspend_carrier, add_official, add_member,
}
use navin_contracts.Shipment.Audit.{log_entry, new_entry, store_audit_entry}
use navin_contracts.Shipment.Data.{AuditLog, Role, AuditEventType}
use navin_contracts.Host.{Env, ◌>>=◌}
use navin_contracts.Host.Keeps.{Ends}
use navin_contracts.Shipment.Store.{Store, Call}
use navin_contracts.Prelude.{ℕ, none, some, Bool, true, not, ◌==◌, ◌&&◌, ◌||◌, ◌≡◌, arith, false}

-- A call of one of the handlers of roles. The first argument is the caller, the second the address
-- that the change is about.
pub data Change : Type 0 where
  enlist_company enlist_carrier appoint_guardian appoint_operator : ℕ → ℕ → Change
  hold_carrier free_carrier hold_company free_company : ℕ → ℕ → Change
  take_role hold_role free_role list_carrier unlist_carrier : ℕ → ℕ → Change

abbrev pub caller : Change → ℕ
caller (Change.enlist_company a b) = a
caller (Change.enlist_carrier a b) = a
caller (Change.appoint_guardian a b) = a
caller (Change.appoint_operator a b) = a
caller (Change.hold_carrier a b) = a
caller (Change.free_carrier a b) = a
caller (Change.hold_company a b) = a
caller (Change.free_company a b) = a
caller (Change.take_role a b) = a
caller (Change.hold_role a b) = a
caller (Change.free_role a b) = a
caller (Change.list_carrier a b) = a
caller (Change.unlist_carrier a b) = a

-- The entry that the audit log gets, if it gets one.
abbrev pub recorded : Env → Change → AuditLog → AuditLog
recorded env (Change.enlist_company a b) log =
    store_audit_entry (new_entry env AuditEventType.role_assigned a b log) log
recorded env (Change.enlist_carrier a b) log =
    store_audit_entry (new_entry env AuditEventType.role_assigned a b log) log
recorded env (Change.appoint_guardian a b) log =
    store_audit_entry (new_entry env AuditEventType.role_assigned a b log) log
recorded env (Change.appoint_operator a b) log =
    store_audit_entry (new_entry env AuditEventType.role_assigned a b log) log
recorded env (Change.hold_carrier a b) log = log
recorded env (Change.free_carrier a b) log = log
recorded env (Change.hold_company a b) log = log
recorded env (Change.free_company a b) log = log
recorded env (Change.take_role a b) log =
    store_audit_entry (new_entry env AuditEventType.role_revoked a b log) log
recorded env (Change.hold_role a b) log =
    store_audit_entry (new_entry env AuditEventType.role_suspended a b log) log
recorded env (Change.free_role a b) log =
    store_audit_entry (new_entry env AuditEventType.role_reactivated a b log) log
recorded env (Change.list_carrier a b) log =
    store_audit_entry (new_entry env AuditEventType.carrier_whitelisted a b log) log
recorded env (Change.unlist_carrier a b) log = log

module _ {T : Type 0} where
  unfoldable pub change : Env → Change → Call T (Unit {0})
  unfolding add_member add_official suspend_carrier reactivate_carrier suspend_company
      reactivate_company revoke_role suspend_role reactivate_role add_carrier_to_whitelist
      remove_carrier_from_whitelist log_entry
  change env (Change.enlist_company a b) = add_company env a b
  change env (Change.enlist_carrier a b) = add_carrier env a b
  change env (Change.appoint_guardian a b) = add_guardian env a b
  change env (Change.appoint_operator a b) = add_operator env a b
  change env (Change.hold_carrier a b) = suspend_carrier env a b
  change env (Change.free_carrier a b) = reactivate_carrier env a b
  change env (Change.hold_company a b) = suspend_company env a b
  change env (Change.free_company a b) = reactivate_company env a b
  change env (Change.take_role a b) = revoke_role env a b
  change env (Change.hold_role a b) = suspend_role env a b
  change env (Change.free_role a b) = reactivate_role env a b
  change env (Change.list_carrier a b) = add_carrier_to_whitelist env a b
  change env (Change.unlist_carrier a b) = remove_carrier_from_whitelist env a b

  -- The contract's admin; the admin or an operator that is not suspended; a company in good standing.
  abbrev is_head : ℕ → Store T → Bool
  is_head a s = elim s.admin [ none ↦ false | some b ↦ b == a ]

  abbrev is_staff : ℕ → Store T → Bool
  is_staff a s =
      is_head a s || (s.user_role a Role.operator && not (s.role_suspended a Role.operator))

  abbrev is_firm : ℕ → Store T → Bool
  is_firm a s =
      s.user_role a Role.company
      && (not (s.role_suspended a Role.company) && not (s.company_suspended a))

  abbrev pub may_change : Change → Store T → Bool
  may_change (Change.enlist_company a b) = is_staff a
  may_change (Change.enlist_carrier a b) = is_staff a
  may_change (Change.appoint_guardian a b) = is_head a
  may_change (Change.appoint_operator a b) = is_head a
  may_change (Change.hold_carrier a b) = is_staff a
  may_change (Change.free_carrier a b) = is_staff a
  may_change (Change.hold_company a b) = is_staff a
  may_change (Change.free_company a b) = is_staff a
  may_change (Change.take_role a b) = is_head a
  may_change (Change.hold_role a b) = is_head a
  may_change (Change.free_role a b) = is_head a
  may_change (Change.list_carrier a b) = is_firm a
  may_change (Change.unlist_carrier a b) = is_firm a

-- A change that succeeds is signed by its caller, and the contract was not paused. The caller was
-- the admin or an operator that is not suspended, to add, suspend or reactivate a carrier or a
-- company; the admin, to appoint guardians and operators and to revoke, suspend or reactivate a
-- role; a company that is not suspended, to list carriers or end a listing. The audit log has one
-- new entry that names the caller and the address, but for the suspension and reactivation of a
-- carrier or a company and the end of a listing, which leave no entry.
pub change-Audited :
    {T : Type 0} (env : Env) (c : Change) (s : Store T)
    → Ends
        (λ s'.
          (env.authorized (caller c) ≡ true)
          × (may_change c s ≡ true)
          × (s.is_paused ≡ false)
          × (s'.audit ≡ recorded env c s.audit))
        (change env c s)
unfolding ◌>>=◌ change
change-Audited env (Change.enlist_company a b) s = ground arith
change-Audited env (Change.enlist_carrier a b) s = ground arith
change-Audited env (Change.appoint_guardian a b) s = ground arith
change-Audited env (Change.appoint_operator a b) s = ground arith
change-Audited env (Change.hold_carrier a b) s = ground arith
change-Audited env (Change.free_carrier a b) s = ground arith
change-Audited env (Change.hold_company a b) s = ground arith
change-Audited env (Change.free_company a b) s = ground arith
change-Audited env (Change.take_role a b) s = ground arith
change-Audited env (Change.hold_role a b) s = ground arith
change-Audited env (Change.free_role a b) s = ground arith
change-Audited env (Change.list_carrier a b) s = ground arith
change-Audited env (Change.unlist_carrier a b) s = ground arith
