-- ===== src/Shipment/Roles.antt =====
-- Roles, suspension and the whitelist of carriers, and the acceptance of a new admin: the handlers
-- of contracts/shipment/src/lib.rs that administer who may do what.
pub mod Audited
pub mod Revoked
use navin_contracts.Shipment.Audit.{
  log_admin_transferred, log_carrier_whitelisted, log_role_reactivated, log_role_suspended,
  log_role_revoked, log_role_assigned,
}
use navin_contracts.Host.{Env, ◌>>=◌, ◌>>◌, gets, modify, fail_if, ok_or, require_auth, pure}
use navin_contracts.Shipment.Errors.{NavinError}
use navin_contracts.Shipment.Data.{Role, RoleChangeAction, Event}
use navin_contracts.Shipment.Store.{Store, Call, publish, set_role, role_eq}
use navin_contracts.Shipment.Guards.{
  get_admin, require_initialized, require_not_paused, require_role,
}
use navin_contracts.Shipment.Council.{set_company_role}
use navin_contracts.Prelude.{
  ℕ, none, some, Bool, true, false, not, ◌==◌, ◌&&◌, ◌||◌, get_or, if◌then◌else◌,
}

abbrev pub is_unassigned : Role → Bool
is_unassigned r = role_eq r Role.unassigned

module _ {T : Type 0} where
  -- `get_role(..).unwrap_or(Role::Unassigned)`
  abbrev pub primary_role : ℕ → Store T → Role
  primary_role a s = get_or (s.roster.primary_role a) Role.unassigned

  -- Of an unassigned role nothing is removed.
  abbrev pub revoke : ℕ → Role → Store T → Store T
  revoke a role s = if is_unassigned role then s else (record s {
    user_role = λ k r. if k == a && role_eq r role then false else s.user_role k r;
    roster = record s.roster {
      primary_role = λ k. if k == a then some Role.unassigned else s.roster.primary_role k;
    };
  })

  abbrev pub set_role_suspended : ℕ → Role → Bool → Store T → Store T
  set_role_suspended a role b s = record s {
    role_suspended = λ k r. if k == a && role_eq r role then b else s.role_suspended k r;
  }

  abbrev pub set_carrier_suspended : ℕ → Bool → Store T → Store T
  set_carrier_suspended a b s = record s {
    carrier_suspended = λ k. if k == a then b else s.carrier_suspended k;
  }

  abbrev pub set_company_suspended : ℕ → Bool → Store T → Store T
  set_company_suspended a b s = record s {
    company_suspended = λ k. if k == a then b else s.company_suspended k;
  }

  abbrev pub set_whitelisted : ℕ → ℕ → Bool → Store T → Store T
  set_whitelisted company carrier b s = record s {
    roster = record s.roster {
      whitelist = λ k c. if k == company && c == carrier then b else s.roster.whitelist k c;
    };
  }

  unfoldable pub require_admin_or_operator : ℕ → Call T (Unit {0})
  unfolding require_initialized
  require_admin_or_operator a = do
    require_initialized
    admin ← get_admin
    operates ← gets (λ s. s.user_role a Role.operator && not (s.role_suspended a Role.operator))
    fail_if (not (admin == a || operates)) NavinError.unauthorized

  -- `if storage::get_admin(&env) != admin { return Err(Unauthorized); }`
  abbrev pub require_admin : ℕ → Call T (Unit {0})
  require_admin admin = do a ← get_admin; fail_if (not (a == admin)) NavinError.unauthorized

  -- The first lines of each handler here but the last.
  abbrev pub open_call : Env → ℕ → Call T (Unit {0})
  open_call env caller = do require_initialized; require_not_paused; require_auth env caller

  -- The event of a role change, and its entry in the audit log.
  abbrev pub announce_change :
      Env → RoleChangeAction → (Env → ℕ → ℕ → Call T ℕ) → ℕ → ℕ → Role → Call T (Unit {0})
  announce_change env action log admin target role = do
    modify (publish (Event.role_changed action admin target role env.timestamp))
    id ← log env admin target
    pure tt

  -- `add_company` and `add_carrier`, which differ in the role.
  unfoldable pub add_member : Env → Role → ℕ → ℕ → Call T (Unit {0})
  unfolding require_initialized require_not_paused require_admin_or_operator
  add_member env role admin member = do
    open_call env admin
    require_admin_or_operator admin
    held ← gets (λ s. s.user_role member role)
    fail_if held NavinError.role_already_assigned
    modify (set_role member role)
    announce_change env RoleChangeAction.assigned log_role_assigned admin member role

  abbrev pub add_company : Env → ℕ → ℕ → Call T (Unit {0})
  add_company env = add_member env Role.company

  abbrev pub add_carrier : Env → ℕ → ℕ → Call T (Unit {0})
  add_carrier env = add_member env Role.carrier

  -- `add_guardian` and `add_operator`, which differ in the role.
  unfoldable pub add_official : Env → Role → ℕ → ℕ → Call T (Unit {0})
  unfolding require_initialized require_not_paused
  add_official env role admin official = do
    open_call env admin
    require_admin admin
    modify (set_role official role)
    announce_change env RoleChangeAction.assigned log_role_assigned admin official role

  abbrev pub add_guardian : Env → ℕ → ℕ → Call T (Unit {0})
  add_guardian env = add_official env Role.guardian

  abbrev pub add_operator : Env → ℕ → ℕ → Call T (Unit {0})
  add_operator env = add_official env Role.operator

  unfoldable pub suspend_carrier : Env → ℕ → ℕ → Call T (Unit {0})
  unfolding require_initialized require_not_paused require_admin_or_operator
  suspend_carrier env admin carrier = do
    open_call env admin
    require_admin_or_operator admin
    modify (set_carrier_suspended carrier true)
    modify (publish (Event.carrier_suspended admin carrier))

  unfoldable pub reactivate_carrier : Env → ℕ → ℕ → Call T (Unit {0})
  unfolding require_initialized require_not_paused require_admin_or_operator
  reactivate_carrier env admin carrier = do
    open_call env admin
    require_admin_or_operator admin
    modify (set_carrier_suspended carrier false)
    modify (publish (Event.carrier_reactivated admin carrier))

  -- `remove_guardian` and `remove_operator` are this, too.
  unfoldable pub revoke_role : Env → ℕ → ℕ → Call T (Unit {0})
  unfolding require_initialized require_not_paused
  revoke_role env admin target = do
    open_call env admin
    require_admin admin
    fail_if (admin == target) NavinError.cannot_self_revoke
    role ← gets (primary_role target)
    modify (revoke target role)
    modify (publish (Event.role_revoked admin target role))
    announce_change env RoleChangeAction.revoked log_role_revoked admin target role

  unfoldable pub suspend_role : Env → ℕ → ℕ → Call T (Unit {0})
  unfolding require_initialized require_not_paused
  suspend_role env admin target = do
    open_call env admin
    require_admin admin
    fail_if (admin == target) NavinError.cannot_self_revoke
    role ← gets (primary_role target)
    fail_if (is_unassigned role) NavinError.unauthorized
    modify (set_role_suspended target role true)
    announce_change env RoleChangeAction.suspended log_role_suspended admin target role

  unfoldable pub reactivate_role : Env → ℕ → ℕ → Call T (Unit {0})
  unfolding require_initialized require_not_paused
  reactivate_role env admin target = do
    open_call env admin
    require_admin admin
    role ← gets (primary_role target)
    fail_if (is_unassigned role) NavinError.unauthorized
    modify (set_role_suspended target role false)
    announce_change env RoleChangeAction.reactivated log_role_reactivated admin target role

  unfoldable pub suspend_company : Env → ℕ → ℕ → Call T (Unit {0})
  unfolding require_initialized require_not_paused require_admin_or_operator
  suspend_company env admin company = do
    open_call env admin
    require_admin_or_operator admin
    held ← gets (λ s. s.user_role company Role.company)
    fail_if (not held) NavinError.unauthorized
    modify (set_company_suspended company true)
    modify (
        publish
          (Event.role_changed RoleChangeAction.suspended admin company Role.company env.timestamp))

  unfoldable pub reactivate_company : Env → ℕ → ℕ → Call T (Unit {0})
  unfolding require_initialized require_not_paused require_admin_or_operator
  reactivate_company env admin company = do
    open_call env admin
    require_admin_or_operator admin
    modify (set_company_suspended company false)
    modify (
        publish (
          Event.role_changed RoleChangeAction.reactivated admin company Role.company env.timestamp))

  unfoldable pub add_carrier_to_whitelist : Env → ℕ → ℕ → Call T (Unit {0})
  unfolding require_initialized require_not_paused require_role
  add_carrier_to_whitelist env company carrier = do
    open_call env company
    require_role company Role.company
    listed ← gets (λ s. s.roster.whitelist company carrier)
    fail_if listed NavinError.carrier_already_whitelisted
    modify (set_whitelisted company carrier true)
    modify (publish (Event.add_wl company carrier))
    id ← log_carrier_whitelisted env company carrier
    pure tt

  unfoldable pub remove_carrier_from_whitelist : Env → ℕ → ℕ → Call T (Unit {0})
  unfolding require_initialized require_not_paused require_role
  remove_carrier_from_whitelist env company carrier = do
    open_call env company
    require_role company Role.company
    modify (set_whitelisted company carrier false)
    modify (publish (Event.rm_wl company carrier))

  unfoldable pub accept_admin_transfer : Env → ℕ → Call T (Unit {0})
  unfolding require_initialized
  accept_admin_transfer env new_admin = do
    require_initialized
    require_auth env new_admin
    o ← gets (λ s. s.council.proposed_admin)
    proposed ← ok_or o NavinError.unauthorized
    fail_if (not (proposed == new_admin)) NavinError.unauthorized
    old_admin ← get_admin
    modify (λ s. record s { admin = some new_admin })
    modify (λ s. record s { council = record s.council { proposed_admin = none } })
    modify (set_company_role new_admin)
    modify (publish (Event.admin_transferred old_admin new_admin))
    id ← log_admin_transferred env old_admin new_admin
    pure tt
