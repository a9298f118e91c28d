-- ===== src/Shipment/Solvency/Admins.antt =====
-- The accounts over the calls of the admins, the creation of shipments and their prerequisites.
use navin_contracts.Shipment.Solvency.Progress.{force_settle-Turns}
use navin_contracts.Host.{Env}
use navin_contracts.Host.Keeps.{Keeps}
use navin_contracts.Host.Turns.{Keeps-Turns}
use navin_contracts.Shipment.Store.{Store, TokenApi}
use navin_contracts.Shipment.Data.{HostApi, AdminAction}
use navin_contracts.Shipment.Council.{
  execute_action, execute_proposal, execute_proposal_internal, mark_executed, approve_action,
  add_approval, propose_action, propose_action_with_salt, transfer_admin, init_multisig,
}
use navin_contracts.Shipment.Dependencies.{add_shipment_dependency}
use navin_contracts.Shipment.Solvency.{IsSolvent, IsLawful}
use navin_contracts.Shipment.Solvency.Steps.{IsStable, beside_parts}
use navin_contracts.Prelude.{ℕ, List}

module _ {T : Type 0} {P : Store T → Type 0} (c : IsStable P) where
  mark_executed-Beside : (env : Env) (n : ℕ) → Keeps P (mark_executed {T = T} env n)
  unfolding mark_executed
  mark_executed-Beside env n = search beside_parts depth 80 fits 5000

  add_approval-Beside : (env : Env) (a n : ℕ) → Keeps P (add_approval {T = T} env a n)
  unfolding add_approval
  add_approval-Beside env a n = search beside_parts depth 80 fits 5000

  pub propose_action-Beside :
      (host : HostApi) (env : Env) (a : ℕ) (action : AdminAction)
      → Keeps P (propose_action {T = T} host env a action)
  unfolding propose_action
  propose_action-Beside host env a action = search beside_parts depth 80 fits 5000

  pub propose_action_with_salt-Beside :
      (host : HostApi) (env : Env) (a : ℕ) (action : AdminAction) (salt : ℕ)
      → Keeps P (propose_action_with_salt {T = T} host env a action salt)
  unfolding propose_action_with_salt
  propose_action_with_salt-Beside host env a action salt =
      search (propose_action-Beside, beside_parts) depth 80 fits 5000

  pub transfer_admin-Beside : (env : Env) (a b : ℕ) → Keeps P (transfer_admin {T = T} env a b)
  unfolding transfer_admin
  transfer_admin-Beside env a b = search beside_parts depth 80 fits 5000

  pub init_multisig-Beside :
      (env : Env) (a : ℕ) (admins : List ℕ) (n : ℕ) → Keeps P (init_multisig {T = T} env a admins n)
  unfolding init_multisig
  init_multisig-Beside env a admins n = search beside_parts depth 80 fits 5000

  pub add_shipment_dependency-Beside :
      (fuel : ℕ) (env : Env) (a i p : ℕ) → Keeps P (add_shipment_dependency {T = T} fuel env a i p)
  unfolding add_shipment_dependency
  add_shipment_dependency-Beside fuel env a i p = search beside_parts depth 80 fits 5000

module _ {T : Type 0} (api : TokenApi T) (self : ℕ) (law : IsLawful api) where
  execute_action-Keeps :
      (env : Env) (a : ℕ) (action : AdminAction)
      → Keeps (IsSolvent api self) (execute_action api self env a action)
  unfolding execute_action
  execute_action-Keeps env a (AdminAction.upgrade h) = search beside_parts depth 80 fits 5000
  execute_action-Keeps env a (AdminAction.transfer_admin b) = search beside_parts depth 80 fits 5000
  execute_action-Keeps env a (AdminAction.force_release i) =
      Keeps-Turns _ (force_settle-Turns api self law env i _ _ _)
  execute_action-Keeps env a (AdminAction.force_refund i) =
      Keeps-Turns _ (force_settle-Turns api self law env i _ _ _)

  execute_proposal_internal-Keeps :
      (env : Env) (n : ℕ) → Keeps (IsSolvent api self) (execute_proposal_internal api self env n)
  unfolding execute_proposal_internal
  execute_proposal_internal-Keeps env n =
      search (mark_executed-Beside, execute_action-Keeps, beside_parts) depth 80 fits 5000

  pub execute_proposal-Keeps :
      (env : Env) (n : ℕ) → Keeps (IsSolvent api self) (execute_proposal api self env n)
  unfolding execute_proposal
  execute_proposal-Keeps env n =
      search (execute_proposal_internal-Keeps, beside_parts) depth 80 fits 5000

  pub approve_action-Keeps :
      (env : Env) (a n : ℕ) → Keeps (IsSolvent api self) (approve_action api self env a n)
  unfolding approve_action
  approve_action-Keeps env a n =
      search (add_approval-Beside, execute_proposal_internal-Keeps, beside_parts) depth 80 fits 5000
