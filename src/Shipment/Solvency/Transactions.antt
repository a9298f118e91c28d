-- ===== src/Shipment/Solvency/Transactions.antt =====
-- The accounts over any history of the contract.
use navin_contracts.Shipment.Audit.{cleanup_audit_logs}
use navin_contracts.Shipment.Solvency.Administration.{
  cleanup_audit_logs-Beside, accept_admin_transfer-Beside, obey-Beside, change-Beside,
}
use navin_contracts.Shipment.Roles.{accept_admin_transfer}
use navin_contracts.Shipment.Administration.Configured.{obey, Order}
use navin_contracts.Shipment.Roles.Audited.{change, Change}
use navin_contracts.Shipment.Solvency.Progress.{
  record_milestone-Turns, confirm_partial_delivery-Turns, confirm_delivery-Turns,
  update_status-Turns, resolve_dispute-Turns, release_milestone_payment-Turns, check_deadline-Turns,
}
use navin_contracts.Shipment.Solvency.Handlers.{
  raise_dispute-Turns, force_cancel_shipment-Turns, cancel_shipment-Turns, refund_locked-Turns,
  release_locked-Turns,
}
use navin_contracts.Shipment.Solvency.Deposits.{deposit_locked-Turns}
use navin_contracts.Shipment.Solvency.Admins.{
  init_multisig-Beside, transfer_admin-Beside, add_shipment_dependency-Beside,
  execute_proposal-Keeps, approve_action-Keeps, propose_action_with_salt-Beside,
  propose_action-Beside,
}
use navin_contracts.Shipment.Keeps.{Keeps-with_reentrancy_lock}
use navin_contracts.Shipment.Solvency.Steps.{IsSolvent-IsStable, beside_parts}
use navin_contracts.Host.Turns.{Turns-Keeps, Turns-trap_unless, Turns-step, Keeps-Turns}
use navin_contracts.Shipment.Solvency.Creation.{create_shipments_batch-Keeps, create_shipment-Keeps}
use navin_contracts.Host.Keeps.{Keeps, committed-Keeps}
use navin_contracts.Host.{require_auth, Env, invoke}
use navin_contracts.Shipment.Guards.{require_role}
use navin_contracts.Shipment.Escrow.{refund_escrow, release_escrow, deposit_escrow}
use navin_contracts.Shipment.Solvency.{IsSolvent, IsLawful}
use navin_contracts.Shipment.Council.{
  init_multisig, transfer_admin, execute_proposal, approve_action, propose_action_with_salt,
  propose_action,
}
use navin_contracts.Shipment.Dependencies.{add_shipment_dependency}
use navin_contracts.Shipment.Creation.{create_shipments_batch, create_shipment}
use navin_contracts.Shipment.Delivery.{check_deadline}
use navin_contracts.Shipment.Store.{Store, TokenApi}
use navin_contracts.Shipment.Data.{HostApi, AdminAction, ShipmentInput}
use navin_contracts.Shipment.Calls.{Request, handle}
use navin_contracts.Prelude.{ℕ, List, ◌≡◌, false, ◌≤ℤ◌, arith, ℤ, true, Bool, refl, int_laws}

-- What anyone may ask of the contract, besides the calls that `Request` lists.
pub data Transaction : Type 0 where
  request : Request → Transaction
  expire : ℕ → Transaction
  create : ℕ → ShipmentInput → Transaction
  create_batch : ℕ → List ShipmentInput → Transaction
  propose : ℕ → AdminAction → Transaction
  propose_with_salt : ℕ → AdminAction → ℕ → Transaction
  approve : ℕ → ℕ → Transaction
  execute_proposed : ℕ → Transaction
  depend : ℕ → ℕ → ℕ → Transaction
  hand_over : ℕ → ℕ → Transaction
  set_up_admins : ℕ → List ℕ → ℕ → Transaction
  change_role : Change → Transaction
  obey_order : Order → Transaction
  accept_admin : ℕ → Transaction
  clean_up : ℕ → ℕ → Transaction

module _ {T : Type 0} (api : TokenApi T) (self : ℕ) (host : HostApi) (fuel : ℕ) where
  unfoldable pub transact : Env → Transaction → Store T → Store T
  unfolding handle invoke
  transact env (Transaction.request r) s = invoke (handle api self host env r) s
  transact env (Transaction.expire i) s = invoke (check_deadline api self env i) s
  transact env (Transaction.create a input) s = invoke (create_shipment host env a input) s
  transact env (Transaction.create_batch a inputs) s =
      invoke (create_shipments_batch host env a inputs) s
  transact env (Transaction.propose a action) s = invoke (propose_action host env a action) s
  transact env (Transaction.propose_with_salt a action salt) s =
      invoke (propose_action_with_salt host env a action salt) s
  transact env (Transaction.approve a n) s = invoke (approve_action api self env a n) s
  transact env (Transaction.execute_proposed n) s = invoke (execute_proposal api self env n) s
  transact env (Transaction.depend a i p) s = invoke (add_shipment_dependency fuel env a i p) s
  transact env (Transaction.hand_over a b) s = invoke (transfer_admin env a b) s
  transact env (Transaction.set_up_admins a admins n) s = invoke (init_multisig env a admins n) s
  transact env (Transaction.change_role x) s = invoke (change env x) s
  transact env (Transaction.obey_order o) s = invoke (obey host self env o) s
  transact env (Transaction.accept_admin a) s = invoke (accept_admin_transfer env a) s
  transact env (Transaction.clean_up a before) s = invoke (cleanup_audit_logs env a before) s

  -- One step of a history: a call that the contract itself has not signed, or a change of the token
  -- from elsewhere that takes nothing from the contract.
  pub data Step : Store T → Store T → Type 0 where
    called :
        (env : Env) (t : Transaction) (s : Store T)
        → env.authorized self ≡ false
        → Step s (transact env t s)
    elsewhere :
        (s : Store T) (t : T)
        → api.balance self s.token ≤ℤ api.balance self t
        → Step s (record s { token = t })

  pub data Steps : Store T → Store T → Type 0 where
    start : (s : Store T) → Steps s s
    next : (s s' s'' : Store T) → Steps s s' → Step s' s'' → Steps s s''

module _ {T : Type 0} (api : TokenApi T) (self : ℕ) (host : HostApi) (fuel : ℕ)
    (law : IsLawful api) where
  not_self :
      (env : Env) (a : ℕ) → env.authorized self ≡ false → env.authorized a ≡ true → ¬ (a ≡ self)
  not_self env a n y e = ground arith

  unlocked-IsSolvent :
      (s : Store T) (b : Bool)
      → IsSolvent api self s
      → IsSolvent api self (record s { reentrancy_lock = b })
  unlocked-IsSolvent s b h = (IsSolvent-IsStable api self).stays s _ refl h

  deposit_escrow-Keeps :
      (env : Env) (a i : ℕ) (v : ℤ)
      → env.authorized self ≡ false
      → Keeps (IsSolvent api self) (deposit_escrow api self env a i v)
  unfolding deposit_escrow require_role require_auth
  deposit_escrow-Keeps env a i v n = Keeps-Turns _ (
      Turns-step _ _ (search beside_parts) (λ u. Turns-step _ _ (search beside_parts) (λ u.
        Turns-trap_unless _ _ (λ y. Turns-step _ _ (search beside_parts) (λ u.
          Turns-Keeps _ (λ s h. h)
            (Keeps-with_reentrancy_lock _ unlocked-IsSolvent (
              Keeps-Turns _
                (deposit_locked-Turns api self law env a i v (not_self env a n y)))))))))

  handle-Keeps :
      (env : Env) (r : Request)
      → env.authorized self ≡ false
      → Keeps (IsSolvent api self) (handle api self host env r)
  unfolding handle release_escrow refund_escrow
  handle-Keeps env (Request.deposit a i v) n = deposit_escrow-Keeps env a i v n
  handle-Keeps env (Request.release a i) n =
      search
        (
          unlocked-IsSolvent, Keeps-with_reentrancy_lock, Keeps-Turns, release_locked-Turns,
          beside_parts,
        )
        depth 80 fits 5000
  handle-Keeps env (Request.refund a i) n =
      search
        (
          unlocked-IsSolvent, Keeps-with_reentrancy_lock, Keeps-Turns, refund_locked-Turns,
          beside_parts,
        )
        depth 80 fits 5000
  handle-Keeps env (Request.pay_milestone a i k) n =
      Keeps-Turns _ (release_milestone_payment-Turns api self law env a i k)
  handle-Keeps env (Request.cancel a i h) n =
      Keeps-Turns _ (cancel_shipment-Turns api self law env a i h)
  handle-Keeps env (Request.force_cancel a i h) n =
      Keeps-Turns _ (force_cancel_shipment-Turns api self law env a i h)
  handle-Keeps env (Request.dispute a i h) n =
      Keeps-Turns _ (raise_dispute-Turns api self law env a i h)
  handle-Keeps env (Request.resolve a i r h) n =
      Keeps-Turns _ (resolve_dispute-Turns api self law host.resolution_hash env a i r h)
  handle-Keeps env (Request.update a i st h) n =
      Keeps-Turns _ (update_status-Turns api self law host env a i st h)
  handle-Keeps env (Request.confirm a i h) n =
      Keeps-Turns _ (confirm_delivery-Turns api self law env a i h)
  handle-Keeps env (Request.confirm_partial a i h pct) n =
      Keeps-Turns _ (confirm_partial_delivery-Turns api self law env a i h pct)
  handle-Keeps env (Request.checkpoint a i name h) n =
      Keeps-Turns _ (record_milestone-Turns api self law host env a i name h)

  transact-IsSolvent :
      (env : Env) (t : Transaction) (s : Store T)
      → env.authorized self ≡ false
      → IsSolvent api self s
      → IsSolvent api self (transact api self host fuel env t s)
  unfolding transact
  transact-IsSolvent env (Transaction.request r) s n h =
      committed-Keeps _ s (handle-Keeps env r n) h
  transact-IsSolvent env (Transaction.expire i) s n h =
      committed-Keeps _ s (Keeps-Turns _ (check_deadline-Turns api self law env i)) h
  transact-IsSolvent env (Transaction.create a input) s n h =
      committed-Keeps _ s (create_shipment-Keeps api self host env a input) h
  transact-IsSolvent env (Transaction.create_batch a inputs) s n h =
      committed-Keeps _ s (create_shipments_batch-Keeps api self host env a inputs) h
  transact-IsSolvent env (Transaction.propose a action) s n h =
      committed-Keeps _ s (propose_action-Beside (IsSolvent-IsStable api self) host env a action) h
  transact-IsSolvent env (Transaction.propose_with_salt a action salt) s n h =
      committed-Keeps _ s
        (propose_action_with_salt-Beside (IsSolvent-IsStable api self) host env a action salt) h
  transact-IsSolvent env (Transaction.approve a k) s n h =
      committed-Keeps _ s (approve_action-Keeps api self law env a k) h
  transact-IsSolvent env (Transaction.execute_proposed k) s n h =
      committed-Keeps _ s (execute_proposal-Keeps api self law env k) h
  transact-IsSolvent env (Transaction.depend a i p) s n h =
      committed-Keeps _ s
        (add_shipment_dependency-Beside (IsSolvent-IsStable api self) fuel env a i p) h
  transact-IsSolvent env (Transaction.hand_over a b) s n h =
      committed-Keeps _ s (transfer_admin-Beside (IsSolvent-IsStable api self) env a b) h
  transact-IsSolvent env (Transaction.set_up_admins a admins k) s n h =
      committed-Keeps _ s (init_multisig-Beside (IsSolvent-IsStable api self) env a admins k) h
  transact-IsSolvent env (Transaction.change_role x) s n h =
      committed-Keeps _ s (change-Beside (IsSolvent-IsStable api self) env x) h
  transact-IsSolvent env (Transaction.obey_order o) s n h =
      committed-Keeps _ s (obey-Beside (IsSolvent-IsStable api self) host self env o) h
  transact-IsSolvent env (Transaction.accept_admin a) s n h =
      committed-Keeps _ s (accept_admin_transfer-Beside (IsSolvent-IsStable api self) env a) h
  transact-IsSolvent env (Transaction.clean_up a before) s n h =
      committed-Keeps _ s (cleanup_audit_logs-Beside (IsSolvent-IsStable api self) env a before) h

  Step-IsSolvent :
      {s s' : Store T} → Step api self host fuel s s' → IsSolvent api self s → IsSolvent api self s'
  Step-IsSolvent (Step.called env t s n) h = transact-IsSolvent env t s n h
  Step-IsSolvent (Step.elsewhere s t p) h = record {
    sound = h.sound;
    archived = h.archived;
    covered = omega (int_laws, h.covered, p);
  }

  -- The contract never owes more than it has: after any history of the calls that `Transaction`
  -- lists, none of them signed by the contract itself, and of changes of the token from elsewhere
  -- that take nothing from the contract, a contract that was solvent still is: its balance in the
  -- token covers the escrow of all its shipments together, none of which is below zero. The token's
  -- transfer moves the amount and nothing else.
  pub Steps-IsSolvent :
      {s s' : Store T}
      → Steps api self host fuel s s'
      → IsSolvent api self s
      → IsSolvent api self s'
  Steps-IsSolvent (Steps.start s) h = h
  Steps-IsSolvent (Steps.next s m s' d k) h = Step-IsSolvent k (Steps-IsSolvent d h)
