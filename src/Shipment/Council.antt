-- ===== src/Shipment/Council.antt =====
-- The multi-signature admins: `transfer_admin`, `init_multisig`, `propose_action`,
-- `propose_action_with_salt`, `approve_action` and `execute_proposal` of
-- contracts/shipment/src/lib.rs.
pub mod Execution
pub mod Marks
pub mod Salts
use navin_contracts.Shipment.Store.{
  set_role, Call, Store, TokenApi, publish, publish_with_token, increment_status_count,
  decrement_status_count, decrement_active_shipment_count,
}
use navin_contracts.Host.{
  Env, ◌>>=◌, ◌>>◌, gets, modify, fail_if, ok_or, require_auth, pure, trap_unless,
}
use navin_contracts.Shipment.Errors.{NavinError}
use navin_contracts.Shipment.Status.{ShipmentStatus}
use navin_contracts.Shipment.Data.{Shipment, HostApi, Event, Role, AdminAction, Proposal}
use navin_contracts.Shipment.Guards.{
  get_admin, require_initialized, persist_shipment, finalize_if_settled, is_terminal_settled,
}
use navin_contracts.Shipment.Settlement.{invoke_token_transfer}
use navin_contracts.Shipment.Escrow.{load, touched}
use navin_contracts.Shipment.Milestones.{contains, pushed}
use navin_contracts.Shipment.Progress.{get_contract_config}
use navin_contracts.Prelude.{
  ℕ, ℤ, pos, List, [], ◌∷◌, Option, none, some, Bool, true, false, not, ◌||◌, ◌==◌, ltb, leb, ltb_ℤ,
  ◌+◌, ◌^◌, if◌then◌else◌, get_or, length,
}

-- Whether a list of addresses names one twice.
unfoldable pub repeats : List ℕ → Bool
repeats [] = false
repeats (a ∷ more) = let later = repeats more in if contains more a then true else later

-- An upgrade to the hash of all zeros is refused.
abbrev pub is_zero_upgrade : AdminAction → Bool
is_zero_upgrade (AdminAction.upgrade hash) = hash == 0
is_zero_upgrade (AdminAction.transfer_admin a) = false
is_zero_upgrade (AdminAction.force_release id) = false
is_zero_upgrade (AdminAction.force_refund id) = false

module _ {T : Type 0} where
  abbrev pub is_admin : ℕ → Store T → Bool
  is_admin a s = contains (get_or s.council.admin_list []) a

  -- `get_multisig_threshold(env).unwrap_or(2)`
  abbrev pub get_threshold : Store T → ℕ
  get_threshold s = get_or s.council.threshold 2

  abbrev pub set_proposal : Proposal → Store T → Store T
  set_proposal p s = record s {
    council = record s.council {
      proposals = λ k. if k == p.id then some p else s.council.proposals k;
    };
  }

  abbrev pub set_proposal_digest : ℕ → ℕ → Store T → Store T
  set_proposal_digest id digest s = record s {
    council = record s.council {
      digests = λ k. if k == id then some digest else s.council.digests k;
    };
  }

  abbrev pub set_proposal_counter : ℕ → Store T → Store T
  set_proposal_counter n s = record s { council = record s.council { proposal_counter = n } }

  abbrev pub set_proposal_salt_used : ℕ → Store T → Store T
  set_proposal_salt_used salt s = record s {
    council = record s.council {
      used_salts = λ k. if k == salt then true else s.council.used_salts k;
    };
  }

  abbrev pub set_version : ℕ → Store T → Store T
  set_version v s = record s { council = record s.council { version = v } }

  abbrev pub set_company_role : ℕ → Store T → Store T
  set_company_role a = set_role a Role.company

  unfoldable pub transfer_admin : Env → ℕ → ℕ → Call T (Unit {0})
  unfolding require_initialized
  transfer_admin env admin new_admin = do
    require_initialized
    require_auth env admin
    a ← get_admin
    fail_if (not (a == admin)) NavinError.unauthorized
    modify (λ s. record s { council = record s.council { proposed_admin = some new_admin } })
    modify (publish (Event.admin_proposed admin new_admin))

  unfoldable pub init_multisig : Env → ℕ → List ℕ → ℕ → Call T (Unit {0})
  unfolding require_initialized repeats
  init_multisig env admin admins threshold = do
    require_initialized
    require_auth env admin
    a ← get_admin
    fail_if (not (a == admin)) NavinError.unauthorized
    config ← gets get_contract_config
    fail_if
        (ltb (length admins) config.multisig_min_admins
          || ltb config.multisig_max_admins (length admins))
        NavinError.invalid_multi_sig_config
    fail_if (repeats admins) NavinError.invalid_config
    fail_if (threshold == 0) NavinError.invalid_multi_sig_config
    fail_if (ltb (length admins) threshold) NavinError.invalid_config
    modify (λ s. record s {
      council = record s.council {
        admin_list = some admins;
        threshold = some threshold;
        proposal_counter = 0;
      };
    })
    modify (publish (Event.multisig_initialized (length admins) threshold))

  -- `now + proposal_expiry_seconds` panics past u64::MAX.
  unfoldable pub propose_action : HostApi → Env → ℕ → AdminAction → Call T ℕ
  unfolding require_initialized
  propose_action host env proposer action = do
    require_initialized
    require_auth env proposer
    listed ← gets (is_admin proposer)
    fail_if (not listed) NavinError.not_an_admin
    fail_if (is_zero_upgrade action) NavinError.invalid_hash
    n ← gets (λ s. s.council.proposal_counter)
    fail_if (not (ltb (n + 1) (2 ^ 64))) NavinError.counter_overflow
    config ← gets get_contract_config
    fail_if (config.proposal_expiry_seconds == 0) NavinError.invalid_config
    trap_unless (ltb (env.timestamp + config.proposal_expiry_seconds) (2 ^ 64))
    modify (
        set_proposal (record {
          id = n + 1;
          proposer = proposer;
          action = action;
          approvals = proposer ∷ [];
          created_at = env.timestamp;
          expires_at = env.timestamp + config.proposal_expiry_seconds;
          executed = false;
        }))
    modify (set_proposal_counter (n + 1))
    modify (set_proposal_digest (n + 1) (host.action_digest (n + 1) action))
    modify
        (publish (Event.proposal_digest (n + 1) (host.action_digest (n + 1) action) env.timestamp))
    pure (n + 1)

  unfoldable pub propose_action_with_salt : HostApi → Env → ℕ → AdminAction → ℕ → Call T ℕ
  unfolding require_initialized propose_action
  propose_action_with_salt host env proposer action salt = do
    require_initialized
    listed ← gets (is_admin proposer)
    fail_if (not listed) NavinError.not_an_admin
    used ← gets (λ s. s.council.used_salts salt)
    fail_if used NavinError.proposal_salt_reused
    modify (set_proposal_salt_used salt)
    propose_action host env proposer action

  -- The proposal, if it can still be acted on.
  abbrev pub open_proposal : Env → ℕ → Call T Proposal
  open_proposal env proposal_id = do
    o ← gets (λ s. s.council.proposals proposal_id)
    p ← ok_or o NavinError.proposal_not_found
    fail_if (ltb p.expires_at env.timestamp) NavinError.proposal_expired
    fail_if p.executed NavinError.proposal_already_executed
    pure p

  -- `approve_action` up to the new approval; the proposal with it.
  unfoldable pub add_approval : Env → ℕ → ℕ → Call T Proposal
  unfolding require_initialized
  add_approval env approver proposal_id = do
    require_initialized
    require_auth env approver
    listed ← gets (is_admin approver)
    fail_if (not listed) NavinError.not_an_admin
    p ← open_proposal env proposal_id
    fail_if (contains p.approvals approver) NavinError.already_approved
    let p' = record p { approvals = pushed p.approvals approver }
    modify (set_proposal p')
    modify (publish (Event.action_approved proposal_id approver (length p'.approvals)))
    pure p'

  -- `execute_proposal_internal` up to the mark, which is set before the action.
  unfoldable pub mark_executed : Env → ℕ → Call T Proposal
  mark_executed env proposal_id = do
    p ← open_proposal env proposal_id
    threshold ← gets get_threshold
    fail_if (ltb (length p.approvals) threshold) NavinError.insufficient_approvals
    modify (set_proposal (record p { executed = true }))
    pure p

module _ {T : Type 0} (api : TokenApi T) (self : ℕ) where
  -- The token is asked only where its address is known.
  abbrev pub pay_if_known : Env → ℕ → ℤ → Option ℕ → Call T (Unit {0})
  pay_if_known env to amount none = pure tt
  pay_if_known env to amount (some token_contract) =
      invoke_token_transfer api self env self to amount

  -- `ForceRelease` and `ForceRefund`, which differ in the receiver, the status and the event.
  unfoldable pub force_settle :
      Env → ℕ → ShipmentStatus → (Shipment → ℕ) → (Shipment → Event) → Call T (Unit {0})
  force_settle env shipment_id status receiver_of event = do
    x ← load shipment_id
    fail_if (is_terminal_settled x.status) NavinError.shipment_already_completed
    x' ←
        (if ltb_ℤ (pos 0) x.escrow_amount
          then (do
            c ← gets (λ s. s.token_contract)
            pay_if_known env (receiver_of x) x.escrow_amount c
            publish_with_token shipment_id (event x)
            pure (record x { escrow_amount = pos 0 }))
          else pure x)
    modify (decrement_status_count x.status)
    increment_status_count status
    modify (decrement_active_shipment_count x.sender)
    persist_shipment (finalize_if_settled (touched env (record x' { status = status })))

  unfoldable pub execute_action : Env → ℕ → AdminAction → Call T (Unit {0})
  unfolding force_settle
  execute_action env proposer (AdminAction.upgrade wasm_hash) = do
    v ← gets (λ s. s.council.version)
    fail_if (not (ltb (v + 1) (2 ^ 32))) NavinError.counter_overflow
    modify (set_version (v + 1))
    modify (publish (Event.contract_upgraded proposer wasm_hash (v + 1)))
    modify (publish (Event.update_current_contract_wasm wasm_hash))
  execute_action env proposer (AdminAction.transfer_admin new_admin) = do
    old_admin ← get_admin
    modify (λ s. record s { admin = some new_admin })
    modify (set_company_role new_admin)
    modify (publish (Event.admin_transferred old_admin new_admin))
  execute_action env proposer (AdminAction.force_release id) =
      force_settle env id ShipmentStatus.delivered (λ x. x.carrier)
        (λ x. Event.escrow_released id x.carrier x.escrow_amount)
  execute_action env proposer (AdminAction.force_refund id) =
      force_settle env id ShipmentStatus.cancelled (λ x. x.sender)
        (λ x. Event.escrow_refunded id x.sender x.escrow_amount)

  unfoldable pub execute_proposal_internal : Env → ℕ → Call T (Unit {0})
  unfolding mark_executed execute_action
  execute_proposal_internal env proposal_id = do
    p ← mark_executed env proposal_id
    execute_action env p.proposer p.action
    modify (publish (Event.proposal_executed proposal_id))

  unfoldable pub execute_proposal : Env → ℕ → Call T (Unit {0})
  unfolding require_initialized execute_proposal_internal
  execute_proposal env proposal_id = do
    require_initialized
    execute_proposal_internal env proposal_id

  unfoldable pub approve_action : Env → ℕ → ℕ → Call T (Unit {0})
  unfolding add_approval execute_proposal_internal
  approve_action env approver proposal_id = do
    p ← add_approval env approver proposal_id
    threshold ← gets get_threshold
    if leb threshold (length p.approvals)
        then execute_proposal_internal env proposal_id
        else pure tt
