-- ===== src/Shipment/Escrow.antt =====
-- The handlers of contracts/shipment/src/lib.rs that move escrow: deposit, release, refund, payment
-- by milestone.
use navin_contracts.Host.{
  Env, ◌>>=◌, ◌>>◌, gets, modify, fail_if, ok_or, require_auth, pure, ok, err, trap,
}
use navin_contracts.Shipment.Errors.{NavinError, code}
use navin_contracts.Shipment.Status.{ShipmentStatus, status_eq}
use navin_contracts.Shipment.Data.{
  Role, Shipment, SettlementOperation, FeeConfig, Event, NotificationType,
}
use navin_contracts.Shipment.Store.{
  Call, TokenApi, get_shipment, set_escrow, add_total_escrow_volume, publish, publish_counted,
  publish_with_token, extend_shipment_ttl, saturating_suc, decrement_status_count,
  increment_status_count, decrement_active_shipment_count,
}
use navin_contracts.Shipment.Guards.{
  get_admin, require_initialized, require_not_paused, require_role, require_active_company,
  require_not_finalized, validate_positive_amount, checked_sub_i128, checked_mul_div_i128,
  persist_shipment, finalize_if_settled, is_zero,
}
use navin_contracts.Shipment.Settlement.{
  create_settlement, complete_settlement, fail_settlement, or_else, invoke_token_transfer,
  validate_token_decimals, internal_release_escrow,
}
use navin_contracts.Prelude.{
  ltb_ℤ, if◌then◌else◌, ◌==◌, ltb, ℤ, not, ℕ, true, some, Option, false, ◌||◌, pos, none,
}

-- The lock is released however the operation ends; a panic ends the call.
abbrev pub with_reentrancy_lock : {T A : Type 0} → Call T A → Call T A
with_reentrancy_lock m s =
    if s.reentrancy_lock
    then err NavinError.reentrancy_detected s
    else elim (m (record s { reentrancy_lock = true })) [
      | ok a s' ↦ ok a (record s' { reentrancy_lock = false })
      | err e s' ↦ err e (record s' { reentrancy_lock = false })
      | trap ↦ trap
    ]

-- `storage::get_shipment(..).ok_or(ShipmentNotFound)?`
abbrev pub load : {T : Type 0} → ℕ → Call T Shipment
load shipment_id = do o ← gets (get_shipment shipment_id); ok_or o NavinError.shipment_not_found

-- The shipment with a new update time and nonce.
abbrev pub touched : Env → Shipment → Shipment
touched env x = record x {
  updated_at = env.timestamp;
  integration_nonce = saturating_suc x.integration_nonce;
}

module _ {T : Type 0} (api : TokenApi T) (self : ℕ) where
  -- The platform fee of a deposit, sent on to the treasury; what is left of the amount.
  unfoldable pub collect_fee : Env → ℕ → ℤ → Option FeeConfig → Call T ℤ
  collect_fee env shipment_id amount none = pure amount
  collect_fee env shipment_id amount (some fee) =
      if ltb 0 fee.fee_bps
      then (do
        fee_amount ← checked_mul_div_i128 amount (pos fee.fee_bps) (pos 10000)
        if ltb_ℤ (pos 0) fee_amount
            then (do
              invoke_token_transfer api self env self fee.treasury fee_amount
              net ← checked_sub_i128 amount fee_amount
              modify (
                  publish_counted shipment_id
                    (Event.platform_fee_collected shipment_id fee.treasury fee_amount))
              pure net)
            else pure amount)
      else pure amount

  unfoldable pub deposit_locked : Env → ℕ → ℕ → ℤ → Call T (Unit {0})
  deposit_locked env from shipment_id amount = do
    validate_positive_amount amount
    x ← load shipment_id
    require_not_finalized x
    fail_if (not (status_eq x.status ShipmentStatus.created)) NavinError.invalid_status
    fail_if (ltb_ℤ (pos 0) x.escrow_amount) NavinError.escrow_locked
    c ← gets (λ s. s.token_contract)
    token_contract ← ok_or c NavinError.not_initialized
    validate_token_decimals api self
    settlement_id ← create_settlement env shipment_id SettlementOperation.deposit amount from self
    or_else (invoke_token_transfer api self env from self amount)
        (complete_settlement env settlement_id shipment_id)
        (λ e. fail_settlement env settlement_id shipment_id (code e))
    fee_config ← gets (λ s. s.fee_config)
    net_amount ← collect_fee env shipment_id amount fee_config
    persist_shipment
        (touched env (record x { escrow_amount = net_amount; total_escrow = net_amount }))
    modify (set_escrow shipment_id net_amount)
    add_total_escrow_volume amount
    modify (extend_shipment_ttl shipment_id)
    publish_with_token shipment_id (Event.escrow_deposited shipment_id from net_amount)

  unfoldable pub deposit_escrow : Env → ℕ → ℕ → ℤ → Call T (Unit {0})
  unfolding require_initialized require_not_paused require_role
  deposit_escrow env from shipment_id amount = do
    require_initialized
    require_not_paused
    require_auth env from
    require_role from Role.company
    with_reentrancy_lock (deposit_locked env from shipment_id amount)

  unfoldable pub release_locked : Env → ℕ → ℕ → Call T (Unit {0})
  release_locked env caller shipment_id = do
    admin ← get_admin
    x ← load shipment_id
    require_not_finalized x
    fail_if (not (caller == x.receiver || caller == admin)) NavinError.unauthorized
    fail_if (not (status_eq x.status ShipmentStatus.delivered)) NavinError.invalid_status
    fail_if (is_zero x.escrow_amount) NavinError.insufficient_funds
    x' ← internal_release_escrow api self env x x.escrow_amount
    persist_shipment (finalize_if_settled x')
    modify (publish (Event.notification x.sender NotificationType.escrow_released shipment_id 0))
    modify (publish (Event.notification x.carrier NotificationType.escrow_released shipment_id 0))

  unfoldable pub release_escrow : Env → ℕ → ℕ → Call T (Unit {0})
  unfolding require_initialized require_not_paused
  release_escrow env caller shipment_id = do
    require_initialized
    require_not_paused
    require_auth env caller
    with_reentrancy_lock (release_locked env caller shipment_id)

  unfoldable pub refund_locked : Env → ℕ → ℕ → Call T (Unit {0})
  unfolding require_active_company
  refund_locked env caller shipment_id = do
    admin ← get_admin
    x ← load shipment_id
    fail_if (not (caller == x.sender || caller == admin)) NavinError.unauthorized
    require_not_finalized x
    if caller == x.sender then require_active_company caller else pure tt
    fail_if
        (not (
          status_eq x.status ShipmentStatus.created || status_eq x.status ShipmentStatus.cancelled))
        NavinError.invalid_status
    fail_if (is_zero x.escrow_amount) NavinError.insufficient_funds
    c ← gets (λ s. s.token_contract)
    token_contract ← ok_or c NavinError.not_initialized
    settlement_id ←
        create_settlement env shipment_id SettlementOperation.refund x.escrow_amount self x.sender
    invoke_token_transfer api self env self x.sender x.escrow_amount
    complete_settlement env settlement_id shipment_id
    persist_shipment (
        finalize_if_settled
          (touched env (record x { escrow_amount = pos 0; status = ShipmentStatus.cancelled })))
    modify (decrement_status_count x.status)
    increment_status_count ShipmentStatus.cancelled
    modify (λ s.
        if status_eq x.status ShipmentStatus.cancelled
        then s
        else decrement_active_shipment_count x.sender s)
    modify (extend_shipment_ttl shipment_id)
    modify (extend_shipment_ttl shipment_id)
    publish_with_token shipment_id (Event.escrow_refunded shipment_id x.sender x.escrow_amount)

  unfoldable pub refund_escrow : Env → ℕ → ℕ → Call T (Unit {0})
  unfolding require_initialized require_not_paused
  refund_escrow env caller shipment_id = do
    require_initialized
    require_not_paused
    require_auth env caller
    with_reentrancy_lock (refund_locked env caller shipment_id)
