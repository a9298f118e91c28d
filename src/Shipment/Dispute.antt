-- ===== src/Shipment/Dispute.antt =====
-- Cancellation and disputes: `cancel_shipment`, `force_cancel_shipment`, `raise_dispute` and
-- `resolve_dispute` of contracts/shipment/src/lib.rs.
use navin_contracts.Shipment.Guards.{
  check_idempotency, get_admin, require_initialized, require_not_paused, require_admin_or_guardian,
  require_active_company, require_not_finalized, validate_hash, persist_shipment,
  finalize_if_settled, is_zero,
}
use navin_contracts.Host.{Env, ◌>>=◌, ◌>>◌, gets, modify, fail_if, ok_or, require_auth, pure}
use navin_contracts.Shipment.Errors.{NavinError}
use navin_contracts.Shipment.Status.{ShipmentStatus, status_eq}
use navin_contracts.Shipment.Data.{
  Shipment, SettlementOperation, DisputeResolution, EscrowFreezeReason, Event, NotificationType,
}
use navin_contracts.Shipment.Store.{
  Call, TokenApi, set_escrow_freeze_reason, remove_escrow, publish, publish_counted,
  publish_with_token, extend_shipment_ttl, decrement_status_count, increment_status_count,
  decrement_active_shipment_count, increment_total_disputes,
}
use navin_contracts.Shipment.Settlement.{
  create_settlement, complete_settlement, invoke_token_transfer,
}
use navin_contracts.Shipment.Escrow.{load, touched}
use navin_contracts.Prelude.{ltb_ℤ, if◌then◌else◌, ◌==◌, not, ℕ, ◌||◌, pos}

module _ {T : Type 0} where
  unfoldable pub cancel_shipment : Env → ℕ → ℕ → ℕ → Call T (Unit {0})
  unfolding require_initialized require_not_paused require_active_company
  cancel_shipment env caller shipment_id reason_hash = do
    require_initialized
    require_not_paused
    require_auth env caller
    validate_hash reason_hash
    admin ← get_admin
    x ← load shipment_id
    require_not_finalized x
    fail_if (not (caller == x.sender || caller == admin)) NavinError.unauthorized
    if caller == x.sender then require_active_company caller else pure tt
    fail_if
        (status_eq x.status ShipmentStatus.delivered || status_eq x.status ShipmentStatus.disputed)
        NavinError.shipment_already_completed
    let x' = touched env (record x { status = ShipmentStatus.cancelled; escrow_amount = pos 0 })
    persist_shipment x'
    modify (decrement_status_count x.status)
    increment_status_count ShipmentStatus.cancelled
    modify (λ s.
        if status_eq x.status ShipmentStatus.cancelled
        then s
        else decrement_active_shipment_count x.sender s)
    if ltb_ℤ (pos 0) x.escrow_amount
        then (do
          modify (remove_escrow shipment_id)
          publish_with_token shipment_id
              (Event.escrow_released shipment_id x.sender x.escrow_amount))
        else pure tt
    persist_shipment (finalize_if_settled x')
    modify (remove_escrow shipment_id)
    modify (extend_shipment_ttl shipment_id)
    modify (publish_counted shipment_id (Event.shipment_cancelled shipment_id caller reason_hash))

  unfoldable pub raise_dispute : Env → ℕ → ℕ → ℕ → Call T (Unit {0})
  unfolding require_initialized require_not_paused require_active_company
  raise_dispute env caller shipment_id reason_hash = do
    require_initialized
    require_not_paused
    require_auth env caller
    validate_hash reason_hash
    x ← load shipment_id
    require_not_finalized x
    fail_if (not (caller == x.sender || (caller == x.receiver || caller == x.carrier)))
        NavinError.unauthorized
    if caller == x.sender then require_active_company caller else pure tt
    fail_if
        (status_eq x.status ShipmentStatus.cancelled || status_eq x.status ShipmentStatus.disputed)
        NavinError.shipment_already_completed
    persist_shipment (touched env (record x { status = ShipmentStatus.disputed }))
    modify (decrement_status_count x.status)
    increment_status_count ShipmentStatus.disputed
    increment_total_disputes
    modify (set_escrow_freeze_reason shipment_id EscrowFreezeReason.dispute_raised)
    modify (extend_shipment_ttl shipment_id)
    modify (publish (Event.dispute_raised shipment_id caller reason_hash))
    modify (
        publish
          (Event.escrow_frozen shipment_id EscrowFreezeReason.dispute_raised caller env.timestamp))
    modify (
        publish
          (Event.notification x.sender NotificationType.dispute_raised shipment_id reason_hash))
    modify (
        publish
          (Event.notification x.receiver NotificationType.dispute_raised shipment_id reason_hash))
    modify (
        publish
          (Event.notification x.carrier NotificationType.dispute_raised shipment_id reason_hash))

-- The three choices that `resolve_dispute` makes by the resolution.
abbrev pub resolved_status : DisputeResolution → ShipmentStatus
resolved_status DisputeResolution.release_to_carrier = ShipmentStatus.delivered
resolved_status DisputeResolution.refund_to_company = ShipmentStatus.cancelled

abbrev pub recipient : DisputeResolution → Shipment → ℕ
recipient DisputeResolution.release_to_carrier x = x.carrier
recipient DisputeResolution.refund_to_company x = x.sender

abbrev pub resolution_operation : DisputeResolution → SettlementOperation
resolution_operation DisputeResolution.release_to_carrier = SettlementOperation.release
resolution_operation DisputeResolution.refund_to_company = SettlementOperation.refund

module _ {T : Type 0} (api : TokenApi T) (self : ℕ) where
  unfoldable pub force_cancel_shipment : Env → ℕ → ℕ → ℕ → Call T (Unit {0})
  unfolding require_initialized require_not_paused
  force_cancel_shipment env admin shipment_id reason_hash = do
    require_initialized
    require_not_paused
    require_auth env admin
    a ← get_admin
    fail_if (not (a == admin)) NavinError.unauthorized
    validate_hash reason_hash
    x ← load shipment_id
    require_not_finalized x
    fail_if
        (status_eq x.status ShipmentStatus.delivered || status_eq x.status ShipmentStatus.cancelled)
        NavinError.shipment_already_completed
    x' ←
        (if ltb_ℤ (pos 0) x.escrow_amount
          then (do
            c ← gets (λ s. s.token_contract)
            token_contract ← ok_or c NavinError.not_initialized
            invoke_token_transfer api self env self x.sender x.escrow_amount
            publish_with_token shipment_id
                (Event.escrow_refunded shipment_id x.sender x.escrow_amount)
            pure (record x { escrow_amount = pos 0 }))
          else pure x)
    modify (decrement_status_count x.status)
    increment_status_count ShipmentStatus.cancelled
    modify (decrement_active_shipment_count x.sender)
    persist_shipment
        (finalize_if_settled (touched env (record x' { status = ShipmentStatus.cancelled })))
    modify (extend_shipment_ttl shipment_id)
    modify (
        publish_counted shipment_id
          (Event.force_cancelled shipment_id admin reason_hash x.escrow_amount))

  -- The events at the end of `resolve_dispute`, by the resolution.
  unfoldable pub announce : DisputeResolution → ℕ → Shipment → Call T (Unit {0})
  announce DisputeResolution.release_to_carrier shipment_id x =
      publish_with_token shipment_id (Event.escrow_released shipment_id x.carrier x.escrow_amount)
  announce DisputeResolution.refund_to_company shipment_id x = do
    publish_with_token shipment_id (Event.escrow_refunded shipment_id x.sender x.escrow_amount)
    modify (publish (Event.carrier_dispute_loss x.carrier shipment_id))

  -- `sha256` stands for the hash of the payload (shipment ID, resolution, reason hash).
  unfoldable pub resolve_dispute :
      (ℕ → DisputeResolution → ℕ → ℕ) → Env → ℕ → ℕ → DisputeResolution → ℕ → Call T (Unit {0})
  unfolding require_initialized require_not_paused require_admin_or_guardian
  resolve_dispute sha256 env admin shipment_id resolution reason_hash = do
    require_initialized
    require_not_paused
    require_auth env admin
    require_admin_or_guardian admin
    fail_if (reason_hash == 0) NavinError.dispute_reason_hash_missing
    check_idempotency (sha256 shipment_id resolution reason_hash)
    x ← load shipment_id
    require_not_finalized x
    fail_if (not (status_eq x.status ShipmentStatus.disputed)) NavinError.invalid_status
    fail_if (is_zero x.escrow_amount) NavinError.insufficient_funds
    c ← gets (λ s. s.token_contract)
    token_contract ← ok_or c NavinError.not_initialized
    settlement_id ←
        create_settlement env shipment_id (resolution_operation resolution) x.escrow_amount self
          (recipient resolution x)
    invoke_token_transfer api self env self (recipient resolution x) x.escrow_amount
    complete_settlement env settlement_id shipment_id
    modify (decrement_status_count ShipmentStatus.disputed)
    increment_status_count (resolved_status resolution)
    modify (decrement_active_shipment_count x.sender)
    persist_shipment (
        finalize_if_settled
          (touched env (record x { escrow_amount = pos 0; status = resolved_status resolution })))
    modify (remove_escrow shipment_id)
    modify (extend_shipment_ttl shipment_id)
    announce resolution shipment_id x
    modify (
        publish_counted shipment_id
          (Event.dispute_resolved shipment_id resolution reason_hash admin))
    modify (
        publish
          (Event.notification x.sender NotificationType.dispute_resolved shipment_id reason_hash))
    modify (
        publish
          (Event.notification x.receiver NotificationType.dispute_resolved shipment_id reason_hash))
    modify (
        publish
          (Event.notification x.carrier NotificationType.dispute_resolved shipment_id reason_hash))
