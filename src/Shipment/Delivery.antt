-- ===== src/Shipment/Delivery.antt =====
-- Delivery and expiry: `confirm_delivery`, `confirm_partial_delivery` and `check_deadline` of
-- contracts/shipment/src/lib.rs.
use navin_contracts.Host.{Env, ◌>>=◌, ◌>>◌, gets, modify, fail_if, ok_or, require_auth, pure}
use navin_contracts.Shipment.Errors.{NavinError}
use navin_contracts.Shipment.Status.{ShipmentStatus, status_eq, validate_shipment_transition}
use navin_contracts.Shipment.Data.{Event, NotificationType}
use navin_contracts.Shipment.Store.{
  Call, TokenApi, remove_escrow, publish, publish_counted, publish_with_token, extend_shipment_ttl,
  decrement_status_count, increment_status_count, decrement_active_shipment_count,
}
use navin_contracts.Shipment.Guards.{
  require_initialized, require_not_paused, require_not_finalized, validate_hash, persist_shipment,
  finalize_if_settled, checked_mul_div_i128, checked_add_i128, checked_sub_i128,
}
use navin_contracts.Shipment.Settlement.{internal_release_escrow, invoke_token_transfer}
use navin_contracts.Shipment.Escrow.{load, touched}
use navin_contracts.Shipment.Progress.{get_contract_config, set_confirmation_hash}
use navin_contracts.Prelude.{
  ℕ, pos, length, Bool, not, ◌||◌, ◌==◌, ltb, ltb_ℤ, leb_ℤ, ◌+◌, ◌^◌, ◌-◌, if◌then◌else◌,
}

abbrev pub in_delivery : ShipmentStatus → Bool
in_delivery st =
    status_eq st ShipmentStatus.in_transit
    || (status_eq st ShipmentStatus.at_checkpoint
        || status_eq st ShipmentStatus.partially_delivered)

-- `a.saturating_add(b)` on u64
abbrev pub saturating_add : ℕ → ℕ → ℕ
saturating_add a b = if ltb (a + b) (2 ^ 64) then a + b else 2 ^ 64 - 1

module _ {T : Type 0} (api : TokenApi T) (self : ℕ) where
  unfoldable pub confirm_delivery : Env → ℕ → ℕ → ℕ → Call T (Unit {0})
  unfolding require_initialized require_not_paused validate_shipment_transition
  confirm_delivery env receiver shipment_id confirmation_hash = do
    require_initialized
    require_not_paused
    require_auth env receiver
    validate_hash confirmation_hash
    x ← load shipment_id
    fail_if (not (x.receiver == receiver)) NavinError.unauthorized
    require_not_finalized x
    validate_shipment_transition x.status ShipmentStatus.delivered
    modify (decrement_status_count x.status)
    increment_status_count ShipmentStatus.delivered
    modify (set_confirmation_hash shipment_id confirmation_hash)
    modify (decrement_active_shipment_count x.sender)
    modify (extend_shipment_ttl shipment_id)
    x' ←
        internal_release_escrow api self env
          (record x { status = ShipmentStatus.delivered; updated_at = env.timestamp })
          x.escrow_amount
    persist_shipment (finalize_if_settled x')
    modify (
        publish_counted shipment_id
          (Event.delivery_confirmed shipment_id receiver confirmation_hash))
    modify
        (publish_counted shipment_id (Event.delivery_success x.carrier shipment_id env.timestamp))
    modify (
        publish (
          Event.carrier_milestone_rate x.carrier shipment_id (length x.paid_milestones)
            (length x.payment_milestones)))
    modify (
        publish (
          if ltb x.deadline env.timestamp
          then Event.carrier_late_delivery x.carrier shipment_id x.deadline env.timestamp
          else Event.carrier_on_time_delivery x.carrier shipment_id))
    modify (
        publish (
          Event.notification x.sender NotificationType.delivery_confirmed shipment_id
            confirmation_hash))
    modify (
        publish (
          Event.notification x.carrier NotificationType.delivery_confirmed shipment_id
            confirmation_hash))

  unfoldable pub confirm_partial_delivery : Env → ℕ → ℕ → ℕ → ℕ → Call T (Unit {0})
  unfolding require_initialized require_not_paused
  confirm_partial_delivery env receiver shipment_id confirmation_hash release_percent = do
    require_initialized
    require_not_paused
    require_auth env receiver
    validate_hash confirmation_hash
    fail_if (release_percent == 0 || ltb 100 release_percent) NavinError.invalid_amount
    x ← load shipment_id
    fail_if (not (x.receiver == receiver)) NavinError.unauthorized
    require_not_finalized x
    fail_if (not (in_delivery x.status)) NavinError.invalid_status
    release_amount ← checked_mul_div_i128 x.total_escrow (pos release_percent) (pos 100)
    fail_if (leb_ℤ release_amount (pos 0)) NavinError.invalid_amount
    released_so_far ← checked_sub_i128 x.total_escrow x.escrow_amount
    new_total_released ← checked_add_i128 released_so_far release_amount
    fail_if (ltb_ℤ x.total_escrow new_total_released) NavinError.invalid_amount
    -- `new_total_released == total_escrow`: it is not above it, by the test before.
    let all_released = leb_ℤ x.total_escrow new_total_released
    let status =
        if all_released then ShipmentStatus.delivered else ShipmentStatus.partially_delivered
    modify (decrement_status_count x.status)
    increment_status_count status
    modify (set_confirmation_hash shipment_id confirmation_hash)
    modify (λ s. if all_released then decrement_active_shipment_count x.sender s else s)
    x' ←
        internal_release_escrow api self env
          (record x { status = status; updated_at = env.timestamp }) release_amount
    persist_shipment (finalize_if_settled x')
    modify (extend_shipment_ttl shipment_id)
    publish_with_token shipment_id
        (Event.status_updated shipment_id x.status status confirmation_hash)

  unfoldable pub check_deadline : Env → ℕ → Call T (Unit {0})
  unfolding require_initialized
  check_deadline env shipment_id = do
    require_initialized
    x ← load shipment_id
    config ← gets get_contract_config
    fail_if (ltb env.timestamp (saturating_add x.deadline config.deadline_grace_seconds))
        NavinError.not_expired
    fail_if
        (status_eq x.status ShipmentStatus.delivered
          || (status_eq x.status ShipmentStatus.disputed
              || status_eq x.status ShipmentStatus.cancelled))
        NavinError.shipment_already_completed
    persist_shipment
        (touched env (record x { status = ShipmentStatus.cancelled; escrow_amount = pos 0 }))
    modify (decrement_status_count x.status)
    increment_status_count ShipmentStatus.cancelled
    modify (decrement_active_shipment_count x.sender)
    if ltb_ℤ (pos 0) x.escrow_amount
        then (do
          modify (remove_escrow shipment_id)
          c ← gets (λ s. s.token_contract)
          token_contract ← ok_or c NavinError.not_initialized
          invoke_token_transfer api self env self x.sender x.escrow_amount
          publish_with_token shipment_id
              (Event.escrow_refunded shipment_id x.sender x.escrow_amount))
        else pure tt
    modify (extend_shipment_ttl shipment_id)
    modify (publish_counted shipment_id (Event.shipment_expired shipment_id))
