-- ===== src/Shipment/Updates.antt =====
-- The handlers by which a carrier reports progress: `update_status` and `record_milestone` of
-- contracts/shipment/src/lib.rs.
pub mod Transitions
use navin_contracts.Host.{
  trap_unless, Env, ◌>>=◌, ◌>>◌, gets, modify, fail_if, require_auth, pure, ok, err,
}
use navin_contracts.Shipment.Store.{
  Call, TokenApi, set_shipment, publish, publish_counted, publish_with_token, extend_shipment_ttl,
  decrement_status_count, increment_status_count, increment_total_disputes, get_shipment,
}
use navin_contracts.Shipment.Errors.{NavinError}
use navin_contracts.Shipment.Status.{ShipmentStatus, status_eq, validate_shipment_transition}
use navin_contracts.Shipment.Data.{Shipment, HostApi, Event, NotificationType, Role}
use navin_contracts.Shipment.Guards.{
  get_admin, require_initialized, require_not_paused, require_active_carrier, require_role,
  require_not_finalized, validate_hash, check_idempotency, persist_shipment, finalize_if_settled,
  checked_mul_div_i128,
}
use navin_contracts.Shipment.Settlement.{internal_release_escrow}
use navin_contracts.Shipment.Escrow.{load, touched}
use navin_contracts.Shipment.Milestones.{contains, find_milestone, pushed}
use navin_contracts.Shipment.Symbols.{validate_checkpoint_symbol}
use navin_contracts.Shipment.Progress.{
  get_contract_config, set_last_status_update, set_status_hash, increment_milestone_event_count,
}
use navin_contracts.Prelude.{
  ℕ, ℤ, pos, List, [], ◌∷◌, Option, none, some, Bool, false, not, ◌&&◌, ◌==◌, ltb, leb, ◌+◌, ◌-◌,
  if◌then◌else◌, ◌^◌,
}

-- `now.saturating_sub(last) < interval`, where there was an update
abbrev pub too_soon : ℕ → Option ℕ → ℕ → Bool
too_soon now none interval = false
too_soon now (some last) interval = ltb (now - last) interval

-- The error in which the loop over the prerequisites ends, if one of them is not delivered. The
-- first argument is `storage::get_shipment`.
unfoldable pub first_unmet : (ℕ → Option Shipment) → List ℕ → Option NavinError
first_unmet get [] = none
first_unmet get (p ∷ ps) =
    let rest = first_unmet get ps in
    elim (get p) [
      | none ↦ some NavinError.shipment_not_found
      | some x ↦
          if status_eq x.status ShipmentStatus.delivered
          then rest
          else some NavinError.dependencies_not_met
    ]

module _ {T : Type 0} where
  abbrev pub require_delivered : List ℕ → Call T (Unit {0})
  require_delivered ps s = elim (first_unmet (λ p. get_shipment p s) ps) [
    | none ↦ ok tt s
    | some e ↦ err e s
  ]

  -- The first part of `update_status`, which decides whether the update is made.
  unfoldable pub check_update : HostApi → Env → ℕ → ℕ → ShipmentStatus → ℕ → Call T Shipment
  unfolding require_initialized require_not_paused require_active_carrier
      validate_shipment_transition
  check_update host env caller shipment_id new_status data_hash = do
    require_initialized
    require_not_paused
    require_auth env caller
    validate_hash data_hash
    admin ← get_admin
    x ← load shipment_id
    fail_if (not (caller == x.carrier) && not (caller == admin)) NavinError.unauthorized
    require_not_finalized x
    if caller == x.carrier then require_active_carrier caller else pure tt
    check_idempotency (host.update_hash shipment_id new_status data_hash)
    last ← gets (λ s. s.progress.last_status_update shipment_id)
    config ← gets get_contract_config
    fail_if (not (caller == admin) && too_soon env.timestamp last config.min_status_update_interval)
        NavinError.rate_limit_exceeded
    validate_shipment_transition x.status new_status
    prereqs ← gets (λ s. s.progress.prerequisites shipment_id)
    if status_eq new_status ShipmentStatus.in_transit then require_delivered prereqs else pure tt
    pure x

  -- The second part, which makes it.
  unfoldable pub apply_update : Env → ℕ → ShipmentStatus → ℕ → Shipment → Call T (Unit {0})
  apply_update env shipment_id new_status data_hash x = do
    modify (decrement_status_count x.status)
    increment_status_count new_status
    persist_shipment (
        finalize_if_settled (touched env (record x { status = new_status; data_hash = data_hash })))
    if status_eq new_status ShipmentStatus.disputed then increment_total_disputes else pure tt
    modify (set_last_status_update shipment_id env.timestamp)
    modify (extend_shipment_ttl shipment_id)
    modify (set_status_hash shipment_id new_status data_hash)
    publish_with_token shipment_id (Event.status_updated shipment_id x.status new_status data_hash)
    modify (
        publish (Event.notification x.sender NotificationType.status_changed shipment_id data_hash))
    modify (
        publish
          (Event.notification x.receiver NotificationType.status_changed shipment_id data_hash))

  unfoldable pub update_status : HostApi → Env → ℕ → ℕ → ShipmentStatus → ℕ → Call T (Unit {0})
  unfolding check_update apply_update
  update_status host env caller shipment_id new_status data_hash = do
    x ← check_update host env caller shipment_id new_status data_hash
    apply_update env shipment_id new_status data_hash x

-- The percentages of the milestones that are paid; a sum past u32::MAX panics where it is taken.
unfoldable pub paid_pct : List ℕ → List (ℕ × ℕ) → ℕ
paid_pct paid [] = 0
paid_pct paid ((n, pct) ∷ rest) =
    let more = paid_pct paid rest in if contains paid n then pct + more else more

abbrev pub checkpoint_amount : {T : Type 0} → ℕ → Shipment → Call T ℤ
checkpoint_amount pct x = do
  trap_unless (ltb (paid_pct x.paid_milestones x.payment_milestones) (2 ^ 32))
  if paid_pct x.paid_milestones x.payment_milestones == 100
      then pure x.escrow_amount
      else checked_mul_div_i128 x.total_escrow (pos pct) (pos 100)

module _ {T : Type 0} (api : TokenApi T) (self : ℕ) where
  -- The payment for a checkpoint, which is a payment milestone or not.
  unfoldable pub pay_checkpoint : Env → ℕ → ℕ → Shipment → Option (ℕ × ℕ) → Call T Shipment
  pay_checkpoint env shipment_id checkpoint x none = pure x
  pay_checkpoint env shipment_id checkpoint x (some found) = do
    fail_if (contains x.paid_milestones checkpoint) NavinError.milestone_already_paid
    let x' = record x {
      milestones_completed = pushed x.milestones_completed checkpoint;
      paid_milestones = pushed x.paid_milestones checkpoint;
    }
    amount ← checkpoint_amount found.1 x'
    modify (
        publish_counted shipment_id
          (Event.milestone_payment_released shipment_id checkpoint amount x.carrier))
    internal_release_escrow api self env x' amount

  unfoldable pub record_milestone : HostApi → Env → ℕ → ℕ → ℕ → ℕ → Call T (Unit {0})
  unfolding require_initialized require_not_paused require_role require_active_carrier
      validate_checkpoint_symbol
  record_milestone host env carrier shipment_id checkpoint data_hash = do
    require_initialized
    require_not_paused
    require_auth env carrier
    require_role carrier Role.carrier
    require_active_carrier carrier
    x ← load shipment_id
    require_not_finalized x
    validate_checkpoint_symbol (host.symbol_xdr checkpoint)
    validate_hash data_hash
    fail_if (not (x.carrier == carrier)) NavinError.unauthorized
    fail_if (not (status_eq x.status ShipmentStatus.in_transit)) NavinError.invalid_status
    config ← gets get_contract_config
    count ← gets (λ s. s.progress.milestone_event_count shipment_id)
    fail_if (leb config.max_milestones_per_shipment count) NavinError.milestone_limit_exceeded
    modify (
        publish_counted shipment_id
          (Event.milestone_recorded shipment_id checkpoint data_hash carrier))
    modify (increment_milestone_event_count shipment_id)
    x' ←
        pay_checkpoint env shipment_id checkpoint x (find_milestone checkpoint x.payment_milestones)
    modify (set_shipment (finalize_if_settled x'))
