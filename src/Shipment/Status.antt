-- ===== src/Shipment/Status.antt =====
-- The life cycle of a shipment: `ShipmentStatus` and `is_valid_transition` of
-- contracts/shipment/src/types.rs, and the guard over it in lib.rs.
pub mod Lifecycle
use navin_contracts.Host.{Action, fail_if}
use navin_contracts.Shipment.Errors.{NavinError}
use navin_contracts.Prelude.{not, ◌&&◌, false, true, Bool}

pub data ShipmentStatus : Type 0 where
  created in_transit at_checkpoint partially_delivered : ShipmentStatus
  delivered disputed cancelled partially_refunded : ShipmentStatus

-- `==` on a status
abbrev pub status_eq : ShipmentStatus → ShipmentStatus → Bool
status_eq created created = true
status_eq in_transit in_transit = true
status_eq at_checkpoint at_checkpoint = true
status_eq partially_delivered partially_delivered = true
status_eq delivered delivered = true
status_eq disputed disputed = true
status_eq cancelled cancelled = true
status_eq partially_refunded partially_refunded = true
status_eq _ _ = false

-- The clauses stand in the order of the `match`.
unfoldable pub is_valid_transition : ShipmentStatus → ShipmentStatus → Bool
is_valid_transition created in_transit = true
is_valid_transition created cancelled = true
is_valid_transition created disputed = true
is_valid_transition in_transit at_checkpoint = true
is_valid_transition in_transit partially_delivered = true
is_valid_transition in_transit delivered = true
is_valid_transition in_transit disputed = true
is_valid_transition in_transit cancelled = true
is_valid_transition at_checkpoint at_checkpoint = false
is_valid_transition at_checkpoint in_transit = true
is_valid_transition at_checkpoint partially_delivered = true
is_valid_transition at_checkpoint delivered = true
is_valid_transition partially_delivered partially_delivered = true
is_valid_transition partially_delivered delivered = true
is_valid_transition partially_delivered disputed = true
is_valid_transition partially_delivered cancelled = true
is_valid_transition at_checkpoint disputed = true
is_valid_transition at_checkpoint cancelled = true
is_valid_transition disputed cancelled = true
is_valid_transition disputed delivered = true
is_valid_transition partially_refunded _ = false
is_valid_transition disputed partially_refunded = true
is_valid_transition s cancelled = not (status_eq s delivered) && not (status_eq s cancelled)
is_valid_transition s disputed =
    not (status_eq s cancelled) && (not (status_eq s delivered) && not (status_eq s disputed))
is_valid_transition _ _ = false

unfoldable pub validate_shipment_transition :
    {S : Type 0} → ShipmentStatus → ShipmentStatus → Action S NavinError (Unit {0})
unfolding is_valid_transition
validate_shipment_transition from to =
    fail_if (not (is_valid_transition from to)) NavinError.invalid_status
