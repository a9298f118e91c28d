-- ===== src/Shipment/Calm/Progress.antt =====
-- The breaker over the calls by which a shipment progresses.
use navin_contracts.Host.Keeps.{Ends, Keeps}
use navin_contracts.Shipment.Calm.{Store, NavinError, CalmFrom, calm_parts}
use navin_contracts.Shipment.Updates.{
  apply_update, check_update, update_status, record_milestone, require_delivered, pay_checkpoint,
}
use navin_contracts.Shipment.Status.{ShipmentStatus}
use navin_contracts.Host.{Env, ok, err, Outcome}
use navin_contracts.Shipment.Symbols.{validate_checkpoint_symbol}
use navin_contracts.Shipment.Guards.{
  checked_add_i128, require_active_carrier, role_test, require_role, checked_sub_i128,
  checked_mul_div_i128,
}
use navin_contracts.Shipment.Data.{HostApi, Shipment}
use navin_contracts.Shipment.Breaker.{CircuitBreakerTracker}
use navin_contracts.Shipment.Store.{TokenApi}
use navin_contracts.Prelude.{none, some, Option, ℕ, List}
use navin_contracts.Shipment.Calm.Payments.{calm_calls, internal_release_escrow-Calm}
use navin_contracts.Shipment.Delivery.{confirm_delivery, confirm_partial_delivery}

module _ {T : Type 0} {t : CircuitBreakerTracker} where
  Ends-unmet :
      (o : Option NavinError) (s : Store T)
      → CalmFrom t s
      → Ends (CalmFrom t) (elim o as (λ x. Outcome (Store T) NavinError (Unit {0})) [
        | none ↦ ok tt s
        | some e ↦ err e s
      ])
  Ends-unmet none s h = h
  Ends-unmet (some e) s h = tt

  require_delivered-Calm : (ps : List ℕ) → Keeps (CalmFrom t) (require_delivered {T = T} ps)
  require_delivered-Calm ps = record { at = λ s h. Ends-unmet _ s h }

  pub update_status-Calm :
      (host : HostApi) (env : Env) (a i : ℕ) (st : ShipmentStatus) (h : ℕ)
      → Keeps (CalmFrom t) (update_status {T = T} host env a i st h)
  unfolding update_status check_update apply_update require_active_carrier
  update_status-Calm host env a i st h =
      search (calm_parts, require_delivered-Calm) depth 80 fits 5000

module _ {T : Type 0} {t : CircuitBreakerTracker} (api : TokenApi T) (self : ℕ) where
  pub confirm_delivery-Calm :
      (env : Env) (a i h : ℕ) → Keeps (CalmFrom t) (confirm_delivery api self env a i h)
  unfolding confirm_delivery
  confirm_delivery-Calm env a i h =
      search (calm_calls, internal_release_escrow-Calm) depth 80 fits 5000

  pub confirm_partial_delivery-Calm :
      (env : Env) (a i h pct : ℕ)
      → Keeps (CalmFrom t) (confirm_partial_delivery api self env a i h pct)
  unfolding confirm_partial_delivery checked_mul_div_i128 checked_add_i128 checked_sub_i128
  confirm_partial_delivery-Calm env a i h pct =
      search (calm_calls, internal_release_escrow-Calm) depth 80 fits 5000

  pay_checkpoint-Calm :
      (env : Env) (i name : ℕ) (x : Shipment) (found : Option (ℕ × ℕ))
      → Keeps (CalmFrom t) (pay_checkpoint api self env i name x found)
  unfolding pay_checkpoint checked_mul_div_i128
  pay_checkpoint-Calm env i name x none = search calm_calls
  pay_checkpoint-Calm env i name x (some found) =
      search (calm_calls, internal_release_escrow-Calm) depth 80 fits 5000

  pub record_milestone-Calm :
      (host : HostApi) (env : Env) (a i name h : ℕ)
      → Keeps (CalmFrom t) (record_milestone api self host env a i name h)
  unfolding record_milestone require_active_carrier require_role role_test
      validate_checkpoint_symbol
  record_milestone-Calm host env a i name h =
      search (calm_calls, pay_checkpoint-Calm) depth 80 fits 5000
