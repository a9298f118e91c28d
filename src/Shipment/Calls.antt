-- ===== src/Shipment/Calls.antt =====
-- A call of one of the modelled handlers as a value, and what it leaves in storage: the host
-- discards what a call wrote that does not return `Ok`.
use navin_contracts.Host.{Env, invoke}
use navin_contracts.Shipment.Data.{DisputeResolution, HostApi}
use navin_contracts.Shipment.Status.{ShipmentStatus}
use navin_contracts.Shipment.Updates.{update_status, record_milestone}
use navin_contracts.Shipment.Delivery.{confirm_delivery, confirm_partial_delivery}
use navin_contracts.Shipment.Store.{Store, TokenApi, Call}
use navin_contracts.Shipment.Escrow.{deposit_escrow, release_escrow, refund_escrow}
use navin_contracts.Shipment.Milestones.{release_milestone_payment}
use navin_contracts.Shipment.Dispute.{
  cancel_shipment, force_cancel_shipment, raise_dispute, resolve_dispute,
}
use navin_contracts.Prelude.{ℕ, ℤ}

-- The second argument is the shipment, the first the caller (the admin of `force_cancel` and
-- `resolve_dispute`).
pub data Request : Type 0 where
  deposit : ℕ → ℕ → ℤ → Request
  release refund : ℕ → ℕ → Request
  pay_milestone cancel force_cancel dispute : ℕ → ℕ → ℕ → Request
  resolve : ℕ → ℕ → DisputeResolution → ℕ → Request
  update : ℕ → ℕ → ShipmentStatus → ℕ → Request
  confirm : ℕ → ℕ → ℕ → Request
  confirm_partial checkpoint : ℕ → ℕ → ℕ → ℕ → Request

abbrev pub target : Request → ℕ
target (Request.deposit a i x) = i
target (Request.release a i) = i
target (Request.refund a i) = i
target (Request.pay_milestone a i n) = i
target (Request.cancel a i h) = i
target (Request.force_cancel a i h) = i
target (Request.dispute a i h) = i
target (Request.resolve a i r h) = i
target (Request.update a i st h) = i
target (Request.confirm a i h) = i
target (Request.confirm_partial a i h pct) = i
target (Request.checkpoint a i name h) = i

module _ {T : Type 0} (api : TokenApi T) (self : ℕ) (host : HostApi) where
  unfoldable pub handle : Env → Request → Call T (Unit {0})
  handle env (Request.deposit a i x) = deposit_escrow api self env a i x
  handle env (Request.release a i) = release_escrow api self env a i
  handle env (Request.refund a i) = refund_escrow api self env a i
  handle env (Request.pay_milestone a i n) = release_milestone_payment api self env a i n
  handle env (Request.cancel a i h) = cancel_shipment env a i h
  handle env (Request.force_cancel a i h) = force_cancel_shipment api self env a i h
  handle env (Request.dispute a i h) = raise_dispute env a i h
  handle env (Request.resolve a i r h) = resolve_dispute api self host.resolution_hash env a i r h
  handle env (Request.update a i st h) = update_status host env a i st h
  handle env (Request.confirm a i h) = confirm_delivery api self env a i h
  handle env (Request.confirm_partial a i h pct) = confirm_partial_delivery api self env a i h pct
  handle env (Request.checkpoint a i name h) = record_milestone api self host env a i name h

  unfoldable pub execute : Env → Request → Store T → Store T
  unfolding handle invoke
  execute env r s = invoke (handle env r) s
