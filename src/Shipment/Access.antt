-- ===== src/Shipment/Access.antt =====
-- Who may call which handler: the signatures, parties and roles that the guards ask for.
use navin_contracts.Shipment.Updates.{update_status, check_update, record_milestone}
use navin_contracts.Shipment.Delivery.{confirm_delivery, confirm_partial_delivery}
use navin_contracts.Shipment.Data.{HostApi, Shipment, Role}
use navin_contracts.Host.{◌>>=◌, Env, IsOk}
use navin_contracts.Shipment.Store.{Store, TokenApi, get_shipment}
use navin_contracts.Shipment.Escrow.{
  deposit_escrow, release_escrow, release_locked, refund_escrow, refund_locked,
}
use navin_contracts.Shipment.Milestones.{release_milestone_payment}
use navin_contracts.Shipment.Dispute.{
  cancel_shipment, force_cancel_shipment, raise_dispute, resolve_dispute,
}
use navin_contracts.Shipment.Calls.{Request, target, handle}
use navin_contracts.Prelude.{◌≡◌, some, true, false, arith, ℕ, ◌⊎◌}

-- The account that a call says it comes from.
abbrev pub caller : Request → ℕ
caller (Request.deposit a i x) = a
caller (Request.release a i) = a
caller (Request.refund a i) = a
caller (Request.pay_milestone a i n) = a
caller (Request.cancel a i h) = a
caller (Request.force_cancel a i h) = a
caller (Request.dispute a i h) = a
caller (Request.resolve a i r h) = a
caller (Request.update a i st h) = a
caller (Request.confirm a i h) = a
caller (Request.confirm_partial a i h pct) = a
caller (Request.checkpoint a i name h) = a

-- The part that the caller has in the shipment, or the role or office it holds.
abbrev pub Entitled : {T : Type 0} → Request → Shipment → Store T → Type 0
Entitled (Request.deposit a i v) x s =
    (s.user_role a Role.company ≡ true)
    × (s.role_suspended a Role.company ≡ false)
    × (s.company_suspended a ≡ false)
Entitled (Request.release a i) x s = (a ≡ x.receiver) ⊎ (s.admin ≡ some a)
Entitled (Request.refund a i) x s = (a ≡ x.sender) ⊎ (s.admin ≡ some a)
Entitled (Request.pay_milestone a i n) x s = (a ≡ x.carrier) ⊎ (s.admin ≡ some a)
Entitled (Request.cancel a i h) x s = (a ≡ x.sender) ⊎ (s.admin ≡ some a)
Entitled (Request.force_cancel a i h) x s = s.admin ≡ some a
Entitled (Request.dispute a i h) x s = (a ≡ x.sender) ⊎ ((a ≡ x.receiver) ⊎ (a ≡ x.carrier))
Entitled (Request.resolve a i r h) x s =
    (s.admin ≡ some a)
    ⊎ ((s.user_role a Role.guardian ≡ true) × (s.role_suspended a Role.guardian ≡ false))
Entitled (Request.update a i st h) x s = (a ≡ x.carrier) ⊎ (s.admin ≡ some a)
Entitled (Request.confirm a i h) x s = a ≡ x.receiver
Entitled (Request.confirm_partial a i h pct) x s = a ≡ x.receiver
Entitled (Request.checkpoint a i name h) x s =
    (a ≡ x.carrier)
    × (s.user_role a Role.carrier ≡ true)
    × (s.role_suspended a Role.carrier ≡ false)
    × (s.carrier_suspended a ≡ false)

-- A call of a handler succeeds only if its caller has signed it and is entitled to it: a deposit as
-- an active company; a release as the receiver or the admin; a refund or a cancellation as the
-- sender or the admin; a payment by milestone or a status update as the carrier or the admin; a
-- forced cancellation as the admin; a dispute as a party; a resolution as the admin or an active
-- guardian; a delivery, partial or not, as the receiver; a checkpoint as the active carrier.
pub handle-Entitled :
    {T : Type 0} (api : TokenApi T) (self : ℕ) (host : HostApi) (env : Env) (r : Request)
    (x : Shipment) (s : Store T)
    → get_shipment (target r) s ≡ some x
    → IsOk (handle api self host env r s)
    → (env.authorized (caller r) ≡ true) × Entitled r x s
unfolding ◌>>=◌ handle deposit_escrow release_escrow refund_escrow release_milestone_payment
    cancel_shipment force_cancel_shipment raise_dispute resolve_dispute release_locked refund_locked
    update_status check_update confirm_delivery confirm_partial_delivery record_milestone
handle-Entitled api self host env (Request.deposit a i v) x s e o = ground arith
handle-Entitled api self host env (Request.release a i) x s e o = ground arith
handle-Entitled api self host env (Request.refund a i) x s e o = ground arith
handle-Entitled api self host env (Request.pay_milestone a i n) x s e o = ground arith
handle-Entitled api self host env (Request.cancel a i h) x s e o = ground arith
handle-Entitled api self host env (Request.force_cancel a i h) x s e o = ground arith
handle-Entitled api self host env (Request.dispute a i h) x s e o = ground arith
handle-Entitled api self host env (Request.resolve a i r h) x s e o = ground arith
handle-Entitled api self host env (Request.update a i st h) x s e o = ground arith
handle-Entitled api self host env (Request.confirm a i h) x s e o = ground arith
handle-Entitled api self host env (Request.confirm_partial a i h pct) x s e o = ground arith
handle-Entitled api self host env (Request.checkpoint a i name h) x s e o = ground arith
