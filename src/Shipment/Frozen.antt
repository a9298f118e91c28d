-- ===== src/Shipment/Frozen.antt =====
-- When a call changes nothing: a paused contract, a finalized shipment.
use navin_contracts.Shipment.Updates.{update_status, record_milestone}
use navin_contracts.Shipment.Delivery.{confirm_delivery, confirm_partial_delivery}
use navin_contracts.Shipment.Data.{HostApi, Shipment}
use navin_contracts.Host.{◌>>=◌, Env, IsOk, committed, Outcome, ok, err, trap}
use navin_contracts.Shipment.Guards.{validate_positive_amount}
use navin_contracts.Shipment.Escrow.{
  refund_locked, release_locked, deposit_locked, deposit_escrow, release_escrow, refund_escrow,
}
use navin_contracts.Shipment.Store.{Store, TokenApi, get_shipment}
use navin_contracts.Shipment.Milestones.{release_milestone_payment}
use navin_contracts.Shipment.Dispute.{
  cancel_shipment, force_cancel_shipment, raise_dispute, resolve_dispute,
}
use navin_contracts.Shipment.Calls.{Request, target, handle, execute}
use navin_contracts.Prelude.{◌≡◌, some, true, arith, ℕ, refl}

-- An outcome that is not `Ok` leaves the storage as it was.
fails-committed : {S E A : Type 0} (s : S) (o : Outcome S E A) → ¬ (IsOk o) → committed s o ≡ s
fails-committed s (ok a s') h = absurd (h tt)
fails-committed s (err e s') h = refl
fails-committed s trap h = refl

module _ {T : Type 0} (api : TokenApi T) (self : ℕ) (host : HostApi) where
  module _ (env : Env) (s : Store T) (p : s.is_paused ≡ true) where
    paused_fails : (r : Request) → ¬ (IsOk (handle api self host env r s))
    unfolding ◌>>=◌ handle deposit_escrow release_escrow refund_escrow release_milestone_payment
        cancel_shipment force_cancel_shipment raise_dispute resolve_dispute update_status
        confirm_delivery confirm_partial_delivery record_milestone
    paused_fails (Request.deposit a i x) = ground arith
    paused_fails (Request.release a i) = ground arith
    paused_fails (Request.refund a i) = ground arith
    paused_fails (Request.pay_milestone a i n) = ground arith
    paused_fails (Request.cancel a i h) = ground arith
    paused_fails (Request.force_cancel a i h) = ground arith
    paused_fails (Request.dispute a i h) = ground arith
    paused_fails (Request.resolve a i r h) = ground arith
    paused_fails (Request.update a i st h) = ground arith
    paused_fails (Request.confirm a i h) = ground arith
    paused_fails (Request.confirm_partial a i h pct) = ground arith
    paused_fails (Request.checkpoint a i name h) = ground arith

  module _ (env : Env) (s : Store T) (x : Shipment) (f : x.finalized ≡ true) where
    finalized_fails :
        (r : Request) → get_shipment (target r) s ≡ some x → ¬ (IsOk (handle api self host env r s))
    unfolding ◌>>=◌ handle deposit_escrow release_escrow refund_escrow release_milestone_payment
        cancel_shipment force_cancel_shipment raise_dispute resolve_dispute update_status
        confirm_delivery confirm_partial_delivery record_milestone deposit_locked release_locked
        refund_locked validate_positive_amount
    finalized_fails (Request.deposit a i v) e = ground arith
    finalized_fails (Request.release a i) e = ground arith
    finalized_fails (Request.refund a i) e = ground arith
    finalized_fails (Request.pay_milestone a i n) e = ground arith
    finalized_fails (Request.cancel a i h) e = ground arith
    finalized_fails (Request.force_cancel a i h) e = ground arith
    finalized_fails (Request.dispute a i h) e = ground arith
    finalized_fails (Request.resolve a i r h) e = ground arith
    finalized_fails (Request.update a i st h) e = ground arith
    finalized_fails (Request.confirm a i h) e = ground arith
    finalized_fails (Request.confirm_partial a i h pct) e = ground arith
    finalized_fails (Request.checkpoint a i name h) e = ground arith

-- While the contract is paused, no handler that `Request` lists changes anything.
pub paused-execute :
    {T : Type 0} (api : TokenApi T) (self : ℕ) (host : HostApi) (env : Env) (r : Request)
    (s : Store T)
    → s.is_paused ≡ true
    → execute api self host env r s ≡ s
unfolding ◌>>=◌ execute
paused-execute api self host env r s p = fails-committed s _ (paused_fails api self host env s p r)

-- For a finalized shipment no handler that `Request` lists changes anything.
pub finalized-execute :
    {T : Type 0} (api : TokenApi T) (self : ℕ) (host : HostApi) (env : Env) (r : Request)
    (x : Shipment) (s : Store T)
    → get_shipment (target r) s ≡ some x
    → x.finalized ≡ true
    → execute api self host env r s ≡ s
unfolding ◌>>=◌ execute
finalized-execute api self host env r x s e f =
    fails-committed s _ (finalized_fails api self host env s x f r e)
