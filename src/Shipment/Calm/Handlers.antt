-- ===== src/Shipment/Calm/Handlers.antt =====
-- The breaker over whole calls of the handlers: what a call that fails counted is undone.
use navin_contracts.Shipment.Data.{HostApi, DisputeResolution, Shipment, FeeConfig}
use navin_contracts.Shipment.Keeps.{Keeps-with_reentrancy_lock}
use navin_contracts.Shipment.Guards.{
  require_admin_or_guardian, require_active_carrier, role_test, require_role, checked_sub_i128,
  checked_mul_div_i128, validate_positive_amount,
}
use navin_contracts.Shipment.Calls.{Request, handle, execute}
use navin_contracts.Host.Keeps.{committed-Keeps, Keeps}
use navin_contracts.Shipment.Calm.{get_tracker, IsCalmer, same-CalmFrom, CalmFrom, calm_parts}
use navin_contracts.Shipment.Dispute.{
  resolve_dispute, cancel_shipment, force_cancel_shipment, raise_dispute, announce,
}
use navin_contracts.Shipment.Milestones.{release_milestone_payment, release_amount}
use navin_contracts.Shipment.Escrow.{
  refund_escrow, release_escrow, deposit_escrow, deposit_locked, release_locked, refund_locked,
  collect_fee,
}
use navin_contracts.Host.{invoke, Env}
use navin_contracts.Shipment.Breaker.{CircuitBreakerTracker}
use navin_contracts.Shipment.Store.{Store, TokenApi}
use navin_contracts.Shipment.Settlement.{validate_token_decimals}
use navin_contracts.Shipment.Calm.Payments.{calm_calls, internal_release_escrow-Calm}
use navin_contracts.Shipment.Calm.Progress.{
  update_status-Calm, confirm_delivery-Calm, confirm_partial_delivery-Calm, record_milestone-Calm,
}
use navin_contracts.Prelude.{arith, ℤ, ℕ, Option, none, some, refl, Bool}

module _ {T : Type 0} {t : CircuitBreakerTracker} where
  cancel_shipment-Calm :
      (env : Env) (a i h : ℕ) → Keeps (CalmFrom t) (cancel_shipment {T = T} env a i h)
  unfolding cancel_shipment
  cancel_shipment-Calm env a i h = search calm_parts depth 80 fits 5000

  raise_dispute-Calm :
      (env : Env) (a i h : ℕ) → Keeps (CalmFrom t) (raise_dispute {T = T} env a i h)
  unfolding raise_dispute
  raise_dispute-Calm env a i h = search calm_parts depth 80 fits 5000

module _ {T : Type 0} {t : CircuitBreakerTracker} (api : TokenApi T) (self : ℕ) where
  collect_fee-Calm :
      (env : Env) (i : ℕ) (v : ℤ) (fee : Option FeeConfig)
      → Keeps (CalmFrom t) (collect_fee api self env i v fee)
  unfolding collect_fee checked_sub_i128 checked_mul_div_i128
  collect_fee-Calm env i v none = search calm_calls depth 80 fits 5000
  collect_fee-Calm env i v (some fee) = search calm_calls depth 80 fits 5000

  deposit_locked-Calm :
      (env : Env) (a i : ℕ) (v : ℤ) → Keeps (CalmFrom t) (deposit_locked api self env a i v)
  unfolding deposit_locked validate_positive_amount validate_token_decimals
  deposit_locked-Calm env a i v = search (calm_calls, collect_fee-Calm) depth 80 fits 5000

  release_locked-Calm : (env : Env) (a i : ℕ) → Keeps (CalmFrom t) (release_locked api self env a i)
  unfolding release_locked
  release_locked-Calm env a i = search (calm_calls, internal_release_escrow-Calm) depth 80 fits 5000

  refund_locked-Calm : (env : Env) (a i : ℕ) → Keeps (CalmFrom t) (refund_locked api self env a i)
  unfolding refund_locked
  refund_locked-Calm env a i = search calm_calls depth 80 fits 5000

  force_cancel_shipment-Calm :
      (env : Env) (a i h : ℕ) → Keeps (CalmFrom t) (force_cancel_shipment api self env a i h)
  unfolding force_cancel_shipment
  force_cancel_shipment-Calm env a i h = search calm_calls depth 80 fits 5000

  announce-Calm :
      (r : DisputeResolution) (i : ℕ) (x : Shipment)
      → Keeps (CalmFrom t) (announce {T = T} api self r i x)
  unfolding announce
  announce-Calm DisputeResolution.release_to_carrier i x = search calm_calls
  announce-Calm DisputeResolution.refund_to_company i x = search calm_calls

  release_amount-Calm :
      (name pct : ℕ) (x : Shipment) → Keeps (CalmFrom t) (release_amount {T = T} name pct x)
  unfolding release_amount checked_mul_div_i128
  release_amount-Calm name pct x = search calm_calls

  unlocked-CalmFrom :
      (s : Store T) (b : Bool) → CalmFrom t s → CalmFrom t (record s { reentrancy_lock = b })
  unlocked-CalmFrom s b c = same-CalmFrom s _ c refl

  handle-Calm :
      (host : HostApi) (env : Env) (r : Request) → Keeps (CalmFrom t) (handle api self host env r)
  unfolding handle deposit_escrow release_escrow refund_escrow release_milestone_payment
      resolve_dispute require_role role_test require_active_carrier require_admin_or_guardian
  handle-Calm host env (Request.deposit a i v) =
      search (calm_calls, deposit_locked-Calm, Keeps-with_reentrancy_lock, unlocked-CalmFrom) depth
        80 fits 5000
  handle-Calm host env (Request.release a i) =
      search (calm_calls, release_locked-Calm, Keeps-with_reentrancy_lock, unlocked-CalmFrom) depth
        80 fits 5000
  handle-Calm host env (Request.refund a i) =
      search (calm_calls, refund_locked-Calm, Keeps-with_reentrancy_lock, unlocked-CalmFrom) depth
        80 fits 5000
  handle-Calm host env (Request.pay_milestone a i n) =
      search (calm_calls, release_amount-Calm, internal_release_escrow-Calm) depth 80 fits 5000
  handle-Calm host env (Request.cancel a i h) = cancel_shipment-Calm env a i h
  handle-Calm host env (Request.force_cancel a i h) = force_cancel_shipment-Calm env a i h
  handle-Calm host env (Request.dispute a i h) = raise_dispute-Calm env a i h
  handle-Calm host env (Request.resolve a i r h) =
      search (calm_calls, announce-Calm) depth 80 fits 5000
  handle-Calm host env (Request.update a i st h) = update_status-Calm host env a i st h
  handle-Calm host env (Request.confirm a i h) = confirm_delivery-Calm api self env a i h
  handle-Calm host env (Request.confirm_partial a i h pct) =
      confirm_partial_delivery-Calm api self env a i h pct
  handle-Calm host env (Request.checkpoint a i name h) =
      record_milestone-Calm api self host env a i name h

-- After any call of a handler that `Request` lists, the breaker has counted no more failures than
-- before, and has not opened if it was closed: a call in which the token's transfer fails returns an
-- error, so the failure that it recorded is undone.
pub execute-IsCalmer :
    {T : Type 0} (api : TokenApi T) (self : ℕ) (host : HostApi) (env : Env) (r : Request)
    (s : Store T)
    → IsCalmer (get_tracker s) (get_tracker (execute api self host env r s))
unfolding execute invoke
execute-IsCalmer api self host env r s =
    (committed-Keeps (handle api self host env r) s
      (handle-Calm {t = get_tracker s} api self host env r)
      (record { calmer = (omega arith, λ e. e) })).calmer
