-- ===== src/Shipment/Solvency/Handlers.antt =====
-- The handlers over the accounts.
use navin_contracts.Shipment.Escrow.{refund_locked, release_locked}
use navin_contracts.Shipment.Dispute.{force_cancel_shipment, raise_dispute, cancel_shipment}
use navin_contracts.Host.{Env}
use navin_contracts.Host.Turns.{Turns, Turns-step}
use navin_contracts.Shipment.Store.{TokenApi}
use navin_contracts.Shipment.Solvency.{IsSolvent, IsLawful}
use navin_contracts.Shipment.Solvency.Rules.{account_rules}
use navin_contracts.Shipment.Solvency.Payments.{load-Turns}
use navin_contracts.Shipment.Solvency.Steps.{beside_parts}
use navin_contracts.Prelude.{ℕ}

module _ {T : Type 0} (api : TokenApi T) (self : ℕ) (law : IsLawful api) where
  pub cancel_shipment-Turns :
      (env : Env) (a i h : ℕ)
      → Turns (IsSolvent api self) (cancel_shipment {T = T} env a i h) (IsSolvent api self)
  unfolding cancel_shipment
  cancel_shipment-Turns env a i h = Turns-step _ _ (search beside_parts) (λ u.
      Turns-step _ _ (search beside_parts) (λ u. Turns-step _ _ (search beside_parts) (λ u.
        Turns-step _ _ (search beside_parts) (λ u.
          Turns-step _ _ (search beside_parts)
            (λ u. load-Turns _ _ (λ x e p. search account_rules depth 80 fits 5000))))))

  pub raise_dispute-Turns :
      (env : Env) (a i h : ℕ)
      → Turns (IsSolvent api self) (raise_dispute {T = T} env a i h) (IsSolvent api self)
  unfolding raise_dispute
  raise_dispute-Turns env a i h = Turns-step _ _ (search beside_parts) (λ u.
      Turns-step _ _ (search beside_parts) (λ u. Turns-step _ _ (search beside_parts) (λ u.
        Turns-step _ _ (search beside_parts)
          (λ u. load-Turns _ _ (λ x e p. search account_rules depth 80 fits 5000)))))

  pub force_cancel_shipment-Turns :
      (env : Env) (a i h : ℕ)
      → Turns (IsSolvent api self) (force_cancel_shipment api self env a i h) (IsSolvent api self)
  unfolding force_cancel_shipment
  force_cancel_shipment-Turns env a i h = Turns-step _ _ (search beside_parts) (λ u.
      Turns-step _ _ (search beside_parts) (λ u. Turns-step _ _ (search beside_parts) (λ u.
        Turns-step _ _ (search beside_parts) (λ u. Turns-step _ _ (search beside_parts) (λ u.
          Turns-step _ _ (search beside_parts)
            (λ u. load-Turns _ _ (λ x e p. search account_rules depth 80 fits 5000)))))))

  pub release_locked-Turns :
      (env : Env) (a i : ℕ)
      → Turns (IsSolvent api self) (release_locked api self env a i) (IsSolvent api self)
  unfolding release_locked
  release_locked-Turns env a i =
      Turns-step _ _ (search beside_parts)
        (λ u. load-Turns _ _ (λ x e p. search account_rules depth 80 fits 5000))

  pub refund_locked-Turns :
      (env : Env) (a i : ℕ)
      → Turns (IsSolvent api self) (refund_locked api self env a i) (IsSolvent api self)
  unfolding refund_locked
  refund_locked-Turns env a i =
      Turns-step _ _ (search beside_parts)
        (λ u. load-Turns _ _ (λ x e p. search account_rules depth 80 fits 5000))
