-- ===== src/Shipment/Solvency/Progress.antt =====
-- The accounts over the calls by which a shipment progresses.
use navin_contracts.Shipment.Symbols.{validate_checkpoint_symbol}
use navin_contracts.Shipment.Milestones.{pushed, release_milestone_payment, release_amount}
use navin_contracts.Shipment.Solvency.Rules.{
  spare_none, Turns-set_last, Turns-release, account_rules,
}
use navin_contracts.Host.Turns.{Turns-if, Turns-part, Turns-pure, Turns, Turns-step, Turns-block}
use navin_contracts.Shipment.Solvency.Steps.{IsBacked-IsStable, IsStable, beside_parts}
use navin_contracts.Host.{◌>>=◌, Env, Outcome, ok, err}
use navin_contracts.Shipment.Guards.{
  require_initialized, require_active_carrier, role_test, require_role, checked_sub_i128,
  checked_add_i128, checked_mul_div_i128,
}
use navin_contracts.Shipment.Store.{Call, Store, TokenApi}
use navin_contracts.Shipment.Updates.{
  record_milestone, pay_checkpoint, checkpoint_amount, apply_update, check_update, update_status,
  require_delivered,
}
use navin_contracts.Shipment.Solvency.{IsBacked, IsSolvent, IsLawful}
use navin_contracts.Shipment.Data.{Event, HostApi, Shipment, DisputeResolution}
use navin_contracts.Shipment.Status.{ShipmentStatus}
use navin_contracts.Shipment.Council.{force_settle}
use navin_contracts.Shipment.Delivery.{check_deadline, confirm_partial_delivery, confirm_delivery}
use navin_contracts.Shipment.Dispute.{resolve_dispute, announce}
use navin_contracts.Shipment.Errors.{NavinError}
use navin_contracts.Host.Keeps.{Keeps, Ends}
use navin_contracts.Shipment.Solvency.Payments.{load-Turns}
use navin_contracts.Prelude.{ℕ, Option, List, none, some, pos, ◌≡◌, ℤ, refl}

module _ {T : Type 0} {P : Store T → Type 0} (c : IsStable P) where
  announce-Beside :
      (api : TokenApi T) (self : ℕ) (r : DisputeResolution) (i : ℕ) (x : Shipment)
      → Keeps P (announce {T = T} api self r i x)
  unfolding announce
  announce-Beside api self DisputeResolution.release_to_carrier i x = search beside_parts
  announce-Beside api self DisputeResolution.refund_to_company i x = search beside_parts

  release_amount-Beside :
      (name pct : ℕ) (x : Shipment) → Keeps P (release_amount {T = T} name pct x)
  unfolding release_amount checked_mul_div_i128
  release_amount-Beside name pct x = search beside_parts

  Ends-unmet :
      (o : Option NavinError) (s : Store T)
      → P s
      → Ends P (elim o as (λ x. Outcome (Store T) NavinError (Unit {0})) [
        | none ↦ ok tt s
        | some e ↦ err e s
      ])
  Ends-unmet none s h = h
  Ends-unmet (some e) s h = tt

  require_delivered-Beside : (ps : List ℕ) → Keeps P (require_delivered {T = T} ps)
  require_delivered-Beside ps = record { at = λ s h. Ends-unmet _ s h }

module _ {T : Type 0} (api : TokenApi T) (self : ℕ) (law : IsLawful api) where
  pub resolve_dispute-Turns :
      (hash : ℕ → DisputeResolution → ℕ → ℕ) (env : Env) (a i : ℕ) (r : DisputeResolution) (h : ℕ)
      → Turns (IsSolvent api self) (resolve_dispute api self hash env a i r h) (IsSolvent api self)
  unfolding resolve_dispute
  resolve_dispute-Turns hash env a i r h = Turns-step _ _ (search beside_parts) (λ u.
      Turns-step _ _ (search beside_parts) (λ u. Turns-step _ _ (search beside_parts) (λ u.
        Turns-step _ _ (search beside_parts) (λ u. Turns-step _ _ (search beside_parts) (λ u.
          Turns-step _ _ (search beside_parts) (λ u.
            load-Turns _ _
              (λ x e p. search (announce-Beside, account_rules) depth 80 fits 5000)))))))

  apply_update-Turns :
      (env : Env) (i : ℕ) (st : ShipmentStatus) (h : ℕ) (x : Shipment)
      → x.id ≡ i
      → Turns
          (IsBacked api self i x.escrow_amount (pos 0))
          (apply_update {T = T} env i st h x)
          (IsSolvent api self)
  unfolding apply_update
  apply_update-Turns env i st h x e = search account_rules depth 80 fits 5000

  pub update_status-Turns :
      (host : HostApi) (env : Env) (a i : ℕ) (st : ShipmentStatus) (h : ℕ)
      → Turns (IsSolvent api self) (update_status {T = T} host env a i st h) (IsSolvent api self)
  unfolding update_status check_update
  update_status-Turns host env a i st h = Turns-part _ _ _ (search beside_parts) (λ u.
      Turns-part _ _ _ (search beside_parts) (λ u. Turns-part _ _ _ (search beside_parts) (λ u.
        Turns-part _ _ _ (search beside_parts) (λ u. Turns-part _ _ _ (search beside_parts) (λ u.
          Turns-block _ _ _ (
            load-Turns _ _ (λ x e p.
              search
                (Turns-part, Turns-pure, apply_update-Turns, require_delivered-Beside, beside_parts)
                depth 80 fits 5000)))))))

  pub confirm_delivery-Turns :
      (env : Env) (a i h : ℕ)
      → Turns (IsSolvent api self) (confirm_delivery api self env a i h) (IsSolvent api self)
  unfolding confirm_delivery
  confirm_delivery-Turns env a i h = Turns-step _ _ (search beside_parts) (λ u.
      Turns-step _ _ (search beside_parts) (λ u. Turns-step _ _ (search beside_parts) (λ u.
        Turns-step _ _ (search beside_parts)
          (λ u. load-Turns _ _ (λ x e p. search account_rules depth 80 fits 5000)))))

  pub confirm_partial_delivery-Turns :
      (env : Env) (a i h pct : ℕ)
      → Turns
          (IsSolvent api self)
          (confirm_partial_delivery api self env a i h pct)
          (IsSolvent api self)
  unfolding confirm_partial_delivery checked_mul_div_i128 checked_add_i128 checked_sub_i128
  confirm_partial_delivery-Turns env a i h pct = Turns-step _ _ (search beside_parts) (λ u.
      Turns-step _ _ (search beside_parts) (λ u. Turns-step _ _ (search beside_parts) (λ u.
        Turns-step _ _ (search beside_parts) (λ u.
          Turns-step _ _ (search beside_parts)
            (λ u. load-Turns _ _ (λ x e p. search account_rules depth 80 fits 5000))))))

  pub check_deadline-Turns :
      (env : Env) (i : ℕ)
      → Turns (IsSolvent api self) (check_deadline api self env i) (IsSolvent api self)
  unfolding check_deadline
  check_deadline-Turns env i =
      Turns-step _ _ (search beside_parts)
        (λ u. load-Turns _ _ (λ x e p. search account_rules depth 80 fits 5000))

  pub force_settle-Turns :
      (env : Env) (i : ℕ) (st : ShipmentStatus) (to : Shipment → ℕ) (event : Shipment → Event)
      → Turns (IsSolvent api self) (force_settle api self env i st to event) (IsSolvent api self)
  unfolding force_settle
  force_settle-Turns env i st to event =
      load-Turns _ _ (λ x e p. search account_rules depth 80 fits 5000)

  pub release_milestone_payment-Turns :
      (env : Env) (a i n : ℕ)
      → Turns
          (IsSolvent api self)
          (release_milestone_payment api self env a i n)
          (IsSolvent api self)
  unfolding release_milestone_payment
  release_milestone_payment-Turns env a i n = Turns-step _ _ (search beside_parts) (λ u.
      Turns-step _ _ (search beside_parts) (λ u. Turns-step _ _ (search beside_parts) (λ u.
        load-Turns _ _ (λ x e p.
          search
            (
              Turns-release, Turns-set_last, Turns-step, Turns-if, Turns-block, Turns-pure,
              spare_none, release_amount-Beside, beside_parts,
            )
            depth 80 fits 5000))))

  checkpoint_amount-Beside :
      {P : Store T → Type 0}
      → IsStable P
      → (pct : ℕ) (x : Shipment) → Keeps P (checkpoint_amount {T = T} pct x)
  unfolding checked_mul_div_i128
  checkpoint_amount-Beside c pct x = search beside_parts

  Turns-pay_checkpoint :
      {Q : Store T → Type 0} (i : ℕ) (h d : ℤ) (env : Env) (n name : ℕ) (x : Shipment)
      (found : Option (ℕ × ℕ)) (f : Shipment → Call T (Unit {0}))
      → x.id ≡ i
      → x.escrow_amount ≡ h
      → ((y : Shipment) → y.id ≡ i → Turns (IsBacked api self i y.escrow_amount d) (f y) Q)
      → Turns (IsBacked api self i h d) (pay_checkpoint api self env n name x found >>= f) Q
  unfolding pay_checkpoint
  Turns-pay_checkpoint i h d env n name x none f e v k = Turns-pure _ _ (rw⁻¹ v (k x e))
  Turns-pay_checkpoint i h d env n name x (some found) f e v k =
      let x' = record x {
        milestones_completed = pushed x.milestones_completed name;
        paid_milestones = pushed x.paid_milestones name;
      } in
      Turns-part _ _ _ (search beside_parts) (λ u.
        Turns-part _ _ _ (checkpoint_amount-Beside (IsBacked-IsStable api self i h d) _ x')
          (λ amount.
            Turns-part _ _ _ (search beside_parts)
              (λ w. Turns-release i h d env x' amount f law e v k)))

  pub record_milestone-Turns :
      (host : HostApi) (env : Env) (a i name h : ℕ)
      → Turns
          (IsSolvent api self)
          (record_milestone api self host env a i name h)
          (IsSolvent api self)
  unfolding record_milestone require_role role_test require_active_carrier require_initialized
      validate_checkpoint_symbol
  record_milestone-Turns host env a i name h = Turns-step _ _ (search beside_parts) (λ u.
      Turns-step _ _ (search beside_parts) (λ u. Turns-step _ _ (search beside_parts) (λ u.
        Turns-step _ _ (search beside_parts) (λ u. Turns-step _ _ (search beside_parts) (λ u.
          load-Turns _ _ (λ x e p. Turns-step _ _ (search beside_parts) (λ u.
            Turns-step _ _ (search beside_parts) (λ u. Turns-step _ _ (search beside_parts) (λ u.
              Turns-step _ _ (search beside_parts) (λ u. Turns-step _ _ (search beside_parts) (λ u.
                Turns-step _ _ (search beside_parts) (λ u.
                  Turns-step _ _ (search beside_parts) (λ u.
                    Turns-step _ _ (search beside_parts) (λ u.
                      Turns-step _ _ (search beside_parts) (λ u.
                        Turns-step _ _ (search beside_parts) (λ u.
                          Turns-pay_checkpoint i _ _ env i name x _ _ e refl
                            (λ y q. Turns-set_last i _ _ y q refl spare_none)))))))))))))))))
