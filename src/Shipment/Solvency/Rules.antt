-- ===== src/Shipment/Solvency/Rules.antt =====
-- The rules that follow the accounts through a call, one for each step that moves them.
use navin_contracts.Shipment.Solvency.{held_nonneg, IsBacked, IsSolvent, IsLawful}
use navin_contracts.Shipment.Solvency.Payments.{
  set_shipment-IsBacked, IsBacked-IsSolvent, IsBacked-less, Turns-spare, Turns-settled,
  transfer-Turns, persist-Turns,
}
use navin_contracts.Host.Turns.{
  Turns-before, Turns-after, Turns-step, Turns-test, Turns-pure, Turns-guard, Turns-ok_or,
  Turns-block, turns_rules, Turns, Turns-bind,
}
use navin_contracts.Shipment.Council.{pay_if_known}
use navin_contracts.Shipment.Store.{set_shipment, Store, TokenApi, Call}
use navin_contracts.Shipment.Solvency.Steps.{
  IsBacked-IsStable, create_settlement-Beside, beside_rules, beside_parts, IsSolvent-IsStable,
  Keeps-beside, books,
}
use navin_contracts.Shipment.Keeps.{Ends-or_else}
use navin_contracts.Shipment.Settlement.{or_else, internal_release_escrow, invoke_token_transfer}
use navin_contracts.Host.Keeps.{Keeps}
use navin_contracts.Shipment.Guards.{checked_sub_escrow, persist_shipment, finalize_if_settled}
use navin_contracts.Host.{Env, modify, ◌>>=◌}
use navin_contracts.Shipment.Data.{Shipment}
use navin_contracts.Shipment.Errors.{NavinError}
use navin_contracts.Prelude.{
  ℕ, ℤ, pos, ◌+ℤ◌, ◌-ℤ◌, ◌≤ℤ◌, ◌≡◌, int_laws, arith, checked_sub, some, ltb_ℤ, false, if◌then◌else◌,
  ◌||◌, leb_ℤ, none, Option,
}

module _ (x : Shipment) where
  pub finalize_if_settled-id : (finalize_if_settled x).id ≡ x.id
  unfolding finalize_if_settled
  finalize_if_settled-id = ground arith

  pub finalize_if_settled-escrow : (finalize_if_settled x).escrow_amount ≡ x.escrow_amount
  unfolding finalize_if_settled
  finalize_if_settled-escrow = ground arith

module _ {T : Type 0} {api : TokenApi T} {self : ℕ} {A : Type 0} {Q : Store T → Type 0} (i : ℕ)
    (h d : ℤ) where
  pub Turns-persist :
      (y : Shipment) (f : Unit {0} → Call T A)
      → y.id ≡ i
      → Turns (IsBacked api self i y.escrow_amount (d +ℤ (h -ℤ y.escrow_amount))) (f tt) Q
      → Turns (IsBacked api self i h d) (persist_shipment y >>= f) Q
  Turns-persist y f e k = Turns-bind _ _ (persist-Turns i h d y e) (λ u. k)

  pub Turns-finalize :
      (y : Shipment) (f : Unit {0} → Call T A)
      → y.id ≡ i
      → Turns (IsBacked api self i y.escrow_amount (d +ℤ (h -ℤ y.escrow_amount))) (f tt) Q
      → Turns (IsBacked api self i h d) (persist_shipment (finalize_if_settled y) >>= f) Q
  Turns-finalize y f e k =
      Turns-persist (finalize_if_settled y) f (cc (finalize_if_settled-id y, e))
        (rw (finalize_if_settled-escrow y) k)

  pub Turns-transfer :
      (env : Env) (to : ℕ) (a : ℤ) (f : Unit {0} → Call T A)
      → IsLawful api
      → pos 0 ≤ℤ a
      → Turns (IsBacked api self i h (d -ℤ a)) (f tt) Q
      → Turns (IsBacked api self i h d) (invoke_token_transfer api self env self to a >>= f) Q
  Turns-transfer env to a f law p k = Turns-bind _ _ (transfer-Turns env i to h d a law p) (λ u. k)

spare_set : (d h e : ℤ) → e ≡ h → pos 0 ≤ℤ d → pos 0 ≤ℤ d +ℤ (h -ℤ e)
spare_set d h e q p = grind int_laws

module _ {T : Type 0} {api : TokenApi T} {self : ℕ} where
  -- The last step.
  pub Turns-last :
      (i : ℕ) (h d : ℤ) (f : Store T → Store T)
      → pos 0 ≤ℤ d
      → ((s : Store T) → books (f s) ≡ books s)
      → Turns (IsBacked api self i h d) (modify {E = NavinError} f) (IsSolvent api self)
  Turns-last i h d f p e = Turns-settled i h d _ p (Keeps-beside f (IsSolvent-IsStable api self) e)

  -- The last step is a write of the shipment.
  pub Turns-finalize_last :
      (i : ℕ) (h d : ℤ) (y : Shipment)
      → y.id ≡ i
      → pos 0 ≤ℤ d +ℤ (h -ℤ y.escrow_amount)
      → Turns
          (IsBacked api self i h d)
          (persist_shipment (finalize_if_settled y))
          (IsSolvent api self)
  Turns-finalize_last i h d y e p =
      Turns-after _ (persist-Turns i h d (finalize_if_settled y) (cc (finalize_if_settled-id y, e)))
        (λ s b. IsBacked-IsSolvent api self i _ _ s (rw (finalize_if_settled-escrow y) p) b)

  pub Turns-set_last :
      (i : ℕ) (h d : ℤ) (y : Shipment)
      → y.id ≡ i
      → y.escrow_amount ≡ h
      → pos 0 ≤ℤ d
      → Turns
          (IsBacked api self i h d)
          (modify {E = NavinError} (set_shipment (finalize_if_settled y)))
          (IsSolvent api self)
  unfolding modify
  Turns-set_last i h d y e v p = record {
    from = λ s b.
        IsBacked-IsSolvent api self i _ _ (set_shipment (finalize_if_settled y) s)
          (spare_set d h _ (cc (finalize_if_settled-escrow y, v)) p)
          (set_shipment-IsBacked api self i h d (finalize_if_settled y) s
            (cc (finalize_if_settled-id y, e))
            (grind
              (arith, held_nonneg i s.shipments b.sound, b.entry, finalize_if_settled-escrow y, v))
            b);
  }

  pub Turns-pay_if_known :
      {A : Type 0} {Q : Store T → Type 0} (i : ℕ) (h d : ℤ) (env : Env) (to : ℕ) (a : ℤ)
      (o : Option ℕ) (f : Unit {0} → Call T A)
      → IsLawful api
      → pos 0 ≤ℤ a
      → Turns (IsBacked api self i h (d -ℤ a)) (f tt) Q
      → Turns (IsBacked api self i h d) (pay_if_known api self env to a o >>= f) Q
  Turns-pay_if_known i h d env to a (some t) f law p k = Turns-transfer i h d env to a f law p k
  Turns-pay_if_known i h d env to a none f law p k =
      Turns-pure _ _ (Turns-before _ (IsBacked-less api self i h d a p) k)

-- The balance to spare at the end of a call.
pub spare_none : pos 0 ≤ℤ pos 0
spare_none = omega int_laws

pub spare_kept : (h : ℤ) → pos 0 ≤ℤ pos 0 +ℤ (h -ℤ h)
spare_kept h = omega int_laws

pub spare_kept_back : (h : ℤ) → pos 0 ≤ℤ h → pos 0 ≤ℤ pos 0 +ℤ (h -ℤ pos 0)
spare_kept_back h p = omega int_laws

pub spare_kept_twice : (h : ℤ) → pos 0 ≤ℤ h → pos 0 ≤ℤ pos 0 +ℤ (h -ℤ pos 0) +ℤ (pos 0 -ℤ pos 0)
spare_kept_twice h p = omega int_laws

pub spare_paid : (h : ℤ) → pos 0 ≤ℤ pos 0 -ℤ h +ℤ (h -ℤ pos 0)
spare_paid h = omega int_laws

pub spare_paid_late : (h : ℤ) → pos 0 ≤ℤ pos 0 +ℤ (h -ℤ pos 0) -ℤ h
spare_paid_late h = omega int_laws

pub ruleset spare_rules =
    (spare_kept, spare_kept_back, spare_kept_twice, spare_paid, spare_paid_late)

pub checked_sub-some : (a b r : ℤ) → checked_sub a b ≡ some r → r ≡ a -ℤ b
unfolding checked_sub
checked_sub-some a b r e = ground arith

module _ {T A : Type 0} {P Q : Store T → Type 0} where
  Turns-checked_sub_escrow :
      (a b : ℤ) (f : ℤ → Call T A)
      → ((r : ℤ) → r ≡ a -ℤ b → Turns P (f r) Q)
      → Turns P (checked_sub_escrow a b >>= f) Q
  unfolding checked_sub_escrow
  Turns-checked_sub_escrow a b f k = Turns-block _ _ _ (
      Turns-ok_or _ _ _ (λ r e.
        Turns-block _ _ _
          (Turns-guard _ _ _ (λ c. Turns-pure _ _ (k r (checked_sub-some a b r e))))))

module _ {T A : Type 0} (P R : Store T → Type 0) {Q : Store T → Type 0} where
  pub Turns-or_else :
      (m k : Call T (Unit {0})) (g : NavinError → Call T (Unit {0})) (f : Unit {0} → Call T A)
      → Turns P m R
      → Keeps R k
      → Turns R (f tt) Q
      → Turns P (or_else m k g >>= f) Q
  Turns-or_else m k g f c e t =
      Turns-bind _ _ (record { from = λ s p. Ends-or_else R (m s) k g (c.from s p) e }) (λ u. t)

-- A payment out of the escrow of a shipment leaves the balance to spare as it was.
actual_nonneg :
    (e a : ℤ)
    → (leb_ℤ a (pos 0) || leb_ℤ (if ltb_ℤ e a then e else a) (pos 0)) ≡ false
    → pos 0 ≤ℤ (if ltb_ℤ e a then e else a)
actual_nonneg e a c = ground arith

spare_released : (d a e r : ℤ) → r ≡ e -ℤ a → d -ℤ a +ℤ (e -ℤ r) ≡ d
spare_released d a e r h = grind int_laws

module _ {T : Type 0} {api : TokenApi T} {self : ℕ} {A : Type 0} {Q : Store T → Type 0} where
  Turns-released :
      (i : ℕ) (d : ℤ) (env : Env) (x : Shipment) (a : ℤ) (f : Shipment → Call T A)
      → IsLawful api
      → x.id ≡ i
      → ((y : Shipment) → y.id ≡ i → Turns (IsBacked api self i y.escrow_amount d) (f y) Q)
      → Turns
          (IsBacked api self i x.escrow_amount d)
          (internal_release_escrow api self env x a >>= f)
          Q
  unfolding internal_release_escrow
  Turns-released i d env x a f law e k =
      let actual = if ltb_ℤ x.escrow_amount a then x.escrow_amount else a in
      let paid = IsBacked api self i x.escrow_amount (d -ℤ actual) in
      Turns-test _ _ _ _ (λ c. Turns-pure _ _ (k x e))
        (λ c. Turns-block _ _ _ (
          Turns-step _ _ (search beside_rules) (λ o. Turns-block _ _ _ (
            Turns-step _ _ (search beside_rules) (λ t. Turns-block _ _ _ (
              Turns-step _ _
                (create_settlement-Beside (IsBacked-IsStable api self i _ _) _ _ _ _ _ _)
                (λ n. Turns-block _ _ _ (
                  Turns-or_else _ paid _ _ _ _
                    (transfer-Turns env i x.carrier _ _ _ law (actual_nonneg x.escrow_amount a c))
                    (search beside_parts)
                    (Turns-block _ _ _ (
                      Turns-checked_sub_escrow _ _ _ (λ r q. Turns-block _ _ _ (
                        Turns-persist i _ _ _ _ e (
                          Turns-block _ _ _ (
                            Turns-step _ _ (search beside_rules) (λ w. Turns-pure _ _ (
                              Turns-spare i _ _ _ _ (spare_released d actual x.escrow_amount r q)
                                (k _ e)))))))))))))))))

  pub Turns-release :
      (i : ℕ) (h d : ℤ) (env : Env) (x : Shipment) (a : ℤ) (f : Shipment → Call T A)
      → IsLawful api
      → x.id ≡ i
      → x.escrow_amount ≡ h
      → ((y : Shipment) → y.id ≡ i → Turns (IsBacked api self i y.escrow_amount d) (f y) Q)
      → Turns (IsBacked api self i h d) (internal_release_escrow api self env x a >>= f) Q
  Turns-release i h d env x a f law e v k = rw⁻¹ v (Turns-released i d env x a f law e k)

pub ruleset account_rules = (
  Turns-persist, Turns-finalize, Turns-transfer, Turns-release, Turns-last, Turns-finalize_last,
  Turns-set_last, Turns-pay_if_known, turns_rules, beside_parts, spare_rules,
)
