-- ===== src/Shipment/Solvency/Deposits.antt =====
-- Deposits over the accounts: what the sender pays in, less the platform fee, is the new escrow.
use navin_contracts.Shipment.Solvency.Rules.{
  checked_sub-some, Turns-transfer, Turns-or_else, account_rules,
}
use navin_contracts.Host.Turns.{
  Turns-ok_or, Turns-block, Turns-test, Turns-part, Turns-if, Turns-pure, Turns, Turns-step,
}
use navin_contracts.Shipment.Solvency.Payments.{Turns-spare, receive-Turns, load-Turns}
use navin_contracts.Shipment.Settlement.{validate_token_decimals}
use navin_contracts.Shipment.Guards.{
  checked_sub_i128, validate_positive_amount, checked_mul_div_i128,
}
use navin_contracts.Host.{Env, ◌>>=◌}
use navin_contracts.Shipment.Store.{Store, TokenApi, Call}
use navin_contracts.Shipment.Data.{FeeConfig}
use navin_contracts.Shipment.Escrow.{collect_fee, deposit_locked}
use navin_contracts.Shipment.Solvency.{IsSolvent, IsLawful, IsBacked}
use navin_contracts.Shipment.Solvency.Steps.{beside_parts, beside_rules}
use navin_contracts.Prelude.{
  ℕ, ℤ, Option, none, some, int_laws, arith, ◌+ℤ◌, pos, ltb_ℤ, ◌-ℤ◌, true, ◌≡◌, ◌≤ℤ◌,
}

spare_net : (a fee net : ℤ) → net ≡ a -ℤ fee → a -ℤ fee ≡ net
spare_net a fee net e = cc e

positive-nonneg : (a : ℤ) → ltb_ℤ (pos 0) a ≡ true → pos 0 ≤ℤ a
positive-nonneg a h = ground arith

spare_received : (a : ℤ) → pos 0 +ℤ a ≡ a
spare_received a = grind int_laws

spare_deposited : (net h : ℤ) → pos 0 ≤ℤ h → pos 0 ≤ℤ net +ℤ (h -ℤ net)
spare_deposited net h p = grind int_laws

module _ {T : Type 0} (api : TokenApi T) (self : ℕ) (law : IsLawful api) where
  -- What is left of the amount is there to spare.
  Turns-collect_fee :
      {A : Type 0} {Q : Store T → Type 0} (i n : ℕ) (h a : ℤ) (env : Env) (fee : Option FeeConfig)
      (f : ℤ → Call T A)
      → ((net : ℤ) → Turns (IsBacked api self i h net) (f net) Q)
      → Turns (IsBacked api self i h a) (collect_fee api self env n a fee >>= f) Q
  unfolding collect_fee checked_mul_div_i128 checked_sub_i128
  Turns-collect_fee i n h a env none f k = Turns-pure _ _ (k a)
  Turns-collect_fee i n h a env (some fee) f k =
      Turns-if _ _ _ _
        (Turns-part _ _ _ (search beside_rules) (λ cut.
          Turns-test _ _ _ _
            (λ c. Turns-block _ _ _ (
              Turns-transfer i h a env fee.treasury cut _ law (positive-nonneg cut c) (
                Turns-block _ _ _ (
                  Turns-ok_or _ _ _ (λ net e. Turns-part _ _ _ (search beside_rules) (λ u.
                    Turns-pure _ _ (
                      Turns-spare i h _ net _ (spare_net a cut net (checked_sub-some a cut net e))
                        (k net))))))))
            (λ c. Turns-pure _ _ (k a))))
        (Turns-pure _ _ (k a))

  pub deposit_locked-Turns :
      (env : Env) (a i : ℕ) (v : ℤ)
      → ¬ (a ≡ self)
      → Turns (IsSolvent api self) (deposit_locked api self env a i v) (IsSolvent api self)
  unfolding deposit_locked validate_positive_amount validate_token_decimals
  deposit_locked-Turns env a i v n = Turns-step _ _ (search beside_rules) (λ u.
      load-Turns _ _ (λ x e p. Turns-step _ _ (search beside_parts) (λ u.
        Turns-step _ _ (search beside_parts) (λ u. Turns-step _ _ (search beside_parts) (λ u.
          Turns-step _ _ (search beside_parts) (λ c. Turns-step _ _ (search beside_parts) (λ t.
            Turns-step _ _ (search beside_parts) (λ u. Turns-step _ _ (search beside_parts) (λ m.
              Turns-or_else _ (IsBacked api self i x.escrow_amount (pos 0 +ℤ v)) _ _ _ _
                (receive-Turns env i a _ _ v law n) (search beside_parts)
                (Turns-step _ _ (search beside_parts) (λ fee.
                  Turns-spare i _ _ _ _ (spare_received v) (
                    Turns-collect_fee i i _ v env fee _ (λ net.
                      search (spare_deposited, account_rules) depth 80 fits 5000)))))))))))))
