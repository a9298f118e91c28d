-- ===== src/Shipment/Calm/Payments.antt =====
-- The breaker over the calls of the token.
use navin_contracts.Shipment.Data.{Shipment}
use navin_contracts.Shipment.Keeps.{Keeps-or_else}
use navin_contracts.Shipment.Guards.{checked_sub_escrow}
use navin_contracts.Host.Keeps.{Keeps, Ends}
use navin_contracts.Shipment.Calm.{CalmFrom, calm_parts}
use navin_contracts.Host.{Outcome, Env, ok, err, trap}
use navin_contracts.Shipment.Custody.{invoke_token_transfer-Pays, Pays}
use navin_contracts.Shipment.Errors.{NavinError}
use navin_contracts.Shipment.Breaker.{CircuitBreakerTracker}
use navin_contracts.Shipment.Store.{Store, TokenApi}
use navin_contracts.Shipment.Settlement.{invoke_token_transfer, internal_release_escrow}
use navin_contracts.Prelude.{arith, ℤ, ℕ}

Pays-Calm :
    {T : Type 0} {t : CircuitBreakerTracker} (api : TokenApi T) (from to : ℕ) (amount : ℤ)
    (s : Store T) (o : Outcome (Store T) NavinError (Unit {0}))
    → Pays api from to amount s o
    → CalmFrom t s
    → Ends (CalmFrom t) o
Pays-Calm api from to amount s (ok a s') h c = record { calmer = ground arith }
Pays-Calm api from to amount s (err e s') h c = tt
Pays-Calm api from to amount s trap h c = tt

module _ {T : Type 0} {t : CircuitBreakerTracker} (api : TokenApi T) (self : ℕ) where
  pub invoke_token_transfer-Calm :
      (env : Env) (from to : ℕ) (amount : ℤ)
      → Keeps (CalmFrom t) (invoke_token_transfer api self env from to amount)
  invoke_token_transfer-Calm env from to amount = record {
    at = λ s p.
        Pays-Calm api from to amount s _ (invoke_token_transfer-Pays api self env from to amount s)
          p;
  }

  pub ruleset calm_calls = (calm_parts, Keeps-or_else, invoke_token_transfer-Calm)

  pub internal_release_escrow-Calm :
      (env : Env) (x : Shipment) (v : ℤ)
      → Keeps (CalmFrom t) (internal_release_escrow api self env x v)
  unfolding internal_release_escrow checked_sub_escrow
  internal_release_escrow-Calm env x v = search calm_calls depth 80 fits 5000
