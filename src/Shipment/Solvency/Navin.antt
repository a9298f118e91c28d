-- ===== src/Shipment/Solvency/Navin.antt =====
-- The Navin token (contracts/token) as the token that the shipment contract calls.
use navin_contracts.Token.Control.{decimals}
use navin_contracts.Token.Ledger.{balance_of-insert, balance_of}
use navin_contracts.Host.{Env, ◌>>=◌, Outcome, ok, err, trap}
use navin_contracts.Host.Keeps.{Ends}
use navin_contracts.Token.State.{Token, TokenError}
use navin_contracts.Token.Storage.{get_balance}
use navin_contracts.Token.Transfer.{transfer}
use navin_contracts.Shipment.Store.{TokenApi}
use navin_contracts.Shipment.Solvency.{IsLawful}
use navin_contracts.Prelude.{
  ℕ, ℤ, ◌+ℤ◌, ◌-ℤ◌, ◌≡◌, Option, none, some, insert, arith, checked_sub, false, ◌==◌, if◌then◌else◌,
  checked_add, pos, int_laws,
}

-- The ledger after a call that returned `Ok`.
abbrev ledger : Outcome Token TokenError (Unit {0}) → Option Token
ledger (ok a t) = some t
ledger (err e t) = none
ledger trap = none

abbrev value : {A : Type 0} → Outcome Token TokenError A → Option A
value (ok a t) = some a
value (err e t) = none
value trap = none

-- `env` is what the token's call sees, in which the shipment contract has signed for itself.
unfoldable pub navin_api : Env → TokenApi Token
unfolding transfer decimals
navin_api env = record {
  decimals = λ t. value (decimals t);
  transfer = λ from to amount t. ledger (transfer env from to amount t);
  balance = get_balance;
}

-- The two balances that a transfer writes.
abbrev Sent : ℕ → ℕ → ℤ → Token → Token → Type 0
Sent from to a t t' =
    ((from == to) ≡ false)
    × (t'.balances
        ≡ insert to (balance_of to t.balances +ℤ a)
            (insert from (balance_of from t.balances -ℤ a) t.balances))

transfer-Sent :
    (env : Env) (from to : ℕ) (a : ℤ) (t : Token)
    → Ends (Sent from to a t) (transfer env from to a t)
unfolding transfer ◌>>=◌ checked_sub checked_add
transfer-Sent env from to a t = ground arith

Ends-ledger :
    (P : Token → Type 0) (o : Outcome Token TokenError (Unit {0})) (t' : Token)
    → Ends P o
    → ledger o ≡ some t'
    → P t'
Ends-ledger P (ok a t) t' h e = ground (arith, e, h)
Ends-ledger P (err x t) t' h e = ground arith
Ends-ledger P trap t' h e = ground arith

Sent-moves :
    (from to : ℕ) (a : ℤ) (t t' : Token) (k : ℕ)
    → Sent from to a t t'
    → get_balance k t' +ℤ (if k == from then a else pos 0)
      ≡ get_balance k t +ℤ (if k == to then a else pos 0)
Sent-moves from to a t t' k h =
    let v = balance_of to t.balances +ℤ a in
    let w = balance_of from t.balances -ℤ a in
    grind (
      int_laws,
      h,
      balance_of-insert k to v (insert from w t.balances),
      balance_of-insert k from w t.balances,
    )

-- The Navin token does what the shipment contract takes a token to do.
pub navin_api-IsLawful : (env : Env) → IsLawful (navin_api env)
unfolding navin_api
navin_api-IsLawful env = record {
  moves = λ from to a t t' e k. Sent-moves from to a t t' k (
      Ends-ledger (Sent from to a t) (transfer env from to a t) t' (transfer-Sent env from to a t)
        e);
}
