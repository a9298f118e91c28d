-- ===== src/Shipment/Custody.antt =====
-- What a token transfer by the contract changes: the token's ledger and the circuit breaker.
use navin_contracts.Host.{◌>>=◌, Env, Outcome, ok, err, trap}
use navin_contracts.Shipment.Breaker.{
  record_failure, CircuitBreakerTracker, closed, should_allow_request, record_success,
}
use navin_contracts.Shipment.Settlement.{
  record_transfer_failure, record_transfer_success, invoke_token_operation, check_transfer_allowed,
  invoke_token_transfer, get_tracker,
}
use navin_contracts.Shipment.Errors.{NavinError}
use navin_contracts.Shipment.Store.{Store, TokenApi}
use navin_contracts.Prelude.{some, ◌≡◌, ◌≤◌, arith, ℤ, ℕ, none, ◌⊎◌}

-- The breaker has counted no more failures than before, and has not opened from closed.
abbrev pub IsCalmer : CircuitBreakerTracker → CircuitBreakerTracker → Type 0
IsCalmer t t' = (t'.failure_count ≤ t.failure_count) × (t.state ≡ closed → t'.state ≡ closed)

-- How a transfer by the contract ends. With `Ok` the token has made it, the breaker is calmer, and
-- the rest of the storage is as it was; with an error it was the breaker that refused, or the token.
abbrev pub Pays :
    {T : Type 0}
    → TokenApi T
    → ℕ
    → ℕ
    → ℤ
    → Store T
    → Outcome (Store T) NavinError (Unit {0})
    → Type 0
Pays api from to amount s (ok a s') =
    (api.transfer from to amount s.token ≡ some s'.token)
    × (s' ≡ record s { token = s'.token; breaker = s'.breaker })
    × IsCalmer (get_tracker s) (get_tracker s')
Pays api from to amount s (err e s') =
    ((e ≡ NavinError.circuit_breaker_open) × (s' ≡ s))
    ⊎ ((e ≡ NavinError.token_transfer_failed)
        × (api.transfer from to amount s.token ≡ none)
        × (s'.token ≡ s.token))
Pays api from to amount s trap = Unit

-- A transfer by the contract that returns `Ok` has been made by the token, has counted no failure
-- and not opened the breaker, and changes nothing else in storage. One that returns an error has
-- moved nothing: the breaker refused and nothing is written, or the token's call failed.
pub invoke_token_transfer-Pays :
    {T : Type 0} (api : TokenApi T) (self : ℕ) (env : Env) (from to : ℕ) (amount : ℤ) (s : Store T)
    → Pays api from to amount s (invoke_token_transfer api self env from to amount s)
unfolding ◌>>=◌ invoke_token_transfer check_transfer_allowed invoke_token_operation
    record_transfer_success record_transfer_failure record_failure record_success
    should_allow_request
invoke_token_transfer-Pays api self env from to amount s = ground arith
