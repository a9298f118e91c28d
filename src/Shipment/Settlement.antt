-- ===== src/Shipment/Settlement.antt =====
-- Token transfers and their settlement records: the helpers of contracts/shipment/src/lib.rs that
-- the handlers share, and the stored circuit breaker of circuit_breaker.rs.
use navin_contracts.Host.{Env, ◌>>=◌, ◌>>◌, gets, modify, fail_if, ok_or, pure, ok, err, trap}
use navin_contracts.Shipment.Errors.{NavinError, code}
use navin_contracts.Shipment.Breaker.{
  CircuitBreakerTracker, CircuitBreakerConfig, BreakerCall, CircuitBreakerState, new,
  default_config, record_success, record_failure, should_allow_request,
}
use navin_contracts.Shipment.Data.{Shipment, SettlementOperation, SettlementState, Event}
use navin_contracts.Shipment.Store.{
  Store, Call, TokenApi, increment_settlement_counter, set_settlement, set_active_settlement,
  clear_active_settlement, publish, publish_with_token, saturating_suc,
}
use navin_contracts.Shipment.Guards.{fail, checked_sub_escrow, persist_shipment}
use navin_contracts.Prelude.{
  true, ◌||◌, none, some, leb_ℤ, false, ℕ, not, pos, ℤ, ◌==◌, get_or, ltb_ℤ, if◌then◌else◌, Bool,
}

abbrev is_open : CircuitBreakerState → Bool
is_open CircuitBreakerState.open_state = true
is_open _ = false

module _ {T : Type 0} where
  -- `get(..).unwrap_or_default()`
  abbrev pub get_config : Store T → CircuitBreakerConfig
  get_config s = get_or s.breaker_config default_config

  abbrev pub get_tracker : Store T → CircuitBreakerTracker
  get_tracker s = get_or s.breaker new

  -- Run a method of the tracker, and store the tracker that it leaves if it returned `Ok`.
  abbrev pub on_breaker : BreakerCall (Unit {0}) → Call T (Unit {0})
  on_breaker m s = elim (m (get_tracker s)) [
    | ok a t ↦ ok tt (record s { breaker = some t })
    | err e t ↦ err e s
    | trap ↦ trap
  ]

  unfoldable pub check_transfer_allowed : Env → CircuitBreakerConfig → Call T (Unit {0})
  check_transfer_allowed env config = on_breaker (should_allow_request config env.timestamp)

  unfoldable pub record_transfer_success : Store T → Store T
  record_transfer_success s = record s { breaker = some (record_success (get_tracker s)) }

  unfoldable pub record_transfer_failure : Env → CircuitBreakerConfig → Call T (Unit {0})
  record_transfer_failure env config = do
    on_breaker (record_failure config env.timestamp)
    t ← gets get_tracker
    modify (λ s.
        if is_open t.state
        then publish (Event.circuit_breaker_opened t.failure_count env.timestamp) s
        else s)

  unfoldable pub create_settlement : Env → ℕ → SettlementOperation → ℤ → ℕ → ℕ → Call T ℕ
  create_settlement env shipment_id operation amount from to = do
    settlement_id ← increment_settlement_counter
    modify (
        set_settlement (record {
          settlement_id = settlement_id;
          shipment_id = shipment_id;
          operation = operation;
          state = SettlementState.pending;
          amount = amount;
          from = from;
          to = to;
          initiated_at = env.timestamp;
          completed_at = none;
          error_code = none;
        }))
    modify (set_active_settlement shipment_id settlement_id)
    pure settlement_id

  unfoldable pub complete_settlement : Env → ℕ → ℕ → Call T (Unit {0})
  complete_settlement env settlement_id shipment_id = do
    o ← gets (λ s. s.settlements settlement_id)
    r ← ok_or o NavinError.shipment_not_found
    modify (
        set_settlement
          (record r { state = SettlementState.completed; completed_at = some env.timestamp }))
    modify (clear_active_settlement shipment_id)

  unfoldable pub fail_settlement : Env → ℕ → ℕ → ℕ → Call T (Unit {0})
  fail_settlement env settlement_id shipment_id error_code = do
    o ← gets (λ s. s.settlements settlement_id)
    r ← ok_or o NavinError.shipment_not_found
    modify (
        set_settlement (record r {
          state = SettlementState.failed;
          completed_at = some env.timestamp;
          error_code = some error_code;
        }))
    modify (clear_active_settlement shipment_id)

  -- `match m { Ok(()) => k, Err(e) => { h(e)?; return Err(e); } }`: what `m` wrote stays written.
  abbrev pub or_else :
      Call T (Unit {0}) → Call T (Unit {0}) → (NavinError → Call T (Unit {0})) → Call T (Unit {0})
  or_else m k h s = elim (m s) [ ok a s' ↦ k s' | err e s' ↦ (h e >> fail e) s' | trap ↦ trap ]

-- The contract's own address, `env.current_contract_address()`, and the token's behaviour.
module _ {T : Type 0} (api : TokenApi T) (self : ℕ) where
  -- A call of the token that fails leaves its ledger alone; every failure is the same error.
  unfoldable pub invoke_token_operation : ℕ → ℕ → ℤ → Call T (Unit {0})
  invoke_token_operation from to amount s = elim (api.transfer from to amount s.token) [
    | some t ↦ ok tt (record s { token = t })
    | none ↦ err NavinError.token_transfer_failed s
  ]

  unfoldable pub invoke_token_transfer : Env → ℕ → ℕ → ℤ → Call T (Unit {0})
  invoke_token_transfer env from to amount = do
    config ← gets get_config
    check_transfer_allowed env config
    or_else (invoke_token_operation from to amount) (modify record_transfer_success)
        (λ e. record_transfer_failure env config)

  unfoldable pub validate_token_decimals : Call T (Unit {0})
  validate_token_decimals = do
    d ← gets (λ s. api.decimals s.token)
    fail_if (not (get_or d 0 == 7)) NavinError.invalid_token_decimals

  unfoldable pub internal_release_escrow : Env → Shipment → ℤ → Call T Shipment
  internal_release_escrow env x amount =
      let actual = if ltb_ℤ x.escrow_amount amount then x.escrow_amount else amount in
      if leb_ℤ amount (pos 0) || leb_ℤ actual (pos 0) then pure x else (do
        c ← gets (λ s. s.token_contract)
        token_contract ← ok_or c NavinError.not_initialized
        settlement_id ← create_settlement env x.id SettlementOperation.release actual self x.carrier
        or_else (invoke_token_transfer env self x.carrier actual)
            (complete_settlement env settlement_id x.id)
            (λ e. fail_settlement env settlement_id x.id (code e))
        left ← checked_sub_escrow x.escrow_amount actual
        let x' = record x {
          escrow_amount = left;
          updated_at = env.timestamp;
          integration_nonce = saturating_suc x.integration_nonce;
        }
        persist_shipment x'
        publish_with_token x.id (Event.escrow_released x.id x.carrier actual)
        pure x')
