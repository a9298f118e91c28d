-- ===== src/Shipment/Store.antt =====
-- The storage of the shipment contract, the part that the handlers read and write, and the
-- functions of contracts/shipment/src/storage.rs over it. The token contract is another contract:
-- its ledger `T` stands beside the storage, and `TokenApi` is what a call of it does.
use navin_contracts.Shipment.Data.{
  Settings, AuditLog, Roster, Registry, Progress, Council, Role, EscrowFreezeReason,
  SettlementRecord, FeeConfig, Shipment, Event,
}
use navin_contracts.Shipment.Config.{ContractConfig}
use navin_contracts.Prelude.{
  pos, ◌==◌, ◌-◌, insert, Map, ℤ, checked_add, ltb, ◌+◌, some, if◌then◌else◌, ◌^◌, ltb_ℤ, Option,
  lookup, ℕ, ◌∷◌, get_or, List, none, Bool, ◌&&◌, true,
}
use navin_contracts.Host.{Action, ◌>>=◌, ◌>>◌, gets, modify, fail_if, ok_or, unwrap, trap_unless}
use navin_contracts.Shipment.Errors.{NavinError}
use navin_contracts.Shipment.Status.{ShipmentStatus, status_eq}
use navin_contracts.Shipment.Breaker.{CircuitBreakerTracker, CircuitBreakerConfig}

-- What `try_invoke_contract` on the token gives: `decimals`, if the call succeeds, and the ledger
-- after `transfer from to amount`, if it succeeds. `balance` is what the ledger says an address
-- holds.
pub record TokenApi (T : Type 0) : Type 0 where
  pub decimals : T → Option ℕ
  pub transfer : ℕ → ℕ → ℤ → T → Option T
  pub balance : ℕ → T → ℤ

pub record Store (T : Type 0) : Type 0 where
  pub token : T
  pub admin : Option ℕ
  pub token_contract : Option ℕ
  pub is_paused : Bool
  pub reentrancy_lock : Bool
  pub shipments : Map Shipment  -- persistent
  pub archived : ℕ → Option Shipment  -- temporary
  pub escrow : ℕ → Option ℤ
  pub settlement_counter : ℕ
  pub settlements : ℕ → Option SettlementRecord
  pub active_settlement : ℕ → Option ℕ
  pub breaker : Option CircuitBreakerTracker
  pub breaker_config : Option CircuitBreakerConfig
  pub fee_config : Option FeeConfig
  pub status_count : ShipmentStatus → ℕ
  pub active_shipment_count : ℕ → ℕ
  pub total_escrow_volume : ℤ
  pub total_disputes : ℕ
  pub user_role : ℕ → Role → Bool
  pub role_suspended : ℕ → Role → Bool
  pub company_suspended : ℕ → Bool
  pub carrier_suspended : ℕ → Bool
  pub escrow_freeze_reason : ℕ → Option EscrowFreezeReason
  pub idempotency_window : ℕ → Bool
  pub config : Option ContractConfig
  pub registry : Registry
  pub progress : Progress
  pub council : Council
  pub roster : Roster
  pub audit : AuditLog
  pub settings : Settings
  pub event_count : ℕ → ℕ
  pub events : List (Event × ℕ)  -- the latest first, with its counter (0 where it has none)

abbrev pub Call : Type 0 → Type 0 → Type 0
Call T A = Action (Store T) NavinError A

abbrev pub u32_max : ℕ
u32_max = 2 ^ 32 - 1

-- `saturating_add(1)` on u32
abbrev pub saturating_suc : ℕ → ℕ
saturating_suc n = if ltb n u32_max then n + 1 else n

abbrev pub role_code : Role → ℕ
role_code Role.company = 0
role_code Role.carrier = 1
role_code Role.guardian = 2
role_code Role.operator = 3
role_code Role.unassigned = 4

abbrev pub role_eq : Role → Role → Bool
role_eq r q = role_code r == role_code q

module _ {T : Type 0} where
  -- The persistent entry, and the archived one where there is none.
  abbrev pub get_shipment : ℕ → Store T → Option Shipment
  get_shipment id s = elim (lookup id s.shipments) [ none ↦ s.archived id | some x ↦ some x ]

  abbrev pub set_shipment : Shipment → Store T → Store T
  set_shipment x s = record s { shipments = insert x.id x s.shipments }

  abbrev pub get_escrow : ℕ → Store T → ℤ
  get_escrow id s = get_or (s.escrow id) (pos 0)

  abbrev pub set_escrow : ℕ → ℤ → Store T → Store T
  set_escrow id v s = record s { escrow = λ k. if k == id then some v else s.escrow k }

  abbrev pub remove_escrow : ℕ → Store T → Store T
  remove_escrow id s = record s { escrow = λ k. if k == id then none else s.escrow k }

  abbrev pub set_escrow_freeze_reason : ℕ → EscrowFreezeReason → Store T → Store T
  set_escrow_freeze_reason id r s = record s {
    escrow_freeze_reason = λ k. if k == id then some r else s.escrow_freeze_reason k;
  }

  -- The next settlement ID; at u64::MAX the counter stays.
  abbrev pub increment_settlement_counter : Call T ℕ
  increment_settlement_counter = do
    n ← gets (λ s. s.settlement_counter)
    modify (λ s. record s { settlement_counter = if ltb n (2 ^ 64 - 1) then n + 1 else n })
    gets (λ s. s.settlement_counter)

  abbrev pub set_settlement : SettlementRecord → Store T → Store T
  set_settlement r s = record s {
    settlements = λ k. if k == r.settlement_id then some r else s.settlements k;
  }

  abbrev pub set_active_settlement : ℕ → ℕ → Store T → Store T
  set_active_settlement id n s = record s {
    active_settlement = λ k. if k == id then some n else s.active_settlement k;
  }

  abbrev pub clear_active_settlement : ℕ → Store T → Store T
  clear_active_settlement id s = record s {
    active_settlement = λ k. if k == id then none else s.active_settlement k;
  }

  abbrev pub set_status_count : ShipmentStatus → ℕ → Store T → Store T
  set_status_count st n s = record s {
    status_count = λ k. if status_eq k st then n else s.status_count k;
  }

  -- `current + 1` panics past u64::MAX.
  abbrev pub increment_status_count : ShipmentStatus → Call T (Unit {0})
  increment_status_count st = do
    n ← gets (λ s. s.status_count st)
    trap_unless (ltb (n + 1) (2 ^ 64))
    modify (set_status_count st (n + 1))

  abbrev pub decrement_status_count : ShipmentStatus → Store T → Store T
  decrement_status_count st s =
      if ltb 0 (s.status_count st) then set_status_count st (s.status_count st - 1) s else s

  abbrev pub decrement_active_shipment_count : ℕ → Store T → Store T
  decrement_active_shipment_count c s = record s {
    active_shipment_count =
        λ k. if k == c then s.active_shipment_count c - 1 else s.active_shipment_count k;
  }

  abbrev pub increment_total_disputes : Call T (Unit {0})
  increment_total_disputes = do
    n ← gets (λ s. s.total_disputes)
    trap_unless (ltb (n + 1) (2 ^ 64))
    modify (λ s. record s { total_disputes = n + 1 })

  abbrev pub add_total_escrow_volume : ℤ → Call T (Unit {0})
  add_total_escrow_volume amount = do
    fail_if (ltb_ℤ amount (pos 0)) NavinError.arithmetic_error
    current ← gets (λ s. s.total_escrow_volume)
    updated ← ok_or (checked_add current amount) NavinError.arithmetic_error
    fail_if (ltb_ℤ updated (pos 0)) NavinError.arithmetic_error
    modify (λ s. record s { total_escrow_volume = updated })

  -- The role becomes the primary one, besides those that the address has.
  abbrev pub set_role : ℕ → Role → Store T → Store T
  set_role a role s = record s {
    user_role = λ k r. if k == a && role_eq r role then true else s.user_role k r;
    roster = record s.roster {
      primary_role = λ k. if k == a then some role else s.roster.primary_role k;
    };
  }

  -- An event with no counter.
  abbrev pub publish : Event → Store T → Store T
  publish e s = record s { events = (e, 0) ∷ s.events }

  -- An event of a shipment, with the shipment's next event counter, which is then stored.
  abbrev pub publish_counted : ℕ → Event → Store T → Store T
  publish_counted id e s = record s {
    events = (e, saturating_suc (s.event_count id)) ∷ s.events;
    event_count = λ k. if k == id then saturating_suc (s.event_count id) else s.event_count k;
  }

  -- The same for an event that names the token contract: `get_token_contract(env).unwrap()`.
  abbrev pub publish_with_token : ℕ → Event → Call T (Unit {0})
  publish_with_token id e = do
    c ← gets (λ s. s.token_contract)
    t ← unwrap c
    modify (publish_counted id e)

  abbrev pub extend_shipment_ttl : ℕ → Store T → Store T
  extend_shipment_ttl id = publish (Event.extend_shipment_ttl id)
