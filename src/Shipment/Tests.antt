-- ===== src/Shipment/Tests.antt =====
-- The shipment contract's theorems at concrete inputs, over a token that holds one pool of funds.
mod Handlers
mod Registers
mod Accounts
mod Roles
use navin_contracts.Host.{◌>>=◌, Env, invoke}
use navin_contracts.Shipment.Guards.{finalize_if_settled, persist_shipment, shipment_invariants}
use navin_contracts.Shipment.Cancelled.{cancelled_of, cancel_shipment_strands}
use navin_contracts.Shipment.Calls.{Request, execute, handle}
use navin_contracts.Shipment.Access.{Entitled, handle-Entitled}
use navin_contracts.Shipment.Frozen.{paused-execute, finalized-execute}
use navin_contracts.Shipment.Store.{get_shipment, get_escrow, Store, TokenApi}
use navin_contracts.Shipment.Custody.{invoke_token_transfer-Pays, Pays}
use navin_contracts.Shipment.Settlement.{invoke_token_transfer}
use navin_contracts.Shipment.Dispute.{cancel_shipment}
use navin_contracts.Shipment.Data.{HostApi, Shipment}
use navin_contracts.Shipment.Status.{ShipmentStatus, is_valid_transition}
use navin_contracts.Shipment.Status.Lifecycle.{path-returns, IsMoving, step, here}
use navin_contracts.Shipment.Breaker.{CircuitBreakerConfig, closed, custom, resolve, strict}
use navin_contracts.Shipment.Breaker.Config.{IsSane, resolve-IsSane}
use navin_contracts.Shipment.Breaker.Traces.{
  IsSound, signals, signals-IsSound, success, failure, request, Signal, closed_failures_add_up,
}
use navin_contracts.Shipment.RateLimit.{RateLimitConfig, QuotaTracker, Quotas, remaining_quota}
use navin_contracts.Shipment.RateLimit.Window.{granted, granted-le-remaining}
use navin_contracts.Prelude.{
  arith, ◌≡◌, [], if◌then◌else◌, List, refl, some, ◌∷◌, none, ◌==◌, true, ℕ, ◌≤◌, ◌+◌, ◌⊎◌, ℤ, pos,
  ◌-ℤ◌, leb_ℤ, false,
}
use navin_contracts.Shipment.Breaker

-- From a checkpoint back to the road and to the checkpoint again.
path-returns_example :
    (ShipmentStatus.in_transit ≡ ShipmentStatus.at_checkpoint)
    ⊎ (IsMoving ShipmentStatus.in_transit × IsMoving ShipmentStatus.at_checkpoint)
unfolding is_valid_transition
path-returns_example = path-returns (step refl here) (step refl here)

abbrev quick : CircuitBreakerConfig
quick = record { failure_threshold = 2; recovery_timeout = 60; half_open_max_requests = 2 }

quick-IsSane : IsSane quick
quick-IsSane = record {
  opens = omega arith;
  opens_in_time = omega arith;
  recovers = omega arith;
  admits = omega arith;
  admits_few = omega arith;
}

resolve-IsSane_example : IsSane quick
unfolding ◌>>=◌ resolve
resolve-IsSane_example = resolve-IsSane (custom 2 60 2) refl

abbrev history : List Signal
history = request 10 ∷ failure 10 ∷ success ∷ failure 20 ∷ request 50 ∷ request 90 ∷ []

signals-IsSound_example : IsSound quick (signals quick history Breaker.new)
signals-IsSound_example = signals-IsSound quick history quick-IsSane

closed_failures_add_up_example :
    let t = signals strict (failure 1 ∷ success ∷ failure 2 ∷ []) Breaker.new in
    (t.state ≡ closed) × (t.failure_count ≡ 2)
closed_failures_add_up_example =
    closed_failures_add_up strict (failure 1 ∷ success ∷ failure 2 ∷ []) Breaker.new refl
      (omega arith) (omega arith)

abbrev pub at : ℕ → Env
at now = record { sequence = 10; timestamp = now; authorized = λ a. true }

abbrev few : RateLimitConfig
few = record { max_operations = 5; window_seconds = 100 }

abbrev used : QuotaTracker
used = record { operations_count = 3; window_start = 1000 }

abbrev quotas : Quotas
quotas = record { quota = λ a. if a == 7 then some used else none; admin_list = [] }

granted-le-remaining_example :
    granted 7 few ((at 1010, 1) ∷ (at 1020, 4) ∷ (at 1030, 1) ∷ []) quotas
    ≤ remaining_quota used few
granted-le-remaining_example =
    granted-le-remaining 7 few ((at 1010, 1) ∷ (at 1020, 4) ∷ (at 1030, 1) ∷ []) used quotas refl
      (omega arith) (omega arith, (omega arith, (omega arith, tt)))

-- One pool of funds held by the contract, address 100; a transfer takes from it what it holds.
abbrev pub pool : TokenApi ℤ
pool = record {
  decimals = λ t. some 7;
  transfer = λ from to amount t. if leb_ℤ amount t then some (t -ℤ amount) else none;
  balance = λ a t. if a == 100 then t else pos 0;
}

abbrev pub parcel : Shipment
parcel = record {
  id = 1;
  sender = 11;
  receiver = 12;
  carrier = 13;
  status = ShipmentStatus.created;
  data_hash = 5;
  created_at = 900;
  updated_at = 950;
  escrow_amount = pos 40;
  total_escrow = pos 40;
  metadata = none;
  payment_milestones = [];
  paid_milestones = [];
  milestones_completed = [];
  deadline = 5000;
  integration_nonce = 2;
  finalized = false;
}

-- A store with that shipment, over the ledger of any token.
abbrev pub stocked : {T : Type 0} → T → Store T
stocked t = record {
  token = t;
  admin = some 10;
  token_contract = some 99;
  is_paused = false;
  reentrancy_lock = false;
  shipments = (1, parcel) ∷ [];
  archived = λ k. none;
  escrow = λ k. if k == 1 then some (pos 40) else none;
  settlement_counter = 1;
  settlements = λ k. none;
  active_settlement = λ k. none;
  breaker = none;
  breaker_config = none;
  fee_config = none;
  status_count = λ k. 1;
  active_shipment_count = λ k. 1;
  total_escrow_volume = pos 40;
  total_disputes = 0;
  user_role = λ a r. true;
  role_suspended = λ a r. false;
  company_suspended = λ a. false;
  carrier_suspended = λ a. false;
  escrow_freeze_reason = λ k. none;
  idempotency_window = λ k. false;
  config = none;
  registry = record {
    shipment_counter = 1;
    shipment_limit = some 100;
    company_limit = λ a. none;
    creation_quota = λ a. none;
  };
  progress = record {
    last_status_update = λ k. none;
    status_hash = λ k st. none;
    confirmation_hash = λ k. none;
    milestone_event_count = λ k. 0;
    prerequisites = λ k. [];
  };
  council = record {
    admin_list = some (21 ∷ 22 ∷ 23 ∷ []);
    threshold = some 2;
    proposal_counter = 0;
    proposals = λ k. none;
    digests = λ k. none;
    used_salts = λ k. false;
    proposed_admin = none;
    version = 1;
  };
  roster = record { primary_role = λ a. none; whitelist = λ a b. false };
  audit = record { entries = λ n. none; entry_count = 0 };
  settings = record { config_checksum = none; treasury = none };
  event_count = λ k. 0;
  events = [];
}

abbrev pub running : Store ℤ
running = stocked (pos 40)

abbrev paused : Store ℤ
paused = record running { is_paused = true }

abbrev settled : Shipment
settled = record parcel {
  status = ShipmentStatus.cancelled;
  escrow_amount = pos 0;
  finalized = true;
}

abbrev closed_store : Store ℤ
closed_store = record running { shipments = (1, settled) ∷ [] }

-- Every symbol is one letter here, and the hashes are sums.
abbrev pub host : HostApi
host = record {
  symbol_xdr = λ n. 0 ∷ 0 ∷ 0 ∷ 15 ∷ 0 ∷ 0 ∷ 0 ∷ 1 ∷ (64 + n) ∷ 0 ∷ 0 ∷ 0 ∷ [];
  resolution_hash = λ i r h. i + h;
  update_hash = λ i st h. i + h;
  creation_hash = λ a h. a + h;
  action_digest = λ i a. i;
  address_xdr = λ a. [];
  config_checksum = λ c. 1;
}

paused-execute_example : execute pool 100 host (at 1000) (Request.refund 11 1) paused ≡ paused
paused-execute_example = paused-execute pool 100 host (at 1000) (Request.refund 11 1) paused refl

finalized-execute_example :
    execute pool 100 host (at 1000) (Request.refund 11 1) closed_store ≡ closed_store
finalized-execute_example =
    finalized-execute pool 100 host (at 1000) (Request.refund 11 1) settled closed_store refl refl

invoke_token_transfer-Pays_example :
    Pays pool 100 13
      (pos 30)
      running
      (invoke_token_transfer pool 100 (at 1000) 100 13 (pos 30) running)
invoke_token_transfer-Pays_example =
    invoke_token_transfer-Pays pool 100 (at 1000) 100 13 (pos 30) running

handle-Entitled_example :
    ((at 1000).authorized 11 ≡ true) × Entitled (Request.cancel 11 1 6) parcel running
unfolding ◌>>=◌ handle cancel_shipment shipment_invariants persist_shipment finalize_if_settled
handle-Entitled_example =
    handle-Entitled pool 100 host (at 1000) (Request.cancel 11 1 6) parcel running refl tt

cancel_shipment_strands_example :
    let s' = invoke (cancel_shipment (at 1000) 11 1 6) running in
    (s'.token ≡ pos 40)
    × (get_escrow 1 s' ≡ pos 0)
    × (get_shipment 1 s' ≡ some (cancelled_of (at 1000) parcel))
    × (execute pool 100 host (at 2000) (Request.refund 11 1) s' ≡ s')
unfolding ◌>>=◌ cancel_shipment shipment_invariants persist_shipment finalize_if_settled
cancel_shipment_strands_example =
    cancel_shipment_strands pool 100 host (at 1000) (at 2000) 11 6 (Request.refund 11 1) parcel
      running refl refl tt
