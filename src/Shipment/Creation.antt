-- ===== src/Shipment/Creation.antt =====
-- The creation of shipments: `create_shipment`, `create_shipments_batch`, the limits on it, and the
-- validators of payment milestones, in contracts/shipment/src/lib.rs, storage.rs and validation.rs.
pub mod Registered
pub mod Handlers
use navin_contracts.Host.{Env, ◌>>=◌, ◌>>◌, gets, modify, fail_if, require_auth, pure, trap_unless}
use navin_contracts.Shipment.Errors.{NavinError}
use navin_contracts.Shipment.Status.{ShipmentStatus}
use navin_contracts.Shipment.Data.{
  Shipment, ShipmentInput, HostApi, Event, NotificationType, Role, CreationQuotaTracker,
}
use navin_contracts.Shipment.Store.{
  Call, Store, publish, publish_with_token, extend_shipment_ttl, increment_status_count,
  saturating_suc,
}
use navin_contracts.Shipment.Guards.{
  require_initialized, require_not_paused, require_role, validate_hash, check_idempotency,
  persist_shipment,
}
use navin_contracts.Shipment.Symbols.{validate_symbol, validate_symbol_chars}
use navin_contracts.Shipment.Progress.{get_contract_config}
use navin_contracts.Prelude.{
  ℕ, pos, List, [], ◌∷◌, none, some, Bool, true, false, not, ◌||◌, ◌&&◌, ◌==◌, ltb, leb, ◌+◌, ◌-◌,
  ◌^◌, if◌then◌else◌, get_or, length,
}

-- `==` on byte sequences
abbrev pub bytes_eq : List ℕ → List ℕ → Bool
bytes_eq [] [] = true
bytes_eq [] (b ∷ bs) = false
bytes_eq (a ∷ more) [] = false
bytes_eq (a ∷ more) (b ∷ bs) = a == b && bytes_eq more bs

module _ (xdr : ℕ → List ℕ) where
  -- A later milestone of the same name.
  unfoldable pub named_again : ℕ → List (ℕ × ℕ) → Bool
  named_again name [] = false
  named_again name ((n, pct) ∷ rest) = bytes_eq (xdr name) (xdr n) || named_again name rest

  unfoldable pub has_duplicates : List (ℕ × ℕ) → Bool
  unfolding named_again
  has_duplicates [] = false
  has_duplicates ((n, pct) ∷ rest) = named_again n rest || has_duplicates rest

-- The sum of the percentages. The sum is on u32, which it cannot leave: each is at most 100 by then.
unfoldable pub total_percentage : List (ℕ × ℕ) → ℕ
total_percentage [] = 0
total_percentage ((n, pct) ∷ rest) = pct + total_percentage rest

-- The shipment of an input.
abbrev pub new_shipment : ℕ → ℕ → ℕ → ShipmentInput → Shipment
new_shipment now id sender input = record {
  id = id;
  sender = sender;
  receiver = input.receiver;
  carrier = input.carrier;
  status = ShipmentStatus.created;
  data_hash = input.data_hash;
  created_at = now;
  updated_at = now;
  escrow_amount = pos 0;
  total_escrow = pos 0;
  metadata = none;
  payment_milestones = input.payment_milestones;
  paid_milestones = [];
  milestones_completed = [];
  deadline = input.deadline;
  integration_nonce = 0;
  finalized = false;
}

-- `a.saturating_add(b)` on u32
abbrev pub saturating_add_u32 : ℕ → ℕ → ℕ
saturating_add_u32 a b = if ltb (a + b) (2 ^ 32) then a + b else 2 ^ 32 - 1

module _ {T : Type 0} where
  -- The first loop of `validate_milestone_symbols`. Its second call of `validate_symbol`, with another
  -- error, cannot fail after the first.
  unfoldable pub validate_each : HostApi → List (ℕ × ℕ) → Call T (Unit {0})
  unfolding validate_symbol validate_symbol_chars
  validate_each host [] = pure tt
  validate_each host ((n, pct) ∷ rest) = do
    validate_symbol (host.symbol_xdr n)
    validate_symbol_chars (host.symbol_xdr n)
    fail_if (pct == 0 || ltb 100 pct) NavinError.invalid_payment_milestones
    validate_each host rest

  -- Where there is no milestone, nothing is asked.
  unfoldable pub validate_milestones : HostApi → List (ℕ × ℕ) → Call T (Unit {0})
  unfolding validate_each has_duplicates total_percentage
  validate_milestones host [] = pure tt
  validate_milestones host (m ∷ ms) = do
    validate_each host (m ∷ ms)
    fail_if (has_duplicates host.symbol_xdr (m ∷ ms)) NavinError.duplicate_payment_milestone
    fail_if (not (total_percentage (m ∷ ms) == 100)) NavinError.milestone_sum_invalid

  abbrev pub get_shipment_limit : Store T → ℕ
  get_shipment_limit s = get_or s.registry.shipment_limit 100

  abbrev pub get_effective_shipment_limit : ℕ → Store T → ℕ
  get_effective_shipment_limit company s =
      get_or (s.registry.company_limit company) (get_shipment_limit s)

  abbrev pub set_shipment_counter : ℕ → Store T → Store T
  set_shipment_counter n s = record s { registry = record s.registry { shipment_counter = n } }

  abbrev pub set_creation_quota : ℕ → CreationQuotaTracker → Store T → Store T
  set_creation_quota company t s = record s {
    registry = record s.registry {
      creation_quota = λ k. if k == company then some t else s.registry.creation_quota k;
    };
  }

  abbrev pub increment_active_shipment_count : ℕ → Store T → Store T
  increment_active_shipment_count c s = record s {
    active_shipment_count = λ k.
        if k == c then saturating_suc (s.active_shipment_count c) else s.active_shipment_count k;
  }

  -- The stored tracker, or a new one.
  abbrev pub quota_tracker : ℕ → ℕ → Store T → CreationQuotaTracker
  quota_tracker now company s =
      get_or (s.registry.creation_quota company) (record { count = 0; window_start = now })

  -- `window_start + creation_quota_window_seconds` panics past u64::MAX.
  unfoldable pub check_and_update_creation_quota_by : Env → ℕ → ℕ → Call T (Unit {0})
  check_and_update_creation_quota_by env company requested = do
    cfg ← gets get_contract_config
    if cfg.creation_quota_max == 0 || requested == 0 then pure tt else (do
      t ← gets (quota_tracker env.timestamp company)
      trap_unless (ltb (t.window_start + cfg.creation_quota_window_seconds) (2 ^ 64))
      let expired = leb (t.window_start + cfg.creation_quota_window_seconds) env.timestamp
      let start = if expired then env.timestamp else t.window_start
      let count = if expired then 0 else t.count
      fail_if (not (ltb (count + requested) (2 ^ 32))) NavinError.counter_overflow
      fail_if (ltb cfg.creation_quota_max (count + requested)) NavinError.creation_quota_exceeded
      modify
          (set_creation_quota company (record { count = count + requested; window_start = start })))

  -- What both handlers do with an input that they accept: the next ID, the shipment under it, the
  -- counters and the events.
  unfoldable pub register_shipment : Env → ℕ → ShipmentInput → Call T ℕ
  register_shipment env sender input = do
    n ← gets (λ s. s.registry.shipment_counter)
    fail_if (not (ltb (n + 1) (2 ^ 64))) NavinError.counter_overflow
    persist_shipment (new_shipment env.timestamp (n + 1) sender input)
    modify (set_shipment_counter (n + 1))
    increment_status_count ShipmentStatus.created
    modify (increment_active_shipment_count sender)
    modify (extend_shipment_ttl (n + 1))
    publish_with_token (n + 1)
        (Event.shipment_created (n + 1) sender input.receiver input.data_hash)
    modify (
        publish (
          Event.notification input.receiver NotificationType.shipment_created (n + 1)
            input.data_hash))
    modify (
        publish (
          Event.notification input.carrier NotificationType.shipment_created (n + 1)
            input.data_hash))
    pure (n + 1)

  -- Everything that `create_shipment` asks for before it registers the shipment.
  unfoldable pub check_creation : HostApi → Env → ℕ → ShipmentInput → Call T (Unit {0})
  unfolding require_initialized require_not_paused require_role validate_milestones
      check_and_update_creation_quota_by
  check_creation host env sender input = do
    require_initialized
    require_not_paused
    require_auth env sender
    require_role sender Role.company
    validate_milestones host input.payment_milestones
    validate_hash input.data_hash
    fail_if
        (sender == input.receiver || (sender == input.carrier || input.receiver == input.carrier))
        NavinError.invalid_shipment_participants
    check_idempotency (host.creation_hash sender input.data_hash)
    fail_if (leb input.deadline env.timestamp) NavinError.invalid_timestamp
    current_active ← gets (λ s. s.active_shipment_count sender)
    limit ← gets (get_effective_shipment_limit sender)
    fail_if (leb limit current_active) NavinError.shipment_limit_reached
    check_and_update_creation_quota_by env sender 1

  -- The arguments of `create_shipment` after the sender are one input.
  unfoldable pub create_shipment : HostApi → Env → ℕ → ShipmentInput → Call T ℕ
  unfolding check_creation register_shipment
  create_shipment host env sender input = do
    check_creation host env sender input
    register_shipment env sender input

  -- The tests of one input of a batch.
  unfoldable pub check_input : HostApi → Env → ShipmentInput → Call T (Unit {0})
  unfolding validate_milestones
  check_input host env input = do
    fail_if (input.receiver == input.carrier) NavinError.invalid_shipment_input
    validate_milestones host input.payment_milestones
    validate_hash input.data_hash
    fail_if (leb input.deadline env.timestamp) NavinError.invalid_timestamp

  -- The loop of `create_shipments_batch`.
  unfoldable pub register_all : HostApi → Env → ℕ → List ShipmentInput → Call T (List ℕ)
  unfolding check_input register_shipment
  register_all host env sender [] = pure []
  register_all host env sender (input ∷ inputs) = do
    check_input host env input
    id ← register_shipment env sender input
    ids ← register_all host env sender inputs
    pure (id ∷ ids)

  -- Everything that `create_shipments_batch` asks of the batch as a whole.
  unfoldable pub check_batch : Env → ℕ → ℕ → Call T (Unit {0})
  unfolding require_initialized require_not_paused require_role check_and_update_creation_quota_by
  check_batch env sender size = do
    require_initialized
    require_not_paused
    require_auth env sender
    require_role sender Role.company
    config ← gets get_contract_config
    fail_if (ltb config.batch_operation_limit size) NavinError.batch_too_large
    current_active ← gets (λ s. s.active_shipment_count sender)
    limit ← gets (get_effective_shipment_limit sender)
    fail_if (ltb limit (saturating_add_u32 current_active size)) NavinError.shipment_limit_reached
    check_and_update_creation_quota_by env sender size

  unfoldable pub create_shipments_batch : HostApi → Env → ℕ → List ShipmentInput → Call T (List ℕ)
  unfolding check_batch register_all
  create_shipments_batch host env sender inputs = do
    check_batch env sender (length inputs)
    register_all host env sender inputs
