-- ===== src/Shipment/Creation/Handlers.antt =====
-- The two handlers that create shipments, as a whole, and the creation quota.
use navin_contracts.Shipment.Creation.Registered.{
  register_all-RegistersAll, Registers, RegistersAll, register_shipment-Registers,
  validate_each-Keeps,
}
use navin_contracts.Host.{◌>>=◌, Env, ok, err}
use navin_contracts.Host.Keeps.{Gives-map, Gives, Gives-then, Ends-Gives, Keeps, keeps_rules}
use navin_contracts.Shipment.Guards.{
  require_initialized, require_not_paused, require_role, role_test,
}
use navin_contracts.Shipment.Data.{ShipmentInput, HostApi, CreationQuotaTracker, Role}
use navin_contracts.Shipment.Store.{Store}
use navin_contracts.Shipment.Errors.{NavinError}
use navin_contracts.Shipment.Creation.{
  check_creation, check_batch, create_shipments_batch, create_shipment,
  check_and_update_creation_quota_by, set_creation_quota, validate_milestones,
}
use navin_contracts.Shipment.Progress.{get_contract_config}
use navin_contracts.Prelude.{
  ap, ◌≡◌, some, arith, ℕ, refl, List, [], ◌∷◌, ◌≤◌, ◌<◌, ◌+◌, ◌⊎◌, length, ◌^◌, Bool, ◌∙◌,
}

-- What the registration reads and writes is as in `s0`.
record SameRegister {T : Type 0} (s0 s : Store T) : Type 0 where
  counter : s.registry.shipment_counter ≡ s0.registry.shipment_counter
  stored : s.shipments ≡ s0.shipments
  ledger : s.token ≡ s0.token

module _ {T : Type 0} {s0 : Store T} where
  quota-Same :
      (c : ℕ) (t : CreationQuotaTracker) (s : Store T)
      → SameRegister s0 s
      → SameRegister s0 (set_creation_quota c t s)
  quota-Same c t s h = record { counter = h.counter; stored = h.stored; ledger = h.ledger }

  seen-Same :
      (f : ℕ → Bool) (s : Store T)
      → SameRegister s0 s
      → SameRegister s0 (record s { idempotency_window = f })
  seen-Same f s h = record { counter = h.counter; stored = h.stored; ledger = h.ledger }

  ruleset register_rules = (keeps_rules, quota-Same, seen-Same)

  reserve-Same :
      (env : Env) (c n : ℕ)
      → Keeps (SameRegister s0) (check_and_update_creation_quota_by {T = T} env c n)
  unfolding check_and_update_creation_quota_by
  reserve-Same env c n = search register_rules depth 80 fits 5000

  company-Same : (a : ℕ) → Keeps (SameRegister s0) (require_role {T = T} a Role.company)
  unfolding require_role role_test require_initialized
  company-Same a = search register_rules depth 80 fits 5000

  milestones-Same :
      (host : HostApi) (ms : List (ℕ × ℕ)) → Keeps (SameRegister s0) (validate_milestones host ms)
  unfolding validate_milestones
  milestones-Same host [] = search keeps_rules
  milestones-Same host (m ∷ ms) = search (keeps_rules, validate_each-Keeps)

  check_batch-Same :
      (env : Env) (sender n : ℕ) → Keeps (SameRegister s0) (check_batch {T = T} env sender n)
  unfolding check_batch require_initialized require_not_paused
  check_batch-Same env sender n =
      search (register_rules, reserve-Same, company-Same) depth 80 fits 5000

  check_creation-Same :
      (host : HostApi) (env : Env) (sender : ℕ) (input : ShipmentInput)
      → Keeps (SameRegister s0) (check_creation {T = T} host env sender input)
  unfolding check_creation require_initialized require_not_paused
  check_creation-Same host env sender input =
      search (register_rules, reserve-Same, company-Same, milestones-Same) depth 80 fits 5000

-- A registration after steps that left the register alone.
module _ {T : Type 0} (env : Env) (sender : ℕ) where
  register-after :
      (input : ShipmentInput) (s s1 s2 : Store T) (id : ℕ)
      → SameRegister s s1
      → Registers env sender input s1 id s2
      → Registers env sender input s id s2
  register-after input s s1 s2 id e (a, b, c, d) =
      (a ∙ ap (λ n. n + 1) e.counter, b, rw (← e.stored) c, d ∙ e.ledger)

  register_all-after :
      (inputs : List ShipmentInput) (s s1 s2 : Store T) (ids : List ℕ)
      → SameRegister s s1
      → RegistersAll env sender inputs s1 ids s2
      → RegistersAll env sender inputs s ids s2
  register_all-after inputs s s1 s2 ids e (a, b, c, d) =
      (rw (← e.counter) a, rw (← e.counter) b, rw (← e.counter, ← e.stored) c, d ∙ e.ledger)

-- A creation that succeeds returns the next shipment ID and stores the new shipment, created and
-- with no escrow, under it; no other shipment changes, nor the token.
pub create_shipment-Registers :
    {T : Type 0} (host : HostApi) (env : Env) (sender : ℕ) (input : ShipmentInput) (s : Store T)
    → Gives (Registers env sender input s) (create_shipment host env sender input s)
unfolding ◌>>=◌ create_shipment
create_shipment-Registers host env sender input s =
    Gives-then (λ u s1. SameRegister s s1) _ (check_creation host env sender input s) _
      (Ends-Gives (SameRegister s) (check_creation host env sender input s) (
        (check_creation-Same host env sender input).at s
          (record { counter = refl; stored = refl; ledger = refl })))
      (λ u s1 e.
        Gives-map (Registers env sender input s1) (Registers env sender input s) _
          (λ id s2 r. register-after env sender input s s1 s2 id e r)
          (register_shipment-Registers env sender input s1))

-- A batch that succeeds returns the next IDs in a row, as many as it has inputs, and stores the
-- shipments of the inputs under them in their order; no other shipment changes, nor the token.
pub create_shipments_batch-RegistersAll :
    {T : Type 0} (host : HostApi) (env : Env) (sender : ℕ) (inputs : List ShipmentInput)
    (s : Store T)
    → Gives (RegistersAll env sender inputs s) (create_shipments_batch host env sender inputs s)
unfolding ◌>>=◌ create_shipments_batch
create_shipments_batch-RegistersAll host env sender inputs s =
    Gives-then (λ u s1. SameRegister s s1) _ (check_batch env sender (length inputs) s) _
      (Ends-Gives (SameRegister s) (check_batch env sender (length inputs) s) (
        (check_batch-Same env sender (length inputs)).at s
          (record { counter = refl; stored = refl; ledger = refl })))
      (λ u s1 e.
        Gives-map (RegistersAll env sender inputs s1) (RegistersAll env sender inputs s) _
          (λ ids s2 r. register_all-after env sender inputs s s1 s2 ids e r)
          (register_all-RegistersAll host env sender inputs s1))

-- In a running window of an enabled quota, a reservation of at least one shipment succeeds exactly
-- if it fits into what is left of the quota, and is then counted; otherwise nothing changes.
pub check_and_update_creation_quota_by_lem :
    {T : Type 0} (env : Env) (company n : ℕ) (t : CreationQuotaTracker) (s : Store T)
    → s.registry.creation_quota company ≡ some t
    → let config = get_contract_config s in
      0 < config.creation_quota_max
      → 0 < n
      → env.timestamp < t.window_start + config.creation_quota_window_seconds
      → t.window_start + config.creation_quota_window_seconds < 2 ^ 64
      → t.count + n < 2 ^ 32
      → let o = check_and_update_creation_quota_by env company n s in
        ((t.count + n ≤ config.creation_quota_max)
          × (o
              ≡ ok tt (
                  set_creation_quota company
                    (record { count = t.count + n; window_start = t.window_start })
                    s)))
        ⊎ ((config.creation_quota_max < t.count + n)
            × (o ≡ err NavinError.creation_quota_exceeded s))
unfolding ◌>>=◌ check_and_update_creation_quota_by
check_and_update_creation_quota_by_lem env company n t s e limited asked inside below small =
    ground arith
