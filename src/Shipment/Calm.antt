-- ===== src/Shipment/Calm.antt =====
-- The breaker over whole calls of the handlers.
pub mod Payments
pub mod Progress
pub mod Handlers
use navin_contracts.Shipment.Errors.{NavinError}
use navin_contracts.Shipment.Store.{decrement_active_shipment_count, Store, decrement_status_count}
use navin_contracts.Host.Keeps.{
  Keeps-pure, Keeps-gets, Keeps-modify, Keeps-fail_if, Keeps-ok_or, Keeps-unwrap, Keeps-trap_unless,
  Keeps-require_auth, Keeps-if, Keeps-bind, Keeps,
}
use navin_contracts.Host.{modify, Env}
use navin_contracts.Shipment.Guards.{
  require_initialized, require_not_paused, require_active_company, persist_shipment,
  validate_shipment_invariants,
}
use navin_contracts.Shipment.Data.{Shipment, SettlementOperation}
use navin_contracts.Shipment.Status.{ShipmentStatus}
use navin_contracts.Shipment.Breaker.{CircuitBreakerTracker}
use navin_contracts.Shipment.Settlement.{get_tracker, create_settlement, complete_settlement}
use navin_contracts.Shipment.Custody.{IsCalmer}
use navin_contracts.Prelude.{arith, ℤ, ℕ, ◌≡◌, Bool, if◌then◌else◌, refl}

-- The breaker is calmer than the tracker `t`.
pub record CalmFrom {T : Type 0} (t : CircuitBreakerTracker) (s : Store T) : Type 0 where
  pub calmer : IsCalmer t (get_tracker s)

module _ {T : Type 0} where
  pub decrement_status_count-breaker :
      (st : ShipmentStatus) (s : Store T) → (decrement_status_count st s).breaker ≡ s.breaker
  decrement_status_count-breaker st s = ground arith

  pub decrement_unless-breaker :
      (b : Bool) (c : ℕ) (s : Store T)
      → (if b then s else decrement_active_shipment_count c s).breaker ≡ s.breaker
  decrement_unless-breaker b c s = ground arith

  pub decrement_if-breaker :
      (b : Bool) (c : ℕ) (s : Store T)
      → (if b then decrement_active_shipment_count c s else s).breaker ≡ s.breaker
  decrement_if-breaker b c s = ground arith

module _ {T : Type 0} {t : CircuitBreakerTracker} where
  pub same-CalmFrom : (s s' : Store T) → CalmFrom t s → s'.breaker ≡ s.breaker → CalmFrom t s'
  same-CalmFrom s s' c e = record { calmer = ground arith }

  pub Keeps-alone :
      (f : Store T → Store T)
      → ((s : Store T) → (f s).breaker ≡ s.breaker)
      → Keeps (CalmFrom t) (modify {E = NavinError} f)
  Keeps-alone f h = Keeps-modify f (λ s c. same-CalmFrom s (f s) c (h s))

  pub ruleset calm_rules = (
    Keeps-pure, Keeps-gets, Keeps-alone, Keeps-fail_if, Keeps-ok_or, Keeps-unwrap,
    Keeps-trap_unless, Keeps-require_auth, Keeps-if, Keeps-bind, decrement_status_count-breaker,
    decrement_unless-breaker, decrement_if-breaker, refl,
  )

  pub create_settlement-Calm :
      (env : Env) (i : ℕ) (op : SettlementOperation) (v : ℤ) (f to : ℕ)
      → Keeps (CalmFrom t) (create_settlement {T = T} env i op v f to)
  unfolding create_settlement
  create_settlement-Calm env i op v f to = search calm_rules

  pub complete_settlement-Calm :
      (env : Env) (n i : ℕ) → Keeps (CalmFrom t) (complete_settlement {T = T} env n i)
  unfolding complete_settlement
  complete_settlement-Calm env n i = search calm_rules

  pub persist_shipment-Calm : (x : Shipment) → Keeps (CalmFrom t) (persist_shipment {T = T} x)
  unfolding persist_shipment validate_shipment_invariants
  persist_shipment-Calm x = search calm_rules

  pub require_initialized-Calm : Keeps (CalmFrom t) (require_initialized {T = T})
  unfolding require_initialized
  require_initialized-Calm = search calm_rules

  pub require_not_paused-Calm : Keeps (CalmFrom t) (require_not_paused {T = T})
  unfolding require_not_paused
  require_not_paused-Calm = search calm_rules

  pub require_active_company-Calm : (a : ℕ) → Keeps (CalmFrom t) (require_active_company {T = T} a)
  unfolding require_active_company
  require_active_company-Calm a = search calm_rules

  pub ruleset calm_parts = (
    create_settlement-Calm, complete_settlement-Calm, persist_shipment-Calm,
    require_initialized-Calm, require_not_paused-Calm, require_active_company-Calm, calm_rules,
  )
