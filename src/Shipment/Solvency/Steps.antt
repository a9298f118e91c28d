-- ===== src/Shipment/Solvency/Steps.antt =====
-- The steps of a call that leave the token, the shipments and the archive alone.
use navin_contracts.Shipment.Data.{SettlementOperation, Role, Shipment}
use navin_contracts.Shipment.Guards.{
  require_not_paused, require_initialized, require_admin_or_guardian, role_test,
  require_active_carrier, require_active_company,
}
use navin_contracts.Host.{Env, modify}
use navin_contracts.Shipment.Settlement.{fail_settlement, complete_settlement, create_settlement}
use navin_contracts.Host.Keeps.{
  Keeps, Keeps-pure, Keeps-gets, Keeps-modify, Keeps-fail_if, Keeps-ok_or, Keeps-unwrap,
  Keeps-trap_unless, Keeps-require_auth, Keeps-if, Keeps-bind,
}
use navin_contracts.Shipment.Errors.{NavinError}
use navin_contracts.Shipment.Status.{ShipmentStatus}
use navin_contracts.Shipment.Store.{
  Store, TokenApi, decrement_status_count, decrement_active_shipment_count,
}
use navin_contracts.Shipment.Solvency.{IsSolvent, IsBacked}
use navin_contracts.Prelude.{ℕ, ℤ, Bool, Option, Map, ◌≡◌, refl, if◌then◌else◌, arith}

module _ {T : Type 0} where
  -- What the accounts are made of.
  abbrev pub books : Store T → T × Map Shipment × (ℕ → Option Shipment)
  books s = (s.token, s.shipments, s.archived)

  -- A condition on the accounts alone.
  pub record IsStable (P : Store T → Type 0) : Type 0 where
    pub stays : (s s' : Store T) → books s' ≡ books s → P s → P s'

  pub decrement_status_count-books :
      (st : ShipmentStatus) (s : Store T) → books (decrement_status_count st s) ≡ books s
  decrement_status_count-books st s = ground arith

  pub decrement_unless-books :
      (b : Bool) (c : ℕ) (s : Store T)
      → books (if b then s else decrement_active_shipment_count c s) ≡ books s
  decrement_unless-books b c s = ground arith

  pub decrement_if-books :
      (b : Bool) (c : ℕ) (s : Store T)
      → books (if b then decrement_active_shipment_count c s else s) ≡ books s
  decrement_if-books b c s = ground arith

module _ {T : Type 0} (api : TokenApi T) (self : ℕ) where
  pub IsSolvent-IsStable : IsStable (IsSolvent api self)
  IsSolvent-IsStable = record { stays = λ s s' e h. ground arith }

  pub IsBacked-IsStable : (id : ℕ) (h d : ℤ) → IsStable (IsBacked api self id h d)
  IsBacked-IsStable id h d = record { stays = λ s s' e b. ground arith }

module _ {T : Type 0} {P : Store T → Type 0} where
  pub Keeps-beside :
      (f : Store T → Store T)
      → IsStable P
      → ((s : Store T) → books (f s) ≡ books s)
      → Keeps P (modify {E = NavinError} f)
  Keeps-beside f c h = Keeps-modify f (λ s p. c.stays s (f s) (h s) p)

  pub ruleset beside_rules = (
    Keeps-pure, Keeps-gets, Keeps-beside, Keeps-fail_if, Keeps-ok_or, Keeps-unwrap,
    Keeps-trap_unless, Keeps-require_auth, Keeps-if, Keeps-bind, decrement_status_count-books,
    decrement_unless-books, decrement_if-books, refl, IsSolvent-IsStable, IsBacked-IsStable,
  )

module _ {T : Type 0} {P : Store T → Type 0} (c : IsStable P) where
  pub create_settlement-Beside :
      (env : Env) (i : ℕ) (op : SettlementOperation) (v : ℤ) (f to : ℕ)
      → Keeps P (create_settlement {T = T} env i op v f to)
  unfolding create_settlement
  create_settlement-Beside env i op v f to = search beside_rules

  pub complete_settlement-Beside :
      (env : Env) (n i : ℕ) → Keeps P (complete_settlement {T = T} env n i)
  unfolding complete_settlement
  complete_settlement-Beside env n i = search beside_rules

  pub fail_settlement-Beside : (env : Env) (n i e : ℕ) → Keeps P (fail_settlement {T = T} env n i e)
  unfolding fail_settlement
  fail_settlement-Beside env n i e = search beside_rules

  pub require_initialized-Beside : Keeps P (require_initialized {T = T})
  unfolding require_initialized
  require_initialized-Beside = search beside_rules

  pub require_not_paused-Beside : Keeps P (require_not_paused {T = T})
  unfolding require_not_paused
  require_not_paused-Beside = search beside_rules

  pub require_active_company-Beside : (a : ℕ) → Keeps P (require_active_company {T = T} a)
  unfolding require_active_company
  require_active_company-Beside a = search beside_rules

  pub require_active_carrier-Beside : (a : ℕ) → Keeps P (require_active_carrier {T = T} a)
  unfolding require_active_carrier
  require_active_carrier-Beside a = search beside_rules

  pub role_test-Beside : (a : ℕ) (r : Role) → Keeps P (role_test {T = T} a r)
  unfolding role_test
  role_test-Beside a r = search beside_rules

  pub require_admin_or_guardian-Beside : (a : ℕ) → Keeps P (require_admin_or_guardian {T = T} a)
  unfolding require_admin_or_guardian
  require_admin_or_guardian-Beside a = search (beside_rules, require_initialized-Beside)

pub ruleset beside_parts = (
  create_settlement-Beside, complete_settlement-Beside, fail_settlement-Beside,
  require_initialized-Beside, require_not_paused-Beside, require_active_company-Beside,
  require_active_carrier-Beside, role_test-Beside, require_admin_or_guardian-Beside, beside_rules,
)
