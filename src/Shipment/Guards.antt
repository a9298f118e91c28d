-- ===== src/Shipment/Guards.antt =====
-- The guards that stand first in the handlers of contracts/shipment/src/lib.rs, the checked
-- arithmetic, and the validators of validation.rs that they call.
use navin_contracts.Prelude.{
  pos, ◌/ℤ◌, checked_mul, ◌==◌, ℤ, false, [], not, if◌then◌else◌, ltb_ℤ, is_some, leb_ℤ, ℕ, ◌∷◌,
  List, ◌||◌, true, ◌&&◌, checked_sub, Bool, negsuc, checked_add,
}
use navin_contracts.Host.{◌>>=◌, ◌>>◌, gets, modify, fail_if, ok_or, unwrap, pure, err}
use navin_contracts.Shipment.Errors.{NavinError}
use navin_contracts.Shipment.Status.{
  ShipmentStatus, status_eq, created, delivered, cancelled, disputed,
}
use navin_contracts.Shipment.Data.{Role, Shipment}
use navin_contracts.Shipment.Store.{Call, set_shipment, set_escrow}

abbrev pub max_amount : ℤ
max_amount = pos 1_000_000_000_000_000

abbrev pub is_zero : ℤ → Bool
is_zero (pos n) = n == 0
is_zero (negsuc n) = false

module _ {T : Type 0} where
  abbrev pub fail : {A : Type 0} → NavinError → Call T A
  fail e s = err e s

  abbrev pub get_admin : Call T ℕ
  get_admin = do a ← gets (λ s. s.admin); unwrap a

  unfoldable pub require_initialized : Call T (Unit {0})
  require_initialized = do
    a ← gets (λ s. s.admin)
    fail_if (not (is_some a)) NavinError.not_initialized

  unfoldable pub require_not_paused : Call T (Unit {0})
  require_not_paused = do p ← gets (λ s. s.is_paused); fail_if p NavinError.contract_paused

  unfoldable pub require_admin_or_guardian : ℕ → Call T (Unit {0})
  unfolding require_initialized
  require_admin_or_guardian a = do
    require_initialized
    admin ← get_admin
    allowed ←
        gets (λ s.
          admin == a || (s.user_role a Role.guardian && not (s.role_suspended a Role.guardian)))
    fail_if (not allowed) NavinError.unauthorized

  -- `role` held and not suspended; each test has its own error.
  unfoldable pub role_test : ℕ → Role → Call T (Unit {0})
  role_test a role = do
    held ← gets (λ s. s.user_role a role)
    fail_if (not held) NavinError.unauthorized
    suspended ← gets (λ s. s.role_suspended a role)
    fail_if suspended NavinError.unauthorized

  unfoldable pub require_role : ℕ → Role → Call T (Unit {0})
  unfolding require_initialized role_test
  require_role a Role.company = do
    require_initialized
    role_test a Role.company
    suspended ← gets (λ s. s.company_suspended a)
    fail_if suspended NavinError.company_suspended
  require_role a Role.carrier = do
    require_initialized
    role_test a Role.carrier
    suspended ← gets (λ s. s.carrier_suspended a)
    fail_if suspended NavinError.carrier_suspended
  require_role a Role.guardian = do require_initialized; role_test a Role.guardian
  require_role a Role.operator = do require_initialized; role_test a Role.operator
  require_role a Role.unassigned = do require_initialized; fail NavinError.unauthorized

  unfoldable pub require_active_company : ℕ → Call T (Unit {0})
  require_active_company a = do
    suspended ← gets (λ s. s.company_suspended a)
    fail_if suspended NavinError.company_suspended
    role_suspended ← gets (λ s. s.role_suspended a Role.company)
    fail_if role_suspended NavinError.unauthorized

  unfoldable pub require_active_carrier : ℕ → Call T (Unit {0})
  require_active_carrier a = do
    suspended ← gets (λ s. s.carrier_suspended a)
    fail_if suspended NavinError.carrier_suspended
    role_suspended ← gets (λ s. s.role_suspended a Role.carrier)
    fail_if role_suspended NavinError.unauthorized

  abbrev pub require_not_finalized : Shipment → Call T (Unit {0})
  require_not_finalized x = fail_if x.finalized NavinError.shipment_finalized

  -- A hash of all zeros is refused.
  abbrev pub validate_hash : ℕ → Call T (Unit {0})
  validate_hash hash = fail_if (hash == 0) NavinError.invalid_hash

  -- `action_hash` is the hash of the payload. The entry's time to live is not modelled: it stays.
  abbrev pub check_idempotency : ℕ → Call T (Unit {0})
  check_idempotency action_hash = do
    known ← gets (λ s. s.idempotency_window action_hash)
    fail_if known NavinError.duplicate_action
    modify (λ s. record s {
      idempotency_window = λ h. if h == action_hash then true else s.idempotency_window h;
    })

  unfoldable pub validate_positive_amount : ℤ → Call T (Unit {0})
  validate_positive_amount amount = do
    fail_if (leb_ℤ amount (pos 0)) NavinError.insufficient_funds
    fail_if (ltb_ℤ max_amount amount) NavinError.invalid_amount

  unfoldable pub checked_add_i128 : ℤ → ℤ → Call T ℤ
  checked_add_i128 a b = ok_or (checked_add a b) NavinError.arithmetic_error

  unfoldable pub checked_sub_i128 : ℤ → ℤ → Call T ℤ
  checked_sub_i128 a b = ok_or (checked_sub a b) NavinError.arithmetic_error

  unfoldable pub checked_sub_escrow : ℤ → ℤ → Call T ℤ
  checked_sub_escrow a b = do
    res ← ok_or (checked_sub a b) NavinError.arithmetic_error
    fail_if (ltb_ℤ res (pos 0)) NavinError.arithmetic_error
    pure res

  -- `product / divisor` cannot overflow here: every caller divides by 100 or by 10000.
  unfoldable pub checked_mul_div_i128 : ℤ → ℤ → ℤ → Call T ℤ
  checked_mul_div_i128 value multiplier divisor = do
    fail_if (is_zero divisor) NavinError.arithmetic_error
    product ← ok_or (checked_mul value multiplier) NavinError.arithmetic_error
    pure (product /ℤ divisor)

abbrev pub is_terminal_settled : ShipmentStatus → Bool
is_terminal_settled st = status_eq st delivered || status_eq st cancelled

abbrev pub is_nil {ℓ} : {A : Type ℓ} → List A → Bool
is_nil [] = true
is_nil (x ∷ xs) = false

-- The tests of `validate_shipment_invariants`, true where it returns `Ok`.
unfoldable pub shipment_invariants : Shipment → Bool
shipment_invariants x =
    not (ltb_ℤ x.total_escrow (pos 0) || ltb_ℤ x.escrow_amount (pos 0))
    && (not (ltb_ℤ x.total_escrow x.escrow_amount)
        && (not
              (x.finalized && (not (is_terminal_settled x.status) || not (is_zero x.escrow_amount)))
            && (not (status_eq x.status disputed && x.finalized)
                && not (status_eq x.status created && not (is_nil x.paid_milestones)))))

module _ {T : Type 0} where
  unfoldable pub validate_shipment_invariants : Shipment → Call T (Unit {0})
  validate_shipment_invariants x = fail_if (not (shipment_invariants x)) NavinError.invalid_status

  unfoldable pub persist_shipment : Shipment → Call T (Unit {0})
  unfolding validate_shipment_invariants
  persist_shipment x = do
    validate_shipment_invariants x
    modify (set_shipment x)
    modify (set_escrow x.id x.escrow_amount)

-- `finalize_if_settled`, as the new value of the shipment.
unfoldable pub finalize_if_settled : Shipment → Shipment
finalize_if_settled x =
    if is_terminal_settled x.status && is_zero x.escrow_amount
    then record x { finalized = true }
    else x
