-- ===== src/Shipment/Solvency/Creation.antt =====
-- The accounts over the creation of shipments: a new one has no escrow.
use navin_contracts.Host.Keeps.{Keeps-pure, Keeps-modify, Keeps-bind, Keeps, keeps_rules}
use navin_contracts.Shipment.Errors.{NavinError}
use navin_contracts.Shipment.Solvency.Steps.{IsSolvent-IsStable, IsStable, beside_parts}
use navin_contracts.Shipment.Solvency.{held_nonneg, locked-insert, insert-IsSound, IsSolvent}
use navin_contracts.Host.{modify, Env}
use navin_contracts.Shipment.Creation.Registered.{validate_each-Keeps}
use navin_contracts.Shipment.Guards.{validate_shipment_invariants, persist_shipment, require_role}
use navin_contracts.Shipment.Creation.{
  create_shipments_batch, create_shipment, register_all, register_shipment, check_input,
  check_creation, check_batch, validate_milestones, check_and_update_creation_quota_by,
}
use navin_contracts.Shipment.Store.{set_shipment, Store, TokenApi}
use navin_contracts.Shipment.Data.{Shipment, HostApi, ShipmentInput, Role}
use navin_contracts.Prelude.{ℕ, List, [], ◌∷◌, pos, ◌≡◌, int_laws}

module _ {T : Type 0} {P : Store T → Type 0} (c : IsStable P) where
  reserve-Beside :
      (env : Env) (a n : ℕ) → Keeps P (check_and_update_creation_quota_by {T = T} env a n)
  unfolding check_and_update_creation_quota_by
  reserve-Beside env a n = search beside_parts depth 80 fits 5000

  company-Beside : (a : ℕ) → Keeps P (require_role {T = T} a Role.company)
  unfolding require_role
  company-Beside a = search beside_parts depth 80 fits 5000

  milestones-Beside : (host : HostApi) (ms : List (ℕ × ℕ)) → Keeps P (validate_milestones host ms)
  unfolding validate_milestones
  milestones-Beside host [] = search keeps_rules
  milestones-Beside host (m ∷ ms) = search (keeps_rules, validate_each-Keeps)

  check_batch-Beside : (env : Env) (a n : ℕ) → Keeps P (check_batch {T = T} env a n)
  unfolding check_batch
  check_batch-Beside env a n =
      search (reserve-Beside, company-Beside, beside_parts) depth 80 fits 5000

  check_creation-Beside :
      (host : HostApi) (env : Env) (a : ℕ) (input : ShipmentInput)
      → Keeps P (check_creation {T = T} host env a input)
  unfolding check_creation
  check_creation-Beside host env a input =
      search (reserve-Beside, company-Beside, milestones-Beside, beside_parts) depth 80 fits 5000

  check_input-Beside :
      (host : HostApi) (env : Env) (input : ShipmentInput)
      → Keeps P (check_input {T = T} host env input)
  unfolding check_input
  check_input-Beside host env input = search (milestones-Beside, beside_parts) depth 80 fits 5000

module _ {T : Type 0} (api : TokenApi T) (self : ℕ) where
  set_shipment-IsSolvent :
      (y : Shipment) (s : Store T)
      → y.escrow_amount ≡ pos 0
      → IsSolvent api self s
      → IsSolvent api self (set_shipment y s)
  set_shipment-IsSolvent y s e h = record {
    sound = insert-IsSound y s.shipments h.sound (grind (int_laws, e));
    archived = h.archived;
    covered = grind (
      int_laws,
      locked-insert y.id y s.shipments,
      held_nonneg y.id s.shipments h.sound,
      e,
      h.covered,
    );
  }

  set_shipment-modify :
      (y : Shipment)
      → y.escrow_amount ≡ pos 0
      → Keeps (IsSolvent api self) (modify {E = NavinError} (set_shipment y))
  set_shipment-modify y e = Keeps-modify _ (λ s h. set_shipment-IsSolvent y s e h)

  persist-Keeps :
      (y : Shipment) → y.escrow_amount ≡ pos 0 → Keeps (IsSolvent api self) (persist_shipment y)
  unfolding persist_shipment validate_shipment_invariants
  persist-Keeps y e = search (set_shipment-modify, beside_parts)

  register_shipment-Keeps :
      (env : Env) (a : ℕ) (input : ShipmentInput)
      → Keeps (IsSolvent api self) (register_shipment env a input)
  unfolding register_shipment
  register_shipment-Keeps env a input = search (persist-Keeps, beside_parts) depth 80 fits 5000

  register_all-Keeps :
      (host : HostApi) (env : Env) (a : ℕ) (inputs : List ShipmentInput)
      → Keeps (IsSolvent api self) (register_all host env a inputs)
  unfolding register_all
  register_all-Keeps host env a [] = search keeps_rules
  register_all-Keeps host env a (input ∷ inputs) =
      Keeps-bind _ _ (check_input-Beside (IsSolvent-IsStable api self) host env input) (λ u.
        Keeps-bind _ _ (register_shipment-Keeps env a input)
          (λ id. Keeps-bind _ _ (register_all-Keeps host env a inputs) (λ ids. Keeps-pure _)))

  pub create_shipment-Keeps :
      (host : HostApi) (env : Env) (a : ℕ) (input : ShipmentInput)
      → Keeps (IsSolvent api self) (create_shipment host env a input)
  unfolding create_shipment
  create_shipment-Keeps host env a input =
      search (check_creation-Beside, register_shipment-Keeps, beside_parts)

  pub create_shipments_batch-Keeps :
      (host : HostApi) (env : Env) (a : ℕ) (inputs : List ShipmentInput)
      → Keeps (IsSolvent api self) (create_shipments_batch host env a inputs)
  unfolding create_shipments_batch
  create_shipments_batch-Keeps host env a inputs =
      search (check_batch-Beside, register_all-Keeps, beside_parts)
