-- ===== src/Shipment/Tests/Handlers.antt =====
-- The theorems on updates, creation, configuration and the breaker at concrete inputs.
use navin_contracts.Shipment.Tests.{at, pool, parcel, running, host}
use navin_contracts.Host.{◌>>=◌, ok, err, invoke}
use navin_contracts.Shipment.Status.{ShipmentStatus}
use navin_contracts.Shipment.Data.{ShipmentInput, CreationQuotaTracker}
use navin_contracts.Shipment.Errors.{NavinError}
use navin_contracts.Shipment.Store.{Store}
use navin_contracts.Shipment.Config.{default_contract_config, validate_config}
use navin_contracts.Shipment.Config.Bounds.{IsInBounds, validate_config_iff}
use navin_contracts.Shipment.Guards.{persist_shipment, shipment_invariants, finalize_if_settled}
use navin_contracts.Shipment.Updates.{first_unmet, update_status}
use navin_contracts.Shipment.Updates.Transitions.{Transits, update_status-Transits}
use navin_contracts.Shipment.Creation.{
  create_shipment, create_shipments_batch, check_and_update_creation_quota_by, set_creation_quota,
}
use navin_contracts.Shipment.Creation.Registered.{Registers, RegistersAll}
use navin_contracts.Shipment.Creation.Handlers.{
  create_shipment-Registers, create_shipments_batch-RegistersAll,
  check_and_update_creation_quota_by_lem,
}
use navin_contracts.Shipment.Calls.{Request, execute}
use navin_contracts.Shipment.Settlement.{get_tracker}
use navin_contracts.Shipment.Custody.{IsCalmer}
use navin_contracts.Shipment.Calm.Handlers.{execute-IsCalmer}
use navin_contracts.Prelude.{
  ◌≡◌, ℤ, refl, arith, [], ◌∷◌, List, some, true, ◌≤◌, ◌<◌, ◌⊎◌, ◌+◌, ◌↔◌,
}

update_status-Transits_example :
    Transits
      (at 1000)
      13
      ShipmentStatus.in_transit
      6
      parcel
      running
      (invoke (update_status host (at 1000) 13 1 ShipmentStatus.in_transit 6) running)
unfolding ◌>>=◌ invoke update_status shipment_invariants persist_shipment finalize_if_settled
    first_unmet
update_status-Transits_example =
    update_status-Transits host (at 1000) 13 ShipmentStatus.in_transit 6 parcel running refl tt

abbrev order : ShipmentInput
order = record {
  receiver = 12;
  carrier = 13;
  data_hash = 7;
  payment_milestones = (1, 40) ∷ (2, 60) ∷ [];
  deadline = 9000;
}

create_shipment-Registers_example :
    Registers
      (at 1000)
      11
      order
      running
      2
      (invoke (create_shipment host (at 1000) 11 order) running)
unfolding ◌>>=◌ invoke create_shipment shipment_invariants persist_shipment
create_shipment-Registers_example = create_shipment-Registers host (at 1000) 11 order running

abbrev orders : List ShipmentInput
orders = order ∷ record order { data_hash = 8 } ∷ []

create_shipments_batch-RegistersAll_example :
    RegistersAll
      (at 1000)
      11
      orders
      running
      (2 ∷ 3 ∷ [])
      (invoke (create_shipments_batch host (at 1000) 11 orders) running)
unfolding ◌>>=◌ invoke create_shipments_batch shipment_invariants persist_shipment
create_shipments_batch-RegistersAll_example =
    create_shipments_batch-RegistersAll host (at 1000) 11 orders running

abbrev used : CreationQuotaTracker
used = record { count = 3; window_start = 900 }

abbrev limited : Store ℤ
limited = record running {
  config = some (record default_contract_config { creation_quota_max = 5 });
  registry = record running.registry { creation_quota = λ a. some used };
}

check_and_update_creation_quota_by_lem_example :
    let o = check_and_update_creation_quota_by (at 1000) 11 2 limited in
    ((3 + 2 ≤ 5)
      × (o ≡ ok tt (set_creation_quota 11 (record { count = 3 + 2; window_start = 900 }) limited)))
    ⊎ ((5 < 3 + 2) × (o ≡ err NavinError.creation_quota_exceeded limited))
check_and_update_creation_quota_by_lem_example =
    check_and_update_creation_quota_by_lem (at 1000) 11 2 used limited refl (omega arith)
      (omega arith) (omega arith) (omega arith) (omega arith)

validate_config_iff_example :
    (validate_config default_contract_config ≡ true) ↔ IsInBounds default_contract_config
validate_config_iff_example = validate_config_iff default_contract_config

abbrev on_the_way : Store ℤ
on_the_way = record running {
  shipments = (1, record parcel { status = ShipmentStatus.in_transit }) ∷ [];
}

execute-IsCalmer_example :
    IsCalmer
      (get_tracker on_the_way)
      (get_tracker (execute pool 100 host (at 1000) (Request.confirm 12 1 6) on_the_way))
execute-IsCalmer_example =
    execute-IsCalmer pool 100 host (at 1000) (Request.confirm 12 1 6) on_the_way
