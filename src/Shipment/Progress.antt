-- ===== src/Shipment/Progress.antt =====
-- The entries of contracts/shipment/src/storage.rs that follow the progress of a shipment, and the
-- configuration that the handlers read.
use navin_contracts.Shipment.Config.{ContractConfig, default_contract_config}
use navin_contracts.Shipment.Status.{ShipmentStatus, status_eq}
use navin_contracts.Shipment.Store.{Store, saturating_suc}
use navin_contracts.Prelude.{ℕ, some, ◌==◌, get_or, ◌++◌, ◌∷◌, [], ◌&&◌, if◌then◌else◌}

module _ {T : Type 0} where
  -- `config::get_config`, with `unwrap_or_default`
  abbrev pub get_contract_config : Store T → ContractConfig
  get_contract_config s = get_or s.config default_contract_config

  abbrev pub set_last_status_update : ℕ → ℕ → Store T → Store T
  set_last_status_update id t s = record s {
    progress = record s.progress {
      last_status_update = λ k. if k == id then some t else s.progress.last_status_update k;
    };
  }

  abbrev pub set_status_hash : ℕ → ShipmentStatus → ℕ → Store T → Store T
  set_status_hash id st hash s = record s {
    progress = record s.progress {
      status_hash =
          λ k r. if k == id && status_eq r st then some hash else s.progress.status_hash k r;
    };
  }

  abbrev pub set_confirmation_hash : ℕ → ℕ → Store T → Store T
  set_confirmation_hash id hash s = record s {
    progress = record s.progress {
      confirmation_hash = λ k. if k == id then some hash else s.progress.confirmation_hash k;
    };
  }

  abbrev pub increment_milestone_event_count : ℕ → Store T → Store T
  increment_milestone_event_count id s = record s {
    progress = record s.progress {
      milestone_event_count = λ k.
          if k == id
          then saturating_suc (s.progress.milestone_event_count id)
          else s.progress.milestone_event_count k;
    };
  }

  abbrev pub set_shipment_dependency : ℕ → ℕ → Store T → Store T
  set_shipment_dependency id prereq s = record s {
    progress = record s.progress {
      prerequisites = λ k.
          if k == id
          then s.progress.prerequisites id ++ (prereq ∷ [])
          else s.progress.prerequisites k;
    };
  }
