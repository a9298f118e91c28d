-- ===== src/Shipment/Config.antt =====
-- The contract's configuration, contracts/shipment/src/config.rs.
pub mod Bounds
use navin_contracts.Prelude.{ℕ, Bool, true, false, ◌||◌, ltb, if◌then◌else◌, List, [], ◌∷◌}

pub record ContractConfig : Type 0 where
  pub shipment_ttl_threshold : ℕ  -- u32, as are all below that are not u64
  pub shipment_ttl_extension : ℕ
  pub min_status_update_interval : ℕ  -- u64
  pub batch_operation_limit : ℕ
  pub max_metadata_entries : ℕ
  pub default_shipment_limit : ℕ
  pub multisig_min_admins : ℕ
  pub multisig_max_admins : ℕ
  pub proposal_expiry_seconds : ℕ  -- u64
  pub deadline_grace_seconds : ℕ  -- u64
  pub idempotency_window_seconds : ℕ  -- u64
  pub auto_dispute_breach : Bool
  pub max_milestones_per_shipment : ℕ
  pub max_notes_per_shipment : ℕ
  pub max_evidence_per_dispute : ℕ
  pub max_breaches_per_shipment : ℕ
  pub creation_quota_max : ℕ
  pub creation_quota_window_seconds : ℕ  -- u64

abbrev pub default_contract_config : ContractConfig
default_contract_config = record {
  shipment_ttl_threshold = 17_280;
  shipment_ttl_extension = 518_400;
  min_status_update_interval = 60;
  batch_operation_limit = 10;
  max_metadata_entries = 5;
  default_shipment_limit = 100;
  multisig_min_admins = 2;
  multisig_max_admins = 10;
  proposal_expiry_seconds = 604_800;
  deadline_grace_seconds = 0;
  idempotency_window_seconds = 300;
  auto_dispute_breach = false;
  max_milestones_per_shipment = 255;
  max_notes_per_shipment = 255;
  max_evidence_per_dispute = 255;
  max_breaches_per_shipment = 255;
  creation_quota_max = 0;
  creation_quota_window_seconds = 3600;
}

-- `n < lo || n > hi`
unfoldable pub outside : ℕ → ℕ → ℕ → Bool
outside lo hi n = ltb n lo || ltb hi n

-- Whether none of the tests is true, in their order.
unfoldable pub none_of : List Bool → Bool
none_of [] = true
none_of (b ∷ bs) = if b then false else none_of bs

-- The tests of `validate_config` in their order, true where it returns `Ok`; its messages are left
-- out.
unfoldable pub validate_config : ContractConfig → Bool
validate_config c = none_of (
    outside 1 1_000_000 c.shipment_ttl_threshold
    ∷ outside 1 10_000_000 c.shipment_ttl_extension
    ∷ outside 10 86_400 c.min_status_update_interval
    ∷ outside 1 100 c.batch_operation_limit
    ∷ outside 1 50 c.max_metadata_entries
    ∷ outside 1 1000 c.max_milestones_per_shipment
    ∷ outside 1 1000 c.max_notes_per_shipment
    ∷ outside 1 1000 c.max_evidence_per_dispute
    ∷ outside 1 1000 c.max_breaches_per_shipment
    ∷ outside 1 10_000 c.default_shipment_limit
    ∷ ltb c.multisig_min_admins 2
    ∷ (ltb c.multisig_max_admins c.multisig_min_admins || ltb 50 c.multisig_max_admins)
    ∷ outside 3_600 2_592_000 c.proposal_expiry_seconds
    ∷ ltb 604_800 c.deadline_grace_seconds
    ∷ [])
