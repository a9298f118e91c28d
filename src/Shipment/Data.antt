-- ===== src/Shipment/Data.antt =====
-- The data that the handlers work on: contracts/shipment/src/types.rs. Addresses, symbols and
-- 32-byte hashes are only compared, so they are numbers; the hash 0 is the one of all zeros.
use navin_contracts.Shipment.Config.{ContractConfig}
use navin_contracts.Shipment.Status.{ShipmentStatus}
use navin_contracts.Prelude.{ℤ, Option, ℕ, List, Bool}

pub data Role : Type 0 where
  company carrier guardian operator unassigned : Role

pub data EscrowFreezeReason : Type 0 where
  dispute_raised carrier_suspended company_suspended : EscrowFreezeReason
  contract_paused circuit_breaker_open : EscrowFreezeReason

pub data DisputeResolution : Type 0 where
  release_to_carrier refund_to_company : DisputeResolution

pub data SettlementState : Type 0 where
  none_state pending completed failed : SettlementState

pub data SettlementOperation : Type 0 where
  deposit release refund milestone_payment : SettlementOperation

pub record SettlementRecord : Type 0 where
  pub settlement_id : ℕ
  pub shipment_id : ℕ
  pub operation : SettlementOperation
  pub state : SettlementState
  pub amount : ℤ
  pub from : ℕ
  pub to : ℕ
  pub initiated_at : ℕ
  pub completed_at : Option ℕ
  pub error_code : Option ℕ

pub record FeeConfig : Type 0 where
  pub fee_bps : ℕ  -- u32
  pub treasury : ℕ

pub record Shipment : Type 0 where
  pub id : ℕ
  pub sender : ℕ
  pub receiver : ℕ
  pub carrier : ℕ
  pub status : ShipmentStatus
  pub data_hash : ℕ
  pub created_at : ℕ
  pub updated_at : ℕ
  pub escrow_amount : ℤ
  pub total_escrow : ℤ
  pub metadata : Option (List (ℕ × ℕ))
  pub payment_milestones : List (ℕ × ℕ)
  pub paid_milestones : List ℕ
  pub milestones_completed : List ℕ
  pub deadline : ℕ
  pub integration_nonce : ℕ  -- u32
  pub finalized : Bool

pub record ShipmentInput : Type 0 where
  pub receiver : ℕ
  pub carrier : ℕ
  pub data_hash : ℕ
  pub payment_milestones : List (ℕ × ℕ)
  pub deadline : ℕ

pub data NotificationType : Type 0 where
  shipment_created status_changed delivery_confirmed escrow_released : NotificationType
  dispute_raised dispute_resolved deadline_approaching : NotificationType

-- How many shipments a company has created in its current window.
pub record CreationQuotaTracker : Type 0 where
  pub count : ℕ  -- u32
  pub window_start : ℕ  -- u64

-- The entries that the creation of shipments keeps.
pub record Registry : Type 0 where
  pub shipment_counter : ℕ  -- u64
  pub shipment_limit : Option ℕ  -- u32
  pub company_limit : ℕ → Option ℕ
  pub creation_quota : ℕ → Option CreationQuotaTracker

-- The entries that the progress of a shipment keeps, and its prerequisites.
pub record Progress : Type 0 where
  pub last_status_update : ℕ → Option ℕ
  pub status_hash : ℕ → ShipmentStatus → Option ℕ
  pub confirmation_hash : ℕ → Option ℕ
  pub milestone_event_count : ℕ → ℕ
  pub prerequisites : ℕ → List ℕ

pub data AdminAction : Type 0 where
  upgrade transfer_admin force_release force_refund : ℕ → AdminAction

pub record Proposal : Type 0 where
  pub id : ℕ
  pub proposer : ℕ
  pub action : AdminAction
  pub approvals : List ℕ
  pub created_at : ℕ
  pub expires_at : ℕ
  pub executed : Bool

-- The entries of the multi-signature admins.
pub record Council : Type 0 where
  pub admin_list : Option (List ℕ)
  pub threshold : Option ℕ  -- u32
  pub proposal_counter : ℕ  -- u64
  pub proposals : ℕ → Option Proposal
  pub digests : ℕ → Option ℕ
  pub used_salts : ℕ → Bool
  pub proposed_admin : Option ℕ
  pub version : ℕ  -- u32

pub data AuditEventType : Type 0 where
  role_assigned role_revoked role_suspended role_reactivated : AuditEventType
  admin_transferred carrier_whitelisted carrier_unwhitelisted : AuditEventType
  company_suspended company_reactivated : AuditEventType
  carrier_suspended carrier_reactivated : AuditEventType

pub record AuditLogEntry : Type 0 where
  pub entry_id : ℕ  -- u64
  pub event_type : AuditEventType
  pub actor : ℕ
  pub target : ℕ
  pub timestamp : ℕ

-- The entries of the audit log, with their count.
pub record AuditLog : Type 0 where
  pub entries : ℕ → Option AuditLogEntry
  pub entry_count : ℕ  -- u32

-- The entries of the roles that only their administration reads: the primary role of an address,
-- and the carriers that a company has listed.
pub record Roster : Type 0 where
  pub primary_role : ℕ → Option Role
  pub whitelist : ℕ → ℕ → Bool

-- The entries that the administration of the contract writes and no other handler reads.
pub record Settings : Type 0 where
  pub config_checksum : Option ℕ
  pub treasury : Option ℕ

pub data RoleChangeAction : Type 0 where
  assigned revoked suspended reactivated : RoleChangeAction

-- What the host computes, and the model leaves open: the XDR bytes of a symbol and of an address,
-- and the SHA-256 of the payloads that the handlers put together.
pub record HostApi : Type 0 where
  pub symbol_xdr : ℕ → List ℕ
  pub resolution_hash : ℕ → DisputeResolution → ℕ → ℕ  -- shipment, resolution, reason hash
  pub update_hash : ℕ → ShipmentStatus → ℕ → ℕ  -- shipment, new status, data hash
  pub creation_hash : ℕ → ℕ → ℕ  -- sender, data hash
  pub action_digest : ℕ → AdminAction → ℕ  -- proposal, action
  pub address_xdr : ℕ → List ℕ
  pub config_checksum : ContractConfig → ℕ

-- What the handlers publish (the functions of events.rs that they call), and the entries whose time
-- to live they extend.
pub data Event : Type 0 where
  escrow_deposited escrow_released escrow_refunded : ℕ → ℕ → ℤ → Event
  platform_fee_collected : ℕ → ℕ → ℤ → Event
  milestone_payment_released : ℕ → ℕ → ℤ → ℕ → Event
  shipment_cancelled dispute_raised : ℕ → ℕ → ℕ → Event
  force_cancelled : ℕ → ℕ → ℕ → ℤ → Event
  escrow_frozen : ℕ → EscrowFreezeReason → ℕ → ℕ → Event
  dispute_resolved : ℕ → DisputeResolution → ℕ → ℕ → Event
  carrier_dispute_loss : ℕ → ℕ → Event
  notification : ℕ → NotificationType → ℕ → ℕ → Event
  circuit_breaker_opened : ℕ → ℕ → Event
  extend_shipment_ttl : ℕ → Event
  shipment_created : ℕ → ℕ → ℕ → ℕ → Event
  status_updated : ℕ → ShipmentStatus → ShipmentStatus → ℕ → Event
  milestone_recorded : ℕ → ℕ → ℕ → ℕ → Event
  delivery_confirmed delivery_success : ℕ → ℕ → ℕ → Event
  carrier_milestone_rate carrier_late_delivery : ℕ → ℕ → ℕ → ℕ → Event
  carrier_on_time_delivery : ℕ → ℕ → Event
  admin_proposed admin_transferred multisig_initialized : ℕ → ℕ → Event
  proposal_digest contract_upgraded action_approved : ℕ → ℕ → ℕ → Event
  proposal_executed shipment_expired : ℕ → Event
  update_current_contract_wasm : ℕ → Event
  role_revoked : ℕ → ℕ → Role → Event
  role_changed : RoleChangeAction → ℕ → ℕ → Role → ℕ → Event
  carrier_suspended carrier_reactivated add_wl rm_wl : ℕ → ℕ → Event
  audited : AuditLogEntry → Event
  contract_initialized shipment_limit_updated : ℕ → ℕ → Event
  company_limit_updated fee_config_updated quota_set : ℕ → ℕ → ℕ → Event
  contract_paused contract_unpaused : ℕ → ℕ → Event
  circuit_breaker_reset : ℕ → ℕ → Event
  config_updated : ℕ → ContractConfig → Event
  circuit_breaker_config_updated : ℕ → ℕ → ℕ → Event
  extend_instance_ttl : ℕ → ℕ → Event
