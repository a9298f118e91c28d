-- ===== src/Shipment/Errors.antt =====
-- contracts/shipment/src/errors.rs: the errors of the shipment contract, and their codes.
use navin_contracts.Prelude.{ℕ}

pub data NavinError : Type 0 where
  already_initialized not_initialized unauthorized shipment_not_found : NavinError
  invalid_status invalid_hash escrow_locked insufficient_funds : NavinError
  shipment_already_completed invalid_timestamp counter_overflow invalid_amount : NavinError
  reentrancy_detected batch_too_large invalid_shipment_input milestone_sum_invalid : NavinError
  milestone_already_paid metadata_limit_exceeded rate_limit_exceeded proposal_not_found : NavinError
  proposal_already_executed proposal_expired already_approved insufficient_approvals : NavinError
  not_an_admin invalid_multi_sig_config not_expired shipment_limit_reached : NavinError
  invalid_config cannot_self_revoke carrier_suspended force_cancel_reason_hash_missing : NavinError
  arithmetic_error dispute_reason_hash_missing company_suspended shipment_finalized : NavinError
  token_transfer_failed token_mint_failed duplicate_action shipment_unavailable : NavinError
  contract_paused status_hash_not_found data_hash_mismatch circuit_breaker_open : NavinError
  invalid_migration_edge milestone_limit_exceeded note_limit_exceeded evidence_limit_exceeded :
      NavinError
  breach_limit_exceeded invalid_token_decimals creation_quota_exceeded dependencies_not_met :
      NavinError
  circular_dependency proposal_salt_reused invalid_shipment_participants invalid_shipment_deadline :
      NavinError
  invalid_payment_milestones duplicate_payment_milestone invalid_token_address
        invalid_payment_milestone_name :
      NavinError
  metadata_symbol_collision external_integration_failed invalid_symbol note_not_found : NavinError
  evidence_not_found role_already_assigned carrier_already_whitelisted invalid_address : NavinError
  recovery_limit_exceeded : NavinError

-- `e as u32`
unfoldable pub code : NavinError → ℕ
code already_initialized = 1
code not_initialized = 2
code unauthorized = 3
code shipment_not_found = 4
code invalid_status = 5
code invalid_hash = 6
code escrow_locked = 7
code insufficient_funds = 8
code shipment_already_completed = 9
code invalid_timestamp = 10
code counter_overflow = 11
code invalid_amount = 14
code reentrancy_detected = 15
code batch_too_large = 16
code invalid_shipment_input = 17
code milestone_sum_invalid = 18
code milestone_already_paid = 19
code metadata_limit_exceeded = 20
code rate_limit_exceeded = 21
code proposal_not_found = 22
code proposal_already_executed = 23
code proposal_expired = 24
code already_approved = 25
code insufficient_approvals = 26
code not_an_admin = 27
code invalid_multi_sig_config = 28
code not_expired = 29
code shipment_limit_reached = 30
code invalid_config = 31
code cannot_self_revoke = 32
code carrier_suspended = 33
code force_cancel_reason_hash_missing = 34
code arithmetic_error = 35
code dispute_reason_hash_missing = 36
code company_suspended = 37
code shipment_finalized = 38
code token_transfer_failed = 39
code token_mint_failed = 40
code duplicate_action = 41
code shipment_unavailable = 42
code contract_paused = 43
code status_hash_not_found = 44
code data_hash_mismatch = 45
code circuit_breaker_open = 46
code invalid_migration_edge = 47
code milestone_limit_exceeded = 48
code note_limit_exceeded = 49
code evidence_limit_exceeded = 50
code breach_limit_exceeded = 51
code invalid_token_decimals = 52
code creation_quota_exceeded = 53
code dependencies_not_met = 54
code circular_dependency = 55
code proposal_salt_reused = 56
code invalid_shipment_participants = 57
code invalid_shipment_deadline = 58
code invalid_payment_milestones = 59
code duplicate_payment_milestone = 60
code invalid_token_address = 61
code invalid_payment_milestone_name = 62
code metadata_symbol_collision = 63
code external_integration_failed = 64
code invalid_symbol = 65
code note_not_found = 66
code evidence_not_found = 67
code role_already_assigned = 68
code carrier_already_whitelisted = 69
code invalid_address = 70
code recovery_limit_exceeded = 71
