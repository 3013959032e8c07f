-- ===== src/AssetTransferIntents/Model.antt =====
-- The transfers of packages/asset-transfer-intents: their records, requests and refusals, and the table
-- ALLOWED of their statuses.
use solana_trading_bot.Prelude.{String, ℕ, Bool, true, false, [], Arg}
use solana_trading_bot.Ssot.{AssetTransferStatus}
use solana_trading_bot.Store.{Store}
use solana_trading_bot.Audit.{AuditLog}

pub record Transfer : Type 0 where
  pub asset_transfer_intent_id : String
  pub asset_transfer_status : AssetTransferStatus
  pub source_execution_wallet_id : String
  pub destination_execution_wallet_id : String
  pub position_owner_wallet_id : String

pub record Transfers : Type 0 where
  pub by_id : Store Transfer
  pub by_idempotency : Store String
  pub seq : ℕ
  pub audit : AuditLog

abbrev pub create_asset_transfer_intents : Transfers
create_asset_transfer_intents = record { by_id = []; by_idempotency = []; seq = 0; audit = [] }

-- Who asks: the fields of a request that go into its audit entry.
pub record Context : Type 0 where
  pub audit_actor : Arg String
  pub permission_role : Arg String
  pub idempotency_key : Arg String
  pub request_id : Arg String

pub record CreateRequest : Type 0 where
  pub context : Context
  pub asset_transfer_intent_id : Arg String
  pub source_execution_wallet_id : Arg String
  pub destination_execution_wallet_id : Arg String
  pub position_owner_wallet_id : Arg String

pub data Reason : Type 0 where
  audit_actor_required admin_required duplicate_idempotency_key duplicate_asset_transfer_intent_id
        source_and_destination_required source_equals_destination source_not_current_owner
        destination_not_eligible asset_transfer_intent_not_found invalid_asset_transfer_status :
      Reason
  cancel_not_allowed_in_state : AssetTransferStatus → Reason
  illegal_transition : AssetTransferStatus → AssetTransferStatus → Reason

abbrev pub status_name : AssetTransferStatus → String
status_name AssetTransferStatus.pending = "PENDING"
status_name AssetTransferStatus.submitted = "SUBMITTED"
status_name AssetTransferStatus.confirmed = "CONFIRMED"
status_name AssetTransferStatus.failed = "FAILED"
status_name AssetTransferStatus.cancelled = "CANCELLED"

-- The word of a reason in a text.
abbrev pub reason_name : Reason → String
reason_name audit_actor_required = "audit_actor_required"
reason_name admin_required = "admin_required"
reason_name duplicate_idempotency_key = "duplicate_idempotency_key"
reason_name duplicate_asset_transfer_intent_id = "duplicate_asset_transfer_intent_id"
reason_name source_and_destination_required = "source_and_destination_required"
reason_name source_equals_destination = "source_equals_destination"
reason_name source_not_current_owner = "source_not_current_owner"
reason_name destination_not_eligible = "destination_not_eligible"
reason_name asset_transfer_intent_not_found = "asset_transfer_intent_not_found"
reason_name invalid_asset_transfer_status = "invalid_asset_transfer_status"
reason_name (cancel_not_allowed_in_state status) = "cancel_not_allowed_in_state"
reason_name (illegal_transition from to) = "illegal_transition"

-- `ALLOWED[from].includes(to)`
abbrev pub allowed : AssetTransferStatus → AssetTransferStatus → Bool
allowed AssetTransferStatus.pending AssetTransferStatus.submitted = true
allowed AssetTransferStatus.pending AssetTransferStatus.failed = true
allowed AssetTransferStatus.pending AssetTransferStatus.cancelled = true
allowed AssetTransferStatus.submitted AssetTransferStatus.confirmed = true
allowed AssetTransferStatus.submitted AssetTransferStatus.failed = true
allowed AssetTransferStatus.submitted AssetTransferStatus.cancelled = true
allowed _ _ = false

-- TERMINAL
abbrev pub is_terminal_transfer_status : AssetTransferStatus → Bool
is_terminal_transfer_status AssetTransferStatus.confirmed = true
is_terminal_transfer_status AssetTransferStatus.failed = true
is_terminal_transfer_status AssetTransferStatus.cancelled = true
is_terminal_transfer_status _ = false
