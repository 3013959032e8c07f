-- ===== src/Ssot.antt =====
-- packages/ssot-types/src/core-enums.mjs: the vocabularies that the modelled packages share. Each
-- type has the words of one exported list. `OPEN` is spelled `opened`, since `open` is reserved.

-- OPERATING_STATE
pub data OperatingState : Type 0 where
  warming_up active exits_only paused killed : OperatingState

-- POSITION_STATE
pub data PositionState : Type 0 where
  opening opened partially_exiting exit_pending mirror_sell_pending migration_pending closed
        closed_with_dust failed_entry failed_exit :
      PositionState

-- MIGRATION_PHASE
pub data MigrationPhase : Type 0 where
  pre_migration migration_approaching migration_in_progress lp_minted post_migration_active :
      MigrationPhase

-- STRATEGY_BRAIN
pub data StrategyBrain : Type 0 where
  brain_a brain_b : StrategyBrain

-- PROTOCOL_CONSTANT_STATUS
pub data ProtocolConstantStatus : Type 0 where
  green changed : ProtocolConstantStatus

-- INTENT_TYPE
pub data IntentType : Type 0 where
  buy_intent sell_intent scale_in_intent mirror_sell_intent emergency_exit_intent cancel_intent :
      IntentType

-- FAILURE_TYPE
pub data FailureType : Type 0 where
  slippage_exceeded blockhash_expired account_in_use compute_budget_exceeded insufficient_funds
        route_invalid token_account_missing program_error rpc_dropped bundle_failed unknown :
      FailureType

-- BUNDLE_STATUS
pub data BundleStatus : Type 0 where
  pending failed landed invalid stale_bundle : BundleStatus

-- EXECUTION_WALLET_STATUS
pub data ExecutionWalletStatus : Type 0 where
  warming_up active disabled draining retired revoked : ExecutionWalletStatus

-- EXECUTION_WALLET_CREATION_MODE
pub data CreationMode : Type 0 where
  manual automatic_policy : CreationMode

-- ASSET_TRANSFER_STATUS
pub data AssetTransferStatus : Type 0 where
  pending submitted confirmed failed cancelled : AssetTransferStatus

-- ROTATION_TRIGGER
pub data RotationTrigger : Type 0 where
  manual time_based trade_count_based risk_limit_based compromise_suspected wallet_retirement :
      RotationTrigger

-- WALLET_ROTATION_STATUS
pub data WalletRotationStatus : Type 0 where
  not_required pending in_progress completed failed : WalletRotationStatus

-- PROFIT_SWEEP_POLICY
pub data ProfitSweepPolicy : Type 0 where
  auto_immediate manual periodic : ProfitSweepPolicy

-- KEY_CUSTODY_MODE
pub data KeyCustodyMode : Type 0 where
  connected_wallet isolated_signer : KeyCustodyMode

-- SIGNER_PROFILE_STATUS
pub data SignerProfileStatus : Type 0 where
  active disabled revoked degraded : SignerProfileStatus
