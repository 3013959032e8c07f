-- ===== src/LiveModel/Vocabulary.antt =====
-- The vocabularies of packages/contracts/src/live-model.mjs, and those of
-- packages/ssot-types/src/core-enums.mjs that it takes, as the lists of words that a value is looked up in.
use solana_trading_bot.Prelude.{String, List, [], ◌∷◌}

abbrev pub trade_side : List String
trade_side = "buy" ∷ "sell" ∷ []

abbrev pub decision_outcome : List String
decision_outcome = "accept" ∷ "reject" ∷ "warn" ∷ []

abbrev pub intent_status : List String
intent_status =
    "CREATED" ∷ "CLAIMED" ∷ "PLANNED" ∷ "SIGNED" ∷ "BROADCAST" ∷ "CONFIRMED" ∷ "FILLED"
    ∷ "FAILED_PRE_SEND" ∷ "FAILED" ∷ "DUPLICATE" ∷ "CANCELLED" ∷ []

abbrev pub incident_severity : List String
incident_severity = "info" ∷ "warning" ∷ "critical" ∷ []

abbrev pub diagnostic_kind : List String
diagnostic_kind = "preflight" ∷ "connectivity" ∷ "simulation" ∷ "readiness" ∷ []

abbrev pub submit_backend : List String
submit_backend = "rpc" ∷ "jito" ∷ []

abbrev pub check_status : List String
check_status = "pass" ∷ "warn" ∷ "fail" ∷ []

abbrev pub copy_event : List String
copy_event =
    "leader_buy" ∷ "leader_scale_in" ∷ "leader_partial_sell" ∷ "leader_full_exit"
    ∷ "leader_transfer_out" ∷ "transfer_known_cluster" ∷ "transfer_unknown_single"
    ∷ "transfer_split_unknown" ∷ "transfer_cex_like" ∷ "transfer_creator_dev" ∷ "leader_rebuy"
    ∷ "whipsaw_detected" ∷ "multi_wallet_conflict" ∷ "leader_inactive_token_weak"
    ∷ "leader_exit_migration_limbo" ∷ "leader_sell_route_unhealthy"
    ∷ "entry_slippage_exceeds_leader" ∷ []

abbrev pub quote_mint : List String
quote_mint = "wsol" ∷ "usdc" ∷ "unknown" ∷ []

abbrev pub strategy_brain : List String
strategy_brain = "brain_a" ∷ "brain_b" ∷ []

abbrev pub copy_mode : List String
copy_mode = "follow_entry_user_exit" ∷ "full_mirror" ∷ []

abbrev pub hunt_status : List String
hunt_status =
    "discovered" ∷ "ranked" ∷ "gated" ∷ "accepted" ∷ "rejected" ∷ "watch_only" ∷ "expired"
    ∷ "entered" ∷ []

abbrev pub intent_type : List String
intent_type =
    "BUY_INTENT" ∷ "SELL_INTENT" ∷ "SCALE_IN_INTENT" ∷ "MIRROR_SELL_INTENT"
    ∷ "EMERGENCY_EXIT_INTENT" ∷ "CANCEL_INTENT" ∷ []

abbrev pub execution_mode : List String
execution_mode =
    "auto" ∷ "manual_approval" ∷ "helius_sender" ∷ "jito_send" ∷ "jito_bundle" ∷ "jupiter_route"
    ∷ []

abbrev pub bundle_status : List String
bundle_status = "Pending" ∷ "Failed" ∷ "Landed" ∷ "Invalid" ∷ "STALE_BUNDLE" ∷ []

abbrev pub position_state : List String
position_state =
    "OPENING" ∷ "OPEN" ∷ "PARTIALLY_EXITING" ∷ "EXIT_PENDING" ∷ "MIRROR_SELL_PENDING"
    ∷ "MIGRATION_PENDING" ∷ "CLOSED" ∷ "CLOSED_WITH_DUST" ∷ "FAILED_ENTRY" ∷ "FAILED_EXIT" ∷ []

abbrev pub validation_status : List String
validation_status = "valid" ∷ "warning" ∷ "invalid" ∷ []
