-- ===== src/LiveModel/Trading.antt =====
-- ENTITY_SPECS of packages/contracts/src/live-model.mjs: the fields of the entities, from the followed wallet to the broadcast.
use solana_trading_bot.Prelude.{[], ◌∷◌}
use solana_trading_bot.LiveModel.Vocabulary.{
  copy_event, copy_mode, decision_outcome, execution_mode, hunt_status, intent_status, intent_type,
  quote_mint, strategy_brain, trade_side,
}
use solana_trading_bot.LiveModel.Rules.{
  Spec, FieldType, required, optional, required_member, optional_member,
}

abbrev pub leader_wallet : Spec
leader_wallet =
    ("wallet_address", required FieldType.string)
    ∷ ("label", optional FieldType.string)
    ∷ ("copy_mode", optional_member copy_mode)
    ∷ ("strategy_brain", optional_member strategy_brain)
    ∷ ("follow_enabled", required FieldType.boolean)
    ∷ ("added_at", optional FieldType.string)
    ∷ []

abbrev pub leader_trade : Spec
leader_trade =
    ("trade_id", required FieldType.string)
    ∷ ("leader_address", required FieldType.string)
    ∷ ("token_mint", required FieldType.string)
    ∷ ("copy_event", required_member copy_event)
    ∷ ("quote_mint", optional_member quote_mint)
    ∷ ("signature", optional FieldType.string)
    ∷ ("slot", optional FieldType.number)
    ∷ ("block_time", optional FieldType.number)
    ∷ ("amount_usd", optional FieldType.number)
    ∷ ("observed_at", required FieldType.string)
    ∷ []

abbrev pub detected_signal : Spec
detected_signal =
    ("signal_id", required FieldType.string)
    ∷ ("source_trade_id", required FieldType.string)
    ∷ ("leader_address", required FieldType.string)
    ∷ ("token_mint", required FieldType.string)
    ∷ ("copy_event", required_member copy_event)
    ∷ ("strategy_brain", optional_member strategy_brain)
    ∷ ("created_at", required FieldType.string)
    ∷ []

abbrev pub token_candidate : Spec
token_candidate =
    ("token_mint", required FieldType.string)
    ∷ ("symbol", optional FieldType.string)
    ∷ ("decimals", optional FieldType.number)
    ∷ ("quote_mint", optional_member quote_mint)
    ∷ ("hunt_status", optional_member hunt_status)
    ∷ ("discovered_via", optional FieldType.string)
    ∷ ("created_at", optional FieldType.string)
    ∷ []

abbrev pub market_snapshot : Spec
market_snapshot =
    ("token_mint", required FieldType.string)
    ∷ ("price_usd", optional FieldType.number)
    ∷ ("liquidity_usd", optional FieldType.number)
    ∷ ("pool_address", optional FieldType.string)
    ∷ ("captured_at", required FieldType.string)
    ∷ []

abbrev pub route_quote : Spec
route_quote =
    ("token_mint", required FieldType.string)
    ∷ ("side", required_member trade_side)
    ∷ ("in_amount", required FieldType.number)
    ∷ ("out_amount", required FieldType.number)
    ∷ ("price_impact_pct", optional FieldType.number)
    ∷ ("slippage_bps", optional FieldType.number)
    ∷ ("route_valid", required FieldType.boolean)
    ∷ ("quoted_at", required FieldType.string)
    ∷ []

abbrev pub risk_budget : Spec
risk_budget =
    ("scope", required FieldType.string)
    ∷ ("max_notional_usd", optional FieldType.number)
    ∷ ("used_notional_usd", optional FieldType.number)
    ∷ ("remaining_usd", optional FieldType.number)
    ∷ ("daily_loss_usd", optional FieldType.number)
    ∷ ("within_budget", required FieldType.boolean)
    ∷ []

abbrev pub decision : Spec
decision =
    ("decision_id", required FieldType.string)
    ∷ ("signal_id", required FieldType.string)
    ∷ ("token_mint", required FieldType.string)
    ∷ ("outcome", required_member decision_outcome)
    ∷ ("reasons", optional FieldType.array)
    ∷ ("is_executable", required FieldType.boolean)
    ∷ ("created_at", required FieldType.string)
    ∷ []

abbrev pub execution_intent : Spec
execution_intent =
    ("intent_id", required FieldType.string)
    ∷ ("idempotency_key", required FieldType.string)
    ∷ ("decision_id", optional FieldType.string)
    ∷ ("intent_type", required_member intent_type)
    ∷ ("token_mint", required FieldType.string)
    ∷ ("size_usd", optional FieldType.number)
    ∷ ("status", required_member intent_status)
    ∷ ("created_at", required FieldType.string)
    ∷ []

abbrev pub execution_plan : Spec
execution_plan =
    ("plan_id", required FieldType.string)
    ∷ ("intent_id", required FieldType.string)
    ∷ ("execution_mode", required_member execution_mode)
    ∷ ("route", optional FieldType.object)
    ∷ ("tip_lamports", optional FieldType.number)
    ∷ ("compute_unit_limit", optional FieldType.number)
    ∷ ("created_at", required FieldType.string)
    ∷ []

abbrev pub signed_transaction : Spec
signed_transaction =
    ("intent_id", required FieldType.string)
    ∷ ("fee_payer", required FieldType.string)
    ∷ ("signature", optional FieldType.string)
    ∷ ("signed_tx_ref", optional FieldType.string)
    ∷ ("signed_at", optional FieldType.string)
    ∷ []
