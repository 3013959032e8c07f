-- ===== src/Config/WalletFields.antt =====
-- FIELDS of packages/config/src/schema.mjs: the settings of a followed wallet.
use solana_trading_bot.Prelude.{[], ◌∷◌, false}
use solana_trading_bot.Prelude.Values.{Value}
use solana_trading_bot.Store.{Store}
use solana_trading_bot.Config.Rules.{
  Field, EnumRef, boolean, member_of, number_nonneg, number, pct_pos, pct_nonneg, pct_open100,
  duration_nonneg, field, mandatory, by_default,
}

abbrev pub per_wallet_config : Store Field
per_wallet_config =
    ("follow_enabled", mandatory (field boolean "per-wallet" "yes" "yes" "no"))
    ∷ (
      "copy_mode",
      field (member_of EnumRef.copy_mode) "per-wallet" "frozen_at_entry" "new_entries" "no",
    )
    ∷ ("take_profit_pct", field pct_pos "per-wallet" "frozen_at_entry" "new_entries" "no")
    ∷ (
      "partial_sell_policy",
      field (member_of EnumRef.partial_sell_policy) "per-wallet" "frozen_at_entry" "new_entries"
          "no",
    )
    ∷ ("min_mirror_sell_pct", field pct_nonneg "per-wallet" "frozen_at_entry" "new_entries" "no")
    ∷ (
      "partial_sell_low_threshold",
      field pct_nonneg "per-wallet" "frozen_at_entry" "new_entries" "no",
    )
    ∷ (
      "partial_sell_medium_threshold",
      field pct_nonneg "per-wallet" "frozen_at_entry" "new_entries" "no",
    )
    ∷ (
      "partial_sell_high_threshold",
      field pct_nonneg "per-wallet" "frozen_at_entry" "new_entries" "no",
    )
    ∷ (
      "partial_sell_major_threshold",
      field pct_nonneg "per-wallet" "frozen_at_entry" "new_entries" "no",
    )
    ∷ (
      "transfer_exit_policy",
      by_default (Value.text "no_auto_exit") (
          field (member_of EnumRef.transfer_exit_policy) "per-wallet" "frozen_at_entry"
            "new_entries" "no"),
    )
    ∷ (
      "scale_in_policy",
      field (member_of EnumRef.scale_in_policy) "per-wallet" "frozen_at_entry" "new_entries" "no",
    )
    ∷ (
      "conflict_resolution",
      by_default (Value.text "risk_signal_wins_by_default")
          (field (member_of EnumRef.conflict_resolution) "per-wallet" "fixed" "fixed" "no"),
    )
    ∷ ("copy_adds_enabled", field boolean "per-wallet" "frozen_at_entry" "new_entries" "no")
    ∷ (
      "copy_adds_for_follow_entry",
      field boolean "per-wallet" "frozen_at_entry" "new_entries" "no",
    )
    ∷ (
      "max_entry_slippage_vs_leader",
      field number_nonneg "per-wallet" "frozen_at_entry" "new_entries" "no",
    )
    ∷ ("rebuy_cooldown", field duration_nonneg "per-wallet" "frozen_at_entry" "new_entries" "no")
    ∷ ("whipsaw_window", field duration_nonneg "per-wallet" "frozen_at_entry" "new_entries" "no")
    ∷ ("whipsaw_penalty", field number "per-wallet" "frozen_at_entry" "new_entries" "no")
    ∷ (
      "allow_whipsaw_reentry_override",
      field boolean "per-wallet" "frozen_at_entry" "new_entries" "no",
    )
    ∷ (
      "fast_hunt_window_ms",
      field duration_nonneg "per-wallet" "frozen_at_entry" "new_entries" "no",
    )
    ∷ (
      "require_pullback",
      by_default (Value.boolean false)
          (field boolean "per-wallet" "frozen_at_entry" "new_entries" "no"),
    )
    ∷ (
      "chase_guard",
      by_default (Value.boolean false)
          (field boolean "per-wallet" "frozen_at_entry" "new_entries" "no"),
    )
    ∷ ("min_token_readiness", field number "per-wallet" "frozen_at_entry" "new_entries" "no")
    ∷ (
      "max_entry_volatility",
      field number_nonneg "per-wallet" "frozen_at_entry" "new_entries" "no",
    )
    ∷ (
      "single_wallet_min_confidence",
      field number "per-wallet" "frozen_at_entry" "new_entries" "no",
    )
    ∷ (
      "max_liquidity_share_pct",
      field pct_open100 "per-wallet" "frozen_at_entry" "new_entries" "no",
    )
    ∷ ("stop_loss_pct", field pct_pos "per-wallet" "asymmetric" "asymmetric" "no")
    ∷ ("max_time_in_position", field duration_nonneg "per-wallet" "asymmetric" "asymmetric" "no")
    ∷ []
