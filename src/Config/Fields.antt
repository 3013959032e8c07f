-- ===== src/Config/Fields.antt =====
-- FIELDS of packages/config/src/schema.mjs: the sections that are one object.
use solana_trading_bot.Prelude.{[], ◌∷◌, false}
use solana_trading_bot.Prelude.Values.{Value}
use solana_trading_bot.Store.{Store}
use solana_trading_bot.Config.Rules.{
  Field, EnumRef, boolean, text, member_of, number_pos, number_nonneg, number, pct_pos, pct_nonneg,
  usdt_pos, int_pos, int_nonneg, auto, field, mandatory, by_default, referring, zero_value,
}

abbrev pub global_config : Store Field
global_config =
    (
      "user_enabled_paper_gate",
      by_default (Value.boolean false) (field boolean "global" "yes" "n/a" "no"),
    )
    ∷ (
      "ev_gate_mode",
      by_default (Value.text "strict")
          (field (member_of EnumRef.ev_gate_mode) "global" "yes" "yes_gating" "partial"),
    )
    ∷ ("execution_mode", field (member_of EnumRef.execution_mode) "global" "yes" "new_entries" "no")
    ∷ (
      "usdc_quote_enabled",
      by_default (Value.boolean false) (field boolean "global" "yes" "n/a" "no"),
    )
    ∷ []

abbrev pub brain_config : Store Field
brain_config =
    ("strategy_brain", field (member_of EnumRef.strategy_brain) "brain" "n/a" "n/a" "no")
    ∷ (
      "sizing_mode",
      field (member_of EnumRef.sizing_mode) "brain" "frozen_at_entry" "new_entries" "no",
    )
    ∷ ("sizing_value", field number_pos "brain" "frozen_at_entry" "new_entries" "no")
    ∷ ("capital_reference", field text "brain" "frozen_at_entry" "new_entries" "no")
    ∷ []

abbrev pub risk_config : Store Field
risk_config =
    ("max_daily_loss_pct", mandatory (field pct_pos "risk" "yes" "immediate" "yes"))
    ∷ ("max_daily_loss_usdt", mandatory (field usdt_pos "risk" "yes" "immediate" "yes"))
    ∷ ("max_total_drawdown_pct", mandatory (field pct_pos "risk" "yes" "immediate" "yes"))
    ∷ ("max_open_positions", mandatory (field int_pos "risk" "yes" "immediate" "yes"))
    ∷ ("max_position_size_pct", mandatory (field pct_pos "risk" "yes" "immediate" "yes"))
    ∷ ("max_token_exposure_pct", mandatory (field pct_pos "risk" "yes" "immediate" "yes"))
    ∷ ("max_creator_exposure_pct", mandatory (field pct_pos "risk" "yes" "immediate" "yes"))
    ∷ ("max_cluster_exposure_pct", mandatory (field pct_pos "risk" "yes" "immediate" "yes"))
    ∷ ("max_correlated_meme_exposure_pct", mandatory (field pct_pos "risk" "yes" "immediate" "yes"))
    ∷ []

abbrev pub ev_gate_config : Store Field
ev_gate_config =
    ("minimum_net_expectancy", field number "ev_gate" "yes" "gating" "partial")
    ∷ ("minimum_profit_factor", field number_pos "ev_gate" "yes" "gating" "partial")
    ∷ ("minimum_lower_confidence_bound", field number "ev_gate" "yes" "gating" "partial")
    ∷ ("minimum_sample_size", field int_pos "ev_gate" "yes" "gating" "partial")
    ∷ ("minimum_exit_success_rate", field pct_nonneg "ev_gate" "yes" "gating" "partial")
    ∷ ("max_expected_drawdown_pct", field pct_pos "ev_gate" "yes" "gating" "partial")
    ∷ []

abbrev pub execution_config : Store Field
execution_config =
    ("bundle_ttl_slots", field int_nonneg "execution" "yes" "new_sends" "no")
    ∷ (
      "platform_fee_bps",
      by_default (Value.number zero_value) (field number_nonneg "execution" "yes" "new_sends" "no"),
    )
    ∷ []

abbrev pub paper_config : Store Field
paper_config =
    (
      "user_enabled_paper_gate",
      referring (by_default (Value.boolean false) (field boolean "paper" "yes" "n/a" "no")),
    )
    ∷ []

abbrev pub config_versioning : Store Field
config_versioning = ("config_version", field auto "versioning" "n/a" "n/a" "no") ∷ []
