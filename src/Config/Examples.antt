-- ===== src/Config/Examples.antt =====
-- A configuration with every hard-risk limit, a wallet with a profit target and four thresholds, and
-- configurations that are refused.
use solana_trading_bot.Prelude.{
  ◌≡◌, ◌≢◌, refl, true, false, String, List, [], ◌∷◌, some, Number, ℕ, less, at_most, is_integer,
  magnitude, ge_zero, arith,
}
use mathlib.Core.List.{Memᴰ}
use solana_trading_bot.Prelude.Values.{Value}
use solana_trading_bot.Store.{Store, lookup}
use solana_trading_bot.LiveModel.{value_at}
use solana_trading_bot.Config.Rules.{Field, FieldRule, check_rule, field, mandatory}
use solana_trading_bot.Config.{
  ConfigObject, fields_of, Section, entries, no_wallets, wallets, ConfigTree, tree, says, all_of,
  check_entry, check_entries, validate_flat_section, validate_wallet_entry, validate_each,
}
use solana_trading_bot.Config.Validate.{
  section_at, own_entries, unknown_sections, validate_sections, missing_names, check_brain,
  check_ev, check_tree, invalid, validate_config,
}
use solana_trading_bot.Config.Limits.{IsLimit, real_live_limits}
use solana_trading_bot.Config.WalletRules.{sell_thresholds_ascend}

abbrev whole : ℕ → Number
whole n = record { negative = false; mantissa = n; exponent = 1075 }

abbrev risk : Store Value
risk =
    ("max_daily_loss_pct", Value.number (whole 5))
    ∷ ("max_daily_loss_usdt", Value.number (whole 500))
    ∷ ("max_total_drawdown_pct", Value.number (whole 20))
    ∷ ("max_open_positions", Value.number (whole 4))
    ∷ ("max_position_size_pct", Value.number (whole 10))
    ∷ ("max_token_exposure_pct", Value.number (whole 10))
    ∷ ("max_creator_exposure_pct", Value.number (whole 10))
    ∷ ("max_cluster_exposure_pct", Value.number (whole 15))
    ∷ ("max_correlated_meme_exposure_pct", Value.number (whole 25))
    ∷ []

abbrev wallet : Store Value
wallet =
    ("follow_enabled", Value.boolean true)
    ∷ ("copy_mode", Value.text "follow_entry_user_exit")
    ∷ ("take_profit_pct", Value.number (whole 40))
    ∷ ("partial_sell_low_threshold", Value.number (whole 10))
    ∷ ("partial_sell_medium_threshold", Value.number (whole 25))
    ∷ ("partial_sell_high_threshold", Value.number (whole 50))
    ∷ ("partial_sell_major_threshold", Value.number (whole 80))
    ∷ []

abbrev followed : List (String × Section)
followed = ("leader", entries wallet) ∷ []

abbrev config : ConfigTree
config = record { sections = ("risk_config", entries risk) ∷ []; per_wallet = wallets followed }

config_valid : (validate_config (tree config)).real_live_config_valid ≡ true
unfolding validate_config check_tree all_of unknown_sections validate_sections validate_flat_section
    check_entries check_entry check_rule validate_each validate_wallet_entry missing_names
    check_brain check_ev lookup at_most is_integer magnitude less
config_valid = refl

config_accepted : (validate_config (tree config)).validation_status ≢ invalid
unfolding validate_config check_tree all_of unknown_sections validate_sections validate_flat_section
    check_entries check_entry check_rule validate_each validate_wallet_entry missing_names
    check_brain check_ev lookup at_most is_integer magnitude less
config_accepted h = absurd (ground arith)

abbrev drawdown : Field
drawdown = mandatory (field FieldRule.pct_pos "risk" "yes" "immediate" "yes")

drawdown_found :
    lookup "max_total_drawdown_pct" (fields_of ConfigObject.risk_config) ≡ some drawdown
unfolding lookup
drawdown_found = refl

real_live_limits_example :
    (n : Number) × (value_at "max_total_drawdown_pct"
        (own_entries (section_at config ConfigObject.risk_config))
      ≡ some (Value.number n))
    × IsLimit drawdown.rule n
real_live_limits_example =
    real_live_limits config "max_total_drawdown_pct" drawdown config_valid drawdown_found

wallet_follows : says wallet "copy_mode" "follow_entry_user_exit" ≡ true
unfolding lookup
wallet_follows = refl

sell_thresholds_ascend_example :
    (ge_zero (whole 10) ≡ true)
    × (less (whole 10) (whole 25) ≡ true)
    × (less (whole 25) (whole 50) ≡ true)
    × (less (whole 50) (whole 80) ≡ true)
    × (at_most 100 (whole 80) ≡ true)
unfolding lookup
sell_thresholds_ascend_example =
    sell_thresholds_ascend config followed "leader" wallet (whole 10) (whole 25) (whole 50)
      (whole 80) config_accepted refl (Memᴰ.head refl) refl refl refl refl

-- An inherited name that is null is taken for a setting.
constructor_passes :
    (validate_config (
      tree (record {
        sections = ("paper_config", entries (("constructor", Value.null) ∷ [])) ∷ [];
        per_wallet = no_wallets;
      }))).output.unknown_names
    ≡ []
unfolding validate_config check_tree all_of unknown_sections validate_sections validate_flat_section
    check_entries check_entry missing_names check_brain check_ev lookup
constructor_passes = refl
