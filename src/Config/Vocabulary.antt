-- ===== src/Config/Vocabulary.antt =====
-- The vocabularies of packages/ssot-types/src/core-enums.mjs that only the configuration uses.
use solana_trading_bot.Prelude.{String, List, [], ◌∷◌}

abbrev pub ev_gate_mode : List String
ev_gate_mode = "strict" ∷ "warning_only" ∷ []

abbrev pub sizing_mode : List String
sizing_mode = "fixed_usd" ∷ "fixed_sol" ∷ "pct_of_capital" ∷ []

abbrev pub partial_sell_policy : List String
partial_sell_policy =
    "risk_modifier_only" ∷ "proportional_mirror" ∷ "ignore_below_threshold"
    ∷ "tighten_trailing_only" ∷ "manual_review" ∷ []

abbrev pub transfer_exit_policy : List String
transfer_exit_policy = "no_auto_exit" ∷ "de_risk_partial" ∷ "exit_on_transfer" ∷ []

abbrev pub scale_in_policy : List String
scale_in_policy = "no_add" ∷ "mirror_proportional" ∷ "limited_add" ∷ []

abbrev pub conflict_resolution : List String
conflict_resolution = "risk_signal_wins_by_default" ∷ []
