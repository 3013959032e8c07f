-- ===== src/Admission/Examples.antt =====
-- A warming-up wallet that is admitted, and one whose limits are not complete.
use solana_trading_bot.Prelude.{
  String, ◌≡◌, refl, true, false, [], ◌∷◌, some, none, given, Number, ℕ, at_most, is_integer,
  magnitude, is_ok, arith, coded, ApiErrorCode,
}
use text.Mathlib.TextEquality.{eq_iff}
use solana_trading_bot.Prelude.Values.{Value}
use solana_trading_bot.Ssot.{
  ExecutionWalletStatus, CreationMode, SignerProfileStatus, KeyCustodyMode,
}
use solana_trading_bot.Store.{Store, lookup, insert}
use solana_trading_bot.LiveModel.{value_at}
use solana_trading_bot.ExecutionWalletRegistry.{
  Wallet, Registry, transition, is_action_allowed, new_entry,
}
use solana_trading_bot.ExecutionWalletRegistry.Invariant.{IsValid}
use solana_trading_bot.SignerProfiles.{Profile, Profiles}
use solana_trading_bot.Config.Rules.{Field, FieldRule, field, mandatory, check_rule}
use solana_trading_bot.Config.{
  ConfigObject, fields_of, Section, unset, entries, all_of, check_entry, check_entries,
  validate_flat_section,
}
use solana_trading_bot.Config.Validate.{
  own_entries, unknown_sections, validate_sections, missing_names, check_brain, check_ev,
  check_tree, validate_config,
}
use solana_trading_bot.Config.Limits.{IsLimit}
use solana_trading_bot.Admission.{
  ActivateRequest, refusal, activate_execution_wallet, hard_risk_incomplete,
}
use solana_trading_bot.Admission.Gate.{Passed, admission_needs_limits}

abbrev whole : ℕ → Number
whole n = record { negative = false; mantissa = n; exponent = 1075 }

abbrev risk : Store Value
risk =
    ("max_daily_loss_pct", Value.number (whole 5))
    ∷ ("max_daily_loss_usdt", Value.number (whole 500))
    ∷ ("max_total_drawdown_pct", Value.number (whole 20))
    ∷ ("max_open_positions", Value.number (whole 4))
    ∷ ("max_position_size_pct", Value.number (whole 10))
    ∷ ("max_token_exposure_pct", Value.number (whole 10))
    ∷ ("max_creator_exposure_pct", Value.number (whole 10))
    ∷ ("max_cluster_exposure_pct", Value.number (whole 15))
    ∷ ("max_correlated_meme_exposure_pct", Value.number (whole 25))
    ∷ []

abbrev registry : Registry
registry =
    (
      "w1",
      record {
        execution_wallet_id = "w1";
        execution_wallet_address = none;
        execution_wallet_status = ExecutionWalletStatus.warming_up;
        execution_wallet_creation_mode = CreationMode.manual;
        funding_wallet_id = none;
        settlement_wallet_id = none;
      },
    )
    ∷ []

abbrev signers : Profiles
signers =
    (
      "s1",
      record {
        signer_profile_id = "s1";
        signer_profile_status = SignerProfileStatus.active;
        key_custody_mode = some KeyCustodyMode.isolated_signer;
      },
    )
    ∷ []

abbrev request : Section → ActivateRequest
request limits = record {
  execution_wallet_id = given "w1";
  signer_profile_id = given "s1";
  risk_config = limits;
  permission_role = given "admin";
  funded = true;
  signer_reachable = true;
  key_custody_verified = true;
  links_signer_or_custody = false;
}

registry-IsValid : IsValid registry
unfolding lookup
registry-IsValid k w found = ground (arith, eq_iff "w1" k)

accepted :
    is_ok (activate_execution_wallet registry signers (some (request (entries risk)))).1 ≡ true
unfolding activate_execution_wallet refusal transition validate_config check_tree all_of
    unknown_sections validate_sections validate_flat_section check_entries check_entry check_rule
    missing_names check_brain check_ev lookup at_most is_integer magnitude insert
accepted = refl

incomplete :
    (activate_execution_wallet registry signers (some (request unset))).1
    ≡ coded ApiErrorCode.real_live_config_invalid hard_risk_incomplete
unfolding activate_execution_wallet refusal transition validate_config check_tree all_of
    unknown_sections validate_sections validate_flat_section check_entries check_entry check_rule
    missing_names check_brain check_ev lookup
incomplete = refl

abbrev positions : Field
positions = mandatory (field FieldRule.int_pos "risk" "yes" "immediate" "yes")

positions_found : lookup "max_open_positions" (fields_of ConfigObject.risk_config) ≡ some positions
unfolding lookup
positions_found = refl

admission_needs_limits_example :
    (id : String) × (w : Wallet) × (p : Profile) × (n : Number) × (given "w1" ≡ given id)
    × Passed registry signers (request (entries risk)) w p
    × (value_at "max_open_positions" (own_entries (entries risk)) ≡ some (Value.number n))
    × IsLimit positions.rule n
    × (is_action_allowed
          (activate_execution_wallet registry signers (some (request (entries risk)))).0
          id
          (given new_entry)
        ≡ true)
admission_needs_limits_example =
    admission_needs_limits registry signers (request (entries risk)) "max_open_positions" positions
      registry-IsValid accepted positions_found
