-- ===== src/Config/Validate.antt =====
-- `validateConfig` of packages/config/src/validate.mjs: all the checks in their order, and the outputs that
-- are derived from what they push.
use solana_trading_bot.Prelude.{
  String, Bool, true, false, not, ◌&&◌, List, [], ◌∷◌, Option, none, some, if◌then◌else◌, Number,
  at_most, map,
}
use solana_trading_bot.Prelude.Values.{Value}
use solana_trading_bot.Store.{Store, lookup}
use solana_trading_bot.LiveModel.Rules.{mentions}
use solana_trading_bot.Config.{
  ConfigObject, config_objects, object_name, hard_risk_fields, ev_fields, Section, unset, entries,
  ConfigTree, Config, no_object, tree, config_must_be_object, capital_reference_required,
  sizing_value_over_100, ev_is_advisory, ev_missing_under_advice, ev_missing_blocks,
  hard_risk_missing, Output, nothing, an_error, a_warning, an_unknown_name, and_then, all_of,
  push_if, validate_flat_section, is_missing, says, number_at, validate_wallets,
}

-- `config[obj]`
abbrev pub section_at : ConfigTree → ConfigObject → Section
section_at c object = elim (lookup (object_name object) c.sections) [ none ↦ unset | some s ↦ s ]

-- `section || {}`, by its own properties.
abbrev pub own_entries : Section → Store Value
own_entries (entries obj) = obj
own_entries _ = []

-- The loop over the keys of the object.
unfoldable pub unknown_sections : Store Section → Output
unknown_sections [] = nothing
unknown_sections ((name, s) ∷ ss) =
    and_then (push_if (not (mentions (map object_name config_objects) name)) (an_unknown_name name))
      (unknown_sections ss)

abbrev pub is_per_wallet : ConfigObject → Bool
is_per_wallet ConfigObject.per_wallet_config = true
is_per_wallet _ = false

-- The loop over CONFIG_OBJECTS.
unfoldable pub validate_sections : List ConfigObject → ConfigTree → Output
validate_sections [] c = nothing
validate_sections (object ∷ objects) c =
    and_then
      (if is_per_wallet object then nothing else validate_flat_section object (section_at c object))
      (validate_sections objects c)

abbrev pub is_over_100 : Option Number → Bool
is_over_100 none = false
is_over_100 (some n) = not (at_most 100 n)

-- The brain dependencies.
unfoldable pub check_brain : Store Value → Output
check_brain brain =
    if says brain "sizing_mode" "pct_of_capital"
    then and_then
        (push_if (is_missing brain "capital_reference") (an_error capital_reference_required))
        (push_if (is_over_100 (number_at brain "sizing_value")) (an_error sizing_value_over_100))
    else nothing

-- `names.filter((k) => obj[k] == null)`
unfoldable pub missing_names : List String → Store Value → List String
missing_names [] obj = []
missing_names (name ∷ names) obj =
    let rest = missing_names names obj in if is_missing obj name then name ∷ rest else rest

abbrev pub is_nil {ℓ} : {A : Type ℓ} → List A → Bool
is_nil [] = true
is_nil (x ∷ xs) = false

-- The behaviour of the EV gate.
unfoldable pub check_ev : Store Value → Store Value → Output
check_ev global ev =
    let missing_ev = missing_names ev_fields ev in
    let any = not (is_nil missing_ev) in
    if says global "ev_gate_mode" "warning_only"
    then and_then (a_warning ev_is_advisory)
        (push_if any (a_warning (ev_missing_under_advice missing_ev)))
    else push_if any (a_warning (ev_missing_blocks missing_ev))

-- HARD_RISK_FIELDS that are not set.
abbrev pub missing_risk : ConfigTree → List String
missing_risk c =
    missing_names hard_risk_fields (own_entries (section_at c ConfigObject.risk_config))

-- What all the checks push.
unfoldable pub check_tree : ConfigTree → Output
check_tree c = all_of (
    unknown_sections c.sections
    ∷ validate_sections config_objects c
    ∷ validate_wallets c.per_wallet
    ∷ check_brain (own_entries (section_at c ConfigObject.brain_config))
    ∷ check_ev (own_entries (section_at c ConfigObject.global_config))
        (own_entries (section_at c ConfigObject.ev_gate_config))
    ∷ push_if (not (is_nil (missing_risk c))) (a_warning (hard_risk_missing (missing_risk c)))
    ∷ [])

-- VALIDATION_STATUS
pub data ValidationStatus : Type 0 where
  valid warning invalid : ValidationStatus

pub record Validation : Type 0 where
  pub validation_status : ValidationStatus
  pub real_live_config_valid : Bool
  pub output : Output

-- The opposite of `hardInvalid`.
abbrev pub is_clean : Output → Bool
is_clean out = is_nil out.errors && is_nil out.unknown_names

abbrev pub status_of : Output → ValidationStatus
status_of out =
    if not (is_clean out) then invalid else if is_nil out.warnings then valid else warning

-- `validateConfig`
unfoldable pub validate_config : Config → Validation
validate_config no_object = record {
  validation_status = invalid;
  real_live_config_valid = false;
  output = an_error config_must_be_object;
}
validate_config (tree c) =
    let out = check_tree c in
    record {
      validation_status = status_of out;
      real_live_config_valid = is_clean out && is_nil (missing_risk c);
      output = out;
    }
