-- ===== src/Config.antt =====
-- packages/config/src/validate.mjs: `validateConfig`, over the field tables of
-- packages/config/src/schema.mjs. The rules are in Rules, the tables in Fields and WalletFields. Each check
-- answers what it pushes, and `and_then` puts the pushes one after another.
pub mod Vocabulary
pub mod Rules
pub mod WalletFields
pub mod Fields
pub mod Validate
pub mod Clean
pub mod Limits
pub mod WalletRules
mod Examples
use solana_trading_bot.Prelude.{
  String, Bool, true, false, not, ◌&&◌, ◌||◌, List, [], ◌∷◌, ◌++◌, Option, none, some, Number,
  if◌then◌else◌, is_some, less, at_most, str_eq, template,
}
use solana_trading_bot.Prelude.Values.{Value}
use solana_trading_bot.Store.{Store, lookup}
use solana_trading_bot.LiveModel.{value_at}
use solana_trading_bot.LiveModel.Rules.{mentions}
use solana_trading_bot.Config.Rules.{Field, FieldRule, check_rule, number_of}
use solana_trading_bot.Config.Fields
use solana_trading_bot.Config.WalletFields

-- The keys of FIELDS.
pub data ConfigObject : Type 0 where
  global_config brain_config per_wallet_config risk_config ev_gate_config execution_config
        paper_config config_versioning :
      ConfigObject

-- CONFIG_OBJECTS
abbrev pub config_objects : List ConfigObject
config_objects =
    global_config ∷ brain_config ∷ per_wallet_config ∷ risk_config ∷ ev_gate_config
    ∷ execution_config ∷ paper_config ∷ config_versioning ∷ []

abbrev pub object_name : ConfigObject → String
object_name global_config = "global_config"
object_name brain_config = "brain_config"
object_name per_wallet_config = "per_wallet_config"
object_name risk_config = "risk_config"
object_name ev_gate_config = "ev_gate_config"
object_name execution_config = "execution_config"
object_name paper_config = "paper_config"
object_name config_versioning = "config_versioning"

-- `FIELDS[obj]`
abbrev pub fields_of : ConfigObject → Store Field
fields_of global_config = Fields.global_config
fields_of brain_config = Fields.brain_config
fields_of per_wallet_config = WalletFields.per_wallet_config
fields_of risk_config = Fields.risk_config
fields_of ev_gate_config = Fields.ev_gate_config
fields_of execution_config = Fields.execution_config
fields_of paper_config = Fields.paper_config
fields_of config_versioning = Fields.config_versioning

abbrev pub names_of : Store Field → List String
names_of [] = []
names_of ((name, f) ∷ fs) = name ∷ names_of fs

-- HARD_RISK_FIELDS
abbrev pub hard_risk_fields : List String
hard_risk_fields = names_of Fields.risk_config

-- EV_FIELDS
abbrev pub ev_fields : List String
ev_fields = names_of Fields.ev_gate_config

-- PARTIAL_SELL_ORDER
abbrev pub partial_sell_order : List String
partial_sell_order =
    "partial_sell_low_threshold" ∷ "partial_sell_medium_threshold" ∷ "partial_sell_high_threshold"
    ∷ "partial_sell_major_threshold" ∷ []

-- A section or a wallet's entry: undefined or null, a primitive value, or an object by its own properties;
-- an array is its entries by index.
pub data Section : Type 0 where
  unset foreign : Section
  entries : Store Value → Section

-- `per_wallet_config`
pub data Wallets : Type 0 where
  no_wallets not_a_map : Wallets
  wallets : List (String × Section) → Wallets

-- The object by its own properties: `per_wallet_config`, and the sections under every other name.
pub record ConfigTree : Type 0 where
  pub sections : Store Section
  pub per_wallet : Wallets

-- The argument of `validateConfig`.
pub data Config : Type 0 where
  no_object : Config
  tree : ConfigTree → Config

pub data Problem : Type 0 where
  config_must_be_object wallets_must_be_map capital_reference_required sizing_value_over_100 :
      Problem
  section_must_be_object : String → Problem
  bad_value : String → String → FieldRule → Problem
  wallet_must_be_object take_profit_required copy_adds_required thresholds_out_of_order :
      String → Problem

pub data Warning : Type 0 where
  watch_only : String → Warning
  ev_is_advisory : Warning
  ev_missing_under_advice ev_missing_blocks hard_risk_missing : List String → Warning

-- `out`: what the checks push.
pub record Output : Type 0 where
  pub errors : List Problem
  pub warnings : List Warning
  pub unknown_names : List String

abbrev pub nothing : Output
nothing = record { errors = []; warnings = []; unknown_names = [] }

abbrev pub an_error : Problem → Output
an_error p = record nothing { errors = p ∷ [] }

abbrev pub a_warning : Warning → Output
a_warning w = record nothing { warnings = w ∷ [] }

abbrev pub an_unknown_name : String → Output
an_unknown_name name = record nothing { unknown_names = name ∷ [] }

abbrev pub and_then : Output → Output → Output
and_then a b = record {
  errors = a.errors ++ b.errors;
  warnings = a.warnings ++ b.warnings;
  unknown_names = a.unknown_names ++ b.unknown_names;
}

-- What some checks push, one after another.
unfoldable pub all_of : List Output → Output
all_of [] = nothing
all_of (a ∷ rest) = and_then a (all_of rest)

abbrev pub push_if : Bool → Output → Output
push_if c out = if c then out else nothing

-- The properties of `Object.prototype`, which a lookup in an object finds under no own name.
abbrev pub inherited_names : List String
inherited_names =
    "constructor" ∷ "__defineGetter__" ∷ "__defineSetter__" ∷ "hasOwnProperty" ∷ "__lookupGetter__"
    ∷ "__lookupSetter__" ∷ "isPrototypeOf" ∷ "propertyIsEnumerable" ∷ "toString" ∷ "valueOf"
    ∷ "__proto__" ∷ "toLocaleString" ∷ []

-- `FIELDS[obj][key]`, by its rule.
abbrev pub rule_of : Store Field → String → Option FieldRule
rule_of spec key = elim (lookup key spec) [
  | some f ↦ some f.rule
  | none ↦ if mentions inherited_names key then some FieldRule.no_rule else none
]

abbrev pub is_unset : Value → Bool
is_unset Value.undefined = true
is_unset Value.null = true
is_unset _ = false

-- One round of the loop over the entries of a section.
unfoldable pub check_entry : String → Store Field → String → Value → Output
check_entry place spec key v = elim (rule_of spec key) [
  | none ↦ an_unknown_name (template (place ∷ "." ∷ key ∷ []))
  | some rule ↦
      if is_unset v
      then nothing
      else push_if (not (check_rule rule v)) (an_error (bad_value place key rule))
]

unfoldable pub check_entries : String → Store Field → Store Value → Output
check_entries place spec [] = nothing
check_entries place spec ((key, v) ∷ obj) =
    and_then (check_entry place spec key v) (check_entries place spec obj)

-- `validateFlatSection`
unfoldable pub validate_flat_section : ConfigObject → Section → Output
validate_flat_section object unset = nothing
validate_flat_section object foreign = an_error (section_must_be_object (object_name object))
validate_flat_section object (entries obj) =
    check_entries (object_name object) (fields_of object) obj

-- `obj.key == null`
abbrev pub is_missing : Store Value → String → Bool
is_missing obj key = not (is_some (value_at key obj))

-- `obj.key === word`
abbrev pub says : Store Value → String → String → Bool
says obj key word = elim (lookup key obj) [ some (Value.text t) ↦ str_eq t word | _ ↦ false ]

-- `obj.key === true`
abbrev pub is_on : Store Value → String → Bool
is_on obj key = elim (lookup key obj) [ some (Value.boolean b) ↦ b | _ ↦ false ]

-- `obj.key`, where it is a finite number.
abbrev pub number_at : Store Value → String → Option Number
number_at obj key = elim (lookup key obj) [ none ↦ none | some v ↦ number_of v ]

-- The numbers under some keys, if every one is a number.
abbrev pub numbers_at : Store Value → List String → Option (List Number)
numbers_at obj [] = some []
numbers_at obj (key ∷ keys) = elim (number_at obj key) [
  | none ↦ none
  | some n ↦ elim (numbers_at obj keys) [ none ↦ none | some ns ↦ some (n ∷ ns) ]
]

abbrev pub is_increasing : List Number → Bool
is_increasing [] = true
is_increasing (x ∷ []) = true
is_increasing (x ∷ y ∷ rest) = less x y && is_increasing (y ∷ rest)

abbrev pub out_of_order : Store Value → Bool
out_of_order obj = elim (numbers_at obj partial_sell_order) [
  | none ↦ false
  | some ns ↦ not (is_increasing ns)
]

-- The rules between the settings of a wallet.
abbrev pub check_wallet_settings : String → Store Value → List Output
check_wallet_settings wallet_id obj =
    push_if (is_missing obj "follow_enabled") (a_warning (watch_only wallet_id))
    ∷ push_if (says obj "copy_mode" "follow_entry_user_exit" && is_missing obj "take_profit_pct")
        (an_error (take_profit_required wallet_id))
    ∷ push_if
        (says obj "scale_in_policy" "limited_add" && not (is_on obj "copy_adds_for_follow_entry"))
        (an_error (copy_adds_required wallet_id))
    ∷ push_if (out_of_order obj) (an_error (thresholds_out_of_order wallet_id))
    ∷ []

-- `validateWalletEntry`
unfoldable pub validate_wallet_entry : String → Section → Output
validate_wallet_entry wallet_id (entries obj) = all_of (
    check_entries (template ("per_wallet_config." ∷ wallet_id ∷ [])) WalletFields.per_wallet_config
      obj
    ∷ check_wallet_settings wallet_id obj)
validate_wallet_entry wallet_id _ = an_error (wallet_must_be_object wallet_id)

unfoldable pub validate_each : List (String × Section) → Output
validate_each [] = nothing
validate_each ((wallet_id, entry) ∷ ws) =
    and_then (validate_wallet_entry wallet_id entry) (validate_each ws)

abbrev pub validate_wallets : Wallets → Output
validate_wallets no_wallets = nothing
validate_wallets not_a_map = an_error wallets_must_be_map
validate_wallets (wallets ws) = validate_each ws
