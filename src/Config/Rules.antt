-- ===== src/Config/Rules.antt =====
-- The rules of packages/config/src/schema.mjs and the test of one value, `checkRule` of
-- packages/config/src/validate.mjs.
use solana_trading_bot.Prelude.{
  String, Bool, true, false, not, ◌&&◌, List, [], ◌∷◌, Option, none, some, Number, gt_zero, ge_zero,
  at_most, is_integer, is_empty, template,
}
use solana_trading_bot.Prelude.Values.{Value}
use solana_trading_bot.LiveModel.Rules.{is_word}
use solana_trading_bot.LiveModel.Vocabulary
use solana_trading_bot.Config.Vocabulary as Words

-- The keys of ENUM_REFS.
pub data EnumRef : Type 0 where
  copy_mode ev_gate_mode sizing_mode execution_mode partial_sell_policy transfer_exit_policy
        scale_in_policy conflict_resolution strategy_brain :
      EnumRef

-- ENUM_REFS
abbrev pub enum_words : EnumRef → List String
enum_words EnumRef.copy_mode = Vocabulary.copy_mode
enum_words EnumRef.ev_gate_mode = Words.ev_gate_mode
enum_words EnumRef.sizing_mode = Words.sizing_mode
enum_words EnumRef.execution_mode = Vocabulary.execution_mode
enum_words EnumRef.partial_sell_policy = Words.partial_sell_policy
enum_words EnumRef.transfer_exit_policy = Words.transfer_exit_policy
enum_words EnumRef.scale_in_policy = Words.scale_in_policy
enum_words EnumRef.conflict_resolution = Words.conflict_resolution
enum_words EnumRef.strategy_brain = Vocabulary.strategy_brain

abbrev pub enum_name : EnumRef → String
enum_name EnumRef.copy_mode = "copy_mode"
enum_name EnumRef.ev_gate_mode = "ev_gate_mode"
enum_name EnumRef.sizing_mode = "sizing_mode"
enum_name EnumRef.execution_mode = "execution_mode"
enum_name EnumRef.partial_sell_policy = "partial_sell_policy"
enum_name EnumRef.transfer_exit_policy = "transfer_exit_policy"
enum_name EnumRef.scale_in_policy = "scale_in_policy"
enum_name EnumRef.conflict_resolution = "conflict_resolution"
enum_name EnumRef.strategy_brain = "strategy_brain"

-- The rule kinds; `no_rule` is the rule of a property that every object inherits.
pub data FieldRule : Type 0 where
  boolean text number number_pos number_nonneg pct_pos pct_nonneg pct_open100 usdt_pos int_pos
        int_nonneg duration_nonneg auto no_rule :
      FieldRule
  member_of : EnumRef → FieldRule

-- A field definition of FIELDS.
pub record Field : Type 0 where
  pub rule : FieldRule
  pub default_value : Option Value
  pub is_required : Bool
  pub is_reference : Bool
  pub scope : String
  pub mutable_when_open : String
  pub applies_to_existing : String
  pub safety_critical : String

abbrev pub field : FieldRule → String → String → String → String → Field
field rule scope mutable_when_open applies_to_existing safety_critical = record {
  rule = rule;
  default_value = none;
  is_required = false;
  is_reference = false;
  scope = scope;
  mutable_when_open = mutable_when_open;
  applies_to_existing = applies_to_existing;
  safety_critical = safety_critical;
}

abbrev pub mandatory : Field → Field
mandatory f = record f { is_required = true }

abbrev pub by_default : Value → Field → Field
by_default v f = record f { default_value = some v }

abbrev pub referring : Field → Field
referring f = record f { is_reference = true }

abbrev pub zero_value : Number
zero_value = record { negative = false; mantissa = 0; exponent = 1075 }

-- The number of a value, where `isNum` holds.
abbrev pub number_of : Value → Option Number
number_of (Value.number n) = some n
number_of _ = none

-- A number rule: `isNum(v)` and a test of the number.
abbrev pub is_number_with : (Number → Bool) → Value → Bool
is_number_with test (Value.number n) = test n
is_number_with test _ = false

abbrev pub is_boolean : Value → Bool
is_boolean (Value.boolean b) = true
is_boolean _ = false

abbrev pub is_full_text : Value → Bool
is_full_text (Value.text s) = not (is_empty s)
is_full_text _ = false

-- `checkRule(rule, v, enumRef) === null`
unfoldable pub check_rule : FieldRule → Value → Bool
check_rule boolean v = is_boolean v
check_rule text v = is_full_text v
check_rule (member_of e) v = is_word (enum_words e) v
check_rule number v = is_number_with (λ n. true) v
check_rule number_pos v = is_number_with gt_zero v
check_rule number_nonneg v = is_number_with ge_zero v
check_rule pct_pos v = is_number_with (λ n. gt_zero n && at_most 100 n) v
check_rule pct_nonneg v = is_number_with (λ n. ge_zero n && at_most 100 n) v
check_rule pct_open100 v = is_number_with (λ n. gt_zero n && at_most 100 n) v
check_rule usdt_pos v = is_number_with gt_zero v
check_rule int_pos v = is_number_with (λ n. is_integer n && gt_zero n) v
check_rule int_nonneg v = is_number_with (λ n. is_integer n && ge_zero n) v
check_rule duration_nonneg v = is_number_with ge_zero v
check_rule auto v = true
check_rule no_rule v = false

-- The text that `checkRule` answers for a value that is not right.
abbrev pub rule_message : FieldRule → String
rule_message boolean = "must be boolean"
rule_message text = "must be a non-empty string"
rule_message (member_of e) = template ("must be one of the " ∷ enum_name e ∷ " enum values" ∷ [])
rule_message number = "must be a number"
rule_message number_pos = "must be a number > 0"
rule_message number_nonneg = "must be a number >= 0"
rule_message pct_pos = "must be a percent in (0,100]"
rule_message pct_nonneg = "must be a percent in [0,100]"
rule_message pct_open100 = "must be a percent in (0,100]"
rule_message usdt_pos = "must be a USDT amount > 0"
rule_message int_pos = "must be an integer > 0"
rule_message int_nonneg = "must be an integer >= 0"
rule_message duration_nonneg = "must be a duration >= 0"
rule_message auto = ""
rule_message no_rule = "unknown rule undefined"
