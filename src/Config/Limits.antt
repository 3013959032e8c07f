-- ===== src/Config/Limits.antt =====
-- What a configuration that `validateConfig` accepts guarantees.
use solana_trading_bot.Prelude.{
  String, Bool, true, false, ◌&&◌, ◌≡◌, ◌⊎◌, inl, inr, refl, [], ◌∷◌, some, Number, gt_zero,
  at_most, is_integer, str_eq, arith, Bool-cases,
}
use mathlib.Core.List.{Memᴰ}
use solana_trading_bot.Prelude.Values.{Value}
use solana_trading_bot.Store.{Store, lookup}
use solana_trading_bot.LiveModel.{value_at}
use solana_trading_bot.Config.Rules.{Field, FieldRule, check_rule, is_number_with}
use solana_trading_bot.Config.Fields
use solana_trading_bot.Config.{
  ConfigObject, config_objects, fields_of, object_name, Section, unset, foreign, entries,
  ConfigTree, tree, check_entries, validate_flat_section,
}
use solana_trading_bot.Config.Validate.{
  section_at, own_entries, is_nil, missing_risk, check_tree, is_clean, validate_config,
}
use solana_trading_bot.Config.Clean.{clean_each, clean_section, clean_field, none_missing}

-- A number is a limit of the kind that a rule asks for: a percentage in (0, 100], an amount above zero, or a
-- whole number above zero.
pub data IsLimit : FieldRule → Number → Type 0 where
  percentage : {n : Number} → gt_zero n ≡ true → at_most 100 n ≡ true → IsLimit FieldRule.pct_pos n
  amount : {n : Number} → gt_zero n ≡ true → IsLimit FieldRule.usdt_pos n
  count : {n : Number} → is_integer n ≡ true → gt_zero n ≡ true → IsLimit FieldRule.int_pos n

is_limit_rule : FieldRule → Bool
is_limit_rule FieldRule.pct_pos = true
is_limit_rule FieldRule.usdt_pos = true
is_limit_rule FieldRule.int_pos = true
is_limit_rule _ = false

limit_rules : Store Field → Bool
limit_rules [] = true
limit_rules ((key, f) ∷ spec) = is_limit_rule f.rule && limit_rules spec

limit_rule :
    (spec : Store Field) (key : String) (f : Field)
    → limit_rules spec ≡ true
    → lookup key spec ≡ some f
    → is_limit_rule f.rule ≡ true
unfolding lookup limit_rules
limit_rule [] key f h known = absurd (ground arith)
limit_rule ((j, g) ∷ spec) key f h known = elim (Bool-cases (str_eq j key)) [
  | inl same ↦ ground arith
  | inr other ↦ limit_rule spec key f (ground arith) (rw other at known)
]

as_number :
    (v : Value)
    → ((n : Number) × (v ≡ Value.number n))
      ⊎ ((test : Number → Bool) → is_number_with test v ≡ false)
as_number (Value.number n) = inl (n, refl)
as_number Value.undefined = inr (λ test. refl)
as_number Value.null = inr (λ test. refl)
as_number Value.nan = inr (λ test. refl)
as_number Value.infinity = inr (λ test. refl)
as_number Value.negative_infinity = inr (λ test. refl)
as_number Value.object = inr (λ test. refl)
as_number Value.array = inr (λ test. refl)
as_number Value.other = inr (λ test. refl)
as_number (Value.text t) = inr (λ test. refl)
as_number (Value.boolean b) = inr (λ test. refl)

-- A value that passes a number rule is a number that passes its test.
pub tested_number :
    (test : Number → Bool) (v : Value)
    → is_number_with test v ≡ true
    → (n : Number) × (v ≡ Value.number n) × (test n ≡ true)
tested_number test v h = elim (as_number v) [
  | inl (n, e) ↦ (n, e, rw e at h)
  | inr no_number ↦ absurd (let q = no_number test in ground arith)
]

limit_of :
    (rule : FieldRule) (v : Value)
    → is_limit_rule rule ≡ true
    → check_rule rule v ≡ true
    → (n : Number) × (v ≡ Value.number n) × IsLimit rule n
unfolding check_rule is_limit_rule
limit_of FieldRule.pct_pos v r h =
    let (n, e, t) = tested_number _ v h in (n, e, percentage (ground arith) (ground arith))
limit_of FieldRule.usdt_pos v r h = let (n, e, t) = tested_number _ v h in (n, e, amount t)
limit_of FieldRule.int_pos v r h =
    let (n, e, t) = tested_number _ v h in (n, e, count (ground arith) (ground arith))
limit_of _ v r h = absurd (ground arith)

clean_risk :
    (c : ConfigTree)
    → is_clean (check_tree c) ≡ true
    → is_clean
        (validate_flat_section ConfigObject.risk_config (section_at c ConfigObject.risk_config))
      ≡ true
unfolding check_tree
clean_risk c h =
    clean_section config_objects c ConfigObject.risk_config
      (clean_each (Memᴰ.tail (Memᴰ.head refl)) h)
      (Memᴰ.tail (Memᴰ.tail (Memᴰ.tail (Memᴰ.head refl)))) refl

section_entries :
    (object : ConfigObject) (s : Section)
    → is_clean (validate_flat_section object s) ≡ true
    → is_clean (check_entries (object_name object) (fields_of object) (own_entries s)) ≡ true
unfolding validate_flat_section check_entries
section_entries object unset h = refl
section_entries object foreign h = absurd (ground arith)
section_entries object (entries obj) h = h

-- A configuration that is valid for real-live trading sets every hard-risk limit to a number of its kind.
pub real_live_limits :
    (c : ConfigTree) (name : String) (f : Field)
    → (validate_config (tree c)).real_live_config_valid ≡ true
    → lookup name (fields_of ConfigObject.risk_config) ≡ some f
    → (n : Number) × (value_at name (own_entries (section_at c ConfigObject.risk_config))
        ≡ some (Value.number n))
      × IsLimit f.rule n
unfolding validate_config limit_rules is_limit_rule
real_live_limits c name f h known =
    let clean : is_clean (check_tree c) ≡ true = ground arith in
    let complete : is_nil (missing_risk c) ≡ true = ground arith in
    let risk = section_at c ConfigObject.risk_config in
    let (v, set) = none_missing Fields.risk_config (own_entries risk) name f complete known in
    let tidy = section_entries ConfigObject.risk_config risk (clean_risk c clean) in
    let right =
      clean_field "risk_config" Fields.risk_config (own_entries risk) name f v tidy known set in
    let (n, is_n, limit) =
      limit_of f.rule v (limit_rule Fields.risk_config name f refl known) right in
    (n, rw (set, is_n) refl, limit)
