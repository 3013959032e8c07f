-- ===== src/Config/WalletRules.antt =====
-- What `validateConfig` guarantees of the settings of a followed wallet.
use solana_trading_bot.Prelude.{
  String, Bool, true, false, ◌&&◌, ◌≡◌, ◌≢◌, refl, List, [], ◌∷◌, some, inl, inr, Number, gt_zero,
  ge_zero, at_most, less, arith, Bool-cases, Option-cases, template,
}
use mathlib.Core.List.{Memᴰ}
use solana_trading_bot.Prelude.Values.{Value}
use solana_trading_bot.Store.{Store, lookup}
use solana_trading_bot.LiveModel.{value_at}
use solana_trading_bot.Config.WalletFields
use solana_trading_bot.Config.Rules.{FieldRule, check_rule}
use solana_trading_bot.Config.{
  Section, entries, wallets, ConfigTree, tree, Problem, take_profit_required, check_entries,
  validate_wallet_entry, validate_wallets, is_missing, says, push_if, an_error, out_of_order,
  thresholds_out_of_order,
}
use solana_trading_bot.Config.Validate.{check_tree, is_clean, invalid, validate_config}
use solana_trading_bot.Config.Clean.{clean_each, clean_wallet, clean_field}
use solana_trading_bot.Config.Limits.{tested_number}

accepted_tree :
    (c : ConfigTree)
    → (validate_config (tree c)).validation_status ≢ invalid
    → is_clean (check_tree c) ≡ true
unfolding validate_config
accepted_tree c h = elim (Bool-cases (is_clean (check_tree c))) [
  | inl clean ↦ clean
  | inr faulty ↦ absurd (h (ground arith))
]

accepted_wallet :
    (c : ConfigTree) (ws : List (String × Section)) (wallet_id : String) (obj : Store Value)
    → (validate_config (tree c)).validation_status ≢ invalid
    → c.per_wallet ≡ wallets ws
    → Memᴰ {A = String × Section} (wallet_id, entries obj) ws
    → is_clean (validate_wallet_entry wallet_id (entries obj)) ≡ true
unfolding check_tree
accepted_wallet c ws wallet_id obj h per m =
    let all : is_clean (validate_wallets c.per_wallet) ≡ true =
      clean_each (Memᴰ.tail (Memᴰ.tail (Memᴰ.head refl))) (accepted_tree c h) in
    clean_wallet ws wallet_id (entries obj) (rw per at all) m

-- The settings that are set pass their rules.
settings_pass :
    (wallet_id : String) (obj : Store Value)
    → is_clean (validate_wallet_entry wallet_id (entries obj)) ≡ true
    → is_clean (
        check_entries
          (template ("per_wallet_config." ∷ wallet_id ∷ []))
          WalletFields.per_wallet_config
          obj)
      ≡ true
unfolding validate_wallet_entry
settings_pass wallet_id obj h = clean_each (Memᴰ.head refl) h

no_push : (b : Bool) (p : Problem) → is_clean (push_if b (an_error p)) ≡ true → b ≡ false
no_push true p h = absurd (ground arith)
no_push false p h = refl

target_set :
    (wallet_id : String) (obj : Store Value)
    → is_clean (validate_wallet_entry wallet_id (entries obj)) ≡ true
    → (says obj "copy_mode" "follow_entry_user_exit" && is_missing obj "take_profit_pct") ≡ false
unfolding validate_wallet_entry
target_set wallet_id obj h =
    no_push _ (take_profit_required wallet_id)
      (clean_each (Memᴰ.tail (Memᴰ.tail (Memᴰ.head refl))) h)

in_order :
    (wallet_id : String) (obj : Store Value)
    → is_clean (validate_wallet_entry wallet_id (entries obj)) ≡ true
    → out_of_order obj ≡ false
unfolding validate_wallet_entry
in_order wallet_id obj h =
    no_push _ (thresholds_out_of_order wallet_id)
      (clean_each (Memᴰ.tail (Memᴰ.tail (Memᴰ.tail (Memᴰ.tail (Memᴰ.head refl))))) h)

-- In a configuration that is not invalid, a wallet with the copy mode follow_entry_user_exit has a
-- profit target in (0, 100].
pub user_exit_has_target :
    (c : ConfigTree) (ws : List (String × Section)) (wallet_id : String) (obj : Store Value)
    → (validate_config (tree c)).validation_status ≢ invalid
    → c.per_wallet ≡ wallets ws
    → Memᴰ {A = String × Section} (wallet_id, entries obj) ws
    → says obj "copy_mode" "follow_entry_user_exit" ≡ true
    → (n : Number) × (value_at "take_profit_pct" obj ≡ some (Value.number n))
      × (gt_zero n ≡ true)
      × (at_most 100 n ≡ true)
unfolding check_rule lookup
user_exit_has_target c ws wallet_id obj h per m follows =
    let clean = accepted_wallet c ws wallet_id obj h per m in
    let needed = target_set wallet_id obj clean in
    elim (Option-cases (value_at "take_profit_pct" obj)) [
      | inl missing ↦ absurd (ground arith)
      | inr (v, set) ↦
          let right : check_rule FieldRule.pct_pos v ≡ true =
            clean_field _ WalletFields.per_wallet_config obj "take_profit_pct" _ v
              (settings_pass wallet_id obj clean) refl set in
          let (n, is_n, t) = tested_number _ v right in
          (n, rw (set, is_n) refl, ground arith, ground arith)
    ]

-- In a configuration that is not invalid, the four partial-sell thresholds of a wallet that are all
-- numbers ascend strictly, from zero at least to 100 at most.
pub sell_thresholds_ascend :
    (c : ConfigTree) (ws : List (String × Section)) (wallet_id : String) (obj : Store Value)
    (low medium high major : Number)
    → (validate_config (tree c)).validation_status ≢ invalid
    → c.per_wallet ≡ wallets ws
    → Memᴰ {A = String × Section} (wallet_id, entries obj) ws
    → lookup "partial_sell_low_threshold" obj ≡ some (Value.number low)
    → lookup "partial_sell_medium_threshold" obj ≡ some (Value.number medium)
    → lookup "partial_sell_high_threshold" obj ≡ some (Value.number high)
    → lookup "partial_sell_major_threshold" obj ≡ some (Value.number major)
    → (ge_zero low ≡ true)
      × (less low medium ≡ true)
      × (less medium high ≡ true)
      × (less high major ≡ true)
      × (at_most 100 major ≡ true)
unfolding check_rule lookup
sell_thresholds_ascend c ws wallet_id obj low medium high major h per m l1 l2 l3 l4 =
    let clean = accepted_wallet c ws wallet_id obj h per m in
    let order = in_order wallet_id obj clean in
    let pass = settings_pass wallet_id obj clean in
    let low_right : check_rule FieldRule.pct_nonneg (Value.number low) ≡ true =
      clean_field _ WalletFields.per_wallet_config obj "partial_sell_low_threshold" _
        (Value.number low) pass refl (rw l1 refl) in
    let major_right : check_rule FieldRule.pct_nonneg (Value.number major) ≡ true =
      clean_field _ WalletFields.per_wallet_config obj "partial_sell_major_threshold" _
        (Value.number major) pass refl (rw l4 refl) in
    let ascending : (less low medium && (less medium high && (less high major && true))) ≡ true =
      ground arith in
    (ground arith, ground arith, ground arith, ground arith, ground arith)
