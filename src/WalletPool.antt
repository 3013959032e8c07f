-- ===== src/WalletPool.antt =====
-- packages/execution-wallet-pool/src/execution-wallet-pool.mjs: which eligible wallet takes a new entry,
-- over the wallet registry that the factory is given. `sort` stands for `Array.prototype.sort` of texts.
pub mod Policies
pub mod Assignment
mod Examples
use Prim.Native.Nat.{◌%◌, ◌^◌}
use solana_trading_bot.Prelude.{
  String, ℕ, zero, suc, ◌+◌, ◌*◌, Bool, true, false, not, ◌&&◌, List, [], ◌∷◌, Option, none, some,
  if◌then◌else◌, Arg, absent, foreign, given, length, ltb, less,
}
use solana_trading_bot.Prelude.Values.{Value}
use solana_trading_bot.Ssot.{StrategyBrain}
use solana_trading_bot.Store.{Store, lookup, insert}
use solana_trading_bot.ExecutionWalletRegistry.{Registry, is_action_allowed, new_entry}
use solana_trading_bot.Config.{hard_risk_fields}

-- WALLET_ASSIGNMENT_POLICY
pub data AssignmentPolicy : Type 0 where
  round_robin least_active per_strategy per_source_wallet manual_assignment risk_weighted :
      AssignmentPolicy

pub record Pool : Type 0 where
  pub policy : Option AssignmentPolicy
  pub rr_cursor : ℕ
  pub assign_count : Store ℕ

abbrev pub create_execution_wallet_pool : Pool
create_execution_wallet_pool = record { policy = none; rr_cursor = 0; assign_count = [] }

pub data Reason : Type 0 where
  invalid_request invalid_wallet_assignment_policy no_eligible_execution_wallet
        strategy_brain_required tracked_wallet_address_required manual_target_required
        manual_target_not_eligible risk_input_required hard_risk_exhausted :
      Reason

-- The hard-risk input: the properties of its two objects, where they are objects.
pub record RiskInput : Type 0 where
  pub risk_config : Option (Store Value)
  pub measured : Option (Store Value)

-- The argument of `assign`: an absent policy is one that counts as false, and the address is the UTF-16
-- codes of its text.
pub record AssignRequest : Type 0 where
  pub wallet_assignment_policy : Arg AssignmentPolicy
  pub strategy_brain : Arg StrategyBrain
  pub tracked_wallet_address : Arg (List ℕ)
  pub execution_wallet_id : Arg String
  pub hard_risk : RiskInput

-- `isEligibleForEntry`
abbrev pub is_eligible_for_entry : Registry → String → Bool
is_eligible_for_entry wallets id = is_action_allowed wallets id (given new_entry)

-- The ids of the list that are eligible.
unfoldable pub eligible_of : Registry → Registry → List String
eligible_of wallets [] = []
eligible_of wallets ((key, w) ∷ ws) =
    let rest = eligible_of wallets ws in
    if is_eligible_for_entry wallets w.execution_wallet_id
    then w.execution_wallet_id ∷ rest
    else rest

-- `eligibleIds`
abbrev pub eligible_ids : (List String → List String) → Registry → List String
eligible_ids sort wallets = sort (eligible_of wallets wallets)

-- One round of the loop of `stableIndex`.
abbrev pub step_hash : ℕ → ℕ → ℕ
step_hash h c = (h * 31 + c) % 2 ^ 32

unfoldable pub hash_codes : ℕ → List ℕ → ℕ
hash_codes h [] = h
hash_codes h (c ∷ codes) = hash_codes (step_hash h c) codes

-- `stableIndex`, of the codes of the key.
abbrev pub stable_index : List ℕ → ℕ → ℕ
stable_index codes n = hash_codes 0 codes % n

-- `countOf`
abbrev pub count_of : Pool → String → ℕ
count_of pool id = elim (lookup id pool.assign_count) [ none ↦ 0 | some n ↦ n ]

-- The loop of `pickLeastLoaded`.
unfoldable pub least_of : Pool → String → List String → String
least_of pool best [] = best
least_of pool best (id ∷ ids) =
    least_of pool (if ltb (count_of pool id) (count_of pool best) then id else best) ids

-- `typeof v === 'number'`
abbrev pub is_numeric : Value → Bool
is_numeric (Value.number n) = true
is_numeric Value.nan = true
is_numeric Value.infinity = true
is_numeric Value.negative_infinity = true
is_numeric _ = false

-- `value >= limit`, for two numbers.
abbrev pub reaches : Value → Value → Bool
reaches (Value.number x) (Value.number y) = not (less x y)
reaches (Value.number x) Value.negative_infinity = true
reaches Value.infinity (Value.number y) = true
reaches Value.infinity Value.infinity = true
reaches Value.infinity Value.negative_infinity = true
reaches Value.negative_infinity Value.negative_infinity = true
reaches _ _ = false

-- `obj[name]`
abbrev pub value_or_undefined : Option Value → Value
value_or_undefined none = Value.undefined
value_or_undefined (some v) = v

abbrev pub check_limit : Value → Value → Option Reason
check_limit limit value =
    if not (is_numeric limit && is_numeric value)
    then some risk_input_required
    else if reaches value limit
    then some hard_risk_exhausted
    else none

-- The loop over HARD_RISK_FIELDS.
unfoldable pub check_limits : List String → Store Value → Store Value → Option Reason
check_limits [] risk measured = none
check_limits (name ∷ names) risk measured =
    let rest = check_limits names risk measured in
    elim (check_limit (value_or_undefined (lookup name risk))
      (value_or_undefined (lookup name measured))) [ some why ↦ some why | none ↦ rest ]

-- `hardRiskHasCapacity`; `none` is `{ ok: true }`.
abbrev pub hard_risk_has_capacity : RiskInput → Option Reason
hard_risk_has_capacity input = elim input.risk_config [
  | none ↦ some risk_input_required
  | some risk ↦ elim input.measured [
    | none ↦ some risk_input_required
    | some measured ↦ check_limits hard_risk_fields risk measured
  ]
]
