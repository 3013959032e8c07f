-- ===== src/WalletPool/Examples.antt =====
-- Two wallets, one of which is eligible, and hard-risk limits that no measured value reaches.
use solana_trading_bot.Prelude.{
  String, ◌<◌, ◌+◌, ◌≡◌, refl, true, false, List, [], ◌∷◌, some, none, given, absent, ok,
}
use Prim.Native.Nat.{◌%◌}
use solana_trading_bot.Prelude.Values.{Value}
use solana_trading_bot.Ssot.{ExecutionWalletStatus, CreationMode}
use solana_trading_bot.Store.{lookup, insert}
use solana_trading_bot.ExecutionWalletRegistry.{
  Wallet, Registry, is_action_allowed, new_entry, mentions,
}
use solana_trading_bot.WalletPool.{
  round_robin, Pool, AssignRequest, eligible_of, eligible_ids, hash_codes, stable_index, count_of,
  check_limit,
}
use solana_trading_bot.WalletPool.Policies.{nth, select_by_policy, policy_of, assign}
use solana_trading_bot.WalletPool.Assignment.{assigned_serves, turns_assign}

abbrev wallet : String → ExecutionWalletStatus → Wallet
wallet id status = record {
  execution_wallet_id = id;
  execution_wallet_address = none;
  execution_wallet_status = status;
  execution_wallet_creation_mode = CreationMode.manual;
  funding_wallet_id = none;
  settlement_wallet_id = none;
}

abbrev registry : Registry
registry =
    ("w1", wallet "w1" ExecutionWalletStatus.draining)
    ∷ ("w2", wallet "w2" ExecutionWalletStatus.active)
    ∷ []

abbrev pool : Pool
pool = record { policy = some round_robin; rr_cursor = 3; assign_count = ("w2", 4) ∷ [] }

abbrev request : AssignRequest
request = record {
  wallet_assignment_policy = absent;
  strategy_brain = absent;
  tracked_wallet_address = absent;
  execution_wallet_id = absent;
  hard_risk = record { risk_config = none; measured = none };
}

-- Two texts in order are sorted already.
abbrev in_order : List String → List String
in_order xs = xs

accepted : (assign in_order pool registry (some request)).1 ≡ ok ("w2", round_robin)
unfolding assign eligible_of is_action_allowed lookup select_by_policy nth mentions insert
accepted = refl

assigned_serves_example :
    (is_action_allowed registry "w2" (given new_entry) ≡ true)
    × (policy_of pool absent ≡ some round_robin)
    × (count_of (assign in_order pool registry (some request)).0 "w2" ≡ count_of pool "w2" + 1)
assigned_serves_example =
    assigned_serves in_order pool registry request "w2" round_robin (λ xs x m. m) accepted

listed : eligible_ids in_order registry ≡ "w2" ∷ []
unfolding eligible_of is_action_allowed lookup
listed = refl

turns_assign_example :
    (id : String) × (nth ("w2" ∷ []) (3 % 1) ≡ some id)
    × ((assign in_order pool registry (some request)).1 ≡ ok (id, round_robin))
    × ((assign in_order pool registry (some request)).0.rr_cursor ≡ (3 + 1) % 1)
    × ((assign in_order pool registry (some request)).0.rr_cursor < 1)
turns_assign_example = turns_assign in_order pool registry request "w2" [] refl listed

-- The index of the text ab in a list of five.
index_of_ab : stable_index (97 ∷ 98 ∷ []) 5 ≡ 0
unfolding hash_codes
index_of_ab = refl

-- A measured value that is NaN does not reach its limit.
nan_has_capacity :
    check_limit
      (Value.number (record { negative = false; mantissa = 5; exponent = 1075 }))
      Value.nan
    ≡ none
nan_has_capacity = refl
