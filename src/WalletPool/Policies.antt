-- ===== src/WalletPool/Policies.antt =====
-- `selectByPolicy`, `assign` and `setAssignmentPolicy`.
use Prim.Native.Nat.{◌%◌}
use solana_trading_bot.Prelude.{
  String, ℕ, zero, suc, ◌+◌, not, List, [], ◌∷◌, Option, none, some, if◌then◌else◌, Arg, absent,
  foreign, given, includes, is_str, length, Reply, ok, refused,
}
use solana_trading_bot.Ssot.{StrategyBrain}
use solana_trading_bot.Store.{insert}
use solana_trading_bot.ExecutionWalletRegistry.{Registry, mentions}
use solana_trading_bot.WalletPool.{
  AssignmentPolicy, round_robin, least_active, per_strategy, per_source_wallet, manual_assignment,
  risk_weighted, Pool, Reason, invalid_request, invalid_wallet_assignment_policy,
  no_eligible_execution_wallet, strategy_brain_required, tracked_wallet_address_required,
  manual_target_required, manual_target_not_eligible, AssignRequest, eligible_ids, stable_index,
  count_of, least_of, hard_risk_has_capacity,
}

-- `ids[k]`
unfoldable pub nth : List String → ℕ → Option String
nth [] k = none
nth (id ∷ ids) zero = some id
nth (id ∷ ids) (suc k) = nth ids k

-- The codes of the word of a brain.
abbrev pub brain_codes : StrategyBrain → List ℕ
brain_codes StrategyBrain.brain_a = 98 ∷ 114 ∷ 97 ∷ 105 ∷ 110 ∷ 95 ∷ 97 ∷ []
brain_codes StrategyBrain.brain_b = 98 ∷ 114 ∷ 97 ∷ 105 ∷ 110 ∷ 95 ∷ 98 ∷ []

-- `{ id }` or `{ reason }`; a missing id has no reason of its own.
pub data Selection : Type 0 where
  selected : Option String → Selection
  declined : Reason → Selection

-- `pickLeastLoaded(ids)`
abbrev pub pick_least_loaded : Pool → List String → Option String
pick_least_loaded pool [] = none
pick_least_loaded pool (id ∷ ids) = some (least_of pool id (id ∷ ids))

abbrev pub by_address : List String → Arg (List ℕ) → Selection
by_address ids (given (c ∷ codes)) = selected (nth ids (stable_index (c ∷ codes) (length ids)))
by_address ids _ = declined tracked_wallet_address_required

abbrev pub by_brain : List String → Option StrategyBrain → Selection
by_brain ids none = declined strategy_brain_required
by_brain ids (some brain) = selected (nth ids (stable_index (brain_codes brain) (length ids)))

abbrev pub by_target : List String → Option String → Selection
by_target ids none = declined manual_target_required
by_target ids (some target) =
    if mentions ids target then selected (some target) else declined manual_target_not_eligible

abbrev pub by_risk : Pool → List String → Option Reason → Selection
by_risk pool ids (some why) = declined why
by_risk pool ids none = selected (pick_least_loaded pool ids)

-- `selectByPolicy(p, ids, req)`: the new cursor and the selection.
unfoldable pub select_by_policy :
    Pool → AssignmentPolicy → List String → AssignRequest → ℕ × Selection
select_by_policy pool round_robin ids req =
    ((pool.rr_cursor + 1) % length ids, selected (nth ids (pool.rr_cursor % length ids)))
select_by_policy pool least_active ids req = (pool.rr_cursor, selected (pick_least_loaded pool ids))
select_by_policy pool per_strategy ids req =
    (pool.rr_cursor, by_brain ids (includes req.strategy_brain))
select_by_policy pool per_source_wallet ids req =
    (pool.rr_cursor, by_address ids req.tracked_wallet_address)
select_by_policy pool manual_assignment ids req =
    (pool.rr_cursor, by_target ids (is_str req.execution_wallet_id))
select_by_policy pool risk_weighted ids req =
    (pool.rr_cursor, by_risk pool ids (hard_risk_has_capacity req.hard_risk))

-- `req.wallet_assignment_policy || policy`, where it is a policy.
abbrev pub policy_of : Pool → Arg AssignmentPolicy → Option AssignmentPolicy
policy_of pool absent = pool.policy
policy_of pool foreign = none
policy_of pool (given p) = some p

-- The end of `assign`: the wallet is counted if it is eligible.
abbrev pub finish_assign :
    Pool
    → List String
    → AssignmentPolicy
    → ℕ × Selection
    → Pool × Reply Reason (String × AssignmentPolicy)
finish_assign pool ids p (cursor, declined why) = (record pool { rr_cursor = cursor }, refused why)
finish_assign pool ids p (cursor, selected none) =
    (record pool { rr_cursor = cursor }, refused no_eligible_execution_wallet)
finish_assign pool ids p (cursor, selected (some id)) =
    if not (mentions ids id)
    then (record pool { rr_cursor = cursor }, refused no_eligible_execution_wallet)
    else (
      record pool {
        rr_cursor = cursor;
        assign_count = insert id (count_of pool id + 1) pool.assign_count;
      },
      ok (id, p),
    )

-- `assign` over the eligible ids.
abbrev pub assign_among :
    Pool
    → List String
    → AssignmentPolicy
    → AssignRequest
    → Pool × Reply Reason (String × AssignmentPolicy)
assign_among pool [] p req = (pool, refused no_eligible_execution_wallet)
assign_among pool (x ∷ xs) p req =
    finish_assign pool (x ∷ xs) p (select_by_policy pool p (x ∷ xs) req)

-- `assign(req)`; `none` is an argument that is no plain object, or one that the `catch` answers.
unfoldable pub assign :
    (List String → List String)
    → Pool
    → Registry
    → Option AssignRequest
    → Pool × Reply Reason (String × AssignmentPolicy)
assign sort pool wallets none = (pool, refused invalid_request)
assign sort pool wallets (some req) = elim (policy_of pool req.wallet_assignment_policy) [
  | none ↦ (pool, refused invalid_wallet_assignment_policy)
  | some p ↦ assign_among pool (eligible_ids sort wallets) p req
]

-- `setAssignmentPolicy(value)`
pub set_assignment_policy : Pool → Arg AssignmentPolicy → Pool × Reply Reason AssignmentPolicy
set_assignment_policy pool value = elim (includes value) [
  | none ↦ (pool, refused invalid_wallet_assignment_policy)
  | some p ↦ (record pool { policy = some p }, ok p)
]
