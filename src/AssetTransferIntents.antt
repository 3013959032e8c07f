-- ===== src/AssetTransferIntents.antt =====
-- packages/asset-transfer-intents/src/asset-transfer-intents.mjs: transfer intents, and the owner of a
-- position that flips when a transfer is confirmed. The factory's two maps, its counter and its audit
-- log are the fields of `Transfers`; the wallet registry that it may be given is an argument.
mod Model
pub mod Steps
pub mod Ownership
pub mod History
pub mod Collision
pub mod Acceptance
mod Examples
use solana_trading_bot.Prelude.{
  String, ℕ, ◌+◌, Bool, true, false, not, ◌&&◌, Option, none, some, List, [], ◌∷◌, if◌then◌else◌,
  Arg, given, includes, is_str, same_text, template, Reply, ok, refused, coded, ApiErrorCode,
  api_error_code_name, str_eq,
}
use solana_trading_bot.Prelude.Decimal.{counter_id}
use mathlib.Core.Option
pub use Model.*
use solana_trading_bot.Ssot.{AssetTransferStatus, ExecutionWalletStatus}
use solana_trading_bot.Store.{Store, lookup, insert, contains}
use solana_trading_bot.Audit.{AuditLog, Entry, append}
use solana_trading_bot.ExecutionWalletRegistry.{Registry}

pub transfer_entry : String → Context → String → Option ApiErrorCode → Entry
transfer_entry command ctx why code = record {
  command_type = some command;
  resource_type = some "asset_transfer";
  audit_scope = some "asset_transfer";
  audit_actor = includes ctx.audit_actor;
  audit_reason = some why;
  permission_role = includes ctx.permission_role;
  api_error_code = Option.map api_error_code_name code;
  request_id = is_str ctx.request_id;
  idempotency_key = is_str ctx.idempotency_key;
  event_timestamp = none;
}

abbrev pub create_text : String
create_text = "create_asset_transfer_intent"

abbrev cancel_text : String
cancel_text = "cancel_asset_transfer_intent"

-- `record(…); return reply`
unfoldable pub log_and_answer {ℓ} : {A : Type ℓ} → Transfers → Entry → A → Transfers × A
log_and_answer s e reply = (record s { audit = append s.audit e }, reply)

-- `walletRegistry.get(id)` has status ACTIVE.
abbrev pub is_active_in : Registry → String → Bool
is_active_in m id = elim (lookup id m) [
  | none ↦ false
  | some w ↦ elim w.execution_wallet_status [ ExecutionWalletStatus.active ↦ true | _ ↦ false ]
]

-- `destinationEligible(id)`; `none` is a component with no registry.
abbrev pub destination_eligible : Option Registry → String → Bool
destination_eligible none id = true
destination_eligible (some m) id = is_active_in m id

-- `isStr(x) && map.has(x)`
abbrev pub is_taken {ℓ} : {V : Type ℓ} → Option String → Store V → Bool
is_taken none m = false
is_taken (some k) m = contains k m

-- `if (isStr(key)) byIdempotency.set(key, id)`
abbrev pub index_key : Option String → String → Store String → Store String
index_key none id m = m
index_key (some k) id m = insert k id m

abbrev pub pending_transfer : String → String → String → Transfer
pending_transfer id source destination = record {
  asset_transfer_intent_id = id;
  asset_transfer_status = AssetTransferStatus.pending;
  source_execution_wallet_id = source;
  destination_execution_wallet_id = destination;
  position_owner_wallet_id = source;
}

-- The id of a new intent, and the counter after it was chosen.
abbrev pub choose_id : Option String → ℕ → String × ℕ
choose_id (some id) seq = (id, seq)
choose_id none seq = (counter_id "ati-" (seq + 1), seq + 1)

-- The end of `createAssetTransferIntent`, once every check has passed.
unfoldable pub store_pending :
    Transfers → CreateRequest → String → String → Transfers × Reply Reason String
unfolding log_and_answer
store_pending s req source destination =
    let (id, seq) = choose_id (is_str req.asset_transfer_intent_id) s.seq in
    log_and_answer
      (record s {
        by_id = insert id (pending_transfer id source destination) s.by_id;
        by_idempotency = index_key (is_str req.context.idempotency_key) id s.by_idempotency;
        seq = seq;
      })
      (transfer_entry create_text req.context (template (create_text ∷ ":PENDING" ∷ [])) none)
      (ok id)

-- `record(CREATE, req, why, code)` and the refusal.
abbrev pub refuse :
    Transfers
    → CreateRequest
    → String
    → Option ApiErrorCode
    → Reply Reason String
    → Transfers × Reply Reason String
refuse s req why code reply =
    log_and_answer s (transfer_entry create_text req.context why code) reply

-- The checks from the two wallets on.
unfoldable pub check_wallets :
    Option Registry → Transfers → CreateRequest → String → String → Transfers × Reply Reason String
unfolding store_pending
check_wallets registry s req source destination =
    if str_eq source destination
    then refuse s req "source_equals_destination" none (refused source_equals_destination)
    else if not (same_text req.position_owner_wallet_id source)
    then refuse s req "source_not_current_owner" none (refused source_not_current_owner)
    else if not (destination_eligible registry destination)
    then refuse s req "destination_not_eligible" none (refused destination_not_eligible)
    else store_pending s req source destination

unfoldable pub create_asset_transfer_intent :
    Option Registry → Transfers → CreateRequest → Transfers × Reply Reason String
unfolding check_wallets log_and_answer
create_asset_transfer_intent registry s req = elim (is_str req.context.audit_actor) [
  | none ↦ (s, refused audit_actor_required)
  | some _ ↦
      if not (same_text req.context.permission_role "admin")
      then refuse s req "denied: admin_required" (some ApiErrorCode.permission_denied)
          (coded ApiErrorCode.permission_denied admin_required)
      else if is_taken (is_str req.context.idempotency_key) s.by_idempotency
      then refuse s req "duplicate_idempotency_key" (some ApiErrorCode.idempotency_conflict)
          (coded ApiErrorCode.idempotency_conflict duplicate_idempotency_key)
      else if is_taken (is_str req.asset_transfer_intent_id) s.by_id
      then refuse s req "duplicate_asset_transfer_intent_id"
          (some ApiErrorCode.idempotency_conflict)
          (coded ApiErrorCode.idempotency_conflict duplicate_asset_transfer_intent_id)
      else elim (is_str req.source_execution_wallet_id) [
        | none ↦
            refuse s req "source_and_destination_required" none
              (refused source_and_destination_required)
        | some source ↦ elim (is_str req.destination_execution_wallet_id) [
          | none ↦
              refuse s req "source_and_destination_required" none
                (refused source_and_destination_required)
          | some destination ↦ check_wallets registry s req source destination
        ]
      ]
]

abbrev is_submitted : AssetTransferStatus → Bool
is_submitted AssetTransferStatus.submitted = true
is_submitted _ = false

-- The answer says whether the cancelled intent had been submitted.
pub cancel_asset_transfer_intent : Transfers → String → Context → Transfers × Reply Reason Bool
unfolding log_and_answer
cancel_asset_transfer_intent s id ctx = elim (is_str ctx.audit_actor) [
  | none ↦ (s, refused audit_actor_required)
  | some _ ↦
      if not (same_text ctx.permission_role "admin")
      then log_and_answer s
          (transfer_entry cancel_text ctx "denied: admin_required"
            (some ApiErrorCode.permission_denied))
          (coded ApiErrorCode.permission_denied admin_required)
      else elim (lookup id s.by_id) [
        | none ↦
            log_and_answer s (transfer_entry cancel_text ctx "asset_transfer_intent_not_found" none)
              (refused asset_transfer_intent_not_found)
        | some cur ↦
            if not (allowed cur.asset_transfer_status AssetTransferStatus.cancelled)
            then log_and_answer s
                (transfer_entry cancel_text ctx
                  (template ("illegal_cancel:" ∷ status_name cur.asset_transfer_status ∷ []))
                  (some ApiErrorCode.command_not_allowed_in_state))
                (coded ApiErrorCode.command_not_allowed_in_state
                  (cancel_not_allowed_in_state cur.asset_transfer_status))
            else log_and_answer
                (record s {
                  by_id =
                      insert cur.asset_transfer_intent_id
                        (record cur { asset_transfer_status = AssetTransferStatus.cancelled })
                        s.by_id;
                })
                (transfer_entry cancel_text ctx
                  (template (
                    cancel_text
                    ∷ ":CANCELLED"
                    ∷ (if is_submitted cur.asset_transfer_status
                        then ":simulated_no_onchain_guarantee"
                        else "")
                    ∷ []))
                  none)
                (ok (is_submitted cur.asset_transfer_status))
      ]
]

-- The owner after the status has become `to`.
abbrev pub owner_after : AssetTransferStatus → Transfer → String
owner_after AssetTransferStatus.confirmed cur = cur.destination_execution_wallet_id
owner_after _ cur = cur.position_owner_wallet_id

-- The answer is the new owner.
pub simulate : Transfers → String → Arg AssetTransferStatus → Transfers × Reply Reason String
simulate s id to_status = elim (lookup id s.by_id) [
  | none ↦ (s, refused asset_transfer_intent_not_found)
  | some cur ↦ elim (includes to_status) [
    | none ↦ (s, refused invalid_asset_transfer_status)
    | some to ↦
        if allowed cur.asset_transfer_status to
        then (
          record s {
            by_id =
                insert cur.asset_transfer_intent_id
                  (record cur {
                    asset_transfer_status = to;
                    position_owner_wallet_id = owner_after to cur;
                  })
                  s.by_id;
          },
          ok (owner_after to cur),
        )
        else (
          s,
          coded ApiErrorCode.command_not_allowed_in_state
              (illegal_transition cur.asset_transfer_status to),
        )
  ]
]

-- `ownerOf(id)`
pub owner_of : Transfers → String → Option String
owner_of s id = Option.map (λ (r : Transfer). r.position_owner_wallet_id) (lookup id s.by_id)

pub data Call : Type 0 where
  create_call : CreateRequest → Call
  cancel_call : String → Context → Call
  simulate_call : String → Arg AssetTransferStatus → Call

-- The registry may change between two calls, so each call comes with the one that it meets.
pub call : Transfers → Option Registry × Call → Transfers
call s (registry, create_call req) = (create_asset_transfer_intent registry s req).0
call s (registry, cancel_call id ctx) = (cancel_asset_transfer_intent s id ctx).0
call s (registry, simulate_call id to) = (simulate s id to).0

pub run : Transfers → List (Option Registry × Call) → Transfers
run s [] = s
run s (c ∷ cs) = run (call s c) cs
