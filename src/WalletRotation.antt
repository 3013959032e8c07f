-- ===== src/WalletRotation.antt =====
-- packages/wallet-rotation/src/wallet-rotation.mjs: the rotation of one execution wallet to another, which
-- drives four other components. `World` holds them: the wallet registry, which the lifecycle shares,
-- the lifecycle's log, the transfers, the sweeps, and the factory's own map, counter and log. This file
-- has the data and `rotateExecutionWallet`; the children Start and
-- Completion have the steps that follow it.
pub mod Start
pub mod Completion
pub mod Settled
pub mod Steps
pub mod Advance
pub mod Journey
pub mod Launch
pub mod Fleet
pub mod Stranding
mod Examples
use solana_trading_bot.Prelude.{
  String, ℕ, ◌+◌, Bool, true, false, not, ◌||◌, Option, none, some, List, [], ◌∷◌, if◌then◌else◌,
  Arg, given, includes, is_str, same_text, template, Reply, ok, refused, coded, ApiErrorCode,
  api_error_code_name, str_eq,
}
use solana_trading_bot.Prelude.Decimal.{counter_id}
use mathlib.Core.Option
use solana_trading_bot.Ssot.{RotationTrigger, WalletRotationStatus, ExecutionWalletStatus}
use solana_trading_bot.Store.{Store, lookup, insert}
use solana_trading_bot.Audit.{AuditLog, Entry, append}
use solana_trading_bot.ExecutionWalletRegistry
use solana_trading_bot.ExecutionWalletRegistry.{Registry, Wallet}
use solana_trading_bot.ExecutionWalletLifecycle
use solana_trading_bot.ExecutionWalletLifecycle.{State}
use solana_trading_bot.AssetTransferIntents
use solana_trading_bot.AssetTransferIntents.{Transfers}
use solana_trading_bot.ProfitSweep.{Sweep}

pub record Rotation : Type 0 where
  pub id : String
  pub wallet_rotation_status : WalletRotationStatus
  pub rotation_trigger : RotationTrigger
  pub rotation_from_execution_wallet_id : String
  pub rotation_to_execution_wallet_id : String
  pub asset_transfer_intent_id : Option String

pub record World : Type 0 where
  pub lifecycle : State
  pub transfers : Transfers
  pub sweep : Sweep
  pub by_id : Store Rotation
  pub seq : ℕ
  pub audit : AuditLog

-- Who asks, and the two parameters that only `completeWalletRotation` reads.
pub record Context : Type 0 where
  pub audit_actor : Arg String
  pub permission_role : Arg String
  pub request_id : Arg String
  pub require_sweep : Bool
  pub sweep_event_id : Arg String

-- The request of `rotateExecutionWallet`. `request_id` is `none` if reading it throws.
pub record RotateRequest : Type 0 where
  pub audit_actor : Arg String
  pub permission_role : Arg String
  pub request_id : Option (Arg String)
  pub rotation_trigger : Arg RotationTrigger
  pub rotation_from_execution_wallet_id : Arg String
  pub rotation_to_execution_wallet_id : Arg String

pub data Reason : Type 0 where
  invalid_request audit_actor_required admin_required invalid_rotation_trigger
        rotation_wallet_not_found rotation_from_equals_to rotation_wallet_revoked
        rotation_to_not_active rotation_from_not_active rotation_not_found rotation_not_pending
        rotation_terminal rotation_not_in_progress asset_transfer_not_confirmed sweep_event_required
        sweep_not_confirmed :
      Reason
  drain_failed : ExecutionWalletLifecycle.Reason → Reason
  transfer_create_failed : AssetTransferIntents.Reason → Reason
  retire_failed : ExecutionWalletRegistry.Reason → Reason
  cannot_fail_in_state : WalletRotationStatus → Reason

abbrev pub rotation_status_name : WalletRotationStatus → String
rotation_status_name WalletRotationStatus.not_required = "NOT_REQUIRED"
rotation_status_name WalletRotationStatus.pending = "PENDING"
rotation_status_name WalletRotationStatus.in_progress = "IN_PROGRESS"
rotation_status_name WalletRotationStatus.completed = "COMPLETED"
rotation_status_name WalletRotationStatus.failed = "FAILED"

-- `ALLOWED[from].includes(to)`
abbrev pub allowed : WalletRotationStatus → WalletRotationStatus → Bool
allowed WalletRotationStatus.not_required WalletRotationStatus.pending = true
allowed WalletRotationStatus.pending WalletRotationStatus.in_progress = true
allowed WalletRotationStatus.pending WalletRotationStatus.failed = true
allowed WalletRotationStatus.in_progress WalletRotationStatus.completed = true
allowed WalletRotationStatus.in_progress WalletRotationStatus.failed = true
allowed _ _ = false

-- TERMINAL
abbrev pub is_terminal_rotation_status : WalletRotationStatus → Bool
is_terminal_rotation_status WalletRotationStatus.completed = true
is_terminal_rotation_status WalletRotationStatus.failed = true
is_terminal_rotation_status _ = false

pub rotation_entry :
    String → Arg String → Arg String → Arg String → String → Option ApiErrorCode → Entry
rotation_entry command actor role request_id why code = record {
  command_type = some command;
  resource_type = some "wallet_rotation";
  audit_scope = some "wallet_rotation";
  audit_actor = includes actor;
  audit_reason = some why;
  permission_role = includes role;
  api_error_code = Option.map api_error_code_name code;
  request_id = is_str request_id;
  idempotency_key = none;
  event_timestamp = none;
}

-- `record(ROTATE, req, why, code); return reply` inside the `try`: if `record` throws, the `catch`
-- answers.
pub log_request :
    {A : Type 0}
    → World
    → RotateRequest
    → String
    → Option ApiErrorCode
    → Reply Reason A
    → World × Reply Reason A
log_request w req why code reply = elim req.request_id [
  | none ↦ (w, refused invalid_request)
  | some request_id ↦ (
    record w {
      audit = append w.audit (
          rotation_entry "rotate_execution_wallet" req.audit_actor req.permission_role request_id
            why code);
    },
    reply,
  )
]

abbrev pub status_of : World → String → Option ExecutionWalletStatus
status_of w id =
    Option.map (λ (x : Wallet). x.execution_wallet_status) (lookup id w.lifecycle.registry)

abbrev pub is_active : ExecutionWalletStatus → Bool
is_active ExecutionWalletStatus.active = true
is_active _ = false

abbrev pub is_revoked : ExecutionWalletStatus → Bool
is_revoked ExecutionWalletStatus.revoked = true
is_revoked _ = false

abbrev pub pending_rotation : String → RotationTrigger → String → String → Rotation
pending_rotation id trigger from to = record {
  id = id;
  wallet_rotation_status = WalletRotationStatus.pending;
  rotation_trigger = trigger;
  rotation_from_execution_wallet_id = from;
  rotation_to_execution_wallet_id = to;
  asset_transfer_intent_id = none;
}

-- The end of `rotateExecutionWallet`: the rotation is stored and then audited.
pub store_rotation :
    World → RotateRequest → RotationTrigger → String → String → World × Reply Reason String
unfolding log_request
store_rotation w req trigger from to =
    let id = counter_id "rot-" (w.seq + 1) in
    log_request
      (record w {
        by_id = insert id (pending_rotation id trigger from to) w.by_id;
        seq = w.seq + 1;
      })
      req (template ("rotate_execution_wallet:PENDING:" ∷ id ∷ [])) none (ok id)

-- The checks on the statuses of the two wallets.
pub check_statuses :
    World
    → RotateRequest
    → RotationTrigger
    → String
    → String
    → ExecutionWalletStatus
    → ExecutionWalletStatus
    → World × Reply Reason String
unfolding store_rotation
check_statuses w req trigger from to from_status to_status =
    if is_revoked from_status || is_revoked to_status
    then log_request w req "rotation_wallet_revoked" none (refused rotation_wallet_revoked)
    else if not (is_active to_status)
    then log_request w req
        (template ("rotation_to_not_active:" ∷ ExecutionWalletRegistry.status_name to_status ∷ []))
        none (refused rotation_to_not_active)
    else if not (is_active from_status)
    then log_request w req
        (template
          ("rotation_from_not_active:" ∷ ExecutionWalletRegistry.status_name from_status ∷ []))
        none (refused rotation_from_not_active)
    else store_rotation w req trigger from to

abbrev not_found : World → RotateRequest → World × Reply Reason String
not_found w req =
    log_request w req "rotation_wallet_not_found" none (refused rotation_wallet_not_found)

-- The checks on the two wallets.
pub check_wallets :
    World → RotateRequest → RotationTrigger → String → String → World × Reply Reason String
unfolding check_statuses log_request
check_wallets w req trigger from to =
    if str_eq from to
    then log_request w req "rotation_from_equals_to" none (refused rotation_from_equals_to)
    else elim (status_of w from) [
      | none ↦ not_found w req
      | some from_status ↦ elim (status_of w to) [
        | none ↦ not_found w req
        | some to_status ↦ check_statuses w req trigger from to from_status to_status
      ]
    ]

-- `none` is a request that is no plain object, or one that the `catch` answers before anything is
-- recorded.
pub rotate_execution_wallet : World → Option RotateRequest → World × Reply Reason String
unfolding check_wallets log_request
rotate_execution_wallet w none = (w, refused invalid_request)
rotate_execution_wallet w (some req) = elim (is_str req.audit_actor) [
  | none ↦ (w, refused audit_actor_required)
  | some _ ↦
      if not (same_text req.permission_role "admin")
      then log_request w req "denied: admin_required" (some ApiErrorCode.permission_denied)
          (coded ApiErrorCode.permission_denied admin_required)
      else elim (includes req.rotation_trigger) [
        | none ↦
            log_request w req "invalid_rotation_trigger" none (refused invalid_rotation_trigger)
        | some trigger ↦ elim (is_str req.rotation_from_execution_wallet_id) [
          | none ↦ not_found w req
          | some from ↦ elim (is_str req.rotation_to_execution_wallet_id) [
            | none ↦ not_found w req
            | some to ↦ check_wallets w req trigger from to
          ]
        ]
      ]
]
