-- ===== src/ExecutionWalletLifecycle.antt =====
-- packages/execution-wallet-lifecycle/src/execution-wallet-lifecycle.mjs: the drain, disable and revoke
-- commands over the shared wallet registry. `State` holds the registry that the factory is given and
-- the component's own audit log.
pub mod Effects
mod Examples
use solana_trading_bot.Prelude.{
  String, Bool, true, false, not, ◌||◌, Option, none, some, List, [], ◌∷◌, if◌then◌else◌, Arg,
  given, includes, is_str, same_text, template, Reply, ok, refused, coded, ApiErrorCode,
  api_error_code_name,
}
use mathlib.Core.Option
use solana_trading_bot.Ssot.{ExecutionWalletStatus}
use solana_trading_bot.Store.{lookup}
use solana_trading_bot.Audit.{AuditLog, Entry, append}
use solana_trading_bot.ExecutionWalletRegistry
use solana_trading_bot.ExecutionWalletRegistry.{Registry, Wallet, status_name, transition}

pub data Command : Type 0 where
  drain disable revoke : Command

abbrev pub command_name : Command → String
command_name drain = "drain_execution_wallet"
command_name disable = "disable_execution_wallet"
command_name revoke = "revoke_execution_wallet"

-- `COMMANDS[command].toStatus`
abbrev pub to_status : Command → ExecutionWalletStatus
to_status drain = ExecutionWalletStatus.draining
to_status disable = ExecutionWalletStatus.disabled
to_status revoke = ExecutionWalletStatus.revoked

-- `COMMANDS[command].requireSignerControl`
abbrev pub require_signer_control : Command → Bool
require_signer_control drain = false
require_signer_control disable = false
require_signer_control revoke = true

abbrev pub permitted : Arg String → Bool → Bool
permitted role true = same_text role "signer_control"
permitted role false = same_text role "signer_control" || same_text role "admin"

-- The fields that only `record` reads.
pub record Trace : Type 0 where
  pub request_id : Arg String
  pub idempotency_key : Arg String
  pub event_timestamp : Arg String

-- A request. `trace` is `none` if reading one of those fields throws.
pub record Request : Type 0 where
  pub audit_actor : Arg String
  pub permission_role : Arg String
  pub execution_wallet_id : Arg String
  pub trace : Option Trace

pub data Reason : Type 0 where
  invalid_request audit_actor_required signer_control_required insufficient_permission
        execution_wallet_not_found :
      Reason
  by_registry : ExecutionWalletRegistry.Reason → Reason

pub record State : Type 0 where
  pub registry : Registry
  pub audit : AuditLog

pub command_entry : Command → Request → Trace → String → Option ApiErrorCode → Entry
command_entry c req t why code = record {
  command_type = some (command_name c);
  resource_type = some "execution_wallet";
  audit_scope = some "execution_wallet";
  audit_actor = includes req.audit_actor;
  audit_reason = some why;
  permission_role = includes req.permission_role;
  api_error_code = Option.map api_error_code_name code;
  request_id = is_str t.request_id;
  idempotency_key = is_str t.idempotency_key;
  event_timestamp = is_str t.event_timestamp;
}

-- `record(…)` and then `return reply`; if `record` throws, the `catch` answers.
pub log_and_answer :
    {A : Type 0}
    → State
    → Command
    → Request
    → String
    → Option ApiErrorCode
    → Reply Reason A
    → State × Reply Reason A
log_and_answer s c req why code reply = elim req.trace [
  | none ↦ (s, refused invalid_request)
  | some t ↦ (record s { audit = append s.audit (command_entry c req t why code) }, reply)
]

-- `walletRegistry.get(x)` for a field of a request.
abbrev pub wallet_at : Arg String → Registry → Option Wallet
wallet_at (given id) m = lookup id m
wallet_at _ m = none

-- The id that the registry is asked to move; it is read only where a wallet was found.
abbrev pub id_text : Arg String → String
id_text (given id) = id
id_text _ = ""

abbrev denied_reason : Command → Reason
denied_reason c =
    if require_signer_control c then signer_control_required else insufficient_permission

abbrev denied_text : Command → String
denied_text c =
    if require_signer_control c
    then "denied: signer_control_required"
    else "denied: insufficient_permission"

abbrev arrow_text : String → ExecutionWalletStatus → ExecutionWalletStatus → String
arrow_text head from to = template (head ∷ ":" ∷ status_name from ∷ "->" ∷ status_name to ∷ [])

-- The end of `run`, on the answer of the registry; `s` has the registry that the call left.
abbrev finish :
    State
    → Command
    → Request
    → ExecutionWalletStatus
    → Reply ExecutionWalletRegistry.Reason ExecutionWalletStatus
    → State × Reply Reason ExecutionWalletStatus
finish s c req from (ok to) =
    log_and_answer s c req (arrow_text (command_name c) from (to_status c)) none (ok (to_status c))
finish s c req from (refused why) =
    log_and_answer s c req (arrow_text "illegal_transition" from (to_status c)) none
      (refused (by_registry why))
finish s c req from (coded code why) =
    log_and_answer s c req (arrow_text "illegal_transition" from (to_status c)) (some code)
      (coded code (by_registry why))

-- `run(command, req)`; `none` is a request that is no plain object, or one that the `catch` answers
-- before anything is recorded.
unfoldable pub run_command :
    State → Command → Option Request → State × Reply Reason ExecutionWalletStatus
unfolding log_and_answer
run_command s c none = (s, refused invalid_request)
run_command s c (some req) = elim (is_str req.audit_actor) [
  | none ↦ (s, refused audit_actor_required)
  | some _ ↦
      if not (permitted req.permission_role (require_signer_control c))
      then log_and_answer s c req (denied_text c) (some ApiErrorCode.permission_denied)
          (coded ApiErrorCode.permission_denied (denied_reason c))
      else elim (wallet_at req.execution_wallet_id s.registry) [
        | none ↦
            log_and_answer s c req "execution_wallet_not_found" none
              (refused execution_wallet_not_found)
        | some wallet ↦
            let (m, t) =
              transition s.registry (id_text req.execution_wallet_id) (given (to_status c)) in
            finish (record s { registry = m }) c req wallet.execution_wallet_status t
      ]
]

-- The word of a reason in a text.
abbrev pub reason_name : Reason → String
reason_name invalid_request = "invalid_request"
reason_name audit_actor_required = "audit_actor_required"
reason_name signer_control_required = "signer_control_required"
reason_name insufficient_permission = "insufficient_permission"
reason_name execution_wallet_not_found = "execution_wallet_not_found"
reason_name (by_registry why) = ExecutionWalletRegistry.reason_name why
