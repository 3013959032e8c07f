-- ===== src/WalletRotation/Start.antt =====
-- `start`: the old wallet is drained and a transfer to the new one is created. `coupled` says whether the
-- transfers were created with the wallet registry.
use solana_trading_bot.Prelude.{
  String, Bool, true, false, not, Option, none, some, [], ◌∷◌, if◌then◌else◌, absent, given, is_str,
  same_text, template, Reply, ok, refused, coded, ApiErrorCode,
}
use solana_trading_bot.Ssot.{WalletRotationStatus, ExecutionWalletStatus}
use solana_trading_bot.Store.{lookup, insert}
use solana_trading_bot.Audit.{append}
use solana_trading_bot.ExecutionWalletRegistry.{Registry}
use solana_trading_bot.ExecutionWalletLifecycle
use solana_trading_bot.ExecutionWalletLifecycle.{State, Command, run_command}
use solana_trading_bot.AssetTransferIntents
use solana_trading_bot.AssetTransferIntents.{Transfer, Transfers, create_asset_transfer_intent}
use solana_trading_bot.WalletRotation.{
  Rotation, World, Context, Reason, rotation_status_name, rotation_entry,
}

abbrev pub rotate_text : String
rotate_text = "rotate_execution_wallet"

-- `record(command, ctx, why, code); return reply`
unfoldable pub log_step {ℓ} :
    {A : Type ℓ} → World → String → Context → String → Option ApiErrorCode → A → World × A
log_step w command ctx why code reply = (
  record w {
    audit =
        append w.audit
          (rotation_entry command ctx.audit_actor ctx.permission_role ctx.request_id why code);
  },
  reply,
)

-- The refusals with `STATE_ERR`.
abbrev pub state_error :
    {A : Type 0} → World → String → Context → String → Reason → World × Reply Reason A
state_error w command ctx why reason =
    log_step w command ctx why (some ApiErrorCode.command_not_allowed_in_state)
      (coded ApiErrorCode.command_not_allowed_in_state reason)

abbrev pub denied : {A : Type 0} → World → String → Context → World × Reply Reason A
denied w command ctx =
    log_step w command ctx "denied: admin_required" (some ApiErrorCode.permission_denied)
      (coded ApiErrorCode.permission_denied Reason.admin_required)

-- `set({ ...cur, … })`
abbrev pub set : World → Rotation → World
set w rec = record w { by_id = insert rec.id rec w.by_id }

abbrev pub is_pending : WalletRotationStatus → Bool
is_pending WalletRotationStatus.pending = true
is_pending _ = false

-- The requests that `start` builds for the lifecycle and for the transfers.
abbrev pub drain_request : Rotation → Context → ExecutionWalletLifecycle.Request
drain_request cur ctx = record {
  audit_actor = ctx.audit_actor;
  permission_role = ctx.permission_role;
  execution_wallet_id = given cur.rotation_from_execution_wallet_id;
  trace = some (record { request_id = absent; idempotency_key = absent; event_timestamp = absent });
}

abbrev pub transfer_request : Rotation → Context → AssetTransferIntents.CreateRequest
transfer_request cur ctx = record {
  context = record {
    audit_actor = ctx.audit_actor;
    permission_role = ctx.permission_role;
    idempotency_key = absent;
    request_id = absent;
  };
  asset_transfer_intent_id = absent;
  source_execution_wallet_id = given cur.rotation_from_execution_wallet_id;
  destination_execution_wallet_id = given cur.rotation_to_execution_wallet_id;
  position_owner_wallet_id = given cur.rotation_from_execution_wallet_id;
}

-- The registry that the transfers look at.
abbrev pub transfer_registry : Bool → World → Option Registry
transfer_registry coupled w = if coupled then some w.lifecycle.registry else none

-- The end of `start`, on the answer of the transfers.
abbrev pub finish_start :
    World
    → Context
    → Rotation
    → String
    → Reply AssetTransferIntents.Reason String
    → World × Reply Reason String
finish_start w ctx cur key (ok intent_id) =
    log_step
      (set w (record cur {
        wallet_rotation_status = WalletRotationStatus.in_progress;
        asset_transfer_intent_id = some intent_id;
      }))
      rotate_text ctx (template (rotate_text ∷ ":IN_PROGRESS:" ∷ key ∷ [])) none (ok intent_id)
finish_start w ctx cur key (refused why) =
    log_step w rotate_text ctx
      (template ("transfer_create_failed:" ∷ AssetTransferIntents.reason_name why ∷ [])) none
      (refused (Reason.transfer_create_failed why))
finish_start w ctx cur key (coded code why) =
    log_step w rotate_text ctx
      (template ("transfer_create_failed:" ∷ AssetTransferIntents.reason_name why ∷ [])) none
      (coded code (Reason.transfer_create_failed why))

-- `start` after the drain, on its answer.
abbrev pub after_drain :
    Bool
    → World
    → Context
    → Rotation
    → String
    → Reply ExecutionWalletLifecycle.Reason ExecutionWalletStatus
    → World × Reply Reason String
after_drain coupled w ctx cur key (ok status) =
    let (transfers, reply) =
      create_asset_transfer_intent (transfer_registry coupled w) w.transfers
        (transfer_request cur ctx) in
    finish_start (record w { transfers = transfers }) ctx cur key reply
after_drain coupled w ctx cur key (refused why) =
    log_step w rotate_text ctx
      (template ("drain_failed:" ∷ ExecutionWalletLifecycle.reason_name why ∷ [])) none
      (refused (Reason.drain_failed why))
after_drain coupled w ctx cur key (coded code why) =
    log_step w rotate_text ctx
      (template ("drain_failed:" ∷ ExecutionWalletLifecycle.reason_name why ∷ [])) none
      (coded code (Reason.drain_failed why))

-- The answer is the id of the transfer.
unfoldable pub start : Bool → World → String → Context → World × Reply Reason String
unfolding log_step
start coupled w key ctx = elim (lookup key w.by_id) [
  | none ↦ (w, refused Reason.rotation_not_found)
  | some cur ↦ elim (is_str ctx.audit_actor) [
    | none ↦ (w, refused Reason.audit_actor_required)
    | some _ ↦
        if not (same_text ctx.permission_role "admin")
        then denied w rotate_text ctx
        else if not (is_pending cur.wallet_rotation_status)
        then state_error w rotate_text ctx
            (template
              ("rotation_not_pending:" ∷ rotation_status_name cur.wallet_rotation_status ∷ []))
            Reason.rotation_not_pending
        else (let (lifecycle, reply) =
              run_command w.lifecycle Command.drain (some (drain_request cur ctx)) in
            after_drain coupled (record w { lifecycle = lifecycle }) ctx cur key reply)
  ]
]
