-- ===== src/WalletRotation/Completion.antt =====
-- `completeWalletRotation` and `simulateFail`.
use solana_trading_bot.Prelude.{
  List, String, Bool, true, false, not, Option, none, some, List, [], ◌∷◌, if◌then◌else◌, given,
  is_str, same_text, template, Reply, ok, refused, coded, ApiErrorCode,
}
use solana_trading_bot.Ssot.{AssetTransferStatus, WalletRotationStatus, ExecutionWalletStatus}
use solana_trading_bot.Store.{lookup}
use solana_trading_bot.ExecutionWalletRegistry
use solana_trading_bot.ExecutionWalletRegistry.{Registry, transition}
use solana_trading_bot.ProfitSweep.{is_confirmed}
use solana_trading_bot.WalletRotation.{
  RotateRequest, rotate_execution_wallet, Rotation, World, Context, RotateRequest, Reason,
  rotation_status_name, allowed, is_terminal_rotation_status, status_of, rotate_execution_wallet,
}
use solana_trading_bot.WalletRotation.Start.{start, log_step, state_error, denied, set}

abbrev complete_text : String
complete_text = "complete_wallet_rotation"

abbrev pub is_in_progress : WalletRotationStatus → Bool
is_in_progress WalletRotationStatus.in_progress = true
is_in_progress _ = false

-- `transfers.get(id)` has status CONFIRMED.
abbrev pub transfer_confirmed : World → Option String → Bool
transfer_confirmed w none = false
transfer_confirmed w (some id) = elim (lookup id w.transfers.by_id) [
  | none ↦ false
  | some t ↦ elim t.asset_transfer_status [ AssetTransferStatus.confirmed ↦ true | _ ↦ false ]
]

abbrev pub complete : World → Context → Rotation → String → World × Reply Reason (Unit {0})
complete w ctx cur key =
    log_step (set w (record cur { wallet_rotation_status = WalletRotationStatus.completed }))
      complete_text ctx (template (complete_text ∷ ":COMPLETED:" ∷ key ∷ [])) none (ok tt)

-- The end of `completeWalletRotation`, on the answer of the registry.
abbrev pub after_retire :
    World
    → Context
    → Rotation
    → String
    → Reply ExecutionWalletRegistry.Reason ExecutionWalletStatus
    → World × Reply Reason (Unit {0})
after_retire w ctx cur key (ok status) = complete w ctx cur key
after_retire w ctx cur key (refused why) =
    log_step w complete_text ctx
      (template ("retire_failed:" ∷ ExecutionWalletRegistry.reason_name why ∷ [])) none
      (refused (Reason.retire_failed why))
after_retire w ctx cur key (coded code why) =
    log_step w complete_text ctx
      (template ("retire_failed:" ∷ ExecutionWalletRegistry.reason_name why ∷ [])) none
      (coded code (Reason.retire_failed why))

abbrev pub is_draining : Option ExecutionWalletStatus → Bool
is_draining (some ExecutionWalletStatus.draining) = true
is_draining _ = false

-- The old wallet is retired if it is draining, and the rotation is completed.
unfoldable pub retire : World → Context → Rotation → String → World × Reply Reason (Unit {0})
unfolding log_step
retire w ctx cur key =
    if is_draining (status_of w cur.rotation_from_execution_wallet_id)
    then (let (registry, reply) =
          transition w.lifecycle.registry cur.rotation_from_execution_wallet_id
            (given ExecutionWalletStatus.retired) in
        after_retire (record w { lifecycle = record w.lifecycle { registry = registry } }) ctx cur
          key reply)
    else complete w ctx cur key

-- The test of the sweep, where the caller requires one.
unfoldable pub check_sweep : World → Context → Rotation → String → World × Reply Reason (Unit {0})
unfolding retire
check_sweep w ctx cur key =
    if ctx.require_sweep
    then elim (is_str ctx.sweep_event_id) [
      | none ↦ state_error w complete_text ctx "sweep_event_required" Reason.sweep_event_required
      | some event_id ↦
          if is_confirmed w.sweep event_id
          then retire w ctx cur key
          else state_error w complete_text ctx "sweep_not_confirmed" Reason.sweep_not_confirmed
    ]
    else retire w ctx cur key

unfoldable pub complete_wallet_rotation : World → String → Context → World × Reply Reason (Unit {0})
unfolding check_sweep log_step
complete_wallet_rotation w key ctx = elim (lookup key w.by_id) [
  | none ↦ (w, refused Reason.rotation_not_found)
  | some cur ↦ elim (is_str ctx.audit_actor) [
    | none ↦ (w, refused Reason.audit_actor_required)
    | some _ ↦
        if not (same_text ctx.permission_role "admin")
        then denied w complete_text ctx
        else if is_terminal_rotation_status cur.wallet_rotation_status
        then state_error w complete_text ctx
            (template ("terminal:" ∷ rotation_status_name cur.wallet_rotation_status ∷ []))
            Reason.rotation_terminal
        else if not (is_in_progress cur.wallet_rotation_status)
        then state_error w complete_text ctx
            (template
              ("rotation_not_in_progress:" ∷ rotation_status_name cur.wallet_rotation_status ∷ []))
            Reason.rotation_not_in_progress
        else if not (transfer_confirmed w cur.asset_transfer_intent_id)
        then state_error w complete_text ctx "asset_transfer_not_confirmed"
            Reason.asset_transfer_not_confirmed
        else check_sweep w ctx cur key
  ]
]

unfoldable pub simulate_fail : World → String → World × Reply Reason (Unit {0})
simulate_fail w key = elim (lookup key w.by_id) [
  | none ↦ (w, refused Reason.rotation_not_found)
  | some cur ↦
      if allowed cur.wallet_rotation_status WalletRotationStatus.failed
      then (set w (record cur { wallet_rotation_status = WalletRotationStatus.failed }), ok tt)
      else (
        w,
        coded ApiErrorCode.command_not_allowed_in_state
            (Reason.cannot_fail_in_state cur.wallet_rotation_status),
      )
]

-- A call of one of the four methods.
pub data Call : Type 0 where
  rotate_call : Option RotateRequest → Call
  start_call : String → Context → Call
  complete_call : String → Context → Call
  fail_call : String → Call

unfoldable pub call : Bool → World → Call → World
call coupled v (rotate_call req) = (rotate_execution_wallet v req).0
call coupled v (start_call key ctx) = (start coupled v key ctx).0
call coupled v (complete_call key ctx) = (complete_wallet_rotation v key ctx).0
call coupled v (fail_call key) = (simulate_fail v key).0

unfoldable pub run : Bool → World → List Call → World
run coupled v [] = v
run coupled v (c ∷ cs) = run coupled (call coupled v c) cs
