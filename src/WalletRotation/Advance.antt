-- ===== src/WalletRotation/Advance.antt =====
-- What `start` and `completeWalletRotation` do to the rotations.
use solana_trading_bot.Prelude.{
  String, ◌≡◌, refl, inl, inr, some, true, arith, is_str, same_text, Bool, Bool-cases, Option-cases,
  ok, refused, coded, Reply, given,
}
use solana_trading_bot.Ssot.{WalletRotationStatus, ExecutionWalletStatus}
use solana_trading_bot.Store.{lookup}
use solana_trading_bot.ExecutionWalletRegistry
use solana_trading_bot.ExecutionWalletRegistry.{transition}
use solana_trading_bot.ExecutionWalletLifecycle
use solana_trading_bot.ExecutionWalletLifecycle.{Command, run_command}
use solana_trading_bot.AssetTransferIntents
use solana_trading_bot.AssetTransferIntents.{create_asset_transfer_intent}
use solana_trading_bot.ProfitSweep.{is_confirmed}
use solana_trading_bot.WalletRotation.{
  Rotation, World, Context, status_of, is_terminal_rotation_status,
}
use solana_trading_bot.WalletRotation.Start.{
  log_step, is_pending, finish_start, after_drain, transfer_registry, transfer_request,
  drain_request, start,
}
use solana_trading_bot.WalletRotation.Completion.{
  is_in_progress, is_draining, transfer_confirmed, after_retire, retire, check_sweep,
  complete_wallet_rotation, Call, rotate_call, start_call, complete_call, fail_call, call,
}
use solana_trading_bot.WalletRotation.Steps.{Step, unchanged, moved, rotate-Step, fail-Step}

module _ (v : World) (ctx : Context) (cur : Rotation) (key : String)
    (found : lookup key v.by_id ≡ some cur) where
  finish_start-Step :
      (w : World) (reply : Reply AssetTransferIntents.Reason String)
      → is_pending cur.wallet_rotation_status ≡ true
      → w.by_id ≡ v.by_id
      → w.seq ≡ v.seq
      → Step v (finish_start w ctx cur key reply).0
  unfolding log_step
  finish_start-Step w (ok intent_id) idle e n =
      moved key cur WalletRotationStatus.in_progress (some intent_id) found (ground arith)
        (rw e refl) n
  finish_start-Step w (refused why) idle e n = unchanged e n
  finish_start-Step w (coded code why) idle e n = unchanged e n

  after_drain-Step :
      (coupled : Bool) (w : World)
      (reply : Reply ExecutionWalletLifecycle.Reason ExecutionWalletStatus)
      → is_pending cur.wallet_rotation_status ≡ true
      → w.by_id ≡ v.by_id
      → w.seq ≡ v.seq
      → Step v (after_drain coupled w ctx cur key reply).0
  unfolding log_step
  after_drain-Step coupled w (ok status) idle e n =
      finish_start-Step _
        (create_asset_transfer_intent (transfer_registry coupled w) w.transfers
          (transfer_request cur ctx)).1
        idle e n
  after_drain-Step coupled w (refused why) idle e n = unchanged e n
  after_drain-Step coupled w (coded code why) idle e n = unchanged e n

  after_retire-Step :
      (w : World) (reply : Reply ExecutionWalletRegistry.Reason ExecutionWalletStatus)
      → is_in_progress cur.wallet_rotation_status ≡ true
      → w.by_id ≡ v.by_id
      → w.seq ≡ v.seq
      → Step v (after_retire w ctx cur key reply).0
  unfolding log_step
  after_retire-Step w (ok status) running e n =
      moved key cur WalletRotationStatus.completed cur.asset_transfer_intent_id found (ground arith)
        (rw e refl) n
  after_retire-Step w (refused why) running e n = unchanged e n
  after_retire-Step w (coded code why) running e n = unchanged e n

  retire-Step : is_in_progress cur.wallet_rotation_status ≡ true → Step v (retire v ctx cur key).0
  unfolding retire log_step
  retire-Step running =
      elim (Bool-cases (is_draining (status_of v cur.rotation_from_execution_wallet_id))) [
        | inl draining ↦
            let moved_on =
              transition v.lifecycle.registry cur.rotation_from_execution_wallet_id
                (given ExecutionWalletStatus.retired) in
            rw draining (
              after_retire-Step
                (record v { lifecycle = record v.lifecycle { registry = moved_on.0 } }) moved_on.1
                running refl refl)
        | inr other ↦ rw other (
            moved key cur WalletRotationStatus.completed cur.asset_transfer_intent_id found
              (ground arith) refl refl)
      ]

  check_sweep-Step :
      is_in_progress cur.wallet_rotation_status ≡ true → Step v (check_sweep v ctx cur key).0
  unfolding check_sweep log_step
  check_sweep-Step running = elim (Bool-cases ctx.require_sweep) [
    | inr free ↦
        let e : check_sweep v ctx cur key ≡ retire v ctx cur key = ground arith in
        rw e (retire-Step running)
    | inl required ↦ elim (Option-cases (is_str ctx.sweep_event_id)) [
      | inl missing ↦ unchanged (ground arith) (ground arith)
      | inr (event_id, named) ↦ elim (Bool-cases (is_confirmed v.sweep event_id)) [
        | inr unconfirmed ↦ unchanged (ground arith) (ground arith)
        | inl confirmed ↦
            let e : check_sweep v ctx cur key ≡ retire v ctx cur key = ground arith in
            rw e (retire-Step running)
      ]
    ]
  ]

pub start-Step :
    (coupled : Bool) (v : World) (key : String) (ctx : Context) → Step v (start coupled v key ctx).0
unfolding start log_step
start-Step coupled v key ctx = elim (Option-cases (lookup key v.by_id)) [
  | inl missing ↦ unchanged (ground arith) (ground arith)
  | inr (cur, found) ↦ elim (Option-cases (is_str ctx.audit_actor)) [
    | inl anonymous ↦ unchanged (ground arith) (ground arith)
    | inr (actor, a) ↦ elim (Bool-cases (same_text ctx.permission_role "admin")) [
      | inr denied ↦ unchanged (ground arith) (ground arith)
      | inl admin ↦ elim (Bool-cases (is_pending cur.wallet_rotation_status)) [
        | inr busy ↦ unchanged (ground arith) (ground arith)
        | inl idle ↦
            let drained = run_command v.lifecycle Command.drain (some (drain_request cur ctx)) in
            let e : start coupled v key ctx
                ≡ after_drain coupled (record v { lifecycle = drained.0 }) ctx cur key drained.1 =
              ground arith in
            rw e (
              after_drain-Step v ctx cur key found coupled (record v { lifecycle = drained.0 })
                drained.1 idle refl refl)
      ]
    ]
  ]
]

pub complete-Step :
    (v : World) (key : String) (ctx : Context) → Step v (complete_wallet_rotation v key ctx).0
unfolding complete_wallet_rotation log_step
complete-Step v key ctx = elim (Option-cases (lookup key v.by_id)) [
  | inl missing ↦ unchanged (ground arith) (ground arith)
  | inr (cur, found) ↦ elim (Option-cases (is_str ctx.audit_actor)) [
    | inl anonymous ↦ unchanged (ground arith) (ground arith)
    | inr (actor, a) ↦ elim (Bool-cases (same_text ctx.permission_role "admin")) [
      | inr denied ↦ unchanged (ground arith) (ground arith)
      | inl admin ↦ elim (Bool-cases (is_terminal_rotation_status cur.wallet_rotation_status)) [
        | inl over ↦ unchanged (ground arith) (ground arith)
        | inr live ↦ elim (Bool-cases (is_in_progress cur.wallet_rotation_status)) [
          | inr idle ↦ unchanged (ground arith) (ground arith)
          | inl running ↦ elim (Bool-cases (transfer_confirmed v cur.asset_transfer_intent_id)) [
            | inr unsettled ↦ unchanged (ground arith) (ground arith)
            | inl settled ↦
                let e : complete_wallet_rotation v key ctx ≡ check_sweep v ctx cur key =
                  ground arith in
                rw e (check_sweep-Step v ctx cur key found running)
          ]
        ]
      ]
    ]
  ]
]

pub call-Step : (coupled : Bool) (v : World) (c : Call) → Step v (call coupled v c)
unfolding call
call-Step coupled v (rotate_call req) = rotate-Step v req
call-Step coupled v (start_call key ctx) = start-Step coupled v key ctx
call-Step coupled v (complete_call key ctx) = complete-Step v key ctx
call-Step coupled v (fail_call key) = fail-Step v key
