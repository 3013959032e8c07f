-- ===== src/WalletRotation/Fleet.antt =====
-- What the four methods do to the wallets: at most one step of the wallet registry each.
use solana_trading_bot.Prelude.{
  String, ◌≡◌, refl, inl, inr, none, some, arith, Bool, Option, is_str, same_text, given,
  Bool-cases, Option-cases, ok, refused, coded, Reply, ApiErrorCode, List, [], ◌∷◌,
}
use solana_trading_bot.Ssot.{ExecutionWalletStatus}
use solana_trading_bot.Store.{lookup}
use solana_trading_bot.Store.Evolution.{Every, Evolves, Evolves-refl, Evolves-trans}
use solana_trading_bot.ProfitSweep.{is_confirmed}
use solana_trading_bot.ExecutionWalletRegistry.{transition}
use solana_trading_bot.ExecutionWalletRegistry.Invariant.{
  Step, unchanged, Step-IsValid, Step-Evolves, transition-Step, Follows, Follows-refl,
  Follows-trans,
}
use solana_trading_bot.ExecutionWalletLifecycle.{Command, run_command}
use solana_trading_bot.ExecutionWalletLifecycle.Effects.{run-Step}
use solana_trading_bot.WalletRotation.{
  Rotation, World, Context, RotateRequest, Reason, log_request, status_of, store_rotation,
  check_statuses, check_wallets, rotate_execution_wallet, is_terminal_rotation_status,
}
use solana_trading_bot.WalletRotation.Start.{
  log_step, is_pending, drain_request, finish_start, after_drain, start,
}
use solana_trading_bot.WalletRotation.Completion.{
  is_in_progress, transfer_confirmed, is_draining, after_retire, retire, check_sweep,
  complete_wallet_rotation, simulate_fail, Call, rotate_call, start_call, complete_call, fail_call,
  call, run,
}

log_request-lifecycle :
    (v : World) (req : RotateRequest) (why : String) (code : Option ApiErrorCode)
    (reply : Reply Reason String)
    → (log_request v req why code reply).0.lifecycle ≡ v.lifecycle
unfolding log_request
log_request-lifecycle v req why code reply = elim (Option-cases req.request_id) [
  | inl hidden ↦ ground arith
  | inr (id, e) ↦ ground arith
]

rotate-lifecycle :
    (v : World) (req : Option RotateRequest)
    → (rotate_execution_wallet v req).0.lifecycle ≡ v.lifecycle
unfolding rotate_execution_wallet check_wallets check_statuses store_rotation log_request
rotate-lifecycle v none = refl
rotate-lifecycle v (some req) = ground arith

finish_start-lifecycle :
    (w : World) (ctx : Context) (cur : Rotation) (key : String) (reply : Reply _ String)
    → (finish_start w ctx cur key reply).0.lifecycle ≡ w.lifecycle
unfolding log_step
finish_start-lifecycle w ctx cur key (ok id) = refl
finish_start-lifecycle w ctx cur key (refused why) = refl
finish_start-lifecycle w ctx cur key (coded code why) = refl

after_drain-lifecycle :
    (coupled : Bool) (w : World) (ctx : Context) (cur : Rotation) (key : String)
    (reply : Reply _ ExecutionWalletStatus)
    → (after_drain coupled w ctx cur key reply).0.lifecycle ≡ w.lifecycle
unfolding log_step
after_drain-lifecycle coupled w ctx cur key (ok status) = finish_start-lifecycle _ ctx cur key _
after_drain-lifecycle coupled w ctx cur key (refused why) = refl
after_drain-lifecycle coupled w ctx cur key (coded code why) = refl

start-fleet :
    (coupled : Bool) (v : World) (key : String) (ctx : Context)
    → Step v.lifecycle.registry (start coupled v key ctx).0.lifecycle.registry
unfolding start log_step
start-fleet coupled v key ctx = elim (Option-cases (lookup key v.by_id)) [
  | inl missing ↦ unchanged (ground arith)
  | inr (cur, found) ↦ elim (Option-cases (is_str ctx.audit_actor)) [
    | inl anonymous ↦ unchanged (ground arith)
    | inr (actor, a) ↦ elim (Bool-cases (same_text ctx.permission_role "admin")) [
      | inr denied ↦ unchanged (ground arith)
      | inl admin ↦ elim (Bool-cases (is_pending cur.wallet_rotation_status)) [
        | inr busy ↦ unchanged (ground arith)
        | inl idle ↦
            let drained = run_command v.lifecycle Command.drain (some (drain_request cur ctx)) in
            let w : World = record v { lifecycle = drained.0 } in
            let e : start coupled v key ctx ≡ after_drain coupled w ctx cur key drained.1 =
              ground arith in
            rw (e, after_drain-lifecycle coupled w ctx cur key drained.1)
              (run-Step v.lifecycle Command.drain (some (drain_request cur ctx)))
      ]
    ]
  ]
]

after_retire-lifecycle :
    (w : World) (ctx : Context) (cur : Rotation) (key : String)
    (reply : Reply _ ExecutionWalletStatus)
    → (after_retire w ctx cur key reply).0.lifecycle ≡ w.lifecycle
unfolding log_step
after_retire-lifecycle w ctx cur key (ok status) = refl
after_retire-lifecycle w ctx cur key (refused why) = refl
after_retire-lifecycle w ctx cur key (coded code why) = refl

retire-fleet :
    (v : World) (ctx : Context) (cur : Rotation) (key : String)
    → Step v.lifecycle.registry (retire v ctx cur key).0.lifecycle.registry
unfolding retire log_step
retire-fleet v ctx cur key =
    elim (Bool-cases (is_draining (status_of v cur.rotation_from_execution_wallet_id))) [
      | inr done ↦ rw done (unchanged refl)
      | inl draining ↦
          let t =
            transition v.lifecycle.registry cur.rotation_from_execution_wallet_id
              (given ExecutionWalletStatus.retired) in
          let w : World = record v { lifecycle = record v.lifecycle { registry = t.0 } } in
          let e : retire v ctx cur key ≡ after_retire w ctx cur key t.1 = rw draining refl in
          rw (e, after_retire-lifecycle w ctx cur key t.1)
            (transition-Step v.lifecycle.registry cur.rotation_from_execution_wallet_id
              (given ExecutionWalletStatus.retired))
    ]

sweep-fleet :
    (v : World) (ctx : Context) (cur : Rotation) (key : String)
    → Step v.lifecycle.registry (check_sweep v ctx cur key).0.lifecycle.registry
unfolding check_sweep log_step
sweep-fleet v ctx cur key = elim (Bool-cases ctx.require_sweep) [
  | inr free ↦ rw free (retire-fleet v ctx cur key)
  | inl required ↦ elim (Option-cases (is_str ctx.sweep_event_id)) [
    | inl missing ↦ unchanged (ground arith)
    | inr (event_id, named) ↦ elim (Bool-cases (is_confirmed v.sweep event_id)) [
      | inr unconfirmed ↦ unchanged (ground arith)
      | inl confirmed ↦ rw (required, named, confirmed) (retire-fleet v ctx cur key)
    ]
  ]
]

complete-fleet :
    (v : World) (key : String) (ctx : Context)
    → Step v.lifecycle.registry (complete_wallet_rotation v key ctx).0.lifecycle.registry
unfolding complete_wallet_rotation log_step
complete-fleet v key ctx = elim (Option-cases (lookup key v.by_id)) [
  | inl missing ↦ unchanged (ground arith)
  | inr (cur, found) ↦ elim (Option-cases (is_str ctx.audit_actor)) [
    | inl anonymous ↦ unchanged (ground arith)
    | inr (actor, a) ↦ elim (Bool-cases (same_text ctx.permission_role "admin")) [
      | inr denied ↦ unchanged (ground arith)
      | inl admin ↦ elim (Bool-cases (is_terminal_rotation_status cur.wallet_rotation_status)) [
        | inl over ↦ unchanged (ground arith)
        | inr live ↦ elim (Bool-cases (is_in_progress cur.wallet_rotation_status)) [
          | inr idle ↦ unchanged (ground arith)
          | inl running ↦ elim (Bool-cases (transfer_confirmed v cur.asset_transfer_intent_id)) [
            | inr unsettled ↦ unchanged (ground arith)
            | inl settled ↦
                let e : complete_wallet_rotation v key ctx ≡ check_sweep v ctx cur key =
                  ground arith in
                rw e (sweep-fleet v ctx cur key)
          ]
        ]
      ]
    ]
  ]
]

fail-lifecycle : (v : World) (key : String) → (simulate_fail v key).0.lifecycle ≡ v.lifecycle
unfolding simulate_fail
fail-lifecycle v key = elim (Option-cases (lookup key v.by_id)) [
  | inl missing ↦ ground arith
  | inr (cur, found) ↦ ground arith
]

call-fleet :
    (coupled : Bool) (v : World) (c : Call)
    → Step v.lifecycle.registry (call coupled v c).lifecycle.registry
unfolding call
call-fleet coupled v (rotate_call req) = rw (rotate-lifecycle v req) (unchanged refl)
call-fleet coupled v (start_call key ctx) = start-fleet coupled v key ctx
call-fleet coupled v (complete_call key ctx) = complete-fleet v key ctx
call-fleet coupled v (fail_call key) = rw (fail-lifecycle v key) (unchanged refl)

-- After a start every wallet stands under its id as before.
pub start-keyed :
    (coupled : Bool) (v : World) (key : String) (ctx : Context)
    → Every (λ k x. x.execution_wallet_id ≡ k) v.lifecycle.registry
    → Every (λ k x. x.execution_wallet_id ≡ k) (start coupled v key ctx).0.lifecycle.registry
start-keyed coupled v key ctx h = Step-IsValid (start-fleet coupled v key ctx) h

-- Every wallet is still there after any calls of the four methods, and its status is one that the status
-- graph reaches from the old one.
pub fleet-Evolves :
    (coupled : Bool) (v : World) (cs : List Call)
    → Every (λ k x. x.execution_wallet_id ≡ k) v.lifecycle.registry
    → Evolves Follows v.lifecycle.registry (run coupled v cs).lifecycle.registry
unfolding run
fleet-Evolves coupled v [] h = Evolves-refl Follows Follows-refl v.lifecycle.registry
fleet-Evolves coupled v (c ∷ cs) h =
    let st = call-fleet coupled v c in
    Evolves-trans Follows Follows-trans v.lifecycle.registry (call coupled v c).lifecycle.registry
      (run coupled (call coupled v c) cs).lifecycle.registry (Step-Evolves st h)
      (fleet-Evolves coupled (call coupled v c) cs (Step-IsValid st h))
