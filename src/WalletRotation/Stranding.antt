-- ===== src/WalletRotation/Stranding.antt =====
-- What a `start` leaves behind whose transfer is refused.
use solana_trading_bot.Prelude.{
  String, ◌≡◌, refl, sym, ◌∙◌, inl, inr, some, true, false, arith, Bool, is_str, same_text,
  Bool-cases, Option-cases, ok, refused, coded, is_ok, Reply, List, ◌∷◌,
}
use mathlib.Core.Option.{some-injective}
use solana_trading_bot.Ssot.{ExecutionWalletStatus}
use solana_trading_bot.Store.{lookup}
use solana_trading_bot.Store.Evolution.{Every}
use solana_trading_bot.ExecutionWalletRegistry.{transition, Wallet}
use solana_trading_bot.ExecutionWalletLifecycle.{Command, run_command}
use solana_trading_bot.WalletRotation.{Rotation, World, Context, Reason, status_of}
use solana_trading_bot.WalletRotation.Start.{
  log_step, is_pending, drain_request, finish_start, after_drain, start,
}
use solana_trading_bot.ExecutionWalletRegistry.Graph.{is_leaving, Reach-is_leaving}
use solana_trading_bot.WalletRotation.Completion.{Call, start_call, call, run}
use solana_trading_bot.WalletRotation.Fleet.{start-keyed, fleet-Evolves}
use solana_trading_bot.WalletRotation.Journey.{IsValid, rotations_evolve}
use solana_trading_bot.WalletRotation.Launch.{
  drained_world, drained_status, start-after_drain, after_drain-ok,
}

-- The answer says that the transfer could not be created.
abbrev pub is_transfer_failure : Reply Reason String → Bool
is_transfer_failure (refused (Reason.transfer_create_failed why)) = true
is_transfer_failure (coded code (Reason.transfer_create_failed why)) = true
is_transfer_failure _ = false

failed-after_drain :
    (coupled : Bool) (v : World) (key : String) (ctx : Context) (cur : Rotation)
    → lookup key v.by_id ≡ some cur
    → is_transfer_failure (start coupled v key ctx).1 ≡ true
    → start coupled v key ctx
      ≡ after_drain coupled
          (drained_world v cur ctx)
          ctx
          cur
          key
          (run_command v.lifecycle Command.drain (some (drain_request cur ctx))).1
unfolding start log_step
failed-after_drain coupled v key ctx cur found h = elim (Option-cases (is_str ctx.audit_actor)) [
  | inl anonymous ↦ absurd (ground arith)
  | inr (actor, a) ↦ elim (Bool-cases (same_text ctx.permission_role "admin")) [
    | inr denied ↦ absurd (ground arith)
    | inl admin ↦ elim (Bool-cases (is_pending cur.wallet_rotation_status)) [
      | inr busy ↦ absurd (ground arith)
      | inl idle ↦ ground arith
    ]
  ]
]

finish_start-failed :
    (w : World) (ctx : Context) (cur : Rotation) (key : String) (reply : Reply _ String)
    → is_transfer_failure (finish_start w ctx cur key reply).1 ≡ true
    → ((finish_start w ctx cur key reply).0.by_id ≡ w.by_id)
      × ((finish_start w ctx cur key reply).0.lifecycle ≡ w.lifecycle)
unfolding log_step
finish_start-failed w ctx cur key (ok id) h = absurd (ground arith)
finish_start-failed w ctx cur key (refused why) h = (refl, refl)
finish_start-failed w ctx cur key (coded code why) h = (refl, refl)

after_drain-failed :
    (coupled : Bool) (w : World) (ctx : Context) (cur : Rotation) (key : String)
    (reply : Reply _ ExecutionWalletStatus)
    → is_transfer_failure (after_drain coupled w ctx cur key reply).1 ≡ true
    → (is_ok reply ≡ true)
      × ((after_drain coupled w ctx cur key reply).0.by_id ≡ w.by_id)
      × ((after_drain coupled w ctx cur key reply).0.lifecycle ≡ w.lifecycle)
unfolding log_step
after_drain-failed coupled w ctx cur key (ok status) h =
    let (rotations, lifecycle) = finish_start-failed _ ctx cur key _ h in
    (refl, rotations, lifecycle)
after_drain-failed coupled w ctx cur key (refused why) h = absurd (ground arith)
after_drain-failed coupled w ctx cur key (coded code why) h = absurd (ground arith)

-- A wallet that has left service cannot be drained.
left_stays :
    (v : World) (cur : Rotation) (ctx : Context) (x : Wallet)
    → lookup cur.rotation_from_execution_wallet_id v.lifecycle.registry ≡ some x
    → is_leaving x.execution_wallet_status ≡ true
    → is_ok (run_command v.lifecycle Command.drain (some (drain_request cur ctx))).1 ≡ false
unfolding run_command transition
left_stays v cur ctx x found left = ground arith

-- A rotation whose old wallet has left service cannot be started.
left_blocks_start :
    (coupled : Bool) (v : World) (key : String) (ctx : Context) (cur : Rotation) (x : Wallet)
    → lookup key v.by_id ≡ some cur
    → lookup cur.rotation_from_execution_wallet_id v.lifecycle.registry ≡ some x
    → is_leaving x.execution_wallet_status ≡ true
    → is_ok (start coupled v key ctx).1 ≡ false
left_blocks_start coupled v key ctx cur x found wallet left =
    elim (Bool-cases (is_ok (start coupled v key ctx).1)) [
      | inr refused_again ↦ refused_again
      | inl accepted ↦
          let (cur_too, found_too, idle, to_drain) = start-after_drain coupled v key ctx accepted in
          let same : cur_too ≡ cur = some-injective _ _ (sym found_too ∙ found) in
          let (drained, e) =
            after_drain-ok coupled (drained_world v cur_too ctx) ctx cur_too key
              (run_command v.lifecycle Command.drain (some (drain_request cur_too ctx))).1
              (rw (← to_drain) accepted) in
          let blocked = left_stays v cur_too ctx x (rw same wallet) left in absurd cc
    ]

-- A wallet that is draining in a world has left service after any calls.
draining_leaves :
    (coupled : Bool) (v : World) (cs : List Call) (id : String)
    → Every (λ k x. x.execution_wallet_id ≡ k) v.lifecycle.registry
    → status_of v id ≡ some ExecutionWalletStatus.draining
    → (x : Wallet) × (lookup id (run coupled v cs).lifecycle.registry ≡ some x)
      × (is_leaving x.execution_wallet_status ≡ true)
draining_leaves coupled v cs id keyed h = elim (Option-cases (lookup id v.lifecycle.registry)) [
  | inl missing ↦ absurd (ground arith)
  | inr (w, found) ↦
      let left : is_leaving w.execution_wallet_status ≡ true = ground arith in
      let (x, there, f) = fleet-Evolves coupled v cs keyed id w found in
      (x, there, Reach-is_leaving left f.status_reached)
]

-- The rotation names the same old wallet after a start and any calls.
rotation_later :
    (coupled : Bool) (v : World) (key : String) (ctx : Context) (cs : List Call) (cur : Rotation)
    → IsValid v
    → lookup key v.by_id ≡ some cur
    → (q : Rotation) × (lookup key (run coupled (start coupled v key ctx).0 cs).by_id ≡ some q)
      × (q.rotation_from_execution_wallet_id ≡ cur.rotation_from_execution_wallet_id)
unfolding run call
rotation_later coupled v key ctx cs cur valid found =
    let (q, there, f) = rotations_evolve coupled v (start_call key ctx ∷ cs) valid key cur found in
    (q, there, f.from_kept)

-- If `start` is refused because its transfer cannot be created, then no rotation has changed but the old
-- wallet of this one is draining, and after any calls of the four methods no `start` of it is accepted,
-- whoever asks. This holds if every wallet and every rotation stands under its id and the ids that the
-- counter has yet to make are free.
pub failed_start_strands :
    (coupled : Bool) (v : World) (key : String) (ctx again : Context) (cur : Rotation)
    (cs : List Call)
    → IsValid v
    → Every (λ k x. x.execution_wallet_id ≡ k) v.lifecycle.registry
    → lookup key v.by_id ≡ some cur
    → is_transfer_failure (start coupled v key ctx).1 ≡ true
    → ((start coupled v key ctx).0.by_id ≡ v.by_id)
      × (status_of (start coupled v key ctx).0 cur.rotation_from_execution_wallet_id
          ≡ some ExecutionWalletStatus.draining)
      × (is_ok (start coupled (run coupled (start coupled v key ctx).0 cs) key again).1 ≡ false)
failed_start_strands coupled v key ctx again cur cs valid keyed found failed =
    let e = failed-after_drain coupled v key ctx cur found failed in
    let (drained, rotations, lifecycle) =
      after_drain-failed coupled (drained_world v cur ctx) ctx cur key _ (rw e at failed) in
    let kept : (start coupled v key ctx).0.by_id ≡ v.by_id = rw e rotations in
    let left : status_of (start coupled v key ctx).0 cur.rotation_from_execution_wallet_id
        ≡ some ExecutionWalletStatus.draining =
      rw (e, lifecycle) (drained_status v cur ctx keyed drained) in
    let (x, wallet, gone) =
      draining_leaves coupled (start coupled v key ctx).0 cs cur.rotation_from_execution_wallet_id
        (start-keyed coupled v key ctx keyed) left in
    let (q, there, from) = rotation_later coupled v key ctx cs cur valid found in
    (
      kept,
      left,
      left_blocks_start coupled (run coupled (start coupled v key ctx).0 cs) key again q x there
          (rw from wallet) gone,
    )
