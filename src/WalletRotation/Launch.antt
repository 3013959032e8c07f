-- ===== src/WalletRotation/Launch.antt =====
-- What an accepted `start` has done to the old wallet, to the transfers and to the rotation.
use solana_trading_bot.Prelude.{
  String, ◌≡◌, refl, ap, ◌∙◌, inl, inr, some, true, arith, Bool, given, is_str, same_text,
  Bool-cases, Option-cases, ok, refused, coded, is_ok, Reply,
}
use solana_trading_bot.Ssot.{WalletRotationStatus, ExecutionWalletStatus}
use solana_trading_bot.Store.{lookup, insert}
use solana_trading_bot.Store.Evolution.{Every}
use solana_trading_bot.ExecutionWalletRegistry.{Wallet, transition}
use solana_trading_bot.ExecutionWalletLifecycle.{State, Command, Request, run_command}
use solana_trading_bot.AssetTransferIntents.{pending_transfer, create_asset_transfer_intent}
use solana_trading_bot.AssetTransferIntents.Acceptance.{create_ok-stored, create_ok-named}
use solana_trading_bot.WalletRotation.{Rotation, World, Context, status_of}
use solana_trading_bot.WalletRotation.Settled.{moved_status}
use solana_trading_bot.WalletRotation.Start.{
  log_step, is_pending, drain_request, transfer_request, transfer_registry, finish_start,
  after_drain, start,
}

pub drain-moves :
    (s : State) (req : Request) (id : String)
    → req.execution_wallet_id ≡ given id
    → is_ok (run_command s Command.drain (some req)).1 ≡ true
    → (x : Wallet) × (lookup id s.registry ≡ some x)
      × ((run_command s Command.drain (some req)).0.registry
          ≡ insert x.execution_wallet_id
              (record x { execution_wallet_status = ExecutionWalletStatus.draining })
              s.registry)
unfolding run_command transition
drain-moves s req id named h = elim (Option-cases (lookup id s.registry)) [
  | inl missing ↦ absurd (ground arith)
  | inr (x, found) ↦ (x, found, ground arith)
]

-- The world in which `start` asks for the transfer.
abbrev pub drained_world : World → Rotation → Context → World
drained_world v cur ctx = record v {
  lifecycle = (run_command v.lifecycle Command.drain (some (drain_request cur ctx))).0;
}

pub start-after_drain :
    (coupled : Bool) (v : World) (key : String) (ctx : Context)
    → is_ok (start coupled v key ctx).1 ≡ true
    → (cur : Rotation) × (lookup key v.by_id ≡ some cur)
      × (is_pending cur.wallet_rotation_status ≡ true)
      × (start coupled v key ctx
          ≡ after_drain coupled
              (drained_world v cur ctx)
              ctx
              cur
              key
              (run_command v.lifecycle Command.drain (some (drain_request cur ctx))).1)
unfolding start log_step
start-after_drain coupled v key ctx h = elim (Option-cases (lookup key v.by_id)) [
  | inl missing ↦ absurd (ground arith)
  | inr (cur, found) ↦ elim (Option-cases (is_str ctx.audit_actor)) [
    | inl anonymous ↦ absurd (ground arith)
    | inr (actor, a) ↦ elim (Bool-cases (same_text ctx.permission_role "admin")) [
      | inr denied ↦ absurd (ground arith)
      | inl admin ↦ elim (Bool-cases (is_pending cur.wallet_rotation_status)) [
        | inr busy ↦ absurd (ground arith)
        | inl idle ↦ (cur, found, idle, ground arith)
      ]
    ]
  ]
]

pub after_drain-ok :
    (coupled : Bool) (w : World) (ctx : Context) (cur : Rotation) (key : String)
    (reply : Reply _ ExecutionWalletStatus)
    → is_ok (after_drain coupled w ctx cur key reply).1 ≡ true
    → (is_ok reply ≡ true)
      × (after_drain coupled w ctx cur key reply
          ≡ finish_start
              (record w {
                transfers =
                    (create_asset_transfer_intent
                      (transfer_registry coupled w)
                      w.transfers
                      (transfer_request cur ctx)).0;
              })
              ctx
              cur
              key
              (create_asset_transfer_intent
                (transfer_registry coupled w)
                w.transfers
                (transfer_request cur ctx)).1)
unfolding log_step
after_drain-ok coupled w ctx cur key (ok status) h = (refl, refl)
after_drain-ok coupled w ctx cur key (refused why) h = absurd (ground arith)
after_drain-ok coupled w ctx cur key (coded code why) h = absurd (ground arith)

finish_start-ok :
    (w : World) (ctx : Context) (cur : Rotation) (key id : String) (reply : Reply _ String)
    → (finish_start w ctx cur key reply).1 ≡ ok id
    → (reply ≡ ok id)
      × ((finish_start w ctx cur key reply).0.by_id
          ≡ insert cur.id
              (record cur {
                wallet_rotation_status = WalletRotationStatus.in_progress;
                asset_transfer_intent_id = some id;
              })
              w.by_id)
      × ((finish_start w ctx cur key reply).0.transfers ≡ w.transfers)
      × ((finish_start w ctx cur key reply).0.lifecycle ≡ w.lifecycle)
unfolding log_step
finish_start-ok w ctx cur key id (ok intent_id) h =
    let q : intent_id ≡ id = ground arith in (ap ok q, rw q refl, refl, refl)
finish_start-ok w ctx cur key id (refused why) h = absurd (ground arith)
finish_start-ok w ctx cur key id (coded code why) h = absurd (ground arith)

given_str : (x y : String) → is_str (given x) ≡ some y → is_str (given x) ≡ some x
given_str x y h = ground arith

-- The transfer that `start` creates.
transfer_created :
    (w : World) (coupled : Bool) (ctx : Context) (cur : Rotation) (id : String)
    → (create_asset_transfer_intent
        (transfer_registry coupled w)
        w.transfers
        (transfer_request cur ctx)).1
      ≡ ok id
    → lookup id
        (create_asset_transfer_intent
          (transfer_registry coupled w)
          w.transfers
          (transfer_request cur ctx)).0.by_id
      ≡ some (
          pending_transfer id cur.rotation_from_execution_wallet_id
            cur.rotation_to_execution_wallet_id)
transfer_created w coupled ctx cur id created =
    let (source, destination, from, to) =
      create_ok-named (transfer_registry coupled w) w.transfers (transfer_request cur ctx)
        (rw created refl) in
    create_ok-stored (transfer_registry coupled w) w.transfers (transfer_request cur ctx)
      cur.rotation_from_execution_wallet_id cur.rotation_to_execution_wallet_id id
      (given_str cur.rotation_from_execution_wallet_id source from)
      (given_str cur.rotation_to_execution_wallet_id destination to) refl created

-- The status of the old wallet after the drain.
pub drained_status :
    (v : World) (cur : Rotation) (ctx : Context)
    → Every (λ id x. x.execution_wallet_id ≡ id) v.lifecycle.registry
    → is_ok (run_command v.lifecycle Command.drain (some (drain_request cur ctx))).1 ≡ true
    → status_of (drained_world v cur ctx) cur.rotation_from_execution_wallet_id
      ≡ some ExecutionWalletStatus.draining
drained_status v cur ctx keyed accepted =
    let (x, found, e) =
      drain-moves v.lifecycle (drain_request cur ctx) cur.rotation_from_execution_wallet_id refl
        accepted in
    rw e (
      moved_status v cur.rotation_from_execution_wallet_id x ExecutionWalletStatus.draining
        (keyed cur.rotation_from_execution_wallet_id x found))

-- If `start` accepts, the rotation was there and pending; it is now in progress with the id that is
-- answered, no other rotation changed, its old wallet is draining, and under that id stands a pending
-- transfer from the old wallet to the new one. This holds if every wallet stands under its id.
pub start_launches :
    (coupled : Bool) (v : World) (key id : String) (ctx : Context)
    → Every (λ k x. x.execution_wallet_id ≡ k) v.lifecycle.registry
    → (start coupled v key ctx).1 ≡ ok id
    → (cur : Rotation) × (lookup key v.by_id ≡ some cur)
      × (is_pending cur.wallet_rotation_status ≡ true)
      × ((start coupled v key ctx).0.by_id
          ≡ insert cur.id
              (record cur {
                wallet_rotation_status = WalletRotationStatus.in_progress;
                asset_transfer_intent_id = some id;
              })
              v.by_id)
      × (status_of (start coupled v key ctx).0 cur.rotation_from_execution_wallet_id
          ≡ some ExecutionWalletStatus.draining)
      × (lookup id (start coupled v key ctx).0.transfers.by_id
          ≡ some (
              pending_transfer id cur.rotation_from_execution_wallet_id
                cur.rotation_to_execution_wallet_id))
start_launches coupled v key id ctx keyed accepted =
    let (cur, found, idle, to_drain) = start-after_drain coupled v key ctx (rw accepted refl) in
    let (drained, to_transfer) =
      after_drain-ok coupled (drained_world v cur ctx) ctx cur key _
        (rw (← to_drain, accepted) refl) in
    let all = to_drain ∙ to_transfer in
    let (created, stored, transfers, lifecycle) =
      finish_start-ok _ ctx cur key id _ (rw all at accepted) in
    (
      cur,
      found,
      idle,
      rw all stored,
      rw (all, lifecycle) (drained_status v cur ctx keyed drained),
      rw (all, transfers) (transfer_created (drained_world v cur ctx) coupled ctx cur id created),
    )
