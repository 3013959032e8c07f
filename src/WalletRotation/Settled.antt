-- ===== src/WalletRotation/Settled.antt =====
-- When a rotation completes, and what it leaves behind.
use mathlib.Core.Option
use solana_trading_bot.Prelude.{
  ◌∙◌, Bool, if◌then◌else◌, String, ◌≡◌, ◌≢◌, refl, inl, inr, none, some, true, false, arith,
  Option, is_str, same_text, Bool-cases, Option-cases, is_ok,
}
use solana_trading_bot.Ssot.{WalletRotationStatus, ExecutionWalletStatus}
use solana_trading_bot.Store.{lookup, insert, lookup-insert_self}
use solana_trading_bot.Store.Evolution.{Every}
use solana_trading_bot.ExecutionWalletRegistry.{Wallet, transition}
use solana_trading_bot.ProfitSweep.{is_confirmed}
use solana_trading_bot.WalletRotation.{Rotation, World, Context, status_of}
use solana_trading_bot.WalletRotation.Start.{log_step}
use solana_trading_bot.WalletRotation.Completion.{
  is_in_progress, transfer_confirmed, is_draining, retire, check_sweep, complete_wallet_rotation,
}

-- The sweep that the caller requires, if any, is named and confirmed.
abbrev pub sweep_settled : World → Context → Bool
sweep_settled w ctx =
    if ctx.require_sweep
    then elim (is_str ctx.sweep_event_id) [
      | none ↦ false
      | some event_id ↦ is_confirmed w.sweep event_id
    ]
    else true

-- What has to hold before a rotation may complete.
pub record MayComplete (w : World) (cur : Rotation) (ctx : Context) : Type 0 where
  pub actor : is_str ctx.audit_actor ≢ none
  pub admin : same_text ctx.permission_role "admin" ≡ true
  pub running : cur.wallet_rotation_status ≡ WalletRotationStatus.in_progress
  pub confirmed : transfer_confirmed w cur.asset_transfer_intent_id ≡ true
  pub swept : sweep_settled w ctx ≡ true

-- The status of the old wallet once the rotation is complete.
abbrev pub retired_status : Option ExecutionWalletStatus → Option ExecutionWalletStatus
retired_status (some ExecutionWalletStatus.draining) = some ExecutionWalletStatus.retired
retired_status status = status

pub retire-ok :
    (w : World) (ctx : Context) (cur : Rotation) (key : String)
    → is_ok (retire w ctx cur key).1 ≡ true
    → (retire w ctx cur key).0.by_id
      ≡ insert cur.id
          (record cur { wallet_rotation_status = WalletRotationStatus.completed })
          w.by_id
unfolding retire log_step
retire-ok w ctx cur key h =
    elim (Bool-cases (is_draining (status_of w cur.rotation_from_execution_wallet_id))) [
      | inl draining ↦ ground arith
      | inr other ↦ ground arith
    ]

pub moved_status :
    (w : World) (id : String) (x : Wallet) (to : ExecutionWalletStatus)
    → x.execution_wallet_id ≡ id
    → Option.map
        (λ (y : Wallet). y.execution_wallet_status)
        (lookup id (
          insert x.execution_wallet_id
            (record x { execution_wallet_status = to })
            w.lifecycle.registry))
      ≡ some to
moved_status w id x to own =
    rw
      (
        own,
        lookup-insert_self id (record x { execution_wallet_id = id; execution_wallet_status = to })
            w.lifecycle.registry,
      )
      refl

-- A draining wallet is retired along the way.
retire-retired :
    (w : World) (ctx : Context) (cur : Rotation) (key : String)
    → Every (λ id x. x.execution_wallet_id ≡ id) w.lifecycle.registry
    → is_draining (status_of w cur.rotation_from_execution_wallet_id) ≡ true
    → status_of (retire w ctx cur key).0 cur.rotation_from_execution_wallet_id
      ≡ some ExecutionWalletStatus.retired
unfolding retire log_step transition
retire-retired w ctx cur key keyed draining =
    elim (Option-cases (lookup cur.rotation_from_execution_wallet_id w.lifecycle.registry)) [
      | inl missing ↦ absurd (ground arith)
      | inr (x, found) ↦
          let own = keyed cur.rotation_from_execution_wallet_id x found in
          let e : (retire w ctx cur key).0.lifecycle.registry
              ≡ insert x.execution_wallet_id
                  (record x { execution_wallet_status = ExecutionWalletStatus.retired })
                  w.lifecycle.registry =
            ground arith in
          rw e (
            moved_status w cur.rotation_from_execution_wallet_id x ExecutionWalletStatus.retired
              own)
    ]

retire-status :
    (w : World) (ctx : Context) (cur : Rotation) (key : String)
    → Every (λ id x. x.execution_wallet_id ≡ id) w.lifecycle.registry
    → status_of (retire w ctx cur key).0 cur.rotation_from_execution_wallet_id
      ≡ retired_status (status_of w cur.rotation_from_execution_wallet_id)
unfolding retire log_step
retire-status w ctx cur key keyed =
    elim (Bool-cases (is_draining (status_of w cur.rotation_from_execution_wallet_id))) [
      | inl draining ↦
          let e = retire-retired w ctx cur key keyed draining in
          let q : status_of w cur.rotation_from_execution_wallet_id
              ≡ some ExecutionWalletStatus.draining =
            ground arith in
          rw (e, q) refl
      | inr other ↦
          let e : (retire w ctx cur key).0.lifecycle.registry ≡ w.lifecycle.registry =
            ground arith in
          let q : retired_status (status_of w cur.rotation_from_execution_wallet_id)
              ≡ status_of w cur.rotation_from_execution_wallet_id =
            ground arith in
          rw (e, q) refl
    ]

pub check_sweep-ok :
    (w : World) (ctx : Context) (cur : Rotation) (key : String)
    → is_ok (check_sweep w ctx cur key).1 ≡ true
    → (check_sweep w ctx cur key ≡ retire w ctx cur key) × (sweep_settled w ctx ≡ true)
unfolding check_sweep log_step
check_sweep-ok w ctx cur key h = elim (Bool-cases ctx.require_sweep) [
  | inr free ↦ (ground arith, ground arith)
  | inl required ↦ elim (Option-cases (is_str ctx.sweep_event_id)) [
    | inl missing ↦ absurd (ground arith)
    | inr (event_id, named) ↦ elim (Bool-cases (is_confirmed w.sweep event_id)) [
      | inr unconfirmed ↦ absurd (ground arith)
      | inl confirmed ↦ (ground arith, ground arith)
    ]
  ]
]

pub complete-check_sweep :
    (w : World) (key : String) (ctx : Context)
    → is_ok (complete_wallet_rotation w key ctx).1 ≡ true
    → (cur : Rotation) × (lookup key w.by_id ≡ some cur)
      × (is_str ctx.audit_actor ≢ none)
      × (same_text ctx.permission_role "admin" ≡ true)
      × (cur.wallet_rotation_status ≡ WalletRotationStatus.in_progress)
      × (transfer_confirmed w cur.asset_transfer_intent_id ≡ true)
      × (complete_wallet_rotation w key ctx ≡ check_sweep w ctx cur key)
unfolding complete_wallet_rotation log_step
complete-check_sweep w key ctx h = elim (Option-cases (lookup key w.by_id)) [
  | inl missing ↦ absurd (ground arith)
  | inr (cur, found) ↦ elim (Option-cases (is_str ctx.audit_actor)) [
    | inl anonymous ↦ absurd (ground arith)
    | inr (actor, a) ↦ elim (Bool-cases (same_text ctx.permission_role "admin")) [
      | inr denied ↦ absurd (ground arith)
      | inl admin ↦ elim (Bool-cases (is_in_progress cur.wallet_rotation_status)) [
        | inr idle ↦ absurd (ground arith)
        | inl running ↦ elim (Bool-cases (transfer_confirmed w cur.asset_transfer_intent_id)) [
          | inr unsettled ↦ absurd (ground arith)
          | inl settled ↦ (cur, found, (λ e. cc), admin, ground arith, settled, ground arith)
        ]
      ]
    ]
  ]
]

-- If `completeWalletRotation` accepts, the rotation was there and in progress, an admin with a name asked,
-- the transfer that the rotation had recorded is confirmed, and so is the sweep if the caller requires
-- one; the rotation is now completed and no other rotation changed, and its old wallet is retired if it
-- was draining and has the status that it had if not. This holds if every wallet stands under its id.
pub completion_settles :
    (w : World) (key : String) (ctx : Context)
    → Every (λ id x. x.execution_wallet_id ≡ id) w.lifecycle.registry
    → is_ok (complete_wallet_rotation w key ctx).1 ≡ true
    → (cur : Rotation) × (lookup key w.by_id ≡ some cur)
      × MayComplete w cur ctx
      × ((complete_wallet_rotation w key ctx).0.by_id
          ≡ insert cur.id
              (record cur { wallet_rotation_status = WalletRotationStatus.completed })
              w.by_id)
      × (status_of (complete_wallet_rotation w key ctx).0 cur.rotation_from_execution_wallet_id
          ≡ retired_status (status_of w cur.rotation_from_execution_wallet_id))
completion_settles w key ctx keyed accepted =
    let (cur, found, actor, admin, running, confirmed, to_sweep) =
      complete-check_sweep w key ctx accepted in
    let (to_retire, swept) = check_sweep-ok w ctx cur key (rw to_sweep at accepted) in
    let all : complete_wallet_rotation w key ctx ≡ retire w ctx cur key = to_sweep ∙ to_retire in
    let may : MayComplete w cur ctx = record {
      actor = actor;
      admin = admin;
      running = running;
      confirmed = confirmed;
      swept = swept;
    } in
    (
      cur,
      found,
      may,
      rw all (retire-ok w ctx cur key (rw all at accepted)),
      rw all (retire-status w ctx cur key keyed),
    )
