-- ===== src/WalletRotation/Examples.antt =====
-- A rotation from wallet a to wallet b that is in progress, with its transfer confirmed.
use solana_trading_bot.Prelude.{
  ok, false, ◌≡◌, refl, none, some, given, absent, true, List, [], ◌∷◌, arith, String, is_ok,
}
use solana_trading_bot.Prelude.Decimal.{counter_id}
use text.Mathlib.TextEquality.{eq_iff}
use solana_trading_bot.Ssot.{
  AssetTransferStatus, CreationMode, ExecutionWalletStatus, RotationTrigger, WalletRotationStatus,
}
use solana_trading_bot.Store.{Store, lookup, insert}
use solana_trading_bot.Store.Counter.{empty-IsFreeAfter, made-IsFreeAfter}
use solana_trading_bot.Store.Evolution.{Every, Every-insert, Evolves}
use solana_trading_bot.ExecutionWalletRegistry.{Wallet, transition}
use solana_trading_bot.AssetTransferIntents.{
  Transfer, pending_transfer, create_asset_transfer_intents, create_asset_transfer_intent,
  check_wallets, store_pending, log_and_answer,
}
use solana_trading_bot.ProfitSweep.{create_profit_sweep}
use solana_trading_bot.WalletRotation.{Rotation, World, Context, status_of}
use solana_trading_bot.WalletRotation.Start.{log_step, is_pending, start}
use solana_trading_bot.WalletRotation.Completion.{
  retire, check_sweep, complete_wallet_rotation, Call, fail_call, complete_call, start_call, run,
}
use solana_trading_bot.WalletRotation.Settled.{MayComplete, retired_status, completion_settles}
use solana_trading_bot.WalletRotation.Launch.{start_launches}
use solana_trading_bot.ExecutionWalletLifecycle.{run_command}
use solana_trading_bot.WalletRotation.Stranding.{is_transfer_failure, failed_start_strands}
use solana_trading_bot.WalletRotation.Journey.{Follows, IsValid, rotations_evolve}

abbrev draining : Wallet
draining = record {
  execution_wallet_id = "a";
  execution_wallet_address = none;
  execution_wallet_status = ExecutionWalletStatus.draining;
  execution_wallet_creation_mode = CreationMode.manual;
  funding_wallet_id = none;
  settlement_wallet_id = none;
}

abbrev transfer : Transfer
transfer = record {
  asset_transfer_intent_id = "t1";
  asset_transfer_status = AssetTransferStatus.confirmed;
  source_execution_wallet_id = "a";
  destination_execution_wallet_id = "b";
  position_owner_wallet_id = "b";
}

abbrev rotation : String → WalletRotationStatus → Rotation
rotation id status = record {
  id = id;
  wallet_rotation_status = status;
  rotation_trigger = RotationTrigger.manual;
  rotation_from_execution_wallet_id = "a";
  rotation_to_execution_wallet_id = "b";
  asset_transfer_intent_id = some "t1";
}

abbrev world : Store Rotation → World
world rotations = record {
  lifecycle = record { registry = ("a", draining) ∷ []; audit = [] };
  transfers = record create_asset_transfer_intents { by_id = ("t1", transfer) ∷ [] };
  sweep = record create_profit_sweep { confirmed = ("swp-1", tt) ∷ [] };
  by_id = rotations;
  seq = 1;
  audit = [];
}

abbrev ctx : Context
ctx = record {
  audit_actor = given "ops";
  permission_role = given "admin";
  request_id = absent;
  require_sweep = true;
  sweep_event_id = given "swp-1";
}

abbrev running : World
running = world (("r1", rotation "r1" WalletRotationStatus.in_progress) ∷ [])

wallets_keyed : Every (λ id x. x.execution_wallet_id ≡ id) running.lifecycle.registry
unfolding lookup
wallets_keyed k w found = ground (arith, eq_iff "a" k)

accepted : is_ok (complete_wallet_rotation running "r1" ctx).1 ≡ true
unfolding complete_wallet_rotation check_sweep retire log_step lookup transition
accepted = refl

completion_settles_example :
    (cur : Rotation) × (lookup "r1" running.by_id ≡ some cur)
    × MayComplete running cur ctx
    × ((complete_wallet_rotation running "r1" ctx).0.by_id
        ≡ insert cur.id
            (record cur { wallet_rotation_status = WalletRotationStatus.completed })
            running.by_id)
    × (status_of (complete_wallet_rotation running "r1" ctx).0 cur.rotation_from_execution_wallet_id
        ≡ retired_status (status_of running cur.rotation_from_execution_wallet_id))
completion_settles_example = completion_settles running "r1" ctx wallets_keyed accepted

abbrev first : WalletRotationStatus → World
first status = world (insert (counter_id "rot-" 1) (rotation (counter_id "rot-" 1) status) [])

first-IsValid : (status : WalletRotationStatus) → IsValid (first status)
unfolding lookup
first-IsValid status = record {
  keyed =
      Every-insert (λ k r. r.id ≡ k) (counter_id "rot-" 1) (rotation (counter_id "rot-" 1) status)
        [] (λ k r found. ground arith) refl;
  free =
      made-IsFreeAfter "rot-" 0 (rotation (counter_id "rot-" 1) status) []
        (empty-IsFreeAfter Rotation "rot-" 0);
}

abbrev calls : List Call
calls =
    complete_call (counter_id "rot-" 1) ctx
    ∷ fail_call (counter_id "rot-" 1)
    ∷ start_call (counter_id "rot-" 1) ctx
    ∷ []

rotations_evolve_example :
    Evolves Follows
      (first WalletRotationStatus.in_progress).by_id
      (run true (first WalletRotationStatus.in_progress) calls).by_id
rotations_evolve_example =
    rotations_evolve true (first WalletRotationStatus.in_progress) calls
      (first-IsValid WalletRotationStatus.in_progress)

-- The same rotation before it is started.
abbrev waiting : World
waiting = record (world (("r1", rotation "r1" WalletRotationStatus.pending) ∷ [])) {
  lifecycle = record {
    registry =
        ("a", record draining { execution_wallet_status = ExecutionWalletStatus.active }) ∷ [];
    audit = [];
  };
}

waiting_keyed : Every (λ k x. x.execution_wallet_id ≡ k) waiting.lifecycle.registry
unfolding lookup
waiting_keyed k w found = ground (arith, eq_iff "a" k)

started : (start false waiting "r1" ctx).1 ≡ ok (counter_id "ati-" 1)
unfolding start log_step lookup run_command transition create_asset_transfer_intent check_wallets
    store_pending log_and_answer
started = refl

start_launches_example :
    (cur : Rotation) × (lookup "r1" waiting.by_id ≡ some cur)
    × (is_pending cur.wallet_rotation_status ≡ true)
    × ((start false waiting "r1" ctx).0.by_id
        ≡ insert cur.id
            (record cur {
              wallet_rotation_status = WalletRotationStatus.in_progress;
              asset_transfer_intent_id = some (counter_id "ati-" 1);
            })
            waiting.by_id)
    × (status_of (start false waiting "r1" ctx).0 cur.rotation_from_execution_wallet_id
        ≡ some ExecutionWalletStatus.draining)
    × (lookup (counter_id "ati-" 1) (start false waiting "r1" ctx).0.transfers.by_id
        ≡ some (
            pending_transfer
              (counter_id "ati-" 1)
              cur.rotation_from_execution_wallet_id
              cur.rotation_to_execution_wallet_id))
start_launches_example =
    start_launches false waiting "r1" (counter_id "ati-" 1) ctx waiting_keyed started

-- A start in a world that the counter has filled, whose registry does not have wallet b.
abbrev counted : World
counted = record (first WalletRotationStatus.pending) { lifecycle = waiting.lifecycle }

counted-IsValid : IsValid counted
counted-IsValid =
    let h = first-IsValid WalletRotationStatus.pending in record { keyed = h.keyed; free = h.free }

counted_found :
    lookup (counter_id "rot-" 1) counted.by_id
    ≡ some (rotation (counter_id "rot-" 1) WalletRotationStatus.pending)
unfolding lookup counter_id insert
counted_found = refl

no_transfer : is_transfer_failure (start true counted (counter_id "rot-" 1) ctx).1 ≡ true
unfolding start log_step lookup run_command transition create_asset_transfer_intent check_wallets
    log_and_answer counter_id insert
no_transfer = refl

failed_start_strands_example :
    ((start true counted (counter_id "rot-" 1) ctx).0.by_id ≡ counted.by_id)
    × (status_of (start true counted (counter_id "rot-" 1) ctx).0 "a"
        ≡ some ExecutionWalletStatus.draining)
    × (is_ok
          (start true
            (run true (start true counted (counter_id "rot-" 1) ctx).0 calls)
            (counter_id "rot-" 1)
            ctx).1
        ≡ false)
failed_start_strands_example =
    failed_start_strands true counted (counter_id "rot-" 1) ctx ctx
      (rotation (counter_id "rot-" 1) WalletRotationStatus.pending) calls counted-IsValid
      waiting_keyed counted_found no_transfer
