-- ===== src/ExecutionWalletLifecycle/Examples.antt =====
-- Draining and revoking an active wallet.
use solana_trading_bot.Prelude.{
  ◌≡◌, ◌≢◌, ◌↔◌, ◌⊎◌, is_ok, true, refl, none, some, given, absent, [], ◌∷◌, refused, String,
}
use solana_trading_bot.Ssot.{ExecutionWalletStatus, CreationMode}
use solana_trading_bot.Store.{lookup, insert}
use solana_trading_bot.ExecutionWalletRegistry.{Wallet, transition}
use solana_trading_bot.ExecutionWalletLifecycle.{
  drain, Trace, Request, invalid_request, State, run_command,
}
use solana_trading_bot.ExecutionWalletLifecycle.Effects.{
  MayMove, moved_registry, run-effect, accepted_iff_MayMove,
}

abbrev wallet : Wallet
wallet = record {
  execution_wallet_id = "w1";
  execution_wallet_address = none;
  execution_wallet_status = ExecutionWalletStatus.active;
  execution_wallet_creation_mode = CreationMode.manual;
  funding_wallet_id = none;
  settlement_wallet_id = none;
}

abbrev state : State
state = record { registry = ("w1", wallet) ∷ []; audit = [] }

abbrev no_trace : Trace
no_trace = record { request_id = absent; idempotency_key = absent; event_timestamp = absent }

abbrev request : Request
request = record {
  audit_actor = given "alice";
  permission_role = given "admin";
  execution_wallet_id = given "w1";
  trace = some no_trace;
}

abbrev hostile : Request
hostile = record request { trace = none }

request-MayMove : MayMove state drain request "w1" wallet
unfolding lookup
request-MayMove = record { actor = λ e. cc; role = refl; wallet = refl; found = refl; edge = refl }

hostile-MayMove : MayMove state drain hostile "w1" wallet
unfolding lookup
hostile-MayMove = record { actor = λ e. cc; role = refl; wallet = refl; found = refl; edge = refl }

run-effect_example :
    ((run_command state drain (some request)).0.registry ≡ state.registry)
    ⊎ ((id : String) × (w : Wallet) × MayMove state drain request id w
        × ((run_command state drain (some request)).0.registry
            ≡ moved_registry state.registry w drain))
run-effect_example = run-effect state drain request

-- A move that is answered as refused, with no audit entry.
unaudited_move : run_command state drain (some hostile) ≡ (
  record { registry = moved_registry state.registry wallet drain; audit = [] },
  refused invalid_request,
)
unfolding run_command transition lookup insert
unaudited_move = refl

accepted_iff_MayMove_example :
    (is_ok (run_command state drain (some hostile)).1 ≡ true)
    ↔ ((hostile.trace ≢ none) × ((id : String) × (w : Wallet) × MayMove state drain hostile id w))
accepted_iff_MayMove_example = accepted_iff_MayMove state drain hostile
