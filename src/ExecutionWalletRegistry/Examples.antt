-- ===== src/ExecutionWalletRegistry/Examples.antt =====
-- Wallets that are registered, activated, drained and revoked.
use solana_trading_bot.Prelude.{
  ◌≡◌, refl, none, some, given, absent, false, true, List, [], ◌∷◌, ok, arith,
}
use text.Mathlib.TextEquality.{eq_iff}
use solana_trading_bot.Ssot.{ExecutionWalletStatus, CreationMode}
use solana_trading_bot.Store.{lookup, insert}
use solana_trading_bot.ExecutionWalletRegistry.{
  Wallet, Registry, RegisterRequest, has_key_material, mentions, register, transition,
  is_action_allowed, new_entry, new_admission, Call, register_call, transition_call, call, run,
}
use solana_trading_bot.ExecutionWalletRegistry.Graph.{is_leaving}
use solana_trading_bot.ExecutionWalletRegistry.Invariant.{IsValid}
use solana_trading_bot.ExecutionWalletRegistry.Service.{out_of_service_for_good}

abbrev input : RegisterRequest
input = record {
  execution_wallet_id = given "w1";
  execution_wallet_address = none;
  execution_wallet_creation_mode = absent;
  funding_wallet_id = none;
  settlement_wallet_id = none;
  own_fields = "execution_wallet_id" ∷ [];
}

abbrev wallet : ExecutionWalletStatus → Wallet
wallet status = record {
  execution_wallet_id = "w1";
  execution_wallet_address = none;
  execution_wallet_status = status;
  execution_wallet_creation_mode = CreationMode.manual;
  funding_wallet_id = none;
  settlement_wallet_id = none;
}

abbrev registry : ExecutionWalletStatus → Registry
registry status = ("w1", wallet status) ∷ []

registry-IsValid : (status : ExecutionWalletStatus) → IsValid (registry status)
unfolding lookup
registry-IsValid status k w found = ground (arith, eq_iff "w1" k)

registry-found :
    (status : ExecutionWalletStatus) → lookup "w1" (registry status) ≡ some (wallet status)
unfolding lookup
registry-found status = refl

abbrev calls : List Call
calls =
    transition_call "w1" (given ExecutionWalletStatus.active)
    ∷ register_call (some input)
    ∷ transition_call "w1" (given ExecutionWalletStatus.retired)
    ∷ []

accepted : (register [] (some input)).1 ≡ ok "w1"
unfolding register lookup has_key_material mentions
accepted = refl

out_of_service_for_good_example :
    (v : Wallet) × (lookup "w1" (run (registry ExecutionWalletStatus.draining) calls) ≡ some v)
    × (is_leaving v.execution_wallet_status ≡ true)
    × (is_action_allowed
          (run (registry ExecutionWalletStatus.draining) calls)
          "w1"
          (given new_entry)
        ≡ false)
    × (is_action_allowed
          (run (registry ExecutionWalletStatus.draining) calls)
          "w1"
          (given new_admission)
        ≡ false)
out_of_service_for_good_example =
    out_of_service_for_good (registry ExecutionWalletStatus.draining) calls "w1"
      (wallet ExecutionWalletStatus.draining) (registry-IsValid ExecutionWalletStatus.draining)
      (registry-found ExecutionWalletStatus.draining) refl

-- Registered, activated, drained and retired.
retired :
    lookup "w1" (
      run [] (
        register_call (some input)
        ∷ transition_call "w1" (given ExecutionWalletStatus.active)
        ∷ transition_call "w1" (given ExecutionWalletStatus.draining)
        ∷ transition_call "w1" (given ExecutionWalletStatus.retired)
        ∷ []))
    ≡ some (wallet ExecutionWalletStatus.retired)
unfolding run call register transition lookup insert has_key_material mentions
retired = refl
