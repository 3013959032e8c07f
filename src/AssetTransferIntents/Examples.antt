-- ===== src/AssetTransferIntents/Examples.antt =====
-- A transfer from wallet a to wallet b that is created, submitted and confirmed.
use solana_trading_bot.Prelude.{ℕ, refl, none, given, absent, List, [], ◌∷◌, Option, arith}
use solana_trading_bot.Prelude.Decimal.{counter_id}
use solana_trading_bot.Ssot.{AssetTransferStatus}
use solana_trading_bot.Store.{lookup, insert}
use solana_trading_bot.Store.Counter.{made-IsFreeAfter}
use solana_trading_bot.Store.Evolution.{Every-insert, Evolves}
use solana_trading_bot.ExecutionWalletRegistry.{Registry}
use solana_trading_bot.AssetTransferIntents.{
  Transfer, Transfers, CreateRequest, create_asset_transfer_intents, Call, create_call,
  simulate_call, call, run,
}
use solana_trading_bot.AssetTransferIntents.Steps.{ne_of_str_eq, call-Step}
use solana_trading_bot.AssetTransferIntents.Ownership.{IsSound, IsValid, ownership_flips-IsValid}
use solana_trading_bot.AssetTransferIntents.History.{
  Follows, IsFresh, empty-IsFresh, Step-IsFresh, transfers_evolve,
}
use solana_trading_bot.AssetTransferIntents.Collision.{Passes}

abbrev request : CreateRequest
request = record {
  context = record {
    audit_actor = given "ops";
    permission_role = given "admin";
    idempotency_key = given "k1";
    request_id = absent;
  };
  asset_transfer_intent_id = absent;
  source_execution_wallet_id = given "a";
  destination_execution_wallet_id = given "b";
  position_owner_wallet_id = given "a";
}

empty-IsValid : IsValid create_asset_transfer_intents
unfolding lookup
empty-IsValid k v found = ground arith

abbrev first : List (Option Registry × Call)
first = (none, create_call request) ∷ []

abbrev rest : List (Option Registry × Call)
rest =
    (none, simulate_call (counter_id "ati-" 1) (given AssetTransferStatus.submitted))
    ∷ (none, simulate_call (counter_id "ati-" 1) (given AssetTransferStatus.confirmed))
    ∷ []

abbrev created : Transfers
created = call create_asset_transfer_intents (none, create_call request)

created-IsValid : IsValid created
unfolding run
created-IsValid = ownership_flips-IsValid create_asset_transfer_intents first empty-IsValid

created-IsFresh : IsFresh created
created-IsFresh =
    Step-IsFresh (call-Step create_asset_transfer_intents (none, create_call request))
      (λ n. ground arith) empty-IsValid empty-IsFresh

ownership_flips-IsValid_example : IsValid (run created rest)
ownership_flips-IsValid_example = ownership_flips-IsValid created rest created-IsValid

transfers_evolve_example : Evolves Follows created.by_id (run created rest).by_id
transfers_evolve_example =
    transfers_evolve created rest created-IsValid created-IsFresh
      (λ n. ground arith, (λ n. ground arith, tt))

abbrev confirmed_transfer : Transfer
confirmed_transfer = record {
  asset_transfer_intent_id = counter_id "ati-" 1;
  asset_transfer_status = AssetTransferStatus.confirmed;
  source_execution_wallet_id = "c";
  destination_execution_wallet_id = "d";
  position_owner_wallet_id = "d";
}

abbrev crowded : ℕ → Transfers
crowded seq = record create_asset_transfer_intents {
  by_id = insert (counter_id "ati-" 1) confirmed_transfer [];
  seq = seq;
}

crowded-IsValid : IsValid (crowded 1)
crowded-IsValid =
    Every-insert IsSound (counter_id "ati-" 1) confirmed_transfer [] empty-IsValid
      (record { keyed = refl; differ = ne_of_str_eq "c" "d" refl; owner = refl })

crowded-IsFresh : IsFresh (crowded 1)
crowded-IsFresh = made-IsFreeAfter "ati-" 0 confirmed_transfer [] empty-IsFresh

request-Passes : Passes none (crowded 0) request "a" "b"
unfolding lookup
request-Passes = record {
  actor = ground arith;
  admin = refl;
  unspent = refl;
  from = refl;
  to = refl;
  differ = refl;
  owner = refl;
  eligible = refl;
}
