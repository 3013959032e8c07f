-- ===== src/IntentLedger/Examples.antt =====
-- Two intents, a status update and a replacement, and the theorems at them.
use solana_trading_bot.Prelude.{
  ◌≡◌, ◌≢◌, refl, none, some, given, absent, List, [], ◌∷◌, ok, coded, ApiErrorCode, String,
}
use solana_trading_bot.Ssot.{IntentType, BundleStatus}
use solana_trading_bot.Store.{lookup, insert}
use solana_trading_bot.IntentLedger.{
  store_new, Intent, IntentLedger, NewIntent, duplicate_command, create_intent_ledger, create,
  create_replacement, Call, create_call, update_call, replace_call, call, run,
}
use solana_trading_bot.IntentLedger.Retention.{
  Later, ledger_retains, idempotency_unique, create_replay,
}
use solana_trading_bot.IntentLedger.Replacement.{replacement_is_new}

abbrev buy : NewIntent
buy = record {
  intent_id = given "i1";
  intent_type = given IntentType.buy_intent;
  idempotency_key = given "k1";
  bundle_status = absent;
  failure_type = absent;
  request_id = none;
  created_at = some "t0";
  updated_at = none;
}

abbrev buy_again : NewIntent
buy_again = record buy { intent_id = given "i2"; idempotency_key = given "k2" }

abbrev buy_record : Intent
buy_record = record {
  intent_id = "i1";
  intent_type = IntentType.buy_intent;
  idempotency_key = "k1";
  bundle_status = none;
  failure_type = none;
  request_id = none;
  created_at = some "t0";
  replaces_intent_id = none;
  updated_at = some "t0";
}

abbrev calls : List Call
calls =
    create_call (some buy)
    ∷ update_call "i1" (record {
      bundle_status = given BundleStatus.failed;
      failure_type = absent;
      updated_at = none;
    })
    ∷ replace_call "i1" (some buy_again)
    ∷ []

ledger_retains_example :
    Later
      (create create_intent_ledger (some buy)).0
      (run (create create_intent_ledger (some buy)).0 calls)
ledger_retains_example = ledger_retains (create create_intent_ledger (some buy)).0 calls

bought :
    lookup "i1" (run create_intent_ledger (create_call (some buy) ∷ [])).by_id ≡ some buy_record
unfolding run call create lookup insert store_new
bought = refl

idempotency_unique_example : ◌≡◌ {A = String} "i1" "i1"
idempotency_unique_example =
    idempotency_unique (create_call (some buy) ∷ []) "i1" "i1" buy_record buy_record bought bought
      refl

accepted : (create create_intent_ledger (some buy)).1 ≡ ok "i1"
unfolding create lookup
accepted = refl

create_replay_example : create (run (create create_intent_ledger (some buy)).0 calls) (some buy) ≡ (
  run (create create_intent_ledger (some buy)).0 calls,
  coded ApiErrorCode.idempotency_conflict (duplicate_command "i1"),
)
create_replay_example = create_replay create_intent_ledger buy "i1" calls accepted

abbrev one_intent : IntentLedger
one_intent = run create_intent_ledger (create_call (some buy) ∷ [])

replaced : (create_replacement one_intent "i1" (some buy_again)).1 ≡ ok "i2"
unfolding run call create create_replacement lookup insert store_new
replaced = refl

replacement_is_new_example :
    (rec : Intent) × (lookup "i2" one_intent.by_id ≡ none)
    × (lookup rec.idempotency_key one_intent.by_idem ≡ none)
    × (rec.intent_id ≡ "i2")
    × (lookup "i2" (create_replacement one_intent "i1" (some buy_again)).0.by_id ≡ some rec)
    × (lookup rec.idempotency_key (create_replacement one_intent "i1" (some buy_again)).0.by_idem
        ≡ some "i2")
    × (lookup "i1" (create_replacement one_intent "i1" (some buy_again)).0.by_id ≡ some buy_record)
    × (rec.replaces_intent_id ≡ some "i1")
    × (rec.intent_id ≢ "i1")
    × (rec.idempotency_key ≢ "k1")
replacement_is_new_example =
    replacement_is_new one_intent "i1" "i2" buy_record buy_again bought replaced
