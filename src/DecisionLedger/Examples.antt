-- ===== src/DecisionLedger/Examples.antt =====
-- A ledger in memory: an intent that is created, signed and filled, one that is claimed, and hashes.
use solana_trading_bot.Prelude.{
  ◌≡◌, ◌≢◌, arith, refl, true, false, String, List, [], ◌∷◌, some, none, length, is_some,
}
use solana_trading_bot.Prelude.Values.{Value}
use solana_trading_bot.Store.{Store, lookup, insert}
use solana_trading_bot.LiveModel.{validate_entity, check_fields}
use solana_trading_bot.LiveModel.Entities.{Entity, entity_spec}
use solana_trading_bot.LiveModel.Conformance.{Conforms}
use solana_trading_bot.DecisionLedger.{
  Intent, Book, Reading, intent_duplicate, spread, has_key, targets, validate_intent_transition,
}
use solana_trading_bot.DecisionLedger.Operations.{
  planned, signed, broadcast, confirmed, filled, claim_intent, created_intent, store_created,
  create_execution_intent, transition_to, mark_intent, list_intents, slice_last, Call, claim_call,
  create_call, mark_call, effect,
}
use solana_trading_bot.DecisionLedger.Storage.{memory_store, empty_book, call, run}
use solana_trading_bot.DecisionLedger.Distinct.{one_change_changes_id}
use solana_trading_bot.DecisionLedger.IntentId.{
  join_codes, mix, hash_from, hash, default_intent_id_for,
}
use solana_trading_bot.DecisionLedger.Uniqueness.{leaves_keys, all_leave_keys, one_intent_per_key}
use solana_trading_bot.DecisionLedger.Holding.{sets, none_sets, held_for_good}
use solana_trading_bot.DecisionLedger.Creation.{
  Created, is_canonical, corrupt_fails_closed, creation_stores,
}

abbrev retryable : List String
retryable = "FAILED_PRE_SEND" ∷ "FAILED_SEND" ∷ "FAILED_ON_CHAIN" ∷ []

abbrev now : Value
now = Value.text "2026-01-01T00:00:00.000Z"

abbrev buy : Store Value
buy =
    ("intent_id", Value.text "int_1")
    ∷ ("idempotency_key", Value.text "key-1")
    ∷ ("intent_type", Value.text "BUY_INTENT")
    ∷ ("token_mint", Value.text "mint")
    ∷ []

abbrev calls : List Call
calls =
    create_call buy now
    ∷ mark_call "int_1" planned [] now
    ∷ mark_call "int_1" signed (("signature", Value.text "sig") ∷ []) now
    ∷ mark_call "int_1" broadcast [] now
    ∷ mark_call "int_1" confirmed [] now
    ∷ mark_call "int_1" filled [] now
    ∷ []

abbrev filled_intent : Intent
filled_intent =
    ("intent_id", Value.text "int_1")
    ∷ ("idempotency_key", Value.text "key-1")
    ∷ ("intent_type", Value.text "BUY_INTENT")
    ∷ ("token_mint", Value.text "mint")
    ∷ ("status", Value.text "FILLED")
    ∷ ("created_at", now)
    ∷ ("updated_at", now)
    ∷ ("signature", Value.text "sig")
    ∷ []

abbrev filled_book : Book
filled_book = record { intents = ("int_1", filled_intent) ∷ []; traces = [] }

filled_in_the_end : run memory_store retryable empty_book calls ≡ filled_book
unfolding run call effect create_execution_intent store_created created_intent validate_entity
    check_fields has_key insert lookup mark_intent transition_to validate_intent_transition spread
filled_in_the_end = refl

filled_found :
    lookup "int_1" (run memory_store retryable empty_book calls).intents ≡ some filled_intent
unfolding run call effect create_execution_intent store_created created_intent validate_entity
    check_fields has_key insert lookup mark_intent transition_to validate_intent_transition spread
filled_found = refl

keys_left : all_leave_keys calls ≡ true
unfolding all_leave_keys leaves_keys lookup
keys_left = refl

abbrev first_id : String
first_id = "int_1"

one_intent_per_key_example : first_id ≡ first_id
unfolding lookup
one_intent_per_key_example =
    one_intent_per_key memory_store retryable empty_book calls "int_1" "int_1" filled_intent
      filled_intent "key-1" refl keys_left filled_found filled_found refl refl refl

filled_there : lookup "int_1" filled_book.intents ≡ some filled_intent
unfolding lookup
filled_there = refl

last_status : lookup "status" filled_intent ≡ some (Value.text "FILLED")
unfolding lookup
last_status = refl

no_target : targets "FILLED" ≡ []
unfolding lookup
no_target = refl

no_set :
    none_sets "int_1" (mark_call "int_1" signed [] now ∷ claim_call "int_1" now now ∷ []) ≡ true
unfolding none_sets sets
no_set = refl

held_for_good_example :
    (lookup "int_1"
        (run memory_store retryable filled_book
          (mark_call "int_1" signed [] now ∷ claim_call "int_1" now now ∷ [])).intents
      ≡ some filled_intent)
    × ((claim_intent retryable
          (memory_store.read (
            run memory_store retryable filled_book
              (mark_call "int_1" signed [] now ∷ claim_call "int_1" now now ∷ [])))
          "int_1"
          now
          now).1
        ≡ some (intent_duplicate (some (Value.text "FILLED"))))
held_for_good_example =
    held_for_good memory_store retryable filled_book
      (mark_call "int_1" signed [] now ∷ claim_call "int_1" now now ∷ []) "int_1" "FILLED"
      filled_intent now now filled_there last_status no_target refl no_set

abbrev damaged : Reading
damaged = record { value = filled_book; corrupt = true }

canonical : is_canonical (mark_call "int_1" filled [] now) ≡ true
unfolding is_canonical
canonical = refl

corrupt_fails_closed_example :
    ((effect retryable damaged (mark_call "int_1" filled [] now)).0 ≡ none)
    × (is_some (effect retryable damaged (mark_call "int_1" filled [] now)).1 ≡ true)
corrupt_fails_closed_example =
    corrupt_fails_closed retryable damaged (mark_call "int_1" filled [] now) refl canonical

abbrev blank : Reading
blank = record { value = empty_book; corrupt = false }

accepted : (create_execution_intent blank buy now).1 ≡ none
unfolding create_execution_intent store_created created_intent validate_entity check_fields has_key
    insert lookup
accepted = refl

-- The empty key is never compared: a second intent with it is accepted.
abbrev keyless : Store Value
keyless = insert "idempotency_key" (Value.text "") buy

abbrev keyless_too : Store Value
keyless_too = insert "intent_id" (Value.text "int_2") keyless

one_keyless : (create_execution_intent blank keyless now).1 ≡ none
unfolding create_execution_intent store_created created_intent validate_entity check_fields has_key
    insert lookup
one_keyless = refl

abbrev one_book : Book
one_book = record empty_book { intents = ("int_1", created_intent keyless now) ∷ [] }

two_keyless :
    (create_execution_intent (record { value = one_book; corrupt = false }) keyless_too now).1
    ≡ none
unfolding create_execution_intent store_created created_intent validate_entity check_fields has_key
    insert lookup
two_keyless = refl

creation_stores_example :
    (b : Book) × (id : String) × ((create_execution_intent blank buy now).0 ≡ some b)
    × Conforms (entity_spec Entity.execution_intent) (created_intent buy now)
    × Created blank b (created_intent buy now) id
creation_stores_example = creation_stores blank buy now accepted

-- The hash of the text a, as the FNV reference gives it: af63dc4c8601ec8c.
hash_of_a : hash (join_codes ((97 ∷ []) ∷ [])) ≡ 12638187200555641996
unfolding hash hash_from mix join_codes
hash_of_a = refl

-- The parts a, b and a, c.
one_change_changes_id_example :
    default_intent_id_for ((97 ∷ []) ∷ (98 ∷ []) ∷ [])
    ≢ default_intent_id_for ((97 ∷ []) ∷ (99 ∷ []) ∷ [])
unfolding join_codes
one_change_changes_id_example =
    one_change_changes_id ((97 ∷ []) ∷ (98 ∷ []) ∷ []) ((97 ∷ []) ∷ (99 ∷ []) ∷ []) 98 99
      (97 ∷ 124 ∷ []) [] refl refl (omega arith) (omega arith) tt (λ e. omega (arith, e))

-- A limit of zero takes every intent.
zero_takes_all : length (list_intents filled_book 0) ≡ 1
unfolding list_intents slice_last
zero_takes_all = refl
