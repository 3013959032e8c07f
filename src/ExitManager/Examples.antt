-- ===== src/ExitManager/Examples.antt =====
-- Two positions: one is exited with an intent in the ledger, one is closed already.
use solana_trading_bot.Prelude.{
  String, template, ◌≡◌, refl, true, false, List, [], ◌∷◌, some, none, given, absent, includes,
  is_ok, refused, ok,
}
use mathlib.Core.List.{Memᴰ}
use solana_trading_bot.Prelude.Decimal.{decimal, text_of, digits_of, digit, counter_id}
use solana_trading_bot.Ssot.{PositionState, IntentType}
use solana_trading_bot.Store.{lookup, insert}
use solana_trading_bot.IntentLedger.{
  Intent, IntentLedger, create_intent_ledger, create, insert_intent, validate_new, new_record,
  store_new,
}
use solana_trading_bot.IntentLedger.Retention.{Later}
use solana_trading_bot.ExitManager.{
  text, state, Item, eligible, blocked, Manager, create_exit_manager, preview_batch_exit,
}
use solana_trading_bot.ExitManager.Requests.{
  submitted, was_blocked, ExitResult, stale_or_consumed_preview, or_sell, exit_intent_id,
  request_items, request_fresh, request_batch_exit, preview_call, call, run,
}
use solana_trading_bot.ExitManager.Consumption.{requested_once}
use solana_trading_bot.ExitManager.Submission.{submitted_stand}

abbrev positions : List Item
positions =
    record { id = text "p1"; position_state = state PositionState.opened }
    ∷ record { id = text "p2"; position_state = state PositionState.closed }
    ∷ []

abbrev previewed : Manager
previewed = record {
  previews =
      (
        "preview-1",
        record {
          items =
              record { id = text "p1"; preview_status = eligible }
              ∷ record { id = text "p2"; preview_status = blocked }
              ∷ [];
          consumed = false;
        },
      )
      ∷ [];
  preview_seq = 1;
  intent_seq = 0;
}

abbrev exited : ExitResult
exited = record {
  id = text "p1";
  intent_id = some (exit_intent_id (text "p1") 1);
  result_status = submitted;
}

abbrev left : ExitResult
left = record { id = text "p2"; intent_id = none; result_status = was_blocked }

answered :
    (request_batch_exit previewed (some create_intent_ledger) (given "preview-1") absent).2
    ≡ ok (exited ∷ left ∷ [])
unfolding request_batch_exit request_fresh request_items lookup template create insert_intent
    validate_new new_record store_new decimal text_of digits_of digit insert
answered = refl

submitted_stand_example :
    (t : IntentLedger) × (kind : IntentType) × (id : String) × (rec : Intent) × ((request_batch_exit
        previewed
        (some create_intent_ledger)
        (given "preview-1")
        absent).1
      ≡ some t)
    × Later create_intent_ledger t
    × (includes (or_sell absent) ≡ some kind)
    × (exited.intent_id ≡ some id)
    × (lookup id t.by_id ≡ some rec)
    × (rec.intent_type ≡ kind)
submitted_stand_example =
    submitted_stand previewed create_intent_ledger (given "preview-1") absent (exited ∷ left ∷ [])
      exited answered (Memᴰ.head refl) refl

accepted :
    is_ok
      (request_batch_exit
        (run create_exit_manager (preview_call none positions ∷ []))
        none
        (given "preview-1")
        absent).2
    ≡ true
unfolding run call preview_batch_exit request_batch_exit request_fresh request_items lookup insert
    counter_id decimal text_of digits_of digit
accepted = refl

requested_once_example :
    request_batch_exit
      (run
        (request_batch_exit
          (run create_exit_manager (preview_call none positions ∷ []))
          none
          (given "preview-1")
          absent).0
        (preview_call none [] ∷ []))
      (some create_intent_ledger)
      (given "preview-1")
      (given IntentType.sell_intent)
    ≡ (
      run
          (request_batch_exit
            (run create_exit_manager (preview_call none positions ∷ []))
            none
            (given "preview-1")
            absent).0
          (preview_call none [] ∷ []),
      some create_intent_ledger,
      refused stale_or_consumed_preview,
    )
requested_once_example =
    requested_once (preview_call none positions ∷ []) (preview_call none [] ∷ []) none
      (some create_intent_ledger) (given "preview-1") absent (given IntentType.sell_intent) accepted
