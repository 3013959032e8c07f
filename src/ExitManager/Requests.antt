-- ===== src/ExitManager/Requests.antt =====
-- `requestBatchExit`: the loop over the items of a preview, and the calls of the manager.
use solana_trading_bot.Prelude.{
  String, ℕ, true, ◌+◌, List, [], ◌∷◌, Option, none, some, if◌then◌else◌, Arg, absent, given,
  includes, is_str, template, Reply, is_ok, refused, ok,
}
use solana_trading_bot.Prelude.Decimal.{decimal}
use solana_trading_bot.Ssot.{IntentType}
use solana_trading_bot.Store.{lookup, insert}
use solana_trading_bot.PositionLifecycle.{Lifecycle}
use solana_trading_bot.IntentLedger.{IntentLedger, NewIntent, create}
use solana_trading_bot.ExitManager.{
  ItemId, shown, Item, PreviewStatus, eligible, blocked, PreviewItem, Preview, Manager,
  preview_batch_exit,
}

pub data ResultStatus : Type 0 where
  submitted was_blocked skipped : ResultStatus

pub record ExitResult : Type 0 where
  pub id : ItemId
  pub intent_id : Option String
  pub result_status : ResultStatus

pub data Reason : Type 0 where
  invalid_preview unknown_preview stale_or_consumed_preview invalid_intent_type : Reason

abbrev pub exit_intent_id : ItemId → ℕ → String
exit_intent_id id seq = template ("exit-intent-" ∷ shown id ∷ "-" ∷ decimal seq ∷ [])

-- The intent that the loop makes; it has no other fields.
abbrev pub exit_intent : ItemId → ℕ → String → IntentType → NewIntent
exit_intent id seq preview_id kind = record {
  intent_id = given (exit_intent_id id seq);
  intent_type = given kind;
  idempotency_key = given (template ("exit-" ∷ shown id ∷ "-" ∷ preview_id ∷ []));
  bundle_status = absent;
  failure_type = absent;
  request_id = none;
  created_at = none;
  updated_at = none;
}

-- `ledger.create(intent)`, where there is a ledger; the status of the result.
abbrev pub submit : Option IntentLedger → NewIntent → Option IntentLedger × ResultStatus
submit none intent = (none, submitted)
submit (some ledger) intent =
    let (after, reply) = create ledger (some intent) in
    (some after, if is_ok reply then submitted else skipped)

-- What the loop carries along.
pub record Progress : Type 0 where
  pub seq : ℕ
  pub ledger : Option IntentLedger

abbrev pub not_eligible : PreviewStatus → ResultStatus
not_eligible blocked = was_blocked
not_eligible _ = skipped

-- One round of the loop.
abbrev pub request_item : String → IntentType → Progress → PreviewItem → Progress × ExitResult
request_item preview_id kind p item = elim item.preview_status [
  | eligible ↦
      let seq = p.seq + 1 in
      let (ledger, status) = submit p.ledger (exit_intent item.id seq preview_id kind) in
      (
        record { seq = seq; ledger = ledger },
        record {
          id = item.id;
          intent_id = some (exit_intent_id item.id seq);
          result_status = status;
        },
      )
  | other_status ↦
      (p, record { id = item.id; intent_id = none; result_status = not_eligible other_status })
]

-- The loop.
unfoldable pub request_items :
    String → IntentType → Progress → List PreviewItem → Progress × List ExitResult
request_items preview_id kind p [] = (p, [])
request_items preview_id kind p (item ∷ items) =
    let (q, result) = request_item preview_id kind p item in
    let (r, results) = request_items preview_id kind q items in (r, result ∷ results)

-- `intent_type ?? 'SELL_INTENT'`
abbrev pub or_sell : Arg IntentType → Arg IntentType
or_sell absent = given IntentType.sell_intent
or_sell kind = kind

-- The request of a preview that is fresh, with a known intent type.
unfoldable pub request_fresh :
    Manager
    → Option IntentLedger
    → String
    → Preview
    → IntentType
    → Manager × Option IntentLedger × Reply Reason (List ExitResult)
request_fresh m ledger preview_id tracked kind =
    let (p, results) =
      request_items preview_id kind (record { seq = m.intent_seq; ledger = ledger })
        tracked.items in
    (
      record m {
        previews = insert preview_id (record tracked { consumed = true }) m.previews;
        intent_seq = p.seq;
      },
      p.ledger,
      ok results,
    )

-- `requestBatchExit`; an absent id is also the one of a preview that is null.
unfoldable pub request_batch_exit :
    Manager
    → Option IntentLedger
    → Arg String
    → Arg IntentType
    → Manager × Option IntentLedger × Reply Reason (List ExitResult)
request_batch_exit m ledger preview_id intent_type = elim (is_str preview_id) [
  | none ↦ (m, ledger, refused invalid_preview)
  | some id ↦ elim (lookup id m.previews) [
    | none ↦ (m, ledger, refused unknown_preview)
    | some tracked ↦
        if tracked.consumed
        then (m, ledger, refused stale_or_consumed_preview)
        else elim (includes (or_sell intent_type)) [
          | none ↦ (m, ledger, refused invalid_intent_type)
          | some kind ↦ request_fresh m ledger id tracked kind
        ]
  ]
]

-- A call, with the lifecycle or the ledger that it meets.
pub data Call : Type 0 where
  preview_call : Option Lifecycle → List Item → Call
  request_call : Option IntentLedger → Arg String → Arg IntentType → Call

unfoldable pub call : Manager → Call → Manager
call m (preview_call lifecycle positions) = (preview_batch_exit m lifecycle positions).0
call m (request_call ledger preview_id intent_type) =
    (request_batch_exit m ledger preview_id intent_type).0

unfoldable pub run : Manager → List Call → Manager
run m [] = m
run m (c ∷ cs) = run (call m c) cs
