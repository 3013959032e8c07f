-- ===== src/DecisionLedger/Operations.antt =====
-- The operations of the decision ledger. `none` in the place of the saved value is an early return.
use solana_trading_bot.Prelude.{
  String, ℕ, Bool, false, not, ◌&&◌, List, [], ◌∷◌, ◌++◌, Option, none, some, if◌then◌else◌,
  is_some, Arg, is_str, length, map, zero, suc, ltb,
}
use solana_trading_bot.Prelude.Values.{Value}
use solana_trading_bot.Store.{Store, lookup, insert}
use solana_trading_bot.LiveModel.{validate_entity, validate_named, fields}
use solana_trading_bot.LiveModel.Rules.{mentions, is_word}
use solana_trading_bot.LiveModel.Entities.{Entity}
use solana_trading_bot.DecisionLedger.{
  Intent, Entry, Book, Reading, trace_entity_kinds, LedgerError, intent_duplicate, ledger_corrupt,
  invalid_execution_intent, intent_id_exists, idempotent_duplicate, unknown_intent,
  intent_id_required, entry_required, invalid_entry, validate_intent_transition, is_truthy,
  or_value, spread, key_of, has_key,
}

-- An operation's effect: the saved value, and an error if there is one.
abbrev pub Effect : Type 0
Effect = Option Book × Option LedgerError

abbrev pub refuse : LedgerError → Effect
refuse e = (none, some e)

-- `value.intents[id] = it; save(value)`
abbrev pub save_intent : Book → String → Intent → Effect
save_intent b id it = (some (record b { intents = insert id it b.intents }), none)

-- `RETRYABLE.has(existing.status)`
abbrev pub is_retryable : List String → Intent → Bool
is_retryable retryable it = elim (lookup "status" it) [
  | none ↦ false
  | some v ↦ is_word retryable v
]

-- `existing?.notional_charged === true`
abbrev pub was_charged : Option Intent → Bool
was_charged none = false
was_charged (some it) = elim (lookup "notional_charged" it) [
  | some (Value.boolean b) ↦ b
  | _ ↦ false
]

unfoldable pub pending_intent : Option Intent → Value → Value → Intent
pending_intent existing detail now =
    ("status", Value.text "PENDING")
    ∷ ("ts", now)
    ∷ ("detail", detail)
    ∷ ("notional_charged", Value.boolean (was_charged existing))
    ∷ []

-- An existing intent that may not be claimed again.
abbrev pub blocks_claim : List String → Option Intent → Bool
blocks_claim retryable none = false
blocks_claim retryable (some it) = not (is_retryable retryable it)

abbrev pub status_value : Option Intent → Option Value
status_value none = none
status_value (some it) = lookup "status" it

-- `claimIntent(intent_id, detail)`
unfoldable pub claim_intent : List String → Reading → String → Value → Value → Effect
claim_intent retryable r id detail now =
    let existing = lookup id r.value.intents in
    if blocks_claim retryable existing
    then refuse (intent_duplicate (status_value existing))
    else save_intent r.value id (pending_intent existing detail now)

-- `setIntent(intent_id, status, extra)`
unfoldable pub set_intent : Reading → String → Value → Store Value → Value → Effect
set_intent r id status extra now = elim (lookup id r.value.intents) [
  | none ↦ (none, none)
  | some it ↦
      save_intent r.value id (insert "updated_at" now (spread (insert "status" status it) extra))
]

-- The record that `createExecutionIntent` makes.
unfoldable pub created_intent : Store Value → Value → Intent
created_intent given_fields now =
    insert "created_at" (or_value (lookup "created_at" given_fields) now)
      (insert "status" (Value.text "CREATED") given_fields)

-- `record.intent_id`, a text where the record passed `validateEntity`.
abbrev pub id_of : Intent → Option String
id_of it = elim (lookup "intent_id" it) [ some (Value.text id) ↦ some id | _ ↦ none ]

-- `createExecutionIntent` of a record that passed `validateEntity`.
unfoldable pub store_created : Reading → Intent → Effect
store_created r it = if r.corrupt then refuse ledger_corrupt else elim (id_of it) [
  | none ↦ (none, none)
  | some id ↦
      if is_some (lookup id r.value.intents)
      then refuse intent_id_exists
      else if has_key (key_of it) r.value.intents
      then refuse idempotent_duplicate
      else save_intent r.value id it
]

-- `createExecutionIntent(fields)`
unfoldable pub create_execution_intent : Reading → Store Value → Value → Effect
create_execution_intent r given_fields now =
    let it = created_intent given_fields now in
    elim (validate_entity Entity.execution_intent (fields it)) [
      | some failure ↦ refuse (invalid_execution_intent failure)
      | none ↦ store_created r it
    ]

abbrev pub moved : Intent → Store Value → String → Value → Intent
moved cur patch to now =
    insert "updated_at" now (insert "status" (Value.text to) (spread cur patch))

-- `transitionTo(intent_id, to, patch)`
unfoldable pub transition_to : Reading → String → String → Store Value → Value → Effect
transition_to r id to patch now =
    if r.corrupt then refuse ledger_corrupt else elim (lookup id r.value.intents) [
      | none ↦ refuse unknown_intent
      | some cur ↦ elim (validate_intent_transition (lookup "status" cur) to) [
        | some e ↦ refuse e
        | none ↦ save_intent r.value id (moved cur patch to now)
      ]
    ]

-- The statuses that the mark functions move to.
pub data Mark : Type 0 where
  planned signed broadcast confirmed filled : Mark
  failed : Bool → Mark

abbrev pub mark_status : Mark → String
mark_status planned = "PLANNED"
mark_status signed = "SIGNED"
mark_status broadcast = "BROADCAST"
mark_status confirmed = "CONFIRMED"
mark_status filled = "FILLED"
mark_status (failed pre_send) = if pre_send then "FAILED_PRE_SEND" else "FAILED"

-- `markIntentPlanned` and the other mark functions; `patch` is without `pre_send` where it fails.
unfoldable pub mark_intent : Reading → String → Mark → Store Value → Value → Effect
mark_intent r id mark patch now = transition_to r id (mark_status mark) patch now

-- The failure of the entity that an entry says it holds.
abbrev pub entry_failure : Entry → Option LedgerError
entry_failure e = elim e.kind [
  | Value.text kind ↦
      if mentions trace_entity_kinds kind
      then elim (validate_named kind e.payload) [
        | none ↦ none
        | some failure ↦ some (invalid_entry kind failure)
      ]
      else none
  | _ ↦ none
]

abbrev pub trace_of : Book → String → List Entry
trace_of b id = elim (lookup id b.traces) [ none ↦ [] | some es ↦ es ]

-- `appendDecisionTrace(intent_id, entry)`; `none` is an entry that is no object.
unfoldable pub append_decision_trace : Reading → Arg String → Option Entry → Value → Effect
append_decision_trace r intent_id entry now = elim (is_str intent_id) [
  | none ↦ refuse intent_id_required
  | some id ↦ elim entry [
    | none ↦ refuse entry_required
    | some e ↦ elim (entry_failure e) [
      | some error ↦ refuse error
      | none ↦ if r.corrupt then refuse ledger_corrupt else (
        some (record r.value {
          traces =
              insert id (trace_of r.value id ++ record e { at = or_value (some e.at) now } ∷ [])
                r.value.traces;
        }),
        none,
      )
    ]
  ]
]

-- `list.slice(-limit)`; minus zero is zero, which takes the whole list.
unfoldable pub slice_last {ℓ} : {A : Type ℓ} → ℕ → List A → List A
slice_last zero xs = xs
slice_last (suc n) [] = []
slice_last (suc n) (x ∷ xs) =
    let rest = slice_last (suc n) xs in if ltb (suc n) (length (x ∷ xs)) then rest else x ∷ xs

-- `listIntents(limit)`
unfoldable pub list_intents : Book → ℕ → List Intent
list_intents b limit =
    map (λ (e : String × Intent). spread (("intent_id", Value.text e.0) ∷ []) e.1)
      (slice_last limit b.intents)

-- Whether an intent was sent and has a signature.
abbrev pub is_sent : Intent → Bool
is_sent it = elim (lookup "status" it) [
  | none ↦ false
  | some v ↦ is_word ("SENT" ∷ "SENT_UNCONFIRMED" ∷ []) v && is_truthy (lookup "signature" it)
]

pub record PendingIntent : Type 0 where
  pub intent_id : String
  pub status : Option Value
  pub signature : Option Value
  pub payload : Value

-- One element of `pendingIntents()`; a missing detail becomes `{}`.
abbrev pub pending_of : String → Intent → PendingIntent
pending_of id it = record {
  intent_id = id;
  status = lookup "status" it;
  signature = lookup "signature" it;
  payload = or_value (lookup "detail" it) Value.object;
}

-- `pendingIntents()`
pub pending_intents : Store Intent → List PendingIntent
pending_intents [] = []
pending_intents ((id, it) ∷ its) =
    let rest = pending_intents its in if is_sent it then pending_of id it ∷ rest else rest

pub data Call : Type 0 where
  claim_call : String → Value → Value → Call
  set_call : String → Value → Store Value → Value → Call
  create_call : Store Value → Value → Call
  mark_call : String → Mark → Store Value → Value → Call
  trace_call : Arg String → Option Entry → Value → Call

unfoldable pub effect : List String → Reading → Call → Effect
effect retryable r (claim_call id detail now) = claim_intent retryable r id detail now
effect retryable r (set_call id status extra now) = set_intent r id status extra now
effect retryable r (create_call given_fields now) = create_execution_intent r given_fields now
effect retryable r (mark_call id mark patch now) = mark_intent r id mark patch now
effect retryable r (trace_call id entry now) = append_decision_trace r id entry now
