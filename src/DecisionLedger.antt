-- ===== src/DecisionLedger.antt =====
-- packages/decision-ledger/src/decision-ledger.mjs: intents with a status, and their traces, over a store
-- that is read and written. An operation is a function of what `read()` returns; it answers with the
-- value that it saves, if any. An id is none of the names that every object inherits.
pub mod Operations
pub mod Xor
pub mod IntentId
pub mod Distinct
pub mod Storage
pub mod Changes
pub mod Uniqueness
pub mod Holding
pub mod Creation
mod Examples
use solana_trading_bot.Prelude.{
  String, ℕ, Bool, true, false, not, ◌&&◌, ◌||◌, List, [], ◌∷◌, Option, none, some, if◌then◌else◌,
  is_some, is_empty, str_eq, template, ltb,
}
use solana_trading_bot.Prelude.Values.{Value}
use solana_trading_bot.Store.{Store, lookup, insert}
use solana_trading_bot.LiveModel.{Candidate, FieldError, Failure, validate_entity, fields}
use solana_trading_bot.LiveModel.Rules.{mentions, is_word}
use solana_trading_bot.LiveModel.Vocabulary.{intent_status}

-- An intent, by its own properties.
abbrev pub Intent : Type 0
Intent = Store Value

-- An entry of a trace: its kind, its data and the other properties.
pub record Entry : Type 0 where
  pub kind : Value
  pub payload : Candidate
  pub at : Value
  pub others : Store Value

-- `value`
pub record Book : Type 0 where
  pub intents : Store Intent
  pub traces : Store (List Entry)

-- What `read()` returns.
pub record Reading : Type 0 where
  pub value : Book
  pub corrupt : Bool

-- TRANSITIONS
abbrev pub transitions : Store (List String)
transitions =
    ("CREATED", "CLAIMED" ∷ "PLANNED" ∷ "SIGNED" ∷ "FAILED_PRE_SEND" ∷ "FAILED" ∷ "CANCELLED" ∷ [])
    ∷ ("CLAIMED", "PLANNED" ∷ "SIGNED" ∷ "FAILED_PRE_SEND" ∷ "FAILED" ∷ "CANCELLED" ∷ [])
    ∷ ("PLANNED", "SIGNED" ∷ "FAILED_PRE_SEND" ∷ "FAILED" ∷ "CANCELLED" ∷ [])
    ∷ ("SIGNED", "BROADCAST" ∷ "FAILED_PRE_SEND" ∷ "FAILED" ∷ [])
    ∷ ("BROADCAST", "CONFIRMED" ∷ "FAILED" ∷ [])
    ∷ ("CONFIRMED", "FILLED" ∷ "FAILED" ∷ [])
    ∷ ("FILLED", [])
    ∷ ("FAILED_PRE_SEND", [])
    ∷ ("FAILED", [])
    ∷ ("DUPLICATE", [])
    ∷ ("CANCELLED", [])
    ∷ []

-- TRACE_ENTITY_KINDS
abbrev pub trace_entity_kinds : List String
trace_entity_kinds =
    "Decision" ∷ "ExecutionPlan" ∷ "BroadcastAttempt" ∷ "Confirmation" ∷ "Fill" ∷ "AuditEvent" ∷ []

pub data LedgerError : Type 0 where
  unknown_from_status unknown_to_status illegal_transition ledger_corrupt intent_id_exists
        idempotent_duplicate unknown_intent intent_id_required entry_required :
      LedgerError
  intent_duplicate : Option Value → LedgerError
  invalid_execution_intent : Failure → LedgerError
  invalid_entry : String → Failure → LedgerError

-- `TRANSITIONS[from] || []`
abbrev pub targets : String → List String
targets from = elim (lookup from transitions) [ none ↦ [] | some ws ↦ ws ]

-- `validateIntentTransition(from, to)`; `none` is `{ ok: true }`.
unfoldable pub validate_intent_transition : Option Value → String → Option LedgerError
validate_intent_transition (some (Value.text from)) to =
    if not (mentions intent_status from)
    then some unknown_from_status
    else if not (mentions intent_status to)
    then some unknown_to_status
    else if not (mentions (targets from) to)
    then some illegal_transition
    else none
validate_intent_transition _ to = some unknown_from_status

-- Whether a value counts as true.
abbrev pub is_truthy : Option Value → Bool
is_truthy none = false
is_truthy (some Value.undefined) = false
is_truthy (some Value.null) = false
is_truthy (some Value.nan) = false
is_truthy (some (Value.text s)) = not (is_empty s)
is_truthy (some (Value.number n)) = ltb 0 n.mantissa
is_truthy (some (Value.boolean b)) = b
is_truthy (some _) = true

-- `v || otherwise`
abbrev pub or_value : Option Value → Value → Value
or_value none otherwise = otherwise
or_value (some v) otherwise = if is_truthy (some v) then v else otherwise

-- `{ ...base, ...extra }`
unfoldable pub spread : Intent → Intent → Intent
spread base [] = base
spread base ((key, v) ∷ extra) = spread (insert key v base) extra

-- `obj.key`, where it is a text that is not empty.
abbrev pub full_text : Option Value → Option String
full_text (some (Value.text s)) = if is_empty s then none else some s
full_text _ = none

abbrev pub key_of : Intent → Option String
key_of it = full_text (lookup "idempotency_key" it)

-- `it.idempotency_key && it.idempotency_key === record.idempotency_key`; the key of a record that passed
-- `validateEntity` is a text.
abbrev pub same_key : Option String → Option String → Bool
same_key (some x) (some y) = str_eq x y
same_key _ _ = false

-- The loop over the intents.
unfoldable pub has_key : Option String → Store Intent → Bool
has_key key [] = false
has_key key ((id, it) ∷ its) = same_key (key_of it) key || has_key key its

-- `getIntent`
abbrev pub get_intent : Book → String → Option Intent
get_intent b id = lookup id b.intents
