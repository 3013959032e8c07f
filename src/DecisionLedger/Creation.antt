-- ===== src/DecisionLedger/Creation.antt =====
-- What an accepted `createExecutionIntent` stores, and what a corrupt ledger refuses.
use solana_trading_bot.Prelude.{
  String, Bool, true, false, ◌≡◌, refl, List, Option, none, some, inl, inr, arith, is_some, is_str,
  is_empty, not, ◌&&◌, ◌⊎◌, str_eq, [], ◌∷◌, Bool-cases, Option-cases,
}
use mathlib.Core.List.{Memᴰ}
use solana_trading_bot.Prelude.Values.{Value}
use solana_trading_bot.Store.{
  Store, lookup, insert, lookup-insert, lookup-insert_self, eq_of_str_eq,
}
use solana_trading_bot.LiveModel.{Failure, validate_entity, fields, is_valid, present}
use solana_trading_bot.LiveModel.Rules.{FieldType, required}
use solana_trading_bot.LiveModel.Entities.{Entity, entity_spec}
use solana_trading_bot.LiveModel.Conformance.{
  Satisfies, left_out, plain, listed, Conforms, Conforms-field, validate_entity_iff,
}
use solana_trading_bot.DecisionLedger.{Intent, Book, Reading, full_text, key_of, same_key, has_key}
use solana_trading_bot.DecisionLedger.Operations.{
  created_intent, store_created, create_execution_intent, transition_to, mark_intent,
  append_decision_trace, entry_failure, Call, claim_call, set_call, create_call, mark_call,
  trace_call, effect,
}

-- A call of the canonical interface.
unfoldable pub is_canonical : Call → Bool
is_canonical (claim_call id detail now) = false
is_canonical (set_call id status extra now) = false
is_canonical _ = true

store_refuses :
    (r : Reading) (it : Intent)
    → r.corrupt ≡ true
    → ((store_created r it).0 ≡ none) × (is_some (store_created r it).1 ≡ true)
unfolding store_created
store_refuses r it corrupt = (ground arith, ground arith)

-- On a ledger that is read as corrupt, every call of the canonical interface is refused with an error
-- and saves nothing.
pub corrupt_fails_closed :
    (retryable : List String) (r : Reading) (c : Call)
    → r.corrupt ≡ true
    → is_canonical c ≡ true
    → ((effect retryable r c).0 ≡ none) × (is_some (effect retryable r c).1 ≡ true)
unfolding effect create_execution_intent mark_intent transition_to append_decision_trace
    is_canonical
corrupt_fails_closed retryable r (claim_call id detail now) corrupt h = absurd (ground arith)
corrupt_fails_closed retryable r (set_call id status extra now) corrupt h = absurd (ground arith)
corrupt_fails_closed retryable r (create_call given_fields now) corrupt h =
    elim (Option-cases
      (validate_entity Entity.execution_intent (fields (created_intent given_fields now)))) [
        | inr (failure, faulty) ↦ (ground arith, ground arith)
        | inl right ↦
            let q = store_refuses r (created_intent given_fields now) corrupt in
            (ground arith, ground arith)
      ]
corrupt_fails_closed retryable r (mark_call id mark patch now) corrupt h =
    (ground arith, ground arith)
corrupt_fails_closed retryable r (trace_call id none now) corrupt h = (ground arith, ground arith)
corrupt_fails_closed retryable r (trace_call id (some e) now) corrupt h =
    elim (Option-cases (is_str id)) [
      | inl nameless ↦ (ground arith, ground arith)
      | inr (name, named) ↦ elim (Option-cases (entry_failure e)) [
        | inr (error, faulty) ↦ (ground arith, ground arith)
        | inl sound ↦ (ground arith, ground arith)
      ]
    ]

accepted_is_valid : (o : Option Failure) → o ≡ none → is_valid o ≡ true
accepted_is_valid o h = rw h refl

-- A required text field of a conforming object is a text.
text_of :
    {o : Option Value}
    → Satisfies (required FieldType.string) o
    → (t : String) × (o ≡ some (Value.text t))
text_of (left_out optional) = absurd (ground arith)
text_of (plain (Value.text t) free is_text) = (t, refl)
text_of (plain Value.undefined free is_text) = absurd (ground arith)
text_of (plain Value.null free is_text) = absurd (ground arith)
text_of (plain Value.nan free is_text) = absurd (ground arith)
text_of (plain Value.infinity free is_text) = absurd (ground arith)
text_of (plain Value.negative_infinity free is_text) = absurd (ground arith)
text_of (plain Value.object free is_text) = absurd (ground arith)
text_of (plain Value.array free is_text) = absurd (ground arith)
text_of (plain Value.other free is_text) = absurd (ground arith)
text_of (plain (Value.number n) free is_text) = absurd (ground arith)
text_of (plain (Value.boolean b) free is_text) = absurd (ground arith)
text_of (listed w ws has m is_text) = (w, refl)

-- No intent has this text as its idempotency key.
abbrev pub is_key : String → Option Value → Bool
is_key key (some (Value.text other)) = str_eq other key
is_key key _ = false

abbrev pub all_other_keys : String → Store Intent → Bool
all_other_keys key [] = true
all_other_keys key ((id, it) ∷ its) =
    not (is_key key (lookup "idempotency_key" it)) && all_other_keys key its

empty_key_free : (key : String) → is_empty key ≡ false → str_eq "" key ≡ false
empty_key_free key full = elim (Bool-cases (str_eq "" key)) [
  | inr other ↦ other
  | inl same ↦ let q = eq_of_str_eq "" key same in let e : is_empty key ≡ true = rw (← q) refl in cc
]

other_key :
    (key : String) (o : Option Value)
    → is_empty key ≡ false
    → same_key (full_text o) (some key) ≡ false
    → is_key key o ≡ false
other_key key none full free = refl
other_key key (some (Value.text other)) full free = elim (Bool-cases (is_empty other)) [
  | inr filled ↦ ground arith
  | inl blank ↦ let q : other ≡ "" = eq_of_str_eq other "" blank in rw q (empty_key_free key full)
]
other_key key (some Value.undefined) full free = refl
other_key key (some Value.null) full free = refl
other_key key (some Value.nan) full free = refl
other_key key (some Value.infinity) full free = refl
other_key key (some Value.negative_infinity) full free = refl
other_key key (some Value.object) full free = refl
other_key key (some Value.array) full free = refl
other_key key (some Value.other) full free = refl
other_key key (some (Value.number n)) full free = refl
other_key key (some (Value.boolean b)) full free = refl

-- A key that the loop has not found is no intent's.
free_everywhere :
    (key : String) (m : Store Intent)
    → is_empty key ≡ false
    → has_key (some key) m ≡ false
    → all_other_keys key m ≡ true
unfolding has_key
free_everywhere key [] full free = refl
free_everywhere key ((id, it) ∷ its) full free =
    let rest = free_everywhere key its full (ground arith) in
    let other = other_key key (lookup "idempotency_key" it) full (ground arith) in ground arith

-- What an accepted creation has stored under an id.
pub record Created (r : Reading) (b : Book) (it : Intent) (id : String) : Type 0 where
  pub fresh : lookup id r.value.intents ≡ none
  pub stored : lookup id b.intents ≡ some it
  pub identified : lookup "intent_id" it ≡ some (Value.text id)
  pub status : lookup "status" it ≡ some (Value.text "CREATED")
  pub key : String
  pub keyed : lookup "idempotency_key" it ≡ some (Value.text key)
  pub key_was_free : (is_empty key ≡ true) ⊎ (all_other_keys key r.value.intents ≡ true)

present_text :
    (o : Option Value) (t : String) → present o ≡ some (Value.text t) → o ≡ some (Value.text t)
present_text none t h = absurd (ground arith)
present_text (some Value.undefined) t h = absurd (ground arith)
present_text (some Value.null) t h = absurd (ground arith)
present_text (some (Value.text s)) t h = h
present_text (some Value.nan) t h = absurd (ground arith)
present_text (some Value.infinity) t h = absurd (ground arith)
present_text (some Value.negative_infinity) t h = absurd (ground arith)
present_text (some Value.object) t h = absurd (ground arith)
present_text (some Value.array) t h = absurd (ground arith)
present_text (some Value.other) t h = absurd (ground arith)
present_text (some (Value.number n)) t h = absurd (ground arith)
present_text (some (Value.boolean b)) t h = absurd (ground arith)

intent_keyed :
    (it : Intent)
    → Conforms (entity_spec Entity.execution_intent) it
    → (key : String) × (lookup "idempotency_key" it ≡ some (Value.text key))
intent_keyed it conforms =
    let (key, is_text) = text_of (
      Conforms-field (entity_spec Entity.execution_intent) it "idempotency_key"
        (required FieldType.string) conforms (Memᴰ.tail (Memᴰ.head refl))) in
    (key, present_text (lookup "idempotency_key" it) key is_text)

intent_identified :
    (it : Intent)
    → Conforms (entity_spec Entity.execution_intent) it
    → (id : String) × (lookup "intent_id" it ≡ some (Value.text id))
intent_identified it conforms =
    let (id, is_text) = text_of (
      Conforms-field (entity_spec Entity.execution_intent) it "intent_id"
        (required FieldType.string) conforms (Memᴰ.head refl)) in
    (id, present_text (lookup "intent_id" it) id is_text)

created-status :
    (given_fields : Store Value) (now : Value)
    → lookup "status" (created_intent given_fields now) ≡ some (Value.text "CREATED")
unfolding created_intent
created-status given_fields now = rw (lookup-insert, lookup-insert_self) refl

-- The test of the loop, by the text of the key.
free_key :
    (it : Intent) (key : String) (m : Store Intent)
    → lookup "idempotency_key" it ≡ some (Value.text key)
    → has_key (key_of it) m ≡ false
    → (is_empty key ≡ true) ⊎ (all_other_keys key m ≡ true)
free_key it key m keyed free = elim (Bool-cases (is_empty key)) [
  | inl blank ↦ inl blank
  | inr full ↦
      let q : key_of it ≡ some key = rw (keyed, full) refl in
      inr (free_everywhere key m full (rw q at free))
]

stores :
    (r : Reading) (it : Intent) (id key : String)
    → lookup "intent_id" it ≡ some (Value.text id)
    → lookup "idempotency_key" it ≡ some (Value.text key)
    → lookup "status" it ≡ some (Value.text "CREATED")
    → (store_created r it).1 ≡ none
    → (b : Book) × ((store_created r it).0 ≡ some b) × Created r b it id
unfolding store_created
stores r it id key identified keyed status h = elim (Bool-cases r.corrupt) [
  | inl corrupt ↦ absurd (ground arith)
  | inr sound ↦ elim (Option-cases (lookup id r.value.intents)) [
    | inr (old, found) ↦ absurd (ground arith)
    | inl fresh ↦ elim (Bool-cases (has_key (key_of it) r.value.intents)) [
      | inl taken ↦ absurd (ground arith)
      | inr free ↦ (
        record r.value { intents = insert id it r.value.intents },
        ground arith,
        record {
          fresh = fresh;
          stored = lookup-insert_self id it r.value.intents;
          identified = identified;
          status = status;
          key = key;
          keyed = keyed;
          key_was_free = free_key it key r.value.intents keyed free;
        },
      )
    ]
  ]
]

-- An accepted `createExecutionIntent` saves a ledger that holds, under its own and until then unused id, an
-- intent that conforms to the entity ExecutionIntent and is CREATED. Its idempotency key is a text, and
-- this is the empty text or no intent of the ledger had it.
pub creation_stores :
    (r : Reading) (given_fields : Store Value) (now : Value)
    → (create_execution_intent r given_fields now).1 ≡ none
    → (b : Book) × (id : String) × ((create_execution_intent r given_fields now).0 ≡ some b)
      × Conforms (entity_spec Entity.execution_intent) (created_intent given_fields now)
      × Created r b (created_intent given_fields now) id
unfolding create_execution_intent
creation_stores r given_fields now h =
    let it = created_intent given_fields now in
    elim (Option-cases (validate_entity Entity.execution_intent (fields it))) [
      | inr (failure, faulty) ↦ absurd (ground arith)
      | inl right ↦
          let conforms =
            (validate_entity_iff Entity.execution_intent it).0 (accepted_is_valid _ right) in
          let (id, identified) = intent_identified it conforms in
          let (key, keyed) = intent_keyed it conforms in
          let accepted : (store_created r it).1 ≡ none = ground arith in
          let (b, saved_b, has) =
            stores r it id key identified keyed (created-status given_fields now) accepted in
          (b, id, ground arith, conforms, has)
    ]
