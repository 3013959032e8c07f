-- ===== src/DecisionLedger/Changes.antt =====
-- How a call changes the intents, and what a spread leaves alone.
use solana_trading_bot.Prelude.{
  String, false, ◌≡◌, refl, List, [], ◌∷◌, Option, none, some, inl, inr, arith, is_str, Arg,
  Bool-cases, Option-cases,
}
use solana_trading_bot.Prelude.Values.{Value}
use solana_trading_bot.Store.{Store, lookup, insert, contains, lookup-insert}
use solana_trading_bot.LiveModel.{validate_entity, fields}
use solana_trading_bot.LiveModel.Entities.{Entity}
use solana_trading_bot.DecisionLedger.{
  Intent, Entry, Book, Reading, spread, key_of, has_key, validate_intent_transition,
}
use solana_trading_bot.DecisionLedger.Operations.{
  blocks_claim, pending_intent, claim_intent, set_intent, created_intent, id_of, store_created,
  create_execution_intent, moved, Mark, mark_status, transition_to, mark_intent, entry_failure,
  append_decision_trace, Call, claim_call, set_call, create_call, mark_call, trace_call, effect,
}
use solana_trading_bot.DecisionLedger.Storage.{IntentStore, call}

-- A spread keeps the value of a key that the second object does not have.
pub lookup-spread :
    (k : String) (base extra : Intent)
    → contains k extra ≡ false
    → lookup k (spread base extra) ≡ lookup k base
unfolding spread lookup
lookup-spread k base [] h = refl
lookup-spread k base ((j, v) ∷ extra) h =
    let rest = lookup-spread k (insert j v base) extra (ground arith) in
    let here = lookup-insert k j v base in ground arith

-- The intents of what is read after an effect.
pub intents_after : Book → Option Book → Store Intent
intents_after b none = b.intents
intents_after b (some saved_book) = saved_book.intents

-- What a call does to the intents.
pub data Change (retryable : List String) (m : Store Intent) : Call → Store Intent → Type 0 where
  kept : {c : Call} → Change retryable m c m
  claimed :
      (id : String) (detail now : Value)
      → blocks_claim retryable (lookup id m) ≡ false
      → Change retryable m
          (claim_call id detail now)
          (insert id (pending_intent (lookup id m) detail now) m)
  set :
      (id : String) (status : Value) (extra : Store Value) (now : Value) (it : Intent)
      → lookup id m ≡ some it
      → Change retryable m
          (set_call id status extra now)
          (insert id (insert "updated_at" now (spread (insert "status" status it) extra)) m)
  created :
      (given_fields : Store Value) (now : Value) (id : String)
      → lookup id m ≡ none
      → has_key (key_of (created_intent given_fields now)) m ≡ false
      → Change retryable m
          (create_call given_fields now)
          (insert id (created_intent given_fields now) m)
  marked :
      (id : String) (mark : Mark) (patch : Store Value) (now : Value) (cur : Intent)
      → lookup id m ≡ some cur
      → validate_intent_transition (lookup "status" cur) (mark_status mark) ≡ none
      → Change retryable m
          (mark_call id mark patch now)
          (insert id (moved cur patch (mark_status mark) now) m)

create-Change :
    (retryable : List String) (r : Reading) (given_fields : Store Value) (now : Value)
    → Change retryable r.value.intents
        (create_call given_fields now)
        (intents_after r.value (store_created r (created_intent given_fields now)).0)
unfolding store_created intents_after
create-Change retryable r given_fields now =
    let it = created_intent given_fields now in
    elim (Bool-cases r.corrupt) [
      | inl corrupt ↦ rw corrupt kept
      | inr sound ↦ elim (Option-cases (id_of it)) [
        | inl nameless ↦ rw (sound, nameless) kept
        | inr (id, named) ↦ elim (Option-cases (lookup id r.value.intents)) [
          | inr (old, found) ↦ rw (sound, named, found) kept
          | inl fresh ↦ elim (Bool-cases (has_key (key_of it) r.value.intents)) [
            | inl taken ↦ rw (sound, named, fresh, taken) kept
            | inr free ↦ rw (sound, named, fresh, free) (created given_fields now id fresh free)
          ]
        ]
      ]
    ]

trace_keeps :
    (r : Reading) (id : Arg String) (entry : Option Entry) (now : Value)
    → intents_after r.value (append_decision_trace r id entry now).0 ≡ r.value.intents
unfolding append_decision_trace intents_after
trace_keeps r id none now = ground arith
trace_keeps r id (some e) now = elim (Option-cases (is_str id)) [
  | inl nameless ↦ ground arith
  | inr (name, named) ↦ elim (Option-cases (entry_failure e)) [
    | inr (error, faulty) ↦ ground arith
    | inl sound ↦ ground arith
  ]
]

-- Every effect is one of the changes.
pub effect-Change :
    (retryable : List String) (r : Reading) (c : Call)
    → Change retryable r.value.intents c (intents_after r.value (effect retryable r c).0)
unfolding effect claim_intent set_intent create_execution_intent mark_intent transition_to
    intents_after
effect-Change retryable r (claim_call id detail now) =
    elim (Bool-cases (blocks_claim retryable (lookup id r.value.intents))) [
      | inl blocked ↦ rw blocked kept
      | inr open_now ↦ rw open_now (claimed id detail now open_now)
    ]
effect-Change retryable r (set_call id status extra now) =
    elim (Option-cases (lookup id r.value.intents)) [
      | inl missing ↦
          let e : intents_after r.value (set_intent r id status extra now).0 ≡ r.value.intents =
            ground arith in
          rw e kept
      | inr (it, found) ↦
          let e : intents_after r.value (set_intent r id status extra now).0
              ≡ insert id (insert "updated_at" now (spread (insert "status" status it) extra))
                  r.value.intents =
            ground arith in
          rw e (set id status extra now it found)
    ]
effect-Change retryable r (create_call given_fields now) =
    elim (Option-cases
      (validate_entity Entity.execution_intent (fields (created_intent given_fields now)))) [
        | inr (failure, faulty) ↦
            let e : intents_after r.value (create_execution_intent r given_fields now).0
                ≡ r.value.intents =
              ground arith in
            rw e kept
        | inl right ↦
            let e : create_execution_intent r given_fields now
                ≡ store_created r (created_intent given_fields now) =
              ground arith in
            rw e (create-Change retryable r given_fields now)
      ]
effect-Change retryable r (mark_call id mark patch now) = elim (Bool-cases r.corrupt) [
  | inl corrupt ↦ rw corrupt kept
  | inr sound ↦ elim (Option-cases (lookup id r.value.intents)) [
    | inl missing ↦ rw (sound, missing) kept
    | inr (cur, found) ↦
        elim (Option-cases (validate_intent_transition (lookup "status" cur) (mark_status mark))) [
          | inr (e, illegal) ↦ rw (sound, found, illegal) kept
          | inl legal ↦ rw (sound, found, legal) (marked id mark patch now cur found legal)
        ]
  ]
]
effect-Change retryable r (trace_call id entry now) = rw (trace_keeps r id entry now) kept

-- After a call over a store, the store holds the intents of the effect.
pub call-intents :
    {S : Type 0} (st : IntentStore S) (retryable : List String) (s : S) (c : Call)
    → (st.read (call st retryable s c)).value.intents
      ≡ intents_after (st.read s).value (effect retryable (st.read s) c).0
unfolding call intents_after
call-intents st retryable s c = elim (Option-cases (effect retryable (st.read s) c).0) [
  | inl nothing_saved ↦ rw nothing_saved refl
  | inr (b, saved_b) ↦ rw (saved_b, st.value_written s b) refl
]

pub call-Change :
    {S : Type 0} (st : IntentStore S) (retryable : List String) (s : S) (c : Call)
    → Change retryable (st.read s).value.intents c (st.read (call st retryable s c)).value.intents
call-Change st retryable s c =
    rw (call-intents st retryable s c) (effect-Change retryable (st.read s) c)
