-- ===== src/DecisionLedger/Uniqueness.antt =====
-- No two intents have one idempotency key.
use solana_trading_bot.Prelude.{
  String, Bool, true, false, not, ◌&&◌, ◌≡◌, ◌≢◌, ◌⊎◌, refl, sym, ap, ◌∙◌, List, [], ◌∷◌, Option,
  none, some, inl, inr, arith, str_eq, Bool-cases, Option-cases, is_empty,
}
use mathlib.Core.Option.{some-injective}
use solana_trading_bot.Prelude.Values.{Value}
use solana_trading_bot.Store.{
  Store, lookup, insert, contains, lookup-insert, eq_of_str_eq, str_eq_refl,
}
use solana_trading_bot.DecisionLedger.{Intent, spread, key_of, same_key, has_key}
use solana_trading_bot.DecisionLedger.Operations.{
  pending_intent, moved, mark_status, Call, set_call, mark_call,
}
use solana_trading_bot.DecisionLedger.Storage.{IntentStore, empty_book, call, run}
use solana_trading_bot.DecisionLedger.Changes.{
  lookup-spread, Change, kept, claimed, set, created, marked, call-Change,
}

-- A call that gives no stored intent an idempotency key.
unfoldable pub leaves_keys : Call → Bool
leaves_keys (set_call id status extra now) = not (contains "idempotency_key" extra)
leaves_keys (mark_call id mark patch now) = not (contains "idempotency_key" patch)
leaves_keys _ = true

unfoldable pub all_leave_keys : List Call → Bool
all_leave_keys [] = true
all_leave_keys (c ∷ cs) = leaves_keys c && all_leave_keys cs

-- A key is found in the intents that have it.
has_key-lookup :
    (key : Option String) (m : Store Intent) (id : String) (it : Intent)
    → has_key key m ≡ false
    → lookup id m ≡ some it
    → same_key (key_of it) key ≡ false
unfolding has_key lookup
has_key-lookup key [] id it h found = absurd (ground arith)
has_key-lookup key ((j, x) ∷ m) id it h found = elim (Bool-cases (str_eq j id)) [
  | inl same ↦
      let q : x ≡ it = some-injective _ _ (rw same at found) in
      let here : same_key (key_of x) key ≡ false = ground arith in rw (← q) here
  | inr other ↦ has_key-lookup key m id it (ground arith) (rw other at found)
]

-- Two intents with one key are one.
Unique : Store Intent → Type 0
Unique m =
    (i j : String) (x y : Intent) (key : String)
    → lookup i m ≡ some x
    → lookup j m ≡ some y
    → key_of x ≡ some key
    → key_of y ≡ some key
    → i ≡ j

-- The entry that is read after a write is the new one, or an old one.
read_entry :
    (id : String) (new : Intent) (m : Store Intent) (i : String) (x : Intent)
    → lookup i (insert id new m) ≡ some x
    → ((id ≡ i) × (new ≡ x)) ⊎ (lookup i m ≡ some x)
read_entry id new m i x found = elim (Bool-cases (str_eq id i)) [
  | inl same ↦ inl (eq_of_str_eq id i same, some-injective _ _ (rw (lookup-insert, same) at found))
  | inr other ↦ inr (rw (lookup-insert, other) at found)
]

free_apart :
    (new : Intent) (m : Store Intent) (i : String) (x : Intent) (key : String)
    → has_key (key_of new) m ≡ false
    → key_of new ≡ some key
    → lookup i m ≡ some x
    → key_of x ≢ some key
free_apart new m i x key free kn found kx =
    let q = has_key-lookup (key_of new) m i x free found in let r = str_eq_refl key in ground arith

-- A write keeps the keys apart if the new intent has a key that was free, or the key of the intent it
-- stands for.
insert_free :
    (id : String) (new : Intent) (m : Store Intent)
    → has_key (key_of new) m ≡ false
    → Unique m
    → Unique (insert id new m)
unfolding Unique
insert_free id new m free unique i j x y key fi fj kx ky = elim (read_entry id new m i x fi) [
  | inl (ei, ex) ↦ elim (read_entry id new m j y fj) [
    | inl (ej, ey) ↦ sym ei ∙ ej
    | inr old ↦ absurd (free_apart new m j y key free (ap key_of ex ∙ kx) old ky)
  ]
  | inr old_x ↦ elim (read_entry id new m j y fj) [
    | inl (ej, ey) ↦ absurd (free_apart new m i x key free (ap key_of ey ∙ ky) old_x kx)
    | inr old_y ↦ unique i j x y key old_x old_y kx ky
  ]
]

insert_kept :
    (id : String) (old new : Intent) (m : Store Intent)
    → lookup id m ≡ some old
    → key_of new ≡ key_of old
    → Unique m
    → Unique (insert id new m)
unfolding Unique
insert_kept id old new m found same unique i j x y key fi fj kx ky =
    elim (read_entry id new m i x fi) [
      | inl (ei, ex) ↦ elim (read_entry id new m j y fj) [
        | inl (ej, ey) ↦ sym ei ∙ ej
        | inr old_y ↦ sym ei ∙ unique id j old y key found old_y (sym same ∙ ap key_of ex ∙ kx) ky
      ]
      | inr old_x ↦ elim (read_entry id new m j y fj) [
        | inl (ej, ey) ↦ unique i id x old key old_x found kx (sym same ∙ ap key_of ey ∙ ky) ∙ ej
        | inr old_y ↦ unique i j x y key old_x old_y kx ky
      ]
    ]

no_key : (m : Store Intent) → has_key none m ≡ false
unfolding has_key
no_key [] = refl
no_key ((id, it) ∷ m) =
    let rest = no_key m in
    elim (Option-cases (key_of it)) [ inl free ↦ ground arith | inr (key, has) ↦ ground arith ]

set-key :
    (status now : Value) (it extra : Intent)
    → contains "idempotency_key" extra ≡ false
    → key_of (insert "updated_at" now (spread (insert "status" status it) extra)) ≡ key_of it
set-key status now it extra h =
    rw
      (
        lookup-insert,
        lookup-spread "idempotency_key" (insert "status" status it) extra h,
        lookup-insert,
      )
      refl

moved-key :
    (cur patch : Intent) (to : String) (now : Value)
    → contains "idempotency_key" patch ≡ false
    → key_of (moved cur patch to now) ≡ key_of cur
moved-key cur patch to now h =
    rw (lookup-insert, lookup-insert, lookup-spread "idempotency_key" cur patch h) refl

Change-Unique :
    {retryable : List String} {m n : Store Intent} {c : Call}
    → Change retryable m c n
    → leaves_keys c ≡ true
    → Unique m
    → Unique n
unfolding leaves_keys pending_intent lookup
Change-Unique kept h unique = unique
Change-Unique {m = m} (claimed id detail now open_now) h unique =
    insert_free id _ m (no_key m) unique
Change-Unique {m = m} (set id status extra now it found) h unique =
    insert_kept id it _ m found (set-key status now it extra (ground arith)) unique
Change-Unique {m = m} (created given_fields now id fresh free) h unique =
    insert_free id _ m free unique
Change-Unique {m = m} (marked id mark patch now cur found legal) h unique =
    insert_kept id cur _ m found (moved-key cur patch (mark_status mark) now (ground arith)) unique

run-Unique :
    {S : Type 0} (st : IntentStore S) (retryable : List String) (s : S) (cs : List Call)
    → all_leave_keys cs ≡ true
    → Unique (st.read s).value.intents
    → Unique (st.read (run st retryable s cs)).value.intents
unfolding run all_leave_keys
run-Unique st retryable s [] h unique = unique
run-Unique st retryable s (c ∷ cs) h unique =
    run-Unique st retryable (call st retryable s c) cs (ground arith)
      (Change-Unique (call-Change st retryable s c) (ground arith) unique)

start-Unique :
    {S : Type 0} (st : IntentStore S) (s : S)
    → (st.read s).value ≡ empty_book
    → Unique (st.read s).value.intents
unfolding Unique lookup
start-Unique st s empty a b u v k fa = absurd (ground (arith, empty))

-- The key that the loop compares is the text of the field, if it is not empty.
full_key :
    (it : Intent) (key : String)
    → lookup "idempotency_key" it ≡ some (Value.text key)
    → is_empty key ≡ false
    → key_of it ≡ some key
full_key it key has full = rw (has, full) refl

-- In a ledger that calls build from an empty one, where no patch names idempotency_key, two intents whose
-- field idempotency_key is the same text, and not the empty text, have one id, over any store that reads
-- what was written.
pub one_intent_per_key :
    {S : Type 0} (st : IntentStore S) (retryable : List String) (s : S) (cs : List Call)
    (i j : String) (x y : Intent) (key : String)
    → (st.read s).value ≡ empty_book
    → all_leave_keys cs ≡ true
    → lookup i (st.read (run st retryable s cs)).value.intents ≡ some x
    → lookup j (st.read (run st retryable s cs)).value.intents ≡ some y
    → lookup "idempotency_key" x ≡ some (Value.text key)
    → lookup "idempotency_key" y ≡ some (Value.text key)
    → is_empty key ≡ false
    → i ≡ j
unfolding Unique
one_intent_per_key st retryable s cs i j x y key empty h found_x found_y kx ky full =
    run-Unique st retryable s cs h (start-Unique st s empty) i j x y key found_x found_y
      (full_key x key kx full) (full_key y key ky full)
