-- ===== src/DecisionLedger/Holding.antt =====
-- An intent whose status has no way on stays as it is.
use solana_trading_bot.Prelude.{
  String, Bool, true, false, not, ◌&&◌, ◌≡◌, ◌≢◌, sym, ap, ◌∙◌, List, [], ◌∷◌, none, some, inl, inr,
  arith, if◌then◌else◌, str_eq, Bool-cases,
}
use mathlib.Core.Option.{some-injective}
use solana_trading_bot.Prelude.Values.{Value}
use solana_trading_bot.Store.{Store, lookup, insert, lookup-insert, eq_of_str_eq}
use solana_trading_bot.LiveModel.Rules.{mentions}
use solana_trading_bot.LiveModel.Vocabulary.{intent_status}
use solana_trading_bot.DecisionLedger.{
  Intent, unknown_from_status, unknown_to_status, illegal_transition, intent_duplicate, targets,
  validate_intent_transition,
}
use solana_trading_bot.DecisionLedger.Operations.{
  blocks_claim, claim_intent, mark_status, Call, set_call,
}
use solana_trading_bot.DecisionLedger.Storage.{IntentStore, call, run}
use solana_trading_bot.DecisionLedger.Changes.{
  Change, kept, claimed, set, created, marked, call-Change,
}

-- A call of `setIntent` on an id.
unfoldable pub sets : String → Call → Bool
sets id (set_call j status extra now) = str_eq j id
sets id _ = false

unfoldable pub none_sets : String → List Call → Bool
none_sets id [] = true
none_sets id (c ∷ cs) = not (sets id c) && none_sets id cs

no_way_on :
    (word to : String)
    → targets word ≡ []
    → validate_intent_transition (some (Value.text word)) to ≢ none
unfolding validate_intent_transition
no_way_on word to h legal =
    refused_last (mentions intent_status word) (mentions intent_status to) (rw h at legal)
  where
    refused_last :
        (known_from known_to : Bool)
        → (if not known_from
            then some unknown_from_status
            else if not known_to
            then some unknown_to_status
            else some illegal_transition)
          ≢ none
    refused_last true true e = absurd (ground arith)
    refused_last true false e = absurd (ground arith)
    refused_last false known e = absurd (ground arith)

blocked :
    (retryable : List String) (m : Store Intent) (id word : String) (it : Intent)
    → lookup id m ≡ some it
    → lookup "status" it ≡ some (Value.text word)
    → mentions retryable word ≡ false
    → blocks_claim retryable (lookup id m) ≡ true
blocked retryable m id word it found status firm = ground arith

-- A write under another id, or none.
other_id :
    (id j : String) (it new : Intent) (m : Store Intent)
    → lookup id m ≡ some it
    → str_eq j id ≡ false
    → lookup id (insert j new m) ≡ some it
other_id id j it new m found other = rw (lookup-insert, other) found

Change-holds :
    {retryable : List String} {m n : Store Intent} {c : Call} (id word : String) (it : Intent)
    → Change retryable m c n
    → lookup id m ≡ some it
    → lookup "status" it ≡ some (Value.text word)
    → targets word ≡ []
    → mentions retryable word ≡ false
    → sets id c ≡ false
    → lookup id n ≡ some it
unfolding sets
Change-holds id word it kept found status last firm free = found
Change-holds {retryable = rs} {m = m} id word it (claimed j detail now open_now) found status last
      firm free =
    elim (Bool-cases (str_eq j id)) [
      | inr other ↦ other_id id j it _ m found other
      | inl same ↦
          let q = blocked rs m id word it found status firm in
          let open_id : blocks_claim rs (lookup id m) ≡ false =
            rw (eq_of_str_eq j id same) at open_now in
          absurd (ground arith)
    ]
Change-holds {m = m} id word it (set j s extra now old there) found status last firm free =
    other_id id j it _ m found free
Change-holds {m = m} id word it (created given_fields now j fresh unused) found status last firm
      free =
    elim (Bool-cases (str_eq j id)) [
      | inr other ↦ other_id id j it _ m found other
      | inl same ↦
          let none_there : lookup id m ≡ none = rw (eq_of_str_eq j id same) at fresh in
          absurd (ground arith)
    ]
Change-holds {m = m} id word it (marked j mark patch now cur there legal) found status last firm
      free =
    elim (Bool-cases (str_eq j id)) [
      | inr other ↦ other_id id j it _ m found other
      | inl same ↦
          let q : cur ≡ it =
            some-injective _ _
              (sym there ∙ ap (λ k. lookup k m) (eq_of_str_eq j id same) ∙ found) in
          let legal_word : validate_intent_transition (some (Value.text word)) (mark_status mark)
              ≡ none =
            rw (q, status) at legal in
          absurd (no_way_on word (mark_status mark) last legal_word)
    ]

-- Over any store that reads what was written, an intent with a status that no transition leaves and no
-- claim retries (such as PENDING or FILLED) stays exactly as it is, whatever is called but setIntent on its
-- id, and each claim of it is refused as a duplicate with this status.
pub held_for_good :
    {S : Type 0} (st : IntentStore S) (retryable : List String) (s : S) (cs : List Call)
    (id word : String) (it : Intent) (detail now : Value)
    → lookup id (st.read s).value.intents ≡ some it
    → lookup "status" it ≡ some (Value.text word)
    → targets word ≡ []
    → mentions retryable word ≡ false
    → none_sets id cs ≡ true
    → (lookup id (st.read (run st retryable s cs)).value.intents ≡ some it)
      × ((claim_intent retryable (st.read (run st retryable s cs)) id detail now).1
          ≡ some (intent_duplicate (some (Value.text word))))
unfolding run none_sets claim_intent
held_for_good st retryable s [] id word it detail now found status last firm none_set =
    (found, ground arith)
held_for_good st retryable s (c ∷ cs) id word it detail now found status last firm none_set =
    held_for_good st retryable (call st retryable s c) cs id word it detail now
      (Change-holds id word it (call-Change st retryable s c) found status last firm (ground arith))
      status last firm (ground arith)
