-- ===== src/IntentLedger/Retention.antt =====
-- No call loses an intent, and an idempotency key is spent for good.
use solana_trading_bot.Prelude.{
  String, ◌≡◌, refl, ◌∙◌, sym, ap, inl, inr, ◌⊎◌, none, some, arith, List, [], ◌∷◌, ok, coded,
  includes, is_str, ApiErrorCode,
}
use mathlib.Core.Option.{some-injective}
use solana_trading_bot.Store.{lookup, lookup-insert_self}
use solana_trading_bot.Store.Evolution.{
  Evolves, Evolves-refl, Evolves-trans, Evolves-insert, Evolves-insert_new,
}
use solana_trading_bot.Audit.{Extends, Extends-refl, Extends-trans, append-Extends}
use solana_trading_bot.IntentLedger.{
  Intent, IntentLedger, NewIntent, Reason, duplicate_command, Checked, validate_new, new_record,
  store_new, create, create_intent_ledger, Call, call, run,
}
use solana_trading_bot.IntentLedger.Consistency.{
  Keeps, Step, unchanged, added, updated, call-Step, run-IsValid, empty-IsValid,
}

Keeps-refl : (p : Intent) → Keeps p p
Keeps-refl p = ground arith

Keeps-trans : (p q r : Intent) → Keeps p q → Keeps q r → Keeps p r
Keeps-trans p q r f g = ground arith

Same : String → String → Type 0
Same i j = j ≡ i

-- `t` is a later state of the ledger `s`.
pub record Later (s t : IntentLedger) : Type 0 where
  pub intents : Evolves Keeps s.by_id t.by_id
  pub keys : Evolves (λ i j. j ≡ i) s.by_idem t.by_idem
  pub log : Extends s.audit t.audit

pub Later-refl : (s : IntentLedger) → Later s s
Later-refl s = record {
  intents = Evolves-refl Keeps Keeps-refl s.by_id;
  keys = Evolves-refl (λ i j. j ≡ i) (λ i. refl) s.by_idem;
  log = Extends-refl s.audit;
}

pub Later-trans : (s t u : IntentLedger) → Later s t → Later t u → Later s u
Later-trans s t u f g = record {
  intents = Evolves-trans Keeps Keeps-trans s.by_id t.by_id u.by_id f.intents g.intents;
  keys =
      Evolves-trans (λ i j. j ≡ i) (λ i j k p q. q ∙ p) s.by_idem t.by_idem u.by_idem f.keys g.keys;
  log = Extends-trans s.audit t.audit u.audit f.log g.log;
}

stored-Later :
    (s : IntentLedger) (rec : Intent)
    → lookup rec.intent_id s.by_id ≡ none
    → lookup rec.idempotency_key s.by_idem ≡ none
    → Later s (store_new s rec)
unfolding store_new
stored-Later s rec new_id new_key = record {
  intents = Evolves-insert_new Keeps Keeps-refl rec.intent_id rec s.by_id new_id;
  keys =
      Evolves-insert_new (λ i j. j ≡ i) (λ i. refl) rec.idempotency_key rec.intent_id s.by_idem
        new_key;
  log = append-Extends s.audit _;
}

pub Step-Later : {s t : IntentLedger} → Step s t → Later s t
Step-Later {s} (unchanged e) = rw e (Later-refl s)
Step-Later {s} (added rec new_id new_key e) = rw e (stored-Later s rec new_id new_key)
Step-Later {s} (updated id p q found k e f x) = record {
  intents = rw e (Evolves-insert Keeps Keeps-refl id p q s.by_id found k);
  keys = rw f (Evolves-refl (λ i j. j ≡ i) (λ i. refl) s.by_idem);
  log = x;
}

-- After any sequence of calls every intent is still in the ledger under its id, with its type, its
-- idempotency key, its request, its time of creation and the intent that it replaces; every
-- idempotency key still leads to the same intent; and the audit log has kept all of its entries.
pub ledger_retains : (s : IntentLedger) (cs : List Call) → Later s (run s cs)
unfolding run
ledger_retains s [] = Later-refl s
ledger_retains s (c ∷ cs) =
    Later-trans s (call s c) (run (call s c) cs) (Step-Later (call-Step s c))
      (ledger_retains (call s c) cs)

-- In every ledger that calls build from the empty one, two intents with one idempotency key are the
-- same intent.
pub idempotency_unique :
    (cs : List Call) (i j : String) (p q : Intent)
    → lookup i (run create_intent_ledger cs).by_id ≡ some p
    → lookup j (run create_intent_ledger cs).by_id ≡ some q
    → p.idempotency_key ≡ q.idempotency_key
    → i ≡ j
idempotency_unique cs i j p q found_i found_j e =
    let valid = run-IsValid create_intent_ledger cs empty-IsValid in
    let at_i = valid.listed i p found_i in
    let at_j = valid.listed j q found_j in
    some-injective i j
      (sym at_i ∙ ap (λ k. lookup k (run create_intent_ledger cs).by_idem) e ∙ at_j)

-- What an accepted `create` has checked and stored.
create_stores :
    (s : IntentLedger) (n : NewIntent) (id : String)
    → (create s (some n)).1 ≡ ok id
    → (c : Checked) × (validate_new n ≡ inr c)
      × (c.intent_id ≡ id)
      × ((create s (some n)).0 ≡ store_new s (new_record n c none))
unfolding create
create_stores s n id h = go (validate_new n) refl
  where
    go :
        (v : Reason ⊎ Checked)
        → validate_new n ≡ v
        → (c : Checked) × (validate_new n ≡ inr c)
          × (c.intent_id ≡ id)
          × ((create s (some n)).0 ≡ store_new s (new_record n c none))
    go (inl err) e = ground arith
    go (inr c) e = (c, e, ground arith, ground arith)

-- An accepted `create` puts a record of the asked type under the id.
pub create_stands :
    (s : IntentLedger) (n : NewIntent) (id : String)
    → (create s (some n)).1 ≡ ok id
    → (rec : Intent) × (lookup id (create s (some n)).0.by_id ≡ some rec)
      × (includes n.intent_type ≡ some rec.intent_type)
unfolding store_new new_record validate_new
create_stands s n id h =
    let (c, checked, named, stored) = create_stores s n id h in
    (
      new_record n c none,
      rw stored (rw (← named) (lookup-insert_self c.intent_id (new_record n c none) s.by_id)),
      ground arith,
    )

-- An accepted `create` answers with the id that was asked for.
pub create_id :
    (s : IntentLedger) (n : NewIntent) (id : String)
    → (create s (some n)).1 ≡ ok id
    → is_str n.intent_id ≡ some id
unfolding validate_new
create_id s n id h = let (c, checked, named, stored) = create_stores s n id h in ground arith

-- A known key is refused, with the intent that holds it.
refused_when_known :
    (s : IntentLedger) (n : NewIntent) (c : Checked) (id : String)
    → validate_new n ≡ inr c
    → lookup c.idempotency_key s.by_idem ≡ some id
    → create s (some n) ≡ (s, coded ApiErrorCode.idempotency_conflict (duplicate_command id))
unfolding create
refused_when_known s n c id e known = ground arith

-- Once a `create` was accepted, the same request is refused as a duplicate of the intent that it
-- made, and changes nothing, after any further calls.
pub create_replay :
    (s : IntentLedger) (n : NewIntent) (id : String) (cs : List Call)
    → (create s (some n)).1 ≡ ok id
    → create (run (create s (some n)).0 cs) (some n) ≡ (
      run (create s (some n)).0 cs,
      coded ApiErrorCode.idempotency_conflict (duplicate_command id),
    )
unfolding store_new new_record
create_replay s n id cs h =
    let (c, valid, same, stored) = create_stores s n id h in
    let held : lookup c.idempotency_key (create s (some n)).0.by_idem ≡ some id =
      rw (stored, ← same) (lookup-insert_self c.idempotency_key c.intent_id s.by_idem) in
    let (j, found, e) = (ledger_retains (create s (some n)).0 cs).keys c.idempotency_key id held in
    refused_when_known (run (create s (some n)).0 cs) n c id valid (found ∙ ap some e)
