-- ===== src/IntentLedger/Replacement.antt =====
-- The retry path: what `createReplacement` accepts.
use solana_trading_bot.Prelude.{
  same_text, String, ◌≡◌, ◌≢◌, refl, inl, inr, ◌⊎◌, none, some, true, false, arith, ok, given,
  str_eq,
}
use solana_trading_bot.Store.{lookup, lookup-insert_self, lookup-insert_new, str_eq_refl}
use solana_trading_bot.IntentLedger.{
  Intent, IntentLedger, NewIntent, Reason, Checked, validate_new, new_record, store_new,
  create_replacement,
}

-- The checked texts are those of the request.
validate_new_given :
    (n : NewIntent) (c : Checked)
    → validate_new n ≡ inr c
    → (n.intent_id ≡ given c.intent_id) × (n.idempotency_key ≡ given c.idempotency_key)
unfolding validate_new
validate_new_given n c e = ground arith

ne_of_str_eq : (x y : String) → str_eq x y ≡ false → x ≢ y
ne_of_str_eq x y h e = let q : str_eq x y ≡ true = rw e (str_eq_refl y) in cc

-- What an accepted replacement has checked and stored.
record Accepted (s : IntentLedger) (o id : String) (orig : Intent) (r : NewIntent) (c : Checked)
    : Type 0 where
  checked : validate_new r ≡ inr c
  named : c.intent_id ≡ id
  fresh_id : lookup c.intent_id s.by_id ≡ none
  fresh_key : lookup c.idempotency_key s.by_idem ≡ none
  other_id : same_text r.intent_id o ≡ false
  other_key : same_text r.idempotency_key orig.idempotency_key ≡ false
  stored : (create_replacement s o (some r)).0 ≡ store_new s (new_record r c (some o))

replacement-Accepted :
    (s : IntentLedger) (o id : String) (orig : Intent) (r : NewIntent)
    → lookup o s.by_id ≡ some orig
    → (create_replacement s o (some r)).1 ≡ ok id
    → (c : Checked) × Accepted s o id orig r c
unfolding create_replacement
replacement-Accepted s o id orig r found h = go (validate_new r) refl
  where
    go : (v : Reason ⊎ Checked) → validate_new r ≡ v → (c : Checked) × Accepted s o id orig r c
    go (inl err) e = ground arith
    go (inr c) e = (c, ground arith)

-- An accepted replacement of a stored intent is a new intent beside the original: no intent had its id and
-- no intent was stored for its idempotency key, it now stands under both, it names the original, whose id
-- and key are others, and the original is as it was.
pub replacement_is_new :
    (s : IntentLedger) (o id : String) (orig : Intent) (r : NewIntent)
    → lookup o s.by_id ≡ some orig
    → (create_replacement s o (some r)).1 ≡ ok id
    → (rec : Intent) × (lookup id s.by_id ≡ none)
      × (lookup rec.idempotency_key s.by_idem ≡ none)
      × (rec.intent_id ≡ id)
      × (lookup id (create_replacement s o (some r)).0.by_id ≡ some rec)
      × (lookup rec.idempotency_key (create_replacement s o (some r)).0.by_idem ≡ some id)
      × (lookup o (create_replacement s o (some r)).0.by_id ≡ some orig)
      × (rec.replaces_intent_id ≡ some o)
      × (rec.intent_id ≢ o)
      × (rec.idempotency_key ≢ orig.idempotency_key)
unfolding store_new new_record
replacement_is_new s o id orig r found h =
    let (c, a) = replacement-Accepted s o id orig r found h in
    let texts = validate_new_given r c a.checked in
    let rec : Intent = new_record r c (some o) in
    (
      rec,
      rw (← a.named) a.fresh_id,
      a.fresh_key,
      a.named,
      rw (a.stored, ← a.named) (lookup-insert_self c.intent_id rec s.by_id),
      rw (a.stored, ← a.named) (lookup-insert_self c.idempotency_key c.intent_id s.by_idem),
      rw a.stored (lookup-insert_new c.intent_id o orig rec s.by_id a.fresh_id found),
      refl,
      ne_of_str_eq c.intent_id o (rw texts.0 at a.other_id),
      ne_of_str_eq c.idempotency_key orig.idempotency_key (rw texts.1 at a.other_key),
    )
