-- ===== src/IntentLedger/Consistency.antt =====
-- The two maps of the ledger agree, whatever calls are made.
use solana_trading_bot.Prelude.{
  same_text, String, ◌≡◌, refl, ◌∙◌, ◌⊎◌, inl, inr, none, some, arith, Bool-cases, Option-cases,
  Option, List, [], ◌∷◌,
}
use solana_trading_bot.Store.{lookup, insert, lookup-insert_self, lookup-insert_new}
use solana_trading_bot.Audit.{Extends, append, append-Extends}
use solana_trading_bot.Store.Evolution.{Every, Every-insert, Evolves-insert}
use solana_trading_bot.IntentLedger.{
  Intent, IntentLedger, NewIntent, Reason, Patch, Checked, validate_new, new_record, store_new,
  insert_intent, create, is_foreign, patch_record, update_status, create_replacement,
  create_intent_ledger, Call, create_call, update_call, replace_call, call, run, audited,
}

-- Every record stands under its id, every indexed key leads to the record that carries it, and every
-- record's key is indexed.
pub record IsValid (s : IntentLedger) : Type 0 where
  pub keyed : Every (λ k r. r.intent_id ≡ k) s.by_id
  pub indexed :
      Every
        (λ key id. (r : Intent) × (lookup id s.by_id ≡ some r) × (r.idempotency_key ≡ key))
        s.by_idem
  pub listed : Every (λ id r. lookup r.idempotency_key s.by_idem ≡ some id) s.by_id

-- What a status update keeps of a record.
pub record Keeps (p q : Intent) : Type 0 where
  pub intent_id_kept : q.intent_id ≡ p.intent_id
  pub intent_type_kept : q.intent_type ≡ p.intent_type
  pub idempotency_key_kept : q.idempotency_key ≡ p.idempotency_key
  pub request_id_kept : q.request_id ≡ p.request_id
  pub created_at_kept : q.created_at ≡ p.created_at
  pub replaces_kept : q.replaces_intent_id ≡ p.replaces_intent_id

pub data Step (s t : IntentLedger) : Type 0 where
  unchanged : t ≡ s → Step s t
  added :
      (rec : Intent)
      → lookup rec.intent_id s.by_id ≡ none
      → lookup rec.idempotency_key s.by_idem ≡ none
      → t ≡ store_new s rec
      → Step s t
  updated :
      (id : String) (p q : Intent)
      → lookup id s.by_id ≡ some p
      → Keeps p q
      → t.by_id ≡ insert id q s.by_id
      → t.by_idem ≡ s.by_idem
      → Extends s.audit t.audit
      → Step s t

pub insert_intent-Step :
    (s : IntentLedger) (intent : NewIntent) (replaces : Option String)
    → Step s (insert_intent s intent replaces).0
unfolding insert_intent
insert_intent-Step s intent replaces = go (validate_new intent) refl
  where
    go :
        (v : Reason ⊎ Checked)
        → validate_new intent ≡ v
        → Step s (insert_intent s intent replaces).0
    go (inl err) e = Step.unchanged (ground arith)
    go (inr c) e = elim (Option-cases (lookup c.idempotency_key s.by_idem)) [
      | inr (old, taken) ↦ Step.unchanged (ground arith)
      | inl new_key ↦ elim (Option-cases (lookup c.intent_id s.by_id)) [
        | inr (old, taken) ↦ Step.unchanged (ground arith)
        | inl new_id ↦ Step.added (new_record intent c replaces) new_id new_key (ground arith)
      ]
    ]

pub create-Step : (s : IntentLedger) (intent : Option NewIntent) → Step s (create s intent).0
unfolding create
create-Step s none = Step.unchanged refl
create-Step s (some intent) = insert_intent-Step s intent none

pub update_status-Step :
    (s : IntentLedger) (id : String) (patch : Patch) → Step s (update_status s id patch).0
unfolding update_status
update_status-Step s id patch = elim (Option-cases (lookup id s.by_id)) [
  | inl missing ↦ Step.unchanged (ground arith)
  | inr (cur, found) ↦ elim (Bool-cases (is_foreign patch.bundle_status)) [
    | inl bad ↦ Step.unchanged (ground arith)
    | inr fine ↦ elim (Bool-cases (is_foreign patch.failure_type)) [
      | inl bad ↦ Step.unchanged (ground arith)
      | inr right ↦
          Step.updated id cur (patch_record patch cur) found (ground arith) (ground arith)
            (ground arith)
            (let e : (update_status s id patch).0.audit
                  ≡ append s.audit (audited cur.idempotency_key none) =
                ground arith in
              rw e (append-Extends s.audit _))
    ]
  ]
]

pub create_replacement-Step :
    (s : IntentLedger) (id : String) (replacement : Option NewIntent)
    → Step s (create_replacement s id replacement).0
unfolding create_replacement
create_replacement-Step s id replacement = elim (Option-cases (lookup id s.by_id)) [
  | inl missing ↦ Step.unchanged (ground arith)
  | inr (orig, found) ↦ elim (Option-cases replacement) [
    | inl missing ↦ Step.unchanged (ground arith)
    | inr (r, given_r) ↦ elim (Bool-cases (same_text r.intent_id id)) [
      | inl same ↦ Step.unchanged (ground arith)
      | inr new_id ↦ elim (Bool-cases (same_text r.idempotency_key orig.idempotency_key)) [
        | inl same ↦ Step.unchanged (ground arith)
        | inr new_key ↦
            let e : (create_replacement s id replacement).0 ≡ (insert_intent s r (some id)).0 =
              ground arith in
            rw e (insert_intent-Step s r (some id))
      ]
    ]
  ]
]

pub call-Step : (s : IntentLedger) (c : Call) → Step s (call s c)
unfolding call
call-Step s (create_call intent) = create-Step s intent
call-Step s (update_call id patch) = update_status-Step s id patch
call-Step s (replace_call id replacement) = create_replacement-Step s id replacement

added-IsValid :
    (s : IntentLedger) (rec : Intent)
    → lookup rec.intent_id s.by_id ≡ none
    → lookup rec.idempotency_key s.by_idem ≡ none
    → IsValid s
    → IsValid (store_new s rec)
unfolding store_new
added-IsValid s rec new_id new_key h = record {
  keyed = Every-insert (λ k r. r.intent_id ≡ k) rec.intent_id rec s.by_id h.keyed refl;
  indexed =
      Every-insert
        (λ key id.
          (r : Intent) × (lookup id (insert rec.intent_id rec s.by_id) ≡ some r)
          × (r.idempotency_key ≡ key))
        rec.idempotency_key rec.intent_id s.by_idem
        (λ key id found.
          let (r, found_r, e) = h.indexed key id found in
          (r, lookup-insert_new rec.intent_id id r rec s.by_id new_id found_r, e))
        (rec, lookup-insert_self rec.intent_id rec s.by_id, refl);
  listed =
      Every-insert
        (λ id r.
          lookup r.idempotency_key (insert rec.idempotency_key rec.intent_id s.by_idem) ≡ some id)
        rec.intent_id rec s.by_id
        (λ id r found.
          lookup-insert_new rec.idempotency_key r.idempotency_key id rec.intent_id s.by_idem new_key
            (h.listed id r found))
        (lookup-insert_self rec.idempotency_key rec.intent_id s.by_idem);
}

updated-IsValid :
    (s t : IntentLedger) (id : String) (p q : Intent)
    → lookup id s.by_id ≡ some p
    → Keeps p q
    → t.by_id ≡ insert id q s.by_id
    → t.by_idem ≡ s.by_idem
    → IsValid s
    → IsValid t
updated-IsValid s t id p q found k e f h = record {
  keyed = rw e (
      Every-insert (λ k r. r.intent_id ≡ k) id q s.by_id h.keyed
        (k.intent_id_kept ∙ h.keyed id p found));
  indexed =
      rw (e, f)
        (λ key i at_key.
          let (r, found_r, same) = h.indexed key i at_key in
          let (r', found_r', kept) =
            Evolves-insert (λ (r : Intent) (r' : Intent). r'.idempotency_key ≡ r.idempotency_key)
              (λ r. refl) id p q s.by_id found k.idempotency_key_kept i r found_r in
          (r', found_r', kept ∙ same));
  listed =
      rw (e, f)
        (Every-insert (λ i r. lookup r.idempotency_key s.by_idem ≡ some i) id q s.by_id h.listed
          (rw k.idempotency_key_kept (h.listed id p found)));
}

pub Step-IsValid : {s t : IntentLedger} → Step s t → IsValid s → IsValid t
Step-IsValid {s} (Step.unchanged e) h = rw e h
Step-IsValid {s} (Step.added rec new_id new_key e) h = rw e (added-IsValid s rec new_id new_key h)
Step-IsValid {s} {t} (Step.updated id p q found k e f x) h =
    updated-IsValid s t id p q found k e f h

pub run-IsValid : (s : IntentLedger) (cs : List Call) → IsValid s → IsValid (run s cs)
unfolding run
run-IsValid s [] h = h
run-IsValid s (c ∷ cs) h = run-IsValid (call s c) cs (Step-IsValid (call-Step s c) h)

pub empty-IsValid : IsValid create_intent_ledger
unfolding lookup
empty-IsValid = record {
  keyed = λ k v h. cc;
  indexed = λ k v h. absurd (cc h);
  listed = λ k v h. cc;
}
