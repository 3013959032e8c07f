-- ===== src/IntentLedger.antt =====
-- packages/intent-ledger/src/intent-ledger.mjs: intents under an idempotency key. The factory's two
-- maps and its audit sink are the fields of `IntentLedger`.
pub mod Consistency
pub mod Retention
pub mod Replacement
mod Examples
use solana_trading_bot.Prelude.{
  same_text, String, Bool, true, false, Option, none, some, List, [], ◌∷◌, if◌then◌else◌, Arg,
  absent, foreign, inl, inr, ◌⊎◌, given, includes, is_str, is_some, Reply, ok, refused, coded,
  ApiErrorCode, str_eq, ◌||◌,
}
use solana_trading_bot.Ssot.{IntentType, FailureType, BundleStatus}
use solana_trading_bot.Store.{Store, lookup, insert, contains}
use solana_trading_bot.Audit.{AuditLog, append, empty_entry, Entry}

pub record Intent : Type 0 where
  pub intent_id : String
  pub intent_type : IntentType
  pub idempotency_key : String
  pub bundle_status : Option BundleStatus
  pub failure_type : Option FailureType
  pub request_id : Option String
  pub created_at : Option String
  pub replaces_intent_id : Option String
  pub updated_at : Option String

pub record IntentLedger : Type 0 where
  pub by_id : Store Intent
  pub by_idem : Store String
  pub audit : AuditLog

-- The argument of `create`. Its fields beside these are carried along by `...intent` and are read by
-- no operation.
pub record NewIntent : Type 0 where
  pub intent_id : Arg String
  pub intent_type : Arg IntentType
  pub idempotency_key : Arg String
  pub bundle_status : Arg BundleStatus
  pub failure_type : Arg FailureType
  pub request_id : Option String
  pub created_at : Option String
  pub updated_at : Option String

pub record Patch : Type 0 where
  pub bundle_status : Arg BundleStatus
  pub failure_type : Arg FailureType
  pub updated_at : Option String

pub data Reason : Type 0 where
  intent_required intent_id_required invalid_intent_type idempotency_key_required
        invalid_bundle_status invalid_failure_type intent_not_found original_not_found
        replacement_required replacement_requires_new_intent_id
        replacement_requires_new_idempotency_key :
      Reason
  duplicate_command : String → Reason

abbrev pub create_intent_ledger : IntentLedger
create_intent_ledger = record { by_id = []; by_idem = []; audit = [] }

-- `TERMINAL_BUNDLE.has(bundle_status)`
abbrev pub is_terminal_bundle_status : Option BundleStatus → Bool
is_terminal_bundle_status (some BundleStatus.landed) = true
is_terminal_bundle_status (some BundleStatus.failed) = true
is_terminal_bundle_status (some BundleStatus.invalid) = true
is_terminal_bundle_status _ = false

-- `x != null && !VOCABULARY.includes(x)`
abbrev pub is_foreign {ℓ} : {E : Type ℓ} → Arg E → Bool
is_foreign foreign = true
is_foreign _ = false

-- The fields that `validateNew` lets through, as the record that they make.
pub record Checked : Type 0 where
  pub intent_id : String
  pub intent_type : IntentType
  pub idempotency_key : String
  pub bundle_status : Option BundleStatus
  pub failure_type : Option FailureType

-- `validateNew`: the reason, or the fields that were checked.
unfoldable pub validate_new : NewIntent → Reason ⊎ Checked
validate_new intent = elim (is_str intent.intent_id) [
  | none ↦ inl intent_id_required
  | some id ↦ elim (includes intent.intent_type) [
    | none ↦ inl invalid_intent_type
    | some kind ↦ elim (is_str intent.idempotency_key) [
      | none ↦ inl idempotency_key_required
      | some key ↦
          if is_foreign intent.bundle_status
          then inl invalid_bundle_status
          else if is_foreign intent.failure_type
          then inl invalid_failure_type
          else inr (record {
            intent_id = id;
            intent_type = kind;
            idempotency_key = key;
            bundle_status = includes intent.bundle_status;
            failure_type = includes intent.failure_type;
          })
    ]
  ]
]

-- `a ?? b`
abbrev pub or_else {ℓ} : {A : Type ℓ} → Option A → Option A → Option A
or_else none b = b
or_else (some a) b = some a

-- The frozen record that `insert` stores.
unfoldable pub new_record : NewIntent → Checked → Option String → Intent
new_record intent c replaces_id = record {
  intent_id = c.intent_id;
  intent_type = c.intent_type;
  idempotency_key = c.idempotency_key;
  bundle_status = c.bundle_status;
  failure_type = c.failure_type;
  request_id = intent.request_id;
  created_at = intent.created_at;
  replaces_intent_id = replaces_id;
  updated_at = or_else intent.updated_at intent.created_at;
}

-- `audited(entry)`
abbrev pub audited : String → Option String → Entry
audited key request = record empty_entry {
  resource_type = some "intent";
  idempotency_key = some key;
  request_id = request;
}

-- The two writes of `insert` and its audit entry.
unfoldable pub store_new : IntentLedger → Intent → IntentLedger
store_new s rec = record {
  by_id = insert rec.intent_id rec s.by_id;
  by_idem = insert rec.idempotency_key rec.intent_id s.by_idem;
  audit = append s.audit (audited rec.idempotency_key rec.request_id);
}

-- `byIdem.get(key) ?? id`
abbrev existing_intent : Option String → String → String
existing_intent none id = id
existing_intent (some existing) id = existing

unfoldable pub insert_intent :
    IntentLedger → NewIntent → Option String → IntentLedger × Reply Reason String
unfolding validate_new new_record
insert_intent s intent replaces_id = elim (validate_new intent) [
  | inl err ↦ (s, refused err)
  | inr c ↦
      if contains c.idempotency_key s.by_idem || contains c.intent_id s.by_id
      then (
        s,
        coded ApiErrorCode.idempotency_conflict
            (duplicate_command (existing_intent (lookup c.idempotency_key s.by_idem) c.intent_id)),
      )
      else (store_new s (new_record intent c replaces_id), ok c.intent_id)
]

-- `none` is a call with null.
unfoldable pub create : IntentLedger → Option NewIntent → IntentLedger × Reply Reason String
unfolding insert_intent
create s none = (s, refused intent_required)
create s (some intent) = insert_intent s intent none

-- `patch.x ?? cur.x`
abbrev patched {ℓ} : {A : Type ℓ} → Arg A → Option A → Option A
patched (given a) old = some a
patched _ old = old

pub patch_record : Patch → Intent → Intent
patch_record patch cur = record cur {
  bundle_status = patched patch.bundle_status cur.bundle_status;
  failure_type = patched patch.failure_type cur.failure_type;
  updated_at = or_else patch.updated_at cur.updated_at;
}

pub update_status : IntentLedger → String → Patch → IntentLedger × Reply Reason (Unit {0})
unfolding patch_record
update_status s id patch = elim (lookup id s.by_id) [
  | none ↦ (s, refused intent_not_found)
  | some cur ↦
      if is_foreign patch.bundle_status
      then (s, refused invalid_bundle_status)
      else if is_foreign patch.failure_type
      then (s, refused invalid_failure_type)
      else (
        record s {
          by_id = insert id (patch_record patch cur) s.by_id;
          audit = append s.audit (audited cur.idempotency_key none);
        },
        ok tt,
      )
]

-- `isTerminal(id)`
pub is_terminal : IntentLedger → String → Bool
is_terminal s id = elim (lookup id s.by_id) [
  | none ↦ false
  | some rec ↦ is_terminal_bundle_status rec.bundle_status
]

pub create_replacement :
    IntentLedger → String → Option NewIntent → IntentLedger × Reply Reason String
unfolding insert_intent
create_replacement s original_id replacement = elim (lookup original_id s.by_id) [
  | none ↦ (s, refused original_not_found)
  | some orig ↦ elim replacement [
    | none ↦ (s, refused replacement_required)
    | some r ↦
        if same_text r.intent_id original_id
        then (s, refused replacement_requires_new_intent_id)
        else if same_text r.idempotency_key orig.idempotency_key
        then (s, refused replacement_requires_new_idempotency_key)
        else insert_intent s r (some original_id)
  ]
]

pub data Call : Type 0 where
  create_call : Option NewIntent → Call
  update_call : String → Patch → Call
  replace_call : String → Option NewIntent → Call

unfoldable pub call : IntentLedger → Call → IntentLedger
call s (create_call intent) = (create s intent).0
call s (update_call id patch) = (update_status s id patch).0
call s (replace_call id replacement) = (create_replacement s id replacement).0

unfoldable pub run : IntentLedger → List Call → IntentLedger
run s [] = s
run s (c ∷ cs) = run (call s c) cs
