-- ===== src/ExitManager/Submission.antt =====
-- Each submitted result of a request stands for an intent of its own in the ledger.
use solana_trading_bot.Prelude.{
  String, ℕ, ◌+◌, ◌≡◌, ◌≢◌, refl, sym, ◌∙◌, inl, inr, none, some, true, arith, List, [], ◌∷◌, Arg,
  given, is_empty, is_str, includes, is_ok, Reply, ok, refused, coded, Bool-cases, Option-cases,
}
use mathlib.Core.List.{Memᴰ}
use mathlib.Core.List.Memᴰ
use mathlib.Core.Option.{some-injective}
use solana_trading_bot.Ssot.{IntentType}
use solana_trading_bot.Store.{lookup}
use solana_trading_bot.IntentLedger.{
  Intent, IntentLedger, NewIntent, create, create_call, call, run,
}
use solana_trading_bot.IntentLedger.Retention.{
  Later, Later-refl, Later-trans, ledger_retains, create_stands, create_id,
}
use solana_trading_bot.ExitManager.{
  ItemId, PreviewStatus, eligible, blocked, stale, PreviewItem, Manager,
}
use solana_trading_bot.ExitManager.Requests.{
  ResultStatus, submitted, was_blocked, skipped, ExitResult, exit_intent_id, exit_intent,
  request_item, request_items, or_sell, request_fresh, request_batch_exit,
}

create-Later : (s : IntentLedger) (n : NewIntent) → Later s (create s (some n)).0
create-Later s n = unfold run call in ledger_retains s (create_call (some n) ∷ [])

-- An intent of a kind stands in the ledger under the id.
Stands : IntentLedger → IntentType → String → Type 0
Stands s kind id = (rec : Intent) × (lookup id s.by_id ≡ some rec) × (rec.intent_type ≡ kind)

keep-Stands :
    {s t : IntentLedger} (kind : IntentType) (id : String)
    → Later s t
    → Stands s kind id
    → Stands t kind id
unfolding Stands
keep-Stands kind id f (rec, found, of_kind) =
    let (later, there, keeps) = f.intents id rec found in
    (later, there, keeps.intent_type_kept ∙ of_kind)

ok-cases : {R A : Type 0} (r : Reply R A) → is_ok r ≡ true → (a : A) × (r ≡ ok a)
ok-cases (ok a) h = (a, refl)
ok-cases (refused why) h = absurd (ground arith)
ok-cases (coded code why) h = absurd (ground arith)

is_str-given : (x y : String) → is_str (given x) ≡ some y → x ≡ y
is_str-given x y h = elim (Bool-cases (is_empty x)) [
  | inl empty ↦ absurd (ground arith)
  | inr full ↦ some-injective x y (rw full at h)
]

made :
    (s : IntentLedger) (id : ItemId) (seq : ℕ) (preview_id : String) (kind : IntentType)
    → is_ok (create s (some (exit_intent id seq preview_id kind))).1 ≡ true
    → Stands (create s (some (exit_intent id seq preview_id kind))).0 kind (exit_intent_id id seq)
unfolding Stands
made s id seq preview_id kind accepted =
    let n = exit_intent id seq preview_id kind in
    let (made_id, e) = ok-cases (create s (some n)).1 accepted in
    let (rec, found, of_kind) = create_stands s n made_id e in
    let same = is_str-given (exit_intent_id id seq) made_id (create_id s n made_id e) in
    (rec, rw (← same) at found, sym (some-injective _ _ of_kind))

-- A result that is submitted has an intent that stands.
Backed : IntentLedger → IntentType → ExitResult → Type 0
Backed t kind r =
    r.result_status ≡ submitted → (id : String) × (r.intent_id ≡ some id) × Stands t kind id

keep-Backed :
    {s t : IntentLedger} (kind : IntentType) (r : ExitResult)
    → Later s t
    → Backed s kind r
    → Backed t kind r
unfolding Backed
keep-Backed kind r f backed h =
    let (id, named, stands) = backed h in (id, named, keep-Stands kind id f stands)

-- One round, over a ledger.
record Round (preview_id : String) (kind : IntentType) (seq : ℕ) (s : IntentLedger)
    (item : PreviewItem) : Type 0 where
  seq_after : ℕ
  ledger_after : IntentLedger
  result : ExitResult
  steps :
      request_item preview_id kind (record { seq = seq; ledger = some s }) item
      ≡ (record { seq = seq_after; ledger = some ledger_after }, result)
  later : Later s ledger_after
  backed : Backed ledger_after kind result

idle-Round :
    (preview_id : String) (kind : IntentType) (seq : ℕ) (s : IntentLedger) (id : ItemId)
    (st : PreviewStatus) (r : ResultStatus)
    → request_item preview_id kind
        (record { seq = seq; ledger = some s })
        (record { id = id; preview_status = st })
      ≡ (
        record { seq = seq; ledger = some s },
        record { id = id; intent_id = none; result_status = r },
      )
    → r ≢ submitted
    → Round preview_id kind seq s (record { id = id; preview_status = st })
unfolding Backed
idle-Round preview_id kind seq s id st r e h = record {
  seq_after = seq;
  ledger_after = s;
  result = record { id = id; intent_id = none; result_status = r };
  steps = e;
  later = Later-refl s;
  backed = λ q. absurd (h q);
}

round :
    (preview_id : String) (kind : IntentType) (seq : ℕ) (s : IntentLedger) (id : ItemId)
    (st : PreviewStatus)
    → Round preview_id kind seq s (record { id = id; preview_status = st })
unfolding Backed Stands
round preview_id kind seq s id eligible =
    let n = exit_intent id (seq + 1) preview_id kind in
    elim (Bool-cases (is_ok (create s (some n)).1)) [
      | inr refused_it ↦ record {
        seq_after = seq + 1;
        ledger_after = (create s (some n)).0;
        result = record {
          id = id;
          intent_id = some (exit_intent_id id (seq + 1));
          result_status = skipped;
        };
        steps = rw refused_it refl;
        later = create-Later s n;
        backed = λ q. absurd (ground arith);
      }
      | inl accepted ↦ record {
        seq_after = seq + 1;
        ledger_after = (create s (some n)).0;
        result = record {
          id = id;
          intent_id = some (exit_intent_id id (seq + 1));
          result_status = submitted;
        };
        steps = rw accepted refl;
        later = create-Later s n;
        backed =
            λ q. (exit_intent_id id (seq + 1), refl, made s id (seq + 1) preview_id kind accepted);
      }
    ]
round preview_id kind seq s id blocked =
    idle-Round preview_id kind seq s id blocked was_blocked refl (λ q. absurd (ground arith))
round preview_id kind seq s id stale =
    idle-Round preview_id kind seq s id stale skipped refl (λ q. absurd (ground arith))

-- The whole loop, over a ledger.
record Loop (preview_id : String) (kind : IntentType) (seq : ℕ) (s : IntentLedger)
    (items : List PreviewItem) : Type 0 where
  last_seq : ℕ
  last_ledger : IntentLedger
  results : List ExitResult
  steps :
      request_items preview_id kind (record { seq = seq; ledger = some s }) items
      ≡ (record { seq = last_seq; ledger = some last_ledger }, results)
  later : Later s last_ledger
  backed : (r : ExitResult) → Memᴰ r results → Backed last_ledger kind r

loop :
    (preview_id : String) (kind : IntentType) (seq : ℕ) (s : IntentLedger)
    (items : List PreviewItem)
    → Loop preview_id kind seq s items
unfolding request_items
loop preview_id kind seq s [] = record {
  last_seq = seq;
  last_ledger = s;
  results = [];
  steps = refl;
  later = Later-refl s;
  backed = λ r m. absurd (Memᴰ.not-nil m);
}
loop preview_id kind seq s (item ∷ items) =
    let first = round preview_id kind seq s item.id item.preview_status in
    let rest = loop preview_id kind first.seq_after first.ledger_after items in
    record {
      last_seq = rest.last_seq;
      last_ledger = rest.last_ledger;
      results = first.result ∷ rest.results;
      steps = rw (first.steps, rest.steps) refl;
      later = Later-trans s first.ledger_after rest.last_ledger first.later rest.later;
      backed = λ r m. elim (Memᴰ.cases_cons m) [
        | inl same ↦ rw same (keep-Backed kind first.result rest.later first.backed)
        | inr there ↦ rest.backed r there
      ];
    }

-- Each result that an accepted request marks as submitted names an intent that stands in the ledger
-- afterwards, of the requested type; and the ledger keeps what it had.
pub submitted_stand :
    (m : Manager) (s : IntentLedger) (preview_id : Arg String) (intent_type : Arg IntentType)
    (results : List ExitResult) (r : ExitResult)
    → (request_batch_exit m (some s) preview_id intent_type).2 ≡ ok results
    → Memᴰ r results
    → r.result_status ≡ submitted
    → (t : IntentLedger) × (kind : IntentType) × (id : String) × (rec : Intent)
      × ((request_batch_exit m (some s) preview_id intent_type).1 ≡ some t)
      × Later s t
      × (includes (or_sell intent_type) ≡ some kind)
      × (r.intent_id ≡ some id)
      × (lookup id t.by_id ≡ some rec)
      × (rec.intent_type ≡ kind)
unfolding request_batch_exit request_fresh Backed Stands
submitted_stand m s preview_id intent_type results r h there done =
    elim (Option-cases (is_str preview_id)) [
      | inl nameless ↦ absurd (ground arith)
      | inr (pid, named) ↦ elim (Option-cases (lookup pid m.previews)) [
        | inl unknown ↦ absurd (ground arith)
        | inr (p, found) ↦ elim (Bool-cases p.consumed) [
          | inl used ↦ absurd (ground arith)
          | inr fresh ↦ elim (Option-cases (includes (or_sell intent_type))) [
            | inl foreign_kind ↦ absurd (ground arith)
            | inr (kind, known) ↦
                let run_items = loop pid kind m.intent_seq s p.items in
                let steps = run_items.steps in
                let e : request_batch_exit m (some s) preview_id intent_type
                    ≡ request_fresh m (some s) pid p kind =
                  ground arith in
                let answered : run_items.results ≡ results = ground arith in
                let (id, has_id, stand) = run_items.backed r (rw answered there) done in
                let (rec, stands, of_kind) = stand in
                (
                  run_items.last_ledger,
                  kind,
                  id,
                  rec,
                  ground arith,
                  run_items.later,
                  known,
                  has_id,
                  stands,
                  of_kind,
                )
          ]
        ]
      ]
    ]
