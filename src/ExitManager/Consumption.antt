-- ===== src/ExitManager/Consumption.antt =====
-- A preview is requested once.
use solana_trading_bot.Prelude.{
  String, ◌+◌, ◌≡◌, ◌⊎◌, refl, ◌∙◌, inl, inr, some, true, false, arith, List, [], ◌∷◌, Option, Arg,
  is_str, includes, is_ok, refused, Bool-cases, Option-cases,
}
use solana_trading_bot.Prelude.Decimal.{counter_id}
use solana_trading_bot.Ssot.{IntentType}
use solana_trading_bot.Store.{lookup, insert, lookup-insert_self}
use solana_trading_bot.Store.Counter.{
  IsFreeAfter, next-free, made-IsFreeAfter, over-IsFreeAfter, empty-IsFreeAfter,
}
use solana_trading_bot.Store.Evolution.{
  Evolves, Evolves-refl, Evolves-trans, Evolves-insert, Evolves-insert_new,
}
use solana_trading_bot.IntentLedger.{IntentLedger}
use solana_trading_bot.ExitManager.{Preview, Manager, create_exit_manager, preview_batch_exit}
use solana_trading_bot.ExitManager.Requests.{
  stale_or_consumed_preview, or_sell, request_fresh, request_batch_exit, Call, preview_call,
  request_call, call, run,
}

-- The preview ids that the counter has yet to make are free.
Fresh : Manager → Type 0
Fresh m = IsFreeAfter "preview-" m.preview_seq m.previews

-- A preview is consumed if it was, and holds the same items.
record Keeps (p q : Preview) : Type 0 where
  same_items : q.items ≡ p.items
  consumption : p.consumed ≡ true → q.consumed ≡ true

Keeps-refl : (p : Preview) → Keeps p p
Keeps-refl p = record { same_items = refl; consumption = λ h. h }

Keeps-trans : (p q r : Preview) → Keeps p q → Keeps q r → Keeps p r
Keeps-trans p q r f g = record {
  same_items = g.same_items ∙ f.same_items;
  consumption = λ h. g.consumption (f.consumption h);
}

-- A request leaves the previews, or marks one as consumed.
request_previews :
    (m : Manager) (ledger : Option IntentLedger) (preview_id : Arg String) (kind : Arg IntentType)
    → (((request_batch_exit m ledger preview_id kind).0.previews ≡ m.previews)
        × (is_ok (request_batch_exit m ledger preview_id kind).2 ≡ false))
      ⊎ ((id : String) × (p : Preview) × (is_str preview_id ≡ some id)
          × (lookup id m.previews ≡ some p)
          × ((request_batch_exit m ledger preview_id kind).0.previews
              ≡ insert id (record p { consumed = true }) m.previews))
unfolding request_batch_exit request_fresh
request_previews m ledger preview_id kind = elim (Option-cases (is_str preview_id)) [
  | inl nameless ↦ inl (ground arith, ground arith)
  | inr (id, named) ↦ elim (Option-cases (lookup id m.previews)) [
    | inl unknown ↦ inl (ground arith, ground arith)
    | inr (p, found) ↦ elim (Bool-cases p.consumed) [
      | inl used ↦ inl (ground arith, ground arith)
      | inr fresh ↦ elim (Option-cases (includes (or_sell kind))) [
        | inl foreign_kind ↦ inl (ground arith, ground arith)
        | inr (k, known) ↦ inr (id, p, named, found, ground arith)
      ]
    ]
  ]
]

request_seq :
    (m : Manager) (ledger : Option IntentLedger) (preview_id : Arg String) (kind : Arg IntentType)
    → (request_batch_exit m ledger preview_id kind).0.preview_seq ≡ m.preview_seq
unfolding request_batch_exit request_fresh
request_seq m ledger preview_id kind = ground arith

-- What a call keeps.
record Kept (m n : Manager) : Type 0 where
  previews_kept : Evolves Keeps m.previews n.previews
  still_fresh : Fresh n

used_Keeps : (p : Preview) → Keeps p (record p { consumed = true })
used_Keeps p = record { same_items = refl; consumption = λ h. refl }

request-Kept :
    (m : Manager) (ledger : Option IntentLedger) (preview_id : Arg String) (kind : Arg IntentType)
    → Fresh m
    → Kept m (request_batch_exit m ledger preview_id kind).0
unfolding Fresh
request-Kept m ledger preview_id kind fresh = elim (request_previews m ledger preview_id kind) [
  | inl (same, not_ok) ↦ record {
    previews_kept = rw same (Evolves-refl Keeps Keeps-refl m.previews);
    still_fresh = rw (same, request_seq m ledger preview_id kind) fresh;
  }
  | inr (id, p, named, found, after) ↦ record {
    previews_kept =
        rw after (Evolves-insert Keeps Keeps-refl id p _ m.previews found (used_Keeps p));
    still_fresh =
        rw (after, request_seq m ledger preview_id kind)
          (over-IsFreeAfter "preview-" m.preview_seq id p _ m.previews fresh found);
  }
]

call-Kept : (m : Manager) (c : Call) → Fresh m → Kept m (call m c)
unfolding call Fresh preview_batch_exit
call-Kept m (preview_call lifecycle positions) fresh = record {
  previews_kept =
      Evolves-insert_new Keeps Keeps-refl (counter_id "preview-" (m.preview_seq + 1)) _ m.previews
        (next-free "preview-" m.preview_seq m.previews fresh);
  still_fresh = made-IsFreeAfter "preview-" m.preview_seq _ m.previews fresh;
}
call-Kept m (request_call ledger preview_id kind) fresh =
    request-Kept m ledger preview_id kind fresh

run-Kept : (m : Manager) (cs : List Call) → Fresh m → Kept m (run m cs)
unfolding run
run-Kept m [] fresh = record {
  previews_kept = Evolves-refl Keeps Keeps-refl m.previews;
  still_fresh = fresh;
}
run-Kept m (c ∷ cs) fresh =
    let first = call-Kept m c fresh in
    let rest = run-Kept (call m c) cs first.still_fresh in
    record {
      previews_kept =
          Evolves-trans Keeps Keeps-trans m.previews (call m c).previews
            (run (call m c) cs).previews first.previews_kept rest.previews_kept;
      still_fresh = rest.still_fresh;
    }

empty-Fresh : Fresh create_exit_manager
unfolding Fresh
empty-Fresh = empty-IsFreeAfter Preview "preview-" 0

refused_when_used :
    (m : Manager) (ledger : Option IntentLedger) (preview_id : Arg String) (kind : Arg IntentType)
    (id : String) (p : Preview)
    → is_str preview_id ≡ some id
    → lookup id m.previews ≡ some p
    → p.consumed ≡ true
    → request_batch_exit m ledger preview_id kind ≡ (m, ledger, refused stale_or_consumed_preview)
unfolding request_batch_exit
refused_when_used m ledger preview_id kind id p named found used = ground arith

-- In a manager that calls build from a new one, once a request of a preview was accepted, every later
-- request of it is refused as stale or consumed and changes neither the manager nor the ledger, whatever
-- is called in between.
pub requested_once :
    (before cs : List Call) (ledger later : Option IntentLedger) (preview_id : Arg String)
    (kind again : Arg IntentType)
    → is_ok (request_batch_exit (run create_exit_manager before) ledger preview_id kind).2 ≡ true
    → request_batch_exit
        (run (request_batch_exit (run create_exit_manager before) ledger preview_id kind).0 cs)
        later
        preview_id
        again
      ≡ (
        run (request_batch_exit (run create_exit_manager before) ledger preview_id kind).0 cs,
        later,
        refused stale_or_consumed_preview,
      )
requested_once before cs ledger later preview_id kind again h =
    let m = run create_exit_manager before in
    let fresh = (run-Kept create_exit_manager before empty-Fresh).still_fresh in
    let after = (request_batch_exit m ledger preview_id kind).0 in
    let kept = run-Kept after cs (request-Kept m ledger preview_id kind fresh).still_fresh in
    elim (request_previews m ledger preview_id kind) [
      | inl (same, not_ok) ↦ absurd (ground arith)
      | inr (id, p, named, found, written) ↦
          let there : lookup id after.previews ≡ some (record p { consumed = true }) =
            rw written (lookup-insert_self id (record p { consumed = true }) m.previews) in
          let (q, found_q, keeps) = kept.previews_kept id (record p { consumed = true }) there in
          refused_when_used (run after cs) later preview_id again id q named found_q
            (keeps.consumption refl)
    ]
