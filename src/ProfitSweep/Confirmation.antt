-- ===== src/ProfitSweep/Confirmation.antt =====
-- A sweep is confirmed once.
use solana_trading_bot.Prelude.{
  String, ◌≡◌, refl, inl, inr, true, arith, List, [], ◌∷◌, is_some, Bool-cases, str_eq, ok, refused,
  Option-cases,
}
use solana_trading_bot.Store.{insert, lookup-insert, lookup-insert_self}
use solana_trading_bot.ProfitSweep.{
  Config, Sweep, find, is_confirmed, simulate_confirm, already_confirmed, Call, call, run,
}
use solana_trading_bot.ProfitSweep.Steps.{Step, unchanged, recorded_step, confirmed_step, call-Step}
use solana_trading_bot.ProfitSweep.Ledger.{find-append_some}

-- The event `id` is in the ledger and confirmed.
record Settled (id : String) (s : Sweep) : Type 0 where
  there : is_some (find id s.events) ≡ true
  sealed : is_confirmed s id ≡ true

Step-Settled :
    {cfg : Config} {s t : Sweep} (id : String) → Step cfg s t → Settled id s → Settled id t
Step-Settled id (unchanged e n c) h = record { there = rw e h.there; sealed = rw c h.sealed }
Step-Settled {s} id (recorded_step ev named sound e n c) h = record {
  there = rw (e, find-append_some id s.events (ev ∷ []) h.there) h.there;
  sealed = rw c h.sealed;
}
Step-Settled {s} id (confirmed_step j ev found new_id e n c) h = record {
  there = rw e h.there;
  sealed = rw c (elim (Bool-cases (str_eq j id)) [
    | inl same ↦ rw (lookup-insert, same) refl
    | inr other ↦ rw (lookup-insert, other) h.sealed
  ]);
}

run-Settled :
    (cfg : Config) (id : String) (s : Sweep) (cs : List Call)
    → Settled id s
    → Settled id (run cfg s cs)
unfolding run
run-Settled cfg id s [] h = h
run-Settled cfg id s (c ∷ cs) h =
    run-Settled cfg id (call cfg s c) cs (Step-Settled id (call-Step cfg s c) h)

confirm-Settled :
    (s : Sweep) (id : String)
    → (simulate_confirm s id).1 ≡ ok id
    → Settled id (simulate_confirm s id).0
unfolding simulate_confirm
confirm-Settled s id accepted = elim (Option-cases (find id s.events)) [
  | inl missing ↦ absurd (ground arith)
  | inr (e, found) ↦ elim (Bool-cases (is_confirmed s id)) [
    | inl again ↦ absurd (ground arith)
    | inr new_id ↦
        let e : (simulate_confirm s id).0 ≡ record s { confirmed = insert id tt s.confirmed } =
          ground arith in
        rw e (record {
          there = rw found refl;
          sealed = rw (lookup-insert_self id tt s.confirmed) refl;
        })
  ]
]

confirm_again :
    (s : Sweep) (id : String)
    → Settled id s
    → simulate_confirm s id ≡ (s, refused already_confirmed)
unfolding simulate_confirm
confirm_again s id h = elim (Option-cases (find id s.events)) [
  | inl missing ↦ let there = h.there in absurd (ground arith)
  | inr (e, found) ↦ let sealed = h.sealed in ground arith
]

-- Once a confirmation of an event has been accepted, the event stays confirmed: after any calls, another
-- confirmation of it changes nothing and is refused as `already_confirmed`.
pub confirmed_once :
    (cfg : Config) (s : Sweep) (id : String) (cs : List Call)
    → (simulate_confirm s id).1 ≡ ok id
    → is_confirmed (run cfg (simulate_confirm s id).0 cs) id ≡ true
      × simulate_confirm (run cfg (simulate_confirm s id).0 cs) id
        ≡ (run cfg (simulate_confirm s id).0 cs, refused already_confirmed)
confirmed_once cfg s id cs accepted =
    let settled = run-Settled cfg id (simulate_confirm s id).0 cs (confirm-Settled s id accepted) in
    (settled.sealed, confirm_again (run cfg (simulate_confirm s id).0 cs) id settled)
