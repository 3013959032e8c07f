-- ===== src/ProfitSweep/Ledger.antt =====
-- The events of the ledger over any sequence of calls: their ids, their contents, and confirmation.
use solana_trading_bot.Prelude.{
  String, ℕ, ◌+◌, ◌≡◌, refl, ◌∙◌, ap, true, arith, List, [], ◌∷◌, ◌++◌, length, is_some, inl, inr,
  Bool-cases, str_eq,
}
use solana_trading_bot.Prelude.Decimal.{counter_id}
use solana_trading_bot.Store.{lookup, contains, lookup-insert, eq_of_str_eq}
use solana_trading_bot.ProfitSweep.{
  Config, SweepEvent, Sweep, create_profit_sweep, find, Call, call, run,
}
use solana_trading_bot.ProfitSweep.Steps.{
  IsSound, Step, unchanged, recorded_step, confirmed_step, call-Step,
}

-- The events are sound, and the ids count on from `n`.
abbrev pub Numbered : Config → ℕ → List SweepEvent → Type 0
Numbered cfg n [] = Unit
Numbered cfg n (e ∷ es) =
    (e.id ≡ counter_id "swp-" (n + 1)) × IsSound cfg e × Numbered cfg (n + 1) es

Numbered-append :
    (cfg : Config) (n : ℕ) (es : List SweepEvent) (e : SweepEvent)
    → Numbered cfg n es
    → e.id ≡ counter_id "swp-" (n + length es + 1)
    → IsSound cfg e
    → Numbered cfg n (es ++ e ∷ [])
Numbered-append cfg n [] e h named sound = (named ∙ ap (counter_id "swp-") (omega arith), sound, tt)
Numbered-append cfg n (x ∷ es) e h named sound = (
  h.0,
  h.1,
  Numbered-append cfg (n + 1) es e h.2 (named ∙ ap (counter_id "swp-") (omega arith)) sound,
)

length-snoc : (es : List SweepEvent) (e : SweepEvent) → length (es ++ e ∷ []) ≡ length es + 1
length-snoc [] e = refl
length-snoc (x ∷ es) e = omega (arith, length-snoc es e)

-- The search passes over the events that do not match.
pub find-append_some :
    (id : String) (es fs : List SweepEvent)
    → is_some (find id es) ≡ true
    → find id (es ++ fs) ≡ find id es
unfolding find
find-append_some id [] fs h = absurd (ground arith)
find-append_some id (x ∷ es) fs h = elim (Bool-cases (str_eq x.id id)) [
  | inl same ↦ rw same refl
  | inr other ↦ rw other (find-append_some id es fs (rw other at h))
]

pub record IsValid (cfg : Config) (s : Sweep) : Type 0 where
  pub numbered : Numbered cfg 0 s.events
  pub counted : s.seq ≡ length s.events
  pub known : (id : String) → contains id s.confirmed ≡ true → is_some (find id s.events) ≡ true

pub empty-IsValid : (cfg : Config) → IsValid cfg create_profit_sweep
unfolding lookup
empty-IsValid cfg = record { numbered = tt; counted = refl; known = λ id h. absurd (ground arith) }

Step-IsValid : {cfg : Config} {s t : Sweep} → Step cfg s t → IsValid cfg s → IsValid cfg t
Step-IsValid {cfg} (unchanged e n c) h = record {
  numbered = rw e h.numbered;
  counted = rw (e, n) h.counted;
  known = rw (e, c) h.known;
}
Step-IsValid {cfg} {s} (recorded_step ev named sound e n c) h =
    let counted = h.counted in
    record {
      numbered = rw e (
          Numbered-append cfg 0 s.events ev h.numbered
            (named ∙ ap (counter_id "swp-") (omega arith)) sound);
      counted = rw (e, n, length-snoc, counted) refl;
      known = λ id there.
          let old = h.known id (rw c at there) in
          rw (e, find-append_some id s.events (ev ∷ []) old) old;
    }
Step-IsValid {cfg} {s} (confirmed_step id ev found new_id e n c) h = record {
  numbered = rw e h.numbered;
  counted = rw (e, n) h.counted;
  known = λ j there. rw e (elim (Bool-cases (str_eq id j)) [
    | inl same ↦ rw (← eq_of_str_eq id j same, found) refl
    | inr other ↦ h.known j (rw (c, lookup-insert, other) at there)
  ]);
}

-- From a valid ledger every sequence of calls leads to a valid ledger: the events have the ids swp-1, swp-2
-- and so on in their order, each has the policy manual, a positive amount, as the owner of its position the
-- wallet that sweeps, and the status reconciled if the configuration requires it, and every confirmed id
-- is the id of an event.
pub sweep_ledger-IsValid :
    (cfg : Config) (s : Sweep) (cs : List Call) → IsValid cfg s → IsValid cfg (run cfg s cs)
unfolding run
sweep_ledger-IsValid cfg s [] h = h
sweep_ledger-IsValid cfg s (c ∷ cs) h =
    sweep_ledger-IsValid cfg (call cfg s c) cs (Step-IsValid (call-Step cfg s c) h)
