-- ===== src/OperatingState/Safety.antt =====
-- What the machine permits, over any sequence of signals and resets.
use solana_trading_bot.Prelude.{◌≡◌, ◌≢◌, ◌↔◌, true, false, given, arith, List, [], ◌∷◌, Bool}
use solana_trading_bot.Ssot.{OperatingState}
use solana_trading_bot.OperatingState.{
  Signals, Machine, Action, entry, diagnostic, apply, is_action_allowed, Input, signals, operator,
  run, evaluate_target,
}
use solana_trading_bot.OperatingState.Health.{Passes, active_iff_Passes}

entry-active :
    (m : Machine) (s : Signals)
    → is_action_allowed (apply m s) (given entry) ≡ true
    → (m.state ≢ OperatingState.killed)
      × ((evaluate_target s m.slot_lag_threshold).operating_state ≡ OperatingState.active)
unfolding is_action_allowed apply
entry-active m s h = ground arith

active-entry :
    (m : Machine) (s : Signals)
    → m.state ≢ OperatingState.killed
    → (evaluate_target s m.slot_lag_threshold).operating_state ≡ OperatingState.active
    → is_action_allowed (apply m s) (given entry) ≡ true
unfolding is_action_allowed apply
active-entry m s alive e = ground arith

-- After signals are applied, an entry is permitted exactly when the machine was not killed and the
-- signals pass: provider_degraded is false, the protocol constant is green, no stream gap is reported, and
-- the slot lag is a count within a known threshold or is not a finite number at all.
pub entry_iff_Passes :
    (m : Machine) (s : Signals)
    → (is_action_allowed (apply m s) (given entry) ≡ true)
      ↔ ((m.state ≢ OperatingState.killed) × Passes s m.slot_lag_threshold)
unfolding is_action_allowed apply
entry_iff_Passes m s = (
  λ h. let e = entry-active m s h in (e.0, (active_iff_Passes s m.slot_lag_threshold).0 e.1),
  λ h.
      let alive = h.0 in
      let e = (active_iff_Passes s m.slot_lag_threshold).1 h.1 in active-entry m s alive e,
)

abbrev pub has_reset : List Input → Bool
has_reset [] = false
has_reset (signals s ∷ is) = has_reset is
has_reset (operator ∷ is) = true

-- A killed machine stays killed under any signals for as long as no operator resets it, and
-- permits diagnostics only.
pub killed_sticks :
    (m : Machine) (is : List Input) (a : Action)
    → m.state ≡ OperatingState.killed
    → has_reset is ≡ false
    → ((run m is).state ≡ OperatingState.killed)
      × ((is_action_allowed (run m is) (given a) ≡ true) ↔ (a ≡ diagnostic))
unfolding run is_action_allowed apply
killed_sticks m [] a k h = ground arith
killed_sticks m (signals s ∷ is) a k h = killed_sticks (apply m s) is a (ground arith) h
killed_sticks m (operator ∷ is) a k h = cc
