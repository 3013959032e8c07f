-- ===== src/OperatingState/Examples.antt =====
-- The operating state machine at a few signals.
use solana_trading_bot.Prelude.{◌≡◌, ◌≢◌, ◌↔◌, refl, none, some, given, true, false, [], ◌∷◌}
use solana_trading_bot.Ssot.{OperatingState, ProtocolConstantStatus}
use solana_trading_bot.OperatingState.{
  reset, slots, not_finite, Signals, Machine, entry, exit, diagnostic, init, apply,
  is_action_allowed, signals, operator, run, evaluate_target,
}
use solana_trading_bot.OperatingState.Health.{Passes}
use solana_trading_bot.OperatingState.Safety.{entry_iff_Passes, killed_sticks}

abbrev green_signals : Signals
green_signals = record {
  protocol_constant_status = given ProtocolConstantStatus.green;
  provider_degraded = some false;
  stream_gap = none;
  slot_lag = slots 3;
}

abbrev changed_signals : Signals
changed_signals = record green_signals {
  protocol_constant_status = given ProtocolConstantStatus.changed;
}

abbrev machine : Machine
machine = record {
  state = OperatingState.warming_up;
  last_reason = init;
  last_warning = false;
  slot_lag_threshold = some 5;
}

abbrev killed_machine : Machine
killed_machine = record machine { state = OperatingState.killed }

entry_iff_Passes_example :
    (is_action_allowed (apply machine green_signals) (given entry) ≡ true)
    ↔ ((machine.state ≢ OperatingState.killed) × Passes green_signals machine.slot_lag_threshold)
entry_iff_Passes_example = entry_iff_Passes machine green_signals

killed_sticks_example :
    ((run killed_machine (signals green_signals ∷ signals changed_signals ∷ [])).state
      ≡ OperatingState.killed)
    × ((is_action_allowed
            (run killed_machine (signals green_signals ∷ signals changed_signals ∷ []))
            (given exit)
          ≡ true)
        ↔ (exit ≡ diagnostic))
killed_sticks_example =
    killed_sticks killed_machine (signals green_signals ∷ signals changed_signals ∷ []) exit refl
      refl

-- A slot lag of Infinity, or NaN, lets an entry through where a lag above the threshold does not.
infinite_passes :
    (is_action_allowed
        (apply machine (record green_signals { slot_lag = not_finite }))
        (given entry)
      ≡ true)
    × (is_action_allowed (apply machine (record green_signals { slot_lag = slots 6 })) (given entry)
        ≡ false)
unfolding is_action_allowed apply evaluate_target
infinite_passes = (refl, refl)

-- A reset, then green health: the machine is active again.
resumes : (run killed_machine (operator ∷ signals green_signals ∷ [])).state ≡ OperatingState.active
unfolding run apply evaluate_target reset
resumes = refl
