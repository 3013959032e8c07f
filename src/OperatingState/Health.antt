-- ===== src/OperatingState/Health.antt =====
-- When `evaluateTarget` answers which state.
use solana_trading_bot.Prelude.{
  ◌≡◌, ◌≢◌, ◌↔◌, ◌⊎◌, true, false, some, given, arith, ℕ, Option, none, refl, ◌≤◌,
}
use solana_trading_bot.Ssot.{OperatingState, ProtocolConstantStatus}
use solana_trading_bot.OperatingState.{
  Signals, SlotLag, not_reported, not_finite, slots, slot_ok, evaluate_target,
}

-- The slot lags that do not hold a machine back: a count of slots that is at most a known threshold, and
-- every value that is no finite number, reported or not.
pub data LagPasses (lag : SlotLag) (threshold : Option ℕ) : Type 0 where
  unreported : lag ≡ not_reported → LagPasses lag threshold
  no_number : lag ≡ not_finite → LagPasses lag threshold
  within : (n t : ℕ) → lag ≡ slots n → threshold ≡ some t → n ≤ t → LagPasses lag threshold

LagPasses-slot_ok :
    {lag : SlotLag} {threshold : Option ℕ} → LagPasses lag threshold → slot_ok lag threshold ≡ true
LagPasses-slot_ok (unreported e) = rw e refl
LagPasses-slot_ok (no_number e) = rw e refl
LagPasses-slot_ok (within n t e f h) = rw (e, f) (ground arith)

slot_ok-LagPasses :
    (lag : SlotLag) (threshold : Option ℕ) → slot_ok lag threshold ≡ true → LagPasses lag threshold
slot_ok-LagPasses not_reported threshold h = unreported refl
slot_ok-LagPasses not_finite threshold h = no_number refl
slot_ok-LagPasses (slots n) none h = absurd (ground arith)
slot_ok-LagPasses (slots n) (some t) h = within n t refl refl (ground arith)

-- Signals that pass: the provider is not degraded, the protocol constant is green, no stream gap is
-- reported, and the slot lag passes.
pub record Passes (s : Signals) (threshold : Option ℕ) : Type 0 where
  pub not_degraded : s.provider_degraded ≡ some false
  pub green : s.protocol_constant_status ≡ given ProtocolConstantStatus.green
  pub no_gap : s.stream_gap ≢ some true
  pub slot : LagPasses s.slot_lag threshold

active-slot_ok :
    (s : Signals) (threshold : Option ℕ)
    → (evaluate_target s threshold).operating_state ≡ OperatingState.active
    → slot_ok s.slot_lag threshold ≡ true
unfolding evaluate_target
active-slot_ok s threshold h = ground arith

-- The target is ACTIVE exactly when the signals pass.
pub active_iff_Passes :
    (s : Signals) (threshold : Option ℕ)
    → ((evaluate_target s threshold).operating_state ≡ OperatingState.active) ↔ Passes s threshold
unfolding evaluate_target
active_iff_Passes s threshold = (
  λ h. record {
    not_degraded = ground arith;
    green = ground arith;
    no_gap = (λ e. ground arith);
    slot = slot_ok-LagPasses s.slot_lag threshold (active-slot_ok s threshold h);
  },
  λ h.
      let slot = LagPasses-slot_ok h.slot in
      let degraded = h.not_degraded in let green = h.green in let gap = h.no_gap in ground arith,
)

-- The target is KILLED exactly when the protocol constant has changed, whatever else is reported.
pub killed_iff_changed :
    (s : Signals) (threshold : Option ℕ)
    → ((evaluate_target s threshold).operating_state ≡ OperatingState.killed)
      ↔ (s.protocol_constant_status ≡ given ProtocolConstantStatus.changed)
unfolding evaluate_target
killed_iff_changed s threshold = (λ h. ground arith, λ h. ground arith)

-- Every target that is neither ACTIVE nor KILLED is EXITS_ONLY, and exactly these targets carry the
-- critical warning.
pub warning_iff_exits_only :
    (s : Signals) (threshold : Option ℕ)
    → (((evaluate_target s threshold).operating_state ≡ OperatingState.active)
        ⊎ ((evaluate_target s threshold).operating_state ≡ OperatingState.killed)
        ⊎ ((evaluate_target s threshold).operating_state ≡ OperatingState.exits_only))
      × (((evaluate_target s threshold).warning ≡ true)
          ↔ ((evaluate_target s threshold).operating_state ≡ OperatingState.exits_only))
unfolding evaluate_target
warning_iff_exits_only s threshold = (ground arith, (λ h. ground arith, λ h. ground arith))
