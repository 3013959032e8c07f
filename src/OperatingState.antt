-- ===== src/OperatingState.antt =====
-- packages/operating-state-machine/src/operating-state-machine.mjs: health signals decide the
-- operating state, and the operating state gates the actions. The factory's variables `state`,
-- `lastReason` and `lastWarning` and its threshold are the fields of `Machine`.
pub mod Health
pub mod Safety
mod Examples
use solana_trading_bot.Prelude.{
  ℕ, Bool, true, false, Option, none, some, List, [], ◌∷◌, if◌then◌else◌, ltb, leb, Arg, absent,
  foreign, given, not, ◌&&◌, ◌||◌,
}
use solana_trading_bot.Ssot.{OperatingState, ProtocolConstantStatus}

-- The field slot_lag: undefined or null, another value that is no finite number (NaN, Infinity, a text), or
-- a count of slots.
pub data SlotLag : Type 0 where
  not_reported not_finite : SlotLag
  slots : ℕ → SlotLag

-- Health signals. A Boolean that is `none` is a value that is no Boolean.
pub record Signals : Type 0 where
  pub protocol_constant_status : Arg ProtocolConstantStatus
  pub provider_degraded : Option Bool
  pub stream_gap : Option Bool
  pub slot_lag : SlotLag

pub data Reason : Type 0 where
  init protocol_constant_changed protocol_status_unverifiable provider_degraded stream_gap
        slot_lag_exceeded health_unverifiable healthy killed_requires_human_reset operator_reset :
      Reason

-- The answer of `evaluateTarget`; `warning` says whether it carries WARNING_CRITICAL.
pub record Target : Type 0 where
  pub operating_state : OperatingState
  pub reason : Reason
  pub warning : Bool

-- `x === true` and `x === false` on a value that may be no Boolean.
abbrev pub is_true : Option Bool → Bool
is_true none = false
is_true (some b) = b

abbrev pub is_false : Option Bool → Bool
is_false none = false
is_false (some b) = not b

abbrev pub is_changed : Arg ProtocolConstantStatus → Bool
is_changed (given ProtocolConstantStatus.changed) = true
is_changed _ = false

abbrev pub is_green : Arg ProtocolConstantStatus → Bool
is_green (given ProtocolConstantStatus.green) = true
is_green _ = false

-- `status != null && !PROTOCOL_CONSTANT_STATUS.includes(status)`
abbrev pub is_unverifiable : Arg ProtocolConstantStatus → Bool
is_unverifiable foreign = true
is_unverifiable _ = false

-- `isNum(slot_lag) && isNum(threshold) && slot_lag > threshold`
abbrev pub lag_exceeded : SlotLag → Option ℕ → Bool
lag_exceeded (slots lag) (some threshold) = ltb threshold lag
lag_exceeded _ _ = false

-- `!isNum(slot_lag) || (isNum(threshold) && slot_lag <= threshold)`
abbrev pub slot_ok : SlotLag → Option ℕ → Bool
slot_ok not_reported threshold = true
slot_ok not_finite threshold = true
slot_ok (slots lag) none = false
slot_ok (slots lag) (some threshold) = leb lag threshold

abbrev exits_only_for : Reason → Target
exits_only_for why = record {
  operating_state = OperatingState.exits_only;
  reason = why;
  warning = true;
}

pub evaluate_target : Signals → Option ℕ → Target
evaluate_target s threshold =
    if is_changed s.protocol_constant_status
    then record {
      operating_state = OperatingState.killed;
      reason = protocol_constant_changed;
      warning = false;
    }
    else if is_unverifiable s.protocol_constant_status
    then exits_only_for protocol_status_unverifiable
    else if is_true s.provider_degraded
    then exits_only_for Reason.provider_degraded
    else if is_true s.stream_gap
    then exits_only_for Reason.stream_gap
    else if lag_exceeded s.slot_lag threshold
    then exits_only_for slot_lag_exceeded
    else if not (
        is_false s.provider_degraded
        && is_green s.protocol_constant_status
        && slot_ok s.slot_lag threshold)
    then exits_only_for health_unverifiable
    else record { operating_state = OperatingState.active; reason = healthy; warning = false }

pub data Action : Type 0 where
  entry exit emergency_exit diagnostic : Action

-- ACTION_POLICY
abbrev pub action_policy : OperatingState → Action → Bool
action_policy OperatingState.warming_up diagnostic = true
action_policy OperatingState.warming_up _ = false
action_policy OperatingState.active _ = true
action_policy OperatingState.exits_only entry = false
action_policy OperatingState.exits_only _ = true
action_policy OperatingState.paused entry = false
action_policy OperatingState.paused _ = true
action_policy OperatingState.killed diagnostic = true
action_policy OperatingState.killed _ = false

pub record Machine : Type 0 where
  pub state : OperatingState
  pub last_reason : Reason
  pub last_warning : Bool
  pub slot_lag_threshold : Option ℕ

-- `none` is the error thrown on an initial state outside OPERATING_STATE.
pub create_operating_state_machine : Arg OperatingState → Option ℕ → Option Machine
create_operating_state_machine foreign threshold = none
create_operating_state_machine absent threshold = some record {
  state = OperatingState.warming_up;
  last_reason = init;
  last_warning = false;
  slot_lag_threshold = threshold;
}
create_operating_state_machine (given initial) threshold = some record {
  state = initial;
  last_reason = init;
  last_warning = false;
  slot_lag_threshold = threshold;
}

abbrev pub is_killed : OperatingState → Bool
is_killed OperatingState.killed = true
is_killed _ = false

pub apply : Machine → Signals → Machine
unfolding evaluate_target
apply m signals =
    if is_killed m.state
    then record m { last_reason = killed_requires_human_reset }
    else let target = evaluate_target signals m.slot_lag_threshold in
      record m {
        state = target.operating_state;
        last_reason = target.reason;
        last_warning = target.warning;
      }

pub reset : Machine → Machine
reset m = record m {
  state = OperatingState.warming_up;
  last_reason = operator_reset;
  last_warning = false;
}

-- An action outside the policy's keys is not permitted.
pub is_action_allowed : Machine → Arg Action → Bool
is_action_allowed m (given action) = action_policy m.state action
is_action_allowed m _ = false

-- What happens to a machine: health signals, and the operator's reset.
pub data Input : Type 0 where
  signals : Signals → Input
  operator : Input

abbrev pub step : Machine → Input → Machine
step m (signals s) = apply m s
step m operator = reset m

unfoldable pub run : Machine → List Input → Machine
run m [] = m
run m (i ∷ is) = run (step m i) is
