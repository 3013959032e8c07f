-- ===== src/PositionLifecycle.antt =====
-- packages/position-lifecycle/src/position-lifecycle.mjs: the position state machine. The factory's
-- two closed-over variables, the map `byId` and the audit sink, are the fields of `Lifecycle`; a
-- method takes the object's state and returns the new one with its answer.
pub mod Graph
pub mod Invariant
pub mod History
pub mod Replies
mod Examples
pub mod Progress
use solana_trading_bot.Prelude.{
  ℕ, String, Bool, true, false, Option, none, some, List, [], ◌∷◌, if◌then◌else◌, leb, Arg, absent,
  given, includes, is_str, Reply, ok, refused, coded, ApiErrorCode,
}
use solana_trading_bot.Ssot.{PositionState, MigrationPhase, StrategyBrain}
use solana_trading_bot.Store.{Store, lookup, insert}
use solana_trading_bot.Audit.{AuditLog, Entry, append, empty_entry}

pub record Position : Type 0 where
  pub id : String
  pub position_state : PositionState
  pub entry_brain : StrategyBrain
  pub current_control_brain : StrategyBrain
  pub migration_phase : MigrationPhase
  pub market_phase : MigrationPhase
  pub active_exit_route : Option String
  pub config_version_at_entry : ℕ

pub record Lifecycle : Type 0 where
  pub by_id : Store Position
  pub audit : AuditLog

-- The argument of `open`. A version number stands for the value of `config_version_at_entry`, of
-- which the code asks only that it is not null.
pub record OpenRequest : Type 0 where
  pub id : Arg String
  pub entry_brain : Arg StrategyBrain
  pub config_version_at_entry : Option ℕ
  pub migration_phase : Arg MigrationPhase
  pub active_exit_route : Option String

pub data Reason : Type 0 where
  id_required position_exists invalid_entry_brain config_version_at_entry_required
        invalid_migration_phase position_not_found invalid_position_state
        migration_phase_not_forward invalid_brain illegal_control_handover :
      Reason
  illegal_transition : PositionState → PositionState → Reason

-- createPositionLifecycle()
abbrev pub create_position_lifecycle : Lifecycle
create_position_lifecycle = record { by_id = []; audit = [] }

-- TERMINAL
abbrev pub is_terminal_state : PositionState → Bool
is_terminal_state PositionState.closed = true
is_terminal_state PositionState.closed_with_dust = true
is_terminal_state PositionState.failed_entry = true
is_terminal_state _ = false

-- `ALLOWED[from].includes(to)`
abbrev pub allowed : PositionState → PositionState → Bool
allowed PositionState.opening PositionState.opened = true
allowed PositionState.opening PositionState.failed_entry = true
allowed PositionState.opened PositionState.partially_exiting = true
allowed PositionState.opened PositionState.exit_pending = true
allowed PositionState.opened PositionState.mirror_sell_pending = true
allowed PositionState.opened PositionState.migration_pending = true
allowed PositionState.opened PositionState.closed = true
allowed PositionState.opened PositionState.closed_with_dust = true
allowed PositionState.opened PositionState.failed_exit = true
allowed PositionState.partially_exiting PositionState.opened = true
allowed PositionState.partially_exiting PositionState.exit_pending = true
allowed PositionState.partially_exiting PositionState.closed = true
allowed PositionState.partially_exiting PositionState.closed_with_dust = true
allowed PositionState.partially_exiting PositionState.failed_exit = true
allowed PositionState.exit_pending PositionState.partially_exiting = true
allowed PositionState.exit_pending PositionState.closed = true
allowed PositionState.exit_pending PositionState.closed_with_dust = true
allowed PositionState.exit_pending PositionState.failed_exit = true
allowed PositionState.mirror_sell_pending PositionState.partially_exiting = true
allowed PositionState.mirror_sell_pending PositionState.opened = true
allowed PositionState.mirror_sell_pending PositionState.closed = true
allowed PositionState.mirror_sell_pending PositionState.closed_with_dust = true
allowed PositionState.mirror_sell_pending PositionState.failed_exit = true
allowed PositionState.migration_pending PositionState.opened = true
allowed PositionState.migration_pending PositionState.exit_pending = true
allowed PositionState.migration_pending PositionState.closed = true
allowed PositionState.migration_pending PositionState.closed_with_dust = true
allowed PositionState.migration_pending PositionState.failed_exit = true
allowed PositionState.failed_exit PositionState.exit_pending = true
allowed PositionState.failed_exit PositionState.closed = true
allowed PositionState.failed_exit PositionState.closed_with_dust = true
allowed _ _ = false

-- `MIG_ORDER.indexOf(phase)`
abbrev pub mig_order : MigrationPhase → ℕ
mig_order MigrationPhase.pre_migration = 0
mig_order MigrationPhase.migration_approaching = 1
mig_order MigrationPhase.migration_in_progress = 2
mig_order MigrationPhase.lp_minted = 3
mig_order MigrationPhase.post_migration_active = 4

-- `HANDOVER_PHASES.has(phase)`
abbrev pub is_handover_phase : MigrationPhase → Bool
is_handover_phase MigrationPhase.lp_minted = true
is_handover_phase MigrationPhase.post_migration_active = true
is_handover_phase _ = false

-- The entry of `audited({})`.
abbrev pub position_entry : Entry
position_entry = record empty_entry { resource_type = some "position" }

audited : AuditLog → AuditLog
audited log = append log position_entry

-- `set(rec)` and the audit entry that follows each write.
pub set_audited : Lifecycle → Position → Lifecycle
unfolding audited
set_audited s rec = record { by_id = insert rec.id rec s.by_id; audit = audited s.audit }

-- `position.migration_phase ?? 'PRE_MIGRATION'`
abbrev pub or_pre_migration : Arg MigrationPhase → Arg MigrationPhase
or_pre_migration absent = given MigrationPhase.pre_migration
or_pre_migration phase = phase

pub opening_position : String → StrategyBrain → ℕ → MigrationPhase → Option String → Position
opening_position id brain version phase route = record {
  id = id;
  position_state = PositionState.opening;
  entry_brain = brain;
  current_control_brain = brain;
  migration_phase = phase;
  market_phase = phase;
  active_exit_route = route;
  config_version_at_entry = version;
}

pub open_position : Lifecycle → OpenRequest → Lifecycle × Reply Reason String
unfolding opening_position set_audited
open_position s position = elim (is_str position.id) [
  | none ↦ (s, refused id_required)
  | some id ↦ elim (lookup id s.by_id) [
    | some _ ↦ (s, refused position_exists)
    | none ↦ elim (includes position.entry_brain) [
      | none ↦ (s, refused invalid_entry_brain)
      | some brain ↦ elim position.config_version_at_entry [
        | none ↦ (s, refused config_version_at_entry_required)
        | some version ↦ elim (includes (or_pre_migration position.migration_phase)) [
          | none ↦ (s, refused invalid_migration_phase)
          | some phase ↦ (
            set_audited s (opening_position id brain version phase position.active_exit_route),
            ok id,
          )
        ]
      ]
    ]
  ]
]

pub transition : Lifecycle → String → Arg PositionState → Lifecycle × Reply Reason PositionState
unfolding set_audited
transition s id to_state = elim (lookup id s.by_id) [
  | none ↦ (s, refused position_not_found)
  | some cur ↦ elim (includes to_state) [
    | none ↦ (s, refused invalid_position_state)
    | some to ↦
        if allowed cur.position_state to
        then (set_audited s (record cur { position_state = to }), ok to)
        else (
          s,
          coded ApiErrorCode.command_not_allowed_in_state
              (illegal_transition cur.position_state to),
        )
  ]
]

pub advance_migration_phase :
    Lifecycle → String → Arg MigrationPhase → Lifecycle × Reply Reason MigrationPhase
unfolding set_audited
advance_migration_phase s id to_phase = elim (lookup id s.by_id) [
  | none ↦ (s, refused position_not_found)
  | some cur ↦ elim (includes to_phase) [
    | none ↦ (s, refused invalid_migration_phase)
    | some to ↦
        if leb (mig_order to) (mig_order cur.migration_phase)
        then (s, coded ApiErrorCode.command_not_allowed_in_state migration_phase_not_forward)
        else (set_audited s (record cur { migration_phase = to; market_phase = to }), ok to)
  ]
]

-- The condition `valid` of `handoverControlBrain`.
abbrev pub valid_handover : StrategyBrain → StrategyBrain → MigrationPhase → Bool
valid_handover StrategyBrain.brain_a StrategyBrain.brain_b phase = is_handover_phase phase
valid_handover _ _ phase = false

pub handover_control_brain :
    Lifecycle → String → Arg StrategyBrain → Lifecycle × Reply Reason StrategyBrain
unfolding set_audited
handover_control_brain s id to_brain = elim (lookup id s.by_id) [
  | none ↦ (s, refused position_not_found)
  | some cur ↦ elim (includes to_brain) [
    | none ↦ (s, refused invalid_brain)
    | some to ↦
        if valid_handover cur.current_control_brain to cur.migration_phase
        then (set_audited s (record cur { current_control_brain = to }), ok to)
        else (s, coded ApiErrorCode.command_not_allowed_in_state illegal_control_handover)
  ]
]

-- `isTerminal(id)`
pub is_terminal : Lifecycle → String → Bool
is_terminal s id = elim (lookup id s.by_id) [
  | none ↦ false
  | some r ↦ is_terminal_state r.position_state
]

-- The calls that change the object.
pub data Call : Type 0 where
  open_call : OpenRequest → Call
  transition_call : String → Arg PositionState → Call
  advance_call : String → Arg MigrationPhase → Call
  handover_call : String → Arg StrategyBrain → Call

unfoldable pub call : Lifecycle → Call → Lifecycle
call s (open_call position) = (open_position s position).0
call s (transition_call id to) = (transition s id to).0
call s (advance_call id to) = (advance_migration_phase s id to).0
call s (handover_call id to) = (handover_control_brain s id to).0

-- A client's calls, in order.
unfoldable pub run : Lifecycle → List Call → Lifecycle
run s [] = s
run s (c ∷ cs) = run (call s c) cs
