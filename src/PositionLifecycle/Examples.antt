-- ===== src/PositionLifecycle/Examples.antt =====
-- One position through its life, and the theorems at it.
use solana_trading_bot.Prelude.{
  ◌≡◌, refl, List, [], ◌∷◌, none, some, given, absent, coded, ApiErrorCode,
}
use solana_trading_bot.Ssot.{PositionState, MigrationPhase, StrategyBrain}
use solana_trading_bot.Store.{lookup, insert}
use solana_trading_bot.Store.Evolution.{Evolves}
use solana_trading_bot.Audit.{Extends}
use solana_trading_bot.PositionLifecycle.{
  Position, Lifecycle, OpenRequest, create_position_lifecycle, Call, open_call, transition_call,
  advance_call, handover_call, call, run, open_position, transition, advance_migration_phase,
  handover_control_brain, illegal_transition,
}
use solana_trading_bot.PositionLifecycle.Invariant.{IsValid, positions_stay-IsValid}
use solana_trading_bot.PositionLifecycle.History.{Follows, positions_evolve}
use solana_trading_bot.PositionLifecycle.Progress.{terminal_absorbs, live_can_close, transitions}

abbrev opening_request : OpenRequest
opening_request = record {
  id = given "p1";
  entry_brain = given StrategyBrain.brain_a;
  config_version_at_entry = some 7;
  migration_phase = absent;
  active_exit_route = none;
}

-- Opened, moved to LP_MINTED, handed over and closed; the calls that the code refuses stand between.
abbrev calls : List Call
calls =
    open_call opening_request
    ∷ open_call opening_request
    ∷ transition_call "p1" (given PositionState.opened)
    ∷ handover_call "p1" (given StrategyBrain.brain_b)
    ∷ advance_call "p1" (given MigrationPhase.lp_minted)
    ∷ advance_call "p1" (given MigrationPhase.pre_migration)
    ∷ handover_call "p1" (given StrategyBrain.brain_b)
    ∷ transition_call "p1" (given PositionState.closed)
    ∷ transition_call "p1" (given PositionState.opened)
    ∷ []

abbrev closed_position : Position
closed_position = record {
  id = "p1";
  position_state = PositionState.closed;
  entry_brain = StrategyBrain.brain_a;
  current_control_brain = StrategyBrain.brain_b;
  migration_phase = MigrationPhase.lp_minted;
  market_phase = MigrationPhase.lp_minted;
  active_exit_route = none;
  config_version_at_entry = 7;
}

abbrev opening_position_1 : Position
opening_position_1 = record closed_position {
  position_state = PositionState.opening;
  current_control_brain = StrategyBrain.brain_a;
  migration_phase = MigrationPhase.pre_migration;
  market_phase = MigrationPhase.pre_migration;
}

run-calls : lookup "p1" (run create_position_lifecycle calls).by_id ≡ some closed_position
unfolding run call open_position transition advance_migration_phase handover_control_brain lookup
    insert
run-calls = refl

empty-IsValid : IsValid create_position_lifecycle
unfolding lookup
empty-IsValid k p h = absurd cc

abbrev opened_once : Lifecycle
opened_once = run create_position_lifecycle (open_call opening_request ∷ [])

opened_once-IsValid : IsValid opened_once
opened_once-IsValid =
    positions_stay-IsValid create_position_lifecycle (open_call opening_request ∷ []) empty-IsValid

opened_once-found : lookup "p1" opened_once.by_id ≡ some opening_position_1
unfolding run call open_position lookup insert
opened_once-found = refl

positions_stay-IsValid_example : IsValid (run create_position_lifecycle calls)
positions_stay-IsValid_example =
    positions_stay-IsValid create_position_lifecycle calls empty-IsValid

positions_evolve_example :
    Evolves Follows opened_once.by_id (run opened_once calls).by_id
    × Extends opened_once.audit (run opened_once calls).audit
positions_evolve_example = positions_evolve opened_once calls opened_once-IsValid

terminal_absorbs_example :
    (q : Position) × (lookup "p1" (run (run create_position_lifecycle calls) calls).by_id ≡ some q)
    × (q.position_state ≡ PositionState.closed)
    × (transition
          (run (run create_position_lifecycle calls) calls)
          "p1"
          (given PositionState.opened)
        ≡ (
          run (run create_position_lifecycle calls) calls,
          coded ApiErrorCode.command_not_allowed_in_state
              (illegal_transition PositionState.closed PositionState.opened),
        ))
terminal_absorbs_example =
    terminal_absorbs (run create_position_lifecycle calls) calls "p1" closed_position
      PositionState.opened positions_stay-IsValid_example run-calls refl

live_can_close_example :
    lookup "p1"
      (run opened_once (transitions "p1" (PositionState.opened ∷ PositionState.closed ∷ []))).by_id
    ≡ some (record opening_position_1 { position_state = PositionState.closed })
live_can_close_example =
    live_can_close opened_once "p1" opening_position_1 opened_once-IsValid opened_once-found refl
