-- ===== src/PositionLifecycle/Progress.antt =====
-- Terminal positions stay as they are, and every other position can be closed.
use solana_trading_bot.Prelude.{
  String, ◌≡◌, refl, sym, some, true, false, arith, List, [], ◌∷◌, map, given, coded, ApiErrorCode,
}
use solana_trading_bot.Ssot.{PositionState}
use solana_trading_bot.Store.{lookup, lookup-insert_self}
use solana_trading_bot.PositionLifecycle.{
  Position, Lifecycle, is_terminal_state, allowed, set_audited, transition, illegal_transition,
  Call, transition_call, call, run,
}
use solana_trading_bot.PositionLifecycle.Graph.{Reach-terminal}
use solana_trading_bot.PositionLifecycle.Invariant.{IsValid, positions_stay-IsValid}
use solana_trading_bot.PositionLifecycle.History.{positions_evolve}

refused_when_terminal :
    (s : Lifecycle) (id : String) {p : Position} (to : PositionState)
    → lookup id s.by_id ≡ some p
    → is_terminal_state p.position_state ≡ true
    → transition s id (given to) ≡ (
      s,
      coded ApiErrorCode.command_not_allowed_in_state (illegal_transition p.position_state to),
    )
unfolding transition
refused_when_terminal s id to found h = ground arith

-- A position of a valid object that is closed, closed with dust or failed at entry: after any calls
-- it is still there in that state, and a transition of it to any state is refused as illegal, with
-- the object left as it was.
pub terminal_absorbs :
    (s : Lifecycle) (cs : List Call) (id : String) (p : Position) (to : PositionState)
    → IsValid s
    → lookup id s.by_id ≡ some p
    → is_terminal_state p.position_state ≡ true
    → (q : Position) × (lookup id (run s cs).by_id ≡ some q)
      × (q.position_state ≡ p.position_state)
      × (transition (run s cs) id (given to) ≡ (
        run s cs,
        coded ApiErrorCode.command_not_allowed_in_state (illegal_transition p.position_state to),
      ))
terminal_absorbs s cs id p to valid found h =
    let (q, found_q, f) = (positions_evolve s cs valid).0 id p found in
    let same : p.position_state ≡ q.position_state = Reach-terminal h f.state_reached in
    (q, found_q, sym same, rw same (refused_when_terminal (run s cs) id to found_q (rw same at h)))

transition_moves :
    (s : Lifecycle) (id : String) {p : Position} (to : PositionState)
    → p.id ≡ id
    → lookup id s.by_id ≡ some p
    → allowed p.position_state to ≡ true
    → lookup id (transition s id (given to)).0.by_id ≡ some (record p { position_state = to })
unfolding transition set_audited
transition_moves s id {p} to keyed found h =
    ground (arith, lookup-insert_self id (record p { position_state = to }) s.by_id)

-- The states to ask for, one after the other, to close a position.
abbrev pub closing_path : PositionState → List PositionState
closing_path PositionState.opening = PositionState.opened ∷ PositionState.closed ∷ []
closing_path PositionState.closed = []
closing_path PositionState.closed_with_dust = []
closing_path PositionState.failed_entry = []
closing_path _ = PositionState.closed ∷ []

abbrev pub transitions : String → List PositionState → List Call
transitions id = map (λ to. transition_call id (given to))

closes_directly :
    (s : Lifecycle) (id : String) (p : Position)
    → IsValid s
    → lookup id s.by_id ≡ some p
    → allowed p.position_state PositionState.closed ≡ true
    → lookup id (run s (transitions id (PositionState.closed ∷ []))).by_id
      ≡ some (record p { position_state = PositionState.closed })
unfolding run call
closes_directly s id p valid found h =
    transition_moves s id PositionState.closed (valid id p found).keyed found h

can_close_from :
    (s : Lifecycle) (id : String) (p : Position) (st : PositionState)
    → p.position_state ≡ st
    → IsValid s
    → lookup id s.by_id ≡ some p
    → is_terminal_state st ≡ false
    → lookup id (run s (transitions id (closing_path st))).by_id
      ≡ some (record p { position_state = PositionState.closed })
unfolding run call
can_close_from s id p PositionState.opening e valid found h =
    let q : Position = record p { position_state = PositionState.opened } in
    let to_open : Call = transition_call id (given PositionState.opened) in
    closes_directly (call s to_open) id q (positions_stay-IsValid s (to_open ∷ []) valid)
      (transition_moves s id PositionState.opened (valid id p found).keyed found (rw e)) refl
can_close_from s id p PositionState.closed e valid found h = cc
can_close_from s id p PositionState.closed_with_dust e valid found h = cc
can_close_from s id p PositionState.failed_entry e valid found h = cc
can_close_from s id p _ e valid found h = closes_directly s id p valid found (rw e)

-- Every position of a valid object that is not in a terminal state is closed by at most two calls of
-- `transition`, and nothing else of its record changes.
pub live_can_close :
    (s : Lifecycle) (id : String) (p : Position)
    → IsValid s
    → lookup id s.by_id ≡ some p
    → is_terminal_state p.position_state ≡ false
    → lookup id (run s (transitions id (closing_path p.position_state))).by_id
      ≡ some (record p { position_state = PositionState.closed })
live_can_close s id p valid found h = can_close_from s id p p.position_state refl valid found h
