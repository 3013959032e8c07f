-- ===== src/PositionLifecycle/Invariant.antt =====
-- The invariant of the position map, and the step that each method of the object makes on it.
use solana_trading_bot.Prelude.{
  String, ◌≡◌, ◌⊎◌, inl, inr, ◌≤◌, none, some, true, arith, Arg, includes, is_str, Bool-cases,
  Option-cases, leb, List, [], ◌∷◌,
}
use solana_trading_bot.Ssot.{PositionState, MigrationPhase, StrategyBrain}
use solana_trading_bot.Store.{lookup}
use solana_trading_bot.Store.Evolution.{Every, Every-insert}
use solana_trading_bot.PositionLifecycle.{
  Position, Lifecycle, OpenRequest, mig_order, allowed, set_audited, opening_position,
  open_position, transition, advance_migration_phase, handover_control_brain, or_pre_migration,
  valid_handover, Call, open_call, transition_call, advance_call, handover_call, call, run,
}

-- The control brain is the entry brain, or it was handed over at or after LP_MINTED.
pub record IsSound (key : String) (p : Position) : Type 0 where
  pub keyed : p.id ≡ key
  pub mirrored : p.market_phase ≡ p.migration_phase
  pub controlled :
      (p.current_control_brain ≡ p.entry_brain)
      ⊎ ((p.entry_brain ≡ StrategyBrain.brain_a)
          × (p.current_control_brain ≡ StrategyBrain.brain_b)
          × (3 ≤ mig_order p.migration_phase))

abbrev pub IsValid : Lifecycle → Type 0
IsValid s = Every IsSound s.by_id

-- What a method writes over a position.
pub record Updates (p q : Position) : Type 0 where
  pub id_kept : q.id ≡ p.id
  pub entry_brain_kept : q.entry_brain ≡ p.entry_brain
  pub config_version_kept : q.config_version_at_entry ≡ p.config_version_at_entry
  pub exit_route_kept : q.active_exit_route ≡ p.active_exit_route
  pub phase_forward : mig_order p.migration_phase ≤ mig_order q.migration_phase
  pub state_allowed :
      (q.position_state ≡ p.position_state) ⊎ (allowed p.position_state q.position_state ≡ true)
  pub control_forward :
      (q.current_control_brain ≡ p.current_control_brain)
      ⊎ ((p.current_control_brain ≡ StrategyBrain.brain_a)
          × (q.current_control_brain ≡ StrategyBrain.brain_b))

-- The three things that a call can do to the object.
pub data Step (s t : Lifecycle) : Type 0 where
  unchanged : t ≡ s → Step s t
  added :
      (p : Position) → lookup p.id s.by_id ≡ none → IsSound p.id p → t ≡ set_audited s p → Step s t
  updated :
      (key : String) (p q : Position)
      → lookup key s.by_id ≡ some p
      → (IsSound key p → IsSound key q)
      → Updates p q
      → t ≡ set_audited s q
      → Step s t

pub transition-Step :
    (s : Lifecycle) (id : String) (to_state : Arg PositionState)
    → Step s (transition s id to_state).0
unfolding transition
transition-Step s id to_state = elim (Option-cases (lookup id s.by_id)) [
  | inl missing ↦ Step.unchanged (ground arith)
  | inr (cur, found) ↦ elim (Option-cases (includes to_state)) [
    | inl bad ↦ Step.unchanged (ground arith)
    | inr (to, e) ↦ elim (Bool-cases (allowed cur.position_state to)) [
      | inl yes_allowed ↦
          Step.updated id cur (record cur { position_state = to }) found (λ h. ground arith)
            (ground arith) (ground arith)
      | inr refused ↦ Step.unchanged (ground arith)
    ]
  ]
]

pub open_position-Step :
    (s : Lifecycle) (position : OpenRequest) → Step s (open_position s position).0
unfolding open_position opening_position
open_position-Step s position = elim (Option-cases (is_str position.id)) [
  | inl missing ↦ Step.unchanged (ground arith)
  | inr (id, given_id) ↦ elim (Option-cases (lookup id s.by_id)) [
    | inr (old, exists) ↦ Step.unchanged (ground arith)
    | inl fresh ↦ elim (Option-cases (includes position.entry_brain)) [
      | inl bad ↦ Step.unchanged (ground arith)
      | inr (brain, b) ↦ elim (Option-cases position.config_version_at_entry) [
        | inl missing ↦ Step.unchanged (ground arith)
        | inr (version, v) ↦
            elim (Option-cases (includes (or_pre_migration position.migration_phase))) [
              | inl bad ↦ Step.unchanged (ground arith)
              | inr (phase, f) ↦
                  Step.added (opening_position id brain version phase position.active_exit_route)
                    fresh (ground arith) (ground arith)
            ]
      ]
    ]
  ]
]

pub advance-Step :
    (s : Lifecycle) (id : String) (to_phase : Arg MigrationPhase)
    → Step s (advance_migration_phase s id to_phase).0
unfolding advance_migration_phase
advance-Step s id to_phase = elim (Option-cases (lookup id s.by_id)) [
  | inl missing ↦ Step.unchanged (ground arith)
  | inr (cur, found) ↦ elim (Option-cases (includes to_phase)) [
    | inl bad ↦ Step.unchanged (ground arith)
    | inr (to, e) ↦ elim (Bool-cases (leb (mig_order to) (mig_order cur.migration_phase))) [
      | inl backward ↦ Step.unchanged (ground arith)
      | inr forward ↦
          Step.updated id cur (record cur { migration_phase = to; market_phase = to }) found
            (λ h. ground arith) (ground arith) (ground arith)
    ]
  ]
]

pub handover-Step :
    (s : Lifecycle) (id : String) (to_brain : Arg StrategyBrain)
    → Step s (handover_control_brain s id to_brain).0
unfolding handover_control_brain
handover-Step s id to_brain = elim (Option-cases (lookup id s.by_id)) [
  | inl missing ↦ Step.unchanged (ground arith)
  | inr (cur, found) ↦ elim (Option-cases (includes to_brain)) [
    | inl bad ↦ Step.unchanged (ground arith)
    | inr (to, e) ↦
        elim (Bool-cases (valid_handover cur.current_control_brain to cur.migration_phase)) [
          | inl valid ↦
              Step.updated id cur (record cur { current_control_brain = to }) found
                (λ h. ground arith) (ground arith) (ground arith)
          | inr refused ↦ Step.unchanged (ground arith)
        ]
  ]
]

pub Step-IsValid : {s t : Lifecycle} → Step s t → IsValid s → IsValid t
unfolding set_audited
Step-IsValid {s} (Step.unchanged e) h = rw e h
Step-IsValid {s} (Step.added p fresh sound e) h = rw e (Every-insert IsSound p.id p s.by_id h sound)
Step-IsValid {s} (Step.updated key p q found sound u e) h =
    rw e (Every-insert IsSound q.id q s.by_id h own)
  where
    own : IsSound q.id q
    own = let k : IsSound key q = sound (h key p found) in ground arith

pub call-Step : (s : Lifecycle) (c : Call) → Step s (call s c)
unfolding call
call-Step s (open_call position) = open_position-Step s position
call-Step s (transition_call id to) = transition-Step s id to
call-Step s (advance_call id to) = advance-Step s id to
call-Step s (handover_call id to) = handover-Step s id to

-- From a valid object every sequence of calls leads to a valid object: each key holds the record of
-- that id, the market phase mirrors the migration phase, and the control brain is the entry brain
-- unless brain_a handed over to brain_b at or after LP_MINTED.
pub positions_stay-IsValid : (s : Lifecycle) (cs : List Call) → IsValid s → IsValid (run s cs)
unfolding run
positions_stay-IsValid s [] h = h
positions_stay-IsValid s (c ∷ cs) h =
    positions_stay-IsValid (call s c) cs (Step-IsValid (call-Step s c) h)
