-- ===== src/PositionLifecycle/Graph.antt =====
-- The transition graph ALLOWED of position-lifecycle.mjs as a relation, with its reachable states.
use solana_trading_bot.Prelude.{◌≡◌, refl, true, arith}
use solana_trading_bot.Ssot.{PositionState}
use solana_trading_bot.PositionLifecycle.{allowed, is_terminal_state}

-- Zero or more allowed transitions.
pub data Reach (s : PositionState) : PositionState → Type 0 where
  here : Reach s s
  next : {t u : PositionState} → Reach s t → allowed t u ≡ true → Reach s u

pub Reach-trans : {s t u : PositionState} → Reach s t → Reach t u → Reach s u
Reach-trans r here = r
Reach-trans r (next q h) = next (Reach-trans r q) h

no_exit : (t u : PositionState) → is_terminal_state t ≡ true → allowed t u ≡ true → t ≡ u
no_exit t u h a = ground arith

-- Nothing is reached from a terminal state but itself.
pub Reach-terminal : {s t : PositionState} → is_terminal_state s ≡ true → Reach s t → s ≡ t
Reach-terminal h here = refl
Reach-terminal {s} h (next {t} {u} r a) =
    let e : s ≡ t = Reach-terminal h r in ground (arith, no_exit t u)
