-- ===== src/PositionLifecycle/History.antt =====
-- What any sequence of calls does to each position that the object already holds.
use solana_trading_bot.Prelude.{◌≡◌, refl, ◌∙◌, ◌⊎◌, inl, inr, ◌≤◌, arith, List, [], ◌∷◌}
use solana_trading_bot.Ssot.{StrategyBrain}
use solana_trading_bot.Store.Evolution.{
  Evolves, Evolves-refl, Evolves-trans, Evolves-insert, Evolves-insert_new,
}
use solana_trading_bot.Audit.{Extends, Extends-refl, Extends-trans, append-Extends}
use solana_trading_bot.PositionLifecycle.{
  Position, Lifecycle, mig_order, set_audited, Call, call, run,
}
use solana_trading_bot.PositionLifecycle.Graph.{Reach, here, next, Reach-trans}
use solana_trading_bot.PositionLifecycle.Invariant.{
  IsValid, Updates, Step, unchanged, added, updated, call-Step, Step-IsValid,
}

-- `q` is a later record of the position `p`.
pub record Follows (p q : Position) : Type 0 where
  pub id_kept : q.id ≡ p.id
  pub entry_brain_kept : q.entry_brain ≡ p.entry_brain
  pub config_version_kept : q.config_version_at_entry ≡ p.config_version_at_entry
  pub exit_route_kept : q.active_exit_route ≡ p.active_exit_route
  pub phase_forward : mig_order p.migration_phase ≤ mig_order q.migration_phase
  pub state_reached : Reach p.position_state q.position_state
  pub control_forward :
      (q.current_control_brain ≡ p.current_control_brain)
      ⊎ ((p.current_control_brain ≡ StrategyBrain.brain_a)
          × (q.current_control_brain ≡ StrategyBrain.brain_b))

Follows-refl : (p : Position) → Follows p p
Follows-refl p = record {
  id_kept = refl;
  entry_brain_kept = refl;
  config_version_kept = refl;
  exit_route_kept = refl;
  phase_forward = omega arith;
  state_reached = here;
  control_forward = inl refl;
}

Follows-trans : (p q r : Position) → Follows p q → Follows q r → Follows p r
Follows-trans p q r f g = record {
  id_kept = g.id_kept ∙ f.id_kept;
  entry_brain_kept = g.entry_brain_kept ∙ f.entry_brain_kept;
  config_version_kept = g.config_version_kept ∙ f.config_version_kept;
  exit_route_kept = g.exit_route_kept ∙ f.exit_route_kept;
  phase_forward = omega arith;
  state_reached = Reach-trans f.state_reached g.state_reached;
  control_forward = ground arith;
}

Updates-Reach : {p q : Position} → Updates p q → Reach p.position_state q.position_state
Updates-Reach {p} {q} u = elim u.state_allowed [
  | inl same ↦ rw same here
  | inr edge ↦ next here edge
]

Updates-Follows : {p q : Position} → Updates p q → Follows p q
Updates-Follows u = record {
  id_kept = u.id_kept;
  entry_brain_kept = u.entry_brain_kept;
  config_version_kept = u.config_version_kept;
  exit_route_kept = u.exit_route_kept;
  phase_forward = u.phase_forward;
  state_reached = Updates-Reach u;
  control_forward = u.control_forward;
}

-- One step on the map and on the log.
record Later (s t : Lifecycle) : Type 0 where
  positions : Evolves Follows s.by_id t.by_id
  log : Extends s.audit t.audit

Step-positions : {s t : Lifecycle} → Step s t → IsValid s → Evolves Follows s.by_id t.by_id
unfolding set_audited
Step-positions {s} (unchanged e) h = rw e (Evolves-refl Follows Follows-refl s.by_id)
Step-positions {s} (added p fresh sound e) h =
    rw e (Evolves-insert_new Follows Follows-refl p.id p s.by_id fresh)
Step-positions {s} (updated key p q found sound u e) h =
    let same : q.id ≡ key = u.id_kept ∙ (h key p found).keyed in
    rw e (Evolves-insert Follows Follows-refl q.id p q s.by_id (rw same found) (Updates-Follows u))

Step-log : {s t : Lifecycle} → Step s t → Extends s.audit t.audit
unfolding set_audited
Step-log {s} (unchanged e) = rw e (Extends-refl s.audit)
Step-log {s} (added p fresh sound e) = rw e (append-Extends s.audit _)
Step-log {s} (updated key p q found sound u e) = rw e (append-Extends s.audit _)

-- From a valid object, after any sequence of calls every position is still there under its key,
-- with its id, entry brain, exit route and config version at entry unchanged, a migration phase no
-- earlier, a state that the graph reaches from the old one, and the same control brain or a handover
-- from brain_a to brain_b; and the audit log has kept all of its entries.
pub positions_evolve :
    (s : Lifecycle) (cs : List Call)
    → IsValid s
    → Evolves Follows s.by_id (run s cs).by_id × Extends s.audit (run s cs).audit
unfolding run
positions_evolve s [] h = (Evolves-refl Follows Follows-refl s.by_id, Extends-refl s.audit)
positions_evolve s (c ∷ cs) h =
    let st = call-Step s c in
    let rest = positions_evolve (call s c) cs (Step-IsValid st h) in
    (
      Evolves-trans Follows Follows-trans s.by_id (call s c).by_id (run (call s c) cs).by_id
          (Step-positions st h) rest.0,
      Extends-trans s.audit (call s c).audit (run (call s c) cs).audit (Step-log st) rest.1,
    )
