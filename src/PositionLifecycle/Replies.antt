-- ===== src/PositionLifecycle/Replies.antt =====
-- What the object's methods do to it, by how they answer.
use solana_trading_bot.Prelude.{◌≡◌, Bool, true, false, is_ok, arith}
use solana_trading_bot.Audit.{append}
use solana_trading_bot.PositionLifecycle.{
  Lifecycle, open_position, transition, advance_migration_phase, handover_control_brain,
  set_audited, position_entry, Call, open_call, transition_call, advance_call, handover_call, call,
}

-- Did the method answer `ok: true`?
abbrev pub call_ok : Lifecycle → Call → Bool
call_ok s (open_call position) = is_ok (open_position s position).1
call_ok s (transition_call id to) = is_ok (transition s id to).1
call_ok s (advance_call id to) = is_ok (advance_migration_phase s id to).1
call_ok s (handover_call id to) = is_ok (handover_control_brain s id to).1

-- A refused call leaves the object as it was, whichever method refused.
pub refused_unchanged : (s : Lifecycle) (c : Call) → call_ok s c ≡ false → call s c ≡ s
unfolding call open_position transition advance_migration_phase handover_control_brain
refused_unchanged s (open_call position) h = ground arith
refused_unchanged s (transition_call id to) h = ground arith
refused_unchanged s (advance_call id to) h = ground arith
refused_unchanged s (handover_call id to) h = ground arith

-- An accepted call adds exactly one audit entry, which names the position resource.
pub accepted_audited :
    (s : Lifecycle) (c : Call)
    → call_ok s c ≡ true
    → (call s c).audit ≡ append s.audit position_entry
unfolding call open_position transition advance_migration_phase handover_control_brain set_audited
accepted_audited s (open_call position) h = ground arith
accepted_audited s (transition_call id to) h = ground arith
accepted_audited s (advance_call id to) h = ground arith
accepted_audited s (handover_call id to) h = ground arith
