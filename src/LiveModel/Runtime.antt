-- ===== src/LiveModel/Runtime.antt =====
-- ENTITY_SPECS of packages/contracts/src/live-model.mjs: the fields of the entities, from the broadcast to the checks of a run.
use solana_trading_bot.Prelude.{[], ◌∷◌}
use solana_trading_bot.LiveModel.Vocabulary.{
  bundle_status, check_status, diagnostic_kind, incident_severity, position_state, submit_backend,
  trade_side, validation_status,
}
use solana_trading_bot.LiveModel.Rules.{
  Spec, FieldType, required, optional, required_member, optional_member,
}

abbrev pub broadcast_attempt : Spec
broadcast_attempt =
    ("attempt_id", required FieldType.string)
    ∷ ("intent_id", required FieldType.string)
    ∷ ("submit_backend", required_member submit_backend)
    ∷ ("signature", optional FieldType.string)
    ∷ ("bundle_status", optional_member bundle_status)
    ∷ ("ok", required FieldType.boolean)
    ∷ ("attempted_at", required FieldType.string)
    ∷ []

abbrev pub confirmation : Spec
confirmation =
    ("intent_id", required FieldType.string)
    ∷ ("signature", required FieldType.string)
    ∷ ("confirmed", required FieldType.boolean)
    ∷ ("slot", optional FieldType.number)
    ∷ ("error", optional FieldType.string)
    ∷ ("confirmed_at", optional FieldType.string)
    ∷ []

abbrev pub fill : Spec
fill =
    ("fill_id", required FieldType.string)
    ∷ ("intent_id", required FieldType.string)
    ∷ ("token_mint", required FieldType.string)
    ∷ ("side", required_member trade_side)
    ∷ ("qty", required FieldType.number)
    ∷ ("price_usd", required FieldType.number)
    ∷ ("proceeds_usd", optional FieldType.number)
    ∷ ("fees_usd", optional FieldType.number)
    ∷ ("fill_source", optional FieldType.string)
    ∷ ("filled_at", required FieldType.string)
    ∷ []

abbrev pub position : Spec
position =
    ("position_id", required FieldType.string)
    ∷ ("token_mint", required FieldType.string)
    ∷ ("leader_address", optional FieldType.string)
    ∷ ("state", required_member position_state)
    ∷ ("qty", optional FieldType.number)
    ∷ ("avg_price_usd", optional FieldType.number)
    ∷ ("realized_usd", optional FieldType.number)
    ∷ ("unrealized_usd", optional FieldType.number)
    ∷ ("opened_at", optional FieldType.string)
    ∷ ("updated_at", optional FieldType.string)
    ∷ []

abbrev pub exit_plan : Spec
exit_plan =
    ("position_id", required FieldType.string)
    ∷ ("reason", required FieldType.string)
    ∷ ("target_fraction", required FieldType.number)
    ∷ ("trailing_stop_pct", optional FieldType.number)
    ∷ ("tp1_pct", optional FieldType.number)
    ∷ ("created_at", optional FieldType.string)
    ∷ []

abbrev pub incident : Spec
incident =
    ("incident_id", required FieldType.string)
    ∷ ("severity", required_member incident_severity)
    ∷ ("scope", required FieldType.string)
    ∷ ("reason_code", required FieldType.string)
    ∷ ("detail", optional FieldType.object)
    ∷ ("created_at", required FieldType.string)
    ∷ []

abbrev pub audit_event : Spec
audit_event =
    ("audit_scope", required FieldType.string)
    ∷ ("audit_reason", required FieldType.string)
    ∷ ("command_type", optional FieldType.string)
    ∷ ("actor_ref", optional FieldType.string)
    ∷ ("detail", optional FieldType.object)
    ∷ ("at", required FieldType.string)
    ∷ []

abbrev pub diagnostic_run : Spec
diagnostic_run =
    ("run_id", required FieldType.string)
    ∷ ("kind", required_member diagnostic_kind)
    ∷ ("readiness", optional_member validation_status)
    ∷ ("checks", required FieldType.array)
    ∷ ("created_at", required FieldType.string)
    ∷ []

abbrev pub simulation_result : Spec
simulation_result =
    ("token_mint", required FieldType.string)
    ∷ ("side", required_member trade_side)
    ∷ ("simulated_ok", required FieldType.boolean)
    ∷ ("price_impact_pct", optional FieldType.number)
    ∷ ("error", optional FieldType.string)
    ∷ ("simulated_at", optional FieldType.string)
    ∷ []

abbrev pub connectivity_check : Spec
connectivity_check =
    ("provider", required FieldType.string)
    ∷ ("status", required_member check_status)
    ∷ ("ok", required FieldType.boolean)
    ∷ ("latency_ms", optional FieldType.number)
    ∷ ("detail", optional FieldType.object)
    ∷ ("checked_at", required FieldType.string)
    ∷ []
