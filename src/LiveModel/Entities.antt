-- ===== src/LiveModel/Entities.antt =====
-- The names of the entities (LIVE_MODEL_ENTITIES), the spec of each, and who owns its data
-- (DATA_OWNERSHIP) in packages/contracts/src/live-model.mjs.
use solana_trading_bot.Prelude.{String, List, [], ◌∷◌}
use solana_trading_bot.LiveModel.Rules.{Spec}
use solana_trading_bot.LiveModel.Trading
use solana_trading_bot.LiveModel.Runtime

pub data Entity : Type 0 where
  leader_wallet leader_trade detected_signal token_candidate market_snapshot route_quote risk_budget
        decision execution_intent execution_plan signed_transaction broadcast_attempt confirmation
        fill position exit_plan incident audit_event diagnostic_run simulation_result
        connectivity_check :
      Entity

abbrev pub entity_name : Entity → String
entity_name leader_wallet = "LeaderWallet"
entity_name leader_trade = "LeaderTrade"
entity_name detected_signal = "DetectedSignal"
entity_name token_candidate = "TokenCandidate"
entity_name market_snapshot = "MarketSnapshot"
entity_name route_quote = "RouteQuote"
entity_name risk_budget = "RiskBudget"
entity_name decision = "Decision"
entity_name execution_intent = "ExecutionIntent"
entity_name execution_plan = "ExecutionPlan"
entity_name signed_transaction = "SignedTransaction"
entity_name broadcast_attempt = "BroadcastAttempt"
entity_name confirmation = "Confirmation"
entity_name fill = "Fill"
entity_name position = "Position"
entity_name exit_plan = "ExitPlan"
entity_name incident = "Incident"
entity_name audit_event = "AuditEvent"
entity_name diagnostic_run = "DiagnosticRun"
entity_name simulation_result = "SimulationResult"
entity_name connectivity_check = "ConnectivityCheck"

-- LIVE_MODEL_ENTITIES
abbrev pub live_model_entities : List Entity
live_model_entities =
    leader_wallet ∷ leader_trade ∷ detected_signal ∷ token_candidate ∷ market_snapshot ∷ route_quote
    ∷ risk_budget ∷ decision ∷ execution_intent ∷ execution_plan ∷ signed_transaction
    ∷ broadcast_attempt ∷ confirmation ∷ fill ∷ position ∷ exit_plan ∷ incident ∷ audit_event
    ∷ diagnostic_run ∷ simulation_result ∷ connectivity_check ∷ []

-- `ENTITY_SPECS[entityName].fields`
abbrev pub entity_spec : Entity → Spec
entity_spec leader_wallet = Trading.leader_wallet
entity_spec leader_trade = Trading.leader_trade
entity_spec detected_signal = Trading.detected_signal
entity_spec token_candidate = Trading.token_candidate
entity_spec market_snapshot = Trading.market_snapshot
entity_spec route_quote = Trading.route_quote
entity_spec risk_budget = Trading.risk_budget
entity_spec decision = Trading.decision
entity_spec execution_intent = Trading.execution_intent
entity_spec execution_plan = Trading.execution_plan
entity_spec signed_transaction = Trading.signed_transaction
entity_spec broadcast_attempt = Runtime.broadcast_attempt
entity_spec confirmation = Runtime.confirmation
entity_spec fill = Runtime.fill
entity_spec position = Runtime.position
entity_spec exit_plan = Runtime.exit_plan
entity_spec incident = Runtime.incident
entity_spec audit_event = Runtime.audit_event
entity_spec diagnostic_run = Runtime.diagnostic_run
entity_spec simulation_result = Runtime.simulation_result
entity_spec connectivity_check = Runtime.connectivity_check

pub data DataStore : Type 0 where
  clickhouse ephemeral json postgres redis : DataStore

pub record Ownership : Type 0 where
  pub owner : String
  pub source_of_truth : DataStore
  pub stores : List DataStore

abbrev owned_by : String → DataStore → List DataStore → Ownership
owned_by owner sot stores = record { owner = owner; source_of_truth = sot; stores = stores }

-- DATA_OWNERSHIP
abbrev pub data_ownership : Entity → Ownership
data_ownership leader_wallet = owned_by "wallet-intelligence" postgres (postgres ∷ redis ∷ [])
data_ownership leader_trade = owned_by "ingestion" clickhouse (clickhouse ∷ redis ∷ [])
data_ownership detected_signal = owned_by "trading-engine" clickhouse (clickhouse ∷ [])
data_ownership token_candidate = owned_by "token-safety" redis (redis ∷ clickhouse ∷ [])
data_ownership market_snapshot = owned_by "provider-adapters" clickhouse (clickhouse ∷ redis ∷ [])
data_ownership route_quote = owned_by "provider-adapters" redis (redis ∷ [])
data_ownership risk_budget = owned_by "risk" redis (redis ∷ postgres ∷ [])
data_ownership decision = owned_by "trading-engine" postgres (postgres ∷ clickhouse ∷ [])
data_ownership execution_intent = owned_by "decision-ledger" postgres (postgres ∷ redis ∷ [])
data_ownership execution_plan = owned_by "execution" postgres (postgres ∷ [])
data_ownership signed_transaction = owned_by "execution" ephemeral (ephemeral ∷ postgres ∷ [])
data_ownership broadcast_attempt = owned_by "execution" postgres (postgres ∷ clickhouse ∷ [])
data_ownership confirmation = owned_by "execution" postgres (postgres ∷ clickhouse ∷ [])
data_ownership fill = owned_by "execution" postgres (postgres ∷ clickhouse ∷ [])
data_ownership position = owned_by "positions" postgres (postgres ∷ redis ∷ [])
data_ownership exit_plan = owned_by "positions" postgres (postgres ∷ redis ∷ [])
data_ownership incident = owned_by "safety" postgres (postgres ∷ clickhouse ∷ [])
data_ownership audit_event = owned_by "audit" postgres (postgres ∷ clickhouse ∷ [])
data_ownership diagnostic_run = owned_by "execution" clickhouse (clickhouse ∷ json ∷ [])
data_ownership simulation_result = owned_by "execution" clickhouse (clickhouse ∷ [])
data_ownership connectivity_check = owned_by "provider-adapters" redis (redis ∷ clickhouse ∷ [])
