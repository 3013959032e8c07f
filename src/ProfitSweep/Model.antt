-- ===== src/ProfitSweep/Model.antt =====
-- The sweeps of packages/profit-sweep: configuration, events, requests and answers.
use solana_trading_bot.Prelude.{String, ℕ, Bool, true, false, Option, List, [], Arg, Number}
use solana_trading_bot.Ssot.{ProfitSweepPolicy}
use solana_trading_bot.Store.{Store}
use solana_trading_bot.Audit.{AuditLog}

-- BALANCE_PROVENANCE
pub data BalanceProvenance : Type 0 where
  on_chain derived : BalanceProvenance

-- RECONCILIATION_STATUS
pub data ReconciliationStatus : Type 0 where
  reconciled pending mismatch : ReconciliationStatus

pub record Config : Type 0 where
  pub candidate_balance_reconciliation_required : Bool
  pub candidate_profit_sweep_confirmation_required : Bool
  pub candidate_auto_sweep_enabled : Bool

-- DEFAULT_CONFIG
abbrev pub default_config : Config
default_config = record {
  candidate_balance_reconciliation_required = true;
  candidate_profit_sweep_confirmation_required = true;
  candidate_auto_sweep_enabled = false;
}

pub record SweepEvent : Type 0 where
  pub id : String
  pub profit_sweep_policy : ProfitSweepPolicy
  pub execution_wallet_id : String
  pub position_owner_wallet_id : Arg String
  pub candidate_profits_available_to_sweep : Number
  pub candidate_balance_provenance : BalanceProvenance
  pub candidate_balance_reconciliation_status : Arg ReconciliationStatus

pub record Sweep : Type 0 where
  pub events : List SweepEvent
  pub confirmed : Store (Unit {0})
  pub seq : ℕ
  pub audit : AuditLog

abbrev pub create_profit_sweep : Sweep
create_profit_sweep = record { events = []; confirmed = []; seq = 0; audit = [] }

pub record SweepRequest : Type 0 where
  pub audit_actor : Arg String
  pub permission_role : Arg String
  pub request_id : Arg String
  pub profit_sweep_policy : Arg ProfitSweepPolicy
  pub execution_wallet_id : Arg String
  pub position_owner_wallet_id : Arg String
  pub candidate_balance_provenance : Arg BalanceProvenance
  pub candidate_balance_reconciliation_status : Arg ReconciliationStatus
  pub profit_sweep_interval_ms : Arg Number
  pub candidate_profits_available_to_sweep : Arg Number

pub data Reason : Type 0 where
  audit_actor_required admin_required invalid_profit_sweep_policy not_owner_bound
        execution_wallet_not_sweepable invalid_balance_provenance reconciliation_not_reconciled
        no_profits_to_sweep sweep_event_not_found already_confirmed :
      Reason

-- The two answers of an accepted `sweepProfits`.
pub data Answer : Type 0 where
  eligibility : (eligible : Bool) → ProfitSweepPolicy → (interval_ms : Option Number) → Answer
  recorded : (requires_confirmation : Bool) → SweepEvent → Answer
