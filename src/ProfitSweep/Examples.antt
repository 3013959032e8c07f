-- ===== src/ProfitSweep/Examples.antt =====
-- A manual sweep that is recorded and confirmed.
use solana_trading_bot.Prelude.{
  ◌≡◌, refl, none, given, absent, true, false, List, [], ◌∷◌, ok, refused, Number,
}
use solana_trading_bot.Prelude.Decimal.{counter_id}
use solana_trading_bot.Ssot.{ProfitSweepPolicy}
use solana_trading_bot.Store.{lookup}
use solana_trading_bot.ProfitSweep.{
  BalanceProvenance, ReconciliationStatus, default_config, Sweep, SweepRequest, create_profit_sweep,
  find, is_confirmed, simulate_confirm, already_confirmed, Call, sweep_call, confirm_call, run,
}
use solana_trading_bot.ProfitSweep.Ledger.{IsValid, empty-IsValid, sweep_ledger-IsValid}
use solana_trading_bot.ProfitSweep.Confirmation.{confirmed_once}

abbrev amount : Number
amount = record { negative = false; mantissa = 5; exponent = 1075 }

abbrev request : SweepRequest
request = record {
  audit_actor = given "ops";
  permission_role = given "admin";
  request_id = absent;
  profit_sweep_policy = given ProfitSweepPolicy.manual;
  execution_wallet_id = given "w1";
  position_owner_wallet_id = given "w1";
  candidate_balance_provenance = given BalanceProvenance.on_chain;
  candidate_balance_reconciliation_status = given ReconciliationStatus.reconciled;
  profit_sweep_interval_ms = absent;
  candidate_profits_available_to_sweep = given amount;
}

abbrev calls : List Call
calls = sweep_call none request ∷ confirm_call (counter_id "swp-" 1) ∷ sweep_call none request ∷ []

sweep_ledger-IsValid_example : IsValid default_config (run default_config create_profit_sweep calls)
sweep_ledger-IsValid_example =
    sweep_ledger-IsValid default_config create_profit_sweep calls (empty-IsValid default_config)

-- The ledger with one event that nobody has confirmed.
abbrev one_event : Sweep
one_event = record create_profit_sweep {
  events =
      record {
        id = "swp-1";
        profit_sweep_policy = ProfitSweepPolicy.manual;
        execution_wallet_id = "w1";
        position_owner_wallet_id = given "w1";
        candidate_profits_available_to_sweep = amount;
        candidate_balance_provenance = BalanceProvenance.on_chain;
        candidate_balance_reconciliation_status = given ReconciliationStatus.reconciled;
      }
      ∷ [];
  seq = 1;
}

accepted : (simulate_confirm one_event "swp-1").1 ≡ ok "swp-1"
unfolding simulate_confirm find lookup
accepted = refl

confirmed_once_example :
    is_confirmed (run default_config (simulate_confirm one_event "swp-1").0 calls) "swp-1" ≡ true
    × simulate_confirm (run default_config (simulate_confirm one_event "swp-1").0 calls) "swp-1"
      ≡ (run default_config (simulate_confirm one_event "swp-1").0 calls, refused already_confirmed)
confirmed_once_example = confirmed_once default_config one_event "swp-1" calls accepted
