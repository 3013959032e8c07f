-- ===== src/ProfitSweep.antt =====
-- packages/profit-sweep/src/profit-sweep.mjs: the ledger of simulated profit sweeps. The factory's event
-- list, its set of confirmed ids, its counter and its audit log are the fields of `Sweep`; the merged
-- configuration and the wallet registry that the factory may be given are arguments.
mod Model
pub mod Steps
pub mod Ledger
pub mod Confirmation
mod Examples
use solana_trading_bot.Prelude.{
  String, ℕ, ◌+◌, Bool, true, false, not, ◌&&◌, Option, none, some, List, [], ◌∷◌, ◌++◌,
  if◌then◌else◌, Arg, given, includes, is_str, same_text, template, Reply, ok, refused, coded,
  ApiErrorCode, api_error_code_name, str_eq, Number, gt_zero,
}
use solana_trading_bot.Prelude.Decimal.{counter_id}
use mathlib.Core.Option
pub use Model.*
use solana_trading_bot.Ssot.{ProfitSweepPolicy, ExecutionWalletStatus}
use solana_trading_bot.Store.{Store, lookup, insert, contains}
use solana_trading_bot.Audit.{AuditLog, Entry, append}
use solana_trading_bot.ExecutionWalletRegistry.{Registry}

pub sweep_entry : SweepRequest → String → Option ApiErrorCode → Entry
sweep_entry req why code = record {
  command_type = some "sweep_profits";
  resource_type = some "profit_sweep";
  audit_scope = some "profit_sweep";
  audit_actor = includes req.audit_actor;
  audit_reason = some why;
  permission_role = includes req.permission_role;
  api_error_code = Option.map api_error_code_name code;
  request_id = is_str req.request_id;
  idempotency_key = none;
  event_timestamp = none;
}

-- `record(req, why, code); return reply`
pub log_and_answer {ℓ} :
    {A : Type ℓ} → Sweep → SweepRequest → String → Option ApiErrorCode → A → Sweep × A
log_and_answer s req why code reply =
    (record s { audit = append s.audit (sweep_entry req why code) }, reply)

-- `record(req, why); return { ok: false, reason }`
abbrev pub refuse : Sweep → SweepRequest → String → Reason → Sweep × Reply Reason Answer
refuse s req why reason = log_and_answer s req why none (refused reason)

abbrev pub is_sweepable_status : ExecutionWalletStatus → Bool
is_sweepable_status ExecutionWalletStatus.active = true
is_sweepable_status ExecutionWalletStatus.draining = true
is_sweepable_status _ = false

-- `sweepable(id)`; `none` is a component with no registry.
abbrev pub sweepable : Option Registry → String → Bool
sweepable none id = true
sweepable (some m) id = elim (lookup id m) [
  | none ↦ false
  | some w ↦ is_sweepable_status w.execution_wallet_status
]

-- The wallet that owns what it sweeps.
abbrev pub owner_bound : SweepRequest → Option String
owner_bound req = elim (is_str req.execution_wallet_id) [
  | none ↦ none
  | some id ↦ if same_text req.position_owner_wallet_id id then some id else none
]

abbrev pub is_reconciled : Arg ReconciliationStatus → Bool
is_reconciled (given reconciled) = true
is_reconciled _ = false

abbrev pub reconciliation_name : Arg ReconciliationStatus → String
reconciliation_name (given reconciled) = "reconciled"
reconciliation_name (given pending) = "pending"
reconciliation_name (given mismatch) = "mismatch"
reconciliation_name _ = "invalid"

-- `isNum(x) && x > 0`
abbrev pub positive_amount : Arg Number → Option Number
positive_amount (given x) = if gt_zero x then some x else none
positive_amount _ = none

abbrev pub new_event :
    ℕ → SweepRequest → ProfitSweepPolicy → String → BalanceProvenance → Number → SweepEvent
new_event seq req policy wallet provenance amount = record {
  id = counter_id "swp-" seq;
  profit_sweep_policy = policy;
  execution_wallet_id = wallet;
  position_owner_wallet_id = req.position_owner_wallet_id;
  candidate_profits_available_to_sweep = amount;
  candidate_balance_provenance = provenance;
  candidate_balance_reconciliation_status = req.candidate_balance_reconciliation_status;
}

-- The end of `sweepProfits` for the manual policy.
pub record_manual :
    Config
    → Sweep
    → SweepRequest
    → ProfitSweepPolicy
    → String
    → BalanceProvenance
    → Sweep × Reply Reason Answer
unfolding log_and_answer
record_manual cfg s req policy wallet provenance =
    elim (positive_amount req.candidate_profits_available_to_sweep) [
      | none ↦ refuse s req "no_profits_to_sweep" no_profits_to_sweep
      | some amount ↦
          let event = new_event (s.seq + 1) req policy wallet provenance amount in
          log_and_answer (record s { events = s.events ++ event ∷ []; seq = s.seq + 1 }) req
            (template ("sweep_profits:manual:recorded:" ∷ event.id ∷ [])) none
            (ok (recorded cfg.candidate_profit_sweep_confirmation_required event))
    ]

-- The part after the gates, by the policy.
pub by_policy :
    Config
    → Sweep
    → SweepRequest
    → ProfitSweepPolicy
    → String
    → BalanceProvenance
    → Sweep × Reply Reason Answer
unfolding record_manual
by_policy cfg s req ProfitSweepPolicy.auto_immediate wallet provenance =
    log_and_answer s req "sweep_profits:auto_immediate:eligibility_only" none (
      ok (
        eligibility cfg.candidate_auto_sweep_enabled ProfitSweepPolicy.auto_immediate
          (includes req.profit_sweep_interval_ms)))
by_policy cfg s req ProfitSweepPolicy.periodic wallet provenance =
    log_and_answer s req "sweep_profits:periodic:eligibility_only" none
      (ok (eligibility true ProfitSweepPolicy.periodic (includes req.profit_sweep_interval_ms)))
by_policy cfg s req ProfitSweepPolicy.manual wallet provenance =
    record_manual cfg s req ProfitSweepPolicy.manual wallet provenance

-- The reconciliation gate.
pub reconcile :
    Config
    → Sweep
    → SweepRequest
    → ProfitSweepPolicy
    → String
    → BalanceProvenance
    → Sweep × Reply Reason Answer
unfolding by_policy
reconcile cfg s req policy wallet provenance =
    if cfg.candidate_balance_reconciliation_required
      && not (is_reconciled req.candidate_balance_reconciliation_status)
    then refuse s req
        (template (
          "reconciliation_not_reconciled:"
          ∷ reconciliation_name req.candidate_balance_reconciliation_status
          ∷ []))
        reconciliation_not_reconciled
    else by_policy cfg s req policy wallet provenance

pub sweep_profits : Config → Option Registry → Sweep → SweepRequest → Sweep × Reply Reason Answer
unfolding reconcile log_and_answer
sweep_profits cfg registry s req = elim (is_str req.audit_actor) [
  | none ↦ (s, refused audit_actor_required)
  | some _ ↦
      if not (same_text req.permission_role "admin")
      then log_and_answer s req "denied: admin_required" (some ApiErrorCode.permission_denied)
          (coded ApiErrorCode.permission_denied admin_required)
      else elim (includes req.profit_sweep_policy) [
        | none ↦ refuse s req "invalid_profit_sweep_policy" invalid_profit_sweep_policy
        | some policy ↦ elim (owner_bound req) [
          | none ↦ refuse s req "not_owner_bound" not_owner_bound
          | some wallet ↦
              if not (sweepable registry wallet)
              then refuse s req "execution_wallet_not_sweepable" execution_wallet_not_sweepable
              else elim (includes req.candidate_balance_provenance) [
                | none ↦ refuse s req "invalid_balance_provenance" invalid_balance_provenance
                | some provenance ↦ reconcile cfg s req policy wallet provenance
              ]
        ]
      ]
]

-- `events.find((e) => e.id === id)`
pub find : String → List SweepEvent → Option SweepEvent
find id [] = none
find id (e ∷ es) = let rest = find id es in if str_eq e.id id then some e else rest

abbrev pub is_confirmed : Sweep → String → Bool
is_confirmed s id = contains id s.confirmed

-- The answer is the id.
pub simulate_confirm : Sweep → String → Sweep × Reply Reason String
unfolding find
simulate_confirm s id = elim (find id s.events) [
  | none ↦ (s, refused sweep_event_not_found)
  | some _ ↦
      if is_confirmed s id
      then (s, refused already_confirmed)
      else (record s { confirmed = insert id tt s.confirmed }, ok id)
]

-- `events.filter((e) => confirmed.has(e.id))`
pub confirmed_of : Store (Unit {0}) → List SweepEvent → List SweepEvent
confirmed_of c [] = []
confirmed_of c (e ∷ es) = let rest = confirmed_of c es in if contains e.id c then e ∷ rest else rest

abbrev pub candidate_sweep_history : Sweep → List SweepEvent
candidate_sweep_history s = confirmed_of s.confirmed s.events

pub data Call : Type 0 where
  sweep_call : Option Registry → SweepRequest → Call
  confirm_call : String → Call

pub call : Config → Sweep → Call → Sweep
call cfg s (sweep_call registry req) = (sweep_profits cfg registry s req).0
call cfg s (confirm_call id) = (simulate_confirm s id).0

pub run : Config → Sweep → List Call → Sweep
run cfg s [] = s
run cfg s (c ∷ cs) = run cfg (call cfg s c) cs
