-- ===== src/ProfitSweep/Steps.antt =====
-- What each call does to the events, to the counter and to the confirmed ids.
use solana_trading_bot.Prelude.{
  ◌+◌, ◌≡◌, refl, inl, inr, some, true, false, not, ◌&&◌, arith, Option, [], ◌∷◌, ◌++◌, is_str,
  includes, same_text, Bool-cases, Option-cases, Number, gt_zero, ap, String, Arg, absent, foreign,
  given,
}
use solana_trading_bot.Prelude.Decimal.{counter_id}
use solana_trading_bot.Ssot.{ProfitSweepPolicy}
use solana_trading_bot.Store.{insert, contains, eq_of_str_eq}
use solana_trading_bot.ExecutionWalletRegistry.{Registry}
use solana_trading_bot.ProfitSweep.{
  BalanceProvenance, Config, SweepEvent, Sweep, SweepRequest, log_and_answer, sweepable,
  owner_bound, is_reconciled, positive_amount, new_event, record_manual, by_policy, reconcile,
  sweep_profits, find, is_confirmed, simulate_confirm, Call, sweep_call, confirm_call, call,
}

-- What every event of the ledger satisfies.
pub record IsSound (cfg : Config) (e : SweepEvent) : Type 0 where
  pub manual : e.profit_sweep_policy ≡ ProfitSweepPolicy.manual
  pub owned : e.position_owner_wallet_id ≡ given e.execution_wallet_id
  pub positive : gt_zero e.candidate_profits_available_to_sweep ≡ true
  pub checked :
      (cfg.candidate_balance_reconciliation_required
        && not (is_reconciled e.candidate_balance_reconciliation_status))
      ≡ false

pub data Step (cfg : Config) (s t : Sweep) : Type 0 where
  unchanged : t.events ≡ s.events → t.seq ≡ s.seq → t.confirmed ≡ s.confirmed → Step cfg s t
  recorded_step :
      (e : SweepEvent)
      → e.id ≡ counter_id "swp-" (s.seq + 1)
      → IsSound cfg e
      → t.events ≡ s.events ++ e ∷ []
      → t.seq ≡ s.seq + 1
      → t.confirmed ≡ s.confirmed
      → Step cfg s t
  confirmed_step :
      (id : String) (e : SweepEvent)
      → find id s.events ≡ some e
      → contains id s.confirmed ≡ false
      → t.events ≡ s.events
      → t.seq ≡ s.seq
      → t.confirmed ≡ insert id tt s.confirmed
      → Step cfg s t

positive_amount-gt_zero :
    (req : SweepRequest) (x : Number)
    → positive_amount req.candidate_profits_available_to_sweep ≡ some x
    → gt_zero x ≡ true
positive_amount-gt_zero req x h = ground arith

given_of_same_text :
    (owner : Arg String) (id : String) → same_text owner id ≡ true → owner ≡ given id
given_of_same_text absent id h = absurd (ground arith)
given_of_same_text foreign id h = absurd (ground arith)
given_of_same_text (given x) id h = ap given (eq_of_str_eq x id h)

-- The owner of the position is the wallet that the gate has bound.
owner_bound-given :
    (req : SweepRequest) (wallet : String)
    → owner_bound req ≡ some wallet
    → req.position_owner_wallet_id ≡ given wallet
owner_bound-given req wallet h = elim (Option-cases (is_str req.execution_wallet_id)) [
  | inl missing ↦ absurd (ground arith)
  | inr (id, e) ↦ elim (Bool-cases (same_text req.position_owner_wallet_id id)) [
    | inr stranger ↦ absurd (ground arith)
    | inl owner ↦
        let same : id ≡ wallet = ground arith in
        rw (← same) (given_of_same_text req.position_owner_wallet_id id owner)
  ]
]

manual-Step :
    (cfg : Config) (s : Sweep) (req : SweepRequest) (wallet : String)
    (provenance : BalanceProvenance)
    → req.position_owner_wallet_id ≡ given wallet
    → (cfg.candidate_balance_reconciliation_required
        && not (is_reconciled req.candidate_balance_reconciliation_status))
      ≡ false
    → Step cfg s (record_manual cfg s req ProfitSweepPolicy.manual wallet provenance).0
unfolding record_manual log_and_answer
manual-Step cfg s req wallet provenance owner checked =
    elim (Option-cases (positive_amount req.candidate_profits_available_to_sweep)) [
      | inl missing ↦ unchanged (ground arith) (ground arith) (ground arith)
      | inr (amount, found) ↦
          let event = new_event (s.seq + 1) req ProfitSweepPolicy.manual wallet provenance amount in
          let sound : IsSound cfg event = record {
            manual = refl;
            owned = owner;
            positive = positive_amount-gt_zero req amount found;
            checked = checked;
          } in
          recorded_step event refl sound (ground arith) (ground arith) (ground arith)
    ]

by_policy-Step :
    (cfg : Config) (s : Sweep) (req : SweepRequest) (policy : ProfitSweepPolicy) (wallet : String)
    (provenance : BalanceProvenance)
    → req.position_owner_wallet_id ≡ given wallet
    → (cfg.candidate_balance_reconciliation_required
        && not (is_reconciled req.candidate_balance_reconciliation_status))
      ≡ false
    → Step cfg s (by_policy cfg s req policy wallet provenance).0
unfolding by_policy log_and_answer
by_policy-Step cfg s req ProfitSweepPolicy.auto_immediate wallet provenance owner checked =
    unchanged refl refl refl
by_policy-Step cfg s req ProfitSweepPolicy.periodic wallet provenance owner checked =
    unchanged refl refl refl
by_policy-Step cfg s req ProfitSweepPolicy.manual wallet provenance owner checked =
    manual-Step cfg s req wallet provenance owner checked

reconcile-Step :
    (cfg : Config) (s : Sweep) (req : SweepRequest) (policy : ProfitSweepPolicy) (wallet : String)
    (provenance : BalanceProvenance)
    → req.position_owner_wallet_id ≡ given wallet
    → Step cfg s (reconcile cfg s req policy wallet provenance).0
unfolding reconcile log_and_answer
reconcile-Step cfg s req policy wallet provenance owner =
    elim (Bool-cases (
      cfg.candidate_balance_reconciliation_required
      && not (is_reconciled req.candidate_balance_reconciliation_status))) [
        | inl blocked ↦ unchanged (ground arith) (ground arith) (ground arith)
        | inr checked ↦
            let e : (reconcile cfg s req policy wallet provenance).0
                ≡ (by_policy cfg s req policy wallet provenance).0 =
              ground arith in
            rw e (by_policy-Step cfg s req policy wallet provenance owner checked)
      ]

pub sweep-Step :
    (cfg : Config) (registry : Option Registry) (s : Sweep) (req : SweepRequest)
    → Step cfg s (sweep_profits cfg registry s req).0
unfolding sweep_profits log_and_answer
sweep-Step cfg registry s req = elim (Option-cases (is_str req.audit_actor)) [
  | inl anonymous ↦ unchanged (ground arith) (ground arith) (ground arith)
  | inr (actor, a) ↦ elim (Bool-cases (same_text req.permission_role "admin")) [
    | inr denied ↦ unchanged (ground arith) (ground arith) (ground arith)
    | inl admin ↦ elim (Option-cases (includes req.profit_sweep_policy)) [
      | inl bad ↦ unchanged (ground arith) (ground arith) (ground arith)
      | inr (policy, p) ↦ elim (Option-cases (owner_bound req)) [
        | inl stranger ↦ unchanged (ground arith) (ground arith) (ground arith)
        | inr (wallet, w) ↦ elim (Bool-cases (sweepable registry wallet)) [
          | inr closed ↦ unchanged (ground arith) (ground arith) (ground arith)
          | inl serving ↦ elim (Option-cases (includes req.candidate_balance_provenance)) [
            | inl unknown ↦ unchanged (ground arith) (ground arith) (ground arith)
            | inr (provenance, q) ↦
                let e : (sweep_profits cfg registry s req).0
                    ≡ (reconcile cfg s req policy wallet provenance).0 =
                  ground arith in
                rw e (
                  reconcile-Step cfg s req policy wallet provenance
                    (owner_bound-given req wallet w))
          ]
        ]
      ]
    ]
  ]
]

pub confirm-Step : (cfg : Config) (s : Sweep) (id : String) → Step cfg s (simulate_confirm s id).0
unfolding simulate_confirm
confirm-Step cfg s id = elim (Option-cases (find id s.events)) [
  | inl missing ↦ unchanged (ground arith) (ground arith) (ground arith)
  | inr (e, found) ↦ elim (Bool-cases (is_confirmed s id)) [
    | inl again ↦ unchanged (ground arith) (ground arith) (ground arith)
    | inr new_id ↦ confirmed_step id e found new_id (ground arith) (ground arith) (ground arith)
  ]
]

pub call-Step : (cfg : Config) (s : Sweep) (c : Call) → Step cfg s (call cfg s c)
unfolding call
call-Step cfg s (sweep_call registry req) = sweep-Step cfg registry s req
call-Step cfg s (confirm_call id) = confirm-Step cfg s id
