-- ===== src/AssetTransferIntents/Steps.antt =====
-- What each operation does to the transfers and to the counter.
use solana_trading_bot.Prelude.{
  String, ◌+◌, ◌≡◌, ◌≢◌, inl, inr, none, some, true, false, arith, Arg, is_str, same_text, includes,
  str_eq, Option, Bool-cases, Option-cases,
}
use solana_trading_bot.Prelude.Decimal.{counter_id}
use solana_trading_bot.Ssot.{AssetTransferStatus}
use solana_trading_bot.Store.{lookup, insert, str_eq_refl}
use solana_trading_bot.ExecutionWalletRegistry.{Registry}
use solana_trading_bot.AssetTransferIntents.{
  Transfer, Transfers, Context, CreateRequest, allowed, log_and_answer, destination_eligible,
  is_taken, pending_transfer, store_pending, check_wallets, create_asset_transfer_intent,
  cancel_asset_transfer_intent, owner_after, simulate, Call, create_call, cancel_call,
  simulate_call, call,
}

-- `requested` is the id that a `create` asks for.
pub data Step (requested : Option String) (s t : Transfers) : Type 0 where
  unchanged : t.by_id ≡ s.by_id → t.seq ≡ s.seq → Step requested s t
  generated :
      (source destination : String)
      → source ≢ destination
      → t.by_id
        ≡ insert
            (counter_id "ati-" (s.seq + 1))
            (pending_transfer (counter_id "ati-" (s.seq + 1)) source destination)
            s.by_id
      → t.seq ≡ s.seq + 1
      → Step requested s t
  named :
      (id source destination : String)
      → requested ≡ some id
      → lookup id s.by_id ≡ none
      → source ≢ destination
      → t.by_id ≡ insert id (pending_transfer id source destination) s.by_id
      → t.seq ≡ s.seq
      → Step requested s t
  moved :
      (id : String) (cur : Transfer) (to : AssetTransferStatus)
      → lookup id s.by_id ≡ some cur
      → allowed cur.asset_transfer_status to ≡ true
      → t.by_id
        ≡ insert cur.asset_transfer_intent_id
            (record cur {
              asset_transfer_status = to;
              position_owner_wallet_id = owner_after to cur;
            })
            s.by_id
      → t.seq ≡ s.seq
      → Step requested s t

pub ne_of_str_eq : (x y : String) → str_eq x y ≡ false → x ≢ y
ne_of_str_eq x y h e = let q : str_eq x y ≡ true = rw e (str_eq_refl y) in cc

store_pending-Step :
    (s : Transfers) (req : CreateRequest) (source destination : String)
    → source ≢ destination
    → is_taken (is_str req.asset_transfer_intent_id) s.by_id ≡ false
    → Step (is_str req.asset_transfer_intent_id) s (store_pending s req source destination).0
unfolding store_pending
store_pending-Step s req source destination differ free =
    elim (Option-cases (is_str req.asset_transfer_intent_id)) [
      | inl absent_id ↦ generated source destination differ (ground arith) (ground arith)
      | inr (id, e) ↦ elim (Option-cases (lookup id s.by_id)) [
        | inl new_id ↦ named id source destination e new_id differ (ground arith) (ground arith)
        | inr (old, taken) ↦ absurd (ground arith)
      ]
    ]

check_wallets-Step :
    (registry : Option Registry) (s : Transfers) (req : CreateRequest) (source destination : String)
    → is_taken (is_str req.asset_transfer_intent_id) s.by_id ≡ false
    → Step
        (is_str req.asset_transfer_intent_id)
        s
        (check_wallets registry s req source destination).0
unfolding check_wallets log_and_answer
check_wallets-Step registry s req source destination free =
    elim (Bool-cases (str_eq source destination)) [
      | inl same ↦ unchanged (ground arith) (ground arith)
      | inr differ ↦ elim (Bool-cases (same_text req.position_owner_wallet_id source)) [
        | inr stranger ↦ unchanged (ground arith) (ground arith)
        | inl owner ↦ elim (Bool-cases (destination_eligible registry destination)) [
          | inr closed ↦ unchanged (ground arith) (ground arith)
          | inl eligible ↦
              rw (differ, owner, eligible)
                (store_pending-Step s req source destination
                  (ne_of_str_eq source destination differ) free)
        ]
      ]
    ]

pub create-Step :
    (registry : Option Registry) (s : Transfers) (req : CreateRequest)
    → Step (is_str req.asset_transfer_intent_id) s (create_asset_transfer_intent registry s req).0
unfolding create_asset_transfer_intent
create-Step registry s req = elim (Option-cases (is_str req.context.audit_actor)) [
  | inl anonymous ↦ unchanged (ground arith) (ground arith)
  | inr (actor, a) ↦ elim (Bool-cases (same_text req.context.permission_role "admin")) [
    | inr denied ↦ unchanged (ground arith) (ground arith)
    | inl admin ↦
        elim (Bool-cases (is_taken (is_str req.context.idempotency_key) s.by_idempotency)) [
          | inl spent ↦ unchanged (ground arith) (ground arith)
          | inr unspent ↦
              elim (Bool-cases (is_taken (is_str req.asset_transfer_intent_id) s.by_id)) [
                | inl taken ↦ unchanged (ground arith) (ground arith)
                | inr free ↦ elim (Option-cases (is_str req.source_execution_wallet_id)) [
                  | inl missing ↦ unchanged (ground arith) (ground arith)
                  | inr (source, from) ↦
                      elim (Option-cases (is_str req.destination_execution_wallet_id)) [
                        | inl missing ↦ unchanged (ground arith) (ground arith)
                        | inr (destination, to) ↦
                            let e : (create_asset_transfer_intent registry s req).0
                                ≡ (check_wallets registry s req source destination).0 =
                              ground arith in
                            rw e (check_wallets-Step registry s req source destination free)
                      ]
                ]
              ]
        ]
  ]
]

pub cancel-Step :
    (s : Transfers) (id : String) (ctx : Context)
    → Step none s (cancel_asset_transfer_intent s id ctx).0
unfolding cancel_asset_transfer_intent
cancel-Step s id ctx = elim (Option-cases (is_str ctx.audit_actor)) [
  | inl anonymous ↦ unchanged (ground arith) (ground arith)
  | inr (actor, a) ↦ elim (Bool-cases (same_text ctx.permission_role "admin")) [
    | inr denied ↦ unchanged (ground arith) (ground arith)
    | inl admin ↦ elim (Option-cases (lookup id s.by_id)) [
      | inl missing ↦ unchanged (ground arith) (ground arith)
      | inr (cur, found) ↦
          elim (Bool-cases (allowed cur.asset_transfer_status AssetTransferStatus.cancelled)) [
            | inr illegal ↦ unchanged (ground arith) (ground arith)
            | inl edge ↦
                moved id cur AssetTransferStatus.cancelled found edge (ground arith) (ground arith)
          ]
    ]
  ]
]

pub simulate-Step :
    (s : Transfers) (id : String) (to_status : Arg AssetTransferStatus)
    → Step none s (simulate s id to_status).0
unfolding simulate
simulate-Step s id to_status = elim (Option-cases (lookup id s.by_id)) [
  | inl missing ↦ unchanged (ground arith) (ground arith)
  | inr (cur, found) ↦ elim (Option-cases (includes to_status)) [
    | inl bad ↦ unchanged (ground arith) (ground arith)
    | inr (to, e) ↦ elim (Bool-cases (allowed cur.asset_transfer_status to)) [
      | inr illegal ↦ unchanged (ground arith) (ground arith)
      | inl edge ↦ moved id cur to found edge (ground arith) (ground arith)
    ]
  ]
]

-- The id that a call asks for.
abbrev pub requested_id : Option Registry × Call → Option String
requested_id (registry, create_call req) = is_str req.asset_transfer_intent_id
requested_id (registry, cancel_call id ctx) = none
requested_id (registry, simulate_call id to) = none

pub call-Step : (s : Transfers) (c : Option Registry × Call) → Step (requested_id c) s (call s c)
unfolding call
call-Step s (registry, create_call req) = create-Step registry s req
call-Step s (registry, cancel_call id ctx) = cancel-Step s id ctx
call-Step s (registry, simulate_call id to) = simulate-Step s id to
