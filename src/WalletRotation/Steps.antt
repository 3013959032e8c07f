-- ===== src/WalletRotation/Steps.antt =====
-- What each operation does to the rotations and to the counter.
use solana_trading_bot.Prelude.{
  String, ◌+◌, ◌≡◌, refl, inl, inr, none, some, true, arith, Option, is_str, includes, same_text,
  str_eq, Bool-cases, Option-cases, refused, coded, Reply, ApiErrorCode, ◌||◌,
}
use solana_trading_bot.Prelude.Decimal.{counter_id}
use solana_trading_bot.Ssot.{RotationTrigger, WalletRotationStatus, ExecutionWalletStatus}
use solana_trading_bot.Store.{lookup, insert}
use solana_trading_bot.WalletRotation.{
  Rotation, World, RotateRequest, Reason, allowed, log_request, status_of, pending_rotation,
  store_rotation, check_statuses, check_wallets, rotate_execution_wallet, is_revoked, is_active,
}
use solana_trading_bot.WalletRotation.Completion.{simulate_fail}

pub data Step (v w : World) : Type 0 where
  unchanged : w.by_id ≡ v.by_id → w.seq ≡ v.seq → Step v w
  added :
      (trigger : RotationTrigger) (from to : String)
      → w.by_id
        ≡ insert
            (counter_id "rot-" (v.seq + 1))
            (pending_rotation (counter_id "rot-" (v.seq + 1)) trigger from to)
            v.by_id
      → w.seq ≡ v.seq + 1
      → Step v w
  moved :
      (key : String) (cur : Rotation) (to : WalletRotationStatus) (intent : Option String)
      → lookup key v.by_id ≡ some cur
      → allowed cur.wallet_rotation_status to ≡ true
      → w.by_id
        ≡ insert cur.id
            (record cur { wallet_rotation_status = to; asset_transfer_intent_id = intent })
            v.by_id
      → w.seq ≡ v.seq
      → Step v w

log_request-Step :
    (v : World) (req : RotateRequest) (why : String) (code : Option ApiErrorCode)
    (reply : Reply Reason String)
    → Step v (log_request v req why code reply).0
unfolding log_request
log_request-Step v req why code reply = elim (Option-cases req.request_id) [
  | inl hidden ↦ unchanged (ground arith) (ground arith)
  | inr (id, e) ↦ unchanged (ground arith) (ground arith)
]

store-Step :
    (v : World) (req : RotateRequest) (trigger : RotationTrigger) (from to : String)
    → Step v (store_rotation v req trigger from to).0
unfolding store_rotation log_request
store-Step v req trigger from to = elim (Option-cases req.request_id) [
  | inl hidden ↦ added trigger from to (ground arith) (ground arith)
  | inr (id, e) ↦ added trigger from to (ground arith) (ground arith)
]

statuses-Step :
    (v : World) (req : RotateRequest) (trigger : RotationTrigger) (from to : String)
    (from_status to_status : ExecutionWalletStatus)
    → Step v (check_statuses v req trigger from to from_status to_status).0
unfolding check_statuses
statuses-Step v req trigger from to from_status to_status =
    elim (Bool-cases (is_revoked from_status || is_revoked to_status)) [
      | inl revoked ↦ rw revoked (log_request-Step v req _ none _)
      | inr alive ↦ elim (Bool-cases (is_active to_status)) [
        | inr closed ↦ rw (alive, closed) (log_request-Step v req _ none _)
        | inl serving ↦ elim (Bool-cases (is_active from_status)) [
          | inr closed ↦ rw (alive, serving, closed) (log_request-Step v req _ none _)
          | inl leaving ↦ rw (alive, serving, leaving) (store-Step v req trigger from to)
        ]
      ]
    ]

wallets-Step :
    (v : World) (req : RotateRequest) (trigger : RotationTrigger) (from to : String)
    → Step v (check_wallets v req trigger from to).0
unfolding check_wallets
wallets-Step v req trigger from to = elim (Bool-cases (str_eq from to)) [
  | inl same ↦ rw same (log_request-Step v req _ none _)
  | inr differ ↦ elim (Option-cases (status_of v from)) [
    | inl missing ↦
        let e : check_wallets v req trigger from to
            ≡ log_request v req "rotation_wallet_not_found" none
                (refused Reason.rotation_wallet_not_found) =
          ground arith in
        rw e (log_request-Step v req _ none _)
    | inr (from_status, f) ↦ elim (Option-cases (status_of v to)) [
      | inl missing ↦
          let e : check_wallets v req trigger from to
              ≡ log_request v req "rotation_wallet_not_found" none
                  (refused Reason.rotation_wallet_not_found) =
            ground arith in
          rw e (log_request-Step v req _ none _)
      | inr (to_status, t) ↦
          let e : check_wallets v req trigger from to
              ≡ check_statuses v req trigger from to from_status to_status =
            ground arith in
          rw e (statuses-Step v req trigger from to from_status to_status)
    ]
  ]
]

pub rotate-Step :
    (v : World) (req : Option RotateRequest) → Step v (rotate_execution_wallet v req).0
unfolding rotate_execution_wallet
rotate-Step v none = unchanged refl refl
rotate-Step v (some req) = elim (Option-cases (is_str req.audit_actor)) [
  | inl anonymous ↦ unchanged (ground arith) (ground arith)
  | inr (actor, a) ↦ elim (Bool-cases (same_text req.permission_role "admin")) [
    | inr denied ↦
        let e : rotate_execution_wallet v (some req)
            ≡ log_request v req "denied: admin_required" (some ApiErrorCode.permission_denied)
                (coded ApiErrorCode.permission_denied Reason.admin_required) =
          ground arith in
        rw e (log_request-Step v req _ _ _)
    | inl admin ↦ elim (Option-cases (includes req.rotation_trigger)) [
      | inl bad ↦
          let e : rotate_execution_wallet v (some req)
              ≡ log_request v req "invalid_rotation_trigger" none
                  (refused Reason.invalid_rotation_trigger) =
            ground arith in
          rw e (log_request-Step v req _ _ _)
      | inr (trigger, t) ↦ elim (Option-cases (is_str req.rotation_from_execution_wallet_id)) [
        | inl missing ↦
            let e : rotate_execution_wallet v (some req)
                ≡ log_request v req "rotation_wallet_not_found" none
                    (refused Reason.rotation_wallet_not_found) =
              ground arith in
            rw e (log_request-Step v req _ _ _)
        | inr (from, f) ↦ elim (Option-cases (is_str req.rotation_to_execution_wallet_id)) [
          | inl missing ↦
              let e : rotate_execution_wallet v (some req)
                  ≡ log_request v req "rotation_wallet_not_found" none
                      (refused Reason.rotation_wallet_not_found) =
                ground arith in
              rw e (log_request-Step v req _ _ _)
          | inr (to, g) ↦
              let e : rotate_execution_wallet v (some req) ≡ check_wallets v req trigger from to =
                ground arith in
              rw e (wallets-Step v req trigger from to)
        ]
      ]
    ]
  ]
]

pub fail-Step : (v : World) (key : String) → Step v (simulate_fail v key).0
unfolding simulate_fail
fail-Step v key = elim (Option-cases (lookup key v.by_id)) [
  | inl missing ↦ unchanged (ground arith) (ground arith)
  | inr (cur, found) ↦
      elim (Bool-cases (allowed cur.wallet_rotation_status WalletRotationStatus.failed)) [
        | inr illegal ↦ unchanged (ground arith) (ground arith)
        | inl edge ↦
            moved key cur WalletRotationStatus.failed cur.asset_transfer_intent_id found edge
              (ground arith) (ground arith)
      ]
]
